-- ===== src/Expr/Machine.antt =====
-- eval_ of modules/bm_sim/src/expressions.cpp: the stack machine that runs an expression.
use behavioral_model.Base.{
  ℕ, zero, suc, ◌-◌, Bool, not, ◌&&◌, ◌||◌, Option, none, some, List, [], ◌∷◌, ◌++◌, length,
  get_elem?, set, replicate, ltb, if◌then◌else◌, ◌>>=◌,
}
use behavioral_model.Expr.{
  Arith, add, sub, mod_op, mul, shift_left, shift_right, bit_and, bit_or, bit_xor, two_comp_mod,
  Compare, Logic, and_op, or_op, Op, load_field, load_header, load_bool, load_const, load_local,
  load_register_ref, load_register_gen, arith_op, compare_op, logic_op, not_op, bit_neg,
  valid_header, ternary_op, skip, data_to_bool, bool_to_data, Expression,
}

-- What eval_ asks of class Data: `none` is a failed assertion.
pub record DataOps (D : Type 0) : Type 0 where
  pub zero_data : D
  pub arith : Arith → D → D → Option D
  pub compares : Compare → D → D → Option Bool
  pub negate : D → Option D
  pub is_zero : D → Bool
  pub of_bool : Bool → D
  pub to_index : D → Option ℕ

-- The packet's fields and headers, the locals, and the cells of the register arrays. `none` is a
-- read out of range.
pub record Env (D : Type 0) : Type 0 where
  pub field : ℕ → ℕ → Option D
  pub is_valid : ℕ → Option Bool
  pub locals : List D
  pub register : ℕ → ℕ → Option D

-- A pointer on the data stack: to a temporary, or to a value that the evaluation leaves alone.
pub data Ref (D : Type 0) : Type 0 where
  temp : ℕ → Ref D
  value : D → Ref D

pub record Temps (D : Type 0) : Type 0 where
  pub data_temps : List D
  pub bool_stack : List Bool
  pub data_stack : List (Ref D)
  pub header_stack : List ℕ

abbrev pub state : {D : Type 0} → List D → List Bool → List (Ref D) → List ℕ → Temps D
state t b d h = record { data_temps = t; bool_stack = b; data_stack = d; header_stack = h }

-- The cases of the operations of two numbers; MOD has none.
unfoldable pub arith_case : {D : Type 0} → DataOps D → Arith → D → D → Option D
arith_case dops add l r = dops.arith add l r
arith_case dops sub l r = dops.arith sub l r
arith_case dops mod_op l r = none
arith_case dops mul l r = dops.arith mul l r
arith_case dops shift_left l r = dops.arith shift_left l r
arith_case dops shift_right l r = dops.arith shift_right l r
arith_case dops bit_and l r = dops.arith bit_and l r
arith_case dops bit_or l r = dops.arith bit_or l r
arith_case dops bit_xor l r = dops.arith bit_xor l r
arith_case dops two_comp_mod l r = dops.arith two_comp_mod l r

unfoldable pub logic_case : Logic → Bool → Bool → Bool
logic_case and_op l r = l && r
logic_case or_op l r = l || r

module _ {D : Type 0} (dops : DataOps D) (env : Env D) (const_values : List D) where
  unfoldable pub read : List D → Ref D → Option D
  read temps (temp i) = get_elem? temps i
  read temps (value d) = some d

  -- back(), pop_back() and the value pointed to.
  unfoldable pub pop_data : Temps D → Option (D × Temps D)
  unfolding read
  pop_data s = elim (s.data_stack) [
    | [] ↦ none
    | r ∷ below ↦ do d ← read s.data_temps r; some (d, record s { data_stack = below })
  ]

  unfoldable pub pop_bool : Temps D → Option (Bool × Temps D)
  pop_bool s = elim (s.bool_stack) [
    | [] ↦ none
    | b ∷ below ↦ some (b, record s { bool_stack = below })
  ]

  unfoldable pub push_bool : Bool → Temps D → Temps D
  push_bool b s = record s { bool_stack = b ∷ s.bool_stack }

  unfoldable pub push_value : D → Temps D → Temps D
  push_value d s = record s { data_stack = value d ∷ s.data_stack }

  -- A result is written to its temporary and a pointer to it pushed.
  unfoldable pub store : ℕ → D → Temps D → Option (Temps D)
  store dest d s =
      if ltb dest (length s.data_temps)
      then some
          (record s { data_temps = set s.data_temps dest d; data_stack = temp dest ∷ s.data_stack })
      else none

  -- The switch of eval_: the number of ops to leave out, and the state. `none` is a fault: a stack
  -- that is empty, an index out of range, or a failed assertion.
  unfoldable pub eval_op : Op → Temps D → Option (ℕ × Temps D)
  unfolding pop_data pop_bool push_bool push_value store arith_case logic_case
  eval_op (load_field h f) s = do d ← env.field h f; some (0, push_value d s)
  eval_op (load_header h) s = some (0, record s { header_stack = h ∷ s.header_stack })
  eval_op (load_bool b) s = some (0, push_bool b s)
  eval_op (load_const i) s = do d ← get_elem? const_values i; some (0, push_value d s)
  eval_op (load_local i) s = do d ← get_elem? env.locals i; some (0, push_value d s)
  eval_op (load_register_ref a i) s = do d ← env.register a i; some (0, push_value d s)
  eval_op (load_register_gen a) s = do
    (rd, s1) ← pop_data s
    i ← dops.to_index rd
    d ← env.register a i
    some (0, push_value d s1)
  eval_op (arith_op o dest) s = do
    (rd, s1) ← pop_data s
    (ld, s2) ← pop_data s1
    d ← arith_case dops o ld rd
    s3 ← store dest d s2
    some (0, s3)
  eval_op (compare_op c) s = do
    (rd, s1) ← pop_data s
    (ld, s2) ← pop_data s1
    b ← dops.compares c ld rd
    some (0, push_bool b s2)
  eval_op (logic_op l) s = do
    (rb, s1) ← pop_bool s
    (lb, s2) ← pop_bool s1
    some (0, push_bool (logic_case l lb rb) s2)
  eval_op not_op s = do (rb, s1) ← pop_bool s; some (0, push_bool (not rb) s1)
  eval_op (bit_neg dest) s = do
    (rd, s1) ← pop_data s
    d ← dops.negate rd
    s2 ← store dest d s1
    some (0, s2)
  eval_op valid_header s = elim (s.header_stack) [
    | [] ↦ none
    | h ∷ below ↦ do b ← env.is_valid h; some (0, push_bool b (record s { header_stack = below }))
  ]
  eval_op ternary_op s = do (b, s1) ← pop_bool s; some (if b then 1 else 0, s1)
  eval_op (skip n) s = some (n, s)
  eval_op data_to_bool s = do (rd, s1) ← pop_data s; some (0, push_bool (not (dops.is_zero rd)) s1)
  eval_op (bool_to_data dest) s = do
    (rb, s1) ← pop_bool s
    s2 ← store dest (dops.of_bool rb) s1
    some (0, s2)

  -- The loop of eval_, with the number of ops that are still to be left out.
  unfoldable pub eval_ops : List Op → ℕ → Temps D → Option (Temps D)
  unfolding eval_op
  eval_ops [] n s = some s
  eval_ops (op ∷ ops) zero s = eval_op op s >>= (λ r. eval_ops ops r.0 r.1)
  eval_ops (op ∷ ops) (suc n) s = eval_ops ops n s

-- The temporaries of a thread, `temps` as earlier calls left them, grown to the number needed.
unfoldable pub grown : {D : Type 0} → D → ℕ → List D → List D
grown d n temps = temps ++ replicate (n - length temps) d

unfoldable pub eval_ : {D : Type 0} → DataOps D → Env D → List D → Expression D → Option (Temps D)
unfolding eval_ops grown
eval_ dops env temps e =
    if e.built
    then eval_ops dops env e.const_values e.ops 0
        (state (grown dops.zero_data e.data_registers_cnt temps) [] [] [])
    else none

unfoldable pub eval_bool : {D : Type 0} → DataOps D → Env D → List D → Expression D → Option Bool
unfolding eval_ pop_bool
eval_bool dops env temps e = do
  s ← eval_ dops env temps e
  (b, _) ← pop_bool dops env e.const_values s
  some b

unfoldable pub eval_arith : {D : Type 0} → DataOps D → Env D → List D → Expression D → Option D
unfolding eval_ pop_data
eval_arith dops env temps e = do
  s ← eval_ dops env temps e
  (d, _) ← pop_data dops env e.const_values s
  some d
