-- ===== src/Expr/Resolve.antt =====
-- class VLHeaderExpression: the length of a header as an expression of its own fields, read as locals
-- until the header that it stands in is known; and grab_register_accesses.
use behavioral_model.Base.{
  ℕ, zero, suc, true, Option, none, some, List, [], ◌∷◌, get_elem?, if◌then◌else◌, ◌>>=◌, ◌≡◌, refl,
  ap, ◌∙◌,
}
use behavioral_model.Expr.{
  Op, load_field, load_header, load_bool, load_const, load_local, load_register_ref,
  load_register_gen, arith_op, compare_op, logic_op, not_op, bit_neg, valid_header, ternary_op,
  skip, data_to_bool, bool_to_data, Expression,
}
use behavioral_model.Expr.Machine.{
  DataOps, Env, Temps, eval_op, eval_ops, eval_, eval_arith, pop_data, state, grown,
}

-- The constructor's loop, for get_input_offsets.
unfoldable pub input_offsets : List Op → List ℕ
input_offsets [] = []
input_offsets (load_local i ∷ ops) = i ∷ input_offsets ops
input_offsets (_ ∷ ops) = input_offsets ops

unfoldable pub resolve_op : ℕ → Op → Op
resolve_op header_id (load_local i) = load_field header_id i
resolve_op header_id op = op

unfoldable pub resolve_ops : ℕ → List Op → List Op
unfolding resolve_op
resolve_ops header_id [] = []
resolve_ops header_id (op ∷ ops) = resolve_op header_id op ∷ resolve_ops header_id ops

-- resolve; `none` is the assertion that the expression is built.
unfoldable pub resolve : {D : Type 0} → ℕ → Expression D → Option (Expression D)
unfolding resolve_ops
resolve header_id e =
    if e.built then some (record e { ops = resolve_ops header_id e.ops }) else none

module _ {D : Type 0} (dops : DataOps D) (env : Env D) (const_values : List D) (header_id : ℕ)
    (same : (i : ℕ) → get_elem? env.locals i ≡ env.field header_id i) where
  resolve_op-eval :
      (op : Op) (s : Temps D)
      → eval_op dops env const_values (resolve_op header_id op) s
        ≡ eval_op dops env const_values op s
  unfolding resolve_op eval_op
  resolve_op-eval (load_local i) s = rw (same i) refl
  resolve_op-eval (load_field h f) s = refl
  resolve_op-eval (load_header h) s = refl
  resolve_op-eval (load_bool b) s = refl
  resolve_op-eval (load_const i) s = refl
  resolve_op-eval (load_register_ref a i) s = refl
  resolve_op-eval (load_register_gen a) s = refl
  resolve_op-eval (arith_op o d) s = refl
  resolve_op-eval (compare_op c) s = refl
  resolve_op-eval (logic_op l) s = refl
  resolve_op-eval not_op s = refl
  resolve_op-eval (bit_neg d) s = refl
  resolve_op-eval valid_header s = refl
  resolve_op-eval ternary_op s = refl
  resolve_op-eval (skip n) s = refl
  resolve_op-eval data_to_bool s = refl
  resolve_op-eval (bool_to_data d) s = refl

  resolve_ops-eval :
      (ops : List Op) (n : ℕ) (s : Temps D)
      → eval_ops dops env const_values (resolve_ops header_id ops) n s
        ≡ eval_ops dops env const_values ops n s
  unfolding resolve_ops eval_ops
  resolve_ops-eval [] n s = refl
  resolve_ops-eval (op ∷ ops) (suc n) s = resolve_ops-eval ops n s
  resolve_ops-eval (op ∷ ops) zero s =
      ap (λ o. o >>= (λ r. eval_ops dops env const_values (resolve_ops header_id ops) r.0 r.1))
        (resolve_op-eval op s)
      ∙ ap (λ f. eval_op dops env const_values op s >>= f) (λ i r. resolve_ops-eval ops r.0 r.1 i)

resolve_ops-no_offsets :
    (header_id : ℕ) (ops : List Op) → input_offsets (resolve_ops header_id ops) ≡ []
unfolding resolve_op resolve_ops input_offsets
resolve_ops-no_offsets header_id [] = refl
resolve_ops-no_offsets header_id (load_field h f ∷ ops) = resolve_ops-no_offsets header_id ops
resolve_ops-no_offsets header_id (load_header h ∷ ops) = resolve_ops-no_offsets header_id ops
resolve_ops-no_offsets header_id (load_bool b ∷ ops) = resolve_ops-no_offsets header_id ops
resolve_ops-no_offsets header_id (load_const i ∷ ops) = resolve_ops-no_offsets header_id ops
resolve_ops-no_offsets header_id (load_local i ∷ ops) = resolve_ops-no_offsets header_id ops
resolve_ops-no_offsets header_id (load_register_ref a i ∷ ops) =
    resolve_ops-no_offsets header_id ops
resolve_ops-no_offsets header_id (load_register_gen a ∷ ops) = resolve_ops-no_offsets header_id ops
resolve_ops-no_offsets header_id (arith_op o d ∷ ops) = resolve_ops-no_offsets header_id ops
resolve_ops-no_offsets header_id (compare_op c ∷ ops) = resolve_ops-no_offsets header_id ops
resolve_ops-no_offsets header_id (logic_op l ∷ ops) = resolve_ops-no_offsets header_id ops
resolve_ops-no_offsets header_id (not_op ∷ ops) = resolve_ops-no_offsets header_id ops
resolve_ops-no_offsets header_id (bit_neg d ∷ ops) = resolve_ops-no_offsets header_id ops
resolve_ops-no_offsets header_id (valid_header ∷ ops) = resolve_ops-no_offsets header_id ops
resolve_ops-no_offsets header_id (ternary_op ∷ ops) = resolve_ops-no_offsets header_id ops
resolve_ops-no_offsets header_id (skip n ∷ ops) = resolve_ops-no_offsets header_id ops
resolve_ops-no_offsets header_id (data_to_bool ∷ ops) = resolve_ops-no_offsets header_id ops
resolve_ops-no_offsets header_id (bool_to_data d ∷ ops) = resolve_ops-no_offsets header_id ops

-- Where the locals are the fields of the header, the resolved expression, which reads the fields,
-- evaluates to what the expression evaluates to, faults included; and it is there when the expression
-- is built.
pub resolve-eval_arith :
    {D : Type 0} (dops : DataOps D) (env : Env D) (temps : List D) (header_id : ℕ)
    (e : Expression D)
    → ((i : ℕ) → get_elem? env.locals i ≡ env.field header_id i)
    → e.built ≡ true
    → (e' : Expression D) × (resolve header_id e ≡ some e')
      × (input_offsets e'.ops ≡ [])
      × (eval_arith dops env temps e' ≡ eval_arith dops env temps e)
unfolding resolve eval_arith eval_
resolve-eval_arith dops env temps header_id e same h = (
  record e { ops = resolve_ops header_id e.ops },
  ap (λ b. if b then some (record e { ops = resolve_ops header_id e.ops }) else none) h,
  resolve_ops-no_offsets header_id e.ops,
  ap
      (λ o.
        (if e.built then o else none)
        >>= (λ s. pop_data dops env e.const_values s >>= (λ p. some p.0)))
      (resolve_ops-eval dops env e.const_values header_id same e.ops 0
        (state (grown dops.zero_data e.data_registers_cnt temps) [] [] [])),
)
