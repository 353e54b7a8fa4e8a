-- ===== src/Expr.antt =====
-- modules/bm_sim/include/bm_sim/expressions.h and modules/bm_sim/src/expressions.cpp: expressions as
-- sequences of operations, how they are put together, and the temporaries that build() gives them.
pub mod Machine
pub mod Tree
pub mod Resolve
pub mod Code
pub mod Moves
pub mod Built
pub mod Runs
pub mod Operations
pub mod Blocks
pub mod Compose
pub mod Under
pub mod Choice
pub mod Leaves
pub mod Parts
pub mod Correct
mod Examples
use behavioral_model.Base.{
  ℕ, zero, suc, ◌+◌, ◌-◌, Bool, true, false, Option, none, some, List, [], ◌∷◌, ◌++◌, max, length,
  ◌>>=◌,
}

-- enum class ExprOpcode: the operations of two numbers, the comparisons, and the operations of two
-- Booleans are types of their own.
pub data Arith : Type 0 where
  add sub mod_op mul shift_left shift_right bit_and bit_or bit_xor two_comp_mod : Arith

pub data Compare : Type 0 where
  eq_data neq_data gt_data lt_data get_data let_data : Compare

pub data Logic : Type 0 where
  and_op or_op : Logic

-- struct Op: an opcode with the member of the union that it uses. The last number of `arith`,
-- `bit_neg` and `bool_to_data` is data_dest_index.
pub data Op : Type 0 where
  load_field : ℕ → ℕ → Op
  load_header : ℕ → Op
  load_bool : Bool → Op
  load_const load_local : ℕ → Op
  load_register_ref : ℕ → ℕ → Op
  load_register_gen : ℕ → Op
  arith_op : Arith → ℕ → Op
  compare_op : Compare → Op
  logic_op : Logic → Op
  not_op : Op
  bit_neg : ℕ → Op
  valid_header ternary_op : Op
  skip : ℕ → Op
  data_to_bool : Op
  bool_to_data : ℕ → Op

pub record Expression (D : Type 0) : Type 0 where
  pub ops : List Op
  pub const_values : List D
  pub data_registers_cnt : ℕ
  pub built : Bool

-- An op of an appended expression, its constant moved behind those that are there.
unfoldable pub move_const : ℕ → Op → Op
move_const offset_consts (load_const i) = load_const (i + offset_consts)
move_const offset_consts (load_field h f) = load_field h f
move_const offset_consts (load_header h) = load_header h
move_const offset_consts (load_bool b) = load_bool b
move_const offset_consts (load_local i) = load_local i
move_const offset_consts (load_register_ref a i) = load_register_ref a i
move_const offset_consts (load_register_gen a) = load_register_gen a
move_const offset_consts (arith_op o d) = arith_op o d
move_const offset_consts (compare_op c) = compare_op c
move_const offset_consts (logic_op l) = logic_op l
move_const offset_consts not_op = not_op
move_const offset_consts (bit_neg d) = bit_neg d
move_const offset_consts valid_header = valid_header
move_const offset_consts ternary_op = ternary_op
move_const offset_consts (skip n) = skip n
move_const offset_consts data_to_bool = data_to_bool
move_const offset_consts (bool_to_data d) = bool_to_data d

unfoldable pub move_consts : ℕ → List Op → List Op
unfolding move_const
move_consts offset_consts [] = []
move_consts offset_consts (op ∷ ops) = move_const offset_consts op ∷ move_consts offset_consts ops

module _ {D : Type 0} where
  abbrev pub no_expression : Expression D
  no_expression = record { ops = []; const_values = []; data_registers_cnt = 0; built = false }

  -- push_back_op and the push_back_load functions of an op that needs no constant.
  unfoldable pub push_back_op : Op → Expression D → Expression D
  push_back_op op e = record e { ops = e.ops ++ (op ∷ []) }

  unfoldable pub push_back_load_const : D → Expression D → Expression D
  unfolding push_back_op
  push_back_load_const d e =
      push_back_op (load_const (length e.const_values))
        (record e { const_values = e.const_values ++ (d ∷ []) })

  unfoldable pub append_expression : Expression D → Expression D → Expression D
  unfolding move_consts
  append_expression e' e = record e {
    ops = e.ops ++ move_consts (length e.const_values) e'.ops;
    const_values = e.const_values ++ e'.const_values;
  }

  unfoldable pub push_back_ternary_op : Expression D → Expression D → Expression D → Expression D
  unfolding push_back_op append_expression
  push_back_ternary_op e1 e2 e = append_expression e2 (
      push_back_op (skip (length e2.ops)) (
        append_expression e1 (push_back_op (skip (length e1.ops + 1)) (push_back_op ternary_op e))))

-- The variables of assign_dest_registers. The stack holds what was added to `registers_curr`, so
-- that taking it off again never goes below 0.
pub record Registers : Type 0 where
  pub registers_cnt : ℕ
  pub registers_curr : ℕ
  pub new_registers : List ℕ

-- top() and pop(); `none` is a top() of an empty stack.
unfoldable pub pop_register : Registers → Option Registers
pop_register a = elim (a.new_registers) [
  | [] ↦ none
  | top ∷ below ↦ some (record a { registers_curr = a.registers_curr - top; new_registers = below })
]

unfoldable pub push_register : ℕ → Registers → Registers
push_register n a = record a {
  registers_curr = a.registers_curr + n;
  new_registers = n ∷ a.new_registers;
}

-- The switch of assign_dest_registers.
unfoldable pub assign_dest : Op → Registers → Option (Op × Registers)
unfolding pop_register push_register
assign_dest (arith_op o d) a = do
  a1 ← pop_register a
  a2 ← pop_register a1
  some (arith_op o a2.registers_curr, push_register 1 a2)
assign_dest (bit_neg d) a = do
  a1 ← pop_register a
  some (bit_neg a1.registers_curr, push_register 1 a1)
assign_dest (bool_to_data d) a = some (bool_to_data a.registers_curr, push_register 1 a)
assign_dest (compare_op c) a = do a1 ← pop_register a; a2 ← pop_register a1; some (compare_op c, a2)
assign_dest data_to_bool a = do a1 ← pop_register a; some (data_to_bool, a1)
assign_dest (load_const i) a = some (load_const i, push_register 0 a)
assign_dest (load_local i) a = some (load_local i, push_register 0 a)
assign_dest (load_field h f) a = some (load_field h f, push_register 0 a)
assign_dest (load_register_ref r i) a = some (load_register_ref r i, push_register 0 a)
assign_dest (load_register_gen r) a = do
  a1 ← pop_register a
  some (load_register_gen r, push_register 0 a1)
assign_dest (load_header h) a = some (load_header h, a)
assign_dest (load_bool b) a = some (load_bool b, a)
assign_dest (logic_op l) a = some (logic_op l, a)
assign_dest not_op a = some (not_op, a)
assign_dest valid_header a = some (valid_header, a)
assign_dest ternary_op a = some (ternary_op, a)
assign_dest (skip n) a = some (skip n, a)

-- The end of the body of its loop.
unfoldable pub counted : Registers → Registers
counted a = record a { registers_cnt = max a.registers_cnt a.registers_curr }

unfoldable pub assign_dests : List Op → Registers → Option (List Op × Registers)
unfolding assign_dest counted
assign_dests [] a = some ([], a)
assign_dests (op ∷ ops) a = do
  (op', a1) ← assign_dest op a
  (ops', a2) ← assign_dests ops (counted a1)
  some (op' ∷ ops', a2)

abbrev pub no_registers : Registers
no_registers = record { registers_cnt = 0; registers_curr = 0; new_registers = [] }

-- build, with assign_dest_registers.
unfoldable pub build : {D : Type 0} → Expression D → Option (Expression D)
unfolding assign_dests
build e = do
  (ops, a) ← assign_dests e.ops no_registers
  some (record e { ops = ops; data_registers_cnt = a.registers_cnt; built = true })
