-- ===== src/Expr/Tree.antt =====
-- P4Objects::build_expression of modules/bm_sim/src/P4Objects.cpp: from the expressions of the JSON
-- input, as trees of numbers and Booleans, to sequences of operations; and their meaning.
use behavioral_model.Base.{ℕ, Bool, not, Option, some, get_elem?, if◌then◌else◌, ◌>>=◌}
use behavioral_model.Expr.{
  Arith, Compare, Logic, load_field, load_header, load_bool, load_local, load_register_ref,
  load_register_gen, arith_op, compare_op, logic_op, not_op, bit_neg, valid_header, data_to_bool,
  bool_to_data, Expression, no_expression, push_back_op, push_back_load_const, push_back_ternary_op,
}
use behavioral_model.Expr.Machine.{DataOps, Env, arith_case, logic_case}

-- `unary` is + or - without a left operand.
mutual
  pub data DataTree (D : Type 0) : Type 0 where
    field : ℕ → ℕ → DataTree D
    hexstr : D → DataTree D
    local : ℕ → DataTree D
    register : ℕ → ℕ → DataTree D
    register_at : ℕ → DataTree D → DataTree D
    arith_tree : Arith → DataTree D → DataTree D → DataTree D
    unary : Arith → DataTree D → DataTree D
    neg : DataTree D → DataTree D
    choice : BoolTree D → DataTree D → DataTree D → DataTree D
    of_bool : BoolTree D → DataTree D

  pub data BoolTree (D : Type 0) : Type 0 where
    bool : Bool → BoolTree D
    valid : ℕ → BoolTree D
    compare : Compare → DataTree D → DataTree D → BoolTree D
    logic : Logic → BoolTree D → BoolTree D → BoolTree D
    not_tree : BoolTree D → BoolTree D
    to_bool : DataTree D → BoolTree D
    choice_bool : BoolTree D → BoolTree D → BoolTree D → BoolTree D

module _ {D : Type 0} (dops : DataOps D) where
  -- build_expression, which appends to the expression it is given.
  unfoldable mutual
    unfolding push_back_op push_back_load_const push_back_ternary_op

    pub build_data : DataTree D → Expression D → Expression D
    build_data (field h f) expr = push_back_op (load_field h f) expr
    build_data (hexstr d) expr = push_back_load_const d expr
    build_data (local i) expr = push_back_op (load_local i) expr
    build_data (register a i) expr = push_back_op (load_register_ref a i) expr
    build_data (register_at a index) expr =
        push_back_op (load_register_gen a) (build_data index expr)
    build_data (arith_tree o left right) expr =
        push_back_op (arith_op o 0) (build_data right (build_data left expr))
    build_data (unary o right) expr =
        push_back_op (arith_op o 0) (build_data right (push_back_load_const dops.zero_data expr))
    build_data (neg right) expr = push_back_op (bit_neg 0) (build_data right expr)
    build_data (choice cond left right) expr =
        push_back_ternary_op (build_data left no_expression) (build_data right no_expression)
          (build_bool cond expr)
    build_data (of_bool right) expr = push_back_op (bool_to_data 0) (build_bool right expr)

    pub build_bool : BoolTree D → Expression D → Expression D
    build_bool (bool b) expr = push_back_op (load_bool b) expr
    build_bool (valid h) expr = push_back_op valid_header (push_back_op (load_header h) expr)
    build_bool (compare c left right) expr =
        push_back_op (compare_op c) (build_data right (build_data left expr))
    build_bool (logic l left right) expr =
        push_back_op (logic_op l) (build_bool right (build_bool left expr))
    build_bool (not_tree right) expr = push_back_op not_op (build_bool right expr)
    build_bool (to_bool right) expr = push_back_op data_to_bool (build_data right expr)
    build_bool (choice_bool cond left right) expr =
        push_back_ternary_op (build_bool left no_expression) (build_bool right no_expression)
          (build_bool cond expr)

  -- What an expression means: its value in an environment, where only the chosen side of a choice is
  -- looked at.
  module _ (env : Env D) where
    unfoldable mutual
      unfolding arith_case logic_case

      pub data_value : DataTree D → Option D
      data_value (field h f) = env.field h f
      data_value (hexstr d) = some d
      data_value (local i) = get_elem? env.locals i
      data_value (register a i) = env.register a i
      data_value (register_at a index) =
          data_value index >>= (λ d. dops.to_index d >>= (λ i. env.register a i))
      data_value (arith_tree o left right) =
          data_value left >>= (λ l. data_value right >>= (λ r. arith_case dops o l r))
      data_value (unary o right) = data_value right >>= (λ r. arith_case dops o dops.zero_data r)
      data_value (neg right) = data_value right >>= (λ r. dops.negate r)
      data_value (choice cond left right) =
          let l = data_value left in
          let r = data_value right in bool_value cond >>= (λ b. if b then l else r)
      data_value (of_bool right) = bool_value right >>= (λ b. some (dops.of_bool b))

      pub bool_value : BoolTree D → Option Bool
      bool_value (bool b) = some b
      bool_value (valid h) = env.is_valid h
      bool_value (compare c left right) =
          data_value left >>= (λ l. data_value right >>= (λ r. dops.compares c l r))
      bool_value (logic o left right) =
          bool_value left >>= (λ l. bool_value right >>= (λ r. some (logic_case o l r)))
      bool_value (not_tree right) = bool_value right >>= (λ r. some (not r))
      bool_value (to_bool right) = data_value right >>= (λ r. some (not (dops.is_zero r)))
      bool_value (choice_bool cond left right) =
          let l = bool_value left in
          let r = bool_value right in bool_value cond >>= (λ b. if b then l else r)
