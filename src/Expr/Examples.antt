-- ===== src/Expr/Examples.antt =====
-- Tests of expressions, and examples of their theorems.
use behavioral_model.Base.{
  ℕ, ◌+◌, ◌-◌, Bool, true, not, Option, none, some, [], ◌∷◌, get_elem?, leb, ltb, ◌==◌,
  if◌then◌else◌, ◌≡◌, refl,
}
use behavioral_model.Expr.{
  Arith, add, sub, Compare, eq_data, neq_data, gt_data, lt_data, get_data, let_data, and_op,
  load_local, load_const, arith_op, Expression, no_expression, build,
}
use behavioral_model.Expr.Machine.{DataOps, Env, eval_arith, eval_bool}
use behavioral_model.Expr.Tree.{
  DataTree, field, hexstr, register_at, arith_tree, choice, BoolTree, valid, compare, logic,
  build_data, build_bool, data_value, bool_value,
}
use behavioral_model.Expr.Correct.{build_data-value, build_bool-value}
use behavioral_model.Expr.Resolve.{resolve, input_offsets, resolve-eval_arith}

abbrev arith_ℕ : Arith → ℕ → ℕ → Option ℕ
arith_ℕ add l r = some (l + r)
arith_ℕ sub l r = some (l - r)
arith_ℕ o l r = none

abbrev compares_ℕ : Compare → ℕ → ℕ → Option Bool
compares_ℕ eq_data l r = some (l == r)
compares_ℕ neq_data l r = some (not (l == r))
compares_ℕ gt_data l r = some (ltb r l)
compares_ℕ lt_data l r = some (ltb l r)
compares_ℕ get_data l r = some (leb r l)
compares_ℕ let_data l r = some (leb l r)

abbrev numbers : DataOps ℕ
numbers = record {
  zero_data = 0;
  arith = arith_ℕ;
  compares = compares_ℕ;
  negate = λ d. some (255 - d);
  is_zero = λ d. d == 0;
  of_bool = λ b. if b then 1 else 0;
  to_index = λ d. some d;
}

abbrev packet : Env ℕ
packet = record {
  field = λ h f. get_elem? (20 ∷ (6 ∷ [])) f;
  is_valid = λ h. some (h == 0);
  locals = 20 ∷ (6 ∷ []);
  register = λ a i. get_elem? (7 ∷ (8 ∷ (9 ∷ []))) i;
}

-- (valid(h0) and f0 > 5 ? f0 + 1 : R[f1]) - (f1 + 2)
abbrev condition : BoolTree ℕ
condition = logic and_op (valid 0) (compare gt_data (field 0 0) (hexstr 5))

abbrev formula : DataTree ℕ
formula =
    arith_tree sub
      (choice condition (arith_tree add (field 0 0) (hexstr 1)) (register_at 0 (field 0 1)))
      (arith_tree add (field 0 1) (hexstr 2))

formula_value : data_value numbers packet formula ≡ some 13
unfolding data_value
formula_value = refl

-- The side that is not taken reads a register out of range, and does not fault.
not_evaluated : data_value numbers packet (register_at 0 (field 0 1)) ≡ none
unfolding data_value
not_evaluated = refl

build_data-value_example :
    (e : Expression ℕ) × (build (build_data numbers formula no_expression) ≡ some e)
    × (eval_arith numbers packet (9 ∷ []) e ≡ data_value numbers packet formula)
build_data-value_example = build_data-value numbers packet (9 ∷ []) formula

build_bool-value_example :
    (e : Expression ℕ) × (build (build_bool numbers condition no_expression) ≡ some e)
    × (eval_bool numbers packet [] e ≡ bool_value numbers packet condition)
build_bool-value_example = build_bool-value numbers packet [] condition

abbrev header_length : Expression ℕ
header_length = record {
  ops = load_local 1 ∷ (load_const 0 ∷ (arith_op add 0 ∷ []));
  const_values = 4 ∷ [];
  data_registers_cnt = 1;
  built = true;
}

header_length_value : eval_arith numbers packet [] header_length ≡ some 10
unfolding eval_arith
header_length_value = refl

resolve-eval_arith_example :
    (e' : Expression ℕ) × (resolve 3 header_length ≡ some e')
    × (input_offsets e'.ops ≡ [])
    × (eval_arith numbers packet [] e' ≡ eval_arith numbers packet [] header_length)
resolve-eval_arith_example = resolve-eval_arith numbers packet [] 3 header_length (λ i. refl) refl
