-- ===== src/Expr/Correct.antt =====
-- Every expression that build_expression makes is built, and evaluates to what it means.
use behavioral_model.Base.{
  ℕ, zero, suc, ◌+◌, ◌-◌, ◌≤◌, Bool, true, Option, none, some, List, [], ◌++◌, length, get_elem?,
  replicate, ◌>>=◌, ◌≡◌, refl, sym, ap, ◌∙◌, arith, length-append,
}
use behavioral_model.Expr.{
  Op, Registers, assign_dests, Expression, no_expression, no_registers, build,
}
use behavioral_model.Expr.Machine.{
  DataOps, Env, Temps, state, pop_data, pop_bool, eval_ops, grown, eval_, eval_bool, eval_arith,
}
use behavioral_model.Expr.Tree.{DataTree, BoolTree, build_data, build_bool, data_value, bool_value}
use behavioral_model.Expr.Blocks.{sum, above, Meets, Reached}
use behavioral_model.Expr.Choice.{truth}
use behavioral_model.Expr.Code.{data_consts, bool_consts, data_code, bool_code}
use behavioral_model.Expr.Built.{build_data-Adds, build_bool-Adds}
use behavioral_model.Expr.Runs.{datum, pop_data-one}
use behavioral_model.Expr.Parts.{data_code-Block, bool_code-Block}
use mathlib.Core.List.{append-nil}

module _ {D : Type 0} (dops : DataOps D) (env : Env D) (const_values : List D) where
  finish_arith :
      (v : Option D) (c c' : ℕ) (t : List D) (run : Option (Temps D))
      → Meets (λ d. Reached dops env const_values c c' [] t [] [] [] (datum d)) v run
      → (run >>= (λ s. pop_data dops env const_values s >>= (λ p. some p.0))) ≡ v
  unfolding eval_ops
  finish_arith none c c' t run m = rw m refl
  finish_arith (some d) c c' t run m =
      let (t', rs, e, f, hs) = m in
      ap (λ o. o >>= (λ s. pop_data dops env const_values s >>= (λ p. some p.0))) e
      ∙ ap (λ o. o >>= (λ p. some p.0)) (pop_data-one dops env const_values t' c' [] rs [] [] d hs)

  finish_bool :
      (v : Option Bool) (c c' : ℕ) (t : List D) (run : Option (Temps D))
      → Meets (λ x. Reached dops env const_values c c' [] t [] [] [] (truth x)) v run
      → (run >>= (λ s. pop_bool dops env const_values s >>= (λ p. some p.0))) ≡ v
  unfolding eval_ops pop_bool
  finish_bool none c c' t run m = rw m refl
  finish_bool (some x) c c' t run m =
      let (t', rs, e, f, hs) = m in
      ap (λ o. o >>= (λ s. pop_bool dops env const_values s >>= (λ p. some p.0))) e

length-replicate : {A : Type 0} (n : ℕ) (a : A) → length (replicate n a) ≡ n
length-replicate zero a = refl
length-replicate (suc n) a = ap suc (length-replicate n a)

length-grown : {D : Type 0} (d : D) (n : ℕ) (temps : List D) → n ≤ length (grown d n temps)
unfolding grown
length-grown d n temps = omega (
  arith,
  length-append temps (replicate (n - length temps) d),
  length-replicate (n - length temps) d,
)

abbrev built_expression : {D : Type 0} → List Op → List D → ℕ → Expression D
built_expression ops consts cnt = record {
  ops = ops;
  const_values = consts;
  data_registers_cnt = cnt;
  built = true;
}

build_lem :
    {D : Type 0} (code out : List Op) (consts : List D) (a : Registers)
    → assign_dests code no_registers ≡ some (out, a)
    → build (record no_expression { ops = code; const_values = consts })
      ≡ some (built_expression out consts a.registers_cnt)
unfolding build
build_lem code out consts a e = rw e refl

module _ {D : Type 0} (dops : DataOps D) (env : Env D) (temps : List D) where
  -- An expression made for a tree of numbers is built, and evaluates to the value of the tree,
  -- whatever earlier evaluations have left in the temporaries; it faults where the tree has no value.
  pub build_data-value :
      (tree : DataTree D)
      → (e : Expression D) × (build (build_data dops tree no_expression) ≡ some e)
        × (eval_arith dops env temps e ≡ data_value dops env tree)
  unfolding eval_arith eval_
  build_data-value tree =
      let consts = data_consts dops tree in
      let block =
        data_code-Block dops env consts tree 0 (λ i d h. ap (get_elem? consts) (omega arith) ∙ h)
          no_registers (omega arith) in
      let t = grown dops.zero_data block.cnt temps in
      (
        built_expression block.out consts block.cnt,
        ap build (build_data-Adds dops tree no_expression)
            ∙ build_lem (data_code dops tree 0) block.out consts
                (above no_registers block.cnt block.pushed) block.assigned,
        ap
              (λ ops.
                eval_ops dops env consts ops 0 (state t [] [] [])
                >>= (λ s. pop_data dops env consts s >>= (λ p. some p.0)))
              (sym (append-nil block.out))
            ∙ finish_arith dops env consts (data_value dops env tree) 0 (0 + sum block.pushed) t
                (eval_ops dops env consts (block.out ++ []) 0 (state t [] [] []))
                (block.runs [] t [] [] [] (length-grown dops.zero_data block.cnt temps)),
      )

  -- An expression made for a tree of Booleans is built, and eval_bool gives the value of the tree,
  -- whatever earlier evaluations have left in the temporaries; it faults where the tree has no value.
  pub build_bool-value :
      (tree : BoolTree D)
      → (e : Expression D) × (build (build_bool dops tree no_expression) ≡ some e)
        × (eval_bool dops env temps e ≡ bool_value dops env tree)
  unfolding eval_bool eval_
  build_bool-value tree =
      let consts = bool_consts dops tree in
      let block =
        bool_code-Block dops env consts tree 0 (λ i d h. ap (get_elem? consts) (omega arith) ∙ h)
          no_registers (omega arith) in
      let t = grown dops.zero_data block.cnt temps in
      (
        built_expression block.out consts block.cnt,
        ap build (build_bool-Adds dops tree no_expression)
            ∙ build_lem (bool_code dops tree 0) block.out consts
                (above no_registers block.cnt block.pushed) block.assigned,
        ap
              (λ ops.
                eval_ops dops env consts ops 0 (state t [] [] [])
                >>= (λ s. pop_bool dops env consts s >>= (λ p. some p.0)))
              (sym (append-nil block.out))
            ∙ finish_bool dops env consts (bool_value dops env tree) 0 (0 + sum block.pushed) t
                (eval_ops dops env consts (block.out ++ []) 0 (state t [] [] []))
                (block.runs [] t [] [] [] (length-grown dops.zero_data block.cnt temps)),
      )
