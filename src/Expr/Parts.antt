-- ===== src/Expr/Parts.antt =====
-- The operations of each tree as a part that pushes the value of the tree.
use behavioral_model.Base.{
  ℕ, ◌+◌, not, Option, some, List, [], ◌∷◌, ◌++◌, length, get_elem?, ◌>>=◌, ◌≡◌, refl, sym, subst,
}
use behavioral_model.Expr.{
  Op, load_field, load_const, load_local, load_register_ref, load_register_gen, arith_op,
  compare_op, logic_op, not_op, bit_neg, data_to_bool, bool_to_data, assign_dest,
}
use behavioral_model.Expr.Machine.{DataOps, Env, arith_case, logic_case, eval_op}
use behavioral_model.Expr.Tree.{
  DataTree, field, hexstr, local, register, register_at, arith_tree, unary, neg, choice, of_bool,
  BoolTree, bool, valid, compare, logic, not_tree, to_bool, choice_bool, data_value, bool_value,
}
use behavioral_model.Expr.Blocks.{Results, Block}
use behavioral_model.Expr.Compose.{both, Block-both}
use behavioral_model.Expr.Choice.{truth, Block-choice}
use behavioral_model.Expr.Under.{Operation, Block-under}
use behavioral_model.Expr.Code.{data_consts, bool_consts, data_code, bool_code}
use behavioral_model.Expr.Runs.{datum}
use behavioral_model.Expr.Operations.{
  arith_op-Operation, compare_op-Operation, logic_op-Operation, not_op-Operation, bit_neg-Operation,
  data_to_bool-Operation, bool_to_data-Operation, load_register_gen-Operation,
}
use behavioral_model.Expr.Leaves.{
  bind_pair, Reads, Reads-left, Reads-right, Reads-head, Block-load, Block-load_const,
  Block-load_bool, Block-valid,
}

module _ {D : Type 0} (dops : DataOps D) (env : Env D) (const_values : List D) where
  Block-binary :
      {X Y : Type 0} (arg : X → Results D) (res : Y → Results D) (f : X → X → Option Y)
      (c1 c2 : List Op) (op : Op) (k n : ℕ) (m : List ℕ) (v1 v2 : Option X)
      → n ≡ k + k
      → Operation dops env const_values (both arg arg) res (λ p. f p.0 p.1) op n m
      → Block dops env const_values arg c1 k v1
      → Block dops env const_values arg c2 k v2
      → Block dops env const_values res
          ((c1 ++ c2) ++ (op ∷ []))
          (length m)
          (v1 >>= (λ x. v2 >>= (λ y. f x y)))
  Block-binary {X} {Y} arg res f c1 c2 op k n m v1 v2 e o b1 b2 =
      subst (Block dops env const_values res ((c1 ++ c2) ++ (op ∷ [])) (length m))
        (bind_pair v1 v2 f)
        (Block-under dops env const_values (both arg arg) res (λ p. f p.0 p.1) (c1 ++ c2) op n m
          (v1 >>= (λ x. ◌>>=◌ {B = X × X} v2 (λ y. some (x, y)))) o
          (subst
            (λ j.
              Block dops env const_values (both arg arg) (c1 ++ c2) j
                (v1 >>= (λ x. ◌>>=◌ {B = X × X} v2 (λ y. some (x, y)))))
            (sym e) (Block-both dops env const_values arg arg c1 c2 k k v1 v2 b1 b2)))

  mutual
    unfolding data_code bool_code data_consts bool_consts data_value bool_value assign_dest eval_op

    pub data_code-Block :
        (tree : DataTree D) (k : ℕ)
        → Reads dops env const_values k (data_consts dops tree)
        → Block dops env const_values datum (data_code dops tree k) 1 (data_value dops env tree)
    data_code-Block (field h f) k r =
        Block-load dops env const_values (load_field h f) (env.field h f) (λ a. refl)
          (λ t b d s. refl)
    data_code-Block (hexstr d) k r =
        Block-load_const dops env const_values k d (Reads-head dops env const_values k d [] r)
    data_code-Block (local i) k r =
        Block-load dops env const_values (load_local i) (get_elem? env.locals i) (λ a. refl)
          (λ t b d s. refl)
    data_code-Block (register a i) k r =
        Block-load dops env const_values (load_register_ref a i) (env.register a i) (λ a. refl)
          (λ t b d s. refl)
    data_code-Block (register_at a index) k r =
        Block-under dops env const_values datum datum
          (λ x. dops.to_index x >>= (λ i. env.register a i)) (data_code dops index k)
          (load_register_gen a) 1 (0 ∷ []) (data_value dops env index)
          (load_register_gen-Operation dops env const_values a) (data_code-Block index k r)
    data_code-Block (arith_tree o left right) k r =
        Block-binary datum datum (arith_case dops o) (data_code dops left k)
          (data_code dops right (k + length (data_consts dops left))) (arith_op o 0) 1 2 (1 ∷ [])
          (data_value dops env left) (data_value dops env right) refl
          (arith_op-Operation dops env const_values o)
          (data_code-Block left k
            (Reads-left dops env const_values k (data_consts dops left) (data_consts dops right) r))
          (data_code-Block right (k + length (data_consts dops left)) (
            Reads-right dops env const_values k (data_consts dops left) (data_consts dops right) r))
    data_code-Block (unary o right) k r =
        Block-binary datum datum (arith_case dops o) (load_const k ∷ [])
          (data_code dops right (k + 1)) (arith_op o 0) 1 2 (1 ∷ []) (some dops.zero_data)
          (data_value dops env right) refl (arith_op-Operation dops env const_values o)
          (Block-load_const dops env const_values k dops.zero_data
            (Reads-head dops env const_values k dops.zero_data (data_consts dops right) r))
          (data_code-Block right (k + 1)
            (Reads-right dops env const_values k (dops.zero_data ∷ []) (data_consts dops right) r))
    data_code-Block (neg right) k r =
        Block-under dops env const_values datum datum (λ x. dops.negate x) (data_code dops right k)
          (bit_neg 0) 1 (1 ∷ []) (data_value dops env right)
          (bit_neg-Operation dops env const_values) (data_code-Block right k r)
    data_code-Block (choice cond left right) k r =
        let cs = bool_consts dops cond in
        let ls = data_consts dops left in
        let rs = data_consts dops right in
        let r' = Reads-right dops env const_values k cs (ls ++ rs) r in
        Block-choice dops env const_values datum (bool_code dops cond k)
          (data_code dops left (k + length cs)) (data_code dops right (k + length cs + length ls)) 1
          (bool_value dops env cond) (data_value dops env left) (data_value dops env right)
          (bool_code-Block cond k (Reads-left dops env const_values k cs (ls ++ rs) r))
          (data_code-Block left (k + length cs)
            (Reads-left dops env const_values (k + length cs) ls rs r'))
          (data_code-Block right (k + length cs + length ls)
            (Reads-right dops env const_values (k + length cs) ls rs r'))
    data_code-Block (of_bool right) k r =
        Block-under dops env const_values truth datum (λ x. some (dops.of_bool x))
          (bool_code dops right k) (bool_to_data 0) 0 (1 ∷ []) (bool_value dops env right)
          (bool_to_data-Operation dops env const_values) (bool_code-Block right k r)

    pub bool_code-Block :
        (tree : BoolTree D) (k : ℕ)
        → Reads dops env const_values k (bool_consts dops tree)
        → Block dops env const_values truth (bool_code dops tree k) 0 (bool_value dops env tree)
    bool_code-Block (bool x) k r = Block-load_bool dops env const_values x
    bool_code-Block (valid h) k r = Block-valid dops env const_values h
    bool_code-Block (compare c left right) k r =
        Block-binary datum truth (λ x y. dops.compares c x y) (data_code dops left k)
          (data_code dops right (k + length (data_consts dops left))) (compare_op c) 1 2 []
          (data_value dops env left) (data_value dops env right) refl
          (compare_op-Operation dops env const_values c)
          (data_code-Block left k
            (Reads-left dops env const_values k (data_consts dops left) (data_consts dops right) r))
          (data_code-Block right (k + length (data_consts dops left)) (
            Reads-right dops env const_values k (data_consts dops left) (data_consts dops right) r))
    bool_code-Block (logic l left right) k r =
        Block-binary truth truth (λ x y. some (logic_case l x y)) (bool_code dops left k)
          (bool_code dops right (k + length (bool_consts dops left))) (logic_op l) 0 0 []
          (bool_value dops env left) (bool_value dops env right) refl
          (logic_op-Operation dops env const_values l)
          (bool_code-Block left k
            (Reads-left dops env const_values k (bool_consts dops left) (bool_consts dops right) r))
          (bool_code-Block right (k + length (bool_consts dops left)) (
            Reads-right dops env const_values k (bool_consts dops left) (bool_consts dops right) r))
    bool_code-Block (not_tree right) k r =
        Block-under dops env const_values truth truth (λ x. some (not x)) (bool_code dops right k)
          not_op 0 [] (bool_value dops env right) (not_op-Operation dops env const_values)
          (bool_code-Block right k r)
    bool_code-Block (to_bool right) k r =
        Block-under dops env const_values datum truth (λ x. some (not (dops.is_zero x)))
          (data_code dops right k) data_to_bool 1 [] (data_value dops env right)
          (data_to_bool-Operation dops env const_values) (data_code-Block right k r)
    bool_code-Block (choice_bool cond left right) k r =
        let cs = bool_consts dops cond in
        let ls = bool_consts dops left in
        let rs = bool_consts dops right in
        let r' = Reads-right dops env const_values k cs (ls ++ rs) r in
        Block-choice dops env const_values truth (bool_code dops cond k)
          (bool_code dops left (k + length cs)) (bool_code dops right (k + length cs + length ls)) 0
          (bool_value dops env cond) (bool_value dops env left) (bool_value dops env right)
          (bool_code-Block cond k (Reads-left dops env const_values k cs (ls ++ rs) r))
          (bool_code-Block left (k + length cs)
            (Reads-left dops env const_values (k + length cs) ls rs r'))
          (bool_code-Block right (k + length cs + length ls)
            (Reads-right dops env const_values (k + length cs) ls rs r'))
