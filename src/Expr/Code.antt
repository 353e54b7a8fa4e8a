-- ===== src/Expr/Code.antt =====
-- The operations and the constants that build_expression adds for a tree.
use behavioral_model.Base.{ℕ, ◌+◌, List, [], ◌∷◌, ◌++◌, length}
use behavioral_model.Expr.{
  Op, load_field, load_header, load_bool, load_const, load_local, load_register_ref,
  load_register_gen, arith_op, compare_op, logic_op, not_op, bit_neg, valid_header, data_to_bool,
  bool_to_data,
}
use behavioral_model.Expr.Machine.{DataOps}
use behavioral_model.Expr.Tree.{
  DataTree, field, hexstr, local, register, register_at, arith_tree, unary, neg, choice, of_bool,
  BoolTree, bool, valid, compare, logic, not_tree, to_bool, choice_bool,
}
use behavioral_model.Expr.Choice.{ternary}

module _ {D : Type 0} (dops : DataOps D) where
  unfoldable mutual
    pub data_consts : DataTree D → List D
    data_consts (field h f) = []
    data_consts (hexstr d) = d ∷ []
    data_consts (local i) = []
    data_consts (register a i) = []
    data_consts (register_at a index) = data_consts index
    data_consts (arith_tree o left right) = data_consts left ++ data_consts right
    data_consts (unary o right) = dops.zero_data ∷ data_consts right
    data_consts (neg right) = data_consts right
    data_consts (choice cond left right) =
        bool_consts cond ++ (data_consts left ++ data_consts right)
    data_consts (of_bool right) = bool_consts right

    pub bool_consts : BoolTree D → List D
    bool_consts (bool b) = []
    bool_consts (valid h) = []
    bool_consts (compare c left right) = data_consts left ++ data_consts right
    bool_consts (logic l left right) = bool_consts left ++ bool_consts right
    bool_consts (not_tree right) = bool_consts right
    bool_consts (to_bool right) = data_consts right
    bool_consts (choice_bool cond left right) =
        bool_consts cond ++ (bool_consts left ++ bool_consts right)

  -- The operations where `k` constants are there already.
  unfoldable mutual
    unfolding data_consts bool_consts

    pub data_code : DataTree D → ℕ → List Op
    data_code (field h f) k = load_field h f ∷ []
    data_code (hexstr d) k = load_const k ∷ []
    data_code (local i) k = load_local i ∷ []
    data_code (register a i) k = load_register_ref a i ∷ []
    data_code (register_at a index) k = data_code index k ++ (load_register_gen a ∷ [])
    data_code (arith_tree o left right) k =
        (data_code left k ++ data_code right (k + length (data_consts left))) ++ (arith_op o 0 ∷ [])
    data_code (unary o right) k =
        ((load_const k ∷ []) ++ data_code right (k + 1)) ++ (arith_op o 0 ∷ [])
    data_code (neg right) k = data_code right k ++ (bit_neg 0 ∷ [])
    data_code (choice cond left right) k =
        let j = k + length (bool_consts cond) in
        bool_code cond k
        ++ ternary (data_code left j) (data_code right (j + length (data_consts left)))
    data_code (of_bool right) k = bool_code right k ++ (bool_to_data 0 ∷ [])

    pub bool_code : BoolTree D → ℕ → List Op
    bool_code (bool b) k = load_bool b ∷ []
    bool_code (valid h) k = load_header h ∷ (valid_header ∷ [])
    bool_code (compare c left right) k =
        (data_code left k ++ data_code right (k + length (data_consts left))) ++ (compare_op c ∷ [])
    bool_code (logic l left right) k =
        (bool_code left k ++ bool_code right (k + length (bool_consts left))) ++ (logic_op l ∷ [])
    bool_code (not_tree right) k = bool_code right k ++ (not_op ∷ [])
    bool_code (to_bool right) k = data_code right k ++ (data_to_bool ∷ [])
    bool_code (choice_bool cond left right) k =
        let j = k + length (bool_consts cond) in
        bool_code cond k
        ++ ternary (bool_code left j) (bool_code right (j + length (bool_consts left)))
