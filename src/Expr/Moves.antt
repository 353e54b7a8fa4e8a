-- ===== src/Expr/Moves.antt =====
-- The operations of a tree with their constants moved, as append_expression moves them.
use behavioral_model.Base.{ℕ, suc, ◌+◌, List, [], ◌∷◌, ◌++◌, length, ◌≡◌, refl, sym, ap, ◌∙◌, arith}
use behavioral_model.Expr.{
  Op, load_const, load_register_gen, arith_op, compare_op, logic_op, not_op, bit_neg, ternary_op,
  skip, data_to_bool, bool_to_data, move_const, move_consts,
}
use behavioral_model.Expr.Machine.{DataOps}
use behavioral_model.Expr.Tree.{
  DataTree, field, hexstr, local, register, register_at, arith_tree, unary, neg, choice, of_bool,
  BoolTree, bool, valid, compare, logic, not_tree, to_bool, choice_bool,
}
use behavioral_model.Expr.Choice.{ternary}
use behavioral_model.Expr.Code.{data_consts, bool_consts, data_code, bool_code}

-- Sequences of operations whose constants can be moved.
abbrev pub Moves : (ℕ → List Op) → Type 0
Moves c = (k j : ℕ) → move_consts k (c j) ≡ c (j + k)

move_consts-append :
    (k : ℕ) (xs ys : List Op) → move_consts k (xs ++ ys) ≡ move_consts k xs ++ move_consts k ys
unfolding move_consts
move_consts-append k [] ys = refl
move_consts-append k (x ∷ xs) ys = ap (λ zs. move_const k x ∷ zs) (move_consts-append k xs ys)

pub length-move_consts : (k : ℕ) (xs : List Op) → length (move_consts k xs) ≡ length xs
unfolding move_consts
length-move_consts k [] = refl
length-move_consts k (x ∷ xs) = ap suc (length-move_consts k xs)

pub Moves-from_zero : (c : ℕ → List Op) → Moves c → (k : ℕ) → move_consts k (c 0) ≡ c k
Moves-from_zero c m k = m k 0 ∙ ap c zero_add
  where
    zero_add : 0 + k ≡ k
    zero_add = omega arith

pub Moves-length : (c : ℕ → List Op) → Moves c → (k : ℕ) → length (c 0) ≡ length (c k)
Moves-length c m k = sym (length-move_consts k (c 0)) ∙ ap length (Moves-from_zero c m k)

Moves-two : (c d : ℕ → List Op) (n : ℕ) → Moves c → Moves d → Moves (λ j. c j ++ d (j + n))
Moves-two c d n mc md k j =
    move_consts-append k (c j) (d (j + n)) ∙ (λ i. mc k j i ++ (md k (j + n) ∙ ap d swap) i)
  where
    swap : j + n + k ≡ j + k + n
    swap = omega arith

Moves-op :
    (c : ℕ → List Op) (op : Op)
    → ((k : ℕ) → move_const k op ≡ op)
    → Moves c
    → Moves (λ j. c j ++ (op ∷ []))
unfolding move_consts
Moves-op c op keeps mc k j =
    move_consts-append k (c j) (op ∷ []) ∙ (λ i. mc k j i ++ (keeps k i ∷ []))

move_consts-ternary :
    (k : ℕ) (l r l' r' : List Op)
    → move_consts k l ≡ l'
    → move_consts k r ≡ r'
    → move_consts k (ternary l r) ≡ ternary l' r'
unfolding move_consts
move_consts-ternary k l r l' r' el er = λ i. ternary_op ∷ (skip (length_l i + 1) ∷ sides i)
  where
    length_l : length l ≡ length l'
    length_l = sym (length-move_consts k l) ∙ ap length el

    length_r : length r ≡ length r'
    length_r = sym (length-move_consts k r) ∙ ap length er

    sides : move_consts k (l ++ (skip (length r) ∷ r)) ≡ l' ++ (skip (length r') ∷ r')
    sides = move_consts-append k l (skip (length r) ∷ r) ∙ (λ i. el i ++ (skip (length_r i) ∷ er i))

Moves-ternary :
    (c l r : ℕ → List Op) (n m : ℕ)
    → Moves c
    → Moves l
    → Moves r
    → Moves (λ j. c j ++ ternary (l (j + n)) (r (j + n + m)))
Moves-ternary c l r n m mc ml mr k j =
    move_consts-append k (c j) (ternary (l (j + n)) (r (j + n + m))) ∙ (λ i.
      mc k j i
      ++ move_consts-ternary k (l (j + n)) (r (j + n + m)) (l (j + k + n)) (r (j + k + n + m))
          (ml k (j + n) ∙ ap l swap_l) (mr k (j + n + m) ∙ ap r swap_r) i)
  where
    swap_l : j + n + k ≡ j + k + n
    swap_l = omega arith

    swap_r : j + n + m + k ≡ j + k + n + m
    swap_r = omega arith

module _ {D : Type 0} (dops : DataOps D) where
  mutual
    unfolding data_code bool_code move_const move_consts

    pub data_code-Moves : (tree : DataTree D) → Moves (data_code dops tree)
    data_code-Moves (field h f) = λ k j. refl
    data_code-Moves (hexstr d) = λ k j. refl
    data_code-Moves (local i) = λ k j. refl
    data_code-Moves (register a i) = λ k j. refl
    data_code-Moves (register_at a index) =
        Moves-op (data_code dops index) (load_register_gen a) (λ k. refl) (data_code-Moves index)
    data_code-Moves (arith_tree o left right) =
        Moves-op
          (λ j. data_code dops left j ++ data_code dops right (j + length (data_consts dops left)))
          (arith_op o 0) (λ k. refl)
          (Moves-two (data_code dops left) (data_code dops right) (length (data_consts dops left))
            (data_code-Moves left) (data_code-Moves right))
    data_code-Moves (unary o right) =
        Moves-op (λ j. (load_const j ∷ []) ++ data_code dops right (j + 1)) (arith_op o 0)
          (λ k. refl)
          (Moves-two (λ j. load_const j ∷ []) (data_code dops right) 1 (λ k j. refl)
            (data_code-Moves right))
    data_code-Moves (neg right) =
        Moves-op (data_code dops right) (bit_neg 0) (λ k. refl) (data_code-Moves right)
    data_code-Moves (choice cond left right) =
        Moves-ternary (bool_code dops cond) (data_code dops left) (data_code dops right)
          (length (bool_consts dops cond)) (length (data_consts dops left)) (bool_code-Moves cond)
          (data_code-Moves left) (data_code-Moves right)
    data_code-Moves (of_bool right) =
        Moves-op (bool_code dops right) (bool_to_data 0) (λ k. refl) (bool_code-Moves right)

    pub bool_code-Moves : (tree : BoolTree D) → Moves (bool_code dops tree)
    bool_code-Moves (bool b) = λ k j. refl
    bool_code-Moves (valid h) = λ k j. refl
    bool_code-Moves (compare c left right) =
        Moves-op
          (λ j. data_code dops left j ++ data_code dops right (j + length (data_consts dops left)))
          (compare_op c) (λ k. refl)
          (Moves-two (data_code dops left) (data_code dops right) (length (data_consts dops left))
            (data_code-Moves left) (data_code-Moves right))
    bool_code-Moves (logic l left right) =
        Moves-op
          (λ j. bool_code dops left j ++ bool_code dops right (j + length (bool_consts dops left)))
          (logic_op l) (λ k. refl)
          (Moves-two (bool_code dops left) (bool_code dops right) (length (bool_consts dops left))
            (bool_code-Moves left) (bool_code-Moves right))
    bool_code-Moves (not_tree right) =
        Moves-op (bool_code dops right) not_op (λ k. refl) (bool_code-Moves right)
    bool_code-Moves (to_bool right) =
        Moves-op (data_code dops right) data_to_bool (λ k. refl) (data_code-Moves right)
    bool_code-Moves (choice_bool cond left right) =
        Moves-ternary (bool_code dops cond) (bool_code dops left) (bool_code dops right)
          (length (bool_consts dops cond)) (length (bool_consts dops left)) (bool_code-Moves cond)
          (bool_code-Moves left) (bool_code-Moves right)
