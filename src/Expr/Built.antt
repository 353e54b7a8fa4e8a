-- ===== src/Expr/Built.antt =====
-- What build_expression adds to the expression that it is given.
use behavioral_model.Base.{
  ℕ, ◌+◌, List, [], ◌∷◌, ◌++◌, length, ◌≡◌, refl, sym, ap, ◌∙◌, arith, length-append,
}
use behavioral_model.Expr.{
  Op, load_field, load_header, load_bool, load_const, load_local, load_register_ref,
  load_register_gen, arith_op, compare_op, logic_op, not_op, bit_neg, valid_header, ternary_op,
  skip, data_to_bool, bool_to_data, Expression, no_expression, push_back_op, push_back_load_const,
  append_expression, push_back_ternary_op,
}
use behavioral_model.Expr.Machine.{DataOps}
use behavioral_model.Expr.Tree.{
  DataTree, field, hexstr, local, register, register_at, arith_tree, unary, neg, choice, of_bool,
  BoolTree, bool, valid, compare, logic, not_tree, to_bool, choice_bool, build_data, build_bool,
}
use behavioral_model.Expr.Choice.{ternary}
use behavioral_model.Expr.Code.{data_consts, bool_consts, data_code, bool_code}
use behavioral_model.Expr.Moves.{
  Moves, Moves-from_zero, Moves-length, data_code-Moves, bool_code-Moves,
}
use mathlib.Core.List.{append_assoc, append-nil}

ternary-ops :
    (xs l r : List Op) (t s s' : Op)
    → ((((xs ++ (t ∷ [])) ++ (s ∷ [])) ++ l) ++ (s' ∷ [])) ++ r ≡ xs ++ (t ∷ (s ∷ (l ++ (s' ∷ r))))
ternary-ops [] l r t s s' = ap (λ zs. t ∷ (s ∷ zs)) (append_assoc l (s' ∷ []) r)
ternary-ops (x ∷ xs) l r t s s' = ap (λ zs. x ∷ zs) (ternary-ops xs l r t s s')

module _ {D : Type 0} where
  abbrev extended : Expression D → List Op → List D → Expression D
  extended e ops consts = record e { ops = e.ops ++ ops; const_values = e.const_values ++ consts }

  abbrev Adds : (Expression D → Expression D) → (ℕ → List Op) → List D → Type 0
  Adds f c k = (e : Expression D) → f e ≡ extended e (c (length e.const_values)) k

  extended-extended :
      (e : Expression D) (xs ys : List Op) (ks js : List D)
      → extended (extended e xs ks) ys js ≡ extended e (xs ++ ys) (ks ++ js)
  extended-extended e xs ys ks js = λ i. record e {
    ops = append_assoc e.ops xs ys i;
    const_values = append_assoc e.const_values ks js i;
  }

  Adds-leaf : (op : Op) → Adds (push_back_op op) (λ n. op ∷ []) []
  unfolding push_back_op
  Adds-leaf op e =
      λ i. record e { ops = e.ops ++ (op ∷ []); const_values = sym (append-nil e.const_values) i }

  Adds-const : (d : D) → Adds (push_back_load_const d) (λ n. load_const n ∷ []) (d ∷ [])
  unfolding push_back_load_const
  Adds-const d e = refl

  Adds-two :
      (f g : Expression D → Expression D) (c d : ℕ → List Op) (ks js : List D)
      → Adds f c ks
      → Adds g d js
      → Adds (λ e. g (f e)) (λ n. c n ++ d (n + length ks)) (ks ++ js)
  Adds-two f g c d ks js af ag e =
      let n = length e.const_values in
      ap g (af e)
      ∙ ag (extended e (c n) ks)
      ∙ ap (λ m. extended (extended e (c n) ks) (d m) js) (length-append e.const_values ks)
      ∙ extended-extended e (c n) (d (n + length ks)) ks js

  Adds-op :
      (f : Expression D → Expression D) (c : ℕ → List Op) (ks : List D) (op : Op)
      → Adds f c ks
      → Adds (λ e. push_back_op op (f e)) (λ n. c n ++ (op ∷ [])) ks
  Adds-op f c ks op af e =
      let n = length e.const_values in
      ap (push_back_op op) (af e)
      ∙ Adds-leaf op (extended e (c n) ks)
      ∙ extended-extended e (c n) (op ∷ []) ks []
      ∙ ap (extended e (c n ++ (op ∷ []))) (append-nil ks)

  Adds-append :
      (e' : Expression D) (c : ℕ → List Op) (ks : List D)
      → Moves c
      → e' ≡ extended no_expression (c 0) ks
      → Adds (append_expression e') c ks
  unfolding append_expression
  Adds-append e' c ks m eq e =
      ap (λ x. append_expression x e) eq
      ∙ ap (λ ops. extended e ops ks) (Moves-from_zero c m (length e.const_values))

  Adds-ternary :
      (f : Expression D → Expression D) (e1 e2 : Expression D) (c l r : ℕ → List Op)
      (ks ls rs : List D)
      → Moves l
      → Moves r
      → Adds f c ks
      → e1 ≡ extended no_expression (l 0) ls
      → e2 ≡ extended no_expression (r 0) rs
      → Adds
          (λ e. push_back_ternary_op e1 e2 (f e))
          (λ n. c n ++ ternary (l (n + length ks)) (r (n + length ks + length ls)))
          (ks ++ (ls ++ rs))
  unfolding push_back_ternary_op
  Adds-ternary f e1 e2 c l r ks ls rs ml mr af eq1 eq2 e =
      Adds-two
        (λ e. push_back_op (skip (length e2.ops)) (
          append_expression e1
            (push_back_op (skip (length e1.ops + 1)) (push_back_op ternary_op (f e)))))
        (append_expression e2)
        (λ n.
          (((c n ++ (ternary_op ∷ [])) ++ (skip (length e1.ops + 1) ∷ [])) ++ l (n + length ks))
          ++ (skip (length e2.ops) ∷ []))
        r (ks ++ ls) rs
        (Adds-op
          (λ e.
            append_expression e1
              (push_back_op (skip (length e1.ops + 1)) (push_back_op ternary_op (f e))))
          (λ n.
            ((c n ++ (ternary_op ∷ [])) ++ (skip (length e1.ops + 1) ∷ [])) ++ l (n + length ks))
          (ks ++ ls) (skip (length e2.ops))
          (Adds-two (λ e. push_back_op (skip (length e1.ops + 1)) (push_back_op ternary_op (f e)))
            (append_expression e1)
            (λ n. (c n ++ (ternary_op ∷ [])) ++ (skip (length e1.ops + 1) ∷ [])) l ks ls
            (Adds-op (λ e. push_back_op ternary_op (f e)) (λ n. c n ++ (ternary_op ∷ [])) ks
              (skip (length e1.ops + 1)) (Adds-op f c ks ternary_op af))
            (Adds-append e1 l ls ml eq1)))
        (Adds-append e2 r rs mr eq2) e
      ∙ (λ i. extended e (ops i) (append_assoc ks ls rs i))
    where
      n : ℕ
      n = length e.const_values

      length_l : length e1.ops ≡ length (l (n + length ks))
      length_l = ap (λ x. length x.ops) eq1 ∙ Moves-length l ml (n + length ks)

      length_r : length e2.ops ≡ length (r (n + length ks + length ls))
      length_r = ap (λ x. length x.ops) eq2 ∙ Moves-length r mr (n + length ks + length ls)

      offset : n + length (ks ++ ls) ≡ n + length ks + length ls
      offset = omega (arith, length-append ks ls)

      ops :
          ((((c n ++ (ternary_op ∷ [])) ++ (skip (length e1.ops + 1) ∷ [])) ++ l (n + length ks))
              ++ (skip (length e2.ops) ∷ []))
            ++ r (n + length (ks ++ ls))
          ≡ c n ++ ternary (l (n + length ks)) (r (n + length ks + length ls))
      ops =
          ternary-ops (c n) (l (n + length ks)) (r (n + length (ks ++ ls))) ternary_op
            (skip (length e1.ops + 1)) (skip (length e2.ops))
          ∙ (λ i.
              c n
              ++ (ternary_op
                  ∷ (skip (length_l i + 1)
                      ∷ (l (n + length ks) ++ (skip (length_r i) ∷ r (offset i))))))

module _ {D : Type 0} (dops : DataOps D) where
  mutual
    unfolding build_data build_bool data_code bool_code data_consts bool_consts

    pub build_data-Adds :
        (tree : DataTree D)
        → Adds (build_data dops tree) (data_code dops tree) (data_consts dops tree)
    build_data-Adds (field h f) = Adds-leaf (load_field h f)
    build_data-Adds (hexstr d) = Adds-const d
    build_data-Adds (local i) = Adds-leaf (load_local i)
    build_data-Adds (register a i) = Adds-leaf (load_register_ref a i)
    build_data-Adds (register_at a index) =
        Adds-op (build_data dops index) (data_code dops index) (data_consts dops index)
          (load_register_gen a) (build_data-Adds index)
    build_data-Adds (arith_tree o left right) =
        Adds-op (λ e. build_data dops right (build_data dops left e))
          (λ n. data_code dops left n ++ data_code dops right (n + length (data_consts dops left)))
          (data_consts dops left ++ data_consts dops right) (arith_op o 0)
          (Adds-two (build_data dops left) (build_data dops right) (data_code dops left)
            (data_code dops right) (data_consts dops left) (data_consts dops right)
            (build_data-Adds left) (build_data-Adds right))
    build_data-Adds (unary o right) =
        Adds-op (λ e. build_data dops right (push_back_load_const dops.zero_data e))
          (λ n. (load_const n ∷ []) ++ data_code dops right (n + 1))
          (dops.zero_data ∷ data_consts dops right) (arith_op o 0)
          (Adds-two (push_back_load_const dops.zero_data) (build_data dops right)
            (λ n. load_const n ∷ []) (data_code dops right) (dops.zero_data ∷ [])
            (data_consts dops right) (Adds-const dops.zero_data) (build_data-Adds right))
    build_data-Adds (neg right) =
        Adds-op (build_data dops right) (data_code dops right) (data_consts dops right) (bit_neg 0)
          (build_data-Adds right)
    build_data-Adds (choice cond left right) =
        Adds-ternary (build_bool dops cond) (build_data dops left no_expression)
          (build_data dops right no_expression) (bool_code dops cond) (data_code dops left)
          (data_code dops right) (bool_consts dops cond) (data_consts dops left)
          (data_consts dops right) (data_code-Moves dops left) (data_code-Moves dops right)
          (build_bool-Adds cond) (build_data-Adds left no_expression)
          (build_data-Adds right no_expression)
    build_data-Adds (of_bool right) =
        Adds-op (build_bool dops right) (bool_code dops right) (bool_consts dops right)
          (bool_to_data 0) (build_bool-Adds right)

    pub build_bool-Adds :
        (tree : BoolTree D)
        → Adds (build_bool dops tree) (bool_code dops tree) (bool_consts dops tree)
    build_bool-Adds (bool b) = Adds-leaf (load_bool b)
    build_bool-Adds (valid h) =
        Adds-op (push_back_op (load_header h)) (λ n. load_header h ∷ []) [] valid_header
          (Adds-leaf (load_header h))
    build_bool-Adds (compare c left right) =
        Adds-op (λ e. build_data dops right (build_data dops left e))
          (λ n. data_code dops left n ++ data_code dops right (n + length (data_consts dops left)))
          (data_consts dops left ++ data_consts dops right) (compare_op c)
          (Adds-two (build_data dops left) (build_data dops right) (data_code dops left)
            (data_code dops right) (data_consts dops left) (data_consts dops right)
            (build_data-Adds left) (build_data-Adds right))
    build_bool-Adds (logic l left right) =
        Adds-op (λ e. build_bool dops right (build_bool dops left e))
          (λ n. bool_code dops left n ++ bool_code dops right (n + length (bool_consts dops left)))
          (bool_consts dops left ++ bool_consts dops right) (logic_op l)
          (Adds-two (build_bool dops left) (build_bool dops right) (bool_code dops left)
            (bool_code dops right) (bool_consts dops left) (bool_consts dops right)
            (build_bool-Adds left) (build_bool-Adds right))
    build_bool-Adds (not_tree right) =
        Adds-op (build_bool dops right) (bool_code dops right) (bool_consts dops right) not_op
          (build_bool-Adds right)
    build_bool-Adds (to_bool right) =
        Adds-op (build_data dops right) (data_code dops right) (data_consts dops right) data_to_bool
          (build_data-Adds right)
    build_bool-Adds (choice_bool cond left right) =
        Adds-ternary (build_bool dops cond) (build_bool dops left no_expression)
          (build_bool dops right no_expression) (bool_code dops cond) (bool_code dops left)
          (bool_code dops right) (bool_consts dops cond) (bool_consts dops left)
          (bool_consts dops right) (bool_code-Moves dops left) (bool_code-Moves dops right)
          (build_bool-Adds cond) (build_bool-Adds left no_expression)
          (build_bool-Adds right no_expression)
