-- ===== src/Expr/Operations.antt =====
-- The cases of build() and of eval_, operation by operation.
use behavioral_model.Base.{
  ℕ, ◌+◌, Bool, not, Option, none, some, List, [], ◌∷◌, ◌++◌, ◌>>=◌, ◌≡◌, refl, sym, ap, fun_ext,
  ◌∙◌,
}
use behavioral_model.Expr.{
  Arith, Compare, Logic, Op, load_register_gen, arith_op, compare_op, logic_op, not_op, bit_neg,
  data_to_bool, bool_to_data, Registers, push_register, assign_dest,
}
use behavioral_model.Expr.Machine.{
  DataOps, Env, Ref, state, pop_bool, push_bool, push_value, store, arith_case, logic_case, eval_op,
}
use behavioral_model.Expr.Blocks.{above, Holds, Meets, Meets-cast, Results, Stepped}
use behavioral_model.Expr.Compose.{both, pops}
use behavioral_model.Expr.Choice.{truth}
use behavioral_model.Expr.Under.{Operation}
use behavioral_model.Expr.Runs.{
  datum, pops-one, pops-two, above_zero, pop_data-one, pop_data-two, Meets-stored, Meets-value,
  Meets-bool, no_refs,
}

abbrev pub nothing : {D : Type 0} → Unit {0} → Results D
nothing u = ([], [])

bind_assoc :
    {X Y Z : Type 0} (v : Option X) (f : X → Option Y) (g : Y → Option Z)
    → (v >>= f >>= g) ≡ (v >>= (λ x. f x >>= g))
bind_assoc none f g = refl
bind_assoc (some x) f g = refl

-- Popping registers without giving a new one.
pub pops-still :
    (k : ℕ) (op : Op) (a : Registers)
    → ◌>>=◌ {B = Op × Registers} (pops k a) (λ p. some (op, p))
      ≡ ◌>>=◌ {B = Op × Registers} (pops k a) (λ p. some (op, above p p.registers_cnt []))
pops-still k op a =
    ap (λ f. pops k a >>= f)
      (fun_ext {B = λ p. Option (Op × Registers)}
        (λ p. ap (λ z. some (op, z)) (above_zero p [] refl)))

module _ {D : Type 0} (dops : DataOps D) (env : Env D) (const_values : List D) where
  -- An operation on a state whose pointers are those that were there before.
  pub Meets-refs :
      {Y : Type 0} (results : Y → Results D) (v : Option Y) (op : Op) (dest c' c : ℕ) (t : List D)
      (b b' : List Bool) (d rs : List (Ref D)) (h : List ℕ)
      → Holds t c rs []
      → Meets
          (λ y. Stepped dops env const_values dest c' t b d h (results y))
          v
          (eval_op dops env const_values op (state t b' d h))
      → Meets
          (λ y. Stepped dops env const_values dest c' t b d h (results y))
          v
          (eval_op dops env const_values op (state t b' (rs ++ d) h))
  Meets-refs {Y} results v op dest c' c t b b' d rs h hs m =
      Meets-cast (λ (y : Y). Stepped dops env const_values dest c' t b d h (results y)) v
        (eval_op dops env const_values op (state t b' (rs ++ d) h))
        (eval_op dops env const_values op (state t b' d h))
        (ap (λ qs. eval_op dops env const_values op (state t b' (qs ++ d) h))
          (no_refs dops env const_values t c rs hs))
        m

  pub arith_op-Operation :
      (o : Arith)
      → Operation dops env const_values
          (both datum datum)
          datum
          (λ p. arith_case dops o p.0 p.1)
          (arith_op o 0)
          2
          (1 ∷ [])
  unfolding assign_dest push_register eval_op
  arith_op-Operation o = record {
    to_dest = arith_op o;
    assigns = λ a. pops-two a (λ p. some (arith_op o p.registers_curr, push_register 1 p));
    steps = λ dest c t b d rs h x lt hs.
        Meets-cast (λ (y : D). Stepped dops env const_values dest (dest + 1) t b d h (datum y))
          (arith_case dops o x.0 x.1)
          (eval_op dops env const_values (arith_op o dest) (state t b (rs ++ d) h))
          (arith_case dops o x.0 x.1
            >>= (λ y. store dops env const_values dest y (state t b d h) >>= (λ s. some (0, s))))
          (pop_data-two dops env const_values t c b rs d h x.0 x.1
            (λ r l s2.
              arith_case dops o l r
              >>= (λ y. store dops env const_values dest y s2 >>= (λ s. some (0, s))))
            hs)
          (Meets-stored dops env const_values (arith_case dops o x.0 x.1) dest t b d h lt);
  }

  pub compare_op-Operation :
      (c : Compare)
      → Operation dops env const_values
          (both datum datum)
          truth
          (λ p. dops.compares c p.0 p.1)
          (compare_op c)
          2
          []
  unfolding assign_dest eval_op
  compare_op-Operation c = record {
    to_dest = λ dest. compare_op c;
    assigns = λ a. pops-two a (λ p. some (compare_op c, p)) ∙ pops-still 2 (compare_op c) a;
    steps = λ dest c' t b d rs h x lt hs.
        Meets-cast (λ (y : Bool). Stepped dops env const_values dest (dest + 0) t b d h (truth y))
          (dops.compares c x.0 x.1)
          (eval_op dops env const_values (compare_op c) (state t b (rs ++ d) h))
          (dops.compares c x.0 x.1
            >>= (λ y. some (0, push_bool dops env const_values y (state t b d h))))
          (pop_data-two dops env const_values t c' b rs d h x.0 x.1
            (λ r l s2.
              dops.compares c l r >>= (λ y. some (0, push_bool dops env const_values y s2)))
            hs)
          (Meets-bool dops env const_values (dops.compares c x.0 x.1) dest (dest + 0) t b d h);
  }

  pub logic_op-Operation :
      (l : Logic)
      → Operation dops env const_values
          (both truth truth)
          truth
          (λ p. some (logic_case l p.0 p.1))
          (logic_op l)
          0
          []
  unfolding assign_dest eval_op pop_bool pops
  logic_op-Operation l = record {
    to_dest = λ dest. logic_op l;
    assigns = λ a. pops-still 0 (logic_op l) a;
    steps = λ dest c t b d rs h x lt hs.
        Meets-refs truth (some (logic_case l x.0 x.1)) (logic_op l) dest (dest + 0) c t b
          (x.1 ∷ x.0 ∷ b) d rs h hs
          (Meets-bool dops env const_values (some (logic_case l x.0 x.1)) dest (dest + 0) t b d h);
  }

  pub not_op-Operation : Operation dops env const_values truth truth (λ x. some (not x)) not_op 0 []
  unfolding assign_dest eval_op pop_bool pops
  not_op-Operation = record {
    to_dest = λ dest. not_op;
    assigns = λ a. pops-still 0 not_op a;
    steps = λ dest c t b d rs h x lt hs.
        Meets-refs truth (some (not x)) not_op dest (dest + 0) c t b (x ∷ b) d rs h hs
          (Meets-bool dops env const_values (some (not x)) dest (dest + 0) t b d h);
  }

  pub bit_neg-Operation :
      Operation dops env const_values datum datum (λ x. dops.negate x) (bit_neg 0) 1 (1 ∷ [])
  unfolding assign_dest push_register eval_op
  bit_neg-Operation = record {
    to_dest = bit_neg;
    assigns = λ a. pops-one a (λ p. some (bit_neg p.registers_curr, push_register 1 p));
    steps = λ dest c t b d rs h x lt hs.
        Meets-cast (λ (y : D). Stepped dops env const_values dest (dest + 1) t b d h (datum y))
          (dops.negate x) (eval_op dops env const_values (bit_neg dest) (state t b (rs ++ d) h))
          (dops.negate x
            >>= (λ y. store dops env const_values dest y (state t b d h) >>= (λ s. some (0, s))))
          (ap
            (λ o. o >>= (λ p.
              dops.negate p.0
              >>= (λ y. store dops env const_values dest y p.1 >>= (λ s. some (0, s)))))
            (pop_data-one dops env const_values t c b rs d h x hs))
          (Meets-stored dops env const_values (dops.negate x) dest t b d h lt);
  }

  pub data_to_bool-Operation :
      Operation dops env const_values datum truth
        (λ x. some (not (dops.is_zero x)))
        data_to_bool
        1
        []
  unfolding assign_dest eval_op
  data_to_bool-Operation = record {
    to_dest = λ dest. data_to_bool;
    assigns = λ a. pops-one a (λ p. some (data_to_bool, p)) ∙ pops-still 1 data_to_bool a;
    steps = λ dest c t b d rs h x lt hs.
        Meets-cast (λ (y : Bool). Stepped dops env const_values dest (dest + 0) t b d h (truth y))
          (some (not (dops.is_zero x)))
          (eval_op dops env const_values data_to_bool (state t b (rs ++ d) h))
          (some (0, push_bool dops env const_values (not (dops.is_zero x)) (state t b d h)))
          (ap
            (λ o.
              o >>= (λ p. some (0, push_bool dops env const_values (not (dops.is_zero p.0)) p.1)))
            (pop_data-one dops env const_values t c b rs d h x hs))
          (Meets-bool dops env const_values (some (not (dops.is_zero x))) dest (dest + 0) t b d h);
  }

  pub bool_to_data-Operation :
      Operation dops env const_values truth datum
        (λ x. some (dops.of_bool x))
        (bool_to_data 0)
        0
        (1 ∷ [])
  unfolding assign_dest push_register eval_op pop_bool pops
  bool_to_data-Operation = record {
    to_dest = bool_to_data;
    assigns = λ a. refl;
    steps = λ dest c t b d rs h x lt hs.
        Meets-refs datum (some (dops.of_bool x)) (bool_to_data dest) dest (dest + 1) c t b (x ∷ b) d
          rs h hs (Meets-stored dops env const_values (some (dops.of_bool x)) dest t b d h lt);
  }

  pub load_register_gen-Operation :
      (array : ℕ)
      → Operation dops env const_values datum datum
          (λ x. dops.to_index x >>= (λ i. env.register array i))
          (load_register_gen array)
          1
          (0 ∷ [])
  unfolding assign_dest push_register eval_op
  load_register_gen-Operation array = record {
    to_dest = λ dest. load_register_gen array;
    assigns = λ a. pops-one a (λ p. some (load_register_gen array, push_register 0 p));
    steps = λ dest c t b d rs h x lt hs.
        Meets-cast (λ (y : D). Stepped dops env const_values dest (dest + 0) t b d h (datum y))
          (dops.to_index x >>= (λ i. env.register array i))
          (eval_op dops env const_values (load_register_gen array) (state t b (rs ++ d) h))
          (dops.to_index x
            >>= (λ i. env.register array i)
            >>= (λ y. some (0, push_value dops env const_values y (state t b d h))))
          (ap
              (λ o. o >>= (λ p. dops.to_index p.0 >>= (λ i.
                env.register array i >>= (λ y. some (0, push_value dops env const_values y p.1)))))
              (pop_data-one dops env const_values t c b rs d h x hs)
            ∙ sym (
                bind_assoc (dops.to_index x) (env.register array)
                  (λ y. some (0, push_value dops env const_values y (state t b d h)))))
          (Meets-value dops env const_values (dops.to_index x >>= (λ i. env.register array i)) dest
            (dest + 0) t b d h);
  }
