-- ===== src/Expr/Leaves.antt =====
-- The parts that take nothing, and the constants that they read.
use behavioral_model.Base.{
  ℕ, zero, suc, ◌+◌, Bool, Option, none, some, List, [], ◌∷◌, ◌++◌, length, get_elem?, ◌>>=◌, ◌≡◌,
  refl, ap, ◌∙◌, arith,
}
use behavioral_model.Expr.{
  Op, load_header, load_bool, load_const, valid_header, Registers, push_register, assign_dest,
}
use behavioral_model.Expr.Machine.{
  DataOps, Env, Ref, Temps, state, push_bool, push_value, eval_op, eval_ops,
}
use behavioral_model.Expr.Blocks.{above, Frame-refl, Meets, Meets-cast, Reached, Block, Stepped}
use behavioral_model.Expr.Compose.{pops, assign_dests-nil}
use behavioral_model.Expr.Choice.{truth, assign_dest-still}
use behavioral_model.Expr.Under.{Operation, Block-under}
use behavioral_model.Expr.Runs.{datum, Meets-value, Meets-bool, above_zero}
use behavioral_model.Expr.Operations.{nothing, Meets-refs, pops-still}

get_elem?-append_left :
    {A : Type 0} (xs ys : List A) (i : ℕ) (x : A)
    → get_elem? xs i ≡ some x
    → get_elem? (xs ++ ys) i ≡ some x
get_elem?-append_left [] ys i x e = absurd (cc e)
get_elem?-append_left (y ∷ xs) ys zero x e = e
get_elem?-append_left (y ∷ xs) ys (suc i) x e = get_elem?-append_left xs ys i x e

get_elem?-append_right :
    {A : Type 0} (xs ys : List A) (i j : ℕ) (x : A)
    → j ≡ length xs + i
    → get_elem? ys i ≡ some x
    → get_elem? (xs ++ ys) j ≡ some x
get_elem?-append_right [] ys i j x e h = ap (get_elem? ys) (omega (arith, e)) ∙ h
get_elem?-append_right (y ∷ xs) ys i zero x e h = absurd (omega (arith, e))
get_elem?-append_right (y ∷ xs) ys i (suc j) x e h =
    get_elem?-append_right xs ys i j x (omega (arith, e)) h

pub bind_pair :
    {X Y Z : Type 0} (v : Option X) (w : Option Y) (f : X → Y → Option Z)
    → (v >>= (λ x. ◌>>=◌ {B = X × Y} w (λ y. some (x, y))) >>= (λ p. f p.0 p.1))
      ≡ (v >>= (λ x. w >>= (λ y. f x y)))
bind_pair none w f = refl
bind_pair (some x) none f = refl
bind_pair (some x) (some y) f = refl

module _ {D : Type 0} (dops : DataOps D) (env : Env D) (const_values : List D) where
  -- The constants stand from `k` on.
  abbrev pub Reads : ℕ → List D → Type 0
  Reads k ds = (i : ℕ) (d : D) → get_elem? ds i ≡ some d → get_elem? const_values (k + i) ≡ some d

  pub Reads-left : (k : ℕ) (ds es : List D) → Reads k (ds ++ es) → Reads k ds
  Reads-left k ds es r i d e = r i d (get_elem?-append_left ds es i d e)

  pub Reads-right : (k : ℕ) (ds es : List D) → Reads k (ds ++ es) → Reads (k + length ds) es
  Reads-right k ds es r i d e =
      ap (get_elem? const_values) (omega arith)
      ∙ r (length ds + i) d (get_elem?-append_right ds es i (length ds + i) d refl e)

  pub Reads-head :
      (k : ℕ) (d : D) (ds : List D) → Reads k (d ∷ ds) → get_elem? const_values k ≡ some d
  Reads-head k d ds r = ap (get_elem? const_values) (omega arith) ∙ r 0 d refl

  Block-nothing : Block dops env const_values nothing [] 0 (some tt)
  Block-nothing a le = record {
    out = [];
    cnt = a.registers_cnt;
    pushed = [];
    assigned = assign_dests-nil ∙ ap (λ z. some ([], z)) (above_zero a [] refl);
    same_length = refl;
    enough = omega arith;
    grows = omega arith;
    counts = omega (arith, le);
    runs = λ rest t b d h lt. (t, [], refl, Frame-refl a.registers_curr t, tt);
  }

  -- An operation that only pushes a pointer.
  load-Operation :
      (op : Op) (v : Option D)
      → ((a : Registers) → assign_dest op a ≡ some (op, push_register 0 a))
      → ((t : List D) (b : List Bool) (d : List (Ref D)) (h : List ℕ)
          → eval_op dops env const_values op (state t b d h)
            ≡ (v >>= (λ x. some (0, push_value dops env const_values x (state t b d h)))))
      → Operation dops env const_values nothing datum (λ u. v) op 0 (0 ∷ [])
  unfolding pops push_register
  load-Operation op v assigns evals = record {
    to_dest = λ dest. op;
    assigns = assigns;
    steps = λ dest c t b d rs h x lt hs.
        Meets-refs dops env const_values datum v op dest (dest + 0) c t b b d rs h hs (
          Meets-cast (λ (y : D). Stepped dops env const_values dest (dest + 0) t b d h (datum y)) v
            (eval_op dops env const_values op (state t b d h))
            (v >>= (λ x. some (0, push_value dops env const_values x (state t b d h))))
            (evals t b d h) (Meets-value dops env const_values v dest (dest + 0) t b d h));
  }

  pub Block-load :
      (op : Op) (v : Option D)
      → ((a : Registers) → assign_dest op a ≡ some (op, push_register 0 a))
      → ((t : List D) (b : List Bool) (d : List (Ref D)) (h : List ℕ)
          → eval_op dops env const_values op (state t b d h)
            ≡ (v >>= (λ x. some (0, push_value dops env const_values x (state t b d h)))))
      → Block dops env const_values datum (op ∷ []) 1 v
  Block-load op v assigns evals =
      Block-under dops env const_values nothing datum (λ u. v) [] op 0 (0 ∷ []) (some tt)
        (load-Operation op v assigns evals) Block-nothing

  pub Block-load_const :
      (k : ℕ) (d : D)
      → get_elem? const_values k ≡ some d
      → Block dops env const_values datum (load_const k ∷ []) 1 (some d)
  unfolding assign_dest eval_op
  Block-load_const k d e =
      Block-load (load_const k) (some d) (λ a. refl)
        (λ t b ds h.
          ap (λ o. o >>= (λ x. some (0, push_value dops env const_values x (state t b ds h)))) e)

  pub Block-load_bool : (x : Bool) → Block dops env const_values truth (load_bool x ∷ []) 0 (some x)
  unfolding assign_dest eval_op pops
  Block-load_bool x =
      Block-under dops env const_values nothing truth (λ u. some x) [] (load_bool x) 0 [] (some tt)
        record {
          to_dest = λ dest. load_bool x;
          assigns = λ a. pops-still 0 (load_bool x) a;
          steps = λ dest c t b d rs h u lt hs.
              Meets-refs dops env const_values truth (some x) (load_bool x) dest (dest + 0) c t b b
                d rs h hs (Meets-bool dops env const_values (some x) dest (dest + 0) t b d h);
        }
        Block-nothing

  Meets-valid :
      (v : Option Bool) (c c' : ℕ) (rest : List Op) (t : List D) (b : List Bool) (d : List (Ref D))
      (h : List ℕ)
      → Meets
          (λ x. Reached dops env const_values c c' rest t b d h (truth x))
          v
          (◌>>=◌ {B = ℕ × Temps D} v
              (λ x. some (0, push_bool dops env const_values x (state t b d h)))
            >>= (λ r. eval_ops dops env const_values rest r.0 r.1))
  unfolding push_bool
  Meets-valid none c c' rest t b d h = refl
  Meets-valid (some x) c c' rest t b d h = (t, [], refl, Frame-refl c t, tt)

  pub Block-valid :
      (id : ℕ)
      → Block dops env const_values truth (load_header id ∷ (valid_header ∷ [])) 0 (env.is_valid id)
  unfolding assign_dest eval_op eval_ops
  Block-valid id a le = record {
    out = load_header id ∷ (valid_header ∷ []);
    cnt = a.registers_cnt;
    pushed = [];
    assigned =
        assign_dest-still (load_header id) (valid_header ∷ []) (valid_header ∷ []) a
          (above a a.registers_cnt []) refl le
          (assign_dest-still valid_header [] [] a (above a a.registers_cnt []) refl le
            (assign_dests-nil ∙ ap (λ z. some ([], z)) (above_zero a [] refl)));
    same_length = refl;
    enough = omega arith;
    grows = omega arith;
    counts = omega (arith, le);
    runs = λ rest t b d h lt.
        Meets-valid (env.is_valid id) a.registers_curr (a.registers_curr + 0) rest t b d h;
  }
