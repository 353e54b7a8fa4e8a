-- ===== src/Expr/Runs.antt =====
-- The operations as the machine runs them: what each takes, and the result that it puts in its
-- temporary or on a stack.
use behavioral_model.Base.{
  ℕ, ◌+◌, ◌≤◌, Bool, Option, none, some, List, [], ◌∷◌, ◌++◌, length, set, get_elem?-set_self,
  ltb-true, ◌>>=◌, ◌≡◌, refl, ap, ◌∙◌, arith,
}
use behavioral_model.Expr.{Registers, pop_register}
use behavioral_model.Expr.Machine.{
  DataOps, Env, Ref, temp, value, Temps, state, read, pop_data, push_bool, push_value, store,
}
use behavioral_model.Expr.Blocks.{
  sum, registers, above, Held, Holds, Frame-refl, Frame-set, Meets, Results, Stepped,
}
use behavioral_model.Expr.Compose.{pops}
use behavioral_model.Expr.Choice.{truth}

abbrev pub datum : {D : Type 0} → D → Results D
datum d = (d ∷ [], [])

bind_one :
    {X Y : Type 0} (o : Option X) (f : X → Option Y) → (o >>= f) ≡ (o >>= (λ x. some x) >>= f)
bind_one none f = refl
bind_one (some x) f = refl

bind_two :
    {X Y : Type 0} (o : Option X) (p : X → Option X) (f : X → Option Y)
    → (o >>= (λ x. p x >>= f)) ≡ (o >>= (λ x. p x >>= (λ y. some y)) >>= f)
bind_two none p f = refl
bind_two (some x) p f = bind_one (p x) f

pub pops-one :
    {X : Type 0} (a : Registers) (f : Registers → Option X)
    → (pop_register a >>= f) ≡ (pops 1 a >>= f)
unfolding pops
pops-one a f = bind_one (pop_register a) f

pub pops-two :
    {X : Type 0} (a : Registers) (f : Registers → Option X)
    → (pop_register a >>= (λ a1. pop_register a1 >>= f)) ≡ (pops 2 a >>= f)
unfolding pops
pops-two a f = bind_two (pop_register a) pop_register f

-- A result without a register of its own.
pub above_zero :
    (a : Registers) (ns : List ℕ)
    → sum ns ≡ 0
    → registers a.registers_cnt a.registers_curr (ns ++ a.new_registers)
      ≡ above a a.registers_cnt ns
above_zero a ns e = λ i. registers a.registers_cnt (same i) (ns ++ a.new_registers)
  where
    same : a.registers_curr ≡ a.registers_curr + sum ns
    same = omega (arith, e)

module _ {D : Type 0} (dops : DataOps D) (env : Env D) (const_values : List D) where
  read-Held :
      (t : List D) (c : ℕ) (r : Ref D) (d : D)
      → Held t c r d
      → read dops env const_values t r ≡ some d
  unfolding read
  read-Held t c (temp i) d (h, lt) = h
  read-Held t c (value e) d h = ap some h

  pop_data-Held :
      (t : List D) (c : ℕ) (b : List Bool) (r : Ref D) (d : List (Ref D)) (h : List ℕ) (x : D)
      → Held t c r x
      → pop_data dops env const_values (state t b (r ∷ d) h) ≡ some (x, state t b d h)
  unfolding pop_data
  pop_data-Held t c b r d h x held = rw (read-Held t c r x held) refl

  pub pop_data-one :
      (t : List D) (c : ℕ) (b : List Bool) (rs d : List (Ref D)) (h : List ℕ) (x : D)
      → Holds t c rs (x ∷ [])
      → pop_data dops env const_values (state t b (rs ++ d) h) ≡ some (x, state t b d h)
  pop_data-one t c b [] d h x hs = absurd hs
  pop_data-one t c b (r ∷ []) d h x hs = pop_data-Held t c b r d h x hs.0
  pop_data-one t c b (r ∷ r' ∷ rs) d h x hs = absurd hs.1

  pub pop_data-two :
      {R : Type 0} (t : List D) (c : ℕ) (b : List Bool) (rs d : List (Ref D)) (h : List ℕ) (x y : D)
      (f : D → D → Temps D → Option R)
      → Holds t c rs (y ∷ x ∷ [])
      → (pop_data dops env const_values (state t b (rs ++ d) h)
          >>= (λ p. pop_data dops env const_values p.1 >>= (λ q. f p.0 q.0 q.1)))
        ≡ f y x (state t b d h)
  pop_data-two t c b [] d h x y f hs = absurd hs
  pop_data-two t c b (r ∷ rs) d h x y f (held, hs) =
      ap (λ o. o >>= (λ p. pop_data dops env const_values p.1 >>= (λ q. f p.0 q.0 q.1)))
        (pop_data-Held t c b r (rs ++ d) h y held)
      ∙ ap (λ o. o >>= (λ q. f y q.0 q.1)) (pop_data-one t c b rs d h x hs)

  -- A result in its temporary, a result that is only pointed to, and a Boolean.
  pub Meets-stored :
      (v : Option D) (dest : ℕ) (t : List D) (b : List Bool) (d : List (Ref D)) (h : List ℕ)
      → dest + 1 ≤ length t
      → Meets
          (λ y. Stepped dops env const_values dest (dest + 1) t b d h (datum y))
          v
          (v >>= (λ x. store dops env const_values dest x (state t b d h) >>= (λ s. some (0, s))))
  unfolding store
  Meets-stored none dest t b d h lt = refl
  Meets-stored (some y) dest t b d h lt = (
    set t dest y,
    temp dest ∷ [],
    rw (ltb-true dest (length t) (omega (arith, lt))) refl,
    Frame-set dest dest t y (omega arith),
    ((get_elem?-set_self t dest y (omega (arith, lt)), omega arith), tt),
  )

  pub Meets-value :
      (v : Option D) (dest c : ℕ) (t : List D) (b : List Bool) (d : List (Ref D)) (h : List ℕ)
      → Meets
          (λ y. Stepped dops env const_values dest c t b d h (datum y))
          v
          (v >>= (λ x. some (0, push_value dops env const_values x (state t b d h))))
  unfolding push_value
  Meets-value none dest c t b d h = refl
  Meets-value (some y) dest c t b d h = (t, value y ∷ [], refl, Frame-refl dest t, (refl, tt))

  pub Meets-bool :
      (v : Option Bool) (dest c : ℕ) (t : List D) (b : List Bool) (d : List (Ref D)) (h : List ℕ)
      → Meets
          (λ y. Stepped dops env const_values dest c t b d h (truth y))
          v
          (v >>= (λ x. some (0, push_bool dops env const_values x (state t b d h))))
  unfolding push_bool
  Meets-bool none dest c t b d h = refl
  Meets-bool (some y) dest c t b d h = (t, [], refl, Frame-refl dest t, tt)

  -- The Booleans that a run without numbers has left.
  pub no_refs : (t : List D) (c : ℕ) (rs : List (Ref D)) → Holds t c rs [] → rs ≡ []
  no_refs t c [] hs = refl
  no_refs t c (r ∷ rs) hs = absurd hs
