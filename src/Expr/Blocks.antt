-- ===== src/Expr/Blocks.antt =====
-- Sequences of operations that push results: the registers that build() gives them, and their runs.
use behavioral_model.Base.{
  ℕ, zero, suc, ◌+◌, ◌≤◌, ◌<◌, Bool, Option, none, some, List, [], ◌∷◌, ◌++◌, length, get_elem?,
  set, ◌>>=◌, ◌≡◌, refl, sym, ap, subst, ◌∙◌, arith, length-set, get_elem?-set_ne,
}
use behavioral_model.Expr.{Op, Registers, assign_dests}
use behavioral_model.Expr.Machine.{DataOps, Env, Ref, temp, value, Temps, state, eval_ops}

abbrev pub sum : List ℕ → ℕ
sum [] = 0
sum (n ∷ ns) = n + sum ns

pub sum-append : (ms ns : List ℕ) → sum (ms ++ ns) ≡ sum ms + sum ns
sum-append [] ns = omega arith
sum-append (m ∷ ms) ns = omega (arith, sum-append ms ns)

-- Registers that stand above those of `a`.
abbrev pub registers : ℕ → ℕ → List ℕ → Registers
registers cnt curr ns = record { registers_cnt = cnt; registers_curr = curr; new_registers = ns }

abbrev pub above : Registers → ℕ → List ℕ → Registers
above a cnt q = registers cnt (a.registers_curr + sum q) (q ++ a.new_registers)

-- A temporary below `c`, or a value, with what it holds.
abbrev pub Held : {D : Type 0} → List D → ℕ → Ref D → D → Type 0
Held t c (temp i) d = (get_elem? t i ≡ some d) × (i < c)
Held t c (value e) d = e ≡ d

abbrev pub Holds : {D : Type 0} → List D → ℕ → List (Ref D) → List D → Type 0
Holds t c [] [] = Unit
Holds t c [] (d ∷ ds) = ⊥
Holds t c (r ∷ rs) [] = ⊥
Holds t c (r ∷ rs) (d ∷ ds) = Held t c r d × Holds t c rs ds

-- The temporaries below `c` are as they were.
pub record Frame {D : Type 0} (c : ℕ) (t t' : List D) : Type 0 where
  pub same_length : length t' ≡ length t
  pub same_below : (i : ℕ) → i < c → get_elem? t' i ≡ get_elem? t i

-- The run of a part has the value wanted, or faults where there is none.
abbrev pub Meets : {X R : Type 0} → (X → Option R → Type 0) → Option X → Option R → Type 0
Meets P none run = run ≡ none
Meets P (some x) run = P x run

module _ {D : Type 0} where
  pub Frame-refl : (c : ℕ) (t : List D) → Frame c t t
  Frame-refl c t = record { same_length = refl; same_below = λ i h. refl }

  pub Frame-trans :
      (c c' : ℕ) (t t' t'' : List D) → c ≤ c' → Frame c t t' → Frame c' t' t'' → Frame c t t''
  Frame-trans c c' t t' t'' le f g = record {
    same_length = g.same_length ∙ f.same_length;
    same_below = λ i h. g.same_below i (omega (arith, h, le)) ∙ f.same_below i h;
  }

  pub Frame-weaken : (c c' : ℕ) (t t' : List D) → c ≤ c' → Frame c' t t' → Frame c t t'
  Frame-weaken c c' t t' le f = record {
    same_length = f.same_length;
    same_below = λ i h. f.same_below i (omega (arith, h, le));
  }

  pub Frame-set : (c i : ℕ) (t : List D) (d : D) → c ≤ i → Frame c t (set t i d)
  Frame-set c i t d le = record {
    same_length = length-set t i d;
    same_below = λ j h. get_elem?-set_ne t i j d (λ e. omega (arith, e, h, le));
  }

  pub Held-Frame :
      (t t' : List D) (c c' : ℕ) (r : Ref D) (d : D)
      → c ≤ c'
      → Frame c t t'
      → Held t c r d
      → Held t' c' r d
  Held-Frame t t' c c' (temp i) d le f (h, lt) = (f.same_below i lt ∙ h, omega (arith, lt, le))
  Held-Frame t t' c c' (value e) d le f h = h

  pub Holds-Frame :
      (t t' : List D) (c c' : ℕ) (rs : List (Ref D)) (ds : List D)
      → c ≤ c'
      → Frame c t t'
      → Holds t c rs ds
      → Holds t' c' rs ds
  Holds-Frame t t' c c' [] [] le f h = tt
  Holds-Frame t t' c c' [] (d ∷ ds) le f h = h
  Holds-Frame t t' c c' (r ∷ rs) [] le f h = h
  Holds-Frame t t' c c' (r ∷ rs) (d ∷ ds) le f (h, hs) =
      (Held-Frame t t' c c' r d le f h, Holds-Frame t t' c c' rs ds le f hs)

  pub Holds-append :
      (t : List D) (c : ℕ) (rs rs' : List (Ref D)) (ds ds' : List D)
      → Holds t c rs ds
      → Holds t c rs' ds'
      → Holds t c (rs ++ rs') (ds ++ ds')
  Holds-append t c [] rs' [] ds' h h' = h'
  Holds-append t c [] rs' (d ∷ ds) ds' h h' = absurd h
  Holds-append t c (r ∷ rs) rs' [] ds' h h' = absurd h
  Holds-append t c (r ∷ rs) rs' (d ∷ ds) ds' (h, hs) h' = (h, Holds-append t c rs rs' ds ds' hs h')

pub Meets-cast :
    {X R : Type 0} (P : X → Option R → Type 0) (v : Option X) (run run' : Option R)
    → run ≡ run'
    → Meets P v run'
    → Meets P v run
Meets-cast P v run run' e h = subst (λ r. Meets P v r) (sym e) h

pub Meets-bind :
    {X Y R : Type 0} (P : X → Option R → Type 0) (Q : Y → Option R → Type 0) (v : Option X)
    (f : X → Option Y) (run : Option R)
    → Meets P v run
    → ((x : X) → P x run → Meets Q (f x) run)
    → Meets Q (v >>= f) run
Meets-bind P Q none f run h k = h
Meets-bind P Q (some x) f run h k = k x h

pub Meets-weaken :
    {X R : Type 0} (P Q : X → Option R → Type 0) (v : Option X) (run : Option R)
    → ((x : X) → P x run → Q x run)
    → Meets P v run
    → Meets Q v run
Meets-weaken P Q none run k h = h
Meets-weaken P Q (some x) run k h = k x h

-- The results of a part: its numbers and its Booleans, the last one first.
abbrev pub Results : Type 0 → Type 0
Results D = List D × List Bool

module _ {D : Type 0} (dops : DataOps D) (env : Env D) (const_values : List D) where
  pub eval_ops-skip :
      (xs rest : List Op) (k n : ℕ) (s : Temps D)
      → n ≡ length xs + k
      → eval_ops dops env const_values (xs ++ rest) n s ≡ eval_ops dops env const_values rest k s
  unfolding eval_ops
  eval_ops-skip [] rest k n s e =
      ap (λ m. eval_ops dops env const_values rest m s) (omega (arith, e))
  eval_ops-skip (x ∷ xs) rest k zero s e = absurd (omega (arith, e))
  eval_ops-skip (x ∷ xs) rest k (suc n) s e = eval_ops-skip xs rest k n s (omega (arith, e))

  -- What a run reaches: the results on the stacks, in temporaries that hold them.
  abbrev pub Reached :
      ℕ
      → ℕ
      → List Op
      → List D
      → List Bool
      → List (Ref D)
      → List ℕ
      → Results D
      → Option (Temps D)
      → Type 0
  Reached c c' rest t b d h x run =
      (t' : List D) × (rs : List (Ref D)) × (run
        ≡ eval_ops dops env const_values rest 0 (state t' (x.1 ++ b) (rs ++ d) h))
      × Frame c t t'
      × Holds t' c' rs x.0

  -- How a part is compiled from the registers `a`, and how it runs.
  pub record Compiled {X : Type 0} (results : X → Results D) (code : List Op) (k : ℕ) (v : Option X)
      (a : Registers) : Type 0 where
    pub out : List Op
    pub cnt : ℕ
    pub pushed : List ℕ
    pub assigned : assign_dests code a ≡ some (out, above a cnt pushed)
    pub same_length : length out ≡ length code
    pub enough : k ≤ length pushed
    pub grows : a.registers_cnt ≤ cnt
    pub counts : a.registers_curr + sum pushed ≤ cnt
    pub runs :
        (rest : List Op) (t : List D) (b : List Bool) (d : List (Ref D)) (h : List ℕ)
        → cnt ≤ length t
        → Meets
            (λ x. Reached a.registers_curr (a.registers_curr + sum pushed) rest t b d h (results x))
            v
            (eval_ops dops env const_values (out ++ rest) 0 (state t b d h))

  abbrev pub Block : {X : Type 0} → (X → Results D) → List Op → ℕ → Option X → Type 0
  Block results code k v =
      (a : Registers) → a.registers_curr ≤ a.registers_cnt → Compiled results code k v a

  -- What an op does to the state it finds.
  abbrev pub Stepped :
      ℕ → ℕ → List D → List Bool → List (Ref D) → List ℕ → Results D → Option (ℕ × Temps D) → Type 0
  Stepped dest c' t b d h y run =
      (t' : List D) × (rs : List (Ref D)) × (run ≡ some (0, state t' (y.1 ++ b) (rs ++ d) h))
      × Frame dest t t'
      × Holds t' c' rs y.0
