-- ===== src/Tables/Uses.antt =====
-- The entries in use that name a member.
use behavioral_model.Base.{
  ℕ, zero, suc, ◌+◌, ◌≤◌, Bool, true, false, none, some, List, [], ◌∷◌, length, get_elem?, ◌==◌,
  if◌then◌else◌, ◌≡◌, ◌≢◌, refl, ap, ◌∙◌, arith,
}
use behavioral_model.Units.{Entry}

module _ {K : Type 0} where
  -- 1 for a slot in use whose entry has the value `m`.
  unfoldable pub one_use : (ℕ → Bool) → ℕ → ℕ → Entry K ℕ → ℕ
  one_use used m i e = if used i then (if e.value == m then 1 else 0) else 0

  unfoldable pub uses : (ℕ → Bool) → ℕ → ℕ → List (Entry K ℕ) → ℕ
  unfolding one_use
  uses used m i [] = 0
  uses used m i (e ∷ es) = one_use used m i e + uses used m (suc i) es

  some_injective : (x y : Entry K ℕ) → some x ≡ some y → x ≡ y
  some_injective x y e = ap (λ o. elim o [ none ↦ x | some z ↦ z ]) e

  one_use-same :
      (used used' : ℕ → Bool) (m i j : ℕ) (e e' : Entry K ℕ)
      → i ≡ j
      → used' j ≡ used j
      → e' ≡ e
      → one_use used' m i e' ≡ one_use used m j e
  unfolding one_use
  one_use-same used used' m i j e e' p on same =
      ap (λ n. one_use used' m n e') p
      ∙ (λ q. if on q then (if (same q).value == m then 1 else 0) else 0)

  uses-same :
      (used used' : ℕ → Bool) (m i : ℕ) (es es' : List (Entry K ℕ))
      → length es' ≡ length es
      → ((n : ℕ) → get_elem? es' n ≡ get_elem? es n)
      → ((n : ℕ) → i ≤ n → used' n ≡ used n)
      → uses used' m i es' ≡ uses used m i es
  unfolding uses
  uses-same used used' m i [] [] len same on = refl
  uses-same used used' m i [] (e ∷ es') len same on = absurd (omega (arith, len))
  uses-same used used' m i (e ∷ es) [] len same on = absurd (omega (arith, len))
  uses-same used used' m i (e ∷ es) (e' ∷ es') len same on =
      let head =
        one_use-same used used' m i i e e' refl (on i (omega arith))
          (some_injective e' e (same 0)) in
      let tail =
        uses-same used used' m (suc i) es es' (omega (arith, len)) (λ n. same (suc n))
          (λ n le. on n (omega (arith, le))) in
      omega (arith, head, tail)

  -- One slot changes, at the position `at` of the whole.
  pub uses-change :
      (used used' : ℕ → Bool) (m i k at : ℕ) (es es' : List (Entry K ℕ)) (old new : Entry K ℕ)
      → at ≡ i + k
      → length es' ≡ length es
      → get_elem? es k ≡ some old
      → get_elem? es' k ≡ some new
      → ((n : ℕ) → k ≢ n → get_elem? es' n ≡ get_elem? es n)
      → ((n : ℕ) → at ≢ n → used' n ≡ used n)
      → uses used' m i es' + one_use used m at old ≡ uses used m i es + one_use used' m at new
  unfolding uses
  uses-change used used' m i k at [] es' old new p len o n same on = absurd (cc o)
  uses-change used used' m i k at (e ∷ es) [] old new p len o n same on =
      absurd (omega (arith, len))
  uses-change used used' m i zero at (e ∷ es) (e' ∷ es') old new p len o n same on =
      let first =
        one_use-same used used m i at old e (omega (arith, p)) refl (some_injective e old o) in
      let second =
        one_use-same used' used' m i at new e' (omega (arith, p)) refl (some_injective e' new n) in
      let tail =
        uses-same used used' m (suc i) es es' (omega (arith, len))
          (λ q. same (suc q) (λ z. omega (arith, z)))
          (λ q le. on q (λ z. omega (arith, z, p, le))) in
      omega (arith, first, second, tail)
  uses-change used used' m i (suc k) at (e ∷ es) (e' ∷ es') old new p len o n same on =
      let head =
        one_use-same used used' m i i e e' refl (on i (λ z. omega (arith, z, p)))
          (some_injective e' e (same 0 (λ z. omega (arith, z)))) in
      let tail =
        uses-change used used' m (suc i) k at es es' old new (omega (arith, p)) (omega (arith, len))
          o n (λ q ne. same (suc q) (λ z. ne (omega (arith, z)))) on in
      omega (arith, head, tail)

  pub uses-zero :
      (used : ℕ → Bool) (m i : ℕ) (es : List (Entry K ℕ))
      → ((k at : ℕ) (e : Entry K ℕ)
          → at ≡ i + k
          → get_elem? es k ≡ some e
          → one_use used m at e ≡ 0)
      → uses used m i es ≡ 0
  unfolding uses
  uses-zero used m i [] none_used = refl
  uses-zero used m i (e ∷ es) none_used =
      let head = none_used 0 i e (omega arith) refl in
      let tail =
        uses-zero used m (suc i) es (λ k at x p h. none_used (suc k) at x (omega (arith, p)) h) in
      omega (arith, head, tail)

  pub one_use-uses :
      (used : ℕ → Bool) (m i k at : ℕ) (es : List (Entry K ℕ)) (e : Entry K ℕ)
      → at ≡ i + k
      → get_elem? es k ≡ some e
      → one_use used m at e ≤ uses used m i es
  unfolding uses
  one_use-uses used m i k at [] e p h = absurd (cc h)
  one_use-uses used m i zero at (x ∷ es) e p h =
      let head = one_use-same used used m i at e x (omega (arith, p)) refl (some_injective x e h) in
      omega (arith, head)
  one_use-uses used m i (suc k) at (x ∷ es) e p h =
      let tail = one_use-uses used m (suc i) k at es e (omega (arith, p)) h in omega (arith, tail)

  pub one_use-in_use :
      (used : ℕ → Bool) (m i : ℕ) (e : Entry K ℕ)
      → used i ≡ true
      → e.value ≡ m
      → one_use used m i e ≡ 1
  unfolding one_use
  one_use-in_use used m i e on same = rw on (ground (arith, same))

  pub one_use-other :
      (used : ℕ → Bool) (m i : ℕ) (e : Entry K ℕ) → e.value ≢ m → one_use used m i e ≡ 0
  unfolding one_use
  one_use-other used m i e other = ground (arith, other)

  pub one_use-free :
      (used : ℕ → Bool) (m i : ℕ) (e : Entry K ℕ) → used i ≡ false → one_use used m i e ≡ 0
  unfolding one_use
  one_use-free used m i e off = rw off refl

  pub one_use_le : (used : ℕ → Bool) (m i : ℕ) (e : Entry K ℕ) → one_use used m i e ≤ 1
  unfolding one_use
  one_use_le used m i e = ground arith
