-- ===== src/Pre/Maps.antt =====
-- std::unordered_map as an association list without a key twice.
use behavioral_model.Base.{
  ℕ, ◌≡◌, refl, Option, none, some, List, [], ◌∷◌, ◌==◌, if◌then◌else◌, arith, is_some,
}

module _ {V : Type 0} where
  unfoldable pub find : List (ℕ × V) → ℕ → Option V
  find [] k = none
  find ((k', v) ∷ m) k = if k' == k then some v else find m k

  unfoldable pub erase : List (ℕ × V) → ℕ → List (ℕ × V)
  erase [] k = []
  erase ((k', v) ∷ m) k = if k' == k then erase m k else (k', v) ∷ erase m k

  -- Assignment through operator[].
  unfoldable pub put : List (ℕ × V) → ℕ → V → List (ℕ × V)
  unfolding erase
  put m k v = (k, v) ∷ erase m k

  -- insert, which keeps the value of a key that is there.
  unfoldable pub insert : List (ℕ × V) → ℕ → V → List (ℕ × V)
  unfolding find
  insert m k v = if is_some (find m k) then m else (k, v) ∷ m

  -- What operator[] reads, with the value for a missing key.
  unfoldable pub get_or : List (ℕ × V) → ℕ → V → V
  unfolding find
  get_or m k v = elim (find m k) [ none ↦ v | some v' ↦ v' ]

  pub find-erase :
      (m : List (ℕ × V)) (k i : ℕ) → find (erase m k) i ≡ (if k == i then none else find m i)
  unfolding find erase
  find-erase [] k i = ground arith
  find-erase ((k', v) ∷ m) k i = ground (arith, find-erase m k i)

  pub find-put :
      (m : List (ℕ × V)) (k i : ℕ) (v : V)
      → find (put m k v) i ≡ (if k == i then some v else find m i)
  unfolding find put
  find-put m k i v = ground (arith, find-erase m k i)

  pub find-insert :
      (m : List (ℕ × V)) (k i : ℕ) (v : V)
      → find m k ≡ none
      → find (insert m k v) i ≡ (if k == i then some v else find m i)
  unfolding find insert
  find-insert m k i v absent = rw absent refl

  pub get_or-find : (m : List (ℕ × V)) (k : ℕ) (v v' : V) → find m k ≡ some v' → get_or m k v ≡ v'
  unfolding get_or
  get_or-find m k v v' e = rw (e, get_or) refl
