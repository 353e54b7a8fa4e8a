-- ===== src/Judy/Sets.antt =====
-- A concrete Judy1 array: a list of its indexes.
use behavioral_model.Base.{
  ℕ, zero, suc, ◌+◌, ◌^◌, ◌≤◌, ◌<◌, ◌≡◌, refl, Bool, true, false, Option, none, some, List, [], ◌∷◌,
  ◌==◌, leb, if◌then◌else◌, min, max, arith, Bool-cases, inl, inr, Option-cases,
}
use behavioral_model.Judy.Laws.{Judy1}

abbrev pub has : List ℕ → ℕ → Bool
has [] k = false
has (x ∷ xs) k = if x == k then true else has xs k

abbrev pub without : List ℕ → ℕ → List ℕ
without [] k = []
without (x ∷ xs) k = if x == k then without xs k else x ∷ without xs k

abbrev pub distinct : List ℕ → ℕ
distinct [] = 0
distinct (x ∷ xs) = if has xs x then distinct xs else distinct xs + 1

-- A bound above every index.
abbrev pub above : List ℕ → ℕ
above [] = 0
above (x ∷ xs) = max (suc x) (above xs)

abbrev pub least_free : ℕ → ℕ → List ℕ → ℕ
least_free zero k xs = k
least_free (suc fuel) k xs = let rest = least_free fuel (suc k) xs in if has xs k then rest else k

abbrev pub least_from : List ℕ → ℕ → Option ℕ
least_from [] k = none
least_from (x ∷ xs) k =
    if leb k x
    then some (elim (least_from xs k) [ none ↦ x | some y ↦ min x y ])
    else least_from xs k

pub has-without :
    (xs : List ℕ) (k i : ℕ) → has (without xs k) i ≡ (if k == i then false else has xs i)
has-without [] k i = ground arith
has-without (x ∷ xs) k i = ground (arith, has-without xs k i)

pub distinct-without :
    (xs : List ℕ) (k : ℕ)
    → distinct xs ≡ (if has xs k then distinct (without xs k) + 1 else distinct (without xs k))
distinct-without [] k = refl
distinct-without (x ∷ xs) k = ground (arith, distinct-without xs k, has-without xs k x)

has-above : (xs : List ℕ) (k : ℕ) → above xs ≤ k → has xs k ≡ false
has-above [] k h = refl
has-above (x ∷ xs) k h = ground (arith, has-above xs k)

pub least_free-free :
    (fuel k : ℕ) (xs : List ℕ) → above xs ≤ fuel + k → has xs (least_free fuel k xs) ≡ false
least_free-free zero k xs h = has-above xs k (omega arith)
least_free-free (suc fuel) k xs h = ground (arith, least_free-free fuel (suc k) xs)

pub least_free-least :
    (fuel k : ℕ) (xs : List ℕ) (i : ℕ) → k ≤ i → i < least_free fuel k xs → has xs i ≡ true
least_free-least zero k xs i h lt = absurd (omega arith)
least_free-least (suc fuel) k xs i h lt = elim (Bool-cases (k == i)) [
  | inl same ↦ ground arith
  | inr other ↦ ground (arith, least_free-least fuel (suc k) xs i)
]

pub least_from-set :
    (xs : List ℕ) (k i : ℕ) → least_from xs k ≡ some i → (k ≤ i) × (has xs i ≡ true)
least_from-set [] k i h = absurd (ground arith)
least_from-set (x ∷ xs) k i h = elim (Option-cases (least_from xs k)) [
  | inl off ↦ ground arith
  | inr (y, on) ↦ ground (arith, least_from-set xs k y)
]

pub least_from-none :
    (xs : List ℕ) (k : ℕ) → least_from xs k ≡ none → (m : ℕ) → k ≤ m → has xs m ≡ false
least_from-none [] k h m le = refl
least_from-none (x ∷ xs) k h m le = ground (arith, least_from-none xs k (ground arith) m le)

pub least_from-least :
    (xs : List ℕ) (k i : ℕ) → least_from xs k ≡ some i → (m : ℕ) → k ≤ m → m < i → has xs m ≡ false
least_from-least [] k i h m le lt = refl
least_from-least (x ∷ xs) k i h m le lt = elim (Option-cases (least_from xs k)) [
  | inl off ↦ ground (arith, least_from-none xs k off m le)
  | inr (y, on) ↦ ground (arith, least_from-least xs k y on m le)
]

pub sets_free : (a : List ℕ) (k : ℕ) → some (least_free (above a) 0 a) ≡ some k → has a k ≡ false
sets_free a k e = ground (arith, least_free-free (above a) 0 a)

pub sets_least :
    (a : List ℕ) (k : ℕ)
    → some (least_free (above a) 0 a) ≡ some k
    → (i : ℕ) → i < k
    → has a i ≡ true
sets_least a k e i lt = ground (arith, least_free-least (above a) 0 a i)

pub sets_full :
    (a : List ℕ) → some (least_free (above a) 0 a) ≡ none → (i : ℕ) → i < 2 ^ 64 → has a i ≡ true
sets_full a e i lt = absurd (ground arith)

abbrev pub sets : Judy1 (List ℕ)
sets = record {
  nil = [];
  test = has;
  set = λ a k. k ∷ a;
  unset = without;
  first_empty = λ a. some (least_free (above a) 0 a);
  next = least_from;
  count = distinct;
  test-nil = λ k. refl;
  test-set = λ a k i. refl;
  test-unset = has-without;
  first_empty-free = sets_free;
  first_empty-least = sets_least;
  first_empty-none = sets_full;
  next-set = least_from-set;
  next-least = least_from-least;
  next-none = least_from-none;
  count-nil = refl;
  count-set = λ a k. refl;
  count-unset = distinct-without;
}
