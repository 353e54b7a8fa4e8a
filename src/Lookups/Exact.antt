-- ===== src/Lookups/Exact.antt =====
-- The exact map meets what a match unit asks of its lookup structure.
use behavioral_model.Base.{
  ℕ, ◌≡◌, ◌≢◌, refl, sym, ◌∙◌, true, false, none, some, List, [], ◌∷◌, arith, Bool-cases,
  Option-cases, inl, inr, ==_refl, is_some,
}
use native.Mathlib.Decide.{ℕ_discrete}
use mathlib.Core.List.{List-discrete}
use behavioral_model.Units.Shape.{LookupLaws}
use behavioral_model.Lookups.{bytes_eq, exact_find, exact_erase, exact_add, exact_exists, exact_map}

bytes_eq_refl : (xs : List ℕ) → bytes_eq xs xs ≡ true
unfolding bytes_eq
bytes_eq_refl [] = refl
bytes_eq_refl (x ∷ xs) = rw (==_refl x) (bytes_eq_refl xs)

bytes_eq-same : (xs ys : List ℕ) → bytes_eq xs ys ≡ true → xs ≡ ys
unfolding bytes_eq
bytes_eq-same [] [] e = refl
bytes_eq-same [] (y ∷ ys) e = absurd (cc e)
bytes_eq-same (x ∷ xs) [] e = absurd (cc e)
bytes_eq-same (x ∷ xs) (y ∷ ys) e =
    let first : x ≡ y = ground arith in
    let rest : xs ≡ ys = bytes_eq-same xs ys (ground arith) in cc (first, rest)

bytes_eq-other : (xs ys : List ℕ) → xs ≢ ys → bytes_eq xs ys ≡ false
bytes_eq-other xs ys ne = elim (Bool-cases (bytes_eq xs ys)) [
  | inl e ↦ absurd (ne (bytes_eq-same xs ys e))
  | inr e ↦ e
]

pub exact_find-erase_self :
    (m : List (List ℕ × ℕ)) (key : List ℕ) → exact_find (exact_erase m key) key ≡ none
unfolding exact_find exact_erase
exact_find-erase_self [] key = refl
exact_find-erase_self ((k, h) ∷ rest) key = elim (Bool-cases (bytes_eq k key)) [
  | inl e ↦ rw e (exact_find-erase_self rest key)
  | inr e ↦ rw (e, exact_find) (rw e (exact_find-erase_self rest key))
]

pub exact_find-erase_other :
    (m : List (List ℕ × ℕ)) (key other : List ℕ)
    → key ≢ other
    → exact_find (exact_erase m key) other ≡ exact_find m other
unfolding exact_find exact_erase
exact_find-erase_other [] key other ne = refl
exact_find-erase_other ((k, h) ∷ rest) key other ne =
    let ih = exact_find-erase_other rest key other ne in
    elim (Bool-cases (bytes_eq k key)) [
      | inl e ↦
          let same = bytes_eq-same k key e in
          rw (e, bytes_eq-other k other (λ e'. ne (sym same ∙ e'))) ih
      | inr e ↦ elim (Bool-cases (bytes_eq k other)) [
        | inl found ↦ rw e (rw found refl)
        | inr not_found ↦ rw e (rw not_found ih)
      ]
    ]

pub exact_find-add_self :
    (m : List (List ℕ × ℕ)) (key : List ℕ) (h : ℕ) → exact_find (exact_add m key h) key ≡ some h
unfolding exact_add exact_find
exact_find-add_self m key h = rw (bytes_eq_refl key) refl

pub exact_find-add_other :
    (m : List (List ℕ × ℕ)) (key other : List ℕ) (h : ℕ)
    → key ≢ other
    → exact_find (exact_add m key h) other ≡ exact_find m other
unfolding exact_add exact_find
exact_find-add_other m key other h ne =
    rw (bytes_eq-other key other ne) (exact_find-erase_other m key other ne)

pub exact_exists-find :
    (m : List (List ℕ × ℕ)) (key : List ℕ) → exact_exists m key ≡ is_some (exact_find m key)
unfolding exact_exists
exact_exists-find m key = elim (Option-cases (exact_find m key)) [
  | inl e ↦ rw (e, exact_exists) refl
  | inr (h, e) ↦ rw (e, exact_exists) refl
]

pub exact_find-nil : (key : List ℕ) → exact_find [] key ≡ none
unfolding exact_find
exact_find-nil key = refl

-- The exact map keeps a map from keys to handles.
unfoldable pub exact_laws : LookupLaws exact_map
exact_laws = record {
  key_discrete = List-discrete ℕ_discrete;
  holds = exact_find;
  exists-holds = exact_exists-find;
  holds-clear = λ m key. exact_find-nil key;
  holds-add_self = λ m key h free. exact_find-add_self m key h;
  holds-add_other = λ m key other h free ne. exact_find-add_other m key other h ne;
  holds-delete_self = exact_find-erase_self;
  holds-delete_other = exact_find-erase_other;
  lookup-holds = λ m key h e. (key, e);
}
