-- ===== src/Trie/SamePrefix.antt =====
-- Two prefixes are the same, length and bits, exactly if the loops read the same bytes and the same
-- key.
use behavioral_model.Base.{
  ℕ, ◌+◌, ◌-◌, ◌*◌, ◌/◌, ◌^◌, ◌<◌, ◌≡◌, refl, sym, ap, ◌∙◌, inl, inr, true, some, List, [], ◌∷◌,
  leb, arith, Bool-cases, leb-false,
}
use behavioral_model.Trie.Shape.{Fits, path_of, key_of, same_bits, same_prefix}
use behavioral_model.Trie.Paths.{tail_key-zero, tail_key-byte, key_inj}

-- A prefix of fewer than eight bits: its byte, or 0 at the end of the text.
lead : List ℕ → ℕ
lead [] = 0
lead (x ∷ xs) = x

key_of-short :
    (xs : List ℕ) (len : ℕ)
    → Fits xs len
    → len < 8
    → key_of xs len ≡ some (lead xs / 2 ^ (8 - len) + len * 256)
unfolding lead
key_of-short [] len fits small = rw (fits, tail_key-zero [])
key_of-short (x ∷ xs) len fits small =
    rw (leb-false 8 len small) (tail_key-byte x xs len fits.0 small)

path_of-short : (xs : List ℕ) (len : ℕ) → len < 8 → path_of xs len ≡ []
path_of-short [] len small = refl
path_of-short (x ∷ xs) len small = rw (leb-false 8 len small)

lead-lt : (xs : List ℕ) (len : ℕ) → Fits xs len → lead xs < 256
unfolding lead
lead-lt [] len fits = omega arith
lead-lt (x ∷ xs) len fits = fits.0

short_bits :
    (xs ys : List ℕ) (len : ℕ)
    → Fits xs len
    → len < 8
    → lead xs / 2 ^ (8 - len) ≡ lead ys / 2 ^ (8 - len)
    → same_bits len xs ys ≡ true
unfolding same_bits lead
short_bits [] ys len fits small e = refl
short_bits (x ∷ xs) [] len fits small e = refl
short_bits (x ∷ xs) (y ∷ ys) len fits small e = ground arith

-- Where the bits end within the first byte.
short_same :
    (xs ys : List ℕ) (len len' : ℕ)
    → Fits xs len
    → Fits ys len'
    → len < 8
    → len' < 8
    → key_of xs len ≡ key_of ys len'
    → (len ≡ len') × (same_bits len xs ys ≡ true)
unfolding same_bits lead
short_same xs ys len len' fits fits' small small' e =
    let pair : (len ≡ len') × (lead xs / 2 ^ (8 - len) ≡ lead ys / 2 ^ (8 - len')) =
      key_inj (lead xs) (lead ys) len len' (lead-lt xs len fits) (lead-lt ys len' fits') small
        small'
        (ground (arith, key_of-short xs len fits small, key_of-short ys len' fits' small')) in
    (
      pair.0,
      short_bits xs ys len fits small (pair.1 ∙ ap (λ l. lead ys / 2 ^ (8 - l)) (sym pair.0)),
    )

same_of_route :
    (xs ys : List ℕ) (len len' : ℕ)
    → Fits xs len
    → Fits ys len'
    → path_of xs len ≡ path_of ys len'
    → key_of xs len ≡ key_of ys len'
    → (len ≡ len') × (same_bits len xs ys ≡ true)
unfolding same_bits
same_of_route [] [] len len' fits fits' p k = (omega arith, refl)
same_of_route [] (y ∷ ys) len len' fits fits' p k = elim (Bool-cases (leb 8 len')) [
  | inl more ↦ absurd (ground arith)
  | inr done ↦ short_same [] (y ∷ ys) len len' fits fits' (omega arith) (ground arith) k
]
same_of_route (x ∷ xs) [] len len' fits fits' p k = elim (Bool-cases (leb 8 len)) [
  | inl more ↦ absurd (ground arith)
  | inr done ↦ short_same (x ∷ xs) [] len len' fits fits' (ground arith) (omega arith) k
]
same_of_route (x ∷ xs) (y ∷ ys) len len' fits fits' p k = elim (Bool-cases (leb 8 len)) [
  | inl more ↦ elim (Bool-cases (leb 8 len')) [
    | inl more' ↦
        let (l, b) =
          same_of_route xs ys (len - 8) (len' - 8) fits.1 fits'.1 (ground arith) (ground arith) in
        (ground arith, ground arith)
    | inr done' ↦ absurd (ground arith)
  ]
  | inr done ↦ elim (Bool-cases (leb 8 len')) [
    | inl more' ↦ absurd (ground arith)
    | inr done' ↦ short_same (x ∷ xs) (y ∷ ys) len len' fits fits' (ground arith) (ground arith) k
  ]
]

route_of_same :
    (xs ys : List ℕ) (len : ℕ)
    → Fits xs len
    → Fits ys len
    → same_bits len xs ys ≡ true
    → (path_of xs len ≡ path_of ys len) × (key_of xs len ≡ key_of ys len)
unfolding same_bits
route_of_same [] [] len fits fits' e = (refl, refl)
route_of_same [] (y ∷ ys) len fits fits' e =
    rw (fits, tail_key-zero (y ∷ ys), tail_key-zero []) (refl, refl)
route_of_same (x ∷ xs) [] len fits fits' e =
    rw (fits', tail_key-zero (x ∷ xs), tail_key-zero []) (refl, refl)
route_of_same (x ∷ xs) (y ∷ ys) len fits fits' e = elim (Bool-cases (leb 8 len)) [
  | inl more ↦
      let (p, k) = route_of_same xs ys (len - 8) fits.1 fits'.1 (ground arith) in
      (ground arith, ground arith)
  | inr done ↦
      (ground arith, ground (arith, tail_key-byte x xs len fits.0, tail_key-byte y ys len fits'.0))
]

module _ (xs ys : List ℕ) (len len' : ℕ) (fits : Fits xs len) (fits' : Fits ys len') where
  pub same_prefix-route :
      same_prefix xs len ys len' ≡ true
      → (path_of xs len ≡ path_of ys len') × (key_of xs len ≡ key_of ys len')
  unfolding same_prefix
  same_prefix-route e =
      let same : len ≡ len' = ground arith in
      rw (← same) (route_of_same xs ys len fits (rw (← same) at fits') (ground arith))

  pub route-same_prefix :
      path_of xs len ≡ path_of ys len'
      → key_of xs len ≡ key_of ys len'
      → same_prefix xs len ys len' ≡ true
  unfolding same_prefix
  route-same_prefix p k = ground (arith, same_of_route xs ys len len' fits fits' p k)

-- A prefix in memory has a key.
pub key_of-some : (xs : List ℕ) (len : ℕ) → Fits xs len → (k : ℕ) × (key_of xs len ≡ some k)
key_of-some [] len fits = (0, rw (fits, tail_key-zero []))
key_of-some (x ∷ xs) len fits = elim (Bool-cases (leb 8 len)) [
  | inl more ↦ rw more (key_of-some xs (len - 8) fits.1)
  | inr done ↦ rw done (_, tail_key-byte x xs len fits.0 (ground arith))
]
