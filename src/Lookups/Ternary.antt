-- ===== src/Lookups/Ternary.antt =====
-- The ternary lookup: the matching slot of the least priority.
use behavioral_model.Base.{
  ℕ, zero, suc, ◌+◌, ◌≤◌, ◌<◌, ◌≡◌, refl, sym, ap, subst, ◌∙◌, inl, inr, ◌⊎◌, true, false, Option,
  none, some, List, [], ◌∷◌, arith, Bool-cases, get_elem?, ==_iff, ◌==◌, leb, length,
}
use Prim.Native.Nat.{bit_and}
use native.Mathlib.Decide.{ℕ_discrete}
use behavioral_model.Lookups.{
  TernaryMatchKey, max_priority, ternary_match, ternary_better, ternary_scan, ternary_lookup,
}

-- The `n` leading bytes are those of the key, as far as the mask has their bits.
abbrev pub Agrees : ℕ → List ℕ → List ℕ → List ℕ → Type 0
Agrees n bytes key mask =
    (i b y m : ℕ)
    → i < n
    → get_elem? bytes i ≡ some b
    → get_elem? key i ≡ some y
    → get_elem? mask i ≡ some m
    → b ≡ bit_and y m

Agrees-cons :
    (n b k m : ℕ) (bytes key mask : List ℕ)
    → b ≡ bit_and k m
    → Agrees n bytes key mask
    → Agrees (suc n) (b ∷ bytes) (k ∷ key) (m ∷ mask)
Agrees-cons n b k m bytes key mask e rest zero b' y m' lt at_b at_y at_m = cc
Agrees-cons n b k m bytes key mask e rest (suc i) b' y m' lt at_b at_y at_m =
    rest i b' y m' (omega (arith, lt)) at_b at_y at_m

ternary_match-cases :
    (n : ℕ) (bytes key mask : List ℕ)
    → n ≤ length bytes
    → n ≤ length key
    → n ≤ length mask
    → ((ternary_match n bytes key mask ≡ some true) × Agrees n bytes key mask)
      ⊎ ((ternary_match n bytes key mask ≡ some false) × (¬ Agrees n bytes key mask))
unfolding ternary_match
ternary_match-cases zero bytes key mask lb lk lm =
    inl (refl, λ i b y m lt at_b at_y at_m. absurd (omega (arith, lt)))
ternary_match-cases (suc n) [] key mask lb lk lm = absurd (omega (arith, lb))
ternary_match-cases (suc n) (b ∷ bytes) [] mask lb lk lm = absurd (omega (arith, lk))
ternary_match-cases (suc n) (b ∷ bytes) (k ∷ key) [] lb lk lm = absurd (omega (arith, lm))
ternary_match-cases (suc n) (b ∷ bytes) (k ∷ key) (m ∷ mask) lb lk lm =
    elim (Bool-cases (b == bit_and k m)) [
      | inl same ↦
          elim (ternary_match-cases n bytes key mask (omega (arith, lb)) (omega (arith, lk))
            (omega (arith, lm))) [
              | inl (run, agrees) ↦ inl (
                rw same run,
                Agrees-cons n b k m bytes key mask ((==_iff b (bit_and k m)).0 same) agrees,
              )
              | inr (run, differs) ↦ inr (
                rw same run,
                λ agrees. differs (λ i b' y m' lt. agrees (suc i) b' y m' (omega (arith, lt))),
              )
            ]
      | inr other ↦ inr (
        rw other refl,
        λ agrees. let e = agrees 0 b k m (omega arith) refl refl refl in ground (arith, other, e),
      )
    ]

-- The slots that are not marked empty have the bytes of a key and of a mask.
abbrev pub AreLong : ℕ → List TernaryMatchKey → Type 0
AreLong nbytes_key keys =
    (i : ℕ) (k : TernaryMatchKey)
    → get_elem? keys i ≡ some k
    → k.priority < max_priority
    → (nbytes_key ≤ length k.bytes) × (nbytes_key ≤ length k.mask)

module _ (nbytes_key : ℕ) (key : List ℕ) where
  -- The slot `i` of `keys` holds `k`, and `k` matches.
  pub record IsMatch (keys : List TernaryMatchKey) (i : ℕ) (k : TernaryMatchKey) : Type 0 where
    pub there : get_elem? keys i ≡ some k
    pub agrees : Agrees nbytes_key k.bytes key k.mask

  -- The slot `i` comes before the slot `i'`: a lower priority value, or the same one and an earlier
  -- place.
  abbrev pub IsFirst : ℕ → TernaryMatchKey → ℕ → TernaryMatchKey → Type 0
  IsFirst i k i' k' = (k.priority < k'.priority) ⊎ ((k.priority ≡ k'.priority) × (i ≤ i'))

  -- The best slot with a priority below `bound`.
  pub record IsBest (keys : List TernaryMatchKey) (bound i : ℕ) (k : TernaryMatchKey) : Type 0 where
    pub matches : IsMatch keys i k
    pub below : k.priority < bound
    pub first : (i' : ℕ) (k' : TernaryMatchKey) → IsMatch keys i' k' → IsFirst i k i' k'

  abbrev pub IsNone : List TernaryMatchKey → ℕ → Type 0
  IsNone keys bound = (i : ℕ) (k : TernaryMatchKey) → IsMatch keys i k → bound ≤ k.priority

  -- What a scan gives from the slot `start` on.
  abbrev Scanned : List TernaryMatchKey → ℕ → ℕ → Option ℕ → Option ℕ → Type 0
  Scanned keys start bound found result =
      ((result ≡ found) × IsNone keys bound)
      ⊎ ((i : ℕ) × (k : TernaryMatchKey) × (result ≡ some (start + i)) × IsBest keys bound i k)

  -- What the test of a slot says, where the bytes that it reads are there.
  ternary_better-cases :
      (k : TernaryMatchKey) (bound : ℕ)
      → (k.priority < bound → (nbytes_key ≤ length k.bytes) × (nbytes_key ≤ length k.mask))
      → nbytes_key ≤ length key
      → ((ternary_better nbytes_key k key bound ≡ some true)
          × (k.priority < bound)
          × Agrees nbytes_key k.bytes key k.mask)
        ⊎ ((ternary_better nbytes_key k key bound ≡ some false)
            × (Agrees nbytes_key k.bytes key k.mask → bound ≤ k.priority))
  unfolding ternary_better
  ternary_better-cases k bound long long_key = elim (Bool-cases (leb bound k.priority)) [
    | inl worse ↦ inr (rw worse refl, λ agrees. ground (arith, worse))
    | inr better ↦
        let lt : k.priority < bound = ground (arith, better) in
        let (lb, lm) = long lt in
        elim (ternary_match-cases nbytes_key k.bytes key k.mask lb long_key lm) [
          | inl (run, agrees) ↦ inl (rw better run, lt, agrees)
          | inr (run, differs) ↦ inr (rw better run, λ agrees. absurd (differs agrees))
        ]
  ]

  IsMatch-head :
      (k : TernaryMatchKey) (keys : List TernaryMatchKey)
      → Agrees nbytes_key k.bytes key k.mask
      → IsMatch (k ∷ keys) 0 k
  IsMatch-head k keys agrees = record { there = refl; agrees = agrees }

  IsMatch-suc :
      (k : TernaryMatchKey) (keys : List TernaryMatchKey) (i : ℕ) (k' : TernaryMatchKey)
      → IsMatch keys i k'
      → IsMatch (k ∷ keys) (suc i) k'
  IsMatch-suc k keys i k' m = record { there = m.there; agrees = m.agrees }

  IsMatch-cases :
      (Q : ℕ → TernaryMatchKey → Type 0) (k : TernaryMatchKey) (keys : List TernaryMatchKey)
      → (Agrees nbytes_key k.bytes key k.mask → Q 0 k)
      → ((i : ℕ) (k' : TernaryMatchKey) → IsMatch keys i k' → Q (suc i) k')
      → (i : ℕ) (k' : TernaryMatchKey) → IsMatch (k ∷ keys) i k'
      → Q i k'
  IsMatch-cases Q k keys head tail zero k' m =
      let same : k ≡ k' = cc (m.there) in
      subst (λ x. Q 0 x) same
        (head (subst (λ x. Agrees nbytes_key x.bytes key x.mask) (sym same) (m.agrees)))
  IsMatch-cases Q k keys head tail (suc i) k' m =
      tail i k' (record { there = m.there; agrees = m.agrees })

  -- The slot in front does not replace the best one so far.
  Scanned-skip :
      (k : TernaryMatchKey) (keys : List TernaryMatchKey) (start bound : ℕ)
      (found result : Option ℕ)
      → (Agrees nbytes_key k.bytes key k.mask → bound ≤ k.priority)
      → Scanned keys (start + 1) bound found result
      → Scanned (k ∷ keys) start bound found result
  Scanned-skip k keys start bound found result skips (inl (e, nothing)) =
      inl (e, IsMatch-cases (λ i x. bound ≤ x.priority) k keys skips nothing)
  Scanned-skip k keys start bound found result skips (inr (i, b, e, best)) = inr (
    suc i,
    b,
    e ∙ ap some (omega arith),
    record {
      matches = IsMatch-suc k keys i b best.matches;
      below = best.below;
      first =
          IsMatch-cases (IsFirst (suc i) b) k keys
            (λ agrees. inl (omega (arith, skips agrees, best.below)))
            (λ i' k' m. elim (best.first i' k' m) [
              | inl lt ↦ inl lt
              | inr (same, le) ↦ inr (same, omega arith)
            ]);
    },
  )

  -- The slot in front replaces it.
  Scanned-take :
      (k : TernaryMatchKey) (keys : List TernaryMatchKey) (start bound : ℕ)
      (found result : Option ℕ)
      → (k.priority < bound) × Agrees nbytes_key k.bytes key k.mask
      → Scanned keys (start + 1) k.priority (some start) result
      → Scanned (k ∷ keys) start bound found result
  Scanned-take k keys start bound found result takes (inl (e, nothing)) =
      let (lt, agrees) = takes in
      inr (
        0,
        k,
        e ∙ ap some (omega arith),
        record {
          matches = IsMatch-head k keys agrees;
          below = lt;
          first =
              IsMatch-cases (IsFirst 0 k) k keys (λ _. inr (refl, omega arith))
                (λ i' k' m.
                  let le = nothing i' k' m in
                  elim (ℕ_discrete k.priority k'.priority) [
                    | yes same ↦ inr (same, omega arith)
                    | no other ↦ inl (omega arith)
                  ]);
        },
      )
  Scanned-take k keys start bound found result takes (inr (i, b, e, best)) =
      let (lt, agrees) = takes in
      inr (
        suc i,
        b,
        e ∙ ap some (omega arith),
        record {
          matches = IsMatch-suc k keys i b best.matches;
          below = omega (arith, best.below);
          first =
              IsMatch-cases (IsFirst (suc i) b) k keys (λ _. inl best.below)
                (λ i' k' m. elim (best.first i' k' m) [
                  | inl lt ↦ inl lt
                  | inr (same, le) ↦ inr (same, omega arith)
                ]);
        },
      )

  ternary_scan-Scanned :
      (keys : List TernaryMatchKey) (start bound : ℕ) (found : Option ℕ)
      → nbytes_key ≤ length key
      → bound ≤ max_priority
      → AreLong nbytes_key keys
      → (result : Option ℕ) × (ternary_scan nbytes_key keys key start bound found ≡ some result)
        × Scanned keys start bound found result
  unfolding ternary_scan
  ternary_scan-Scanned [] start bound found long_key le long =
      (found, refl, inl (refl, λ i k m. absurd (cc (m.there))))
  ternary_scan-Scanned (k ∷ keys) start bound found long_key le long =
      elim (ternary_better-cases k bound (λ lt. long 0 k refl (omega (arith, lt, le))) long_key) [
        | inl (better, lt, agrees) ↦
            let (result, run, scanned) =
              ternary_scan-Scanned keys (start + 1) k.priority (some start) long_key
                (omega (arith, lt, le)) (λ i x e. long (suc i) x e) in
            (
              result,
              rw (better, ternary_scan) run,
              Scanned-take k keys start bound found result (lt, agrees) scanned,
            )
        | inr (worse, skips) ↦
            let (result, run, scanned) =
              ternary_scan-Scanned keys (start + 1) bound found long_key le
                (λ i x e. long (suc i) x e) in
            (
              result,
              rw (worse, ternary_scan) run,
              Scanned-skip k keys start bound found result skips scanned,
            )
      ]

  -- The outcome of a lookup: no slot that is not marked empty matches, or the best of them.
  abbrev pub IsOutcome : List TernaryMatchKey → Option ℕ → Type 0
  IsOutcome keys result =
      ((result ≡ none) × IsNone keys max_priority)
      ⊎ ((i : ℕ) × (k : TernaryMatchKey) × (result ≡ some i) × IsBest keys max_priority i k)

  -- Where the key and the slots that are not marked empty have the bytes compared, a ternary lookup
  -- reads past no end. It misses when each slot that agrees with the key under its mask is marked
  -- empty; otherwise it gives the slot that agrees of the least priority value, the earliest of these
  -- where several have it.
  pub ternary_lookup-IsOutcome :
      (keys : List TernaryMatchKey)
      → nbytes_key ≤ length key
      → AreLong nbytes_key keys
      → (result : Option ℕ) × (ternary_lookup nbytes_key keys key ≡ some result)
        × IsOutcome keys result
  unfolding ternary_lookup
  ternary_lookup-IsOutcome keys long_key long =
      let (result, run, scanned) =
        ternary_scan-Scanned keys 0 max_priority none long_key (omega arith) long in
      (
        result,
        run,
        elim scanned [
          | inl nothing ↦ inl nothing
          | inr (i, k, e, best) ↦ inr (i, k, e ∙ ap some (omega arith), best)
        ],
      )
