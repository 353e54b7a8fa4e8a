-- ===== src/Meter/Conformance.antt =====
-- The traffic that a meter marks green conforms to each of its rates.
use behavioral_model.Base.{
  ℕ, zero, suc, ◌+◌, ◌-◌, ◌%◌, ◌≤◌, ◌<◌, ◌≡◌, refl, subst, ◌∙◌, Option, some, List, [], ◌∷◌, ◌==◌,
  ltb, if◌then◌else◌, ap, min, get_elem?, arith, Bool-cases, inl, inr, leb-true,
}
use behavioral_model.Meter.{Rates, MeterRate, filled, run_rates}

module _ {R : Type 0} (f : Rates R) where
  -- A rate between two packets, at the time `now`: it has a color of its own and at most a burst of
  -- tokens, and no more is written down as earned than the time allows.
  pub record IsSound (now : ℕ) (r : MeterRate R) : Type 0 where
    pub colored : 1 ≤ r.color
    pub capped : r.tokens ≤ r.burst_size
    pub earned : r.tokens_last ≤ f.tokens now r.info_rate

  abbrev pub AllSound : ℕ → List (MeterRate R) → Type 0
  AllSound now rates = (i : ℕ) (r : MeterRate R) → get_elem? rates i ≡ some r → IsSound now r

  -- The tokens that a rate has at the time `now`, once it is filled.
  unfoldable pub available : ℕ → MeterRate R → ℕ
  available now r = min (r.tokens + (f.tokens now r.info_rate - r.tokens_last)) r.burst_size

  -- From `r` at the time `now` to `r'` at the time `micros`, `green` was taken, and paid by the tokens
  -- that `r` had available and those earned since.
  pub record Pays (now micros green : ℕ) (r r' : MeterRate R) : Type 0 where
    pub same_rate : r'.info_rate ≡ r.info_rate
    pub same_burst : r'.burst_size ≡ r.burst_size
    pub paid :
        available micros r' + green + f.tokens now r.info_rate
        ≤ available now r + f.tokens micros r.info_rate

  abbrev pub AllPay : ℕ → ℕ → ℕ → List (MeterRate R) → List (MeterRate R) → Type 0
  AllPay now micros green rates rates' =
      (i : ℕ) (r : MeterRate R)
      → get_elem? rates i ≡ some r
      → (r' : MeterRate R) × (get_elem? rates' i ≡ some r') × Pays now micros green r r'

  unfoldable pub green_amount : ℕ → ℕ → ℕ
  green_amount color input = if color == 0 then input else 0

  -- A rate that only gets older.
  pub Pays-wait :
      (now micros : ℕ) (r : MeterRate R)
      → r.tokens_last ≤ f.tokens now r.info_rate
      → f.tokens now r.info_rate ≤ f.tokens micros r.info_rate
      → Pays now micros 0 r r
  unfolding available
  Pays-wait now micros r earned clock = record {
    same_rate = refl;
    same_burst = refl;
    paid = omega (arith, earned, clock);
  }

  pub Pays-append :
      (now mid micros a b : ℕ) (r s t : MeterRate R)
      → Pays now mid a r s
      → Pays mid micros b s t
      → Pays now micros (a + b) r t
  Pays-append now mid micros a b r s t p q = record {
    same_rate = q.same_rate ∙ p.same_rate;
    same_burst = q.same_burst ∙ p.same_burst;
    paid =
        omega
          (arith, p.paid, q.paid, ap (f.tokens mid) p.same_rate, ap (f.tokens micros) p.same_rate);
  }

  mod-below : (a m : ℕ) → 0 < m → a % m ≤ a
  mod-below a m pos = omega arith

  -- The rate after it is filled, where `taken` is at most its tokens.
  module _ (r : MeterRate R) (now micros taken : ℕ) (s : IsSound now r)
      (clock : f.tokens now r.info_rate ≤ f.tokens micros r.info_rate) where
    abbrev full : MeterRate R
    full = filled f r (f.tokens micros r.info_rate)

    abbrev after : MeterRate R
    after = record full { tokens = full.tokens - taken }

    after-IsSound : IsSound micros after
    unfolding filled
    after-IsSound = record { colored = s.colored; capped = omega arith; earned = omega arith }

    after-Pays : taken ≤ full.tokens → Pays now micros taken r after
    unfolding filled available
    after-Pays enough = record {
      same_rate = refl;
      same_burst = refl;
      paid = omega (arith, s.earned, clock, enough);
    }

    -- The rate that stops a packet pays nothing.
    full-IsSound : IsSound micros full
    unfolding filled
    full-IsSound = record { colored = s.colored; capped = omega arith; earned = omega arith }

    full-Pays : Pays now micros 0 r full
    unfolding filled available
    full-Pays = record {
      same_rate = refl;
      same_burst = refl;
      paid = omega (arith, s.earned, clock);
    }

  Pays-less :
      (now micros a b : ℕ) (r s : MeterRate R)
      → b ≤ a
      → Pays now micros a r s
      → Pays now micros b r s
  Pays-less now micros a b r s less p = record {
    same_rate = p.same_rate;
    same_burst = p.same_burst;
    paid = omega (arith, p.paid, less);
  }

  green_amount-le : (color input : ℕ) → green_amount color input ≤ input
  unfolding green_amount
  green_amount-le color input = ground arith

  green_amount-stopped : (color input : ℕ) → 1 ≤ color → green_amount color input ≡ 0
  unfolding green_amount
  green_amount-stopped color input colored = ground arith

  -- The statements about all rates, from the first and the others.
  AllSound-cons :
      (now : ℕ) (r : MeterRate R) (rates : List (MeterRate R))
      → IsSound now r
      → AllSound now rates
      → AllSound now (r ∷ rates)
  AllSound-cons now r rates s rest zero x e = let same : r ≡ x = cc e in subst (IsSound now) same s
  AllSound-cons now r rates s rest (suc i) x e = rest i x e

  AllPay-cons :
      (now micros green : ℕ) (r r' : MeterRate R) (rates rates' : List (MeterRate R))
      → Pays now micros green r r'
      → AllPay now micros green rates rates'
      → AllPay now micros green (r ∷ rates) (r' ∷ rates')
  AllPay-cons now micros green r r' rates rates' p rest zero x e =
      let same : r ≡ x = cc e in (r', refl, subst (λ y. Pays now micros green y r') same p)
  AllPay-cons now micros green r r' rates rates' p rest (suc i) x e = rest i x e

  module _ (later : (a b : ℕ) (rate : R) → a ≤ b → f.tokens a rate ≤ f.tokens b rate) where
    pub AllSound-later :
        (now micros : ℕ) (rates : List (MeterRate R))
        → now ≤ micros
        → AllSound now rates
        → AllSound micros rates
    AllSound-later now micros rates le sound i r e =
        let s = sound i r e in
        record {
          colored = s.colored;
          capped = s.capped;
          earned = omega (arith, s.earned, later now micros r.info_rate le);
        }

    -- What a loop over the rates leaves.
    unfoldable pub Ran : ℕ → ℕ → ℕ → List (MeterRate R) → Option (ℕ × List (MeterRate R)) → Type 0
    Ran now micros input rates result =
        (color : ℕ) × (rates' : List (MeterRate R)) × (result ≡ some (color, rates'))
        × AllSound micros rates'
        × AllPay now micros (green_amount color input) rates rates'

    stops :
        (r : MeterRate R) (rates : List (MeterRate R)) (now micros input : ℕ)
        → now ≤ micros
        → AllSound now (r ∷ rates)
        → (filled f r (f.tokens micros r.info_rate)).tokens < input
        → Ran now micros input
            (r ∷ rates)
            (some (r.color, filled f r (f.tokens micros r.info_rate) ∷ rates))
    unfolding Ran
    stops r rates now micros input le sound short =
        let s = sound 0 r refl in
        let clock = later now micros r.info_rate le in
        (
          r.color,
          _,
          refl,
          AllSound-cons micros _ rates (full-IsSound r now micros 0 s clock)
              (AllSound-later now micros rates le (λ i x e. sound (suc i) x e)),
          rw (green_amount-stopped r.color input s.colored) (
              AllPay-cons now micros 0 r _ rates rates (full-Pays r now micros 0 s clock) (λ i x e.
                (
                  x,
                  e,
                  Pays-wait now micros x (sound (suc i) x e).earned
                      (later now micros x.info_rate le),
                ))),
        )

    passes :
        (r : MeterRate R) (rates rates' : List (MeterRate R)) (now micros input color : ℕ)
        → now ≤ micros
        → AllSound now (r ∷ rates)
        → input ≤ (filled f r (f.tokens micros r.info_rate)).tokens
        → AllSound micros rates'
        → AllPay now micros (green_amount color input) rates rates'
        → let full = filled f r (f.tokens micros r.info_rate) in
          Ran now micros input
            (r ∷ rates)
            (some (color, record full { tokens = full.tokens - input } ∷ rates'))
    unfolding Ran
    passes r rates rates' now micros input color le sound enough sound' paid =
        let s = sound 0 r refl in
        let clock = later now micros r.info_rate le in
        (
          color,
          _,
          refl,
          AllSound-cons micros _ rates' (after-IsSound r now micros input s clock) sound',
          AllPay-cons now micros (green_amount color input) r _ rates rates'
              (Pays-less now micros input (green_amount color input) r _
                (green_amount-le color input) (after-Pays r now micros input s clock enough))
              paid,
        )

    pub run_rates-Ran :
        (rates : List (MeterRate R)) (now micros input : ℕ)
        → now ≤ micros
        → AllSound now rates
        → Ran now micros input rates (run_rates f rates micros input)
    unfolding run_rates Ran
    run_rates-Ran [] now micros input le sound =
        (0, [], refl, λ i r e. absurd (cc e), λ i r e. absurd (cc e))
    run_rates-Ran (r ∷ rates) now micros input le sound =
        let s = sound 0 r refl in
        let enough =
          leb-true r.tokens_last (f.tokens micros r.info_rate)
            (omega (arith, s.earned, later now micros r.info_rate le)) in
        elim (Bool-cases (ltb (filled f r (f.tokens micros r.info_rate)).tokens input)) [
          | inl short ↦
              rw (enough, run_rates)
                (rw short (stops r rates now micros input le sound (ground arith)))
          | inr long ↦
              let (color, rates', run, sound', paid) =
                run_rates-Ran rates now micros input le (λ i x e. sound (suc i) x e) in
              rw (enough, run_rates)
                (rw long (
                  rw run (
                    passes r rates rates' now micros input color le sound (ground arith) sound'
                      paid)))
        ]
