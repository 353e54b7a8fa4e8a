-- ===== src/Meter/Config.antt =====
-- Meters after set_rates: what a configuration promises.
use behavioral_model.Base.{
  ℕ, zero, suc, ◌+◌, ◌≤◌, ◌<◌, ◌≡◌, refl, sym, ap, subst, ◌∙◌, true, some, List, [], ◌∷◌, ◌++◌,
  get_elem?, set, length, arith, inl, inr, ◌⊎◌, length-set, get_elem?-set_self, get_elem?-set_ne,
  Bool-cases, Option-cases, get_elem?_lt,
}
use native.Mathlib.Decide.{ℕ_discrete}
use behavioral_model.Meter.{
  Rates, RateConfig, MeterErrorCode, success, invalid_index, bad_rates_list,
  invalid_info_rate_value, invalid_burst_size_value, error, MeterRate, Meter, new_rate, set_rate,
  set_each, reverse, set_rates,
}
use behavioral_model.Meter.Conformance.{IsSound}
use behavioral_model.Meter.Traffic.{
  drive, in_order, end_time, green_total, Drove, drive-Drove, drive-bounded,
}

module _ {R : Type 0} (f : Rates R) where
  -- The rates below `index` are as set_rate leaves them: full, and each with the color of its place.
  abbrev SetBelow : ℕ → List (MeterRate R) → Type 0
  SetBelow index rates =
      (i : ℕ) (r : MeterRate R)
      → i < index
      → get_elem? rates i ≡ some r
      → (r.color ≡ i + 1) × (r.tokens ≡ r.burst_size) × (r.tokens_last ≡ 0)

  set_rate-written :
      (rates : List (MeterRate R)) (index : ℕ) (config : RateConfig R)
      → (set_rate f rates index config).1 ≡ set rates index (new_rate f index config)
  unfolding set_rate
  set_rate-written rates zero config = refl
  set_rate-written rates (suc before) config = elim (Option-cases (get_elem? rates before)) [
    | inl e ↦ rw (e, set_rate) refl
    | inr (prev_rate, e) ↦ elim (Bool-cases (f.greater prev_rate.info_rate config.info_rate)) [
      | inl above ↦ rw (e, set_rate) (rw above refl)
      | inr fits ↦ rw (e, set_rate) (rw fits refl)
    ]
  ]

  set-SetBelow :
      (rates : List (MeterRate R)) (index : ℕ) (config : RateConfig R)
      → index < length rates
      → SetBelow index rates
      → SetBelow (index + 1) (set rates index (new_rate f index config))
  unfolding new_rate
  set-SetBelow rates index config room below i r lt e = elim (ℕ_discrete index i) [
    | yes same ↦
        let self = get_elem?-set_self rates index (new_rate f index config) room in
        let is : new_rate f index config ≡ r = cc (self, e, same) in
        subst
          (λ (x : MeterRate R). (x.color ≡ i + 1) × (x.tokens ≡ x.burst_size) × (x.tokens_last ≡ 0))
          is (ap (λ k. k + 1) same, refl, refl)
    | no other ↦ below i r (omega arith) (sym (get_elem?-set_ne rates index i _ other) ∙ e)
  ]

  -- A step of the loop that the loop survives.
  survives :
      (rc : MeterErrorCode) (rest : MeterErrorCode × List (MeterRate R))
      (rates1 rates' : List (MeterRate R))
      → (elim rc [ success ↦ rest | other ↦ (other, rates1) ]) ≡ (success, rates')
      → rest ≡ (success, rates')
  survives success rest rates1 rates' e = e
  survives invalid_index rest rates1 rates' e = absurd (cc e)
  survives bad_rates_list rest rates1 rates' e = absurd (cc e)
  survives invalid_info_rate_value rest rates1 rates' e = absurd (cc e)
  survives invalid_burst_size_value rest rates1 rates' e = absurd (cc e)
  survives error rest rates1 rates' e = absurd (cc e)

  set_each-SetBelow :
      (configs : List (RateConfig R)) (rates rates' : List (MeterRate R)) (index : ℕ)
      → index + length configs ≡ length rates
      → SetBelow index rates
      → set_each f configs rates index ≡ (success, rates')
      → SetBelow (length rates) rates' × (length rates' ≡ length rates)
  unfolding set_each
  set_each-SetBelow [] rates rates' index fits below run =
      let same : rates ≡ rates' = cc run in
      let full : index ≡ length rates = omega (arith, fits) in
      (
        subst (SetBelow (length rates)) same (subst (λ k. SetBelow k rates) full below),
        ap length (sym same),
      )
  set_each-SetBelow (config ∷ configs) rates rates' index fits below run =
      let written = set_rate-written rates index config in
      let room : index < length rates = omega (arith, fits) in
      let rest =
        survives (set_rate f rates index config).0
          (set_each f configs (set_rate f rates index config).1 (index + 1))
          (set_rate f rates index config).1 rates' run in
      let moved : length (set rates index (new_rate f index config)) ≡ length rates =
        length-set rates index _ in
      subst (λ k. SetBelow k rates' × (length rates' ≡ k)) moved
        (set_each-SetBelow configs (set rates index (new_rate f index config)) rates' (index + 1)
          (omega (arith, moved, fits)) (set-SetBelow rates index config room below)
          (subst (λ x. set_each f configs x (index + 1) ≡ (success, rates')) written rest))

  get_elem?-snoc :
      (xs : List (MeterRate R)) (i : ℕ) (y x : MeterRate R)
      → get_elem? (xs ++ (y ∷ [])) i ≡ some x
      → (y ≡ x) ⊎ (get_elem? xs i ≡ some x)
  get_elem?-snoc [] zero y x e = inl (cc e)
  get_elem?-snoc [] (suc i) y x e = absurd (cc e)
  get_elem?-snoc (z ∷ xs) zero y x e = inr e
  get_elem?-snoc (z ∷ xs) (suc i) y x e = get_elem?-snoc xs i y x e

  -- An element of a reversed list stands in the list.
  get_elem?-reverse :
      (xs : List (MeterRate R)) (i : ℕ) (x : MeterRate R)
      → get_elem? (reverse xs) i ≡ some x
      → (k : ℕ) × (get_elem? xs k ≡ some x)
  unfolding reverse
  get_elem?-reverse [] i x e = absurd (cc e)
  get_elem?-reverse (y ∷ xs) i x e = elim (get_elem?-snoc (reverse xs) i y x e) [
    | inl same ↦ (0, ap some same)
    | inr old ↦ let (k, at) = get_elem?-reverse xs i x old in (suc k, at)
  ]

  finishes :
      (m m' : Meter R) (rc : MeterErrorCode) (rates : List (MeterRate R))
      → ◌≡◌ {A = MeterErrorCode × Meter R}
          (elim rc [
            | success ↦ (success, record m { rates = reverse rates; configured = true })
            | other ↦ (other, record m { rates = rates })
          ])
          (success, m')
      → (rc ≡ success) × (record m { rates = reverse rates; configured = true } ≡ m')
  finishes m m' success rates e = (refl, cc e)
  finishes m m' invalid_index rates e = absurd (cc e)
  finishes m m' bad_rates_list rates e = absurd (cc e)
  finishes m m' invalid_info_rate_value rates e = absurd (cc e)
  finishes m m' invalid_burst_size_value rates e = absurd (cc e)
  finishes m m' error rates e = absurd (cc e)

  set_rates-run :
      (m m' : Meter R) (configs : List (RateConfig R))
      → set_rates f m configs ≡ (success, m')
      → (length configs ≡ length m.rates)
        × ((set_each f configs m.rates 0).0 ≡ success)
        × (record m { rates = reverse (set_each f configs m.rates 0).1; configured = true } ≡ m')
  unfolding set_rates
  set_rates-run m m' configs run = elim (ℕ_discrete (length configs) (length m.rates)) [
    | yes fits ↦
        let (done, result) =
          finishes m m' (set_each f configs m.rates 0).0 (set_each f configs m.rates 0).1
            (ground (arith, run, fits)) in
        (fits, done, result)
    | no other ↦ absurd (ground (arith, run, other))
  ]

  -- The rates after a successful set_rates are sound at any time, and full.
  AllFull : List (MeterRate R) → Type 0
  AllFull rates =
      (i : ℕ) (r : MeterRate R)
      → get_elem? rates i ≡ some r
      → (1 ≤ r.color) × (r.tokens ≡ r.burst_size) × (r.tokens_last ≡ 0)

  reverse-AllFull :
      (rates : List (MeterRate R)) → SetBelow (length rates) rates → AllFull (reverse rates)
  unfolding AllFull
  reverse-AllFull rates below i r e =
      let (k, at) = get_elem?-reverse rates i r e in
      let (colored, full, fresh) = below k r (get_elem?_lt rates k r at) at in
      (omega (arith, colored), full, fresh)

  set_rates-AllFull :
      (m m' : Meter R) (configs : List (RateConfig R))
      → set_rates f m configs ≡ (success, m')
      → AllFull m'.rates × (m'.configured ≡ true)
  set_rates-AllFull m m' configs run =
      let (fits, done, result) = set_rates-run m m' configs run in
      let (below, size) =
        set_each-SetBelow configs m.rates (set_each f configs m.rates 0).1 0 (omega (arith, fits))
          (λ i r lt e. absurd (omega (arith, lt))) (cc done) in
      subst (λ (x : Meter R). AllFull x.rates × (x.configured ≡ true)) result
        (
          reverse-AllFull (set_each f configs m.rates 0).1
              (subst (λ k. SetBelow k (set_each f configs m.rates 0).1) (sym size) below),
          refl,
        )

  module _ (later : (a b : ℕ) (rate : R) → a ≤ b → f.tokens a rate ≤ f.tokens b rate) where
    -- After set_rates succeeds, the meter handles any packets in the order of time. Of those from any
    -- time `start` on, whatever came before, the green ones take at most the burst size of each rate and
    -- the tokens that it earns from `start` to the last packet, where the tokens earned do not fall with
    -- time.
    pub set_rates-bounded :
        (m m' : Meter R) (configs : List (RateConfig R)) (before packets : List (ℕ × ℕ)) (start : ℕ)
        → set_rates f m configs ≡ (success, m')
        → in_order f 0 before ≡ true
        → end_time f 0 before ≤ start
        → in_order f start packets ≡ true
        → (colors1 : List ℕ) × (m1 : Meter R) × (colors : List ℕ) × (m2 : Meter R) × (drive f m'
              before
            ≡ some (colors1, m1))
          × (drive f m1 packets ≡ some (colors, m2))
          × ((i : ℕ) (r : MeterRate R)
              → get_elem? m'.rates i ≡ some r
              → green_total f m'.type packets colors + f.tokens start r.info_rate
                ≤ r.burst_size + f.tokens (end_time f start packets) r.info_rate)
    unfolding AllFull Drove
    set_rates-bounded m m' configs before packets start run order le order' =
        let (full, on) = set_rates-AllFull m m' configs run in
        let (colors1, m1, drove1, sound1, paid1, on1, type1) =
          drive-Drove f later before m' 0 on (λ i r e. AllFull-IsSound r (full i r e)) order in
        let (colors, m2, drove, bound) =
          drive-bounded f later packets m1 (end_time f 0 before) start (on1 ∙ on) sound1 le
            order' in
        (
          colors1,
          m1,
          colors,
          m2,
          drove1,
          drove,
          λ i r e.
              let (r1, e1, p) = paid1 i r e in
              omega (
                arith,
                bound i r1 e1,
                p.same_burst,
                ap (f.tokens start) p.same_rate,
                ap (f.tokens (end_time f start packets)) p.same_rate,
                ap (λ t. green_total f t packets colors) type1,
              ),
        )
      where
        AllFull-IsSound :
            (r : MeterRate R)
            → (1 ≤ r.color) × (r.tokens ≡ r.burst_size) × (r.tokens_last ≡ 0)
            → IsSound f 0 r
        AllFull-IsSound r (colored, tokens, last) = record {
          colored = colored;
          capped = omega (arith, tokens);
          earned = omega (arith, last);
        }
