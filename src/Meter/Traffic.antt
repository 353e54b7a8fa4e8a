-- ===== src/Meter/Traffic.antt =====
-- A meter over a sequence of packets: what it marks green is bounded by each of its rates.
use behavioral_model.Base.{
  ℕ, ◌+◌, ◌≤◌, ◌≡◌, refl, Bool, true, ◌&&◌, Option, none, some, List, [], ◌∷◌, leb, get_elem?,
  arith,
}
use behavioral_model.Meter.{Rates, MeterType, MeterRate, Meter, run_rates, amount, execute}
use behavioral_model.Meter.Conformance.{
  AllSound, AllPay, Pays-wait, Pays-append, AllSound-later, available, green_amount, run_rates-Ran,
  Ran,
}

module _ {R : Type 0} (f : Rates R) where
  -- The packets, each with its time and its length, in turn; the colors that they get.
  unfoldable pub drive : Meter R → List (ℕ × ℕ) → Option (List ℕ × Meter R)
  drive m [] = some ([], m)
  drive m ((micros, ingress_length) ∷ packets) = elim (execute f m micros ingress_length) [
    | none ↦ none
    | some (color, m1) ↦ elim (drive m1 packets) [
      | none ↦ none
      | some (colors, m2) ↦ some (color ∷ colors, m2)
    ]
  ]

  -- No packet comes before the one in front of it, nor before `now`.
  abbrev pub in_order : ℕ → List (ℕ × ℕ) → Bool
  in_order now [] = true
  in_order now ((micros, ingress_length) ∷ packets) = leb now micros && in_order micros packets

  abbrev pub end_time : ℕ → List (ℕ × ℕ) → ℕ
  end_time now [] = now
  end_time now ((micros, ingress_length) ∷ packets) = end_time micros packets

  -- What the green packets take in all.
  unfoldable pub green_total : MeterType → List (ℕ × ℕ) → List ℕ → ℕ
  unfolding green_amount
  green_total type [] colors = 0
  green_total type (packet ∷ packets) [] = 0
  green_total type ((micros, ingress_length) ∷ packets) (color ∷ colors) =
      green_amount f color (amount type ingress_length) + green_total type packets colors

  AllPay-append :
      (now mid micros a b : ℕ) (xs ys zs : List (MeterRate R))
      → AllPay f now mid a xs ys
      → AllPay f mid micros b ys zs
      → AllPay f now micros (a + b) xs zs
  AllPay-append now mid micros a b xs ys zs p q i r e =
      let (s, e', paid) = p i r e in
      let (t, e'', paid') = q i s e' in (t, e'', Pays-append f now mid micros a b r s t paid paid')

  module _ (later : (a b : ℕ) (rate : R) → a ≤ b → f.tokens a rate ≤ f.tokens b rate) where
    -- What a sequence of packets leaves.
    unfoldable pub Drove : ℕ → Meter R → List (ℕ × ℕ) → Option (List ℕ × Meter R) → Type 0
    Drove now m packets result =
        (colors : List ℕ) × (m' : Meter R) × (result ≡ some (colors, m'))
        × AllSound f (end_time now packets) m'.rates
        × AllPay f now (end_time now packets) (green_total m.type packets colors) m.rates m'.rates
        × (m'.configured ≡ m.configured)
        × (m'.type ≡ m.type)

    execute-run :
        (m : Meter R) (micros ingress_length color : ℕ) (rates : List (MeterRate R))
        → m.configured ≡ true
        → run_rates f m.rates micros (amount m.type ingress_length) ≡ some (color, rates)
        → execute f m micros ingress_length ≡ some (color, record m { rates = rates })
    unfolding execute
    execute-run m micros ingress_length color rates on run = simp (on, run, execute) refl

    pub drive-Drove :
        (packets : List (ℕ × ℕ)) (m : Meter R) (now : ℕ)
        → m.configured ≡ true
        → AllSound f now m.rates
        → in_order now packets ≡ true
        → Drove now m packets (drive m packets)
    unfolding drive Drove green_total Ran
    drive-Drove [] m now on sound order = (
      [],
      m,
      refl,
      sound,
      λ i r e. (r, e, Pays-wait f now now r (sound i r e).earned (omega arith)),
      refl,
      refl,
    )
    drive-Drove ((micros, ingress_length) ∷ packets) m now on sound order =
        let (color, rates, run, sound1, paid) =
          run_rates-Ran f later m.rates now micros (amount m.type ingress_length) (ground arith)
            sound in
        let (colors, m2, rest, sound2, paid2, on2, type2) =
          drive-Drove packets (record m { rates = rates }) micros on sound1 (ground arith) in
        (
          color ∷ colors,
          m2,
          rw (execute-run m micros ingress_length color rates on run, drive) (rw rest refl),
          sound2,
          AllPay-append now micros (end_time micros packets)
              (green_amount f color (amount m.type ingress_length))
              (green_total m.type packets colors) m.rates rates m2.rates paid paid2,
          on2,
          type2,
        )

    -- Over packets in the order of time, a configured meter whose rates are sound never fails its
    -- assertion, and for each of its rates the green packets take at most the burst size and the tokens
    -- that it earns from `now`, or any time up to the first packet, to the last one.
    pub drive-bounded :
        (packets : List (ℕ × ℕ)) (m : Meter R) (now start : ℕ)
        → m.configured ≡ true
        → AllSound f now m.rates
        → now ≤ start
        → in_order start packets ≡ true
        → (colors : List ℕ) × (m' : Meter R) × (drive m packets ≡ some (colors, m'))
          × ((i : ℕ) (r : MeterRate R)
              → get_elem? m.rates i ≡ some r
              → green_total m.type packets colors + f.tokens start r.info_rate
                ≤ r.burst_size + f.tokens (end_time start packets) r.info_rate)
    unfolding Drove available
    drive-bounded packets m now start on sound le order =
        let (colors, m', run, _, paid, _, _) =
          drive-Drove packets m start on (AllSound-later f later now start m.rates le sound)
            order in
        (colors, m', run, λ i r e. let (r', _, p) = paid i r e in omega (arith, p.paid))
