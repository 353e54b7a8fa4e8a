-- ===== src/Meter/Examples.antt =====
-- A two-rate meter on concrete packets, with whole numbers as rates.
use behavioral_model.Base.{
  ℕ, ◌+◌, ◌*◌, ◌≤◌, ◌≡◌, refl, true, some, List, [], ◌∷◌, ltb, get_elem?, arith,
}
use behavioral_model.Meter.{
  Rates, bytes, RateConfig, success, MeterRate, Meter, create, new_rate, set_rate, set_each,
  reverse, set_rates, run_rates, filled, amount, execute,
}
use behavioral_model.Meter.Traffic.{drive, green_total}
use behavioral_model.Meter.Config.{set_rates-bounded}

abbrev whole : Rates ℕ
whole = record { zero_rate = 0; tokens = λ micros rate. micros * rate; greater = λ a b. ltb b a }

grows : (a b rate : ℕ) → a ≤ b → a * rate ≤ b * rate
grows a b rate le = grind arith

abbrev configs : List (RateConfig ℕ)
configs = record { info_rate = 1; burst_size = 10 } ∷ record { info_rate = 2; burst_size = 20 } ∷ []

abbrev peak : MeterRate ℕ
peak = record {
  valid = true;
  info_rate = 2;
  burst_size = 20;
  tokens = 20;
  tokens_last = 0;
  color = 2;
}

abbrev committed : MeterRate ℕ
committed = record {
  valid = true;
  info_rate = 1;
  burst_size = 10;
  tokens = 10;
  tokens_last = 0;
  color = 1;
}

abbrev configured : Meter ℕ
configured = record { type = bytes; rates = peak ∷ committed ∷ []; configured = true }

configures : set_rates whole (create whole bytes 2) configs ≡ (success, configured)
unfolding set_rates set_each set_rate new_rate reverse create
configures = refl

abbrev traffic : List (ℕ × ℕ)
traffic = (1, 8) ∷ (2, 8) ∷ (3, 9) ∷ []

-- Green, yellow, red.
drives :
    drive whole configured traffic
    ≡ some (
      0 ∷ 1 ∷ 2 ∷ [],
      record {
        type = bytes;
        rates =
            record {
              valid = true;
              info_rate = 2;
              burst_size = 20;
              tokens = 8;
              tokens_last = 6;
              color = 2;
            }
            ∷ record {
              valid = true;
              info_rate = 1;
              burst_size = 10;
              tokens = 3;
              tokens_last = 2;
              color = 1;
            }
            ∷ [];
        configured = true;
      },
    )
unfolding drive execute run_rates filled amount
drives = refl

-- Two packets after a pause that earns more than the bursts.
set_rates-bounded_example :
    (colors1 : List ℕ) × (m1 : Meter ℕ) × (colors : List ℕ) × (m2 : Meter ℕ) × (drive whole
        configured traffic
      ≡ some (colors1, m1))
    × (drive whole m1 ((100, 8) ∷ (101, 8) ∷ []) ≡ some (colors, m2))
    × ((i : ℕ) (r : MeterRate ℕ)
        → get_elem? configured.rates i ≡ some r
        → green_total whole bytes ((100, 8) ∷ (101, 8) ∷ []) colors + 100 * r.info_rate
          ≤ r.burst_size + 101 * r.info_rate)
set_rates-bounded_example =
    set_rates-bounded whole grows (create whole bytes 2) configured configs traffic
      ((100, 8) ∷ (101, 8) ∷ []) 100 configures refl (omega arith) refl
