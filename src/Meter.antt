-- ===== src/Meter.antt =====
-- modules/bm_sim/include/bm_sim/meters.h and modules/bm_sim/src/meters.cpp: token-bucket meters.
pub mod Conformance
pub mod Color
pub mod Traffic
pub mod Config
mod Examples
use behavioral_model.Base.{
  ℕ, zero, suc, ◌+◌, ◌-◌, ◌%◌, ◌^◌, Bool, true, false, Option, none, some, List, [], ◌∷◌, ◌++◌,
  ◌==◌, ltb, leb, min, if◌then◌else◌, get_elem?, set, length, ◌>>=◌, replicate,
}

-- The floating-point numbers that rates are: `tokens` is the uint64_t of a product of microseconds
-- and a rate, and `greater` is the order.
pub record Rates (R : Type 0) : Type 0 where
  pub zero_rate : R
  pub tokens : ℕ → R → ℕ
  pub greater : R → R → Bool

pub data MeterType : Type 0 where
  bytes packets : MeterType

pub data MeterErrorCode : Type 0 where
  success invalid_index bad_rates_list invalid_info_rate_value invalid_burst_size_value error :
      MeterErrorCode

pub record RateConfig (R : Type 0) : Type 0 where
  pub info_rate : R
  pub burst_size : ℕ

pub record MeterRate (R : Type 0) : Type 0 where
  pub valid : Bool
  pub info_rate : R
  pub burst_size : ℕ
  pub tokens : ℕ
  pub tokens_last : ℕ
  pub color : ℕ

pub record Meter (R : Type 0) : Type 0 where
  pub type : MeterType
  pub rates : List (MeterRate R)
  pub configured : Bool

unfoldable pub reverse : {A : Type 0} → List A → List A
reverse [] = []
reverse (x ∷ xs) = reverse xs ++ (x ∷ [])

-- What a packet takes: 1, or its length.
unfoldable pub amount : MeterType → ℕ → ℕ
amount bytes ingress_length = ingress_length
amount packets ingress_length = 1

module _ {R : Type 0} (f : Rates R) where
  abbrev no_rate : MeterRate R
  no_rate = record {
    valid = false;
    info_rate = f.zero_rate;
    burst_size = 0;
    tokens = 0;
    tokens_last = 0;
    color = 0;
  }

  unfoldable pub create : MeterType → ℕ → Meter R
  create type rate_count = record {
    type = type;
    rates = replicate rate_count no_rate;
    configured = false;
  }

  -- The rate that a configuration gives the place `index`.
  unfoldable pub new_rate : ℕ → RateConfig R → MeterRate R
  new_rate index config = record {
    valid = true;
    info_rate = config.info_rate;
    burst_size = config.burst_size;
    tokens = config.burst_size;
    tokens_last = 0;
    color = index + 1;
  }

  -- set_rate: the rate is written before it is compared with the one in front of it. An index out of
  -- range, which set_rates never passes, is an error here.
  unfoldable pub set_rate :
      List (MeterRate R) → ℕ → RateConfig R → MeterErrorCode × List (MeterRate R)
  unfolding new_rate
  set_rate rates zero config = (success, set rates zero (new_rate zero config))
  set_rate rates (suc before) config =
      let written = set rates (suc before) (new_rate (suc before) config) in
      elim (get_elem? rates before) [
        | none ↦ (error, written)
        | some prev_rate ↦
            if f.greater prev_rate.info_rate config.info_rate
            then (invalid_info_rate_value, written)
            else (success, written)
      ]

  -- The loop of set_rates, from the index on.
  unfoldable pub set_each :
      List (RateConfig R) → List (MeterRate R) → ℕ → MeterErrorCode × List (MeterRate R)
  unfolding set_rate
  set_each [] rates index = (success, rates)
  set_each (config ∷ configs) rates index =
      let (rc, rates') = set_rate rates index config in
      let rest = set_each configs rates' (index + 1) in
      elim rc [ success ↦ rest | other ↦ (other, rates') ]

  unfoldable pub set_rates : Meter R → List (RateConfig R) → MeterErrorCode × Meter R
  unfolding set_each reverse
  set_rates m configs =
      if length configs == length m.rates
      then (let (rc, rates) = set_each configs m.rates 0 in
          elim rc [
            | success ↦ (success, record m { rates = reverse rates; configured = true })
            | other ↦ (other, record m { rates = rates })
          ])
      else (bad_rates_list, m)

  unfoldable pub invalidate : List (MeterRate R) → List (MeterRate R)
  invalidate [] = []
  invalidate (r ∷ rates) = record r { valid = false } ∷ invalidate rates

  unfoldable pub reset_rates : Meter R → MeterErrorCode × Meter R
  unfolding invalidate
  reset_rates m = (success, record m { rates = invalidate m.rates; configured = false })

  -- A rate with the tokens that it has earned up to now.
  unfoldable pub filled : MeterRate R → ℕ → MeterRate R
  filled r tokens_since_init = record r {
    tokens_last = tokens_since_init;
    tokens = min ((r.tokens + (tokens_since_init - r.tokens_last)) % 2 ^ 64) r.burst_size;
  }

  -- The loop of execute, which ends at the first rate without enough tokens; the result is the color
  -- of the packet. `none` is the failed assertion that the tokens earned do not fall.
  unfoldable pub run_rates : List (MeterRate R) → ℕ → ℕ → Option (ℕ × List (MeterRate R))
  unfolding filled
  run_rates [] micros input = some (0, [])
  run_rates (r ∷ rates) micros input =
      let rest = run_rates rates micros input in
      let since = f.tokens micros r.info_rate in
      if leb r.tokens_last since
      then (let r' = filled r since in
          if ltb r'.tokens input then some (r.color, r' ∷ rates) else elim rest [
            | none ↦ none
            | some (packet_color, rates') ↦
                some (packet_color, record r' { tokens = r'.tokens - input } ∷ rates')
          ])
      else none

  -- execute at the time `micros` since the start, on a packet of the given length.
  unfoldable pub execute : Meter R → ℕ → ℕ → Option (ℕ × Meter R)
  unfolding run_rates amount
  execute m micros ingress_length =
      if m.configured
      then elim (run_rates m.rates micros (amount m.type ingress_length)) [
        | none ↦ none
        | some (packet_color, rates) ↦ some (packet_color, record m { rates = rates })
      ]
      else some (0, m)
