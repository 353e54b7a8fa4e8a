-- ===== src/Meter/Color.antt =====
-- The color of one packet.
use behavioral_model.Base.{ℕ, ◌≤◌, ◌≡◌, ◌↔◌, Option, some, List, get_elem?}
use behavioral_model.Meter.{Rates, MeterRate, Meter, filled}

module _ {R : Type 0} (f : Rates R) where
  -- Each rate has tokens enough for the packet.
  abbrev pub AllEnough : List (MeterRate R) → ℕ → ℕ → Type 0
  AllEnough rates micros input =
      (i : ℕ) (r : MeterRate R)
      → get_elem? rates i ≡ some r
      → input ≤ (filled f r (f.tokens micros r.info_rate)).tokens

  Colored : List (MeterRate R) → ℕ → ℕ → Option (ℕ × List (MeterRate R)) → Type 0
  Colored rates micros input result =
      (color : ℕ) × (rates' : List (MeterRate R)) × (result ≡ some (color, rates'))
      × ((color ≡ 0) ↔ AllEnough rates micros input)
