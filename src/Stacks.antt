-- ===== src/Stacks.antt =====
-- modules/bm_sim/include/bm_sim/header_stacks.h: class HeaderStack, a stack of the headers of a packet.
-- The headers that it refers to are distinct, so they are a list; `none` is a failed assertion or an
-- index out of range.
pub mod Shifts
pub mod Fronts
pub mod RoundTrip
mod Examples
use behavioral_model.Base.{
  ℕ, zero, suc, ◌+◌, ◌-◌, ◌%◌, ◌^◌, min, Bool, true, false, Option, none, some, List, length,
  get_elem?, set, ◌==◌, ltb, if◌then◌else◌, ◌>>=◌, [], ◌∷◌, ◌++◌,
}

-- A header, as far as a stack handles it: its validity and the values of its fields.
pub record Header (V : Type 0) : Type 0 where
  pub valid : Bool
  pub fields : V

pub record HeaderStack (V : Type 0) : Type 0 where
  pub headers : List (Header V)
  pub next : ℕ

module _ {V : Type 0} where
  -- swap_values of the headers at two indices.
  unfoldable pub swap_values : ℕ → ℕ → List (Header V) → Option (List (Header V))
  swap_values i k hs = do x ← get_elem? hs i; y ← get_elem? hs k; some (set (set hs i y) k x)

  -- mark_valid and mark_invalid.
  unfoldable pub mark : Bool → ℕ → List (Header V) → Option (List (Header V))
  mark valid i hs = do h ← get_elem? hs i; some (set hs i (record h { valid = valid }))

  -- The loops that mark `n` headers from `i` on.
  unfoldable pub mark_from : Bool → ℕ → ℕ → List (Header V) → Option (List (Header V))
  unfolding mark
  mark_from valid i zero hs = some hs
  mark_from valid i (suc n) hs = mark valid i hs >>= mark_from valid (suc i) n

  -- The loop of pop_front: `n` swaps from `i` on.
  unfoldable pub shift_down : ℕ → ℕ → ℕ → List (Header V) → Option (List (Header V))
  unfolding swap_values
  shift_down num i zero hs = some hs
  shift_down num i (suc n) hs = swap_values i (i + num) hs >>= shift_down num (suc i) n

  -- The loop of push_front: the last of its `n` swaps is the one of `num` and 0.
  unfoldable pub shift_up : ℕ → ℕ → List (Header V) → Option (List (Header V))
  unfolding swap_values
  shift_up num zero hs = some hs
  shift_up num (suc n) hs = swap_values (n + num) n hs >>= shift_up num n

  unfoldable pub pop_front : HeaderStack V → Option (ℕ × HeaderStack V)
  unfolding shift_down mark
  pop_front s = if s.next == 0 then some (0, s) else (do
    hs ← shift_down 1 0 (s.next - 1) s.headers
    hs' ← mark false (s.next - 1) hs
    some (1, record { headers = hs'; next = s.next - 1 }))

  unfoldable pub pop_front_num : ℕ → HeaderStack V → Option (ℕ × HeaderStack V)
  unfolding shift_down mark_from
  pop_front_num num s =
      if num == 0
      then some (0, s)
      else (let popped = min s.next num in
          let next = s.next - popped in
          shift_down num 0 next s.headers >>= (λ hs.
            mark_from false next popped hs
            >>= (λ hs'. some (popped, record { headers = hs'; next = next }))))

  -- `none` where next - 1 would wrap, which only a stack without headers reaches.
  unfoldable pub push_front : HeaderStack V → Option (ℕ × HeaderStack V)
  unfolding shift_up mark
  push_front s =
      let next = if ltb s.next (length s.headers) then s.next + 1 else s.next in
      if next == 0
      then none
      else shift_up 1 (next - 1) s.headers
        >>= (λ hs. mark true 0 hs >>= (λ hs'. some (1, record { headers = hs'; next = next })))

  -- The sum of two size_t wraps.
  unfoldable pub push_front_num : ℕ → HeaderStack V → Option (ℕ × HeaderStack V)
  unfolding shift_up mark_from
  push_front_num num s =
      if num == 0
      then some (0, s)
      else (let next = min (length s.headers) ((s.next + num) % 2 ^ 64) in
          let pushed = min (length s.headers) num in
          if next == 0
          then none
          else shift_up num (next - num) s.headers >>= (λ hs.
            mark_from true 0 pushed hs
            >>= (λ hs'. some (pushed, record { headers = hs'; next = next }))))

  unfoldable pub pop_back : HeaderStack V → Option (ℕ × HeaderStack V)
  unfolding mark
  pop_back s =
      if s.next == 0
      then some (0, s)
      else mark false (s.next - 1) s.headers
        >>= (λ hs. some (1, record { headers = hs; next = s.next - 1 }))

  unfoldable pub push_back : HeaderStack V → Option (ℕ × HeaderStack V)
  unfolding mark
  push_back s =
      if s.next == length s.headers
      then some (0, s)
      else mark true s.next s.headers
        >>= (λ hs. some (1, record { headers = hs; next = s.next + 1 }))

  unfoldable pub get_last : HeaderStack V → Option (Header V)
  get_last s = if s.next == 0 then none else get_elem? s.headers (s.next - 1)

  unfoldable pub get_next : HeaderStack V → Option (Header V)
  get_next s = if ltb s.next (length s.headers) then get_elem? s.headers s.next else none

  unfoldable pub reset : HeaderStack V → HeaderStack V
  reset s = record s { next = 0 }

  unfoldable pub get_depth : HeaderStack V → ℕ
  get_depth s = length s.headers

  unfoldable pub get_count : HeaderStack V → ℕ
  get_count s = s.next

  unfoldable pub set_next_header : HeaderStack V → Header V → HeaderStack V
  set_next_header s h = record s { headers = s.headers ++ (h ∷ []) }
