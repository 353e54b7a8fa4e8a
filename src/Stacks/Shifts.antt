-- ===== src/Stacks/Shifts.antt =====
-- The loops of a header stack, by the headers that they leave at each index.
use behavioral_model.Base.{
  ℕ, zero, suc, ◌+◌, ◌≤◌, ◌<◌, Bool, Option, none, some, List, length, get_elem?, set, ◌>>=◌, ◌≡◌,
  ◌≢◌, refl, sym, ap, ◌∙◌, arith, length-set, get_elem?-set_self, get_elem?-set_ne,
}
use native.Mathlib.Decide.{ℕ_discrete}
use behavioral_model.Units.Add.{get_elem?-some}
use behavioral_model.Stacks.{Header, swap_values, mark, mark_from, shift_down, shift_up}

module _ {V : Type 0} where
  pub record Swapped (i k : ℕ) (hs : List (Header V)) : Type 0 where
    pub list : List (Header V)
    pub run : swap_values i k hs ≡ some list
    pub at_first : get_elem? list i ≡ get_elem? hs k
    pub at_second : get_elem? list k ≡ get_elem? hs i
    pub others : (m : ℕ) → m ≢ i → m ≢ k → get_elem? list m ≡ get_elem? hs m
    pub same_length : length list ≡ length hs

  pub swap_values-Swapped :
      (i k : ℕ) (hs : List (Header V)) → i ≢ k → i < length hs → k < length hs → Swapped i k hs
  unfolding swap_values
  swap_values-Swapped i k hs ne li lk =
      let (x, at_i) = get_elem?-some hs i li in
      let (y, at_k) = get_elem?-some hs k lk in
      record {
        list = set (set hs i y) k x;
        run = rw (at_i, swap_values) (rw at_k refl);
        at_first =
            get_elem?-set_ne (set hs i y) k i x (λ e. ne (sym e))
            ∙ get_elem?-set_self hs i y li
            ∙ sym at_k;
        at_second =
            get_elem?-set_self (set hs i y) k x (omega (arith, lk, length-set hs i y)) ∙ sym at_i;
        others = λ m mi mk.
            get_elem?-set_ne (set hs i y) k m x (λ e. mk (sym e))
            ∙ get_elem?-set_ne hs i m y (λ e. mi (sym e));
        same_length = length-set (set hs i y) k x ∙ length-set hs i y;
      }

  -- `n` swaps of i and i + num, upwards: each header below i + n comes from num places above it; for
  -- num = 1 the first header is carried to the end.
  pub record Lowered (num i n : ℕ) (hs : List (Header V)) : Type 0 where
    pub list : List (Header V)
    pub run : shift_down num i n hs ≡ some list
    pub below : (m : ℕ) → m < i → get_elem? list m ≡ get_elem? hs m
    pub moved : (m : ℕ) → i ≤ m → m < i + n → get_elem? list m ≡ get_elem? hs (m + num)
    pub above : (m : ℕ) → (0 < n → i + n + num ≤ m) → get_elem? list m ≡ get_elem? hs m
    pub carried : num ≡ 1 → get_elem? list (i + n) ≡ get_elem? hs i
    pub same_length : length list ≡ length hs

  pub shift_down-Lowered :
      (num i n : ℕ) (hs : List (Header V))
      → 0 < num
      → (0 < n → i + n + num ≤ length hs)
      → Lowered num i n hs
  unfolding shift_down
  shift_down-Lowered num i zero hs pos fits = record {
    list = hs;
    run = refl;
    below = λ m lt. refl;
    moved = λ m le lt. absurd (omega (arith, le, lt));
    above = λ m le. refl;
    carried = λ e. ap (get_elem? hs) (omega arith);
    same_length = refl;
  }
  shift_down-Lowered num i (suc n) hs pos fits =
      let room : i + suc n + num ≤ length hs = fits (omega arith) in
      let s =
        swap_values-Swapped i (i + num) hs (λ e. omega (arith, e, pos)) (omega (arith, room))
          (omega (arith, room)) in
      let d =
        shift_down-Lowered num (suc i) n s.list pos (λ z. omega (arith, room, s.same_length)) in
      record {
        list = d.list;
        run = ap (λ o. o >>= shift_down num (suc i) n) s.run ∙ d.run;
        below = λ m lt.
            d.below m (omega (arith, lt))
            ∙ s.others m (λ e. omega (arith, e, lt)) (λ e. omega (arith, e, lt));
        moved = λ m le lt. elim (ℕ_discrete m i) [
          | yes same ↦
              d.below m (omega (arith, same))
              ∙ ap (get_elem? s.list) same
              ∙ s.at_first
              ∙ ap (get_elem? hs) (omega (arith, same))
          | no other ↦
              d.moved m (omega (arith, le, other)) (omega (arith, lt))
              ∙ s.others (m + num) (λ e. omega (arith, e, le, pos)) (λ e. omega (arith, e, other))
        ];
        above = λ m le.
            let far : i + suc n + num ≤ m = le (omega arith) in
            d.above m (λ z. omega (arith, far))
            ∙ s.others m (λ e. omega (arith, e, far)) (λ e. omega (arith, e, far));
        carried = λ one.
            ap (get_elem? d.list) (omega arith)
            ∙ d.carried one
            ∙ ap (get_elem? s.list) (omega (arith, one))
            ∙ s.at_second;
        same_length = d.same_length ∙ s.same_length;
      }

  -- `n` swaps of i + num and i, downwards: each header comes from num places below it; for num = 1 the
  -- last header is carried to the front.
  pub record Raised (num n : ℕ) (hs : List (Header V)) : Type 0 where
    pub list : List (Header V)
    pub run : shift_up num n hs ≡ some list
    pub moved : (k : ℕ) → k < n → get_elem? list (k + num) ≡ get_elem? hs k
    pub above : (m : ℕ) → (0 < n → n + num ≤ m) → get_elem? list m ≡ get_elem? hs m
    pub carried : num ≡ 1 → get_elem? list 0 ≡ get_elem? hs n
    pub same_length : length list ≡ length hs

  pub shift_up-Raised :
      (num n : ℕ) (hs : List (Header V)) → 0 < num → (0 < n → n + num ≤ length hs) → Raised num n hs
  unfolding shift_up
  shift_up-Raised num zero hs pos fits = record {
    list = hs;
    run = refl;
    moved = λ k lt. absurd (omega (arith, lt));
    above = λ m le. refl;
    carried = λ e. refl;
    same_length = refl;
  }
  shift_up-Raised num (suc n) hs pos fits =
      let room : suc n + num ≤ length hs = fits (omega arith) in
      let s =
        swap_values-Swapped (n + num) n hs (λ e. omega (arith, e, pos)) (omega (arith, room))
          (omega (arith, room)) in
      let u = shift_up-Raised num n s.list pos (λ z. omega (arith, room, s.same_length)) in
      record {
        list = u.list;
        run = ap (λ o. o >>= shift_up num n) s.run ∙ u.run;
        moved = λ k lt. elim (ℕ_discrete k n) [
          | yes same ↦
              u.above (k + num) (λ z. omega (arith, same))
              ∙ ap (get_elem? s.list) (omega (arith, same))
              ∙ s.at_first
              ∙ ap (get_elem? hs) (sym same)
          | no other ↦
              u.moved k (omega (arith, lt, other))
              ∙ s.others k (λ e. omega (arith, e, lt, pos)) other
        ];
        above = λ m le.
            let far : suc n + num ≤ m = le (omega arith) in
            u.above m (λ z. omega (arith, far))
            ∙ s.others m (λ e. omega (arith, e, far)) (λ e. omega (arith, e, far));
        carried = λ one. u.carried one ∙ s.at_second ∙ ap (get_elem? hs) (omega (arith, one));
        same_length = u.same_length ∙ s.same_length;
      }

  abbrev remark : Bool → Option (Header V) → Option (Header V)
  remark valid none = none
  remark valid (some h) = some (record h { valid = valid })

  pub record Marked (valid : Bool) (i n : ℕ) (hs : List (Header V)) : Type 0 where
    pub list : List (Header V)
    pub run : mark_from valid i n hs ≡ some list
    pub inside :
        (m : ℕ) (h : Header V)
        → i ≤ m
        → m < i + n
        → get_elem? hs m ≡ some h
        → get_elem? list m ≡ some (record h { valid = valid })
    pub below : (m : ℕ) → m < i → get_elem? list m ≡ get_elem? hs m
    pub above : (m : ℕ) → i + n ≤ m → get_elem? list m ≡ get_elem? hs m
    pub same_length : length list ≡ length hs

  pub mark-run :
      (valid : Bool) (i : ℕ) (hs : List (Header V)) (h : Header V)
      → get_elem? hs i ≡ some h
      → mark valid i hs ≡ some (set hs i (record h { valid = valid }))
  unfolding mark
  mark-run valid i hs h found = rw (found, mark) refl

  pub mark_from-Marked :
      (valid : Bool) (i n : ℕ) (hs : List (Header V)) → i + n ≤ length hs → Marked valid i n hs
  unfolding mark_from
  mark_from-Marked valid i zero hs fits = record {
    list = hs;
    run = refl;
    inside = λ m h le lt found. absurd (omega (arith, le, lt));
    below = λ m lt. refl;
    above = λ m le. refl;
    same_length = refl;
  }
  mark_from-Marked valid i (suc n) hs fits =
      let (h, found) = get_elem?-some hs i (omega (arith, fits)) in
      let hs1 = set hs i (record h { valid = valid }) in
      let r =
        mark_from-Marked valid (suc i) n hs1
          (omega (arith, fits, length-set hs i (record h { valid = valid }))) in
      let self = get_elem?-set_self hs i (record h { valid = valid }) (omega (arith, fits)) in
      record {
        list = r.list;
        run = ap (λ o. o >>= mark_from valid (suc i) n) (mark-run valid i hs h found) ∙ r.run;
        inside = λ m x le lt there. elim (ℕ_discrete i m) [
          | yes same ↦
              let is : some h ≡ some x = sym found ∙ ap (get_elem? hs) same ∙ there in
              r.below m (omega (arith, same))
              ∙ ap (get_elem? hs1) (sym same)
              ∙ self
              ∙ ap (remark valid) is
          | no other ↦
              r.inside m x (omega (arith, le, other)) (omega (arith, lt))
                (get_elem?-set_ne hs i m (record h { valid = valid }) other ∙ there)
        ];
        below = λ m lt.
            r.below m (omega (arith, lt))
            ∙ get_elem?-set_ne hs i m (record h { valid = valid }) (λ e. omega (arith, e, lt));
        above = λ m le.
            r.above m (omega (arith, le))
            ∙ get_elem?-set_ne hs i m (record h { valid = valid }) (λ e. omega (arith, e, le));
        same_length = r.same_length ∙ length-set hs i (record h { valid = valid });
      }
