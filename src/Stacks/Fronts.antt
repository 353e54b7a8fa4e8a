-- ===== src/Stacks/Fronts.antt =====
-- Pushing to the front of a header stack, and popping from it.
use behavioral_model.Base.{
  ℕ, ◌+◌, ◌-◌, ◌%◌, ◌^◌, ◌≤◌, ◌<◌, min, true, false, none, some, length, get_elem?, ltb, ◌≡◌, ◌≢◌,
  refl, sym, ap, ◌∙◌, arith, ltb-true, ltb-false, ==_ne, inl, inr, Bool-cases,
}
use behavioral_model.Units.Add.{get_elem?-some}
use behavioral_model.Stacks.{Header, HeaderStack, pop_front_num, push_front_num}
use behavioral_model.Stacks.Shifts.{
  Lowered, shift_down-Lowered, Raised, shift_up-Raised, Marked, mark_from-Marked,
}

module _ {V : Type 0} where
  -- The first headers, as many as `next` says, are the valid ones.
  pub record Wf (s : HeaderStack V) : Type 0 where
    pub fits : s.next ≤ length s.headers
    pub valids : (m : ℕ) (h : Header V) → get_elem? s.headers m ≡ some h → h.valid ≡ ltb m s.next

  pop_front_num-run :
      (num : ℕ) (s : HeaderStack V) (d : Lowered num 0 (s.next - min s.next num) s.headers)
      (k : Marked false (s.next - min s.next num) (min s.next num) d.list)
      → num ≢ 0
      → pop_front_num num s
        ≡ some (min s.next num, record { headers = k.list; next = s.next - min s.next num })
  unfolding pop_front_num
  pop_front_num-run num s d k some_num =
      rw (==_ne num 0 some_num, pop_front_num) (rw d.run (rw k.run refl))

  same_valid : (x y : Header V) → some x ≡ some y → x.valid ≡ y.valid
  same_valid x y e = ap (λ o. elim o [ none ↦ x.valid | some z ↦ z.valid ]) e

  validity :
      {num : ℕ} {s : HeaderStack V} (d : Lowered num 0 (s.next - min s.next num) s.headers)
      (k : Marked false (s.next - min s.next num) (min s.next num) d.list)
      → Wf s
      → (m : ℕ) (h : Header V) → get_elem? k.list m ≡ some h
      → h.valid ≡ ltb m (s.next - min s.next num)
  validity {num} {s} d k w m h found = elim (Bool-cases (ltb m (s.next - min s.next num))) [
    | inl front ↦
        let lt : m < s.next - min s.next num = ground (arith, front) in
        let old : get_elem? s.headers (m + num) ≡ some h =
          sym (d.moved m (omega arith) (omega (arith, lt))) ∙ sym (k.below m lt) ∙ found in
        w.valids (m + num) h old ∙ ltb-true (m + num) s.next (omega (arith, lt)) ∙ sym front
    | inr back ↦
        let le : s.next - min s.next num ≤ m = ground (arith, back) in
        elim (Bool-cases (ltb m s.next)) [
          | inl freed ↦
              let lt : m < s.next = ground (arith, freed) in
              let (g, there) = get_elem?-some d.list m (omega (arith, lt, w.fits, d.same_length)) in
              same_valid h (record g { valid = false })
                (sym found ∙ k.inside m g le (omega (arith, lt)) there)
              ∙ sym back
          | inr beyond ↦
              let far : s.next ≤ m = ground (arith, beyond) in
              let old : get_elem? s.headers m ≡ some h =
                sym (d.above m (λ z. omega (arith, z, far)))
                ∙ sym (k.above m (omega (arith, far)))
                ∙ found in
              w.valids m h old ∙ beyond ∙ sym back
        ]
  ]

  -- pop_front(num) removes the first `num` headers, or all of them: the others move num places to the
  -- front and stay valid, and the places that they leave are invalid.
  pub pop_front_num-moves :
      (num : ℕ) (s : HeaderStack V)
      → Wf s
      → num ≢ 0
      → (s' : HeaderStack V) × (pop_front_num num s ≡ some (min s.next num, s'))
        × Wf s'
        × (s'.next ≡ s.next - num)
        × (length s'.headers ≡ length s.headers)
        × ((m : ℕ) → m < s'.next → get_elem? s'.headers m ≡ get_elem? s.headers (m + num))
  pop_front_num-moves num s w some_num =
      let next = s.next - min s.next num in
      let d =
        shift_down-Lowered num 0 next s.headers (omega (arith, some_num))
          (λ z. omega (arith, z, w.fits)) in
      let k =
        mark_from-Marked false next (min s.next num) d.list
          (omega (arith, w.fits, d.same_length)) in
      (
        record { headers = k.list; next = next },
        pop_front_num-run num s d k some_num,
        record {
          fits = omega (arith, w.fits, k.same_length, d.same_length);
          valids = λ m h found. validity d k w m h found;
        },
        omega arith,
        k.same_length ∙ d.same_length,
        λ m lt. k.below m lt ∙ d.moved m (omega arith) (omega (arith, lt)),
      )

  push_front_num-run :
      (num : ℕ) (s : HeaderStack V)
      (u : Raised num (min (length s.headers) (s.next + num) - num) s.headers)
      (k : Marked true 0 (min (length s.headers) num) u.list)
      → num ≢ 0
      → min (length s.headers) (s.next + num) ≢ 0
      → s.next + num < 2 ^ 64
      → push_front_num num s
        ≡ some (
          min (length s.headers) num,
          record { headers = k.list; next = min (length s.headers) (s.next + num) },
        )
  unfolding push_front_num
  push_front_num-run num s u k some_num some_next small =
      rw (==_ne num 0 some_num, push_front_num)
        (rw no_wrap (
          rw (==_ne (min (length s.headers) (s.next + num)) 0 some_next)
            (rw u.run (rw k.run refl))))
    where
      no_wrap : (s.next + num) % 2 ^ 64 ≡ s.next + num
      no_wrap = omega (arith, small)

  pushed-valid :
      {num : ℕ} {s : HeaderStack V}
      (u : Raised num (min (length s.headers) (s.next + num) - num) s.headers)
      (k : Marked true 0 (min (length s.headers) num) u.list)
      → Wf s
      → (m : ℕ) (h : Header V) → get_elem? k.list m ≡ some h
      → h.valid ≡ ltb m (min (length s.headers) (s.next + num))
  pushed-valid {num} {s} u k w m h found =
      let next = min (length s.headers) (s.next + num) in
      elim (Bool-cases (ltb m (min (length s.headers) num))) [
        | inl new ↦
            let lt : m < min (length s.headers) num = ground (arith, new) in
            let (g, there) = get_elem?-some u.list m (omega (arith, lt, u.same_length)) in
            same_valid h (record g { valid = true })
              (sym found ∙ k.inside m g (omega arith) (omega (arith, lt)) there)
            ∙ sym (ltb-true m next (omega (arith, lt)))
        | inr not_new ↦
            let le : min (length s.headers) num ≤ m = ground (arith, not_new) in
            elim (Bool-cases (ltb m next)) [
              | inl kept ↦
                  let lt : m < next = ground (arith, kept) in
                  let old : get_elem? s.headers (m - num) ≡ some h =
                    sym (u.moved (m - num) (omega (arith, lt, le)))
                    ∙ ap (get_elem? u.list) (omega (arith, lt, le))
                    ∙ sym (k.above m (omega (arith, le)))
                    ∙ found in
                  w.valids (m - num) h old
                  ∙ ltb-true (m - num) s.next (omega (arith, lt, le))
                  ∙ sym kept
              | inr beyond ↦
                  let far : next ≤ m = ground (arith, beyond) in
                  let old : get_elem? s.headers m ≡ some h =
                    sym (u.above m (λ z. omega (arith, z, far)))
                    ∙ sym (k.above m (omega (arith, le)))
                    ∙ found in
                  w.valids m h old ∙ ltb-false m s.next (omega (arith, far, w.fits)) ∙ sym beyond
            ]
      ]

  -- push_front(num) for num > 0 where next + num does not wrap, on a stack of at least one header, moves
  -- the headers num places to the back, as far as the stack has room, and makes exactly the headers in
  -- use valid.
  pub push_front_num-moves :
      (num : ℕ) (s : HeaderStack V)
      → Wf s
      → num ≢ 0
      → 0 < length s.headers
      → s.next + num < 2 ^ 64
      → (s' : HeaderStack V) × (push_front_num num s ≡ some (min (length s.headers) num, s'))
        × Wf s'
        × (s'.next ≡ min (length s.headers) (s.next + num))
        × (length s'.headers ≡ length s.headers)
        × ((m : ℕ) → m + num < s'.next → get_elem? s'.headers (m + num) ≡ get_elem? s.headers m)
  push_front_num-moves num s w some_num room small =
      let next = min (length s.headers) (s.next + num) in
      let u =
        shift_up-Raised num (next - num) s.headers (omega (arith, some_num))
          (λ z. omega (arith, z)) in
      let k =
        mark_from-Marked true 0 (min (length s.headers) num) u.list
          (omega (arith, u.same_length)) in
      (
        record { headers = k.list; next = next },
        push_front_num-run num s u k some_num (λ e. omega (arith, e, room, some_num)) small,
        record { fits = omega (arith, k.same_length, u.same_length); valids = pushed-valid u k w },
        refl,
        k.same_length ∙ u.same_length,
        λ m lt. k.above (m + num) (omega arith) ∙ u.moved m (omega (arith, lt)),
      )
