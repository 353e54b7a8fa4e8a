-- ===== src/Stacks/RoundTrip.antt =====
-- Popping what was pushed to the front of a header stack.
use behavioral_model.Base.{
  ℕ, suc, ◌+◌, ◌-◌, ◌≤◌, ◌<◌, true, false, none, some, List, [], ◌∷◌, length, get_elem?, set, ltb,
  ◌>>=◌, ◌≡◌, ◌≢◌, refl, sym, ap, ◌∙◌, arith, length-set, get_elem?-set_self, get_elem?-set_ne,
  ltb-true, ltb-false, ==_ne, Bool-cases, inl, inr,
}
use native.Mathlib.Decide.{ℕ_discrete}
use behavioral_model.Units.Add.{get_elem?-some}
use behavioral_model.Stacks.{Header, HeaderStack, pop_front, push_front}
use behavioral_model.Stacks.Shifts.{Lowered, shift_down-Lowered, Raised, shift_up-Raised, mark-run}
use behavioral_model.Stacks.Fronts.{Wf}

module _ {X : Type 0} where
  some_injective : (x y : X) → some x ≡ some y → x ≡ y
  some_injective x y e = ap (λ o. elim o [ none ↦ x | some z ↦ z ]) e

  -- Lists with the same elements at each index.
  list_ext : (xs ys : List X) → ((m : ℕ) → get_elem? xs m ≡ get_elem? ys m) → xs ≡ ys
  list_ext [] [] h = refl
  list_ext [] (y ∷ ys) h = absurd (cc (h 0))
  list_ext (x ∷ xs) [] h = absurd (cc (h 0))
  list_ext (x ∷ xs) (y ∷ ys) h = λ i. some_injective x y (h 0) i ∷ list_ext xs ys (λ m. h (suc m)) i

module _ {V : Type 0} where
  push_front-run :
      (s : HeaderStack V) (u : Raised 1 s.next s.headers) (h : Header V)
      → s.next < length s.headers
      → get_elem? u.list 0 ≡ some h
      → push_front s
        ≡ some (1, record { headers = set u.list 0 (record h { valid = true }); next = s.next + 1 })
  unfolding push_front
  push_front-run s u h room found =
      rw (ltb-true s.next (length s.headers) room, push_front)
        (rw (==_ne (s.next + 1) 0 (λ e. omega (arith, e)))
          (rw one_less (rw u.run (rw (mark-run true 0 u.list h found) refl))))
    where
      one_less : s.next + 1 - 1 ≡ s.next
      one_less = omega arith

  pop_front-run :
      (hs : List (Header V)) (n : ℕ) (d : Lowered 1 0 n hs) (h : Header V)
      → get_elem? d.list n ≡ some h
      → pop_front (record { headers = hs; next = n + 1 })
        ≡ some (1, record { headers = set d.list n (record h { valid = false }); next = n })
  unfolding pop_front
  pop_front-run hs n d h found =
      rw (==_ne (n + 1) 0 (λ e. omega (arith, e)), pop_front)
        (rw one_less (rw d.run (rw (mark-run false n d.list h found) refl)))
    where
      one_less : n + 1 - 1 ≡ n
      one_less = omega arith

  -- pop_front after push_front, on a stack that is not full, gives the stack back: the values and the
  -- validity of every header and their number.
  pub pop_front-push_front :
      (s : HeaderStack V)
      → Wf s
      → s.next < length s.headers
      → (push_front s >>= (λ p. pop_front p.1)) ≡ some (1, s)
  pop_front-push_front s w room =
      ap (λ o. o >>= (λ p. pop_front p.1)) (push_front-run s u g room front)
      ∙ pop_front-run hs1 n d (record g { valid = true }) back
      ∙ (λ i. some (1, record { headers = list_ext final s.headers same i; next = n }))
    where
      n : ℕ
      n = s.next

      u : Raised 1 n s.headers
      u = shift_up-Raised 1 n s.headers (omega arith) (λ z. omega (arith, room))

      g : Header V
      g = (get_elem?-some s.headers n room).0

      last : get_elem? s.headers n ≡ some g
      last = (get_elem?-some s.headers n room).1

      front : get_elem? u.list 0 ≡ some g
      front = u.carried refl ∙ last

      hs1 : List (Header V)
      hs1 = set u.list 0 (record g { valid = true })

      same1 : length hs1 ≡ length s.headers
      same1 = length-set u.list 0 (record g { valid = true }) ∙ u.same_length

      d : Lowered 1 0 n hs1
      d = shift_down-Lowered 1 0 n hs1 (omega arith) (λ z. omega (arith, room, same1))

      back : get_elem? d.list n ≡ some (record g { valid = true })
      back =
          ap (get_elem? d.list) (omega arith)
          ∙ d.carried refl
          ∙ get_elem?-set_self u.list 0 (record g { valid = true })
              (omega (arith, room, u.same_length))

      final : List (Header V)
      final = set d.list n (record g { valid = false })

      invalid : false ≡ g.valid
      invalid = sym (w.valids n g last ∙ ltb-false n n (omega arith))

      unset : (m : ℕ) → m ≢ 0 → get_elem? hs1 m ≡ get_elem? u.list m
      unset m ne = get_elem?-set_ne u.list 0 m (record g { valid = true }) (λ e. ne (sym e))

      elsewhere : (m : ℕ) → m ≢ n → get_elem? d.list m ≡ get_elem? s.headers m
      elsewhere m other = elim (Bool-cases (ltb m n)) [
        | inl below ↦
            let lt : m < n = ground (arith, below) in
            d.moved m (omega arith) (omega (arith, lt))
            ∙ unset (m + 1) (λ e. omega (arith, e))
            ∙ u.moved m lt
        | inr above ↦
            let le : n ≤ m = ground (arith, above) in
            d.above m (λ z. omega (arith, le, other))
            ∙ unset m (λ e. omega (arith, e, le, other))
            ∙ u.above m (λ z. omega (arith, le, other))
      ]

      same : (m : ℕ) → get_elem? final m ≡ get_elem? s.headers m
      same m = elim (ℕ_discrete m n) [
        | yes here ↦
            ap (get_elem? final) here
            ∙ get_elem?-set_self d.list n (record g { valid = false })
                (omega (arith, room, same1, d.same_length))
            ∙ (λ i. some (record g { valid = invalid i }))
            ∙ sym last
            ∙ ap (get_elem? s.headers) (sym here)
        | no other ↦
            get_elem?-set_ne d.list n m (record g { valid = false }) (λ e. other (sym e))
            ∙ elsewhere m other
      ]
