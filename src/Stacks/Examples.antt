-- ===== src/Stacks/Examples.antt =====
-- A stack of three headers, two of them in use.
use behavioral_model.Base.{
  ℕ, zero, suc, ◌+◌, ◌<◌, true, false, none, some, [], ◌∷◌, length, get_elem?, ltb, ◌>>=◌, ◌≡◌,
  refl, sym, ap, arith,
}
use behavioral_model.Stacks.{
  get_depth, get_count, set_next_header, Header, HeaderStack, pop_front, pop_front_num, push_front,
  push_front_num, pop_back, push_back, get_last, get_next, reset,
}
use behavioral_model.Stacks.Fronts.{Wf, pop_front_num-moves, push_front_num-moves}
use behavioral_model.Stacks.RoundTrip.{pop_front-push_front}

abbrev in_use : ℕ → Header ℕ
in_use v = record { valid = true; fields = v }

abbrev free : ℕ → Header ℕ
free v = record { valid = false; fields = v }

abbrev stack : HeaderStack ℕ
stack = record { headers = in_use 10 ∷ in_use 20 ∷ free 30 ∷ []; next = 2 }

stack-valids : (m : ℕ) (h : Header ℕ) → get_elem? stack.headers m ≡ some h → h.valid ≡ ltb m 2
stack-valids zero h e = ap (λ o. elim o [ none ↦ true | some z ↦ z.valid ]) (sym e)
stack-valids (suc zero) h e = ap (λ o. elim o [ none ↦ true | some z ↦ z.valid ]) (sym e)
stack-valids (suc (suc zero)) h e = ap (λ o. elim o [ none ↦ false | some z ↦ z.valid ]) (sym e)
stack-valids (suc (suc (suc m))) h e = absurd (cc e)

stack-Wf : Wf stack
stack-Wf = record { fits = omega arith; valids = stack-valids }

pushed_front :
    push_front stack
    ≡ some (1, record { headers = in_use 30 ∷ in_use 10 ∷ in_use 20 ∷ []; next = 3 })
unfolding push_front
pushed_front = refl

-- The header 20 falls off the end.
pushed_two :
    push_front_num 2 stack
    ≡ some (2, record { headers = in_use 30 ∷ in_use 20 ∷ in_use 10 ∷ []; next = 3 })
unfolding push_front_num
pushed_two = refl

popped_front :
    pop_front stack ≡ some (1, record { headers = in_use 20 ∷ free 10 ∷ free 30 ∷ []; next = 1 })
unfolding pop_front
popped_front = refl

popped_all :
    pop_front_num 5 stack
    ≡ some (2, record { headers = free 10 ∷ free 20 ∷ free 30 ∷ []; next = 0 })
unfolding pop_front_num
popped_all = refl

pushed_back :
    push_back stack
    ≡ some (1, record { headers = in_use 10 ∷ in_use 20 ∷ in_use 30 ∷ []; next = 3 })
unfolding push_back
pushed_back = refl

popped_back :
    pop_back stack ≡ some (1, record { headers = in_use 10 ∷ free 20 ∷ free 30 ∷ []; next = 1 })
unfolding pop_back
popped_back = refl

last_two : (get_last stack ≡ some (in_use 20)) × (get_next (reset stack) ≡ some (in_use 10))
unfolding get_last get_next reset
last_two = (refl, refl)

grown :
    (get_depth (set_next_header stack (free 40)) ≡ 4)
    × (get_count (set_next_header stack (free 40)) ≡ 2)
    × (push_back (set_next_header stack (free 40))
        ≡ some (1, record { headers = in_use 10 ∷ in_use 20 ∷ in_use 30 ∷ free 40 ∷ []; next = 3 }))
unfolding get_depth get_count set_next_header push_back
grown = (refl, refl, refl)

pop_front-push_front_example : (push_front stack >>= (λ p. pop_front p.1)) ≡ some (1, stack)
pop_front-push_front_example = pop_front-push_front stack stack-Wf (omega arith)

pop_front_num-moves_example :
    (s' : HeaderStack ℕ) × (pop_front_num 1 stack ≡ some (1, s'))
    × Wf s'
    × (s'.next ≡ 1)
    × (length s'.headers ≡ 3)
    × ((m : ℕ) → m < s'.next → get_elem? s'.headers m ≡ get_elem? stack.headers (m + 1))
pop_front_num-moves_example = pop_front_num-moves 1 stack stack-Wf (λ e. omega (arith, e))

push_front_num-moves_example :
    (s' : HeaderStack ℕ) × (push_front_num 2 stack ≡ some (2, s'))
    × Wf s'
    × (s'.next ≡ 3)
    × (length s'.headers ≡ 3)
    × ((m : ℕ) → m + 2 < s'.next → get_elem? s'.headers (m + 2) ≡ get_elem? stack.headers m)
push_front_num-moves_example =
    push_front_num-moves 2 stack stack-Wf (λ e. omega (arith, e)) (omega arith) (omega arith)
