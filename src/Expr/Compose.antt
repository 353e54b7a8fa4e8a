-- ===== src/Expr/Compose.antt =====
-- Parts of a sequence of operations put together: one after the other, and under an operation.
use behavioral_model.Base.{
  ℕ, zero, suc, ◌+◌, ◌≤◌, Bool, Option, none, some, List, [], ◌∷◌, ◌++◌, length, ◌>>=◌, ◌≡◌, refl,
  sym, ap, fun_ext, ◌∙◌, arith, length-append,
}
use behavioral_model.Expr.{Op, Registers, pop_register, assign_dest, counted, assign_dests}
use behavioral_model.Expr.Machine.{DataOps, Env, Ref, Temps, state, eval_ops}
use behavioral_model.Expr.Blocks.{
  sum, sum-append, registers, above, Meets, Frame-refl, Frame-trans, Holds-Frame, Holds-append,
  Meets-cast, Meets-bind, Results, Reached, Block,
}
use mathlib.Core.List.{append_assoc}

-- Registers.

abbrev pub drop : ℕ → List ℕ → List ℕ
drop zero ns = ns
drop (suc k) [] = []
drop (suc k) (n ∷ ns) = drop k ns

pub sum-drop : (k : ℕ) (ns : List ℕ) → sum (drop k ns) ≤ sum ns
sum-drop zero ns = omega arith
sum-drop (suc k) [] = omega arith
sum-drop (suc k) (n ∷ ns) = omega (arith, sum-drop k ns)

pub above-above :
    (a : Registers) (cnt cnt' : ℕ) (p q : List ℕ)
    → above (above a cnt q) cnt' p ≡ above a cnt' (p ++ q)
above-above a cnt cnt' p q = λ i. registers cnt' (currs i) (news i)
  where
    currs : a.registers_curr + sum q + sum p ≡ a.registers_curr + sum (p ++ q)
    currs = omega (arith, sum-append p q)

    news : p ++ (q ++ a.new_registers) ≡ (p ++ q) ++ a.new_registers
    news = sym (append_assoc p q a.new_registers)

unfoldable pub pops : ℕ → Registers → Option Registers
pops zero a = some a
pops (suc k) a = pop_register a >>= pops k

pub pops-above :
    (k : ℕ) (a : Registers) (cnt : ℕ) (q : List ℕ)
    → k ≤ length q
    → pops k (above a cnt q) ≡ some (above a cnt (drop k q))
unfolding pops pop_register
pops-above zero a cnt q le = refl
pops-above (suc k) a cnt [] le = absurd (omega (arith, le))
pops-above (suc k) a cnt (n ∷ q) le =
    ap (λ c. pops k (registers cnt c (q ++ a.new_registers))) (omega arith)
    ∙ pops-above k a cnt q (omega (arith, le))

pub assign_dests-nil : {a : Registers} → assign_dests [] a ≡ some ([], a)
unfolding assign_dests
assign_dests-nil = refl

pub assign_dest-then :
    (x : Op) (xs xs' : List Op) (a a2 : Registers) (p : Op × Registers)
    → assign_dest x a ≡ some p
    → assign_dests xs (counted p.1) ≡ some (xs', a2)
    → assign_dests (x ∷ xs) a ≡ some (p.0 ∷ xs', a2)
unfolding assign_dests
assign_dest-then x xs xs' a a2 p e f = rw (e, f) refl

bind-some : {A : Type 0} (o : Option A) → (o >>= (λ x. some x)) ≡ o
bind-some none = refl
bind-some (some x) = refl

bind_assoc :
    {A B C : Type 0} (o : Option A) (f : A → Option B) (g : B → Option C)
    → (o >>= f >>= g) ≡ (o >>= (λ x. f x >>= g))
bind_assoc none f g = refl
bind_assoc (some x) f g = refl

abbrev Assigned : Type 0
Assigned = List Op × Registers

abbrev cons_op : Op → Assigned → Option Assigned
cons_op x r = some (x ∷ r.0, r.1)

abbrev append_ops : (Registers → Option Assigned) → Assigned → Option Assigned
append_ops f p = f p.1 >>= (λ q. some (p.0 ++ q.0, q.1))

cons-append :
    (x : Op) (o : Option Assigned) (f : Registers → Option Assigned)
    → (o >>= append_ops f >>= cons_op x) ≡ (o >>= cons_op x >>= append_ops f)
cons-append x none f = refl
cons-append x (some p) f = bind_assoc (f p.1) (λ q. some (p.0 ++ q.0, q.1)) (cons_op x)

assign_dests-append_lem :
    (xs ys : List Op) (a : Registers)
    → assign_dests (xs ++ ys) a ≡ (assign_dests xs a >>= append_ops (assign_dests ys))
unfolding assign_dests
assign_dests-append_lem [] ys a = sym (bind-some (assign_dests ys a))
assign_dests-append_lem (x ∷ xs) ys a =
    ap (λ k. assign_dest x a >>= k)
      (fun_ext (λ p.
        ap (λ o. o >>= cons_op p.0) (assign_dests-append_lem xs ys (counted p.1))
        ∙ cons-append p.0 (assign_dests xs (counted p.1)) (assign_dests ys)))
    ∙ sym (
        bind_assoc (assign_dest x a) (λ p. assign_dests xs (counted p.1) >>= cons_op p.0)
          (append_ops (assign_dests ys)))

pub assign_dests-append :
    (xs ys : List Op) (a a1 a2 : Registers) (xs' ys' : List Op)
    → assign_dests xs a ≡ some (xs', a1)
    → assign_dests ys a1 ≡ some (ys', a2)
    → assign_dests (xs ++ ys) a ≡ some (xs' ++ ys', a2)
assign_dests-append xs ys a a1 a2 xs' ys' e f = assign_dests-append_lem xs ys a ∙ (rw (e, f) refl)

-- Two parts, one after the other.
abbrev pub both : {D X Y : Type 0} → (X → Results D) → (Y → Results D) → X × Y → Results D
both first second p = ((second p.1).0 ++ (first p.0).0, (second p.1).1 ++ (first p.0).1)

module _ {D : Type 0} (dops : DataOps D) (env : Env D) (const_values : List D) where
  Meets-both :
      {X Y : Type 0} (first : X → Results D) (second : Y → Results D) (v1 : Option X)
      (v2 : Option Y) (c c1 c2 c' : ℕ) (mid rest : List Op) (t : List D) (b : List Bool)
      (d : List (Ref D)) (h : List ℕ) (run : Option (Temps D))
      → c ≤ c1
      → c1 ≤ c2
      → c2 ≡ c'
      → Meets (λ x. Reached dops env const_values c c1 mid t b d h (first x)) v1 run
      → ((t' : List D) (b' : List Bool) (d' : List (Ref D))
          → length t' ≡ length t
          → Meets
              (λ y. Reached dops env const_values c1 c2 rest t' b' d' h (second y))
              v2
              (eval_ops dops env const_values mid 0 (state t' b' d' h)))
      → Meets
          (λ p. Reached dops env const_values c c' rest t b d h (both first second p))
          (v1 >>= (λ x. v2 >>= (λ y. some (x, y))))
          run
  Meets-both {X} {Y} first second v1 v2 c c1 c2 c' mid rest t b d h run le1 le2 e h1 h2 =
      let P1 = λ (x : X). Reached dops env const_values c c1 mid t b d h (first x) in
      let Q =
        λ (p : X × Y). Reached dops env const_values c c' rest t b d h (both first second p) in
      Meets-bind P1 Q v1 (λ x. v2 >>= (λ y. some (x, y))) run h1
        (λ x r1.
          let (t1, rs1, e1, f1, hs1) = r1 in
          let P2 = λ (y : Y).
            Reached dops env const_values c1 c2 rest t1 ((first x).1 ++ b) (rs1 ++ d) h
              (second y) in
          Meets-cast Q (v2 >>= (λ y. some (x, y))) run
            (eval_ops dops env const_values mid 0 (state t1 ((first x).1 ++ b) (rs1 ++ d) h)) e1
            (Meets-bind P2 Q v2 (λ y. some (x, y))
              (eval_ops dops env const_values mid 0 (state t1 ((first x).1 ++ b) (rs1 ++ d) h))
              (h2 t1 ((first x).1 ++ b) (rs1 ++ d) f1.same_length)
              (λ y r2.
                let (t2, rs2, e2, f2, hs2) = r2 in
                (
                  t2,
                  rs2 ++ rs1,
                  e2 ∙ (λ i. eval_ops dops env const_values rest 0 (
                      state t2 (sym (append_assoc (second y).1 (first x).1 b) i)
                        (sym (append_assoc rs2 rs1 d) i) h)),
                  Frame-trans c c1 t t1 t2 le1 f1 f2,
                  Holds-append t2 c' rs2 rs1 (second y).0 (first x).0
                      (Holds-Frame t2 t2 c2 c' rs2 (second y).0 (omega (arith, e))
                        (Frame-refl c2 t2) hs2)
                      (Holds-Frame t1 t2 c1 c' rs1 (first x).0 (omega (arith, le2, e)) f2 hs1),
                ))))

  pub Block-both :
      {X Y : Type 0} (first : X → Results D) (second : Y → Results D) (c1 c2 : List Op) (k1 k2 : ℕ)
      (v1 : Option X) (v2 : Option Y)
      → Block dops env const_values first c1 k1 v1
      → Block dops env const_values second c2 k2 v2
      → Block dops env const_values
          (both first second)
          (c1 ++ c2)
          (k1 + k2)
          (v1 >>= (λ x. v2 >>= (λ y. some (x, y))))
  Block-both {X} {Y} first second c1 c2 k1 k2 v1 v2 b1 b2 a le =
      let m1 = b1 a le in
      let m2 = b2 (above a m1.cnt m1.pushed) m1.counts in
      record {
        out = m1.out ++ m2.out;
        cnt = m2.cnt;
        pushed = m2.pushed ++ m1.pushed;
        assigned =
            assign_dests-append c1 c2 a (above a m1.cnt m1.pushed)
              (above a m2.cnt (m2.pushed ++ m1.pushed)) m1.out m2.out m1.assigned
              (m2.assigned
                ∙ ap (λ r. some (m2.out, r)) (above-above a m1.cnt m2.cnt m2.pushed m1.pushed));
        same_length = omega (
          arith,
          length-append m1.out m2.out,
          length-append c1 c2,
          m1.same_length,
          m2.same_length,
        );
        enough = omega (arith, length-append m2.pushed m1.pushed, m1.enough, m2.enough);
        grows = omega (arith, m1.grows, m2.grows);
        counts = omega (arith, m2.counts, sum-append m2.pushed m1.pushed);
        runs = λ rest t b d h lt.
            Meets-cast
              (λ (p : X × Y).
                Reached dops env const_values a.registers_curr
                  (a.registers_curr + sum (m2.pushed ++ m1.pushed)) rest t b d h
                  (both first second p))
              (v1 >>= (λ x. v2 >>= (λ y. some (x, y))))
              (eval_ops dops env const_values ((m1.out ++ m2.out) ++ rest) 0 (state t b d h))
              (eval_ops dops env const_values (m1.out ++ (m2.out ++ rest)) 0 (state t b d h))
              (ap (λ ops. eval_ops dops env const_values ops 0 (state t b d h))
                (append_assoc m1.out m2.out rest))
              (Meets-both first second v1 v2 a.registers_curr (a.registers_curr + sum m1.pushed)
                (a.registers_curr + sum m1.pushed + sum m2.pushed)
                (a.registers_curr + sum (m2.pushed ++ m1.pushed)) (m2.out ++ rest) rest t b d h
                (eval_ops dops env const_values (m1.out ++ (m2.out ++ rest)) 0 (state t b d h))
                (omega arith) (omega arith) (omega (arith, sum-append m2.pushed m1.pushed))
                (m1.runs (m2.out ++ rest) t b d h (omega (arith, lt, m2.grows)))
                (λ t' b' d' e. m2.runs rest t' b' d' h (omega (arith, lt, e))));
      }
