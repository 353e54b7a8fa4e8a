-- ===== src/Expr/Choice.antt =====
-- The operations of push_back_ternary_op: both sides are given registers, one of them is run.
use behavioral_model.Base.{
  ℕ, ◌+◌, ◌≤◌, max, Bool, true, false, Option, none, some, List, [], ◌∷◌, ◌++◌, length,
  if◌then◌else◌, ◌>>=◌, ◌≡◌, refl, sym, ap, ◌∙◌, arith, length-append,
}
use behavioral_model.Expr.{Op, ternary_op, skip, Registers, assign_dest, counted, assign_dests}
use behavioral_model.Expr.Machine.{DataOps, Env, Ref, Temps, state, eval_ops}
use behavioral_model.Expr.Blocks.{
  sum, sum-append, registers, above, Holds, Frame, Meets, Frame-refl, Frame-trans, Holds-Frame,
  Meets-cast, Meets-bind, eval_ops-skip, Results, Reached, Block,
}
use behavioral_model.Expr.Compose.{above-above, assign_dest-then, assign_dests-append}
use mathlib.Core.List.{append_assoc}

abbrev pub truth : {D : Type 0} → Bool → Results D
truth b = ([], b ∷ [])

abbrev pub ternary : List Op → List Op → List Op
ternary l r = ternary_op ∷ (skip (length l + 1) ∷ (l ++ (skip (length r) ∷ r)))

-- An operation that leaves the registers as they are.
pub assign_dest-still :
    (x : Op) (xs xs' : List Op) (a a2 : Registers)
    → assign_dest x a ≡ some (x, a)
    → a.registers_curr ≤ a.registers_cnt
    → assign_dests xs a ≡ some (xs', a2)
    → assign_dests (x ∷ xs) a ≡ some (x ∷ xs', a2)
unfolding counted
assign_dest-still x xs xs' a a2 e le f =
    assign_dest-then x xs xs' a a2 (x, a) e
      (ap (assign_dests xs) (λ i. registers (same i) a.registers_curr a.new_registers) ∙ f)
  where
    same : max a.registers_cnt a.registers_curr ≡ a.registers_cnt
    same = omega (arith, le)

ternary-assigned :
    (l r l' r' : List Op) (a a1 a2 : Registers)
    → a.registers_curr ≤ a.registers_cnt
    → a1.registers_curr ≤ a1.registers_cnt
    → assign_dests l a ≡ some (l', a1)
    → assign_dests r a1 ≡ some (r', a2)
    → length l' ≡ length l
    → length r' ≡ length r
    → assign_dests (ternary l r) a ≡ some (ternary l' r', a2)
unfolding assign_dest
ternary-assigned l r l' r' a a1 a2 le le1 e f el er =
    assign_dest-still ternary_op (skip (length l + 1) ∷ (l ++ (skip (length r) ∷ r)))
      (skip (length l + 1) ∷ (l' ++ (skip (length r) ∷ r'))) a a2 refl le
      (assign_dest-still (skip (length l + 1)) (l ++ (skip (length r) ∷ r))
        (l' ++ (skip (length r) ∷ r')) a a2 refl le
        (assign_dests-append l (skip (length r) ∷ r) a a1 a2 l' (skip (length r) ∷ r') e
          (assign_dest-still (skip (length r)) r r' a1 a2 refl le1 f)))
    ∙ (λ i. some (ternary_op ∷ (skip (sym el i + 1) ∷ (l' ++ (skip (sym er i) ∷ r'))), a2))

module _ {D : Type 0} (dops : DataOps D) (env : Env D) (const_values : List D) where
  Reached-widen :
      {X : Type 0} (results : X → Results D) (v : Option X) (c c1 c2 c' : ℕ) (rest rest' : List Op)
      (t t1 : List D) (b : List Bool) (d : List (Ref D)) (h : List ℕ) (run : Option (Temps D))
      → c ≤ c1
      → c2 ≤ c'
      → Frame c t t1
      → ((s : Temps D)
          → eval_ops dops env const_values rest' 0 s ≡ eval_ops dops env const_values rest 0 s)
      → Meets (λ x. Reached dops env const_values c1 c2 rest' t1 b d h (results x)) v run
      → Meets (λ x. Reached dops env const_values c c' rest t b d h (results x)) v run
  Reached-widen results none c c1 c2 c' rest rest' t t1 b d h run le1 le2 f same m = m
  Reached-widen results (some x) c c1 c2 c' rest rest' t t1 b d h run le1 le2 f same m =
      let (t', rs, e, f', hs) = m in
      (
        t',
        rs,
        e ∙ same (state t' ((results x).1 ++ b) (rs ++ d) h),
        Frame-trans c c1 t t1 t' le1 f f',
        Holds-Frame t' t' c2 c' rs (results x).0 le2 (Frame-refl c2 t') hs,
      )

  taken :
      (l r rest : List Op) (t : List D) (b : List Bool) (d : List (Ref D)) (h : List ℕ)
      → eval_ops dops env const_values (ternary l r ++ rest) 0 (state t (true ∷ b) d h)
        ≡ eval_ops dops env const_values (l ++ (skip (length r) ∷ (r ++ rest))) 0 (state t b d h)
  unfolding eval_ops
  taken l r rest t b d h =
      ap (λ ops. eval_ops dops env const_values ops 0 (state t b d h))
        (append_assoc l (skip (length r) ∷ r) rest)

  not_taken :
      (l r rest : List Op) (t : List D) (b : List Bool) (d : List (Ref D)) (h : List ℕ)
      → eval_ops dops env const_values (ternary l r ++ rest) 0 (state t (false ∷ b) d h)
        ≡ eval_ops dops env const_values (r ++ rest) 0 (state t b d h)
  unfolding eval_ops
  not_taken l r rest t b d h =
      ap (λ ops. eval_ops dops env const_values ops (length l + 1) (state t b d h))
        (append_assoc l (skip (length r) ∷ r) rest)
      ∙ eval_ops-skip dops env const_values l (skip (length r) ∷ (r ++ rest)) 1 (length l + 1)
          (state t b d h) refl

  skipped :
      (r rest : List Op) (s : Temps D)
      → eval_ops dops env const_values (skip (length r) ∷ (r ++ rest)) 0 s
        ≡ eval_ops dops env const_values rest 0 s
  unfolding eval_ops
  skipped r rest s = eval_ops-skip dops env const_values r rest 0 (length r) s (omega arith)

  -- A run that has put a Boolean on its stack goes on with one of the sides.
  Meets-choice :
      {X : Type 0} (results : X → Results D) (cond : Bool) (vl vr : Option X) (c c1 c2 c' : ℕ)
      (l r rest : List Op) (t t1 : List D) (b : List Bool) (d rs : List (Ref D)) (h : List ℕ)
      (run : Option (Temps D))
      → c ≤ c1
      → c1 ≤ c2
      → c2 ≤ c'
      → Frame c t t1
      → Holds t1 c1 rs []
      → run
        ≡ eval_ops dops env const_values (ternary l r ++ rest) 0 (state t1 (cond ∷ b) (rs ++ d) h)
      → Meets
          (λ x.
            Reached dops env const_values c1 c2
              (skip (length r) ∷ (r ++ rest))
              t1
              b
              d
              h
              (results x))
          vl
          (eval_ops dops env const_values (l ++ (skip (length r) ∷ (r ++ rest))) 0 (state t1 b d h))
      → Meets
          (λ x. Reached dops env const_values c2 c' rest t1 b d h (results x))
          vr
          (eval_ops dops env const_values (r ++ rest) 0 (state t1 b d h))
      → Meets
          (λ x. Reached dops env const_values c c' rest t b d h (results x))
          (if cond then vl else vr)
          run
  Meets-choice {X} results true vl vr c c1 c2 c' l r rest t t1 b d [] h run le1 le2 le3 f hs e ml
        mr =
      Meets-cast (λ (x : X). Reached dops env const_values c c' rest t b d h (results x)) vl run
        (eval_ops dops env const_values (l ++ (skip (length r) ∷ (r ++ rest))) 0 (state t1 b d h))
        (e ∙ taken l r rest t1 b d h)
        (Reached-widen results vl c c1 c2 c' rest (skip (length r) ∷ (r ++ rest)) t t1 b d h
          (eval_ops dops env const_values (l ++ (skip (length r) ∷ (r ++ rest))) 0 (state t1 b d h))
          le1 le3 f (skipped r rest) ml)
  Meets-choice {X} results false vl vr c c1 c2 c' l r rest t t1 b d [] h run le1 le2 le3 f hs e ml
        mr =
      Meets-cast (λ (x : X). Reached dops env const_values c c' rest t b d h (results x)) vr run
        (eval_ops dops env const_values (r ++ rest) 0 (state t1 b d h))
        (e ∙ not_taken l r rest t1 b d h)
        (Reached-widen results vr c c2 c' c' rest rest t t1 b d h
          (eval_ops dops env const_values (r ++ rest) 0 (state t1 b d h)) (omega (arith, le1, le2))
          (omega arith) f (λ s. refl) mr)
  Meets-choice results cond vl vr c c1 c2 c' l r rest t t1 b d (r1 ∷ rs) h run le1 le2 le3 f hs e ml
        mr =
      absurd hs

  pub Block-choice :
      {X : Type 0} (results : X → Results D) (c l r : List Op) (k : ℕ) (vc : Option Bool)
      (vl vr : Option X)
      → Block dops env const_values truth c 0 vc
      → Block dops env const_values results l k vl
      → Block dops env const_values results r k vr
      → Block dops env const_values results
          (c ++ ternary l r)
          k
          (vc >>= (λ b. if b then vl else vr))
  Block-choice {X} results c l r k vc vl vr bc bl br a le =
      let mc = bc a le in
      let a1 = above a mc.cnt mc.pushed in
      let ml = bl a1 mc.counts in
      let a2 = above a1 ml.cnt ml.pushed in
      let mr = br a2 ml.counts in
      let q = mr.pushed ++ (ml.pushed ++ mc.pushed) in
      record {
        out = mc.out ++ ternary ml.out mr.out;
        cnt = mr.cnt;
        pushed = q;
        assigned =
            assign_dests-append c (ternary l r) a a1 (above a mr.cnt q) mc.out
              (ternary ml.out mr.out) mc.assigned
              (ternary-assigned l r ml.out mr.out a1 a2 (above a2 mr.cnt mr.pushed) mc.counts
                  ml.counts ml.assigned mr.assigned ml.same_length mr.same_length
                ∙ ap (λ z. some (ternary ml.out mr.out, z))
                    (ap (λ z. above z mr.cnt mr.pushed)
                        (above-above a mc.cnt ml.cnt ml.pushed mc.pushed)
                      ∙ above-above a ml.cnt mr.cnt mr.pushed (ml.pushed ++ mc.pushed)));
        same_length = omega (
          arith,
          length-append mc.out (ternary ml.out mr.out),
          length-append c (ternary l r),
          length-append ml.out (skip (length mr.out) ∷ mr.out),
          length-append l (skip (length r) ∷ r),
          mc.same_length,
          ml.same_length,
          mr.same_length,
        );
        enough = omega (arith, length-append mr.pushed (ml.pushed ++ mc.pushed), mr.enough);
        grows = omega (arith, mc.grows, ml.grows, mr.grows);
        counts = omega (
          arith,
          mr.counts,
          sum-append mr.pushed (ml.pushed ++ mc.pushed),
          sum-append ml.pushed mc.pushed,
        );
        runs = λ rest t b d h lt.
            Meets-cast
              (λ (x : X).
                Reached dops env const_values a.registers_curr (a.registers_curr + sum q) rest t b d
                  h (results x))
              (vc >>= (λ b'. if b' then vl else vr))
              (eval_ops dops env const_values ((mc.out ++ ternary ml.out mr.out) ++ rest) 0
                (state t b d h))
              (eval_ops dops env const_values (mc.out ++ (ternary ml.out mr.out ++ rest)) 0
                (state t b d h))
              (ap (λ ops. eval_ops dops env const_values ops 0 (state t b d h))
                (append_assoc mc.out (ternary ml.out mr.out) rest))
              (Meets-bind
                (λ (x : Bool).
                  Reached dops env const_values a.registers_curr a1.registers_curr
                    (ternary ml.out mr.out ++ rest) t b d h (truth x))
                (λ (x : X).
                  Reached dops env const_values a.registers_curr (a.registers_curr + sum q) rest t b
                    d h (results x))
                vc (λ b'. if b' then vl else vr)
                (eval_ops dops env const_values (mc.out ++ (ternary ml.out mr.out ++ rest)) 0
                  (state t b d h))
                (mc.runs (ternary ml.out mr.out ++ rest) t b d h
                  (omega (arith, lt, ml.grows, mr.grows)))
                (λ x z.
                  let (t1, rs, e, f, hs) = z in
                  Meets-choice results x vl vr a.registers_curr a1.registers_curr a2.registers_curr
                    (a.registers_curr + sum q) ml.out mr.out rest t t1 b d rs h
                    (eval_ops dops env const_values (mc.out ++ (ternary ml.out mr.out ++ rest)) 0
                      (state t b d h))
                    (omega arith) (omega arith)
                    (omega (
                      arith,
                      sum-append mr.pushed (ml.pushed ++ mc.pushed),
                      sum-append ml.pushed mc.pushed,
                    ))
                    f hs e
                    (ml.runs (skip (length mr.out) ∷ (mr.out ++ rest)) t1 b d h
                      (omega (arith, lt, mr.grows, f.same_length)))
                    (Reached-widen results vr a2.registers_curr a2.registers_curr
                      (a2.registers_curr + sum mr.pushed) (a.registers_curr + sum q) rest rest t1 t1
                      b d h (eval_ops dops env const_values (mr.out ++ rest) 0 (state t1 b d h))
                      (omega arith)
                      (omega (
                        arith,
                        sum-append mr.pushed (ml.pushed ++ mc.pushed),
                        sum-append ml.pushed mc.pushed,
                      ))
                      (Frame-refl a2.registers_curr t1) (λ s. refl)
                      (mr.runs rest t1 b d h (omega (arith, lt, f.same_length))))));
      }
