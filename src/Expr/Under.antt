-- ===== src/Expr/Under.antt =====
-- An operation after a part that pushes what it takes.
use behavioral_model.Base.{
  ℕ, ◌+◌, ◌≤◌, max, Bool, Option, none, some, List, [], ◌∷◌, ◌++◌, length, ◌>>=◌, ◌≡◌, refl, ap,
  ◌∙◌, arith, length-append,
}
use behavioral_model.Expr.{Op, Registers, assign_dest, counted}
use behavioral_model.Expr.Machine.{DataOps, Env, Ref, Temps, state, eval_op, eval_ops}
use behavioral_model.Expr.Blocks.{
  sum, sum-append, above, Holds, Frame, Meets, Frame-refl, Frame-trans, Holds-Frame, Meets-cast,
  Meets-bind, Results, Reached, Block, Stepped,
}
use behavioral_model.Expr.Compose.{
  drop, pops, pops-above, above-above, assign_dest-then, assign_dests-nil, assign_dests-append,
}
use mathlib.Core.List.{append_assoc}

module _ {D : Type 0} (dops : DataOps D) (env : Env D) (const_values : List D) where
  -- What the case of `op` in build() and in eval_ has to do: it takes the registers of `k` numbers,
  -- leaves registers `m`, and turns the results `x` into `f x`.
  pub record Operation {X Y : Type 0} (results : X → Results D) (results' : Y → Results D)
      (f : X → Option Y) (op : Op) (k : ℕ) (m : List ℕ) : Type 0 where
    pub to_dest : ℕ → Op
    pub assigns :
        (a : Registers)
        → assign_dest op a
          ≡ (pops k a >>= (λ p. some (to_dest p.registers_curr, above p p.registers_cnt m)))
    pub steps :
        (dest c : ℕ) (t : List D) (b : List Bool) (d rs : List (Ref D)) (h : List ℕ) (x : X)
        → dest + sum m ≤ length t
        → Holds t c rs (results x).0
        → Meets
            (λ y. Stepped dops env const_values dest (dest + sum m) t b d h (results' y))
            (f x)
            (eval_op dops env const_values
              (to_dest dest)
              (state t ((results x).1 ++ b) (rs ++ d) h))

  Meets-step :
      {Y : Type 0} (results : Y → Results D) (v : Option Y) (op : Op) (rest : List Op)
      (c dest c' c'' : ℕ) (t t' : List D) (b : List Bool) (d : List (Ref D)) (h : List ℕ)
      (s : Temps D)
      → c ≤ dest
      → c' ≡ c''
      → Frame c t t'
      → Meets
          (λ y. Stepped dops env const_values dest c' t' b d h (results y))
          v
          (eval_op dops env const_values op s)
      → Meets
          (λ y. Reached dops env const_values c c'' rest t b d h (results y))
          v
          (eval_ops dops env const_values (op ∷ rest) 0 s)
  unfolding eval_ops
  Meets-step results none op rest c dest c' c'' t t' b d h s le e f m = rw m refl
  Meets-step results (some y) op rest c dest c' c'' t t' b d h s le e f m =
      let (t'', rs, run, f', hs) = m in
      (
        t'',
        rs,
        ap (λ o. o >>= (λ r. eval_ops dops env const_values rest r.0 r.1)) run,
        Frame-trans c dest t t' t'' le f f',
        Holds-Frame t'' t'' c' c'' rs (results y).0 (omega (arith, e)) (Frame-refl c' t'') hs,
      )

  pub Block-under :
      {X Y : Type 0} (results : X → Results D) (results' : Y → Results D) (f : X → Option Y)
      (code : List Op) (op : Op) (k : ℕ) (m : List ℕ) (v : Option X)
      → Operation results results' f op k m
      → Block dops env const_values results code k v
      → Block dops env const_values results' (code ++ (op ∷ [])) (length m) (v >>= f)
  unfolding counted
  Block-under {X} {Y} results results' f code op k m v o block a le =
      let m1 = block a le in
      let q = m ++ drop k m1.pushed in
      let dest = a.registers_curr + sum (drop k m1.pushed) in
      let cnt = max m1.cnt (a.registers_curr + sum q) in
      record {
        out = m1.out ++ (o.to_dest dest ∷ []);
        cnt = cnt;
        pushed = q;
        assigned =
            assign_dests-append code (op ∷ []) a (above a m1.cnt m1.pushed) (above a cnt q) m1.out
              (o.to_dest dest ∷ []) m1.assigned
              (assign_dest-then op [] [] (above a m1.cnt m1.pushed) (above a cnt q)
                (o.to_dest dest, above a m1.cnt q)
                (o.assigns (above a m1.cnt m1.pushed)
                  ∙ ap
                      (λ r.
                        r >>= (λ p. some (o.to_dest p.registers_curr, above p p.registers_cnt m)))
                      (pops-above k a m1.cnt m1.pushed m1.enough)
                  ∙ ap (λ r. some (o.to_dest dest, r))
                      (above-above a m1.cnt m1.cnt m (drop k m1.pushed)))
                assign_dests-nil);
        same_length = omega (
          arith,
          length-append m1.out (o.to_dest dest ∷ []),
          length-append code (op ∷ []),
          m1.same_length,
        );
        enough = omega (arith, length-append m (drop k m1.pushed));
        grows = omega (arith, m1.grows);
        counts = omega arith;
        runs = λ rest t b d h lt.
            Meets-cast
              (λ (y : Y).
                Reached dops env const_values a.registers_curr (a.registers_curr + sum q) rest t b d
                  h (results' y))
              (v >>= f)
              (eval_ops dops env const_values ((m1.out ++ (o.to_dest dest ∷ [])) ++ rest) 0
                (state t b d h))
              (eval_ops dops env const_values (m1.out ++ (o.to_dest dest ∷ rest)) 0 (state t b d h))
              (ap (λ ops. eval_ops dops env const_values ops 0 (state t b d h))
                (append_assoc m1.out (o.to_dest dest ∷ []) rest))
              (Meets-bind
                (λ (x : X).
                  Reached dops env const_values a.registers_curr (a.registers_curr + sum m1.pushed)
                    (o.to_dest dest ∷ rest) t b d h (results x))
                (λ (y : Y).
                  Reached dops env const_values a.registers_curr (a.registers_curr + sum q) rest t b
                    d h (results' y))
                v f
                (eval_ops dops env const_values (m1.out ++ (o.to_dest dest ∷ rest)) 0
                  (state t b d h))
                (m1.runs (o.to_dest dest ∷ rest) t b d h (omega (arith, lt)))
                (λ x r.
                  let (t', rs, e, fr, hs) = r in
                  Meets-cast
                    (λ (y : Y).
                      Reached dops env const_values a.registers_curr (a.registers_curr + sum q) rest
                        t b d h (results' y))
                    (f x)
                    (eval_ops dops env const_values (m1.out ++ (o.to_dest dest ∷ rest)) 0
                      (state t b d h))
                    (eval_ops dops env const_values (o.to_dest dest ∷ rest) 0
                      (state t' ((results x).1 ++ b) (rs ++ d) h))
                    e
                    (Meets-step results' (f x) (o.to_dest dest) rest a.registers_curr dest
                      (dest + sum m) (a.registers_curr + sum q) t t' b d h
                      (state t' ((results x).1 ++ b) (rs ++ d) h) (omega arith)
                      (omega (arith, sum-append m (drop k m1.pushed))) fr
                      (o.steps dest (a.registers_curr + sum m1.pushed) t' b d rs h x
                        (omega (arith, lt, fr.same_length, sum-append m (drop k m1.pushed))) hs))));
      }
