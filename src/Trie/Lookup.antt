-- ===== src/Trie/Lookup.antt =====
-- bf_lpm_trie_lookup is longest-prefix match: the value of the longest stored prefix of the key.
use behavioral_model.Base.{
  ℕ, zero, suc, ◌+◌, ◌-◌, ◌*◌, ◌<◌, ◌≡◌, refl, sym, ap, fun_ext, ◌∙◌, inl, inr, false, Option, none,
  some, List, [], ◌∷◌, ◌==◌, arith, leb-true, leb-false, Option-cases, or_else, or_else_assoc,
  or_else-none,
}
use behavioral_model.Judy.{JudyL}
use behavioral_model.Trie.{
  Ptr, Node, Heap, Trie, tail_key, lookup, lookup_loop, scan, get_prefix, get_prefix_key,
}
use behavioral_model.Trie.Shape.{Labels, Inv, IsTrie, stored_at, Fits}
use behavioral_model.Trie.Member.{get_next_node-none, get_next_node-some}
use behavioral_model.Trie.Enter.{load-cell}

-- The value at the greatest length up to `l` that has one.
abbrev pub longest : (ℕ → Option ℕ) → ℕ → Option ℕ
longest f zero = f zero
longest f (suc l) = or_else (f (suc l)) (longest f l)

longest-add :
    (f : ℕ → Option ℕ) (k : ℕ)
    → longest f (k + 8) ≡ or_else (longest (λ l. f (l + 8)) k) (longest f 7)
longest-add f zero = refl
longest-add f (suc k) =
    let e : suc k + 8 ≡ suc (k + 8) = omega arith in
    rw (
      e,
      longest-add f k,
      or_else_assoc (f (suc (k + 8))) (longest (λ l. f (l + 8)) k) (longest f 7),
    )

longest-none : (l : ℕ) → longest (λ _. none) l ≡ none
longest-none zero = refl
longest-none (suc l) = longest-none l

module _ {A : Type 0} (j : JudyL A) where
  open j use {get}

  module _ {h : Heap A} {label : Labels} (v : Inv j h label) (p : Ptr) (n : Node A)
      (here : h.cell p ≡ some n) where
    stored_at-zero : (key : List ℕ) → stored_at j key 0 p h ≡ get n.prefixes 0
    unfolding tail_key
    stored_at-zero [] = rw here
    stored_at-zero (b ∷ key) = rw here

    -- The inner loop takes the longest of the prefixes of 1 to `i` bits.
    scan-longest :
        (byte : ℕ) (key : List ℕ) (i : ℕ)
        → i < 8
        → or_else (scan j n byte i) (get n.prefixes 0)
          ≡ longest (λ l. stored_at j (byte ∷ key) l p h) i
    unfolding scan get_prefix tail_key
    scan-longest byte key zero small = sym (stored_at-zero (byte ∷ key))
    scan-longest byte key (suc i) small =
        rw (here, leb-false 8 (suc i) small, ← scan-longest byte key i (omega arith))
          (elim (Option-cases (get n.prefixes (get_prefix_key (suc i) byte))) [
            | inl off ↦ ground (arith, off)
            | inr (x, on) ↦ ground (arith, on)
          ])

    p-ne-null : (p == 0) ≡ false
    p-ne-null = ground (arith, v.null)

    -- What one round of the loop has found.
    best_lem :
        (byte : ℕ) (found : Option ℕ)
        → let before : Option ℕ = elim (get_prefix j n 0) [ none ↦ found | some x ↦ some x ] in
          let best : Option ℕ = elim (scan j n byte 7) [ none ↦ before | some x ↦ some x ] in
          best ≡ or_else (or_else (scan j n byte 7) (get n.prefixes 0)) found
    unfolding get_prefix
    best_lem byte found = ground arith

    below-none :
        (byte : ℕ) (key : List ℕ) (l : ℕ)
        → get n.branches byte ≡ none
        → stored_at j (byte ∷ key) (l + 8) p h ≡ none
    below-none byte key l bare = rw (here, leb-true 8 (l + 8) (omega arith), bare)

    below-some :
        (byte : ℕ) (key : List ℕ) (l : ℕ) (q : Ptr)
        → get n.branches byte ≡ some q
        → stored_at j (byte ∷ key) (l + 8) p h ≡ stored_at j key l q h
    below-some byte key l q found =
        let e : l + 8 - 8 ≡ l = omega arith in rw (here, leb-true 8 (l + 8) (omega arith), found, e)

  lookup_loop-null :
      (width : ℕ) (key : List ℕ) (h : Heap A) (found : Option ℕ)
      → lookup_loop j width key 0 h found ≡ some found
  unfolding lookup_loop
  lookup_loop-null zero key h found = refl
  lookup_loop-null (suc width) [] h found = refl
  lookup_loop-null (suc width) (b ∷ key) h found = refl

  lookup_loop-longest :
      (width : ℕ) (key : List ℕ) (p : Ptr) (h : Heap A) (label : Labels) (n : Node A)
      (found : Option ℕ)
      → Inv j h label
      → h.cell p ≡ some n
      → Fits key (8 * width)
      → lookup_loop j width key p h found
        ≡ some (or_else (longest (λ l. stored_at j key l p h) (8 * width)) found)
  unfolding lookup_loop
  lookup_loop-longest zero key p h label n found v here fits =
      rw (p-ne-null v p n here, load-cell j v p n here, stored_at-zero v p n here key)
        (unfold get_prefix in ground arith)
  lookup_loop-longest (suc width) [] p h label n found v here fits = absurd (omega arith)
  lookup_loop-longest (suc width) (byte ∷ key) p h label n found v here fits =
      let e : 8 * suc width ≡ 8 * width + 8 = omega arith in
      let less : 8 * suc width - 8 ≡ 8 * width = omega arith in
      let f = λ (l : ℕ). stored_at j (byte ∷ key) l p h in
      let node_part = scan-longest v p n here byte key 7 (omega arith) in
      let best : Option ℕ = or_else (longest f 7) found in
      rw
        (
          p-ne-null v p n here,
          load-cell j v p n here,
          best_lem v p n here byte found,
          node_part,
          e,
          longest-add f (8 * width),
          or_else_assoc (longest (λ l. f (l + 8)) (8 * width)) (longest f 7) found,
        )
        (elim (Option-cases (get n.branches byte)) [
          | inl bare ↦
              rw
                (
                  get_next_node-none j v n byte bare,
                  fun_ext (λ l. below-none v p n here byte key l bare),
                  longest-none (8 * width),
                )
                (lookup_loop-null width key h best)
          | inr (q, down) ↦
              let c = v.child p n byte q here down in
              rw
                (
                  (get_next_node-some j v p n byte q here down).0,
                  fun_ext (λ l. below-some v p n here byte key l q down),
                )
                (lookup_loop-longest width key q h label c.node best v c.holds (rw (← less) fits.1))
        ])

  -- On a well-formed trie and a key of at least the trie's width, lookup runs without a fault and gives
  -- the value of the longest stored prefix of the key, of length 0 up to all of its bits, or nothing
  -- if no prefix of the key is stored.
  pub lookup-longest :
      (t : Trie) (h : Heap A) (key : List ℕ)
      → IsTrie j t.root h
      → Fits key (8 * t.key_width_bytes)
      → lookup j t key h ≡ some (longest (λ l. stored_at j key l t.root h) (8 * t.key_width_bytes))
  unfolding lookup
  lookup-longest t h key is fits =
      lookup_loop-longest t.key_width_bytes key t.root h is.label is.node none is.inv is.holds fits
      ∙ ap some (or_else-none _)
