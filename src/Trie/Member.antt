-- ===== src/Trie/Member.antt =====
-- bf_lpm_trie_has_prefix, and the loop that it shares with bf_lpm_trie_delete.
use behavioral_model.Base.{
  ℕ, ◌-◌, ◌≡◌, refl, inl, inr, true, none, some, List, [], ◌∷◌, leb, arith, Bool-cases,
  Option-cases, is_some, ==_ne, ◌≢◌,
}
use behavioral_model.Judy.{JudyL}
use behavioral_model.Trie.{
  Ptr, Node, Heap, Trie, Cursor, tail_key, descend, has_prefix, get_prefix, get_next_node,
}
use behavioral_model.Trie.Shape.{Labels, Inv, IsTrie, stored_at, Fits, path_of, key_of}
use behavioral_model.Trie.Paths.{follow, stored_at-follow}
use behavioral_model.Trie.SamePrefix.{key_of-some}
use behavioral_model.Trie.Enter.{load-cell}

module _ {A : Type 0} (j : JudyL A) where
  open j use {get}

  -- What the loop finds: a NULL child, where the path leads nowhere, or a cursor at its end.
  pub data Lands (h : Heap A) (prefix : List ℕ) (len : ℕ) (p : Ptr) : Type 0 where
    misses :
        descend j prefix len p h ≡ some none
        → follow j (path_of prefix len) p h ≡ none
        → Lands h prefix len p
    ends :
        (c : Cursor) (n : Node A)
        → descend j prefix len p h ≡ some (some c)
        → follow j (path_of prefix len) p h ≡ some c.current_node
        → h.cell c.current_node ≡ some n
        → tail_key c.rest c.left ≡ key_of prefix len
        → Lands h prefix len p

  module _ {h : Heap A} {label : Labels} (v : Inv j h label) where
    pub get_next_node-none :
        (n : Node A) (byte : ℕ) → get n.branches byte ≡ none → get_next_node j n byte ≡ 0
    unfolding get_next_node
    get_next_node-none n byte bare = rw (bare, get_next_node)

    pub get_next_node-some :
        (p : Ptr) (n : Node A) (byte : ℕ) (q : Ptr)
        → h.cell p ≡ some n
        → get n.branches byte ≡ some q
        → (get_next_node j n byte ≡ q) × (q ≢ 0)
    unfolding get_next_node
    get_next_node-some p n byte q here found =
        let c = v.child p n byte q here found in
        (rw (found, get_next_node), ground (arith, v.null, c.holds))

    descend-more :
        (byte : ℕ) (rest : List ℕ) (len : ℕ) (p : Ptr) (n : Node A) (q : Ptr)
        → h.cell p ≡ some n
        → leb 8 len ≡ true
        → get n.branches byte ≡ some q
        → Lands h rest (len - 8) q
        → Lands h (byte ∷ rest) len p
    unfolding descend
    descend-more byte rest len p n q here more found (misses run gone) =
        let (to, ne) = get_next_node-some p n byte q here found in
        misses (rw (more, load-cell j v p n here, to, ==_ne q 0 ne) run)
          (rw (more, here, found) gone)
    descend-more byte rest len p n q here more found (ends c m run path holds key) =
        let (to, ne) = get_next_node-some p n byte q here found in
        ends c m (rw (more, load-cell j v p n here, to, ==_ne q 0 ne) run)
          (rw (more, here, found) path) holds (rw more key)

    pub descend-Lands :
        (prefix : List ℕ) (len : ℕ) (p : Ptr) (n : Node A)
        → Fits prefix len
        → h.cell p ≡ some n
        → Lands h prefix len p
    unfolding descend
    descend-Lands [] len p n fits here =
        ends (record { current_node = p; rest = []; left = len }) n (rw fits) refl here (rw fits)
    descend-Lands (byte ∷ rest) len p n fits here = elim (Bool-cases (leb 8 len)) [
      | inl more ↦ elim (Option-cases (get n.branches byte)) [
        | inl bare ↦
            misses (rw (more, load-cell j v p n here, get_next_node-none n byte bare))
              (rw (more, here, bare))
        | inr (q, found) ↦
            let c = v.child p n byte q here found in
            descend-more byte rest len p n q here more found
              (descend-Lands rest (len - 8) q c.node fits.1 c.holds)
      ]
      | inr done ↦
          ends (record { current_node = p; rest = byte ∷ rest; left = len }) n (rw done) (rw done)
            here (rw done)
    ]

  has_prefix-Lands :
      (t : Trie) (h : Heap A) (prefix : List ℕ) (len : ℕ)
      → (is : IsTrie j t.root h) → Fits prefix len
      → Lands h prefix len t.root
      → has_prefix j t prefix len h ≡ some (is_some (stored_at j prefix len t.root h))
  unfolding has_prefix get_prefix
  has_prefix-Lands t h prefix len is fits (misses run gone) =
      rw (stored_at-follow j prefix len t.root h, run, gone)
  has_prefix-Lands t h prefix len is fits (ends c n run path holds key) =
      let (k, e) = key_of-some prefix len fits in
      rw (
        stored_at-follow j prefix len t.root h,
        run,
        path,
        key,
        holds,
        e,
        load-cell j is.inv c.current_node n holds,
      )

  -- On a well-formed trie, has_prefix runs without a fault and tells whether the prefix has a value.
  pub has_prefix-stored_at :
      (t : Trie) (h : Heap A) (prefix : List ℕ) (len : ℕ)
      → IsTrie j t.root h
      → Fits prefix len
      → has_prefix j t prefix len h ≡ some (is_some (stored_at j prefix len t.root h))
  has_prefix-stored_at t h prefix len is fits =
      has_prefix-Lands t h prefix len is fits
        (descend-Lands is.inv prefix len t.root is.node fits is.holds)
