-- ===== src/Trie/Insert.antt =====
-- bf_lpm_trie_insert: the inserted prefix has the new value, and every other prefix keeps its own.
use mathlib.Core.List.{reverse_aux, reverse-reverse, reverse}
use behavioral_model.Base.{
  ℕ, ◌+◌, ◌%◌, ◌≡◌, ◌≢◌, refl, sym, ap, ◌∙◌, inl, inr, true, false, none, some, List, [], ◌∷◌, ◌==◌,
  if◌then◌else◌, arith, Bool-cases, Option-cases, ==_refl, ==_iff, ==_ne,
}
use behavioral_model.Judy.{JudyL}
use behavioral_model.Trie.{Ptr, Node, Heap, Trie, insert, insert_prefix, write}
use behavioral_model.Trie.Shape.{Labels, Inv, IsTrie, stored_at, Fits, path_of, key_of, same_prefix}
use behavioral_model.Trie.Paths.{follow, follow-label, stored_at-follow}
use behavioral_model.Trie.SamePrefix.{same_prefix-route, route-same_prefix, key_of-some}
use behavioral_model.Trie.Enter.{load-cell}
use behavioral_model.Trie.Grow.{Grew, grow-Grew}

reverse_aux_inj : (xs ys : List ℕ) → reverse_aux xs [] ≡ reverse_aux ys [] → xs ≡ ys
reverse_aux_inj xs ys e = sym (reverse-reverse xs) ∙ ap reverse e ∙ reverse-reverse ys

module _ {A : Type 0} (j : JudyL A) where
  open j use {get, ins, get-ins}

  -- A write to a node that keeps its branches.
  module _ {h : Heap A} {label : Labels} (v : Inv j h label) (q : Ptr) (n n' : Node A)
      (here : h.cell q ≡ some n) (same : n'.branches ≡ n.branches) where
    abbrev written : Heap A
    written = write h q (some n')

    written-cell :
        (a : Ptr) (m : Node A)
        → h.cell a ≡ some m
        → (m' : Node A) × (written.cell a ≡ some m') × (m'.branches ≡ m.branches)
    unfolding write
    written-cell a m there = elim (Bool-cases (q == a)) [
      | inl hit ↦ (n', ground arith, ground arith)
      | inr miss ↦ (m, ground arith, refl)
    ]

    written-back :
        (a : Ptr) (m' : Node A)
        → written.cell a ≡ some m'
        → (m : Node A) × (h.cell a ≡ some m) × (m'.branches ≡ m.branches)
    unfolding write
    written-back a m' there = elim (Bool-cases (q == a)) [
      | inl hit ↦ (n, ground arith, ground arith)
      | inr miss ↦ (m', ground arith, refl)
    ]

    pub written-Inv : Inv j written label
    unfolding write
    written-Inv = record {
      next_pos = v.next_pos;
      null = ground (arith, v.null);
      fresh = λ a le. ground (arith, v.fresh a);
      child = λ a m byte c there found.
          let (m0, back, eq) = written-back a m there in
          let old = v.child a m0 byte c back (rw (← eq) found) in
          let (c', holds, _) = written-cell c old.node old.holds in
          record { node = c'; holds = holds; labelled = old.labelled };
    }

    written-gone : (a : Ptr) → h.cell a ≡ none → written.cell a ≡ none
    unfolding write
    written-gone a gone = ground arith

    pub follow-written : (path : List ℕ) (p : Ptr) → follow j path p written ≡ follow j path p h
    follow-written [] p = refl
    follow-written (byte ∷ path) p = elim (Option-cases (h.cell p)) [
      | inl gone ↦ rw (gone, written-gone p gone)
      | inr (m, there) ↦
          let (m', new, eq) = written-cell p m there in
          rw (there, new, eq)
            (elim (Option-cases (get m.branches byte)) [
              | inl bare ↦ rw bare
              | inr (c, found) ↦ rw found (follow-written path c)
            ])
    ]

  -- The value of a prefix in the heap with a new value for the key `k` of the node at `q`.
  module _ {h : Heap A} {root : Ptr} (t : IsTrie j root h) (q : Ptr) (n n' : Node A)
      (here : h.cell q ≡ some n) (same : n'.branches ≡ n.branches) (prefix : List ℕ) (len : ℕ)
      (k value : ℕ) (new : n'.prefixes ≡ ins n.prefixes k value)
      (path : follow j (path_of prefix len) root h ≡ some q) (key : key_of prefix len ≡ some k)
      (fits : Fits prefix len) where
    stored-hit :
        (prefix' : List ℕ) (len' : ℕ)
        → Fits prefix' len'
        → same_prefix prefix len prefix' len' ≡ true
        → stored_at j prefix' len' root (write h q (some n')) ≡ some value
    unfolding write
    stored-hit prefix' len' fits' e =
        let (p, c) = same_prefix-route prefix prefix' len len' fits fits' e in
        let at_end : (q == q) ≡ true = ==_refl q in
        rw (
          stored_at-follow j prefix' len' root (write h q (some n')),
          ← p,
          ← c,
          follow-written t.inv q n n' here same (path_of prefix len) root,
          path,
          key,
          at_end,
          new,
          get-ins n.prefixes k value k,
          ==_refl k,
        )

    -- Another prefix that ends in the node has another key.
    key_ne :
        (prefix' : List ℕ) (len' k' : ℕ)
        → Fits prefix' len'
        → same_prefix prefix len prefix' len' ≡ false
        → follow j (path_of prefix' len') root h ≡ some q
        → key_of prefix' len' ≡ some k'
        → k ≢ k'
    key_ne prefix' len' k' fits' e path' key' eq =
        let to = follow-label j t.inv (path_of prefix len) root t.node q t.holds path in
        let to' = follow-label j t.inv (path_of prefix' len') root t.node q t.holds path' in
        let same_path =
          reverse_aux_inj (path_of prefix len) (path_of prefix' len')
            (rw (← t.at_root) (sym to ∙ to')) in
        let hit =
          route-same_prefix prefix prefix' len len' fits fits' same_path
            (key ∙ ap some eq ∙ sym key') in
        cc

    cell_other : (a : Ptr) → (q == a) ≡ false → (write h q (some n')).cell a ≡ h.cell a
    unfolding write
    cell_other a other = rw other

    cell_self : (write h q (some n')).cell q ≡ some n'
    unfolding write
    cell_self = rw (==_refl q)

    stored-miss :
        (prefix' : List ℕ) (len' : ℕ)
        → Fits prefix' len'
        → same_prefix prefix len prefix' len' ≡ false
        → stored_at j prefix' len' root (write h q (some n')) ≡ stored_at j prefix' len' root h
    stored-miss prefix' len' fits' e =
        rw
          (
            stored_at-follow j prefix' len' root (write h q (some n')),
            stored_at-follow j prefix' len' root h,
            follow-written t.inv q n n' here same (path_of prefix' len') root,
          )
          (elim (Option-cases (follow j (path_of prefix' len') root h)) [
            | inl gone ↦ rw gone
            | inr (q', path') ↦ rw path' (elim (Bool-cases (q == q')) [
              | inr other ↦ rw (cell_other q' other)
              | inl hit ↦
                  let eq : q ≡ q' = (==_iff q q').0 hit in
                  rw (← eq, cell_self, here)
                    (elim (Option-cases (key_of prefix' len')) [
                      | inl off ↦ rw off
                      | inr (k', key') ↦
                          let ne = key_ne prefix' len' k' fits' e (path' ∙ ap some (sym eq)) key' in
                          rw (key', new, get-ins n.prefixes k value k', ==_ne k k' ne)
                    ])
            ])
          ])

    pub stored-write :
        (prefix' : List ℕ) (len' : ℕ)
        → Fits prefix' len'
        → stored_at j prefix' len' root (write h q (some n')) ≡ (
            if same_prefix prefix len prefix' len'
            then some value
            else stored_at j prefix' len' root h)
    stored-write prefix' len' fits' = elim (Bool-cases (same_prefix prefix len prefix' len')) [
      | inl hit ↦ rw hit (stored-hit prefix' len' fits' hit)
      | inr miss ↦ rw miss (stored-miss prefix' len' fits' miss)
    ]

    pub write-IsTrie : IsTrie j root (write h q (some n'))
    write-IsTrie =
        let (m, holds, _) = written-cell t.inv q n n' here same root t.node t.holds in
        record {
          label = t.label;
          inv = written-Inv t.inv q n n' here same;
          at_root = t.at_root;
          node = m;
          holds = holds;
        }

  -- The node that insert writes.
  updated : Node A → ℕ → ℕ → Node A
  updated n key value =
      let (present, n1) = insert_prefix j n key value in
      if present then n1 else record n1 { pref_num = (n1.pref_num + 1) % 256 }

  updated-branches : (n : Node A) (key value : ℕ) → (updated n key value).branches ≡ n.branches
  unfolding updated insert_prefix
  updated-branches n key value = ground arith

  updated-prefixes :
      (n : Node A) (key value : ℕ) → (updated n key value).prefixes ≡ ins n.prefixes key value
  unfolding updated insert_prefix
  updated-prefixes n key value = ground arith

  Grew-IsTrie :
      {h : Heap A} {prefix : List ℕ} {len : ℕ} {root : Ptr} (is : IsTrie j root h)
      (g : Grew j h is.label prefix len root)
      → IsTrie j root g.heap
  Grew-IsTrie {root} is g =
      let (m, holds, _, _) = g.extends root is.node is.holds in
      record {
        label = g.labels;
        inv = g.inv;
        at_root = g.kept root is.node is.holds ∙ is.at_root;
        node = m;
        holds = holds;
      }

  -- Inserting a prefix into a well-formed trie succeeds, keeps it well formed, and updates the map of
  -- values at that prefix, length and bits, and at no other prefix.
  pub insert-stored_at :
      (t : Trie) (h : Heap A) (prefix : List ℕ) (len value : ℕ) (prefix' : List ℕ) (len' : ℕ)
      → IsTrie j t.root h
      → Fits prefix len
      → Fits prefix' len'
      → (h' : Heap A) × (insert j t prefix len value h ≡ some h')
        × IsTrie j t.root h'
        × (stored_at j prefix' len' t.root h' ≡ (
            if same_prefix prefix len prefix' len'
            then some value
            else stored_at j prefix' len' t.root h))
  unfolding insert updated
  insert-stored_at t h prefix len value prefix' len' is fits fits' =
      let g = grow-Grew j prefix len h is.label t.root is.node is.inv fits is.holds in
      let (k, key) = key_of-some prefix len fits in
      let q = g.cursor.current_node in
      let n' = updated g.node k value in
      let is' : IsTrie j t.root g.heap = Grew-IsTrie is g in
      let branches = updated-branches g.node k value in
      let prefixes = updated-prefixes g.node k value in
      (
        write g.heap q (some n'),
        rw (g.run, g.key, key, load-cell j g.inv q g.node g.ends),
        write-IsTrie is' q g.node n' g.ends branches prefix len k value prefixes g.path key fits,
        rw (← g.same t.root is.node is.holds prefix' len') (
            stored-write is' q g.node n' g.ends branches prefix len k value prefixes g.path key fits
              prefix' len' fits'),
      )
