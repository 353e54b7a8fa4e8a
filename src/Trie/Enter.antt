-- ===== src/Trie/Enter.antt =====
-- Entering a child, which allocates it where it is missing, changes no stored value.
use behavioral_model.Base.{
  ℕ, ◌+◌, ◌-◌, ◌%◌, ◌≡◌, ◌≢◌, refl, ap, fun_ext, ◌∙◌, ◌⊎◌, inl, inr, Option, none, some, List, [],
  ◌∷◌, ◌==◌, if◌then◌else◌, arith, Bool-cases, Option-cases,
}
use behavioral_model.Judy.{JudyL}
use behavioral_model.Trie.{Ptr, Node, Heap, write, load, allocate_node, enter}
use behavioral_model.Trie.Shape.{
  Labels, IsChild, Inv, stored_at, stored_at-empty, Extends, SameStored,
}

module _ {A : Type 0} (j : JudyL A) where
  open j use {nil, get, ins, get-nil, get-ins}

  unfoldable pub zeroed : Node A
  zeroed = record {
    branches = nil;
    prefixes = nil;
    branch_num = 0;
    pref_num = 0;
    parent = 0;
    child_id = 0;
  }

  -- The heap after `enter` has allocated a child of the node `n` at `p`.
  unfoldable pub grown : Heap A → Ptr → Node A → ℕ → Heap A
  unfolding zeroed
  grown h p n byte = record {
    next = h.next + 1;
    cell = λ a.
        if p == a
        then some (record n {
          branches = ins n.branches byte h.next;
          branch_num = (n.branch_num + 1) % 256;
        })
        else if h.next == a
        then some (record zeroed { parent = p; child_id = byte })
        else h.cell a;
  }

  module _ {h : Heap A} {label : Labels} (v : Inv j h label) where
    pub load-cell : (p : Ptr) (n : Node A) → h.cell p ≡ some n → load h p ≡ some n
    unfolding load
    load-cell p n e = ground (arith, v.null)

    pub enter-grown :
        (p : Ptr) (n : Node A) (byte : ℕ)
        → h.cell p ≡ some n
        → get n.branches byte ≡ none
        → enter j h p byte ≡ some (h.next, grown h p n byte)
    unfolding enter grown
    enter-grown p n byte e missing =
        let other : p ≢ h.next = ground (arith, v.fresh p) in
        let node : Node A = record zeroed { parent = p; child_id = byte } in
        let linked : Node A = record n {
          branches = ins n.branches byte h.next;
          branch_num = (n.branch_num + 1) % 256;
        } in
        let h' = write (write (allocate_node j h).1 h.next (some node)) p (some linked) in
        let run : enter j h p byte ≡ some (h.next, h') = ground (arith, v.next_pos, v.null) in
        run
        ∙ ap (λ (c : Ptr → Option (Node A)). some (h.next, record h' { cell = c }))
            (fun_ext λ a. ground arith)

    pub enter-old :
        (p : Ptr) (n : Node A) (byte : ℕ) (q : Ptr)
        → h.cell p ≡ some n
        → get n.branches byte ≡ some q
        → enter j h p byte ≡ some (q, h)
    unfolding enter
    enter-old p n byte q e found =
        let c = v.child p n byte q e found in ground (arith, v.null, c.holds)

  unfoldable pub relabel : Labels → Ptr → ℕ → Ptr → Labels
  relabel label p byte q a = if q == a then byte ∷ label p else label a

  module _ {h : Heap A} {label : Labels} (v : Inv j h label) (p : Ptr) (n : Node A) (byte : ℕ)
      (e : h.cell p ≡ some n) (missing : get n.branches byte ≡ none) where
    p-ne-next : p ≢ h.next
    p-ne-next = ground (arith, v.fresh p)

    pub grown-Extends : Extends j h (grown h p n byte)
    unfolding grown
    grown-Extends a m here = elim (Bool-cases (p == a)) [
      | inl hit ↦ (
        record n { branches = ins n.branches byte h.next; branch_num = (n.branch_num + 1) % 256 },
        ground arith,
        ground arith,
        λ c q child. ground (arith, get-ins n.branches byte h.next c),
      )
      | inr miss ↦ (m, ground (arith, v.fresh a), refl, λ c q child. child)
    ]

    kept-IsChild :
        (a : Ptr) (c : ℕ) (q : Ptr)
        → a ≢ h.next
        → IsChild j h label a c q
        → IsChild j (grown h p n byte) (relabel label p byte h.next) a c q
    unfolding relabel
    kept-IsChild a c q other child =
        let (m, here, _, _) = grown-Extends q child.node child.holds in
        record {
          node = m;
          holds = here;
          labelled = ground (arith, child.labelled, child.holds, v.fresh q);
        }

    grown-IsChild :
        (a : Ptr) (m : Node A) (c : ℕ) (q : Ptr)
        → (grown h p n byte).cell a ≡ some m
        → get m.branches c ≡ some q
        → IsChild j (grown h p n byte) (relabel label p byte h.next) a c q
    unfolding grown relabel zeroed
    grown-IsChild a m c q here child = elim (Bool-cases (p == a)) [
      | inl hit ↦ elim (Bool-cases (byte == c)) [
        | inl new ↦ record {
          node = record zeroed { parent = p; child_id = byte };
          holds = ground (arith, get-ins n.branches byte h.next c, p-ne-next);
          labelled = ground (arith, get-ins n.branches byte h.next c, p-ne-next);
        }
        | inr old ↦
            kept-IsChild a c q (ground (arith, p-ne-next))
              (v.child a n c q (ground arith) (ground (arith, get-ins n.branches byte h.next c)))
      ]
      | inr miss ↦ elim (Bool-cases (h.next == a)) [
        | inl fresh ↦ absurd (ground (arith, get-nil c))
        | inr old ↦ kept-IsChild a c q (ground arith) (v.child a m c q (ground arith) child)
      ]
    ]

    pub grown-Inv : Inv j (grown h p n byte) (relabel label p byte h.next)
    unfolding grown
    grown-Inv = record {
      next_pos = omega arith;
      null = ground (arith, v.null, v.next_pos);
      fresh = λ a le. ground (arith, v.fresh a, p-ne-next);
      child = grown-IsChild;
    }

    -- The new node has no values.
    stored_at-new :
        (prefix : List ℕ) (len : ℕ) → stored_at j prefix len h.next (grown h p n byte) ≡ none
    unfolding grown zeroed
    stored_at-new =
        stored_at-empty j _ h.next (record zeroed { parent = p; child_id = byte })
          (ground (arith, p-ne-next)) get-nil get-nil

    -- Where a node had no child it has none, or it has the new one.
    grown-bare :
        (r : Ptr) (m m' : Node A) (b : ℕ)
        → h.cell r ≡ some m
        → (grown h p n byte).cell r ≡ some m'
        → get m.branches b ≡ none
        → (get m'.branches b ≡ none) ⊎ (get m'.branches b ≡ some h.next)
    unfolding grown
    grown-bare r m m' b here there bare = elim (Bool-cases (p == r)) [
      | inl hit ↦ elim (Bool-cases (byte == b)) [
        | inl new ↦ inr (ground (arith, get-ins n.branches byte h.next b))
        | inr old ↦ inl (ground (arith, get-ins n.branches byte h.next b))
      ]
      | inr miss ↦ inl (ground (arith, v.fresh r))
    ]

    pub grown-SameStored : SameStored j h (grown h p n byte)
    grown-SameStored r m here [] len =
        let (m', there, same, _) = grown-Extends r m here in rw (here, there, same)
    grown-SameStored r m here (b ∷ rest) len =
        let (m', there, same, keep) = grown-Extends r m here in
        elim (Option-cases (get m.branches b)) [
          | inl bare ↦ elim (grown-bare r m m' b here there bare) [
            | inl still ↦ rw (here, there, same, bare, still)
            | inr new ↦ rw (here, there, same, bare, new, stored_at-new rest (len - 8))
          ]
          | inr (q, found) ↦
              let c = v.child r m b q here found in
              let below = grown-SameStored q c.node c.holds rest (len - 8) in
              rw (here, there, same, found, keep b q found, below)
        ]
