-- ===== src/Trie/Create.antt =====
-- bf_lpm_trie_create: a new trie is well formed and empty.
use behavioral_model.Base.{
  ℕ, ◌+◌, ◌≤◌, ◌<◌, ◌≡◌, refl, inl, inr, Bool, none, some, List, [], ◌==◌, if◌then◌else◌, arith,
  Bool-cases, leb-true, leb-false,
}
use behavioral_model.Judy.{JudyL}
use behavioral_model.Trie.{Ptr, Node, Heap, Trie, create}
use behavioral_model.Trie.Shape.{Labels, IsChild, Inv, IsTrie, stored_at, stored_at-empty}
use behavioral_model.Trie.Enter.{zeroed}

module _ {A : Type 0} (j : JudyL A) where
  open j use {nil, get, get-nil}

  -- A new trie: its root, its settings, and no value for any prefix.
  pub record Created (h : Heap A) (width : ℕ) (auto_shrink : Bool) (t : Trie) (h' : Heap A)
      : Type 0 where
    pub at_next : t.root ≡ h.next
    pub width_kept : t.key_width_bytes ≡ width
    pub mode_kept : t.release_memory ≡ auto_shrink
    pub is_trie : IsTrie j t.root h'
    pub empty : (prefix : List ℕ) (len : ℕ) → stored_at j prefix len t.root h' ≡ none

  module _ (h : Heap A) (label : Labels) (v : Inv j h label) where
    abbrev labels : Labels
    labels a = if h.next == a then [] else label a

    abbrev heap : Heap A
    heap = record {
      next = h.next + 1;
      cell = λ a. if h.next == a then some (zeroed j) else h.cell a;
    }

    heap-IsChild :
        (p : Ptr) (n : Node A) (byte : ℕ) (q : Ptr)
        → heap.cell p ≡ some n
        → get n.branches byte ≡ some q
        → IsChild j heap labels p byte q
    unfolding zeroed
    heap-IsChild p n byte q here found = elim (Bool-cases (h.next == p)) [
      | inl new ↦ absurd (ground (arith, get-nil byte))
      | inr old ↦
          let c = v.child p n byte q (ground arith) found in
          record {
            node = c.node;
            holds = ground (arith, c.holds, v.fresh q);
            labelled = ground (arith, c.holds, c.labelled, v.fresh q);
          }
    ]

    heap-Inv : Inv j heap labels
    heap-Inv = record {
      next_pos = omega arith;
      null = ground (arith, v.null, v.next_pos);
      fresh = λ a le. ground (arith, v.fresh a);
      child = heap-IsChild;
    }

    -- In memory where all tries are well formed, creating one for keys of at most 64 bytes passes the
    -- assertion and gives a well-formed trie at a fresh address, with the settings asked for and no
    -- value for any prefix.
    pub create-Created :
        (width : ℕ) (auto_shrink : Bool)
        → width ≤ 64
        → (t : Trie) × (h' : Heap A) × (create j h width auto_shrink ≡ some (t, h'))
          × Created h width auto_shrink t h'
    unfolding create zeroed
    create-Created width auto_shrink small = (
      record { root = h.next; key_width_bytes = width; release_memory = auto_shrink },
      heap,
      rw (leb-true width 64 small),
      record {
        at_next = refl;
        width_kept = refl;
        mode_kept = refl;
        is_trie = record {
          label = labels;
          inv = heap-Inv;
          at_root = ground arith;
          node = zeroed j;
          holds = ground arith;
        };
        empty = stored_at-empty j heap h.next (zeroed j) (ground arith) get-nil get-nil;
      },
    )

  -- A wider key fails the assertion.
  pub create-too_wide :
      (h : Heap A) (width : ℕ) (auto_shrink : Bool)
      → 64 < width
      → create j h width auto_shrink ≡ none
  unfolding create
  create-too_wide h width auto_shrink wide = rw (leb-false width 64 wide)
