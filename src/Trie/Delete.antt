-- ===== src/Trie/Delete.antt =====
-- bf_lpm_trie_delete where the prefix is absent, and on a trie that does not release memory.
use behavioral_model.Base.{ℕ, ◌≡◌, false, none, some, List, is_some, arith}
use behavioral_model.Judy.{JudyL}
use behavioral_model.Trie.{Heap, Trie, delete, get_prefix}
use behavioral_model.Trie.Shape.{IsTrie, stored_at, Fits}
use behavioral_model.Trie.Paths.{stored_at-follow}
use behavioral_model.Trie.SamePrefix.{key_of-some}
use behavioral_model.Trie.Enter.{load-cell}
use behavioral_model.Trie.Member.{Lands, misses, ends, descend-Lands}

module _ {A : Type 0} (j : JudyL A) where
  open j use {get}

  module _ (t : Trie) (h : Heap A) (prefix : List ℕ) (len : ℕ) (is : IsTrie j t.root h)
      (fits : Fits prefix len) where
    absent-Lands :
        Lands j h prefix len t.root
        → stored_at j prefix len t.root h ≡ none
        → delete j t prefix len h ≡ some (false, h)
    unfolding delete get_prefix
    absent-Lands (misses run gone) absent = rw run
    absent-Lands (ends c n run path holds key) absent =
        let (k, e) = key_of-some prefix len fits in
        let bare : get n.prefixes k ≡ none =
          rw (stored_at-follow j prefix len t.root h, path, holds, e) at absent in
        rw (run, key, e, load-cell j is.inv c.current_node n holds, bare)

    kept-Lands :
        Lands j h prefix len t.root
        → t.release_memory ≡ false
        → delete j t prefix len h ≡ some (is_some (stored_at j prefix len t.root h), h)
    unfolding delete get_prefix
    kept-Lands (misses run gone) off = rw (stored_at-follow j prefix len t.root h, run, gone)
    kept-Lands (ends c n run path holds key) off =
        let (k, e) = key_of-some prefix len fits in
        rw
          (
            stored_at-follow j prefix len t.root h,
            run,
            path,
            key,
            holds,
            e,
            load-cell j is.inv c.current_node n holds,
          )
          (ground (arith, off))

  -- Deleting a prefix that has no value returns false and changes nothing, in both modes.
  pub delete-absent :
      (t : Trie) (h : Heap A) (prefix : List ℕ) (len : ℕ)
      → IsTrie j t.root h
      → Fits prefix len
      → stored_at j prefix len t.root h ≡ none
      → delete j t prefix len h ≡ some (false, h)
  delete-absent t h prefix len is fits =
      absent-Lands t h prefix len is fits
        (descend-Lands j is.inv prefix len t.root is.node fits is.holds)

  -- On a trie created without auto_shrink, delete answers whether the prefix has a value and leaves the
  -- memory as it was: the prefix keeps its value.
  pub delete-keeps :
      (t : Trie) (h : Heap A) (prefix : List ℕ) (len : ℕ)
      → IsTrie j t.root h
      → Fits prefix len
      → t.release_memory ≡ false
      → delete j t prefix len h ≡ some (is_some (stored_at j prefix len t.root h), h)
  delete-keeps t h prefix len is fits =
      kept-Lands t h prefix len is fits
        (descend-Lands j is.inv prefix len t.root is.node fits is.holds)
