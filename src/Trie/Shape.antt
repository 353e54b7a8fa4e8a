-- ===== src/Trie/Shape.antt =====
-- What holds of the heap of a trie between calls, and the map from prefixes to values that a heap
-- stands for.
use behavioral_model.Base.{
  ℕ, ◌-◌, ◌/◌, ◌^◌, ◌&&◌, true, ◌≤◌, ◌<◌, ◌≡◌, Bool, Option, none, some, List, [], ◌∷◌, ◌==◌, leb,
  if◌then◌else◌, ◌>>=◌, Option-cases, inl, inr, arith,
}
use behavioral_model.Judy.{JudyL}
use behavioral_model.Trie.{Ptr, Node, Heap, tail_key}

-- A label for each node: the bytes on the way from the root, last first.
abbrev pub Labels : Type 0
Labels = Ptr → List ℕ

module _ {A : Type 0} (j : JudyL A) where
  open j use {get}

  -- `q` is a node one byte below `p`.
  pub record IsChild (h : Heap A) (label : Labels) (p : Ptr) (byte : ℕ) (q : Ptr) : Type 0 where
    pub node : Node A
    pub holds : h.cell q ≡ some node
    pub labelled : label q ≡ byte ∷ label p

  pub record Inv (h : Heap A) (label : Labels) : Type 0 where
    pub next_pos : 0 < h.next
    pub null : h.cell 0 ≡ none
    pub fresh : (a : Ptr) → h.next ≤ a → h.cell a ≡ none
    pub child :
        (p : Ptr) (n : Node A) (byte : ℕ) (q : Ptr)
        → h.cell p ≡ some n
        → get n.branches byte ≡ some q
        → IsChild h label p byte q

  -- The heap holds a trie with this root.
  pub record IsTrie (root : Ptr) (h : Heap A) : Type 0 where
    pub label : Labels
    pub inv : Inv h label
    pub at_root : label root ≡ []
    pub node : Node A
    pub holds : h.cell root ≡ some node

  -- The value of the prefix that ends in the node, `len` bits behind it.
  abbrev pub value_here : Node A → List ℕ → ℕ → Option ℕ
  value_here n prefix len = tail_key prefix len >>= get n.prefixes

  -- The value of a prefix in the subtree of `p`.
  abbrev pub stored_at : List ℕ → ℕ → Ptr → Heap A → Option ℕ
  stored_at [] len p h = h.cell p >>= (λ n. if leb 8 len then none else value_here n [] len)
  stored_at (byte ∷ rest) len p h = h.cell p >>= (λ n.
      if leb 8 len
      then get n.branches byte >>= (λ q. stored_at rest (len - 8) q h)
      else value_here n (byte ∷ rest) len)

  -- The nodes of `h` are still there in `h'`, with their prefixes and all their children.
  abbrev pub Extends : Heap A → Heap A → Type 0
  Extends h h' =
      (p : Ptr) (n : Node A)
      → h.cell p ≡ some n
      → (n' : Node A) × (h'.cell p ≡ some n')
        × (n'.prefixes ≡ n.prefixes)
        × ((byte : ℕ) (q : Ptr) → get n.branches byte ≡ some q → get n'.branches byte ≡ some q)

  -- No node of `h` has other values below it in `h'`.
  abbrev pub SameStored : Heap A → Heap A → Type 0
  SameStored h h' =
      (r : Ptr) (n : Node A)
      → h.cell r ≡ some n
      → (prefix : List ℕ) (len : ℕ) → stored_at prefix len r h' ≡ stored_at prefix len r h

  -- A node with no children and no prefixes stores nothing.
  pub stored_at-empty :
      (h : Heap A) (p : Ptr) (n : Node A)
      → h.cell p ≡ some n
      → ((k : ℕ) → get n.branches k ≡ none)
      → ((k : ℕ) → get n.prefixes k ≡ none)
      → (prefix : List ℕ) (len : ℕ) → stored_at prefix len p h ≡ none
  stored_at-empty h p n e bare empty [] len = rw e (elim (Option-cases (tail_key [] len)) [
    | inl none' ↦ rw none' (ground arith)
    | inr (k, some') ↦ rw (some', empty k) (ground arith)
  ])
  stored_at-empty h p n e bare empty (b ∷ rest) len =
      rw (e, bare b)
        (elim (Option-cases (tail_key (b ∷ rest) len)) [
          | inl none' ↦ rw none' (ground arith)
          | inr (k, some') ↦ rw (some', empty k) (ground arith)
        ])

-- A key or prefix in memory: bytes, and at least as many bits as are read.
abbrev pub Fits : List ℕ → ℕ → Type 0
Fits [] len = len ≡ 0
Fits (byte ∷ rest) len = (byte < 256) × Fits rest (len - 8)

-- The bytes of a prefix that the loops read whole, and the key of the bits behind them.
abbrev pub path_of : List ℕ → ℕ → List ℕ
path_of [] len = []
path_of (byte ∷ rest) len = if leb 8 len then byte ∷ path_of rest (len - 8) else []

abbrev pub key_of : List ℕ → ℕ → Option ℕ
key_of [] len = if leb 8 len then none else tail_key [] len
key_of (byte ∷ rest) len = if leb 8 len then key_of rest (len - 8) else tail_key (byte ∷ rest) len

-- Two prefixes have the same length and the same bits.
unfoldable pub same_bits : ℕ → List ℕ → List ℕ → Bool
same_bits len [] ys = true
same_bits len (x ∷ xs) [] = true
same_bits len (x ∷ xs) (y ∷ ys) =
    if leb 8 len
    then x == y && same_bits (len - 8) xs ys
    else x / 2 ^ (8 - len) == y / 2 ^ (8 - len)

unfoldable pub same_prefix : List ℕ → ℕ → List ℕ → ℕ → Bool
unfolding same_bits
same_prefix xs len ys len' = len == len' && same_bits len xs ys
