-- ===== src/Trie/Grow.antt =====
-- The loop of insert makes the path to the new prefix, and changes no stored value.
use behavioral_model.Base.{
  ℕ, ◌+◌, ◌-◌, ◌%◌, ◌≡◌, refl, sym, ◌∙◌, inl, inr, true, some, List, [], ◌∷◌, leb, arith,
  Bool-cases, Option-cases,
}
use behavioral_model.Judy.{JudyL}
use behavioral_model.Trie.{Ptr, Node, Heap, Cursor, tail_key, enter, grow}
use behavioral_model.Trie.Shape.{Labels, Inv, Extends, SameStored, Fits, path_of, key_of}
use behavioral_model.Trie.Paths.{follow}
use behavioral_model.Trie.Enter.{
  grown, relabel, enter-grown, enter-old, grown-Extends, grown-Inv, grown-SameStored,
}

module _ {A : Type 0} (j : JudyL A) where
  open j use {get, ins, get-ins}

  abbrev SameLabels : Heap A → Labels → Labels → Type 0
  SameLabels h label label' = (a : Ptr) (n : Node A) → h.cell a ≡ some n → label' a ≡ label a

  -- What entering a child from the node at `p` gives.
  pub record Entered (h : Heap A) (label : Labels) (p : Ptr) (byte : ℕ) : Type 0 where
    pub to : Ptr
    pub heap : Heap A
    pub labels : Labels
    pub run : enter j h p byte ≡ some (to, heap)
    pub inv : Inv j heap labels
    pub extends : Extends j h heap
    pub same : SameStored j h heap
    pub kept : SameLabels h label labels
    pub node : Node A
    pub from : heap.cell p ≡ some node
    pub linked : get node.branches byte ≡ some to

  Extends-refl : (h : Heap A) → Extends j h h
  Extends-refl h p n here = (n, here, refl, λ byte q found. found)

  pub Extends-trans : (f g h : Heap A) → Extends j f g → Extends j g h → Extends j f h
  Extends-trans f g h fg gh p n here =
      let (m, there, same, keep) = fg p n here in
      let (k, far, same', keep') = gh p m there in
      (k, far, same' ∙ same, λ byte q found. keep' byte q (keep byte q found))

  pub SameStored-trans :
      (f g h : Heap A) → Extends j f g → SameStored j f g → SameStored j g h → SameStored j f h
  SameStored-trans f g h ext fg gh r n here prefix len =
      let (m, there, _, _) = ext r n here in gh r m there prefix len ∙ fg r n here prefix len

  enter-Entered :
      {h : Heap A} {label : Labels} (v : Inv j h label) (p : Ptr) (n : Node A) (byte : ℕ)
      → h.cell p ≡ some n
      → Entered h label p byte
  unfolding grown relabel
  enter-Entered {h} {label} v p n byte here = elim (Option-cases (get n.branches byte)) [
    | inl bare ↦ record {
      to = h.next;
      heap = grown j h p n byte;
      labels = relabel j label p byte h.next;
      run = enter-grown j v p n byte here bare;
      inv = grown-Inv j v p n byte here bare;
      extends = grown-Extends j v p n byte here bare;
      same = grown-SameStored j v p n byte here bare;
      kept = λ a m there. ground (arith, v.fresh a);
      node = record n {
        branches = ins n.branches byte h.next;
        branch_num = (n.branch_num + 1) % 256;
      };
      from = ground arith;
      linked = ground (arith, get-ins n.branches byte h.next byte);
    }
    | inr (q, found) ↦ record {
      to = q;
      heap = h;
      labels = label;
      run = enter-old j v p n byte q here found;
      inv = v;
      extends = Extends-refl h;
      same = λ r m there prefix len. refl;
      kept = λ a m there. refl;
      node = n;
      from = here;
      linked = found;
    }
  ]

  Entered-node :
      {h : Heap A} {label : Labels} {p : Ptr} {byte : ℕ}
      → (e : Entered h label p byte) → (m : Node A) × (e.heap.cell e.to ≡ some m)
  Entered-node {p} {byte} e =
      let c = e.inv.child p e.node byte e.to e.from e.linked in (c.node, c.holds)

  -- What the loop gives: the cursor stands at the end of the path.
  pub record Grew (h : Heap A) (label : Labels) (prefix : List ℕ) (len : ℕ) (p : Ptr) : Type 0 where
    pub cursor : Cursor
    pub heap : Heap A
    pub labels : Labels
    pub run : grow j prefix len p h ≡ some (cursor, heap)
    pub inv : Inv j heap labels
    pub extends : Extends j h heap
    pub same : SameStored j h heap
    pub kept : SameLabels h label labels
    pub node : Node A
    pub ends : heap.cell cursor.current_node ≡ some node
    pub path : follow j (path_of prefix len) p heap ≡ some cursor.current_node
    pub key : tail_key cursor.rest cursor.left ≡ key_of prefix len

  grow-stops :
      {h : Heap A} {label : Labels} (v : Inv j h label) (prefix : List ℕ) (len : ℕ) (p : Ptr)
      (n : Node A)
      → h.cell p ≡ some n
      → grow j prefix len p h ≡ some (record { current_node = p; rest = prefix; left = len }, h)
      → path_of prefix len ≡ []
      → key_of prefix len ≡ tail_key prefix len
      → Grew h label prefix len p
  grow-stops {h} {label} v prefix len p n here run empty key = record {
    cursor = record { current_node = p; rest = prefix; left = len };
    heap = h;
    labels = label;
    run = run;
    inv = v;
    extends = Extends-refl h;
    same = λ r m there q l. refl;
    kept = λ a m there. refl;
    node = n;
    ends = here;
    path = rw empty;
    key = sym key;
  }

  grow-goes :
      (h : Heap A) (label : Labels) (byte : ℕ) (rest : List ℕ) (len : ℕ) (p : Ptr) (n : Node A)
      → h.cell p ≡ some n
      → leb 8 len ≡ true
      → (e : Entered h label p byte) → Grew e.heap e.labels rest (len - 8) e.to
      → Grew h label (byte ∷ rest) len p
  unfolding grow
  grow-goes h label byte rest len p n here more e g = record {
    cursor = g.cursor;
    heap = g.heap;
    labels = g.labels;
    run = rw (more, e.run) g.run;
    inv = g.inv;
    extends = Extends-trans h e.heap g.heap e.extends g.extends;
    same = SameStored-trans h e.heap g.heap e.extends e.same g.same;
    kept = λ a m there.
        let (m', there', _, _) = e.extends a m there in g.kept a m' there' ∙ e.kept a m there;
    node = g.node;
    ends = g.ends;
    path =
        let (m, there, _, keep) = g.extends p e.node e.from in
        rw (more, there, keep byte e.to e.linked) g.path;
    key = rw more g.key;
  }

  pub grow-Grew :
      (prefix : List ℕ) (len : ℕ) (h : Heap A) (label : Labels) (p : Ptr) (n : Node A)
      → Inv j h label
      → Fits prefix len
      → h.cell p ≡ some n
      → Grew h label prefix len p
  unfolding grow
  grow-Grew [] len h label p n v fits here = grow-stops v [] len p n here (rw fits) refl (rw fits)
  grow-Grew (byte ∷ rest) len h label p n v fits here = elim (Bool-cases (leb 8 len)) [
    | inl more ↦
        let e = enter-Entered v p n byte here in
        let (m, there) = Entered-node e in
        grow-goes h label byte rest len p n here more e
          (grow-Grew rest (len - 8) e.heap e.labels e.to m e.inv fits.1 there)
    | inr done ↦ grow-stops v (byte ∷ rest) len p n here (rw done) (rw done) (rw done)
  ]
