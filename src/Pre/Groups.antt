-- ===== src/Pre/Groups.antt =====
-- Groups of nodes: what replicate gives, and what becomes of a group when a node is destroyed.
use behavioral_model.Base.{
  ℕ, ◌≡◌, ◌≢◌, ◌↔◌, refl, sym, ap, ◌∙◌, true, false, none, some, List, ◌==◌, if◌then◌else◌, arith,
}
use mathlib.Core.List.{Memᴰ}
use behavioral_model.Judy.{Judy1}
use behavioral_model.Handles.{release_handle, valid_handle}
use behavioral_model.Pre.{
  success, McOut, MgidEntry, L1Entry, L2Entry, Pre, no_l1, mc_node_destroy, node_copies, replicate,
}
use behavioral_model.Pre.Maps.{find, erase, put, find-erase, find-put, get_or-find}
use behavioral_model.Pre.Replicate.{Placed, IsCopy, Copies, node_copies-Copies, node_copies-gone}
use behavioral_model.Pre.Nodes.{Inv}

module _ {A : Type 0} (j : Judy1 A) where
  open j use {test, set, unset, test-unset}

  Inv-Placed :
      (p : Pre A)
      → Inv j p
      → (h : ℕ) → valid_handle j p.l1_handles h ≡ true
      → Placed p.l1_entries p.l2_entries h
  unfolding valid_handle
  Inv-Placed p v h on =
      let (node, there) = v.l1_there h on in
      let (below, below_there, _) = v.l2_there h node there in
      record { node = node; below = below; node_there = there; below_there = below_there }

  replicate-run :
      (p : Pre A) (mgid : ℕ) (group : MgidEntry)
      → find p.mgid_entries mgid ≡ some group
      → replicate p mgid ≡ node_copies p.l1_entries p.l2_entries group.l1_list
  unfolding replicate
  replicate-run p mgid group e = rw (e, replicate) refl

  -- For a group whose nodes all have valid handles, replicate throws no exception, and its copies are
  -- exactly the pairs of the replication id of a node of the group and of a port set in the map of
  -- this node.
  pub replicate-IsCopy :
      (p : Pre A) (mgid : ℕ) (group : MgidEntry)
      → Inv j p
      → find p.mgid_entries mgid ≡ some group
      → ((h : ℕ) → Memᴰ h group.l1_list → valid_handle j p.l1_handles h ≡ true)
      → (copies : List McOut) × (replicate p mgid ≡ some copies)
        × ((o : McOut) → Memᴰ o copies ↔ IsCopy p.l1_entries p.l2_entries group.l1_list o)
  unfolding Copies
  replicate-IsCopy p mgid group v found valid =
      let (copies, run, are) =
        node_copies-Copies p.l1_entries p.l2_entries group.l1_list
          (λ h m. Inv-Placed p v h (valid h m)) in
      (copies, replicate-run p mgid group found ∙ run, are)

  -- What the destruction of a node leaves: its handle is free, it is gone, and the other nodes and the
  -- groups are as before.
  pub record Destroyed (p : Pre A) (h : ℕ) (p' : Pre A) : Type 0 where
    pub inv : Inv j p'
    pub valid_after :
        (i : ℕ)
        → valid_handle j p'.l1_handles i ≡ (if h == i then false else valid_handle j p.l1_handles i)
    pub l1_after : (i : ℕ) → find p'.l1_entries i ≡ (if h == i then none else find p.l1_entries i)
    pub same_groups : p'.mgid_entries ≡ p.mgid_entries

  module _ (p : Pre A) (v : Inv j p) (h : ℕ) (on : test p.l1_handles h ≡ true) (node : L1Entry)
      (there : find p.l1_entries h ≡ some node) where
    abbrev after : Pre A
    after = record p {
      l1_entries = erase (put p.l1_entries h node) h;
      l2_entries = erase p.l2_entries node.l2_hdl;
      l1_handles = unset p.l1_handles h;
      l2_handles = unset p.l2_handles node.l2_hdl;
    }

    after-l1 : (i : ℕ) → find after.l1_entries i ≡ (if h == i then none else find p.l1_entries i)
    after-l1 i =
        ground (arith, find-erase (put p.l1_entries h node) h i, find-put p.l1_entries h i node)

    was_there :
        (i : ℕ) (x : L1Entry)
        → find after.l1_entries i ≡ some x
        → (h ≢ i) × (find p.l1_entries i ≡ some x)
    was_there i x e = let is = after-l1 i in (ground (arith, is, e), ground (arith, is, e))

    keeps_below :
        (i : ℕ) (x : L1Entry)
        → h ≢ i
        → find p.l1_entries i ≡ some x
        → (below : L2Entry) × (find after.l2_entries x.l2_hdl ≡ some below) × (below.l1_hdl ≡ i)
    keeps_below i x other e =
        let (below, there', named) = v.l2_there i x e in
        let (mine, mine_there, mine_named) = v.l2_there h node there in
        let apart : node.l2_hdl ≢ x.l2_hdl = λ same.
          let same_below : mine ≡ below = cc (same, there', mine_there) in
          other (sym mine_named ∙ ap (λ (y : L2Entry). y.l1_hdl) same_below ∙ named) in
        let is = find-erase p.l2_entries node.l2_hdl x.l2_hdl in
        (below, ground (arith, is, there', apart), named)

    after-Inv : Inv j after
    after-Inv = record {
      l1_there = λ i on'.
          let was = test-unset p.l1_handles h i in
          let (x, e) = v.l1_there i (ground (arith, was, on')) in
          (x, let is = after-l1 i in ground (arith, is, e, was, on'));
      l1_used = λ i x e.
          let (other, old) = was_there i x e in
          let used = v.l1_used i x old in
          let now = test-unset p.l1_handles h i in ground (arith, now, used, other);
      l2_used = λ i below e.
          let is = find-erase p.l2_entries node.l2_hdl i in
          let used = v.l2_used i below (ground (arith, is, e)) in
          let now = test-unset p.l2_handles node.l2_hdl i in ground (arith, now, used, is, e);
      l2_there = λ i x e. let (other, old) = was_there i x e in keeps_below i x other old;
    }

    destroy-run : mc_node_destroy j p h ≡ (success, after)
    unfolding mc_node_destroy valid_handle release_handle
    destroy-run =
        let reads = get_or-find p.l1_entries h no_l1 node there in
        let (below, below_there, _) = v.l2_there h node there in
        let used = v.l2_used node.l2_hdl below below_there in rw on (rw reads (rw used refl))

  -- Destroying a node by its handle succeeds and leaves the other nodes, the groups and the invariant;
  -- the groups keep the handle, so that in the state right after it replicate throws an exception for
  -- each group that has the node.
  pub mc_node_destroy-Destroyed :
      (p : Pre A) (h : ℕ)
      → Inv j p
      → valid_handle j p.l1_handles h ≡ true
      → (p' : Pre A) × (mc_node_destroy j p h ≡ (success, p'))
        × Destroyed p h p'
        × ((mgid : ℕ) (group : MgidEntry)
            → find p.mgid_entries mgid ≡ some group
            → Memᴰ h group.l1_list
            → replicate p' mgid ≡ none)
  unfolding valid_handle
  mc_node_destroy-Destroyed p h v on =
      let (node, there) = v.l1_there h on in
      let gone : find (after p v h on node there).l1_entries h ≡ none =
        (let is = after-l1 p v h on node there h in ground (arith, is)) in
      (
        after p v h on node there,
        destroy-run p v h on node there,
        record {
          inv = after-Inv p v h on node there;
          valid_after = test-unset p.l1_handles h;
          l1_after = after-l1 p v h on node there;
          same_groups = refl;
        },
        λ mgid group found m.
            replicate-run (after p v h on node there) mgid group found
            ∙ node_copies-gone (after p v h on node there).l1_entries
                (after p v h on node there).l2_entries h group.l1_list gone m,
      )
