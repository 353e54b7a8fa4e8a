-- ===== src/Pre/Nodes.antt =====
-- The nodes of the replication engine: what holds of them between calls, and how they come and go.
use behavioral_model.Base.{
  ℕ, ◌^◌, ◌<◌, ◌≡◌, ◌≢◌, refl, ap, ◌∙◌, inl, inr, ◌⊎◌, Bool, true, false, none, some, List, ◌==◌,
  if◌then◌else◌, arith, length, Option-cases, leb-false,
}
use native.Mathlib.Decide.{ℕ_discrete}
use behavioral_model.Judy.{Judy1}
use behavioral_model.Handles.{get_handle}
use behavioral_model.Handles.Allocation.{get_handle-set}
use behavioral_model.Pre.{success, L1Entry, L2Entry, Pre, no_l1, store_node, mc_node_create}
use behavioral_model.Pre.Maps.{find, insert, find-put, find-insert, get_or-find}

module _ {A : Type 0} (j : Judy1 A) where
  open j use {test, set, unset, count, test-set, test-unset}

  -- The handles in use are those of the entries; each node has an entry below it, which names the
  -- node.
  pub record Inv (p : Pre A) : Type 0 where
    pub l1_there :
        (h : ℕ) → test p.l1_handles h ≡ true → (node : L1Entry) × (find p.l1_entries h ≡ some node)
    pub l1_used :
        (h : ℕ) (node : L1Entry) → find p.l1_entries h ≡ some node → test p.l1_handles h ≡ true
    pub l2_used :
        (h : ℕ) (below : L2Entry) → find p.l2_entries h ≡ some below → test p.l2_handles h ≡ true
    pub l2_there :
        (h : ℕ) (node : L1Entry)
        → find p.l1_entries h ≡ some node
        → (below : L2Entry) × (find p.l2_entries node.l2_hdl ≡ some below) × (below.l1_hdl ≡ h)

  -- The entry that a new node gets.
  abbrev pub new_node : ℕ → ℕ → L1Entry
  new_node rid l2_hdl = record { mgrp_hdl = 0; rid = rid; l2_hdl = l2_hdl }

  abbrev pub new_below : ℕ → List Bool → L2Entry
  new_below l1_hdl port_map = record { l1_hdl = l1_hdl; port_map = port_map }

  -- What a call that makes a node leaves: the node under its new handle, and the others as they were.
  pub record Created (p : Pre A) (rid : ℕ) (port_map : List Bool) (l1_hdl : ℕ) (p' : Pre A)
      : Type 0 where
    pub inv : Inv p'
    pub was_free : test p.l1_handles l1_hdl ≡ false
    pub l2_hdl : ℕ
    pub l1_after :
        (i : ℕ)
        → find p'.l1_entries i
          ≡ (if l1_hdl == i then some (new_node rid l2_hdl) else find p.l1_entries i)
    pub l2_after :
        (i : ℕ)
        → find p'.l2_entries i
          ≡ (if l2_hdl == i then some (new_below l1_hdl port_map) else find p.l2_entries i)
    pub same_groups : p'.mgid_entries ≡ p.mgid_entries

  unused : (p : Pre A) → Inv p → (h : ℕ) → test p.l1_handles h ≡ false → find p.l1_entries h ≡ none
  unused p v h free = elim (Option-cases (find p.l1_entries h)) [
    | inl e ↦ e
    | inr (node, e) ↦ absurd (cc (v.l1_used h node e, free))
  ]

  unused_below :
      (p : Pre A) → Inv p → (h : ℕ) → test p.l2_handles h ≡ false → find p.l2_entries h ≡ none
  unused_below p v h free = elim (Option-cases (find p.l2_entries h)) [
    | inl e ↦ e
    | inr (node, e) ↦ absurd (cc (v.l2_used h node e, free))
  ]

  module _ (p : Pre A) (v : Inv p) (rid : ℕ) (port_map : List Bool) (h l2 : ℕ)
      (free : test p.l1_handles h ≡ false) (free_below : test p.l2_handles l2 ≡ false) where
    abbrev after : Pre A
    after =
        store_node j
          (record p { l1_handles = set p.l1_handles h; l2_handles = set p.l2_handles l2 }) rid
          port_map h l2

    after-l1 :
        (i : ℕ)
        → find after.l1_entries i ≡ (if h == i then some (new_node rid l2) else find p.l1_entries i)
    unfolding store_node
    after-l1 i =
        let there = find-insert p.l1_entries h h (new_node rid 0) (unused p v h free) in
        let read =
          get_or-find (insert p.l1_entries h (new_node rid 0)) h no_l1 (new_node rid 0)
            (ground (arith, there)) in
        rw read (
          ground (
            arith,
            find-put (insert p.l1_entries h (new_node rid 0)) h i (new_node rid l2),
            find-insert p.l1_entries h i (new_node rid 0) (unused p v h free),
          ))

    after-l2 :
        (i : ℕ)
        → find after.l2_entries i
          ≡ (if l2 == i then some (new_below h port_map) else find p.l2_entries i)
    unfolding store_node
    after-l2 i =
        find-insert p.l2_entries l2 i (new_below h port_map) (unused_below p v l2 free_below)

    after-handles :
        (i : ℕ) → test after.l1_handles i ≡ (if h == i then true else test p.l1_handles i)
    unfolding store_node
    after-handles i = test-set p.l1_handles h i

    after-handles_below :
        (i : ℕ) → test after.l2_handles i ≡ (if l2 == i then true else test p.l2_handles i)
    unfolding store_node
    after-handles_below i = test-set p.l2_handles l2 i

    was_there :
        (i : ℕ) (node : L1Entry)
        → find after.l1_entries i ≡ some node
        → ((h ≡ i) × (node ≡ new_node rid l2)) ⊎ ((h ≢ i) × (find p.l1_entries i ≡ some node))
    was_there i node e = elim (ℕ_discrete h i) [
      | yes same ↦ inl (same, let is = after-l1 i in ground (arith, is, e, same))
      | no other ↦ inr (other, let is = after-l1 i in ground (arith, is, e, other))
    ]

    keeps_below :
        (i : ℕ) (node : L1Entry)
        → find p.l1_entries i ≡ some node
        → (below : L2Entry) × (find after.l2_entries node.l2_hdl ≡ some below) × (below.l1_hdl ≡ i)
    keeps_below i node e =
        let (below, there, named) = v.l2_there i node e in
        let used = v.l2_used node.l2_hdl below there in
        let is = after-l2 node.l2_hdl in (below, ground (arith, is, there, used, free_below), named)

    after-Inv : Inv after
    after-Inv = record {
      l1_there = λ i on. elim (ℕ_discrete h i) [
        | yes same ↦ (new_node rid l2, let is = after-l1 i in ground (arith, is, same))
        | no other ↦
            let (node, e) =
              v.l1_there i (let was = after-handles i in ground (arith, was, on, other)) in
            (node, let is = after-l1 i in ground (arith, is, e, other))
      ];
      l1_used = λ i node e. elim (was_there i node e) [
        | inl (same, _) ↦ let now = after-handles i in ground (arith, now, same)
        | inr (other, old) ↦
            let used = v.l1_used i node old in
            let now = after-handles i in ground (arith, now, used)
      ];
      l2_used = λ i below e. elim (ℕ_discrete l2 i) [
        | yes same ↦ let now = after-handles_below i in ground (arith, now, same)
        | no other ↦
            let used = v.l2_used i below (let is = after-l2 i in ground (arith, is, e, other)) in
            let now = after-handles_below i in ground (arith, now, used)
      ];
      l2_there = λ i node e. elim (was_there i node e) [
        | inl (same, is) ↦
            let at : node.l2_hdl ≡ l2 = ap (λ (x : L1Entry). x.l2_hdl) is in
            (
              new_below h port_map,
              ap (find after.l2_entries) at ∙ (let now = after-l2 l2 in ground (arith, now)),
              same,
            )
        | inr (other, old) ↦ keeps_below i node old
      ];
    }

    after-Created : Created p rid port_map h after
    unfolding store_node
    after-Created = record {
      inv = after-Inv;
      was_free = free;
      l2_hdl = l2;
      l1_after = after-l1;
      l2_after = after-l2;
      same_groups = refl;
    }

  create-run :
      (p : Pre A) (rid : ℕ) (port_map : List Bool) (h l2 : ℕ)
      → length p.l1_entries < 4096
      → length p.l2_entries < 8192
      → get_handle j p.l1_handles ≡ some (h, set p.l1_handles h)
      → get_handle j p.l2_handles ≡ some (l2, set p.l2_handles l2)
      → mc_node_create j p rid port_map ≡ (
        success,
        h,
        store_node j
            (record p { l1_handles = set p.l1_handles h; l2_handles = set p.l2_handles l2 })
            rid
            port_map
            h
            l2,
      )
  unfolding mc_node_create
  create-run p rid port_map h l2 room room_below gets gets_below =
      simp
        (
          leb-false 4096 (length p.l1_entries) room,
          leb-false 8192 (length p.l2_entries) room_below,
          gets,
          gets_below,
          mc_node_create,
        )
        refl

  -- Below the limits on nodes, mc_node_create succeeds: the new handle was free, it names a node with
  -- the replication id and the ports given, all other nodes and the groups are as before, and the
  -- invariant holds.
  pub mc_node_create-Created :
      (p : Pre A) (rid : ℕ) (port_map : List Bool)
      → Inv p
      → length p.l1_entries < 4096
      → length p.l2_entries < 8192
      → count p.l1_handles < 2 ^ 64
      → count p.l2_handles < 2 ^ 64
      → (l1_hdl : ℕ) × (p' : Pre A) × (mc_node_create j p rid port_map ≡ (success, l1_hdl, p'))
        × Created p rid port_map l1_hdl p'
  mc_node_create-Created p rid port_map v room room_below few few_below =
      let (h, gets, free, _) = get_handle-set j p.l1_handles few in
      let (l2, gets_below, free_below, _) = get_handle-set j p.l2_handles few_below in
      (
        h,
        _,
        create-run p rid port_map h l2 room room_below gets gets_below,
        after-Created p v rid port_map h l2 free free_below,
      )
