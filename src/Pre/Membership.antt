-- ===== src/Pre/Membership.antt =====
-- Nodes joining and leaving groups.
use behavioral_model.Base.{
  ℕ, ◌≡◌, ◌≢◌, ◌↔◌, refl, sym, ap, ◌∙◌, inl, inr, true, Option, some, List, [], ◌∷◌, ◌++◌, ◌==◌,
  if◌then◌else◌, arith, ==_refl, ==_ne,
}
use native.Mathlib.Decide.{ℕ_discrete}
use mathlib.Core.List.{Memᴰ}
use mathlib.Core.List.Memᴰ
use behavioral_model.Judy.{Judy1}
use behavioral_model.Handles.{valid_handle}
use behavioral_model.Pre.{
  success, MgidEntry, L1Entry, Pre, no_l1, no_group, without, mc_node_associate, mc_node_dissociate,
}
use behavioral_model.Pre.Maps.{find, put, get_or, find-put, get_or-find}
use behavioral_model.Pre.Nodes.{Inv}

-- std::remove takes the handle away and leaves the others.
without-Mem : (xs : List ℕ) (h x : ℕ) → Memᴰ x (without xs h) ↔ (Memᴰ x xs × (x ≢ h))
unfolding without
without-Mem [] h x = ((λ m. absurd (Memᴰ.not-nil m)), (λ m. absurd (Memᴰ.not-nil m.0)))
without-Mem (y ∷ xs) h x =
    let rest = without-Mem xs h x in
    elim (ℕ_discrete y h) [
      | yes same ↦
          rw (same, ==_refl h)
            (
              (λ m. let (old, ne) = rest.0 m in (Memᴰ.tail old, ne)),
              (λ m. elim (Memᴰ.cases_cons m.0) [
                | inl e ↦ absurd (m.1 e)
                | inr old ↦ rest.1 (old, m.1)
              ]),
            )
      | no other ↦ rw (==_ne y h other) (
        (λ m. elim (Memᴰ.cases_cons m) [
          | inl e ↦ (Memᴰ.head e, λ e'. other (sym e ∙ e'))
          | inr old ↦ let (was, ne) = rest.0 old in (Memᴰ.tail was, ne)
        ]),
        (λ m. elim (Memᴰ.cases_cons m.0) [
          | inl e ↦ Memᴰ.head e
          | inr old ↦ Memᴰ.tail (rest.1 (old, m.1))
        ]),
      )
    ]

find_self :
    (k : ℕ) (x : MgidEntry) (now was : Option MgidEntry)
    → now ≡ (if k == k then some x else was)
    → now ≡ some x
find_self k x now was e = ground (arith, e)

find_other :
    (k i : ℕ) (x : MgidEntry) (now was : Option MgidEntry)
    → k ≢ i
    → now ≡ (if k == i then some x else was)
    → now ≡ was
find_other k i x now was other e = ground (arith, e, other)

module _ {A : Type 0} (j : Judy1 A) where
  -- Another group is written in a node, and the groups change.
  relabelled-Inv :
      (p : Pre A) (h : ℕ) (node : L1Entry) (group : ℕ) (groups : List (ℕ × MgidEntry))
      → Inv j p
      → find p.l1_entries h ≡ some node
      → Inv j (record p {
        mgid_entries = groups;
        l1_entries = put p.l1_entries h (record node { mgrp_hdl = group });
      })
  relabelled-Inv p h node group groups v there = record {
    l1_there = λ i on. elim (ℕ_discrete h i) [
      | yes same ↦ (
        record node { mgrp_hdl = group },
        let is = find-put p.l1_entries h i (record node { mgrp_hdl = group }) in
            ground (arith, is, same),
      )
      | no other ↦
          let (x, e) = v.l1_there i on in
          (
            x,
            let is = find-put p.l1_entries h i (record node { mgrp_hdl = group }) in
                ground (arith, is, e, other),
          )
    ];
    l1_used = λ i x e. elim (ℕ_discrete h i) [
      | yes same ↦ rw (← same) (v.l1_used h node there)
      | no other ↦ v.l1_used i x (
          let is = find-put p.l1_entries h i (record node { mgrp_hdl = group }) in
          ground (arith, is, e, other))
    ];
    l2_used = v.l2_used;
    l2_there = λ i x e. elim (ℕ_discrete h i) [
      | yes same ↦
          let (below, below_there, named) = v.l2_there h node there in
          let is = find-put p.l1_entries h i (record node { mgrp_hdl = group }) in
          let x_is : record node { mgrp_hdl = group } ≡ x = ground (arith, is, e, same) in
          let at : x.l2_hdl ≡ node.l2_hdl = ap (λ (y : L1Entry). y.l2_hdl) (sym x_is) in
          (below, ap (find p.l2_entries) at ∙ below_there, named ∙ same)
      | no other ↦ v.l2_there i x (
          let is = find-put p.l1_entries h i (record node { mgrp_hdl = group }) in
          ground (arith, is, e, other))
    ];
  }

  -- The engine after the list of a group is replaced, and the group of a node.
  regrouped : Pre A → ℕ → MgidEntry → List ℕ → ℕ → L1Entry → ℕ → Pre A
  regrouped p mgrp_hdl group l1_list h node owner = record p {
    mgid_entries = put p.mgid_entries mgrp_hdl (record group { l1_list = l1_list });
    l1_entries = put p.l1_entries h (record node { mgrp_hdl = owner });
  }

  regrouped-Inv :
      (p : Pre A) (mgrp_hdl : ℕ) (group : MgidEntry) (l1_list : List ℕ) (h : ℕ) (node : L1Entry)
      (owner : ℕ)
      → Inv j p
      → find p.l1_entries h ≡ some node
      → Inv j (regrouped p mgrp_hdl group l1_list h node owner)
  unfolding regrouped
  regrouped-Inv p mgrp_hdl group l1_list h node owner v there =
      relabelled-Inv p h node owner
        (put p.mgid_entries mgrp_hdl (record group { l1_list = l1_list })) v there

  regrouped-node :
      (p : Pre A) (mgrp_hdl : ℕ) (group : MgidEntry) (l1_list : List ℕ) (h : ℕ) (node : L1Entry)
      (owner : ℕ)
      → find (regrouped p mgrp_hdl group l1_list h node owner).l1_entries h
        ≡ some (record node { mgrp_hdl = owner })
  unfolding regrouped
  regrouped-node p mgrp_hdl group l1_list h node owner =
      let is = find-put p.l1_entries h h (record node { mgrp_hdl = owner }) in ground (arith, is)

  regrouped-find :
      (p : Pre A) (mgrp_hdl : ℕ) (group : MgidEntry) (l1_list : List ℕ) (h : ℕ) (node : L1Entry)
      (owner i : ℕ)
      → find (regrouped p mgrp_hdl group l1_list h node owner).mgid_entries i ≡ (
          if mgrp_hdl == i
          then some (record group { l1_list = l1_list })
          else find p.mgid_entries i)
  unfolding regrouped
  regrouped-find p mgrp_hdl group l1_list h node owner i =
      find-put p.mgid_entries mgrp_hdl i (record group { l1_list = l1_list })

  associate-run :
      (p : Pre A) (mgrp_hdl h : ℕ) (group : MgidEntry) (node : L1Entry)
      → valid_handle j p.l1_handles h ≡ true
      → get_or p.mgid_entries mgrp_hdl no_group ≡ group
      → find p.l1_entries h ≡ some node
      → mc_node_associate j p mgrp_hdl h
        ≡ (success, regrouped p mgrp_hdl group (group.l1_list ++ (h ∷ [])) h node mgrp_hdl)
  unfolding mc_node_associate regrouped
  associate-run p mgrp_hdl h group node on reads there =
      let reads_node = get_or-find p.l1_entries h no_l1 node there in
      rw on (rw reads (rw reads_node refl))

  dissociate-run :
      (p : Pre A) (mgrp_hdl h : ℕ) (group : MgidEntry) (node : L1Entry)
      → valid_handle j p.l1_handles h ≡ true
      → get_or p.mgid_entries mgrp_hdl no_group ≡ group
      → find p.l1_entries h ≡ some node
      → mc_node_dissociate j p mgrp_hdl h
        ≡ (success, regrouped p mgrp_hdl group (without group.l1_list h) h node 0)
  unfolding mc_node_dissociate regrouped
  dissociate-run p mgrp_hdl h group node on reads there =
      let reads_node = get_or-find p.l1_entries h no_l1 node there in
      rw on (rw reads (rw reads_node refl))

  -- Associating a valid handle with a group appends it to the group, which is made where there is
  -- none; dissociating it afterwards leaves the group with every other handle that it had and without
  -- this one. Both succeed, keep the invariant and leave the other groups.
  pub mc_node_associate-dissociate :
      (p : Pre A) (mgrp_hdl h : ℕ)
      → Inv j p
      → valid_handle j p.l1_handles h ≡ true
      → (p1 p2 : Pre A) × (joined left : MgidEntry) × (mc_node_associate j p mgrp_hdl h
          ≡ (success, p1))
        × (find p1.mgid_entries mgrp_hdl ≡ some joined)
        × (joined.l1_list ≡ (get_or p.mgid_entries mgrp_hdl no_group).l1_list ++ (h ∷ []))
        × (mc_node_dissociate j p1 mgrp_hdl h ≡ (success, p2))
        × (find p2.mgid_entries mgrp_hdl ≡ some left)
        × ((x : ℕ) → Memᴰ x left.l1_list ↔ (Memᴰ x joined.l1_list × (x ≢ h)))
        × ((i : ℕ) → mgrp_hdl ≢ i → find p2.mgid_entries i ≡ find p.mgid_entries i)
        × Inv j p1
        × Inv j p2
  unfolding valid_handle regrouped
  mc_node_associate-dissociate p mgrp_hdl h v on =
      let (node, there) = v.l1_there h on in
      let group = get_or p.mgid_entries mgrp_hdl no_group in
      let joined : MgidEntry = record group { l1_list = group.l1_list ++ (h ∷ []) } in
      let p1 = regrouped p mgrp_hdl group (group.l1_list ++ (h ∷ [])) h node mgrp_hdl in
      let node1 : L1Entry = record node { mgrp_hdl = mgrp_hdl } in
      let there1 = regrouped-node p mgrp_hdl group (group.l1_list ++ (h ∷ [])) h node mgrp_hdl in
      let v1 = regrouped-Inv p mgrp_hdl group (group.l1_list ++ (h ∷ [])) h node mgrp_hdl v there in
      let found1 : find p1.mgid_entries mgrp_hdl ≡ some joined =
        find_self mgrp_hdl joined (find p1.mgid_entries mgrp_hdl) (find p.mgid_entries mgrp_hdl)
          (regrouped-find p mgrp_hdl group (group.l1_list ++ (h ∷ [])) h node mgrp_hdl mgrp_hdl) in
      let left : MgidEntry = record joined { l1_list = without joined.l1_list h } in
      let p2 = regrouped p1 mgrp_hdl joined (without joined.l1_list h) h node1 0 in
      (
        p1,
        p2,
        joined,
        left,
        associate-run p mgrp_hdl h group node on refl there,
        found1,
        refl,
        dissociate-run p1 mgrp_hdl h joined node1 on
            (get_or-find p1.mgid_entries mgrp_hdl no_group joined found1) there1,
        find_self mgrp_hdl left (find p2.mgid_entries mgrp_hdl) (find p1.mgid_entries mgrp_hdl)
            (regrouped-find p1 mgrp_hdl joined (without joined.l1_list h) h node1 0 mgrp_hdl),
        without-Mem joined.l1_list h,
        λ i other.
            find_other mgrp_hdl i left (find p2.mgid_entries i) (find p1.mgid_entries i) other
              (regrouped-find p1 mgrp_hdl joined (without joined.l1_list h) h node1 0 i)
            ∙ find_other mgrp_hdl i joined (find p1.mgid_entries i) (find p.mgid_entries i) other
                (regrouped-find p mgrp_hdl group (group.l1_list ++ (h ∷ [])) h node mgrp_hdl i),
        v1,
        regrouped-Inv p1 mgrp_hdl joined (without joined.l1_list h) h node1 0 v1 there1,
      )
