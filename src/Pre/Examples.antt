-- ===== src/Pre/Examples.antt =====
-- The replication engine with one node, of replication id 7 and the port 1, in the group 3.
use behavioral_model.Base.{
  ℕ, ◌≡◌, ◌↔◌, ◌≢◌, ◌++◌, refl, Bool, true, false, none, some, List, [], ◌∷◌, arith,
}
use mathlib.Core.List.{Memᴰ}
use mathlib.Core.List.Memᴰ
use behavioral_model.Judy.Sets.{sets}
use behavioral_model.Handles.{get_handle, valid_handle}
use behavioral_model.Pre.{
  success, McOut, MgidEntry, L1Entry, L2Entry, Pre, store_node, mc_mgrp_create, mc_node_create,
  mc_node_associate, mc_node_dissociate, no_group, mc_node_destroy, port_copies, node_copies,
  replicate,
}
use behavioral_model.Pre.Maps.{find, erase, put, insert, get_or}
use behavioral_model.Pre.Replicate.{IsCopy}
use behavioral_model.Pre.Nodes.{Inv, Created, mc_node_create-Created}
use behavioral_model.Pre.Membership.{mc_node_associate-dissociate}
use behavioral_model.Pre.Groups.{replicate-IsCopy, Destroyed, mc_node_destroy-Destroyed}

abbrev Engine : Type 0
Engine = Pre (List ℕ)

abbrev start : Engine
start = record {
  mgid_entries = [];
  l1_entries = [];
  l2_entries = [];
  l1_handles = [];
  l2_handles = [];
}

start-Inv : Inv sets start
unfolding find
start-Inv = record {
  l1_there = λ h on. absurd (cc on);
  l1_used = λ h node e. absurd (cc e);
  l2_used = λ h below e. absurd (cc e);
  l2_there = λ h node e. absurd (cc e);
}

abbrev ports : List Bool
ports = false ∷ true ∷ []

mc_node_create-Created_example :
    (l1_hdl : ℕ) × (p' : Engine) × (mc_node_create sets start 7 ports ≡ (success, l1_hdl, p'))
    × Created sets start 7 ports l1_hdl p'
mc_node_create-Created_example =
    mc_node_create-Created sets start 7 ports start-Inv (omega arith) (omega arith) (omega arith)
      (omega arith)

abbrev node : L1Entry
node = record { mgrp_hdl = 3; rid = 7; l2_hdl = 0 }

abbrev below : L2Entry
below = record { l1_hdl = 0; port_map = ports }

abbrev group : MgidEntry
group = record { mgid = 3; l1_list = 0 ∷ [] }

abbrev joined : Engine
joined = record {
  mgid_entries = (3, group) ∷ [];
  l1_entries = (0, node) ∷ [];
  l2_entries = (0, below) ∷ [];
  l1_handles = 0 ∷ [];
  l2_handles = 0 ∷ [];
}

-- The calls that lead to this state.
joins :
    mc_node_associate sets (mc_node_create sets (mc_mgrp_create sets start 3).2 7 ports).2 3 0
    ≡ (success, joined)
unfolding mc_node_associate mc_node_create mc_mgrp_create get_handle valid_handle store_node find
    erase put insert get_or
joins = refl

joined-Inv : Inv sets joined
unfolding find
joined-Inv = record {
  l1_there = λ h on. (node, ground (arith, on));
  l1_used = λ h x e. ground (arith, e);
  l2_used = λ h x e. ground (arith, e);
  l2_there = λ h x e.
      let same : node ≡ x = ground (arith, e) in
      let zero_is : 0 ≡ h = ground (arith, e) in (below, rw (← same) refl, zero_is);
}

group_found : find joined.mgid_entries 3 ≡ some group
unfolding find
group_found = refl

zero_valid : valid_handle sets joined.l1_handles 0 ≡ true
unfolding valid_handle
zero_valid = refl

replicate_test : replicate joined 3 ≡ some (record { rid = 7; egress_port = 1 } ∷ [])
unfolding replicate node_copies port_copies find
replicate_test = refl

group-valid : (h : ℕ) → Memᴰ h group.l1_list → valid_handle sets joined.l1_handles h ≡ true
unfolding valid_handle
group-valid h m = let same = Memᴰ.eq_of_singleton m in ground (arith, same)

replicate-IsCopy_example :
    (copies : List McOut) × (replicate joined 3 ≡ some copies)
    × ((o : McOut) → Memᴰ o copies ↔ IsCopy joined.l1_entries joined.l2_entries group.l1_list o)
replicate-IsCopy_example = replicate-IsCopy sets joined 3 group joined-Inv group_found group-valid

mc_node_destroy-Destroyed_example :
    (p' : Engine) × (mc_node_destroy sets joined 0 ≡ (success, p'))
    × Destroyed sets joined 0 p'
    × ((mgid : ℕ) (g : MgidEntry)
        → find joined.mgid_entries mgid ≡ some g
        → Memᴰ 0 g.l1_list
        → replicate p' mgid ≡ none)
mc_node_destroy-Destroyed_example = mc_node_destroy-Destroyed sets joined 0 joined-Inv zero_valid

-- The node joins and leaves the group 5, which is not there before.
mc_node_associate-dissociate_example :
    (p1 p2 : Engine) × (inside left : MgidEntry) × (mc_node_associate sets joined 5 0
      ≡ (success, p1))
    × (find p1.mgid_entries 5 ≡ some inside)
    × (inside.l1_list ≡ (get_or joined.mgid_entries 5 no_group).l1_list ++ (0 ∷ []))
    × (mc_node_dissociate sets p1 5 0 ≡ (success, p2))
    × (find p2.mgid_entries 5 ≡ some left)
    × ((x : ℕ) → Memᴰ x left.l1_list ↔ (Memᴰ x inside.l1_list × (x ≢ 0)))
    × ((i : ℕ) → 5 ≢ i → find p2.mgid_entries i ≡ find joined.mgid_entries i)
    × Inv sets p1
    × Inv sets p2
mc_node_associate-dissociate_example =
    mc_node_associate-dissociate sets joined 5 0 joined-Inv zero_valid
