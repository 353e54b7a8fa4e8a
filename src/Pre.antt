-- ===== src/Pre.antt =====
-- modules/bm_sim/include/bm_sim/simple_pre.h and modules/bm_sim/src/simple_pre.cpp: the packet
-- replication engine. The maps are association lists without a key twice.
pub mod Maps
pub mod Replicate
pub mod Nodes
pub mod Groups
pub mod Membership
mod Examples
use behavioral_model.Base.{
  ℕ, zero, suc, ◌+◌, Bool, true, false, Option, none, some, List, [], ◌∷◌, ◌++◌, ◌==◌, leb,
  if◌then◌else◌, length, replicate as fill,
}
use behavioral_model.Judy.{Judy1}
use behavioral_model.Handles.{get_handle, release_handle, valid_handle}
use Maps.{find, erase, put, insert, get_or}

pub data McReturnCode : Type 0 where
  success table_full invalid_mgid invalid_l1_handle invalid_l2_handle error : McReturnCode

pub record McOut : Type 0 where
  pub rid : ℕ
  pub egress_port : ℕ

pub record MgidEntry : Type 0 where
  pub mgid : ℕ
  pub l1_list : List ℕ

pub record L1Entry : Type 0 where
  pub mgrp_hdl : ℕ
  pub rid : ℕ
  pub l2_hdl : ℕ

pub record L2Entry : Type 0 where
  pub l1_hdl : ℕ
  pub port_map : List Bool

pub record Pre (A : Type 0) : Type 0 where
  pub mgid_entries : List (ℕ × MgidEntry)
  pub l1_entries : List (ℕ × L1Entry)
  pub l2_entries : List (ℕ × L2Entry)
  pub l1_handles : A
  pub l2_handles : A

-- What operator[] puts at a key that it does not find.
abbrev pub no_group : MgidEntry
no_group = record { mgid = 0; l1_list = [] }

abbrev pub no_l1 : L1Entry
no_l1 = record { mgrp_hdl = 0; rid = 0; l2_hdl = 0 }

abbrev pub no_l2 : L2Entry
no_l2 = record { l1_hdl = 0; port_map = fill 256 false }

-- std::remove and erase of a value.
unfoldable pub without : List ℕ → ℕ → List ℕ
without [] h = []
without (x ∷ xs) h = if x == h then without xs h else x ∷ without xs h

-- The loop over the ports of a node, from `port` on.
unfoldable pub port_copies : ℕ → ℕ → List Bool → List McOut
port_copies rid port [] = []
port_copies rid port (false ∷ ports) = port_copies rid (port + 1) ports
port_copies rid port (true ∷ ports) =
    record { rid = rid; egress_port = port } ∷ port_copies rid (port + 1) ports

module _ {A : Type 0} (j : Judy1 A) where
  unfoldable pub mc_mgrp_create : Pre A → ℕ → McReturnCode × ℕ × Pre A
  mc_mgrp_create p mgid = if leb 4096 (length p.mgid_entries) then (table_full, 0, p) else (
    success,
    mgid,
    record p { mgid_entries = insert p.mgid_entries mgid (record { mgid = mgid; l1_list = [] }) },
  )

  unfoldable pub mc_mgrp_destroy : Pre A → ℕ → McReturnCode × Pre A
  mc_mgrp_destroy p mgrp_hdl = (success, record p { mgid_entries = erase p.mgid_entries mgrp_hdl })

  -- The entries of a new node, once its handles are taken.
  unfoldable pub store_node : Pre A → ℕ → List Bool → ℕ → ℕ → Pre A
  store_node p rid port_map l1_hdl l2_hdl =
      let inserted = insert p.l1_entries l1_hdl (record { mgrp_hdl = 0; rid = rid; l2_hdl = 0 }) in
      record p {
        l1_entries =
            put inserted l1_hdl (record (get_or inserted l1_hdl no_l1) { l2_hdl = l2_hdl });
        l2_entries = insert p.l2_entries l2_hdl (record { l1_hdl = l1_hdl; port_map = port_map });
      }

  unfoldable pub mc_node_create : Pre A → ℕ → List Bool → McReturnCode × ℕ × Pre A
  unfolding store_node
  mc_node_create p rid port_map =
      if leb 4096 (length p.l1_entries)
      then (table_full, 0, p)
      else if leb 8192 (length p.l2_entries)
      then (table_full, 0, p)
      else elim (get_handle j p.l1_handles) [
        | none ↦ (error, 0, p)
        | some (l1_hdl, l1_handles) ↦ elim (get_handle j p.l2_handles) [
          | none ↦ (error, l1_hdl, record p { l1_handles = l1_handles })
          | some (l2_hdl, l2_handles) ↦ (
            success,
            l1_hdl,
            store_node (record p { l1_handles = l1_handles; l2_handles = l2_handles }) rid port_map
                l1_hdl l2_hdl,
          )
        ]
      ]

  unfoldable pub mc_node_associate : Pre A → ℕ → ℕ → McReturnCode × Pre A
  mc_node_associate p mgrp_hdl l1_hdl =
      if valid_handle j p.l1_handles l1_hdl
      then (let group = get_or p.mgid_entries mgrp_hdl no_group in
          let node = get_or p.l1_entries l1_hdl no_l1 in
          (
            success,
            record p {
              mgid_entries =
                  put p.mgid_entries mgrp_hdl
                    (record group { l1_list = group.l1_list ++ (l1_hdl ∷ []) });
              l1_entries = put p.l1_entries l1_hdl (record node { mgrp_hdl = mgrp_hdl });
            },
          ))
      else (invalid_l1_handle, p)

  unfoldable pub mc_node_dissociate : Pre A → ℕ → ℕ → McReturnCode × Pre A
  unfolding without
  mc_node_dissociate p mgrp_hdl l1_hdl =
      if valid_handle j p.l1_handles l1_hdl
      then (let group = get_or p.mgid_entries mgrp_hdl no_group in
          let node = get_or p.l1_entries l1_hdl no_l1 in
          (
            success,
            record p {
              mgid_entries =
                  put p.mgid_entries mgrp_hdl
                    (record group { l1_list = without group.l1_list l1_hdl });
              l1_entries = put p.l1_entries l1_hdl (record node { mgrp_hdl = 0 });
            },
          ))
      else (invalid_l1_handle, p)

  unfoldable pub mc_node_destroy : Pre A → ℕ → McReturnCode × Pre A
  mc_node_destroy p l1_hdl =
      if valid_handle j p.l1_handles l1_hdl
      then (let node = get_or p.l1_entries l1_hdl no_l1 in
          let (l2_released, l2_handles) = release_handle j p.l2_handles node.l2_hdl in
          let (l1_released, l1_handles) = release_handle j p.l1_handles l1_hdl in
          let p1 = record p {
            l1_entries = put p.l1_entries l1_hdl node;
            l2_entries = erase p.l2_entries node.l2_hdl;
            l2_handles = l2_handles;
          } in
          let p2 = record p1 { l1_entries = erase p1.l1_entries l1_hdl; l1_handles = l1_handles } in
          if l2_released
          then (if l1_released then (success, p2) else (invalid_l1_handle, p2))
          else (invalid_l2_handle, p1))
      else (invalid_l1_handle, p)

  unfoldable pub mc_node_update : Pre A → ℕ → List Bool → McReturnCode × Pre A
  mc_node_update p l1_hdl port_map =
      if valid_handle j p.l1_handles l1_hdl
      then (let node = get_or p.l1_entries l1_hdl no_l1 in
          let below = get_or p.l2_entries node.l2_hdl no_l2 in
          (
            success,
            record p {
              l1_entries = put p.l1_entries l1_hdl node;
              l2_entries = put p.l2_entries node.l2_hdl (record below { port_map = port_map });
            },
          ))
      else (invalid_l1_handle, p)

-- The loop of replicate over the nodes of a group; `none` is the exception of `at`.
unfoldable pub node_copies : List (ℕ × L1Entry) → List (ℕ × L2Entry) → List ℕ → Option (List McOut)
unfolding port_copies
node_copies l1_entries l2_entries [] = some []
node_copies l1_entries l2_entries (l1_hdl ∷ l1_list) =
    let rest = node_copies l1_entries l2_entries l1_list in
    elim (find l1_entries l1_hdl) [
      | none ↦ none
      | some node ↦ elim (find l2_entries node.l2_hdl) [
        | none ↦ none
        | some below ↦ elim rest [
          | none ↦ none
          | some copies ↦ some (port_copies node.rid 0 below.port_map ++ copies)
        ]
      ]
    ]

unfoldable pub replicate : {A : Type 0} → Pre A → ℕ → Option (List McOut)
unfolding node_copies
replicate p mgid = elim (find p.mgid_entries mgid) [
  | none ↦ none
  | some group ↦ node_copies p.l1_entries p.l2_entries group.l1_list
]
