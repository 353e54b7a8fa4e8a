-- ===== src/Units.antt =====
-- modules/bm_sim/include/bm_sim/match_units.h and modules/bm_sim/src/match_units.cpp: a match unit,
-- the table of entries behind a match table. Entry handles carry a version, so that the handle of a
-- deleted entry does not name the entry that takes its slot.
pub mod Versions
pub mod Shape
pub mod Add
pub mod Remove
pub mod Stale
pub mod Refused
pub mod Fresh
pub mod Hit
use behavioral_model.Base.{
  ℕ, zero, suc, ◌+◌, ◌-◌, ◌*◌, ◌/◌, ◌%◌, ◌^◌, Bool, true, false, ◌&&◌, Option, none, some, List, [],
  ◌∷◌, map, ◌==◌, ltb, leb, if◌then◌else◌, get_elem?, set, replicate,
}
use behavioral_model.Judy.{Judy1}
use behavioral_model.Handles.{
  get_handle, release_handle, valid_handle, clear, begin, advance, size as nb_handles,
}

-- modules/bm_sim/include/bm_sim/match_error_codes.h
pub data MatchErrorCode : Type 0 where
  success table_full invalid_handle expired_handle : MatchErrorCode
  counters_disabled meters_disabled ageing_disabled : MatchErrorCode
  invalid_table_name invalid_action_name wrong_table_type : MatchErrorCode
  invalid_mbr_handle mbr_still_used mbr_already_in_grp mbr_not_in_grp : MatchErrorCode
  invalid_grp_handle grp_still_used empty_grp : MatchErrorCode
  duplicate_entry bad_match_key invalid_meter_operation error : MatchErrorCode

-- HANDLE_VERSION, HANDLE_INTERNAL and HANDLE_SET. The two halves of a handle do not overlap, so `|`
-- is a sum.
unfoldable pub handle_version : ℕ → ℕ
handle_version h = h / 2 ^ 32

unfoldable pub handle_internal : ℕ → ℕ
handle_internal h = h % 2 ^ 32

unfoldable pub handle_set : ℕ → ℕ → ℕ
handle_set v i = v % 2 ^ 32 * 2 ^ 32 + i

-- struct EntryMeta, with the two counts of its Counter.
pub record EntryMeta : Type 0 where
  pub ts : ℕ
  pub timeout_ms : ℕ
  pub bytes : ℕ
  pub packets : ℕ
  pub version : ℕ

abbrev pub blank_meta : EntryMeta
blank_meta = record { ts = 0; timeout_ms = 0; bytes = 0; packets = 0; version = 0 }

-- A packet, as far as a match unit reads it.
pub record Packet : Type 0 where
  pub ingress_ts_ms : ℕ
  pub ingress_length : ℕ

-- An entry: `version` stands beside the rest of the key.
pub record Entry (K V : Type 0) : Type 0 where
  pub key : K
  pub version : ℕ
  pub value : V

-- What a match unit asks of MatchKeyBuilder and of the utilities for keys, get_priority and
-- set_priority: `P` is the key that a client writes. A priority, an int, has 2 ^ 31 added to it.
pub record KeyBuilder (P K : Type 0) : Type 0 where
  pub sanity_check : P → Bool
  pub to_key : P → K
  pub apply_big_mask : K → K
  pub get_priority : K → ℕ
  pub set_priority : K → ℕ → K
  pub to_params : K → P

-- class LookupStructure: its operations, and what they do to the map from keys to handles that it
-- stands for. A handle is added only while no key has it.
pub record LookupStructure (K S : Type 0) : Type 0 where
  pub lookup : S → List ℕ → Option ℕ
  pub entry_exists : S → K → Bool
  pub add_entry : S → K → ℕ → S
  pub delete_entry : S → K → S
  pub clear : S → S

pub record MatchUnit (A K V S : Type 0) : Type 0 where
  pub size : ℕ
  pub num_entries : ℕ
  pub handles : A
  pub entries : List (Entry K V)
  pub entry_meta : List EntryMeta
  pub lookup_structure : S

module _ {A P K V S : Type 0} (j : Judy1 A) (kb : KeyBuilder P K) (ls : LookupStructure K S)
    (blank : Entry K V) where
  unfoldable pub get_and_set_handle : MatchUnit A K V S → MatchErrorCode × ℕ × MatchUnit A K V S
  get_and_set_handle u =
      if leb u.size u.num_entries then (table_full, 0, u) else elim (get_handle j u.handles) [
        | none ↦ (error, 0, u)
        | some (h, handles') ↦
            (success, h, record u { handles = handles'; num_entries = u.num_entries + 1 })
      ]

  unfoldable pub unset_handle : MatchUnit A K V S → ℕ → MatchErrorCode × MatchUnit A K V S
  unset_handle u h =
      let (released, handles') = release_handle j u.handles h in
      if released
      then (success, record u { handles = handles'; num_entries = u.num_entries - 1 })
      else (invalid_handle, record u { handles = handles' })

  -- The metadata of a slot.
  unfoldable pub meta_at : MatchUnit A K V S → ℕ → EntryMeta
  meta_at u h = elim (get_elem? u.entry_meta h) [ none ↦ blank_meta | some m ↦ m ]

  -- The end of add_entry_ and of add_entry: the entry takes the version that its slot has.
  unfoldable pub store_entry :
      MatchUnit A K V S → K → V → ℕ → ℕ → MatchErrorCode × ℕ × MatchUnit A K V S
  store_entry u key value now h = elim (get_elem? u.entries h) [
    | none ↦ (error, 0, u)
    | some old ↦
        let handle = handle_set old.version h in
        (
          success,
          handle,
          record u {
            lookup_structure = ls.add_entry u.lookup_structure key h;
            entries = set u.entries h (record { key = key; version = old.version; value = value });
            entry_meta = set u.entry_meta h (record (meta_at u h) {
              ts = now;
              bytes = 0;
              packets = 0;
              version = handle_version handle;
            });
          },
        )
  ]

  -- add_entry and add_entry_. `now` is the clock.
  unfoldable pub add_entry :
      MatchUnit A K V S → P → V → ℕ → ℕ → MatchErrorCode × ℕ × MatchUnit A K V S
  add_entry u match_key value priority now =
      if kb.sanity_check match_key
      then (let key = kb.set_priority (kb.apply_big_mask (kb.to_key match_key)) priority in
          if ls.entry_exists u.lookup_structure key
          then (duplicate_entry, 0, u)
          else (let (status, h, u1) = get_and_set_handle u in
              elim status [ success ↦ store_entry u1 key value now h | other ↦ (other, 0, u1) ]))
      else (bad_match_key, 0, u)

  unfoldable pub delete_entry : MatchUnit A K V S → ℕ → MatchErrorCode × MatchUnit A K V S
  delete_entry u handle =
      let h = handle_internal handle in
      if valid_handle j u.handles h
      then elim (get_elem? u.entries h) [
        | none ↦ (error, u)
        | some entry ↦
            if handle_version handle == entry.version
            then unset_handle
                (record u {
                  entries =
                      set u.entries h (record entry { version = (entry.version + 1) % 2 ^ 32 });
                  lookup_structure = ls.delete_entry u.lookup_structure entry.key;
                })
                h
            else (expired_handle, u)
      ]
      else (invalid_handle, u)

  unfoldable pub modify_entry : MatchUnit A K V S → ℕ → V → MatchErrorCode × MatchUnit A K V S
  modify_entry u handle value =
      let h = handle_internal handle in
      if valid_handle j u.handles h
      then elim (get_elem? u.entries h) [
        | none ↦ (error, u)
        | some entry ↦
            if handle_version handle == entry.version
            then (success, record u { entries = set u.entries h (record entry { value = value }) })
            else (expired_handle, u)
      ]
      else (invalid_handle, u)

  unfoldable pub get_value : MatchUnit A K V S → ℕ → MatchErrorCode × Option V
  get_value u handle =
      let h = handle_internal handle in
      if valid_handle j u.handles h
      then elim (get_elem? u.entries h) [
        | none ↦ (error, none)
        | some entry ↦
            if handle_version handle == entry.version
            then (success, some entry.value)
            else (expired_handle, none)
      ]
      else (invalid_handle, none)

  -- The key that the client wrote, the value and the priority.
  unfoldable pub get_entry : MatchUnit A K V S → ℕ → MatchErrorCode × Option (P × V × ℕ)
  get_entry u handle =
      let h = handle_internal handle in
      if valid_handle j u.handles h
      then elim (get_elem? u.entries h) [
        | none ↦ (error, none)
        | some entry ↦
            if handle_version handle == entry.version
            then (success, some (kb.to_params entry.key, entry.value, kb.get_priority entry.key))
            else (expired_handle, none)
      ]
      else (invalid_handle, none)

  -- The version of the handle is not looked at.
  unfoldable pub set_entry_ttl : MatchUnit A K V S → ℕ → ℕ → MatchErrorCode × MatchUnit A K V S
  set_entry_ttl u handle ttl_ms =
      let h = handle_internal handle in
      if valid_handle j u.handles h
      then elim (get_elem? u.entry_meta h) [
        | none ↦ (error, u)
        | some m ↦ (
          success,
          record u { entry_meta = set u.entry_meta h (record m { timeout_ms = ttl_ms }) },
        )
      ]
      else (invalid_handle, u)

  unfoldable pub lookup_key : MatchUnit A K V S → List ℕ → Option (ℕ × V)
  lookup_key u key = elim (ls.lookup u.lookup_structure key) [
    | none ↦ none
    | some h ↦ elim (get_elem? u.entries h) [
      | none ↦ none
      | some e ↦ some (handle_set e.version h, e.value)
    ]
  ]

  -- lookup: a hit counts the packet and takes its time.
  unfoldable pub lookup : MatchUnit A K V S → Packet → List ℕ → Option (ℕ × V) × MatchUnit A K V S
  lookup u pkt key = elim (lookup_key u key) [
    | none ↦ (none, u)
    | some (handle, value) ↦
        let h = handle_internal handle in
        (
          some (handle, value),
          record u {
            entry_meta = set u.entry_meta h (record (meta_at u h) {
              ts = pkt.ingress_ts_ms;
              bytes = ((meta_at u h).bytes + pkt.ingress_length) % 2 ^ 64;
              packets = ((meta_at u h).packets + 1) % 2 ^ 64;
            });
          },
        )
  ]

  unfoldable pub reset_state : MatchUnit A K V S → MatchUnit A K V S
  reset_state u = record u {
    num_entries = 0;
    handles = clear j u.handles;
    entry_meta = replicate u.size blank_meta;
    entries = replicate u.size blank;
    lookup_structure = ls.clear u.lookup_structure;
  }

  unfoldable pub zero_counters : List EntryMeta → List EntryMeta
  zero_counters [] = []
  zero_counters (m ∷ ms) = record m { bytes = 0; packets = 0 } ∷ zero_counters ms

  unfoldable pub reset_counters : MatchUnit A K V S → MatchUnit A K V S
  reset_counters u = record u { entry_meta = zero_counters u.entry_meta }

  unfoldable pub create : ℕ → S → MatchUnit A K V S
  create size structure = record {
    size = size;
    num_entries = 0;
    handles = j.nil;
    entries = replicate size blank;
    entry_meta = replicate size blank_meta;
    lookup_structure = structure;
  }

  -- sweep_entries from the iterator `it` on: the handles of entries that have timed out. The fuel is
  -- the number of entries; `none` is the failed assertion that an entry is not from the future.
  unfoldable pub sweep : ℕ → MatchUnit A K V S → ℕ → Option ℕ → Option (List ℕ)
  sweep zero u now it = some []
  sweep (suc fuel) u now none = some []
  sweep (suc fuel) u now (some h) =
      let rest = sweep fuel u now (advance j u.handles (some h)) in
      elim (get_elem? u.entry_meta h) [
        | none ↦ none
        | some m ↦
            if leb m.ts now
            then elim rest [
              | none ↦ none
              | some found ↦
                  if ltb 0 m.timeout_ms && leb m.timeout_ms (now - m.ts)
                  then some (handle_set m.version h ∷ found)
                  else some found
            ]
            else none
      ]

  unfoldable pub sweep_entries : MatchUnit A K V S → ℕ → Option (List ℕ)
  sweep_entries u now = sweep (nb_handles j u.handles) u now (begin j u.handles)
