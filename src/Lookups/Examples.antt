-- ===== src/Lookups/Examples.antt =====
-- Match units over the exact map on concrete inputs: two slots, keys of one byte, and numbers as
-- values.
use behavioral_model.Base.{
  ℕ, ◌≡◌, ◌≢◌, refl, sym, ap, subst, ◌∙◌, Bool, true, false, none, some, List, [], ◌∷◌, arith, ◌==◌,
  if◌then◌else◌, get_elem?, zero, suc, ◌≤◌, Option, length, ◌⊎◌,
}
use behavioral_model.Judy.Sets.{sets}
use behavioral_model.Handles.{get_handle, release_handle, valid_handle}
use behavioral_model.Units.{
  MatchErrorCode, MatchUnit, Entry, EntryMeta, Packet, KeyBuilder, success, invalid_handle,
  expired_handle, handle_version, handle_internal, handle_set, create, reset_state,
  get_and_set_handle, unset_handle, meta_at, store_entry, add_entry, delete_entry, modify_entry,
  get_value, get_entry, lookup,
}
use behavioral_model.Units.Shape.{Inv}
use behavioral_model.Units.Add.{add_code, Added, add_entry-Added}
use behavioral_model.Units.Remove.{Removed, delete_entry-Removed}
use behavioral_model.Units.Stale.{TtlOutcome, get_value-stale, set_entry_ttl-stale}
use behavioral_model.Units.Refused.{CanAdd, add_entry-CanAdd, handle-refused}
use behavioral_model.Units.Fresh.{create-reset_state}
use behavioral_model.Units.Hit.{Counted, lookup-Counted, modify_entry-reads}
use behavioral_model.Lookups.{
  bytes_eq, exact_find, exact_erase, exact_add, exact_exists, exact_map, TernaryMatchKey,
  ternary_match, ternary_better, ternary_scan, ternary_lookup,
}
use behavioral_model.Lookups.Exact.{exact_laws}
use behavioral_model.Lookups.Ternary.{IsOutcome, AreLong, ternary_lookup-IsOutcome}

-- Keys are written as they are stored, and must have one byte.
abbrev one_byte : List ℕ → Bool
one_byte (x ∷ []) = true
one_byte _ = false

abbrev keys : KeyBuilder (List ℕ) (List ℕ)
keys = record {
  sanity_check = one_byte;
  to_key = λ k. k;
  apply_big_mask = λ k. k;
  get_priority = λ k. 2147483647;
  set_priority = λ k priority. k;
  to_params = λ k. k;
}

abbrev UnitState : Type 0
UnitState = MatchUnit (List ℕ) (List ℕ) ℕ (List (List ℕ × ℕ))

abbrev blank : Entry (List ℕ) ℕ
blank = record { key = []; version = 0; value = 0 }

abbrev five : Entry (List ℕ) ℕ
five = record { key = 5 ∷ []; version = 0; value = 42 }

abbrev start : UnitState
start = create sets keys exact_map blank 2 []

exact_find-start : (key : List ℕ) → exact_find [] key ≡ none
unfolding exact_find
exact_find-start key = refl

start-Inv : Inv sets exact_map exact_laws start
unfolding create exact_laws
start-Inv =
    (create-reset_state sets keys exact_map exact_laws blank 2 [] start (omega arith) (omega arith)
      refl exact_find-start).0

create-reset_state_example :
    Inv sets exact_map exact_laws start
    × (reset_state sets keys exact_map blank start ≡ create sets keys exact_map blank 2 [])
    × Inv sets exact_map exact_laws (reset_state sets keys exact_map blank start)
    × ((handle : ℕ)
        → get_value sets keys exact_map blank (reset_state sets keys exact_map blank start) handle
          ≡ (invalid_handle, none))
unfolding create exact_laws
create-reset_state_example =
    create-reset_state sets keys exact_map exact_laws blank 2 [] start (omega arith) (omega arith)
      refl exact_find-start

-- The unit after the entry [5] ↦ 42 is added at the time 100.
abbrev one : UnitState
one = record {
  size = 2;
  num_entries = 1;
  handles = 0 ∷ [];
  entries = five ∷ blank ∷ [];
  entry_meta =
      record { ts = 100; timeout_ms = 0; bytes = 0; packets = 0; version = 0 }
      ∷ record { ts = 0; timeout_ms = 0; bytes = 0; packets = 0; version = 0 }
      ∷ [];
  lookup_structure = (5 ∷ [], 0) ∷ [];
}

adds : add_entry sets keys exact_map blank start (5 ∷ []) 42 0 100 ≡ (success, 0, one)
unfolding add_entry exact_exists exact_find exact_add exact_erase create get_and_set_handle
    get_handle store_entry handle_set handle_version meta_at
adds = refl

accepts : add_code sets keys exact_map exact_laws blank start (5 ∷ []) (5 ∷ []) ≡ success
unfolding add_code exact_exists exact_find create
accepts = refl

add_entry-Added_example :
    (handle : ℕ) × (u' : UnitState) × (add_entry sets keys exact_map blank start (5 ∷ []) 42 0 100
      ≡ (success, handle, u'))
    × Added sets keys exact_map exact_laws blank start (5 ∷ []) 42 handle u'
add_entry-Added_example =
    add_entry-Added sets keys exact_map exact_laws blank start (5 ∷ []) 42 0 100 start-Inv accepts

one-Inv : Inv sets exact_map exact_laws one
one-Inv =
    let (handle, u', run, added) = add_entry-Added_example in
    let same : u' ≡ one = ap (λ (x : MatchErrorCode × ℕ × UnitState). x.2) (sym run ∙ adds) in
    subst (Inv sets exact_map exact_laws) same added.inv

add_entry-CanAdd_example :
    (code : MatchErrorCode) × (handle : ℕ) × (u' : UnitState) × (add_entry sets keys exact_map blank
        one
        (5 ∷ [])
        43
        0
        200
      ≡ (code, handle, u'))
    × (((code ≡ success)
          × CanAdd sets keys exact_map exact_laws blank one (5 ∷ []) (5 ∷ [])
          × (get_value sets keys exact_map blank u' handle ≡ (success, some 43)))
        ⊎ ((code ≢ success)
            × (¬ CanAdd sets keys exact_map exact_laws blank one (5 ∷ []) (5 ∷ []))
            × (u' ≡ one)))
add_entry-CanAdd_example =
    add_entry-CanAdd sets keys exact_map exact_laws blank one (5 ∷ []) 43 0 200 one-Inv

five_slot : handle_internal 0 ≡ 0
unfolding handle_internal
five_slot = refl

five_version : handle_version 0 ≡ 0
unfolding handle_version
five_version = refl

five_used : sets.test one.handles (handle_internal 0) ≡ true
five_used = rw five_slot refl

five_there : get_elem? one.entries (handle_internal 0) ≡ some five
five_there = rw five_slot refl

delete_entry-Removed_example :
    (u' : UnitState) × (delete_entry sets keys exact_map blank one 0 ≡ (success, u'))
    × Removed sets keys exact_map exact_laws blank one five 0 u'
delete_entry-Removed_example =
    delete_entry-Removed sets keys exact_map exact_laws blank one 0 five one-Inv five_used
      five_there five_version

-- The slot 0 with the version 1, which it does not have yet.
early :
    (e : Entry (List ℕ) ℕ)
    → sets.test one.handles (handle_internal 4294967296) ≡ true
    → get_elem? one.entries (handle_internal 4294967296) ≡ some e
    → handle_version 4294967296 ≢ e.version
unfolding handle_internal handle_version
early e used found same =
    let version : 0 ≡ e.version = ap (λ o. elim o [ none ↦ 0 | some z ↦ z.version ]) found in
    absurd (omega (arith, same, version))

handle-refused_example :
    (code : MatchErrorCode) × (code ≢ success)
    × (delete_entry sets keys exact_map blank one 4294967296 ≡ (code, one))
    × (modify_entry sets keys exact_map blank one 4294967296 43 ≡ (code, one))
    × (get_value sets keys exact_map blank one 4294967296 ≡ (code, none))
    × (get_entry sets keys exact_map blank one 4294967296 ≡ (code, none))
handle-refused_example =
    handle-refused sets keys exact_map exact_laws blank one 4294967296 43 one-Inv early

-- The unit after this entry is deleted: its slot has the version 1.
abbrev deleted : UnitState
deleted = record one {
  num_entries = 0;
  handles = [];
  entries = record { key = 5 ∷ []; version = 1; value = 42 } ∷ blank ∷ [];
  lookup_structure = [];
}

deletes : delete_entry sets keys exact_map blank one 0 ≡ (success, deleted)
unfolding delete_entry valid_handle handle_internal handle_version unset_handle release_handle
    exact_erase bytes_eq
deletes = refl

accepts_six : add_code sets keys exact_map exact_laws blank deleted (6 ∷ []) (6 ∷ []) ≡ success
unfolding add_code exact_exists exact_find
accepts_six = refl

get_value-stale_example :
    (handle' : ℕ) × (u2 : UnitState) × (add_entry sets keys exact_map blank deleted
        (6 ∷ [])
        43
        0
        200
      ≡ (success, handle', u2))
    × (get_value sets keys exact_map blank u2 0 ≡ (
      (if handle_internal handle' == handle_internal 0 then expired_handle else invalid_handle),
      none,
    ))
get_value-stale_example =
    get_value-stale sets keys exact_map exact_laws blank one 0 five deleted (6 ∷ []) 43 0 200 10
      one-Inv five_used five_there five_version deletes accepts_six

set_entry_ttl-stale_example :
    (handle' : ℕ) × (u2 : UnitState) × (add_entry sets keys exact_map blank deleted
        (6 ∷ [])
        43
        0
        200
      ≡ (success, handle', u2))
    × TtlOutcome sets keys exact_map exact_laws blank u2 0 handle' 10
set_entry_ttl-stale_example =
    set_entry_ttl-stale sets keys exact_map exact_laws blank one 0 five deleted (6 ∷ []) 43 0 200 10
      one-Inv five_used five_there five_version deletes accepts_six

abbrev packet : Packet
packet = record { ingress_ts_ms = 150; ingress_length = 64 }

finds : exact_find ((5 ∷ [], 0) ∷ []) (5 ∷ []) ≡ some 0
unfolding exact_find bytes_eq
finds = refl

lookup-Counted_example :
    (handle value : ℕ) × (u' : UnitState) × (m m' : EntryMeta) × (lookup sets keys exact_map blank
        one packet
        (5 ∷ [])
      ≡ (some (handle, value), u'))
    × (handle_internal handle ≡ 0)
    × (get_value sets keys exact_map blank u' handle ≡ (success, some value))
    × (get_elem? one.entry_meta 0 ≡ some m)
    × (get_elem? u'.entry_meta 0 ≡ some m')
    × Counted sets keys exact_map exact_laws blank m m' packet
    × Inv sets exact_map exact_laws u'
lookup-Counted_example =
    lookup-Counted sets keys exact_map exact_laws blank one packet (5 ∷ []) 0 one-Inv finds

modify_entry-reads_example :
    (u' : UnitState) × (modify_entry sets keys exact_map blank one 0 43 ≡ (success, u'))
    × (get_value sets keys exact_map blank u' 0 ≡ (success, some 43))
    × ((other : ℕ)
        → other ≢ 0
        → get_value sets keys exact_map blank u' other
          ≡ get_value sets keys exact_map blank one other)
    × Inv sets exact_map exact_laws u'
modify_entry-reads_example =
    modify_entry-reads sets keys exact_map exact_laws blank one 0 five 43 one-Inv five_used
      five_there five_version

-- Two ternary entries match the key: 5 with the mask 7 and the priority 10, and any key at 20.
abbrev ternary_keys : List TernaryMatchKey
ternary_keys =
    record { bytes = 0 ∷ []; mask = 0 ∷ []; priority = 20; version = 0 }
    ∷ record { bytes = 5 ∷ []; mask = 7 ∷ []; priority = 10; version = 0 }
    ∷ []

ternary_lookup_test : ternary_lookup 1 ternary_keys (13 ∷ []) ≡ some (some 1)
unfolding ternary_lookup ternary_scan ternary_better ternary_match
ternary_lookup_test = refl

same_slot :
    (k k' : TernaryMatchKey)
    → (1 ≤ length k.bytes) × (1 ≤ length k.mask)
    → some k ≡ some k'
    → (1 ≤ length k'.bytes) × (1 ≤ length k'.mask)
same_slot k k' long e =
    let same : k ≡ k' = cc e in
    subst (λ (x : TernaryMatchKey). (1 ≤ length x.bytes) × (1 ≤ length x.mask)) same long

ternary_keys-AreLong : AreLong 1 ternary_keys
ternary_keys-AreLong zero k e lt =
    same_slot (record { bytes = 0 ∷ []; mask = 0 ∷ []; priority = 20; version = 0 }) k
      (omega arith, omega arith) e
ternary_keys-AreLong (suc zero) k e lt =
    same_slot (record { bytes = 5 ∷ []; mask = 7 ∷ []; priority = 10; version = 0 }) k
      (omega arith, omega arith) e
ternary_keys-AreLong (suc (suc i)) k e lt = absurd (cc e)

ternary_lookup-IsOutcome_example :
    (result : Option ℕ) × (ternary_lookup 1 ternary_keys (13 ∷ []) ≡ some result)
    × IsOutcome 1 (13 ∷ []) ternary_keys result
ternary_lookup-IsOutcome_example =
    ternary_lookup-IsOutcome 1 (13 ∷ []) ternary_keys (omega arith) ternary_keys-AreLong
