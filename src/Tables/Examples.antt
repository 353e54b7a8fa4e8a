-- ===== src/Tables/Examples.antt =====
-- An indirect match table over the exact map on concrete inputs: two slots, keys of one byte, and
-- numbers as action data.
use behavioral_model.Base.{
  ℕ, ◌+◌, ◌^◌, ◌<◌, ◌≡◌, refl, sym, subst, ◌∙◌, Bool, true, false, none, some, List, [], ◌∷◌, arith,
  if◌then◌else◌, get_elem?, ◌⊎◌, ◌==◌,
}
use behavioral_model.Judy.Sets.{sets}
use behavioral_model.Handles.{get_handle, valid_handle}
use behavioral_model.Units.{
  MatchErrorCode, MatchUnit, Entry, EntryMeta, Packet, KeyBuilder, success, mbr_still_used,
  handle_version, handle_internal, handle_set, create, get_and_set_handle, meta_at, store_entry,
  get_value,
}
use behavioral_model.Units as Units
use behavioral_model.Units.Shape.{Inv}
use behavioral_model.Units.Add.{add_code}
use behavioral_model.Units.Fresh.{create-reset_state}
use behavioral_model.Lookups.{bytes_eq, exact_find, exact_erase, exact_add, exact_exists, exact_map}
use behavioral_model.Lookups.Exact.{exact_laws}
use behavioral_model.Tables.{
  Table, ActionEntry, NextNodes, get_next_node, add_member, delete_member, add_entry, delete_entry,
  modify_entry, get_member, apply_action, set_default_member,
}
use behavioral_model.Tables.Sound.{Sound, uses_of}
use behavioral_model.Tables.Entries.{add_entry-Sound, delete_entry-Sound}
use behavioral_model.Tables.Modify.{modify_entry-Sound}
use behavioral_model.Tables.Members.{
  add_member-Sound, delete_member-still_used, delete_member-Sound,
}
use behavioral_model.Tables.Hits.{apply_action-hit}
use behavioral_model.Tables.Defaults.{set_default_member-delete_member}

abbrev one_byte : List ℕ → Bool
one_byte (x ∷ []) = true
one_byte _ = false

abbrev keys : KeyBuilder (List ℕ) (List ℕ)
keys = record {
  sanity_check = one_byte;
  to_key = λ k. k;
  apply_big_mask = λ k. k;
  get_priority = λ k. 2147483647;
  set_priority = λ k priority. k;
  to_params = λ k. k;
}

abbrev blank : Entry (List ℕ) ℕ
blank = record { key = []; version = 0; value = 0 }

abbrev UnitState : Type 0
UnitState = MatchUnit (List ℕ) (List ℕ) ℕ (List (List ℕ × ℕ))

abbrev TableState : Type 0
TableState = Table (List ℕ) (List ℕ) (List (List ℕ × ℕ)) ℕ

abbrev start : UnitState
start = create sets keys exact_map blank 2 []

vacant : (key : List ℕ) → exact_find [] key ≡ none
unfolding exact_find
vacant key = refl

start-Inv : Inv sets exact_map exact_laws start
unfolding create exact_laws
start-Inv =
    (create-reset_state sets keys exact_map exact_laws blank 2 [] start (omega arith) (omega arith)
      refl vacant).0

abbrev nodes : NextNodes
nodes = record {
  next_nodes = λ action. some (action + 100);
  has_next_node_hit = false;
  has_next_node_miss = true;
  next_node_hit = 0;
  next_node_miss = 7;
  next_node_miss_default = 7;
}

abbrev no_action : ActionEntry ℕ
no_action = record { action_id = 0; action_data = 0; next_node = 0 }

abbrev empty_table : TableState
empty_table = record {
  nodes = nodes;
  match_unit = start;
  index_ref_count = record { mbr_count = []; grp_count = [] };
  mbr_handles = [];
  action_entries = [];
  num_members = 0;
  default_index = 0;
  default_set = false;
  empty_action = no_action;
}

empty-Sound : Sound sets exact_map exact_laws empty_table
unfolding create
empty-Sound = record {
  unit_Inv = start-Inv;
  same_length = refl;
  below = λ m on. absurd (cc on);
  few = omega arith;
  small = λ m c found. absurd (cc found);
  points = λ h e used found. absurd (cc used);
  counted = λ m c on found. absurd (cc on);
}

abbrev forward : ActionEntry ℕ
forward = record { action_id = 1; action_data = 42; next_node = 101 }

-- The table with one member.
abbrev one_member : TableState
one_member = record empty_table {
  index_ref_count = record { mbr_count = 0 ∷ []; grp_count = [] };
  mbr_handles = 0 ∷ [];
  action_entries = forward ∷ [];
  num_members = 1;
}

has_next : get_next_node nodes 1 ≡ some 101
unfolding get_next_node
has_next = refl

adds_member : add_member sets keys exact_map blank 1 42 empty_table ≡ some (success, 0, one_member)
unfolding add_member get_handle
adds_member = refl

add_member-Sound_example :
    (mbr : ℕ) × (t' : TableState) × (add_member sets keys exact_map blank 1 42 empty_table
      ≡ some (success, mbr, t'))
    × (sets.test [] mbr ≡ false)
    × Sound sets exact_map exact_laws t'
    × (get_member sets keys exact_map blank mbr t' ≡ some (success, some (1, 42)))
add_member-Sound_example =
    add_member-Sound sets keys exact_map exact_laws blank empty_table 1 101 42 empty-Sound has_next
      (omega arith)

one_member-Sound : Sound sets exact_map exact_laws one_member
one_member-Sound =
    let (mbr, t', run, free, v, _) = add_member-Sound_example in
    let same : some (success, mbr, t') ≡ some (success, 0, one_member) = sym run ∙ adds_member in
    let is : t' ≡ one_member = cc same in subst (Sound sets exact_map exact_laws) is v

abbrev five : Entry (List ℕ) ℕ
five = record { key = 5 ∷ []; version = 0; value = 0 }

-- The table with an entry that names the member.
abbrev one_entry : TableState
one_entry = record one_member {
  match_unit = record {
    size = 2;
    num_entries = 1;
    handles = 0 ∷ [];
    entries = five ∷ blank ∷ [];
    entry_meta =
        record { ts = 100; timeout_ms = 0; bytes = 0; packets = 0; version = 0 }
        ∷ record { ts = 0; timeout_ms = 0; bytes = 0; packets = 0; version = 0 }
        ∷ [];
    lookup_structure = (5 ∷ [], 0) ∷ [];
  };
  index_ref_count = record { mbr_count = 1 ∷ []; grp_count = [] };
}

adds_entry :
    add_entry sets keys exact_map blank (5 ∷ []) 0 0 100 one_member ≡ some (success, 0, one_entry)
unfolding add_entry Units.add_entry exact_exists exact_find exact_add exact_erase create
    get_and_set_handle get_handle store_entry handle_set handle_version meta_at valid_handle
adds_entry = refl

add_entry-Sound_example :
    (handle : ℕ) × (t' : TableState) × (add_entry sets keys exact_map blank
        (5 ∷ [])
        0
        0
        100
        one_member
      ≡ some (add_code sets keys exact_map exact_laws blank start (5 ∷ []) (5 ∷ []), handle, t'))
    × Sound sets exact_map exact_laws t'
add_entry-Sound_example =
    add_entry-Sound sets keys exact_map exact_laws blank one_member (5 ∷ []) 0 0 100 0
      one_member-Sound refl refl (omega arith)

one_entry-Sound : Sound sets exact_map exact_laws one_entry
one_entry-Sound =
    let (handle, t', run, v) = add_entry-Sound_example in
    let same : some
          (add_code sets keys exact_map exact_laws blank start (5 ∷ []) (5 ∷ []), handle, t')
        ≡ some (success, 0, one_entry) =
      sym run ∙ adds_entry in
    let is : t' ≡ one_entry = cc same in subst (Sound sets exact_map exact_laws) is v

delete_member-still_used_example :
    delete_member sets keys exact_map blank 0 one_entry ≡ some (mbr_still_used, one_entry)
delete_member-still_used_example =
    delete_member-still_used sets keys exact_map exact_laws blank one_entry 0 five one_entry-Sound
      refl refl

delete_member-Sound_example :
    (code : MatchErrorCode) × (t' : TableState) × (delete_member sets keys exact_map blank 0
        one_member
      ≡ some (code, t'))
    × Sound sets exact_map exact_laws t'
    × (((code ≡ success) × (uses_of sets start 0 ≡ 0) × (sets.test t'.mbr_handles 0 ≡ false))
        ⊎ ((code ≡ mbr_still_used) × (t' ≡ one_member)))
delete_member-Sound_example =
    delete_member-Sound sets keys exact_map exact_laws blank one_member 0 one_member-Sound refl

slot : handle_internal 0 ≡ 0
unfolding handle_internal
slot = refl

slot_used : sets.test one_entry.match_unit.handles (handle_internal 0) ≡ true
unfolding handle_internal
slot_used = refl

slot_there : get_elem? one_entry.match_unit.entries (handle_internal 0) ≡ some five
unfolding handle_internal
slot_there = refl

slot_version : handle_version 0 ≡ five.version
unfolding handle_version
slot_version = refl

delete_entry-Sound_example :
    (n : ℕ) × (t' : TableState) × (delete_entry sets keys exact_map blank 0 one_entry
      ≡ some (success, t'))
    × Sound sets exact_map exact_laws t'
    × (get_elem? one_entry.index_ref_count.mbr_count 0 ≡ some (n + 1))
    × (get_elem? t'.index_ref_count.mbr_count 0 ≡ some n)
delete_entry-Sound_example =
    delete_entry-Sound sets keys exact_map exact_laws blank one_entry 0 five one_entry-Sound
      slot_used slot_there slot_version

counts_fit : (n : ℕ) → get_elem? one_entry.index_ref_count.mbr_count 0 ≡ some n → n + 1 < 2 ^ 32
counts_fit n e = let is : n ≡ 1 = cc e in omega (arith, is)

modify_entry-Sound_example :
    (t' : TableState) × (modify_entry sets keys exact_map blank 0 0 one_entry ≡ some (success, t'))
    × Sound sets exact_map exact_laws t'
    × (get_value sets keys exact_map blank t'.match_unit 0 ≡ (success, some 0))
    × ((m k : ℕ)
        → get_elem? one_entry.index_ref_count.mbr_count m ≡ some k
        → (k' : ℕ) × (get_elem? t'.index_ref_count.mbr_count m ≡ some k')
          × (k' + (if m == 0 then 1 else 0) ≡ k + (if m == 0 then 1 else 0)))
modify_entry-Sound_example =
    modify_entry-Sound sets keys exact_map exact_laws blank one_entry 0 0 five one_entry-Sound
      slot_used slot_there slot_version refl counts_fit

abbrev packet : Packet
packet = record { ingress_ts_ms = 150; ingress_length = 64 }

finds : exact_find ((5 ∷ [], 0) ∷ []) (5 ∷ []) ≡ some 0
unfolding exact_find bytes_eq
finds = refl

misses : exact_find ((5 ∷ [], 0) ∷ []) (6 ∷ []) ≡ none
unfolding exact_find bytes_eq
misses = refl

apply_action-hit_example :
    (e : Entry (List ℕ) ℕ) × (x : ActionEntry ℕ) × (t' : TableState) × (get_elem?
        one_entry.match_unit.entries 0
      ≡ some e)
    × (get_elem? one_entry.action_entries e.value ≡ some x)
    × (apply_action sets keys exact_map blank packet (5 ∷ []) one_entry ≡ some (x, x.next_node, t'))
    × Sound sets exact_map exact_laws t'
apply_action-hit_example =
    apply_action-hit sets keys exact_map exact_laws blank one_entry packet (5 ∷ []) 0
      one_entry-Sound finds

set_default_member-delete_member_example :
    (x : ActionEntry ℕ) × (t1 t2 : TableState) × (code : MatchErrorCode) × (set_default_member sets
        keys exact_map blank 0 one_entry
      ≡ some (success, t1))
    × (get_elem? one_entry.action_entries 0 ≡ some x)
    × (apply_action sets keys exact_map blank packet (6 ∷ []) t1 ≡ some (x, 7, t1))
    × (delete_member sets keys exact_map blank 0 t1 ≡ some (code, t2))
    × (((code ≡ success) × (apply_action sets keys exact_map blank packet (6 ∷ []) t2 ≡ none))
        ⊎ ((code ≡ mbr_still_used) × (t2 ≡ t1)))
set_default_member-delete_member_example =
    set_default_member-delete_member sets keys exact_map exact_laws blank one_entry 0 packet
      (6 ∷ []) one_entry-Sound refl misses
