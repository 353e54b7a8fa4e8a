-- ===== src/Tables/Hits.antt =====
-- Packets through an indirect match table.
use behavioral_model.Base.{
  ℕ, true, none, some, List, get_elem?, if◌then◌else◌, ◌>>=◌, ◌≡◌, refl, ap, ◌∙◌, arith,
}
use behavioral_model.Judy.{Judy1}
use behavioral_model.Handles.{valid_handle}
use behavioral_model.Units.{
  MatchUnit, Entry, EntryMeta, Packet, KeyBuilder, LookupStructure, handle_set, lookup_key,
}
use behavioral_model.Units as Units
use behavioral_model.Units.Shape.{LookupLaws}
use behavioral_model.Units.Add.{get_elem?-some}
use behavioral_model.Units.Hit.{hit, hit-Inv, lookup-run}
use behavioral_model.Tables.{
  Table, ActionEntry, is_valid_mbr, get_mbr, member_entry, found_entry, lookup, apply_action,
}
use behavioral_model.Tables.Entries.{member-small}
use behavioral_model.Tables.Sound.{is_mbr-member, get-member, Sound}

module _ {A P K V S : Type 0} (j : Judy1 A) (kb : KeyBuilder P K) (ls : LookupStructure K S)
    (blank : Entry K V) (u : MatchUnit A K V S) (key : List ℕ)
    (absent : ls.lookup u.lookup_structure key ≡ none) where
  lookup_key-miss : lookup_key j kb ls blank u key ≡ none
  unfolding lookup_key
  lookup_key-miss = rw (absent, lookup_key) refl

  pub unit_lookup-miss : (pkt : Packet) → Units.lookup j kb ls blank u pkt key ≡ (none, u)
  unfolding Units.lookup
  unit_lookup-miss pkt = rw (lookup_key-miss, Units.lookup) refl

module _ {A P K S D : Type 0} (j : Judy1 A) (kb : KeyBuilder P K) (ls : LookupStructure K S)
    (laws : LookupLaws ls) (blank : Entry K ℕ) where
  open j use {test}

  -- A member in use has an action.
  pub member_entry-found :
      (t : Table A K S D) (mbr : ℕ)
      → Sound j ls laws t
      → test t.mbr_handles mbr ≡ true
      → (x : ActionEntry D) × (get_elem? t.action_entries mbr ≡ some x)
        × (member_entry j kb ls blank mbr t ≡ some x)
  unfolding member_entry get_mbr is_valid_mbr valid_handle
  member_entry-found t mbr v valid =
      let small = member-small j kb ls laws blank t mbr v valid in
      let (x, found) = get_elem?-some t.action_entries mbr (v.below mbr valid) in
      (
        x,
        found,
        rw (is_mbr-member mbr small, member_entry) (rw (get-member mbr small) (rw valid found)),
      )

  abbrev with_unit : Table A K S D → MatchUnit A K ℕ S → Table A K S D
  with_unit t u = record t { match_unit = u }

  hit-Sound :
      (t : Table A K S D) (pkt : Packet) (h : ℕ) (m : EntryMeta)
      → Sound j ls laws t
      → Sound j ls laws (with_unit t (hit j kb ls laws blank t.match_unit pkt h m))
  unfolding hit
  hit-Sound t pkt h m v = record {
    unit_Inv = hit-Inv j kb ls laws blank t.match_unit pkt h m v.unit_Inv;
    same_length = v.same_length;
    below = v.below;
    few = v.few;
    small = v.small;
    points = v.points;
    counted = v.counted;
  }

  lookup-hit :
      (t : Table A K S D) (pkt : Packet) (key : List ℕ) (handle mbr : ℕ) (x : ActionEntry D)
      (u : MatchUnit A K ℕ S)
      → Units.lookup j kb ls blank t.match_unit pkt key ≡ (some (handle, mbr), u)
      → member_entry j kb ls blank mbr t ≡ some x
      → lookup j kb ls blank pkt key t ≡ some (some handle, x, with_unit t u)
  unfolding lookup found_entry
  lookup-hit t pkt key handle mbr x u run found =
      ap (λ r. found_entry j kb ls blank r t) run
      ∙ ap (λ o. o >>= (λ e. some (some handle, e, with_unit t u))) found

  apply_action-run :
      (t : Table A K S D) (pkt : Packet) (key : List ℕ) (handle mbr : ℕ) (x : ActionEntry D)
      (u : MatchUnit A K ℕ S)
      → Units.lookup j kb ls blank t.match_unit pkt key ≡ (some (handle, mbr), u)
      → member_entry j kb ls blank mbr t ≡ some x
      → apply_action j kb ls blank pkt key t ≡ some (x, x.next_node, with_unit t u)
  unfolding apply_action
  apply_action-run t pkt key handle mbr x u run found =
      rw (lookup-hit t pkt key handle mbr x u run found, apply_action) refl

  -- A packet whose key the lookup structure finds is given the action and the next node of the member
  -- that the entry names; nothing asserted on the way fails, and the table stays sound.
  pub apply_action-hit :
      (t : Table A K S D) (pkt : Packet) (key : List ℕ) (h : ℕ)
      → Sound j ls laws t
      → ls.lookup t.match_unit.lookup_structure key ≡ some h
      → (e : Entry K ℕ) × (x : ActionEntry D) × (t' : Table A K S D) × (get_elem?
            t.match_unit.entries h
          ≡ some e)
        × (get_elem? t.action_entries e.value ≡ some x)
        × (apply_action j kb ls blank pkt key t ≡ some (x, x.next_node, t'))
        × Sound j ls laws t'
  apply_action-hit t pkt key h v found =
      let i = v.unit_Inv in
      let u = t.match_unit in
      let (k, held) = laws.lookup-holds u.lookup_structure key h found in
      let on = i.held_used k h held in
      let room = i.below h on in
      let (e, there) = get_elem?-some u.entries h (omega (arith, room, i.entries_length)) in
      let (m, meta) = get_elem?-some u.entry_meta h (omega (arith, room, i.meta_length)) in
      let (x, action, member) = member_entry-found t e.value v (v.points h e on there) in
      (
        e,
        x,
        with_unit t (hit j kb ls laws blank u pkt h m),
        there,
        action,
        apply_action-run t pkt key (handle_set e.version h) e.value x
            (hit j kb ls laws blank u pkt h m)
            (lookup-run j kb ls laws blank u pkt key h e m (omega (arith, room, i.size_fits)) found
              there meta)
            member,
        hit-Sound t pkt h m v,
      )

  pub lookup-default :
      (t : Table A K S D) (pkt : Packet) (key : List ℕ) (x : ActionEntry D)
      → ls.lookup t.match_unit.lookup_structure key ≡ none
      → t.default_set ≡ true
      → member_entry j kb ls blank t.default_index t ≡ some x
      → lookup j kb ls blank pkt key t ≡ some (none, x, t)
  unfolding lookup found_entry
  lookup-default t pkt key x absent on found =
      ap (λ r. found_entry j kb ls blank r t)
        (unit_lookup-miss j kb ls blank t.match_unit key absent pkt)
      ∙ (λ i. if on i then found i >>= (λ e. some (none, e, t)) else some (none, t.empty_action, t))
