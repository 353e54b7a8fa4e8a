-- ===== src/Tables/Defaults.antt =====
-- The default member of an indirect match table.
use behavioral_model.Base.{
  ℕ, ◌-◌, true, false, none, some, List, get_elem?, if◌then◌else◌, ◌>>=◌, ◌≡◌, refl, ap, ◌∙◌, arith,
  ◌⊎◌, inl, inr, ==_refl,
}
use native.Mathlib.Decide.{ℕ_discrete}
use behavioral_model.Judy.{Judy1}
use behavioral_model.Handles.{valid_handle}
use behavioral_model.Units.{
  Entry, Packet, KeyBuilder, LookupStructure, MatchErrorCode, success, mbr_still_used,
}
use behavioral_model.Units.Shape.{LookupLaws}
use behavioral_model.Units.Add.{get_elem?-some}
use behavioral_model.Tables.{
  Table, ActionEntry, is_valid_mbr, get_mbr, member_entry, found_entry, lookup, apply_action,
  set_default_member, delete_member,
}
use behavioral_model.Tables.Entries.{member-small}
use behavioral_model.Tables.Members.{delete_member-used, delete_member-free}
use behavioral_model.Tables.Hits.{unit_lookup-miss, member_entry-found, lookup-default}
use behavioral_model.Tables.Sound.{is_mbr-member, get-member, make_mbr_index-member, Sound}

module _ {A P K S D : Type 0} (j : Judy1 A) (kb : KeyBuilder P K) (ls : LookupStructure K S)
    (laws : LookupLaws ls) (blank : Entry K ℕ) where
  open j use {test}

  abbrev with_default : Table A K S D → ℕ → Table A K S D
  with_default t mbr = record t { default_index = mbr; default_set = true }

  abbrev without_member : Table A K S D → ℕ → Table A K S D
  without_member t mbr = record t {
    mbr_handles = j.unset t.mbr_handles mbr;
    num_members = t.num_members - 1;
  }

  with_default-Sound :
      (t : Table A K S D) (mbr : ℕ) → Sound j ls laws t → Sound j ls laws (with_default t mbr)
  with_default-Sound t mbr v = record {
    unit_Inv = v.unit_Inv;
    same_length = v.same_length;
    below = v.below;
    few = v.few;
    small = v.small;
    points = v.points;
    counted = v.counted;
  }

  set_default_member-run :
      (t : Table A K S D) (mbr : ℕ)
      → Sound j ls laws t
      → test t.mbr_handles mbr ≡ true
      → set_default_member j kb ls blank mbr t ≡ some (success, with_default t mbr)
  unfolding set_default_member is_valid_mbr valid_handle
  set_default_member-run t mbr v valid =
      rw (valid, set_default_member)
        (rw (make_mbr_index-member mbr (member-small j kb ls laws blank t mbr v valid)) refl)

  member_entry-gone :
      (t : Table A K S D) (mbr : ℕ)
      → Sound j ls laws t
      → test t.mbr_handles mbr ≡ true
      → member_entry j kb ls blank mbr (without_member t mbr) ≡ none
  unfolding member_entry get_mbr is_valid_mbr valid_handle
  member_entry-gone t mbr v valid =
      let small = member-small j kb ls laws blank t mbr v valid in
      let off : test (j.unset t.mbr_handles mbr) mbr ≡ false =
        j.test-unset t.mbr_handles mbr mbr
        ∙ ap (λ b. if b then false else test t.mbr_handles mbr) (==_refl mbr) in
      rw (is_mbr-member mbr small, member_entry) (rw (get-member mbr small) (rw off refl))

  module _ (t : Table A K S D) (pkt : Packet) (key : List ℕ)
      (absent : ls.lookup t.match_unit.lookup_structure key ≡ none)
      (on : t.default_set ≡ true) where
    apply_action-default :
        (x : ActionEntry D)
        → member_entry j kb ls blank t.default_index t ≡ some x
        → apply_action j kb ls blank pkt key t ≡ some (x, t.nodes.next_node_miss, t)
    unfolding apply_action
    apply_action-default x found =
        rw (lookup-default j kb ls laws blank t pkt key x absent on found, apply_action) refl

    lookup-fails :
        member_entry j kb ls blank t.default_index t ≡ none → lookup j kb ls blank pkt key t ≡ none
    unfolding lookup found_entry
    lookup-fails gone =
        ap (λ r. found_entry j kb ls blank r t)
          (unit_lookup-miss j kb ls blank t.match_unit key absent pkt)
        ∙ (λ i.
            if on i then gone i >>= (λ e. some (none, e, t)) else some (none, t.empty_action, t))

    apply_action-fails :
        member_entry j kb ls blank t.default_index t ≡ none
        → apply_action j kb ls blank pkt key t ≡ none
    unfolding apply_action
    apply_action-fails gone = rw (lookup-fails gone, apply_action) refl

  -- After set_default_member of a member in use, a packet whose key is not found is given the action of
  -- this member and the node for a miss. delete_member of it then either is refused and changes nothing,
  -- or succeeds, and from there such a packet fails an assertion.
  pub set_default_member-delete_member :
      (t : Table A K S D) (mbr : ℕ) (pkt : Packet) (key : List ℕ)
      → Sound j ls laws t
      → test t.mbr_handles mbr ≡ true
      → ls.lookup t.match_unit.lookup_structure key ≡ none
      → (x : ActionEntry D) × (t1 t2 : Table A K S D) × (code : MatchErrorCode)
        × (set_default_member j kb ls blank mbr t ≡ some (success, t1))
        × (get_elem? t.action_entries mbr ≡ some x)
        × (apply_action j kb ls blank pkt key t1 ≡ some (x, t.nodes.next_node_miss, t1))
        × (delete_member j kb ls blank mbr t1 ≡ some (code, t2))
        × (((code ≡ success) × (apply_action j kb ls blank pkt key t2 ≡ none))
            ⊎ ((code ≡ mbr_still_used) × (t2 ≡ t1)))
  set_default_member-delete_member t mbr pkt key v valid absent =
      let t1 = with_default t mbr in
      let v1 = with_default-Sound t mbr v in
      let (x, action, member) = member_entry-found j kb ls laws blank t1 mbr v1 valid in
      let l = t.index_ref_count.mbr_count in
      let (c, count) = get_elem?-some l mbr (omega (arith, v.same_length, v.below mbr valid)) in
      let set_it = set_default_member-run t mbr v valid in
      let misses = apply_action-default t1 pkt key absent refl x member in
      elim (ℕ_discrete c 0) [
        | yes zero_count ↦ (
          x,
          t1,
          without_member t1 mbr,
          success,
          set_it,
          action,
          misses,
          delete_member-free j kb ls laws blank t1 mbr v1 valid (count ∙ ap some zero_count),
          inl (
            refl,
            apply_action-fails (without_member t1 mbr) pkt key absent refl
                (member_entry-gone t1 mbr v1 valid),
          ),
        )
        | no positive ↦ (
          x,
          t1,
          t1,
          mbr_still_used,
          set_it,
          action,
          misses,
          delete_member-used j kb ls laws blank t1 mbr (c - 1) v1 valid
              (count ∙ ap some (omega (arith, positive))),
          inr (refl, refl),
        )
      ]
