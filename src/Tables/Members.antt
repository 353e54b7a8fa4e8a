-- ===== src/Tables/Members.antt =====
-- The members of an indirect match table: a member that an entry names is not deleted.
use behavioral_model.Base.{
  ℕ, suc, ◌+◌, ◌-◌, ◌^◌, ◌≤◌, ◌<◌, true, false, some, length, get_elem?, if◌then◌else◌, ◌≡◌, ◌≢◌,
  refl, sym, ap, ◌∙◌, arith, ◌⊎◌, inl, inr, ==_ne, ==_refl, Bool-cases, ltb-true, leb, Option-cases,
}
use native.Mathlib.Decide.{ℕ_discrete}
use behavioral_model.Judy.{Judy1}
use behavioral_model.Handles.{valid_handle, get_handle, release_handle}
use behavioral_model.Units.{
  Entry, KeyBuilder, LookupStructure, MatchErrorCode, success, mbr_still_used,
}
use behavioral_model.Units.Shape.{LookupLaws}
use behavioral_model.Units.Add.{get_elem?-some}
use behavioral_model.Tables.{
  Table, ActionEntry, is_valid_mbr, get_next_node, entries_insert, add_member, delete_member,
  get_member,
}
use behavioral_model.Tables.Uses.{
  one_use-uses, one_use-in_use, one_use-other, one_use-free, uses-zero,
}
use behavioral_model.Tables.Entries.{member-small}
use behavioral_model.Tables.Sound.{
  make_mbr_index-member, uses_of, Sound, Stored, put-Stored, set_count-member, get_count-member,
}

module _ {A P K S D : Type 0} (j : Judy1 A) (kb : KeyBuilder P K) (ls : LookupStructure K S)
    (laws : LookupLaws ls) (blank : Entry K ℕ) where
  open j use {test}

  -- delete_member of a member in use, by the count that it finds.
  pub delete_member-used :
      (t : Table A K S D) (mbr n : ℕ)
      → Sound j ls laws t
      → test t.mbr_handles mbr ≡ true
      → get_elem? t.index_ref_count.mbr_count mbr ≡ some (suc n)
      → delete_member j kb ls blank mbr t ≡ some (mbr_still_used, t)
  unfolding delete_member is_valid_mbr valid_handle release_handle
  delete_member-used t mbr n v valid found =
      let small = member-small j kb ls laws blank t mbr v valid in
      rw (valid, delete_member)
        (rw (make_mbr_index-member mbr small) (
          rw (get_count-member mbr t.index_ref_count small)
            (rw found (rw (ltb-true 0 (suc n) (omega arith)) refl))))

  pub delete_member-free :
      (t : Table A K S D) (mbr : ℕ)
      → Sound j ls laws t
      → test t.mbr_handles mbr ≡ true
      → get_elem? t.index_ref_count.mbr_count mbr ≡ some 0
      → delete_member j kb ls blank mbr t
        ≡ some (
          success,
          record t { mbr_handles = j.unset t.mbr_handles mbr; num_members = t.num_members - 1 },
        )
  unfolding delete_member is_valid_mbr valid_handle release_handle
  delete_member-free t mbr v valid found =
      let small = member-small j kb ls laws blank t mbr v valid in
      rw (valid, delete_member)
        (rw (make_mbr_index-member mbr small)
          (rw (get_count-member mbr t.index_ref_count small) (rw found refl)))

  -- delete_member of a member that an entry in use names returns MBR_STILL_USED and changes nothing.
  pub delete_member-still_used :
      (t : Table A K S D) (h : ℕ) (e : Entry K ℕ)
      → Sound j ls laws t
      → test t.match_unit.handles h ≡ true
      → get_elem? t.match_unit.entries h ≡ some e
      → delete_member j kb ls blank e.value t ≡ some (mbr_still_used, t)
  delete_member-still_used t h e v used found =
      let valid = v.points h e used found in
      let (c, count) =
        get_elem?-some t.index_ref_count.mbr_count e.value
          (omega (arith, v.same_length, v.below e.value valid)) in
      let least =
        one_use-uses (test t.match_unit.handles) e.value 0 h h t.match_unit.entries e (omega arith)
          found in
      let one = one_use-in_use (test t.match_unit.handles) e.value h e used refl in
      let most = v.counted e.value c valid count in
      delete_member-used t e.value (c - 1) v valid
        (count ∙ ap some (omega (arith, least, one, most)))

  still :
      (t : Table A K S D) (mbr m : ℕ)
      → test (j.unset t.mbr_handles mbr) m ≡ true
      → test t.mbr_handles m ≡ true
  still t mbr m on = ground (arith, on, j.test-unset t.mbr_handles mbr m)

  -- Whatever delete_member of a member in use returns, the table is sound afterwards; and either no
  -- entry in use named the member, which is gone, or the table is as it was.
  pub delete_member-Sound :
      (t : Table A K S D) (mbr : ℕ)
      → Sound j ls laws t
      → test t.mbr_handles mbr ≡ true
      → (code : MatchErrorCode) × (t' : Table A K S D) × (delete_member j kb ls blank mbr t
          ≡ some (code, t'))
        × Sound j ls laws t'
        × (((code ≡ success) × (uses_of j t.match_unit mbr ≡ 0) × (test t'.mbr_handles mbr ≡ false))
            ⊎ ((code ≡ mbr_still_used) × (t' ≡ t)))
  delete_member-Sound t mbr v valid =
      let l = t.index_ref_count.mbr_count in
      let (c, count) = get_elem?-some l mbr (omega (arith, v.same_length, v.below mbr valid)) in
      elim (ℕ_discrete c 0) [
        | yes zero_count ↦
            let unused : uses_of j t.match_unit mbr ≡ 0 =
              omega (arith, v.counted mbr c valid count, zero_count) in
            (
              success,
              record t { mbr_handles = j.unset t.mbr_handles mbr; num_members = t.num_members - 1 },
              delete_member-free t mbr v valid (count ∙ ap some zero_count),
              record {
                unit_Inv = v.unit_Inv;
                same_length = v.same_length;
                below = λ m on. v.below m (still t mbr m on);
                few = v.few;
                small = v.small;
                points = λ h e used found.
                    j.test-unset t.mbr_handles mbr e.value
                    ∙ ap (λ b. if b then false else test t.mbr_handles e.value)
                        (==_ne mbr e.value (λ same. omega (
                          arith,
                          unused,
                          one_use-in_use (test t.match_unit.handles) mbr h e used (sym same),
                          one_use-uses (test t.match_unit.handles) mbr 0 h h t.match_unit.entries e
                              (omega arith) found,
                        )))
                    ∙ v.points h e used found;
                counted = λ m d on there. v.counted m d (still t mbr m on) there;
              },
              inl (
                refl,
                unused,
                j.test-unset t.mbr_handles mbr mbr
                    ∙ ap (λ b. if b then false else test t.mbr_handles mbr) (==_refl mbr),
              ),
            )
        | no positive ↦ (
          mbr_still_used,
          t,
          delete_member-used t mbr (c - 1) v valid (count ∙ ap some (omega (arith, positive))),
          v,
          inr (refl, refl),
        )
      ]

  entries_insert-run :
      (t : Table A K S D) (mbr : ℕ) (x : ActionEntry D) (es : Stored t.action_entries mbr x)
      (cs : Stored t.index_ref_count.mbr_count mbr 0)
      → mbr < 2 ^ 24
      → entries_insert j kb ls blank mbr x t
        ≡ some (record t {
          action_entries = es.list;
          index_ref_count = record t.index_ref_count { mbr_count = cs.list };
        })
  unfolding entries_insert
  entries_insert-run t mbr x es cs small =
      rw (es.run, entries_insert)
        (rw (make_mbr_index-member mbr small)
          (rw (set_count-member mbr 0 t.index_ref_count cs small) refl))

  -- The least free handle of the members is at most the number of slots.
  next_member :
      (t : Table A K S D)
      → Sound j ls laws t
      → length t.action_entries < 2 ^ 24
      → (mbr : ℕ) × (get_handle j t.mbr_handles ≡ some (mbr, j.set t.mbr_handles mbr))
        × (test t.mbr_handles mbr ≡ false)
        × (mbr ≤ length t.action_entries)
  unfolding get_handle
  next_member t v room = elim (Option-cases (j.first_empty t.mbr_handles)) [
    | inl full ↦ absurd (
        omega (
          arith,
          v.below (length t.action_entries) (
              j.first_empty-none t.mbr_handles full (length t.action_entries)
                (omega (arith, room))),
        ))
    | inr (mbr, found) ↦
        let free = j.first_empty-free t.mbr_handles mbr found in
        (mbr, rw (found, get_handle) (rw free refl), free, least mbr found)
  ]
    where
      least : (mbr : ℕ) → j.first_empty t.mbr_handles ≡ some mbr → mbr ≤ length t.action_entries
      least mbr found = elim (Bool-cases (leb mbr (length t.action_entries))) [
        | inl fits ↦ ground (arith, fits)
        | inr beyond ↦
            let lt : length t.action_entries < mbr = ground (arith, beyond) in
            absurd (
              omega (
                arith,
                v.below (length t.action_entries)
                    (j.first_empty-least t.mbr_handles mbr found (length t.action_entries) lt),
              ))
      ]

  -- A slot that is not in use is named by no entry.
  unnamed :
      (t : Table A K S D) (mbr : ℕ)
      → Sound j ls laws t
      → test t.mbr_handles mbr ≡ false
      → uses_of j t.match_unit mbr ≡ 0
  unnamed t mbr v free =
      uses-zero (test t.match_unit.handles) mbr 0 t.match_unit.entries (λ k at e p found.
        elim (Bool-cases (test t.match_unit.handles at)) [
          | inl used ↦ one_use-other (test t.match_unit.handles) mbr at e (λ same.
              let on =
                v.points at e used
                  (ap (get_elem? t.match_unit.entries) (omega (arith, p)) ∙ found) in
              ground (arith, on, free, same))
          | inr unused ↦ one_use-free (test t.match_unit.handles) mbr at e unused
        ])

  -- The table after a member is stored.
  abbrev with_member :
      (t : Table A K S D) (mbr : ℕ) (x : ActionEntry D)
      → Stored t.action_entries mbr x
      → Stored t.index_ref_count.mbr_count mbr 0
      → Table A K S D
  with_member t mbr x es cs = record t {
    mbr_handles = j.set t.mbr_handles mbr;
    action_entries = es.list;
    index_ref_count = record t.index_ref_count { mbr_count = cs.list };
    num_members = t.num_members + 1;
  }

  add_member-run :
      (t : Table A K S D) (mbr : ℕ) (x : ActionEntry D) (es : Stored t.action_entries mbr x)
      (cs : Stored t.index_ref_count.mbr_count mbr 0)
      → mbr < 2 ^ 24
      → get_next_node t.nodes x.action_id ≡ some x.next_node
      → get_handle j t.mbr_handles ≡ some (mbr, j.set t.mbr_handles mbr)
      → add_member j kb ls blank x.action_id x.action_data t
        ≡ some (success, mbr, with_member t mbr x es cs)
  unfolding add_member
  add_member-run t mbr x es cs small next got =
      rw (next, add_member)
        (rw got (
          rw
            (entries_insert-run (record t { mbr_handles = j.set t.mbr_handles mbr }) mbr x es cs
              small)
            refl))

  with_member-Sound :
      (t : Table A K S D) (mbr : ℕ) (x : ActionEntry D) (es : Stored t.action_entries mbr x)
      (cs : Stored t.index_ref_count.mbr_count mbr 0)
      → Sound j ls laws t
      → test t.mbr_handles mbr ≡ false
      → mbr ≤ length t.action_entries
      → length t.action_entries < 2 ^ 24
      → Sound j ls laws (with_member t mbr x es cs)
  with_member-Sound t mbr x es cs v free le room = record {
    unit_Inv = v.unit_Inv;
    same_length = omega (arith, es.lengths, cs.lengths, v.same_length);
    below = λ m on. elim (ℕ_discrete mbr m) [
      | yes same ↦ omega (arith, es.lengths, same)
      | no other ↦ omega (arith, es.lengths, v.below m (was m other on))
    ];
    few = omega (arith, es.lengths, le, room);
    small = λ m c there. elim (ℕ_discrete m mbr) [
      | yes same ↦ omega (arith, new_count m c same there)
      | no other ↦ v.small m c (sym (cs.others m other) ∙ there)
    ];
    points = λ h e used found.
        ground (arith, j.test-set t.mbr_handles mbr e.value, v.points h e used found);
    counted = λ m c on there. elim (ℕ_discrete m mbr) [
      | yes same ↦ omega (arith, unnamed t mbr v free, ap (uses_of j t.match_unit) same)
      | no other ↦ v.counted m c (was m (λ e. other (sym e)) on) (sym (cs.others m other) ∙ there)
    ];
  }
    where
      was :
          (m : ℕ) → mbr ≢ m → test (j.set t.mbr_handles mbr) m ≡ true → test t.mbr_handles m ≡ true
      was m other on =
          sym (
            j.test-set t.mbr_handles mbr m
            ∙ ap (λ b. if b then true else test t.mbr_handles m) (==_ne mbr m other))
          ∙ on

      new_count : (m c : ℕ) → m ≡ mbr → get_elem? cs.list m ≡ some c → c ≡ 0
      new_count m c same there =
          let now = cs.now in
          let at_mbr : get_elem? cs.list mbr ≡ some c = ap (get_elem? cs.list) (sym same) ∙ there in
          ground (arith, now, at_mbr)

  get_member-with_member :
      (t : Table A K S D) (mbr : ℕ) (x : ActionEntry D) (es : Stored t.action_entries mbr x)
      (cs : Stored t.index_ref_count.mbr_count mbr 0)
      → get_member j kb ls blank mbr (with_member t mbr x es cs)
        ≡ some (success, some (x.action_id, x.action_data))
  unfolding get_member is_valid_mbr valid_handle
  get_member-with_member t mbr x es cs =
      let on : test (j.set t.mbr_handles mbr) mbr ≡ true =
        ground (arith, j.test-set t.mbr_handles mbr mbr) in
      rw (on, get_member) (rw es.now refl)

  -- add_member, for an action with a next node and while fewer than 2 ^ 24 slots are taken, succeeds
  -- with a handle that was free: get_member gives the action by it, and the table stays sound.
  pub add_member-Sound :
      (t : Table A K S D) (action_id next_node : ℕ) (action_data : D)
      → Sound j ls laws t
      → get_next_node t.nodes action_id ≡ some next_node
      → length t.action_entries < 2 ^ 24
      → (mbr : ℕ) × (t' : Table A K S D) × (add_member j kb ls blank action_id action_data t
          ≡ some (success, mbr, t'))
        × (test t.mbr_handles mbr ≡ false)
        × Sound j ls laws t'
        × (get_member j kb ls blank mbr t' ≡ some (success, some (action_id, action_data)))
  add_member-Sound t action_id next_node action_data v next room =
      let (mbr, got, free, le) = next_member t v room in
      let x : ActionEntry D = record {
        action_id = action_id;
        action_data = action_data;
        next_node = next_node;
      } in
      let es = put-Stored t.action_entries mbr x le in
      let cs = put-Stored t.index_ref_count.mbr_count mbr 0 (omega (arith, le, v.same_length)) in
      (
        mbr,
        with_member t mbr x es cs,
        add_member-run t mbr x es cs (omega (arith, le, room)) next got,
        free,
        with_member-Sound t mbr x es cs v free le room,
        get_member-with_member t mbr x es cs,
      )
