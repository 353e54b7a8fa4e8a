-- ===== src/Tables/Entries.antt =====
-- The operations on the entries of an indirect match table.
use behavioral_model.Base.{
  ℕ, ◌+◌, ◌%◌, ◌^◌, ◌≤◌, ◌<◌, true, false, some, length, get_elem?, set, if◌then◌else◌, ◌≡◌, ◌≢◌,
  refl, sym, ap, ◌∙◌, arith, inl, inr, get_elem?-set_self, get_elem?_lt, length-set, ==_ne,
}
use native.Mathlib.Decide.{ℕ_discrete}
use behavioral_model.Judy.{Judy1}
use behavioral_model.Handles.{valid_handle}
use behavioral_model.Units.{
  MatchUnit, Entry, KeyBuilder, LookupStructure, MatchErrorCode, success, handle_internal,
  handle_version,
}
use behavioral_model.Units as Units
use behavioral_model.Units.Shape.{get_value-in_use, LookupLaws, Inv}
use behavioral_model.Units.Add.{
  get_elem?-some, Added, add_code, entry_key, add_entry-refused, add_entry-Added,
}
use behavioral_model.Units.Remove.{Removed, delete_entry-Removed}
use behavioral_model.Tables.{
  Table, is_valid_mbr, increase, decrease, add_entry, delete_entry, modify_entry,
}
use behavioral_model.Tables.Uses.{one_use-in_use, one_use-other, one_use_le}
use behavioral_model.Tables.Slots.{add_code-cases, Added-uses, Removed-uses}
use behavioral_model.Tables.Sound.{make_mbr_index-member, change-member, set-cases, uses_of, Sound}

module _ {A P K S D : Type 0} (j : Judy1 A) (kb : KeyBuilder P K) (ls : LookupStructure K S)
    (laws : LookupLaws ls) (blank : Entry K ℕ) where
  open j use {test}

  -- The table with another match unit and another count of a member.
  abbrev pub counting : Table A K S D → MatchUnit A K ℕ S → ℕ → ℕ → Table A K S D
  counting t u mbr n = record t {
    match_unit = u;
    index_ref_count = record t.index_ref_count {
      mbr_count = set t.index_ref_count.mbr_count mbr n;
    };
  }

  -- The count may move with the entries that name the member, and the entries only name members in
  -- use.
  pub counting-Sound :
      (t : Table A K S D) (u : MatchUnit A K ℕ S) (mbr n : ℕ)
      → Sound j ls laws t
      → test t.mbr_handles mbr ≡ true
      → Inv j ls laws u
      → n < 2 ^ 32
      → ((h : ℕ) (e : Entry K ℕ)
          → test u.handles h ≡ true
          → get_elem? u.entries h ≡ some e
          → test t.mbr_handles e.value ≡ true)
      → uses_of j u mbr ≤ n
      → ((m : ℕ) → m ≢ mbr → uses_of j u m ≤ uses_of j t.match_unit m)
      → Sound j ls laws (counting t u mbr n)
  counting-Sound t u mbr n v valid inv fits points own others = record {
    unit_Inv = inv;
    same_length = length-set t.index_ref_count.mbr_count mbr n ∙ v.same_length;
    below = v.below;
    few = v.few;
    small = λ m c h. elim (set-cases t.index_ref_count.mbr_count mbr n m c room h) [
      | inl (same, is) ↦ omega (arith, is, fits)
      | inr (other, old) ↦ v.small m c old
    ];
    points = points;
    counted = λ m c on h. elim (set-cases t.index_ref_count.mbr_count mbr n m c room h) [
      | inl (same, is) ↦ omega (arith, is, own, ap (uses_of j u) same)
      | inr (other, old) ↦ omega (arith, others m other, v.counted m c on old)
    ];
  }
    where
      room : mbr < length t.index_ref_count.mbr_count
      room = omega (arith, v.same_length, v.below mbr valid)

  pub member-small :
      (t : Table A K S D) (m : ℕ) → Sound j ls laws t → test t.mbr_handles m ≡ true → m < 2 ^ 24
  member-small t m v valid = omega (arith, v.below m valid, v.few)

  -- add_entry behind the check of the member.
  add_entry-run :
      (t : Table A K S D) (match_key : P) (mbr priority now n handle : ℕ) (code : MatchErrorCode)
      (u : MatchUnit A K ℕ S)
      → Sound j ls laws t
      → test t.mbr_handles mbr ≡ true
      → get_elem? t.index_ref_count.mbr_count mbr ≡ some n
      → Units.add_entry j kb ls blank t.match_unit match_key mbr priority now ≡ (code, handle, u)
      → add_entry j kb ls blank match_key mbr priority now t
        ≡ some (code, handle, counting t u mbr ((n + 1) % 2 ^ 32))
  unfolding add_entry is_valid_mbr valid_handle increase
  add_entry-run t match_key mbr priority now n handle code u v valid found run =
      let small = member-small t mbr v valid in
      rw valid (
        rw (make_mbr_index-member mbr small) (
          rw (change-member (λ n. (n + 1) % 2 ^ 32) mbr n t.index_ref_count small found)
            (rw run refl)))

  Added-points :
      (t : Table A K S D) (u' : MatchUnit A K ℕ S) (key : K) (mbr handle h : ℕ) (e : Entry K ℕ)
      → Sound j ls laws t
      → test t.mbr_handles mbr ≡ true
      → Added j kb ls laws blank t.match_unit key mbr handle u'
      → test u'.handles h ≡ true
      → get_elem? u'.entries h ≡ some e
      → test t.mbr_handles e.value ≡ true
  Added-points t u' key mbr handle h e v valid a on found =
      elim (ℕ_discrete (handle_internal handle) h) [
        | yes same ↦
            let is : some a.entry ≡ some e = sym a.there ∙ ap (get_elem? u'.entries) same ∙ found in
            let value : e.value ≡ mbr = ground (arith, is, a.value_now) in
            ap (test t.mbr_handles) value ∙ valid
        | no other ↦
            v.points h e
              (sym (
                  a.used h
                  ∙ ap (λ b. if b then true else test t.match_unit.handles h)
                      (==_ne (handle_internal handle) h other))
                ∙ on)
              (sym (a.others h other) ∙ found)
      ]

  -- Adding an entry for a member in use, whose count does not overflow, gives the code of the match
  -- unit and keeps the table sound, whether the match unit takes the entry or refuses it.
  pub add_entry-Sound :
      (t : Table A K S D) (match_key : P) (mbr priority now n : ℕ)
      → Sound j ls laws t
      → test t.mbr_handles mbr ≡ true
      → get_elem? t.index_ref_count.mbr_count mbr ≡ some n
      → n + 1 < 2 ^ 32
      → (handle : ℕ) × (t' : Table A K S D) × (add_entry j kb ls blank match_key mbr priority now t
          ≡ some (
            add_code j kb ls laws blank t.match_unit match_key
                (entry_key j kb ls laws blank match_key priority),
            handle,
            t',
          ))
        × Sound j ls laws t'
  add_entry-Sound t match_key mbr priority now n v valid found room =
      let key = entry_key j kb ls laws blank match_key priority in
      let u = t.match_unit in
      elim (add_code-cases j kb ls laws blank u match_key key) [
        | inl ok ↦
            let (handle, u', run, a) =
              add_entry-Added j kb ls laws blank u match_key mbr priority now v.unit_Inv ok in
            (
              handle,
              counting t u' mbr ((n + 1) % 2 ^ 32),
              add_entry-run t match_key mbr priority now n handle success u' v valid found run
                  ∙ ap (λ c. some (c, handle, counting t u' mbr ((n + 1) % 2 ^ 32))) (sym ok),
              counting-Sound t u' mbr ((n + 1) % 2 ^ 32) v valid a.inv (omega arith)
                  (λ h e. Added-points t u' key mbr handle h e v valid a)
                  (omega (
                    arith,
                    room,
                    Added-uses j kb ls laws blank u u' key mbr handle mbr a,
                    v.counted mbr n valid found,
                    one_use_le (test u'.handles) mbr (handle_internal handle) a.entry,
                  ))
                  (λ m ne. omega (
                    arith,
                    Added-uses j kb ls laws blank u u' key mbr handle m a,
                    one_use-other (test u'.handles) m (handle_internal handle) a.entry
                        (λ e. ne (sym e ∙ a.value_now)),
                  )),
            )
        | inr refused ↦ (
          0,
          counting t u mbr ((n + 1) % 2 ^ 32),
          add_entry-run t match_key mbr priority now n 0
              (add_code j kb ls laws blank u match_key key) u v valid found
              (add_entry-refused j kb ls laws blank u match_key mbr priority now refused),
          counting-Sound t u mbr ((n + 1) % 2 ^ 32) v valid v.unit_Inv (omega arith) v.points
              (omega (arith, room, v.counted mbr n valid found)) (λ m ne. omega arith),
        )
      ]

  Removed-points :
      (t : Table A K S D) (u' : MatchUnit A K ℕ S) (e : Entry K ℕ) (handle h : ℕ) (x : Entry K ℕ)
      → Sound j ls laws t
      → Removed j kb ls laws blank t.match_unit e handle u'
      → test u'.handles h ≡ true
      → get_elem? u'.entries h ≡ some x
      → test t.mbr_handles x.value ≡ true
  Removed-points t u' e handle h x v r on found = elim (ℕ_discrete (handle_internal handle) h) [
    | yes same ↦ absurd (ground (arith, r.used h, on, same))
    | no other ↦
        v.points h x
          (sym (
              r.used h
              ∙ ap (λ b. if b then false else test t.match_unit.handles h)
                  (==_ne (handle_internal handle) h other))
            ∙ on)
          (sym (r.others h other) ∙ found)
  ]

  delete_entry-run :
      (t : Table A K S D) (handle n : ℕ) (e : Entry K ℕ) (u : MatchUnit A K ℕ S)
      → Sound j ls laws t
      → test t.mbr_handles e.value ≡ true
      → get_elem? t.index_ref_count.mbr_count e.value ≡ some n
      → Units.get_value j kb ls blank t.match_unit handle ≡ (success, some e.value)
      → Units.delete_entry j kb ls blank t.match_unit handle ≡ (success, u)
      → delete_entry j kb ls blank handle t
        ≡ some (success, counting t u e.value ((n + 4294967295) % 2 ^ 32))
  unfolding delete_entry decrease
  delete_entry-run t handle n e u v valid found value run =
      let small = member-small t e.value v valid in
      rw (value, delete_entry)
        (rw (change-member (λ n. (n + 4294967295) % 2 ^ 32) e.value n t.index_ref_count small found)
          (rw run refl))

  -- Deleting by the handle of an entry in use succeeds and keeps the table sound: the count of the
  -- member of the entry, which is not 0, falls by 1.
  pub delete_entry-Sound :
      (t : Table A K S D) (handle : ℕ) (e : Entry K ℕ)
      → Sound j ls laws t
      → test t.match_unit.handles (handle_internal handle) ≡ true
      → get_elem? t.match_unit.entries (handle_internal handle) ≡ some e
      → handle_version handle ≡ e.version
      → (n : ℕ) × (t' : Table A K S D) × (delete_entry j kb ls blank handle t ≡ some (success, t'))
        × Sound j ls laws t'
        × (get_elem? t.index_ref_count.mbr_count e.value ≡ some (n + 1))
        × (get_elem? t'.index_ref_count.mbr_count e.value ≡ some n)
  delete_entry-Sound t handle e v used found same =
      let h = handle_internal handle in
      let u = t.match_unit in
      let valid = v.points h e used found in
      let (c, count) =
        get_elem?-some t.index_ref_count.mbr_count e.value
          (omega (arith, v.same_length, v.below e.value valid)) in
      let (u', run, r) =
        delete_entry-Removed j kb ls laws blank u handle e v.unit_Inv used found same in
      let one = one_use-in_use (test u.handles) e.value h e used refl in
      let few = Removed-uses j kb ls laws blank u u' e handle e.value r found in
      let most = v.counted e.value c valid count in
      let bound = v.small e.value c count in
      let n = (c + 4294967295) % 2 ^ 32 in
      (
        n,
        counting t u' e.value n,
        delete_entry-run t handle c e u' v valid count
            (get_value-in_use j kb ls blank u handle e used found same) run,
        counting-Sound t u' e.value n v valid r.inv (omega arith)
            (λ i x on there. Removed-points t u' e handle i x v r on there)
            (omega (arith, one, few, most, bound))
            (λ m ne. omega (arith, Removed-uses j kb ls laws blank u u' e handle m r found)),
        count ∙ ap some (omega (arith, one, few, most, bound)),
        get_elem?-set_self t.index_ref_count.mbr_count e.value n
            (get_elem?_lt t.index_ref_count.mbr_count e.value c count),
      )

  -- The table after an entry of the member `old` is given to the member `mbr`.
  abbrev pub moved : Table A K S D → MatchUnit A K ℕ S → ℕ → ℕ → ℕ → ℕ → Table A K S D
  moved t u old c mbr n = counting (counting t t.match_unit old c) u mbr n

  pub modify_entry-run :
      (t : Table A K S D) (handle mbr c n : ℕ) (e : Entry K ℕ) (u : MatchUnit A K ℕ S)
      → Sound j ls laws t
      → test t.mbr_handles e.value ≡ true
      → test t.mbr_handles mbr ≡ true
      → get_elem? t.index_ref_count.mbr_count e.value ≡ some c
      → get_elem? (set t.index_ref_count.mbr_count e.value ((c + 4294967295) % 2 ^ 32)) mbr ≡ some n
      → Units.get_value j kb ls blank t.match_unit handle ≡ (success, some e.value)
      → Units.modify_entry j kb ls blank t.match_unit handle mbr ≡ (success, u)
      → modify_entry j kb ls blank handle mbr t
        ≡ some (success, moved t u e.value ((c + 4294967295) % 2 ^ 32) mbr ((n + 1) % 2 ^ 32))
  unfolding modify_entry decrease increase is_valid_mbr valid_handle
  modify_entry-run t handle mbr c n e u v old new count found value run =
      let small = member-small t e.value v old in
      let small' = member-small t mbr v new in
      rw (value, modify_entry)
        (rw (change-member (λ n. (n + 4294967295) % 2 ^ 32) e.value c t.index_ref_count small count)
          (rw new (
            rw (make_mbr_index-member mbr small') (
              rw
                (change-member (λ n. (n + 1) % 2 ^ 32) mbr n
                  (record t.index_ref_count {
                    mbr_count = set t.index_ref_count.mbr_count e.value ((c + 4294967295) % 2 ^ 32);
                  })
                  small' found)
                (rw run refl)))))
