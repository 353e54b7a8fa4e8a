-- ===== src/Tables/Modify.antt =====
-- modify_entry of an indirect match table: the entry names another member afterwards.
use behavioral_model.Base.{
  ℕ, ◌+◌, ◌%◌, ◌^◌, ◌≤◌, ◌<◌, true, some, get_elem?, set, ◌≡◌, ◌≢◌, refl, sym, ap, ◌∙◌, arith, ◌⊎◌,
  inl, inr, get_elem?-set_self, get_elem?-set_ne, get_elem?_lt, length-set, ◌==◌, if◌then◌else◌,
}
use native.Mathlib.Decide.{ℕ_discrete}
use behavioral_model.Judy.{Judy1}
use behavioral_model.Units.{
  MatchUnit, Entry, KeyBuilder, LookupStructure, MatchErrorCode, success, handle_internal,
  handle_version,
}
use behavioral_model.Units as Units
use behavioral_model.Units.Shape.{LookupLaws, get_value-in_use}
use behavioral_model.Units.Add.{get_elem?-some}
use behavioral_model.Units.Hit.{changed, changed-Inv, modify_entry-changed}
use behavioral_model.Tables.{Table, modify_entry}
use behavioral_model.Tables.Uses.{one_use-uses, one_use-in_use, one_use-other, one_use_le}
use behavioral_model.Tables.Slots.{changed-uses}
use behavioral_model.Tables.Counts.{moved-counts}
use behavioral_model.Tables.Entries.{moved, modify_entry-run}
use behavioral_model.Tables.Sound.{set-cases, uses_of, Sound}

module _ {A P K S D : Type 0} (j : Judy1 A) (kb : KeyBuilder P K) (ls : LookupStructure K S)
    (laws : LookupLaws ls) (blank : Entry K ℕ) where
  open j use {test}

  -- The counts after the entry `e` in the slot `h`, the `c`-th of its member, is given to `mbr`.
  module _ (t : Table A K S D) (h mbr c n : ℕ) (e : Entry K ℕ) (v : Sound j ls laws t)
      (used : test t.match_unit.handles h ≡ true)
      (found : get_elem? t.match_unit.entries h ≡ some e)
      (count : get_elem? t.index_ref_count.mbr_count e.value ≡ some c)
      (count' : get_elem? (set t.index_ref_count.mbr_count e.value ((c + 4294967295) % 2 ^ 32)) mbr
        ≡ some n)
      (room : (k : ℕ) → get_elem? t.index_ref_count.mbr_count mbr ≡ some k → k + 1 < 2 ^ 32) where
    abbrev u : MatchUnit A K ℕ S
    u = t.match_unit

    abbrev u' : MatchUnit A K ℕ S
    u' = changed j kb ls laws blank u h e mbr

    abbrev entry : Entry K ℕ
    entry = record e { value = mbr }

    least : 1 ≤ uses_of j u e.value
    least = omega (
      arith,
      one_use-in_use (test u.handles) e.value h e used refl,
      one_use-uses (test u.handles) e.value 0 h h u.entries e (omega arith) found,
    )

    most : uses_of j u e.value ≤ c
    most = v.counted e.value c (v.points h e used found) count

    -- The new member.
    counted_mbr : test t.mbr_handles mbr ≡ true → uses_of j u' mbr ≤ (n + 1) % 2 ^ 32
    counted_mbr valid =
        let change = changed-uses j kb ls laws blank u h e mbr mbr found in
        let one = one_use_le (test u.handles) mbr h entry in
        elim (set-cases t.index_ref_count.mbr_count e.value ((c + 4294967295) % 2 ^ 32) mbr n
          (get_elem?_lt t.index_ref_count.mbr_count e.value c count) count') [
            | inl (same, is) ↦ omega (
              arith,
              change,
              one,
              one_use-in_use (test u.handles) mbr h e used (sym same),
              most,
              least,
              is,
              ap (uses_of j u) same,
              v.small e.value c count,
            )
            | inr (other, old) ↦ omega (arith, change, one, room n old, v.counted mbr n valid old)
          ]

    -- Another member.
    counted_other :
        (m d : ℕ)
        → m ≢ mbr
        → test t.mbr_handles m ≡ true
        → get_elem? (set t.index_ref_count.mbr_count e.value ((c + 4294967295) % 2 ^ 32)) m ≡ some d
        → uses_of j u' m ≤ d
    counted_other m d ne on there =
        let change = changed-uses j kb ls laws blank u h e mbr m found in
        let none_new = one_use-other (test u.handles) m h entry (λ z. ne (sym z)) in
        elim (set-cases t.index_ref_count.mbr_count e.value ((c + 4294967295) % 2 ^ 32) m d
          (get_elem?_lt t.index_ref_count.mbr_count e.value c count) there) [
            | inl (same, is) ↦ omega (
              arith,
              change,
              none_new,
              one_use-in_use (test u.handles) m h e used (sym same),
              most,
              least,
              is,
              ap (uses_of j u) same,
              v.small e.value c count,
            )
            | inr (other, old) ↦ omega (arith, change, none_new, v.counted m d on old)
          ]

    small_count :
        (m d : ℕ)
        → get_elem? (set t.index_ref_count.mbr_count e.value ((c + 4294967295) % 2 ^ 32)) m ≡ some d
        → d < 2 ^ 32
    small_count m d there =
        elim (set-cases t.index_ref_count.mbr_count e.value ((c + 4294967295) % 2 ^ 32) m d
          (get_elem?_lt t.index_ref_count.mbr_count e.value c count) there) [
            | inl (same, is) ↦ omega (arith, is)
            | inr (other, old) ↦ v.small m d old
          ]

    points_now :
        test t.mbr_handles mbr ≡ true
        → (i : ℕ) (x : Entry K ℕ) → test u'.handles i ≡ true
        → get_elem? u'.entries i ≡ some x
        → test t.mbr_handles x.value ≡ true
    unfolding changed
    points_now valid i x on there = elim (ℕ_discrete h i) [
      | yes same ↦
          let is : some entry ≡ some x =
            sym (get_elem?-set_self u.entries h entry (get_elem?_lt u.entries h e found))
            ∙ ap (get_elem? (set u.entries h entry)) same
            ∙ there in
          let value : x.value ≡ mbr = ground (arith, is) in ap (test t.mbr_handles) value ∙ valid
      | no other ↦ v.points i x on (sym (get_elem?-set_ne u.entries h i entry other) ∙ there)
    ]

    moved-Sound :
        test t.mbr_handles mbr ≡ true
        → Sound j ls laws (
            moved j kb ls laws blank t u' e.value
              ((c + 4294967295) % 2 ^ 32)
              mbr
              ((n + 1) % 2 ^ 32))
    moved-Sound valid = record {
      unit_Inv = changed-Inv j kb ls laws blank v.unit_Inv h e found mbr;
      same_length =
          length-set (set t.index_ref_count.mbr_count e.value ((c + 4294967295) % 2 ^ 32)) mbr
            ((n + 1) % 2 ^ 32)
          ∙ length-set t.index_ref_count.mbr_count e.value ((c + 4294967295) % 2 ^ 32)
          ∙ v.same_length;
      below = v.below;
      few = v.few;
      small = λ m d there. elim (cases m d there) [
        | inl (same, is) ↦ omega (arith, is)
        | inr (other, old) ↦ small_count m d old
      ];
      points = points_now valid;
      counted = λ m d on there. elim (cases m d there) [
        | inl (same, is) ↦ omega (arith, is, counted_mbr valid, ap (uses_of j u') same)
        | inr (other, old) ↦ counted_other m d other on old
      ];
    }
      where
        cases :
            (m d : ℕ)
            → get_elem?
                (set
                  (set t.index_ref_count.mbr_count e.value ((c + 4294967295) % 2 ^ 32))
                  mbr
                  ((n + 1) % 2 ^ 32))
                m
              ≡ some d
            → ((m ≡ mbr) × (d ≡ (n + 1) % 2 ^ 32))
              ⊎ ((m ≢ mbr)
                  × (get_elem?
                        (set t.index_ref_count.mbr_count e.value ((c + 4294967295) % 2 ^ 32))
                        m
                      ≡ some d))
        cases m d there =
            set-cases (set t.index_ref_count.mbr_count e.value ((c + 4294967295) % 2 ^ 32)) mbr
              ((n + 1) % 2 ^ 32) m d
              (get_elem?_lt (set t.index_ref_count.mbr_count e.value ((c + 4294967295) % 2 ^ 32))
                mbr n count')
              there

  -- modify_entry of an entry in use, for a member in use whose count does not overflow, succeeds: the
  -- handle reads the new member, the table stays sound, and of the counts that of the old member is one
  -- less, that of the new one is one more, and the others are as before; all are, where both are the
  -- same member.
  pub modify_entry-Sound :
      (t : Table A K S D) (handle mbr : ℕ) (e : Entry K ℕ)
      → Sound j ls laws t
      → test t.match_unit.handles (handle_internal handle) ≡ true
      → get_elem? t.match_unit.entries (handle_internal handle) ≡ some e
      → handle_version handle ≡ e.version
      → test t.mbr_handles mbr ≡ true
      → ((n : ℕ) → get_elem? t.index_ref_count.mbr_count mbr ≡ some n → n + 1 < 2 ^ 32)
      → (t' : Table A K S D) × (modify_entry j kb ls blank handle mbr t ≡ some (success, t'))
        × Sound j ls laws t'
        × (Units.get_value j kb ls blank t'.match_unit handle ≡ (success, some mbr))
        × ((m k : ℕ)
            → get_elem? t.index_ref_count.mbr_count m ≡ some k
            → (k' : ℕ) × (get_elem? t'.index_ref_count.mbr_count m ≡ some k')
              × (k' + (if m == e.value then 1 else 0) ≡ k + (if m == mbr then 1 else 0)))
  unfolding changed
  modify_entry-Sound t handle mbr e v used found same valid room =
      let h = handle_internal handle in
      let l = t.index_ref_count.mbr_count in
      let old = v.points h e used found in
      let (c, count) =
        get_elem?-some l e.value (omega (arith, v.same_length, v.below e.value old)) in
      let c1 = (c + 4294967295) % 2 ^ 32 in
      let (n, count') =
        get_elem?-some (set l e.value c1) mbr
          (omega (arith, v.same_length, v.below mbr valid, length-set l e.value c1)) in
      let u' = changed j kb ls laws blank t.match_unit h e mbr in
      (
        moved j kb ls laws blank t u' e.value c1 mbr ((n + 1) % 2 ^ 32),
        modify_entry-run j kb ls laws blank t handle mbr c n e u' v old valid count count'
            (get_value-in_use j kb ls blank t.match_unit handle e used found same)
            (modify_entry-changed j kb ls laws blank t.match_unit handle e mbr used found same),
        moved-Sound t h mbr c n e v used found count count' room valid,
        get_value-in_use j kb ls blank u' handle (record e { value = mbr }) used
            (get_elem?-set_self t.match_unit.entries h (record e { value = mbr })
              (get_elem?_lt t.match_unit.entries h e found))
            same,
        λ m k at_m.
            moved-counts l e.value mbr c n m k count
              (omega (
                arith,
                least t h mbr c n e v used found count count' room,
                most t h mbr c n e v used found count count' room,
              ))
              (v.small e.value c count) count' room at_m,
      )
