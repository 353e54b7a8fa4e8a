-- ===== src/Units/Remove.antt =====
-- delete_entry: the slot and the key are free afterwards, and the handle is dead.
use native.Mathlib.Decide.{ℕ_discrete}
use behavioral_model.Base.{
  ℕ, ◌+◌, ◌-◌, ◌%◌, ◌^◌, ◌≡◌, ◌≢◌, sym, ap, ◌∙◌, ◌⊎◌, inl, inr, true, false, none, some, ◌==◌,
  ==_iff, refl, if◌then◌else◌, arith, get_elem?, set, length, length-set, get_elem?-set_self,
  get_elem?-set_ne, get_elem?_lt,
}
use behavioral_model.Judy.{Judy1}
use behavioral_model.Handles.{release_handle, valid_handle}
use behavioral_model.Units.{
  MatchUnit, Entry, KeyBuilder, LookupStructure, success, invalid_handle, handle_version,
  handle_internal, unset_handle, delete_entry, get_value,
}
use behavioral_model.Units.Shape.{LookupLaws, Inv, get_value-invalid}

module _ {A P K V S : Type 0} (j : Judy1 A) (kb : KeyBuilder P K) (ls : LookupStructure K S)
    (laws : LookupLaws ls) (blank : Entry K V) where
  open j use {test, count, test-unset, count-unset}
  open laws use {holds}

  -- The unit after the entry `e` in the slot `h` is deleted.
  pub removed : MatchUnit A K V S → ℕ → Entry K V → MatchUnit A K V S
  removed u h e = record u {
    handles = j.unset u.handles h;
    num_entries = u.num_entries - 1;
    entries = set u.entries h (record e { version = (e.version + 1) % 2 ^ 32 });
    lookup_structure = ls.delete_entry u.lookup_structure e.key;
  }

  module _ {u : MatchUnit A K V S} (v : Inv j ls laws u) (h : ℕ) (e : Entry K V)
      (used : test u.handles h ≡ true) (found : get_elem? u.entries h ≡ some e) where
    abbrev after : MatchUnit A K V S
    after = removed u h e

    entries_after :
        (i : ℕ) (x : Entry K V)
        → get_elem? after.entries i ≡ some x
        → ((h ≡ i) × (x.version ≡ (e.version + 1) % 2 ^ 32))
          ⊎ ((h ≢ i) × (get_elem? u.entries i ≡ some x))
    unfolding removed
    entries_after i x there = elim (ℕ_discrete h i) [
      | yes hit ↦
          let bumped : Entry K V = record e { version = (e.version + 1) % 2 ^ 32 } in
          let self = get_elem?-set_self u.entries h bumped (get_elem?_lt u.entries h e found) in
          let at_h : get_elem? after.entries h ≡ some x =
            ap (get_elem? after.entries) hit ∙ there in
          inl (hit, ground (arith, self, at_h))
      | no other ↦ inr (other, sym (get_elem?-set_ne u.entries h i _ other) ∙ there)
    ]

    used_after : (i : ℕ) → test after.handles i ≡ true → (h ≢ i) × (test u.handles i ≡ true)
    unfolding removed
    used_after i on = ground (arith, test-unset u.handles h i)

    -- A key that is left was another key, in another slot.
    held_after :
        (k : K) (i : ℕ)
        → holds after.lookup_structure k ≡ some i
        → (h ≢ i) × (e.key ≢ k) × (holds u.lookup_structure k ≡ some i)
    unfolding removed
    held_after k i held = elim (laws.key_discrete e.key k) [
      | yes same ↦
          absurd
            (ground (arith, laws.holds-delete_self u.lookup_structure e.key, rw (← same) at held))
      | no other ↦
          let old = sym (laws.holds-delete_other u.lookup_structure e.key k other) ∙ held in
          (λ hit. other (v.held_key k h e (old ∙ ap some (sym hit)) found), other, old)
    ]

    pub removed-Inv : Inv j ls laws after
    unfolding removed
    removed-Inv = record {
      size_fits = v.size_fits;
      counted = ground (arith, v.counted, count-unset u.handles h, used);
      below = λ i on. v.below i (used_after i on).1;
      entries_length = length-set u.entries h _ ∙ v.entries_length;
      meta_length = v.meta_length;
      versions = λ i x there. elim (entries_after i x there) [
        | inl (hit, new) ↦ rw new (omega arith)
        | inr (other, old) ↦ v.versions i x old
      ];
      held_used = λ k i held.
          let (other, _, old) = held_after k i held in
          ground (arith, test-unset u.handles h i, v.held_used k i old);
      held_key = λ k i x held there.
          let (other, _, old) = held_after k i held in
          elim (entries_after i x there) [
            | inl (hit, _) ↦ absurd (other hit)
            | inr (_, old') ↦ v.held_key k i x old old'
          ];
      used_held = λ i x on there.
          let (other, was) = used_after i on in
          elim (entries_after i x there) [
            | inl (hit, _) ↦ absurd (other hit)
            | inr (_, old) ↦
                let had = v.used_held i x was old in
                let ne : e.key ≢ x.key = λ same.
                  other (ground (arith, v.used_held h e used found, had, rw (← same) at had)) in
                laws.holds-delete_other u.lookup_structure e.key x.key ne ∙ had
          ];
    }

  -- What deleting the entry `e` gives: the slot and the key are free, and the handle is refused.
  pub record Removed (u : MatchUnit A K V S) (e : Entry K V) (handle : ℕ) (u' : MatchUnit A K V S)
      : Type 0 where
    pub inv : Inv j ls laws u'
    pub key_gone : holds u'.lookup_structure e.key ≡ none
    pub refused : get_value j kb ls blank u' handle ≡ (invalid_handle, none)
    pub fewer : u.num_entries ≡ u'.num_entries + 1
    pub others :
        (i : ℕ) → handle_internal handle ≢ i → get_elem? u'.entries i ≡ get_elem? u.entries i
    pub same_length : length u'.entries ≡ length u.entries
    pub slot :
        get_elem? u'.entries (handle_internal handle)
        ≡ some (record e { version = (e.version + 1) % 2 ^ 32 })
    pub used :
        (i : ℕ)
        → test u'.handles i ≡ (if handle_internal handle == i then false else test u.handles i)

  -- Deleting by the handle of an entry in use succeeds: the invariant holds, the key is gone from the
  -- lookup structure, the handle is invalid, there is one entry less, and no other slot changes.
  pub delete_entry-Removed :
      (u : MatchUnit A K V S) (handle : ℕ) (e : Entry K V)
      → Inv j ls laws u
      → test u.handles (handle_internal handle) ≡ true
      → get_elem? u.entries (handle_internal handle) ≡ some e
      → handle_version handle ≡ e.version
      → (u' : MatchUnit A K V S) × (delete_entry j kb ls blank u handle ≡ (success, u'))
        × Removed u e handle u'
  unfolding delete_entry unset_handle release_handle removed valid_handle
  delete_entry-Removed u handle e v used found same =
      let h = handle_internal handle in
      let bumped : Entry K V = record e { version = (e.version + 1) % 2 ^ 32 } in
      (
        removed u h e,
        rw (used, delete_entry)
            (rw (found, (==_iff (handle_version handle) e.version).1 same, used) refl),
        record {
          inv = removed-Inv v h e used found;
          key_gone = laws.holds-delete_self u.lookup_structure e.key;
          refused =
              get_value-invalid j kb ls blank (removed u h e) handle
                (ground (arith, test-unset u.handles h h));
          others = λ i ne. get_elem?-set_ne u.entries h i bumped ne;
          same_length = length-set u.entries h bumped;
          fewer = ground (arith, v.counted, count-unset u.handles h, used);
          slot = get_elem?-set_self u.entries h bumped (get_elem?_lt u.entries h e found);
          used = test-unset u.handles h;
        },
      )
