-- ===== src/Units/Stale.antt =====
-- Handles of deleted entries, and the operations that a bad handle reaches.
use behavioral_model.Base.{
  ℕ, ◌+◌, ◌%◌, ◌^◌, ◌<◌, ◌≡◌, ◌≢◌, sym, ap, ◌∙◌, inl, inr, true, false, none, some, ◌==◌,
  if◌then◌else◌, arith, get_elem?, Bool-cases, ==_iff, refl, set, ◌⊎◌, get_elem?-set_self,
  get_elem?_lt,
}
use native.Mathlib.Decide.{ℕ_discrete}
use behavioral_model.Judy.{Judy1}
use behavioral_model.Handles.{valid_handle}
use behavioral_model.Units.{
  MatchUnit, Entry, KeyBuilder, LookupStructure, MatchErrorCode, success, invalid_handle,
  expired_handle, handle_version, handle_internal, add_entry, delete_entry, get_value,
  set_entry_ttl, EntryMeta,
}
use behavioral_model.Units.Shape.{LookupLaws, Inv, get_value-expired, get_value-invalid}
use behavioral_model.Units.Add.{add_code, entry_key, Added, add_entry-Added, get_elem?-some}
use behavioral_model.Units.Remove.{Removed, delete_entry-Removed}

module _ {A P K V S : Type 0} (j : Judy1 A) (kb : KeyBuilder P K) (ls : LookupStructure K S)
    (laws : LookupLaws ls) (blank : Entry K V) where
  open j use {test}

  -- What set_entry_ttl does by the handle of a deleted entry, once the entry of `handle'` is added: it
  -- sets the timeout of this entry, where it has the same slot, or nothing.
  abbrev pub TtlOutcome : MatchUnit A K V S → ℕ → ℕ → ℕ → Type 0
  TtlOutcome u handle handle' ttl_ms =
      ((handle_internal handle' ≡ handle_internal handle)
        × (u' : MatchUnit A K V S) × (m : EntryMeta) × (set_entry_ttl j kb ls blank u handle ttl_ms
            ≡ (success, u'))
        × (get_elem? u.entry_meta (handle_internal handle') ≡ some m)
        × (get_elem? u'.entry_meta (handle_internal handle')
            ≡ some (record m { timeout_ms = ttl_ms }))
        × (get_value j kb ls blank u' handle' ≡ get_value j kb ls blank u handle'))
      ⊎ ((handle_internal handle' ≢ handle_internal handle)
          × (set_entry_ttl j kb ls blank u handle ttl_ms ≡ (invalid_handle, u)))

  -- The handle of an entry that was deleted before the entry of `handle'` was added.
  module _ (u1 u2 : MatchUnit A K V S) (u : MatchUnit A K V S) (handle handle' : ℕ) (e : Entry K V)
      (key : K) (value : V) (same : handle_version handle ≡ e.version)
      (bounded : e.version < 2 ^ 32) (gone : Removed j kb ls laws blank u e handle u1)
      (added : Added j kb ls laws blank u1 key value handle' u2) where
    stale-get_value : get_value j kb ls blank u2 handle ≡ (
      (if handle_internal handle' == handle_internal handle
          then expired_handle
          else invalid_handle),
      none,
    )
    stale-get_value = elim (Bool-cases (handle_internal handle' == handle_internal handle)) [
      | inl again ↦
          let eq = (==_iff (handle_internal handle') (handle_internal handle)).0 again in
          let bumped : Entry K V = record e { version = (e.version + 1) % 2 ^ 32 } in
          let kept = added.version_kept bumped (rw eq gone.slot) in
          rw again (
            get_value-expired j kb ls blank u2 handle added.entry
              (ground (arith, added.used (handle_internal handle))) (rw (← eq) added.there)
              (ground (arith, kept)))
      | inr apart ↦ rw apart (
          get_value-invalid j kb ls blank u2 handle (
            ground
              (arith, added.used (handle_internal handle), gone.used (handle_internal handle))))
    ]

    stale-set_entry_ttl : (ttl_ms : ℕ) → TtlOutcome u2 handle handle' ttl_ms
    unfolding set_entry_ttl valid_handle get_value
    stale-set_entry_ttl ttl_ms =
        elim (ℕ_discrete (handle_internal handle') (handle_internal handle)) [
          | yes eq ↦
              let on : test u2.handles (handle_internal handle) ≡ true =
                ground (arith, added.used (handle_internal handle), eq) in
              let (m, found) = get_elem?-some u2.entry_meta (handle_internal handle) (
                omega
                  (arith, added.inv.meta_length, added.inv.below (handle_internal handle) on)) in
              let set_to : EntryMeta = record m { timeout_ms = ttl_ms } in
              inl (
                eq,
                record u2 { entry_meta = set u2.entry_meta (handle_internal handle) set_to },
                m,
                rw (on, set_entry_ttl) (rw (found, set_entry_ttl) refl),
                ap (get_elem? u2.entry_meta) eq ∙ found,
                ap (get_elem? (set u2.entry_meta (handle_internal handle) set_to)) eq
                    ∙ get_elem?-set_self u2.entry_meta (handle_internal handle) set_to
                        (get_elem?_lt u2.entry_meta (handle_internal handle) m found),
                refl,
              )
          | no other ↦
              let off : test u2.handles (handle_internal handle) ≡ false = ground (
                arith,
                added.used (handle_internal handle),
                gone.used (handle_internal handle),
                other,
              ) in
              inr (other, rw off)
        ]

  module _ (u : MatchUnit A K V S) (handle : ℕ) (e : Entry K V) (u1 : MatchUnit A K V S)
      (match_key : P) (value : V) (priority now ttl_ms : ℕ) (v : Inv j ls laws u)
      (used : test u.handles (handle_internal handle) ≡ true)
      (found : get_elem? u.entries (handle_internal handle) ≡ some e)
      (same : handle_version handle ≡ e.version)
      (deleted : delete_entry j kb ls blank u handle ≡ (success, u1))
      (accepted : add_code j kb ls laws blank u1 match_key
          (entry_key j kb ls laws blank match_key priority)
        ≡ success) where
    gone : Removed j kb ls laws blank u e handle u1
    gone =
        let (u', run, r) = delete_entry-Removed j kb ls laws blank u handle e v used found same in
        let eq : u' ≡ u1 =
          ap (λ (x : MatchErrorCode × MatchUnit A K V S). x.1) (sym run ∙ deleted) in
        rw (← eq) r

    -- The handle of a deleted entry never reads the entry that is added next: it is expired if that entry
    -- has the same slot, and invalid otherwise.
    pub get_value-stale :
        (handle' : ℕ) × (u2 : MatchUnit A K V S) × (add_entry j kb ls blank u1 match_key value
            priority now
          ≡ (success, handle', u2))
        × (get_value j kb ls blank u2 handle ≡ (
          (if handle_internal handle' == handle_internal handle
              then expired_handle
              else invalid_handle),
          none,
        ))
    get_value-stale =
        let (handle', u2, run, added) =
          add_entry-Added j kb ls laws blank u1 match_key value priority now gone.inv accepted in
        (
          handle',
          u2,
          run,
          stale-get_value u1 u2 u handle handle' e (entry_key j kb ls laws blank match_key priority)
              value same (v.versions (handle_internal handle) e found) gone added,
        )

    -- set_entry_ttl does not look at the version: with the handle of a deleted entry it succeeds and
    -- sets the timeout of the entry that is added next, if that entry has the same slot; otherwise it
    -- refuses the handle and changes nothing.
    pub set_entry_ttl-stale :
        (handle' : ℕ) × (u2 : MatchUnit A K V S) × (add_entry j kb ls blank u1 match_key value
            priority now
          ≡ (success, handle', u2))
        × TtlOutcome u2 handle handle' ttl_ms
    set_entry_ttl-stale =
        let (handle', u2, run, added) =
          add_entry-Added j kb ls laws blank u1 match_key value priority now gone.inv accepted in
        (
          handle',
          u2,
          run,
          stale-set_entry_ttl u1 u2 u handle handle' e
              (entry_key j kb ls laws blank match_key priority) value same
              (v.versions (handle_internal handle) e found) gone added ttl_ms,
        )
