-- ===== src/Units/Refused.antt =====
-- What a match unit refuses: entries that it cannot take, and handles that name no entry in use.
use behavioral_model.Base.{
  ℕ, ◌<◌, ◌≡◌, ◌≢◌, refl, inl, inr, ◌⊎◌, true, none, some, arith, get_elem?, Bool-cases,
  Option-cases, ==_ne,
}
use behavioral_model.Judy.{Judy1}
use behavioral_model.Handles.{valid_handle}
use behavioral_model.Units.{
  MatchUnit, Entry, KeyBuilder, LookupStructure, MatchErrorCode, success, invalid_handle,
  expired_handle, handle_internal, handle_version, add_entry, delete_entry, modify_entry, get_value,
  get_entry,
}
use behavioral_model.Units.Shape.{LookupLaws, Inv}
use behavioral_model.Units.Add.{
  add_code, entry_key, add_entry-refused, add_entry-Added, get_elem?-some,
}

module _ {A P K V S : Type 0} (j : Judy1 A) (kb : KeyBuilder P K) (ls : LookupStructure K S)
    (laws : LookupLaws ls) (blank : Entry K V) where
  open j use {test, count}
  open laws use {holds}

  -- The key is well formed and no entry has it, and a slot is free.
  pub record CanAdd (u : MatchUnit A K V S) (match_key : P) (key : K) : Type 0 where
    pub sane : kb.sanity_check match_key ≡ true
    pub new : holds u.lookup_structure key ≡ none
    pub room : count u.handles < u.size

  add_code-CanAdd :
      (u : MatchUnit A K V S) (match_key : P) (key : K)
      → Inv j ls laws u
      → add_code j kb ls laws blank u match_key key ≡ success
      → CanAdd u match_key key
  unfolding add_code
  add_code-CanAdd u match_key key v e = record {
    sane = ground arith;
    new = elim (Option-cases (holds u.lookup_structure key)) [
      | inl absent ↦ absent
      | inr (h, held) ↦ absurd (ground (arith, e, laws.exists-holds u.lookup_structure key, held))
    ];
    room = ground (arith, e, v.counted);
  }

  CanAdd-add_code :
      (u : MatchUnit A K V S) (match_key : P) (key : K)
      → Inv j ls laws u
      → CanAdd u match_key key
      → add_code j kb ls laws blank u match_key key ≡ success
  unfolding add_code
  CanAdd-add_code u match_key key v c =
      ground (arith, c.sane, c.new, c.room, v.counted, laws.exists-holds u.lookup_structure key)

  add_code-cases :
      (u : MatchUnit A K V S) (match_key : P) (key : K)
      → (add_code j kb ls laws blank u match_key key ≡ success)
        ⊎ (add_code j kb ls laws blank u match_key key ≢ success)
  unfolding add_code
  add_code-cases u match_key key = ground arith

  -- On a unit that satisfies the invariant, add_entry succeeds, and its handle reads the value, exactly
  -- when the key is well formed, the lookup structure does not hold it and fewer handles are in use than
  -- the unit has slots. Otherwise it returns another code and leaves the unit as it was.
  pub add_entry-CanAdd :
      (u : MatchUnit A K V S) (match_key : P) (value : V) (priority now : ℕ)
      → Inv j ls laws u
      → (code : MatchErrorCode) × (handle : ℕ) × (u' : MatchUnit A K V S) × (add_entry j kb ls blank
            u match_key value priority now
          ≡ (code, handle, u'))
        × (((code ≡ success)
              × CanAdd u match_key (entry_key j kb ls laws blank match_key priority)
              × (get_value j kb ls blank u' handle ≡ (success, some value)))
            ⊎ ((code ≢ success)
                × (¬ CanAdd u match_key (entry_key j kb ls laws blank match_key priority))
                × (u' ≡ u)))
  add_entry-CanAdd u match_key value priority now v =
      let key = entry_key j kb ls laws blank match_key priority in
      elim (add_code-cases u match_key key) [
        | inl accepted ↦
            let (handle, u', run, added) =
              add_entry-Added j kb ls laws blank u match_key value priority now v accepted in
            (
              success,
              handle,
              u',
              run,
              inl (refl, add_code-CanAdd u match_key key v accepted, added.reads),
            )
        | inr refused ↦ (
          add_code j kb ls laws blank u match_key key,
          0,
          u,
          add_entry-refused j kb ls laws blank u match_key value priority now refused,
          inr (refused, λ c. refused (CanAdd-add_code u match_key key v c), refl),
        )
      ]

  -- A handle that names no entry in use, since its slot is free or has another version, is refused by
  -- delete_entry, modify_entry, get_value and get_entry with one code, and nothing changes.
  pub handle-refused :
      (u : MatchUnit A K V S) (handle : ℕ) (value : V)
      → Inv j ls laws u
      → ((e : Entry K V)
          → test u.handles (handle_internal handle) ≡ true
          → get_elem? u.entries (handle_internal handle) ≡ some e
          → handle_version handle ≢ e.version)
      → (code : MatchErrorCode) × (code ≢ success)
        × (delete_entry j kb ls blank u handle ≡ (code, u))
        × (modify_entry j kb ls blank u handle value ≡ (code, u))
        × (get_value j kb ls blank u handle ≡ (code, none))
        × (get_entry j kb ls blank u handle ≡ (code, none))
  unfolding delete_entry modify_entry get_value get_entry valid_handle
  handle-refused u handle value v dead =
      elim (Bool-cases (test u.handles (handle_internal handle))) [
        | inl used ↦
            let room = v.below (handle_internal handle) used in
            let (e, found) =
              get_elem?-some u.entries (handle_internal handle)
                (omega (arith, room, v.entries_length)) in
            let other = ==_ne (handle_version handle) e.version (dead e used found) in
            (
              expired_handle,
              λ z. absurd (cc z),
              rw (used, delete_entry) (rw (found, other) refl),
              rw (used, modify_entry) (rw (found, other) refl),
              rw (used, get_value) (rw (found, other) refl),
              rw (used, get_entry) (rw (found, other) refl),
            )
        | inr unused ↦
            (invalid_handle, λ z. absurd (cc z), rw unused, rw unused, rw unused, rw unused)
      ]
