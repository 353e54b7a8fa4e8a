-- ===== src/Units/Add.antt =====
-- add_entry on every branch: when it succeeds, what it stores, and that it keeps the invariant.
use behavioral_model.Base.{
  ℕ, zero, suc, ◌+◌, ◌^◌, ◌≤◌, ◌<◌, ◌≡◌, ◌≢◌, refl, sym, ap, ◌∙◌, inl, inr, ◌⊎◌, true, false, none,
  some, List, [], ◌∷◌, ◌==◌, leb, if◌then◌else◌, arith, get_elem?, set, length, length-set,
  get_elem?-set_self, get_elem?-set_ne, leb-false,
}
use native.Mathlib.Decide.{ℕ_discrete}
use behavioral_model.Judy.{Judy1}
use behavioral_model.Handles.{get_handle}
use behavioral_model.Handles.Allocation.{get_handle-set}
use behavioral_model.Units.{
  MatchUnit, Entry, KeyBuilder, LookupStructure, MatchErrorCode, success, table_full,
  duplicate_entry, bad_match_key, handle_set, handle_version, handle_internal, get_and_set_handle,
  store_entry, add_entry, get_value, meta_at,
}
use behavioral_model.Units.Versions.{handle_set-internal, handle_set-version}
use behavioral_model.Units.Shape.{get_value-in_use, LookupLaws, Inv}

-- An index of a list has an element.
pub get_elem?-some :
    {A : Type 0} (xs : List A) (i : ℕ) → i < length xs → (a : A) × (get_elem? xs i ≡ some a)
get_elem?-some [] i lt = absurd (omega arith)
get_elem?-some (x ∷ xs) zero lt = (x, refl)
get_elem?-some (x ∷ xs) (suc i) lt = get_elem?-some xs i (omega arith)

module _ {A P K V S : Type 0} (j : Judy1 A) (kb : KeyBuilder P K) (ls : LookupStructure K S)
    (laws : LookupLaws ls) (blank : Entry K V) where
  open j use {test, count, test-set, count-set}
  open laws use {holds}

  -- The unit after an entry is stored in the slot `h`.
  pub stored : MatchUnit A K V S → K → V → ℕ → ℕ → ℕ → MatchUnit A K V S
  stored u key value now h version = record u {
    handles = j.set u.handles h;
    num_entries = u.num_entries + 1;
    lookup_structure = ls.add_entry u.lookup_structure key h;
    entries = set u.entries h (record { key = key; version = version; value = value });
    entry_meta = set u.entry_meta h (record (meta_at j kb ls blank u h) {
      ts = now;
      bytes = 0;
      packets = 0;
      version = handle_version (handle_set version h);
    });
  }

  module _ {u : MatchUnit A K V S} (v : Inv j ls laws u) (key : K) (value : V) (now h version : ℕ)
      (free : test u.handles h ≡ false) (room : h < u.size) (small : version < 2 ^ 32)
      (absent : holds u.lookup_structure key ≡ none) where
    unheld : (k : K) → holds u.lookup_structure k ≢ some h
    unheld k e = cc (v.held_used k h e)

    abbrev after : MatchUnit A K V S
    after = stored u key value now h version

    entry_self :
        get_elem? after.entries h ≡ some (record { key = key; version = version; value = value })
    unfolding stored
    entry_self = get_elem?-set_self u.entries h _ (omega (arith, v.entries_length))

    entry_other : (i : ℕ) → h ≢ i → get_elem? after.entries i ≡ get_elem? u.entries i
    unfolding stored
    entry_other i ne = get_elem?-set_ne u.entries h i _ ne

    used_other : (i : ℕ) → h ≢ i → test after.handles i ≡ test u.handles i
    unfolding stored
    used_other i ne = ground (arith, test-set u.handles h i)

    held_after :
        (k : K) (i : ℕ)
        → holds after.lookup_structure k ≡ some i
        → ((k ≡ key) × (i ≡ h)) ⊎ ((h ≢ i) × (key ≢ k) × (holds u.lookup_structure k ≡ some i))
    unfolding stored
    held_after k i e = elim (laws.key_discrete key k) [
      | yes same ↦
          let self = laws.holds-add_self u.lookup_structure key h unheld in
          inl (sym same, ground (arith, self, rw (← same) at e))
      | no other ↦
          let old = sym (laws.holds-add_other u.lookup_structure key k h unheld other) ∙ e in
          inr (λ eq. unheld k (old ∙ ap some (sym eq)), other, old)
    ]

    entries_after :
        (i : ℕ) (e : Entry K V)
        → get_elem? after.entries i ≡ some e
        → ((h ≡ i) × (e.key ≡ key) × (e.version ≡ version))
          ⊎ ((h ≢ i) × (get_elem? u.entries i ≡ some e))
    entries_after i e found = elim (ℕ_discrete h i) [
      | yes hit ↦
          let self = entry_self in
          let at_h : get_elem? after.entries h ≡ some e =
            ap (get_elem? after.entries) hit ∙ found in
          inl (hit, ground (arith, self, at_h), ground (arith, self, at_h))
      | no other ↦ inr (other, sym (entry_other i other) ∙ found)
    ]

    used_after : (i : ℕ) → test after.handles i ≡ true → (h ≡ i) ⊎ (test u.handles i ≡ true)
    unfolding stored
    used_after i on = elim (ℕ_discrete h i) [
      | yes hit ↦ inl hit
      | no other ↦ inr (sym (used_other i other) ∙ on)
    ]

    pub stored-Inv : Inv j ls laws after
    unfolding stored
    stored-Inv = record {
      size_fits = v.size_fits;
      counted = ground (arith, v.counted, count-set u.handles h, free);
      below = λ i on. ground (arith, v.below i, test-set u.handles h i);
      entries_length = length-set u.entries h _ ∙ v.entries_length;
      meta_length = length-set u.entry_meta h _ ∙ v.meta_length;
      versions = λ i e found. elim (entries_after i e found) [
        | inl (hit, key', new) ↦ rw new small
        | inr (other, old) ↦ v.versions i e old
      ];
      held_used = λ k i e. elim (held_after k i e) [
        | inl (same, hit) ↦ ground (arith, test-set u.handles h i)
        | inr (other, ne, old) ↦ used_other i other ∙ v.held_used k i old
      ];
      held_key = λ k i e held found. elim (held_after k i held) [
        | inl (same, hit) ↦ elim (entries_after i e found) [
          | inl (_, new, _) ↦ new ∙ sym same
          | inr (other, _) ↦ absurd (other (sym hit))
        ]
        | inr (other, ne, old) ↦ elim (entries_after i e found) [
          | inl (hit, _, _) ↦ absurd (other hit)
          | inr (_, old') ↦ v.held_key k i e old old'
        ]
      ];
      used_held = λ i e on found. elim (entries_after i e found) [
        | inl (hit, new, _) ↦ rw (new, ← hit) (laws.holds-add_self u.lookup_structure key h unheld)
        | inr (other, old) ↦
            let was = v.used_held i e (sym (used_other i other) ∙ on) old in
            let ne : key ≢ e.key = λ same. cc in
            laws.holds-add_other u.lookup_structure key e.key h unheld ne ∙ was
      ];
    }

  -- What a successful add_entry gives: a handle for a slot that was free, whose entry is the new one.
  pub record Added (u : MatchUnit A K V S) (key : K) (value : V) (handle : ℕ)
      (u' : MatchUnit A K V S) : Type 0 where
    pub inv : Inv j ls laws u'
    pub was_free : test u.handles (handle_internal handle) ≡ false
    pub reads : get_value j kb ls blank u' handle ≡ (success, some value)
    pub held : holds u'.lookup_structure key ≡ some (handle_internal handle)
    pub grown : u'.num_entries ≡ u.num_entries + 1
    pub entry : Entry K V
    pub there : get_elem? u'.entries (handle_internal handle) ≡ some entry
    pub version_now : handle_version handle ≡ entry.version
    pub value_now : entry.value ≡ value
    pub others :
        (i : ℕ) → handle_internal handle ≢ i → get_elem? u'.entries i ≡ get_elem? u.entries i
    pub same_length : length u'.entries ≡ length u.entries
    pub version_kept :
        (old : Entry K V)
        → get_elem? u.entries (handle_internal handle) ≡ some old
        → entry.version ≡ old.version
    pub used :
        (i : ℕ)
        → test u'.handles i ≡ (if handle_internal handle == i then true else test u.handles i)

  module _ {u : MatchUnit A K V S} (v : Inv j ls laws u) (key : K) (value : V) (now h version : ℕ)
      (free : test u.handles h ≡ false) (room : h < u.size) (small : version < 2 ^ 32)
      (absent : holds u.lookup_structure key ≡ none)
      (kept : (old : Entry K V) → get_elem? u.entries h ≡ some old → version ≡ old.version) where
    fits : h < 2 ^ 32
    fits = omega (arith, v.size_fits)

    stored-reads :
        get_value j kb ls blank (stored u key value now h version) (handle_set version h)
        ≡ (success, some value)
    unfolding stored
    stored-reads =
        let at_slot = handle_set-internal version h fits in
        get_value-in_use j kb ls blank (stored u key value now h version) (handle_set version h)
          (record { key = key; version = version; value = value })
          (rw at_slot (ground (arith, test-set u.handles h h)))
          (rw at_slot (entry_self v key value now h version free room small absent))
          (handle_set-version version h small fits)

    stored-Added : Added u key value (handle_set version h) (stored u key value now h version)
    unfolding stored
    stored-Added = record {
      inv = stored-Inv v key value now h version free room small absent;
      was_free = rw (handle_set-internal version h fits) free;
      reads = stored-reads;
      held = rw (handle_set-internal version h fits) (
          laws.holds-add_self u.lookup_structure key h
            (unheld v key value now h version free room small absent));
      grown = refl;
      entry = record { key = key; version = version; value = value };
      there =
          rw (handle_set-internal version h fits)
            (entry_self v key value now h version free room small absent);
      version_now = handle_set-version version h small fits;
      value_now = refl;
      others =
          rw (handle_set-internal version h fits)
            (entry_other v key value now h version free room small absent);
      same_length = length-set u.entries h _;
      version_kept = rw (handle_set-internal version h fits) kept;
      used = rw (handle_set-internal version h fits) (test-set u.handles h);
    }

  -- The code of add_entry, from its checks in their order.
  unfoldable pub add_code : MatchUnit A K V S → P → K → MatchErrorCode
  add_code u match_key key =
      if kb.sanity_check match_key
      then (if ls.entry_exists u.lookup_structure key
          then duplicate_entry
          else if leb u.size u.num_entries
          then table_full
          else success)
      else bad_match_key

  abbrev pub entry_key : P → ℕ → K
  entry_key match_key priority = kb.set_priority (kb.apply_big_mask (kb.to_key match_key)) priority

  -- add_entry refuses a malformed key, a key that an entry has and a full table, in this order, and
  -- then leaves the unit as it was.
  pub add_entry-refused :
      (u : MatchUnit A K V S) (match_key : P) (value : V) (priority now : ℕ)
      → add_code u match_key (entry_key match_key priority) ≢ success
      → add_entry j kb ls blank u match_key value priority now
        ≡ (add_code u match_key (entry_key match_key priority), 0, u)
  unfolding add_entry add_code get_and_set_handle
  add_entry-refused u match_key value priority now refused = ground arith

  gets :
      (u : MatchUnit A K V S) (h : ℕ)
      → u.num_entries < u.size
      → get_handle j u.handles ≡ some (h, j.set u.handles h)
      → get_and_set_handle j kb ls blank u
        ≡ (success, h, record u { handles = j.set u.handles h; num_entries = u.num_entries + 1 })
  unfolding get_and_set_handle
  gets u h room run = rw (leb-false u.size u.num_entries room) (rw (run, get_and_set_handle))

  add_run :
      (u : MatchUnit A K V S) (match_key : P) (value : V) (priority now h : ℕ) (old : Entry K V)
      → kb.sanity_check match_key ≡ true
      → ls.entry_exists u.lookup_structure (entry_key match_key priority) ≡ false
      → u.num_entries < u.size
      → get_handle j u.handles ≡ some (h, j.set u.handles h)
      → get_elem? u.entries h ≡ some old
      → add_entry j kb ls blank u match_key value priority now ≡ (
        success,
        handle_set old.version h,
        stored u (entry_key match_key priority) value now h old.version,
      )
  unfolding add_entry store_entry stored meta_at
  add_run u match_key value priority now h old sane new room run found =
      rw (sane, new, gets u h room run) (rw (gets u h room run) (rw (found, store_entry)))

  accepted-Added :
      (u : MatchUnit A K V S) (match_key : P) (value : V) (priority now : ℕ)
      → Inv j ls laws u
      → kb.sanity_check match_key ≡ true
      → ls.entry_exists u.lookup_structure (entry_key match_key priority) ≡ false
      → u.num_entries < u.size
      → (h : ℕ) × (get_handle j u.handles ≡ some (h, j.set u.handles h))
        × (test u.handles h ≡ false)
        × (h ≤ count u.handles)
      → (handle : ℕ) × (u' : MatchUnit A K V S) × (add_entry j kb ls blank u match_key value
            priority now
          ≡ (success, handle, u'))
        × Added u (entry_key match_key priority) value handle u'
  accepted-Added u match_key value priority now v sane new room (h, run, free, small) =
      let key = entry_key match_key priority in
      let below : h < u.size = omega (arith, v.counted) in
      let (old, found) = get_elem?-some u.entries h (omega (arith, v.entries_length)) in
      let absent : holds u.lookup_structure key ≡ none =
        ground (arith, laws.exists-holds u.lookup_structure key) in
      (
        handle_set old.version h,
        stored u key value now h old.version,
        add_run u match_key value priority now h old sane new room run found,
        stored-Added v key value now h old.version free below (v.versions h old found) absent
            (λ x same. ground (arith, found, same)),
      )

  -- While no check refuses it, add_entry succeeds, with a handle for a slot that was free: the invariant
  -- holds, the handle reads the new value, the lookup structure has the key at the handle's slot, and
  -- there is one entry more.
  pub add_entry-Added :
      (u : MatchUnit A K V S) (match_key : P) (value : V) (priority now : ℕ)
      → Inv j ls laws u
      → add_code u match_key (entry_key match_key priority) ≡ success
      → (handle : ℕ) × (u' : MatchUnit A K V S) × (add_entry j kb ls blank u match_key value
            priority now
          ≡ (success, handle, u'))
        × Added u (entry_key match_key priority) value handle u'
  unfolding add_code
  add_entry-Added u match_key value priority now v accepted =
      let sane : kb.sanity_check match_key ≡ true = ground arith in
      let new : ls.entry_exists u.lookup_structure (entry_key match_key priority) ≡ false =
        ground arith in
      let room : u.num_entries < u.size = ground arith in
      accepted-Added u match_key value priority now v sane new room
        (get_handle-set j u.handles (omega (arith, v.counted, v.size_fits)))
