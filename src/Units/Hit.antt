-- ===== src/Units/Hit.antt =====
-- lookup and modify_entry of entries in use.
use behavioral_model.Base.{
  ℕ, ◌+◌, ◌%◌, ◌^◌, ◌<◌, ◌≡◌, ◌≢◌, refl, sym, ap, ◌∙◌, true, some, List, arith, inl, inr, get_elem?,
  set, length-set, get_elem?-set_self, get_elem?-set_ne, get_elem?_lt, Bool-cases, ==_iff,
}
use native.Mathlib.Decide.{ℕ_discrete}
use behavioral_model.Judy.{Judy1}
use behavioral_model.Handles.{valid_handle}
use behavioral_model.Units.{
  MatchUnit, Entry, EntryMeta, Packet, KeyBuilder, LookupStructure, success, get_value,
  modify_entry, lookup, lookup_key, meta_at, handle_set, handle_internal, handle_version,
}
use behavioral_model.Units.Versions.{handle_set-internal, handle_set-version, handle-eq}
use behavioral_model.Units.Shape.{LookupLaws, Inv, get_value-in_use, get_value-expired}
use behavioral_model.Units.Add.{get_elem?-some}

module _ {A P K V S : Type 0} (j : Judy1 A) (kb : KeyBuilder P K) (ls : LookupStructure K S)
    (laws : LookupLaws ls) (blank : Entry K V) where
  open j use {test}
  open laws use {holds}

  -- What a packet leaves in the metadata of the entry that it hits.
  pub record Counted (before after : EntryMeta) (pkt : Packet) : Type 0 where
    pub time : after.ts ≡ pkt.ingress_ts_ms
    pub one_packet : after.packets ≡ (before.packets + 1) % 2 ^ 64
    pub more_bytes : after.bytes ≡ (before.bytes + pkt.ingress_length) % 2 ^ 64
    pub same_timeout : after.timeout_ms ≡ before.timeout_ms
    pub same_version : after.version ≡ before.version

  -- The unit after a hit on the slot `h`.
  unfoldable pub hit : MatchUnit A K V S → Packet → ℕ → EntryMeta → MatchUnit A K V S
  hit u pkt h m = record u {
    entry_meta = set u.entry_meta h (record m {
      ts = pkt.ingress_ts_ms;
      bytes = (m.bytes + pkt.ingress_length) % 2 ^ 64;
      packets = (m.packets + 1) % 2 ^ 64;
    });
  }

  pub hit-Inv :
      (u : MatchUnit A K V S) (pkt : Packet) (h : ℕ) (m : EntryMeta)
      → Inv j ls laws u
      → Inv j ls laws (hit u pkt h m)
  unfolding hit
  hit-Inv u pkt h m v = record {
    size_fits = v.size_fits;
    counted = v.counted;
    below = v.below;
    entries_length = v.entries_length;
    meta_length = length-set u.entry_meta h _ ∙ v.meta_length;
    versions = v.versions;
    held_used = v.held_used;
    held_key = v.held_key;
    used_held = v.used_held;
  }

  meta_at-run :
      (u : MatchUnit A K V S) (h : ℕ) (m : EntryMeta)
      → get_elem? u.entry_meta h ≡ some m
      → meta_at j kb ls blank u h ≡ m
  unfolding meta_at
  meta_at-run u h m found = rw (found, meta_at) refl

  lookup_key-run :
      (u : MatchUnit A K V S) (key : List ℕ) (h : ℕ) (e : Entry K V)
      → ls.lookup u.lookup_structure key ≡ some h
      → get_elem? u.entries h ≡ some e
      → lookup_key j kb ls blank u key ≡ some (handle_set e.version h, e.value)
  unfolding lookup_key
  lookup_key-run u key h e found there = rw (found, lookup_key) (rw there refl)

  pub lookup-run :
      (u : MatchUnit A K V S) (pkt : Packet) (key : List ℕ) (h : ℕ) (e : Entry K V) (m : EntryMeta)
      → h < 2 ^ 32
      → ls.lookup u.lookup_structure key ≡ some h
      → get_elem? u.entries h ≡ some e
      → get_elem? u.entry_meta h ≡ some m
      → lookup j kb ls blank u pkt key ≡ (some (handle_set e.version h, e.value), hit u pkt h m)
  unfolding lookup hit
  lookup-run u pkt key h e m small found there meta =
      let at_slot = handle_set-internal e.version h small in
      let m_is : meta_at j kb ls blank u h ≡ m = meta_at-run u h m meta in
      rw (lookup_key-run u key h e found there, lookup) (rw at_slot (rw m_is refl))

  -- When the lookup structure finds a slot for a packet's key, the lookup succeeds: it gives the
  -- value of an entry in use and the handle by which get_value reads this value; the packet and its
  -- bytes are counted in the metadata of that slot and its time is taken, and the invariant holds
  -- afterwards.
  pub lookup-Counted :
      (u : MatchUnit A K V S) (pkt : Packet) (key : List ℕ) (h : ℕ)
      → Inv j ls laws u
      → ls.lookup u.lookup_structure key ≡ some h
      → (handle : ℕ) × (value : V) × (u' : MatchUnit A K V S) × (m m' : EntryMeta) × (lookup j kb ls
            blank u pkt key
          ≡ (some (handle, value), u'))
        × (handle_internal handle ≡ h)
        × (get_value j kb ls blank u' handle ≡ (success, some value))
        × (get_elem? u.entry_meta h ≡ some m)
        × (get_elem? u'.entry_meta h ≡ some m')
        × Counted m m' pkt
        × Inv j ls laws u'
  unfolding hit
  lookup-Counted u pkt key h v found =
      let (k, held) = laws.lookup-holds u.lookup_structure key h found in
      let on = v.held_used k h held in
      let room = v.below h on in
      let small : h < 2 ^ 32 = omega (arith, v.size_fits) in
      let (e, there) = get_elem?-some u.entries h (omega (arith, v.entries_length)) in
      let (m, meta) = get_elem?-some u.entry_meta h (omega (arith, v.meta_length)) in
      let at_slot = handle_set-internal e.version h small in
      (
        handle_set e.version h,
        e.value,
        hit u pkt h m,
        m,
        _,
        lookup-run u pkt key h e m small found there meta,
        at_slot,
        get_value-in_use j kb ls blank (hit u pkt h m) (handle_set e.version h) e (rw at_slot on)
            (rw at_slot there) (handle_set-version e.version h (v.versions h e there) small),
        meta,
        get_elem?-set_self u.entry_meta h _ (omega (arith, v.meta_length)),
        record {
          time = refl;
          one_packet = refl;
          more_bytes = refl;
          same_timeout = refl;
          same_version = refl;
        },
        hit-Inv u pkt h m v,
      )

  -- The unit after a new value in the slot `h`, whose entry was `e`.
  unfoldable pub changed : MatchUnit A K V S → ℕ → Entry K V → V → MatchUnit A K V S
  changed u h e value = record u { entries = set u.entries h (record e { value = value }) }

  module _ {u : MatchUnit A K V S} (v : Inv j ls laws u) (h : ℕ) (e : Entry K V)
      (there : get_elem? u.entries h ≡ some e) (value : V) where
    entry_before :
        (i : ℕ) (x : Entry K V)
        → get_elem? (changed u h e value).entries i ≡ some x
        → (old : Entry K V) × (get_elem? u.entries i ≡ some old)
          × (old.key ≡ x.key)
          × (old.version ≡ x.version)
    unfolding changed
    entry_before i x found = elim (ℕ_discrete h i) [
      | yes same ↦
          let self =
            get_elem?-set_self u.entries h (record e { value = value })
              (get_elem?_lt u.entries h e there) in
          let is : record e { value = value } ≡ x = cc (self, found, same) in
          (
            e,
            cc (there, same),
            ap (λ (y : Entry K V). y.key) is,
            ap (λ (y : Entry K V). y.version) is,
          )
      | no other ↦ (x, sym (get_elem?-set_ne u.entries h i _ other) ∙ found, refl, refl)
    ]

    pub changed-Inv : Inv j ls laws (changed u h e value)
    unfolding changed
    changed-Inv = record {
      size_fits = v.size_fits;
      counted = v.counted;
      below = v.below;
      entries_length = length-set u.entries h _ ∙ v.entries_length;
      meta_length = v.meta_length;
      versions = λ i x found.
          let (old, was, _, same) = entry_before i x found in rw (← same) (v.versions i old was);
      held_used = v.held_used;
      held_key = λ k i x held found.
          let (old, was, same, _) = entry_before i x found in
          sym same ∙ v.held_key k i old held was;
      used_held = λ i x on found.
          let (old, was, same, _) = entry_before i x found in
          rw (← same) (v.used_held i old on was);
    }

  changed_used :
      (u : MatchUnit A K V S) (h : ℕ) (e : Entry K V) (value : V)
      → test u.handles h ≡ true
      → test (changed u h e value).handles h ≡ true
  unfolding changed
  changed_used u h e value used = used

  changed_there :
      (u : MatchUnit A K V S) (h : ℕ) (e : Entry K V) (value : V)
      → get_elem? u.entries h ≡ some e
      → get_elem? (changed u h e value).entries h ≡ some (record e { value = value })
  unfolding changed
  changed_there u h e value there =
      get_elem?-set_self u.entries h _ (get_elem?_lt u.entries h e there)

  pub modify_entry-changed :
      (u : MatchUnit A K V S) (handle : ℕ) (e : Entry K V) (value : V)
      → test u.handles (handle_internal handle) ≡ true
      → get_elem? u.entries (handle_internal handle) ≡ some e
      → handle_version handle ≡ e.version
      → modify_entry j kb ls blank u handle value
        ≡ (success, changed u (handle_internal handle) e value)
  unfolding modify_entry changed valid_handle
  modify_entry-changed u handle e value used there same =
      rw (used, modify_entry) (rw (there, (==_iff (handle_version handle) e.version).1 same) refl)

  get_value-changed_other :
      (u : MatchUnit A K V S) (h : ℕ) (e : Entry K V) (value : V) (handle : ℕ)
      → h ≢ handle_internal handle
      → get_value j kb ls blank (changed u h e value) handle ≡ get_value j kb ls blank u handle
  unfolding get_value changed
  get_value-changed_other u h e value handle other =
      let same =
        get_elem?-set_ne u.entries h (handle_internal handle) (record e { value = value }) other in
      elim (Bool-cases (valid_handle j u.handles (handle_internal handle))) [
        | inl used ↦ rw (used, get_value) (rw same refl)
        | inr unused ↦ rw (unused, get_value) refl
      ]

  -- A handle of the same slot with another version is expired before and after.
  get_value-changed_stale :
      (u : MatchUnit A K V S) (e : Entry K V) (value : V) (other : ℕ)
      → test u.handles (handle_internal other) ≡ true
      → get_elem? u.entries (handle_internal other) ≡ some e
      → handle_version other ≢ e.version
      → get_value j kb ls blank (changed u (handle_internal other) e value) other
        ≡ get_value j kb ls blank u other
  unfolding changed
  get_value-changed_stale u e value other used there stale =
      get_value-expired j kb ls blank (changed u (handle_internal other) e value) other
        (record e { value = value }) used
        (get_elem?-set_self u.entries (handle_internal other) _ (get_elem?_lt u.entries _ e there))
        stale
      ∙ sym (get_value-expired j kb ls blank u other e used there stale)

  -- modify_entry of an entry in use succeeds: the handle reads the new value, every other handle, of
  -- this slot or of another, reads what it read before, and the invariant holds.
  pub modify_entry-reads :
      (u : MatchUnit A K V S) (handle : ℕ) (e : Entry K V) (value : V)
      → Inv j ls laws u
      → test u.handles (handle_internal handle) ≡ true
      → get_elem? u.entries (handle_internal handle) ≡ some e
      → handle_version handle ≡ e.version
      → (u' : MatchUnit A K V S) × (modify_entry j kb ls blank u handle value ≡ (success, u'))
        × (get_value j kb ls blank u' handle ≡ (success, some value))
        × ((other : ℕ)
            → other ≢ handle
            → get_value j kb ls blank u' other ≡ get_value j kb ls blank u other)
        × Inv j ls laws u'
  modify_entry-reads u handle e value v used there same =
      let u' = changed u (handle_internal handle) e value in
      (
        u',
        modify_entry-changed u handle e value used there same,
        get_value-in_use j kb ls blank u' handle (record e { value = value })
            (changed_used u (handle_internal handle) e value used)
            (changed_there u (handle_internal handle) e value there) same,
        λ other apart. elim (ℕ_discrete (handle_internal handle) (handle_internal other)) [
          | yes slot ↦
              ap (λ h. get_value j kb ls blank (changed u h e value) other) slot
              ∙ get_value-changed_stale u e value other (rw (← slot) used) (rw (← slot) there)
                  (λ eq. apart (handle-eq other handle (eq ∙ sym same) (sym slot)))
          | no away ↦ get_value-changed_other u (handle_internal handle) e value other away
        ],
        changed-Inv v (handle_internal handle) e there value,
      )
