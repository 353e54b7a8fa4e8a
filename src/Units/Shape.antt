-- ===== src/Units/Shape.antt =====
-- What holds of a match unit between calls, and what it asks of its lookup structure.
use behavioral_model.Base.{
  ℕ, ◌^◌, ◌≤◌, ◌<◌, ◌≡◌, ◌≢◌, true, false, arith, Option, none, some, List, get_elem?, is_some,
  length,
}
use behavioral_model.Judy.{Judy1}
use behavioral_model.Handles.{valid_handle}
use behavioral_model.Units.{
  success, expired_handle, invalid_handle, KeyBuilder, get_value, handle_internal, handle_version,
  LookupStructure, MatchUnit, Entry,
}

-- The map from keys to handles that a lookup structure stands for. A handle is added only while no
-- key has it.
pub record LookupLaws {K S : Type 0} (ls : LookupStructure K S) : Type 0 where
  pub key_discrete : Discrete K
  pub holds : S → K → Option ℕ
  pub exists-holds : (s : S) (k : K) → ls.entry_exists s k ≡ is_some (holds s k)
  pub holds-clear : (s : S) (k : K) → holds (ls.clear s) k ≡ none
  pub holds-add_self :
      (s : S) (k : K) (h : ℕ)
      → ((k' : K) → holds s k' ≢ some h)
      → holds (ls.add_entry s k h) k ≡ some h
  pub holds-add_other :
      (s : S) (k k' : K) (h : ℕ)
      → ((k' : K) → holds s k' ≢ some h)
      → k ≢ k'
      → holds (ls.add_entry s k h) k' ≡ holds s k'
  pub holds-delete_self : (s : S) (k : K) → holds (ls.delete_entry s k) k ≡ none
  pub holds-delete_other : (s : S) (k k' : K) → k ≢ k' → holds (ls.delete_entry s k) k' ≡ holds s k'
  pub lookup-holds :
      (s : S) (bytes : List ℕ) (h : ℕ) → ls.lookup s bytes ≡ some h → (k : K) × (holds s k ≡ some h)

module _ {A K V S : Type 0} (j : Judy1 A) (ls : LookupStructure K S) (laws : LookupLaws ls) where
  open j use {test, count}
  open laws use {holds}

  -- The handles in use number the entries and lie below the size; the lookup structure holds exactly
  -- the keys of the entries in use.
  pub record Inv (u : MatchUnit A K V S) : Type 0 where
    pub size_fits : u.size ≤ 2 ^ 32
    pub counted : count u.handles ≡ u.num_entries
    pub below : (h : ℕ) → test u.handles h ≡ true → h < u.size
    pub entries_length : length u.entries ≡ u.size
    pub meta_length : length u.entry_meta ≡ u.size
    pub versions : (h : ℕ) (e : Entry K V) → get_elem? u.entries h ≡ some e → e.version < 2 ^ 32
    pub held_used : (k : K) (h : ℕ) → holds u.lookup_structure k ≡ some h → test u.handles h ≡ true
    pub held_key :
        (k : K) (h : ℕ) (e : Entry K V)
        → holds u.lookup_structure k ≡ some h
        → get_elem? u.entries h ≡ some e
        → e.key ≡ k
    pub used_held :
        (h : ℕ) (e : Entry K V)
        → test u.handles h ≡ true
        → get_elem? u.entries h ≡ some e
        → holds u.lookup_structure e.key ≡ some h

module _ {A P K V S : Type 0} (j : Judy1 A) (kb : KeyBuilder P K) (ls : LookupStructure K S)
    (blank : Entry K V) (u : MatchUnit A K V S) (handle : ℕ) where
  open j use {test}

  -- The three outcomes of reading by a handle.
  pub get_value-in_use :
      (e : Entry K V)
      → test u.handles (handle_internal handle) ≡ true
      → get_elem? u.entries (handle_internal handle) ≡ some e
      → handle_version handle ≡ e.version
      → get_value j kb ls blank u handle ≡ (success, some e.value)
  unfolding get_value valid_handle
  get_value-in_use e used found same = rw used (rw (found, get_value) (ground arith))

  pub get_value-expired :
      (e : Entry K V)
      → test u.handles (handle_internal handle) ≡ true
      → get_elem? u.entries (handle_internal handle) ≡ some e
      → handle_version handle ≢ e.version
      → get_value j kb ls blank u handle ≡ (expired_handle, none)
  unfolding get_value valid_handle
  get_value-expired e used found other = rw used (rw (found, get_value) (ground arith))

  pub get_value-invalid :
      test u.handles (handle_internal handle) ≡ false
      → get_value j kb ls blank u handle ≡ (invalid_handle, none)
  unfolding get_value valid_handle
  get_value-invalid unused = rw unused
