-- ===== src/Units/Fresh.antt =====
-- The match unit at its start and after a reset.
use behavioral_model.Base.{
  ℕ, zero, suc, ◌^◌, ◌≤◌, ◌≡◌, refl, ap, false, none, some, arith, get_elem?, length, replicate,
}
use behavioral_model.Judy.{Judy1}
use behavioral_model.Handles.{clear}
use behavioral_model.Units.{
  MatchUnit, Entry, KeyBuilder, LookupStructure, invalid_handle, get_value, create, reset_state,
  handle_internal,
}
use behavioral_model.Units.Shape.{LookupLaws, Inv, get_value-invalid}

get_elem?-replicate_same :
    {A : Type 0} (n i : ℕ) (a b : A) → get_elem? (replicate n a) i ≡ some b → a ≡ b
get_elem?-replicate_same zero i a b e = absurd (cc e)
get_elem?-replicate_same (suc n) zero a b e = cc e
get_elem?-replicate_same (suc n) (suc i) a b e = get_elem?-replicate_same n i a b e

length-replicate : {A : Type 0} (n : ℕ) (a : A) → length (replicate n a) ≡ n
length-replicate zero a = refl
length-replicate (suc n) a = ap suc (length-replicate n a)

module _ {A P K V S : Type 0} (j : Judy1 A) (kb : KeyBuilder P K) (ls : LookupStructure K S)
    (laws : LookupLaws ls) (blank : Entry K V) where
  open j use {test, test-nil, count-nil}
  open laws use {holds}

  -- A unit without entries over an empty lookup structure.
  fresh-Inv :
      (size : ℕ) (structure : S)
      → size ≤ 2 ^ 32
      → blank.version ≡ 0
      → ((k : K) → holds structure k ≡ none)
      → Inv j ls laws (create j kb ls blank size structure)
  unfolding create
  fresh-Inv size structure fits new_version vacant = record {
    size_fits = fits;
    counted = count-nil;
    below = λ h on. absurd (cc (on, test-nil h));
    entries_length = length-replicate size blank;
    meta_length = length-replicate size _;
    versions = λ h e found.
        let same = get_elem?-replicate_same size h blank e found in
        rw (← same) (omega (arith, new_version));
    held_used = λ k h e. absurd (cc (e, vacant k));
    held_key = λ k h x e found. absurd (cc (e, vacant k));
    used_held = λ h e on. absurd (cc (on, test-nil h));
  }

  reset :
      (u : MatchUnit A K V S)
      → reset_state j kb ls blank u ≡ create j kb ls blank u.size (ls.clear u.lookup_structure)
  unfolding reset_state create clear
  reset u = refl

  none_used : (u : MatchUnit A K V S) (h : ℕ) → test (reset_state j kb ls blank u).handles h ≡ false
  unfolding reset_state clear
  none_used u h = test-nil h

  -- A new match unit satisfies the invariant, where its lookup structure holds no key and its size is
  -- at most 2 ^ 32; a reset gives the same unit with the reset lookup structure, so it has the
  -- invariant again, no entry, and every handle is refused.
  pub create-reset_state :
      (size : ℕ) (structure : S) (u : MatchUnit A K V S)
      → size ≤ 2 ^ 32
      → u.size ≤ 2 ^ 32
      → blank.version ≡ 0
      → ((k : K) → holds structure k ≡ none)
      → Inv j ls laws (create j kb ls blank size structure)
        × (reset_state j kb ls blank u ≡ create j kb ls blank u.size (ls.clear u.lookup_structure))
        × Inv j ls laws (reset_state j kb ls blank u)
        × ((handle : ℕ)
            → get_value j kb ls blank (reset_state j kb ls blank u) handle ≡ (invalid_handle, none))
  create-reset_state size structure u fits fits' new_version vacant =
      let same = reset u in
      (
        fresh-Inv size structure fits new_version vacant,
        same,
        rw same (
            fresh-Inv u.size (ls.clear u.lookup_structure) fits' new_version
              (laws.holds-clear u.lookup_structure)),
        λ handle.
            get_value-invalid j kb ls blank (reset_state j kb ls blank u) handle
              (none_used u (handle_internal handle)),
      )
