-- ===== src/Handles/Allocation.antt =====
-- What HandleMgr promises: handles in use are never given out, and the handle given is small.
use behavioral_model.Base.{
  ℕ, Bool, ap, zero, suc, ◌+◌, ◌^◌, ◌≤◌, ◌<◌, ◌≡◌, inl, inr, true, false, some, ◌==◌, if◌then◌else◌,
  arith, Option-cases,
}
use behavioral_model.Judy.{Judy1}
use behavioral_model.Handles.{get_handle, release_handle, valid_handle, size}

module _ {A : Type 0} (j : Judy1 A) where
  open j use {
    nil, test, set, unset, first_empty, count, test-set, test-unset, first_empty-free,
    first_empty-least, first_empty-none, count-set, count-unset,
  }

  -- A set that holds every index below `k` has at least `k` elements.
  pub count_full : (k : ℕ) (a : A) → ((i : ℕ) → i < k → test a i ≡ true) → k ≤ count a
  count_full zero a full = omega arith
  count_full (suc k) a full =
      let rest : k ≤ count (unset a k) =
        count_full k (unset a k) (λ i lt. ground (arith, test-unset a k i, full i)) in
      ground (arith, rest, count-unset a k, full k)

  -- The handle that get_handle takes.
  pub get_handle-set :
      (a : A)
      → count a < 2 ^ 64
      → (handle : ℕ) × (get_handle j a ≡ some (handle, set a handle))
        × (test a handle ≡ false)
        × (handle ≤ count a)
  unfolding get_handle
  get_handle-set a few = elim (Option-cases (first_empty a)) [
    | inl full ↦ absurd (omega (arith, count_full (2 ^ 64) a (first_empty-none a full)))
    | inr (handle, found) ↦
        let free = first_empty-free a handle found in
        (
          handle,
          rw (found, free, get_handle),
          free,
          count_full handle a (first_empty-least a handle found),
        )
  ]

  -- What get_handle gives: a free handle, at most the number in use, that is in use from now on.
  pub record Gives (a : A) (handle : ℕ) (a' : A) : Type 0 where
    pub free : valid_handle j a handle ≡ false
    pub now_valid : valid_handle j a' handle ≡ true
    pub small : handle ≤ size j a
    pub grown : size j a' ≡ size j a + 1

  -- While fewer than 2 ^ 64 handles are in use, get_handle succeeds. It gives a handle that was free,
  -- that is at most the number of handles in use, and that is valid afterwards; one more handle is in
  -- use then, and every other handle is as valid as before.
  pub get_handle-Gives :
      (a : A) (i : ℕ)
      → size j a < 2 ^ 64
      → (handle : ℕ) × (a' : A) × (get_handle j a ≡ some (handle, a'))
        × Gives a handle a'
        × (valid_handle j a' i ≡ (if handle == i then true else valid_handle j a i))
  unfolding valid_handle size
  get_handle-Gives a i few =
      let (handle, run, free, small) = get_handle-set a few in
      (
        handle,
        set a handle,
        run,
        record {
          free = free;
          now_valid = ground (arith, test-set a handle handle);
          small = small;
          grown = ground (arith, count-set a handle, free);
        },
        test-set a handle i,
      )

  -- While fewer than 2 ^ 64 handles are in use, release_handle of the handle that get_handle has just
  -- given succeeds and undoes it: every handle is as valid as before, and as many are in use. A second
  -- release of it fails and changes nothing.
  pub get_handle-release_handle :
      (a : A)
      → size j a < 2 ^ 64
      → (handle : ℕ) × (a1 a2 a3 : A) × (get_handle j a ≡ some (handle, a1))
        × (release_handle j a1 handle ≡ (true, a2))
        × ((i : ℕ) → valid_handle j a2 i ≡ valid_handle j a i)
        × (size j a2 ≡ size j a)
        × (release_handle j a2 handle ≡ (false, a3))
        × ((i : ℕ) → valid_handle j a3 i ≡ valid_handle j a i)
        × (size j a3 ≡ size j a)
  unfolding release_handle valid_handle size
  get_handle-release_handle a few =
      let (handle, run, free, _) = get_handle-set a few in
      let a1 = set a handle in
      let a2 = unset a1 handle in
      let on : test a1 handle ≡ true = ground (arith, test-set a handle handle) in
      let off : test a2 handle ≡ false = ground (arith, test-unset a1 handle handle) in
      (
        handle,
        a1,
        a2,
        unset a2 handle,
        run,
        ap (λ (b : Bool). (b, a2)) on,
        λ i. ground (arith, test-unset a1 handle i, test-set a handle i, free),
        ground (arith, count-unset a1 handle, count-set a handle, on, free),
        ap (λ (b : Bool). (b, unset a2 handle)) off,
        λ i.
            ground
              (arith, test-unset a2 handle i, test-unset a1 handle i, test-set a handle i, free),
        ground (
          arith,
          count-unset a2 handle,
          count-unset a1 handle,
          count-set a handle,
          on,
          off,
          free,
        ),
      )
