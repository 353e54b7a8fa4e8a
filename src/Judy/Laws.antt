-- ===== src/Judy/Laws.antt =====
-- The Judy arrays that modules/bf_lpm_trie/src/bf_lpm_trie.c and
-- modules/bm_sim/include/bm_sim/handle_mgr.h call. Judy is a library outside the repository, so an
-- array type and its operations are parameters, with the laws that Judy documents.

use behavioral_model.Base.{
  ℕ, ◌+◌, ◌^◌, ◌≤◌, ◌<◌, Bool, true, false, ◌≡◌, Option, none, some, ◌==◌, if◌then◌else◌, is_some,
}

-- A JudyL array from words to words: `get` is JLG (`none` for a null pointer), `ins` is JLI and
-- the store through the pointer that it returns, `del` is JLD, `count` is JLC over all indexes.
pub record JudyL (A : Type 0) : Type 0 where
  pub nil : A
  pub get : A → ℕ → Option ℕ
  pub ins : A → ℕ → ℕ → A
  pub del : A → ℕ → A
  pub count : A → ℕ
  pub get-nil : (k : ℕ) → get nil k ≡ none
  pub get-ins : (a : A) (k v i : ℕ) → get (ins a k v) i ≡ (if k == i then some v else get a i)
  pub get-del : (a : A) (k i : ℕ) → get (del a k) i ≡ (if k == i then none else get a i)
  pub count-nil : count nil ≡ 0
  pub count-ins :
      (a : A) (k v : ℕ) → count (ins a k v) ≡ (if is_some (get a k) then count a else count a + 1)
  pub count-del :
      (a : A) (k : ℕ)
      → count a ≡ (if is_some (get a k) then count (del a k) + 1 else count (del a k))

-- A Judy1 array, a set of words: `test` is J1T, `set` and `unset` are J1S and J1U, `first_empty` is
-- J1FE from 0, `next` is J1F or J1N (the least index from the given one on), `count` is J1C.
pub record Judy1 (A : Type 0) : Type 0 where
  pub nil : A
  pub test : A → ℕ → Bool
  pub set : A → ℕ → A
  pub unset : A → ℕ → A
  pub first_empty : A → Option ℕ
  pub next : A → ℕ → Option ℕ
  pub count : A → ℕ
  pub test-nil : (k : ℕ) → test nil k ≡ false
  pub test-set : (a : A) (k i : ℕ) → test (set a k) i ≡ (if k == i then true else test a i)
  pub test-unset : (a : A) (k i : ℕ) → test (unset a k) i ≡ (if k == i then false else test a i)
  pub first_empty-free : (a : A) (k : ℕ) → first_empty a ≡ some k → test a k ≡ false
  pub first_empty-least :
      (a : A) (k : ℕ) → first_empty a ≡ some k → (i : ℕ) → i < k → test a i ≡ true
  -- There are 2 ^ 64 indexes.
  pub first_empty-none : (a : A) → first_empty a ≡ none → (i : ℕ) → i < 2 ^ 64 → test a i ≡ true
  pub next-set : (a : A) (k i : ℕ) → next a k ≡ some i → (k ≤ i) × (test a i ≡ true)
  pub next-least :
      (a : A) (k i : ℕ) → next a k ≡ some i → (m : ℕ) → k ≤ m → m < i → test a m ≡ false
  pub next-none : (a : A) (k : ℕ) → next a k ≡ none → (m : ℕ) → k ≤ m → test a m ≡ false
  pub count-nil : count nil ≡ 0
  pub count-set : (a : A) (k : ℕ) → count (set a k) ≡ (if test a k then count a else count a + 1)
  pub count-unset :
      (a : A) (k : ℕ) → count a ≡ (if test a k then count (unset a k) + 1 else count (unset a k))
