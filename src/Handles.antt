-- ===== src/Handles.antt =====
-- modules/bm_sim/include/bm_sim/handle_mgr.h: class HandleMgr, a set of handles that gives out the
-- least free one. A return code 0 is `some` or `true`, and -1 is `none` or `false`.
pub mod Allocation
mod Examples
use behavioral_model.Base.{ℕ, ◌+◌, Bool, true, false, Option, none, some, if◌then◌else◌}
use behavioral_model.Judy.{Judy1}

module _ {A : Type 0} (j : Judy1 A) where
  open j use {nil, test, set, unset, first_empty, next, count}

  unfoldable pub empty : A
  empty = nil

  -- J1FE, then J1S, which fails where the index is set already.
  unfoldable pub get_handle : A → Option (ℕ × A)
  get_handle handles = elim (first_empty handles) [
    | none ↦ none
    | some handle ↦ if test handles handle then none else some (handle, set handles handle)
  ]

  unfoldable pub release_handle : A → ℕ → Bool × A
  release_handle handles handle = (test handles handle, unset handles handle)

  unfoldable pub size : A → ℕ
  size handles = count handles

  unfoldable pub valid_handle : A → ℕ → Bool
  valid_handle handles handle = test handles handle

  unfoldable pub clear : A → A
  clear handles = nil

  -- An iterator is the index that it stands at, and `none` at the end.
  unfoldable pub begin : A → Option ℕ
  begin handles = next handles 0

  unfoldable pub advance : A → Option ℕ → Option ℕ
  advance handles none = none
  advance handles (some index) = next handles (index + 1)
