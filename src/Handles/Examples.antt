-- ===== src/Handles/Examples.antt =====
-- HandleMgr over a concrete set, with 0, 1 and 3 in use.
use behavioral_model.Base.{
  ℕ, ◌^◌, ◌<◌, ◌≡◌, refl, true, false, some, List, [], ◌∷◌, ◌==◌, if◌then◌else◌, arith,
}
use behavioral_model.Judy.Sets.{sets}
use behavioral_model.Handles.{get_handle, release_handle, valid_handle, size, begin, advance}
use behavioral_model.Handles.Allocation.{Gives, get_handle-Gives, get_handle-release_handle}

abbrev used : List ℕ
used = 0 ∷ 3 ∷ 1 ∷ []

gives_two : get_handle sets used ≡ some (2, 2 ∷ used)
unfolding get_handle
gives_two = refl

walks : advance sets used (begin sets used) ≡ some 1
unfolding advance begin
walks = refl

used-few : size sets used < 2 ^ 64
unfolding size
used-few = omega arith

get_handle-Gives_example :
    (handle : ℕ) × (a' : List ℕ) × (get_handle sets used ≡ some (handle, a'))
    × Gives sets used handle a'
    × (valid_handle sets a' 3 ≡ (if handle == 3 then true else valid_handle sets used 3))
get_handle-Gives_example = get_handle-Gives sets used 3 used-few

get_handle-release_handle_example :
    (handle : ℕ) × (a1 a2 a3 : List ℕ) × (get_handle sets used ≡ some (handle, a1))
    × (release_handle sets a1 handle ≡ (true, a2))
    × ((i : ℕ) → valid_handle sets a2 i ≡ valid_handle sets used i)
    × (size sets a2 ≡ size sets used)
    × (release_handle sets a2 handle ≡ (false, a3))
    × ((i : ℕ) → valid_handle sets a3 i ≡ valid_handle sets used i)
    × (size sets a3 ≡ size sets used)
get_handle-release_handle_example = get_handle-release_handle sets used used-few
