-- ===== src/Lookups.antt =====
-- modules/bm_sim/src/lookup_structures.cpp: the map of an exact table and the array of a ternary one.
pub mod Exact
pub mod Ternary
mod Examples
use behavioral_model.Base.{
  ℕ, zero, suc, ◌+◌, ◌-◌, ◌^◌, Bool, true, false, ◌&&◌, Option, none, some, List, [], ◌∷◌, map,
  ◌==◌, leb, if◌then◌else◌, get_elem?, set, length, ◌>>=◌,
}
use Prim.Native.Nat.{bit_and}
use behavioral_model.Units.{LookupStructure}

-- Equality of byte strings.
unfoldable pub bytes_eq : List ℕ → List ℕ → Bool
bytes_eq [] [] = true
bytes_eq [] (y ∷ ys) = false
bytes_eq (x ∷ xs) [] = false
bytes_eq (x ∷ xs) (y ∷ ys) = x == y && bytes_eq xs ys

-- class ExactMap, with the unordered_map as an association list.
module _ where
  unfoldable pub exact_find : List (List ℕ × ℕ) → List ℕ → Option ℕ
  exact_find [] key = none
  exact_find ((k, h) ∷ rest) key = if bytes_eq k key then some h else exact_find rest key

  unfoldable pub exact_erase : List (List ℕ × ℕ) → List ℕ → List (List ℕ × ℕ)
  exact_erase [] key = []
  exact_erase ((k, h) ∷ rest) key =
      if bytes_eq k key then exact_erase rest key else (k, h) ∷ exact_erase rest key

  unfoldable pub exact_exists : List (List ℕ × ℕ) → List ℕ → Bool
  unfolding exact_find
  exact_exists m key = elim (exact_find m key) [ none ↦ false | some h ↦ true ]

  unfoldable pub exact_add : List (List ℕ × ℕ) → List ℕ → ℕ → List (List ℕ × ℕ)
  unfolding exact_erase
  exact_add m key handle = (key, handle) ∷ exact_erase m key

abbrev pub exact_map : LookupStructure (List ℕ) (List (List ℕ × ℕ))
exact_map = record {
  lookup = exact_find;
  entry_exists = exact_exists;
  add_entry = exact_add;
  delete_entry = exact_erase;
  clear = λ _. [];
}

-- struct TernaryMatchKey. The int `priority` p is stored as p + 2 ^ 31, which keeps the order.
pub record TernaryMatchKey : Type 0 where
  pub bytes : List ℕ
  pub mask : List ℕ
  pub priority : ℕ
  pub version : ℕ

-- std::numeric_limits<int>::max()
abbrev pub max_priority : ℕ
max_priority = 2 ^ 32 - 1

-- The inner loop of lookup: `left` bytes are still to be compared. `none` is a read past an end.
unfoldable pub ternary_match : ℕ → List ℕ → List ℕ → List ℕ → Option Bool
ternary_match zero bytes key mask = some true
ternary_match (suc left) (b ∷ bytes) (k ∷ key) (m ∷ mask) =
    let rest = ternary_match left bytes key mask in if b == bit_and k m then rest else some false
ternary_match (suc left) _ _ _ = none

-- The slot `k` takes the place of the best one so far.
unfoldable pub ternary_better : ℕ → TernaryMatchKey → List ℕ → ℕ → Option Bool
unfolding ternary_match
ternary_better nbytes_key k key min_priority =
    if leb min_priority k.priority then some false else ternary_match nbytes_key k.bytes key k.mask

-- The loop of lookup at the slot `i`, with the least priority found so far and its slot.
unfoldable pub ternary_scan :
    ℕ → List TernaryMatchKey → List ℕ → ℕ → ℕ → Option ℕ → Option (Option ℕ)
unfolding ternary_better
ternary_scan nbytes_key [] key i min_priority found = some found
ternary_scan nbytes_key (k ∷ keys) key i min_priority found =
    ternary_better nbytes_key k key min_priority >>= (λ better.
      ternary_scan nbytes_key keys key (i + 1) (if better then k.priority else min_priority)
        (if better then some i else found))

-- `some none` is a miss, `none` a read past the end of a byte string.
unfoldable pub ternary_lookup : ℕ → List TernaryMatchKey → List ℕ → Option (Option ℕ)
unfolding ternary_scan
ternary_lookup nbytes_key keys key = ternary_scan nbytes_key keys key 0 max_priority none

-- The position of the key, or the number of slots.
unfoldable pub find_handle : List TernaryMatchKey → TernaryMatchKey → ℕ
unfolding bytes_eq
find_handle [] key = 0
find_handle (k ∷ keys) key =
    if k.priority == key.priority && (bytes_eq k.bytes key.bytes && bytes_eq k.mask key.mask)
    then 0
    else suc (find_handle keys key)

unfoldable pub ternary_exists : List TernaryMatchKey → TernaryMatchKey → Bool
unfolding find_handle
ternary_exists keys key = if find_handle keys key == length keys then false else true

-- `keys.at` throws where the index is out of range.
unfoldable pub ternary_add :
    List TernaryMatchKey → TernaryMatchKey → ℕ → Option (List TernaryMatchKey)
ternary_add keys key handle = elim (get_elem? keys handle) [
  | none ↦ none
  | some old ↦ some (set keys handle key)
]

unfoldable pub ternary_delete :
    List TernaryMatchKey → TernaryMatchKey → Option (List TernaryMatchKey)
unfolding find_handle
ternary_delete keys key = elim (get_elem? keys (find_handle keys key)) [
  | none ↦ none
  | some old ↦ some (set keys (find_handle keys key) (record old { priority = max_priority }))
]

unfoldable pub ternary_clear : List TernaryMatchKey → List TernaryMatchKey
ternary_clear [] = []
ternary_clear (k ∷ keys) = record k { priority = max_priority } ∷ ternary_clear keys
