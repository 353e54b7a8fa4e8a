-- ===== src/Judy/Model.antt =====
-- A concrete JudyL array, as an association list: the newest binding of a key counts.
use behavioral_model.Base.{
  ℕ, ◌+◌, ◌≡◌, refl, Option, none, some, List, [], ◌∷◌, ◌==◌, if◌then◌else◌, is_some, arith,
}
use behavioral_model.Judy.Laws.{JudyL}

abbrev pub Pairs : Type 0
Pairs = List (ℕ × ℕ)

abbrev pub pairs_get : Pairs → ℕ → Option ℕ
pairs_get [] k = none
pairs_get ((i, v) ∷ xs) k = if i == k then some v else pairs_get xs k

abbrev pub pairs_del : Pairs → ℕ → Pairs
pairs_del [] k = []
pairs_del ((i, v) ∷ xs) k = if i == k then pairs_del xs k else (i, v) ∷ pairs_del xs k

abbrev pub pairs_count : Pairs → ℕ
pairs_count [] = 0
pairs_count ((i, v) ∷ xs) = if is_some (pairs_get xs i) then pairs_count xs else pairs_count xs + 1

pub pairs_get-del :
    (xs : Pairs) (k i : ℕ)
    → pairs_get (pairs_del xs k) i ≡ (if k == i then none else pairs_get xs i)
pairs_get-del [] k i = ground arith
pairs_get-del ((j, v) ∷ xs) k i = ground (arith, pairs_get-del xs k i)

pub pairs_count-del :
    (xs : Pairs) (k : ℕ)
    → pairs_count xs ≡ (
        if is_some (pairs_get xs k)
        then pairs_count (pairs_del xs k) + 1
        else pairs_count (pairs_del xs k))
pairs_count-del [] k = refl
pairs_count-del ((j, v) ∷ xs) k = ground (arith, pairs_count-del xs k, pairs_get-del xs k j)

abbrev pub pairs : JudyL Pairs
pairs = record {
  nil = [];
  get = pairs_get;
  ins = λ a k v. (k, v) ∷ a;
  del = pairs_del;
  count = pairs_count;
  get-nil = λ k. refl;
  get-ins = λ a k v i. refl;
  get-del = pairs_get-del;
  count-nil = refl;
  count-ins = λ a k v. refl;
  count-del = pairs_count-del;
}
