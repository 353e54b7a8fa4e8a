-- ===== src/Tables/Sound.antt =====
-- What holds of an indirect match table between calls.
use behavioral_model.Base.{
  ℕ, zero, suc, ◌+◌, ◌^◌, ◌≤◌, ◌<◌, true, some, List, [], ◌∷◌, ◌++◌, length, max, length-append,
  leb-true, ==_iff, ==_ne, get_elem?, set, ◌≡◌, ◌≢◌, refl, sym, ap, ◌∙◌, arith, ◌⊎◌, inl, inr,
  get_elem?-set_self, get_elem?-set_ne, length-set,
}
use native.Mathlib.Decide.{ℕ_discrete}
use behavioral_model.Judy.{Judy1}
use behavioral_model.Units.{MatchUnit, Entry, LookupStructure}
use behavioral_model.Units.Shape.{LookupLaws, Inv}
use behavioral_model.Tables.{
  Table, RefCount, put, set_count, is_mbr, get, make_mbr_index, change, get_count,
}
use behavioral_model.Tables.Uses.{uses}

-- The index of a member is the member.
pub is_mbr-member : (m : ℕ) → m < 2 ^ 24 → is_mbr m ≡ true
unfolding is_mbr
is_mbr-member m lt = ground arith

pub get-member : (m : ℕ) → m < 2 ^ 24 → get m ≡ m
unfolding get
get-member m lt = omega (arith, lt)

pub make_mbr_index-member : (m : ℕ) → m < 2 ^ 24 → make_mbr_index m ≡ some m
unfolding make_mbr_index
make_mbr_index-member m lt = ground arith

pub change-member :
    (f : ℕ → ℕ) (m n : ℕ) (c : RefCount)
    → m < 2 ^ 24
    → get_elem? c.mbr_count m ≡ some n
    → change f m c ≡ some (record c { mbr_count = set c.mbr_count m (f n) })
unfolding change
change-member f m n c lt found = rw (is_mbr-member m lt, get-member m lt) (rw found refl)

pub get_count-member : (m : ℕ) (c : RefCount) → m < 2 ^ 24 → get_count m c ≡ get_elem? c.mbr_count m
unfolding get_count
get_count-member m c lt = rw (is_mbr-member m lt, get-member m lt) refl

pub set-cases :
    (xs : List ℕ) (i v k x : ℕ)
    → i < length xs
    → get_elem? (set xs i v) k ≡ some x
    → ((k ≡ i) × (x ≡ v)) ⊎ ((k ≢ i) × (get_elem? xs k ≡ some x))
set-cases xs i v k x lt h = elim (ℕ_discrete i k) [
  | yes same ↦
      let self : get_elem? (set xs i v) k ≡ some v =
        ap (get_elem? (set xs i v)) (sym same) ∙ get_elem?-set_self xs i v lt in
      inl (sym same, ground (arith, self, h))
  | no other ↦ inr (λ e. other (sym e), sym (get_elem?-set_ne xs i k v other) ∙ h)
]

get_elem?-append_other :
    {X : Type 0} (xs : List X) (x : X) (k : ℕ)
    → k ≢ length xs
    → get_elem? (xs ++ (x ∷ [])) k ≡ get_elem? xs k
get_elem?-append_other [] x zero ne = absurd (ne refl)
get_elem?-append_other [] x (suc k) ne = refl
get_elem?-append_other (y ∷ xs) x zero ne = refl
get_elem?-append_other (y ∷ xs) x (suc k) ne = get_elem?-append_other xs x k (λ e. ne (ap suc e))

get_elem?-append_last :
    {X : Type 0} (xs : List X) (x : X) → get_elem? (xs ++ (x ∷ [])) (length xs) ≡ some x
get_elem?-append_last [] x = refl
get_elem?-append_last (y ∷ xs) x = get_elem?-append_last xs x

-- What `put` stores.
pub record Stored {X : Type 0} (xs : List X) (i : ℕ) (x : X) : Type 0 where
  pub list : List X
  pub run : put xs i x ≡ some list
  pub now : get_elem? list i ≡ some x
  pub others : (k : ℕ) → k ≢ i → get_elem? list k ≡ get_elem? xs k
  pub lengths : length list ≡ max (length xs) (i + 1)

pub put-Stored : {X : Type 0} (xs : List X) (i : ℕ) (x : X) → i ≤ length xs → Stored xs i x
unfolding put
put-Stored xs i x le = elim (ℕ_discrete i (length xs)) [
  | yes end ↦ record {
    list = xs ++ (x ∷ []);
    run = rw (leb-true i (length xs) le) (rw ((==_iff i (length xs)).1 end) refl);
    now = ap (get_elem? (xs ++ (x ∷ []))) end ∙ get_elem?-append_last xs x;
    others = λ k ne. get_elem?-append_other xs x k (λ e. ne (e ∙ sym end));
    lengths = omega (arith, length-append xs (x ∷ []), end);
  }
  | no inside ↦ record {
    list = set xs i x;
    run = rw (leb-true i (length xs) le) (rw (==_ne i (length xs) inside) refl);
    now = get_elem?-set_self xs i x (omega (arith, le, inside));
    others = λ k ne. get_elem?-set_ne xs i k x (λ e. ne (sym e));
    lengths = omega (arith, length-set xs i x, le, inside);
  }
]

pub set_count-member :
    (m v : ℕ) (c : RefCount) (s : Stored c.mbr_count m v)
    → m < 2 ^ 24
    → set_count m v c ≡ some (record c { mbr_count = s.list })
unfolding set_count
set_count-member m v c s lt = rw (is_mbr-member m lt, get-member m lt) (rw s.run refl)

abbrev pub uses_of : {A K S : Type 0} → Judy1 A → MatchUnit A K ℕ S → ℕ → ℕ
uses_of j u m = uses (j.test u.handles) m 0 u.entries

module _ {A K S D : Type 0} (j : Judy1 A) (ls : LookupStructure K S) (laws : LookupLaws ls) where
  open j use {test}

  -- Each entry in use names a member in use, and the count of a member is at least the number of the
  -- entries that name it.
  pub record Sound (t : Table A K S D) : Type 0 where
    pub unit_Inv : Inv j ls laws t.match_unit
    pub same_length : length t.index_ref_count.mbr_count ≡ length t.action_entries
    pub below : (m : ℕ) → test t.mbr_handles m ≡ true → m < length t.action_entries
    pub few : length t.action_entries ≤ 2 ^ 24
    pub small : (m c : ℕ) → get_elem? t.index_ref_count.mbr_count m ≡ some c → c < 2 ^ 32
    pub points :
        (h : ℕ) (e : Entry K ℕ)
        → test t.match_unit.handles h ≡ true
        → get_elem? t.match_unit.entries h ≡ some e
        → test t.mbr_handles e.value ≡ true
    pub counted :
        (m c : ℕ)
        → test t.mbr_handles m ≡ true
        → get_elem? t.index_ref_count.mbr_count m ≡ some c
        → uses_of j t.match_unit m ≤ c
