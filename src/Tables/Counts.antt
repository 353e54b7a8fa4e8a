-- ===== src/Tables/Counts.antt =====
-- The reference counts of an indirect match table after modify_entry.
use behavioral_model.Base.{
  ℕ, ◌+◌, ◌%◌, ◌^◌, ◌≤◌, ◌<◌, some, List, get_elem?, set, ◌==◌, if◌then◌else◌, ◌≡◌, refl, sym, ap,
  ◌∙◌, arith, inl, inr, ==_iff, ==_ne, get_elem?-set_self, get_elem?-set_ne, get_elem?_lt,
}
use native.Mathlib.Decide.{ℕ_discrete}
use behavioral_model.Tables.Sound.{set-cases}

same_count :
    (l : List ℕ) (i k a b : ℕ) → get_elem? l i ≡ some a → get_elem? l k ≡ some b → i ≡ k → a ≡ b
same_count l i k a b at_i at_k same =
    let e : some a ≡ some b = sym at_i ∙ ap (get_elem? l) same ∙ at_k in cc e

-- The count of `old` falls by one and the count of `mbr` grows by one; they may be the same.
pub moved-counts :
    (l : List ℕ) (old mbr c n m k : ℕ)
    → get_elem? l old ≡ some c
    → 1 ≤ c
    → c < 2 ^ 32
    → get_elem? (set l old ((c + 4294967295) % 2 ^ 32)) mbr ≡ some n
    → ((i : ℕ) → get_elem? l mbr ≡ some i → i + 1 < 2 ^ 32)
    → get_elem? l m ≡ some k
    → (k' : ℕ) × (get_elem? (set (set l old ((c + 4294967295) % 2 ^ 32)) mbr ((n + 1) % 2 ^ 32)) m
        ≡ some k')
      × (k' + (if m == old then 1 else 0) ≡ k + (if m == mbr then 1 else 0))
moved-counts l old mbr c n m k at_old least small at_mbr room at_m = elim (ℕ_discrete m mbr) [
  | yes here ↦
      let n_now =
        ap (get_elem? (set l1 mbr n1)) here
        ∙ get_elem?-set_self l1 mbr n1 (get_elem?_lt l1 mbr n at_mbr) in
      elim (set-cases l old c1 mbr n (get_elem?_lt l old c at_old) at_mbr) [
        | inl (same, is) ↦
            let k_is = same_count l m old k c at_m at_old (here ∙ same) in
            (
              n1,
              n_now,
              rw ((==_iff m old).1 (here ∙ same), (==_iff m mbr).1 here)
                  (omega (arith, k_is, is, least, small)),
            )
        | inr (other, was) ↦
            let k_is = same_count l m mbr k n at_m was here in
            (
              n1,
              n_now,
              rw (==_ne m old (λ e. other (sym here ∙ e)), (==_iff m mbr).1 here)
                  (omega (arith, k_is, room n was)),
            )
      ]
  | no away ↦
      let skip = get_elem?-set_ne l1 mbr m n1 (λ e. away (sym e)) in
      elim (ℕ_discrete m old) [
        | yes here ↦
            let k_is = same_count l m old k c at_m at_old here in
            (
              c1,
              skip
                  ∙ ap (get_elem? l1) here
                  ∙ get_elem?-set_self l old c1 (get_elem?_lt l old c at_old),
              rw ((==_iff m old).1 here, ==_ne m mbr away) (omega (arith, k_is, least, small)),
            )
        | no other ↦ (
          k,
          skip ∙ get_elem?-set_ne l old m c1 (λ e. other (sym e)) ∙ at_m,
          rw (==_ne m old other, ==_ne m mbr away) refl,
        )
      ]
]
  where
    c1 : ℕ
    c1 = (c + 4294967295) % 2 ^ 32

    l1 : List ℕ
    l1 = set l old c1

    n1 : ℕ
    n1 = (n + 1) % 2 ^ 32
