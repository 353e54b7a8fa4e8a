-- ===== src/Tables/Slots.antt =====
-- How the operations of a match unit move the number of entries that name a member.
use behavioral_model.Base.{
  ℕ, ◌+◌, ◌%◌, ◌^◌, true, false, some, get_elem?, set, if◌then◌else◌, ◌≡◌, ◌≢◌, refl, ap, ◌∙◌,
  arith, ◌⊎◌, get_elem?-set_self, get_elem?-set_ne, get_elem?_lt, length-set, ==_ne, ==_refl,
}
use behavioral_model.Judy.{Judy1}
use behavioral_model.Units.{MatchUnit, Entry, KeyBuilder, LookupStructure, success, handle_internal}
use behavioral_model.Units.Shape.{LookupLaws}
use behavioral_model.Units.Add.{get_elem?-some, Added, add_code}
use behavioral_model.Units.Remove.{Removed}
use behavioral_model.Units.Hit.{changed}
use behavioral_model.Tables.Uses.{one_use, uses-change, one_use-free}
use behavioral_model.Tables.Sound.{uses_of}

module _ {A P K S : Type 0} (j : Judy1 A) (kb : KeyBuilder P K) (ls : LookupStructure K S)
    (laws : LookupLaws ls) (blank : Entry K ℕ) where
  open j use {test}

  pub add_code-cases :
      (u : MatchUnit A K ℕ S) (match_key : P) (key : K)
      → (add_code j kb ls laws blank u match_key key ≡ success)
        ⊎ (add_code j kb ls laws blank u match_key key ≢ success)
  unfolding add_code
  add_code-cases u match_key key = ground arith

  pub Added-uses :
      (u u' : MatchUnit A K ℕ S) (key : K) (mbr handle m : ℕ)
      (a : Added j kb ls laws blank u key mbr handle u')
      → uses_of j u' m
        ≡ uses_of j u m + one_use (test u'.handles) m (handle_internal handle) a.entry
  Added-uses u u' key mbr handle m a =
      let h = handle_internal handle in
      let (old, there) =
        get_elem?-some u.entries h
          (omega (arith, get_elem?_lt u'.entries h a.entry a.there, a.same_length)) in
      let free = one_use-free (test u.handles) m h old a.was_free in
      let change =
        uses-change (test u.handles) (test u'.handles) m 0 h h u.entries u'.entries old a.entry
          (omega arith) a.same_length there a.there a.others
          (λ i ne. a.used i ∙ ap (λ b. if b then true else test u.handles i) (==_ne h i ne)) in
      omega (arith, free, change)

  pub Removed-uses :
      (u u' : MatchUnit A K ℕ S) (e : Entry K ℕ) (handle m : ℕ)
      → Removed j kb ls laws blank u e handle u'
      → get_elem? u.entries (handle_internal handle) ≡ some e
      → uses_of j u' m + one_use (test u.handles) m (handle_internal handle) e ≡ uses_of j u m
  Removed-uses u u' e handle m r found =
      let h = handle_internal handle in
      let bumped : Entry K ℕ = record e { version = (e.version + 1) % 2 ^ 32 } in
      let free =
        one_use-free (test u'.handles) m h bumped
          (r.used h ∙ ap (λ b. if b then false else test u.handles h) (==_refl h)) in
      let change =
        uses-change (test u.handles) (test u'.handles) m 0 h h u.entries u'.entries e bumped
          (omega arith) r.same_length found r.slot r.others
          (λ i ne. r.used i ∙ ap (λ b. if b then false else test u.handles i) (==_ne h i ne)) in
      omega (arith, free, change)

  pub changed-uses :
      (u : MatchUnit A K ℕ S) (h : ℕ) (e : Entry K ℕ) (value m : ℕ)
      → get_elem? u.entries h ≡ some e
      → uses_of j (changed j kb ls laws blank u h e value) m + one_use (test u.handles) m h e
        ≡ uses_of j u m + one_use (test u.handles) m h (record e { value = value })
  unfolding changed
  changed-uses u h e value m found =
      uses-change (test u.handles) (test u.handles) m 0 h h u.entries
        (set u.entries h (record e { value = value })) e (record e { value = value }) (omega arith)
        (length-set u.entries h (record e { value = value })) found
        (get_elem?-set_self u.entries h (record e { value = value })
          (get_elem?_lt u.entries h e found))
        (λ i ne. get_elem?-set_ne u.entries h i (record e { value = value }) ne) (λ i ne. refl)
