-- ===== src/Trie/Examples.antt =====
-- The trie on concrete inputs: 10.0.0.0/8 and 10.32.0.0/11 in a trie for two-byte keys.
use behavioral_model.Base.{◌≡◌, refl, true, false, none, some, [], ◌∷◌, ◌==◌, if◌then◌else◌, arith}
use behavioral_model.Judy.Model.{Pairs, pairs}
use behavioral_model.Trie.{
  Node, Heap, Trie, create, insert, lookup, has_prefix, delete, tail_key, get_prefix_key,
}
use behavioral_model.Trie.Shape.{Labels, Inv, IsTrie, stored_at, same_prefix}
use behavioral_model.Trie.Create.{Created, create-Created}
use behavioral_model.Trie.Insert.{insert-stored_at}
use behavioral_model.Trie.Member.{has_prefix-stored_at}
use behavioral_model.Trie.Lookup.{lookup-longest}
use behavioral_model.Trie.Delete.{delete-absent, delete-keeps}

abbrev blank : Heap Pairs
blank = record { next = 1; cell = λ _. none }

abbrev no_labels : Labels
no_labels _ = []

blank-Inv : Inv pairs blank no_labels
blank-Inv = record {
  next_pos = omega arith;
  null = refl;
  fresh = λ a le. refl;
  child = λ p n byte q here found. absurd (ground arith);
}

-- A trie with auto_shrink off and one value, 7, for the first three bits 001.
abbrev only : Node Pairs
only = record {
  branches = [];
  prefixes = (769, 7) ∷ [];
  branch_num = 0;
  pref_num = 1;
  parent = 0;
  child_id = 0;
}

abbrev one_value : Heap Pairs
one_value = record { next = 2; cell = λ a. if 1 == a then some only else none }

abbrev trie : Trie
trie = record { root = 1; key_width_bytes = 2; release_memory = false }

one_value-Inv : Inv pairs one_value no_labels
one_value-Inv = record {
  next_pos = omega arith;
  null = refl;
  fresh = λ a le. ground arith;
  child = λ p n byte q here found. absurd (ground arith);
}

one_value-IsTrie : IsTrie pairs 1 one_value
one_value-IsTrie = record {
  label = no_labels;
  inv = one_value-Inv;
  at_root = refl;
  node = only;
  holds = refl;
}

create-Created_example :
    (t : Trie) × (h' : Heap Pairs) × (create pairs blank 4 true ≡ some (t, h'))
    × Created pairs blank 4 true t h'
create-Created_example = create-Created pairs blank no_labels blank-Inv 4 true (omega arith)

insert-stored_at_example :
    (h' : Heap Pairs) × (insert pairs trie (10 ∷ 32 ∷ []) 11 5 one_value ≡ some h')
    × IsTrie pairs 1 h'
    × (stored_at pairs (10 ∷ 63 ∷ []) 11 1 h' ≡ some 5)
unfolding same_prefix
insert-stored_at_example =
    insert-stored_at pairs trie one_value (10 ∷ 32 ∷ []) 11 5 (10 ∷ 63 ∷ []) 11 one_value-IsTrie
      (omega arith) (omega arith)

has_prefix-stored_at_example : has_prefix pairs trie (33 ∷ []) 3 one_value ≡ some true
unfolding tail_key get_prefix_key
has_prefix-stored_at_example =
    has_prefix-stored_at pairs trie one_value (33 ∷ []) 3 one_value-IsTrie (omega arith)

lookup-longest_example : lookup pairs trie (32 ∷ 1 ∷ []) one_value ≡ some (some 7)
unfolding tail_key get_prefix_key
lookup-longest_example =
    lookup-longest pairs trie one_value (32 ∷ 1 ∷ []) one_value-IsTrie (omega arith)

delete-absent_example : delete pairs trie (128 ∷ []) 3 one_value ≡ some (false, one_value)
unfolding tail_key get_prefix_key
delete-absent_example =
    delete-absent pairs trie one_value (128 ∷ []) 3 one_value-IsTrie (omega arith) refl

delete-keeps_example : delete pairs trie (33 ∷ []) 3 one_value ≡ some (true, one_value)
unfolding tail_key get_prefix_key
delete-keeps_example =
    delete-keeps pairs trie one_value (33 ∷ []) 3 one_value-IsTrie (omega arith) refl
