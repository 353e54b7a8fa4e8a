-- ===== src/Trie.antt =====
-- modules/bf_lpm_trie/src/bf_lpm_trie.c: a longest-prefix-match trie on explicit memory.
-- Nodes stand at addresses of a heap, 0 is NULL, and `none` is a fault: a read through a pointer
-- that holds no node, past the end of a key, or an assertion that fails.
pub mod Shape
pub mod Enter
pub mod Paths
pub mod SamePrefix
pub mod Grow
pub mod Insert
pub mod Member
pub mod Lookup
pub mod Create
pub mod Delete
mod Examples
use behavioral_model.Base.{
  ℕ, zero, suc, ◌+◌, ◌-◌, ◌*◌, ◌/◌, ◌%◌, ◌^◌, Bool, true, false, ◌&&◌, Option, none, some, List, [],
  ◌∷◌, ◌==◌, leb, if◌then◌else◌, is_some, ◌>>=◌,
}
use behavioral_model.Judy.{JudyL}

abbrev pub Ptr : Type 0
Ptr = ℕ

-- struct node_s. The two counters are unsigned chars.
pub record Node (A : Type 0) : Type 0 where
  pub branches : A
  pub prefixes : A
  pub branch_num : ℕ
  pub pref_num : ℕ
  pub parent : Ptr
  pub child_id : ℕ

-- `next` is the address that the next malloc returns.
pub record Heap (A : Type 0) : Type 0 where
  pub next : Ptr
  pub cell : Ptr → Option (Node A)

-- struct bf_lpm_trie_s
pub record Trie : Type 0 where
  pub root : Ptr
  pub key_width_bytes : ℕ
  pub release_memory : Bool

-- A pointer into a string that has been read up to here, with the bits that are left of it.
pub record Cursor : Type 0 where
  pub current_node : Ptr
  pub rest : List ℕ
  pub left : ℕ

unfoldable pub get_prefix_key : ℕ → ℕ → ℕ
get_prefix_key len byte = if len == 0 then 0 else (byte / 2 ^ (8 - len) + len * 256) % 65536

-- The prefix key behind the loop: `*prefix` is read only where bits are left.
unfoldable pub tail_key : List ℕ → ℕ → Option ℕ
tail_key rest len =
    if len == 0 then some 0 else elim rest [ [] ↦ none | byte ∷ _ ↦ some (get_prefix_key len byte) ]

module _ {A : Type 0} where
  unfoldable pub write : Heap A → Ptr → Option (Node A) → Heap A
  write h p c = record h { cell = λ a. if p == a then c else h.cell a }

  -- `*p`, a fault at NULL and at an address that holds no node.
  unfoldable pub load : Heap A → Ptr → Option (Node A)
  load h p = if p == 0 then none else h.cell p

module _ {A : Type 0} (j : JudyL A) where
  open j use {nil, get, ins, del}

  -- malloc and memset: a zeroed node.
  unfoldable pub allocate_node : Heap A → Ptr × Heap A
  unfolding write
  allocate_node h = (
    h.next,
    record { next = h.next + 1; cell = λ a. if h.next == a then some zeroed else h.cell a },
  )
    where
      zeroed : Node A
      zeroed = record {
        branches = nil;
        prefixes = nil;
        branch_num = 0;
        pref_num = 0;
        parent = 0;
        child_id = 0;
      }

  unfoldable pub create : Heap A → ℕ → Bool → Option (Trie × Heap A)
  unfolding allocate_node
  create h key_width_bytes auto_shrink =
      if leb key_width_bytes 64
      then (let (root, h') = allocate_node h in
          some (
            record { root = root; key_width_bytes = key_width_bytes; release_memory = auto_shrink },
            h',
          ))
      else none

  unfoldable pub get_next_node : Node A → ℕ → Ptr
  get_next_node n byte = elim (get n.branches byte) [ none ↦ 0 | some q ↦ q ]

  unfoldable pub set_next_node : Node A → ℕ → Ptr → Node A
  set_next_node n byte q = record n { branches = ins n.branches byte q }

  unfoldable pub get_prefix : Node A → ℕ → Option ℕ
  get_prefix n key = get n.prefixes key

  -- JLI puts a zero word at a new index, and the old word tells whether the prefix was present.
  unfoldable pub insert_prefix : Node A → ℕ → ℕ → Bool × Node A
  insert_prefix n key value = (
    elim (get n.prefixes key) [ none ↦ false | some old ↦ if old == 0 then false else true ],
    record n { prefixes = ins n.prefixes key value },
  )

  unfoldable pub delete_prefix : Node A → ℕ → Bool × Node A
  delete_prefix n key = (is_some (get n.prefixes key), record n { prefixes = del n.prefixes key })

  unfoldable pub delete_branch : Node A → ℕ → Bool × Node A
  delete_branch n byte =
      (is_some (get n.branches byte), record n { branches = del n.branches byte })

  -- The body of the loop of insert: the child of `p` at `byte`, allocated where there is none.
  unfoldable pub enter : Heap A → Ptr → ℕ → Option (Ptr × Heap A)
  unfolding load allocate_node get_next_node set_next_node write
  enter h p byte = do
    n ← load h p
    let q = get_next_node n byte
    if q == 0
        then (let (fresh, h1) = allocate_node h in
            do
              node ← load h1 fresh
              let h2 = write h1 fresh (some (record node { parent = p; child_id = byte }))
              current ← load h2 p
              let linked = set_next_node current byte fresh
              some (
                fresh,
                write h2 p (some (record linked { branch_num = (current.branch_num + 1) % 256 })),
              ))
        else some (q, h)

  -- while (prefix_length >= 8), as insert runs it
  unfoldable pub grow : List ℕ → ℕ → Ptr → Heap A → Option (Cursor × Heap A)
  grow [] len p h =
      if leb 8 len then none else some (record { current_node = p; rest = []; left = len }, h)
  grow (byte ∷ rest) len p h =
      if leb 8 len
      then enter h p byte >>= (λ r. grow rest (len - 8) r.0 r.1)
      else some (record { current_node = p; rest = byte ∷ rest; left = len }, h)

  unfoldable pub insert : Trie → List ℕ → ℕ → ℕ → Heap A → Option (Heap A)
  insert t prefix prefix_length value h = do
    (c, h1) ← grow prefix prefix_length t.root h
    key ← tail_key c.rest c.left
    n ← load h1 c.current_node
    let (present, n1) = insert_prefix n key value
    some (
        write h1 c.current_node
          (some (if present then n1 else record n1 { pref_num = (n1.pref_num + 1) % 256 })))

  -- while (prefix_length >= 8), as has_prefix and delete run it; the inner `none` is a NULL child
  unfoldable pub descend : List ℕ → ℕ → Ptr → Heap A → Option (Option Cursor)
  descend [] len p h =
      if leb 8 len then none else some (some (record { current_node = p; rest = []; left = len }))
  descend (byte ∷ rest) len p h =
      if leb 8 len
      then load h p >>= (λ n.
        let q = get_next_node n byte in
        let below = descend rest (len - 8) q h in if q == 0 then some none else below)
      else some (some (record { current_node = p; rest = byte ∷ rest; left = len }))

  unfoldable pub has_prefix : Trie → List ℕ → ℕ → Heap A → Option Bool
  has_prefix t prefix prefix_length h = do
    found ← descend prefix prefix_length t.root h
    elim found [
      | none ↦ some false
      | some c ↦ do
        key ← tail_key c.rest c.left
        n ← load h c.current_node
        some (is_some (get_prefix n key))
    ]

  -- for (i = 7; i > 0; i--), from `i` on
  unfoldable pub scan : Node A → ℕ → ℕ → Option ℕ
  scan n byte zero = none
  scan n byte (suc i) = elim (get_prefix n (get_prefix_key (suc i) byte)) [
    | none ↦ scan n byte i
    | some v ↦ some v
  ]

  -- The loop of lookup: `found` holds what `*pvalue` was last set to.
  unfoldable pub lookup_loop : ℕ → List ℕ → Ptr → Heap A → Option ℕ → Option (Option ℕ)
  lookup_loop zero key p h found =
      if p == 0
      then some found
      else load h p >>= (λ n. some (elim (get_prefix n 0) [ none ↦ found | some v ↦ some v ]))
  lookup_loop (suc width) [] p h found = if p == 0 then some found else none
  lookup_loop (suc width) (byte ∷ key) p h found =
      if p == 0
      then some found
      else load h p >>= (λ n.
        let here : Option ℕ = elim (get_prefix n 0) [ none ↦ found | some v ↦ some v ] in
        let best : Option ℕ = elim (scan n byte 7) [ none ↦ here | some v ↦ some v ] in
        lookup_loop width key (get_next_node n byte) h best)

  unfoldable pub lookup : Trie → List ℕ → Heap A → Option (Option ℕ)
  unfolding lookup_loop
  lookup t key h = lookup_loop t.key_width_bytes key t.root h none

  -- The loop of delete that frees empty nodes upwards; `none` also where the fuel runs out.
  unfoldable pub shrink : ℕ → Ptr → Heap A → Option (Heap A)
  shrink zero p h = none
  shrink (suc fuel) p h = load h p >>= (λ n. elim (n.pref_num == 0 && n.branch_num == 0) [
    | false ↦ some h
    | true ↦ elim (n.parent == 0) [
      | true ↦ some h
      | false ↦ load h n.parent >>= (λ up.
          let r = delete_branch up n.child_id in
          elim (r.0) [
            | false ↦ none
            | true ↦
                let freed = write (write h n.parent (some r.1)) p none in
                load freed n.parent >>= (λ up2. shrink fuel n.parent (
                  write freed n.parent
                    (some (record up2 { branch_num = (up2.branch_num + 255) % 256 }))))
          ])
    ]
  ])

  unfoldable pub delete : Trie → List ℕ → ℕ → Heap A → Option (Bool × Heap A)
  delete t prefix prefix_length h = do
    found ← descend prefix prefix_length t.root h
    elim found [
      | none ↦ some (false, h)
      | some c ↦ do
        key ← tail_key c.rest c.left
        n ← load h c.current_node
        if is_some (get_prefix n key)
            then (if t.release_memory
                then (let (present, n1) = delete_prefix n key in
                    if present
                    then (let gone = record n1 { pref_num = (n1.pref_num + 255) % 256 } in
                        shrink (prefix_length / 8 + 1) c.current_node
                          (write h c.current_node (some gone))
                        >>= (λ h1. some (true, h1)))
                    else none)
                else some (true, h))
            else some (false, h)
    ]
