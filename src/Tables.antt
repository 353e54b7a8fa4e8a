-- ===== src/Tables.antt =====
-- modules/bm_sim/include/bm_sim/match_tables.h and modules/bm_sim/src/match_tables.cpp: match tables.
-- MatchTableIndirect keeps its actions in members, which its entries name and which it counts the
-- references to. `none` is a failed assertion, an exception or a read out of range.
pub mod Uses
pub mod Sound
pub mod Slots
pub mod Members
pub mod Entries
pub mod Counts
pub mod Modify
pub mod Hits
pub mod Defaults
mod Examples
use behavioral_model.Base.{
  ℕ, ◌+◌, ◌-◌, ◌/◌, ◌%◌, ◌^◌, Bool, true, false, Option, none, some, List, [], ◌∷◌, ◌++◌, length,
  get_elem?, set, ◌==◌, ltb, leb, if◌then◌else◌, ◌>>=◌,
}
use behavioral_model.Judy.{Judy1}
use behavioral_model.Handles.{get_handle, release_handle, valid_handle, clear}
use behavioral_model.Units.{
  MatchErrorCode, success, error, invalid_handle, invalid_mbr_handle, mbr_still_used,
  counters_disabled, ageing_disabled, MatchUnit, Entry, EntryMeta, Packet, KeyBuilder,
  LookupStructure, handle_internal, meta_at,
}
use behavioral_model.Units as Units

-- The control flow after a table: nodes by action, after a hit and after a miss.
pub record NextNodes : Type 0 where
  pub next_nodes : ℕ → Option ℕ
  pub has_next_node_hit : Bool
  pub has_next_node_miss : Bool
  pub next_node_hit : ℕ
  pub next_node_miss : ℕ
  pub next_node_miss_default : ℕ

unfoldable pub set_next_node : ℕ → ℕ → NextNodes → NextNodes
set_next_node action_id next_node n = record n {
  next_nodes = λ i. if i == action_id then some next_node else n.next_nodes i;
}

unfoldable pub set_next_node_hit : ℕ → NextNodes → NextNodes
set_next_node_hit next_node n = record n { has_next_node_hit = true; next_node_hit = next_node }

unfoldable pub set_next_node_miss : ℕ → NextNodes → NextNodes
set_next_node_miss next_node n = record n {
  has_next_node_miss = true;
  next_node_miss = next_node;
  next_node_miss_default = next_node;
}

unfoldable pub set_next_node_miss_default : ℕ → NextNodes → NextNodes
set_next_node_miss_default next_node n =
    if n.has_next_node_miss
    then n
    else record n { next_node_miss = next_node; next_node_miss_default = next_node }

unfoldable pub get_next_node : NextNodes → ℕ → Option ℕ
get_next_node n action_id =
    if n.has_next_node_hit then some n.next_node_hit else n.next_nodes action_id

unfoldable pub get_next_node_default : NextNodes → ℕ → Option ℕ
get_next_node_default n action_id =
    if n.has_next_node_miss then some n.next_node_miss else n.next_nodes action_id

pub record ActionEntry (D : Type 0) : Type 0 where
  pub action_id : ℕ
  pub action_data : D
  pub next_node : ℕ

-- class IndirectIndex: a word with a tag above its 24 bits.
unfoldable pub make_mbr_index : ℕ → Option ℕ
make_mbr_index index = if leb index 16777215 then some index else none

unfoldable pub is_mbr : ℕ → Bool
is_mbr index = index / 2 ^ 24 == 0

unfoldable pub get : ℕ → ℕ
get index = index % 2 ^ 24

unfoldable pub get_mbr : ℕ → Option ℕ
unfolding is_mbr get
get_mbr index = if is_mbr index then some (get index) else none

-- push_back at the end of a vector, and a store elsewhere, behind the assertion on the index.
unfoldable pub put : {X : Type 0} → List X → ℕ → X → Option (List X)
put xs i x =
    if leb i (length xs) then some (if i == length xs then xs ++ (x ∷ []) else set xs i x) else none

-- class IndirectIndexRefCount.
pub record RefCount : Type 0 where
  pub mbr_count : List ℕ
  pub grp_count : List ℕ

unfoldable pub set_count : ℕ → ℕ → RefCount → Option RefCount
unfolding is_mbr get put
set_count index v c =
    if is_mbr index
    then put c.mbr_count (get index) v >>= (λ l. some (record c { mbr_count = l }))
    else put c.grp_count (get index) v >>= (λ l. some (record c { grp_count = l }))

unfoldable pub get_count : ℕ → RefCount → Option ℕ
unfolding is_mbr get
get_count index c =
    if is_mbr index then get_elem? c.mbr_count (get index) else get_elem? c.grp_count (get index)

-- The counts are of 32 bits.
unfoldable pub change : (ℕ → ℕ) → ℕ → RefCount → Option RefCount
unfolding is_mbr get
change f index c =
    if is_mbr index
    then get_elem? c.mbr_count (get index)
      >>= (λ n. some (record c { mbr_count = set c.mbr_count (get index) (f n) }))
    else get_elem? c.grp_count (get index)
      >>= (λ n. some (record c { grp_count = set c.grp_count (get index) (f n) }))

unfoldable pub increase : ℕ → RefCount → Option RefCount
unfolding change
increase = change (λ n. (n + 1) % 2 ^ 32)

unfoldable pub decrease : ℕ → RefCount → Option RefCount
unfolding change
decrease = change (λ n. (n + 4294967295) % 2 ^ 32)

-- class MatchTableIndirect; the value of an entry of its match unit is an index.
pub record Table (A K S D : Type 0) : Type 0 where
  pub nodes : NextNodes
  pub match_unit : MatchUnit A K ℕ S
  pub index_ref_count : RefCount
  pub mbr_handles : A
  pub action_entries : List (ActionEntry D)
  pub num_members : ℕ
  pub default_index : ℕ
  pub default_set : Bool
  pub empty_action : ActionEntry D

module _ {A P K S D : Type 0} (j : Judy1 A) (kb : KeyBuilder P K) (ls : LookupStructure K S)
    (blank : Entry K ℕ) where
  unfoldable pub is_valid_mbr : Table A K S D → ℕ → Bool
  is_valid_mbr t mbr = valid_handle j t.mbr_handles mbr

  unfoldable pub entries_insert : ℕ → ActionEntry D → Table A K S D → Option (Table A K S D)
  unfolding make_mbr_index set_count put
  entries_insert mbr entry t = do
    entries ← put t.action_entries mbr entry
    index ← make_mbr_index mbr
    counts ← set_count index 0 t.index_ref_count
    some (record t { action_entries = entries; index_ref_count = counts })

  unfoldable pub add_member : ℕ → D → Table A K S D → Option (MatchErrorCode × ℕ × Table A K S D)
  unfolding get_next_node entries_insert
  add_member action_id action_data t = do
    next_node ← get_next_node t.nodes action_id
    elim (get_handle j t.mbr_handles) [
      | none ↦ some (error, 0, t)
      | some (mbr, handles) ↦ do
        t1 ←
            entries_insert mbr
              (record { action_id = action_id; action_data = action_data; next_node = next_node })
              (record t { mbr_handles = handles })
        some (success, mbr, record t1 { num_members = t.num_members + 1 })
    ]

  -- Where assertions are compiled in: without them the handle is never released.
  unfoldable pub delete_member : ℕ → Table A K S D → Option (MatchErrorCode × Table A K S D)
  unfolding is_valid_mbr make_mbr_index get_count
  delete_member mbr t =
      if is_valid_mbr t mbr
      then (do
        index ← make_mbr_index mbr
        n ← get_count index t.index_ref_count
        let (released, handles) = release_handle j t.mbr_handles mbr in
            if ltb 0 n
            then some (mbr_still_used, t)
            else if released
            then some (success, record t { mbr_handles = handles; num_members = t.num_members - 1 })
            else none)
      else some (invalid_mbr_handle, t)

  unfoldable pub modify_member : ℕ → ℕ → D → Table A K S D → Option (MatchErrorCode × Table A K S D)
  unfolding get_next_node is_valid_mbr
  modify_member mbr action_id action_data t = do
    next_node ← get_next_node t.nodes action_id
    if is_valid_mbr t mbr
        then (if ltb mbr (length t.action_entries)
            then some (
              success,
              record t {
                action_entries = set t.action_entries mbr (record {
                  action_id = action_id;
                  action_data = action_data;
                  next_node = next_node;
                });
              },
            )
            else none)
        else some (invalid_mbr_handle, t)

  unfoldable pub add_entry :
      P → ℕ → ℕ → ℕ → Table A K S D → Option (MatchErrorCode × ℕ × Table A K S D)
  unfolding is_valid_mbr make_mbr_index increase
  add_entry match_key mbr priority now t =
      if is_valid_mbr t mbr
      then (do
        index ← make_mbr_index mbr
        counts ← increase index t.index_ref_count
        let (code, handle, u) =
              Units.add_entry j kb ls blank t.match_unit match_key index priority now in
            some (code, handle, record t { match_unit = u; index_ref_count = counts }))
      else some (invalid_mbr_handle, 0, t)

  unfoldable pub delete_entry : ℕ → Table A K S D → Option (MatchErrorCode × Table A K S D)
  unfolding decrease
  delete_entry handle t =
      let (code, value) = Units.get_value j kb ls blank t.match_unit handle in
      elim value [
        | none ↦ some (code, t)
        | some index ↦ do
          counts ← decrease index t.index_ref_count
          let (code', u) = Units.delete_entry j kb ls blank t.match_unit handle in
              some (code', record t { match_unit = u; index_ref_count = counts })
      ]

  -- The count of the old member falls before the new one is looked at.
  unfoldable pub modify_entry : ℕ → ℕ → Table A K S D → Option (MatchErrorCode × Table A K S D)
  unfolding decrease increase is_valid_mbr make_mbr_index
  modify_entry handle mbr t =
      let (code, value) = Units.get_value j kb ls blank t.match_unit handle in
      elim value [
        | none ↦ some (code, t)
        | some index ↦ do
          counts ← decrease index t.index_ref_count
          if is_valid_mbr t mbr
              then (do
                index' ← make_mbr_index mbr
                counts' ← increase index' counts
                let (code', u) = Units.modify_entry j kb ls blank t.match_unit handle index' in
                    some (code', record t { match_unit = u; index_ref_count = counts' }))
              else some (invalid_mbr_handle, record t { index_ref_count = counts })
      ]

  unfoldable pub set_default_member : ℕ → Table A K S D → Option (MatchErrorCode × Table A K S D)
  unfolding is_valid_mbr make_mbr_index
  set_default_member mbr t =
      if is_valid_mbr t mbr
      then (do
        index ← make_mbr_index mbr
        some (success, record t { default_index = index; default_set = true }))
      else some (invalid_mbr_handle, t)

  unfoldable pub get_member : ℕ → Table A K S D → Option (MatchErrorCode × Option (ℕ × D))
  unfolding is_valid_mbr
  get_member mbr t =
      if is_valid_mbr t mbr
      then (do
        e ← get_elem? t.action_entries mbr
        some (success, some (e.action_id, e.action_data)))
      else some (invalid_mbr_handle, none)

  unfoldable pub member_entry : ℕ → Table A K S D → Option (ActionEntry D)
  unfolding get_mbr is_valid_mbr
  member_entry index t = do
    mbr ← get_mbr index
    if is_valid_mbr t mbr then get_elem? t.action_entries mbr else none

  -- lookup from what the match unit finds: the handle on a hit, and the entry.
  unfoldable pub found_entry :
      Option (ℕ × ℕ) × MatchUnit A K ℕ S
      → Table A K S D
      → Option (Option ℕ × ActionEntry D × Table A K S D)
  unfolding member_entry
  found_entry (some (handle, index), u) t =
      member_entry index t >>= (λ e. some (some handle, e, record t { match_unit = u }))
  found_entry (none, u) t =
      if t.default_set
      then member_entry t.default_index t >>= (λ e. some (none, e, record t { match_unit = u }))
      else some (none, t.empty_action, record t { match_unit = u })

  unfoldable pub lookup :
      Packet → List ℕ → Table A K S D → Option (Option ℕ × ActionEntry D × Table A K S D)
  unfolding found_entry
  lookup pkt key t = found_entry (Units.lookup j kb ls blank t.match_unit pkt key) t

  unfoldable pub apply_action :
      Packet → List ℕ → Table A K S D → Option (ActionEntry D × ℕ × Table A K S D)
  unfolding lookup
  apply_action pkt key t = do
    (hit, e, t1) ← lookup pkt key t
    some (e, elim hit [ none ↦ t.nodes.next_node_miss | some h ↦ e.next_node ], t1)

  -- The default member stays set.
  unfoldable pub reset_state_ : Table A K S D → Table A K S D
  reset_state_ t = record t {
    index_ref_count = record { mbr_count = []; grp_count = [] };
    mbr_handles = clear j t.mbr_handles;
    action_entries = [];
    num_members = 0;
    match_unit = Units.reset_state j kb ls blank t.match_unit;
  }
