-- ===== src/NodeCache.antt =====
-- libkbfs/node_cache.go and libkbfs/node.go: the nodes that stand for files and directories in use,
-- shared cores behind them, and the cache that counts them. A core is an object, so `cores` is the
-- heap of cores, and `live` holds the core of each node object whose finalizer has not run. A node
-- object has no other field, and is its core here. The lock makes each method atomic.
mod Walk
mod Counted
mod Steps
mod Methods
mod Released
mod Reach
mod Paths
mod Tests
use angelkey_kbfsbeta.Prelude.{
  ℕ, ◌+◌, ◌-◌, ite, Bool, true, false, not, ◌||◌, Option, none, some, List, [], ◌∷◌, ℕ_discrete,
  leb, ◌==◌, if◌then◌else◌,
}
use Prim.Native.String.{String}
use text.Mathlib.Text.{◌==◌ as str_eq}
use angelkey_kbfsbeta.Prelude.Result.{Result, ok, err, ◌>>=◌}
use angelkey_kbfsbeta.Prelude.Map
use angelkey_kbfsbeta.Prelude.Map.{Map}
use angelkey_kbfsbeta.Data.{
  BlockRef, block_ref_discrete, BlockPointer, block_pointer_discrete, zero_ptr, ref, PathNode,
  FilePath,
}

-- A Node: nil, a node of another implementation, or a *nodeStandard.
pub data Node : Type 0 where
  no_node other_node : Node
  node : ℕ → Node

pub record NodeCore : Type 0 where
  pub path_node : PathNode
  pub parent : Option ℕ
  pub cached_path : FilePath

pub record CacheEntry : Type 0 where
  pub core : ℕ
  pub ref_count : ℕ

pub record NodeCache : Type 0 where
  pub tlf : ℕ
  pub branch : String
  pub nodes : Map BlockRef CacheEntry
  pub cores : Map ℕ NodeCore
  pub next_core : ℕ
  pub live : List ℕ

-- The first two are panics.
pub data NodeError : Type 0 where
  invalid_block_ref : BlockRef → NodeError
  invalid_update : BlockRef → BlockPointer → NodeError
  empty_name : BlockRef → NodeError
  parent_node_not_found : BlockRef → NodeError

-- blockRef{}
abbrev pub zero_ref : BlockRef
zero_ref = record { id = 0; ref_nonce = 0 }

-- IsValid of references and pointers: every hash but the zero value is made valid.
abbrev pub is_valid : BlockRef → Bool
is_valid r = not (r.id == 0)

abbrev pub get_entry : BlockRef → NodeCache → Option CacheEntry
get_entry r s = Map.get block_ref_discrete r s.nodes

abbrev pub get_core : ℕ → NodeCache → Option NodeCore
get_core c s = Map.get ℕ_discrete c s.cores

abbrev pub set_core : ℕ → NodeCore → NodeCache → NodeCache
set_core c core s = record s { cores = Map.put ℕ_discrete c core s.cores }

abbrev pub set_entry : BlockRef → CacheEntry → NodeCache → NodeCache
set_entry r e s = record s { nodes = Map.put block_ref_discrete r e s.nodes }

abbrev pub delete_entry : BlockRef → NodeCache → NodeCache
delete_entry r s = record s { nodes = Map.delete block_ref_discrete r s.nodes }

-- makeNodeStandardForEntry, for the entry that stands at the reference.
unfoldable pub make_node : BlockRef → CacheEntry → NodeCache → ℕ × NodeCache
make_node r e s = (
  e.core,
  record (set_entry r (record e { ref_count = e.ref_count + 1 }) s) { live = e.core ∷ s.live },
)

-- newChildForParentLocked, for a parent: the core of the parent node.
unfoldable pub new_child_for_parent : Node → NodeCache → Result NodeError ℕ
new_child_for_parent (node c) s = elim (get_core c s) [
  | none ↦ err (parent_node_not_found zero_ref)
  | some core ↦ elim (get_entry (ref core.path_node.pointer) s) [
    | none ↦ err (parent_node_not_found (ref core.path_node.pointer))
    | some e ↦
        if e.core == c then ok c else err (parent_node_not_found (ref core.path_node.pointer))
  ]
]
new_child_for_parent _ s = err (parent_node_not_found zero_ref)

-- The end of GetOrCreate: a new core with its entry, and the first node of it.
unfoldable pub create : BlockPointer → String → Option ℕ → NodeCache → ℕ × NodeCache
unfolding make_node
create ptr name parent s =
    let c = s.next_core in
    let core : NodeCore = record {
      path_node = record { pointer = ptr; name = name };
      parent = parent;
      cached_path = record { tlf = 0; branch = ""; path = [] };
    } in
    let e : CacheEntry = record { core = c; ref_count = 0 } in
    make_node (ref ptr) e (set_entry (ref ptr) e (record (set_core c core s) { next_core = c + 1 }))

unfoldable pub create_child :
    BlockPointer → String → Node → NodeCache → Result NodeError (ℕ × NodeCache)
unfolding create new_child_for_parent
create_child ptr name no_node s = ok (create ptr name none s)
create_child ptr name parent s = do
  p ← new_child_for_parent parent s
  ok (create ptr name (some p) s)

-- `parent != nil && entry.core.parent == nil`
unfoldable pub is_replaced : Node → CacheEntry → NodeCache → Bool
is_replaced no_node e s = false
is_replaced parent e s = elim (get_core e.core s) [
  | none ↦ false
  | some core ↦ elim core.parent [ none ↦ true | some _ ↦ false ]
]

-- A call that fails leaves the state in which it was made.
abbrev pub or_state : NodeCache → Result NodeError (ℕ × NodeCache) → Result NodeError ℕ × NodeCache
or_state t (err x) = (err x, t)
or_state t (ok (c, u)) = (ok c, u)

-- GetOrCreate. An entry that is deleted stays deleted when the parent is not found.
unfoldable pub get_or_create :
    BlockPointer → String → Node → NodeCache → Result NodeError ℕ × NodeCache
unfolding create_child make_node is_replaced
get_or_create ptr name parent s =
    if not (is_valid (ref ptr))
    then (err (invalid_block_ref (ref ptr)), s)
    else if str_eq name ""
    then (err (empty_name (ref ptr)), s)
    else elim (get_entry (ref ptr) s) [
      | none ↦ or_state s (create_child ptr name parent s)
      | some e ↦
          if is_replaced parent e s
          then (let s' = delete_entry (ref ptr) s in or_state s' (create_child ptr name parent s'))
          else (let (c, s') = make_node (ref ptr) e s in (ok c, s'))
    ]

-- nodeCacheStandard.Get: `no_node` for nil.
unfoldable pub get_node : BlockRef → NodeCache → Result NodeError Node × NodeCache
unfolding make_node
get_node r s =
    ite (block_ref_discrete r zero_ref) (ok no_node, s)
      (if not (is_valid r) then (err (invalid_block_ref r), s) else elim (get_entry r s) [
        | none ↦ (ok no_node, s)
        | some e ↦ (let (c, s') = make_node r e s in (ok (node c), s'))
      ])

-- The pointer of a cached node that is still linked moves, with its entry.
unfoldable pub move_entry : BlockRef → BlockPointer → CacheEntry → NodeCore → NodeCache → NodeCache
move_entry old new e core s = elim core.cached_path.path [
  | [] ↦ set_entry (ref new) e (
      delete_entry old
        (set_core e.core (record core { path_node = record core.path_node { pointer = new } }) s))
  | _ ∷ _ ↦ s
]

unfoldable pub update_pointer : BlockRef → BlockPointer → NodeCache → Result NodeError NodeCache
unfolding move_entry
update_pointer old new s =
    if ite (block_ref_discrete old zero_ref) (ite (block_pointer_discrete new zero_ptr) true false)
      false
    then ok s
    else if not (is_valid old) || not (is_valid (ref new))
    then err (invalid_update old new)
    else elim (get_entry old s) [
      | none ↦ ok s
      | some e ↦ elim (get_core e.core s) [
        | none ↦ ok s
        | some core ↦ ok (move_entry old new e core s)
      ]
    ]

unfoldable pub change_parent : ℕ → ℕ → String → NodeCache → NodeCache
change_parent c parent name s = elim (get_core c s) [
  | none ↦ s
  | some core ↦
      set_core c
        (record core { parent = some parent; path_node = record core.path_node { name = name } }) s
]

unfoldable pub move_node : BlockRef → Node → String → NodeCache → Result NodeError NodeCache
unfolding change_parent new_child_for_parent
move_node r new_parent new_name s =
    if ite (block_ref_discrete r zero_ref) true false
    then ok s
    else if not (is_valid r)
    then err (invalid_block_ref r)
    else if str_eq new_name ""
    then err (empty_name r)
    else elim (get_entry r s) [
      | none ↦ ok s
      | some e ↦ do p ← new_child_for_parent new_parent s; ok (change_parent e.core p new_name s)
    ]

unfoldable pub detach : ℕ → FilePath → NodeCache → NodeCache
detach c old_path s = elim (get_core c s) [
  | none ↦ s
  | some core ↦
      set_core c
        (record {
          path_node = record core.path_node { name = "" };
          parent = none;
          cached_path = old_path;
        })
        s
]

unfoldable pub unlink : BlockRef → FilePath → NodeCache → Result NodeError NodeCache
unfolding detach
unlink r old_path s =
    if ite (block_ref_discrete r zero_ref) true false
    then ok s
    else if not (is_valid r)
    then err (invalid_block_ref r)
    else elim (get_entry r s) [ none ↦ ok s | some e ↦ ok (detach e.core old_path s) ]

-- `entry.refCount--`, and the test after it: counts are not negative here.
unfoldable pub release : BlockRef → CacheEntry → NodeCache → NodeCache
release r e s =
    if leb e.ref_count 1
    then delete_entry r s
    else set_entry r (record e { ref_count = e.ref_count - 1 }) s

-- forgetLocked
unfoldable pub forget : ℕ → NodeCache → NodeCache
unfolding release
forget c s = elim (get_core c s) [
  | none ↦ s
  | some core ↦ elim (get_entry (ref core.path_node.pointer) s) [
    | none ↦ s
    | some e ↦ if e.core == c then release (ref core.path_node.pointer) e s else s
  ]
]

abbrev pub remove_one : ℕ → List ℕ → List ℕ
remove_one c [] = []
remove_one c (d ∷ r) = let rest = remove_one c r in if d == c then r else d ∷ rest

-- nodeStandardFinalizer, on a node that is not live any more.
unfoldable pub finalize : ℕ → NodeCache → NodeCache
unfolding forget
finalize c s = forget c (record s { live = remove_one c s.live })
