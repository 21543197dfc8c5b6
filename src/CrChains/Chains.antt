-- ===== src/CrChains/Chains.antt =====
-- cr_chains.go, crChains: the chains of a branch and the maps that lead to them. Chains are objects
-- that two maps share, so `chains` is their heap. A `map[BlockPointer]bool` has the value true alone.
use angelkey_kbfsbeta.Prelude.{
  ℕ, ite, Bool, true, false, Option, none, some, [], ◌∷◌, ◌++◌, ℕ_discrete, if◌then◌else◌,
}
use Prim.Native.String.{String}
use angelkey_kbfsbeta.Prelude.Result.{Result, ok, err, ◌>>=◌}
use angelkey_kbfsbeta.Prelude.Map
use angelkey_kbfsbeta.Prelude.Map.{Map}
use angelkey_kbfsbeta.Data.{BlockPointer, block_pointer_discrete, zero_ptr}
use angelkey_kbfsbeta.Ops.{
  Op, create_op, rm_op, rename_op, sync_op, set_attr_op, resolution_op, rekey_op, gc_op,
}
use angelkey_kbfsbeta.CrChains.Chain.{CrChain}

pub record RenameInfo : Type 0 where
  pub original_old_parent : BlockPointer
  pub old_name : String
  pub original_new_parent : BlockPointer
  pub new_name : String

pub record CrChains : Type 0 where
  pub chains : Map ℕ CrChain
  pub next_chain : ℕ
  pub by_original : Map BlockPointer ℕ
  pub by_most_recent : Map BlockPointer ℕ
  pub original_root : BlockPointer
  pub deleted_originals : Map BlockPointer Bool
  pub created_originals : Map BlockPointer Bool
  pub renamed_originals : Map BlockPointer RenameInfo
  pub block_change_pointers : Map BlockPointer Bool
  pub to_unref_pointers : Map BlockPointer Bool
  pub originals : Map BlockPointer BlockPointer

pub data ChainsError : Type 0 where
  -- addOp's message, and NoChainFoundError
  no_chain_for_most_recent no_chain_found : BlockPointer → ChainsError
  no_parent_chain : BlockPointer → ChainsError
  original_exists : BlockPointer → ChainsError
  writer_info_failed unknown_operation unexpected_length : ChainsError

abbrev pub find : {V : Type 0} → BlockPointer → Map BlockPointer V → Option V
find p m = Map.get block_pointer_discrete p m

abbrev pub get_chain : ℕ → CrChains → Option CrChain
get_chain c s = Map.get ℕ_discrete c s.chains

abbrev pub set_chain : ℕ → CrChain → CrChains → CrChains
set_chain c chain s = record s { chains = Map.put ℕ_discrete c chain s.chains }

-- newCRChainsEmpty
abbrev pub new_cr_chains_empty : CrChains
new_cr_chains_empty = record {
  chains = [];
  next_chain = 0;
  by_original = [];
  by_most_recent = [];
  original_root = zero_ptr;
  deleted_originals = [];
  created_originals = [];
  renamed_originals = [];
  block_change_pointers = [];
  to_unref_pointers = [];
  originals = [];
}

unfoldable pub add_op : BlockPointer → Op → CrChains → Result ChainsError CrChains
unfolding Map.get Map.put
add_op ptr o s = elim (find ptr s.by_most_recent) [
  | none ↦ err (no_chain_for_most_recent ptr)
  | some c ↦ elim (get_chain c s) [
    | none ↦ err (no_chain_for_most_recent ptr)
    | some chain ↦ ok (set_chain c (record chain { ops = chain.ops ++ o ∷ [] }) s)
  ]
]

abbrev pub chain_found : BlockPointer → CrChains → Option ℕ → Result ChainsError CrChain
chain_found p s none = err (no_chain_found p)
chain_found p s (some c) = elim (get_chain c s) [
  | none ↦ err (no_chain_found p)
  | some chain ↦ ok chain
]

unfoldable pub most_recent_from_original : BlockPointer → CrChains → Result ChainsError BlockPointer
unfolding Map.get
most_recent_from_original p s = do
  chain ← chain_found p s (find p s.by_original)
  ok chain.most_recent

unfoldable pub original_from_most_recent : BlockPointer → CrChains → Result ChainsError BlockPointer
unfolding Map.get
original_from_most_recent p s = do
  chain ← chain_found p s (find p s.by_most_recent)
  ok chain.original

-- The `OrSame` variants. The lookup has no other error than that no chain is found.
unfoldable pub most_recent_from_original_or_same : BlockPointer → CrChains → BlockPointer
unfolding most_recent_from_original
most_recent_from_original_or_same p s = elim (most_recent_from_original p s) [
  | ok q ↦ q
  | err _ ↦ p
]

unfoldable pub original_from_most_recent_or_same : BlockPointer → CrChains → BlockPointer
unfolding original_from_most_recent
original_from_most_recent_or_same p s = elim (original_from_most_recent p s) [
  | ok q ↦ q
  | err _ ↦ p
]

-- The value of a missing key is false.
abbrev pub is_marked : Option Bool → Bool
is_marked none = false
is_marked (some b) = b

unfoldable pub is_created : BlockPointer → CrChains → Bool
unfolding Map.get
is_created p s = is_marked (find p s.created_originals)

unfoldable pub is_deleted : BlockPointer → CrChains → Bool
unfolding Map.get
is_deleted p s = is_marked (find p s.deleted_originals)

unfoldable pub renamed_parent_and_name : BlockPointer → CrChains → Option (BlockPointer × String)
unfolding Map.get
renamed_parent_and_name p s = elim (find p s.renamed_originals) [
  | none ↦ none
  | some info ↦ some (info.original_new_parent, info.new_name)
]

unfoldable pub remove_chain : BlockPointer → CrChains → CrChains
unfolding Map.delete
remove_chain p s = record s {
  by_original = Map.delete block_pointer_discrete p s.by_original;
  by_most_recent = Map.delete block_pointer_discrete p s.by_most_recent;
}

-- The loop of copyOpAndRevertUnrefsToOriginals, for one pointer.
unfoldable pub revert_pointer : CrChains → BlockPointer → BlockPointer
unfolding Map.get
revert_pointer s p = elim (find p s.originals) [ none ↦ p | some original ↦ original ]

-- copyOpAndRevertUnrefsToOriginals; `none` is the nil that it returns for other operations.
unfoldable pub copy_op_and_revert_unrefs_to_originals : CrChains → Op → Option Op
unfolding revert_pointer
copy_op_and_revert_unrefs_to_originals s (create_op o) =
    some (create_op (record o { dir = record o.dir { unref = revert_pointer s o.dir.unref } }))
copy_op_and_revert_unrefs_to_originals s (rm_op o) =
    some (rm_op (record o { dir = record o.dir { unref = revert_pointer s o.dir.unref } }))
copy_op_and_revert_unrefs_to_originals s (rename_op o) = some (
    rename_op (record o {
      old_dir = record o.old_dir { unref = revert_pointer s o.old_dir.unref };
      new_dir = record o.new_dir { unref = revert_pointer s o.new_dir.unref };
      renamed = revert_pointer s o.renamed;
    }))
copy_op_and_revert_unrefs_to_originals s (sync_op o) =
    some (sync_op (record o { file = record o.file { unref = revert_pointer s o.file.unref } }))
copy_op_and_revert_unrefs_to_originals s (set_attr_op o) = some (
    set_attr_op (record o {
      dir = record o.dir { unref = revert_pointer s o.dir.unref };
      file = revert_pointer s o.file;
    }))
copy_op_and_revert_unrefs_to_originals s (gc_op o) = some (gc_op o)
copy_op_and_revert_unrefs_to_originals s (resolution_op c) = none
copy_op_and_revert_unrefs_to_originals s (rekey_op c) = none

-- A key moves, if it is there.
unfoldable pub move_key :
    {V : Type 0} → BlockPointer → BlockPointer → (V → V) → Map BlockPointer V → Map BlockPointer V
unfolding Map.get Map.put Map.delete
move_key p q f m = elim (find p m) [
  | none ↦ m
  | some v ↦ Map.put block_pointer_discrete q (f v) (Map.delete block_pointer_discrete p m)
]

-- The chain gets its new original, in every map.
unfoldable pub set_original : BlockPointer → BlockPointer → ℕ → CrChain → CrChains → CrChains
unfolding Map.put Map.delete move_key
set_original old new c chain s =
    let at_start = ite (block_pointer_discrete chain.most_recent old) true false in
    record s {
      chains =
          Map.put ℕ_discrete c
            (record chain {
              original = new;
              most_recent = if at_start then new else chain.most_recent;
            })
            s.chains;
      by_original =
          Map.put block_pointer_discrete new c
            (Map.delete block_pointer_discrete old s.by_original);
      by_most_recent =
          if at_start
          then Map.put block_pointer_discrete new c
              (Map.delete block_pointer_discrete old s.by_most_recent)
          else s.by_most_recent;
      originals = Map.put block_pointer_discrete old new s.originals;
      deleted_originals = move_key old new (λ _. true) s.deleted_originals;
      created_originals = move_key old new (λ _. true) s.created_originals;
      renamed_originals = move_key old new (λ ri. ri) s.renamed_originals;
    }

unfoldable pub change_original :
    BlockPointer → BlockPointer → CrChains → Result ChainsError CrChains
unfolding Map.get set_original
change_original old new s = elim (find old s.by_original) [
  | none ↦ err (no_chain_found old)
  | some c ↦ elim (get_chain c s) [
    | none ↦ err (no_chain_found old)
    | some chain ↦ elim (find new s.by_original) [
      | some _ ↦ err (original_exists new)
      | none ↦ ok (set_original old new c chain s)
    ]
  ]
]
