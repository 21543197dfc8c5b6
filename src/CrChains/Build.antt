-- ===== src/CrChains/Build.antt =====
-- cr_chains.go: how the chains are built, makeChainForOp and newCRChains. An operation that a chain
-- holds is shared with its maker, so what the code adds to it afterwards is there from the start.
use angelkey_kbfsbeta.Prelude.{
  ℕ, ◌+◌, ite, Bool, true, Option, none, some, List, [], ◌∷◌, ℕ_discrete, if◌then◌else◌, last?,
}
use angelkey_kbfsbeta.Prelude.Result.{Result, ok, err, ◌>>=◌}
use angelkey_kbfsbeta.Prelude.Map
use angelkey_kbfsbeta.Prelude.Map.{Map}
use angelkey_kbfsbeta.Data.{BlockPointer, block_pointer_discrete, zero_ptr, is_initialized}
use angelkey_kbfsbeta.Ops.{
  Op, WriterInfo, RenameOp, CreateOp, RmOp, BlockUpdate, block_update_discrete, no_update,
  create_op, rm_op, rename_op, sync_op, set_attr_op, resolution_op, rekey_op, gc_op, refs, unrefs,
  all_updates, new_create_op, new_rm_op, set_writer_info, empty_common,
}
use angelkey_kbfsbeta.CrChains.Chain.{CrChain, collapse}
use angelkey_kbfsbeta.CrChains.Chains.{
  CrChains, RenameInfo, ChainsError, find, get_chain, set_chain, add_op, new_cr_chains_empty,
  no_parent_chain, writer_info_failed, original_from_most_recent_or_same,
}

-- The chain gets its new most recent pointer.
unfoldable pub move_chain : BlockPointer → ℕ → CrChain → CrChains → CrChains
unfolding Map.put Map.delete
move_chain new c chain s = record s {
  chains = Map.put ℕ_discrete c (record chain { most_recent = new }) s.chains;
  by_most_recent = Map.put block_pointer_discrete new c (
      if is_initialized chain.most_recent
      then Map.delete block_pointer_discrete chain.most_recent s.by_most_recent
      else s.by_most_recent);
  originals =
      ite (block_pointer_discrete chain.original new) s.originals
        (Map.put block_pointer_discrete new chain.original s.originals);
}

-- `&crChain{original: ptr, mostRecent: most_recent}`, entered by its original.
unfoldable pub start_chain : BlockPointer → BlockPointer → CrChains → CrChains
unfolding Map.put
start_chain ptr most_recent s = record s {
  chains =
      Map.put ℕ_discrete s.next_chain
        (record { ops = []; original = ptr; most_recent = most_recent }) s.chains;
  next_chain = s.next_chain + 1;
  by_original = Map.put block_pointer_discrete ptr s.next_chain s.by_original;
}

-- The body of makeChainForOp's first loop. A number in a map always leads to a chain.
unfoldable pub apply_update : BlockUpdate → CrChains → CrChains
unfolding Map.get move_chain start_chain
apply_update u s = elim (find u.unref s.by_most_recent) [
  | none ↦
      move_chain u.ref s.next_chain
        (record { ops = []; original = u.unref; most_recent = zero_ptr })
        (start_chain u.unref zero_ptr s)
  | some c ↦ elim (get_chain c s) [ none ↦ s | some chain ↦ move_chain u.ref c chain s ]
]

unfoldable pub apply_updates : List BlockUpdate → CrChains → CrChains
unfolding apply_update
apply_updates [] s = s
apply_updates (u ∷ r) s = apply_updates r (apply_update u s)

unfoldable pub mark_created : List BlockPointer → CrChains → CrChains
unfolding Map.put
mark_created [] s = s
mark_created (p ∷ r) s =
    mark_created r
      (record s { created_originals = Map.put block_pointer_discrete p true s.created_originals })

unfoldable pub mark_deleted : List BlockPointer → CrChains → CrChains
unfolding Map.put original_from_most_recent_or_same
mark_deleted [] s = s
mark_deleted (p ∷ r) s = mark_deleted r (record s {
  deleted_originals =
      Map.put block_pointer_discrete (original_from_most_recent_or_same p s) true
        s.deleted_originals;
})

-- The updates of a rename's new directory, which stand in `old_dir` within one directory.
unfoldable pub rename_dir : RenameOp → BlockUpdate
rename_dir o = ite (block_update_discrete o.new_dir no_update) o.old_dir o.new_dir

-- The operations that a rename is split into.
unfoldable pub remove_part : RenameOp → RmOp
remove_part o = record (new_rm_op o.old_name o.old_dir.unref) {
  common = record empty_common { writer_info = o.common.writer_info };
  dir = o.old_dir;
}

unfoldable pub overwrite_part : RenameOp → RmOp
unfolding rename_dir
overwrite_part o = record (new_rm_op o.new_name (rename_dir o).unref) {
  common = record empty_common {
    writer_info = o.common.writer_info;
    unref_blocks = o.common.unref_blocks;
  };
  dir = rename_dir o;
}

unfoldable pub create_part : RenameOp → List BlockPointer → CreateOp
unfolding rename_dir
create_part o ref_blocks = record (new_create_op o.new_name (rename_dir o).unref o.renamed_type) {
  common = record empty_common { writer_info = o.common.writer_info; ref_blocks = ref_blocks };
  dir = rename_dir o;
  renamed = true;
}

-- The parent's chain, or the error that names `new_parent`.
unfoldable pub parent_chain : BlockPointer → BlockPointer → CrChains → Result ChainsError CrChain
unfolding Map.get
parent_chain new_parent p s = elim (find p s.by_most_recent) [
  | none ↦ err (no_parent_chain new_parent)
  | some c ↦ elim (get_chain c s) [
    | none ↦ err (no_parent_chain new_parent)
    | some chain ↦ ok chain
  ]
]

-- The old parent and name of an earlier rename are kept.
unfoldable pub rename_info : RenameOp → BlockPointer → BlockPointer → Option RenameInfo → RenameInfo
rename_info o old_parent new_parent (some info) = record info {
  original_new_parent = new_parent;
  new_name = o.new_name;
}
rename_info o old_parent new_parent none = record {
  original_old_parent = old_parent;
  old_name = o.old_name;
  original_new_parent = new_parent;
  new_name = o.new_name;
}

unfoldable pub track_rename : RenameOp → BlockPointer → CrChains → Result ChainsError CrChains
unfolding Map.get Map.put parent_chain rename_info rename_dir
track_rename o renamed_original s = do
  let ndr = (rename_dir o).ref
  new_parent ← parent_chain ndr ndr s
  old_parent ← parent_chain ndr o.old_dir.ref s
  let info =
      rename_info o old_parent.original new_parent.original
        (find renamed_original s.renamed_originals)
  ok (record s {
    renamed_originals = Map.put block_pointer_discrete renamed_original info s.renamed_originals;
  })

unfoldable pub add_overwrite : RenameOp → CrChains → Result ChainsError CrChains
unfolding add_op overwrite_part rename_dir
add_overwrite o s = elim o.common.unref_blocks [
  | [] ↦ ok s
  | _ ∷ _ ↦ add_op (rename_dir o).ref (rm_op (overwrite_part o)) s
]

unfoldable pub add_create : RenameOp → CrChains → Result ChainsError CrChains
unfolding add_op create_part rename_dir track_rename original_from_most_recent_or_same
add_create o s =
    if is_initialized o.renamed
    then (do
      let renamed_original = original_from_most_recent_or_same o.renamed s
      s' ← add_op (rename_dir o).ref (create_op (create_part o (renamed_original ∷ []))) s
      track_rename o renamed_original s')
    else add_op (rename_dir o).ref (create_op (create_part o [])) s

unfoldable pub add_rename : RenameOp → CrChains → Result ChainsError CrChains
unfolding add_op remove_part add_overwrite add_create
add_rename o s = do
  removed ← add_op o.old_dir.ref (rm_op (remove_part o)) s
  overwritten ← add_overwrite o removed
  add_create o overwritten

-- The attributes apply to a file whose pointer stays, so it may have no chain yet.
unfoldable pub ensure_chain : BlockPointer → CrChains → CrChains
unfolding Map.get Map.put start_chain
ensure_chain p s = elim (find p s.by_most_recent) [
  | some _ ↦ s
  | none ↦ record (start_chain p p s) {
    by_most_recent = Map.put block_pointer_discrete p s.next_chain s.by_most_recent;
  }
]

-- The switch at the end of makeChainForOp.
unfoldable pub add_to_chain : Op → CrChains → Result ChainsError CrChains
unfolding add_op add_rename ensure_chain
add_to_chain (create_op o) s = add_op o.dir.ref (create_op o) s
add_to_chain (rm_op o) s = add_op o.dir.ref (rm_op o) s
add_to_chain (rename_op o) s = add_rename o s
add_to_chain (sync_op o) s = add_op o.file.ref (sync_op o) s
add_to_chain (set_attr_op o) s = add_op o.file (set_attr_op o) (ensure_chain o.file s)
add_to_chain (resolution_op c) s = ok s
add_to_chain (rekey_op c) s = ok s
add_to_chain (gc_op o) s = ok s

unfoldable pub make_chain_for_op : Op → CrChains → Result ChainsError CrChains
unfolding apply_updates mark_created mark_deleted add_to_chain
make_chain_for_op o s =
    add_to_chain o
      (mark_deleted (unrefs o) (mark_created (refs o) (apply_updates (all_updates o) s)))

-- What newCRChains reads of a RootMetadata: `writer_copied` is IsWriterMetadataCopiedSet, `info` is
-- data.cachedChanges.Info, `dir` is data.Dir.
pub record ChainMd : Type 0 where
  pub writer_copied : Bool
  pub last_modifying_writer : ℕ
  pub writer_kid : ℕ
  pub info : BlockPointer
  pub ops : List Op
  pub dir : BlockPointer

unfoldable pub make_chains : WriterInfo → List Op → CrChains → Result ChainsError CrChains
unfolding make_chain_for_op
make_chains winfo [] s = ok s
make_chains winfo (o ∷ r) s = do
  s' ← make_chain_for_op (set_writer_info winfo o) s
  make_chains winfo r s'

unfoldable pub note_block_change : BlockPointer → CrChains → CrChains
unfolding Map.put
note_block_change p s = ite (block_pointer_discrete p zero_ptr) s (record s {
  block_change_pointers = Map.put block_pointer_discrete p true s.block_change_pointers;
})

unfoldable pub find_root : BlockPointer → CrChains → CrChains
unfolding Map.get
find_root dir s = if is_initialized s.original_root then s else (elim (find dir s.by_most_recent) [
  | none ↦ s
  | some c ↦ elim (get_chain c s) [
    | none ↦ s
    | some chain ↦ record s { original_root = chain.original }
  ]
])

unfoldable pub collapse_chain : ℕ → CrChains → CrChains
unfolding Map.get Map.put collapse
collapse_chain c s = elim (get_chain c s) [ none ↦ s | some chain ↦ set_chain c (collapse chain) s ]

-- The loop over byOriginal, whose order does not matter.
unfoldable pub collapse_chains : Map BlockPointer ℕ → CrChains → CrChains
unfolding collapse_chain
collapse_chains [] s = s
collapse_chains ((p, c) ∷ r) s = collapse_chains r (collapse_chain c s)

-- newWriterInfo asks the identity service for the writer's names.
module _ (new_writer_info : ℕ → ℕ → Option WriterInfo) where
  -- The body of newCRChains's loop over the updates.
  unfoldable pub add_md : ChainMd → CrChains → Result ChainsError CrChains
  unfolding make_chains note_block_change find_root
  add_md md s =
      if md.writer_copied
      then ok s
      else (elim (new_writer_info md.last_modifying_writer md.writer_kid) [
        | none ↦ err writer_info_failed
        | some winfo ↦ do
          s' ← make_chains winfo md.ops (note_block_change md.info s)
          ok (find_root md.dir s')
      ])

  unfoldable pub add_mds : List ChainMd → CrChains → Result ChainsError CrChains
  unfolding add_md
  add_mds [] s = ok s
  add_mds (md ∷ r) s = do s' ← add_md md s; add_mds r s'

  -- newCRChains; its field mostRecentMD is the last of `mds`.
  unfoldable pub new_cr_chains : List ChainMd → Result ChainsError (CrChains × Option ChainMd)
  unfolding add_mds collapse_chains
  new_cr_chains mds = do
    s ← add_mds mds new_cr_chains_empty
    ok (collapse_chains s.by_original s, last? mds)
