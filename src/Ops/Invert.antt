-- ===== src/Ops/Invert.antt =====
-- libkbfs/ops.go: invertOpForLocalNotifications. `none` is its panic on an operation that it does
-- not know.
pub mod Updates
use angelkey_kbfsbeta.Prelude.{Option, none, some, List, ◌∷◌, []}
use angelkey_kbfsbeta.Data.{file}
use angelkey_kbfsbeta.Ops.{
  Op, BlockUpdate, create_op, rm_op, rename_op, sync_op, set_attr_op, resolution_op, rekey_op,
  gc_op, add_update, all_updates, new_create_op, new_rm_op, new_rename_op, new_sync_op,
  new_set_attr_op,
}

-- The new operation, before the block updates are reversed into it.
unfoldable pub inverse_base : Op → Option Op
inverse_base (create_op o) = some (rm_op (new_rm_op o.new_name o.dir.ref))
inverse_base (rm_op o) = some (create_op (new_create_op o.old_name o.dir.ref file))
inverse_base (rename_op o) = some (
    rename_op
      (new_rename_op o.new_name o.new_dir.ref o.old_name o.old_dir.ref o.renamed o.renamed_type))
inverse_base (sync_op o) = some (sync_op (record (new_sync_op o.file.ref) { writes = o.writes }))
inverse_base (set_attr_op o) = some (set_attr_op (new_set_attr_op o.name o.dir.ref o.attr o.file))
inverse_base (gc_op o) = some (gc_op o)
inverse_base (resolution_op _) = none
inverse_base (rekey_op _) = none

-- The loop over `oldOp.AllUpdates()`.
unfoldable pub add_reversed : List BlockUpdate → Op → Op
add_reversed [] o = o
add_reversed (u ∷ r) o = add_reversed r (add_update u.ref u.unref o)

unfoldable pub invert_op : Op → Option Op
unfolding inverse_base
invert_op o = elim (inverse_base o) [
  | none ↦ none
  | some new_op ↦ some (add_reversed (all_updates o) new_op)
]
