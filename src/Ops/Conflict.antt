-- ===== src/Ops/Conflict.antt =====
-- libkbfs/ops.go: CheckConflict and GetDefaultAction of each operation, and the actions that they
-- return (libkbfs/cr_actions.go). The receiver is the unmerged operation. The conflict renamer is an
-- interface of the source, and a function here.
pub mod Exact
use angelkey_kbfsbeta.Prelude.{
  Bool, true, false, not, ◌&&◌, ◌||◌, Option, none, some, List, ◌∷◌, if◌then◌else◌, [],
}
use Prim.Native.String.{String}
use text.Mathlib.Text.{◌==◌ as str_eq}
use angelkey_kbfsbeta.Prelude.Result.{Result, ok, err, ◌>>=◌}
use angelkey_kbfsbeta.Data.{
  BlockPointer, zero_ptr, is_dir, FilePath, OpError, unexpected_conflict_check, tail_name,
  tail_pointer, parent_path,
}
use angelkey_kbfsbeta.Ops.{
  Op, CreateOp, RmOp, SyncOp, SetAttrOp, AttrChange, ex_attr, mtime_attr, size_attr, create_op,
  rm_op, rename_op, sync_op, set_attr_op, resolution_op, rekey_op, gc_op, get_final_path,
}

pub data CrAction : Type 0 where
  -- fromName, toName, symPath, unique; sizeOnly, unmergedEntry and attr, which only the later steps
  -- of the action set, are left out
  copy_unmerged_entry : String → String → String → Bool → CrAction
  -- fromName, toName, attr
  copy_unmerged_attr : String → String → List AttrChange → CrAction
  rm_merged_entry : String → CrAction
  -- fromName, toName, symPath, unmergedParentMostRecent, mergedParentMostRecent
  rename_unmerged : String → String → String → BlockPointer → BlockPointer → CrAction
  -- fromName, toName, symPath
  rename_merged : String → String → String → CrAction
  drop_unmerged : Op → CrAction

abbrev pub same_attr : AttrChange → AttrChange → Bool
same_attr ex_attr ex_attr = true
same_attr mtime_attr mtime_attr = true
same_attr size_attr size_attr = true
same_attr _ _ = false

module _ (conflict_rename : Op → String → String) where
  -- createOp.CheckConflict against a createOp.
  unfoldable pub check_create_create : CreateOp → CreateOp → Option CrAction
  check_create_create co merged =
      let same_name = str_eq merged.new_name co.new_name in
      if same_name && (not (is_dir merged.type) || not (is_dir co.type))
      then (if not (is_dir merged.type) && (is_dir co.type || not (str_eq co.cr_sym_path ""))
          then some (
              rename_merged co.new_name (conflict_rename (create_op merged) co.new_name)
                co.cr_sym_path)
          else some (
              rename_unmerged co.new_name (conflict_rename (create_op co) co.new_name)
                co.cr_sym_path zero_ptr zero_ptr))
      else if same_name && is_dir merged.type && is_dir co.type && (merged.renamed || co.renamed)
      then some (
          copy_unmerged_entry co.new_name (conflict_rename (create_op co) co.new_name)
            co.cr_sym_path true)
      else none

  -- rmOp.CheckConflict
  unfoldable pub check_rm : RmOp → Op → Option CrAction
  check_rm ro (create_op merged) =
      if str_eq merged.new_name ro.old_name then some (drop_unmerged (rm_op ro)) else none
  check_rm ro (rm_op merged) =
      if str_eq merged.old_name ro.old_name then some (drop_unmerged (rm_op ro)) else none
  check_rm ro _ = none

  -- The renameUnmergedAction of a sync or of a setAttr, whose paths must have two nodes.
  unfoldable pub rename_in_place : Op → Op → Result OpError (Option CrAction)
  rename_in_place unmerged merged = do
    from_name ← tail_name (get_final_path unmerged)
    merged_name ← tail_name (get_final_path merged)
    unmerged_parent ← parent_path (get_final_path unmerged)
    unmerged_ptr ← tail_pointer unmerged_parent
    merged_parent ← parent_path (get_final_path merged)
    merged_ptr ← tail_pointer merged_parent
    ok (
        some (
          rename_unmerged from_name (conflict_rename unmerged merged_name) "" unmerged_ptr
            merged_ptr))

  -- syncOp.CheckConflict
  unfoldable pub check_sync : SyncOp → Op → Result OpError (Option CrAction)
  unfolding rename_in_place
  check_sync so (sync_op merged) = rename_in_place (sync_op so) (sync_op merged)
  check_sync so (set_attr_op merged) = do
    from_name ← tail_name so.common.final_path
    to_name ← tail_name merged.common.final_path
    ok (some (copy_unmerged_attr from_name to_name (size_attr ∷ [])))
  check_sync so _ = ok none

  -- setAttrOp.CheckConflict
  unfoldable pub check_set_attr : SetAttrOp → Op → Result OpError (Option CrAction)
  unfolding rename_in_place
  check_set_attr sao (set_attr_op merged) =
      if same_attr merged.attr sao.attr
      then rename_in_place (set_attr_op sao) (set_attr_op merged)
      else ok none
  check_set_attr sao _ = ok none

  -- CheckConflict
  unfoldable pub check_conflict : Op → Op → Result OpError (Option CrAction)
  unfolding check_create_create check_rm check_sync check_set_attr
  check_conflict (create_op co) (create_op merged) = ok (check_create_create co merged)
  check_conflict (create_op co) _ = ok none
  check_conflict (rm_op ro) merged = ok (check_rm ro merged)
  check_conflict (rename_op _) merged = err unexpected_conflict_check
  check_conflict (sync_op so) merged = check_sync so merged
  check_conflict (set_attr_op sao) merged = check_set_attr sao merged
  check_conflict (resolution_op _) merged = ok none
  check_conflict (rekey_op _) merged = ok none
  check_conflict (gc_op _) merged = ok none

-- GetDefaultAction, `none` where the source returns nil.
unfoldable pub get_default_action : Op → FilePath → Result OpError (Option CrAction)
get_default_action (create_op co) merged_path =
    if co.force_copy
    then ok (some (rename_unmerged co.new_name co.new_name co.cr_sym_path zero_ptr zero_ptr))
    else ok (some (copy_unmerged_entry co.new_name co.new_name co.cr_sym_path false))
get_default_action (rm_op ro) merged_path =
    if ro.drop_this
    then ok (some (drop_unmerged (rm_op ro)))
    else ok (some (rm_merged_entry ro.old_name))
get_default_action (sync_op so) merged_path = do
  from_name ← tail_name so.common.final_path
  to_name ← tail_name merged_path
  ok (some (copy_unmerged_entry from_name to_name "" false))
get_default_action (set_attr_op sao) merged_path = do
  from_name ← tail_name sao.common.final_path
  to_name ← tail_name merged_path
  ok (some (copy_unmerged_attr from_name to_name (sao.attr ∷ [])))
get_default_action _ merged_path = ok none
