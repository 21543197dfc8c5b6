-- ===== src/Ops.antt =====
-- libkbfs/ops.go: the operations that a metadata update records, with their pointer updates. The
-- children are the write ranges of a sync, conflict checks, and the inversion of operations.
pub mod Writes
pub mod Conflict
pub mod Invert
mod Tests
use Prim.Native.String.{String, len}
use angelkey_kbfsbeta.Prelude.{ℕ, ◌+◌, ◌*◌, ite, Bool, false, List, ◌∷◌, ◌++◌, length, []}
use angelkey_kbfsbeta.Data.{BlockPointer, block_pointer_discrete, zero_ptr, EntryType, FilePath}
use angelkey_kbfsbeta.Ops.Writes.{WriteRange}

pub record BlockUpdate : Type 0 where
  pub unref : BlockPointer
  pub ref : BlockPointer

unfoldable pub block_update_discrete : Discrete BlockUpdate
block_update_discrete = hlevel block_pointer_discrete

-- blockUpdate{}
abbrev pub no_update : BlockUpdate
no_update = record { unref = zero_ptr; ref = zero_ptr }

pub record WriterInfo : Type 0 where
  pub name : String
  pub kid : ℕ
  pub device_name : String

pub record OpCommon : Type 0 where
  pub ref_blocks : List BlockPointer
  pub unref_blocks : List BlockPointer
  pub updates : List BlockUpdate
  pub writer_info : WriterInfo
  pub final_path : FilePath

abbrev pub empty_common : OpCommon
empty_common = record {
  ref_blocks = [];
  unref_blocks = [];
  updates = [];
  writer_info = record { name = ""; kid = 0; device_name = "" };
  final_path = record { tlf = 0; branch = ""; path = [] };
}

-- attrChange
pub data AttrChange : Type 0 where
  ex_attr mtime_attr size_attr : AttrChange

pub record CreateOp : Type 0 where
  pub common : OpCommon
  pub new_name : String
  pub dir : BlockUpdate
  pub type : EntryType
  pub renamed : Bool
  pub force_copy : Bool
  pub cr_sym_path : String

pub record RmOp : Type 0 where
  pub common : OpCommon
  pub old_name : String
  pub dir : BlockUpdate
  pub drop_this : Bool

pub record RenameOp : Type 0 where
  pub common : OpCommon
  pub old_name : String
  pub old_dir : BlockUpdate
  pub new_name : String
  pub new_dir : BlockUpdate
  pub renamed : BlockPointer
  pub renamed_type : EntryType

pub record SyncOp : Type 0 where
  pub common : OpCommon
  pub file : BlockUpdate
  pub writes : List WriteRange

pub record SetAttrOp : Type 0 where
  pub common : OpCommon
  pub name : String
  pub dir : BlockUpdate
  pub attr : AttrChange
  pub file : BlockPointer

pub record GcOp : Type 0 where
  pub common : OpCommon
  pub latest_rev : ℕ

pub data Op : Type 0 where
  create_op : CreateOp → Op
  rm_op : RmOp → Op
  rename_op : RenameOp → Op
  sync_op : SyncOp → Op
  set_attr_op : SetAttrOp → Op
  resolution_op : OpCommon → Op
  rekey_op : OpCommon → Op
  gc_op : GcOp → Op

-- The fields that every operation embeds, and the operation with other ones.
abbrev pub common : Op → OpCommon
common (create_op o) = o.common
common (rm_op o) = o.common
common (rename_op o) = o.common
common (sync_op o) = o.common
common (set_attr_op o) = o.common
common (resolution_op c) = c
common (rekey_op c) = c
common (gc_op o) = o.common

abbrev pub with_common : OpCommon → Op → Op
with_common c (create_op o) = create_op (record o { common = c })
with_common c (rm_op o) = rm_op (record o { common = c })
with_common c (rename_op o) = rename_op (record o { common = c })
with_common c (sync_op o) = sync_op (record o { common = c })
with_common c (set_attr_op o) = set_attr_op (record o { common = c })
with_common c (resolution_op _) = resolution_op c
with_common c (rekey_op _) = rekey_op c
with_common c (gc_op o) = gc_op (record o { common = c })

abbrev pub refs : Op → List BlockPointer
refs o = (common o).ref_blocks

abbrev pub unrefs : Op → List BlockPointer
unrefs o = (common o).unref_blocks

abbrev pub get_writer_info : Op → WriterInfo
get_writer_info o = (common o).writer_info

abbrev pub get_final_path : Op → FilePath
get_final_path o = (common o).final_path

abbrev pub add_ref_block : BlockPointer → Op → Op
add_ref_block p o =
    with_common (record (common o) { ref_blocks = (common o).ref_blocks ++ p ∷ [] }) o

abbrev pub add_unref_block : BlockPointer → Op → Op
add_unref_block p o =
    with_common (record (common o) { unref_blocks = (common o).unref_blocks ++ p ∷ [] }) o

abbrev pub set_writer_info : WriterInfo → Op → Op
set_writer_info w o = with_common (record (common o) { writer_info = w }) o

-- OpCommon.AddUpdate
unfoldable pub common_add_update : BlockPointer → BlockPointer → OpCommon → OpCommon
common_add_update old new c = record c {
  updates = c.updates ++ (record { unref = old; ref = new }) ∷ [];
}

-- AddUpdate of each operation: the update of the operation's own directory or file has a field.
unfoldable pub add_update : BlockPointer → BlockPointer → Op → Op
unfolding common_add_update
add_update old new (create_op o) =
    ite (block_pointer_discrete old o.dir.unref)
      (create_op (record o { dir = record { unref = o.dir.unref; ref = new } }))
      (create_op (record o { common = common_add_update old new o.common }))
add_update old new (rm_op o) =
    ite (block_pointer_discrete old o.dir.unref)
      (rm_op (record o { dir = record { unref = o.dir.unref; ref = new } }))
      (rm_op (record o { common = common_add_update old new o.common }))
add_update old new (rename_op o) =
    ite (block_pointer_discrete old o.old_dir.unref)
      (rename_op (record o { old_dir = record { unref = o.old_dir.unref; ref = new } }))
      (ite (block_update_discrete o.new_dir no_update)
        (rename_op (record o { common = common_add_update old new o.common }))
        (ite (block_pointer_discrete old o.new_dir.unref)
          (rename_op (record o { new_dir = record { unref = o.new_dir.unref; ref = new } }))
          (rename_op (record o { common = common_add_update old new o.common }))))
add_update old new (sync_op o) =
    ite (block_pointer_discrete old o.file.unref)
      (sync_op (record o { file = record { unref = o.file.unref; ref = new } }))
      (sync_op (record o { common = common_add_update old new o.common }))
add_update old new (set_attr_op o) =
    ite (block_pointer_discrete old o.dir.unref)
      (set_attr_op (record o { dir = record { unref = o.dir.unref; ref = new } }))
      (set_attr_op (record o { common = common_add_update old new o.common }))
add_update old new (resolution_op c) = resolution_op (common_add_update old new c)
add_update old new (rekey_op c) = rekey_op (common_add_update old new c)
add_update old new (gc_op o) = gc_op (record o { common = common_add_update old new o.common })

-- AllUpdates of each operation.
unfoldable pub all_updates : Op → List BlockUpdate
all_updates (create_op o) = o.common.updates ++ o.dir ∷ []
all_updates (rm_op o) = o.common.updates ++ o.dir ∷ []
all_updates (rename_op o) =
    ite (block_update_discrete o.new_dir no_update) (o.common.updates ++ o.old_dir ∷ [])
      (o.common.updates ++ o.new_dir ∷ o.old_dir ∷ [])
all_updates (sync_op o) = o.common.updates ++ o.file ∷ []
all_updates (set_attr_op o) = o.common.updates ++ o.dir ∷ []
all_updates (resolution_op c) = c.updates
all_updates (rekey_op c) = c.updates
all_updates (gc_op o) = o.common.updates

-- SizeExceptUpdates of each operation. `len` counts bytes, as Go's does.
unfoldable pub size_except_updates : Op → ℕ
size_except_updates (create_op o) = len o.new_name
size_except_updates (rm_op o) = len o.old_name
size_except_updates (rename_op o) = len o.new_name + len o.new_name
size_except_updates (sync_op o) = length o.writes * 16
size_except_updates (set_attr_op o) = len o.name
size_except_updates (resolution_op _) = 0
size_except_updates (rekey_op _) = 0
size_except_updates (gc_op _) = 0

-- The constructors newCreateOp and so on.
abbrev pub new_create_op : String → BlockPointer → EntryType → CreateOp
new_create_op name old_dir t = record {
  common = empty_common;
  new_name = name;
  dir = record { unref = old_dir; ref = zero_ptr };
  type = t;
  renamed = false;
  force_copy = false;
  cr_sym_path = "";
}

abbrev pub new_rm_op : String → BlockPointer → RmOp
new_rm_op name old_dir = record {
  common = empty_common;
  old_name = name;
  dir = record { unref = old_dir; ref = zero_ptr };
  drop_this = false;
}

-- A rename within a directory leaves the update of the new directory empty.
unfoldable pub new_rename_op :
    String → BlockPointer → String → BlockPointer → BlockPointer → EntryType → RenameOp
new_rename_op old_name old_old_dir new_name old_new_dir renamed renamed_type = record {
  common = empty_common;
  old_name = old_name;
  old_dir = record { unref = old_old_dir; ref = zero_ptr };
  new_name = new_name;
  new_dir =
      ite (block_pointer_discrete old_old_dir old_new_dir) no_update
        (record { unref = old_new_dir; ref = zero_ptr });
  renamed = renamed;
  renamed_type = renamed_type;
}

abbrev pub new_sync_op : BlockPointer → SyncOp
new_sync_op old_file = record {
  common = empty_common;
  file = record { unref = old_file; ref = zero_ptr };
  writes = [];
}

abbrev pub new_set_attr_op : String → BlockPointer → AttrChange → BlockPointer → SetAttrOp
new_set_attr_op name old_dir attr file = record {
  common = empty_common;
  name = name;
  dir = record { unref = old_dir; ref = zero_ptr };
  attr = attr;
  file = file;
}
