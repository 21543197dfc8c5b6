-- ===== src/Ops/Tests.antt =====
-- Operations at concrete inputs, and the theorems there.
use angelkey_kbfsbeta.Prelude.{
  ℕ, ◌≡◌, refl, ap, ◌≢◌, ◌↔◌, ◌⊎◌, inl, inr, false, Option, none, some, List, ◌∷◌, map, arith, [],
}
use Prim.Native.String.{String}
use angelkey_kbfsbeta.Prelude.Result.{ok}
use angelkey_kbfsbeta.Data.{BlockPointer, zero_ptr, file, dir, FilePath}
use angelkey_kbfsbeta.Ops.{
  Op, CreateOp, RmOp, RenameOp, no_update, create_op, rm_op, rename_op, all_updates, new_create_op,
  new_rm_op, empty_common,
}
use angelkey_kbfsbeta.Ops.Writes.{
  WriteRange, end, affects, coalesce_writes, add_to_collapsed_write_range, collapse_write_range,
}
use angelkey_kbfsbeta.Ops.Writes.Collapsed.{IsCollapsed}
use angelkey_kbfsbeta.Ops.Writes.Effect.{covers, dirty_after_all, covers-collapse_write_range}
use angelkey_kbfsbeta.Ops.Writes.Cut.{cut_of, cut_after_all, cut_of-collapse_write_range}
use angelkey_kbfsbeta.Ops.Conflict.{CrAction, drop_unmerged, check_conflict}
use angelkey_kbfsbeta.Ops.Conflict.Exact.{
  create_conflict_iff, rm_conflict_iff, CreatesOrRemoves, HasParent, check_conflict_total,
}
use angelkey_kbfsbeta.Ops.Invert.{invert_op}
use angelkey_kbfsbeta.Ops.Invert.Updates.{reverse_update, all_updates-invert_op, invert_op-same_dir}

-- The example in the comment on coalesceWrites.
coalesce_comment :
    coalesce_writes
      ((record { off = 7; len = 5 })
        ∷ (record { off = 18; len = 10 })
        ∷ (record { off = 98; len = 10 })
        ∷ [])
      (record { off = 5; len = 100 })
    ≡ (record { off = 5; len = 103 }) ∷ []
unfolding coalesce_writes end
coalesce_comment = refl

abbrev written : List WriteRange
written = (record { off = 2; len = 3 }) ∷ (record { off = 10; len = 4 }) ∷ []

abbrev more : List WriteRange
more = (record { off = 4; len = 2 }) ∷ (record { off = 12; len = 0 }) ∷ []

collapses :
    collapse_write_range more written
    ≡ (record { off = 2; len = 4 })
      ∷ (record { off = 10; len = 2 })
      ∷ (record { off = 12; len = 0 })
      ∷ []
unfolding collapse_write_range add_to_collapsed_write_range
    angelkey_kbfsbeta.Ops.Writes.add_behind_head affects end
collapses = refl

written-IsCollapsed : IsCollapsed written
written-IsCollapsed =
    (omega arith, omega arith, inr (omega arith), (omega arith, omega arith, inl refl, tt))

cut_of-collapse_write_range_example :
    cut_of (collapse_write_range more written) ≡ cut_after_all (cut_of written) more
cut_of-collapse_write_range_example =
    cut_of-collapse_write_range more written (omega arith) written-IsCollapsed

covers-collapse_write_range_example :
    IsCollapsed (collapse_write_range more written)
    × ((b : ℕ)
        → covers (collapse_write_range more written) b ≡ dirty_after_all (covers written b) more b)
covers-collapse_write_range_example =
    covers-collapse_write_range more written (omega arith) written-IsCollapsed

abbrev ptr : ℕ → BlockPointer
ptr n = record zero_ptr { id = n }

abbrev renamer : Op → String → String
renamer o s = "conflicted"

abbrev home : FilePath
home = record {
  tlf = 1;
  branch = "";
  path =
      (record { pointer = ptr 1; name = "root" }) ∷ (record { pointer = ptr 2; name = "a" }) ∷ [];
}

abbrev create_a : CreateOp
create_a = record (new_create_op "a" (ptr 1) file) {
  common = record empty_common {
    updates = (record { unref = ptr 2; ref = ptr 6 }) ∷ [];
    final_path = home;
  };
  dir = record { unref = ptr 1; ref = ptr 5 };
}

six-ne-five : ptr 6 ≢ ptr 5
six-ne-five = λ e. absurd (omega (arith, ap (λ (p : BlockPointer). p.id) e))

abbrev rm_a : RmOp
rm_a = new_rm_op "a" (ptr 1)

create_conflict_iff_example :
    (check_conflict renamer (create_op create_a) (create_op create_a) ≡ ok none) ↔ (
      (◌≢◌ {A = String} "a" "a")
      ⊎ (create_a.type ≡ dir)
        × (create_a.type ≡ dir)
        × (create_a.renamed ≡ false)
        × (create_a.renamed ≡ false))
create_conflict_iff_example = create_conflict_iff renamer create_a create_a

rm_conflict_iff_example :
    ((check_conflict renamer (rm_op rm_a) (create_op create_a)
        ≡ ok (some (drop_unmerged (rm_op rm_a))))
      ↔ CreatesOrRemoves "a" (create_op create_a))
    × ((check_conflict renamer (rm_op rm_a) (create_op create_a) ≡ ok none)
        ↔ (¬ CreatesOrRemoves "a" (create_op create_a)))
rm_conflict_iff_example = rm_conflict_iff renamer rm_a (create_op create_a)

home-HasParent : HasParent home
home-HasParent =
    (record { pointer = ptr 1; name = "root" }, record { pointer = ptr 2; name = "a" }, [], refl)

not_rename : (r : RenameOp) → create_op create_a ≢ rename_op r
not_rename r = λ e. cc

check_conflict_total_example :
    (a : Option CrAction) × (check_conflict renamer (create_op create_a) (create_op create_a)
      ≡ ok a)
    × ((o : Op)
        → a ≡ some (drop_unmerged o)
        → (r : RmOp) × (create_op create_a ≡ rm_op r) × (o ≡ create_op create_a))
check_conflict_total_example =
    check_conflict_total renamer (create_op create_a) (create_op create_a) not_rename home-HasParent
      home-HasParent

all_updates-invert_op_example :
    (o' : Op) × (invert_op (create_op create_a) ≡ some o')
    × (all_updates o' ≡ map reverse_update (all_updates (create_op create_a)))
all_updates-invert_op_example = all_updates-invert_op (create_op create_a) (six-ne-five, tt)

abbrev rename_here : RenameOp
rename_here = record {
  common = empty_common;
  old_name = "a";
  old_dir = record { unref = ptr 1; ref = ptr 5 };
  new_name = "b";
  new_dir = no_update;
  renamed = ptr 2;
  renamed_type = file;
}

five-ne-zero : ptr 5 ≢ zero_ptr
five-ne-zero = λ e. absurd (omega (arith, ap (λ (p : BlockPointer). p.id) e))

invert_op-same_dir_example :
    (r : RenameOp) × (invert_op (rename_op rename_here) ≡ some (rename_op r))
    × (r.old_dir ≡ no_update)
    × (r.new_dir ≡ reverse_update rename_here.old_dir)
invert_op-same_dir_example = invert_op-same_dir rename_here refl five-ne-zero tt tt
