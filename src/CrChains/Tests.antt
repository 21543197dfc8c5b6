-- ===== src/CrChains/Tests.antt =====
-- Chains at concrete inputs, and the theorems there.
use angelkey_kbfsbeta.Prelude.{
  ℕ, ◌≡◌, refl, sym, ap, ◌≢◌, inl, inr, true, false, Option, none, some, List, [], ◌∷◌, arith,
  ℕ_discrete, last?,
}
use Prim.Native.String.{String}
use angelkey_kbfsbeta.Prelude.Result.{Result, ok, err}
use angelkey_kbfsbeta.Prelude.Map
use angelkey_kbfsbeta.Data.{BlockPointer, FilePath, zero_ptr, file, block_pointer_discrete}
use angelkey_kbfsbeta.Ops.{
  Op, WriterInfo, create_op, rm_op, rename_op, sync_op, new_create_op, new_rm_op, new_sync_op,
  empty_common, all_updates, block_update_discrete,
}
use angelkey_kbfsbeta.Ops.Writes.Collapsed.{IsCollapsed}
use angelkey_kbfsbeta.Ops.Writes.Effect.{covers, dirty_after_all}
use angelkey_kbfsbeta.Ops.Conflict.{CrAction}
use angelkey_kbfsbeta.Ops.Conflict.Exact.{HasParent}
use angelkey_kbfsbeta.CrChains.Chain.{
  CrChain, collapse, get_collapsed_write_range, get_actions_to_merge, is_file,
}
use angelkey_kbfsbeta.CrChains.Collapse.{absent, entry_after_all}
use angelkey_kbfsbeta.CrChains.Collapsed.{collapse-entries}
use angelkey_kbfsbeta.CrChains.Actions.{sync_writes, get_collapsed_write_range-covers, IsCheckable}
use angelkey_kbfsbeta.CrChains.Answers.{get_actions_to_merge_total, IsMerge}
use angelkey_kbfsbeta.CrChains.Chains.{
  CrChains, ChainsError, copy_op_and_revert_unrefs_to_originals, original_from_most_recent,
  revert_pointer, change_original, find, new_cr_chains_empty,
}
use angelkey_kbfsbeta.CrChains.Build.{ChainMd, new_cr_chains, apply_update}
use angelkey_kbfsbeta.CrChains.WellFormed.{apply_update-IsWellFormed}
use angelkey_kbfsbeta.CrChains.Invariant.{IsWellFormed}
use angelkey_kbfsbeta.CrChains.Made.{
  HasPointersAll, AreApartAll, new_cr_chains_total, new_cr_chains_empty-IsWellFormed,
}
use angelkey_kbfsbeta.CrChains.Reverted.{
  IsFollowed, LeadsBack, copy_op_and_revert_unrefs_to_originals-new_cr_chains,
}
use angelkey_kbfsbeta.CrChains.Originals.{
  revert_pointer-original_from_most_recent, change_original-revert_pointer,
}

abbrev ptr : ℕ → BlockPointer
ptr n = record zero_ptr { id = n }

abbrev home : FilePath
home = record {
  tlf = 1;
  branch = "";
  path =
      (record { pointer = ptr 1; name = "root" }) ∷ (record { pointer = ptr 2; name = "a" }) ∷ [];
}

abbrev create_a : Op
create_a = create_op (record (new_create_op "a" (ptr 1) file) {
  common = record empty_common { final_path = home };
  dir = record { unref = ptr 1; ref = ptr 5 };
})

abbrev rm_a : Op
rm_a = rm_op (record (new_rm_op "a" (ptr 5)) {
  common = record empty_common { final_path = home };
  dir = record { unref = ptr 5; ref = ptr 6 };
})

abbrev create_and_rm : CrChain
create_and_rm = record { ops = create_a ∷ rm_a ∷ []; original = ptr 1; most_recent = ptr 6 }

collapse-entries_example :
    entry_after_all "a" false (collapse create_and_rm).ops
    ≡ entry_after_all "a" false create_and_rm.ops
collapse-entries_example =
    collapse-entries create_and_rm "a" absent (λ e. cc) ((λ _. inl refl), (tt, tt))

abbrev synced : CrChain
synced = record {
  ops =
      sync_op (record (new_sync_op (ptr 1)) { writes = (record { off = 2; len = 3 }) ∷ [] })
      ∷ sync_op (record (new_sync_op (ptr 1)) { writes = (record { off = 4; len = 0 }) ∷ [] })
      ∷ [];
  original = ptr 1;
  most_recent = ptr 1;
}

synced-covers :
    IsCollapsed (get_collapsed_write_range synced)
    × ((b : ℕ)
        → covers (get_collapsed_write_range synced) b
          ≡ dirty_after_all false (sync_writes synced.ops) b)
synced-covers = get_collapsed_write_range-covers synced synced-is_file (omega arith)
  where
    synced-is_file : is_file synced ≡ true
    synced-is_file = unfold is_file in refl

abbrev renamer : Op → String → String
renamer o s = "conflicted"

home-HasParent : HasParent home
home-HasParent =
    (record { pointer = ptr 1; name = "root" }, record { pointer = ptr 2; name = "a" }, [], refl)

create_a-IsCheckable : IsCheckable renamer create_a
create_a-IsCheckable = ((λ r e. cc), home-HasParent)

rm_a-IsCheckable : IsCheckable renamer rm_a
rm_a-IsCheckable = ((λ r e. cc), home-HasParent)

get_actions_to_merge_total_example :
    (l : List (Option CrAction)) × (get_actions_to_merge renamer create_and_rm home
        (some create_and_rm)
      ≡ ok l)
    × IsMerge renamer create_and_rm home (some create_and_rm) l
get_actions_to_merge_total_example =
    get_actions_to_merge_total renamer create_and_rm home (some create_and_rm)
      (create_a-IsCheckable, (rm_a-IsCheckable, tt)) home-HasParent
      (home-HasParent, (home-HasParent, tt))

-- A rename between two directories, with another file overwritten.
abbrev move_a : Op
move_a = rename_op (record {
  common = record empty_common { unref_blocks = ptr 9 ∷ [] };
  old_name = "a";
  old_dir = record { unref = ptr 5; ref = ptr 6 };
  new_name = "b";
  new_dir = record { unref = ptr 20; ref = ptr 21 };
  renamed = ptr 2;
  renamed_type = file;
})

abbrev branch : List ChainMd
branch =
    (record {
      writer_copied = false;
      last_modifying_writer = 1;
      writer_kid = 2;
      info = zero_ptr;
      ops = create_a ∷ move_a ∷ [];
      dir = ptr 6;
    })
    ∷ []

abbrev user : ℕ → WriterInfo
user k = record { name = "user"; kid = k; device_name = "device" }

abbrev writers : ℕ → ℕ → Option WriterInfo
writers u k = some (user k)

known_writers : (u k : ℕ) → (winfo : WriterInfo) × (writers u k ≡ some winfo)
known_writers u k = (user k, refl)

five-ne-twenty_one : ptr 5 ≢ ptr 21
five-ne-twenty_one = λ e. absurd (omega (arith, ap (λ (p : BlockPointer). p.id) e))

branch-HasPointers : HasPointersAll branch
unfolding all_updates block_update_discrete block_pointer_discrete ℕ_discrete
branch-HasPointers = (((refl, tt), ((refl, (refl, tt)), tt)), tt)

branch-AreApart : AreApartAll branch
branch-AreApart = ((tt, (inr five-ne-twenty_one, tt)), tt)

new_cr_chains_total_example :
    (s : CrChains) × (new_cr_chains writers branch ≡ ok (s, last? branch)) × IsWellFormed s
new_cr_chains_total_example =
    new_cr_chains_total writers known_writers branch branch-HasPointers branch-AreApart

-- One update, of a node from pointer 1 to 6.
abbrev moved : CrChains
moved = apply_update (record { unref = ptr 1; ref = ptr 6 }) new_cr_chains_empty

moved-IsWellFormed : IsWellFormed moved
moved-IsWellFormed =
    apply_update-IsWellFormed (record { unref = ptr 1; ref = ptr 6 }) new_cr_chains_empty refl
      new_cr_chains_empty-IsWellFormed

one-ne-six : ptr 1 ≢ ptr 6
one-ne-six = λ e. absurd (omega (arith, ap (λ (p : BlockPointer). p.id) e))

moved_original : original_from_most_recent (ptr 6) moved ≡ ok (ptr 1)
unfolding apply_update original_from_most_recent block_pointer_discrete ℕ_discrete
moved_original = refl

moved_back : revert_pointer moved (ptr 6) ≡ ptr 1
moved_back =
    revert_pointer-original_from_most_recent moved (ptr 6) (ptr 1) moved-IsWellFormed moved_original
      one-ne-six

-- The chains of the branch, and a removal in the directory whose most recent pointer is 6.
abbrev chains_or_empty : Result ChainsError (CrChains × Option ChainMd) → CrChains
chains_or_empty (ok (s, l)) = s
chains_or_empty (err e) = new_cr_chains_empty

branch_chains : CrChains
unfolding new_cr_chains
branch_chains = chains_or_empty (new_cr_chains writers branch)

abbrev rm_b : Op
rm_b = rm_op (record (new_rm_op "b" (ptr 6)) { common = record empty_common { final_path = home } })

branch_made : new_cr_chains writers branch ≡ ok (branch_chains, last? branch)
unfolding branch_chains
branch_made =
    let (s, e, w) =
      new_cr_chains_total writers known_writers branch branch-HasPointers branch-AreApart in
    let same : chains_or_empty (new_cr_chains writers branch) ≡ s = ap chains_or_empty e in
    rw same e

rm_b_copied :
    copy_op_and_revert_unrefs_to_originals branch_chains rm_b
    ≡ some (
        rm_op (record (new_rm_op "b" (ptr 6)) {
          common = record empty_common { final_path = home };
          dir = record (new_rm_op "b" (ptr 6)).dir { unref = revert_pointer branch_chains (ptr 6) };
        }))
unfolding copy_op_and_revert_unrefs_to_originals
rm_b_copied = refl

branch_original : original_from_most_recent (ptr 6) branch_chains ≡ ok (ptr 1)
unfolding branch_chains new_cr_chains original_from_most_recent block_pointer_discrete ℕ_discrete
    Map.get Map.put Map.delete all_updates block_update_discrete
branch_original = refl

copy_op_and_revert_unrefs_to_originals-new_cr_chains_example :
    IsFollowed branch_chains (ptr 6) (revert_pointer branch_chains (ptr 6))
    × LeadsBack
        (original_from_most_recent (ptr 6) branch_chains)
        (ptr 6)
        (revert_pointer branch_chains (ptr 6))
    × Unit {0}
copy_op_and_revert_unrefs_to_originals-new_cr_chains_example =
    copy_op_and_revert_unrefs_to_originals-new_cr_chains writers known_writers branch (last? branch)
      branch_chains rm_b
      (rm_op (record (new_rm_op "b" (ptr 6)) {
        common = record empty_common { final_path = home };
        dir = record (new_rm_op "b" (ptr 6)).dir { unref = revert_pointer branch_chains (ptr 6) };
      }))
      branch-HasPointers branch-AreApart branch_made rm_b_copied

moved_by_original : find (ptr 1) moved.by_original ≡ some 0
unfolding apply_update block_pointer_discrete Map.get ℕ_discrete
moved_by_original = refl

moved_by_most_recent : find (ptr 6) moved.by_most_recent ≡ some 0
unfolding apply_update block_pointer_discrete Map.get ℕ_discrete
moved_by_most_recent = refl

not_an_original : find (ptr 30) moved.by_original ≡ none
unfolding apply_update block_pointer_discrete Map.get ℕ_discrete
not_an_original = refl

change_original-revert_pointer_example :
    (t : CrChains) × (change_original (ptr 1) (ptr 30) moved ≡ ok t)
    × (original_from_most_recent (ptr 6) t ≡ ok (ptr 30))
    × (revert_pointer t (ptr 6) ≡ ptr 1)
change_original-revert_pointer_example =
    change_original-revert_pointer moved (ptr 1) (ptr 30) (ptr 6) 0 moved-IsWellFormed
      moved_by_original moved_by_most_recent (λ e. one-ne-six (sym e)) not_an_original
