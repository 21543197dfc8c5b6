-- ===== src/CrChains/Chain.antt =====
-- cr_chains.go, crChain: the operations of one node, how they cancel out, and the actions that merge
-- them. Positions in the chain are numbers from 0 up; `map[int]bool` is the list of its keys.
use angelkey_kbfsbeta.Prelude.{
  ℕ, ◌+◌, Bool, true, false, ◌&&◌, ◌||◌, Option, none, some, List, [], ◌∷◌, ◌++◌, map, ◌==◌,
  if◌then◌else◌, string_discrete,
}
use Prim.Native.String.{String}
use angelkey_kbfsbeta.Prelude.Result.{Result, ok, ◌>>=◌}
use angelkey_kbfsbeta.Prelude.Map
use angelkey_kbfsbeta.Prelude.Map.{Map}
use angelkey_kbfsbeta.Data.{BlockPointer, FilePath, OpError}
use angelkey_kbfsbeta.Ops.{Op, create_op, rm_op, sync_op, set_attr_op}
use angelkey_kbfsbeta.Ops.Writes.{WriteRange, is_truncate, collapse_write_range}
use angelkey_kbfsbeta.Ops.Conflict.{CrAction, drop_unmerged, check_conflict, get_default_action}

pub record CrChain : Type 0 where
  pub ops : List Op
  pub original : BlockPointer
  pub most_recent : BlockPointer

-- `createsSeen`, by name, and `indicesToRemove`.
abbrev pub Marks : Type 0
Marks = Map String ℕ × List ℕ

-- The body of the first loop of collapse.
unfoldable pub mark : ℕ → Op → Marks → Marks
unfolding Map.get Map.put Map.delete
mark i (create_op o) (seen, removed) = (
  Map.put string_discrete o.new_name i seen,
  elim (Map.get string_discrete o.new_name seen) [
    | none ↦ removed
    | some k ↦ if o.renamed then k ∷ removed else removed
  ],
)
mark i (rm_op o) (seen, removed) = elim (Map.get string_discrete o.old_name seen) [
  | none ↦ (seen, removed)
  | some k ↦ (Map.delete string_discrete o.old_name seen, i ∷ k ∷ removed)
]
mark i _ marks = marks

unfoldable pub mark_all : ℕ → List Op → Marks → Marks
unfolding mark
mark_all i [] marks = marks
mark_all i (o ∷ r) marks = mark_all (i + 1) r (mark i o marks)

abbrev pub contains : ℕ → List ℕ → Bool
contains i [] = false
contains i (k ∷ r) = k == i || contains i r

-- The second loop: the operations that are not marked.
unfoldable pub keep : ℕ → List ℕ → List Op → List Op
keep i removed [] = []
keep i removed (o ∷ r) =
    let rest = keep (i + 1) removed r in if contains i removed then rest else o ∷ rest

-- collapse. With nothing marked the second loop keeps every operation.
unfoldable pub collapse : CrChain → CrChain
unfolding mark_all keep
collapse c = record c { ops = keep 0 (mark_all 0 c.ops ([], [])).1 c.ops }

abbrev pub is_sync : Op → Bool
is_sync (sync_op _) = true
is_sync _ = false

unfoldable pub is_file : CrChain → Bool
is_file c = elim c.ops [
  | [] ↦ false
  | o ∷ _ ↦ elim o [ sync_op _ ↦ true | set_attr_op _ ↦ true | _ ↦ false ]
]

-- The loop of getCollapsedWriteRange over the sync operations.
unfoldable pub collapse_syncs : List Op → List WriteRange → List WriteRange
unfolding collapse_write_range
collapse_syncs [] wr = wr
collapse_syncs (sync_op so ∷ r) wr = collapse_syncs r (collapse_write_range so.writes wr)
collapse_syncs (_ ∷ r) wr = collapse_syncs r wr

unfoldable pub get_collapsed_write_range : CrChain → List WriteRange
unfolding is_file collapse_syncs
get_collapsed_write_range c = if is_file c then collapse_syncs c.ops [] else []

-- Both write ranges are one truncate, at the same offset.
unfoldable pub same_truncate : List WriteRange → List WriteRange → Bool
same_truncate (w ∷ []) (v ∷ []) = is_truncate w && is_truncate v && w.off == v.off
same_truncate _ _ = false

-- Whether getActionsToMerge drops the sync operations.
unfoldable pub drops_syncs : CrChain → Option CrChain → Bool
unfolding is_file get_collapsed_write_range same_truncate
drops_syncs c none = false
drops_syncs c (some merged) =
    is_file c && same_truncate (get_collapsed_write_range c) (get_collapsed_write_range merged)

unfoldable pub dropped_syncs : List Op → List CrAction
dropped_syncs [] = []
dropped_syncs (o ∷ r) =
    let rest = dropped_syncs r in if is_sync o then drop_unmerged o ∷ rest else rest

-- The operations that the unmerged ones are checked against.
abbrev pub merged_ops : Option CrChain → List Op
merged_ops none = []
merged_ops (some m) = m.ops

module _ (conflict_rename : Op → String → String) where
  -- The conflicts of one unmerged operation with the merged ones, in order.
  unfoldable pub conflicts : Op → List Op → Result OpError (List CrAction)
  unfolding check_conflict
  conflicts o [] = ok []
  conflicts o (m ∷ r) = do
    action ← check_conflict conflict_rename o m
    rest ← conflicts o r
    ok (elim action [ none ↦ rest | some a ↦ a ∷ rest ])

  -- The actions for one operation. The default action of some operations is nil, which is `none`.
  unfoldable pub actions_for : FilePath → List Op → Op → Result OpError (List (Option CrAction))
  unfolding conflicts get_default_action
  actions_for merged_path merged o = do
    found ← conflicts o merged
    elim found [
      | [] ↦ (do default_action ← get_default_action o merged_path; ok (default_action ∷ []))
      | a ∷ r ↦ ok (map some (a ∷ r))
    ]

  -- The last loop of getActionsToMerge, with the skipped operations.
  unfoldable pub actions_for_all :
      Bool → FilePath → List Op → List Op → Result OpError (List (Option CrAction))
  unfolding actions_for
  actions_for_all skip_syncs merged_path merged [] = ok []
  actions_for_all skip_syncs merged_path merged (o ∷ r) =
      if skip_syncs && is_sync o then actions_for_all skip_syncs merged_path merged r else (do
        here ← actions_for merged_path merged o
        rest ← actions_for_all skip_syncs merged_path merged r
        ok (here ++ rest))

  unfoldable pub get_actions_to_merge :
      CrChain → FilePath → Option CrChain → Result OpError (List (Option CrAction))
  unfolding drops_syncs dropped_syncs actions_for_all
  get_actions_to_merge c merged_path merged_chain = do
    let skip = drops_syncs c merged_chain
    rest ← actions_for_all skip merged_path (merged_ops merged_chain) c.ops
    ok ((if skip then map some (dropped_syncs c.ops) else []) ++ rest)
