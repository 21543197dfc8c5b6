-- ===== src/CrChains/Actions.antt =====
-- cr_chains.go: getCollapsedWriteRange, and where getActionsToMerge can answer an operation.
use angelkey_kbfsbeta.Prelude.{
  ℕ, ◌≡◌, refl, sym, ap, ◌∙◌, ◌≢◌, Bool, true, false, Option, none, some, List, [], ◌∷◌, ◌++◌,
  if◌then◌else◌, All,
}
use Prim.Native.String.{String}
use angelkey_kbfsbeta.Prelude.Result.{Result, ok}
use angelkey_kbfsbeta.Data.{FilePath, OpError}
use angelkey_kbfsbeta.Ops.{
  Op, RenameOp, create_op, rm_op, rename_op, sync_op, set_attr_op, resolution_op, rekey_op, gc_op,
  get_final_path,
}
use angelkey_kbfsbeta.Ops.Writes.{WriteRange, collapse_write_range}
use angelkey_kbfsbeta.Ops.Writes.Collapsed.{Fits, IsCollapsed}
use angelkey_kbfsbeta.Ops.Writes.Effect.{
  covers, dirty_after, dirty_after_all, covers-collapse_write_range,
}
use angelkey_kbfsbeta.Ops.Conflict.{
  CrAction, copy_unmerged_entry, copy_unmerged_attr, get_default_action,
}
use angelkey_kbfsbeta.Ops.Conflict.Exact.{HasParent, tail_name_total}
use angelkey_kbfsbeta.CrChains.Chain.{CrChain, is_file, collapse_syncs, get_collapsed_write_range}

-- The writes of the sync operations, in order.
abbrev pub sync_writes : List Op → List WriteRange
sync_writes [] = []
sync_writes (sync_op so ∷ r) = so.writes ++ sync_writes r
sync_writes (_ ∷ r) = sync_writes r

All-append {ℓ κ} :
    {A : Type ℓ} (P : A → Type κ) (xs ys : List A) → All P (xs ++ ys) → All P xs × All P ys
All-append P [] ys h = (tt, h)
All-append P (x ∷ r) ys h = let t = All-append P r ys h.1 in ((h.0, t.0), t.1)

dirty_after_all-append :
    (d : Bool) (xs ys : List WriteRange) (b : ℕ)
    → dirty_after_all d (xs ++ ys) b ≡ dirty_after_all (dirty_after_all d xs b) ys b
dirty_after_all-append d [] ys b = refl
dirty_after_all-append d (x ∷ r) ys b = dirty_after_all-append (dirty_after d x b) r ys b

collapse_syncs-covers :
    (ops : List Op) (wr : List WriteRange)
    → All Fits (sync_writes ops)
    → IsCollapsed wr
    → IsCollapsed (collapse_syncs ops wr)
      × ((b : ℕ)
          → covers (collapse_syncs ops wr) b ≡ dirty_after_all (covers wr b) (sync_writes ops) b)
unfolding collapse_syncs
collapse_syncs-covers [] wr f c = (c, λ b. refl)
collapse_syncs-covers (sync_op so ∷ r) wr f c =
    let fits = All-append Fits so.writes (sync_writes r) f in
    let first = covers-collapse_write_range so.writes wr fits.0 c in
    let rest = collapse_syncs-covers r (collapse_write_range so.writes wr) fits.1 first.0 in
    (
      rest.0,
      λ b.
          rest.1 b
          ∙ ap (λ d. dirty_after_all d (sync_writes r) b) (first.1 b)
          ∙ sym (dirty_after_all-append (covers wr b) so.writes (sync_writes r) b),
    )
collapse_syncs-covers (create_op o ∷ r) wr f c = collapse_syncs-covers r wr f c
collapse_syncs-covers (rm_op o ∷ r) wr f c = collapse_syncs-covers r wr f c
collapse_syncs-covers (rename_op o ∷ r) wr f c = collapse_syncs-covers r wr f c
collapse_syncs-covers (set_attr_op o ∷ r) wr f c = collapse_syncs-covers r wr f c
collapse_syncs-covers (resolution_op o ∷ r) wr f c = collapse_syncs-covers r wr f c
collapse_syncs-covers (rekey_op o ∷ r) wr f c = collapse_syncs-covers r wr f c
collapse_syncs-covers (gc_op o ∷ r) wr f c = collapse_syncs-covers r wr f c

-- For the chain of a file, of whose writes none ends past 2^64, getCollapsedWriteRange gives a
-- collapsed list, and it covers exactly the bytes that are dirty after all its sync operations.
pub get_collapsed_write_range-covers :
    (c : CrChain)
    → is_file c ≡ true
    → All Fits (sync_writes c.ops)
    → IsCollapsed (get_collapsed_write_range c)
      × ((b : ℕ)
          → covers (get_collapsed_write_range c) b ≡ dirty_after_all false (sync_writes c.ops) b)
unfolding get_collapsed_write_range
get_collapsed_write_range-covers c e f = rw e (collapse_syncs-covers c.ops [] f tt)

ok_either :
    (b : Bool) (x y : Option CrAction)
    → (a : Option CrAction) × (◌≡◌ {A = Result OpError (Option CrAction)}
        (if b then ok x else ok y)
        (ok a))
ok_either true x y = (x, refl)
ok_either false x y = (y, refl)

module _ (conflict_rename : Op → String → String) where
  -- An operation that getActionsToMerge can check and answer.
  abbrev pub IsCheckable : Op → Type 0
  IsCheckable o = ((r : RenameOp) → o ≢ rename_op r) × HasParent (get_final_path o)

  pub get_default_action_total :
      (o : Op) (path : FilePath)
      → IsCheckable o
      → HasParent path
      → (a : Option CrAction) × (get_default_action o path ≡ ok a)
  unfolding get_default_action
  get_default_action_total (create_op o) path h p = ok_either o.force_copy _ _
  get_default_action_total (rm_op o) path h p = ok_either o.drop_this _ _
  get_default_action_total (sync_op o) path h p =
      let (f, ef) = tail_name_total o.common.final_path h.1 in
      let (t, et) = tail_name_total path p in
      (some (copy_unmerged_entry f t "" false), rw (ef, et) refl)
  get_default_action_total (set_attr_op o) path h p =
      let (f, ef) = tail_name_total o.common.final_path h.1 in
      let (t, et) = tail_name_total path p in
      (some (copy_unmerged_attr f t (o.attr ∷ [])), rw (ef, et) refl)
  get_default_action_total (rename_op o) path h p = absurd (h.0 o refl)
  get_default_action_total (resolution_op o) path h p = (none, refl)
  get_default_action_total (rekey_op o) path h p = (none, refl)
  get_default_action_total (gc_op o) path h p = (none, refl)
