-- ===== src/CrChains/Answers.antt =====
-- cr_chains.go, getActionsToMerge: what the actions are, operation by operation.
use angelkey_kbfsbeta.Prelude.{
  ℕ, ◌≡◌, refl, ap, ◌∙◌, subst, ◌↔◌, ◌⊎◌, inl, inr, Bool, true, false, ◌&&◌, Option, none, some,
  List, [], ◌∷◌, ◌++◌, map, arith, Bool-cases, Option-cases, All, List-cases,
}
use angelkey_kbfsbeta.Prelude.Result.{ok}
use angelkey_kbfsbeta.Data.{FilePath}
use Prim.Native.String.{String}
use angelkey_kbfsbeta.Ops.{Op, get_final_path}
use angelkey_kbfsbeta.Ops.Writes.{WriteRange}
use angelkey_kbfsbeta.Ops.Conflict.{CrAction, drop_unmerged, check_conflict, get_default_action}
use angelkey_kbfsbeta.Ops.Conflict.Exact.{HasParent, check_conflict_total}
use angelkey_kbfsbeta.CrChains.Chain.{
  CrChain, is_sync, is_file, get_collapsed_write_range, same_truncate, drops_syncs, dropped_syncs,
  conflicts, actions_for, actions_for_all, get_actions_to_merge, merged_ops,
}
use angelkey_kbfsbeta.CrChains.Actions.{IsCheckable, get_default_action_total}

-- The list is one truncate, to this length.
abbrev pub IsTruncateTo : ℕ → List WriteRange → Type 0
IsTruncateTo off l = (w : WriteRange) × (l ≡ w ∷ []) × (w.len ≡ 0) × (w.off ≡ off)

-- The unmerged chain is one of a file, and both chains only truncate, to the same length.
abbrev pub DropsSyncs : CrChain → Option CrChain → Type 0
DropsSyncs c none = ⊥
DropsSyncs c (some merged) =
    (is_file c ≡ true)
    × ((off : ℕ) × IsTruncateTo off (get_collapsed_write_range c)
        × IsTruncateTo off (get_collapsed_write_range merged))

same_truncate_iff :
    (l m : List WriteRange)
    → (same_truncate l m ≡ true) ↔ ((off : ℕ) × IsTruncateTo off l × IsTruncateTo off m)
unfolding same_truncate
same_truncate_iff [] m = (λ e. absurd (cc e), λ (off, (w, e, _, _), _). absurd (cc e))
same_truncate_iff (w ∷ []) [] = (λ e. absurd (cc e), λ (off, _, (v, e, _, _)). absurd (cc e))
same_truncate_iff (w ∷ []) (v ∷ []) = (
  λ e. (w.off, (w, refl, ground arith, refl), (v, refl, ground arith, ground arith)),
  λ (off, (x, e, a, b), (y, f, c, d)).
      let p : w ≡ x = cc e in
      let q : v ≡ y = cc f in
      ground (
        arith,
        ap (λ (z : WriteRange). z.len) p,
        ap (λ (z : WriteRange). z.off) p,
        ap (λ (z : WriteRange). z.len) q,
        ap (λ (z : WriteRange). z.off) q,
        a,
        b,
        c,
        d,
      ),
)
same_truncate_iff (w ∷ []) (v ∷ u ∷ r) =
    (λ e. absurd (cc e), λ (off, _, (y, e, _, _)). absurd (cc e))
same_truncate_iff (w ∷ v ∷ r) m = (λ e. absurd (cc e), λ (off, (x, e, _, _), _). absurd (cc e))

and_iff : {P : Type 0} (b c : Bool) → (c ≡ true) ↔ P → (b && c ≡ true) ↔ (b ≡ true) × P
and_iff true c i = (λ e. (refl, i.0 e), λ x. i.1 x.1)
and_iff false c i = (λ e. absurd (cc e), λ x. absurd (cc x.0))

drops_syncs_iff :
    (c : CrChain) (merged : Option CrChain) → (drops_syncs c merged ≡ true) ↔ DropsSyncs c merged
unfolding drops_syncs
drops_syncs_iff c none = ground arith
drops_syncs_iff c (some merged) =
    and_iff (is_file c)
      (same_truncate (get_collapsed_write_range c) (get_collapsed_write_range merged))
      (same_truncate_iff (get_collapsed_write_range c) (get_collapsed_write_range merged))

-- One dropUnmergedAction for each sync operation, in order.
pub data Dropped : List Op → List (Option CrAction) → Type 0 where
  none_dropped : Dropped [] []
  drops :
      (o : Op) {r : List Op} {l : List (Option CrAction)}
      → is_sync o ≡ true
      → Dropped r l
      → Dropped (o ∷ r) (some (drop_unmerged o) ∷ l)
  keeps :
      (o : Op) {r : List Op} {l : List (Option CrAction)}
      → is_sync o ≡ false
      → Dropped r l
      → Dropped (o ∷ r) l

module _ (conflict_rename : Op → String → String) where
  -- The actions of CheckConflict with each merged operation in turn, where it returns one.
  pub data Conflicting (o : Op) : List Op → List CrAction → Type 0 where
    no_more : Conflicting o [] []
    hit :
        (m : Op) (a : CrAction) {r : List Op} {l : List CrAction}
        → check_conflict conflict_rename o m ≡ ok (some a)
        → Conflicting o r l
        → Conflicting o (m ∷ r) (a ∷ l)
    miss :
        (m : Op) {r : List Op} {l : List CrAction}
        → check_conflict conflict_rename o m ≡ ok none
        → Conflicting o r l
        → Conflicting o (m ∷ r) l

  -- The actions for one operation: all its conflicts, or the default action if there are none.
  pub data IsAnswer (path : FilePath) (merged : List Op) (o : Op)
      : List (Option CrAction) → Type 0 where
    in_conflict :
        (a : CrAction) (l : List CrAction)
        → Conflicting o merged (a ∷ l)
        → IsAnswer path merged o (map some (a ∷ l))
    by_default :
        (d : Option CrAction)
        → Conflicting o merged []
        → get_default_action o path ≡ ok d
        → IsAnswer path merged o (d ∷ [])

  -- The actions for all operations in order, with or without the sync operations.
  pub data Answers (skip : Bool) (path : FilePath) (merged : List Op)
      : List Op → List (Option CrAction) → Type 0 where
    done : Answers skip path merged [] []
    skipped :
        (o : Op) {r : List Op} {l : List (Option CrAction)}
        → skip ≡ true
        → is_sync o ≡ true
        → Answers skip path merged r l
        → Answers skip path merged (o ∷ r) l
    answered :
        (o : Op) (here : List (Option CrAction)) {r : List Op} {l : List (Option CrAction)}
        → skip && is_sync o ≡ false
        → IsAnswer path merged o here
        → Answers skip path merged r l
        → Answers skip path merged (o ∷ r) (here ++ l)

  -- The actions for a chain.
  abbrev pub IsMerge : CrChain → FilePath → Option CrChain → List (Option CrAction) → Type 0
  IsMerge c path merged l =
      DropsSyncs c merged
        × ((dropped : List (Option CrAction)) × (rest : List (Option CrAction)) × (l
              ≡ dropped ++ rest)
            × Dropped c.ops dropped
            × Answers true path (merged_ops merged) c.ops rest)
      ⊎ (¬ DropsSyncs c merged) × Answers false path (merged_ops merged) c.ops l

  conflicts_total :
      (o : Op) (merged : List Op)
      → IsCheckable conflict_rename o
      → All (λ m. HasParent (get_final_path m)) merged
      → (l : List CrAction) × (conflicts conflict_rename o merged ≡ ok l) × Conflicting o merged l
  unfolding conflicts
  conflicts_total o [] h p = ([], refl, no_more)
  conflicts_total o (m ∷ r) h p =
      let (a, e, d) = check_conflict_total conflict_rename o m h.0 h.1 p.0 in
      let (l, f, rest) = conflicts_total o r h p.1 in
      elim (Option-cases a) [
        | inl n ↦ (l, rw (e, f, n) refl, miss m (e ∙ ap ok n) rest)
        | inr (x, n) ↦ (x ∷ l, rw (e, f, n) refl, hit m x (e ∙ ap ok n) rest)
      ]

  actions_for_total :
      (path : FilePath) (merged : List Op) (o : Op)
      → IsCheckable conflict_rename o
      → HasParent path
      → All (λ m. HasParent (get_final_path m)) merged
      → (l : List (Option CrAction)) × (actions_for conflict_rename path merged o ≡ ok l)
        × IsAnswer path merged o l
  unfolding actions_for
  actions_for_total path merged o h p q =
      let (found, e, c) = conflicts_total o merged h q in
      let (d, f) = get_default_action_total conflict_rename o path h p in
      elim (List-cases found) [
        | inl n ↦ (d ∷ [], rw (e, n, f) refl, by_default d (subst (Conflicting o merged) n c) f)
        | inr (a, r, n) ↦
            (map some (a ∷ r), rw (e, n) refl, in_conflict a r (subst (Conflicting o merged) n c))
      ]

  actions_for_all_total :
      (skip : Bool) (path : FilePath) (merged ops : List Op)
      → All (IsCheckable conflict_rename) ops
      → HasParent path
      → All (λ m. HasParent (get_final_path m)) merged
      → (l : List (Option CrAction)) × (actions_for_all conflict_rename skip path merged ops ≡ ok l)
        × Answers skip path merged ops l
  unfolding actions_for_all
  actions_for_all_total skip path merged [] h p q = ([], refl, done)
  actions_for_all_total skip path merged (o ∷ r) h p q =
      let (rest, e, a) = actions_for_all_total skip path merged r h.1 p q in
      elim (Bool-cases (skip && is_sync o)) [
        | inl s ↦ (rest, rw (s, e) refl, skipped o (ground arith) (ground arith) a)
        | inr s ↦
            let (here, f, b) = actions_for_total path merged o h.0 p q in
            (here ++ rest, rw (s, f, e) refl, answered o here s b a)
      ]

  dropped_syncs-Dropped : (ops : List Op) → Dropped ops (map some (dropped_syncs ops))
  unfolding dropped_syncs
  dropped_syncs-Dropped [] = none_dropped
  dropped_syncs-Dropped (o ∷ r) = elim (Bool-cases (is_sync o)) [
    | inl s ↦ rw s (drops o s (dropped_syncs-Dropped r))
    | inr s ↦ rw s (keeps o s (dropped_syncs-Dropped r))
  ]

  -- getActionsToMerge returns, if no unmerged operation is a rename, and if the operations of both
  -- chains and the merged path have a node and its parent. If both chains only truncate one file, to
  -- the same length, the actions drop each sync operation, and then answer the other operations in
  -- order; else they answer every operation in order. The answer to an operation is what
  -- CheckConflict returns for the merged operations that it conflicts with, or the default action,
  -- which can be nil, if there are none.
  pub get_actions_to_merge_total :
      (c : CrChain) (path : FilePath) (merged : Option CrChain)
      → All (IsCheckable conflict_rename) c.ops
      → HasParent path
      → All (λ m. HasParent (get_final_path m)) (merged_ops merged)
      → (l : List (Option CrAction)) × (get_actions_to_merge conflict_rename c path merged ≡ ok l)
        × IsMerge c path merged l
  unfolding get_actions_to_merge
  get_actions_to_merge_total c path merged h p q = elim (Bool-cases (drops_syncs c merged)) [
    | inl s ↦
        let (rest, e, a) = actions_for_all_total true path (merged_ops merged) c.ops h p q in
        let pre = map some (dropped_syncs c.ops) in
        (
          pre ++ rest,
          rw s (rw e refl),
          inl ((drops_syncs_iff c merged).0 s, (pre, rest, refl, dropped_syncs-Dropped c.ops, a)),
        )
    | inr s ↦
        let (rest, e, a) = actions_for_all_total false path (merged_ops merged) c.ops h p q in
        (rest, rw s (rw e refl), inr (λ d. absurd (cc (s, (drops_syncs_iff c merged).1 d)), a))
  ]
