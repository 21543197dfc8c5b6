-- ===== src/CrChains/Total.antt =====
-- cr_chains.go, makeChainForOp: every chain that it looks for is there.
use angelkey_kbfsbeta.Prelude.{
  ℕ, ◌≡◌, refl, sym, ap, ◌∙◌, subst, ◌≢◌, ◌⊎◌, inl, inr, if_pos, if_neg, List, [], ◌∷◌, ◌++◌, arith,
  if◌then◌else◌, Option-cases,
}
use angelkey_kbfsbeta.Prelude.Result.{Result, ok}
use angelkey_kbfsbeta.Prelude.Map
use angelkey_kbfsbeta.Prelude.Map.{Map}
use angelkey_kbfsbeta.Data.{BlockPointer, block_pointer_discrete, zero_ptr, is_initialized}
use angelkey_kbfsbeta.Ops.{
  Op, BlockUpdate, RenameOp, create_op, rm_op, rename_op, sync_op, set_attr_op, resolution_op,
  rekey_op, gc_op, refs, unrefs, all_updates,
}
use angelkey_kbfsbeta.CrChains.Chain.{CrChain}
use angelkey_kbfsbeta.CrChains.Chains.{CrChains, ChainsError, find}
use angelkey_kbfsbeta.CrChains.Build.{
  move_chain, start_chain, apply_update, apply_updates, mark_created, mark_deleted, rename_dir,
  ensure_chain, add_to_chain, make_chain_for_op,
}
use angelkey_kbfsbeta.CrChains.Invariant.{IsWellFormed}
use angelkey_kbfsbeta.CrChains.WellFormed.{
  HasRefs, HasPointers, apply_update-IsWellFormed, apply_updates-IsWellFormed,
  mark_created-IsWellFormed, mark_deleted-IsWellFormed, ensure_chain-IsWellFormed, all_refs,
}
use angelkey_kbfsbeta.Ops.{no_update, block_update_discrete}
use angelkey_kbfsbeta.CrChains.Adds.{HasChain, HasChain-same, Adds, add_op_total, add_rename_total}

-- The two directories of a rename are not consecutive pointers of one node.
abbrev pub AreApart : Op → Type 0
AreApart (rename_op o) = (o.new_dir ≡ no_update) ⊎ (o.old_dir.unref ≢ o.new_dir.ref)
AreApart _ = Unit

move_chain-HasChain :
    (new : BlockPointer) (c : ℕ) (chain : CrChain) (s : CrChains)
    → HasChain (move_chain new c chain s) new
unfolding move_chain
move_chain-HasChain new c chain s = (
  c,
  Map.get-put_self block_pointer_discrete new c (
      if is_initialized chain.most_recent
      then Map.delete block_pointer_discrete chain.most_recent s.by_most_recent
      else s.by_most_recent),
)

apply_update-HasChain :
    (u : BlockUpdate) (s : CrChains) → IsWellFormed s → HasChain (apply_update u s) u.ref
unfolding apply_update
apply_update-HasChain u s w = elim (Option-cases (find u.unref s.by_most_recent)) [
  | inl e ↦
      rw (e, apply_update)
        (move_chain-HasChain u.ref s.next_chain
          (record { ops = []; original = u.unref; most_recent = zero_ptr })
          (start_chain u.unref zero_ptr s))
  | inr (c, e) ↦
      let l = w.recent u.unref c e in
      rw (e, l.found, apply_update) (move_chain-HasChain u.ref c l.chain s)
]

move_chain-HasChain_other :
    (new : BlockPointer) (c : ℕ) (chain : CrChain) (s : CrChains) (p : BlockPointer)
    → chain.most_recent ≢ p
    → HasChain s p
    → HasChain (move_chain new c chain s) p
unfolding move_chain
move_chain-HasChain_other new c chain s p n (k, e) = elim (block_pointer_discrete new p) [
  | yes q ↦ subst (HasChain (move_chain new c chain s)) q (move_chain-HasChain new c chain s)
  | no m ↦ (
    k,
    ground (
      arith,
      Map.get-put block_pointer_discrete new p c s.by_most_recent,
      Map.get-put block_pointer_discrete new p c
          (Map.delete block_pointer_discrete chain.most_recent s.by_most_recent),
      Map.get-delete block_pointer_discrete chain.most_recent p s.by_most_recent,
    ),
  )
]

-- An update ends the chain of no other pointer than the one that it replaces.
apply_update-HasChain_other :
    (u : BlockUpdate) (s : CrChains) (p : BlockPointer)
    → IsWellFormed s
    → u.unref ≢ p
    → HasChain s p
    → HasChain (apply_update u s) p
unfolding apply_update start_chain
apply_update-HasChain_other u s p w n h = elim (Option-cases (find u.unref s.by_most_recent)) [
  | inl e ↦
      let l = w.recent p h.0 h.1 in
      rw (e, apply_update)
        (move_chain-HasChain_other u.ref s.next_chain
          (record { ops = []; original = u.unref; most_recent = zero_ptr })
          (start_chain u.unref zero_ptr s) p (λ q. cc (ap is_initialized q, l.initialized)) h)
  | inr (c, e) ↦
      let l = w.recent u.unref c e in
      rw (e, l.found, apply_update)
        (move_chain-HasChain_other u.ref c l.chain s p (λ q. n (sym l.at_recent ∙ q)) h)
]

mark_created-recent :
    (ps : List BlockPointer) (s : CrChains) → (mark_created ps s).by_most_recent ≡ s.by_most_recent
unfolding mark_created
mark_created-recent [] s = refl
mark_created-recent (p ∷ r) s = mark_created-recent r _

mark_deleted-recent :
    (ps : List BlockPointer) (s : CrChains) → (mark_deleted ps s).by_most_recent ≡ s.by_most_recent
unfolding mark_deleted
mark_deleted-recent [] s = refl
mark_deleted-recent (p ∷ r) s = mark_deleted-recent r _

-- The operation's own update, which is the last one, leads to a chain.
apply_updates-HasChain :
    (us : List BlockUpdate) (u : BlockUpdate) (s : CrChains)
    → HasRefs (us ++ u ∷ [])
    → IsWellFormed s
    → HasChain (apply_updates (us ++ u ∷ []) s) u.ref
unfolding apply_updates
apply_updates-HasChain [] u s i w = apply_update-HasChain u s w
apply_updates-HasChain (v ∷ r) u s i w =
    apply_updates-HasChain r u (apply_update v s) i.1 (apply_update-IsWellFormed v s i.0 w)

apply_updates-HasChain_two :
    (us : List BlockUpdate) (n o : BlockUpdate) (s : CrChains)
    → HasRefs (us ++ n ∷ o ∷ [])
    → IsWellFormed s
    → o.unref ≢ n.ref
    → HasChain (apply_updates (us ++ n ∷ o ∷ []) s) n.ref
      × HasChain (apply_updates (us ++ n ∷ o ∷ []) s) o.ref
unfolding apply_updates
apply_updates-HasChain_two [] n o s i w apart =
    let v = apply_update-IsWellFormed n s i.0 w in
    (
      apply_update-HasChain_other o (apply_update n s) n.ref v apart (apply_update-HasChain n s w),
      apply_update-HasChain o (apply_update n s) v,
    )
apply_updates-HasChain_two (v ∷ r) n o s i w apart =
    apply_updates-HasChain_two r n o (apply_update v s) i.1 (apply_update-IsWellFormed v s i.0 w)
      apart

-- The chains of a rename's directories.
rename-HasChain :
    (o : RenameOp) (s : CrChains)
    → HasPointers (rename_op o)
    → AreApart (rename_op o)
    → IsWellFormed s
    → HasChain (apply_updates (all_updates (rename_op o)) s) o.old_dir.ref
      × HasChain (apply_updates (all_updates (rename_op o)) s) (rename_dir o).ref
unfolding all_updates rename_dir
rename-HasChain o s i apart w = elim (block_update_discrete o.new_dir no_update) [
  | yes q ↦
      let dir : rename_dir o ≡ o.old_dir =
        if_pos (block_update_discrete o.new_dir no_update) q o.old_dir o.new_dir in
      let us : all_updates (rename_op o) ≡ o.common.updates ++ o.old_dir ∷ [] =
        if_pos (block_update_discrete o.new_dir no_update) q (o.common.updates ++ o.old_dir ∷ [])
          (o.common.updates ++ o.new_dir ∷ o.old_dir ∷ []) in
      let h = apply_updates-HasChain o.common.updates o.old_dir s (subst HasRefs us i) w in
      let old = subst (λ x. HasChain (apply_updates x s) o.old_dir.ref) (sym us) h in
      (
        old,
        subst (λ (x : BlockUpdate). HasChain (apply_updates (all_updates (rename_op o)) s) x.ref)
            (sym dir) old,
      )
  | no n ↦
      let dir : rename_dir o ≡ o.new_dir =
        if_neg (block_update_discrete o.new_dir no_update) n o.old_dir o.new_dir in
      let us : all_updates (rename_op o) ≡ o.common.updates ++ o.new_dir ∷ o.old_dir ∷ [] =
        if_neg (block_update_discrete o.new_dir no_update) n (o.common.updates ++ o.old_dir ∷ [])
          (o.common.updates ++ o.new_dir ∷ o.old_dir ∷ []) in
      let distinct : o.old_dir.unref ≢ o.new_dir.ref = elim apart [
        | inl q ↦ absurd (n q)
        | inr d ↦ d
      ] in
      let h =
        apply_updates-HasChain_two o.common.updates o.new_dir o.old_dir s (subst HasRefs us i) w
          distinct in
      (
        subst (λ x. HasChain (apply_updates x s) o.old_dir.ref) (sym us) h.1,
        subst (λ (x : BlockUpdate). HasChain (apply_updates (all_updates (rename_op o)) s) x.ref)
            (sym dir) (subst (λ x. HasChain (apply_updates x s) o.new_dir.ref) (sym us) h.0),
      )
]

ensure_chain-HasChain : (p : BlockPointer) (s : CrChains) → HasChain (ensure_chain p s) p
unfolding ensure_chain
ensure_chain-HasChain p s = elim (Option-cases (find p s.by_most_recent)) [
  | inl e ↦
      rw (e, ensure_chain)
        (s.next_chain, Map.get-put_self block_pointer_discrete p s.next_chain s.by_most_recent)
  | inr (c, e) ↦ rw (e, ensure_chain) (c, e)
]

-- What makeChainForOp does before it looks at the kind of the operation.
abbrev prepared : Op → CrChains → CrChains
prepared o s = mark_deleted (unrefs o) (mark_created (refs o) (apply_updates (all_updates o) s))

prepared-IsWellFormed :
    (o : Op) (s : CrChains) → HasPointers o → IsWellFormed s → IsWellFormed (prepared o s)
prepared-IsWellFormed o s i w =
    let updated = apply_updates (all_updates o) s in
    let created = mark_created (refs o) updated in
    mark_deleted-IsWellFormed (unrefs o) created (
      mark_created-IsWellFormed (refs o) updated
        (apply_updates-IsWellFormed (all_updates o) s (all_refs o i) w))

prepared-HasChain :
    (o : Op) (s : CrChains) (p : BlockPointer)
    → HasChain (apply_updates (all_updates o) s) p
    → HasChain (prepared o s) p
prepared-HasChain o s p h =
    let updated = apply_updates (all_updates o) s in
    let created = mark_created (refs o) updated in
    HasChain-same updated (prepared o s) p
      (mark_deleted-recent (unrefs o) created ∙ mark_created-recent (refs o) updated) h

-- The result is consistent.
abbrev pub Succeeds : Result ChainsError CrChains → Type 0
Succeeds m = (t : CrChains) × (m ≡ ok t) × IsWellFormed t

succeed : (s : CrChains) (m : Result ChainsError CrChains) → Adds s m → Succeeds m
succeed s m (t, e, w, _) = (t, e, w)

pub make_chain_for_op_total :
    (o : Op) (s : CrChains)
    → HasPointers o
    → AreApart o
    → IsWellFormed s
    → Succeeds (make_chain_for_op o s)
unfolding make_chain_for_op add_to_chain all_updates
make_chain_for_op_total (create_op o) s i a w = succeed (prepared (create_op o) s) _ (
    add_op_total o.dir.ref (create_op o) (prepared (create_op o) s)
      (prepared-IsWellFormed (create_op o) s i w)
      (prepared-HasChain (create_op o) s o.dir.ref
        (apply_updates-HasChain o.common.updates o.dir s i w)))
make_chain_for_op_total (rm_op o) s i a w = succeed (prepared (rm_op o) s) _ (
    add_op_total o.dir.ref (rm_op o) (prepared (rm_op o) s) (prepared-IsWellFormed (rm_op o) s i w)
      (prepared-HasChain (rm_op o) s o.dir.ref
        (apply_updates-HasChain o.common.updates o.dir s i w)))
make_chain_for_op_total (rename_op o) s i a w =
    let h = rename-HasChain o s i a w in
    succeed (prepared (rename_op o) s) _ (
      add_rename_total o (prepared (rename_op o) s) (prepared-IsWellFormed (rename_op o) s i w)
        (prepared-HasChain (rename_op o) s o.old_dir.ref h.0)
        (prepared-HasChain (rename_op o) s (rename_dir o).ref h.1))
make_chain_for_op_total (sync_op o) s i a w = succeed (prepared (sync_op o) s) _ (
    add_op_total o.file.ref (sync_op o) (prepared (sync_op o) s)
      (prepared-IsWellFormed (sync_op o) s i w)
      (prepared-HasChain (sync_op o) s o.file.ref
        (apply_updates-HasChain o.common.updates o.file s i w)))
make_chain_for_op_total (set_attr_op o) s i a w =
    let before = prepared (set_attr_op o) s in
    succeed (ensure_chain o.file before) _ (
      add_op_total o.file (set_attr_op o) (ensure_chain o.file before)
        (ensure_chain-IsWellFormed o.file before i.1 (prepared-IsWellFormed (set_attr_op o) s i w))
        (ensure_chain-HasChain o.file before))
make_chain_for_op_total (resolution_op c) s i a w =
    (prepared (resolution_op c) s, refl, prepared-IsWellFormed (resolution_op c) s i w)
make_chain_for_op_total (rekey_op c) s i a w =
    (prepared (rekey_op c) s, refl, prepared-IsWellFormed (rekey_op c) s i w)
make_chain_for_op_total (gc_op o) s i a w =
    (prepared (gc_op o) s, refl, prepared-IsWellFormed (gc_op o) s i w)
