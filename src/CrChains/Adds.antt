-- ===== src/CrChains/Adds.antt =====
-- cr_chains.go, addOp and the split of a rename: they find the chains of their directories.
use angelkey_kbfsbeta.Prelude.{
  ℕ, ◌≡◌, refl, ap, ◌∙◌, inl, inr, some, [], ◌∷◌, ◌++◌, Bool-cases, List-cases,
}
use angelkey_kbfsbeta.Prelude.Result.{Result, ok, ◌>>=◌}
use angelkey_kbfsbeta.Prelude.Map
use angelkey_kbfsbeta.Prelude.Map.{Map}
use angelkey_kbfsbeta.Data.{BlockPointer, block_pointer_discrete, is_initialized}
use angelkey_kbfsbeta.Ops.{Op, RenameOp, create_op, rm_op}
use angelkey_kbfsbeta.CrChains.Chain.{CrChain}
use angelkey_kbfsbeta.CrChains.Chains.{
  CrChains, ChainsError, find, set_chain, add_op, original_from_most_recent_or_same,
}
use angelkey_kbfsbeta.CrChains.Build.{
  rename_dir, remove_part, overwrite_part, create_part, track_rename, add_overwrite, add_create,
  add_rename, parent_chain, rename_info,
}
use angelkey_kbfsbeta.CrChains.Invariant.{IsWellFormed, set_chain-IsWellFormed}
use angelkey_kbfsbeta.CrChains.WellFormed.{IsWellFormed-others}

-- A chain ends at this pointer.
abbrev pub HasChain : CrChains → BlockPointer → Type 0
HasChain s p = (c : ℕ) × (find p s.by_most_recent ≡ some c)

pub HasChain-same :
    (s t : CrChains) (p : BlockPointer)
    → t.by_most_recent ≡ s.by_most_recent
    → HasChain s p
    → HasChain t p
HasChain-same s t p q (c, e) = (c, ap (find p) q ∙ e)

-- The result is consistent, and has chains for the same most recent pointers.
abbrev pub Adds : CrChains → Result ChainsError CrChains → Type 0
Adds s m = (t : CrChains) × (m ≡ ok t) × IsWellFormed t × (t.by_most_recent ≡ s.by_most_recent)

>>=-Adds :
    (s : CrChains) (m : Result ChainsError CrChains) (f : CrChains → Result ChainsError CrChains)
    → Adds s m
    → ((t : CrChains) → IsWellFormed t → t.by_most_recent ≡ s.by_most_recent → Adds t (f t))
    → Adds s (m >>= f)
>>=-Adds s m f (t, e, w, same) k =
    let (u, e', w', same') = k t w same in (u, ap (λ x. x >>= f) e ∙ e', w', same' ∙ same)

pub add_op_total :
    (p : BlockPointer) (o : Op) (s : CrChains)
    → IsWellFormed s
    → HasChain s p
    → Adds s (add_op p o s)
unfolding add_op
add_op_total p o s w (c, e) =
    let l = w.recent p c e in
    let chain : CrChain = record l.chain { ops = l.chain.ops ++ o ∷ [] } in
    (
      set_chain c chain s,
      rw (e, l.found, add_op) refl,
      set_chain-IsWellFormed s w c l.chain chain l.found refl refl,
      refl,
    )

parent_chain_total :
    (n p : BlockPointer) (s : CrChains)
    → IsWellFormed s
    → HasChain s p
    → (chain : CrChain) × (parent_chain n p s ≡ ok chain)
unfolding parent_chain
parent_chain_total n p s w (c, e) =
    let l = w.recent p c e in (l.chain, rw (e, l.found, parent_chain) refl)

-- The three operations of a rename, where both directories have chains.
module _ (o : RenameOp) (p : BlockPointer) where
  track_rename_total :
      (s : CrChains)
      → IsWellFormed s
      → HasChain s o.old_dir.ref
      → HasChain s (rename_dir o).ref
      → Adds s (track_rename o p s)
  unfolding track_rename
  track_rename_total s w old new =
      let n = parent_chain_total (rename_dir o).ref (rename_dir o).ref s w new in
      let m = parent_chain_total (rename_dir o).ref o.old_dir.ref s w old in
      let info = rename_info o m.0.original n.0.original (find p s.renamed_originals) in
      let renamed = Map.put block_pointer_discrete p info s.renamed_originals in
      (
        record s { renamed_originals = renamed },
        rw (n.1, m.1) refl,
        IsWellFormed-others s.original_root s.deleted_originals s.created_originals
            s.block_change_pointers s.to_unref_pointers renamed w,
        refl,
      )

module _ (o : RenameOp) where
  add_overwrite_total :
      (s : CrChains) → IsWellFormed s → HasChain s (rename_dir o).ref → Adds s (add_overwrite o s)
  unfolding add_overwrite
  add_overwrite_total s w new = elim (List-cases o.common.unref_blocks) [
    | inl e ↦ rw (e, add_overwrite) (s, refl, w, refl)
    | inr (p, r, e) ↦
        rw (e, add_overwrite) (add_op_total (rename_dir o).ref (rm_op (overwrite_part o)) s w new)
  ]

  add_create_total :
      (s : CrChains)
      → IsWellFormed s
      → HasChain s o.old_dir.ref
      → HasChain s (rename_dir o).ref
      → Adds s (add_create o s)
  unfolding add_create
  add_create_total s w old new = elim (Bool-cases (is_initialized o.renamed)) [
    | inl e ↦
        let p = original_from_most_recent_or_same o.renamed s in
        let create = create_op (create_part o (p ∷ [])) in
        rw (e, add_create)
          (>>=-Adds s (add_op (rename_dir o).ref create s) (track_rename o p)
            (add_op_total (rename_dir o).ref create s w new)
            (λ t v same.
              track_rename_total o p t v (HasChain-same s t o.old_dir.ref same old)
                (HasChain-same s t (rename_dir o).ref same new)))
    | inr e ↦
        rw (e, add_create) (add_op_total (rename_dir o).ref (create_op (create_part o [])) s w new)
  ]

  pub add_rename_total :
      (s : CrChains)
      → IsWellFormed s
      → HasChain s o.old_dir.ref
      → HasChain s (rename_dir o).ref
      → Adds s (add_rename o s)
  unfolding add_rename
  add_rename_total s w old new =
      >>=-Adds s (add_op o.old_dir.ref (rm_op (remove_part o)) s)
        (λ t. add_overwrite o t >>= λ v. add_create o v)
        (add_op_total o.old_dir.ref (rm_op (remove_part o)) s w old)
        (λ t v same.
          let old' = HasChain-same s t o.old_dir.ref same old in
          let new' = HasChain-same s t (rename_dir o).ref same new in
          >>=-Adds t (add_overwrite o t) (add_create o) (add_overwrite_total t v new') (λ x y again.
            add_create_total x y (HasChain-same t x o.old_dir.ref again old')
              (HasChain-same t x (rename_dir o).ref again new')))
