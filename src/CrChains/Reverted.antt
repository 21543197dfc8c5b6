-- ===== src/CrChains/Reverted.antt =====
-- cr_chains.go, copyOpAndRevertUnrefsToOriginals, on the chains that newCRChains makes.
use angelkey_kbfsbeta.Prelude.{
  ℕ, ◌≡◌, refl, subst, ◌⊎◌, inl, inr, Option, none, some, List, [], ◌∷◌, Option-cases,
}
use angelkey_kbfsbeta.Prelude.Result.{Result, ok, err}
use angelkey_kbfsbeta.Data.{BlockPointer, block_pointer_discrete}
use angelkey_kbfsbeta.Ops.{
  Op, WriterInfo, create_op, rm_op, rename_op, sync_op, set_attr_op, resolution_op, rekey_op, gc_op,
}
use angelkey_kbfsbeta.CrChains.Chains.{
  find, CrChains, ChainsError, original_from_most_recent, revert_pointer,
  copy_op_and_revert_unrefs_to_originals,
}
use angelkey_kbfsbeta.CrChains.Build.{ChainMd, new_cr_chains}
use angelkey_kbfsbeta.CrChains.Invariant.{IsWellFormed}
use angelkey_kbfsbeta.CrChains.Made.{HasPointersAll, AreApartAll, new_cr_chains_total}
use angelkey_kbfsbeta.CrChains.Originals.{revert_pointer-original_from_most_recent}

-- The pointers that an operation has of its own, to blocks as they were before it.
abbrev pub old_pointers : Op → List BlockPointer
old_pointers (create_op o) = o.dir.unref ∷ []
old_pointers (rm_op o) = o.dir.unref ∷ []
old_pointers (rename_op o) = o.old_dir.unref ∷ o.new_dir.unref ∷ o.renamed ∷ []
old_pointers (sync_op o) = o.file.unref ∷ []
old_pointers (set_attr_op o) = o.dir.unref ∷ o.file ∷ []
old_pointers (resolution_op c) = []
old_pointers (rekey_op c) = []
old_pointers (gc_op o) = []

-- The second pointer is the original that the first one leads to, if that is another one.
abbrev pub LeadsBack : Result ChainsError BlockPointer → BlockPointer → BlockPointer → Type 0
LeadsBack (err e) m q = Unit
LeadsBack (ok p) m q = (p ≡ m) ⊎ (q ≡ p)

-- The second pointer is what `originals` has for the first one, or else the first one itself.
abbrev pub IsFollowed : CrChains → BlockPointer → BlockPointer → Type 0
IsFollowed s m q = (find m s.originals ≡ some q) ⊎ (find m s.originals ≡ none) × (q ≡ m)

abbrev pub AllLeadBack : CrChains → List BlockPointer → List BlockPointer → Type 0
AllLeadBack s [] [] = Unit
AllLeadBack s (m ∷ r) (q ∷ t) =
    IsFollowed s m q × LeadsBack (original_from_most_recent m s) m q × AllLeadBack s r t
AllLeadBack s _ _ = ⊥

IsFollowed-revert_pointer : (s : CrChains) (m : BlockPointer) → IsFollowed s m (revert_pointer s m)
unfolding revert_pointer
IsFollowed-revert_pointer s m = elim (Option-cases (find m s.originals)) [
  | inl e ↦ rw (e, revert_pointer) (inr (refl, refl))
  | inr (q, e) ↦ rw (e, revert_pointer) (inl refl)
]

module _ (s : CrChains) (w : IsWellFormed s) where
  LeadsBack-revert_pointer :
      (m : BlockPointer) → LeadsBack (original_from_most_recent m s) m (revert_pointer s m)
  LeadsBack-revert_pointer m = leads (original_from_most_recent m s) refl
    where
      leads :
          (x : Result ChainsError BlockPointer)
          → original_from_most_recent m s ≡ x
          → LeadsBack x m (revert_pointer s m)
      leads (err e) f = tt
      leads (ok p) f = elim (block_pointer_discrete p m) [
        | yes e ↦ inl e
        | no n ↦ inr (revert_pointer-original_from_most_recent s m p w f n)
      ]

  carried :
      (l : List BlockPointer) (x : Op) {o' : Op}
      → AllLeadBack s l (old_pointers x)
      → ◌≡◌ {A = Option Op} (some x) (some o')
      → AllLeadBack s l (old_pointers o')
  carried l x {o'} h e =
      let same : x ≡ o' = cc e in subst (λ y. AllLeadBack s l (old_pointers y)) same h

  copied_back :
      (o : Op) {o' : Op}
      → copy_op_and_revert_unrefs_to_originals s o ≡ some o'
      → AllLeadBack s (old_pointers o) (old_pointers o')
  unfolding copy_op_and_revert_unrefs_to_originals
  copied_back (create_op o) e =
      carried (old_pointers (create_op o)) _
        (IsFollowed-revert_pointer s o.dir.unref, LeadsBack-revert_pointer o.dir.unref, tt) e
  copied_back (rm_op o) e =
      carried (old_pointers (rm_op o)) _
        (IsFollowed-revert_pointer s o.dir.unref, LeadsBack-revert_pointer o.dir.unref, tt) e
  copied_back (rename_op o) e =
      carried (old_pointers (rename_op o)) _
        (
          IsFollowed-revert_pointer s o.old_dir.unref,
          LeadsBack-revert_pointer o.old_dir.unref,
          (
            IsFollowed-revert_pointer s o.new_dir.unref,
            LeadsBack-revert_pointer o.new_dir.unref,
            (IsFollowed-revert_pointer s o.renamed, LeadsBack-revert_pointer o.renamed, tt),
          ),
        )
        e
  copied_back (sync_op o) e =
      carried (old_pointers (sync_op o)) _
        (IsFollowed-revert_pointer s o.file.unref, LeadsBack-revert_pointer o.file.unref, tt) e
  copied_back (set_attr_op o) e =
      carried (old_pointers (set_attr_op o)) _
        (
          IsFollowed-revert_pointer s o.dir.unref,
          LeadsBack-revert_pointer o.dir.unref,
          (IsFollowed-revert_pointer s o.file, LeadsBack-revert_pointer o.file, tt),
        )
        e
  copied_back (gc_op o) e = carried (old_pointers (gc_op o)) _ tt e
  copied_back (resolution_op c) e = absurd (cc e)
  copied_back (rekey_op c) e = absurd (cc e)

-- In the chains that newCRChains makes, copyOpAndRevertUnrefsToOriginals replaces each pointer
-- that an operation has of its own to a block from before it by what `originals` has for it, and
-- keeps it if there is nothing. If the pointer is the most recent one of a chain that has moved, the
-- result is the original that originalFromMostRecent gives. The hypotheses are those
-- of the totality of newCRChains: every writer is known, the new pointers of all operations and the
-- files of the setAttr operations are initialized, and no rename has an old directory whose old
-- pointer is the new pointer of a new directory.
pub copy_op_and_revert_unrefs_to_originals-new_cr_chains :
    (new_writer_info : ℕ → ℕ → Option WriterInfo)
    → ((u k : ℕ) → (winfo : WriterInfo) × (new_writer_info u k ≡ some winfo))
    → (mds : List ChainMd) (last_md : Option ChainMd) (s : CrChains) (o o' : Op)
    → HasPointersAll mds
    → AreApartAll mds
    → new_cr_chains new_writer_info mds ≡ ok (s, last_md)
    → copy_op_and_revert_unrefs_to_originals s o ≡ some o'
    → AllLeadBack s (old_pointers o) (old_pointers o')
copy_op_and_revert_unrefs_to_originals-new_cr_chains writers known mds l s o o' i a made e =
    let (t, f, w) = new_cr_chains_total writers known mds i a in
    let same : t ≡ s = cc (f, made) in copied_back s (subst IsWellFormed same w) o e
