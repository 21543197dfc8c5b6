-- ===== src/CrChains/Made.antt =====
-- cr_chains.go, newCRChains: it succeeds, and the maps that it makes are consistent.
use angelkey_kbfsbeta.Prelude.{
  ℕ, ◌≡◌, refl, ap, ◌∙◌, inl, inr, if_pos, if_neg, true, Option, some, List, [], ◌∷◌, Bool-cases,
  Option-cases, last?, All,
}
use angelkey_kbfsbeta.Prelude.Result.{Result, ok, ◌>>=◌}
use angelkey_kbfsbeta.Prelude.Map
use angelkey_kbfsbeta.Prelude.Map.{Map}
use angelkey_kbfsbeta.Data.{BlockPointer, block_pointer_discrete, zero_ptr, is_initialized}
use angelkey_kbfsbeta.Ops.{
  Op, WriterInfo, create_op, rm_op, rename_op, sync_op, set_attr_op, resolution_op, rekey_op, gc_op,
  all_updates, set_writer_info,
}
use angelkey_kbfsbeta.CrChains.Chain.{collapse}
use angelkey_kbfsbeta.CrChains.Chains.{CrChains, ChainsError, find, get_chain, new_cr_chains_empty}
use angelkey_kbfsbeta.CrChains.Build.{
  make_chain_for_op, ChainMd, make_chains, note_block_change, find_root, collapse_chain,
  collapse_chains, add_md, add_mds, new_cr_chains,
}
use angelkey_kbfsbeta.CrChains.Invariant.{IsWellFormed, set_chain-IsWellFormed}
use angelkey_kbfsbeta.CrChains.WellFormed.{HasPointers, IsWellFormed-others}
use angelkey_kbfsbeta.CrChains.Total.{AreApart, Succeeds, make_chain_for_op_total}

-- The metadata of an update has initialized pointers in all its operations.
abbrev pub HasPointersAll : List ChainMd → Type 0
HasPointersAll = All (λ md. All HasPointers md.ops)

set_writer_info-HasPointers :
    (winfo : WriterInfo) (o : Op) → HasPointers o → HasPointers (set_writer_info winfo o)
unfolding all_updates
set_writer_info-HasPointers winfo (create_op o) i = i
set_writer_info-HasPointers winfo (rm_op o) i = i
set_writer_info-HasPointers winfo (rename_op o) i = i
set_writer_info-HasPointers winfo (sync_op o) i = i
set_writer_info-HasPointers winfo (set_attr_op o) i = i
set_writer_info-HasPointers winfo (resolution_op c) i = i
set_writer_info-HasPointers winfo (rekey_op c) i = i
set_writer_info-HasPointers winfo (gc_op o) i = i

note_block_change-IsWellFormed :
    (p : BlockPointer) (s : CrChains) → IsWellFormed s → IsWellFormed (note_block_change p s)
unfolding note_block_change
note_block_change-IsWellFormed p s w = elim (block_pointer_discrete p zero_ptr) [
  | yes q ↦ rw (if_pos _ q) w
  | no n ↦ rw (if_neg _ n) (
      IsWellFormed-others s.original_root s.deleted_originals s.created_originals
        (Map.put block_pointer_discrete p true s.block_change_pointers) s.to_unref_pointers
        s.renamed_originals w)
]

find_root-IsWellFormed :
    (p : BlockPointer) (s : CrChains) → IsWellFormed s → IsWellFormed (find_root p s)
unfolding find_root
find_root-IsWellFormed p s w = elim (Bool-cases (is_initialized s.original_root)) [
  | inl e ↦ rw (e, find_root) w
  | inr e ↦ elim (Option-cases (find p s.by_most_recent)) [
    | inl f ↦ rw (e, f, find_root) w
    | inr (c, f) ↦
        let l = w.recent p c f in
        rw (e, f, l.found, find_root)
          (IsWellFormed-others l.chain.original s.deleted_originals s.created_originals
            s.block_change_pointers s.to_unref_pointers s.renamed_originals w)
  ]
]

collapse_chains-IsWellFormed :
    (m : Map BlockPointer ℕ) (s : CrChains) → IsWellFormed s → IsWellFormed (collapse_chains m s)
unfolding collapse_chains collapse_chain collapse
collapse_chains-IsWellFormed [] s w = w
collapse_chains-IsWellFormed ((p, c) ∷ r) s w =
    collapse_chains-IsWellFormed r (collapse_chain c s) (elim (Option-cases (get_chain c s)) [
      | inl e ↦ rw (e, collapse_chain) w
      | inr (chain, e) ↦
          rw (e, collapse_chain) (set_chain-IsWellFormed s w c chain (collapse chain) e refl refl)
    ])

pub new_cr_chains_empty-IsWellFormed : IsWellFormed new_cr_chains_empty
unfolding Map.get
new_cr_chains_empty-IsWellFormed = record {
  recent = λ p c e. absurd (cc e);
  origin = λ p c e. absurd (cc e);
  fresh = λ c x e. absurd (cc e);
}

abbrev pub AreApartAll : List ChainMd → Type 0
AreApartAll = All (λ md. All AreApart md.ops)

set_writer_info-AreApart :
    (winfo : WriterInfo) (o : Op) → AreApart o → AreApart (set_writer_info winfo o)
set_writer_info-AreApart winfo (create_op o) i = i
set_writer_info-AreApart winfo (rm_op o) i = i
set_writer_info-AreApart winfo (rename_op o) i = i
set_writer_info-AreApart winfo (sync_op o) i = i
set_writer_info-AreApart winfo (set_attr_op o) i = i
set_writer_info-AreApart winfo (resolution_op c) i = i
set_writer_info-AreApart winfo (rekey_op c) i = i
set_writer_info-AreApart winfo (gc_op o) i = i

>>=-Succeeds :
    (m : Result ChainsError CrChains) (f : CrChains → Result ChainsError CrChains)
    → Succeeds m
    → ((t : CrChains) → IsWellFormed t → Succeeds (f t))
    → Succeeds (m >>= f)
>>=-Succeeds m f (t, e, w) k = let (u, e', w') = k t w in (u, ap (λ x. x >>= f) e ∙ e', w')

make_chains_total :
    (winfo : WriterInfo) (ops : List Op) (s : CrChains)
    → All HasPointers ops
    → All AreApart ops
    → IsWellFormed s
    → Succeeds (make_chains winfo ops s)
unfolding make_chains
make_chains_total winfo [] s i a w = (s, refl, w)
make_chains_total winfo (o ∷ r) s i a w =
    >>=-Succeeds (make_chain_for_op (set_writer_info winfo o) s) (make_chains winfo r)
      (make_chain_for_op_total (set_writer_info winfo o) s (set_writer_info-HasPointers winfo o i.0)
        (set_writer_info-AreApart winfo o a.0) w)
      (λ t v. make_chains_total winfo r t i.1 a.1 v)

module _ (new_writer_info : ℕ → ℕ → Option WriterInfo)
    (known : (u k : ℕ) → (winfo : WriterInfo) × (new_writer_info u k ≡ some winfo)) where
  add_md_total :
      (md : ChainMd) (s : CrChains)
      → All HasPointers md.ops
      → All AreApart md.ops
      → IsWellFormed s
      → Succeeds (add_md new_writer_info md s)
  unfolding add_md
  add_md_total md s i a w =
      let (winfo, e) = known md.last_modifying_writer md.writer_kid in
      let (t, e', v) =
        make_chains_total winfo md.ops (note_block_change md.info s) i a
          (note_block_change-IsWellFormed md.info s w) in
      elim (Bool-cases md.writer_copied) [
        | inl copied ↦ rw (copied, add_md) (s, refl, w)
        | inr new ↦
            rw (new, e, e', add_md) (find_root md.dir t, refl, find_root-IsWellFormed md.dir t v)
      ]

  add_mds_total :
      (mds : List ChainMd) (s : CrChains)
      → HasPointersAll mds
      → AreApartAll mds
      → IsWellFormed s
      → Succeeds (add_mds new_writer_info mds s)
  unfolding add_mds
  add_mds_total [] s i a w = (s, refl, w)
  add_mds_total (md ∷ r) s i a w =
      >>=-Succeeds (add_md new_writer_info md s) (add_mds new_writer_info r)
        (add_md_total md s i.0 a.0 w) (λ t v. add_mds_total r t i.1 a.1 v)

  -- newCRChains returns chains for every list of updates, and their maps are consistent: a most
  -- recent pointer leads to a chain that ends there, and whose original is that pointer or is found
  -- in `originals`; an original leads to a chain that starts there. The hypotheses are that every
  -- writer is known, that the new pointers of all operations and the files of the setAttr operations
  -- are initialized, and that no rename has an old directory whose old pointer is the new pointer
  -- of a new directory.
  pub new_cr_chains_total :
      (mds : List ChainMd)
      → HasPointersAll mds
      → AreApartAll mds
      → (s : CrChains) × (new_cr_chains new_writer_info mds ≡ ok (s, last? mds)) × IsWellFormed s
  unfolding new_cr_chains
  new_cr_chains_total mds i a =
      let (t, e, w) = add_mds_total mds new_cr_chains_empty i a new_cr_chains_empty-IsWellFormed in
      (
        collapse_chains t.by_original t,
        rw (e, new_cr_chains) refl,
        collapse_chains-IsWellFormed t.by_original t w,
      )
