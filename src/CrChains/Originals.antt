-- ===== src/CrChains/Originals.antt =====
-- cr_chains.go: how a pointer is followed back to its original, in `byMostRecent` and in `originals`.
use angelkey_kbfsbeta.Prelude.{
  ℕ, ◌≡◌, refl, sym, ap, ◌∙◌, ◌≢◌, inl, inr, none, some, arith, ℕ_discrete, Option-cases,
}
use angelkey_kbfsbeta.Prelude.Result.{ok, err}
use angelkey_kbfsbeta.Prelude.Map
use angelkey_kbfsbeta.Prelude.Map.{Map}
use angelkey_kbfsbeta.Data.{BlockPointer, block_pointer_discrete}
use angelkey_kbfsbeta.CrChains.Chain.{CrChain}
use angelkey_kbfsbeta.CrChains.Chains.{CrChains, find, get_chain, no_chain_found}
use angelkey_kbfsbeta.CrChains.Invariant.{IsWellFormed}
use angelkey_kbfsbeta.CrChains.Chains.{
  original_from_most_recent, revert_pointer, change_original, set_original, chain_found,
}

original_found :
    (s : CrChains) (m : BlockPointer) (c : ℕ) (x : CrChain)
    → find m s.by_most_recent ≡ some c
    → get_chain c s ≡ some x
    → original_from_most_recent m s ≡ ok x.original
unfolding original_from_most_recent
original_found s m c x f g =
    rw (f, original_from_most_recent, chain_found) (rw (g, chain_found) refl)

-- In consistent chains, copyOpAndRevertUnrefsToOriginals follows the most recent pointer of a chain
-- back to the original that originalFromMostRecent gives, if the chain has moved.
pub revert_pointer-original_from_most_recent :
    (s : CrChains) (m p : BlockPointer)
    → IsWellFormed s
    → original_from_most_recent m s ≡ ok p
    → p ≢ m
    → revert_pointer s m ≡ p
unfolding original_from_most_recent revert_pointer
revert_pointer-original_from_most_recent s m p w e n =
    elim (Option-cases (find m s.by_most_recent)) [
      | inl f ↦
          let failed : original_from_most_recent m s ≡ err (no_chain_found m) =
            rw (f, original_from_most_recent) refl in
          cc
      | inr (c, f) ↦
          let l = w.recent m c f in
          let same : l.chain.original ≡ p = cc (original_found s m c l.chain f l.found) in
          elim l.tracked [ inl q ↦ absurd (n (sym same ∙ q)) | inr q ↦ rw (q, revert_pointer) same ]
    ]

-- A chain that has moved keeps its most recent pointer when its original changes.
module _ (s : CrChains) (old new m : BlockPointer) (c : ℕ) (chain : CrChain)
    (at : chain.most_recent ≡ m) (start : chain.original ≡ old) (n : m ≢ old) where
  set_original-recent : (set_original old new c chain s).by_most_recent ≡ s.by_most_recent
  unfolding set_original
  set_original-recent = ground (arith, at, n)

  set_original-chain :
      (x : CrChain) × (get_chain c (set_original old new c chain s) ≡ some x) × (x.original ≡ new)
  unfolding set_original
  set_original-chain = (_, Map.get-put_self ℕ_discrete c _ s.chains, refl)

  set_original-originals : find m (set_original old new c chain s).originals ≡ find m s.originals
  unfolding set_original
  set_original-originals = ground (arith, Map.get-put block_pointer_discrete old m new s.originals)

-- changeOriginal renames the original of a chain that has moved, and originalFromMostRecent gives
-- the new one from then on; but copyOpAndRevertUnrefsToOriginals still follows the chain's most
-- recent pointer to the old original. The hypotheses are that the maps are consistent and that the
-- new original is not one already.
pub change_original-revert_pointer :
    (s : CrChains) (old new m : BlockPointer) (c : ℕ)
    → IsWellFormed s
    → find old s.by_original ≡ some c
    → find m s.by_most_recent ≡ some c
    → m ≢ old
    → find new s.by_original ≡ none
    → (t : CrChains) × (change_original old new s ≡ ok t)
      × (original_from_most_recent m t ≡ ok new)
      × (revert_pointer t m ≡ old)
unfolding original_from_most_recent revert_pointer change_original
change_original-revert_pointer s old new m c w o r n free =
    let start = w.origin old c o in
    let l = w.recent m c r in
    let same : l.chain ≡ start.chain = cc (l.found, start.found) in
    let original : l.chain.original ≡ old =
      ap (λ (x : CrChain). x.original) same ∙ start.at_original in
    let t = set_original old new c l.chain s in
    let (x, found, is_new) = set_original-chain s old new m c l.chain l.at_recent original n in
    let moved = set_original-recent s old new m c l.chain l.at_recent original n in
    let tracked : find m s.originals ≡ some old = elim l.tracked [
      | inl q ↦ absurd (n (sym q ∙ original))
      | inr q ↦ q ∙ ap some original
    ] in
    (
      t,
      rw (o, l.found, free, change_original) refl,
      original_found t m c x (ap (find m) moved ∙ r) found ∙ ap ok is_new,
      rw
          (
            set_original-originals s old new m c l.chain l.at_recent original n,
            tracked,
            revert_pointer,
          )
          refl,
    )
