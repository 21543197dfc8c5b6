-- ===== src/CrChains/Moved.antt =====
-- cr_chains.go: a chain that gets a new most recent pointer leaves the maps consistent.
use angelkey_kbfsbeta.Prelude.{
  ℕ, ◌<◌, ◌≡◌, refl, sym, ap, ◌∙◌, subst, ◌≢◌, ◌⊎◌, inl, inr, if_neg, true, some, arith, ℕ_discrete,
  if◌then◌else◌, Bool-cases,
}
use angelkey_kbfsbeta.Prelude.Map
use angelkey_kbfsbeta.Prelude.Map.{Map}
use angelkey_kbfsbeta.Data.{BlockPointer, block_pointer_discrete, is_initialized}
use angelkey_kbfsbeta.CrChains.Chain.{CrChain}
use angelkey_kbfsbeta.CrChains.Chains.{CrChains, find, get_chain}
use angelkey_kbfsbeta.CrChains.Build.{move_chain}
use angelkey_kbfsbeta.CrChains.Invariant.{LeadsTo, StartsAt, IsWellFormed}

module _ (new : BlockPointer) (c : ℕ) (chain : CrChain) (s : CrChains) (w : IsWellFormed s)
    (at : get_chain c s ≡ some chain) (init : is_initialized new ≡ true)
    (owned : (p : BlockPointer)
      → find p s.by_most_recent ≡ some c
      → is_initialized chain.most_recent ≡ true) where
  same_chain : (p : BlockPointer) → find p s.by_most_recent ≡ some c → chain.most_recent ≡ p
  same_chain p e =
      let l = w.recent p c e in
      let q : chain ≡ l.chain = cc (at, l.found) in
      ap (λ (x : CrChain). x.most_recent) q ∙ l.at_recent

  recent_before :
      (p : BlockPointer)
      → new ≢ p
      → (k : ℕ) → find p (move_chain new c chain s).by_most_recent ≡ some k
      → (find p s.by_most_recent ≡ some k) × (c ≢ k)
  unfolding move_chain
  recent_before p n k e = elim (Bool-cases (is_initialized chain.most_recent)) [
    | inl there ↦
        let d = Map.delete block_pointer_discrete chain.most_recent s.by_most_recent in
        let f : (find p s.by_most_recent ≡ some k) × (chain.most_recent ≢ p) = ground (
          arith,
          Map.get-put block_pointer_discrete new p c d,
          Map.get-delete block_pointer_discrete chain.most_recent p s.by_most_recent,
        ) in
        (f.0, λ q. f.1 (same_chain p (f.0 ∙ ap some (sym q))))
    | inr not_there ↦
        let f : find p s.by_most_recent ≡ some k =
          ground (arith, Map.get-put block_pointer_discrete new p c s.by_most_recent) in
        (f, λ q. cc (owned p (f ∙ ap some (sym q))))
  ]

  moved_originals :
      (p : BlockPointer)
      → new ≢ p
      → find p (move_chain new c chain s).originals ≡ find p s.originals
  unfolding move_chain
  moved_originals p n =
      ground (arith, Map.get-put block_pointer_discrete new p chain.original s.originals)

  moved_chains : (k : ℕ) → c ≢ k → get_chain k (move_chain new c chain s) ≡ get_chain k s
  unfolding move_chain
  moved_chains k n =
      ground (arith, Map.get-put ℕ_discrete c k (record chain { most_recent = new }) s.chains)

  moved_chain : get_chain c (move_chain new c chain s) ≡ some (record chain { most_recent = new })
  unfolding move_chain
  moved_chain = Map.get-put_self ℕ_discrete c (record chain { most_recent = new }) s.chains

  moved_recent : (k : ℕ) → find new (move_chain new c chain s).by_most_recent ≡ some k → c ≡ k
  unfolding move_chain
  moved_recent k e = ground (
    arith,
    Map.get-put_self block_pointer_discrete new c (
        if is_initialized chain.most_recent
        then Map.delete block_pointer_discrete chain.most_recent s.by_most_recent
        else s.by_most_recent),
  )

  moved_tracked :
      (chain.original ≡ new) ⊎ (find new (move_chain new c chain s).originals ≡ some chain.original)
  unfolding move_chain
  moved_tracked = elim (block_pointer_discrete chain.original new) [
    | yes q ↦ inl q
    | no n ↦
        inr
          (rw (if_neg _ n) (Map.get-put_self block_pointer_discrete new chain.original s.originals))
  ]

  move_chain-LeadsTo :
      (p : BlockPointer) (k : ℕ)
      → find p (move_chain new c chain s).by_most_recent ≡ some k
      → LeadsTo (move_chain new c chain s) p k
  move_chain-LeadsTo p k e = elim (block_pointer_discrete new p) [
    | yes q ↦
        subst (λ x. LeadsTo (move_chain new c chain s) x k) q
          (subst (λ x. LeadsTo (move_chain new c chain s) new x)
            (moved_recent k (ap (λ x. find x (move_chain new c chain s).by_most_recent) q ∙ e))
            (record {
              chain = record chain { most_recent = new };
              found = moved_chain;
              at_recent = refl;
              initialized = init;
              tracked = moved_tracked;
            }))
    | no n ↦
        let before = recent_before p n k e in
        let l = w.recent p k before.0 in
        record {
          chain = l.chain;
          found = moved_chains k before.1 ∙ l.found;
          at_recent = l.at_recent;
          initialized = l.initialized;
          tracked = elim l.tracked [ inl q ↦ inl q | inr q ↦ inr (moved_originals p n ∙ q) ];
        }
  ]

  move_chain-StartsAt :
      (p : BlockPointer) (k : ℕ)
      → find p (move_chain new c chain s).by_original ≡ some k
      → StartsAt (move_chain new c chain s) p k
  unfolding move_chain
  move_chain-StartsAt p k e =
      let o = w.origin p k e in
      elim (ℕ_discrete c k) [
        | yes q ↦
            let same : chain ≡ o.chain = cc (at, o.found) in
            record {
              chain = record chain { most_recent = new };
              found = ap (λ x. get_chain x (move_chain new c chain s)) (sym q) ∙ moved_chain;
              at_original = ap (λ (x : CrChain). x.original) same ∙ o.at_original;
            }
        | no n ↦ record {
          chain = o.chain;
          found = moved_chains k n ∙ o.found;
          at_original = o.at_original;
        }
      ]

  move_chain-fresh :
      (k : ℕ) (x : CrChain)
      → get_chain k (move_chain new c chain s) ≡ some x
      → k < (move_chain new c chain s).next_chain
  unfolding move_chain
  move_chain-fresh k x e = elim (ℕ_discrete c k) [
    | yes q ↦ omega (arith, w.fresh c chain at)
    | no n ↦ w.fresh k x (sym (moved_chains k n) ∙ e)
  ]

  pub move_chain-IsWellFormed : IsWellFormed (move_chain new c chain s)
  move_chain-IsWellFormed = record {
    recent = move_chain-LeadsTo;
    origin = move_chain-StartsAt;
    fresh = move_chain-fresh;
  }
