-- ===== src/CrChains/Invariant.antt =====
-- cr_chains.go: what the maps of crChains guarantee of one another.
use angelkey_kbfsbeta.Prelude.{
  ℕ, ◌<◌, ◌≡◌, refl, sym, ap, ◌∙◌, ◌≢◌, ◌⊎◌, inl, inr, true, some, [], arith, ℕ_discrete,
}
use angelkey_kbfsbeta.Prelude.Map
use angelkey_kbfsbeta.Prelude.Map.{Map}
use angelkey_kbfsbeta.Data.{BlockPointer, block_pointer_discrete, is_initialized}
use angelkey_kbfsbeta.CrChains.Chain.{CrChain}
use angelkey_kbfsbeta.CrChains.Chains.{CrChains, find, get_chain, set_chain}
use angelkey_kbfsbeta.CrChains.Build.{start_chain}

-- What the most recent pointer `p` leads to: a chain that is there now, and whose original can be
-- looked up, unless it is `p`.
pub record LeadsTo (s : CrChains) (p : BlockPointer) (c : ℕ) : Type 0 where
  pub chain : CrChain
  pub found : get_chain c s ≡ some chain
  pub at_recent : chain.most_recent ≡ p
  pub initialized : is_initialized p ≡ true
  pub tracked : (chain.original ≡ p) ⊎ (find p s.originals ≡ some chain.original)

pub record StartsAt (s : CrChains) (p : BlockPointer) (c : ℕ) : Type 0 where
  pub chain : CrChain
  pub found : get_chain c s ≡ some chain
  pub at_original : chain.original ≡ p

pub record IsWellFormed (s : CrChains) : Type 0 where
  pub recent : (p : BlockPointer) (c : ℕ) → find p s.by_most_recent ≡ some c → LeadsTo s p c
  pub origin : (p : BlockPointer) (c : ℕ) → find p s.by_original ≡ some c → StartsAt s p c
  pub fresh : (c : ℕ) (chain : CrChain) → get_chain c s ≡ some chain → c < s.next_chain

module _ (s : CrChains) (w : IsWellFormed s) (c : ℕ) (chain other : CrChain)
    (at : get_chain c s ≡ some chain) (o : other.original ≡ chain.original)
    (r : other.most_recent ≡ chain.most_recent) where
  -- A chain's operations do not matter.
  set_chain-chain :
      (k : ℕ) (x : CrChain)
      → get_chain k s ≡ some x
      → (y : CrChain) × (get_chain k (set_chain c other s) ≡ some y)
        × (y.original ≡ x.original)
        × (y.most_recent ≡ x.most_recent)
  set_chain-chain k x e = elim (ℕ_discrete c k) [
    | yes q ↦
        let same : chain ≡ x = cc (at, e, q) in
        (
          other,
          ap (λ i. get_chain i (set_chain c other s)) (sym q)
              ∙ Map.get-put_self ℕ_discrete c other s.chains,
          o ∙ ap (λ (z : CrChain). z.original) same,
          r ∙ ap (λ (z : CrChain). z.most_recent) same,
        )
    | no n ↦ (x, ground (arith, Map.get-put ℕ_discrete c k other s.chains), refl, refl)
  ]

  set_chain-fresh :
      (k : ℕ) (x : CrChain) → get_chain k (set_chain c other s) ≡ some x → k < s.next_chain
  set_chain-fresh k x e = elim (ℕ_discrete c k) [
    | yes q ↦ omega (arith, w.fresh c chain at)
    | no n ↦ w.fresh k x (ground (arith, Map.get-put ℕ_discrete c k other s.chains))
  ]

  pub set_chain-IsWellFormed : IsWellFormed (set_chain c other s)
  set_chain-IsWellFormed = record {
    recent = λ p k e.
        let l = w.recent p k e in
        let y = set_chain-chain k l.chain l.found in
        record {
          chain = y.0;
          found = y.1;
          at_recent = y.3 ∙ l.at_recent;
          initialized = l.initialized;
          tracked = elim l.tracked [ inl q ↦ inl (y.2 ∙ q) | inr q ↦ inr (q ∙ ap some (sym y.2)) ];
        };
    origin = λ p k e.
        let l = w.origin p k e in
        let y = set_chain-chain k l.chain l.found in
        record { chain = y.0; found = y.1; at_original = y.2 ∙ l.at_original };
    fresh = set_chain-fresh;
  }

module _ (s : CrChains) (w : IsWellFormed s) (ptr most_recent : BlockPointer) where
  pub start_chain-new :
      get_chain s.next_chain (start_chain ptr most_recent s)
      ≡ some (record { ops = []; original = ptr; most_recent = most_recent })
  unfolding start_chain
  start_chain-new =
      Map.get-put_self ℕ_discrete s.next_chain
        (record { ops = []; original = ptr; most_recent = most_recent }) s.chains

  pub start_chain-old :
      (k : ℕ) (x : CrChain)
      → get_chain k s ≡ some x
      → get_chain k (start_chain ptr most_recent s) ≡ some x
  unfolding start_chain
  start_chain-old k x e =
      let n : s.next_chain ≢ k = λ q. absurd (omega (arith, w.fresh k x e)) in
      ground (
        arith,
        Map.get-put ℕ_discrete s.next_chain k
            (record { ops = []; original = ptr; most_recent = most_recent }) s.chains,
      )

  pub start_chain-StartsAt :
      (p : BlockPointer) (k : ℕ)
      → find p (start_chain ptr most_recent s).by_original ≡ some k
      → StartsAt (start_chain ptr most_recent s) p k
  unfolding start_chain
  start_chain-StartsAt p k e = elim (block_pointer_discrete ptr p) [
    | yes q ↦
        let here : s.next_chain ≡ k =
          ground (arith, Map.get-put block_pointer_discrete ptr p s.next_chain s.by_original) in
        record {
          chain = record { ops = []; original = ptr; most_recent = most_recent };
          found =
              ap (λ i. get_chain i (start_chain ptr most_recent s)) (sym here) ∙ start_chain-new;
          at_original = q;
        }
    | no n ↦
        let before : find p s.by_original ≡ some k =
          ground (arith, Map.get-put block_pointer_discrete ptr p s.next_chain s.by_original) in
        let o = w.origin p k before in
        record {
          chain = o.chain;
          found = start_chain-old k o.chain o.found;
          at_original = o.at_original;
        }
  ]

  pub start_chain-fresh :
      (k : ℕ) (x : CrChain)
      → get_chain k (start_chain ptr most_recent s) ≡ some x
      → k < (start_chain ptr most_recent s).next_chain
  unfolding start_chain
  start_chain-fresh k x e = elim (ℕ_discrete s.next_chain k) [
    | yes q ↦ omega arith
    | no n ↦
        let before : get_chain k s ≡ some x = ground (
          arith,
          Map.get-put ℕ_discrete s.next_chain k
              (record { ops = []; original = ptr; most_recent = most_recent }) s.chains,
        ) in
        omega (arith, w.fresh k x before)
  ]

  pub start_chain-LeadsTo :
      (p : BlockPointer) (k : ℕ)
      → find p s.by_most_recent ≡ some k
      → LeadsTo (start_chain ptr most_recent s) p k
  unfolding start_chain
  start_chain-LeadsTo p k e =
      let l = w.recent p k e in
      record {
        chain = l.chain;
        found = start_chain-old k l.chain l.found;
        at_recent = l.at_recent;
        initialized = l.initialized;
        tracked = l.tracked;
      }

  pub start_chain-IsWellFormed : IsWellFormed (start_chain ptr most_recent s)
  unfolding start_chain
  start_chain-IsWellFormed = record {
    recent = start_chain-LeadsTo;
    origin = start_chain-StartsAt;
    fresh = start_chain-fresh;
  }
