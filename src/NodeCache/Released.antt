-- ===== src/NodeCache/Released.antt =====
-- node_cache.go, forgetLocked: what the finalizer of a node does to the entries.
use angelkey_kbfsbeta.Prelude.{
  ℕ, ◌-◌, ◌≡◌, refl, sym, ap, ◌∙◌, ◌≢◌, inl, inr, Option, none, some, List, arith, ℕ_discrete, leb,
  ◌==◌, if◌then◌else◌, Option-cases,
}
use angelkey_kbfsbeta.Prelude.Map.{get-put, get-delete}
use angelkey_kbfsbeta.Data.{BlockRef, block_ref_discrete, ref}
use angelkey_kbfsbeta.NodeCache.{
  NodeCore, CacheEntry, NodeCache, get_entry, get_core, release, finalize,
}
use angelkey_kbfsbeta.NodeCache.Counted.{count, IsCounted, core_of_entry}
use angelkey_kbfsbeta.NodeCache.Steps.{
  drop_node, finalize_no_core, finalize_no_entry, finalize_other, finalize_entry,
}

-- What is left of an entry when a node of the core `c` is finalized, among these live nodes.
abbrev pub finalized : ℕ → List ℕ → Option CacheEntry → Option CacheEntry
finalized c live none = none
finalized c live (some e) =
    if e.core == c
    then (if leb (count c live) 1 then none else some (record e { ref_count = count c live - 1 }))
    else some e

unchanged :
    (c : ℕ) (live : List ℕ) (o : Option CacheEntry)
    → ((e : CacheEntry) → o ≡ some e → e.core ≢ c)
    → o ≡ finalized c live o
unchanged c live none n = refl
unchanged c live (some e) n = ground (arith, n e refl)

release_here :
    (r : BlockRef) (e : CacheEntry) (s : NodeCache)
    → get_entry r (release r e s)
      ≡ (if leb e.ref_count 1 then none else some (record e { ref_count = e.ref_count - 1 }))
unfolding release
release_here r e s = ground (
  arith,
  get-put block_ref_discrete r r (record e { ref_count = e.ref_count - 1 }) s.nodes,
  get-delete block_ref_discrete r r s.nodes,
)

release_other :
    (r q : BlockRef) (e : CacheEntry) (s : NodeCache)
    → r ≢ q
    → get_entry q (release r e s) ≡ get_entry q s
unfolding release
release_other r q e s n = ground (
  arith,
  get-put block_ref_discrete r q (record e { ref_count = e.ref_count - 1 }) s.nodes,
  get-delete block_ref_discrete r q s.nodes,
)

released :
    (r q : BlockRef) (e : CacheEntry) (s : NodeCache)
    → get_entry r s ≡ some e
    → IsCounted s
    → get_entry q (release r e (drop_node e.core s)) ≡ finalized e.core s.live (get_entry q s)
released r q e s f h = elim (block_ref_discrete r q) [
  | yes same ↦
      let here : get_entry q s ≡ some e = ap (λ x. get_entry x s) (sym same) ∙ f in
      let a = h.at r e f in
      ap (λ x. get_entry x (release r e (drop_node e.core s))) (sym same)
      ∙ release_here r e (drop_node e.core s)
      ∙ ground (arith, here, a.counted)
  | no other ↦
      release_other r q e (drop_node e.core s) other
      ∙ unchanged e.core s.live (get_entry q s) (λ d k z. other (core_of_entry s r q e d h f k z))
]

-- With consistent counts, a finalizer changes the entry of its node's core only.
pub get_entry-finalize :
    (c : ℕ) (q : BlockRef) (s : NodeCache)
    → IsCounted s
    → get_entry q (finalize c s) ≡ finalized c s.live (get_entry q s)
get_entry-finalize c q s h = elim (Option-cases (get_core c s)) [
  | inl m ↦
      ap (get_entry q) (finalize_no_core c s m)
      ∙ unchanged c s.live (get_entry q s)
          (λ d k z. let b = h.at q d k in absurd (ground (arith, b.found)))
  | inr (core, m) ↦
      let r = ref core.path_node.pointer in
      let at_home : (d : CacheEntry) → get_entry q s ≡ some d → d.core ≡ c → r ≡ q = λ d k z.
        (let b = h.at q d k in
          let f : core ≡ b.core = ground (arith, b.found) in
          ap (λ (x : NodeCore). ref x.path_node.pointer) f ∙ b.here) in
      elim (Option-cases (get_entry r s)) [
        | inl n ↦
            ap (get_entry q) (finalize_no_entry c s core m n)
            ∙ unchanged c s.live (get_entry q s) (λ d k z. let w = at_home d k z in absurd (cc))
        | inr (e, n) ↦ elim (ℕ_discrete e.core c) [
          | yes same ↦
              ap (get_entry q) (finalize_entry c s core m e n same)
              ∙ released r q e s n h
              ∙ ap (λ x. finalized x s.live (get_entry q s)) same
          | no other ↦
              ap (get_entry q) (finalize_other c s core m e n other)
              ∙ unchanged c s.live (get_entry q s)
                  (λ d k z. let w = at_home d k z in absurd (other (ground (arith, w))))
        ]
      ]
]
