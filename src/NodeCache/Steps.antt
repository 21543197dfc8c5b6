-- ===== src/NodeCache/Steps.antt =====
-- node_cache.go: every method keeps the reference counts, and so does the finalizer of a node.
use angelkey_kbfsbeta.Prelude.{
  ℕ, ◌+◌, ◌-◌, ◌<◌, ◌≡◌, sym, ap, ◌∙◌, subst, ◌≢◌, inl, inr, none, some, List, ◌∷◌, arith,
  ℕ_discrete, leb, ◌==◌, if◌then◌else◌, Bool-cases, Option-cases, All, [],
}
use angelkey_kbfsbeta.Prelude.Map
use angelkey_kbfsbeta.Prelude.Map.{Map, get-put, get-delete}
use angelkey_kbfsbeta.Data.{BlockRef, block_ref_discrete, BlockPointer, ref}
use angelkey_kbfsbeta.NodeCache.{
  NodeCore, CacheEntry, NodeCache, get_entry, get_core, set_core, set_entry, delete_entry, release,
  forget, remove_one, finalize,
}
use angelkey_kbfsbeta.NodeCache.Counted.{count, Counted, IsCounted, core_of_entry}

abbrev pub moved : NodeCore → BlockPointer → NodeCore
moved core new = record core { path_node = record core.path_node { pointer = new } }

-- The entry at `old` moves to the reference of the new pointer, with the pointer of its core. An
-- entry that was at that reference is lost.
pub relocate-IsCounted :
    (old : BlockRef) (new : BlockPointer) (e : CacheEntry) (core : NodeCore) (s : NodeCache)
    → get_entry old s ≡ some e
    → get_core e.core s ≡ some core
    → IsCounted s
    → IsCounted (set_entry (ref new) e (delete_entry old (set_core e.core (moved core new) s)))
relocate-IsCounted old new e core s p f h =
    let a = h.at old e p in
    record {
      at = λ q d k. elim (block_ref_discrete (ref new) q) [
        | yes same ↦
            let g : e ≡ d = ground (
              arith,
              get-put block_ref_discrete (ref new) q e (Map.delete block_ref_discrete old s.nodes),
            ) in
            subst
              (Counted
                (set_entry (ref new) e (delete_entry old (set_core e.core (moved core new) s))) q)
              g
              (record {
                core = moved core new;
                found = ground (arith, get-put ℕ_discrete e.core e.core (moved core new) s.cores);
                here = same;
                counted = a.counted;
                positive = a.positive;
              })
        | no other ↦ elim (block_ref_discrete old q) [
          | yes same ↦ absurd (
              ground (
                arith,
                get-put block_ref_discrete (ref new) q e
                    (Map.delete block_ref_discrete old s.nodes),
                get-delete block_ref_discrete old q s.nodes,
              ))
          | no there ↦
              let before : get_entry q s ≡ some d = ground (
                arith,
                get-put block_ref_discrete (ref new) q e
                    (Map.delete block_ref_discrete old s.nodes),
                get-delete block_ref_discrete old q s.nodes,
              ) in
              let b = h.at q d before in
              record {
                core = b.core;
                found = ground (
                  arith,
                  b.found,
                  get-put ℕ_discrete e.core d.core (moved core new) s.cores,
                  λ (z : d.core ≡ e.core). there (core_of_entry s old q e d h p before z),
                );
                here = b.here;
                counted = b.counted;
                positive = b.positive;
              }
        ]
      ];
      known = λ d c k. ground (
        arith,
        get-put ℕ_discrete e.core d (moved core new) s.cores,
        h.known d c,
        h.known e.core core f,
      );
      live_known = h.live_known;
    }

count-remove_one :
    (c d : ℕ) (l : List ℕ)
    → 0 < count c l
    → count d (remove_one c l) + (if c == d then 1 else 0) ≡ count d l
count-remove_one c d [] h = absurd (omega arith)
count-remove_one c d (x ∷ r) h = ground (arith, count-remove_one c d r)

All-remove_one : (c n : ℕ) (l : List ℕ) → All (λ d. d < n) l → All (λ d. d < n) (remove_one c l)
All-remove_one c n [] h = tt
All-remove_one c n (x ∷ r) h = ground (arith, All-remove_one c n r h.1)

abbrev pub drop_node : ℕ → NodeCache → NodeCache
drop_node c s = record s { live = remove_one c s.live }

-- An entry of another core is counted as before, whatever happens to the other entries.
other_core :
    (c : ℕ) (s : NodeCache) (m : Map BlockRef CacheEntry) (q : BlockRef) (d : CacheEntry)
    → 0 < count c s.live
    → d.core ≢ c
    → Counted s q d
    → Counted (record (drop_node c s) { nodes = m }) q d
other_core c s m q d p n b = record {
  core = b.core;
  found = b.found;
  here = b.here;
  counted = ground (arith, b.counted, count-remove_one c d.core s.live p);
  positive = b.positive;
}

no_entry-IsCounted :
    (c : ℕ) (s : NodeCache)
    → 0 < count c s.live
    → ((q : BlockRef) (d : CacheEntry) → get_entry q s ≡ some d → d.core ≢ c)
    → IsCounted s
    → IsCounted (drop_node c s)
no_entry-IsCounted c s p n h = record {
  at = λ q d k. other_core c s s.nodes q d p (n q d k) (h.at q d k);
  known = h.known;
  live_known = All-remove_one c s.next_core s.live h.live_known;
}

release-IsCounted :
    (r : BlockRef) (e : CacheEntry) (s : NodeCache)
    → 0 < count e.core s.live
    → get_entry r s ≡ some e
    → IsCounted s
    → IsCounted (release r e (drop_node e.core s))
unfolding release
release-IsCounted r e s p f h =
    let a = h.at r e f in
    let c = count-remove_one e.core e.core s.live p in
    elim (Bool-cases (leb e.ref_count 1)) [
      | inl t ↦ rw t (record {
        at = λ q d k.
            let before : get_entry q s ≡ some d =
              ground (arith, get-delete block_ref_discrete r q s.nodes) in
            let n : r ≢ q =
              λ z. absurd (ground (arith, get-delete block_ref_discrete r q s.nodes)) in
            other_core e.core s (Map.delete block_ref_discrete r s.nodes) q d p
              (λ z. n (core_of_entry s r q e d h f before z)) (h.at q d before);
        known = h.known;
        live_known = All-remove_one e.core s.next_core s.live h.live_known;
      })
      | inr t ↦
          let less : CacheEntry = record e { ref_count = e.ref_count - 1 } in
          rw t (record {
            at = λ q d k. elim (block_ref_discrete r q) [
              | yes same ↦
                  let g : less ≡ d = ground (arith, get-put block_ref_discrete r q less s.nodes) in
                  subst (Counted (set_entry r less (drop_node e.core s)) q) g (record {
                    core = a.core;
                    found = a.found;
                    here = a.here ∙ same;
                    counted = ground (arith, a.counted);
                    positive = ground arith;
                  })
              | no other ↦
                  let before : get_entry q s ≡ some d =
                    ground (arith, get-put block_ref_discrete r q less s.nodes) in
                  other_core e.core s (Map.put block_ref_discrete r less s.nodes) q d p
                    (λ z. other (core_of_entry s r q e d h f before z)) (h.at q d before)
            ];
            known = h.known;
            live_known = All-remove_one e.core s.next_core s.live h.live_known;
          })
    ]

module _ (c : ℕ) (s : NodeCache) where
  pub finalize_no_core : get_core c s ≡ none → finalize c s ≡ drop_node c s
  unfolding finalize forget
  finalize_no_core m = ground arith

  module _ (core : NodeCore) (m : get_core c s ≡ some core) where
    pub finalize_no_entry :
        get_entry (ref core.path_node.pointer) s ≡ none → finalize c s ≡ drop_node c s
    unfolding finalize forget
    finalize_no_entry n = ground arith

    pub finalize_other :
        (e : CacheEntry)
        → get_entry (ref core.path_node.pointer) s ≡ some e
        → e.core ≢ c
        → finalize c s ≡ drop_node c s
    unfolding finalize forget
    finalize_other e n other = ground arith

    pub finalize_entry :
        (e : CacheEntry)
        → get_entry (ref core.path_node.pointer) s ≡ some e
        → e.core ≡ c
        → finalize c s ≡ release (ref core.path_node.pointer) e (drop_node e.core s)
    unfolding finalize forget
    finalize_entry e n same = ground arith

-- The finalizer of a live node keeps the counts.
pub finalize-IsCounted :
    (c : ℕ) (s : NodeCache) → 0 < count c s.live → IsCounted s → IsCounted (finalize c s)
finalize-IsCounted c s p h = elim (Option-cases (get_core c s)) [
  | inl m ↦
      let no_entry =
        no_entry-IsCounted c s p (λ q d k z. let b = h.at q d k in absurd (ground (arith, b.found)))
          h in
      rw (finalize_no_core c s m) no_entry
  | inr (core, m) ↦
      let r = ref core.path_node.pointer in
      let at_home : (q : BlockRef) (d : CacheEntry) → get_entry q s ≡ some d → d.core ≡ c → r ≡ q =
        λ q d k z.
          (let b = h.at q d k in
            let f : core ≡ b.core = ground (arith, b.found) in
            ap (λ (x : NodeCore). ref x.path_node.pointer) f ∙ b.here) in
      elim (Option-cases (get_entry r s)) [
        | inl n ↦
            rw (finalize_no_entry c s core m n)
              (no_entry-IsCounted c s p (λ q d k z. let w = at_home q d k z in absurd (cc)) h)
        | inr (e, n) ↦ elim (ℕ_discrete e.core c) [
          | yes same ↦
              rw (finalize_entry c s core m e n same)
                (release-IsCounted r e s (subst (λ x. 0 < count x s.live) (sym same) p) n h)
          | no other ↦ rw (finalize_other c s core m e n other) (
              no_entry-IsCounted c s p
                (λ q d k z. let w = at_home q d k z in absurd (other (ground (arith, w)))) h)
        ]
      ]
]
