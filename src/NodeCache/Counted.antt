-- ===== src/NodeCache/Counted.antt =====
-- node_cache.go: the reference counts of the cache.
use angelkey_kbfsbeta.Prelude.{
  ℕ, ◌+◌, ◌<◌, ◌≡◌, refl, sym, ap, ◌∙◌, subst, ite, Option, some, List, ◌∷◌, arith, ℕ_discrete,
  ◌==◌, if◌then◌else◌, All, [],
}
use Prim.Native.String.{String}
use angelkey_kbfsbeta.Prelude.Map
use angelkey_kbfsbeta.Prelude.Map.{Map, get-put, get-delete}
use angelkey_kbfsbeta.Data.{BlockRef, block_ref_discrete, BlockPointer, ref}
use angelkey_kbfsbeta.NodeCache.{
  NodeCore, CacheEntry, NodeCache, get_entry, get_core, set_core, delete_entry, make_node, create,
}

abbrev pub count : ℕ → List ℕ → ℕ
count c [] = 0
count c (d ∷ r) = (if d == c then 1 else 0) + count c r

-- The entry stands at the reference of its core's pointer, and counts the live nodes of the core.
pub record Counted (s : NodeCache) (r : BlockRef) (e : CacheEntry) : Type 0 where
  pub core : NodeCore
  pub found : get_core e.core s ≡ some core
  pub here : ref core.path_node.pointer ≡ r
  pub counted : e.ref_count ≡ count e.core s.live
  pub positive : 0 < e.ref_count

pub record IsCounted (s : NodeCache) : Type 0 where
  pub at : (r : BlockRef) (e : CacheEntry) → get_entry r s ≡ some e → Counted s r e
  pub known : (c : ℕ) (core : NodeCore) → get_core c s ≡ some core → c < s.next_core
  pub live_known : All (λ c. c < s.next_core) s.live

-- Entries at different references have different cores.
pub core_of_entry :
    (s : NodeCache) (r q : BlockRef) (e d : CacheEntry)
    → IsCounted s
    → get_entry r s ≡ some e
    → get_entry q s ≡ some d
    → d.core ≡ e.core
    → r ≡ q
core_of_entry s r q e d h p k same =
    let a = h.at r e p in
    let b = h.at q d k in
    let f : a.core ≡ b.core = ground (arith, a.found, b.found) in
    sym a.here ∙ ap (λ (c : NodeCore). ref c.path_node.pointer) f ∙ b.here

count_fresh : (c : ℕ) (l : List ℕ) → All (λ d. d < c) l → count c l ≡ 0
count_fresh c [] h = refl
count_fresh c (d ∷ r) h = ground (arith, h.0, count_fresh c r h.1)

pub make_node-IsCounted :
    (r : BlockRef) (e : CacheEntry) (s : NodeCache)
    → get_entry r s ≡ some e
    → IsCounted s
    → IsCounted (make_node r e s).1
unfolding make_node
make_node-IsCounted r e s p h =
    let a = h.at r e p in
    record {
      at = λ q d k. elim (block_ref_discrete r q) [
        | yes same ↦
            let f : record e { ref_count = e.ref_count + 1 } ≡ d = ground (
              arith,
              get-put block_ref_discrete r q (record e { ref_count = e.ref_count + 1 }) s.nodes,
            ) in
            subst (Counted (make_node r e s).1 q) f (record {
              core = a.core;
              found = a.found;
              here = a.here ∙ same;
              counted = ground (arith, a.counted);
              positive = omega arith;
            })
        | no other ↦
            let old : get_entry q s ≡ some d = ground (
              arith,
              get-put block_ref_discrete r q (record e { ref_count = e.ref_count + 1 }) s.nodes,
            ) in
            let b = h.at q d old in
            record {
              core = b.core;
              found = b.found;
              here = b.here;
              counted = ground (
                arith,
                b.counted,
                λ (z : d.core ≡ e.core). other (core_of_entry s r q e d h p old z),
              );
              positive = b.positive;
            }
      ];
      known = h.known;
      live_known = (h.known e.core a.core a.found, h.live_known);
    }

abbrev pub new_core : BlockPointer → String → Option ℕ → NodeCore
new_core ptr name parent = record {
  path_node = record { pointer = ptr; name = name };
  parent = parent;
  cached_path = record { tlf = 0; branch = ""; path = [] };
}

abbrev pub new_entry : ℕ → ℕ → CacheEntry
new_entry c n = record { core = c; ref_count = n }

pub get_entry-create :
    (ptr : BlockPointer) (name : String) (parent : Option ℕ) (s : NodeCache) (q : BlockRef)
    → get_entry q (create ptr name parent s).1
      ≡ ite (block_ref_discrete (ref ptr) q) (some (new_entry s.next_core 1)) (get_entry q s)
unfolding create make_node
get_entry-create ptr name parent s q =
    let c = s.next_core in
    let m = Map.put block_ref_discrete (ref ptr) (new_entry c 0) s.nodes in
    ground (
      arith,
      get-put block_ref_discrete (ref ptr) q (new_entry c 1) m,
      get-put block_ref_discrete (ref ptr) q (new_entry c 0) s.nodes,
    )

pub get_core-create :
    (ptr : BlockPointer) (name : String) (parent : Option ℕ) (s : NodeCache) (d : ℕ)
    → get_core d (create ptr name parent s).1
      ≡ ite (ℕ_discrete s.next_core d) (some (new_core ptr name parent)) (get_core d s)
unfolding create make_node
get_core-create ptr name parent s d =
    get-put ℕ_discrete s.next_core d (new_core ptr name parent) s.cores

-- A new core, with an entry at its reference in place of any other, and one live node.
pub create-IsCounted :
    (ptr : BlockPointer) (name : String) (parent : Option ℕ) (s : NodeCache)
    → IsCounted s
    → IsCounted (create ptr name parent s).1
unfolding create make_node
create-IsCounted ptr name parent s h =
    let c = s.next_core in
    let zero_count = count_fresh c s.live h.live_known in
    record {
      at = λ q d k. elim (block_ref_discrete (ref ptr) q) [
        | yes same ↦
            let e : CacheEntry = record { core = c; ref_count = 1 } in
            let f : e ≡ d = ground (arith, get_entry-create ptr name parent s q) in
            subst (Counted (create ptr name parent s).1 q) f (record {
              core = record {
                path_node = record { pointer = ptr; name = name };
                parent = parent;
                cached_path = record { tlf = 0; branch = ""; path = [] };
              };
              found = ground (arith, get_core-create ptr name parent s c);
              here = same;
              counted = ground (arith, zero_count);
              positive = omega arith;
            })
        | no other ↦
            let old : get_entry q s ≡ some d =
              ground (arith, get_entry-create ptr name parent s q) in
            let b = h.at q d old in
            let l = h.known d.core b.core b.found in
            record {
              core = b.core;
              found = ground (arith, b.found, get_core-create ptr name parent s d.core);
              here = b.here;
              counted = ground (arith, b.counted);
              positive = b.positive;
            }
      ];
      known = λ d core k. ground (arith, get_core-create ptr name parent s d, h.known d core);
      live_known = (omega arith, All-weaken s.live h.live_known);
    }
  where
    All-weaken : (l : List ℕ) → All (λ d. d < s.next_core) l → All (λ d. d < s.next_core + 1) l
    All-weaken [] a = tt
    All-weaken (d ∷ r) a = (omega (arith, a.0), All-weaken r a.1)

pub delete_entry-IsCounted :
    (r : BlockRef) (s : NodeCache) → IsCounted s → IsCounted (delete_entry r s)
delete_entry-IsCounted r s h = record {
  at = λ q d k.
      let old : get_entry q s ≡ some d =
        ground (arith, get-delete block_ref_discrete r q s.nodes) in
      let b = h.at q d old in
      record {
        core = b.core;
        found = b.found;
        here = b.here;
        counted = b.counted;
        positive = b.positive;
      };
  known = h.known;
  live_known = h.live_known;
}

-- A change of a core that keeps its pointer.
pub set_core-IsCounted :
    (c : ℕ) (old new : NodeCore) (s : NodeCache)
    → get_core c s ≡ some old
    → ref new.path_node.pointer ≡ ref old.path_node.pointer
    → IsCounted s
    → IsCounted (set_core c new s)
set_core-IsCounted c old new s p same h = record {
  at = λ q d k.
      let b = h.at q d k in
      elim (ℕ_discrete c d.core) [
        | yes e ↦ record {
          core = new;
          found = ground (arith, get-put ℕ_discrete c d.core new s.cores);
          here = same ∙ ground (arith, b.found, b.here);
          counted = b.counted;
          positive = b.positive;
        }
        | no n ↦ record {
          core = b.core;
          found = ground (arith, b.found, get-put ℕ_discrete c d.core new s.cores);
          here = b.here;
          counted = b.counted;
          positive = b.positive;
        }
      ];
  known = λ d core k.
      ground (arith, get-put ℕ_discrete c d new s.cores, h.known d core, h.known c old p);
  live_known = h.live_known;
}
