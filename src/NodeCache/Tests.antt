-- ===== src/NodeCache/Tests.antt =====
-- The node cache at concrete inputs, and the theorems there.
use angelkey_kbfsbeta.Prelude.{ℕ, ◌≡◌, refl, some, [], ◌∷◌, arith, ℕ_discrete}
use angelkey_kbfsbeta.Prelude.Map
use angelkey_kbfsbeta.Data.{BlockRef, block_ref_discrete, BlockPointer, child_path}
use angelkey_kbfsbeta.NodeCache.{NodeCache, node, no_node, get_or_create, finalize, get_entry}
use angelkey_kbfsbeta.NodeCache.Walk.{path_from_node}
use angelkey_kbfsbeta.NodeCache.Counted.{IsCounted}
use angelkey_kbfsbeta.NodeCache.Released.{finalized}
use angelkey_kbfsbeta.NodeCache.Reach.{
  Reachable, start, next, create_step, finalize_step, new_node_cache, Reachable-IsCounted,
}
use angelkey_kbfsbeta.NodeCache.Paths.{path_from_node-get_or_create}

abbrev ptr : ℕ → BlockPointer
ptr n = record { id = n; key_gen = 1; data_ver = 1; creator = 3; writer = 0; ref_nonce = 0 }

abbrev root_cache : NodeCache
root_cache = (get_or_create (ptr 1) "root" no_node (new_node_cache 4 "")).1

abbrev child_cache : NodeCache
child_cache = (get_or_create (ptr 2) "a" (node 0) root_cache).1

Reachable-root_cache : Reachable root_cache
Reachable-root_cache = next (start 4 "") (create_step (ptr 1) "root" no_node refl)

root_live : root_cache.live ≡ 0 ∷ []
unfolding get_or_create angelkey_kbfsbeta.NodeCache.create_child angelkey_kbfsbeta.NodeCache.create
    angelkey_kbfsbeta.NodeCache.make_node Map.get Map.put ℕ_discrete block_ref_discrete
    angelkey_kbfsbeta.NodeCache.new_child_for_parent angelkey_kbfsbeta.NodeCache.is_replaced
root_live = refl

child_live : child_cache.live ≡ 1 ∷ 0 ∷ []
unfolding get_or_create angelkey_kbfsbeta.NodeCache.create_child angelkey_kbfsbeta.NodeCache.create
    angelkey_kbfsbeta.NodeCache.make_node Map.get Map.put ℕ_discrete block_ref_discrete
    angelkey_kbfsbeta.NodeCache.new_child_for_parent angelkey_kbfsbeta.NodeCache.is_replaced
child_live = refl

root_path :
    path_from_node 1 (node 0) root_cache
    ≡ some
        (record { tlf = 4; branch = ""; path = (record { pointer = ptr 1; name = "root" }) ∷ [] })
unfolding path_from_node angelkey_kbfsbeta.NodeCache.Walk.walk Map.get get_or_create Map.put
    ℕ_discrete block_ref_discrete
root_path = refl

Reachable-IsCounted_example :
    IsCounted (finalize 1 child_cache)
    × ((c : ℕ) (r : BlockRef)
        → get_entry r (finalize c (finalize 1 child_cache))
          ≡ finalized c (finalize 1 child_cache).live (get_entry r (finalize 1 child_cache)))
Reachable-IsCounted_example = Reachable-IsCounted (
    next (next Reachable-root_cache (create_step (ptr 2) "a" (node 0) refl))
      (finalize_step 1 (rw child_live (omega arith)) refl))

path_from_node-get_or_create_example :
    path_from_node 2 (node 1) child_cache
    ≡ some (record {
      tlf = 4;
      branch = "";
      path =
          (record { pointer = ptr 1; name = "root" })
          ∷ (record { pointer = ptr 2; name = "a" })
          ∷ [];
    })
unfolding child_path get_or_create Map.get Map.put block_ref_discrete ℕ_discrete
path_from_node-get_or_create_example =
    path_from_node-get_or_create 1 (ptr 2) "a" 0 1 root_cache
      (Reachable-IsCounted Reachable-root_cache).0 refl refl root_path
