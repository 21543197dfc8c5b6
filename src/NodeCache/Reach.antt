-- ===== src/NodeCache/Reach.antt =====
-- node_cache.go: the states that the methods of the cache and the finalizers of its nodes reach.
use angelkey_kbfsbeta.Prelude.{ℕ, ◌<◌, ◌≡◌, subst, []}
use Prim.Native.String.{String}
use angelkey_kbfsbeta.Prelude.Result.{ok}
use angelkey_kbfsbeta.Prelude.Map
use angelkey_kbfsbeta.Prelude.Map.{Map}
use angelkey_kbfsbeta.Data.{BlockRef, BlockPointer, FilePath}
use angelkey_kbfsbeta.NodeCache.{
  Node, NodeCache, get_or_create, get_node, update_pointer, move_node, unlink, finalize, get_entry,
}
use angelkey_kbfsbeta.NodeCache.Counted.{count, IsCounted}
use angelkey_kbfsbeta.NodeCache.Steps.{finalize-IsCounted}
use angelkey_kbfsbeta.NodeCache.Released.{finalized, get_entry-finalize}
use angelkey_kbfsbeta.NodeCache.Methods.{
  update_pointer-IsCounted, unlink-IsCounted, move_node-IsCounted, get_node-IsCounted,
  get_or_create-IsCounted,
}

-- A call of a method, and the finalizer of a live node.
pub data Step (s : NodeCache) : NodeCache → Type 0 where
  create_step :
      (ptr : BlockPointer) (name : String) (parent : Node) {s' : NodeCache}
      → (get_or_create ptr name parent s).1 ≡ s'
      → Step s s'
  get_step : (r : BlockRef) {s' : NodeCache} → (get_node r s).1 ≡ s' → Step s s'
  update_step :
      (old : BlockRef) (new : BlockPointer) {s' : NodeCache}
      → update_pointer old new s ≡ ok s'
      → Step s s'
  move_step :
      (r : BlockRef) (parent : Node) (name : String) {s' : NodeCache}
      → move_node r parent name s ≡ ok s'
      → Step s s'
  unlink_step :
      (r : BlockRef) (old_path : FilePath) {s' : NodeCache}
      → unlink r old_path s ≡ ok s'
      → Step s s'
  finalize_step : (c : ℕ) {s' : NodeCache} → 0 < count c s.live → finalize c s ≡ s' → Step s s'

-- newNodeCacheStandard
abbrev pub new_node_cache : ℕ → String → NodeCache
new_node_cache tlf branch = record {
  tlf = tlf;
  branch = branch;
  nodes = [];
  cores = [];
  next_core = 0;
  live = [];
}

pub data Reachable : NodeCache → Type 0 where
  start : (tlf : ℕ) (branch : String) → Reachable (new_node_cache tlf branch)
  next : {s s' : NodeCache} → Reachable s → Step s s' → Reachable s'

Step-IsCounted : {s s' : NodeCache} → Step s s' → IsCounted s → IsCounted s'
Step-IsCounted {s} (create_step ptr name parent e) h =
    subst IsCounted e (get_or_create-IsCounted ptr name parent s h)
Step-IsCounted {s} (get_step r e) h = subst IsCounted e (get_node-IsCounted r s h)
Step-IsCounted {s} (update_step old new e) h = update_pointer-IsCounted old new s e h
Step-IsCounted {s} (move_step r parent name e) h = move_node-IsCounted r parent name s e h
Step-IsCounted {s} (unlink_step r old_path e) h = unlink-IsCounted r old_path s e h
Step-IsCounted {s} (finalize_step c p e) h = subst IsCounted e (finalize-IsCounted c s p h)

Reachable-counts : {s : NodeCache} → Reachable s → IsCounted s
Reachable-counts (start tlf branch) = record {
  at = λ r e k. unfold Map.get in cc;
  known = λ c core k. unfold Map.get in cc;
  live_known = tt;
}
Reachable-counts (next r st) = Step-IsCounted st (Reachable-counts r)

-- In every state that calls of the cache's methods and finalizers of live nodes reach from the new
-- cache, each entry stands at the reference of its core's pointer, and its count is positive and the
-- number of live nodes of that core. There the finalizer of a node changes the entry of the node's
-- core only: it counts the entry down while the core has another live node, and removes it with the
-- last one.
pub Reachable-IsCounted :
    {s : NodeCache}
    → Reachable s
    → IsCounted s
      × ((c : ℕ) (r : BlockRef) → get_entry r (finalize c s) ≡ finalized c s.live (get_entry r s))
Reachable-IsCounted {s} r = let h = Reachable-counts r in (h, λ c q. get_entry-finalize c q s h)
