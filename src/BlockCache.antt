-- ===== src/BlockCache.antt =====
-- libkbfs/bcache.go: BlockCacheStandard. The LRU caches and the hash are parameters. A method returns
-- the cache that it leaves beside its result.
pub mod Room
pub mod Dirty
pub mod Clean
pub mod Known
mod Tests
use angelkey_kbfsbeta.Prelude.{
  ℕ, zero, suc, ◌+◌, ◌-◌, ◌%◌, ◌^◌, ◌<◌, ◌≡◌, Bool, true, false, not, ◌&&◌, Option, none, some,
  List, [], ◌∷◌, ℕ_discrete, ltb, ◌==◌, if◌then◌else◌, length, string_discrete,
}
use Prim.Native.String.{String}
use angelkey_kbfsbeta.Prelude.Result.{Result, ok, err}
use angelkey_kbfsbeta.Prelude.Map
use angelkey_kbfsbeta.Prelude.Map.{Map}
use angelkey_kbfsbeta.Data.{BlockPointer}

-- An LRU cache of golang-lru. `add` and the removals also give the value that the eviction callback
-- gets: that of an entry which left the cache.
pub record Lru (K V : Type 0) : Type 1 where
  pub Cache : Type 0
  pub len : Cache → ℕ
  pub get : K → Cache → Option V × Cache
  pub add : K → V → Cache → Cache × Option V
  pub remove : K → Cache → Cache × Option V
  pub remove_oldest : Cache → Cache × Option V
  pub get-add : (k : K) (v : V) (c : Cache) → (get k (add k v c).0).0 ≡ some v
  pub add_present :
      (k : K) (v w : V) (c : Cache)
      → (get k c).0 ≡ some w
      → ((add k v c).1 ≡ none) × (len (add k v c).0 ≡ len c)
  pub len-remove_oldest : (c : Cache) → 0 < len c → suc (len (remove_oldest c).0) ≡ len c
  pub remove_oldest_empty : (c : Cache) → len c ≡ 0 → remove_oldest c ≡ (c, none)

pub record FileBlock : Type 0 where
  pub is_ind : Bool
  pub contents : List ℕ
  pub encoded_size : ℕ

-- A block is a file block, or another one of which the cache reads the encoded size only. Blocks are
-- values: changes that users make in place to a dirty block between calls are left out.
pub data Block : Type 0 where
  file_block : FileBlock → Block
  other_block : ℕ → Block

pub record DirtyBlockId : Type 0 where
  pub id : ℕ
  pub ref_nonce : ℕ
  pub branch : String

unfoldable pub dirty_block_id_discrete : Discrete DirtyBlockId
dirty_block_id_discrete = hlevel (ℕ_discrete, string_discrete)

pub record IdCacheKey : Type 0 where
  pub tlf : ℕ
  pub plaintext_hash : ℕ

pub data Lifetime : Type 0 where
  transient_entry permanent_entry other_lifetime : Lifetime

abbrev pub is_transient : Lifetime → Bool
is_transient transient_entry = true
is_transient _ = false

pub data CacheError : Type 0 where
  no_such_block : ℕ → CacheError
  not_direct_file_block unknown_lifetime : CacheError

-- BlockCacheStandard, over the types of its two LRU caches, which are nil for a capacity of 0.
pub record BlockCache (Ids Transient : Type 0) : Type 0 where
  pub clean_bytes_capacity : ℕ
  pub ids : Option Ids
  pub clean_transient : Option Transient
  pub clean_permanent : Map ℕ Block
  pub clean_total_bytes : ℕ
  pub dirty : Map DirtyBlockId Block
  pub dirty_bytes_estimate : ℕ

-- uint64 arithmetic.
abbrev pub add64 : ℕ → ℕ → ℕ
add64 a b = (a + b) % 2 ^ 64

abbrev pub sub64 : ℕ → ℕ → ℕ
sub64 a b = (a + 2 ^ 64 - b) % 2 ^ 64

-- A uint32.
unfoldable pub get_cached_block_size : Block → ℕ
get_cached_block_size (file_block f) =
    if f.is_ind then f.encoded_size else length f.contents % 2 ^ 32
get_cached_block_size (other_block encoded_size) = encoded_size

abbrev pub dirty_id : BlockPointer → String → DirtyBlockId
dirty_id ptr branch = record { id = ptr.id; ref_nonce = ptr.ref_nonce; branch = branch }

-- What onEvict subtracts.
unfoldable pub on_evict : Option Block → ℕ → ℕ
unfolding get_cached_block_size
on_evict none total = total
on_evict (some block) total = sub64 total (get_cached_block_size block)

module _ (ids : Lru IdCacheKey BlockPointer) (transient : Lru ℕ Block) where
  abbrev pub BlockCacheStandard : Type 0
  BlockCacheStandard = BlockCache ids.Cache transient.Cache

  -- NewBlockCacheStandard, with the LRU caches that it makes.
  unfoldable pub new_block_cache_standard :
      Option ids.Cache → Option transient.Cache → ℕ → BlockCacheStandard
  new_block_cache_standard i t capacity = record {
    clean_bytes_capacity = capacity;
    ids = i;
    clean_transient = t;
    clean_permanent = [];
    clean_total_bytes = 0;
    dirty = [];
    dirty_bytes_estimate = 0;
  }

  unfoldable pub get_permanent : ℕ → BlockCacheStandard → Result CacheError Block
  unfolding Map.get
  get_permanent id c = elim (Map.get ℕ_discrete id c.clean_permanent) [
    | none ↦ err (no_such_block id)
    | some block ↦ ok block
  ]

  -- A read of the transient cache makes the entry the newest one.
  unfoldable pub get_clean : ℕ → BlockCacheStandard → Result CacheError Block × BlockCacheStandard
  unfolding get_permanent
  get_clean id c = elim c.clean_transient [
    | none ↦ (get_permanent id c, c)
    | some t ↦
        let (found, t') = transient.get id t in
        (
          elim found [ none ↦ get_permanent id c | some block ↦ ok block ],
          record c { clean_transient = some t' },
        )
  ]

  unfoldable pub get_block :
      BlockPointer → String → BlockCacheStandard → Result CacheError Block × BlockCacheStandard
  unfolding get_clean Map.get
  get_block ptr branch c = elim (Map.get dirty_block_id_discrete (dirty_id ptr branch) c.dirty) [
    | some block ↦ (ok block, c)
    | none ↦ get_clean ptr.id c
  ]

  -- The loop of makeRoomForSize, over the transient cache and the byte count. `none` means that the
  -- fuel ran out.
  unfoldable pub evict_oldest : ℕ → ℕ → ℕ → ℕ → transient.Cache → ℕ → Option (transient.Cache × ℕ)
  unfolding on_evict
  evict_oldest zero capacity size old_len t total = none
  evict_oldest (suc fuel) capacity size old_len t total =
      let rest =
        evict_oldest fuel capacity size (transient.len t) (transient.remove_oldest t).0
          (on_evict (transient.remove_oldest t).1 total) in
      if ltb capacity (add64 total size) && not (old_len == transient.len t)
      then rest
      else some (t, total)

  -- After the loop, the size is counted if there is room.
  unfoldable pub count_size :
      ℕ → transient.Cache × ℕ → BlockCacheStandard → Bool × BlockCacheStandard
  count_size size (t, total) c =
      if ltb c.clean_bytes_capacity (add64 total size)
      then (false, record c { clean_transient = some t; clean_total_bytes = total })
      else (true, record c { clean_transient = some t; clean_total_bytes = add64 total size })

  unfoldable pub make_room_for_size : ℕ → BlockCacheStandard → Bool × BlockCacheStandard
  unfolding evict_oldest count_size
  make_room_for_size size c = elim c.clean_transient [
    | none ↦ (false, c)
    | some t ↦
        elim (evict_oldest (transient.len t + 2) c.clean_bytes_capacity size (transient.len t + 1) t
          c.clean_total_bytes) [ none ↦ (false, c) | some left ↦ count_size size left c ]
  ]

  unfoldable pub put_dirty : BlockPointer → String → Block → BlockCacheStandard → BlockCacheStandard
  unfolding Map.put
  put_dirty ptr branch block c = record c {
    dirty = Map.put dirty_block_id_discrete (dirty_id ptr branch) block c.dirty;
    dirty_bytes_estimate = 0;
  }

  unfoldable pub delete_dirty : BlockPointer → String → BlockCacheStandard → BlockCacheStandard
  unfolding Map.delete
  delete_dirty ptr branch c = record c {
    dirty = Map.delete dirty_block_id_discrete (dirty_id ptr branch) c.dirty;
    dirty_bytes_estimate = 0;
  }

  unfoldable pub is_dirty : BlockPointer → String → BlockCacheStandard → Bool
  unfolding Map.get
  is_dirty ptr branch c = elim (Map.get dirty_block_id_discrete (dirty_id ptr branch) c.dirty) [
    | none ↦ false
    | some _ ↦ true
  ]

  unfoldable pub delete_permanent : ℕ → BlockCacheStandard → BlockCacheStandard
  unfolding Map.get Map.delete get_cached_block_size
  delete_permanent id c = elim (Map.get ℕ_discrete id c.clean_permanent) [
    | none ↦ c
    | some block ↦ record c {
      clean_permanent = Map.delete ℕ_discrete id c.clean_permanent;
      clean_total_bytes = sub64 c.clean_total_bytes (get_cached_block_size block);
    }
  ]

  -- The loop of DirtyBytesEstimate.
  unfoldable pub add_sizes : ℕ → Map DirtyBlockId Block → ℕ
  unfolding get_cached_block_size
  add_sizes total [] = total
  add_sizes total ((_, block) ∷ r) = add_sizes (add64 total (get_cached_block_size block)) r

  unfoldable pub dirty_bytes_estimate_of : BlockCacheStandard → ℕ × BlockCacheStandard
  unfolding add_sizes
  dirty_bytes_estimate_of c =
      let estimate =
        if c.dirty_bytes_estimate == 0
        then add_sizes c.dirty_bytes_estimate c.dirty
        else c.dirty_bytes_estimate in
      (estimate, record c { dirty_bytes_estimate = estimate })
