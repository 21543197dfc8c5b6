-- ===== src/BlockCache/Tests.antt =====
-- A block cache over LRU caches of one entry, and the theorems there.
use angelkey_kbfsbeta.Prelude.{
  ℕ, suc, ◌+◌, ◌%◌, ◌^◌, ◌<◌, ◌≡◌, refl, ◌⊎◌, inl, ite, true, false, Option, none, some, List, [],
  ◌∷◌, arith, ℕ_discrete, length,
}
use angelkey_kbfsbeta.Prelude.Map
use angelkey_kbfsbeta.Prelude.Result.{ok}
use angelkey_kbfsbeta.Data.{BlockPointer, zero_ptr, zero_ref_nonce}
use angelkey_kbfsbeta.BlockCache.{
  get_cached_block_size, Lru, IdCacheKey, Block, FileBlock, file_block, other_block,
  transient_entry, permanent_entry, BlockCache, add64, sub64, new_block_cache_standard,
  evict_oldest, count_size, make_room_for_size, get_block, get_clean, put_dirty, delete_dirty,
  delete_permanent, is_dirty, dirty_bytes_estimate_of,
}
use angelkey_kbfsbeta.BlockCache.Clean.{put, check_for_known_ptr}
use angelkey_kbfsbeta.BlockCache.Room.{IsRoom, make_room_for_size_total}
use angelkey_kbfsbeta.BlockCache.Dirty.{
  IsEstimated, total_size, dirty_bytes_estimate_exact, get_block-put_dirty, if_same,
}
use angelkey_kbfsbeta.BlockCache.Known.{
  made_room, transient_left, check_for_known_ptr-put, put_again, put-delete_permanent,
}

module _ {K V : Type 0} (dec : Discrete K) where
  abbrev get_one : K → Option (K × V) → Option V × Option (K × V)
  get_one k none = (none, none)
  get_one k (some (j, v)) = (ite (dec j k) (some v) none, some (j, v))

  abbrev add_one : K → V → Option (K × V) → Option (K × V) × Option V
  add_one k v none = (some (k, v), none)
  add_one k v (some (j, w)) = (some (k, v), ite (dec j k) none (some w))

  abbrev remove_one : K → Option (K × V) → Option (K × V) × Option V
  remove_one k none = (none, none)
  remove_one k (some (j, w)) = ite (dec j k) (none, some w) (some (j, w), none)

  abbrev remove_last : Option (K × V) → Option (K × V) × Option V
  remove_last none = (none, none)
  remove_last (some (j, w)) = (none, some w)

  abbrev count : Option (K × V) → ℕ
  count none = 0
  count (some _) = 1

  get-add_one : (k : K) (v : V) (c : Option (K × V)) → (get_one k (add_one k v c).0).0 ≡ some v
  get-add_one k v none = ground arith
  get-add_one k v (some (j, w)) = ground arith

  add_one_present :
      (k : K) (v w : V) (c : Option (K × V))
      → (get_one k c).0 ≡ some w
      → ((add_one k v c).1 ≡ none) × (count (add_one k v c).0 ≡ count c)
  add_one_present k v w none e = absurd (cc e)
  add_one_present k v w (some (j, x)) e = (ground arith, refl)

  count-remove_last : (c : Option (K × V)) → 0 < count c → suc (count (remove_last c).0) ≡ count c
  count-remove_last none h = absurd (omega arith)
  count-remove_last (some (j, w)) h = refl

  remove_last_empty : (c : Option (K × V)) → count c ≡ 0 → remove_last c ≡ (c, none)
  remove_last_empty none h = refl
  remove_last_empty (some (j, w)) h = absurd (omega arith)

  -- An LRU cache of size 1.
  abbrev one_entry : Lru K V
  one_entry = record {
    Cache = Option (K × V);
    len = count;
    get = get_one;
    add = add_one;
    remove = remove_one;
    remove_oldest = remove_last;
    get-add = get-add_one;
    add_present = add_one_present;
    len-remove_oldest = count-remove_last;
    remove_oldest_empty = remove_last_empty;
  }

unfoldable id_cache_key_discrete : Discrete IdCacheKey
id_cache_key_discrete = hlevel ℕ_discrete

abbrev ids : Lru IdCacheKey BlockPointer
ids = one_entry id_cache_key_discrete

abbrev transient : Lru ℕ Block
transient = one_entry ℕ_discrete

abbrev hash : List ℕ → ℕ
hash contents = length contents

abbrev ptr : BlockPointer
ptr = record zero_ptr { id = 5; ref_nonce = 2 }

abbrev file : FileBlock
file = record { is_ind = false; contents = 1 ∷ 2 ∷ 3 ∷ []; encoded_size = 20 }

-- One block of 4 bytes, in a cache for 10.
abbrev cache : BlockCache ids.Cache transient.Cache
cache = record {
  clean_bytes_capacity = 10;
  ids = some none;
  clean_transient = some (some (5, other_block 4));
  clean_permanent = [];
  clean_total_bytes = 4;
  dirty = [];
  dirty_bytes_estimate = 0;
}

new_cache :
    new_block_cache_standard ids transient (some none) (some none) 10
    ≡ record cache { clean_transient = some none; clean_total_bytes = 0 }
unfolding new_block_cache_standard
new_cache = refl

make_room_for_size_total_example :
    (r : transient.Cache × ℕ) × (evict_oldest ids transient
        (transient.len (some (5, other_block 4)) + 2)
        10
        8
        (transient.len (some (5, other_block 4)) + 1)
        (some (5, other_block 4))
        4
      ≡ some r)
    × (make_room_for_size ids transient 8 cache ≡ count_size ids transient 8 r cache)
    × IsRoom ids transient 10 8 (make_room_for_size ids transient 8 cache)
make_room_for_size_total_example =
    make_room_for_size_total ids transient 8 cache (some (5, other_block 4)) refl

dirty_bytes_estimate_exact_example :
    ((dirty_bytes_estimate_of ids transient cache).0 ≡ total_size cache.dirty % 2 ^ 64)
    × IsEstimated ids transient (dirty_bytes_estimate_of ids transient cache).1
    × IsEstimated ids transient (put_dirty ids transient ptr "b" (file_block file) cache)
    × IsEstimated ids transient (delete_dirty ids transient ptr "b" cache)
dirty_bytes_estimate_exact_example =
    dirty_bytes_estimate_exact ids transient cache ptr "b" (file_block file) (inl refl)

get_block-put_dirty_example :
    ((get_block ids transient ptr "c" (put_dirty ids transient ptr "b" (file_block file) cache)).0
      ≡ if_same ptr ptr "b" "c" (ok (file_block file)) (get_block ids transient ptr "c" cache).0)
    × ((get_block ids transient ptr "c" (delete_dirty ids transient ptr "b" cache)).0
        ≡ if_same ptr ptr "b" "c"
            (get_clean ids transient ptr.id cache).0
            (get_block ids transient ptr "c" cache).0)
    × (is_dirty ids transient ptr "c" (put_dirty ids transient ptr "b" (file_block file) cache)
        ≡ if_same ptr ptr "b" "c" true (is_dirty ids transient ptr "c" cache))
    × (is_dirty ids transient ptr "c" (delete_dirty ids transient ptr "b" cache)
        ≡ if_same ptr ptr "b" "c" false (is_dirty ids transient ptr "c" cache))
get_block-put_dirty_example =
    get_block-put_dirty ids transient ptr ptr "b" "c" (file_block file) cache

check_for_known_ptr-put_example :
    (c' : BlockCache ids.Cache transient.Cache) × (put ids transient hash ptr 1
        (file_block file)
        transient_entry
        cache
      ≡ ok c')
    × ((check_for_known_ptr ids transient hash 1 file c').0
        ≡ ok (record ptr { ref_nonce = zero_ref_nonce }))
    × ((made_room ids transient hash file ptr 1 cache ≡ true)
        ⊎ (c'.clean_transient ≡ transient_left ids transient hash file ptr 1 cache))
check_for_known_ptr-put_example =
    check_for_known_ptr-put ids transient hash ptr 1 file file cache none refl refl refl refl

put_again_counted :
    (c' : BlockCache ids.Cache transient.Cache) × (t' : transient.Cache) × (put ids transient hash
        ptr 1
        (other_block 4)
        transient_entry
        cache
      ≡ ok c')
    × (c'.clean_transient ≡ some t')
    × (transient.len t' ≡ transient.len (some (5, other_block 4)))
    × (c'.clean_total_bytes ≡ add64 4 4)
put_again_counted =
    put_again ids transient hash ptr 1 4 cache (some (5, other_block 4)) refl transient_hit
      (omega arith)
  where
    transient_hit : (transient.get 5 (some (5, other_block 4))).0 ≡ some (other_block 4)
    transient_hit = unfold ℕ_discrete in refl

abbrev empty_cache : BlockCache ids.Cache transient.Cache
empty_cache = record cache { clean_transient = some none; clean_total_bytes = 0 }

put-delete_permanent_example :
    (c' : BlockCache ids.Cache transient.Cache) × (put ids transient hash ptr 1
        (other_block 12)
        permanent_entry
        empty_cache
      ≡ ok c')
    × (c'.clean_total_bytes ≡ 0)
    × (Map.get ℕ_discrete 5 c'.clean_permanent ≡ some (other_block 12))
    × ((delete_permanent ids transient 5 c').clean_total_bytes ≡ sub64 0 12)
unfolding get_cached_block_size
put-delete_permanent_example =
    put-delete_permanent ids transient hash ptr 1 (other_block 12) empty_cache none refl refl
      (omega arith)
