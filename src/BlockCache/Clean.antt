-- ===== src/BlockCache/Clean.antt =====
-- libkbfs/bcache.go: Put, and the operations on the pointers that are known by the hash of a block.
use angelkey_kbfsbeta.Prelude.{ℕ, none, some, List, ℕ_discrete, if◌then◌else◌}
use angelkey_kbfsbeta.Prelude.Result.{Result, ok, err}
use angelkey_kbfsbeta.Prelude.Map
use angelkey_kbfsbeta.Data.{BlockPointer, zero_ptr, zero_ref_nonce}
use angelkey_kbfsbeta.BlockCache.{
  Lru, IdCacheKey, Block, FileBlock, file_block, other_block, Lifetime, transient_entry,
  permanent_entry, other_lifetime, CacheError, not_direct_file_block, unknown_lifetime, BlockCache,
  get_cached_block_size, on_evict, make_room_for_size,
}

-- DoRawDefaultHash is the parameter `hash`.
module _ (ids : Lru IdCacheKey BlockPointer) (transient : Lru ℕ Block) (hash : List ℕ → ℕ) where
  abbrev pub key_of : ℕ → FileBlock → IdCacheKey
  key_of tlf f = record { tlf = tlf; plaintext_hash = hash f.contents }

  unfoldable pub check_for_known_ptr :
      ℕ
      → FileBlock
      → BlockCache ids.Cache transient.Cache
      → Result CacheError BlockPointer × BlockCache ids.Cache transient.Cache
  check_for_known_ptr tlf f c = if f.is_ind then (err not_direct_file_block, c) else (elim c.ids [
    | none ↦ (ok zero_ptr, c)
    | some i ↦
        let (found, i') = ids.get (key_of tlf f) i in
        (elim found [ none ↦ ok zero_ptr | some ptr ↦ ok ptr ], record c { ids = some i' })
  ])

  -- The hash of a direct file block leads to the pointer without its nonce.
  unfoldable pub add_known :
      BlockPointer
      → ℕ
      → Block
      → BlockCache ids.Cache transient.Cache
      → BlockCache ids.Cache transient.Cache
  add_known ptr tlf (other_block n) c = c
  add_known ptr tlf (file_block f) c = if f.is_ind then c else (elim c.ids [
    | none ↦ c
    | some i ↦ record c {
      ids = some (ids.add (key_of tlf f) (record ptr { ref_nonce = zero_ref_nonce }) i).0;
    }
  ])

  unfoldable pub add_transient :
      ℕ → Block → BlockCache ids.Cache transient.Cache → BlockCache ids.Cache transient.Cache
  unfolding on_evict
  add_transient id block c = elim c.clean_transient [
    | none ↦ c
    | some t ↦
        let (t', evicted) = transient.add id block t in
        record c {
          clean_transient = some t';
          clean_total_bytes = on_evict evicted c.clean_total_bytes;
        }
  ]

  unfoldable pub put :
      BlockPointer
      → ℕ
      → Block
      → Lifetime
      → BlockCache ids.Cache transient.Cache
      → Result CacheError (BlockCache ids.Cache transient.Cache)
  unfolding add_known add_transient make_room_for_size get_cached_block_size Map.put
  put ptr tlf block transient_entry c =
      let (made_room, c') =
        make_room_for_size ids transient (get_cached_block_size block)
          (add_known ptr tlf block c) in
      ok (if made_room then add_transient ptr.id block c' else c')
  put ptr tlf block permanent_entry c =
      ok
        (make_room_for_size ids transient (get_cached_block_size block)
          (record c { clean_permanent = Map.put ℕ_discrete ptr.id block c.clean_permanent })).1
  put ptr tlf block other_lifetime c = err unknown_lifetime

  unfoldable pub forget_key :
      ℕ → Block → BlockCache ids.Cache transient.Cache → BlockCache ids.Cache transient.Cache
  forget_key tlf (other_block n) c = c
  forget_key tlf (file_block f) c = if f.is_ind then c else (elim c.ids [
    | none ↦ c
    | some i ↦ record c { ids = some (ids.remove (key_of tlf f) i).0 }
  ])

  -- DeleteTransient, once the block is found.
  unfoldable pub remove_transient :
      ℕ
      → ℕ
      → Block
      → transient.Cache
      → BlockCache ids.Cache transient.Cache
      → BlockCache ids.Cache transient.Cache
  unfolding forget_key on_evict
  remove_transient id tlf block t c =
      let (t', evicted) = transient.remove id t in
      record (forget_key tlf block c) {
        clean_transient = some t';
        clean_total_bytes = on_evict evicted c.clean_total_bytes;
      }

  unfoldable pub delete_transient :
      BlockPointer → ℕ → BlockCache ids.Cache transient.Cache → BlockCache ids.Cache transient.Cache
  unfolding remove_transient
  delete_transient ptr tlf c = elim c.clean_transient [
    | none ↦ c
    | some t ↦
        let (found, t') = transient.get ptr.id t in
        elim found [
          | none ↦ record c { clean_transient = some t' }
          | some block ↦ remove_transient ptr.id tlf block t' c
        ]
  ]

  unfoldable pub delete_known_ptr :
      ℕ
      → FileBlock
      → BlockCache ids.Cache transient.Cache
      → Result CacheError (BlockCache ids.Cache transient.Cache)
  unfolding forget_key
  delete_known_ptr tlf f c =
      if f.is_ind then err not_direct_file_block else ok (forget_key tlf (file_block f) c)
