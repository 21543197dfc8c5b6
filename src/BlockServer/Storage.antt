-- ===== src/BlockServer/Storage.antt =====
-- libkbfs/bserver_local_storage.go: bserverFileStorage and bserverLeveldbStorage. Their methods differ
-- in getLocked, putLocked and the removal of a block only, which are an interface here.
use angelkey_kbfsbeta.Prelude.{ℕ, ◌≡◌, ◌≢◌, none, some, ℕ_discrete, ◌==◌, if◌then◌else◌, length}
use angelkey_kbfsbeta.Prelude.Result.{Result, ok, err, ◌>>=◌}
use angelkey_kbfsbeta.Prelude.Map
use angelkey_kbfsbeta.Prelude.Map.{Map}
use angelkey_kbfsbeta.BlockServer.{
  BlockEntry, BserverError, RefStatus, block_non_existent, block_archived, live_block_ref,
  archived_block_ref, any_live,
}

-- A missing file or key (os.IsNotExist, leveldb.ErrNotFound), or another error.
pub data StoreError : Type 0 where
  not_found failed : StoreError

pub data StorageError : Type 0 where
  server : BserverError → StorageError
  store_failed unimplemented : StorageError

pub record BlockStore : Type 1 where
  pub Store : Type 0
  pub get_locked : ℕ → Store → Result StoreError BlockEntry
  pub put_locked : ℕ → BlockEntry → Store → Result StoreError Store
  pub remove : ℕ → Store → Result StoreError Store
  -- A block that is put is there, and one that is removed is not; other blocks stay.
  pub put_lem :
      (id : ℕ) (e : BlockEntry) (s : Store)
      → (t : Store) × (put_locked id e s ≡ ok t)
        × (get_locked id t ≡ ok e)
        × ((j : ℕ) → id ≢ j → get_locked j t ≡ get_locked j s)
  pub remove_lem :
      (id : ℕ) (e : BlockEntry) (s : Store)
      → get_locked id s ≡ ok e
      → (t : Store) × (remove id s ≡ ok t)
        × (get_locked id t ≡ err not_found)
        × ((j : ℕ) → id ≢ j → get_locked j t ≡ get_locked j s)

-- An error of the store, where the block's absence is the server's error.
abbrev pub missing : StoreError → StorageError
missing not_found = server block_non_existent
missing failed = store_failed

abbrev pub or_failed : {A : Type 0} → Result StoreError A → Result StorageError A
or_failed (ok a) = ok a
or_failed (err _) = err store_failed

module _ (b : BlockStore) where
  open b use {Store, get_locked, put_locked, remove}

  unfoldable pub storage_get : ℕ → Store → Result StorageError BlockEntry
  storage_get id s = elim (get_locked id s) [ ok e ↦ ok e | err x ↦ err (missing x) ]

  unfoldable pub storage_get_all : ℕ → Store → Result StorageError (Map ℕ (Map ℕ RefStatus))
  storage_get_all tlf s = err unimplemented

  unfoldable pub storage_put : ℕ → BlockEntry → Store → Result StorageError Store
  storage_put id e s = or_failed (put_locked id e s)

  unfoldable pub storage_add_reference : ℕ → ℕ → Store → Result StorageError Store
  unfolding storage_get any_live Map.put
  storage_add_reference id nonce s = do
    e ← storage_get id s
    if any_live e.refs
        then or_failed
            (put_locked id (record e { refs = Map.put ℕ_discrete nonce live_block_ref e.refs }) s)
        else err (server block_archived)

  -- The number of references that are left, and the storage.
  unfoldable pub storage_remove_from : ℕ → ℕ → BlockEntry → Store → Result StorageError (ℕ × Store)
  unfolding Map.delete
  storage_remove_from id nonce e s = do
    let refs = Map.delete ℕ_discrete nonce e.refs
    s' ←
        (if length refs == 0
          then or_failed (remove id s)
          else or_failed (put_locked id (record e { refs = refs }) s))
    ok (length refs, s')

  unfoldable pub storage_remove_reference : ℕ → ℕ → Store → Result StorageError (ℕ × Store)
  unfolding storage_remove_from
  storage_remove_reference id nonce s = elim (get_locked id s) [
    | ok e ↦ storage_remove_from id nonce e s
    | err x ↦ elim x [ not_found ↦ ok (0, s) | failed ↦ err store_failed ]
  ]

  -- archiveReference, once the entry is found.
  unfoldable pub storage_archive_in : ℕ → ℕ → BlockEntry → Store → Result StorageError Store
  unfolding Map.get Map.put
  storage_archive_in id nonce e s = elim (Map.get ℕ_discrete nonce e.refs) [
    | none ↦ err (server block_non_existent)
    | some _ ↦
        or_failed
          (put_locked id (record e { refs = Map.put ℕ_discrete nonce archived_block_ref e.refs }) s)
  ]

  unfoldable pub storage_archive_reference : ℕ → ℕ → Store → Result StorageError Store
  unfolding storage_get storage_archive_in
  storage_archive_reference id nonce s = do e ← storage_get id s; storage_archive_in id nonce e s
