-- ===== src/BlockServer/LevelDb.antt =====
-- libkbfs/bserver_local_storage.go, bserverLeveldbStorage: blocks in a leveldb database, by the bytes
-- of their IDs. The database is a parameter, with what its documentation says of Get, Put and Delete.
use angelkey_kbfsbeta.Prelude.{ℕ, ◌≡◌, refl, ap, ◌≢◌}
use angelkey_kbfsbeta.Prelude.Result.{Result, ok, err, ◌>>=◌}
use angelkey_kbfsbeta.BlockServer.{BlockEntry}
use angelkey_kbfsbeta.BlockServer.Storage.{StoreError, not_found, BlockStore}
use angelkey_kbfsbeta.BlockServer.Files.{Codec, coded}

-- The key is `id.Bytes()`, which is the ID.
pub record Database (Bytes : Type 0) : Type 1 where
  pub Db : Type 0
  pub get : ℕ → Db → Result StoreError Bytes
  pub put : ℕ → Bytes → Db → Result StoreError Db
  pub delete : ℕ → Db → Result StoreError Db
  pub put_lem :
      (k : ℕ) (buf : Bytes) (d : Db)
      → (t : Db) × (put k buf d ≡ ok t) × (get k t ≡ ok buf) × ((j : ℕ) → k ≢ j → get j t ≡ get j d)
  pub delete_lem :
      (k : ℕ) (d : Db)
      → (t : Db) × (delete k d ≡ ok t)
        × (get k t ≡ err not_found)
        × ((j : ℕ) → k ≢ j → get j t ≡ get j d)

module _ (codec : Codec) (db : Database codec.Bytes) where
  open codec use {Bytes, encode, decode}
  open db use {Db, get, put, delete}

  unfoldable pub db_get_locked : ℕ → Db → Result StoreError BlockEntry
  db_get_locked id d = do buf ← get id d; coded (decode buf)

  unfoldable pub db_put_locked : ℕ → BlockEntry → Db → Result StoreError Db
  db_put_locked id e d = do buf ← coded (encode e); put id buf d

  pub db_put_locked_lem :
      (id : ℕ) (e : BlockEntry) (d : Db)
      → (t : Db) × (db_put_locked id e d ≡ ok t)
        × (db_get_locked id t ≡ ok e)
        × ((j : ℕ) → id ≢ j → db_get_locked j t ≡ db_get_locked j d)
  unfolding db_put_locked db_get_locked
  db_put_locked_lem id e d =
      let (buf, encoded, decoded) = codec.decode-encode e in
      let (t, written, there, others) = db.put_lem id buf d in
      (
        t,
        rw encoded written,
        rw (there, decoded) refl,
        λ j n. ap (λ x. x >>= λ buf. coded (decode buf)) (others j n),
      )

  pub db_delete_lem :
      (id : ℕ) (d : Db)
      → (t : Db) × (delete id d ≡ ok t)
        × (db_get_locked id t ≡ err not_found)
        × ((j : ℕ) → id ≢ j → db_get_locked j t ≡ db_get_locked j d)
  unfolding db_get_locked
  db_delete_lem id d =
      let (t, deleted, gone, others) = db.delete_lem id d in
      (t, deleted, rw gone refl, λ j n. ap (λ x. x >>= λ buf. coded (decode buf)) (others j n))

  -- bserverLeveldbStorage
  abbrev pub leveldb_store : BlockStore
  leveldb_store = record {
    Store = Db;
    get_locked = db_get_locked;
    put_locked = db_put_locked;
    remove = delete;
    put_lem = db_put_locked_lem;
    remove_lem = λ id e d g. db_delete_lem id d;
  }
