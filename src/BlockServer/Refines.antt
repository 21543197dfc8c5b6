-- ===== src/BlockServer/Refines.antt =====
-- libkbfs/bserver_local_storage.go: the storages on disk behave as the one in memory.
use angelkey_kbfsbeta.Prelude.{
  ℕ, ◌≡◌, refl, sym, ap, ◌∙◌, ◌≢◌, inl, inr, Option, none, some, arith, ℕ_discrete, ◌==◌,
  Bool-cases, Option-cases, length,
}
use angelkey_kbfsbeta.Prelude.Result.{Result, ok, err}
use angelkey_kbfsbeta.Prelude.Map
use angelkey_kbfsbeta.Prelude.Map.{Map}
use angelkey_kbfsbeta.BlockServer
use angelkey_kbfsbeta.BlockServer.{
  BlockEntry, BserverError, MemStorage, block_non_existent, live_block_ref, archived_block_ref,
  any_live, add_reference, remove_reference, remove_from, archive_reference,
}
use angelkey_kbfsbeta.BlockServer.Storage.{
  StoreError, not_found, StorageError, server, BlockStore, storage_get, storage_put,
  storage_add_reference, storage_remove_from, storage_remove_reference, storage_archive_reference,
  storage_archive_in, or_failed,
}

abbrev pub stored : Option BlockEntry → Result StoreError BlockEntry
stored none = err not_found
stored (some e) = ok e

-- A block of another ID stays.
module _ (id j : ℕ) (n : id ≢ j) (m : MemStorage) where
  get-put_other :
      (e : BlockEntry) → Map.get ℕ_discrete j (Map.put ℕ_discrete id e m) ≡ Map.get ℕ_discrete j m
  get-put_other e = ground (arith, Map.get-put ℕ_discrete id j e m)

  get-delete_other : Map.get ℕ_discrete j (Map.delete ℕ_discrete id m) ≡ Map.get ℕ_discrete j m
  get-delete_other = ground (arith, Map.get-delete ℕ_discrete id j m)

module _ (b : BlockStore) where
  open b use {Store, get_locked, put_locked, remove}

  -- The store has the blocks of the map, and no others.
  abbrev pub Represents : Store → MemStorage → Type 0
  Represents s m = (id : ℕ) → get_locked id s ≡ stored (Map.get ℕ_discrete id m)

  -- The storage on disk returns what the one in memory returns, and represents what it leaves.
  abbrev pub Simulates : Result StorageError Store → Result BserverError MemStorage → Type 0
  Simulates r (err x) = r ≡ err (server x)
  Simulates r (ok m) = (t : Store) × (r ≡ ok t) × Represents t m

  pub put-Represents :
      (id : ℕ) (e : BlockEntry) (s : Store) (m : MemStorage)
      → Represents s m
      → (t : Store) × (put_locked id e s ≡ ok t) × Represents t (Map.put ℕ_discrete id e m)
  put-Represents id e s m h =
      let (t, done, there, others) = b.put_lem id e s in
      (
        t,
        done,
        λ j. elim (ℕ_discrete id j) [
          | yes q ↦
              ap (λ k. get_locked k t) (sym q)
              ∙ there
              ∙ ap stored (
                  sym (Map.get-put_self ℕ_discrete id e m)
                  ∙ ap (λ k. Map.get ℕ_discrete k (Map.put ℕ_discrete id e m)) q)
          | no n ↦ others j n ∙ h j ∙ ap stored (sym (get-put_other id j n m e))
        ],
      )

  remove-Represents :
      (id : ℕ) (e : BlockEntry) (s : Store) (m : MemStorage)
      → Represents s m
      → get_locked id s ≡ ok e
      → (t : Store) × (remove id s ≡ ok t) × Represents t (Map.delete ℕ_discrete id m)
  remove-Represents id e s m h there =
      let (t, done, gone, others) = b.remove_lem id e s there in
      (
        t,
        done,
        λ j. elim (ℕ_discrete id j) [
          | yes q ↦
              ap (λ k. get_locked k t) (sym q)
              ∙ gone
              ∙ ap stored (
                  sym (Map.get-delete_self ℕ_discrete id m)
                  ∙ ap (λ k. Map.get ℕ_discrete k (Map.delete ℕ_discrete id m)) q)
          | no n ↦ others j n ∙ h j ∙ ap stored (sym (get-delete_other id j n m))
        ],
      )

  put-Simulates :
      (id : ℕ) (e : BlockEntry) (s : Store) (m : MemStorage)
      → Represents s m
      → Simulates (or_failed (put_locked id e s)) (ok (Map.put ℕ_discrete id e m))
  put-Simulates id e s m h =
      let (t, done, r) = put-Represents id e s m h in (t, ap or_failed done, r)

  storage_get-get :
      (id : ℕ) (s : Store) (m : MemStorage)
      → Represents s m
      → storage_get b id s ≡ elim (BlockServer.get id m) [ ok e ↦ ok e | err x ↦ err (server x) ]
  unfolding storage_get BlockServer.get
  storage_get-get id s m h = elim (Option-cases (Map.get ℕ_discrete id m)) [
    | inl q ↦ rw (h id ∙ ap stored q, q, storage_get, BlockServer.get) refl
    | inr (e, q) ↦ rw (h id ∙ ap stored q, q, storage_get, BlockServer.get) refl
  ]

  add_reference-Simulates :
      (id nonce : ℕ) (s : Store) (m : MemStorage)
      → Represents s m
      → Simulates (storage_add_reference b id nonce s) (add_reference id nonce m)
  unfolding storage_add_reference storage_get add_reference
  add_reference-Simulates id nonce s m h = elim (Option-cases (Map.get ℕ_discrete id m)) [
    | inl q ↦ rw (h id ∙ ap stored q, q, add_reference, storage_get, storage_add_reference) refl
    | inr (e, q) ↦ elim (Bool-cases (any_live e.refs)) [
      | inl l ↦
          rw (h id ∙ ap stored q, q, l, add_reference, storage_get, storage_add_reference)
            (put-Simulates id (record e { refs = Map.put ℕ_discrete nonce live_block_ref e.refs }) s
              m h)
      | inr l ↦
          rw (h id ∙ ap stored q, q, l, add_reference, storage_get, storage_add_reference) refl
    ]
  ]

  archive_in-Simulates :
      (id nonce : ℕ) (e : BlockEntry) (s : Store) (m : MemStorage)
      → Represents s m
      → Map.get ℕ_discrete id m ≡ some e
      → Simulates (storage_archive_in b id nonce e s) (archive_reference id nonce m)
  unfolding storage_archive_in archive_reference
  archive_in-Simulates id nonce e s m h q = elim (Option-cases (Map.get ℕ_discrete nonce e.refs)) [
    | inl l ↦ rw (q, l, archive_reference, storage_archive_in) refl
    | inr (st, l) ↦
        rw (q, l, archive_reference, storage_archive_in)
          (put-Simulates id (record e { refs = Map.put ℕ_discrete nonce archived_block_ref e.refs })
            s m h)
  ]

  archive_reference-Simulates :
      (id nonce : ℕ) (s : Store) (m : MemStorage)
      → Represents s m
      → Simulates (storage_archive_reference b id nonce s) (archive_reference id nonce m)
  unfolding storage_archive_reference storage_get
  archive_reference-Simulates id nonce s m h = elim (Option-cases (Map.get ℕ_discrete id m)) [
    | inl q ↦
        let absent : archive_reference id nonce m ≡ err block_non_existent =
          unfold archive_reference in rw (q, archive_reference) refl in
        rw (absent, h id ∙ ap stored q, storage_get, storage_archive_reference) refl
    | inr (e, q) ↦
        let found : storage_archive_reference b id nonce s ≡ storage_archive_in b id nonce e s =
          rw (h id ∙ ap stored q, storage_get, storage_archive_reference) refl in
        rw found (archive_in-Simulates id nonce e s m h q)
  ]

  -- The same for the operation that also returns a count.
  abbrev pub Removes : Result StorageError (ℕ × Store) → ℕ × MemStorage → Type 0
  Removes r (n, m) = (t : Store) × (r ≡ ok (n, t)) × Represents t m

  remove_from-Removes :
      (id nonce : ℕ) (e : BlockEntry) (s : Store) (m : MemStorage)
      → Represents s m
      → get_locked id s ≡ ok e
      → Removes (storage_remove_from b id nonce e s) (remove_from id nonce e m)
  unfolding storage_remove_from remove_from
  remove_from-Removes id nonce e s m h there =
      let refs = Map.delete ℕ_discrete nonce e.refs in
      elim (Bool-cases (length refs == 0)) [
        | inl z ↦
            let (t, done, r) = remove-Represents id e s m h there in (t, rw (z, done) refl, rw z r)
        | inr z ↦
            let (t, done, r) = put-Represents id (record e { refs = refs }) s m h in
            (t, rw (z, done) refl, rw z r)
      ]

  remove_reference-Removes :
      (id nonce : ℕ) (s : Store) (m : MemStorage)
      → Represents s m
      → Removes (storage_remove_reference b id nonce s) (remove_reference id nonce m)
  unfolding storage_remove_reference remove_reference
  remove_reference-Removes id nonce s m h = elim (Option-cases (Map.get ℕ_discrete id m)) [
    | inl q ↦ rw (h id ∙ ap stored q, q, remove_reference, storage_remove_reference) (s, refl, h)
    | inr (e, q) ↦
        rw (h id ∙ ap stored q, q, remove_reference, storage_remove_reference)
          (remove_from-Removes id nonce e s m h (h id ∙ ap stored q))
  ]

  -- A storage on disk refines the one in memory. While the store has the blocks of a map and no
  -- others, get, put, addReference, removeReference and archiveReference return what they return on
  -- the map, errors and live counts included, and leave the store with the blocks of the new map.
  -- The hypotheses are the laws of the store: that a block that is put or removed is there or not
  -- afterwards, and that the store's own calls succeed.
  pub block_storage_refines :
      (id nonce : ℕ) (entry : BlockEntry) (s : Store) (m : MemStorage)
      → Represents s m
      → (storage_get b id s ≡ elim (BlockServer.get id m) [ ok e ↦ ok e | err x ↦ err (server x) ])
        × Simulates (storage_put b id entry s) (ok (BlockServer.put id entry m))
        × Simulates (storage_add_reference b id nonce s) (add_reference id nonce m)
        × Removes (storage_remove_reference b id nonce s) (remove_reference id nonce m)
        × Simulates (storage_archive_reference b id nonce s) (archive_reference id nonce m)
  unfolding storage_put BlockServer.put
  block_storage_refines id nonce entry s m h = (
    storage_get-get id s m h,
    put-Simulates id entry s m h,
    add_reference-Simulates id nonce s m h,
    remove_reference-Removes id nonce s m h,
    archive_reference-Simulates id nonce s m h,
  )
