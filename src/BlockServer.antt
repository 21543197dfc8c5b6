-- ===== src/BlockServer.antt =====
-- libkbfs/bserver_local_storage.go and libkbfs/bserver_local.go: the in-memory block storage, and the
-- local block server over it. Block IDs, TLF IDs, reference nonces and key halves are numbers, with 0
-- for Go's zero value. The mutex around each method makes it atomic, and it has no place here.
pub mod Refs
pub mod Removal
pub mod Storage
pub mod Files
pub mod LevelDb
pub mod Refines
mod DiskTests
mod Tests
use angelkey_kbfsbeta.Prelude.{
  ℕ, Bool, true, false, not, ◌||◌, Option, none, some, List, ◌∷◌, ℕ_discrete, ltb, ◌==◌,
  if◌then◌else◌, length, [],
}
use angelkey_kbfsbeta.Prelude.Result.{Result, ok, err, ◌>>=◌}
use angelkey_kbfsbeta.Prelude.Map
use angelkey_kbfsbeta.Prelude.Map.{Map}
use angelkey_kbfsbeta.Data.{zero_ref_nonce}

pub data RefStatus : Type 0 where
  no_block_ref live_block_ref archived_block_ref : RefStatus

abbrev pub is_live : RefStatus → Bool
is_live live_block_ref = true
is_live _ = false

pub record BlockEntry : Type 0 where
  pub block_data : List ℕ
  pub refs : Map ℕ RefStatus
  pub key_server_half : ℕ
  pub tlf : ℕ

pub data BserverError : Type 0 where
  block_non_existent block_archived non_zero_ref_nonce : BserverError

abbrev pub MemStorage : Type 0
MemStorage = Map ℕ BlockEntry

unfoldable pub get : ℕ → MemStorage → Result BserverError BlockEntry
unfolding Map.get
get id s = elim (Map.get ℕ_discrete id s) [ none ↦ err block_non_existent | some e ↦ ok e ]

unfoldable pub get_all : ℕ → MemStorage → Map ℕ (Map ℕ RefStatus)
get_all tlf [] = []
get_all tlf ((id, e) ∷ s) =
    let rest = get_all tlf s in if e.tlf == tlf then (id, e.refs) ∷ rest else rest

unfoldable pub put : ℕ → BlockEntry → MemStorage → MemStorage
unfolding Map.put
put id e s = Map.put ℕ_discrete id e s

-- The loop of addReference over `entry.Refs`: whether some reference is live.
unfoldable pub any_live : Map ℕ RefStatus → Bool
any_live [] = false
any_live ((_, status) ∷ r) = is_live status || any_live r

unfoldable pub add_reference : ℕ → ℕ → MemStorage → Result BserverError MemStorage
unfolding Map.get Map.put any_live
add_reference id nonce s = elim (Map.get ℕ_discrete id s) [
  | none ↦ err block_non_existent
  | some e ↦
      if any_live e.refs
      then ok (
          Map.put ℕ_discrete id (record e { refs = Map.put ℕ_discrete nonce live_block_ref e.refs })
            s)
      else err block_archived
]

-- The number of references that are left, and the storage.
unfoldable pub remove_from : ℕ → ℕ → BlockEntry → MemStorage → ℕ × MemStorage
unfolding Map.put Map.delete
remove_from id nonce e s =
    let refs = Map.delete ℕ_discrete nonce e.refs in
    (
      length refs,
      if length refs == 0
          then Map.delete ℕ_discrete id s
          else Map.put ℕ_discrete id (record e { refs = refs }) s,
    )

unfoldable pub remove_reference : ℕ → ℕ → MemStorage → ℕ × MemStorage
unfolding Map.get remove_from
remove_reference id nonce s = elim (Map.get ℕ_discrete id s) [
  | none ↦ (0, s)
  | some e ↦ remove_from id nonce e s
]

unfoldable pub archive_reference : ℕ → ℕ → MemStorage → Result BserverError MemStorage
unfolding Map.get Map.put
archive_reference id nonce s = elim (Map.get ℕ_discrete id s) [
  | none ↦ err block_non_existent
  | some e ↦ elim (Map.get ℕ_discrete nonce e.refs) [
    | none ↦ err block_non_existent
    | some _ ↦ ok (
        Map.put ℕ_discrete id
          (record e { refs = Map.put ℕ_discrete nonce archived_block_ref e.refs }) s)
  ]
]

-- BlockServerLocal.Get: the data and the key half.
unfoldable pub server_get : ℕ → MemStorage → Result BserverError (List ℕ × ℕ)
unfolding get
server_get id s = do e ← get id s; ok (e.block_data, e.key_server_half)

-- BlockServerLocal.Put
unfoldable pub server_put : ℕ → ℕ → ℕ → List ℕ → ℕ → MemStorage → Result BserverError MemStorage
unfolding put
server_put id tlf nonce buf server_half s =
    if not (nonce == zero_ref_nonce)
    then err non_zero_ref_nonce
    else ok (
        put id
          (record {
            block_data = buf;
            refs = (zero_ref_nonce, live_block_ref) ∷ [];
            key_server_half = server_half;
            tlf = tlf;
          })
          s)

-- `if !ok || existing > count { liveCounts[bid] = count }`
unfoldable pub keep_least : ℕ → ℕ → Map ℕ ℕ → Map ℕ ℕ
unfolding Map.get Map.put
keep_least id count counts = elim (Map.get ℕ_discrete id counts) [
  | none ↦ Map.put ℕ_discrete id count counts
  | some existing ↦ if ltb count existing then Map.put ℕ_discrete id count counts else counts
]

-- The inner loop of BlockServerLocal.RemoveBlockReference, over the nonces of one block.
unfoldable pub remove_nonces : ℕ → List ℕ → Map ℕ ℕ × MemStorage → Map ℕ ℕ × MemStorage
unfolding keep_least remove_reference
remove_nonces id [] st = st
remove_nonces id (nonce ∷ more) (counts, s) =
    let (count, s') = remove_reference id nonce s in
    remove_nonces id more (keep_least id count counts, s')

unfoldable pub remove_block_reference :
    List (ℕ × List ℕ) → Map ℕ ℕ × MemStorage → Map ℕ ℕ × MemStorage
unfolding remove_nonces
remove_block_reference [] st = st
remove_block_reference ((id, nonces) ∷ more) st =
    remove_block_reference more (remove_nonces id nonces st)

-- BlockServerLocal.ArchiveBlockReferences stops at the first error. What was archived before it
-- stays archived, so the storage stands beside the error.
unfoldable pub archive_nonces : ℕ → List ℕ → MemStorage → Option BserverError × MemStorage
unfolding archive_reference
archive_nonces id [] s = (none, s)
archive_nonces id (nonce ∷ more) s = elim (archive_reference id nonce s) [
  | err e ↦ (some e, s)
  | ok s' ↦ archive_nonces id more s'
]

unfoldable pub archive_block_references :
    List (ℕ × List ℕ) → MemStorage → Option BserverError × MemStorage
unfolding archive_nonces
archive_block_references [] s = (none, s)
archive_block_references ((id, nonces) ∷ more) s =
    let (e, s') = archive_nonces id nonces s in
    let rest = archive_block_references more s' in elim e [ some x ↦ (some x, s') | none ↦ rest ]
