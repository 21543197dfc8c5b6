-- ===== src/BlockServer/DiskTests.antt =====
-- A file system and a codec that meet the hypotheses of the storage on disk, and the theorem there.
use angelkey_kbfsbeta.Prelude.{
  ℕ, zero, suc, ◌+◌, ◌≡◌, refl, ap, subst, ◌≢◌, inl, none, some, List, [], ◌∷◌, arith, ℕ_discrete,
  length, replicate, length-replicate, All,
}
use angelkey_kbfsbeta.Prelude.Result.{Result, ok, err}
use angelkey_kbfsbeta.Prelude.Map
use angelkey_kbfsbeta.Prelude.Map.{Map}
use angelkey_kbfsbeta.BlockServer
use angelkey_kbfsbeta.BlockServer.{
  BlockEntry, MemStorage, live_block_ref, add_reference, remove_reference, archive_reference,
}
use angelkey_kbfsbeta.BlockServer.Storage.{
  StoreError, not_found, server, BlockStore, storage_get, storage_put, storage_add_reference,
  storage_remove_reference, storage_archive_reference,
}
use angelkey_kbfsbeta.BlockServer.Files.{
  Codec, FileSystem, HexForm, IsHexDigit, file_store, file_put_locked, file_get_locked, build_path,
}
use angelkey_kbfsbeta.BlockServer.Refines.{
  Represents, Simulates, Removes, put-Represents, block_storage_refines,
}

abbrev plain_codec : Codec
plain_codec = record {
  Bytes = BlockEntry;
  encode = λ e. some e;
  decode = λ e. some e;
  decode-encode = λ e. (e, refl, refl);
}

-- A directory and a name.
abbrev FileName : Type 0
FileName = List ℕ × List ℕ

unfoldable file_name_discrete : Discrete FileName
file_name_discrete = hlevel ℕ_discrete

abbrev Disk : Type 0
Disk = Map FileName BlockEntry

abbrev read : FileName → Disk → Result StoreError BlockEntry
read p d = elim (Map.get file_name_discrete p d) [ none ↦ err not_found | some e ↦ ok e ]

read-put_other :
    (p q : FileName) (e : BlockEntry) (d : Disk)
    → p ≢ q
    → read q (Map.put file_name_discrete p e d) ≡ read q d
read-put_other p q e d n = ground (arith, Map.get-put file_name_discrete p q e d)

read-delete_other :
    (p q : FileName) (d : Disk) → p ≢ q → read q (Map.delete file_name_discrete p d) ≡ read q d
read-delete_other p q d n = ground (arith, Map.get-delete file_name_discrete p q d)

abbrev mem_files : FileSystem BlockEntry
mem_files = record {
  Disk = Disk;
  FileName = FileName;
  read_file = read;
  write_file = λ p e d. ok (Map.put file_name_discrete p e d);
  mkdir_all = λ p d. ok d;
  remove_file = λ p d. ok (Map.delete file_name_discrete p d);
  parent_dir = λ p. (p.0, []);
  join = λ a b. (a, b);
  mkdir_lem = λ p d. (d, refl, λ q. refl);
  write_lem = λ p e d. (
    Map.put file_name_discrete p e d,
    refl,
    rw (Map.get-put_self file_name_discrete p e d, read) refl,
    λ q n. read-put_other p q e d n,
  );
  remove_lem = λ p e d r. (
    Map.delete file_name_discrete p d,
    refl,
    rw (Map.get-delete_self file_name_discrete p d, read) refl,
    λ q n. read-delete_other p q d n,
  );
  join-injective =
      λ a b a' b' _ _ _ _ e. (ap (λ (p : FileName). p.0) e, ap (λ (p : FileName). p.1) e);
}

zeros_hex : (n : ℕ) → All IsHexDigit (replicate n b'0')
zeros_hex zero = tt
zeros_hex (suc n) = (inl (omega arith, omega arith), zeros_hex n)

-- A number as so many zeros.
abbrev unary : HexForm
unary = record {
  id_string = λ id. replicate (id + 5) b'0';
  hex_digits = λ id. zeros_hex (id + 5);
  long = λ id. omega (arith, length-replicate {A = ℕ} (id + 5) b'0');
  id_string-injective = λ id j e. omega (
    arith,
    ap length e,
    length-replicate {A = ℕ} (id + 5) b'0',
    length-replicate {A = ℕ} (j + 5) b'0',
  );
}

abbrev files : BlockStore
files = file_store plain_codec mem_files unary

abbrev entry : BlockEntry
entry = record {
  block_data = 1 ∷ 2 ∷ [];
  refs = (0, live_block_ref) ∷ [];
  key_server_half = 7;
  tlf = 3;
}

no_files : Represents files [] []
unfolding file_get_locked Map.get
no_files id = refl

abbrev disk : Disk
disk = Map.put file_name_discrete (build_path plain_codec mem_files unary 9) entry []

stores : files.put_locked 9 entry [] ≡ ok disk
unfolding file_put_locked Map.put
stores = refl

one_file : Represents files disk (Map.put ℕ_discrete 9 entry [])
one_file =
    let (t, done, r) = put-Represents files 9 entry [] [] no_files in
    let same : t ≡ disk = cc (done, stores) in
    subst (λ x. Represents files x (Map.put ℕ_discrete 9 entry [])) same r

abbrev mem : MemStorage
mem = Map.put ℕ_discrete 9 entry []

block_storage_refines_example :
    (storage_get files 9 disk
      ≡ elim (BlockServer.get 9 mem) [ ok e ↦ ok e | err x ↦ err (server x) ])
    × Simulates files (storage_put files 9 entry disk) (ok (BlockServer.put 9 entry mem))
    × Simulates files (storage_add_reference files 9 4 disk) (add_reference 9 4 mem)
    × Removes files (storage_remove_reference files 9 4 disk) (remove_reference 9 4 mem)
    × Simulates files (storage_archive_reference files 9 4 disk) (archive_reference 9 4 mem)
block_storage_refines_example = block_storage_refines files 9 4 entry disk mem one_file
