-- ===== src/BlockServer/Files.antt =====
-- libkbfs/bserver_local_storage.go, bserverFileStorage: blocks in files named by the hex form of their
-- IDs. The file system, the codec and the hex form are parameters, with what their documentation
-- says of calls that succeed: the disk is taken to have room.
use angelkey_kbfsbeta.Prelude.{
  ℕ, zero, suc, ◌≤◌, ◌<◌, ◌≡◌, refl, sym, ap, ◌∙◌, ◌≢◌, ◌⊎◌, inl, inr, Option, none, some, List, [],
  ◌∷◌, ◌++◌, arith, length, take, drop, length-take, length-drop, All,
}
use angelkey_kbfsbeta.Prelude.Result.{Result, ok, err, ◌>>=◌, Result-cases}
use angelkey_kbfsbeta.BlockServer.{BlockEntry}
use angelkey_kbfsbeta.BlockServer.Storage.{StoreError, not_found, failed, BlockStore}

-- Codec.Encode and Codec.Decode of a block entry.
pub record Codec : Type 1 where
  pub Bytes : Type 0
  pub encode : BlockEntry → Option Bytes
  pub decode : Bytes → Option BlockEntry
  pub decode-encode :
      (e : BlockEntry) → (buf : Bytes) × (encode e ≡ some buf) × (decode buf ≡ some e)

-- An error of the codec is not os.ErrNotExist.
abbrev pub coded : {A : Type 0} → Option A → Result StoreError A
coded none = err failed
coded (some a) = ok a

abbrev pub IsHexDigit : ℕ → Type 0
IsHexDigit c = (b'0' ≤ c) × (c ≤ b'9') ⊎ (b'a' ≤ c) × (c ≤ b'f')

abbrev pub IsHexName : List ℕ → Type 0
IsHexName x = All IsHexDigit x × (0 < length x)

-- The calls of ioutil, os and path/filepath. `parent_dir` is filepath.Dir.
pub record FileSystem (Bytes : Type 0) : Type 1 where
  pub Disk : Type 0
  pub FileName : Type 0
  pub read_file : FileName → Disk → Result StoreError Bytes
  pub write_file : FileName → Bytes → Disk → Result StoreError Disk
  pub mkdir_all : FileName → Disk → Result StoreError Disk
  pub remove_file : FileName → Disk → Result StoreError Disk
  pub parent_dir : FileName → FileName
  pub join : List ℕ → List ℕ → FileName
  pub mkdir_lem :
      (p : FileName) (d : Disk)
      → (t : Disk) × (mkdir_all p d ≡ ok t) × ((q : FileName) → read_file q t ≡ read_file q d)
  pub write_lem :
      (p : FileName) (buf : Bytes) (d : Disk)
      → (t : Disk) × (write_file p buf d ≡ ok t)
        × (read_file p t ≡ ok buf)
        × ((q : FileName) → p ≢ q → read_file q t ≡ read_file q d)
  pub remove_lem :
      (p : FileName) (buf : Bytes) (d : Disk)
      → read_file p d ≡ ok buf
      → (t : Disk) × (remove_file p d ≡ ok t)
        × (read_file p t ≡ err not_found)
        × ((q : FileName) → p ≢ q → read_file q t ≡ read_file q d)
  -- `join` is filepath.Join with the storage's directory.
  pub join-injective :
      (a b a' b' : List ℕ)
      → IsHexName a
      → IsHexName b
      → IsHexName a'
      → IsHexName b'
      → join a b ≡ join a' b'
      → (a ≡ a') × (b ≡ b')

take_append-drop {ℓ} : {A : Type ℓ} (n : ℕ) (xs : List A) → take n xs ++ drop n xs ≡ xs
take_append-drop zero xs = refl
take_append-drop (suc n) [] = refl
take_append-drop (suc n) (x ∷ r) = ap (◌∷◌ x) (take_append-drop n r)

All-take {ℓ κ} : {A : Type ℓ} (P : A → Type κ) (n : ℕ) (xs : List A) → All P xs → All P (take n xs)
All-take P zero xs h = tt
All-take P (suc n) [] h = tt
All-take P (suc n) (x ∷ r) h = (h.0, All-take P n r h.1)

All-drop {ℓ κ} : {A : Type ℓ} (P : A → Type κ) (n : ℕ) (xs : List A) → All P xs → All P (drop n xs)
All-drop P zero xs h = h
All-drop P (suc n) [] h = tt
All-drop P (suc n) (x ∷ r) h = All-drop P n r h.1

-- BlockID.String. An ID has a byte for the hash type and the hash, so its hex form is long enough
-- for `idStr[:4]`. IDs are valid ones here: the zero ID, whose form is empty, is never stored.
pub record HexForm : Type 0 where
  pub id_string : ℕ → List ℕ
  pub hex_digits : (id : ℕ) → All IsHexDigit (id_string id)
  pub long : (id : ℕ) → 4 < length (id_string id)
  pub id_string-injective : (id j : ℕ) → id_string id ≡ id_string j → id ≡ j

module _ (codec : Codec) (fs : FileSystem codec.Bytes) (hex : HexForm) where
  open codec use {Bytes, encode, decode}
  open fs use {Disk, FileName, read_file, write_file, mkdir_all, remove_file, parent_dir, join}
  open hex use {id_string}

  unfoldable pub build_path : ℕ → FileName
  build_path id = join (take 4 (id_string id)) (drop 4 (id_string id))

  unfoldable pub file_get_locked : FileName → Disk → Result StoreError BlockEntry
  file_get_locked p d = do buf ← read_file p d; coded (decode buf)

  unfoldable pub file_put_locked : FileName → BlockEntry → Disk → Result StoreError Disk
  file_put_locked p e d = do
    buf ← coded (encode e)
    d' ← mkdir_all (parent_dir p) d
    write_file p buf d'

  first-IsHexName : (id : ℕ) → IsHexName (take 4 (id_string id))
  first-IsHexName id = (
    All-take IsHexDigit 4 (id_string id) (hex.hex_digits id),
    omega (arith, length-take 4 (id_string id), hex.long id),
  )

  rest-IsHexName : (id : ℕ) → IsHexName (drop 4 (id_string id))
  rest-IsHexName id = (
    All-drop IsHexDigit 4 (id_string id) (hex.hex_digits id),
    omega (arith, length-drop 4 (id_string id), hex.long id),
  )

  build_path-injective : (id j : ℕ) → id ≢ j → build_path id ≢ build_path j
  unfolding build_path
  build_path-injective id j n e =
      let (same, rest) =
        fs.join-injective (take 4 (id_string id)) (drop 4 (id_string id)) (take 4 (id_string j))
          (drop 4 (id_string j)) (first-IsHexName id) (rest-IsHexName id) (first-IsHexName j)
          (rest-IsHexName j) e in
      n (
        hex.id_string-injective id j (
          sym (take_append-drop 4 (id_string id))
          ∙ ap (λ x. x ++ drop 4 (id_string id)) same
          ∙ ap (λ x. take 4 (id_string j) ++ x) rest
          ∙ take_append-drop 4 (id_string j)))

  pub file_put_locked_lem :
      (id : ℕ) (e : BlockEntry) (d : Disk)
      → (t : Disk) × (file_put_locked (build_path id) e d ≡ ok t)
        × (file_get_locked (build_path id) t ≡ ok e)
        × ((j : ℕ) → id ≢ j → file_get_locked (build_path j) t ≡ file_get_locked (build_path j) d)
  unfolding file_put_locked file_get_locked
  file_put_locked_lem id e d =
      let p = build_path id in
      let (buf, encoded, decoded) = codec.decode-encode e in
      let (d', made, same) = fs.mkdir_lem (parent_dir p) d in
      let (t, written, there, others) = fs.write_lem p buf d' in
      (
        t,
        rw (encoded, made) written,
        rw (there, decoded) refl,
        λ j n.
            ap (λ x. x >>= λ buf. coded (decode buf))
              (others (build_path j) (build_path-injective id j n) ∙ same (build_path j)),
      )

  pub file_remove_lem :
      (id : ℕ) (e : BlockEntry) (d : Disk)
      → file_get_locked (build_path id) d ≡ ok e
      → (t : Disk) × (remove_file (build_path id) d ≡ ok t)
        × (file_get_locked (build_path id) t ≡ err not_found)
        × ((j : ℕ) → id ≢ j → file_get_locked (build_path j) t ≡ file_get_locked (build_path j) d)
  unfolding file_get_locked
  file_remove_lem id e d g = elim (Result-cases (read_file (build_path id) d)) [
    | inl (x, r) ↦ let unread : file_get_locked (build_path id) d ≡ err x = rw r refl in cc
    | inr (buf, r) ↦
        let (t, removed, gone, others) = fs.remove_lem (build_path id) buf d r in
        (
          t,
          removed,
          rw gone refl,
          λ j n.
              ap (λ x. x >>= λ b. coded (decode b))
                (others (build_path j) (build_path-injective id j n)),
        )
  ]

  -- bserverFileStorage
  abbrev pub file_store : BlockStore
  file_store = record {
    Store = Disk;
    get_locked = λ id d. file_get_locked (build_path id) d;
    put_locked = λ id e d. file_put_locked (build_path id) e d;
    remove = λ id d. remove_file (build_path id) d;
    put_lem = file_put_locked_lem;
    remove_lem = file_remove_lem;
  }
