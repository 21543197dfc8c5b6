-- ===== src/MdServer.antt =====
-- libkbfs/mdserver_local.go: MDServerLocal. The instances share the databases, the observers and the
-- heads of the sessions, which are one state; an instance is a number. IDs are lists of bytes.
pub mod Methods
pub mod Keys
pub mod History
pub mod Kept
pub mod Accepts
pub mod Truncate
mod Tests
use angelkey_kbfsbeta.Prelude.{
  ℕ, zero, suc, ◌+◌, ◌-◌, ◌/◌, ◌%◌, ◌^◌, ◌≡◌, ite, Bool, true, false, not, Option, none, some, List,
  [], ◌∷◌, ◌++◌, ℕ_discrete, ◌==◌, if◌then◌else◌, replicate,
}
use angelkey_kbfsbeta.Prelude.Result.{Result, ok, ◌>>=◌, ◌>>◌, guard}
use angelkey_kbfsbeta.Prelude.Map.{Map}

abbrev pub Key : Type 0
Key = List ℕ

unfoldable pub key_discrete : Discrete Key
key_discrete = hlevel ℕ_discrete

-- A leveldb database, whose calls are taken to succeed. `range` gives the values of an iterator over
-- the keys from the first one up to, and without, the second one.
pub record Database (Value : Type 0) : Type 1 where
  pub Db : Type 0
  pub get : Key → Db → Option Value
  pub put : Key → Value → Db → Db
  pub delete : Key → Db → Db
  pub range : Key → Key → Db → List Value
  pub get-put :
      (k j : Key) (v : Value) (d : Db)
      → get j (put k v d) ≡ ite (key_discrete k j) (some v) (get j d)
  pub get-delete : (k j : Key) (d : Db) → get j (delete k d) ≡ ite (key_discrete k j) none (get j d)

pub data MergeStatus : Type 0 where
  merged unmerged : MergeStatus

-- What the server reads of a RootMetadataSigned. `content` stands for the rest of it. Revisions are
-- int64s that are not negative, and the one after a head is taken to be one as well.
pub record Rmds : Type 0 where
  pub id : Key
  pub bid : Key
  pub merged_status : MergeStatus
  pub revision : ℕ
  pub prev_root : ℕ
  pub disk_usage : ℕ
  pub ref_bytes : ℕ
  pub unref_bytes : ℕ
  pub rekey_set : Bool
  pub writer_copied : Bool
  pub timestamp : ℕ
  pub content : ℕ

pub data MdServerError : Type 0 where
  shut_down bad_branch_id unauthorized locked double_registration : MdServerError
  expected_one_block : ℕ → MdServerError
  conflict_revision conflict_prev_root conflict_disk_usage : ℕ → ℕ → MdServerError

-- The services that the server asks: the current user's rights in the folder of an update, whether a
-- reader's update is a valid rekey request, the device's key, the hash of an update and the clock.
pub record Services : Type 0 where
  pub is_writer : Rmds → Bool
  pub is_reader : Rmds → Bool
  pub is_valid_rekey_request : Rmds → Rmds → Bool
  pub device_kid : Key
  pub metadata_id : Rmds → ℕ
  pub now : ℕ

-- NullBranchID
abbrev pub null_branch_id : Key
null_branch_id = replicate 16 0

abbrev pub is_null : Key → Bool
is_null bid = ite (key_discrete bid null_branch_id) true false

-- The big-endian form of an int64, as binary.Write gives it.
unfoldable pub big_endian : ℕ → ℕ → Key
big_endian zero n = []
big_endian (suc w) n = n / 256 ^ w % 256 ∷ big_endian w n

-- getMDKey; revision 0 is MetadataRevisionUninitialized, for the head.
unfoldable pub get_md_key : Key → ℕ → Key → MergeStatus → Key
unfolding big_endian
get_md_key id zero bid merged = id
get_md_key id zero bid unmerged = id ++ bid
get_md_key id (suc r) bid merged = id ++ big_endian 8 (suc r)
get_md_key id (suc r) bid unmerged = id ++ bid ++ big_endian 8 (suc r)

abbrev pub get_branch_key : Services → Key → Key
get_branch_key env id = id ++ env.device_kid

-- uint64 arithmetic of the disk usage.
abbrev pub expected_usage : Rmds → Rmds → ℕ
expected_usage head md =
    if md.writer_copied
    then head.disk_usage
    else (head.disk_usage + (md.ref_bytes + 2 ^ 64 - md.unref_bytes)) % 2 ^ 64

-- The consistency checks of Put against the head.
unfoldable pub check_head : Services → Rmds → Rmds → Result MdServerError (Unit {0})
check_head env head md = do
  guard (head.revision + 1 == md.revision) (conflict_revision (head.revision + 1) md.revision)
  guard (md.prev_root == env.metadata_id head)
      (conflict_prev_root (env.metadata_id head) md.prev_root)
  guard (md.disk_usage == expected_usage head md)
      (conflict_disk_usage (expected_usage head md) md.disk_usage)

unfoldable pub check_against : Services → Option Rmds → Rmds → Result MdServerError (Unit {0})
unfolding check_head
check_against env none md = ok tt
check_against env (some head) md = check_head env head md

-- The checks of the branch ID at the start of Put.
unfoldable pub check_branch : MergeStatus → Key → Result MdServerError (Unit {0})
check_branch merged bid = guard (is_null bid) bad_branch_id
check_branch unmerged bid = guard (not (is_null bid)) bad_branch_id

-- The observers of a folder other than this instance, which are fired, and the rest.
unfoldable pub fired : ℕ → List ℕ → List ℕ
fired self [] = []
fired self (k ∷ r) = let rest = fired self r in if k == self then rest else k ∷ rest

unfoldable pub unfired : ℕ → List ℕ → List ℕ
unfired self [] = []
unfired self (k ∷ r) = let rest = unfired self r in if k == self then k ∷ rest else rest

module _ (mds : Database Rmds) (branches locks : Database Key) where
  -- `fired_channels` are the instances whose channels got a nil, and were closed, by folder.
  pub record MdServer : Type 0 where
    pub md_db : mds.Db
    pub branch_db : branches.Db
    pub locks_db : locks.Db
    pub observers : Map Key (List ℕ)
    pub session_heads : Map Key ℕ
    pub fired_channels : List (Key × ℕ)
    pub shutdown : Bool

  unfoldable pub get_head_for_tlf : Key → Key → MergeStatus → MdServer → Option Rmds
  unfolding get_md_key
  get_head_for_tlf id bid status s = mds.get (get_md_key id 0 bid status) s.md_db
