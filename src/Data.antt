-- ===== src/Data.antt =====
-- libkbfs/data_types.go: block pointers, paths and entry types. Identifiers that the code only
-- compares (block IDs, UIDs, nonces, TLF IDs) are numbers, with 0 for Go's zero value.
use Prim.Native.String.{String}
use angelkey_kbfsbeta.Prelude.{
  ℕ, ◌≡◌, ◌≢◌, Bool, true, false, not, Option, none, some, List, ◌∷◌, ◌++◌, arith, ℕ_discrete, ◌==◌,
  if◌then◌else◌, init, last?, [],
}
use angelkey_kbfsbeta.Prelude.Result.{Result, ok, err, ◌>>=◌}

pub record BlockRef : Type 0 where
  pub id : ℕ
  pub ref_nonce : ℕ

pub record BlockPointer : Type 0 where
  pub id : ℕ
  pub key_gen : ℕ
  pub data_ver : ℕ
  pub creator : ℕ
  pub writer : ℕ
  pub ref_nonce : ℕ

unfoldable pub block_pointer_discrete : Discrete BlockPointer
block_pointer_discrete = hlevel ℕ_discrete

unfoldable pub block_ref_discrete : Discrete BlockRef
block_ref_discrete = hlevel ℕ_discrete

-- BlockPointer{}
abbrev pub zero_ptr : BlockPointer
zero_ptr = record { id = 0; key_gen = 0; data_ver = 0; creator = 0; writer = 0; ref_nonce = 0 }

abbrev pub zero_ref_nonce : ℕ
zero_ref_nonce = 0

abbrev pub ref : BlockPointer → BlockRef
ref p = record { id = p.id; ref_nonce = p.ref_nonce }

abbrev pub is_initialized : BlockPointer → Bool
is_initialized p = not (p.id == 0)

abbrev pub is_first_ref : BlockPointer → Bool
is_first_ref p = p.ref_nonce == zero_ref_nonce

abbrev pub get_writer : BlockPointer → ℕ
get_writer p = if not (p.writer == 0) then p.writer else p.creator

abbrev pub set_writer : ℕ → BlockPointer → BlockPointer
set_writer new_writer p =
    if not (p.creator == new_writer)
    then record p { writer = new_writer }
    else record p { writer = 0 }

-- Setting the writer of a pointer makes it the writer that is charged, whether or not the field is
-- populated, if the new writer is not the nil UID.
pub get_writer-set_writer : (u : ℕ) (p : BlockPointer) → u ≢ 0 → get_writer (set_writer u p) ≡ u
get_writer-set_writer u p h = ground arith

pub data EntryType : Type 0 where
  file exec dir sym : EntryType

abbrev pub is_dir : EntryType → Bool
is_dir dir = true
is_dir _ = false

pub record PathNode : Type 0 where
  pub pointer : BlockPointer
  pub name : String

pub record FilePath : Type 0 where
  pub tlf : ℕ
  pub branch : String
  pub path : List PathNode

-- Go's panic on an index or a slice bound out of range.
pub data OpError : Type 0 where
  index_out_of_range : OpError
  unexpected_conflict_check : OpError

abbrev pub last_node : Option PathNode → Result OpError PathNode
last_node none = err index_out_of_range
last_node (some n) = ok n

abbrev pub tail_node : FilePath → Result OpError PathNode
tail_node p = last_node (last? p.path)

unfoldable pub tail_name : FilePath → Result OpError String
tail_name p = do n ← tail_node p; ok n.name

unfoldable pub tail_pointer : FilePath → Result OpError BlockPointer
tail_pointer p = do n ← tail_node p; ok n.pointer

-- `p.path[:len(p.path)-1]` panics on an empty path.
unfoldable pub parent_path : FilePath → Result OpError FilePath
parent_path p = elim p.path [
  | [] ↦ err index_out_of_range
  | n ∷ r ↦ ok (record p { path = init (n ∷ r) })
]

unfoldable pub child_path : FilePath → String → BlockPointer → FilePath
child_path p name ptr = record p { path = p.path ++ (record { pointer = ptr; name = name }) ∷ [] }
