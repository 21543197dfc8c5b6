-- ===== src/Splitter.antt =====
-- libkbfs/bsplitter_simple.go: how much of the data of a write goes into one file block. Sizes and
-- offsets are int64 in the source; they are not negative here, and a difference that the source
-- tests for being negative is a comparison. Bytes are numbers.
pub mod Copy
mod Power
pub mod Size
mod Tests
use angelkey_kbfsbeta.Prelude.{
  ℕ, zero, suc, ◌+◌, ◌-◌, ◌*◌, Bool, Option, none, some, List, ◌++◌, ltb, leb, ◌==◌, if◌then◌else◌,
  length, take, drop, replicate,
}
use Prim.Native.Nat.{bit_and}
use angelkey_kbfsbeta.Prelude.Result.{Result, ok, err}

pub record BlockSplitterSimple : Type 0 where
  pub max_size : ℕ
  pub block_change_embed_max_size : ℕ

-- The last lines of CopyUntilSplit, on the contents that were filled out: the number of bytes copied,
-- and the new contents.
unfoldable pub copy_at : ℕ → List ℕ → ℕ → List ℕ → ℕ × List ℕ
copy_at to_copy data_bytes off contents =
    if ltb (length contents) off
    then (0, contents)
    else (to_copy, take off contents ++ (take to_copy data_bytes ++ drop (off + to_copy) contents))

unfoldable pub copy_until_split : BlockSplitterSimple → List ℕ → List ℕ → ℕ → ℕ × List ℕ
unfolding copy_at
copy_until_split b contents data_bytes off =
    let n = length data_bytes in
    let curr_len = length contents in
    let more_needed = n + off - curr_len in
    if ltb curr_len (off + n)
    then (if ltb b.max_size (more_needed + curr_len)
        then (if ltb b.max_size curr_len
            then (0, contents)
            else copy_at (b.max_size - off) data_bytes off
                (contents ++ replicate (b.max_size - curr_len) 0))
        else copy_at n data_bytes off (contents ++ replicate more_needed 0))
    else copy_at n data_bytes off contents

abbrev pub should_embed_block_changes : BlockSplitterSimple → ℕ → Bool
should_embed_block_changes b size_estimate = leb size_estimate b.block_change_embed_max_size

pub data SplitterError : Type 0 where
  encode_failed encoded_too_big no_convergence out_of_range : SplitterError

-- The desired size is one less if it is a power of 2.
unfoldable pub adjust_desired : ℕ → ℕ
adjust_desired d = if bit_and d (d - 1) == 0 then d - 1 else d

-- The codec is not part of the source: `encoded_len size` is the length of the encoding of a block
-- with that many bytes of contents, `none` if Encode fails.
module _ (encoded_len : ℕ → Option ℕ) where
  -- The loop of NewBlockSplitterSimple, with the attempts left. `out_of_range` is the panic of
  -- `fullData[:maxSize]`.
  unfoldable pub find_max_size : ℕ → ℕ → ℕ → Result SplitterError ℕ
  find_max_size zero desired max_size = err no_convergence
  find_max_size (suc attempts) desired max_size =
      if ltb desired max_size then err out_of_range else elim (encoded_len max_size) [
        | none ↦ err encode_failed
        | some len ↦
            let retry = find_max_size attempts desired (max_size + desired - len) in
            if leb (2 * desired) len
            then err encoded_too_big
            else if len == desired
            then ok max_size
            else if ltb (max_size + desired) len
            then (elim attempts [ zero ↦ err no_convergence | suc _ ↦ err out_of_range ])
            else retry
      ]

  -- A desired size of 0 becomes -1, and `make` panics.
  unfoldable pub new_block_splitter_simple : ℕ → ℕ → Result SplitterError BlockSplitterSimple
  new_block_splitter_simple desired embed =
      let d = adjust_desired desired in
      if desired == 0 then err out_of_range else elim (find_max_size 10 d d) [
        | err e ↦ err e
        | ok m ↦ ok (record { max_size = m; block_change_embed_max_size = embed })
      ]
