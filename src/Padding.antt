-- ===== src/Padding.antt =====
-- libkbfs/crypto_common.go: the padding that hides the size of an encoded block. Bytes are numbers,
-- and lengths are uint32 with wrap-around. The random source is outside the code: `rand n` is what
-- reading `n` bytes of it gives, `none` if it fails.
pub mod RoundTrip
mod Tests
use angelkey_kbfsbeta.Prelude.{
  ℕ, ◌+◌, ◌-◌, ◌*◌, ◌/◌, ◌%◌, ◌^◌, not, Option, none, some, List, ◌∷◌, ◌++◌, ltb, ◌==◌,
  if◌then◌else◌, length, take, [],
}
use Prim.Native.Nat.{bit_and, bit_or}
use angelkey_kbfsbeta.Prelude.Result.{Result, ok, err}

abbrev pub min_block_size : ℕ
min_block_size = 256

-- `n | (n >> k)`
abbrev pub smear : ℕ → ℕ → ℕ
smear k n = bit_or n (n / 2 ^ k)

unfoldable pub next_power_of_two : ℕ → ℕ
next_power_of_two n =
    if ltb n min_block_size
    then min_block_size
    else (let m = if bit_and n (n - 1) == 0 then (n + 1) % 2 ^ 32 else n in
        let k = (m + 2 ^ 32 - 1) % 2 ^ 32 in
        (smear 16 (smear 8 (smear 4 (smear 2 (smear 1 k)))) + 1) % 2 ^ 32)

abbrev pub pad_prefix_size : ℕ
pad_prefix_size = 4

pub data PadError : Type 0 where
  read_failed short_read unexpected_eof : PadError
  -- ActualLen, ExpectedLen
  padded_block_read : ℕ → ℕ → PadError

-- A uint32 in little-endian order.
unfoldable pub put_uint32 : ℕ → List ℕ
put_uint32 n = n % 256 ∷ n / 256 % 256 ∷ n / 65536 % 256 ∷ n / 16777216 % 256 ∷ []

unfoldable pub pad_block : (ℕ → Option (List ℕ)) → List ℕ → Result PadError (List ℕ)
pad_block rand block =
    let block_len = length block % 2 ^ 32 in
    let overall_len = next_power_of_two block_len in
    let pad_len = (overall_len + 2 ^ 32 - block_len) % 2 ^ 32 in
    elim (rand pad_len) [
      | none ↦ err read_failed
      | some bytes ↦
          if not (length bytes == pad_len)
          then err short_read
          else ok (put_uint32 block_len ++ (block ++ bytes))
    ]

-- What depadBlock does once it has read the length, where `rest` is what is left of the buffer.
unfoldable pub take_block : ℕ → List ℕ → Result PadError (List ℕ)
take_block block_len rest =
    let block_end_pos = (block_len + pad_prefix_size) % 2 ^ 32 in
    let actual = pad_prefix_size + length rest in
    if ltb actual block_end_pos
    then err (padded_block_read actual block_end_pos)
    else ok (take block_len rest)

unfoldable pub depad_block : List ℕ → Result PadError (List ℕ)
unfolding take_block
depad_block (a ∷ b ∷ c ∷ d ∷ rest) = take_block (a + 256 * b + 65536 * c + 16777216 * d) rest
depad_block _ = err unexpected_eof
