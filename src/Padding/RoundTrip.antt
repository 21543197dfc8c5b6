-- ===== src/Padding/RoundTrip.antt =====
-- crypto_common.go: depadBlock after padBlock, and which lengths depadBlock accepts.
use angelkey_kbfsbeta.Prelude.{
  ℕ, ◌+◌, ◌-◌, ◌*◌, ◌/◌, ◌%◌, ◌^◌, ◌≤◌, ◌<◌, ◌≡◌, refl, ap, ◌↔◌, ◌⊎◌, inl, inr, Option, List, [],
  ◌∷◌, ◌++◌, arith, Option-cases, length, take, length-append,
}
use angelkey_kbfsbeta.Prelude.Result.{ok}
use angelkey_kbfsbeta.Padding.{
  pad_block, depad_block, put_uint32, take_block, next_power_of_two, err, padded_block_read,
}

take-append_all {ℓ} : {A : Type ℓ} (xs ys : List A) → take (length xs) (xs ++ ys) ≡ xs
take-append_all [] ys = refl
take-append_all (x ∷ r) ys = ap (◌∷◌ x) (take-append_all r ys)

depad_block-put_uint32 :
    (n : ℕ) (rest : List ℕ) → n < 2 ^ 32 → depad_block (put_uint32 n ++ rest) ≡ take_block n rest
unfolding depad_block put_uint32
depad_block-put_uint32 n rest h =
    let e : n % 256
          + 256 * (n / 256 % 256)
          + 65536 * (n / 65536 % 256)
          + 16777216 * (n / 16777216 % 256)
        ≡ n =
      omega arith in
    ap (λ k. take_block k rest) e

take_block_whole :
    (block bytes : List ℕ)
    → length block < 2 ^ 32
    → take_block (length block % 2 ^ 32) (block ++ bytes) ≡ ok block
unfolding take_block
take_block_whole block bytes h =
    let m : length block % 2 ^ 32 ≡ length block = omega arith in
    rw m (ground (arith, length-append block bytes, take-append_all block bytes))

-- What padBlock makes of a block shorter than 2^32 bytes, whatever random bytes it reads, depadBlock
-- turns back into that block.
pub depad_block-pad_block :
    (rand : ℕ → Option (List ℕ)) (block : List ℕ) {padded : List ℕ}
    → length block < 2 ^ 32
    → pad_block rand block ≡ ok padded
    → depad_block padded ≡ ok block
unfolding pad_block
depad_block-pad_block rand block {padded} h e =
    let n = length block % 2 ^ 32 in
    elim (Option-cases (rand ((next_power_of_two n + 2 ^ 32 - n) % 2 ^ 32))) [
      | inl f ↦ absurd (ground arith)
      | inr (bytes, f) ↦
          let q : put_uint32 n ++ (block ++ bytes) ≡ padded = ground arith in
          let m : length block % 2 ^ 32 ≡ length block = omega arith in
          rw (← q, depad_block-put_uint32 n (block ++ bytes) (omega arith))
            (take_block_whole block bytes h)
    ]

-- Let depadBlock read a length that fits a uint32. It returns the next bytes, up to that many, exactly
-- when as many follow or the length is at least 2^32 - 4: its sum with the size of the prefix wraps
-- then, so it passes the check whatever follows. Otherwise it fails, with the sizes that it compared.
pub depad_block-put_uint32_iff :
    (n : ℕ) (rest : List ℕ)
    → n < 2 ^ 32
    → ((depad_block (put_uint32 n ++ rest) ≡ ok (take n rest))
        ↔ (n ≤ length rest) ⊎ (2 ^ 32 ≤ n + 4))
      × ((depad_block (put_uint32 n ++ rest) ≡ err (padded_block_read (4 + length rest) (n + 4)))
          ↔ (length rest < n) × (n + 4 < 2 ^ 32))
unfolding take_block
depad_block-put_uint32_iff n rest k =
    rw (depad_block-put_uint32 n rest k, take_block) ((ground arith), (ground arith))
