-- ===== src/Padding/Tests.antt =====
-- Padding at concrete sizes, and the theorems at concrete inputs.
use angelkey_kbfsbeta.Prelude.{
  ℕ, ◌+◌, ◌^◌, ◌≤◌, ◌<◌, ◌≡◌, refl, ◌↔◌, ◌⊎◌, Option, some, List, [], ◌∷◌, ◌++◌, arith, take,
  replicate,
}
use angelkey_kbfsbeta.Prelude.Result.{ok, err}
use angelkey_kbfsbeta.Padding.{
  padded_block_read, pad_block, depad_block, put_uint32, next_power_of_two,
}
use angelkey_kbfsbeta.Padding.RoundTrip.{depad_block-pad_block, depad_block-put_uint32_iff}

next_powers :
    (next_power_of_two 0 ≡ 256)
    × (next_power_of_two 256 ≡ 512)
    × (next_power_of_two 257 ≡ 512)
    × (next_power_of_two 511 ≡ 512)
    × (next_power_of_two 5000 ≡ 8192)
unfolding next_power_of_two
next_powers = (refl, refl, refl, refl, refl)

abbrev zeros : ℕ → Option (List ℕ)
zeros n = some (replicate n 0)

abbrev three : List ℕ
three = 7 ∷ 8 ∷ 9 ∷ []

pad_three : pad_block zeros three ≡ ok (put_uint32 3 ++ (three ++ replicate 253 0))
unfolding pad_block next_power_of_two
pad_three = refl

depad_block-pad_block_example : depad_block (put_uint32 3 ++ (three ++ replicate 253 0)) ≡ ok three
depad_block-pad_block_example = depad_block-pad_block zeros three (omega arith) pad_three

-- The length is the greatest uint32, and three bytes follow.
depad_block-put_uint32_iff_example :
    ((depad_block (put_uint32 4294967295 ++ three) ≡ ok (take 4294967295 three))
      ↔ (4294967295 ≤ 3) ⊎ (2 ^ 32 ≤ 4294967295 + 4))
    × ((depad_block (put_uint32 4294967295 ++ three)
          ≡ err (padded_block_read (4 + 3) (4294967295 + 4)))
        ↔ (3 < 4294967295) × (4294967295 + 4 < 2 ^ 32))
depad_block-put_uint32_iff_example = depad_block-put_uint32_iff 4294967295 three (omega arith)
