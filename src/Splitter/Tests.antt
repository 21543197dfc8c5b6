-- ===== src/Splitter/Tests.antt =====
-- CopyUntilSplit and NewBlockSplitterSimple at concrete inputs.
use angelkey_kbfsbeta.Prelude.{
  ℕ, ◌+◌, ◌-◌, ◌≤◌, ◌≡◌, refl, Option, some, List, [], ◌∷◌, arith, length,
}
use Prim.Native.Nat.{min}
use angelkey_kbfsbeta.Prelude.Result.{ok}
use angelkey_kbfsbeta.Splitter.{
  BlockSplitterSimple, copy_until_split, adjust_desired, find_max_size, new_block_splitter_simple,
}
use angelkey_kbfsbeta.Splitter.Power.{IsAdjusted}
use angelkey_kbfsbeta.Splitter.Size.{new_block_splitter_simple_exact}
use angelkey_kbfsbeta.Splitter.Copy.{copied_exact, copied_content, IsWritten}

abbrev ten : BlockSplitterSimple
ten = record { max_size = 10; block_change_embed_max_size = 100 }

abbrev old : List ℕ
old = 1 ∷ 2 ∷ 3 ∷ 4 ∷ []

-- The block fills up to ten bytes, and six of the seven are copied.
fills_up :
    copy_until_split ten old (11 ∷ 12 ∷ 13 ∷ 14 ∷ 15 ∷ 16 ∷ 17 ∷ []) 4
    ≡ (6, 1 ∷ 2 ∷ 3 ∷ 4 ∷ 11 ∷ 12 ∷ 13 ∷ 14 ∷ 15 ∷ 16 ∷ [])
unfolding copy_until_split
fills_up = refl

copied_exact_example : (copy_until_split ten old (7 ∷ []) 2).0 ≡ min 1 (10 - 2)
copied_exact_example = copied_exact ten old (7 ∷ []) 2 (omega arith) (omega arith)

copied_content_example :
    IsWritten
      (copy_until_split ten old (7 ∷ []) 2).0
      (7 ∷ [])
      2
      old
      (copy_until_split ten old (7 ∷ []) 2).1
    × (length (copy_until_split ten old (7 ∷ []) 2).1 ≤ 10)
copied_content_example = copied_content ten old (7 ∷ []) 2 (omega arith) (omega arith)

-- An encoding with eight bytes of overhead.
abbrev overhead : ℕ → Option ℕ
overhead n = some (n + 8)

abbrev made : BlockSplitterSimple
made = record { max_size = 55; block_change_embed_max_size = 9 }

makes_splitter : new_block_splitter_simple overhead 64 9 ≡ ok made
unfolding new_block_splitter_simple adjust_desired find_max_size
makes_splitter = refl

new_block_splitter_simple_exact_example :
    (goal : ℕ) × IsAdjusted 64 goal
    × (overhead made.max_size ≡ some goal)
    × (made.max_size ≤ goal)
    × (made.block_change_embed_max_size ≡ 9)
new_block_splitter_simple_exact_example =
    new_block_splitter_simple_exact overhead 64 9 makes_splitter
