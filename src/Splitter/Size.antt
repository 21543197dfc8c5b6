-- ===== src/Splitter/Size.antt =====
-- bsplitter_simple.go, NewBlockSplitterSimple: the maximal size fits the desired block size.
use angelkey_kbfsbeta.Prelude.{
  ℕ, zero, suc, ◌+◌, ◌-◌, ◌≤◌, ◌≡◌, inl, inr, Option, some, arith, Option-cases,
}
use angelkey_kbfsbeta.Prelude.Result.{ok}
use angelkey_kbfsbeta.Splitter.{
  BlockSplitterSimple, adjust_desired, find_max_size, new_block_splitter_simple,
}
use angelkey_kbfsbeta.Splitter.Power.{IsAdjusted, adjust_desired-IsAdjusted}

module _ (encoded_len : ℕ → Option ℕ) where
  find_max_size_exact :
      (attempts desired max_size : ℕ) {m : ℕ}
      → find_max_size encoded_len attempts desired max_size ≡ ok m
      → (encoded_len m ≡ some desired) × (m ≤ desired)
  unfolding find_max_size
  find_max_size_exact zero desired max_size h = cc
  find_max_size_exact (suc attempts) desired max_size {m} h =
      elim (Option-cases (encoded_len max_size)) [
        | inl e ↦ ground arith
        | inr (len, e) ↦
            ground (arith, find_max_size_exact attempts desired (max_size + desired - len) {m = m})
      ]

  -- If a splitter is made, a block with the maximal contents encodes to exactly the desired size, less
  -- one if that is a power of 2, and the maximal size is at most that.
  pub new_block_splitter_simple_exact :
      (desired embed : ℕ) {b : BlockSplitterSimple}
      → new_block_splitter_simple encoded_len desired embed ≡ ok b
      → (goal : ℕ) × IsAdjusted desired goal
        × (encoded_len b.max_size ≡ some goal)
        × (b.max_size ≤ goal)
        × (b.block_change_embed_max_size ≡ embed)
  unfolding new_block_splitter_simple
  new_block_splitter_simple_exact desired embed {b} h =
      let exact : (encoded_len b.max_size ≡ some (adjust_desired desired))
          × (b.max_size ≤ adjust_desired desired)
          × (b.block_change_embed_max_size ≡ embed) =
        ground (
          arith,
          find_max_size_exact 10 (adjust_desired desired) (adjust_desired desired) {m = b.max_size},
        ) in
      let positive : 1 ≤ desired = ground arith in
      (
        adjust_desired desired,
        adjust_desired-IsAdjusted desired positive,
        exact.0,
        exact.1,
        exact.2,
      )
