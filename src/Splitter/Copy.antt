-- ===== src/Splitter/Copy.antt =====
-- bsplitter_simple.go, CopyUntilSplit: what is copied, and where.
use angelkey_kbfsbeta.Prelude.{
  ℕ, zero, suc, ◌+◌, ◌-◌, ◌≤◌, ◌≡◌, sym, ◌∙◌, List, ◌++◌, arith, length, take, drop, replicate,
  length-append, length-take, length-drop, length-replicate, take-take_append, drop-take_append,
  take-append_left, drop_all, drop-drop,
}
use Prim.Native.Nat.{min}
use mathlib.Core.List.{append-nil}
use angelkey_kbfsbeta.Splitter.{BlockSplitterSimple, copy_until_split}

-- For a block that is not over the maximal size, and an offset in it or at its end, the number of
-- bytes copied is the smaller of the length of the data and the room behind the offset.
pub copied_exact :
    (b : BlockSplitterSimple) (contents data_bytes : List ℕ) (off : ℕ)
    → length contents ≤ b.max_size
    → off ≤ b.max_size
    → (copy_until_split b contents data_bytes off).0 ≡ min (length data_bytes) (b.max_size - off)
unfolding copy_until_split
copied_exact b contents data_bytes off h k =
    let n = length data_bytes in
    let curr_len = length contents in
    ground (
      arith,
      length-append contents (replicate (b.max_size - curr_len) 0),
      length-append contents (replicate (n + off - curr_len) 0),
      length-replicate {A = ℕ} (b.max_size - curr_len) 0,
      length-replicate {A = ℕ} (n + off - curr_len) 0,
    )

-- The contents after a write of `k` bytes of the data at an offset.
pub record IsWritten (k : ℕ) (data_bytes : List ℕ) (off : ℕ) (old new : List ℕ) : Type 0 where
  pub before : take off new ≡ take off old
  pub inside : take k (drop off new) ≡ take k data_bytes
  pub behind : drop (off + k) new ≡ drop (off + k) old

write-IsWritten :
    (k : ℕ) (data_bytes : List ℕ) (off : ℕ) (c : List ℕ)
    → off + k ≤ length c
    → k ≤ length data_bytes
    → IsWritten k data_bytes off c (take off c ++ (take k data_bytes ++ drop (off + k) c))
write-IsWritten k d off c h l = record {
  before = take-take_append off c _ (omega arith);
  inside =
      rw (drop-take_append off c (take k d ++ drop (off + k) c) (omega arith))
        (take-take_append k d _ l);
  behind =
      sym (drop-drop k off _)
      ∙ rw (drop-take_append off c (take k d ++ drop (off + k) c) (omega arith))
          (drop-take_append k d _ l);
}

-- Filling the block with zeros up to the end of the write changes none of the three parts.
fill-IsWritten :
    (k : ℕ) (d : List ℕ) (off z : ℕ) (c new : List ℕ)
    → off ≤ length c
    → length c + z ≡ off + k
    → IsWritten k d off (c ++ replicate z 0) new
    → IsWritten k d off c new
fill-IsWritten k d off z c new h e w =
    let n = length-append c (replicate z 0) in
    let m = length-replicate {A = ℕ} z 0 in
    record {
      before = w.before ∙ take-append_left off c (replicate z 0) h;
      inside = w.inside;
      behind =
          w.behind
          ∙ drop_all (off + k) (c ++ replicate z 0) (omega arith)
          ∙ sym (drop_all (off + k) c (omega arith));
    }

-- The same where nothing is filled in.
unfilled :
    (k : ℕ) (d : List ℕ) (off z : ℕ) (c new : List ℕ)
    → off ≤ length c
    → z ≡ off + k - length c
    → IsWritten k d off (c ++ replicate z 0) new
    → IsWritten k d off c new
unfilled k d off zero c new h e w = rw append-nil at w
unfilled k d off (suc z) c new h e w = fill-IsWritten k d off (suc z) c new h (omega arith) w

abbrev room : BlockSplitterSimple → List ℕ → ℕ → ℕ
room b d off = min (length d) (b.max_size - off)

-- How many zeros the block is filled with.
abbrev filled : BlockSplitterSimple → List ℕ → List ℕ → ℕ → ℕ
filled b c d off = off + room b d off - length c

copied_as :
    (b : BlockSplitterSimple) (c d : List ℕ) (off : ℕ)
    → length c ≤ b.max_size
    → off ≤ length c
    → (copy_until_split b c d off).1
      ≡ take off (c ++ replicate (filled b c d off) 0)
        ++ (take (room b d off) d
            ++ drop (off + room b d off) (c ++ replicate (filled b c d off) 0))
unfolding copy_until_split
copied_as b c d off h k =
    let n = length d in
    ground (
      arith,
      length-append c (replicate (b.max_size - length c) 0),
      length-append c (replicate (n + off - length c) 0),
      length-replicate {A = ℕ} (b.max_size - length c) 0,
      length-replicate {A = ℕ} (n + off - length c) 0,
      append-nil c,
    )

length-take-append-drop :
    (k : ℕ) (d : List ℕ) (off : ℕ) (c : List ℕ)
    → off + k ≤ length c
    → k ≤ length d
    → length (take off c ++ (take k d ++ drop (off + k) c)) ≡ length c
length-take-append-drop k d off c h l = omega (
  arith,
  length-append (take off c) (take k d ++ drop (off + k) c),
  length-append (take k d) (drop (off + k) c),
  length-take off c,
  length-take k d,
  length-drop (off + k) c,
)

-- For a block that is not over the maximal size, and an offset in it or at its end, CopyUntilSplit
-- writes as many bytes of the data as it reports, at the offset, keeps every other byte of the block,
-- and leaves a block that is not over the maximal size.
pub copied_content :
    (b : BlockSplitterSimple) (contents data_bytes : List ℕ) (off : ℕ)
    → length contents ≤ b.max_size
    → off ≤ length contents
    → IsWritten
        (copy_until_split b contents data_bytes off).0
        data_bytes
        off
        contents
        (copy_until_split b contents data_bytes off).1
      × (length (copy_until_split b contents data_bytes off).1 ≤ b.max_size)
copied_content b contents data_bytes off h k =
    let z = filled b contents data_bytes off in
    let n = room b data_bytes off in
    let c = contents ++ replicate z 0 in
    let len = length-append contents (replicate z 0) in
    let len' = length-replicate {A = ℕ} z 0 in
    let w = write-IsWritten n data_bytes off c (omega arith) (omega arith) in
    rw
      (
        copied_exact b contents data_bytes off h (omega arith),
        copied_as b contents data_bytes off h k,
      )
      (
        unfilled n data_bytes off z contents _ k (omega arith) w,
        omega (arith, length-take-append-drop n data_bytes off c (omega arith) (omega arith)),
      )
