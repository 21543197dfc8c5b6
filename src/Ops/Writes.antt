-- ===== src/Ops/Writes.antt =====
-- libkbfs/ops.go: write ranges, and collapsing the writes of several syncs. Offsets and lengths are
-- uint64, and their sums and differences wrap. The loops over `writes` split a list here: Go's
-- slices `head`, `mid` and `end` are its parts. A call of End on a truncate panics: no such call is
-- made below, since every one stands behind a test of the length.
pub mod Collapsed
pub mod Effect
pub mod Cut
use angelkey_kbfsbeta.Prelude.{
  ℕ, ◌+◌, ◌-◌, ◌%◌, ◌^◌, Bool, true, ◌&&◌, ◌||◌, not, List, ◌∷◌, ◌++◌, ltb, leb, ◌==◌,
  if◌then◌else◌, [],
}

pub record WriteRange : Type 0 where
  pub off : ℕ
  pub len : ℕ

abbrev pub is_truncate : WriteRange → Bool
is_truncate w = w.len == 0

-- End, for a write.
unfoldable pub end : WriteRange → ℕ
end w = (w.off + w.len) % 2 ^ 64

unfoldable pub affects : WriteRange → WriteRange → Bool
affects w other =
    if is_truncate w
    then (if is_truncate other then true else ltb w.off (end other))
    else if is_truncate other
    then ltb other.off (end w)
    else leb w.off (end other) && leb (end other) (end w)
      || leb other.off (end w) && leb (end w) (end other)

-- The end and the start that coalesceWrites gives the combined write.
unfoldable pub coalesced_end : ℕ → WriteRange → ℕ
coalesced_end new_end tail =
    if not (is_truncate tail) && ltb new_end (end tail) then end tail else new_end

unfoldable pub coalesced_off : ℕ → WriteRange → ℕ
coalesced_off new_off head =
    if not (is_truncate head) && ltb head.off new_off then head.off else new_off

-- The combined write, with a truncate at its end if the last old range was one.
unfoldable pub coalesce_to : ℕ → ℕ → Bool → List WriteRange
coalesce_to new_off new_end truncated =
    let joined : WriteRange = record {
      off = new_off;
      len = (new_end + 2 ^ 64 - new_off) % 2 ^ 64;
    } in
    if truncated then joined ∷ (record { off = new_end; len = 0 }) ∷ [] else joined ∷ []

-- `existingWrites[len(existingWrites)-1]` of a list that is not empty.
abbrev pub last_of : WriteRange → List WriteRange → WriteRange
last_of w [] = w
last_of w (v ∷ r) = last_of v r

-- coalesceWrites, for a write `w`: a truncate there is a panic, and has no call.
unfoldable pub coalesce_writes : List WriteRange → WriteRange → List WriteRange
unfolding coalesce_to coalesced_end coalesced_off
coalesce_writes [] w = w ∷ []
coalesce_writes (head ∷ r) w =
    let tail = last_of head r in
    coalesce_to (coalesced_off w.off head) (coalesced_end (end w) tail) (is_truncate tail)

-- `writes[headEnd:midEnd]` and `writes[midEnd:]`: the loop over midEnd.
unfoldable pub split_mid : WriteRange → List WriteRange → List WriteRange × List WriteRange
split_mid w [] = ([], [])
split_mid w (old ∷ r) =
    let rest = split_mid w r in if affects w old then (old ∷ rest.0, rest.1) else ([], old ∷ r)

-- The truncate case of addToCollapsedWriteRange, on `mid`.
unfoldable pub add_truncate : List WriteRange → WriteRange → List WriteRange
add_truncate [] w = w ∷ []
add_truncate (m ∷ _) w =
    if is_truncate m
    then (if ltb m.off w.off then m ∷ [] else w ∷ [])
    else if ltb m.off w.off
    then (record { off = m.off; len = (w.off + 2 ^ 64 - m.off) % 2 ^ 64 }) ∷ w ∷ []
    else w ∷ []

-- What addToCollapsedWriteRange puts behind `head`.
unfoldable pub add_behind_head : List WriteRange → WriteRange → List WriteRange
unfolding add_truncate split_mid coalesce_writes
add_behind_head writes w =
    if is_truncate w
    then add_truncate writes w
    else let (mid, rest) = split_mid w writes in coalesce_writes mid w ++ rest

-- addToCollapsedWriteRange: the loop over headEnd passes each write that is kept in `head`.
unfoldable pub add_to_collapsed_write_range : List WriteRange → WriteRange → List WriteRange
add_to_collapsed_write_range [] w = add_behind_head [] w
add_to_collapsed_write_range (old ∷ r) w =
    let rest = add_to_collapsed_write_range r w in
    if leb w.off old.off || affects w old then add_behind_head (old ∷ r) w else old ∷ rest

-- syncOp.collapseWriteRange, with the operation's writes first.
unfoldable pub collapse_write_range : List WriteRange → List WriteRange → List WriteRange
collapse_write_range [] writes = writes
collapse_write_range (w ∷ more) writes =
    collapse_write_range more (add_to_collapsed_write_range writes w)
