-- ===== src/Ops/Writes/Collapsed.antt =====
-- ops.go, addToCollapsedWriteRange: the collapsed form that the comments of the source describe,
-- and that every addition keeps.
use angelkey_kbfsbeta.Prelude.{
  ℕ, ◌+◌, ◌^◌, ◌≤◌, ◌<◌, ◌≡◌, refl, ◌⊎◌, inl, inr, Bool, true, false, ◌||◌, List, ◌∷◌, ◌++◌, arith,
  leb, if◌then◌else◌, Bool-cases, [],
}
use angelkey_kbfsbeta.Ops.Writes.{
  WriteRange, is_truncate, end, affects, coalesced_end, coalesced_off, coalesce_to, last_of,
  coalesce_writes, split_mid, add_truncate, add_to_collapsed_write_range, add_behind_head,
}

-- The range ends inside the address space.
abbrev pub Fits : WriteRange → Type 0
Fits w = w.off + w.len < 2 ^ 64

-- A collapsed list whose parts start at `lo` or behind it: each write ends in front of the next
-- write with a gap, and a truncate stands last, no earlier than the end of the write before it.
abbrev pub CollapsedFrom : ℕ → List WriteRange → Type 0
CollapsedFrom lo [] = Unit
CollapsedFrom lo (w ∷ r) =
    Fits w
    × (lo ≤ (if is_truncate w then w.off + 1 else w.off))
    × ((r ≡ []) ⊎ (0 < w.len))
    × CollapsedFrom (w.off + w.len + 1) r

abbrev pub IsCollapsed : List WriteRange → Type 0
IsCollapsed = CollapsedFrom 0

pub end_lem : (w : WriteRange) → Fits w → end w ≡ w.off + w.len
unfolding end
end_lem w h = omega arith

CollapsedFrom-mono :
    (lo lo' : ℕ) (ws : List WriteRange) → lo' ≤ lo → CollapsedFrom lo ws → CollapsedFrom lo' ws
CollapsedFrom-mono lo lo' [] le h = tt
CollapsedFrom-mono lo lo' (w ∷ r) le h = (h.0, omega (arith, h.1), h.2, h.3)

pub split_mid_hit :
    (w y : WriteRange) (r : List WriteRange)
    → affects w y ≡ true
    → split_mid w (y ∷ r) ≡ (y ∷ (split_mid w r).0, (split_mid w r).1)
unfolding split_mid
split_mid_hit w y r h = rw h

pub split_mid_miss :
    (w y : WriteRange) (r : List WriteRange)
    → affects w y ≡ false
    → split_mid w (y ∷ r) ≡ ([], y ∷ r)
unfolding split_mid
split_mid_miss w y r h = rw h

-- A write that is added, the affected range `x ∷ mid` that it joins, and what stands behind it.
pub record Joins (w x : WriteRange) (mid rest : List WriteRange) : Type 0 where
  pub past_new : w.off + w.len ≤ coalesced_end (end w) (last_of x mid)
  pub fits : coalesced_end (end w) (last_of x mid) < 2 ^ 64
  pub at_truncate : (rest ≡ []) ⊎ (is_truncate (last_of x mid) ≡ false)
  pub behind : CollapsedFrom (coalesced_end (end w) (last_of x mid) + 1) rest

-- Two facts of a list whose second element exists: the first is a write, and the gap.
pub write_of_cons :
    (x y : WriteRange) (r : List WriteRange) → ((y ∷ r ≡ []) ⊎ (0 < x.len)) → 0 < x.len
write_of_cons x y r (inl e) = cc
write_of_cons x y r (inr p) = p

-- The combined end stays in front of the next write that the new one does not affect.
joined_gap :
    (w x y : WriteRange)
    → Fits w
    → Fits x
    → Fits y
    → 0 < w.len
    → 0 < x.len
    → affects w x ≡ true
    → affects w y ≡ false
    → (x.off + x.len + 1 ≤ (if is_truncate y then y.off + 1 else y.off))
    → coalesced_end (end w) x + 1 ≤ (if is_truncate y then y.off + 1 else y.off)
unfolding affects coalesced_end
joined_gap w x y fw fx fy pw px a b g = ground (arith, end_lem w fw, end_lem x fx, end_lem y fy)

coalesced_end_range :
    (w x : WriteRange)
    → Fits w
    → Fits x
    → (w.off + w.len ≤ coalesced_end (end w) x) × (coalesced_end (end w) x < 2 ^ 64)
unfolding coalesced_end
coalesced_end_range w x fw fx = ground (arith, end_lem w fw, end_lem x fx)

Joins-last :
    (w x y : WriteRange) (r : List WriteRange) (lo : ℕ)
    → Fits w
    → 0 < w.len
    → affects w x ≡ true
    → affects w y ≡ false
    → CollapsedFrom lo (x ∷ y ∷ r)
    → Joins w x [] (y ∷ r)
Joins-last w x y r lo fw pw a b c =
    let px = write_of_cons x y r c.2 in
    let range = coalesced_end_range w x fw c.0 in
    record {
      past_new = range.0;
      fits = range.1;
      at_truncate = inr (ground arith);
      behind = (c.3.0, joined_gap w x y fw c.0 c.3.0 pw px a b c.3.1, c.3.2, c.3.3);
    }

pub joins :
    (w x : WriteRange) (r : List WriteRange) (lo : ℕ)
    → Fits w
    → 0 < w.len
    → affects w x ≡ true
    → CollapsedFrom lo (x ∷ r)
    → Joins w x (split_mid w r).0 (split_mid w r).1
unfolding split_mid
joins w x [] lo fw pw a c = record {
  past_new = (coalesced_end_range w x fw c.0).0;
  fits = (coalesced_end_range w x fw c.0).1;
  at_truncate = inl refl;
  behind = tt;
}
joins w x (y ∷ r) lo fw pw a c = elim (Bool-cases (affects w y)) [
  | inl b ↦ rw (split_mid_hit w y r b) (extend (joins w y r _ fw pw b c.3))
  | inr b ↦ rw (split_mid_miss w y r b) (Joins-last w x y r lo fw pw a b c)
]
  where
    extend : {mid rest : List WriteRange} → Joins w y mid rest → Joins w x (y ∷ mid) rest
    extend j = record {
      past_new = j.past_new;
      fits = j.fits;
      at_truncate = j.at_truncate;
      behind = j.behind;
    }

pub coalesced_off_range :
    (w x : WriteRange) (lo : ℕ)
    → lo ≤ w.off
    → lo ≤ (if is_truncate x then x.off + 1 else x.off)
    → (lo ≤ coalesced_off w.off x) × (coalesced_off w.off x ≤ w.off)
unfolding coalesced_off
coalesced_off_range w x lo h k = ground arith

-- The combined write, and the rest behind it, are collapsed.
coalesce_to-collapsed :
    (new_off new_end lo : ℕ) (truncated : Bool) (rest : List WriteRange)
    → lo ≤ new_off
    → new_off < new_end
    → new_end < 2 ^ 64
    → ((rest ≡ []) ⊎ (truncated ≡ false))
    → CollapsedFrom (new_end + 1) rest
    → CollapsedFrom lo (coalesce_to new_off new_end truncated ++ rest)
unfolding coalesce_to
coalesce_to-collapsed new stop lo true rest h k f (inl e) c =
    rw e
      (ground arith, ground arith, inr (ground arith), (ground arith, ground arith, inl refl, tt))
coalesce_to-collapsed new stop lo true rest h k f (inr e) c = cc
coalesce_to-collapsed new stop lo false rest h k f t c = (
  ground arith,
  ground arith,
  inr (ground arith),
  CollapsedFrom-mono (stop + 1) _ rest (ground arith) c,
)

joined-collapsed :
    (w x : WriteRange) (mid rest : List WriteRange) (lo : ℕ)
    → 0 < w.len
    → lo ≤ w.off
    → lo ≤ (if is_truncate x then x.off + 1 else x.off)
    → Joins w x mid rest
    → CollapsedFrom lo (coalesce_writes (x ∷ mid) w ++ rest)
unfolding coalesce_writes
joined-collapsed w x mid rest lo pw h k j =
    let o = coalesced_off_range w x lo h k in
    coalesce_to-collapsed (coalesced_off w.off x) (coalesced_end (end w) (last_of x mid)) lo
      (is_truncate (last_of x mid)) rest o.0 (omega (arith, o.1, j.past_new)) j.fits j.at_truncate
      j.behind

-- A write that starts no later than `x` and does not affect it ends in front of it.
pub unaffected_gap :
    (w x : WriteRange)
    → Fits w
    → Fits x
    → 0 < w.len
    → w.off ≤ x.off
    → affects w x ≡ false
    → w.off + w.len + 1 ≤ (if is_truncate x then x.off + 1 else x.off)
unfolding affects
unaffected_gap w x fw fx pw h a = ground (arith, end_lem w fw, end_lem x fx)

add_write-collapsed :
    (w x : WriteRange) (r : List WriteRange) (lo : ℕ)
    → Fits w
    → 0 < w.len
    → lo ≤ w.off
    → ((w.off ≤ x.off) ⊎ (affects w x ≡ true))
    → CollapsedFrom lo (x ∷ r)
    → CollapsedFrom lo (coalesce_writes (split_mid w (x ∷ r)).0 w ++ (split_mid w (x ∷ r)).1)
add_write-collapsed w x r lo fw pw h s c = elim (Bool-cases (affects w x)) [
  | inl a ↦ rw (split_mid_hit w x r a) (
      joined-collapsed w x (split_mid w r).0 (split_mid w r).1 lo pw h c.1
        (joins w x r lo fw pw a c))
  | inr a ↦ rw (split_mid_miss w x r a) (
      unfold coalesce_writes in
      (fw, ground arith, inr pw, (c.0, unaffected_gap w x fw c.0 pw (ground arith) a, c.2, c.3)))
]

add_truncate-collapsed :
    (w x : WriteRange) (r : List WriteRange) (lo : ℕ)
    → Fits w
    → w.len ≡ 0
    → lo ≤ w.off + 1
    → CollapsedFrom lo (x ∷ r)
    → CollapsedFrom lo (add_truncate (x ∷ r) w)
unfolding add_truncate
add_truncate-collapsed w x r lo fw z h c = ground arith

-- What is put behind `head` is collapsed, where `head` ends at the first range that starts no
-- earlier than the new one or that it affects.
add_behind_head-collapsed :
    (w x : WriteRange) (r : List WriteRange) (lo : ℕ)
    → Fits w
    → lo ≤ (if is_truncate w then w.off + 1 else w.off)
    → ((w.off ≤ x.off) ⊎ (affects w x ≡ true))
    → CollapsedFrom lo (x ∷ r)
    → CollapsedFrom lo (add_behind_head (x ∷ r) w)
add_behind_head-collapsed w x r lo fw h s c = elim (Bool-cases (is_truncate w)) [
  | inl t ↦
      unfold add_behind_head in
      rw t (add_truncate-collapsed w x r lo fw (ground arith) (ground arith) c)
  | inr t ↦
      unfold add_behind_head in
      rw t (add_write-collapsed w x r lo fw (ground arith) (ground arith) s c)
]

pub passed_gap :
    (w x : WriteRange)
    → Fits w
    → Fits x
    → leb w.off x.off || affects w x ≡ false
    → (0 < x.len) × (x.off + x.len + 1 ≤ (if is_truncate w then w.off + 1 else w.off))
unfolding affects
passed_gap w x fw fx a = ground (arith, end_lem w fw, end_lem x fx)

pub stopped :
    (w x : WriteRange)
    → leb w.off x.off || affects w x ≡ true
    → (w.off ≤ x.off) ⊎ (affects w x ≡ true)
stopped w x a = ground arith

add_from-collapsed :
    (ws : List WriteRange) (w : WriteRange) (lo : ℕ)
    → Fits w
    → lo ≤ (if is_truncate w then w.off + 1 else w.off)
    → CollapsedFrom lo ws
    → CollapsedFrom lo (add_to_collapsed_write_range ws w)
unfolding add_to_collapsed_write_range
add_from-collapsed [] w lo fw h c = unfold add_behind_head in ground arith
add_from-collapsed (x ∷ r) w lo fw h c = elim (Bool-cases (leb w.off x.off || affects w x)) [
  | inl a ↦ rw a (add_behind_head-collapsed w x r lo fw h (stopped w x a) c)
  | inr a ↦
      let g = passed_gap w x fw c.0 a in
      rw a (c.0, c.1, inr g.0, add_from-collapsed r w (x.off + x.len + 1) fw g.1 c.3)
]

-- Adding a write or a truncate, whose end does not pass 2^64, to a collapsed list gives a collapsed
-- list: writes with gaps between them, in order, and a truncate at most at the end.
pub add_to_collapsed_write_range-IsCollapsed :
    (ws : List WriteRange) (w : WriteRange)
    → Fits w
    → IsCollapsed ws
    → IsCollapsed (add_to_collapsed_write_range ws w)
add_to_collapsed_write_range-IsCollapsed ws w fw c = add_from-collapsed ws w 0 fw (ground arith) c
