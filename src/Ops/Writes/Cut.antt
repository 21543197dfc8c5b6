-- ===== src/Ops/Writes/Cut.antt =====
-- ops.go, collapseWriteRange: the truncate at the end of a collapsed list, against the plain reading
-- of the operations one by one.
use angelkey_kbfsbeta.Prelude.{
  ℕ, ◌+◌, ◌^◌, ◌≤◌, ◌<◌, ◌≡◌, refl, ap, ◌∙◌, ◌⊎◌, inl, inr, Bool, true, false, ◌||◌, Option, none,
  some, List, ◌∷◌, ◌++◌, arith, ltb, leb, if◌then◌else◌, Bool-cases, All, [],
}
use angelkey_kbfsbeta.Ops.Writes.{
  WriteRange, is_truncate, end, affects, coalesced_end, coalesced_off, last_of, coalesce_to,
  coalesce_writes, split_mid, add_truncate, collapse_write_range, add_to_collapsed_write_range,
  add_behind_head,
}
use angelkey_kbfsbeta.Ops.Writes.Collapsed.{
  Fits, CollapsedFrom, end_lem, split_mid_hit, split_mid_miss, Joins, write_of_cons,
  coalesced_off_range, joins, stopped, IsCollapsed, unaffected_gap, passed_gap,
  add_to_collapsed_write_range-IsCollapsed,
}

-- The offset of the truncate in a collapsed list, if there is one.
abbrev pub cut_of : List WriteRange → Option ℕ
cut_of [] = none
cut_of (w ∷ r) = if is_truncate w then some w.off else cut_of r

-- The offset after one operation: the least of two truncates counts, and a write moves it behind
-- the bytes that it writes.
abbrev pub cut_after : Option ℕ → WriteRange → Option ℕ
cut_after none w = if is_truncate w then some w.off else none
cut_after (some t) w =
    if is_truncate w
    then some (if ltb t w.off then t else w.off)
    else some (if ltb t (w.off + w.len) then w.off + w.len else t)

abbrev pub cut_after_all : Option ℕ → List WriteRange → Option ℕ
cut_after_all cut [] = cut
cut_after_all cut (w ∷ r) = cut_after_all (cut_after cut w) r

-- No truncate, or one at the bound or behind it.
abbrev CutFrom : ℕ → Option ℕ → Type 0
CutFrom lo none = Unit
CutFrom lo (some t) = lo ≤ t + 1

CutFrom-cut_of : (lo : ℕ) (ws : List WriteRange) → CollapsedFrom lo ws → CutFrom lo (cut_of ws)
CutFrom-cut_of lo [] c = tt
CutFrom-cut_of lo (w ∷ r) c = elim (Bool-cases (is_truncate w)) [
  | inl t ↦ ground arith
  | inr t ↦ rw t (weaken (cut_of r) (CutFrom-cut_of (w.off + w.len + 1) r c.3))
]
  where
    weaken : (o : Option ℕ) → CutFrom (w.off + w.len + 1) o → CutFrom lo o
    weaken none h = tt
    weaken (some t) h = ground arith

-- A write in front of the truncate leaves it.
cut_after_in_front :
    (w : WriteRange) (o : Option ℕ) → 0 < w.len → CutFrom (w.off + w.len + 1) o → cut_after o w ≡ o
cut_after_in_front w none p h = ground arith
cut_after_in_front w (some t) p h = ground arith

-- A truncate that cuts in front of another one replaces it.
cut_after_replaced :
    (w : WriteRange) (o : Option ℕ) → w.len ≡ 0 → CutFrom (w.off + 1) o → cut_after o w ≡ some w.off
cut_after_replaced w none z h = ground arith
cut_after_replaced w (some t) z h = ground arith

CutFrom-mono : (lo lo' : ℕ) (o : Option ℕ) → lo' ≤ lo → CutFrom lo o → CutFrom lo' o
CutFrom-mono lo lo' none h c = tt
CutFrom-mono lo lo' (some t) h c = omega arith

add_truncate-cut :
    (w x : WriteRange) (r : List WriteRange) (lo : ℕ)
    → w.len ≡ 0
    → ((w.off ≤ x.off) ⊎ (affects w x ≡ true))
    → CollapsedFrom lo (x ∷ r)
    → cut_of (add_truncate (x ∷ r) w) ≡ cut_after (cut_of (x ∷ r)) w
unfolding add_truncate
add_truncate-cut w x r lo z s c = elim (Bool-cases (is_truncate x)) [
  | inl t ↦ ground arith
  | inr t ↦
      let below : w.off ≤ x.off + x.len = unfold affects in ground (arith, end_lem x c.0) in
      let e = cut_after_replaced w (cut_of r) z (
        CutFrom-mono (x.off + x.len + 1) (w.off + 1) (cut_of r) (omega arith)
          (CutFrom-cut_of _ r c.3)) in
      ground arith
]

-- The truncate of an affected range `x ∷ mid` and of what stands behind it: it is the last affected
-- one, in front of the end of the new write, or it stands behind.
record SplitCut (w x : WriteRange) (r mid rest : List WriteRange) : Type 0 where
  pub cut :
      cut_of (x ∷ r)
      ≡ (if is_truncate (last_of x mid) then some (last_of x mid).off else cut_of rest)
  pub in_front : is_truncate (last_of x mid) ≡ true → (last_of x mid).off < end w

split_cut :
    (w x : WriteRange) (r : List WriteRange) (lo : ℕ)
    → is_truncate w ≡ false
    → affects w x ≡ true
    → CollapsedFrom lo (x ∷ r)
    → SplitCut w x r (split_mid w r).0 (split_mid w r).1
unfolding split_mid
split_cut w x [] lo n a c = record { cut = refl; in_front = λ t. unfold affects in ground arith }
split_cut w x (y ∷ r) lo n a c = elim (Bool-cases (affects w y)) [
  | inl b ↦ rw (split_mid_hit w y r b) (extend (split_cut w y r _ n b c.3))
  | inr b ↦
      rw (split_mid_miss w y r b)
        (record { cut = ground arith; in_front = λ t. unfold affects in ground arith })
]
  where
    px : 0 < x.len
    px = write_of_cons x y r c.2

    extend :
        {mid rest : List WriteRange} → SplitCut w y r mid rest → SplitCut w x (y ∷ r) (y ∷ mid) rest
    extend s = record { cut = ground (arith, s.cut); in_front = s.in_front }

cut_of-coalesce_to :
    (start stop : ℕ) (truncated : Bool) (rest : List WriteRange)
    → start < stop
    → stop < 2 ^ 64
    → cut_of (coalesce_to start stop truncated ++ rest)
      ≡ (if truncated then some stop else cut_of rest)
unfolding coalesce_to
cut_of-coalesce_to start stop truncated rest h k = ground arith

coalesced_end_truncate :
    (stop : ℕ) (tail : WriteRange) → is_truncate tail ≡ true → coalesced_end stop tail ≡ stop
unfolding coalesced_end
coalesced_end_truncate stop tail t = ground arith

joined-cut :
    (w x : WriteRange) (r mid rest : List WriteRange) (lo : ℕ)
    → Fits w
    → 0 < w.len
    → lo ≤ (if is_truncate x then x.off + 1 else x.off)
    → SplitCut w x r mid rest
    → Joins w x mid rest
    → cut_of (coalesce_writes (x ∷ mid) w ++ rest) ≡ cut_after (cut_of (x ∷ r)) w
unfolding coalesce_writes
joined-cut w x r mid rest lo fw pw h s j =
    let o = coalesced_off_range w x 0 (omega arith) (omega arith) in
    let tail = last_of x mid in
    let e =
      cut_of-coalesce_to (coalesced_off w.off x) (coalesced_end (end w) tail) (is_truncate tail)
        rest (omega (arith, o.1, j.past_new)) j.fits in
    elim (Bool-cases (is_truncate tail)) [
      | inl t ↦
          ground
            (arith, e, s.cut, s.in_front t, end_lem w fw, coalesced_end_truncate (end w) tail t)
      | inr t ↦
          let b =
            CutFrom-mono _ _ (cut_of rest) (omega (arith, j.past_new))
              (CutFrom-cut_of _ rest j.behind) in
          ground (arith, e, s.cut, cut_after_in_front w (cut_of rest) pw b)
    ]

add_write-cut :
    (w x : WriteRange) (r : List WriteRange) (lo : ℕ)
    → Fits w
    → 0 < w.len
    → ((w.off ≤ x.off) ⊎ (affects w x ≡ true))
    → CollapsedFrom lo (x ∷ r)
    → cut_of (coalesce_writes (split_mid w (x ∷ r)).0 w ++ (split_mid w (x ∷ r)).1)
      ≡ cut_after (cut_of (x ∷ r)) w
add_write-cut w x r lo fw pw s c = elim (Bool-cases (affects w x)) [
  | inl a ↦ rw (split_mid_hit w x r a) (
      joined-cut w x r (split_mid w r).0 (split_mid w r).1 lo fw pw c.1
        (split_cut w x r lo (ground arith) a c) (joins w x r lo fw pw a c))
  | inr a ↦
      let g = unaffected_gap w x fw c.0 pw (ground arith) a in
      let b = CutFrom-cut_of (w.off + w.len + 1) (x ∷ r) (c.0, g, c.2, c.3) in
      rw (split_mid_miss w x r a)
        (unfold coalesce_writes in ground (arith, cut_after_in_front w (cut_of (x ∷ r)) pw b))
]

add_behind_head-cut :
    (w x : WriteRange) (r : List WriteRange) (lo : ℕ)
    → Fits w
    → ((w.off ≤ x.off) ⊎ (affects w x ≡ true))
    → CollapsedFrom lo (x ∷ r)
    → cut_of (add_behind_head (x ∷ r) w) ≡ cut_after (cut_of (x ∷ r)) w
add_behind_head-cut w x r lo fw s c = elim (Bool-cases (is_truncate w)) [
  | inl t ↦ unfold add_behind_head in rw t (add_truncate-cut w x r lo (ground arith) s c)
  | inr t ↦ unfold add_behind_head in rw t (add_write-cut w x r lo fw (ground arith) s c)
]

cut_of-add_to_collapsed_write_range :
    (ws : List WriteRange) (w : WriteRange) (lo : ℕ)
    → Fits w
    → CollapsedFrom lo ws
    → cut_of (add_to_collapsed_write_range ws w) ≡ cut_after (cut_of ws) w
unfolding add_to_collapsed_write_range
cut_of-add_to_collapsed_write_range [] w lo fw c =
    unfold add_behind_head add_truncate coalesce_writes split_mid in ground arith
cut_of-add_to_collapsed_write_range (x ∷ r) w lo fw c =
    elim (Bool-cases (leb w.off x.off || affects w x)) [
      | inl a ↦ rw a (add_behind_head-cut w x r lo fw (stopped w x a) c)
      | inr a ↦
          let g = passed_gap w x fw c.0 a in
          let rest = cut_of-add_to_collapsed_write_range r w (x.off + x.len + 1) fw c.3 in
          rw a (ground (arith, rest, g.0))
    ]

-- Collapsing operations, of which none ends past 2^64, into a collapsed list gives a list with a
-- truncate exactly if there was one in the list or among the operations. It stands at the least
-- offset that was cut at, moved behind each later write that reaches over it.
pub cut_of-collapse_write_range :
    (more ws : List WriteRange)
    → All Fits more
    → IsCollapsed ws
    → cut_of (collapse_write_range more ws) ≡ cut_after_all (cut_of ws) more
unfolding collapse_write_range
cut_of-collapse_write_range [] ws f c = refl
cut_of-collapse_write_range (w ∷ more) ws f c =
    cut_of-collapse_write_range more (add_to_collapsed_write_range ws w) f.1
      (add_to_collapsed_write_range-IsCollapsed ws w f.0 c)
    ∙ ap (λ o. cut_after_all o more) (cut_of-add_to_collapsed_write_range ws w 0 f.0 c)
