-- ===== src/Ops/Writes/Effect.antt =====
-- ops.go, collapseWriteRange: which bytes a collapsed list covers, against the plain reading of the
-- operations one by one.
use angelkey_kbfsbeta.Prelude.{
  ℕ, ◌+◌, ◌^◌, ◌≤◌, ◌<◌, ◌≡◌, refl, sym, ap, ◌∙◌, ◌⊎◌, inl, inr, Bool, true, false, ◌&&◌, ◌||◌,
  List, ◌∷◌, ◌++◌, arith, ltb, leb, if◌then◌else◌, Bool-cases, All, [],
}
use angelkey_kbfsbeta.Ops.Writes.{
  WriteRange, is_truncate, end, affects, coalesced_end, coalesced_off, last_of, coalesce_to,
  coalesce_writes, split_mid, add_truncate, add_behind_head, add_to_collapsed_write_range,
  collapse_write_range,
}
use angelkey_kbfsbeta.Ops.Writes.Collapsed.{
  Fits, CollapsedFrom, IsCollapsed, end_lem, add_to_collapsed_write_range-IsCollapsed,
  write_of_cons, passed_gap, stopped, coalesced_off_range, joins, split_mid_hit, split_mid_miss,
}

-- The byte lies in the range. A truncate contains no byte.
abbrev pub within : WriteRange → ℕ → Bool
within w b = leb w.off b && ltb b (w.off + w.len)

abbrev pub covers : List WriteRange → ℕ → Bool
covers [] b = false
covers (w ∷ r) b = within w b || covers r b

-- Whether a byte is dirty after one operation, and after several.
abbrev pub dirty_after : Bool → WriteRange → ℕ → Bool
dirty_after dirty w b = if is_truncate w then dirty && ltb b w.off else dirty || within w b

abbrev pub dirty_after_all : Bool → List WriteRange → ℕ → Bool
dirty_after_all dirty [] b = dirty
dirty_after_all dirty (w ∷ r) b = dirty_after_all (dirty_after dirty w b) r b

covers-append :
    (xs ys : List WriteRange) (b : ℕ) → covers (xs ++ ys) b ≡ (covers xs b || covers ys b)
covers-append [] ys b = refl
covers-append (x ∷ r) ys b = ground (arith, covers-append r ys b)

covers-coalesce_to :
    (start stop b : ℕ) (truncated : Bool)
    → start < stop
    → stop < 2 ^ 64
    → covers (coalesce_to start stop truncated) b ≡ (leb start b && ltb b stop)
unfolding coalesce_to
covers-coalesce_to start stop b truncated h k = ground arith

-- A collapsed list covers nothing in front of its start.
covers_below :
    (lo : ℕ) (ws : List WriteRange) (b : ℕ) → CollapsedFrom lo ws → b < lo → covers ws b ≡ false
covers_below lo [] b c h = refl
covers_below lo (w ∷ r) b c h = ground (arith, covers_below (w.off + w.len + 1) r b c.3)

join_one :
    (w x : WriteRange) (b : ℕ)
    → Fits w
    → Fits x
    → 0 < w.len
    → affects w x ≡ true
    → (leb (coalesced_off w.off x) b && ltb b (coalesced_end (end w) x))
      ≡ (within x b || within w b)
unfolding affects coalesced_end coalesced_off
join_one w x b fw fx pw a = ground (arith, end_lem w fw, end_lem x fx)

touching :
    (w x : WriteRange)
    → Fits w
    → Fits x
    → 0 < w.len
    → 0 < x.len
    → affects w x ≡ true
    → (w.off ≤ x.off + x.len) × (x.off ≤ w.off + w.len)
unfolding affects
touching w x fw fx pw px a = ground (arith, end_lem w fw, end_lem x fx)

-- An affected range starts no later than the end of the new write.
starts_before_end :
    (w y : WriteRange)
    → Fits w
    → Fits y
    → 0 < w.len
    → affects w y ≡ true
    → (if is_truncate y then y.off + 1 else y.off) ≤ w.off + w.len
unfolding affects
starts_before_end w y fw fy pw a = ground (arith, end_lem w fw, end_lem y fy)

coalesced_off_behind :
    (new : ℕ) (y : WriteRange)
    → new + 1 ≤ (if is_truncate y then y.off + 1 else y.off)
    → coalesced_off new y ≡ new
unfolding coalesced_off
coalesced_off_behind new y h = ground arith

-- One more affected write in front of a combined range.
extend_front :
    (start : ℕ) (x : WriteRange) (stop b : ℕ)
    → 0 < x.len
    → start ≤ x.off + x.len
    → x.off + x.len ≤ stop
    → (leb (coalesced_off start x) b && ltb b stop) ≡ (within x b || leb start b && ltb b stop)
unfolding coalesced_off
extend_front start x stop b px h k = ground arith

join_more :
    (w x y : WriteRange) (stop b : ℕ) (inside : Bool)
    → Fits w
    → Fits x
    → Fits y
    → 0 < w.len
    → 0 < x.len
    → affects w x ≡ true
    → affects w y ≡ true
    → (x.off + x.len + 1 ≤ (if is_truncate y then y.off + 1 else y.off))
    → w.off + w.len ≤ stop
    → (leb (coalesced_off w.off y) b && ltb b stop) ≡ inside
    → (leb (coalesced_off w.off x) b && ltb b stop) ≡ (within x b || inside)
join_more w x y stop b inside fw fx fy pw px a a' g h e =
    let t = touching w x fw fx pw px a in
    let u = starts_before_end w y fw fy pw a' in
    let start_y = coalesced_off_behind w.off y (omega (arith, t.0, g)) in
    extend_front w.off x stop b px t.0 (omega (arith, u, g, h))
    ∙ ap (λ c. within x b || c) (rw start_y at e)

or_assoc : (p q r : Bool) → ((p || q) || r) ≡ (p || (q || r))
or_assoc p q r = ground arith

-- The combined write covers what the affected ranges and the new write cover.
joins-covers :
    (w x : WriteRange) (r : List WriteRange) (lo b : ℕ)
    → Fits w
    → 0 < w.len
    → affects w x ≡ true
    → CollapsedFrom lo (x ∷ r)
    → (leb (coalesced_off w.off x) b && ltb b (coalesced_end (end w) (last_of x (split_mid w r).0)))
      ≡ (within x b || (covers (split_mid w r).0 b || within w b))
unfolding split_mid
joins-covers w x [] lo b fw pw a c = join_one w x b fw c.0 pw a
joins-covers w x (y ∷ r) lo b fw pw a c = elim (Bool-cases (affects w y)) [
  | inl h ↦
      let j = joins w y r (x.off + x.len + 1) fw pw h c.3 in
      rw (split_mid_hit w y r h) (
        join_more w x y _ b _ fw c.0 c.3.0 pw (write_of_cons x y r c.2) a h c.3.1 j.past_new (
          joins-covers w y r (x.off + x.len + 1) b fw pw h c.3
          ∙ sym (or_assoc (within y b) (covers (split_mid w r).0 b) (within w b))))
  | inr h ↦ rw (split_mid_miss w y r h) (join_one w x b fw c.0 pw a)
]

covers_split :
    (w : WriteRange) (ws : List WriteRange) (b : ℕ)
    → (covers (split_mid w ws).0 b || covers (split_mid w ws).1 b) ≡ covers ws b
unfolding split_mid
covers_split w [] b = refl
covers_split w (x ∷ r) b = ground (arith, covers_split w r b)

add_write-covers :
    (w x : WriteRange) (r : List WriteRange) (lo b : ℕ)
    → Fits w
    → 0 < w.len
    → CollapsedFrom lo (x ∷ r)
    → covers (coalesce_writes (split_mid w (x ∷ r)).0 w ++ (split_mid w (x ∷ r)).1) b
      ≡ (covers (x ∷ r) b || within w b)
add_write-covers w x r lo b fw pw c = elim (Bool-cases (affects w x)) [
  | inl a ↦
      let j = joins w x r lo fw pw a c in
      let o = coalesced_off_range w x 0 (ground arith) (ground arith) in
      rw (split_mid_hit w x r a) (
        unfold coalesce_writes in
        ground (
          arith,
          covers-append
              (coalesce_to (coalesced_off w.off x)
                (coalesced_end (end w) (last_of x (split_mid w r).0))
                (is_truncate (last_of x (split_mid w r).0)))
              (split_mid w r).1 b,
          covers-coalesce_to (coalesced_off w.off x)
              (coalesced_end (end w) (last_of x (split_mid w r).0)) b
              (is_truncate (last_of x (split_mid w r).0)) (omega (arith, o.1, j.past_new)) j.fits,
          joins-covers w x r lo b fw pw a c,
          covers_split w r b,
        ))
  | inr a ↦ rw (split_mid_miss w x r a) (unfold coalesce_writes in ground arith)
]

add_truncate-covers :
    (w x : WriteRange) (r : List WriteRange) (lo b : ℕ)
    → Fits w
    → w.len ≡ 0
    → ((w.off ≤ x.off) ⊎ (affects w x ≡ true))
    → CollapsedFrom lo (x ∷ r)
    → covers (add_truncate (x ∷ r) w) b ≡ (covers (x ∷ r) b && ltb b w.off)
unfolding add_truncate affects
add_truncate-covers w x r lo b fw z s c =
    ground (arith, end_lem x c.0, covers_below (x.off + x.len + 1) r b c.3)

add_behind_head-covers :
    (w x : WriteRange) (r : List WriteRange) (lo b : ℕ)
    → Fits w
    → ((w.off ≤ x.off) ⊎ (affects w x ≡ true))
    → CollapsedFrom lo (x ∷ r)
    → covers (add_behind_head (x ∷ r) w) b ≡ dirty_after (covers (x ∷ r) b) w b
add_behind_head-covers w x r lo b fw s c = elim (Bool-cases (is_truncate w)) [
  | inl t ↦ unfold add_behind_head in rw t (add_truncate-covers w x r lo b fw (ground arith) s c)
  | inr t ↦ unfold add_behind_head in rw t (add_write-covers w x r lo b fw (ground arith) c)
]

-- A range that the new one passes keeps its bytes.
passed-dirty :
    (w x : WriteRange) (b : ℕ) (rest : Bool)
    → Fits w
    → Fits x
    → leb w.off x.off || affects w x ≡ false
    → (within x b || dirty_after rest w b) ≡ dirty_after (within x b || rest) w b
passed-dirty w x b rest fw fx a = let g = passed_gap w x fw fx a in ground (arith, g.1)

-- A byte is covered after an operation is added to a collapsed list exactly when it is dirty after
-- that operation: a write adds its bytes, and a truncate drops the bytes at or behind its offset.
pub covers-add_to_collapsed_write_range :
    (ws : List WriteRange) (w : WriteRange) (lo b : ℕ)
    → Fits w
    → CollapsedFrom lo ws
    → covers (add_to_collapsed_write_range ws w) b ≡ dirty_after (covers ws b) w b
unfolding add_to_collapsed_write_range
covers-add_to_collapsed_write_range [] w lo b fw c = unfold add_behind_head in ground arith
covers-add_to_collapsed_write_range (x ∷ r) w lo b fw c =
    elim (Bool-cases (leb w.off x.off || affects w x)) [
      | inl a ↦ rw a (add_behind_head-covers w x r lo b fw (stopped w x a) c)
      | inr a ↦ rw a (
          ap (λ v. within x b || v)
            (covers-add_to_collapsed_write_range r w (x.off + x.len + 1) b fw c.3)
          ∙ passed-dirty w x b (covers r b) fw c.0 a)
    ]

-- Collapsing the writes of a sync into a collapsed list, where no range ends past 2^64, gives a
-- collapsed list, and a byte is covered by it exactly when it is dirty after all the operations, in
-- order.
pub covers-collapse_write_range :
    (more ws : List WriteRange)
    → All Fits more
    → IsCollapsed ws
    → IsCollapsed (collapse_write_range more ws)
      × ((b : ℕ) → covers (collapse_write_range more ws) b ≡ dirty_after_all (covers ws b) more b)
unfolding collapse_write_range
covers-collapse_write_range [] ws f c = (c, λ b. refl)
covers-collapse_write_range (w ∷ more) ws f c =
    let next =
      covers-collapse_write_range more (add_to_collapsed_write_range ws w) f.1
        (add_to_collapsed_write_range-IsCollapsed ws w f.0 c) in
    (
      next.0,
      λ b.
          next.1 b
          ∙ ap (λ d. dirty_after_all d more b) (covers-add_to_collapsed_write_range ws w 0 b f.0 c),
    )
