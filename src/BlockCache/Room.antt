-- ===== src/BlockCache/Room.antt =====
-- libkbfs/bcache.go, makeRoomForSize: its loop ends, and what it leaves.
use angelkey_kbfsbeta.Prelude.{
  ℕ, zero, suc, ◌+◌, ◌≤◌, ◌<◌, ◌≡◌, refl, ap, ◌∙◌, subst, ◌⊎◌, inl, inr, Bool, true, false, not,
  ◌&&◌, Option, some, arith, dec_lt, ltb, ◌==◌, Bool-cases,
}
use angelkey_kbfsbeta.Data.{BlockPointer}
use angelkey_kbfsbeta.BlockCache.{
  Lru, IdCacheKey, Block, BlockCache, add64, on_evict, evict_oldest, count_size, make_room_for_size,
}

module _ (ids : Lru IdCacheKey BlockPointer) (transient : Lru ℕ Block) where
  -- The size fits, or the transient cache is empty.
  abbrev IsDone : ℕ → ℕ → transient.Cache × ℕ → Type 0
  IsDone capacity size (t, total) =
      (add64 total size ≤ capacity) ⊎ (capacity < add64 total size) × (transient.len t ≡ 0)

  -- Removing the oldest entry of an empty cache leaves its length.
  len-remove_oldest_empty :
      (t : transient.Cache) → transient.len t ≡ 0 → transient.len (transient.remove_oldest t).0 ≡ 0
  len-remove_oldest_empty t e =
      ap (λ (x : transient.Cache × Option Block). transient.len x.0)
        (transient.remove_oldest_empty t e)
      ∙ e

  -- The cache has lost its oldest entry since its length was taken, or it was empty then.
  abbrev Shrinks : ℕ → ℕ → transient.Cache → Type 0
  Shrinks fuel old_len t =
      (transient.len t + 2 ≤ fuel) × (old_len ≡ suc (transient.len t))
      ⊎ (1 ≤ fuel) × (old_len ≡ 0) × (transient.len t ≡ 0)

  shrinks :
      (fuel : ℕ) (t : transient.Cache)
      → transient.len t + 2 ≤ suc fuel
      → Shrinks fuel (transient.len t) (transient.remove_oldest t).0
  shrinks fuel t h = elim (dec_lt 0 (transient.len t)) [
    | yes p ↦ inl (
      omega (arith, transient.len-remove_oldest t p),
      omega (arith, transient.len-remove_oldest t p),
    )
    | no n ↦
        let z : transient.len t ≡ 0 = omega arith in
        inr (omega arith, z, len-remove_oldest_empty t z)
  ]

  -- The test of the loop.
  abbrev goes_on : ℕ → ℕ → ℕ → ℕ → ℕ → Bool
  goes_on capacity size total old_len len = ltb capacity (add64 total size) && not (old_len == len)

  goes_on-false :
      (capacity size total fuel old_len : ℕ) (t : transient.Cache)
      → Shrinks fuel old_len t
      → goes_on capacity size total old_len (transient.len t) ≡ false
      → IsDone capacity size (t, total)
  goes_on-false capacity size total fuel old_len t (inl (h, e)) f = inl (ground arith)
  goes_on-false capacity size total fuel old_len t (inr (h, e, z)) f =
      elim (dec_lt capacity (add64 total size)) [ yes p ↦ inr (p, z) | no n ↦ inl (omega arith) ]

  goes_on-true :
      (capacity size total fuel old_len : ℕ) (t : transient.Cache)
      → Shrinks fuel old_len t
      → goes_on capacity size total old_len (transient.len t) ≡ true
      → transient.len t + 2 ≤ fuel
  goes_on-true capacity size total fuel old_len t (inl (h, e)) f = h
  goes_on-true capacity size total fuel old_len t (inr (h, e, z)) f = absurd (ground arith)

  evict_oldest_total :
      (fuel capacity size old_len : ℕ) (t : transient.Cache) (total : ℕ)
      → Shrinks fuel old_len t
      → (r : transient.Cache × ℕ) × (evict_oldest ids transient fuel capacity size old_len t total
          ≡ some r)
        × IsDone capacity size r
  unfolding evict_oldest
  evict_oldest_total zero capacity size old_len t total p =
      absurd (elim p [ inl h ↦ omega arith | inr h ↦ omega arith ])
  evict_oldest_total (suc f) capacity size old_len t total p =
      elim (Bool-cases (goes_on capacity size total old_len (transient.len t))) [
        | inl e ↦ rw e (
            evict_oldest_total f capacity size (transient.len t) (transient.remove_oldest t).0
              (on_evict (transient.remove_oldest t).1 total)
              (shrinks f t (goes_on-true capacity size total (suc f) old_len t p e)))
        | inr e ↦ rw e ((t, total), refl, goes_on-false capacity size total (suc f) old_len t p e)
      ]

  -- The result of makeRoomForSize for a cache that has a transient part.
  abbrev pub IsRoom : ℕ → ℕ → Bool × BlockCache ids.Cache transient.Cache → Type 0
  IsRoom capacity size (made, c) =
      (made ≡ true) × (c.clean_total_bytes ≤ capacity)
      ⊎ (made ≡ false)
        × (capacity < add64 c.clean_total_bytes size)
        × ((t : transient.Cache) → c.clean_transient ≡ some t → transient.len t ≡ 0)

  count_size-IsRoom :
      (size : ℕ) (r : transient.Cache × ℕ) (c : BlockCache ids.Cache transient.Cache)
      → IsDone c.clean_bytes_capacity size r
      → IsRoom c.clean_bytes_capacity size (count_size ids transient size r c)
  unfolding count_size
  count_size-IsRoom size (t, total) c (inl h) =
      let e : ltb c.clean_bytes_capacity (add64 total size) ≡ false = ground arith in
      rw e (inl (refl, h))
  count_size-IsRoom size (t, total) c (inr (h, z)) =
      let e : ltb c.clean_bytes_capacity (add64 total size) ≡ true = ground arith in
      rw e (inr (refl, h, λ t' q. subst (λ x. transient.len x ≡ 0) (cc q) z))

  -- The loop of makeRoomForSize ends: fuel for one round for each entry of the transient cache, and
  -- two more, is enough. If makeRoomForSize returns true, then the bytes that it leaves counted are
  -- at most the capacity. If it returns false, the size still does not fit, and the transient cache
  -- is empty.
  pub make_room_for_size_total :
      (size : ℕ) (c : BlockCache ids.Cache transient.Cache) (t : transient.Cache)
      → c.clean_transient ≡ some t
      → (r : transient.Cache × ℕ) × (evict_oldest ids transient
            (transient.len t + 2)
            c.clean_bytes_capacity
            size
            (transient.len t + 1)
            t
            c.clean_total_bytes
          ≡ some r)
        × (make_room_for_size ids transient size c ≡ count_size ids transient size r c)
        × IsRoom c.clean_bytes_capacity size (make_room_for_size ids transient size c)
  unfolding make_room_for_size
  make_room_for_size_total size c t e =
      let (r, q, d) =
        evict_oldest_total (transient.len t + 2) c.clean_bytes_capacity size (transient.len t + 1) t
          c.clean_total_bytes (inl (omega arith, omega arith)) in
      let same : make_room_for_size ids transient size c ≡ count_size ids transient size r c =
        rw (e, q, make_room_for_size) refl in
      (r, q, same, rw same (count_size-IsRoom size r c d))
