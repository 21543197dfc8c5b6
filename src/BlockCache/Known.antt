-- ===== src/BlockCache/Known.antt =====
-- libkbfs/bcache.go: the pointers that are known by the hash of a block, and the count of bytes.
use angelkey_kbfsbeta.Prelude.{
  ℕ, suc, ◌+◌, ◌≤◌, ◌<◌, ◌≡◌, refl, sym, ap, ◌∙◌, ◌⊎◌, inl, inr, Bool, true, false, Option, some,
  List, arith, ℕ_discrete, ltb, if◌then◌else◌, Bool-cases, Option-cases,
}
use angelkey_kbfsbeta.Prelude.Result.{ok}
use angelkey_kbfsbeta.Prelude.Map
use angelkey_kbfsbeta.Data.{BlockPointer, zero_ref_nonce}
use angelkey_kbfsbeta.BlockCache.{
  Lru, IdCacheKey, Block, FileBlock, file_block, transient_entry, permanent_entry, BlockCache,
  add64, sub64, on_evict, get_cached_block_size, evict_oldest, count_size, make_room_for_size,
  delete_permanent, other_block,
}
use angelkey_kbfsbeta.BlockCache.Clean.{key_of, check_for_known_ptr, add_known, add_transient, put}

module _ (ids : Lru IdCacheKey BlockPointer) (transient : Lru ℕ Block) (hash : List ℕ → ℕ) where
  count_size-ids :
      (size : ℕ) (r : transient.Cache × ℕ) (c : BlockCache ids.Cache transient.Cache)
      → (count_size ids transient size r c).1.ids ≡ c.ids
  unfolding count_size
  count_size-ids size (t, total) c =
      elim (Bool-cases (ltb c.clean_bytes_capacity (add64 total size))) [
        | inl e ↦ rw e refl
        | inr e ↦ rw e refl
      ]

  make_room_for_size-ids :
      (size : ℕ) (c : BlockCache ids.Cache transient.Cache)
      → (make_room_for_size ids transient size c).1.ids ≡ c.ids
  unfolding make_room_for_size
  make_room_for_size-ids size c = elim (Option-cases c.clean_transient) [
    | inl e ↦ rw (e, make_room_for_size) refl
    | inr (t, e) ↦
        elim (Option-cases (
          evict_oldest ids transient (transient.len t + 2) c.clean_bytes_capacity size
            (transient.len t + 1) t c.clean_total_bytes)) [
              | inl f ↦ rw (e, f, make_room_for_size) refl
              | inr (r, f) ↦ rw (e, f, make_room_for_size) (count_size-ids size r c)
            ]
  ]

  add_transient-ids :
      (id : ℕ) (block : Block) (c : BlockCache ids.Cache transient.Cache)
      → (add_transient ids transient hash id block c).ids ≡ c.ids
  unfolding add_transient
  add_transient-ids id block c = elim (Option-cases c.clean_transient) [
    | inl e ↦ rw (e, add_transient) refl
    | inr (t, e) ↦ rw (e, add_transient) refl
  ]

  kept_either :
      (b : Bool) (x y : BlockCache ids.Cache transient.Cache)
      → x.ids ≡ y.ids
      → (if b then x else y).ids ≡ y.ids
  kept_either true x y e = e
  kept_either false x y e = refl

  add_known-ids :
      (ptr : BlockPointer) (tlf : ℕ) (f : FileBlock) (c : BlockCache ids.Cache transient.Cache)
      (i : ids.Cache)
      → f.is_ind ≡ false
      → c.ids ≡ some i
      → (add_known ids transient hash ptr tlf (file_block f) c).ids
        ≡ some
            (ids.add
              (key_of ids transient hash tlf f)
              (record ptr { ref_nonce = zero_ref_nonce })
              i).0
  unfolding add_known
  add_known-ids ptr tlf f c i d e = rw (d, e, add_known) refl

  check_found :
      (tlf : ℕ) (g : FileBlock) (c : BlockCache ids.Cache transient.Cache) (i : ids.Cache)
      (p : BlockPointer)
      → g.is_ind ≡ false
      → c.ids ≡ some i
      → (ids.get (key_of ids transient hash tlf g) i).0 ≡ some p
      → (check_for_known_ptr ids transient hash tlf g c).0 ≡ ok p
  unfolding check_for_known_ptr
  check_found tlf g c i p d e q = rw (d, e, check_for_known_ptr) (rw q refl)

  -- What makeRoomForSize returns in Put, and the transient cache that it leaves.
  abbrev pub made_room : FileBlock → BlockPointer → ℕ → BlockCache ids.Cache transient.Cache → Bool
  made_room f ptr tlf c =
      (make_room_for_size ids transient (get_cached_block_size (file_block f))
        (add_known ids transient hash ptr tlf (file_block f) c)).0

  abbrev pub transient_left :
      FileBlock → BlockPointer → ℕ → BlockCache ids.Cache transient.Cache → Option transient.Cache
  transient_left f ptr tlf c =
      (make_room_for_size ids transient (get_cached_block_size (file_block f))
        (add_known ids transient hash ptr tlf (file_block f) c)).1.clean_transient

  -- After Put of a direct file block for a transient entry, CheckForKnownPtr returns the pointer, with
  -- its nonce zeroed, for every direct file block with the same hash in the same folder. That is
  -- so whether or not makeRoomForSize made room for the block; if it made none, Put leaves the
  -- transient cache as that left it. The hypothesis is that the cache has a capacity.
  pub check_for_known_ptr-put :
      (ptr : BlockPointer) (tlf : ℕ) (f g : FileBlock) (c : BlockCache ids.Cache transient.Cache)
      (i : ids.Cache)
      → f.is_ind ≡ false
      → g.is_ind ≡ false
      → hash f.contents ≡ hash g.contents
      → c.ids ≡ some i
      → (c' : BlockCache ids.Cache transient.Cache) × (put ids transient hash ptr tlf
            (file_block f)
            transient_entry
            c
          ≡ ok c')
        × ((check_for_known_ptr ids transient hash tlf g c').0
            ≡ ok (record ptr { ref_nonce = zero_ref_nonce }))
        × ((made_room f ptr tlf c ≡ true) ⊎ (c'.clean_transient ≡ transient_left f ptr tlf c))
  unfolding put
  check_for_known_ptr-put ptr tlf f g c i df dg same e =
      let p = record ptr { ref_nonce = zero_ref_nonce } in
      let known = add_known ids transient hash ptr tlf (file_block f) c in
      let room = make_room_for_size ids transient (get_cached_block_size (file_block f)) known in
      let c' =
        if room.0 then add_transient ids transient hash ptr.id (file_block f) room.1 else room.1 in
      let left : c'.ids ≡ room.1.ids =
        kept_either room.0 (add_transient ids transient hash ptr.id (file_block f) room.1) room.1
          (add_transient-ids ptr.id (file_block f) room.1) in
      (
        c',
        refl,
        check_found tlf g c' (ids.add (key_of ids transient hash tlf f) p i).0 p dg
            (left
              ∙ make_room_for_size-ids (get_cached_block_size (file_block f)) known
              ∙ add_known-ids ptr tlf f c i df e)
            (ap
                (λ h.
                  (ids.get (record { tlf = tlf; plaintext_hash = h })
                    (ids.add (key_of ids transient hash tlf f) p i).0).0)
                (sym same)
              ∙ ids.get-add (key_of ids transient hash tlf f) p i),
        elim (Bool-cases room.0) [ inl r ↦ inl r | inr r ↦ inr (rw r refl) ],
      )

  -- With room for the size, the loop makes no round.
  room_at_once :
      (size : ℕ) (c : BlockCache ids.Cache transient.Cache) (t : transient.Cache)
      → c.clean_transient ≡ some t
      → add64 c.clean_total_bytes size ≤ c.clean_bytes_capacity
      → make_room_for_size ids transient size c ≡ (
        true,
        record c { clean_transient = some t; clean_total_bytes = add64 c.clean_total_bytes size },
      )
  unfolding make_room_for_size evict_oldest count_size
  room_at_once size c t e fits =
      let f : ltb c.clean_bytes_capacity (add64 c.clean_total_bytes size) ≡ false = ground arith in
      let fuel : transient.len t + 2 ≡ suc (transient.len t + 1) = omega arith in
      rw (e, fuel, make_room_for_size) (rw (f, evict_oldest) (rw (f, count_size) refl))

  -- Put of a block that is in the transient cache already, where there is room, adds no entry, and
  -- counts the bytes of the block a second time.
  pub put_again :
      (ptr : BlockPointer) (tlf : ℕ) (n : ℕ) (c : BlockCache ids.Cache transient.Cache)
      (t : transient.Cache)
      → c.clean_transient ≡ some t
      → (transient.get ptr.id t).0 ≡ some (other_block n)
      → add64 c.clean_total_bytes n ≤ c.clean_bytes_capacity
      → (c' : BlockCache ids.Cache transient.Cache) × (t' : transient.Cache) × (put ids transient
            hash ptr tlf
            (other_block n)
            transient_entry
            c
          ≡ ok c')
        × (c'.clean_transient ≡ some t')
        × (transient.len t' ≡ transient.len t)
        × (c'.clean_total_bytes ≡ add64 c.clean_total_bytes n)
  unfolding put add_transient
  put_again ptr tlf n c t e found fits =
      let (kept, same) = transient.add_present ptr.id (other_block n) (other_block n) t found in
      let left : BlockCache ids.Cache transient.Cache = record c {
        clean_transient = some (transient.add ptr.id (other_block n) t).0;
        clean_total_bytes = add64 c.clean_total_bytes n;
      } in
      let stored : put ids transient hash ptr tlf (other_block n) transient_entry c ≡ ok left =
        rw (room_at_once n c t e fits) (rw kept refl) in
      (left, (transient.add ptr.id (other_block n) t).0, stored, refl, same, refl)

  -- With an empty transient cache, the loop makes one round, which changes nothing.
  no_room :
      (size : ℕ) (c : BlockCache ids.Cache transient.Cache) (t : transient.Cache)
      → c.clean_transient ≡ some t
      → transient.len t ≡ 0
      → c.clean_bytes_capacity < add64 c.clean_total_bytes size
      → make_room_for_size ids transient size c ≡ (false, record c { clean_transient = some t })
  unfolding make_room_for_size evict_oldest count_size on_evict
  no_room size c t e z over =
      let f : ltb c.clean_bytes_capacity (add64 c.clean_total_bytes size) ≡ true = ground arith in
      rw (e, z, make_room_for_size)
        (rw (f, z, transient.remove_oldest_empty t z, evict_oldest)
          (rw (f, z, evict_oldest) (rw (f, count_size) refl)))

  deleted :
      (id : ℕ) (block : Block) (c : BlockCache ids.Cache transient.Cache)
      → Map.get ℕ_discrete id c.clean_permanent ≡ some block
      → (delete_permanent ids transient id c).clean_total_bytes
        ≡ sub64 c.clean_total_bytes (get_cached_block_size block)
  unfolding delete_permanent
  deleted id block c e = rw (e, delete_permanent) refl

  -- A permanent block for which there is no room is kept and not counted: Put leaves it in the
  -- permanent cache, and leaves the count of the clean bytes. DeletePermanent subtracts its size all
  -- the same, so the count ends below what it was by the size of the block, in 64 bits. The
  -- hypotheses are that the transient cache is empty, and that the block does not fit.
  pub put-delete_permanent :
      (ptr : BlockPointer) (tlf : ℕ) (block : Block) (c : BlockCache ids.Cache transient.Cache)
      (t : transient.Cache)
      → c.clean_transient ≡ some t
      → transient.len t ≡ 0
      → c.clean_bytes_capacity < add64 c.clean_total_bytes (get_cached_block_size block)
      → (c' : BlockCache ids.Cache transient.Cache) × (put ids transient hash ptr tlf block
            permanent_entry c
          ≡ ok c')
        × (c'.clean_total_bytes ≡ c.clean_total_bytes)
        × (Map.get ℕ_discrete ptr.id c'.clean_permanent ≡ some block)
        × ((delete_permanent ids transient ptr.id c').clean_total_bytes
            ≡ sub64 c.clean_total_bytes (get_cached_block_size block))
  unfolding put
  put-delete_permanent ptr tlf block c t e z over =
      let with_block : BlockCache ids.Cache transient.Cache = record c {
        clean_permanent = Map.put ℕ_discrete ptr.id block c.clean_permanent;
      } in
      let kept = Map.get-put_self ℕ_discrete ptr.id block c.clean_permanent in
      (
        record with_block { clean_transient = some t },
        rw (no_room (get_cached_block_size block) with_block t e z over) refl,
        refl,
        kept,
        deleted ptr.id block (record with_block { clean_transient = some t }) kept,
      )
