-- ===== src/BlockCache/Dirty.antt =====
-- libkbfs/bcache.go: the dirty blocks, and the estimate of their bytes.
use angelkey_kbfsbeta.Prelude.{
  ℕ, ◌+◌, ◌%◌, ◌^◌, ◌<◌, ◌≡◌, refl, sym, ap, ◌∙◌, ◌⊎◌, inl, inr, ite, Bool, true, false, Option,
  none, some, [], ◌∷◌, arith, ℕ_discrete, ◌==◌, Bool-cases, Option-cases, string_discrete,
}
use Prim.Native.String.{String}
use angelkey_kbfsbeta.Prelude.Result.{Result, ok}
use angelkey_kbfsbeta.Prelude.Map
use angelkey_kbfsbeta.Prelude.Map.{Map}
use angelkey_kbfsbeta.Data.{BlockPointer}
use angelkey_kbfsbeta.BlockCache.{
  Lru, IdCacheKey, Block, BlockCache, DirtyBlockId, dirty_id, dirty_block_id_discrete, CacheError,
  add64, get_cached_block_size, get_permanent, get_clean, get_block, put_dirty, delete_dirty,
  is_dirty, add_sizes, dirty_bytes_estimate_of,
}

-- The sizes of the blocks, without wrap-around.
abbrev pub total_size : Map DirtyBlockId Block → ℕ
total_size [] = 0
total_size ((_, block) ∷ r) = get_cached_block_size block + total_size r

-- What Get returns for a dirty block, or for none.
abbrev or_clean : Option Block → Result CacheError Block → Result CacheError Block
or_clean none r = r
or_clean (some block) r = ok block

abbrev is_some : Option Block → Bool
is_some none = false
is_some (some _) = true

module _ {P : Type 0} (d : Dec P) where
  or_clean-ite :
      (block : Block) (o : Option Block) (r : Result CacheError Block)
      → or_clean (ite d (some block) o) r ≡ ite d (ok block) (or_clean o r)
  or_clean-ite block o r = ground arith

  or_clean-ite-none :
      (o : Option Block) (r : Result CacheError Block)
      → or_clean (ite d none o) r ≡ ite d r (or_clean o r)
  or_clean-ite-none o r = ground arith

  is_some-ite : (x o : Option Block) → is_some (ite d x o) ≡ ite d (is_some x) (is_some o)
  is_some-ite x o = ground arith

-- One value for the same ID, nonce and branch, and another one otherwise.
abbrev pub if_same {ℓ} : {A : Type ℓ} → BlockPointer → BlockPointer → String → String → A → A → A
if_same ptr q branch other x y =
    ite (ℕ_discrete ptr.id q.id)
      (ite (ℕ_discrete ptr.ref_nonce q.ref_nonce) (ite (string_discrete branch other) x y) y) y

-- A test of three conditions at once, and one of each in turn.
ite-nested {ℓ} :
    {S P Q R : Type 0} {A : Type ℓ} (d : Dec S) (p : Dec P) (q : Dec Q) (r : Dec R)
    → (S → P × Q × R)
    → (P → Q → R → S)
    → (x y : A) → ite d x y ≡ ite p (ite q (ite r x y) y) y
ite-nested (yes s) (yes a) (yes b) (yes c) f g x y = refl
ite-nested (yes s) (no m) q r f g x y = absurd (m (f s).0)
ite-nested (yes s) (yes a) (no m) r f g x y = absurd (m (f s).1)
ite-nested (yes s) (yes a) (yes b) (no m) f g x y = absurd (m (f s).2)
ite-nested (no n) (no m) q r f g x y = refl
ite-nested (no n) (yes a) (no m) r f g x y = refl
ite-nested (no n) (yes a) (yes b) (no m) f g x y = refl
ite-nested (no n) (yes a) (yes b) (yes c) f g x y = absurd (n (g a b c))

if_same_lem {ℓ} :
    {A : Type ℓ} (ptr q : BlockPointer) (branch other : String) (x y : A)
    → ite (dirty_block_id_discrete (dirty_id ptr branch) (dirty_id q other)) x y
      ≡ if_same ptr q branch other x y
if_same_lem ptr q branch other =
    ite-nested (dirty_block_id_discrete (dirty_id ptr branch) (dirty_id q other))
      (ℕ_discrete ptr.id q.id) (ℕ_discrete ptr.ref_nonce q.ref_nonce) (string_discrete branch other)
      (λ e. (
        ap (λ (k : DirtyBlockId). k.id) e,
        ap (λ (k : DirtyBlockId). k.ref_nonce) e,
        ap (λ (k : DirtyBlockId). k.branch) e,
      ))
      (λ a b c. cc (a, b, c))

module _ (ids : Lru IdCacheKey BlockPointer) (transient : Lru ℕ Block) where
  add_sizes_lem :
      (total : ℕ) (m : Map DirtyBlockId Block)
      → total < 2 ^ 64
      → add_sizes ids transient total m ≡ (total + total_size m) % 2 ^ 64
  unfolding add_sizes
  add_sizes_lem total [] h = omega arith
  add_sizes_lem total ((k, block) ∷ r) h =
      add_sizes_lem (add64 total (get_cached_block_size block)) r (omega arith) ∙ omega arith

  -- The estimate is not known, or it is right.
  abbrev pub IsEstimated : BlockCache ids.Cache transient.Cache → Type 0
  IsEstimated c =
      (c.dirty_bytes_estimate ≡ 0) ⊎ (c.dirty_bytes_estimate ≡ total_size c.dirty % 2 ^ 64)

  estimate_exact :
      (c : BlockCache ids.Cache transient.Cache)
      → IsEstimated c
      → (dirty_bytes_estimate_of ids transient c).0 ≡ total_size c.dirty % 2 ^ 64
  unfolding dirty_bytes_estimate_of
  estimate_exact c h = elim (Bool-cases (c.dirty_bytes_estimate == 0)) [
    | inl z ↦
        let e : c.dirty_bytes_estimate ≡ 0 = ground arith in
        rw z (
          ap (λ n. add_sizes ids transient n c.dirty) e
          ∙ add_sizes_lem 0 c.dirty (omega arith)
          ∙ omega arith)
    | inr z ↦ rw z (elim h [ inl e ↦ absurd (ground arith) | inr e ↦ e ])
  ]

  -- DirtyBytesEstimate returns the sizes of the dirty blocks, added up in 64 bits, if the stored
  -- estimate is 0 or right; and PutDirty, DeleteDirty and DirtyBytesEstimate itself leave it so.
  pub dirty_bytes_estimate_exact :
      (c : BlockCache ids.Cache transient.Cache) (ptr : BlockPointer) (branch : String)
      (block : Block)
      → IsEstimated c
      → ((dirty_bytes_estimate_of ids transient c).0 ≡ total_size c.dirty % 2 ^ 64)
        × IsEstimated (dirty_bytes_estimate_of ids transient c).1
        × IsEstimated (put_dirty ids transient ptr branch block c)
        × IsEstimated (delete_dirty ids transient ptr branch c)
  unfolding dirty_bytes_estimate_of put_dirty delete_dirty
  dirty_bytes_estimate_exact c ptr branch block h =
      (estimate_exact c h, inr (estimate_exact c h), inl refl, inl refl)

  -- A dirty block stands in front of the clean ones.
  get_clean_same :
      (id : ℕ) (c : BlockCache ids.Cache transient.Cache) (d : Map DirtyBlockId Block) (n : ℕ)
      → (get_clean ids transient id (record c { dirty = d; dirty_bytes_estimate = n })).0
        ≡ (get_clean ids transient id c).0
  unfolding get_clean get_permanent
  get_clean_same id c d n = elim (Option-cases c.clean_transient) [
    | inl e ↦ rw (e, get_clean) refl
    | inr (t, e) ↦ rw (e, get_clean) refl
  ]

  get_block_lem :
      (q : BlockPointer) (other : String) (c : BlockCache ids.Cache transient.Cache)
      → (get_block ids transient q other c).0
        ≡ or_clean
            (Map.get dirty_block_id_discrete (dirty_id q other) c.dirty)
            (get_clean ids transient q.id c).0
  unfolding get_block
  get_block_lem q other c =
      elim (Option-cases (Map.get dirty_block_id_discrete (dirty_id q other) c.dirty)) [
        | inl e ↦ rw (e, get_block) refl
        | inr (block, e) ↦ rw (e, get_block) refl
      ]

  is_dirty_lem :
      (q : BlockPointer) (other : String) (c : BlockCache ids.Cache transient.Cache)
      → is_dirty ids transient q other c
        ≡ is_some (Map.get dirty_block_id_discrete (dirty_id q other) c.dirty)
  unfolding is_dirty
  is_dirty_lem q other c =
      elim (Option-cases (Map.get dirty_block_id_discrete (dirty_id q other) c.dirty)) [
        | inl e ↦ rw (e, is_dirty) refl
        | inr (block, e) ↦ rw (e, is_dirty) refl
      ]

  -- After PutDirty, Get returns the block for every pointer with the same ID and the same nonce, on
  -- the same branch, and what it returned before for any other; after DeleteDirty, it returns for
  -- them what the clean caches have for that ID, and what it returned before for any other. IsDirty
  -- tells which of them are dirty.
  pub get_block-put_dirty :
      (ptr q : BlockPointer) (branch other : String) (block : Block)
      (c : BlockCache ids.Cache transient.Cache)
      → ((get_block ids transient q other (put_dirty ids transient ptr branch block c)).0
          ≡ if_same ptr q branch other (ok block) (get_block ids transient q other c).0)
        × ((get_block ids transient q other (delete_dirty ids transient ptr branch c)).0
            ≡ if_same ptr q branch other
                (get_clean ids transient q.id c).0
                (get_block ids transient q other c).0)
        × (is_dirty ids transient q other (put_dirty ids transient ptr branch block c)
            ≡ if_same ptr q branch other true (is_dirty ids transient q other c))
        × (is_dirty ids transient q other (delete_dirty ids transient ptr branch c)
            ≡ if_same ptr q branch other false (is_dirty ids transient q other c))
  unfolding put_dirty delete_dirty
  get_block-put_dirty ptr q branch other block c =
      let k = dirty_id ptr branch in
      let j = dirty_id q other in
      let d = dirty_block_id_discrete k j in
      let was = get_block_lem q other c in
      let were = is_dirty_lem q other c in
      let put = Map.get-put dirty_block_id_discrete k j block c.dirty in
      let del = Map.get-delete dirty_block_id_discrete k j c.dirty in
      let clean = (get_clean ids transient q.id c).0 in
      (
        get_block_lem q other (put_dirty ids transient ptr branch block c)
            ∙ ap
                (λ r.
                  or_clean
                    (Map.get dirty_block_id_discrete j
                      (put_dirty ids transient ptr branch block c).dirty)
                    r)
                (get_clean_same q.id c (put_dirty ids transient ptr branch block c).dirty 0)
            ∙ ap (λ o. or_clean o clean) put
            ∙ or_clean-ite d block (Map.get dirty_block_id_discrete j c.dirty) clean
            ∙ ap (λ r. ite d (ok block) r) (sym was)
            ∙ if_same_lem ptr q branch other (ok block) (get_block ids transient q other c).0,
        get_block_lem q other (delete_dirty ids transient ptr branch c)
            ∙ ap
                (λ r.
                  or_clean
                    (Map.get dirty_block_id_discrete j
                      (delete_dirty ids transient ptr branch c).dirty)
                    r)
                (get_clean_same q.id c (delete_dirty ids transient ptr branch c).dirty 0)
            ∙ ap (λ o. or_clean o clean) del
            ∙ or_clean-ite-none d (Map.get dirty_block_id_discrete j c.dirty) clean
            ∙ ap (λ r. ite d clean r) (sym was)
            ∙ if_same_lem ptr q branch other clean (get_block ids transient q other c).0,
        is_dirty_lem q other (put_dirty ids transient ptr branch block c)
            ∙ ap is_some put
            ∙ is_some-ite d (some block) (Map.get dirty_block_id_discrete j c.dirty)
            ∙ ap (λ b. ite d true b) (sym were)
            ∙ if_same_lem ptr q branch other true (is_dirty ids transient q other c),
        is_dirty_lem q other (delete_dirty ids transient ptr branch c)
            ∙ ap is_some del
            ∙ is_some-ite d none (Map.get dirty_block_id_discrete j c.dirty)
            ∙ ap (λ b. ite d false b) (sym were)
            ∙ if_same_lem ptr q branch other false (is_dirty ids transient q other c),
      )
