-- ===== src/MdRange/Whole.antt =====
-- md_util.go, getMDRange: a range that the cache holds whole.
use angelkey_kbfsbeta.Prelude.{
  ℕ, zero, suc, ◌+◌, ◌-◌, ◌≤◌, ◌<◌, ◌≡◌, refl, ap, ◌∙◌, subst, false, Option, none, some, List, [],
  ◌∷◌, ◌++◌, arith, leb, length, take, drop, length-append,
}
use angelkey_kbfsbeta.Prelude.Result.{ok}
use angelkey_kbfsbeta.MdRange.{Slots, touch, scan, download, check_holes, finish, get_md_range}
use angelkey_kbfsbeta.MdRange.Filled.{IsRun, IsFilled, check_holes-IsRun}
use angelkey_kbfsbeta.MdRange.Run.{scan-IsRange}

take_all {ℓ} : {A : Type ℓ} (n : ℕ) (xs : List A) → n ≡ length xs → take n xs ≡ xs
take_all zero [] e = refl
take_all zero (x ∷ r) e = absurd (omega arith)
take_all (suc n) [] e = refl
take_all (suc n) (x ∷ r) e = ap (◌∷◌ x) (take_all n r (omega arith))

module _ {A : Type 0} (revision : A → ℕ) where
  abbrev IsFull : List (Option A) → Type 0
  IsFull [] = Unit
  IsFull (none ∷ r) = ⊥
  IsFull (some a ∷ r) = IsFull r

  IsFull-snoc : (l : List (Option A)) (a : A) → IsFull l → IsFull (l ++ some a ∷ [])
  IsFull-snoc [] a h = tt
  IsFull-snoc (none ∷ r) a h = elim h [ ]
  IsFull-snoc (some b ∷ r) a h = IsFull-snoc r a h

  check_holes-IsFull :
      (n : ℕ) (l : List (Option A)) → IsFull l → (rs : List A) × (check_holes revision n l ≡ ok rs)
  unfolding check_holes
  check_holes-IsFull n [] h = ([], refl)
  check_holes-IsFull n (none ∷ r) h = elim h [ ]
  check_holes-IsFull n (some a ∷ r) h =
      let (rs, e) = check_holes-IsFull (n + 1) r h in (a ∷ rs, ground arith)

  -- The first `k` slots were found in the cache.
  record IsWhole (k : ℕ) (s : Slots A) : Type 0 where
    pub full : IsFull s.rmds
    pub size : length s.rmds ≡ k
    pub last : s.max_end ≡ k
    pub first : 0 < k → s.min_slot ≡ 0

  scan-IsWhole :
      (cached : ℕ → Option A) (n i k : ℕ) (s : Slots A)
      → ((j : ℕ) → i ≤ j → j < i + n → (a : A) × (cached j ≡ some a))
      → IsWhole k s
      → IsWhole (k + n) (scan revision cached n i s []).0 × ((scan revision cached n i s []).1 ≡ [])
  unfolding scan
  scan-IsWhole cached zero i k s c h =
      let q : k ≡ k + 0 = omega arith in (subst (λ m. IsWhole m s) q h, refl)
  scan-IsWhole cached (suc n) i k s c h =
      let (a, m) = c i (omega arith) (omega arith) in
      let u : Slots A = record (touch revision (length s.rmds) s) {
        rmds = s.rmds ++ some a ∷ [];
      } in
      let q : k + 1 + n ≡ k + suc n = omega arith in
      let step : scan revision cached n (i + 1) u [] ≡ scan revision cached (suc n) i s [] =
        ground arith in
      let whole : IsWhole (k + 1) u = record {
        full = IsFull-snoc s.rmds a h.full;
        size = omega (arith, length-append s.rmds (some a ∷ []), h.size);
        last = unfold touch in ground (arith, h.size, h.last);
        first = λ p. unfold touch in ground (arith, h.size, h.first);
      } in
      let rest =
        scan-IsWhole cached n (i + 1) (k + 1) u (λ j l b. c j (omega arith) (omega arith)) whole in
      subst (λ x. IsWhole (k + suc n) x.0 × (x.1 ≡ [])) step
        (subst (λ z. IsWhole z (scan revision cached n (i + 1) u []).0) q rest.0, rest.1)

  finish_whole :
      (start k : ℕ) (t : Slots A)
      → 0 < k
      → IsWhole k t
      → IsFilled revision start t.rmds
      → (rs : List A) × (finish revision start t ≡ ok rs)
        × (length rs ≡ k)
        × IsRun revision start rs
  unfolding finish
  finish_whole start k t p w f =
      let (rs, e) = check_holes-IsFull start t.rmds w.full in
      let run = check_holes-IsRun revision start t.rmds f e in
      let first = w.first p in
      let slots : take (t.max_end - t.min_slot) (drop t.min_slot t.rmds) ≡ t.rmds =
        rw first (take_all (t.max_end - 0) t.rmds (omega (arith, w.last, w.size))) in
      let at_start : start + t.min_slot ≡ start = omega (arith, first) in
      let some_slots : leb t.max_end t.min_slot ≡ false = ground (arith, w.last, first) in
      (rs, rw (some_slots, slots, at_start) e, omega (arith, run.1, w.size), run.0)

  get_md_range_inv :
      (cached : ℕ → Option A) (fetch : ℕ → ℕ → Option (List A)) (start stop : ℕ)
      → 1 ≤ start
      → start ≤ stop
      → (t : Slots A)
      → (let n = stop + 1 - start in
          let (s, ranges) =
            scan revision cached n start
              (record { rmds = []; min_slot = n; max_end = 0; puts = [] })
              [] in
          download revision fetch start ranges s ≡ ok t)
      → get_md_range revision cached fetch start stop ≡ finish revision start t
  unfolding get_md_range
  get_md_range_inv cached fetch start stop p l t d = ground arith

  -- If the cache has every revision from the start to the end, each under its own revision, then
  -- getMDRange returns all of them, in order, whatever the server would answer.
  pub get_md_range_whole :
      (cached : ℕ → Option A) (fetch : ℕ → ℕ → Option (List A)) (start stop : ℕ)
      → 1 ≤ start
      → start ≤ stop
      → ((j : ℕ) (a : A) → cached j ≡ some a → revision a ≡ j)
      → ((j : ℕ) → start ≤ j → j ≤ stop → (a : A) × (cached j ≡ some a))
      → (rs : List A) × (get_md_range revision cached fetch start stop ≡ ok rs)
        × (length rs ≡ stop + 1 - start)
        × IsRun revision start rs
  unfolding download
  get_md_range_whole cached fetch start stop p l c all =
      let n = stop + 1 - start in
      let s0 : Slots A = record { rmds = []; min_slot = n; max_end = 0; puts = [] } in
      let t = (scan revision cached n start s0 []).0 in
      let (w, none_missing) =
        scan-IsWhole cached n start 0 s0 (λ j g b. all j g (omega arith))
          (record { full = tt; size = refl; last = refl; first = λ z. absurd (omega arith) }) in
      let range =
        scan-IsRange revision cached start n start 0 s0 [] c (omega arith)
          (record { filled = tt; size = refl }) in
      let zero_n : 0 + n ≡ n = omega arith in
      let (rs, e, len, run) =
        finish_whole start n t (omega arith) (subst (λ m. IsWhole m t) zero_n w) range.filled in
      let downloaded : download revision fetch start (scan revision cached n start s0 []).1 t
          ≡ ok t =
        ap (λ r. download revision fetch start r t) none_missing in
      (rs, get_md_range_inv cached fetch start stop p l t downloaded ∙ e, len, run)
