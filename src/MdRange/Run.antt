-- ===== src/MdRange/Run.antt =====
-- md_util.go, getMDRange: what it returns is a run of revisions without a hole.
use angelkey_kbfsbeta.Prelude.{
  ℕ, zero, suc, ◌+◌, ◌-◌, ◌≤◌, ◌≡◌, refl, ◌∙◌, subst, ◌⊎◌, inl, inr, ◌||◌, Option, none, some, List,
  [], ◌∷◌, ◌++◌, arith, ltb, leb, Bool-cases, Option-cases, length, take, drop, length-append,
  length-take, length-drop,
}
use angelkey_kbfsbeta.Prelude.Result.{ok, Result-cases}
use angelkey_kbfsbeta.MdRange.{
  RevRange, Slots, touch, add_missing, scan, set_at, place, download, check_holes, finish,
  get_md_range,
}
use angelkey_kbfsbeta.MdRange.Filled.{
  IsRun, IsFilled, IsFilled-snoc_none, IsFilled-snoc, IsFilled-set_at, length-set_at, IsFilled-drop,
  IsFilled-take, check_holes-IsRun,
}

module _ {A : Type 0} (revision : A → ℕ) where
  -- Slots of this many revisions, each empty or with its own metadata.
  pub record IsRange (start n : ℕ) (s : Slots A) : Type 0 where
    pub filled : IsFilled revision start s.rmds
    pub size : length s.rmds ≡ n

  place-IsRange :
      (start n : ℕ) (fetched : List A) (s : Slots A) {t : Slots A}
      → IsRange start n s
      → place revision start fetched s ≡ ok t
      → IsRange start n t
  unfolding place
  place-IsRange start n [] s {t} h e = let q : s ≡ t = ground arith in subst (IsRange start n) q h
  place-IsRange start n (a ∷ more) s {t} h e =
      let slot = revision a - start in
      let u : Slots A = record (touch revision slot s) {
        rmds = set_at revision slot a s.rmds;
        puts = s.puts ++ a ∷ [];
      } in
      let q : (place revision start more u ≡ ok t) × (start ≤ revision a) = ground arith in
      place-IsRange start n more u
        (record {
          filled = IsFilled-set_at revision start slot a s.rmds h.filled (omega (arith, q.1));
          size = length-set_at revision slot a s.rmds ∙ h.size;
        })
        q.0

  download-IsRange :
      (fetch : ℕ → ℕ → Option (List A)) (start n : ℕ) (ranges : List RevRange) (s : Slots A)
      {t : Slots A}
      → IsRange start n s
      → download revision fetch start ranges s ≡ ok t
      → IsRange start n t
  unfolding download
  download-IsRange fetch start n [] s {t} h e =
      let q : s ≡ t = ground arith in subst (IsRange start n) q h
  download-IsRange fetch start n (r ∷ more) s {t} h e = elim (Option-cases (fetch r.start r.stop)) [
    | inl m ↦ absurd (ground arith)
    | inr (fetched, m) ↦ elim (Result-cases (place revision start fetched s)) [
      | inl (x, k) ↦ absurd (ground arith)
      | inr (u, k) ↦
          let q : download revision fetch start more u ≡ ok t = ground arith in
          download-IsRange fetch start n more u (place-IsRange start n fetched s h k) q
    ]
  ]

  pub scan-IsRange :
      (cached : ℕ → Option A) (start n i k : ℕ) (s : Slots A) (ranges : List RevRange)
      → ((j : ℕ) (a : A) → cached j ≡ some a → revision a ≡ j)
      → i ≡ start + k
      → IsRange start k s
      → IsRange start (k + n) (scan revision cached n i s ranges).0
  unfolding scan
  scan-IsRange cached start zero i k s ranges c e h =
      let q : k ≡ k + 0 = omega arith in subst (λ m. IsRange start m s) q h
  scan-IsRange cached start (suc n) i k s ranges c e h =
      let q : k + 1 + n ≡ k + suc n = omega arith in
      elim (Option-cases (cached i)) [
        | inl m ↦
            let u : Slots A = record s { rmds = s.rmds ++ none ∷ [] } in
            let step : scan revision cached n (i + 1) u (add_missing i ranges)
                ≡ scan revision cached (suc n) i s ranges =
              ground arith in
            let range : IsRange start (k + 1) u = record {
              filled = IsFilled-snoc_none revision start s.rmds h.filled;
              size = omega (arith, length-append s.rmds (none ∷ []), h.size);
            } in
            subst (λ x. IsRange start (k + suc n) x.0) step
              (subst
                (λ z. IsRange start z (scan revision cached n (i + 1) u (add_missing i ranges)).0) q
                (scan-IsRange cached start n (i + 1) (k + 1) u (add_missing i ranges) c
                  (omega arith) range))
        | inr (a, m) ↦
            let u : Slots A = record (touch revision (length s.rmds) s) {
              rmds = s.rmds ++ some a ∷ [];
            } in
            let step : scan revision cached n (i + 1) u ranges
                ≡ scan revision cached (suc n) i s ranges =
              ground arith in
            let range : IsRange start (k + 1) u = record {
              filled =
                  IsFilled-snoc revision start s.rmds a h.filled (omega (arith, c i a m, h.size));
              size = omega (arith, length-append s.rmds (some a ∷ []), h.size);
            } in
            subst (λ x. IsRange start (k + suc n) x.0) step
              (subst (λ z. IsRange start z (scan revision cached n (i + 1) u ranges).0) q
                (scan-IsRange cached start n (i + 1) (k + 1) u ranges c (omega arith) range))
      ]

  -- A run of revisions from `first` on, inside of the range.
  abbrev pub IsRunWithin : ℕ → ℕ → List A → Type 0
  IsRunWithin start stop rs =
      (first : ℕ) × (start ≤ first) × (first + length rs ≤ stop + 1) × IsRun revision first rs

  finish-IsRun :
      (start stop : ℕ) (s : Slots A) {rs : List A}
      → start ≤ stop + 1
      → IsRange start (stop + 1 - start) s
      → finish revision start s ≡ ok rs
      → (rs ≡ []) ⊎ IsRunWithin start stop rs
  unfolding finish
  finish-IsRun start stop s {rs} l h e = elim (Bool-cases (leb s.max_end s.min_slot)) [
    | inl b ↦ inl (ground arith)
    | inr b ↦
        let n = s.max_end - s.min_slot in
        let slots = take n (drop s.min_slot s.rmds) in
        let q : check_holes revision (start + s.min_slot) slots ≡ ok rs = ground arith in
        let run =
          check_holes-IsRun revision (start + s.min_slot) slots
            (IsFilled-take revision n (start + s.min_slot) (drop s.min_slot s.rmds)
              (IsFilled-drop revision s.min_slot start s.rmds h.filled))
            q in
        empty_or rs run.0 (
          omega (
            arith,
            run.1,
            h.size,
            length-take n (drop s.min_slot s.rmds),
            length-drop s.min_slot s.rmds,
          ))
  ]
    where
      empty_or :
          (l : List A)
          → IsRun revision (start + s.min_slot) l
          → length l ≤ stop + 1 - start - s.min_slot
          → (l ≡ []) ⊎ IsRunWithin start stop l
      empty_or [] r b = inl refl
      empty_or (a ∷ l) r b = inr (start + s.min_slot, omega arith, omega arith, r)

  -- If each metadata in the cache has the revision under which it is found, whatever the server
  -- answers, getMDRange returns nothing or metadata of successive revisions, without a hole, of
  -- which the first is not before the start and the last is not behind the end.
  pub get_md_range-IsRun :
      (cached : ℕ → Option A) (fetch : ℕ → ℕ → Option (List A)) (start stop : ℕ) {rs : List A}
      → ((j : ℕ) (a : A) → cached j ≡ some a → revision a ≡ j)
      → get_md_range revision cached fetch start stop ≡ ok rs
      → (rs ≡ []) ⊎ IsRunWithin start stop rs
  unfolding get_md_range
  get_md_range-IsRun cached fetch start stop {rs} c e =
      elim (Bool-cases (ltb start 1 || ltb stop 1)) [
        | inl b ↦ inl (ground arith)
        | inr b ↦ elim (Bool-cases (ltb (stop + 1) start)) [
          | inl d ↦ absurd (ground arith)
          | inr d ↦
              let n = stop + 1 - start in
              let s0 : Slots A = record { rmds = []; min_slot = n; max_end = 0; puts = [] } in
              let zero_n : 0 + n ≡ n = omega arith in
              let scanned = scan revision cached n start s0 [] in
              let range =
                scan-IsRange cached start n start 0 s0 [] c (omega arith)
                  (record { filled = tt; size = refl }) in
              elim (Result-cases (download revision fetch start scanned.1 scanned.0)) [
                | inl (x, k) ↦ absurd (ground arith)
                | inr (t, k) ↦
                    let q : finish revision start t ≡ ok rs = ground arith in
                    finish-IsRun start stop t (ground arith)
                      (download-IsRange fetch start n scanned.1 scanned.0
                        (subst (λ z. IsRange start z scanned.0) zero_n range) k)
                      q
              ]
        ]
      ]
