-- ===== src/MdRange/Filled.antt =====
-- md_util.go, getMDRange: slots that are empty or hold the metadata of their own revision.
use angelkey_kbfsbeta.Prelude.{
  ℕ, zero, suc, ◌+◌, ◌≡◌, refl, ap, subst, inl, inr, Option, none, some, List, [], ◌∷◌, ◌++◌, arith,
  length, take, drop,
}
use angelkey_kbfsbeta.Prelude.Result.{ok, Result-cases}
use angelkey_kbfsbeta.MdRange.{set_at, check_holes}

module _ {A : Type 0} (revision : A → ℕ) where
  -- The metadata have this revision, the next one, and so on.
  abbrev pub IsRun : ℕ → List A → Type 0
  IsRun n [] = Unit
  IsRun n (a ∷ r) = (revision a ≡ n) × IsRun (n + 1) r

  -- The same of slots, where a slot may be empty.
  abbrev pub IsFilled : ℕ → List (Option A) → Type 0
  IsFilled n [] = Unit
  IsFilled n (none ∷ r) = IsFilled (n + 1) r
  IsFilled n (some a ∷ r) = (revision a ≡ n) × IsFilled (n + 1) r

  pub IsFilled-snoc_none :
      (n : ℕ) (l : List (Option A)) → IsFilled n l → IsFilled n (l ++ none ∷ [])
  IsFilled-snoc_none n [] h = tt
  IsFilled-snoc_none n (none ∷ r) h = IsFilled-snoc_none (n + 1) r h
  IsFilled-snoc_none n (some a ∷ r) h = (h.0, IsFilled-snoc_none (n + 1) r h.1)

  pub IsFilled-snoc :
      (n : ℕ) (l : List (Option A)) (a : A)
      → IsFilled n l
      → revision a ≡ n + length l
      → IsFilled n (l ++ some a ∷ [])
  IsFilled-snoc n [] a h e = (omega arith, tt)
  IsFilled-snoc n (none ∷ r) a h e = IsFilled-snoc (n + 1) r a h (omega arith)
  IsFilled-snoc n (some b ∷ r) a h e = (h.0, IsFilled-snoc (n + 1) r a h.1 (omega arith))

  pub IsFilled-set_at :
      (n slot : ℕ) (a : A) (l : List (Option A))
      → IsFilled n l
      → revision a ≡ n + slot
      → IsFilled n (set_at revision slot a l)
  IsFilled-set_at n slot a [] h e = tt
  IsFilled-set_at n zero a (none ∷ r) h e = (omega arith, h)
  IsFilled-set_at n zero a (some b ∷ r) h e = (omega arith, h.1)
  IsFilled-set_at n (suc slot) a (none ∷ r) h e = IsFilled-set_at (n + 1) slot a r h (omega arith)
  IsFilled-set_at n (suc slot) a (some b ∷ r) h e =
      (h.0, IsFilled-set_at (n + 1) slot a r h.1 (omega arith))

  pub length-set_at :
      (slot : ℕ) (a : A) (l : List (Option A)) → length (set_at revision slot a l) ≡ length l
  length-set_at slot a [] = refl
  length-set_at zero a (x ∷ r) = refl
  length-set_at (suc slot) a (x ∷ r) = ap suc (length-set_at slot a r)

  pub IsFilled-drop : (k n : ℕ) (l : List (Option A)) → IsFilled n l → IsFilled (n + k) (drop k l)
  IsFilled-drop zero n l h = let e : n ≡ n + 0 = omega arith in subst (λ m. IsFilled m l) e h
  IsFilled-drop (suc k) n [] h = tt
  IsFilled-drop (suc k) n (none ∷ r) h =
      let e : n + 1 + k ≡ n + suc k = omega arith in
      subst (λ m. IsFilled m (drop k r)) e (IsFilled-drop k (n + 1) r h)
  IsFilled-drop (suc k) n (some a ∷ r) h =
      let e : n + 1 + k ≡ n + suc k = omega arith in
      subst (λ m. IsFilled m (drop k r)) e (IsFilled-drop k (n + 1) r h.1)

  pub IsFilled-take : (k n : ℕ) (l : List (Option A)) → IsFilled n l → IsFilled n (take k l)
  IsFilled-take zero n l h = tt
  IsFilled-take (suc k) n [] h = tt
  IsFilled-take (suc k) n (none ∷ r) h = IsFilled-take k (n + 1) r h
  IsFilled-take (suc k) n (some a ∷ r) h = (h.0, IsFilled-take k (n + 1) r h.1)

  pub check_holes-IsRun :
      (n : ℕ) (l : List (Option A)) {rs : List A}
      → IsFilled n l
      → check_holes revision n l ≡ ok rs
      → IsRun n rs × (length rs ≡ length l)
  unfolding check_holes
  check_holes-IsRun n [] {rs} h e =
      let q : [] ≡ rs = ground arith in subst (λ l. IsRun n l × (length l ≡ 0)) q (tt, refl)
  check_holes-IsRun n (none ∷ r) h e = absurd (ground arith)
  check_holes-IsRun n (some a ∷ r) {rs} h e = elim (Result-cases (check_holes revision (n + 1) r)) [
    | inl (x, m) ↦ absurd (ground arith)
    | inr (l, m) ↦
        let q : a ∷ l ≡ rs = ground arith in
        let rest = check_holes-IsRun (n + 1) r h.1 m in
        subst (λ k. IsRun n k × (length k ≡ suc (length r))) q ((h.0, rest.0), ap suc rest.1)
  ]
