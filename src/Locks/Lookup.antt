-- ===== src/Locks/Lookup.antt =====
-- leveled_mutex.go, getExclusionType: the early end of its loop is right on an ordered stack.
use angelkey_kbfsbeta.Prelude.{
  ℕ, ◌+◌, ◌<◌, ◌≡◌, ◌≢◌, refl, sym, ◌⊎◌, ◌↔◌, inl, inr, List, ◌∷◌, false, arith, All, [],
}
use angelkey_kbfsbeta.Prelude.Result.{ok}
use angelkey_kbfsbeta.Locks.{
  ExclusionType, ExclusionState, LockState, non_exclusion, write_exclusion, read_exclusion,
  find_exclusion, get_exclusion_type, assert_unlocked, assert_locked, assert_r_locked,
  assert_any_locked,
}
use angelkey_kbfsbeta.Locks.Order.{IsOrdered}

-- The mutex of this level is held, in this way.
abbrev pub Holds : ℕ → ExclusionType → List ExclusionState → Type 0
Holds level et [] = ⊥
Holds level et (e ∷ r) = (e.level ≡ level) × (e.exclusion_type ≡ et) ⊎ Holds level et r

find_exclusion_absent :
    (level n : ℕ) (es : List ExclusionState)
    → All (λ e. n < e.level) es
    → level < n + 1
    → find_exclusion level es ≡ non_exclusion
unfolding find_exclusion
find_exclusion_absent level n [] h l = refl
find_exclusion_absent level n (e ∷ r) h l = ground (arith, h.0)

Holds-above :
    (level n : ℕ) (et : ExclusionType) (es : List ExclusionState)
    → All (λ e. n < e.level) es
    → Holds level et es
    → n < level
Holds-above level n et [] h x = elim x [ ]
Holds-above level n et (e ∷ r) h (inl (p, q)) = omega (arith, h.0)
Holds-above level n et (e ∷ r) h (inr x) = Holds-above level n et r h.1 x

find_exclusion_held :
    (level : ℕ) (et : ExclusionType) (es : List ExclusionState)
    → IsOrdered es
    → Holds level et es
    → find_exclusion level es ≡ et
unfolding find_exclusion
find_exclusion_held level et [] o h = elim h [ ]
find_exclusion_held level et (e ∷ r) o (inl (p, q)) = ground arith
find_exclusion_held level et (e ∷ r) o (inr h) =
    let above = Holds-above level e.level et r o.0 h in
    ground (arith, find_exclusion_held level et r o.1 h)

held_of_find_exclusion :
    (level : ℕ) (et : ExclusionType) (es : List ExclusionState)
    → et ≢ non_exclusion
    → find_exclusion level es ≡ et
    → Holds level et es
unfolding find_exclusion
held_of_find_exclusion level et [] n h = absurd (n (sym h))
held_of_find_exclusion level et (e ∷ r) n h = ground (arith, held_of_find_exclusion level et r n)

-- On an ordered stack, with no other operation on the record running, getExclusionType reports a
-- type of exclusion other than none exactly when the mutex of that level is held in that way.
pub get_exclusion_type_iff :
    (level : ℕ) (et : ExclusionType) (s : LockState)
    → s.in_use ≡ false
    → IsOrdered s.exclusion_states
    → et ≢ non_exclusion
    → (get_exclusion_type level s ≡ ok et) ↔ Holds level et s.exclusion_states
unfolding get_exclusion_type
get_exclusion_type_iff level et s free o n = (
  λ h. held_of_find_exclusion level et s.exclusion_states n (ground arith),
  λ h. ground (arith, find_exclusion_held level et s.exclusion_states o h),
)

locked_inv :
    (level : ℕ) (s : LockState)
    → assert_locked level s ≡ ok tt
    → get_exclusion_type level s ≡ ok write_exclusion
unfolding assert_locked
locked_inv level s h = ground arith

locked_of :
    (level : ℕ) (s : LockState)
    → get_exclusion_type level s ≡ ok write_exclusion
    → assert_locked level s ≡ ok tt
unfolding assert_locked
locked_of level s h = ground arith

r_locked_inv :
    (level : ℕ) (s : LockState)
    → assert_r_locked level s ≡ ok tt
    → get_exclusion_type level s ≡ ok read_exclusion
unfolding assert_r_locked
r_locked_inv level s h = ground arith

r_locked_of :
    (level : ℕ) (s : LockState)
    → get_exclusion_type level s ≡ ok read_exclusion
    → assert_r_locked level s ≡ ok tt
unfolding assert_r_locked
r_locked_of level s h = ground arith

unlocked_or_any :
    (level : ℕ) (s : LockState)
    → s.in_use ≡ false
    → (assert_unlocked level s ≡ ok tt) ↔ (assert_any_locked level s ≢ ok tt)
unfolding assert_unlocked assert_any_locked get_exclusion_type
unlocked_or_any level s free = ground arith

-- Under the same conditions AssertLocked returns exactly when the mutex is held for writing,
-- AssertRLocked exactly when it is held for reading, and AssertUnlocked exactly when
-- AssertAnyLocked panics.
pub assertions_iff :
    (level : ℕ) (s : LockState)
    → s.in_use ≡ false
    → IsOrdered s.exclusion_states
    → ((assert_locked level s ≡ ok tt) ↔ Holds level write_exclusion s.exclusion_states)
      × ((assert_r_locked level s ≡ ok tt) ↔ Holds level read_exclusion s.exclusion_states)
      × ((assert_unlocked level s ≡ ok tt) ↔ (assert_any_locked level s ≢ ok tt))
assertions_iff level s free o =
    let w = get_exclusion_type_iff level write_exclusion s free o ((λ e. cc)) in
    let r = get_exclusion_type_iff level read_exclusion s free o ((λ e. cc)) in
    (
      (λ h. w.0 (locked_inv level s h), λ h. locked_of level s (w.1 h)),
      (λ h. r.0 (r_locked_inv level s h), λ h. r_locked_of level s (r.1 h)),
      unlocked_or_any level s free,
    )
