-- ===== src/Locks/Order.antt =====
-- The order of the mutexes that a flow holds: leveled_mutex.go, doLock and doUnlock.
use angelkey_kbfsbeta.Prelude.{
  ℕ, ◌<◌, ◌≡◌, refl, false, none, List, [], ◌∷◌, ◌++◌, arith, init, last?, init-snoc, last?-snoc,
  All,
}
use angelkey_kbfsbeta.Prelude.Result.{ok}
use angelkey_kbfsbeta.Locks.{
  ExclusionType, ExclusionState, LockState, lock_call, unlock_call, violation, do_lock, do_unlock,
}

-- Held levels rise strictly from the outermost mutex to the innermost.
abbrev pub IsOrdered : List ExclusionState → Type 0
IsOrdered [] = Unit
IsOrdered (e ∷ r) = All (λ f. e.level < f.level) r × IsOrdered r

-- Every mutex held has a level below the given one.
abbrev pub AllBelow : ℕ → List ExclusionState → Type 0
AllBelow level = All (λ e. e.level < level)

pub All-snoc {ℓ κ} :
    {A : Type ℓ} (P : A → Type κ) (xs : List A) (x : A) → All P xs → P x → All P (xs ++ x ∷ [])
All-snoc P [] x h p = (p, tt)
All-snoc P (y ∷ ys) x h p = (h.0, All-snoc P ys x h.1 p)

All-init {ℓ κ} : {A : Type ℓ} (P : A → Type κ) (xs : List A) → All P xs → All P (init xs)
All-init P [] h = tt
All-init P (x ∷ []) h = tt
All-init P (x ∷ y ∷ r) h = (h.0, All-init P (y ∷ r) h.1)

IsOrdered-snoc :
    (es : List ExclusionState) (e : ExclusionState)
    → IsOrdered es
    → AllBelow e.level es
    → IsOrdered (es ++ e ∷ [])
IsOrdered-snoc [] e h b = (tt, tt)
IsOrdered-snoc (f ∷ r) e h b =
    (All-snoc (λ g. f.level < g.level) r e h.0 b.0, IsOrdered-snoc r e h.1 b.1)

IsOrdered-init : (es : List ExclusionState) → IsOrdered es → IsOrdered (init es)
IsOrdered-init [] h = tt
IsOrdered-init (e ∷ []) h = tt
IsOrdered-init (e ∷ f ∷ r) h =
    (All-init (λ g. e.level < g.level) (f ∷ r) h.0, IsOrdered-init (f ∷ r) h.1)

-- On an ordered stack the one comparison with the innermost mutex is a comparison with all.
pub AllBelow-violation :
    (level : ℕ) (es : List ExclusionState)
    → IsOrdered es
    → violation level (last? es) ≡ none
    → AllBelow level es
AllBelow-violation level [] h v = tt
AllBelow-violation level (e ∷ []) h v = (ground arith, tt)
AllBelow-violation level (e ∷ f ∷ r) h v =
    let rest = AllBelow-violation level (f ∷ r) h.1 v in (omega (arith, rest.0, h.0.0), rest)

pub violation_of_AllBelow :
    (level : ℕ) (es : List ExclusionState) → AllBelow level es → violation level (last? es) ≡ none
violation_of_AllBelow level [] b = refl
violation_of_AllBelow level (e ∷ []) b = ground arith
violation_of_AllBelow level (e ∷ f ∷ r) b = violation_of_AllBelow level (f ∷ r) b.1

-- What a successful `do_lock` has checked and done.
do_lock_inv :
    (level : ℕ) (et : ExclusionType) (s : LockState) {s' : LockState}
    → do_lock level et s ≡ ok s'
    → (s.in_use ≡ false)
      × (violation level (last? s.exclusion_states) ≡ none)
      × (s'.in_use ≡ false)
      × (s'.exclusion_states
          ≡ s.exclusion_states ++ (record { level = level; exclusion_type = et }) ∷ [])
      × (s'.calls ≡ s.calls ++ lock_call level et ∷ [])
unfolding do_lock
do_lock_inv level et s h = ground arith

-- If no other operation on the record is running, `do_lock` of a mutex whose level is above every
-- level held succeeds: it calls Lock once and pushes the mutex.
pub do_lock_above :
    (level : ℕ) (et : ExclusionType) (s : LockState)
    → s.in_use ≡ false
    → AllBelow level s.exclusion_states
    → do_lock level et s
      ≡ ok (record s {
        exclusion_states =
            s.exclusion_states ++ (record { level = level; exclusion_type = et }) ∷ [];
        calls = s.calls ++ lock_call level et ∷ [];
      })
unfolding do_lock
do_lock_above level et s free b =
    let v = violation_of_AllBelow level s.exclusion_states b in ground arith

-- From an ordered stack a `do_lock` that succeeds was asked for a level above every level held, and
-- leaves an ordered stack.
pub do_lock-IsOrdered :
    (level : ℕ) (et : ExclusionType) (s : LockState) {s' : LockState}
    → IsOrdered s.exclusion_states
    → do_lock level et s ≡ ok s'
    → AllBelow level s.exclusion_states × IsOrdered s'.exclusion_states
do_lock-IsOrdered level et s {s'} o h =
    let inv = do_lock_inv level et s h in
    let b = AllBelow-violation level s.exclusion_states o inv.1 in
    (
      b,
      rw inv.3
          (IsOrdered-snoc s.exclusion_states (record { level = level; exclusion_type = et }) o b),
    )

-- A `do_unlock` that succeeds pops the innermost mutex.
do_unlock_inv :
    (level : ℕ) (et : ExclusionType) (s : LockState) {s' : LockState}
    → do_unlock level et s ≡ ok s'
    → s'.exclusion_states ≡ init s.exclusion_states
unfolding do_unlock
do_unlock_inv level et s h = ground arith

pub do_unlock-IsOrdered :
    (level : ℕ) (et : ExclusionType) (s : LockState) {s' : LockState}
    → IsOrdered s.exclusion_states
    → do_unlock level et s ≡ ok s'
    → IsOrdered s'.exclusion_states
do_unlock-IsOrdered level et s o h =
    rw (do_unlock_inv level et s h) (IsOrdered-init s.exclusion_states o)

-- Right after a `do_lock` that succeeded, the `do_unlock` of the same mutex and type succeeds and
-- gives the stack of before. The underlying locker was locked once and unlocked once.
pub do_unlock-do_lock :
    (level : ℕ) (et : ExclusionType) (s : LockState) {s' : LockState}
    → do_lock level et s ≡ ok s'
    → do_unlock level et s'
      ≡ ok (record s { calls = (s.calls ++ lock_call level et ∷ []) ++ unlock_call level et ∷ [] })
unfolding do_unlock
do_unlock-do_lock level et s h =
    let e : ExclusionState = record { level = level; exclusion_type = et } in
    ground (
      arith,
      do_lock_inv level et s h,
      last?-snoc s.exclusion_states e,
      init-snoc s.exclusion_states e,
    )
