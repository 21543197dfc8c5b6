-- ===== src/Locks/Deadlock.antt =====
-- leveled_mutex.go: why the levels rule out a deadlock among flows. A flow that waits in
-- `lock.Lock()` has passed the check of doLock for the level that it wants.
use angelkey_kbfsbeta.Prelude.{ℕ, ◌<◌, ◌≡◌, ◌⊎◌, inl, inr, List, [], ◌∷◌, arith}
use angelkey_kbfsbeta.Prelude.Result.{ok}
use angelkey_kbfsbeta.Locks.{
  ExclusionType, ExclusionState, LockState, make_level_state, do_lock, do_unlock,
}
use angelkey_kbfsbeta.Locks.Order.{IsOrdered, AllBelow, do_lock-IsOrdered, do_unlock-IsOrdered}

-- The records of a flow that has locked and unlocked mutexes, from the empty record on.
pub data Flow : LockState → Type 0 where
  start : Flow make_level_state
  locked :
      {s s' : LockState} (level : ℕ) (et : ExclusionType)
      → Flow s
      → do_lock level et s ≡ ok s'
      → Flow s'
  unlocked :
      {s s' : LockState} (level : ℕ) (et : ExclusionType)
      → Flow s
      → do_unlock level et s ≡ ok s'
      → Flow s'

Flow-IsOrdered : {s : LockState} → Flow s → IsOrdered s.exclusion_states
Flow-IsOrdered start = tt
Flow-IsOrdered (locked {s} level et f e) = (do_lock-IsOrdered level et s (Flow-IsOrdered f) e).1
Flow-IsOrdered (unlocked {s} level et f e) = do_unlock-IsOrdered level et s (Flow-IsOrdered f) e

-- A flow inside doLock, with the level and the type that it asks for.
pub record Waiter : Type 0 where
  pub flow : LockState
  pub wants : ℕ
  pub exclusion_type : ExclusionType

-- The flow waits in the underlying Lock: doLock does not panic, and is done once that returns.
pub record IsBlocked (w : Waiter) : Type 0 where
  pub reached : Flow w.flow
  pub afterwards : LockState
  pub passes : do_lock w.wants w.exclusion_type w.flow ≡ ok afterwards

abbrev pub HoldsLevel : ℕ → List ExclusionState → Type 0
HoldsLevel level [] = ⊥
HoldsLevel level (e ∷ r) = (e.level ≡ level) ⊎ HoldsLevel level r

-- The first flow waits for a mutex that the second holds.
pub data WaitsFor : Waiter → Waiter → Type 0 where
  waits :
      {t u : Waiter}
      → IsBlocked t
      → IsBlocked u
      → HoldsLevel t.wants u.flow.exclusion_states
      → WaitsFor t u

pub data WaitsPath : Waiter → Waiter → Type 0 where
  one : {t u : Waiter} → WaitsFor t u → WaitsPath t u
  more : {t u v : Waiter} → WaitsFor t u → WaitsPath u v → WaitsPath t v

lt_of_HoldsLevel :
    (level n : ℕ) (es : List ExclusionState) → AllBelow n es → HoldsLevel level es → level < n
lt_of_HoldsLevel level n [] b h = elim h [ ]
lt_of_HoldsLevel level n (e ∷ r) b (inl p) = omega (arith, b.0)
lt_of_HoldsLevel level n (e ∷ r) b (inr h) = lt_of_HoldsLevel level n r b.1 h

WaitsFor-lt : {t u : Waiter} → WaitsFor t u → t.wants < u.wants
WaitsFor-lt {u} (waits b c h) =
    lt_of_HoldsLevel _ _ u.flow.exclusion_states
      (do_lock-IsOrdered u.wants u.exclusion_type u.flow (Flow-IsOrdered c.reached) c.passes).0 h

WaitsPath-lt : {t u : Waiter} → WaitsPath t u → t.wants < u.wants
WaitsPath-lt (one w) = WaitsFor-lt w
WaitsPath-lt (more w p) = omega (arith, WaitsFor-lt w, WaitsPath-lt p)

-- Let flows wait for each other in a chain, where each has only called doLock and doUnlock, waits
-- in a doLock that lets it through, and is waited for at a level that it holds. Then the last one
-- asks for a higher level than the first one, and waits for the first one through no such chain:
-- the check of doLock rules out a deadlock.
pub no_deadlock : {t u : Waiter} → WaitsPath t u → (t.wants < u.wants) × (¬ WaitsPath u t)
no_deadlock p = (WaitsPath-lt p, λ q. absurd (omega (arith, WaitsPath-lt p, WaitsPath-lt q)))
