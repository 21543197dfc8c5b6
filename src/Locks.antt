-- ===== src/Locks.antt =====
-- libkbfs/leveled_mutex.go: mutexes with levels, and the record that an execution flow keeps of
-- the mutexes that it holds. A call of the underlying `sync.Locker` is logged in `calls`, oldest
-- first, since the flow cannot see more of it than that it returned. Levels are numbers from 0 up;
-- the source declares them by `iota + 1`. A panic is an error of `LockError`.
mod Order
mod Lookup
mod Deadlock
mod Tests
use angelkey_kbfsbeta.Prelude.{
  ℕ, Bool, true, false, not, ◌||◌, Option, none, some, List, ◌∷◌, ◌++◌, leb, ltb, ◌==◌,
  if◌then◌else◌, last?, init, [],
}
use angelkey_kbfsbeta.Prelude.Result.{Result, ok, err, ◌>>=◌}

pub data ExclusionType : Type 0 where
  non_exclusion write_exclusion read_exclusion : ExclusionType

abbrev pub same_type : ExclusionType → ExclusionType → Bool
same_type non_exclusion non_exclusion = true
same_type write_exclusion write_exclusion = true
same_type read_exclusion read_exclusion = true
same_type _ _ = false

pub record ExclusionState : Type 0 where
  pub level : ℕ
  pub exclusion_type : ExclusionType

pub data LockerCall : Type 0 where
  lock_call unlock_call : ℕ → ExclusionType → LockerCall

pub record LockState : Type 0 where
  -- the token of `exclusionStatesLock`
  pub in_use : Bool
  pub exclusion_states : List ExclusionState
  pub calls : List LockerCall

pub data LockError : Type 0 where
  concurrent_access : LockError
  level_violation : ℕ → ExclusionType → ExclusionState → LockError
  dangling_unlock : ℕ → ExclusionType → LockError
  mismatched_unlock : ℕ → ExclusionType → ExclusionState → LockError
  unexpected_exclusion : ℕ → ExclusionType → LockError
  unexpected_exclusion_type : ℕ → ExclusionType → ExclusionType → LockError
  unexpected_non_exclusion : ℕ → LockError

abbrev pub make_level_state : LockState
make_level_state = record { in_use = false; exclusion_states = []; calls = [] }

-- exclusiveLock.lock: a token that is taken already is a panic.
unfoldable pub exclusive_lock : LockState → Result LockError LockState
exclusive_lock s = if s.in_use then err concurrent_access else ok (record s { in_use = true })

unfoldable pub exclusive_unlock : LockState → LockState
exclusive_unlock s = record s { in_use = false }

-- The innermost mutex held, if any.
abbrev pub curr_locked : LockState → Option ExclusionState
curr_locked s = last? s.exclusion_states

-- The test `curr != nil && level <= curr.level`.
abbrev pub violation : ℕ → Option ExclusionState → Option ExclusionState
violation level none = none
violation level (some curr) = if leb level curr.level then some curr else none

unfoldable pub take_lock : ℕ → ExclusionType → LockState → LockState
take_lock level et s = record s {
  exclusion_states = s.exclusion_states ++ (record { level = level; exclusion_type = et }) ∷ [];
  calls = s.calls ++ lock_call level et ∷ [];
}

unfoldable pub do_lock : ℕ → ExclusionType → LockState → Result LockError LockState
unfolding exclusive_lock exclusive_unlock take_lock
do_lock level et s = do
  s' ← exclusive_lock s
  elim (violation level (curr_locked s')) [
    | some curr ↦ err (level_violation level et curr)
    | none ↦ ok (exclusive_unlock (take_lock level et s'))
  ]

unfoldable pub drop_lock : ℕ → ExclusionType → LockState → LockState
drop_lock level et s = record s {
  exclusion_states = init s.exclusion_states;
  calls = s.calls ++ unlock_call level et ∷ [];
}

unfoldable pub do_unlock : ℕ → ExclusionType → LockState → Result LockError LockState
unfolding exclusive_lock exclusive_unlock drop_lock
do_unlock level et s = do
  s' ← exclusive_lock s
  elim (curr_locked s') [
    | none ↦ err (dangling_unlock level et)
    | some curr ↦
        if not (level == curr.level) || not (same_type curr.exclusion_type et)
        then err (mismatched_unlock level et curr)
        else ok (exclusive_unlock (drop_lock level et s'))
  ]

-- The loop of getExclusionType, which stops at the first level above the one looked for.
unfoldable pub find_exclusion : ℕ → List ExclusionState → ExclusionType
find_exclusion level [] = non_exclusion
find_exclusion level (e ∷ rest) =
    let more = find_exclusion level rest in
    if ltb level e.level then non_exclusion else if e.level == level then e.exclusion_type else more

unfoldable pub get_exclusion_type : ℕ → LockState → Result LockError ExclusionType
unfolding exclusive_lock find_exclusion
get_exclusion_type level s = do s' ← exclusive_lock s; ok (find_exclusion level s'.exclusion_states)

-- The methods of leveledMutex and leveledRWMutex panic with the error of the flow's record. Both
-- kinds of mutex are a level here; `RLock` and `RUnlock` pass the read type.
abbrev pub lock : ℕ → LockState → Result LockError LockState
lock level s = do_lock level write_exclusion s

abbrev pub unlock : ℕ → LockState → Result LockError LockState
unlock level s = do_unlock level write_exclusion s

abbrev pub r_lock : ℕ → LockState → Result LockError LockState
r_lock level s = do_lock level read_exclusion s

abbrev pub r_unlock : ℕ → LockState → Result LockError LockState
r_unlock level s = do_unlock level read_exclusion s

unfoldable pub assert_unlocked : ℕ → LockState → Result LockError (Unit {0})
assert_unlocked level s = do
  et ← get_exclusion_type level s
  if same_type et non_exclusion then ok tt else err (unexpected_exclusion level et)

unfoldable pub assert_locked : ℕ → LockState → Result LockError (Unit {0})
assert_locked level s = do
  et ← get_exclusion_type level s
  if same_type et write_exclusion
      then ok tt
      else err (unexpected_exclusion_type level write_exclusion et)

unfoldable pub assert_r_locked : ℕ → LockState → Result LockError (Unit {0})
assert_r_locked level s = do
  et ← get_exclusion_type level s
  if same_type et read_exclusion
      then ok tt
      else err (unexpected_exclusion_type level read_exclusion et)

unfoldable pub assert_any_locked : ℕ → LockState → Result LockError (Unit {0})
assert_any_locked level s = do
  et ← get_exclusion_type level s
  if same_type et non_exclusion then err (unexpected_non_exclusion level) else ok tt
