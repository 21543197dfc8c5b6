-- ===== src/Locks/Tests.antt =====
-- Locking and unlocking at concrete levels, and the theorems there.
use angelkey_kbfsbeta.Prelude.{◌<◌, ◌≡◌, refl, ◌≢◌, ◌↔◌, inl, false, [], ◌∷◌, ◌++◌, arith}
use angelkey_kbfsbeta.Prelude.Result.{ok, err}
use angelkey_kbfsbeta.Locks.{
  LockState, write_exclusion, read_exclusion, lock_call, unlock_call, do_lock, do_unlock,
  level_violation, get_exclusion_type, assert_locked, assert_r_locked, assert_unlocked,
  assert_any_locked,
}
use angelkey_kbfsbeta.Locks.Order.{
  IsOrdered, AllBelow, do_lock_above, do_lock-IsOrdered, do_unlock-do_lock,
}
use angelkey_kbfsbeta.Locks.Lookup.{Holds, get_exclusion_type_iff, assertions_iff}
use angelkey_kbfsbeta.Locks.Deadlock.{
  Waiter, IsBlocked, WaitsPath, no_deadlock, start, locked, one, waits,
}

abbrev one_held : LockState
one_held = record {
  in_use = false;
  exclusion_states = (record { level = 1; exclusion_type = write_exclusion }) ∷ [];
  calls = lock_call 1 write_exclusion ∷ [];
}

abbrev two_held : LockState
two_held = record {
  in_use = false;
  exclusion_states =
      (record { level = 1; exclusion_type = write_exclusion })
      ∷ (record { level = 3; exclusion_type = read_exclusion })
      ∷ [];
  calls = lock_call 1 write_exclusion ∷ lock_call 3 read_exclusion ∷ [];
}

locks_three : do_lock 3 read_exclusion one_held ≡ ok two_held
unfolding do_lock
locks_three = refl

refuses_two :
    do_lock 2 write_exclusion two_held
    ≡ err
        (level_violation 2 write_exclusion (record { level = 3; exclusion_type = read_exclusion }))
unfolding do_lock
refuses_two = refl

unlocks_three :
    do_unlock 3 read_exclusion two_held
    ≡ ok (record one_held {
      calls =
          lock_call 1 write_exclusion
          ∷ lock_call 3 read_exclusion
          ∷ unlock_call 3 read_exclusion
          ∷ [];
    })
unfolding do_unlock
unlocks_three = refl

do_lock_above_example :
    do_lock 3 read_exclusion one_held
    ≡ ok (record one_held {
      exclusion_states =
          one_held.exclusion_states ++ (record { level = 3; exclusion_type = read_exclusion }) ∷ [];
      calls = one_held.calls ++ lock_call 3 read_exclusion ∷ [];
    })
do_lock_above_example = do_lock_above 3 read_exclusion one_held refl (omega arith)

do_lock-IsOrdered_example :
    AllBelow 3 one_held.exclusion_states × IsOrdered two_held.exclusion_states
do_lock-IsOrdered_example = do_lock-IsOrdered 3 read_exclusion one_held (tt, tt) locks_three

do_unlock-do_lock_example :
    do_unlock 3 read_exclusion two_held
    ≡ ok (record one_held {
      calls =
          (one_held.calls ++ lock_call 3 read_exclusion ∷ []) ++ unlock_call 3 read_exclusion ∷ [];
    })
do_unlock-do_lock_example = do_unlock-do_lock 3 read_exclusion one_held locks_three

get_exclusion_type_iff_example :
    (get_exclusion_type 3 two_held ≡ ok read_exclusion)
    ↔ Holds 3 read_exclusion two_held.exclusion_states
get_exclusion_type_iff_example =
    get_exclusion_type_iff 3 read_exclusion two_held refl (omega arith) (ground arith)

assertions_iff_example :
    ((assert_locked 3 two_held ≡ ok tt) ↔ Holds 3 write_exclusion two_held.exclusion_states)
    × ((assert_r_locked 3 two_held ≡ ok tt) ↔ Holds 3 read_exclusion two_held.exclusion_states)
    × ((assert_unlocked 3 two_held ≡ ok tt) ↔ (assert_any_locked 3 two_held ≢ ok tt))
assertions_iff_example = assertions_iff 3 two_held refl (omega arith)

abbrev started : LockState
started = record { in_use = false; exclusion_states = []; calls = [] }

abbrev three_held : LockState
three_held = record {
  in_use = false;
  exclusion_states = (record { level = 3; exclusion_type = write_exclusion }) ∷ [];
  calls = lock_call 3 write_exclusion ∷ [];
}

-- The first flow holds level 1 and waits for level 3, which the second one holds; that one waits
-- for level 5.
abbrev wants_three : Waiter
wants_three = record { flow = one_held; wants = 3; exclusion_type = read_exclusion }

abbrev wants_five : Waiter
wants_five = record { flow = three_held; wants = 5; exclusion_type = write_exclusion }

locks_one : do_lock 1 write_exclusion started ≡ ok one_held
unfolding do_lock
locks_one = refl

locks_three_first : do_lock 3 write_exclusion started ≡ ok three_held
unfolding do_lock
locks_three_first = refl

wants_three-IsBlocked : IsBlocked wants_three
wants_three-IsBlocked = record {
  reached = locked 1 write_exclusion start locks_one;
  afterwards = two_held;
  passes = locks_three;
}

wants_five-IsBlocked : IsBlocked wants_five
wants_five-IsBlocked = record {
  reached = locked 3 write_exclusion start locks_three_first;
  afterwards = record {
    in_use = false;
    exclusion_states =
        (record { level = 3; exclusion_type = write_exclusion })
        ∷ (record { level = 5; exclusion_type = write_exclusion })
        ∷ [];
    calls = lock_call 3 write_exclusion ∷ lock_call 5 write_exclusion ∷ [];
  };
  passes = unfold do_lock in refl;
}

no_deadlock_example : (3 < 5) × (¬ WaitsPath wants_five wants_three)
no_deadlock_example =
    no_deadlock (one (waits wants_three-IsBlocked wants_five-IsBlocked (inl refl)))
