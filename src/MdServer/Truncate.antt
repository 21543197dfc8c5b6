-- ===== src/MdServer/Truncate.antt =====
-- libkbfs/mdserver_local.go: the truncate lock excludes other devices.
use angelkey_kbfsbeta.Prelude.{
  ◌≡◌, refl, ap, ◌∙◌, ◌≢◌, ◌⊎◌, inl, inr, ite, if_pos, if_neg, true, false, Option, none, some,
  Option-cases,
}
use angelkey_kbfsbeta.Prelude.Result.{ok, err}
use angelkey_kbfsbeta.MdServer.{Key, key_discrete, Database, Rmds, locked, Services, MdServer}
use angelkey_kbfsbeta.MdServer.Methods.{truncate_lock, truncate_unlock}

module _ (mds : Database Rmds) (branches locks : Database Key) where
  -- The device that holds the folder's lock.
  abbrev pub holder : Key → MdServer mds branches locks → Option Key
  holder id s = locks.get id s.locks_db

  -- TruncateLock and TruncateUnlock are exclusive and idempotent, for each folder by itself. If no
  -- device holds the lock, locking takes it for the calling device and unlocking does nothing. If
  -- the calling device holds it, locking does nothing and unlocking frees it. If another device
  -- holds it, both fail. The holders of other folders never change.
  pub truncate_lock_exclusive :
      (env : Services) (id : Key) (s : MdServer mds branches locks)
      → (holder id s ≡ none)
          × ((t : MdServer mds branches locks) × (truncate_lock mds branches locks env id s
                ≡ ok (true, t))
              × ((j : Key)
                  → holder j t ≡ ite (key_discrete id j) (some env.device_kid) (holder j s)))
          × (truncate_unlock mds branches locks env id s ≡ ok (true, s))
        ⊎ (holder id s ≡ some env.device_kid)
          × (truncate_lock mds branches locks env id s ≡ ok (true, s))
          × ((t : MdServer mds branches locks) × (truncate_unlock mds branches locks env id s
                ≡ ok (true, t))
              × ((j : Key) → holder j t ≡ ite (key_discrete id j) none (holder j s)))
        ⊎ ((kid : Key) × (holder id s ≡ some kid)
            × (kid ≢ env.device_kid)
            × (truncate_lock mds branches locks env id s ≡ err locked)
            × (truncate_unlock mds branches locks env id s ≡ err locked))
  unfolding truncate_lock truncate_unlock
  truncate_lock_exclusive env id s = elim (Option-cases (locks.get id s.locks_db)) [
    | inl e ↦ inl (
      e,
      (
        record s { locks_db = locks.put id env.device_kid s.locks_db },
        rw (e, truncate_lock) refl,
        λ j. locks.get-put id j env.device_kid s.locks_db,
      ),
      rw (e, truncate_unlock) refl,
    )
    | inr (kid, e) ↦ elim (key_discrete kid env.device_kid) [
      | yes q ↦ inr (
          inl (
            e ∙ ap some q,
            rw (e, truncate_lock) (rw (if_pos (key_discrete kid env.device_kid) q true false) refl),
            (
              record s { locks_db = locks.delete id s.locks_db },
              rw (e, truncate_unlock)
                  (rw (if_pos (key_discrete kid env.device_kid) q true false) refl),
              λ j. locks.get-delete id j s.locks_db,
            ),
          ))
      | no n ↦ inr (
          inr (
            kid,
            e,
            n,
            rw (e, truncate_lock) (rw (if_neg (key_discrete kid env.device_kid) n true false) refl),
            rw (e, truncate_unlock)
                (rw (if_neg (key_discrete kid env.device_kid) n true false) refl),
          ))
    ]
  ]
