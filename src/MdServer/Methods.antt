-- ===== src/MdServer/Methods.antt =====
-- libkbfs/mdserver_local.go: the methods of MDServerLocal. The contexts, and errors of the services,
-- are left out; `self` is the instance that is called.
use angelkey_kbfsbeta.Prelude.{
  ℕ, ◌+◌, ◌-◌, ite, Bool, true, false, not, ◌&&◌, ◌||◌, Option, none, some, List, [], ◌∷◌, ◌++◌,
  map, ltb, ◌==◌, if◌then◌else◌, length,
}
use angelkey_kbfsbeta.Prelude.Result.{Result, ok, err, ◌>>=◌, ◌>>◌, guard}
use angelkey_kbfsbeta.Prelude.Map
use angelkey_kbfsbeta.MdServer.{
  Key, key_discrete, Database, MergeStatus, merged, unmerged, Rmds, MdServerError, shut_down,
  bad_branch_id, unauthorized, locked, double_registration, expected_one_block, Services,
  null_branch_id, is_null, get_md_key, get_branch_key, check_against, check_branch, fired, unfired,
  MdServer, get_head_for_tlf,
}

abbrev pub same_key : Key → Key → Bool
same_key a b = ite (key_discrete a b) true false

abbrev pub contains : ℕ → List ℕ → Bool
contains k [] = false
contains k (j ∷ r) = j == k || contains k r

abbrev pub or_empty : Option (List ℕ) → List ℕ
or_empty none = []
or_empty (some l) = l

-- Whether the instance is the one that wrote the folder's head.
abbrev pub is_self : ℕ → Option ℕ → Bool
is_self self none = false
is_self self (some k) = k == self

abbrev pub revision_of : Option Rmds → ℕ
revision_of none = 0
revision_of (some head) = head.revision

module _ (mds : Database Rmds) (branches locks : Database Key) where
  unfoldable pub check_perms :
      Services → Key → Bool → Option Rmds → MdServer mds branches locks → Bool
  unfolding get_head_for_tlf
  check_perms env id check_write new_md s =
      elim (get_head_for_tlf mds branches locks id null_branch_id merged s) [
        | none ↦ true
        | some rmds ↦
            if check_write
            then (elim new_md [
              | none ↦ env.is_writer rmds
              | some md ↦
                  if not (env.is_writer rmds) && env.is_reader rmds
                  then env.is_valid_rekey_request md rmds
                  else env.is_writer rmds
            ])
            else env.is_writer rmds || env.is_reader rmds
      ]

  unfoldable pub get_branch_id : Services → Key → MdServer mds branches locks → Key
  get_branch_id env id s = elim (branches.get (get_branch_key env id) s.branch_db) [
    | none ↦ null_branch_id
    | some bid ↦ bid
  ]

  -- The checks that GetForTLF and GetRange share, and the branch that they look at, if there is one.
  unfoldable pub find_branch :
      Services
      → Key
      → Key
      → MergeStatus
      → MdServer mds branches locks
      → Result MdServerError (Option Key)
  unfolding check_perms get_branch_id
  find_branch env id bid status s = do
    guard (not s.shutdown) shut_down
    guard (elim status [ merged ↦ is_null bid | unmerged ↦ true ]) bad_branch_id
    guard (check_perms env id false none s) unauthorized
    let current = get_branch_id env id s
    ok (elim status [
      | merged ↦ some bid
      | unmerged ↦
          if is_null bid then (if is_null current then none else some current) else some bid
    ])

  unfoldable pub get_for_tlf :
      Services
      → Key
      → Key
      → MergeStatus
      → MdServer mds branches locks
      → Result MdServerError (Option Rmds)
  unfolding find_branch get_head_for_tlf
  get_for_tlf env id bid status s = do
    branch ← find_branch env id bid status s
    ok (elim branch [ none ↦ none | some b ↦ get_head_for_tlf mds branches locks id b status s ])

  -- GetRange, with the revision after `stop`.
  unfoldable pub get_range_before :
      Services
      → Key
      → Key
      → MergeStatus
      → ℕ
      → ℕ
      → MdServer mds branches locks
      → Result MdServerError (List Rmds)
  unfolding find_branch get_md_key
  get_range_before env id bid status start limit s = do
    branch ← find_branch env id bid status s
    ok (elim branch [
      | none ↦ []
      | some b ↦ mds.range (get_md_key id start b status) (get_md_key id limit b status) s.md_db
    ])

  unfoldable pub get_range :
      Services
      → Key
      → Key
      → MergeStatus
      → ℕ
      → ℕ
      → MdServer mds branches locks
      → Result MdServerError (List Rmds)
  unfolding get_range_before
  get_range env id bid status start stop s = get_range_before env id bid status start (stop + 1) s

  -- The head of the merged branch that an unmerged branch starts from. The revision before 0 has the
  -- same key as 0, and is the one before the limit 0.
  unfoldable pub fork_head :
      Services → Rmds → MdServer mds branches locks → Result MdServerError Rmds
  unfolding get_range_before
  fork_head env md s = do
    l ← get_range_before env md.id null_branch_id merged (md.revision - 1) md.revision s
    elim l [
      | [] ↦ err (expected_one_block 0)
      | h ∷ r ↦ if length r == 0 then ok h else err (expected_one_block (length r + 1))
    ]

  -- The head that Put checks against, and whether to record the branch.
  unfoldable pub find_head :
      Services → Rmds → MdServer mds branches locks → Result MdServerError (Option Rmds × Bool)
  unfolding get_head_for_tlf fork_head
  find_head env md s = elim (get_head_for_tlf mds branches locks md.id md.bid md.merged_status s) [
    | some head ↦ ok (some head, false)
    | none ↦ elim md.merged_status [
      | merged ↦ ok (none, false)
      | unmerged ↦ (do head ← fork_head env md s; ok (some head, true))
    ]
  ]

  unfoldable pub record_branch :
      Services → Rmds → Bool → MdServer mds branches locks → MdServer mds branches locks
  record_branch env md record_it s =
      if record_it
      then record s { branch_db = branches.put (get_branch_key env md.id) md.bid s.branch_db }
      else s

  -- The batch: the update at its revision, and as the head.
  unfoldable pub write_batch :
      Services → Rmds → MdServer mds branches locks → MdServer mds branches locks
  unfolding get_md_key
  write_batch env md s =
      let block : Rmds = record md { timestamp = env.now } in
      record s {
        md_db =
            mds.put (get_md_key md.id 0 md.bid md.merged_status) block
              (mds.put (get_md_key md.id md.revision md.bid md.merged_status) block s.md_db);
      }

  -- The observers of other instances are fired and leave the list.
  unfoldable pub fire_observers :
      ℕ → Key → MdServer mds branches locks → MdServer mds branches locks
  unfolding fired unfired Map.get Map.put Map.delete
  fire_observers self id s =
      let observers = or_empty (Map.get key_discrete id s.observers) in
      let left = unfired self observers in
      record s {
        session_heads = Map.put key_discrete id self s.session_heads;
        fired_channels = s.fired_channels ++ map (λ k. (id, k)) (fired self observers);
        observers =
            if length left == 0
            then Map.delete key_discrete id s.observers
            else Map.put key_discrete id left s.observers;
      }

  abbrev pub notifies : Rmds → Bool
  notifies md = elim md.merged_status [
    | merged ↦ not (md.rekey_set && md.writer_copied)
    | unmerged ↦ false
  ]

  unfoldable pub put :
      ℕ
      → Services
      → Rmds
      → MdServer mds branches locks
      → Result MdServerError (MdServer mds branches locks)
  unfolding check_branch check_perms find_head check_against record_branch write_batch
      fire_observers
  put self env md s = do
    guard (not s.shutdown) shut_down
    check_branch md.merged_status md.bid
    guard (check_perms env md.id true (some md) s) unauthorized
    head ← find_head env md s
    check_against env head.0 md
    let written = write_batch env md (record_branch env md head.1 s)
    ok (if notifies md then fire_observers self md.id written else written)

  unfoldable pub prune_branch :
      Services
      → Key
      → Key
      → MdServer mds branches locks
      → Result MdServerError (MdServer mds branches locks)
  unfolding get_branch_id
  prune_branch env id bid s = do
    guard (not s.shutdown) shut_down
    guard (not (is_null bid)) bad_branch_id
    let current = get_branch_id env id s
    guard (not (is_null current) && same_key bid current) bad_branch_id
    ok (record s { branch_db = branches.delete (get_branch_key env id) s.branch_db })

  -- RegisterForUpdate: whether the channel is fired at once. The panic on a second registration of an
  -- instance is an error.
  unfoldable pub register_for_update :
      ℕ
      → Key
      → ℕ
      → MdServer mds branches locks
      → Result MdServerError (Bool × MdServer mds branches locks)
  unfolding get_head_for_tlf Map.get Map.put
  register_for_update self id curr_head s = do
    guard (not s.shutdown) shut_down
    let head = get_head_for_tlf mds branches locks id null_branch_id merged s
    let observers = or_empty (Map.get key_discrete id s.observers)
    if ltb curr_head (revision_of head)
          && not (is_self self (Map.get key_discrete id s.session_heads))
        then ok (true, s)
        else (do
          guard (not (contains self observers)) double_registration
          ok (
            false,
            record s { observers = Map.put key_discrete id (observers ++ self ∷ []) s.observers },
          ))

  unfoldable pub truncate_lock :
      Services
      → Key
      → MdServer mds branches locks
      → Result MdServerError (Bool × MdServer mds branches locks)
  truncate_lock env id s = elim (locks.get id s.locks_db) [
    | none ↦ ok (true, record s { locks_db = locks.put id env.device_kid s.locks_db })
    | some kid ↦ if same_key kid env.device_kid then ok (true, s) else err locked
  ]

  unfoldable pub truncate_unlock :
      Services
      → Key
      → MdServer mds branches locks
      → Result MdServerError (Bool × MdServer mds branches locks)
  truncate_unlock env id s = elim (locks.get id s.locks_db) [
    | none ↦ ok (true, s)
    | some kid ↦
        if same_key kid env.device_kid
        then ok (true, record s { locks_db = locks.delete id s.locks_db })
        else err locked
  ]

  unfoldable pub shut_down_server : MdServer mds branches locks → MdServer mds branches locks
  shut_down_server s = if s.shutdown then s else record s { shutdown = true }

  unfoldable pub is_connected : MdServer mds branches locks → Bool
  is_connected s = not s.shutdown
