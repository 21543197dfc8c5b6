-- ===== src/MdServer/Tests.antt =====
-- A server over databases that are association lists, and the theorems there.
use angelkey_kbfsbeta.Prelude.{
  ◌+◌, ◌≡◌, refl, ◌≢◌, ◌↔◌, ◌⊎◌, ite, true, false, none, some, [], ◌∷◌, arith, ℕ_discrete,
  replicate,
}
use angelkey_kbfsbeta.Prelude.Result.{ok, err}
use angelkey_kbfsbeta.Prelude.Map
use angelkey_kbfsbeta.Prelude.Map.{Map}
use angelkey_kbfsbeta.MdServer.{
  Key, key_discrete, Database, Rmds, locked, Services, MdServer, merged, null_branch_id,
  check_branch, check_head, check_against, get_head_for_tlf, get_md_key, big_endian, fired, unfired,
}
use angelkey_kbfsbeta.MdServer.History.{entry, HasHistory, Follows}
use angelkey_kbfsbeta.MdServer.Kept.{put-HasHistory}
use angelkey_kbfsbeta.MdServer.Accepts.{put_merged_iff}
use angelkey_kbfsbeta.MdServer.Methods.{
  truncate_lock, truncate_unlock, put, find_head, record_branch, write_batch, fire_observers,
  check_perms,
}
use angelkey_kbfsbeta.MdServer.Truncate.{holder, truncate_lock_exclusive}

-- No test iterates over a range of keys.
abbrev listed : {V : Type 0} → Database V
listed {V} = record {
  Db = Map Key V;
  get = λ k d. Map.get key_discrete k d;
  put = λ k v d. Map.put key_discrete k v d;
  delete = λ k d. Map.delete key_discrete k d;
  range = λ k j d. [];
  get-put = λ k j v d. Map.get-put key_discrete k j v d;
  get-delete = λ k j d. Map.get-delete key_discrete k j d;
}

abbrev env : Services
env = record {
  is_writer = λ md. true;
  is_reader = λ md. true;
  is_valid_rekey_request = λ new md. true;
  device_kid = 7 ∷ [];
  metadata_id = λ md. md.revision + 100;
  now = 50;
}

abbrev folder : Key
folder = replicate 16 1

abbrev other_holds : MdServer listed listed listed
other_holds = record {
  md_db = [];
  branch_db = [];
  locks_db = (folder, 8 ∷ []) ∷ [];
  observers = [];
  session_heads = [];
  fired_channels = [];
  shutdown = false;
}

truncate_lock_exclusive_example :
    (holder listed listed listed folder other_holds ≡ none)
      × ((t : MdServer listed listed listed) × (truncate_lock listed listed listed env folder
              other_holds
            ≡ ok (true, t))
          × ((j : Key)
              → holder listed listed listed j t
                ≡ ite
                    (key_discrete folder j)
                    (some env.device_kid)
                    (holder listed listed listed j other_holds)))
      × (truncate_unlock listed listed listed env folder other_holds ≡ ok (true, other_holds))
    ⊎ (holder listed listed listed folder other_holds ≡ some env.device_kid)
      × (truncate_lock listed listed listed env folder other_holds ≡ ok (true, other_holds))
      × ((t : MdServer listed listed listed) × (truncate_unlock listed listed listed env folder
              other_holds
            ≡ ok (true, t))
          × ((j : Key)
              → holder listed listed listed j t
                ≡ ite (key_discrete folder j) none (holder listed listed listed j other_holds)))
    ⊎ ((kid : Key) × (holder listed listed listed folder other_holds ≡ some kid)
        × (kid ≢ env.device_kid)
        × (truncate_lock listed listed listed env folder other_holds ≡ err locked)
        × (truncate_unlock listed listed listed env folder other_holds ≡ err locked))
truncate_lock_exclusive_example =
    truncate_lock_exclusive listed listed listed env folder other_holds

abbrev empty_server : MdServer listed listed listed
empty_server = record other_holds { locks_db = [] }

-- The first update of the folder, and the one after it.
abbrev first_update : Rmds
first_update = record {
  id = folder;
  bid = null_branch_id;
  merged_status = merged;
  revision = 1;
  prev_root = 0;
  disk_usage = 10;
  ref_bytes = 10;
  unref_bytes = 0;
  rekey_set = false;
  writer_copied = false;
  timestamp = 0;
  content = 0;
}

abbrev second_update : Rmds
second_update = record first_update {
  revision = 2;
  prev_root = 101;
  disk_usage = 7;
  ref_bytes = 2;
  unref_bytes = 5;
}

after : Rmds → MdServer listed listed listed → MdServer listed listed listed
unfolding put
after md s = elim (put listed listed listed 0 env md s) [ ok t ↦ t | err e ↦ s ]

after_first :
    put listed listed listed 0 env first_update empty_server ≡ ok (after first_update empty_server)
unfolding put after check_branch check_perms find_head check_against record_branch write_batch
    fire_observers get_head_for_tlf get_md_key big_endian key_discrete Map.get Map.put Map.delete
    fired unfired ℕ_discrete
after_first = refl

after_second :
    put listed listed listed 0 env second_update (after first_update empty_server)
    ≡ ok (after second_update (after first_update empty_server))
unfolding put after check_branch check_perms find_head check_against record_branch write_batch
    fire_observers get_head_for_tlf get_md_key big_endian key_discrete Map.get Map.put Map.delete
    fired unfired check_head ℕ_discrete
after_second = refl

empty-HasHistory : HasHistory listed listed listed env folder empty_server
unfolding Map.get
empty-HasHistory = record {
  head_entry = λ h e. absurd (cc e);
  up_to_head = λ r m a b e. absurd (cc e);
  linked = λ r m n a b e f. absurd (cc e);
}

first-HasHistory : HasHistory listed listed listed env folder (after first_update empty_server)
first-HasHistory =
    put-HasHistory listed listed listed 0 env first_update empty_server
      (after first_update empty_server) folder (refl, refl, omega arith, omega arith) refl
      after_first empty-HasHistory

put-HasHistory_example :
    HasHistory listed listed listed env folder
      (after second_update (after first_update empty_server))
put-HasHistory_example =
    put-HasHistory listed listed listed 0 env second_update (after first_update empty_server)
      (after second_update (after first_update empty_server)) folder
      (refl, refl, omega arith, omega arith) refl after_second first-HasHistory

may_write_second :
    check_perms listed listed listed env folder true
      (some second_update)
      (after first_update empty_server)
    ≡ true
unfolding put after check_branch check_perms find_head check_against record_branch write_batch
    fire_observers get_head_for_tlf get_md_key big_endian key_discrete Map.get Map.put Map.delete
    fired unfired ℕ_discrete
may_write_second = refl

runs_second : (after first_update empty_server).shutdown ≡ false
unfolding put after check_branch check_perms find_head check_against record_branch write_batch
    fire_observers get_head_for_tlf get_md_key big_endian key_discrete Map.get Map.put Map.delete
    fired unfired ℕ_discrete
runs_second = refl

put_merged_iff_example :
    ((t : MdServer listed listed listed) × (put listed listed listed 0 env second_update
          (after first_update empty_server)
        ≡ ok t))
    ↔ ((h : Rmds)
        → entry listed listed listed folder 0 (after first_update empty_server) ≡ some h
        → Follows env h second_update)
unfolding ℕ_discrete
put_merged_iff_example =
    put_merged_iff listed listed listed 0 env second_update (after first_update empty_server) refl
      runs_second (unfold key_discrete in refl) may_write_second
