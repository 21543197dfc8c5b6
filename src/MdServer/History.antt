-- ===== src/MdServer/History.antt =====
-- libkbfs/mdserver_local.go, Put: the merged history of a folder.
use angelkey_kbfsbeta.Prelude.{
  ℕ, ◌+◌, ◌^◌, ◌≤◌, ◌<◌, ◌≡◌, refl, sym, ap, ◌∙◌, ◌≢◌, if_pos, if_neg, Bool, true, false, not,
  Option, some, ◌==◌, if◌then◌else◌, ==_iff,
}
use angelkey_kbfsbeta.Prelude.Result.{Result, ok, err, ◌>>=◌, ◌>>◌, guard}
use angelkey_kbfsbeta.MdServer.{
  Key, key_discrete, Database, Rmds, MdServerError, Services, get_md_key, check_against, check_head,
  check_branch, expected_usage, MdServer, unauthorized, shut_down,
}
use angelkey_kbfsbeta.MdServer.Methods.{
  put, find_head, record_branch, write_batch, fire_observers, check_perms, notifies,
}
use angelkey_kbfsbeta.MdServer.Keys.{entry_key}

guard_inv :
    {B : Type 0} (b : Bool) (e : MdServerError) (k : Result MdServerError B) (x : B)
    → (guard b e >> k) ≡ ok x
    → (b ≡ true) × (k ≡ ok x)
guard_inv true e k x h = (refl, h)
guard_inv false e k x h = absurd (cc h)

guard_only : (b : Bool) (e : MdServerError) → guard b e ≡ ok tt → b ≡ true
guard_only true e h = refl
guard_only false e h = absurd (cc h)

check_inv :
    {B : Type 0} (m : Result MdServerError (Unit {0})) (k : Result MdServerError B) (x : B)
    → (m >> k) ≡ ok x
    → (m ≡ ok tt) × (k ≡ ok x)
check_inv (ok tt) k x h = (refl, h)
check_inv (err e) k x h = absurd (cc h)

bind_inv :
    {A B : Type 0} (m : Result MdServerError A) (f : A → Result MdServerError B) (x : B)
    → (m >>= f) ≡ ok x
    → (a : A) × (m ≡ ok a) × (f a ≡ ok x)
bind_inv (ok a) f x h = (a, refl, h)
bind_inv (err e) f x h = absurd (cc h)

-- What a head that passes the checks says of the next update.
pub record Follows (env : Services) (head md : Rmds) : Type 0 where
  pub next_revision : head.revision + 1 ≡ md.revision
  pub prev_root : md.prev_root ≡ env.metadata_id head
  pub disk_usage : md.disk_usage ≡ expected_usage head md

pub check_head-Follows :
    (env : Services) (head md : Rmds) → check_head env head md ≡ ok tt → Follows env head md
unfolding check_head
check_head-Follows env head md h =
    let (a, k) = guard_inv (head.revision + 1 == md.revision) _ _ tt h in
    let (b, l) = guard_inv (md.prev_root == env.metadata_id head) _ _ tt k in
    let c = guard_only (md.disk_usage == expected_usage head md) _ l in
    record {
      next_revision = (==_iff _ _).0 a;
      prev_root = (==_iff _ _).0 b;
      disk_usage = (==_iff _ _).0 c;
    }

module _ (mds : Database Rmds) (branches locks : Database Key) where
  -- What Put does after the batch leaves the metadata alone.
  written :
      (self : ℕ) (env : Services) (md : Rmds) (s : MdServer mds branches locks) (b n : Bool)
      → (if n
          then fire_observers mds branches locks self md.id
              (write_batch mds branches locks env md (record_branch mds branches locks env md b s))
          else write_batch mds branches locks env md
              (record_branch mds branches locks env md b s)).md_db
        ≡ (write_batch mds branches locks env md s).md_db
  unfolding fire_observers write_batch record_branch
  written self env md s true true = refl
  written self env md s true false = refl
  written self env md s false true = refl
  written self env md s false false = refl

  -- An update that Put accepts passed the checks against the head, and is written.
  pub put_inv :
      (self : ℕ) (env : Services) (md : Rmds) (s t : MdServer mds branches locks)
      → put mds branches locks self env md s ≡ ok t
      → (head : Option Rmds × Bool) × (find_head mds branches locks env md s ≡ ok head)
        × (check_against env head.0 md ≡ ok tt)
        × (t.md_db ≡ (write_batch mds branches locks env md s).md_db)
  unfolding put
  put_inv self env md s t h =
      let (_, h1) = guard_inv (not s.shutdown) shut_down _ t h in
      let (_, h2) = check_inv (check_branch md.merged_status md.bid) _ t h1 in
      let (_, h3) =
        guard_inv (check_perms mds branches locks env md.id true (some md) s) unauthorized _ t h2 in
      let (head, found, h4) = bind_inv (find_head mds branches locks env md s) _ t h3 in
      let (checked, h5) = check_inv (check_against env head.0 md) _ t h4 in
      let same : (if notifies mds branches locks md
            then fire_observers mds branches locks self md.id (
                write_batch mds branches locks env md
                  (record_branch mds branches locks env md head.1 s))
            else write_batch mds branches locks env md
                (record_branch mds branches locks env md head.1 s))
          ≡ t =
        cc h5 in
      (
        head,
        found,
        checked,
        ap (λ (x : MdServer mds branches locks). x.md_db) (sym same)
            ∙ written self env md s head.1 (notifies mds branches locks md),
      )

  -- The update at a revision of the merged history, and the head at 0.
  abbrev pub entry : Key → ℕ → MdServer mds branches locks → Option Rmds
  entry id r s = mds.get (entry_key id r) s.md_db

  -- The head is the last update, and each update follows the one before it.
  pub record HasHistory (env : Services) (id : Key) (s : MdServer mds branches locks) : Type 0 where
    pub head_entry :
        (h : Rmds)
        → entry id 0 s ≡ some h
        → (1 ≤ h.revision) × (h.revision < 2 ^ 63) × (entry id h.revision s ≡ some h)
    pub up_to_head :
        (r : ℕ) (m : Rmds)
        → 1 ≤ r
        → r < 2 ^ 63
        → entry id r s ≡ some m
        → (m.revision ≡ r) × ((h : Rmds) × (entry id 0 s ≡ some h) × (r ≤ h.revision))
    pub linked :
        (r : ℕ) (m n : Rmds)
        → 1 ≤ r
        → r + 1 < 2 ^ 63
        → entry id r s ≡ some m
        → entry id (r + 1) s ≡ some n
        → Follows env m n

  -- The batch writes two keys.
  module _ (env : Services) (md : Rmds) (s t : MdServer mds branches locks)
      (e : t.md_db ≡ (write_batch mds branches locks env md s).md_db) where
    abbrev pub block : Rmds
    block = record md { timestamp = env.now }

    abbrev pub key_at : ℕ → Key
    key_at r = get_md_key md.id r md.bid md.merged_status

    pub entry_other :
        (id : Key) (r : ℕ)
        → key_at 0 ≢ entry_key id r
        → key_at md.revision ≢ entry_key id r
        → entry id r t ≡ entry id r s
    unfolding write_batch
    entry_other id r n m =
        let inner = mds.put (key_at md.revision) block s.md_db in
        ap (λ d. mds.get (entry_key id r) d) e
        ∙ mds.get-put (key_at 0) (entry_key id r) block inner
        ∙ if_neg (key_discrete (key_at 0) (entry_key id r)) n (some block)
            (mds.get (entry_key id r) inner)
        ∙ mds.get-put (key_at md.revision) (entry_key id r) block s.md_db
        ∙ if_neg (key_discrete (key_at md.revision) (entry_key id r)) m (some block) (entry id r s)

    pub entry_head : (id : Key) → key_at 0 ≡ entry_key id 0 → entry id 0 t ≡ some block
    unfolding write_batch
    entry_head id q =
        let inner = mds.put (key_at md.revision) block s.md_db in
        ap (λ d. mds.get (entry_key id 0) d) e
        ∙ mds.get-put (key_at 0) (entry_key id 0) block inner
        ∙ if_pos (key_discrete (key_at 0) (entry_key id 0)) q (some block)
            (mds.get (entry_key id 0) inner)

    pub entry_revision :
        (id : Key)
        → key_at 0 ≢ entry_key id md.revision
        → key_at md.revision ≡ entry_key id md.revision
        → entry id md.revision t ≡ some block
    unfolding write_batch
    entry_revision id n q =
        let inner = mds.put (key_at md.revision) block s.md_db in
        let k = entry_key id md.revision in
        ap (λ d. mds.get k d) e
        ∙ mds.get-put (key_at 0) k block inner
        ∙ if_neg (key_discrete (key_at 0) k) n (some block) (mds.get k inner)
        ∙ mds.get-put (key_at md.revision) k block s.md_db
        ∙ if_pos (key_discrete (key_at md.revision) k) q (some block) (mds.get k s.md_db)
