-- ===== src/MdServer/Kept.antt =====
-- libkbfs/mdserver_local.go, Put: the merged histories stay histories.
use angelkey_kbfsbeta.Prelude.{
  ℕ, zero, suc, ◌+◌, ◌^◌, ◌≤◌, ◌<◌, ◌≡◌, refl, sym, ap, ◌∙◌, subst, ◌≢◌, ◌⊎◌, inl, inr, Bool, false,
  Option, none, some, arith, ℕ_discrete, Option-cases,
}
use angelkey_kbfsbeta.Prelude.Result.{ok}
use angelkey_kbfsbeta.MdServer.{
  Key, key_discrete, Database, MergeStatus, merged, unmerged, Rmds, Services, null_branch_id,
  get_md_key, check_against, MdServer, get_head_for_tlf,
}
use angelkey_kbfsbeta.MdServer.Methods.{put, find_head, write_batch}
use angelkey_kbfsbeta.MdServer.Keys.{entry_key, IsId, entry_key-injective, entry_key-unmerged}
use angelkey_kbfsbeta.MdServer.History.{
  Follows, check_head-Follows, put_inv, entry, HasHistory, key_at, entry_other, entry_head,
  entry_revision,
}

pub MergeStatus-cases : (m : MergeStatus) → (m ≡ merged) ⊎ (m ≡ unmerged)
MergeStatus-cases merged = inl refl
MergeStatus-cases unmerged = inr refl

-- An update that Put can get: its IDs have 16 bytes, and its revision is a positive int64.
abbrev pub IsUpdate : Rmds → Type 0
IsUpdate md = IsId md.id × IsId md.bid × (1 ≤ md.revision) × (md.revision < 2 ^ 63)

merged_key :
    (id bid : Key) (r : ℕ) (m : MergeStatus) → m ≡ merged → get_md_key id r bid m ≡ entry_key id r
unfolding get_md_key
merged_key id bid zero merged q = refl
merged_key id bid (suc r) merged q = refl
merged_key id bid zero unmerged q = absurd (cc q)
merged_key id bid (suc r) unmerged q = absurd (cc q)

module _ (mds : Database Rmds) (branches locks : Database Key) (env : Services) (md : Rmds)
    (s t : MdServer mds branches locks) where
  pub HasHistory-same :
      (id : Key)
      → ((r : ℕ) → r < 2 ^ 63 → entry mds branches locks id r t ≡ entry mds branches locks id r s)
      → HasHistory mds branches locks env id s
      → HasHistory mds branches locks env id t
  HasHistory-same id same h = record {
    head_entry = λ x e.
        let (a, b, c) = h.head_entry x (sym (same 0 (omega arith)) ∙ e) in
        (a, b, same x.revision b ∙ c);
    up_to_head = λ r m a b e.
        let (c, x) = h.up_to_head r m a b (sym (same r b) ∙ e) in
        (c, (x.0, same 0 (omega arith) ∙ x.1, x.2));
    linked = λ r m n a b e f.
        h.linked r m n a b (sym (same r (omega arith)) ∙ e) (sym (same (r + 1) b) ∙ f);
  }

  -- The head that a merged update is checked against.
  pub merged_head :
      (head : Option Rmds × Bool)
      → md.merged_status ≡ merged
      → find_head mds branches locks env md s ≡ ok head
      → head.0 ≡ entry mds branches locks md.id 0 s
  unfolding find_head get_head_for_tlf get_md_key
  merged_head head q e = elim (Option-cases (mds.get md.id s.md_db)) [
    | inl f ↦
        let found : find_head mds branches locks env md s ≡ ok (none, false) =
          rw (q, find_head, get_head_for_tlf, get_md_key) (rw f (rw q refl)) in
        let same : (none, false) ≡ head = cc (found, e) in
        ap (λ (x : Option Rmds × Bool). x.0) (sym same) ∙ sym f
    | inr (h, f) ↦
        let found : find_head mds branches locks env md s ≡ ok (some h, false) =
          rw (q, find_head, get_head_for_tlf, get_md_key) (rw f refl) in
        let same : (some h, false) ≡ head = cc (found, e) in
        ap (λ (x : Option Rmds × Bool). x.0) (sym same) ∙ sym f
  ]

  -- A merged update becomes the head of its folder's history.
  module _ (u : IsUpdate md) (e : t.md_db ≡ (write_batch mds branches locks env md s).md_db)
      (q : md.merged_status ≡ merged) (old : HasHistory mds branches locks env md.id s)
      (follows : (h : Rmds) → entry mds branches locks md.id 0 s ≡ some h → Follows env h md) where
    key_same : (r : ℕ) → key_at mds branches locks env md s t e r ≡ entry_key md.id r
    key_same r = merged_key md.id md.bid r md.merged_status q

    key_differs :
        (r r' : ℕ)
        → r < 2 ^ 63
        → r' < 2 ^ 63
        → r' ≢ r
        → key_at mds branches locks env md s t e r' ≢ entry_key md.id r
    key_differs r r' b b' n k =
        n
          (entry_key-injective md.id md.id null_branch_id r r' u.0 u.0 b b'
            (sym (key_same r') ∙ k)).1

    stored : Rmds
    stored = record md { timestamp = env.now }

    new_head : entry mds branches locks md.id 0 t ≡ some (record md { timestamp = env.now })
    new_head = entry_head mds branches locks env md s t e md.id (key_same 0)

    new_revision :
        entry mds branches locks md.id md.revision t ≡ some (record md { timestamp = env.now })
    new_revision =
        entry_revision mds branches locks env md s t e md.id
          (key_differs md.revision 0 u.3 (omega arith) (λ z. absurd (omega (arith, u.2))))
          (key_same md.revision)

    old_revision :
        (r : ℕ)
        → 1 ≤ r
        → r < 2 ^ 63
        → r ≢ md.revision
        → entry mds branches locks md.id r t ≡ entry mds branches locks md.id r s
    old_revision r a b n =
        entry_other mds branches locks env md s t e md.id r
          (key_differs r 0 b (omega arith) (λ z. absurd (omega arith)))
          (key_differs r md.revision b u.3 (λ z. n (sym z)))

    -- Every old update is before the new one.
    before :
        (r : ℕ) (m : Rmds)
        → 1 ≤ r
        → r < 2 ^ 63
        → entry mds branches locks md.id r s ≡ some m
        → r < md.revision
    before r m a b f =
        let (h, x, le) = (old.up_to_head r m a b f).1 in omega (arith, (follows h x).next_revision)

    -- The update before the new one is the old head.
    last :
        (r : ℕ) (m : Rmds)
        → 1 ≤ r
        → r + 1 ≡ md.revision
        → entry mds branches locks md.id r s ≡ some m
        → Follows env m md
    last r m a z f =
        let (h, x, le) = (old.up_to_head r m a (omega (arith, u.3)) f).1 in
        let at : h.revision ≡ r = omega (arith, (follows h x).next_revision) in
        let there = (old.head_entry h x).2 in
        let same : h ≡ m = cc (there, f, at) in subst (λ y. Follows env y md) same (follows h x)

    pub HasHistory-put : HasHistory mds branches locks env md.id t
    HasHistory-put = record {
      head_entry = λ h f.
          let same : record md { timestamp = env.now } ≡ h = cc (new_head, f) in
          subst
            (λ (y : Rmds).
              (1 ≤ y.revision)
              × (y.revision < 2 ^ 63)
              × (entry mds branches locks md.id y.revision t ≡ some y))
            same (u.2, u.3, new_revision);
      up_to_head = λ r m a b f. elim (ℕ_discrete r md.revision) [
        | yes z ↦
            let same : record md { timestamp = env.now } ≡ m = cc (new_revision, f, z) in
            (
              ap (λ (y : Rmds). y.revision) (sym same) ∙ sym z,
              (record md { timestamp = env.now }, new_head, omega (arith, z)),
            )
        | no n ↦
            let f' = sym (old_revision r a b n) ∙ f in
            (
              (old.up_to_head r m a b f').0,
              (record md { timestamp = env.now }, new_head, omega (arith, before r m a b f')),
            )
      ];
      linked = λ r m n a b f g. elim (ℕ_discrete (r + 1) md.revision) [
        | yes z ↦
            let same : record md { timestamp = env.now } ≡ n = cc (new_revision, g, z) in
            let f' = sym (old_revision r a (omega arith) (λ w. absurd (omega (arith, w, z)))) ∙ f in
            let l = last r m a z f' in
            subst (λ y. Follows env m y) same
              (record {
                next_revision = l.next_revision;
                prev_root = l.prev_root;
                disk_usage = l.disk_usage;
              })
        | no z ↦
            let g' = sym (old_revision (r + 1) (omega arith) b z) ∙ g in
            let after = before (r + 1) n (omega arith) b g' in
            old.linked r m n a b
              (sym (old_revision r a (omega arith) (λ w. absurd (omega (arith, w, after)))) ∙ f) g'
      ];
    }

module _ (mds : Database Rmds) (branches locks : Database Key) where
  -- Put keeps the merged history of every folder, whether it writes to it or to another folder or
  -- branch: the head is the update of the highest revision, each update stands at its own revision,
  -- and of two updates at successive revisions the second names the first one's hash as its
  -- predecessor and has the disk usage that follows from it. The hashes are those of the services
  -- that Put is called with. The hypotheses are that IDs have 16 bytes, and that the revision of the
  -- update is a positive int64.
  pub put-HasHistory :
      (self : ℕ) (env : Services) (md : Rmds) (s t : MdServer mds branches locks) (id : Key)
      → IsUpdate md
      → IsId id
      → put mds branches locks self env md s ≡ ok t
      → HasHistory mds branches locks env id s
      → HasHistory mds branches locks env id t
  unfolding check_against
  put-HasHistory self env md s t id u i p h =
      let (head, found, checked, w) = put_inv mds branches locks self env md s t p in
      elim (MergeStatus-cases md.merged_status) [
        | inl q ↦ elim (key_discrete md.id id) [
          | yes same ↦
              let follows : (x : Rmds)
                  → entry mds branches locks md.id 0 s ≡ some x
                  → Follows env x md =
                λ x f. check_head-Follows env x md (
                  ap (λ o. check_against env o md)
                    (sym f ∙ sym (merged_head mds branches locks env md s t head q found))
                  ∙ checked) in
              subst
                (λ k. HasHistory mds branches locks env k s → HasHistory mds branches locks env k t)
                same (λ old. HasHistory-put mds branches locks env md s t u w q old follows) h
          | no n ↦
              HasHistory-same mds branches locks env md s t id
                (λ r b.
                  entry_other mds branches locks env md s t w id r
                    (λ k.
                      n
                        (entry_key-injective id md.id null_branch_id r 0 i u.0 b (omega arith)
                          (sym (merged_key md.id md.bid 0 md.merged_status q) ∙ k)).0)
                    (λ k.
                      n
                        (entry_key-injective id md.id null_branch_id r md.revision i u.0 b u.3
                          (sym (merged_key md.id md.bid md.revision md.merged_status q) ∙ k)).0))
                h
        ]
        | inr q ↦
            HasHistory-same mds branches locks env md s t id
              (λ r b.
                entry_other mds branches locks env md s t w id r
                  (λ k.
                    entry_key-unmerged id md.id md.bid r 0 i u.0 u.1
                      (ap (get_md_key md.id 0 md.bid) (sym q) ∙ k))
                  (λ k.
                    entry_key-unmerged id md.id md.bid r md.revision i u.0 u.1
                      (ap (get_md_key md.id md.revision md.bid) (sym q) ∙ k)))
              h
      ]
