-- ===== src/MdServer/Accepts.antt =====
-- libkbfs/mdserver_local.go, Put: which merged updates it accepts.
use angelkey_kbfsbeta.Prelude.{
  ℕ, ◌+◌, ◌≡◌, refl, sym, ap, ◌∙◌, ◌↔◌, inl, inr, true, false, not, some, if◌then◌else◌, ==_iff,
  Option-cases,
}
use angelkey_kbfsbeta.Prelude.Result.{ok, guard}
use angelkey_kbfsbeta.MdServer.{
  Key, Database, merged, Rmds, Services, get_md_key, check_against, check_head, check_branch,
  expected_usage, MdServer, get_head_for_tlf, unauthorized, shut_down,
}
use angelkey_kbfsbeta.MdServer.Methods.{
  put, find_head, record_branch, write_batch, fire_observers, check_perms, notifies,
}
use angelkey_kbfsbeta.MdServer.History.{Follows, check_head-Follows, put_inv, entry}
use angelkey_kbfsbeta.MdServer.Kept.{merged_head}
use angelkey_kbfsbeta.MdServer.{is_null}

Follows-check_head :
    (env : Services) (head md : Rmds) → Follows env head md → check_head env head md ≡ ok tt
unfolding check_head
Follows-check_head env head md f =
    rw
      (
        (==_iff (head.revision + 1) md.revision).1 f.next_revision,
        (==_iff md.prev_root (env.metadata_id head)).1 f.prev_root,
        (==_iff md.disk_usage (expected_usage head md)).1 f.disk_usage,
        check_head,
      )
      refl

module _ (mds : Database Rmds) (branches locks : Database Key) (self : ℕ) (env : Services)
    (md : Rmds) (s : MdServer mds branches locks) (q : md.merged_status ≡ merged) where
  found_merged :
      find_head mds branches locks env md s ≡ ok (entry mds branches locks md.id 0 s, false)
  unfolding find_head get_head_for_tlf get_md_key
  found_merged = elim (Option-cases (mds.get md.id s.md_db)) [
    | inl f ↦ rw (q, find_head, get_head_for_tlf, get_md_key) (rw f (rw q refl))
    | inr (h, f) ↦ rw (q, find_head, get_head_for_tlf, get_md_key) (rw f refl)
  ]

  checked :
      ((h : Rmds) → entry mds branches locks md.id 0 s ≡ some h → Follows env h md)
      → check_against env (entry mds branches locks md.id 0 s) md ≡ ok tt
  unfolding check_against
  checked f = elim (Option-cases (entry mds branches locks md.id 0 s)) [
    | inl e ↦ rw (e, check_against) refl
    | inr (h, e) ↦ rw (e, check_against) (Follows-check_head env h md (f h e))
  ]

  written : MdServer mds branches locks
  written =
      let w =
        write_batch mds branches locks env md (record_branch mds branches locks env md false s) in
      if notifies mds branches locks md then fire_observers mds branches locks self md.id w else w

  branch_ok : is_null md.bid ≡ true → check_branch md.merged_status md.bid ≡ ok tt
  unfolding check_branch
  branch_ok null = rw q (rw null refl)

  put-written :
      s.shutdown ≡ false
      → is_null md.bid ≡ true
      → check_perms mds branches locks env md.id true (some md) s ≡ true
      → ((h : Rmds) → entry mds branches locks md.id 0 s ≡ some h → Follows env h md)
      → put mds branches locks self env md s ≡ ok written
  unfolding put written
  put-written up null allowed f =
      let running : guard (not s.shutdown) shut_down ≡ ok tt = rw up refl in
      let may_write : guard (check_perms mds branches locks env md.id true (some md) s) unauthorized
          ≡ ok tt =
        rw allowed refl in
      rw (running, branch_ok null, may_write, found_merged, checked f) refl

  -- Put accepts a merged update, with no branch ID, exactly if it follows the head of its folder's
  -- merged history: if there is one, then the update has the next revision, names the head's hash,
  -- and has the disk usage that follows. The hypotheses are that the server is not shut down and
  -- that the user may write.
  pub put_merged_iff :
      s.shutdown ≡ false
      → is_null md.bid ≡ true
      → check_perms mds branches locks env md.id true (some md) s ≡ true
      → ((t : MdServer mds branches locks) × (put mds branches locks self env md s ≡ ok t))
        ↔ ((h : Rmds) → entry mds branches locks md.id 0 s ≡ some h → Follows env h md)
  unfolding check_against
  put_merged_iff up null allowed = (
    λ (t, e) h f.
        let (head, found, ok_head, w) = put_inv mds branches locks self env md s t e in
        check_head-Follows env h md (
          ap (λ o. check_against env o md)
            (sym f ∙ sym (merged_head mds branches locks env md s t head q found))
          ∙ ok_head),
    λ f. (written, put-written up null allowed f),
  )
