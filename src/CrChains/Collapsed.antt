-- ===== src/CrChains/Collapsed.antt =====
-- cr_chains.go, collapse: it leaves the entries that the whole chain leaves.
use angelkey_kbfsbeta.Prelude.{
  ℕ, ◌+◌, ◌≡◌, refl, ◌∙◌, subst, ◌≢◌, ◌⊎◌, inl, inr, if_pos, if_neg, Bool, true, false, none, some,
  List, [], ◌∷◌, ◌++◌, arith, ℕ_discrete, if◌then◌else◌, Bool-cases, Option-cases, length,
  length-append, get_elem?, string_discrete, get_elem?-lt,
}
use Prim.Native.String.{String}
use mathlib.Core.List.{append_assoc, append-nil}
use angelkey_kbfsbeta.Prelude.Map
use angelkey_kbfsbeta.Prelude.Map.{Map, get-put, get-delete}
use angelkey_kbfsbeta.Ops.{
  Op, CreateOp, RmOp, create_op, rm_op, rename_op, sync_op, set_attr_op, resolution_op, rekey_op,
  gc_op,
}
use angelkey_kbfsbeta.CrChains.Chain.{CrChain, Marks, mark, mark_all, contains, collapse}
use angelkey_kbfsbeta.CrChains.Collapse.{
  Status, absent, created, is_present, entry_after, entry_after_all, status_after, CanApply,
  IsProper, kept, kept-keep, kept-append, kept_same, IsOther, Tracks, other-Tracks,
  entry_after_all-append, Marked, Marked-seen, mark-Marked, mark_rm_unseen, mark_rm_seen,
}

module _ (i : ℕ) (marks : Marks) (o : CreateOp) where
  seen_create : (mark i (create_op o) marks).0 ≡ Map.put string_discrete o.new_name i marks.0
  unfolding mark
  seen_create = refl

  marks_create_new :
      Map.get string_discrete o.new_name marks.0 ≡ none → (mark i (create_op o) marks).1 ≡ marks.1
  unfolding mark
  marks_create_new g = ground arith

  marks_create_over :
      (k : ℕ)
      → Map.get string_discrete o.new_name marks.0 ≡ some k
      → o.renamed ≡ true
      → (mark i (create_op o) marks).1 ≡ k ∷ marks.1
  unfolding mark
  marks_create_over k g r = ground arith

module _ (i : ℕ) (marks : Marks) (o : CreateOp) where
  marks_create_plain : o.renamed ≡ false → (mark i (create_op o) marks).1 ≡ marks.1
  unfolding mark
  marks_create_plain r = ground arith

module _ (n : String) (start : Bool) (pre : List Op) (o : Op) where
  end_marked : (x : List ℕ) → kept n start 0 (length pre ∷ x) (pre ++ o ∷ []) ≡ kept n start 0 x pre
  end_marked x =
      kept-append n start 0 (length pre) (length pre ∷ x) pre o (omega arith)
      ∙ marked
      ∙ kept_same n start 0 (length pre ∷ x) x pre
          (λ j p e. let l = get_elem?-lt pre j p e in inl (ground arith))
    where
      marked :
          (if contains (length pre) (length pre ∷ x)
            then kept n start 0 (length pre ∷ x) pre
            else entry_after n (kept n start 0 (length pre ∷ x) pre) o)
          ≡ kept n start 0 (length pre ∷ x) pre
      marked = ground arith

  end_kept :
      (x : List ℕ)
      → contains (length pre) x ≡ false
      → kept n start 0 x (pre ++ o ∷ []) ≡ entry_after n (kept n start 0 x pre) o
  end_kept x c = kept-append n start 0 (length pre) x pre o (omega arith) ∙ rw c refl

module _ (n : String) (start : Bool) (pre : List Op) (o : CreateOp) (own : o.new_name ≡ n) where
  created_Tracks :
      (marks' : Marks) (seen : Map String ℕ)
      → marks'.0 ≡ Map.put string_discrete o.new_name (length pre) seen
      → contains (length pre) marks'.1 ≡ false
      → kept n start 0 marks'.1 pre ≡ false
      → Tracks n start (pre ++ create_op o ∷ []) marks' created
  created_Tracks marks' seen s c f = record {
    same =
        end_kept n start pre (create_op o) marks'.1 c
        ∙ ground (arith, entry_after_all-append n start pre (create_op o));
    dropped = λ k e.
        let z : length pre ≡ k =
          ground (arith, e, s, get-put string_discrete o.new_name n (length pre) seen) in
        rw (← z) (end_marked n start pre (create_op o) marks'.1) ∙ f;
    status = ground (arith, entry_after_all-append n start pre (create_op o));
    created_iff = ground (arith, s, get-put string_discrete o.new_name n (length pre) seen);
  }

module _ (n : String) (start : Bool) (pre : List Op) (o : RmOp) (own : o.old_name ≡ n) where
  removed_Tracks :
      (marks' : Marks)
      → Map.get string_discrete n marks'.0 ≡ none
      → kept n start 0 marks'.1 (pre ++ rm_op o ∷ []) ≡ false
      → Tracks n start (pre ++ rm_op o ∷ []) marks' absent
  removed_Tracks marks' s f = record {
    same = f ∙ ground (arith, entry_after_all-append n start pre (rm_op o));
    dropped = λ k e. absurd (ground arith);
    status = ground (arith, entry_after_all-append n start pre (rm_op o));
    created_iff = ground arith;
  }

module _ (n : String) (start : Bool) (pre : List Op) (marks : Marks) (st : Status) where
  module _ (h : Marked pre marks) (t : Tracks n start pre marks st) where
    unmarked : contains (length pre) marks.1 ≡ false
    unmarked = elim (Bool-cases (contains (length pre) marks.1)) [
      | inl e ↦ absurd (omega (arith, h.bounded (length pre) e))
      | inr e ↦ e
    ]

    own_create :
        (o : CreateOp)
        → o.new_name ≡ n
        → CanApply n st (create_op o)
        → Tracks n start (pre ++ create_op o ∷ []) (mark (length pre) (create_op o) marks) created
    own_create o q can = elim (Option-cases (Map.get string_discrete o.new_name marks.0)) [
      | inl g ↦
          let free : st ≡ absent = ground (arith, can q, t.created_iff) in
          let same = marks_create_new (length pre) marks o g in
          created_Tracks n start pre o q (mark (length pre) (create_op o) marks) marks.0
            (seen_create (length pre) marks o) (rw same unmarked)
            (rw (same, t.same, t.status, free) refl)
      | inr (k, g) ↦
          let g' : Map.get string_discrete n marks.0 ≡ some k = ground arith in
          let over : o.renamed ≡ true = ground (arith, can q, t.created_iff) in
          let more = marks_create_over (length pre) marks o k g over in
          let l = Marked-seen pre marks o.new_name k h g in
          created_Tracks n start pre o q (mark (length pre) (create_op o) marks) marks.0
            (seen_create (length pre) marks o) (rw more (ground (arith, unmarked)))
            (rw more (t.dropped k g'))
    ]

    own_rm :
        (o : RmOp)
        → o.old_name ≡ n
        → Tracks n start (pre ++ rm_op o ∷ []) (mark (length pre) (rm_op o) marks) absent
    own_rm o q = elim (Option-cases (Map.get string_discrete o.old_name marks.0)) [
      | inl g ↦
          subst (λ m. Tracks n start (pre ++ rm_op o ∷ []) m absent)
            (mark_rm_unseen (length pre) marks o g)
            (removed_Tracks n start pre o q marks (ground arith)
              (end_kept n start pre (rm_op o) marks.1 unmarked ∙ ground arith))
      | inr (k, g) ↦
          let g' : Map.get string_discrete n marks.0 ≡ some k = ground arith in
          subst (λ m. Tracks n start (pre ++ rm_op o ∷ []) m absent)
            (mark_rm_seen (length pre) marks o k g)
            (removed_Tracks n start pre o q
              (Map.delete string_discrete o.old_name marks.0, length pre ∷ k ∷ marks.1)
              (ground (arith, get-delete string_discrete o.old_name n marks.0))
              (end_marked n start pre (rm_op o) (k ∷ marks.1) ∙ t.dropped k g'))
    ]

    -- One more mark, on the create that `seen` has for another name, is on another operation.
    IsOther-mark :
        (m : String) (k : ℕ) (x : List ℕ)
        → m ≢ n
        → Map.get string_discrete m marks.0 ≡ some k
        → (j : ℕ) (p : Op) → get_elem? pre j ≡ some p
        → (contains j (k ∷ x) ≡ contains j x) ⊎ IsOther n p
    IsOther-mark m k x d g j p e = elim (ℕ_discrete k j) [
      | no u ↦ inl (ground arith)
      | yes u ↦
          let (c, f, q) = h.sound m k g in
          let same : create_op c ≡ p = ground (arith, e, f) in
          inr (subst (IsOther n) same (λ b. ground (arith, d)))
    ]

    other_create :
        (o : CreateOp)
        → o.new_name ≢ n
        → Tracks n start (pre ++ create_op o ∷ []) (mark (length pre) (create_op o) marks) st
    other_create o d =
        other-Tracks n start pre marks (mark (length pre) (create_op o) marks) st (create_op o)
          (λ b. ground (arith, d))
          (rw (seen_create (length pre) marks o)
            (ground (arith, get-put string_discrete o.new_name n (length pre) marks.0, d)))
          (λ j p e. more j p e) t
      where
        more :
            (j : ℕ) (p : Op)
            → get_elem? pre j ≡ some p
            → (contains j (mark (length pre) (create_op o) marks).1 ≡ contains j marks.1)
              ⊎ IsOther n p
        more j p e = elim (Option-cases (Map.get string_discrete o.new_name marks.0)) [
          | inl g ↦ inl (rw (marks_create_new (length pre) marks o g) refl)
          | inr (k, g) ↦ elim (Bool-cases o.renamed) [
            | inl r ↦
                rw (marks_create_over (length pre) marks o k g r)
                  (IsOther-mark o.new_name k marks.1 d g j p e)
            | inr r ↦ inl (rw (marks_create_plain (length pre) marks o r) refl)
          ]
        ]

    other_rm :
        (o : RmOp)
        → o.old_name ≢ n
        → Tracks n start (pre ++ rm_op o ∷ []) (mark (length pre) (rm_op o) marks) st
    other_rm o d = elim (Option-cases (Map.get string_discrete o.old_name marks.0)) [
      | inl g ↦
          subst (λ m. Tracks n start (pre ++ rm_op o ∷ []) m st)
            (mark_rm_unseen (length pre) marks o g)
            (other-Tracks n start pre marks marks st (rm_op o) (λ b. ground (arith, d)) refl
              (λ j p e. inl refl) t)
      | inr (k, g) ↦
          subst (λ m. Tracks n start (pre ++ rm_op o ∷ []) m st)
            (mark_rm_seen (length pre) marks o k g)
            (other-Tracks n start pre marks
              (Map.delete string_discrete o.old_name marks.0, length pre ∷ k ∷ marks.1) st (rm_op o)
              (λ b. ground (arith, d))
              (ground (arith, get-delete string_discrete o.old_name n marks.0, d))
              (λ j p e.
                let l = get_elem?-lt pre j p e in
                ground (arith, IsOther-mark o.old_name k marks.1 d g j p e))
              t)
    ]

    unconcerned : (o : Op) → IsOther n o → Tracks n start (pre ++ o ∷ []) marks st
    unconcerned o q = other-Tracks n start pre marks marks st o q refl (λ j p e. inl refl) t

    mark-Tracks :
        (o : Op)
        → CanApply n st o
        → Tracks n start (pre ++ o ∷ []) (mark (length pre) o marks) (status_after n st o)
    unfolding mark
    mark-Tracks (create_op o) can = elim (string_discrete o.new_name n) [
      | yes q ↦ rw (if_pos _ q) (own_create o q can)
      | no q ↦ rw (if_neg _ q) (other_create o q)
    ]
    mark-Tracks (rm_op o) can = elim (string_discrete o.old_name n) [
      | yes q ↦ rw (if_pos _ q) (own_rm o q)
      | no q ↦ rw (if_neg _ q) (other_rm o q)
    ]
    mark-Tracks (rename_op o) can = unconcerned (rename_op o) (λ b. refl)
    mark-Tracks (sync_op o) can = unconcerned (sync_op o) (λ b. refl)
    mark-Tracks (set_attr_op o) can = unconcerned (set_attr_op o) (λ b. refl)
    mark-Tracks (resolution_op o) can = unconcerned (resolution_op o) (λ b. refl)
    mark-Tracks (rekey_op o) can = unconcerned (rekey_op o) (λ b. refl)
    mark-Tracks (gc_op o) can = unconcerned (gc_op o) (λ b. refl)

mark_all-kept :
    (n : String) (start : Bool) (ops pre : List Op) (marks : Marks) (st : Status)
    → Marked pre marks
    → Tracks n start pre marks st
    → IsProper n st ops
    → kept n start 0 (mark_all (length pre) ops marks).1 (pre ++ ops)
      ≡ entry_after_all n start (pre ++ ops)
unfolding mark_all
mark_all-kept n start [] pre marks st h t p = rw (append-nil pre) t.same
mark_all-kept n start (o ∷ r) pre marks st h t p =
    let l : length (pre ++ o ∷ []) ≡ length pre + 1 = omega (arith, length-append pre (o ∷ [])) in
    let rest =
      mark_all-kept n start r (pre ++ o ∷ []) (mark (length pre) o marks) (status_after n st o)
        (mark-Marked pre marks h o) (mark-Tracks n start pre marks st h t o p.0) p.1 in
    rw (l, append_assoc pre (o ∷ []) r) at rest

-- Collapsing a chain does not change whether the directory has an entry of a given name after the
-- chain's operations. The hypotheses are that the entry, if there is one before, is not of this
-- chain, and that an operation of the chain creates the name only where it has no entry, or by a
-- rename over an entry that the chain created.
pub collapse-entries :
    (c : CrChain) (n : String) (st : Status)
    → st ≢ created
    → IsProper n st c.ops
    → entry_after_all n (is_present st) (collapse c).ops ≡ entry_after_all n (is_present st) c.ops
unfolding collapse
collapse-entries c n st fresh p =
    kept-keep n (is_present st) 0 (mark_all 0 c.ops ([], [])).1 c.ops
    ∙ mark_all-kept n (is_present st) c.ops [] ([], []) st empty_marks
        (record {
          same = refl;
          dropped = λ k e. absurd (unfold Map.get in cc);
          status = refl;
          created_iff = (λ _. fresh, λ _. unfold Map.get in refl);
        })
        p
  where
    empty_marks : Marked [] ([], [])
    empty_marks = record { bounded = λ k e. cc; sound = λ m k e. absurd (unfold Map.get in cc) }
