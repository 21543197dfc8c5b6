-- ===== src/CrChains/Collapse.antt =====
-- cr_chains.go, collapse: which entries of a directory are there after the operations of a chain.
use angelkey_kbfsbeta.Prelude.{
  ℕ, suc, ◌+◌, ◌<◌, ◌≡◌, refl, sym, ap, ◌∙◌, subst, ◌≢◌, ◌↔◌, ◌⊎◌, inl, inr, ite, Bool, true, false,
  none, some, List, [], ◌∷◌, ◌++◌, arith, if◌then◌else◌, Bool-cases, Option-cases, length,
  length-append, get_elem?, string_discrete, get_elem?-lt, get_elem?-append_left,
  get_elem?-append_end,
}
use Prim.Native.String.{String}
use angelkey_kbfsbeta.Prelude.Map
use angelkey_kbfsbeta.Prelude.Map.{Map, get-put, get-delete}
use angelkey_kbfsbeta.Ops.{Op, CreateOp, RmOp, create_op, rm_op, rename_op, sync_op}
use angelkey_kbfsbeta.CrChains.Chain.{Marks, mark, contains, keep}

-- The entry of a name, before the operations or created by them.
pub data Status : Type 0 where
  absent old created : Status

abbrev pub is_present : Status → Bool
is_present absent = false
is_present _ = true

module _ (n : String) where
  -- Whether the directory has an entry of the name, after one operation and after several.
  abbrev pub entry_after : Bool → Op → Bool
  entry_after b (create_op o) = ite (string_discrete o.new_name n) true b
  entry_after b (rm_op o) = ite (string_discrete o.old_name n) false b
  entry_after b _ = b

  abbrev pub entry_after_all : Bool → List Op → Bool
  entry_after_all b [] = b
  entry_after_all b (o ∷ r) = entry_after_all (entry_after b o) r

  abbrev pub status_after : Status → Op → Status
  status_after st (create_op o) = ite (string_discrete o.new_name n) created st
  status_after st (rm_op o) = ite (string_discrete o.old_name n) absent st
  status_after st _ = st

  -- An entry is created where there is none, or by a rename over an entry that the chain created.
  abbrev pub CanApply : Status → Op → Type 0
  CanApply st (create_op o) = (o.new_name ≡ n) → (st ≡ absent) ⊎ (st ≡ created) × (o.renamed ≡ true)
  CanApply st _ = Unit

  abbrev pub IsProper : Status → List Op → Type 0
  IsProper st [] = Unit
  IsProper st (o ∷ r) = CanApply st o × IsProper (status_after st o) r

  -- The entry after the operations that are not marked, from this index on.
  abbrev pub kept : Bool → ℕ → List ℕ → List Op → Bool
  kept b i removed [] = b
  kept b i removed (o ∷ r) =
      kept (if contains i removed then b else entry_after b o) (i + 1) removed r

  pub kept-keep :
      (b : Bool) (i : ℕ) (removed : List ℕ) (ops : List Op)
      → entry_after_all b (keep i removed ops) ≡ kept b i removed ops
  unfolding keep
  kept-keep b i removed [] = refl
  kept-keep b i removed (o ∷ r) = elim (Bool-cases (contains i removed)) [
    | inl e ↦ rw e (kept-keep b (i + 1) removed r)
    | inr e ↦ rw e (kept-keep (entry_after b o) (i + 1) removed r)
  ]

  pub entry_after_all-append :
      (b : Bool) (xs : List Op) (o : Op)
      → entry_after_all b (xs ++ o ∷ []) ≡ entry_after (entry_after_all b xs) o
  entry_after_all-append b [] o = refl
  entry_after_all-append b (x ∷ r) o = entry_after_all-append (entry_after b x) r o

  pub kept-append :
      (b : Bool) (i j : ℕ) (removed : List ℕ) (xs : List Op) (o : Op)
      → i + length xs ≡ j
      → kept b i removed (xs ++ o ∷ [])
        ≡ (if contains j removed then kept b i removed xs else entry_after (kept b i removed xs) o)
  kept-append b i j removed [] o e = let q : i ≡ j = omega arith in rw (← q) refl
  kept-append b i j removed (x ∷ r) o e =
      kept-append (if contains i removed then b else entry_after b x) (i + 1) j removed r o
        (omega arith)

  -- Marks that differ only at operations on other names do not matter.
  pub kept_same :
      (b : Bool) (i : ℕ) (xs ys : List ℕ) (ops : List Op)
      → ((j : ℕ) (o : Op)
          → get_elem? ops j ≡ some o
          → (contains (i + j) xs ≡ contains (i + j) ys) ⊎ ((c : Bool) → entry_after c o ≡ c))
      → kept b i xs ops ≡ kept b i ys ops
  kept_same b i xs ys [] h = refl
  kept_same b i xs ys (o ∷ r) h =
      let first : (if contains i xs then b else entry_after b o)
          ≡ (if contains i ys then b else entry_after b o) =
        elim (h 0 o refl) [
          | inl e ↦
              let z : i + 0 ≡ i = omega arith in
              ap (λ t. if t then b else entry_after b o) (rw z at e)
          | inr e ↦ ground (arith, e b)
        ] in
      ap (λ c. kept c (i + 1) xs r) first
      ∙ kept_same (if contains i ys then b else entry_after b o) (i + 1) xs ys r
          (λ j p q. let z : i + suc j ≡ i + 1 + j = omega arith in rw z at (h (suc j) p q))

  -- An operation that does not concern the name.
  abbrev pub IsOther : Op → Type 0
  IsOther o = (c : Bool) → entry_after c o ≡ c

  -- What the marks mean for the name, after the operations `pre`: the entry is the same without the
  -- marked ones, and it would be absent without the create in `seen`.
  pub record Tracks (start : Bool) (pre : List Op) (marks : Marks) (st : Status) : Type 0 where
    pub same : kept start 0 marks.1 pre ≡ entry_after_all start pre
    pub dropped :
        (k : ℕ)
        → Map.get string_discrete n marks.0 ≡ some k
        → kept start 0 (k ∷ marks.1) pre ≡ false
    pub status : entry_after_all start pre ≡ is_present st
    pub created_iff : (Map.get string_discrete n marks.0 ≡ none) ↔ (st ≢ created)

  -- An operation on another name: the marks change at operations on other names, if at all.
  pub other-Tracks :
      (start : Bool) (pre : List Op) (marks marks' : Marks) (st : Status) (o : Op)
      → IsOther o
      → Map.get string_discrete n marks'.0 ≡ Map.get string_discrete n marks.0
      → ((j : ℕ) (p : Op)
          → get_elem? pre j ≡ some p
          → (contains j marks'.1 ≡ contains j marks.1) ⊎ IsOther p)
      → Tracks start pre marks st
      → Tracks start (pre ++ o ∷ []) marks' st
  other-Tracks start pre marks marks' st o other seen h t = record {
    same =
        passed marks'.1
        ∙ kept_same start 0 marks'.1 marks.1 pre (λ j p e. h' 0 j p e)
        ∙ t.same
        ∙ sym (after ∙ refl);
    dropped = λ k e.
        passed (k ∷ marks'.1)
        ∙ kept_same start 0 (k ∷ marks'.1) (k ∷ marks.1) pre
            (λ j p q. elim (h' 0 j p q) [ inl g ↦ inl (ground arith) | inr g ↦ inr g ])
        ∙ t.dropped k (sym seen ∙ e);
    status = after ∙ t.status;
    created_iff = rw seen t.created_iff;
  }
    where
      passed : (x : List ℕ) → kept start 0 x (pre ++ o ∷ []) ≡ kept start 0 x pre
      passed x =
          kept-append start 0 (length pre) x pre o (omega arith)
          ∙ (elim (Bool-cases (contains (length pre) x)) [
            | inl e ↦ rw e refl
            | inr e ↦ rw e (other (kept start 0 x pre))
          ])

      after : entry_after_all start (pre ++ o ∷ []) ≡ entry_after_all start pre
      after = entry_after_all-append start pre o ∙ other (entry_after_all start pre)

      h' :
          (z j : ℕ) (p : Op)
          → get_elem? pre j ≡ some p
          → (contains (0 + j) marks'.1 ≡ contains (0 + j) marks.1) ⊎ IsOther p
      h' z j p e = let q : 0 + j ≡ j = omega arith in rw q (h j p e)

-- The marks stand for operations of `pre`: those in `seen` create the entry of that name.
pub record Marked (pre : List Op) (marks : Marks) : Type 0 where
  pub bounded : (k : ℕ) → contains k marks.1 ≡ true → k < length pre
  pub sound :
      (m : String) (k : ℕ)
      → Map.get string_discrete m marks.0 ≡ some k
      → (o : CreateOp) × (get_elem? pre k ≡ some (create_op o)) × (o.new_name ≡ m)

pub Marked-seen :
    (pre : List Op) (marks : Marks) (m : String) (k : ℕ)
    → Marked pre marks
    → Map.get string_discrete m marks.0 ≡ some k
    → k < length pre
Marked-seen pre marks m k h e = let s = h.sound m k e in get_elem?-lt pre k (create_op s.0) s.1

module _ (i : ℕ) (marks : Marks) (o : RmOp) where
  pub mark_rm_unseen :
      Map.get string_discrete o.old_name marks.0 ≡ none → marks ≡ mark i (rm_op o) marks
  unfolding mark
  mark_rm_unseen g = ground arith

  pub mark_rm_seen :
      (k : ℕ)
      → Map.get string_discrete o.old_name marks.0 ≡ some k
      → (Map.delete string_discrete o.old_name marks.0, i ∷ k ∷ marks.1) ≡ mark i (rm_op o) marks
  unfolding mark
  mark_rm_seen k g = ground arith

module _ (pre : List Op) (marks : Marks) (h : Marked pre marks) where
  kept_sound :
      (o : Op) (m : String) (k : ℕ)
      → Map.get string_discrete m marks.0 ≡ some k
      → (c : CreateOp) × (get_elem? (pre ++ o ∷ []) k ≡ some (create_op c)) × (c.new_name ≡ m)
  kept_sound o m k e =
      let s = h.sound m k e in (s.0, get_elem?-append_left pre (o ∷ []) k (create_op s.0) s.1, s.2)

  still : (o : Op) → Marked (pre ++ o ∷ []) marks
  still o = record {
    bounded = λ k e. omega (arith, h.bounded k e, length-append pre (o ∷ []));
    sound = kept_sound o;
  }

  pub mark-Marked : (o : Op) → Marked (pre ++ o ∷ []) (mark (length pre) o marks)
  unfolding mark
  mark-Marked (create_op o) = record {
    bounded = λ k e. elim (Option-cases (Map.get string_discrete o.new_name marks.0)) [
      | inl g ↦ ground (arith, h.bounded k, length-append pre (create_op o ∷ []))
      | inr (j, g) ↦ ground (
        arith,
        h.bounded k,
        Marked-seen pre marks o.new_name j h g,
        length-append pre (create_op o ∷ []),
      )
    ];
    sound = λ m k e. elim (string_discrete o.new_name m) [
      | yes q ↦
          let z : length pre ≡ k =
            ground (arith, get-put string_discrete o.new_name m (length pre) marks.0) in
          (o, rw (← z) (get_elem?-append_end pre (create_op o)), q)
      | no q ↦
          kept_sound (create_op o) m k
            (ground (arith, get-put string_discrete o.new_name m (length pre) marks.0))
    ];
  }
  mark-Marked (rm_op o) = elim (Option-cases (Map.get string_discrete o.old_name marks.0)) [
    | inl g ↦
        subst (Marked (pre ++ rm_op o ∷ [])) (mark_rm_unseen (length pre) marks o g)
          (still (rm_op o))
    | inr (j, g) ↦
        subst (Marked (pre ++ rm_op o ∷ [])) (mark_rm_seen (length pre) marks o j g) (record {
          bounded = λ k e. ground (
            arith,
            h.bounded k,
            Marked-seen pre marks o.old_name j h g,
            length-append pre (rm_op o ∷ []),
          );
          sound = λ m k e.
              kept_sound (rm_op o) m k
                (ground (arith, get-delete string_discrete o.old_name m marks.0));
        })
  ]
  mark-Marked (rename_op o) = still (rename_op o)
  mark-Marked (sync_op o) = still (sync_op o)
  mark-Marked o = still o
