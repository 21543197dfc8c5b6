-- ===== src/Ops/Conflict/Exact.antt =====
-- ops.go, CheckConflict: exactly which pairs of operations conflict, and that the checks return.
use angelkey_kbfsbeta.Prelude.{
  ◌≡◌, refl, ◌≢◌, ◌↔◌, ◌⊎◌, inl, inr, false, Option, none, some, List, ◌∷◌, arith, Bool-cases, init,
  last?, [],
}
use Prim.Native.String.{String}
use text.Mathlib.TextEquality.{eq_iff}
use angelkey_kbfsbeta.Prelude.Result.{ok}
use angelkey_kbfsbeta.Data.{
  dir, FilePath, parent_path, tail_name, PathNode, tail_pointer, BlockPointer,
}
use angelkey_kbfsbeta.Ops.{
  Op, CreateOp, RmOp, RenameOp, create_op, rm_op, rename_op, sync_op, set_attr_op, size_attr,
  get_final_path,
}
use angelkey_kbfsbeta.Ops.Conflict.{
  check_conflict, drop_unmerged, rename_in_place, CrAction, check_create_create, check_rm,
  rename_unmerged, copy_unmerged_attr, same_attr,
}

-- The merged operation creates or removes an entry of this name.
abbrev pub CreatesOrRemoves : String → Op → Type 0
CreatesOrRemoves name (create_op m) = m.new_name ≡ name
CreatesOrRemoves name (rm_op m) = m.old_name ≡ name
CreatesOrRemoves name _ = ⊥

-- A path with a node and its parent.
abbrev pub HasParent : FilePath → Type 0
HasParent p = (n : PathNode) × (m : PathNode) × (r : List PathNode) × (p.path ≡ n ∷ m ∷ r)

last?_total {ℓ} : {A : Type ℓ} (x : A) (r : List A) → (y : A) × (last? (x ∷ r) ≡ some y)
last?_total x [] = (x, refl)
last?_total x (y ∷ r) = last?_total y r

pub tail_name_total : (p : FilePath) → HasParent p → (s : String) × (tail_name p ≡ ok s)
unfolding tail_name
tail_name_total p (n, m, r, e) = let (y, f) = last?_total n (m ∷ r) in (y.name, rw (e, f))

parent_pointer_total :
    (p : FilePath)
    → HasParent p
    → (q : FilePath) × (x : BlockPointer) × (parent_path p ≡ ok q) × (tail_pointer q ≡ ok x)
unfolding parent_path tail_pointer
parent_pointer_total p (n, m, r, e) =
    let (y, f) = last?_total n (init (m ∷ r)) in
    (record p { path = n ∷ init (m ∷ r) }, y.pointer, ground arith, rw f)

module _ (conflict_rename : Op → String → String) where
  -- A create is checked against a create without a conflict exactly when the names differ, or when
  -- both create directories and neither is half of a rename.
  pub create_conflict_iff :
      (co merged : CreateOp)
      → (check_conflict conflict_rename (create_op co) (create_op merged) ≡ ok none) ↔ (
          (merged.new_name ≢ co.new_name)
          ⊎ (merged.type ≡ dir) × (co.type ≡ dir) × (merged.renamed ≡ false) × (co.renamed ≡ false))
  unfolding check_conflict
  create_conflict_iff co merged = ground (arith, eq_iff merged.new_name co.new_name)

  -- An unmerged remove is dropped exactly when the merged operation creates or removes the same name,
  -- and otherwise there is no conflict.
  pub rm_conflict_iff :
      (ro : RmOp) (merged : Op)
      → ((check_conflict conflict_rename (rm_op ro) merged ≡ ok (some (drop_unmerged (rm_op ro))))
          ↔ CreatesOrRemoves ro.old_name merged)
        × ((check_conflict conflict_rename (rm_op ro) merged ≡ ok none)
            ↔ (¬ CreatesOrRemoves ro.old_name merged))
  unfolding check_conflict
  rm_conflict_iff ro (create_op m) = ground (arith, eq_iff m.new_name ro.old_name)
  rm_conflict_iff ro (rm_op m) = ground (arith, eq_iff m.old_name ro.old_name)
  rm_conflict_iff ro _ = ground arith

  rename_in_place_total :
      (unmerged merged : Op)
      → HasParent (get_final_path unmerged)
      → HasParent (get_final_path merged)
      → (a : Option CrAction) × (rename_in_place conflict_rename unmerged merged ≡ ok a)
        × ((o : Op) → a ≢ some (drop_unmerged o))
  unfolding rename_in_place
  rename_in_place_total u m hu hm =
      let (n, en) = tail_name_total (get_final_path u) hu in
      let (k, ek) = tail_name_total (get_final_path m) hm in
      let (q, x, eq, ex) = parent_pointer_total (get_final_path u) hu in
      let (q', x', eq', ex') = parent_pointer_total (get_final_path m) hm in
      (
        some (rename_unmerged n (conflict_rename u k) "" x x'),
        rw (en, ek, eq, ex, eq', ex'),
        λ o. ground arith,
      )

  dropped_itself :
      (ro : RmOp) (m o : Op) → check_rm conflict_rename ro m ≡ some (drop_unmerged o) → o ≡ rm_op ro
  unfolding check_rm
  dropped_itself ro (create_op m) o e = ground arith
  dropped_itself ro (rm_op m) o e = ground arith
  dropped_itself ro _ o e = ground arith

  -- CheckConflict returns for every unmerged operation but a rename, if both operations know the
  -- path of the entry that they changed, and only a remove is ever answered by dropping it.
  pub check_conflict_total :
      (unmerged merged : Op)
      → ((r : RenameOp) → unmerged ≢ rename_op r)
      → HasParent (get_final_path unmerged)
      → HasParent (get_final_path merged)
      → (a : Option CrAction) × (check_conflict conflict_rename unmerged merged ≡ ok a)
        × ((o : Op)
            → a ≡ some (drop_unmerged o)
            → (r : RmOp) × (unmerged ≡ rm_op r) × (o ≡ unmerged))
  unfolding check_conflict
  check_conflict_total (create_op co) (create_op m) n hu hm = (
    check_create_create conflict_rename co m,
    refl,
    λ o e. absurd (unfold check_create_create in ground arith),
  )
  check_conflict_total (create_op co) m n hu hm = (none, refl, λ o e. cc)
  check_conflict_total (rm_op ro) m n hu hm =
      (check_rm conflict_rename ro m, refl, λ o e. (ro, refl, dropped_itself ro m o e))
  check_conflict_total (rename_op r) m n hu hm = absurd (n r refl)
  check_conflict_total (sync_op so) (sync_op m) n hu hm =
      let (a, e, d) = rename_in_place_total (sync_op so) (sync_op m) hu hm in
      (a, e, λ o f. absurd (d o f))
  check_conflict_total (sync_op so) (set_attr_op m) n hu hm =
      let (f, ef) = tail_name_total so.common.final_path hu in
      let (k, ek) = tail_name_total m.common.final_path hm in
      (some (copy_unmerged_attr f k (size_attr ∷ [])), rw (ef, ek), λ o e. cc)
  check_conflict_total (sync_op so) m n hu hm = (none, refl, λ o e. cc)
  check_conflict_total (set_attr_op sao) (set_attr_op m) n hu hm =
      elim (Bool-cases (same_attr m.attr sao.attr)) [
        | inl t ↦
            let (a, e, d) = rename_in_place_total (set_attr_op sao) (set_attr_op m) hu hm in
            (a, rw t e, λ o f. absurd (d o f))
        | inr t ↦ (none, rw t, λ o e. cc)
      ]
  check_conflict_total (set_attr_op sao) m n hu hm = (none, refl, λ o e. cc)
  check_conflict_total _ m n hu hm = (none, refl, λ o e. cc)
