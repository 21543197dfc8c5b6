-- ===== src/Ops/Invert/Updates.antt =====
-- ops.go, invertOpForLocalNotifications: which block updates the inverted operation has.
use angelkey_kbfsbeta.Prelude.{
  ◌≡◌, refl, sym, ap, ◌∙◌, ◌≢◌, some, List, ◌∷◌, ◌++◌, map, arith, All, [],
}
use mathlib.Core.List.{append_assoc, append-nil, map-append}
use angelkey_kbfsbeta.Data.{BlockPointer, file, zero_ptr}
use angelkey_kbfsbeta.Ops.{
  Op, OpCommon, empty_common, new_rename_op, BlockUpdate, create_op, add_update, common_add_update,
  rm_op, common, with_common, rename_op, sync_op, set_attr_op, all_updates, new_rm_op,
  new_create_op, new_sync_op, new_set_attr_op, resolution_op, rekey_op, RenameOp, no_update, gc_op,
}
use angelkey_kbfsbeta.Ops.Invert.{add_reversed, invert_op, inverse_base}

abbrev pub reverse_update : BlockUpdate → BlockUpdate
reverse_update u = record { unref = u.ref; ref = u.unref }

-- No update of the list ends at this pointer.
abbrev pub NoneEndsAt : BlockPointer → List BlockUpdate → Type 0
NoneEndsAt p = All (λ u. u.ref ≢ p)

add_reversed-append :
    (us vs : List BlockUpdate) (o : Op)
    → add_reversed (us ++ vs) o ≡ add_reversed vs (add_reversed us o)
unfolding add_reversed
add_reversed-append [] vs o = refl
add_reversed-append (u ∷ r) vs o = add_reversed-append r vs (add_update u.ref u.unref o)

abbrev with_updates : OpCommon → List BlockUpdate → OpCommon
with_updates c us = record c { updates = c.updates ++ map reverse_update us }

-- The pointers for which AddUpdate fills a field of the operation.
own_ptrs : Op → List BlockPointer
own_ptrs (create_op o) = o.dir.unref ∷ []
own_ptrs (rm_op o) = o.dir.unref ∷ []
own_ptrs (rename_op o) = o.old_dir.unref ∷ o.new_dir.unref ∷ []
own_ptrs (sync_op o) = o.file.unref ∷ []
own_ptrs (set_attr_op o) = o.dir.unref ∷ []
own_ptrs _ = []

add_update_other :
    (old new : BlockPointer) (o : Op)
    → All (λ p. old ≢ p) (own_ptrs o)
    → add_update old new o ≡ with_common (common_add_update old new (common o)) o
unfolding add_update own_ptrs
add_update_other old new (create_op o) h = ground arith
add_update_other old new (rm_op o) h = ground arith
add_update_other old new (rename_op o) h = ground arith
add_update_other old new (sync_op o) h = ground arith
add_update_other old new (set_attr_op o) h = ground arith
add_update_other old new _ h = refl

own_ptrs-with_common : (c : OpCommon) (o : Op) → own_ptrs (with_common c o) ≡ own_ptrs o
unfolding own_ptrs
own_ptrs-with_common c (create_op o) = refl
own_ptrs-with_common c _ = refl

with_common-with_common :
    (c d : OpCommon) (o : Op) → with_common c (with_common d o) ≡ with_common c o
with_common-with_common c d (create_op o) = refl
with_common-with_common c d _ = refl

common-with_common : (c : OpCommon) (o : Op) → common (with_common c o) ≡ c
common-with_common c (create_op o) = refl
common-with_common c _ = refl

with_common-common : (o : Op) → with_common (common o) o ≡ o
with_common-common (create_op o) = refl
with_common-common _ = refl

-- Reversed updates that do not concern the operation's own directories or file are appended.
appends :
    (us : List BlockUpdate) (o : Op)
    → All (λ u. All (λ p. u.ref ≢ p) (own_ptrs o)) us
    → add_reversed us o ≡ with_common (with_updates (common o) us) o
unfolding add_reversed
appends [] o h = sym (rw append-nil (with_common-common o))
appends (u ∷ r) o h =
    let c = common_add_update u.ref u.unref (common o) in
    rw (add_update_other u.ref u.unref o h.0) (
      appends r (with_common c o) (rw (own_ptrs-with_common c o) h.1)
      ∙ rw
          (
            with_common-with_common (with_updates (common (with_common c o)) r) c o,
            common-with_common c o,
          )
          (ap (λ d. with_common d o) (shift u r (common o))))
  where
    shift :
        (u : BlockUpdate) (r : List BlockUpdate) (c : OpCommon)
        → with_updates (common_add_update u.ref u.unref c) r ≡ with_updates c (u ∷ r)
    shift u r c =
        unfold common_add_update in ap (λ l. record c { updates = l }) (append_assoc c.updates _ _)

-- The own update of the operation is the only one that ends at its pointer.
abbrev pub IsInvertible : Op → Type 0
IsInvertible (create_op o) = NoneEndsAt o.dir.ref o.common.updates
IsInvertible (rm_op o) = NoneEndsAt o.dir.ref o.common.updates
IsInvertible (sync_op o) = NoneEndsAt o.file.ref o.common.updates
IsInvertible (set_attr_op o) = NoneEndsAt o.dir.ref o.common.updates
IsInvertible _ = ⊥

one_own :
    (p : BlockPointer) (us : List BlockUpdate)
    → NoneEndsAt p us
    → All (λ u. All (λ q. u.ref ≢ q) (p ∷ [])) us
one_own p [] h = tt
one_own p (u ∷ r) h = ((h.0, tt), one_own p r h.1)

-- The own update comes last, and fills the field of the new operation.
own_last :
    (us : List BlockUpdate) (d : BlockUpdate) (b : Op)
    → own_ptrs b ≡ d.ref ∷ []
    → NoneEndsAt d.ref us
    → add_reversed (us ++ d ∷ []) b
      ≡ add_update d.ref d.unref (with_common (with_updates (common b) us) b)
own_last us d b e h =
    rw (add_reversed-append, appends us b (rw e (one_own d.ref us h))) (unfold add_reversed in refl)

module _ (us : List BlockUpdate) (d : BlockUpdate) (h : NoneEndsAt d.ref us) where
  reversed_lem :
      (b : Op)
      → own_ptrs b ≡ d.ref ∷ []
      → all_updates (add_update d.ref d.unref (with_common (with_updates (common b) us) b))
        ≡ (common b).updates ++ map reverse_update us ++ reverse_update d ∷ []
      → (common b).updates ≡ []
      → all_updates (add_reversed (us ++ d ∷ []) b) ≡ map reverse_update (us ++ d ∷ [])
  reversed_lem b e a n = rw (own_last us d b e h, a, n, map-append)

-- A create, remove, sync or setAttr whose other updates do not end at its own pointer is inverted to
-- an operation whose block updates are those of the original, each reversed, in the same order.
pub all_updates-invert_op :
    (o : Op)
    → IsInvertible o
    → (o' : Op) × (invert_op o ≡ some o') × (all_updates o' ≡ map reverse_update (all_updates o))
unfolding invert_op own_ptrs all_updates add_update
all_updates-invert_op (create_op o) h = (
  _,
  refl,
  reversed_lem o.common.updates o.dir h (rm_op (new_rm_op o.new_name o.dir.ref)) refl (ground arith)
      refl,
)
all_updates-invert_op (rm_op o) h = (
  _,
  refl,
  reversed_lem o.common.updates o.dir h (create_op (new_create_op o.old_name o.dir.ref file)) refl
      (ground arith) refl,
)
all_updates-invert_op (sync_op o) h = (
  _,
  refl,
  reversed_lem o.common.updates o.file h
      (sync_op (record (new_sync_op o.file.ref) { writes = o.writes })) refl (ground arith) refl,
)
all_updates-invert_op (set_attr_op o) h = (
  _,
  refl,
  reversed_lem o.common.updates o.dir h
      (set_attr_op (new_set_attr_op o.name o.dir.ref o.attr o.file)) refl (ground arith) refl,
)
all_updates-invert_op (rename_op o) h = elim h [ ]
all_updates-invert_op (resolution_op o) h = elim h [ ]
all_updates-invert_op (rekey_op o) h = elim h [ ]
all_updates-invert_op (gc_op o) h = elim h [ ]

two_own :
    (p q : BlockPointer) (us : List BlockUpdate)
    → NoneEndsAt p us
    → NoneEndsAt q us
    → All (λ u. All (λ x. u.ref ≢ x) (p ∷ q ∷ [])) us
two_own p q [] h k = tt
two_own p q (u ∷ r) h k = ((h.0, (k.0, tt)), two_own p q r h.1 k.1)

abbrev inverse_same_dir : RenameOp → RenameOp
inverse_same_dir o = record {
  common = empty_common;
  old_name = o.new_name;
  old_dir = no_update;
  new_name = o.old_name;
  new_dir = record { unref = o.old_dir.ref; ref = zero_ptr };
  renamed = o.renamed;
  renamed_type = o.renamed_type;
}

all_updates-same_dir :
    (o : RenameOp)
    → o.new_dir ≡ no_update
    → all_updates (rename_op o) ≡ o.common.updates ++ o.old_dir ∷ []
unfolding all_updates
all_updates-same_dir o s = ground arith

inverse_base-same_dir :
    (o : RenameOp)
    → o.new_dir ≡ no_update
    → o.old_dir.ref ≢ zero_ptr
    → inverse_base (rename_op o) ≡ some (rename_op (inverse_same_dir o))
unfolding inverse_base new_rename_op
inverse_base-same_dir o s z = ground arith

invert_op_of_base :
    (o b : Op) → inverse_base o ≡ some b → invert_op o ≡ some (add_reversed (all_updates o) b)
unfolding invert_op
invert_op_of_base o b e = ground arith

-- The update of the directory goes to NewDir.
own_same_dir :
    (o : RenameOp) (c : OpCommon)
    → o.old_dir.ref ≢ zero_ptr
    → add_update o.old_dir.ref o.old_dir.unref
        (rename_op (record (inverse_same_dir o) { common = c }))
      ≡ rename_op (record (inverse_same_dir o) { common = c; new_dir = reverse_update o.old_dir })
unfolding add_update
own_same_dir o c z = ground arith

-- A rename within one directory, whose new parent block is a real one and whose other updates end
-- neither at it nor at the zero pointer, is inverted to a rename that has no source directory: its
-- OldDir is empty, and the directory stands in NewDir alone.
pub invert_op-same_dir :
    (o : RenameOp)
    → o.new_dir ≡ no_update
    → o.old_dir.ref ≢ zero_ptr
    → NoneEndsAt o.old_dir.ref o.common.updates
    → NoneEndsAt zero_ptr o.common.updates
    → (r : RenameOp) × (invert_op (rename_op o) ≡ some (rename_op r))
      × (r.old_dir ≡ no_update)
      × (r.new_dir ≡ reverse_update o.old_dir)
invert_op-same_dir o s z h k = (
  record (inverse_same_dir o) {
    common = with_updates empty_common o.common.updates;
    new_dir = reverse_update o.old_dir;
  },
  invert_op_of_base (rename_op o) (rename_op (inverse_same_dir o)) (inverse_base-same_dir o s z)
      ∙ rw
          (
            all_updates-same_dir o s,
            add_reversed-append,
            appends o.common.updates (rename_op (inverse_same_dir o))
                (unfold own_ptrs in two_own zero_ptr o.old_dir.ref o.common.updates k h),
          )
          (unfold add_reversed in
            ap some (own_same_dir o (with_updates empty_common o.common.updates) z)),
  refl,
  refl,
)
