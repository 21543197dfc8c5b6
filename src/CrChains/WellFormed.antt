-- ===== src/CrChains/WellFormed.antt =====
-- cr_chains.go: the maps of crChains stay consistent while chains are made.
use angelkey_kbfsbeta.Prelude.{
  ℕ, ◌≡◌, sym, ap, ◌∙◌, ◌≢◌, inl, inr, Bool, true, some, List, [], ◌∷◌, arith, Option-cases, All,
}
use angelkey_kbfsbeta.Prelude.Map
use angelkey_kbfsbeta.Prelude.Map.{Map}
use angelkey_kbfsbeta.Data.{BlockPointer, block_pointer_discrete, zero_ptr, is_initialized}
use angelkey_kbfsbeta.Ops.{
  Op, BlockUpdate, create_op, rm_op, rename_op, sync_op, set_attr_op, resolution_op, rekey_op,
  gc_op, all_updates,
}
use angelkey_kbfsbeta.CrChains.Chain.{CrChain}
use angelkey_kbfsbeta.CrChains.Chains.{
  CrChains, RenameInfo, find, get_chain, original_from_most_recent_or_same,
}
use angelkey_kbfsbeta.CrChains.Build.{
  move_chain, start_chain, apply_update, apply_updates, mark_created, mark_deleted, ensure_chain,
}
use angelkey_kbfsbeta.CrChains.Moved.{move_chain-IsWellFormed}
use angelkey_kbfsbeta.CrChains.Invariant.{
  LeadsTo, IsWellFormed, start_chain-IsWellFormed, start_chain-new, start_chain-LeadsTo,
  start_chain-StartsAt, start_chain-fresh,
}

-- The new pointers of the updates are initialized.
abbrev pub HasRefs : List BlockUpdate → Type 0
HasRefs us = All (λ u. is_initialized u.ref ≡ true) us

-- Those of an operation, with the file of a setAttrOp.
abbrev pub HasPointers : Op → Type 0
HasPointers (set_attr_op o) = HasRefs (all_updates (set_attr_op o)) × (is_initialized o.file ≡ true)
HasPointers o = HasRefs (all_updates o)

-- Only five fields matter.
pub IsWellFormed-others :
    {s : CrChains} (root : BlockPointer) (d c b u : Map BlockPointer Bool)
    (r : Map BlockPointer RenameInfo)
    → IsWellFormed s
    → IsWellFormed (record s {
      original_root = root;
      deleted_originals = d;
      created_originals = c;
      block_change_pointers = b;
      to_unref_pointers = u;
      renamed_originals = r;
    })
IsWellFormed-others root d c b u r w = record {
  recent = λ p k e.
      let l = w.recent p k e in
      record {
        chain = l.chain;
        found = l.found;
        at_recent = l.at_recent;
        initialized = l.initialized;
        tracked = l.tracked;
      };
  origin = λ p k e.
      let l = w.origin p k e in
      record { chain = l.chain; found = l.found; at_original = l.at_original };
  fresh = w.fresh;
}

new_chain-IsWellFormed :
    (u : BlockUpdate) (s : CrChains)
    → is_initialized u.ref ≡ true
    → IsWellFormed s
    → IsWellFormed (
        move_chain u.ref s.next_chain
          (record { ops = []; original = u.unref; most_recent = zero_ptr })
          (start_chain u.unref zero_ptr s))
unfolding start_chain
new_chain-IsWellFormed u s i w =
    let chain : CrChain = record { ops = []; original = u.unref; most_recent = zero_ptr } in
    let unused : (p : BlockPointer) → find p s.by_most_recent ≢ some s.next_chain = λ p q.
      let l = w.recent p s.next_chain q in
      absurd (omega (arith, w.fresh s.next_chain l.chain l.found)) in
    move_chain-IsWellFormed u.ref s.next_chain chain (start_chain u.unref zero_ptr s)
      (start_chain-IsWellFormed s w u.unref zero_ptr) (start_chain-new s w u.unref zero_ptr) i
      (λ p q. absurd (unused p q))

pub apply_update-IsWellFormed :
    (u : BlockUpdate) (s : CrChains)
    → is_initialized u.ref ≡ true
    → IsWellFormed s
    → IsWellFormed (apply_update u s)
unfolding apply_update
apply_update-IsWellFormed u s i w = elim (Option-cases (find u.unref s.by_most_recent)) [
  | inl e ↦ rw (e, apply_update) (new_chain-IsWellFormed u s i w)
  | inr (c, e) ↦
      let l = w.recent u.unref c e in
      rw (e, l.found, apply_update)
        (move_chain-IsWellFormed u.ref c l.chain s w l.found i
          (λ p q. ap is_initialized l.at_recent ∙ l.initialized))
]

pub apply_updates-IsWellFormed :
    (us : List BlockUpdate) (s : CrChains)
    → HasRefs us
    → IsWellFormed s
    → IsWellFormed (apply_updates us s)
unfolding apply_updates
apply_updates-IsWellFormed [] s i w = w
apply_updates-IsWellFormed (u ∷ r) s i w =
    apply_updates-IsWellFormed r (apply_update u s) i.1 (apply_update-IsWellFormed u s i.0 w)

pub mark_created-IsWellFormed :
    (ps : List BlockPointer) (s : CrChains) → IsWellFormed s → IsWellFormed (mark_created ps s)
unfolding mark_created
mark_created-IsWellFormed [] s w = w
mark_created-IsWellFormed (p ∷ r) s w =
    mark_created-IsWellFormed r
      (record s { created_originals = Map.put block_pointer_discrete p true s.created_originals })
      (IsWellFormed-others s.original_root s.deleted_originals
        (Map.put block_pointer_discrete p true s.created_originals) s.block_change_pointers
        s.to_unref_pointers s.renamed_originals w)

pub mark_deleted-IsWellFormed :
    (ps : List BlockPointer) (s : CrChains) → IsWellFormed s → IsWellFormed (mark_deleted ps s)
unfolding mark_deleted
mark_deleted-IsWellFormed [] s w = w
mark_deleted-IsWellFormed (p ∷ r) s w =
    let d =
      Map.put block_pointer_discrete (original_from_most_recent_or_same p s) true
        s.deleted_originals in
    mark_deleted-IsWellFormed r (record s { deleted_originals = d })
      (IsWellFormed-others s.original_root d s.created_originals s.block_change_pointers
        s.to_unref_pointers s.renamed_originals w)

-- The chain that setAttr starts for its file.
abbrev entered : BlockPointer → CrChains → CrChains
entered p s = record (start_chain p p s) {
  by_most_recent = Map.put block_pointer_discrete p s.next_chain s.by_most_recent;
}

entered-LeadsTo :
    (p : BlockPointer) (s : CrChains)
    → is_initialized p ≡ true
    → IsWellFormed s
    → (q : BlockPointer) (k : ℕ) → find q (entered p s).by_most_recent ≡ some k
    → LeadsTo (entered p s) q k
entered-LeadsTo p s i w q k e = elim (block_pointer_discrete p q) [
  | yes same ↦
      let here : s.next_chain ≡ k =
        ground (arith, Map.get-put block_pointer_discrete p q s.next_chain s.by_most_recent) in
      record {
        chain = record { ops = []; original = p; most_recent = p };
        found = ap (λ x. get_chain x (entered p s)) (sym here) ∙ start_chain-new s w p p;
        at_recent = same;
        initialized = ap is_initialized (sym same) ∙ i;
        tracked = inl same;
      }
  | no n ↦
      let before : find q s.by_most_recent ≡ some k =
        ground (arith, Map.get-put block_pointer_discrete p q s.next_chain s.by_most_recent) in
      let l = start_chain-LeadsTo s w p p q k before in
      record {
        chain = l.chain;
        found = l.found;
        at_recent = l.at_recent;
        initialized = l.initialized;
        tracked = l.tracked;
      }
]

pub ensure_chain-IsWellFormed :
    (p : BlockPointer) (s : CrChains)
    → is_initialized p ≡ true
    → IsWellFormed s
    → IsWellFormed (ensure_chain p s)
unfolding ensure_chain
ensure_chain-IsWellFormed p s i w = elim (Option-cases (find p s.by_most_recent)) [
  | inl e ↦
      rw (e, ensure_chain)
        (record {
          recent = entered-LeadsTo p s i w;
          origin = λ q k f.
              let l = start_chain-StartsAt s w p p q k f in
              record { chain = l.chain; found = l.found; at_original = l.at_original };
          fresh = start_chain-fresh s w p p;
        })
  | inr (c, e) ↦ rw (e, ensure_chain) w
]

pub all_refs : (o : Op) → HasPointers o → HasRefs (all_updates o)
all_refs (create_op o) i = i
all_refs (rm_op o) i = i
all_refs (rename_op o) i = i
all_refs (sync_op o) i = i
all_refs (set_attr_op o) i = i.0
all_refs (resolution_op c) i = i
all_refs (rekey_op c) i = i
all_refs (gc_op o) i = i
