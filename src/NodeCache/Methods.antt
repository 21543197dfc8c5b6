-- ===== src/NodeCache/Methods.antt =====
-- node_cache.go: each method of the cache keeps the reference counts.
use angelkey_kbfsbeta.Prelude.{ℕ, ◌≡◌, refl, subst, ◌⊎◌, inl, inr, none, some, arith, Option-cases}
use Prim.Native.String.{String}
use angelkey_kbfsbeta.Prelude.Result.{ok, Result-cases}
use angelkey_kbfsbeta.Data.{BlockRef, BlockPointer, ref, FilePath}
use angelkey_kbfsbeta.NodeCache.{
  Node, NodeCore, CacheEntry, NodeCache, get_entry, get_core, set_core, set_entry, delete_entry,
  make_node, create, create_child, get_or_create, get_node, move_entry, update_pointer,
  change_parent, move_node, detach, unlink, no_node, other_node, node, new_child_for_parent,
  or_state,
}
use angelkey_kbfsbeta.NodeCache.Counted.{
  IsCounted, make_node-IsCounted, create-IsCounted, delete_entry-IsCounted, set_core-IsCounted,
}
use angelkey_kbfsbeta.NodeCache.Steps.{moved, relocate-IsCounted}

change_parent-IsCounted :
    (c parent : ℕ) (name : String) (s : NodeCache)
    → IsCounted s
    → IsCounted (change_parent c parent name s)
unfolding change_parent
change_parent-IsCounted c parent name s h = elim (Option-cases (get_core c s)) [
  | inl m ↦ let e : s ≡ change_parent c parent name s = ground arith in subst IsCounted e h
  | inr (core, m) ↦
      let new : NodeCore = record core {
        parent = some parent;
        path_node = record core.path_node { name = name };
      } in
      let e : set_core c new s ≡ change_parent c parent name s = ground arith in
      subst IsCounted e (set_core-IsCounted c core new s m refl h)
]

detach-IsCounted :
    (c : ℕ) (old_path : FilePath) (s : NodeCache) → IsCounted s → IsCounted (detach c old_path s)
unfolding detach
detach-IsCounted c old_path s h = elim (Option-cases (get_core c s)) [
  | inl m ↦ let e : s ≡ detach c old_path s = ground arith in subst IsCounted e h
  | inr (core, m) ↦
      let new : NodeCore = record {
        path_node = record core.path_node { name = "" };
        parent = none;
        cached_path = old_path;
      } in
      let e : set_core c new s ≡ detach c old_path s = ground arith in
      subst IsCounted e (set_core-IsCounted c core new s m refl h)
]

move_entry-IsCounted :
    (old : BlockRef) (new : BlockPointer) (e : CacheEntry) (core : NodeCore) (s : NodeCache)
    → get_entry old s ≡ some e
    → get_core e.core s ≡ some core
    → IsCounted s
    → IsCounted (move_entry old new e core s)
unfolding move_entry
move_entry-IsCounted old new e core s p f h =
    let there = set_entry (ref new) e (delete_entry old (set_core e.core (moved core new) s)) in
    let c : (s ≡ move_entry old new e core s) ⊎ (there ≡ move_entry old new e core s) =
      ground arith in
    elim c [
      | inl q ↦ subst IsCounted q h
      | inr q ↦ subst IsCounted q (relocate-IsCounted old new e core s p f h)
    ]

-- A method that returns without an error leaves the cache, or changes one entry or one core.
pub update_pointer-IsCounted :
    (old : BlockRef) (new : BlockPointer) (s : NodeCache) {s' : NodeCache}
    → update_pointer old new s ≡ ok s'
    → IsCounted s
    → IsCounted s'
unfolding update_pointer
update_pointer-IsCounted old new s {s'} u h = elim (Option-cases (get_entry old s)) [
  | inl m ↦ let e : s ≡ s' = ground arith in subst IsCounted e h
  | inr (e, m) ↦ elim (Option-cases (get_core e.core s)) [
    | inl n ↦ let e : s ≡ s' = ground arith in subst IsCounted e h
    | inr (core, n) ↦
        let c : (s ≡ s') ⊎ (move_entry old new e core s ≡ s') = ground arith in
        elim c [
          | inl q ↦ subst IsCounted q h
          | inr q ↦ subst IsCounted q (move_entry-IsCounted old new e core s m n h)
        ]
  ]
]

pub unlink-IsCounted :
    (r : BlockRef) (old_path : FilePath) (s : NodeCache) {s' : NodeCache}
    → unlink r old_path s ≡ ok s'
    → IsCounted s
    → IsCounted s'
unfolding unlink
unlink-IsCounted r old_path s {s'} u h = elim (Option-cases (get_entry r s)) [
  | inl m ↦ let e : s ≡ s' = ground arith in subst IsCounted e h
  | inr (e, m) ↦
      let c : (s ≡ s') ⊎ (detach e.core old_path s ≡ s') = ground arith in
      elim c [
        | inl q ↦ subst IsCounted q h
        | inr q ↦ subst IsCounted q (detach-IsCounted e.core old_path s h)
      ]
]

pub move_node-IsCounted :
    (r : BlockRef) (parent : Node) (name : String) (s : NodeCache) {s' : NodeCache}
    → move_node r parent name s ≡ ok s'
    → IsCounted s
    → IsCounted s'
unfolding move_node
move_node-IsCounted r parent name s {s'} u h = elim (Option-cases (get_entry r s)) [
  | inl m ↦ let e : s ≡ s' = ground arith in subst IsCounted e h
  | inr (e, m) ↦
      let c : (s ≡ s') ⊎ ((p : ℕ) × (change_parent e.core p name s ≡ s')) = moved_or e m in
      elim c [
        | inl q ↦ subst IsCounted q h
        | inr (p, q) ↦ subst IsCounted q (change_parent-IsCounted e.core p name s h)
      ]
]
  where
    moved_or :
        (e : CacheEntry)
        → get_entry r s ≡ some e
        → (s ≡ s') ⊎ ((p : ℕ) × (change_parent e.core p name s ≡ s'))
    moved_or e m = elim (Result-cases (new_child_for_parent parent s)) [
      | inl (x, n) ↦ inl (ground arith)
      | inr (p, n) ↦
          let c : (s ≡ s') ⊎ (change_parent e.core p name s ≡ s') = ground arith in
          elim c [ inl q ↦ inl q | inr q ↦ inr (p, q) ]
    ]

pub get_node-IsCounted : (r : BlockRef) (s : NodeCache) → IsCounted s → IsCounted (get_node r s).1
unfolding get_node
get_node-IsCounted r s h = elim (Option-cases (get_entry r s)) [
  | inl m ↦ let e : s ≡ (get_node r s).1 = ground arith in subst IsCounted e h
  | inr (e, m) ↦
      let c : (s ≡ (get_node r s).1) ⊎ ((make_node r e s).1 ≡ (get_node r s).1) = ground arith in
      elim c [
        | inl q ↦ subst IsCounted q h
        | inr q ↦ subst IsCounted q (make_node-IsCounted r e s m h)
      ]
]

create_child-IsCounted :
    (ptr : BlockPointer) (name : String) (parent : Node) (s : NodeCache) {c : ℕ} {s' : NodeCache}
    → create_child ptr name parent s ≡ ok (c, s')
    → IsCounted s
    → IsCounted s'
unfolding create_child
create_child-IsCounted ptr name no_node s {c} {s'} u h =
    let e : (create ptr name none s).1 ≡ s' = ground arith in
    subst IsCounted e (create-IsCounted ptr name none s h)
create_child-IsCounted ptr name other_node s u h =
    absurd (unfold new_child_for_parent in ground arith)
create_child-IsCounted ptr name (node p) s {c} {s'} u h =
    elim (Result-cases (new_child_for_parent (node p) s)) [
      | inl (x, m) ↦ absurd (ground arith)
      | inr (q, m) ↦
          let e : (create ptr name (some q) s).1 ≡ s' = ground arith in
          subst IsCounted e (create-IsCounted ptr name (some q) s h)
    ]

or_state-IsCounted :
    (ptr : BlockPointer) (name : String) (parent : Node) (s : NodeCache)
    → IsCounted s
    → IsCounted (or_state s (create_child ptr name parent s)).1
or_state-IsCounted ptr name parent s h = elim (Result-cases (create_child ptr name parent s)) [
  | inl (x, m) ↦ rw m h
  | inr ((c, u), m) ↦ rw m (create_child-IsCounted ptr name parent s m h)
]

pub get_or_create-IsCounted :
    (ptr : BlockPointer) (name : String) (parent : Node) (s : NodeCache)
    → IsCounted s
    → IsCounted (get_or_create ptr name parent s).1
unfolding get_or_create
get_or_create-IsCounted ptr name parent s h = elim (Option-cases (get_entry (ref ptr) s)) [
  | inl m ↦
      let c : (s ≡ (get_or_create ptr name parent s).1)
          ⊎ ((or_state s (create_child ptr name parent s)).1
              ≡ (get_or_create ptr name parent s).1) =
        ground arith in
      elim c [
        | inl q ↦ subst IsCounted q h
        | inr q ↦ subst IsCounted q (or_state-IsCounted ptr name parent s h)
      ]
  | inr (e, m) ↦
      let t = delete_entry (ref ptr) s in
      let c : (s ≡ (get_or_create ptr name parent s).1)
          ⊎ ((make_node (ref ptr) e s).1 ≡ (get_or_create ptr name parent s).1)
          ⊎ ((or_state t (create_child ptr name parent t)).1
              ≡ (get_or_create ptr name parent s).1) =
        ground arith in
      elim c [
        | inl q ↦ subst IsCounted q h
        | inr (inl q) ↦ subst IsCounted q (make_node-IsCounted (ref ptr) e s m h)
        | inr (inr q) ↦
            subst IsCounted q
              (or_state-IsCounted ptr name parent t (delete_entry-IsCounted (ref ptr) s h))
      ]
]
