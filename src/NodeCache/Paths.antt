-- ===== src/NodeCache/Paths.antt =====
-- node_cache.go, PathFromNode: the path of a new child is that of its parent with one node more.
use angelkey_kbfsbeta.Prelude.{
  ℕ, zero, suc, ◌<◌, ◌≡◌, refl, sym, ap, ◌∙◌, subst, ◌⊎◌, inl, inr, Option, none, some, List, [],
  ◌∷◌, ◌++◌, arith, Option-cases, length, length-append, reverse, List-cases,
}
use Prim.Native.String.{String}
use mathlib.Core.List.{append_assoc, reverse-append, reverse-reverse}
use angelkey_kbfsbeta.Prelude.Result.{ok, Result-cases}
use angelkey_kbfsbeta.Data.{BlockPointer, ref, PathNode, FilePath, child_path}
use angelkey_kbfsbeta.NodeCache.{
  NodeCore, NodeCache, get_entry, get_core, node, create, create_child, get_or_create,
  new_child_for_parent, make_node,
}
use angelkey_kbfsbeta.NodeCache.Walk.{walk, path_from_node}
use angelkey_kbfsbeta.NodeCache.Counted.{IsCounted, get_core-create, new_core}

-- The path that a walk ends with, with more nodes behind it.
abbrev with_tail : NodeCache → FilePath → List PathNode → FilePath
with_tail s q tail = record { tlf = s.tlf; branch = s.branch; path = q.path ++ tail }

-- What the walk does at a core.
abbrev StopsAt : NodeCore → Type 0
StopsAt core =
    (core.parent ≡ none) × ((n : PathNode) × (r : List PathNode) × (core.cached_path.path ≡ n ∷ r))

module _ (s : NodeCache) where
  walk_on :
      (fuel c : ℕ) (nodes : List PathNode) (core : NodeCore)
      → get_core c s ≡ some core
      → (¬ StopsAt core)
      → walk (suc fuel) (some c) nodes s ≡ walk fuel core.parent (nodes ++ core.path_node ∷ []) s
  unfolding walk
  walk_on fuel c nodes core m n = ground arith

  walk_stop :
      (fuel c : ℕ) (nodes : List PathNode) (core : NodeCore)
      → get_core c s ≡ some core
      → StopsAt core
      → 0 < length nodes
      → walk (suc fuel) (some c) nodes s
        ≡ some (record {
          tlf = s.tlf;
          branch = s.branch;
          path = reverse (nodes ++ reverse core.cached_path.path);
        })
  unfolding walk
  walk_stop fuel c nodes core m n p = ground arith

  walk_stop_first :
      (fuel c : ℕ) (core : NodeCore)
      → get_core c s ≡ some core
      → StopsAt core
      → walk (suc fuel) (some c) [] s ≡ some core.cached_path
  unfolding walk
  walk_stop_first fuel c core m n = ground arith

  stops_or : (core : NodeCore) → StopsAt core ⊎ (¬ StopsAt core)
  stops_or core = elim (Option-cases core.parent) [
    | inr (p, m) ↦ inr (λ h. cc)
    | inl m ↦ elim (List-cases core.cached_path.path) [
      | inl e ↦ inr (λ h. absurd (ground arith))
      | inr x ↦ inl (m, x)
    ]
  ]

  walk_core :
      (fuel c : ℕ) (nodes : List PathNode) {q : FilePath}
      → walk (suc fuel) (some c) nodes s ≡ some q
      → (core : NodeCore) × (get_core c s ≡ some core)
  unfolding walk
  walk_core fuel c nodes w = elim (Option-cases (get_core c s)) [
    | inl m ↦ absurd (ground arith)
    | inr r ↦ r
  ]

  stop-path :
      (fuel c : ℕ) (nodes : List PathNode) (core : NodeCore) {q : FilePath}
      → get_core c s ≡ some core
      → StopsAt core
      → walk (suc fuel) (some c) nodes s ≡ some q
      → q.path ≡ reverse (nodes ++ reverse core.cached_path.path)
  stop-path fuel c [] core {q} m st w =
      let e : core.cached_path ≡ q = ground (arith, walk_stop_first fuel c core m st) in
      rw (reverse-reverse) (ap (λ (x : FilePath). x.path) (sym e))
  stop-path fuel c (n ∷ r) core {q} m st w =
      ground (arith, walk_stop fuel c (n ∷ r) core m st (omega arith))

  -- A walk with other nodes collected first ends with them behind its path.
  walk-tail :
      (fuel : ℕ) (n : Option ℕ) (nodes tail : List PathNode) {q : FilePath}
      → walk fuel n nodes s ≡ some q
      → 0 < length tail
      → walk fuel n (tail ++ nodes) s ≡ some (with_tail s q (reverse tail))
  unfolding walk
  walk-tail fuel none nodes tail {q} w p =
      let e : reverse nodes ≡ q.path = ground arith in
      rw (reverse-append tail nodes) (rw (← e) refl)
  walk-tail zero (some c) nodes tail w p = absurd (ground arith)
  walk-tail (suc fuel) (some c) nodes tail {q} w p =
      let (core, m) = walk_core fuel c nodes w in
      elim (stops_or core) [
        | inr n ↦
            let next : walk fuel core.parent (nodes ++ core.path_node ∷ []) s ≡ some q =
              sym (walk_on fuel c nodes core m n) ∙ w in
            walk_on fuel c (tail ++ nodes) core m n
            ∙ ap (λ l. walk fuel core.parent l s) (append_assoc tail nodes (core.path_node ∷ []))
            ∙ walk-tail fuel core.parent (nodes ++ core.path_node ∷ []) tail next p
        | inl st ↦
            let cached = reverse core.cached_path.path in
            let e : reverse ((tail ++ nodes) ++ cached) ≡ q.path ++ reverse tail =
              ap reverse (append_assoc tail nodes cached)
              ∙ reverse-append tail (nodes ++ cached)
              ∙ ap (λ l. l ++ reverse tail) (sym (stop-path fuel c nodes core m st w)) in
            walk_stop fuel c (tail ++ nodes) core m st (omega (arith, length-append tail nodes))
            ∙ ap (λ l. some (record { tlf = s.tlf; branch = s.branch; path = l })) e
      ]

stopped_same :
    (s s' : NodeCache)
    → s'.tlf ≡ s.tlf
    → s'.branch ≡ s.branch
    → (fuel c : ℕ) (nodes : List PathNode) (core : NodeCore) → get_core c s ≡ some core
    → get_core c s' ≡ some core
    → StopsAt core
    → walk (suc fuel) (some c) nodes s' ≡ walk (suc fuel) (some c) nodes s
stopped_same s s' t b fuel c [] core m m' st =
    walk_stop_first s' fuel c core m' st ∙ sym (walk_stop_first s fuel c core m st)
stopped_same s s' t b fuel c (x ∷ r) core m m' st =
    walk_stop s' fuel c (x ∷ r) core m' st (omega arith)
    ∙ rw (t, b) (sym (walk_stop s fuel c (x ∷ r) core m st (omega arith)))

-- A walk goes the same way in a cache that has more cores.
walk-more :
    (s s' : NodeCache)
    → s'.tlf ≡ s.tlf
    → s'.branch ≡ s.branch
    → ((c : ℕ) (core : NodeCore) → get_core c s ≡ some core → get_core c s' ≡ some core)
    → (fuel : ℕ) (n : Option ℕ) (nodes : List PathNode) {q : FilePath}
    → walk fuel n nodes s ≡ some q
    → walk fuel n nodes s' ≡ some q
unfolding walk
walk-more s s' t b k fuel none nodes w = ground arith
walk-more s s' t b k zero (some c) nodes w = absurd (ground arith)
walk-more s s' t b k (suc fuel) (some c) nodes {q} w =
    let (core, m) = walk_core s fuel c nodes w in
    let m' = k c core m in
    elim (stops_or s core) [
      | inr n ↦
          walk_on s' fuel c nodes core m' n
          ∙ walk-more s s' t b k fuel core.parent (nodes ++ core.path_node ∷ [])
              (sym (walk_on s fuel c nodes core m n) ∙ w)
      | inl st ↦ stopped_same s s' t b fuel c nodes core m m' st ∙ w
    ]

parent_inv : (p r : ℕ) (s : NodeCache) → new_child_for_parent (node p) s ≡ ok r → r ≡ p
unfolding new_child_for_parent
parent_inv p r s e = ground arith

-- What a call that made a node under a parent has done.
created_inv :
    (ptr : BlockPointer) (name : String) (p c : ℕ) (s : NodeCache) {s' : NodeCache}
    → get_entry (ref ptr) s ≡ none
    → get_or_create ptr name (node p) s ≡ (ok c, s')
    → (c ≡ s.next_core) × ((create ptr name (some p) s).1 ≡ s')
unfolding get_or_create create_child
created_inv ptr name p c s {s'} free e = elim (Result-cases (new_child_for_parent (node p) s)) [
  | inl (x, m) ↦ absurd (ground arith)
  | inr (r, m) ↦
      let same = parent_inv p r s m in
      let n : (create ptr name (some p) s).0 ≡ s.next_core = unfold create make_node in refl in
      ground arith
]

-- A node that GetOrCreate makes under a parent, for a pointer that was not cached, has the path of
-- the parent, in the cache's folder branch, with the new name and pointer behind it: if a number of
-- steps is enough for the parent's path, one more is enough for the child's.
pub path_from_node-get_or_create :
    (fuel : ℕ) (ptr : BlockPointer) (name : String) (p c : ℕ) (s : NodeCache) {s' : NodeCache}
    {q : FilePath}
    → IsCounted s
    → get_entry (ref ptr) s ≡ none
    → get_or_create ptr name (node p) s ≡ (ok c, s')
    → path_from_node fuel (node p) s ≡ some q
    → path_from_node (suc fuel) (node c) s'
      ≡ some (record (child_path q name ptr) { tlf = s.tlf; branch = s.branch })
unfolding path_from_node
path_from_node-get_or_create fuel ptr name p c s {s'} {q} h free e w =
    let (same, made) = created_inv ptr name p c s free e in
    let t = (create ptr name (some p) s).1 in
    let child = new_core ptr name (some p) in
    let known : get_core c t ≡ some child = ground (arith, get_core-create ptr name (some p) s c) in
    let kept : (d : ℕ) (core : NodeCore) → get_core d s ≡ some core → get_core d t ≡ some core =
      λ d core m.
        (let l = h.known d core m in ground (arith, get_core-create ptr name (some p) s d)) in
    let grown = walk-tail s fuel (some p) [] (child.path_node ∷ []) w (omega arith) in
    let same_branch : (t.tlf ≡ s.tlf) × (t.branch ≡ s.branch) =
      unfold create make_node in (refl, refl) in
    subst
      (λ u.
        walk (suc fuel) (some c) [] u
        ≡ some (record (child_path q name ptr) { tlf = s.tlf; branch = s.branch }))
      made
      (walk_on t fuel c [] child known (λ x. absurd (ground (arith, x.0)))
        ∙ walk-more s t same_branch.0 same_branch.1 kept fuel (some p) (child.path_node ∷ []) grown
        ∙ unfold child_path in refl)
