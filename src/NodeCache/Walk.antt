-- ===== src/NodeCache/Walk.antt =====
-- node_cache.go, PathFromNode, and node.go, GetBasename.
use angelkey_kbfsbeta.Prelude.{
  ℕ, zero, suc, Option, none, some, List, [], ◌∷◌, ◌++◌, ◌==◌, if◌then◌else◌, length, reverse,
}
use Prim.Native.String.{String}
use angelkey_kbfsbeta.Data.{PathNode, FilePath}
use angelkey_kbfsbeta.NodeCache.{Node, NodeCore, NodeCache, get_core, node}

-- The loop of PathFromNode, with the nodes collected so far, the last node of the path first. The source loops while there is a parent, so a bound stands for its steps, and
-- `none` is a run that is longer.
unfoldable pub walk : ℕ → Option ℕ → List PathNode → NodeCache → Option FilePath
walk fuel none nodes s = some (record { tlf = s.tlf; branch = s.branch; path = reverse nodes })
walk zero (some c) nodes s = none
walk (suc fuel) (some c) nodes s = elim (get_core c s) [
  | none ↦ none
  | some core ↦
      let next = walk fuel core.parent (nodes ++ core.path_node ∷ []) s in
      elim core.parent [
        | some _ ↦ next
        | none ↦ elim core.cached_path.path [
          | [] ↦ next
          | n ∷ cached ↦
              if length nodes == 0
              then some core.cached_path
              else some (record {
                tlf = s.tlf;
                branch = s.branch;
                path = reverse (nodes ++ reverse (n ∷ cached));
              })
        ]
      ]
]

unfoldable pub path_from_node : ℕ → Node → NodeCache → Option FilePath
unfolding walk
path_from_node fuel (node c) s = walk fuel (some c) [] s
path_from_node fuel _ s = some (record { tlf = 0; branch = ""; path = [] })

-- nodeStandard.GetBasename
unfoldable pub get_basename : NodeCore → String
get_basename core = elim core.cached_path.path [ [] ↦ core.path_node.name | _ ∷ _ ↦ "" ]
