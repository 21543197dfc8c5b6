-- ===== src/CrChains/NewOps.antt =====
-- cr_chains.go: makeChainForNewOp, for an operation whose pointers are not known yet. The update of
-- the operation's own directory or file is set while the chain is made, and reset afterwards; the
-- chain holds the operation itself, so it ends with the reset one.
use angelkey_kbfsbeta.Prelude.{none, some, [], ◌∷◌, ◌++◌, ◌==◌, if◌then◌else◌, length, init}
use angelkey_kbfsbeta.Prelude.Result.{Result, ok, err, ◌>>=◌}
use angelkey_kbfsbeta.Prelude.Map
use angelkey_kbfsbeta.Data.{BlockPointer, zero_ptr, file}
use angelkey_kbfsbeta.Ops.{
  Op, BlockUpdate, create_op, rm_op, rename_op, sync_op, set_attr_op, new_create_op,
}
use angelkey_kbfsbeta.CrChains.Chains.{
  CrChains, ChainsError, find, get_chain, set_chain, no_chain_for_most_recent, unknown_operation,
  unexpected_length,
}
use angelkey_kbfsbeta.CrChains.Build.{make_chain_for_op}

-- While the chain is made, the most recent pointer is the original.
abbrev pub targeting : BlockPointer → BlockUpdate
targeting target = record { unref = target; ref = target }

abbrev pub reset : BlockUpdate → BlockUpdate
reset u = record { unref = u.unref; ref = zero_ptr }

-- The operation that was added last to the chain at a pointer is this one.
unfoldable pub replace_last : BlockPointer → Op → CrChains → CrChains
unfolding Map.get Map.put
replace_last p o s = elim (find p s.by_most_recent) [
  | none ↦ s
  | some c ↦ elim (get_chain c s) [
    | none ↦ s
    | some chain ↦ set_chain c (record chain { ops = init chain.ops ++ o ∷ [] }) s
  ]
]

-- makeChainForNewOpWithUpdate: the operation with its update set, the same with its update reset,
-- and the pointer of the chain that holds it.
unfoldable pub make_chain_for_new_op_with_update :
    Op → Op → BlockPointer → CrChains → Result ChainsError CrChains
unfolding make_chain_for_op replace_last
make_chain_for_new_op_with_update during after holder s = do
  s' ← make_chain_for_op during s
  ok (replace_last holder after s')

-- A rename is not split: its chain gets a create that the rename then replaces.
unfoldable pub replace_only : BlockPointer → Op → CrChains → Result ChainsError CrChains
unfolding Map.get Map.put
replace_only p o s = elim (find p s.by_most_recent) [
  | none ↦ err (no_chain_for_most_recent p)
  | some c ↦ elim (get_chain c s) [
    | none ↦ err (no_chain_for_most_recent p)
    | some chain ↦
        if length chain.ops == 1
        then ok (set_chain c (record chain { ops = o ∷ [] }) s)
        else err unexpected_length
  ]
]

unfoldable pub make_chain_for_new_op : BlockPointer → Op → CrChains → Result ChainsError CrChains
unfolding make_chain_for_new_op_with_update replace_only
make_chain_for_new_op target (create_op o) s =
    make_chain_for_new_op_with_update (create_op (record o { dir = targeting target }))
      (create_op (record o { dir = reset o.dir })) target s
make_chain_for_new_op target (rm_op o) s =
    make_chain_for_new_op_with_update (rm_op (record o { dir = targeting target }))
      (rm_op (record o { dir = reset o.dir })) target s
make_chain_for_new_op target (rename_op o) s = do
  let co = new_create_op o.new_name o.new_dir.unref file
  s' ←
      make_chain_for_new_op_with_update (create_op (record co { dir = targeting target }))
        (create_op co) target s
  replace_only target (rename_op o) s'
make_chain_for_new_op target (set_attr_op o) s =
    make_chain_for_new_op_with_update (set_attr_op (record o { dir = targeting target }))
      (set_attr_op (record o { dir = reset o.dir })) o.file s
make_chain_for_new_op target (sync_op o) s =
    make_chain_for_new_op_with_update (sync_op (record o { file = targeting target }))
      (sync_op (record o { file = reset o.file })) target s
make_chain_for_new_op target _ s = err unknown_operation
