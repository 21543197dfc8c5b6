-- ===== src/CrChains.antt =====
-- libkbfs/cr_chains.go: the operations of a branch, by the node that they changed. `Chain` is one
-- crChain, `Chains` the maps of a crChains, and `Build` how they are made of metadata updates.
pub mod Chain
pub mod Collapse
pub mod Collapsed
pub mod Chains
pub mod Build
pub mod NewOps
pub mod Invariant
pub mod Moved
pub mod WellFormed
pub mod Adds
pub mod Total
pub mod Originals
pub mod Made
pub mod Reverted
pub mod Actions
pub mod Answers
mod Tests
