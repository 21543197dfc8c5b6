-- ===== src/Lib.antt =====
-- A verification library for the core of KBFS, the Keybase file system: kbfs/libkbfs, in Go.
--
-- KBFS keeps folders as trees of encrypted blocks under a root metadata block. A client splits the
-- data of a file into blocks (bsplitter_simple.go), pads and encrypts them (crypto_common.go), puts
-- them on a block server (bserver_local.go is the local one), and records what it did to the folder
-- as operations (ops.go) in the next revision of the metadata. When two clients have written a
-- folder at the same time, the operations of the unmerged branch are collapsed, checked against
-- those of the merged branch, and replaced or inverted. The metadata server (mdserver_local.go is
-- the local one) keeps the revisions of each folder and refuses an update that does not follow its
-- head. The state of a client is guarded by mutexes
-- with levels (leveled_mutex.go).
--
-- Files, and the code they are about (paths from the repository's root):
--   Locks        kbfs/libkbfs/leveled_mutex.go. `LockState` is lockState with the calls of the
--                underlying lockers, `do_lock` and `do_unlock` are doLock and doUnlock, the
--                assertions keep their names. Order: the levels held rise. Lookup: what the
--                assertions say. Deadlock: flows that wait for each other.
--   Data         kbfs/libkbfs/data_types.go: BlockPointer, path, EntryType, writerInfo (in Ops).
--   Ops          kbfs/libkbfs/ops.go: the operations, AddUpdate, AllUpdates, SizeExceptUpdates.
--   Ops/Writes   WriteRange, coalesceWrites, addToCollapsedWriteRange, collapseWriteRange.
--                Collapsed: the collapsed form. Effect: the bytes that a list of ranges covers.
--                Cut: the truncate at its end.
--   Ops/Conflict CheckConflict, GetDefaultAction, and the actions of kbfs/libkbfs/cr_actions.go.
--   Ops/Invert   invertOpForLocalNotifications.
--   BlockServer  kbfs/libkbfs/bserver_local_storage.go (bserverMemStorage) and
--                kbfs/libkbfs/bserver_local.go. A map is an association list (Prelude/Map). Storage:
--                the methods of bserverFileStorage and bserverLeveldbStorage, over the interface
--                `BlockStore`, which Files and LevelDb fill. Refines: both against the one in memory.
--   BlockCache   kbfs/libkbfs/bcache.go. An LRU cache of golang-lru is a parameter `Lru` with laws.
--                Clean: Put and the known pointers. Room: makeRoomForSize. Dirty: dirty blocks.
--                Known: the pointers known by a hash, and the count of bytes.
--   CrChains     kbfs/libkbfs/cr_chains.go. `chains` is the heap of the crChain objects that the maps
--                byOriginal and byMostRecent share. Chain: one crChain. Chains: the maps and their
--                readers. Build: makeChainForOp, newCRChains. NewOps: makeChainForNewOp. Collapse
--                and Collapsed: collapse. Actions and Answers: getActionsToMerge. Invariant, WellFormed, Adds,
--                Moved, Total and Made: the consistency of the maps. Originals: the way back to
--                originals. Reverted: copyOpAndRevertUnrefsToOriginals on the chains of newCRChains.
--   MdServer     kbfs/libkbfs/mdserver_local.go: MDServerLocal. Its leveldb databases are parameters with
--                laws. Methods: the methods. Truncate: the truncate lock. Keys: the keys of
--                the databases. History: what Put writes. Kept: the merged histories under Put.
--                Accepts: the merged updates that Put accepts.
--   NodeCache    kbfs/libkbfs/node_cache.go and kbfs/libkbfs/node.go. A node object is the number of
--                its core; `cores` is the heap of cores, `live` the nodes that are not finalized.
--                Walk: PathFromNode. Counted, Steps, Released, Methods and Reach: reference
--                counts.
--                Paths: the path of a new node.
--   MdRange      kbfs/libkbfs/md_util.go: getMDRange. Run: what it returns has no holes.
--                Whole: a range that is in the cache.
--   Splitter     kbfs/libkbfs/bsplitter_simple.go: CopyUntilSplit, NewBlockSplitterSimple.
--                Power: its test for a power of 2.
--   Padding      kbfs/libkbfs/crypto_common.go: padBlock, depadBlock, nextPowerOfTwo.
--   Prelude      lists, results and maps that the parts share.
--
-- Conventions: identifiers that the code only compares (block IDs, UIDs, nonces) are numbers, with 0
-- for Go's zero value. An error, and a panic, is a value of an error type. Offsets of write ranges
-- are uint64 and lengths of padded blocks uint32, with their wrap-around; sizes in the splitter are
-- int64 in the source, taken as natural numbers, since the callers pass none that is negative. Loops
-- over slices are recursion on lists. Three loops run on fuel: that of NewBlockSplitterSimple,
-- which counts ten attempts in the source as well, that of PathFromNode, which needs one step for
-- each node of the path, and that of makeRoomForSize, which needs one for each cached entry and two
-- more.
--
-- Parameters stand for code outside the repository, or behind an interface of the source: the codec's
-- length of an encoded block, the random source, the conflict renamer, the MD cache and MDOps, and
-- the service that knows the names of writers; the file system, leveldb and the codec of the block
-- storages and of the metadata server, whose calls are taken to succeed, and the services that the
-- latter asks.
--
-- Not modelled: mutexes that only make one method atomic; texts of messages; reflection for the codec;
-- the database of handles of the metadata server (GetForHandle, GetLatestHandleForTLF); and the rest of libkbfs, the FUSE layer, the command line tools and the vendored packages.
pub mod Prelude
pub mod BlockCache
pub mod BlockServer
pub mod CrChains
pub mod Data
pub mod Locks
pub mod MdRange
pub mod MdServer
pub mod NodeCache
pub mod Ops
pub mod Padding
pub mod Splitter
