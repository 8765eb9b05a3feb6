-- ===== src/Lib.antt =====
-- A model of the storage core of QuartzDB (C++): space and page allocation, byte serialization, the B-tree,
-- the write-ahead log and recovery.
--
-- The parts and the files that model them:
-- - include/quartz/common/Status.h: Status.antt. The message texts are left out; a status and the output
--   parameters of a call together are one `Result`.
-- - src/serialization/VariableLengthInteger.cpp: Varint.antt. `encodeU32` is `encode_u32`, and so on;
--   signed numbers are their two's complement words.
-- - src/space/: Space.antt. Extent.cpp is Space/Extent.antt; FreeSpaceMap.cpp is Space/FreeSpaceMap.antt
--   (`markAllocated`, `markFree`) and Space/FreeSpaceMap/Find.antt (searches, counts, `validate`);
--   AllocationPolicy.cpp is Space/Policy.antt; ExtentAllocator.cpp is Space/Allocator.antt;
--   SpaceStatistics.cpp is Space/Statistics.antt; SpaceManager.cpp is Space/Manager.antt. The vector of
--   extents is a list, and a binary search over it is the search for the first extent it stops at.
-- - src/storage/PageAllocator.cpp: Storage/PageAllocator.antt. The head of the free list is the back of
--   the vector.
-- - src/storage/DatabaseFile.cpp: Storage/DatabaseFile.antt. The C++ stream and the disk under it are the
--   bytes that are stored, the room there is, the position and the flags `fail` and `eof`, which no call but
--   a new opening clears; a path stands for the one file of an object.
-- - src/serialization/: Serialization.antt, with Buffer.cpp, BufferView.cpp, BinaryReader.cpp and
--   BinaryWriter.cpp in the files Buffer, View, Reader and Writer. A vector is its bytes and its capacity.
-- - include/quartz/format/PageReference.h: Format.antt.
-- - src/btree/: Btree.antt. Key.cpp is Btree/Key.antt, KeyComparator.h Btree/Comparator.antt,
--   BTreeNode.cpp Btree/Node.antt, LeafNode.cpp Btree/Leaf.antt, InternalNode.cpp Btree/Internal.antt,
--   SearchPath.cpp Btree/Path.antt. BTree.cpp is Btree/Tree.antt (the store of nodes, with the calls that
--   make and release them), Btree/Tree/Search.antt, Btree/Tree/Update.antt and, for its snapshot as pages,
--   Btree/Tree/Snapshot.antt; Rebalance.cpp is
--   Btree/Rebalance/Split.antt, Btree/Rebalance/Borrow.antt and Btree/Rebalance/Merge.antt; Cursor.cpp is
--   Btree/Cursor.antt and Btree/Cursor/Step.antt; TreeValidator.cpp and NodeValidator.cpp are
--   Btree/Validator.antt. The two maps from page ids to nodes are association lists, and a reference to a
--   node is its page id. A call on the tree is an action (Outcome/Action.antt): it ends with a value, a
--   status other than success, an exception of `at`, or not at all (Outcome.antt), with the tree as it has
--   left it.
-- - src/wal/: Wal.antt. LogSequenceNumber.cpp, LogRecord.cpp and LogValidator.cpp are Wal/Record.antt,
--   LogBuffer.cpp is Wal/LogBuffer.antt, LogFile.cpp is Wal/LogFile.antt, LogReader.cpp, LogWriter.cpp,
--   LogManager.cpp and BTreeWalAdapter.cpp are the files Reader, Writer, Manager and Adapter beside it. The
--   manager, its reader and its writer share a file and counters, so the three are one state, which
--   Wal/Log.antt has with LogStatistics.cpp. The clock is a parameter.
-- - src/recovery/: Recovery.antt. CheckpointRecord.cpp is Recovery/Payload.antt, CheckpointManager.cpp is
--   Recovery/Checkpoint.antt; LogReplayer.cpp, RecoveryManager.cpp and RecoveryValidator.cpp are
--   Recovery/Replay.antt, whose state is the log, the tree and the result.
--
-- How they interact: the space manager takes single pages from the page allocator and runs of pages from
-- the extent allocator, which asks its policy for an extent and takes it out of the free space map; the
-- nodes keep their entries in memory and write them to the body of an index page through a writer. The tree
-- asks the space manager for pages, tells a log sink, which is a parameter, of its changes, and hands full
-- and underfull nodes to the rebalancing functions, which follow the path of the search upwards. The log's
-- writer numbers records and collects them in its buffer, `flush` appends the buffer to the file, and the
-- reader goes over the file record by record; recovery reads the log for the last checkpoint, restores the
-- tree from its snapshot and applies the records after it.
--
-- State is passed explicitly: an operation takes the record of a component and returns the new one with
-- its result. Machine integers are natural numbers, with the wrap of 32 and 64 bits written out where
-- the code can wrap. Loops are structural recursion; some are recursion on fuel: the loops of the
-- variable-length integers have as many steps as bytes are allowed, ten for 64 bits; the
-- doubling of a buffer's capacity has as many steps as bytes are needed; a binary search has as many as
-- there are keys. A way down a tree has as many steps as there are internal nodes, since a longer one
-- passes a node twice and never ends; the validation has three times as many, since a round in a cycle
-- may still narrow the bounds. The loops over a log have one round more than the file has bytes, and each
-- round goes on by at least eight of them.
--
-- Not modelled: SplitMergePlanner.cpp, which nothing in the tree uses; the page wrappers (src/pages) and
-- `readPage` and `writePage` of DatabaseFile.cpp; the formats, the database and its catalog (src/format,
-- src/core, src/metadata, src/maintenance), reports in floating point, diagnostics and logging. A big-endian
-- machine and sizes from 2^63 are left out.
pub mod Prelude
pub mod Status
pub mod Outcome
pub mod Varint
pub mod Serialization
pub mod Btree
pub mod Format
pub mod Space
pub mod Storage
pub mod Wal
pub mod Recovery
