-- ===== src/Btree.antt =====
-- btree/: keys, their order and search, and the two kinds of node.
pub mod Key
pub mod Comparator
pub mod Node
pub mod Leaf
pub mod Internal
pub mod Path
pub mod Tree
pub mod Rebalance
pub mod Cursor
pub mod Validator
mod Tests
