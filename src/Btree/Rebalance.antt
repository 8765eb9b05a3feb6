-- ===== src/Btree/Rebalance.antt =====
-- btree/Rebalance.h and Rebalance.cpp. A reference to a node that is in the tree is its id; the functions
-- that are given three nodes work on those, and the tree takes them back.
pub mod Split
pub mod Borrow
pub mod Merge
pub mod Invariant
pub mod Refused
pub mod Halves
pub mod Leaves
pub mod Calls
use quartz_database_c.Prelude.{ℕ, ◌-◌, ◌==◌, if◌then◌else◌}

-- `n - 1` on 32 bits.
abbrev pub decrement : ℕ → ℕ
decrement n = if n == 0 then 0xffff_ffff else n - 1
