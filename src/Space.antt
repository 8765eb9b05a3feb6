-- ===== src/Space.antt =====
-- src/space: which pages of the file are free, and who gets them.
pub mod Extent
pub mod FreeSpaceMap
pub mod Policy
pub mod Allocator
pub mod Statistics
pub mod Manager
mod Tests
