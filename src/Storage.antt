-- ===== src/Storage.antt =====
-- src/storage: pages of the file by number, and the file.
pub mod PageAllocator
pub mod DatabaseFile
mod Tests
