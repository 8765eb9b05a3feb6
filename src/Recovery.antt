-- ===== src/Recovery.antt =====
-- recovery/: checkpoints in the log, and the tree that is made from them and the records after them.
pub mod Payload
pub mod Checkpoint
pub mod Replay
mod Tests
