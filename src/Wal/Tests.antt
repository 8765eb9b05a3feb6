-- ===== src/Wal/Tests.antt =====
-- Runs of wal/.
pub mod Logs
mod Files
