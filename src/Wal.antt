-- ===== src/Wal.antt =====
-- wal/: the records of the write-ahead log, the buffer that they are collected in, the file, and the reader,
-- the writer and the manager over it.
pub mod Record
pub mod LogBuffer
pub mod LogFile
pub mod Log
pub mod Reader
pub mod Writer
pub mod Manager
pub mod Adapter
pub mod Tests
