-- ===== src/Wal/Log.antt =====
-- The objects of wal/LogManager.h as one state, since the manager, the writer and the reader share the file
-- and the statistics; and wal/LogStatistics.cpp. The average size in floating point is left out.
pub mod Held
use quartz_database_c.Prelude.{ℕ, ◌+◌, ◌%◌, ◌^◌, Bool, false, length, ltb, if◌then◌else◌}
use quartz_database_c.Outcome.Action.{Action, within}
use quartz_database_c.Storage.DatabaseFile.{DatabaseFile}
use quartz_database_c.Wal.LogBuffer
use quartz_database_c.Wal.LogBuffer.{LogBuffer}
use quartz_database_c.Wal.LogFile
use quartz_database_c.Wal.LogFile.{LogFile, header_size}
use quartz_database_c.Wal.Record.{invalid_lsn, initial_lsn}

pub record LogStatistics : Type 0 where
  pub record_count : ℕ
  pub bytes_written : ℕ
  pub bytes_read : ℕ
  pub flush_count : ℕ
  pub buffer_usage : ℕ
  pub largest_record : ℕ
  pub current_lsn : ℕ
  pub last_flushed_lsn : ℕ

abbrev pub no_statistics : LogStatistics
no_statistics = record {
  record_count = 0;
  bytes_written = 0;
  bytes_read = 0;
  flush_count = 0;
  buffer_usage = 0;
  largest_record = 0;
  current_lsn = 0;
  last_flushed_lsn = 0;
}

-- `recordWrite` of one record.
pub record_write : ℕ → LogStatistics → LogStatistics
record_write bytes s = record s {
  record_count = (s.record_count + 1) % 2 ^ 64;
  bytes_written = (s.bytes_written + bytes) % 2 ^ 64;
}

pub record_read : ℕ → LogStatistics → LogStatistics
record_read bytes s = record s { bytes_read = (s.bytes_read + bytes) % 2 ^ 64 }

pub record_flush : LogStatistics → LogStatistics
record_flush s = record s { flush_count = (s.flush_count + 1) % 2 ^ 64 }

pub update_buffer_usage : ℕ → LogStatistics → LogStatistics
update_buffer_usage usage s = record s { buffer_usage = usage }

pub update_largest_record : ℕ → LogStatistics → LogStatistics
update_largest_record size s =
    if ltb s.largest_record size then record s { largest_record = size } else s

pub set_current_lsn : ℕ → LogStatistics → LogStatistics
set_current_lsn lsn s = record s { current_lsn = lsn }

pub set_last_flushed_lsn : ℕ → LogStatistics → LogStatistics
set_last_flushed_lsn lsn s = record s { last_flushed_lsn = lsn }

-- The fields of `LogWriter` but its references.
pub record LogWriter : Type 0 where
  pub buffer : LogBuffer
  pub next_lsn : ℕ
  pub current_lsn : ℕ
  pub last_flushed_lsn : ℕ

pub record LogReader : Type 0 where
  pub offset : ℕ
  pub last_lsn : ℕ
  pub end_of_log : Bool

pub record LogManager : Type 0 where
  pub initialized : Bool
  pub file : LogFile
  pub stats : LogStatistics
  pub writer : LogWriter
  pub reader : LogReader

abbrev pub new_writer : ℕ → LogWriter
new_writer capacity = record {
  buffer = LogBuffer.create capacity;
  next_lsn = initial_lsn;
  current_lsn = invalid_lsn;
  last_flushed_lsn = invalid_lsn;
}

abbrev pub new_reader : LogReader
new_reader = record { offset = header_size; last_lsn = invalid_lsn; end_of_log = false }

-- The constructor; the buffer's capacity is the default one.
pub new_manager : DatabaseFile → LogManager
new_manager file = record {
  initialized = false;
  file = LogFile.detached file;
  stats = no_statistics;
  writer = new_writer 0x1_0000;
  reader = new_reader;
}

unfoldable pub set_writer : LogWriter → LogManager → LogManager
set_writer writer m = record m { writer = writer }

unfoldable pub set_reader : LogReader → LogManager → LogManager
set_reader reader m = record m { reader = reader }

unfoldable pub count : (LogStatistics → LogStatistics) → LogManager → LogManager
count f m = record m { stats = f m.stats }

-- Calls on the file, and on the file's size.
unfoldable pub on_log : {A : Type 0} → Action LogFile A → Action LogManager A
on_log = within (λ m. m.file) (λ file m. record m { file = file })

unfoldable pub log_size : LogManager → ℕ
log_size m = LogFile.file_size m.file

-- `statistics`.
pub statistics : LogManager → LogStatistics
statistics m = record m.stats {
  current_lsn = m.writer.current_lsn;
  last_flushed_lsn = m.writer.last_flushed_lsn;
  buffer_usage = length m.writer.buffer.buffer.bytes;
}
