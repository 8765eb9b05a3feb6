-- ===== src/Wal/Writer.antt =====
-- wal/LogWriter.cpp: records get their sequence numbers and go to the file by way of the buffer.
pub mod Lost
pub mod Invariant
pub mod Restored
pub mod Flushed
use quartz_database_c.Prelude.{
  ℕ, zero, suc, ◌+◌, Bool, true, false, List, [], ◌∷◌, length, ltb, ◌==◌, if◌then◌else◌,
}
use quartz_database_c.Status.{Status, Result, ok, err, success}
use quartz_database_c.Outcome.{returned, endless, of_status}
use quartz_database_c.Outcome.Action.{
  Action, ◌>>=◌, ◌>>◌, pure, reads, gets, modify, perform, fail, branch, attempt, within,
}
use quartz_database_c.Serialization.Writer.{BinaryWriter}
use quartz_database_c.Wal.Record.{
  LogRecord, invalid_lsn, is_valid_lsn, next_lsn, validate_record, wire_size,
}
use quartz_database_c.Wal.LogBuffer
use quartz_database_c.Wal.LogBuffer.{LogBuffer}
use quartz_database_c.Wal.LogFile
use quartz_database_c.Wal.LogFile.{framed, read_record, header_size}
use quartz_database_c.Wal.Log.{
  LogWriter, LogManager, set_writer, count, record_write, record_flush, update_buffer_usage,
  update_largest_record, set_current_lsn, set_last_flushed_lsn, on_log, log_size,
}

unfoldable pub set_buffer : LogBuffer → LogManager → LogManager
set_buffer buffer m = set_writer (record m.writer { buffer = buffer }) m

unfoldable pub buffered : Result BinaryWriter → LogManager → LogManager × Status
buffered (err c) m = (m, err c)
buffered (ok w) m =
    let (buffer, st) = LogBuffer.append m.writer.buffer w.buffer.bytes in (set_buffer buffer m, st)

unfoldable pub write_record_to_buffer : LogRecord → Action LogManager (Unit {0})
write_record_to_buffer r = perform (buffered (framed r))

-- The number is taken whatever becomes of the record.
unfoldable pub take_lsn : LogManager → LogManager
take_lsn m =
    set_writer
      (record m.writer { current_lsn = m.writer.next_lsn; next_lsn = next_lsn m.writer.next_lsn }) m

unfoldable pub count_record : LogRecord → LogManager → LogManager
count_record r m =
    let bytes = wire_size r + 4 in
    count
      (λ s. set_current_lsn m.writer.current_lsn (
        update_buffer_usage (length m.writer.buffer.buffer.bytes)
          (update_largest_record bytes (record_write bytes s))))
      m

unfoldable pub append_record : LogRecord → Action LogManager (Unit {0})
append_record r = do
  lsn ← gets (λ m. m.writer.next_lsn)
  let numbered = record r { lsn = lsn }
  modify take_lsn
  reads (λ m. of_status (validate_record numbered))
  write_record_to_buffer numbered
  modify (count_record numbered)

unfoldable pub append_batch : List LogRecord → Action LogManager (Unit {0})
append_batch [] = pure tt
append_batch (r ∷ rest) = do append_record r; append_batch rest

-- `LogBuffer::flush` with the file as its sink: the bytes are dropped when the file has taken them.
unfoldable pub flush_buffer_to_file : Action LogManager (Unit {0})
flush_buffer_to_file = do
  buffer ← gets (λ m. m.writer.buffer)
  branch (LogBuffer.is_empty buffer) (pure tt)
      (do on_log (LogFile.append buffer.buffer.bytes); modify (set_buffer (LogBuffer.clear buffer)))

unfoldable pub flushed_to_current : LogManager → LogManager
flushed_to_current m =
    count (λ s. set_last_flushed_lsn m.writer.current_lsn (record_flush s))
      (set_writer (record m.writer { last_flushed_lsn = m.writer.current_lsn }) m)

unfoldable pub flush : Action LogManager (Unit {0})
flush = do flush_buffer_to_file; on_log LogFile.flush; modify flushed_to_current

-- The round of the scan after a record has been read: a record that cannot be read ends it.
unfoldable pub scanned :
    (ℕ → ℕ → Action LogManager ℕ) → ℕ → ℕ → Result (LogRecord × ℕ) → Action LogManager ℕ
scanned rest offset last (err c) = pure last
scanned rest offset last (ok (r, bytes_read)) = rest (offset + bytes_read) r.lsn

-- The scan of `restoreFromFile`, a round for each record: the number of the last one.
unfoldable pub scan : ℕ → ℕ → ℕ → Action LogManager ℕ
scan zero offset last = reads (λ m. endless)
scan (suc rounds) offset last = do
  size ← gets log_size
  branch (ltb offset size)
      (do
        record_read ← attempt (on_log (read_record offset))
        scanned (scan rounds) offset last record_read)
      (pure last)

unfoldable pub restored : ℕ → LogManager → LogManager
restored last m =
    if is_valid_lsn last
    then count (λ s. set_last_flushed_lsn last (set_current_lsn last s))
        (set_writer
          (record m.writer {
            current_lsn = last;
            next_lsn = next_lsn last;
            last_flushed_lsn = last;
          })
          m)
    else m

unfoldable pub restore_from_file : Action LogManager (Unit {0})
restore_from_file = do
  rounds ← gets log_size
  last ← scan (suc rounds) header_size invalid_lsn
  modify (restored last)
