-- ===== src/Wal/Reader.antt =====
-- wal/LogReader.cpp: records of the file one after another.
pub mod Next
use quartz_database_c.Prelude.{
  ℕ, zero, suc, ◌+◌, ◌-◌, Bool, true, false, not, ◌||◌, ltb, leb, ◌==◌, if◌then◌else◌,
}
use quartz_database_c.Status.{Code, Result, ok, err, invalid_argument}
use quartz_database_c.Outcome.{Outcome, returned, failed, endless, of_status}
use quartz_database_c.Outcome.Action.{
  Action, ◌>>=◌, ◌>>◌, pure, reads, gets, modify, perform, fail, fail_if, branch, attempt,
}
use quartz_database_c.Wal.Record.{LogRecord, invalid_lsn, validate_record, validate_lsn_ordering}
use quartz_database_c.Wal.LogFile.{read_record}
use quartz_database_c.Wal.Log.{
  LogReader, LogManager, new_reader, set_reader, count, record_read, on_log, log_size,
}

unfoldable pub rewind : Action LogManager (Unit {0})
rewind = modify (set_reader new_reader)

unfoldable pub set_end : Bool → LogManager → LogManager
set_end ended m = set_reader (record m.reader { end_of_log = ended }) m

-- What follows `readRecord`: a record that cannot be read ends the log, one that is refused does not.
unfoldable pub accept : Result (LogRecord × ℕ) → Action LogManager LogRecord
accept (err c) = do modify (set_end true); fail c
accept (ok (r, bytes_read)) = do
  reads (λ m. of_status (validate_record r))
  reads (λ m. of_status (validate_lsn_ordering m.reader.last_lsn r.lsn))
  modify (λ m.
      set_reader (record m.reader { last_lsn = r.lsn; offset = m.reader.offset + bytes_read }) m)
  modify (count (record_read bytes_read))
  pure r

unfoldable pub end_of_log : LogManager → Bool
end_of_log m = m.reader.end_of_log || leb (log_size m) m.reader.offset

unfoldable pub read_next : Action LogManager LogRecord
read_next = do
  ended ← gets end_of_log
  branch ended (do modify (set_end true); fail invalid_argument)
      (do
        offset ← gets (λ m. m.reader.offset)
        record_read ← attempt (on_log (read_record offset))
        accept record_read)

-- The reader goes back to the record that was looked for.
unfoldable pub stand_at : ℕ → ℕ → Action LogManager (Unit {0})
stand_at offset lsn = modify (
    set_reader (record {
      offset = offset;
      last_lsn = if ltb 1 lsn then lsn - 1 else invalid_lsn;
      end_of_log = false;
    }))

-- What a round of `seekLsn` does with the record that was read.
unfoldable pub compare_lsn :
    ℕ → ℕ → Action LogManager (Unit {0}) → Result LogRecord → Action LogManager (Unit {0})
compare_lsn lsn offset rest (ok r) =
    branch (r.lsn == lsn) (stand_at offset lsn)
      (branch (ltb lsn r.lsn) (fail invalid_argument) rest)
compare_lsn lsn offset rest (err c) = do
  ended ← gets (λ m. m.reader.end_of_log)
  fail_if ended invalid_argument
  fail c

-- The loop of `seekLsn`, a round for each record.
unfoldable pub seek_rounds : ℕ → ℕ → Action LogManager (Unit {0})
seek_rounds zero lsn = reads (λ m. endless)
seek_rounds (suc rounds) lsn = do
  ended ← gets (λ m. m.reader.end_of_log)
  fail_if ended invalid_argument
  offset ← gets (λ m. m.reader.offset)
  found ← attempt read_next
  compare_lsn lsn offset (seek_rounds rounds lsn) found

unfoldable pub seek_lsn : ℕ → Action LogManager (Unit {0})
seek_lsn lsn = do rewind; rounds ← gets log_size; seek_rounds (suc rounds) lsn
