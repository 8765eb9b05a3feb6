-- ===== src/Wal/Manager.antt =====
-- wal/LogManager.cpp: the log as the rest of the program sees it.
pub mod Chain
use quartz_database_c.Prelude.{ℕ, zero, suc, ◌+◌, Bool, true, false, not, ◌&&◌, List, ltb}
use quartz_database_c.Status.{invalid_argument}
use quartz_database_c.Outcome.{returned, endless, of_status}
use quartz_database_c.Outcome.Action.{
  Action, ◌>>=◌, ◌>>◌, pure, reads, gets, modify, perform, fail_if, branch, within,
}
use quartz_database_c.Wal.Record.{LogRecord, invalid_lsn, validate_record, validate_lsn_ordering}
use quartz_database_c.Wal.LogFile
use quartz_database_c.Wal.LogFile.{read_record, header_size}
use quartz_database_c.Wal.Log.{LogManager, on_log, log_size}
use quartz_database_c.Wal.Reader
use quartz_database_c.Wal.Writer

unfoldable pub refuse_uninitialized : Action LogManager (Unit {0})
refuse_uninitialized m = fail_if (not m.initialized) invalid_argument m

unfoldable pub initialize : Bool → Action LogManager (Unit {0})
initialize create = do
  already ← gets (λ m. m.initialized)
  fail_if already invalid_argument
  branch create (on_log LogFile.create) (on_log (LogFile.open_log true))
  on_log LogFile.validate
  size ← gets log_size
  branch (not create && ltb header_size size) Writer.restore_from_file (pure tt)
  modify (λ m. record m { initialized = true })
  Reader.rewind

unfoldable pub append : LogRecord → Action LogManager (Unit {0})
append r = do refuse_uninitialized; Writer.append_record r

unfoldable pub append_batch : List LogRecord → Action LogManager (Unit {0})
append_batch records = do refuse_uninitialized; Writer.append_batch records

unfoldable pub flush : Action LogManager (Unit {0})
flush = do refuse_uninitialized; Writer.flush

unfoldable pub shutdown : Action LogManager (Unit {0})
shutdown = do
  running ← gets (λ m. m.initialized)
  branch running
      (do flush; modify (λ m. record m { initialized = false }); on_log (perform LogFile.close))
      (pure tt)

unfoldable pub read_next : Action LogManager LogRecord
read_next = do refuse_uninitialized; Reader.read_next

unfoldable pub rewind_reader : Action LogManager (Unit {0})
rewind_reader = do refuse_uninitialized; Reader.rewind

unfoldable pub seek_reader : ℕ → Action LogManager (Unit {0})
seek_reader lsn = do refuse_uninitialized; Reader.seek_lsn lsn

-- The loop of `validate`, a round for each record.
unfoldable pub validate_records : ℕ → ℕ → ℕ → Action LogManager (Unit {0})
validate_records zero offset previous = reads (λ m. endless)
validate_records (suc rounds) offset previous = do
  size ← gets log_size
  branch (ltb offset size)
      (do
        (r, bytes_read) ← on_log (read_record offset)
        reads (λ m. of_status (validate_record r))
        reads (λ m. of_status (validate_lsn_ordering previous r.lsn))
        validate_records rounds (offset + bytes_read) r.lsn)
      (pure tt)

unfoldable pub validate : Action LogManager (Unit {0})
validate = do
  refuse_uninitialized
  on_log LogFile.validate
  rounds ← gets log_size
  validate_records (suc rounds) header_size invalid_lsn

unfoldable pub restore_writer_state : Action LogManager (Unit {0})
restore_writer_state = do refuse_uninitialized; Writer.restore_from_file
