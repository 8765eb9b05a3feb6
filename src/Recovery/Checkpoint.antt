-- ===== src/Recovery/Checkpoint.antt =====
-- recovery/CheckpointManager.cpp. The time at which a record is made is an argument.
use quartz_database_c.Prelude.{ℕ, zero, suc, ◌+◌, Option, none, some, ltb, ◌==◌, if◌then◌else◌}
use quartz_database_c.Status.{Status, Result, ok, err, success, invalid_argument}
use quartz_database_c.Outcome.{endless, of_status}
use quartz_database_c.Outcome.Action.{
  Action, ◌>>=◌, ◌>>◌, pure, reads, gets, modify, perform, fail, branch, attempt,
}
use quartz_database_c.Serialization.Buffer.{empty_buffer}
use quartz_database_c.Serialization.Reader.{open_reader}
use quartz_database_c.Serialization.Writer.{open_writer}
use quartz_database_c.Btree.Tree.{BTree, clear}
use quartz_database_c.Btree.Tree.Snapshot
use quartz_database_c.Wal.Record
use quartz_database_c.Wal.Record.{LogRecord, invalid_lsn, initial_lsn, is_valid_lsn, next_lsn}
use quartz_database_c.Wal.LogFile
use quartz_database_c.Wal.LogFile.{header_size, read_record}
use quartz_database_c.Wal.Log.{LogManager, on_log, log_size}
use quartz_database_c.Wal.Manager
use quartz_database_c.Recovery.Payload.{
  CheckpointPayload, no_payload, checkpoint_magic, checkpoint_format_version, checkpoint_marker,
  serialize, deserialize, validate,
}

-- What `createCheckpoint` logs.
unfoldable pub checkpoint_of : BTree → LogManager → CheckpointPayload
checkpoint_of t m =
    let current = m.writer.current_lsn in
    record {
      magic = checkpoint_magic;
      version = checkpoint_format_version;
      lsn = if is_valid_lsn current then next_lsn current else initial_lsn;
      tree_size = t.size;
      tree_height = t.height;
      btree_snapshot = (Snapshot.serialize t (open_writer empty_buffer)).buffer.bytes;
    }

unfoldable pub create_checkpoint : ℕ → BTree → Action LogManager ℕ
create_checkpoint now t = do
  payload ← gets (checkpoint_of t)
  let bytes = (serialize payload (open_writer empty_buffer)).buffer.bytes
  Manager.append (record (Record.make now checkpoint_marker 0xffff_ffff 0) { payload = bytes })
  Manager.flush
  gets (λ m. m.writer.current_lsn)

-- The output parameters of `findLastCheckpoint` and its status: a checkpoint that cannot be read leaves those
-- of the one before it.
abbrev pub Found : Type 0
Found = (CheckpointPayload × ℕ) × Status

-- What has been found before the record that stopped the search.
unfoldable pub the_found : Option (CheckpointPayload × ℕ) → Status → Found
the_found none (ok u) = ((no_payload, invalid_lsn), err invalid_argument)
the_found none (err c) = ((no_payload, invalid_lsn), err c)
the_found (some found) st = (found, st)

-- What a round of `findLastCheckpoint` does with what has been read.
unfoldable pub look_at :
    (Option (CheckpointPayload × ℕ) → Action LogManager Found)
    → Option (CheckpointPayload × ℕ)
    → Result LogRecord
    → Action LogManager Found
look_at rest found (err c) = pure (the_found found success)
look_at rest found (ok r) =
    branch (r.tag == checkpoint_marker)
      (elim (deserialize (open_reader r.payload)) [
        | err c ↦ pure (the_found found (err c))
        | ok payload ↦ rest (some (payload, r.lsn))
      ])
      (rest found)

-- The loop of `findLastCheckpoint`, a round for each record.
unfoldable pub last_checkpoint : ℕ → Option (CheckpointPayload × ℕ) → Action LogManager Found
last_checkpoint zero found = reads (λ m. endless)
last_checkpoint (suc rounds) found = do
  next ← attempt Manager.read_next
  look_at (last_checkpoint rounds) found next

unfoldable pub find_last_checkpoint : Action LogManager Found
find_last_checkpoint = do
  Manager.rewind_reader
  rounds ← gets log_size
  last_checkpoint (suc rounds) none

unfoldable pub restore_tree : CheckpointPayload → Action BTree (Unit {0})
restore_tree p = do
  reads (λ t. of_status (validate p))
  modify clear
  perform (Snapshot.deserialize (open_reader p.btree_snapshot))

-- A record that cannot be read ends the search.
unfoldable pub cut_after :
    (ℕ → Action LogManager (Unit {0}))
    → ℕ
    → ℕ
    → Result (LogRecord × ℕ)
    → Action LogManager (Unit {0})
cut_after rest lsn offset (err c) = fail invalid_argument
cut_after rest lsn offset (ok (r, bytes_read)) =
    branch (r.lsn == lsn) (on_log (LogFile.truncate (offset + bytes_read)))
      (rest (offset + bytes_read))

unfoldable pub truncate_rounds : ℕ → ℕ → ℕ → Action LogManager (Unit {0})
truncate_rounds zero lsn offset = reads (λ m. endless)
truncate_rounds (suc rounds) lsn offset = do
  size ← gets log_size
  branch (ltb offset size)
      (do
        found ← attempt (on_log (read_record offset))
        cut_after (truncate_rounds rounds lsn) lsn offset found)
      (fail invalid_argument)

unfoldable pub truncate_after_checkpoint : ℕ → Action LogManager (Unit {0})
truncate_after_checkpoint lsn = do
  rounds ← gets log_size
  truncate_rounds (suc rounds) lsn header_size
