-- ===== src/Wal/Writer/Invariant.antt =====
-- What all calls of LogWriter.cpp keep.
use quartz_database_c.Prelude.{ℕ, zero, suc, ◌+◌, ◌≡◌, refl, inl, inr, Bool-cases, List, [], ◌∷◌}
use quartz_database_c.Status.{Result, ok, err}
use quartz_database_c.Outcome.Action.{Action, attempt, within, gets}
use quartz_database_c.Outcome.Action.Invariant.{
  Keeps, Any, every_outcome, bind, seq, pure-Keeps, reads_only, gets-Keeps, modify-Keeps,
  perform-Keeps, branch-Keeps,
}
use quartz_database_c.Serialization.Writer.{BinaryWriter}
use quartz_database_c.Wal.Record.{LogRecord, next_lsn, is_valid_lsn}
use quartz_database_c.Wal.LogBuffer.Bounds.{IsBounded, append-IsBounded, clear-IsBounded}
use quartz_database_c.Wal.LogFile.{LogFile}
use quartz_database_c.Wal.Log.{LogManager, on_log, set_writer, count}
use quartz_database_c.Wal.Writer.{
  append_record, append_batch, write_record_to_buffer, buffered, take_lsn, count_record, set_buffer,
  flush, flush_buffer_to_file, flushed_to_current, scan, scanned, restored, restore_from_file,
}

-- The buffer is within its capacity, and the next number follows the current one.
pub record IsWriter (m : LogManager) : Type 0 where
  pub bounded : IsBounded m.writer.buffer
  pub next : m.writer.next_lsn ≡ next_lsn m.writer.current_lsn

on_log-IsWriter : {A : Type 0} (act : Action LogFile A) → Keeps IsWriter Any (on_log act)
unfolding on_log within
on_log-IsWriter act = record {
  holds = λ m h. (record { bounded = h.bounded; next = h.next }, every_outcome (act m.file).0);
}

attempt-IsWriter :
    {A : Type 0} {act : Action LogManager A}
    → Keeps IsWriter Any act
    → Keeps IsWriter Any (attempt act)
unfolding attempt
attempt-IsWriter {act = act} h = record {
  holds = λ m p. ((h.holds m p).0, every_outcome (attempt act m).0);
}

buffered-IsWriter :
    (w : Result BinaryWriter) (m : LogManager) → IsWriter m → IsWriter (buffered w m).0
unfolding buffered set_buffer set_writer
buffered-IsWriter (err c) m h = h
buffered-IsWriter (ok w) m h = record {
  bounded = (append-IsBounded m.writer.buffer w.buffer.bytes h.bounded).2;
  next = h.next;
}

append_record-IsWriter : (r : LogRecord) → Keeps IsWriter Any (append_record r)
unfolding append_record write_record_to_buffer take_lsn count_record set_writer count
append_record-IsWriter r = bind (gets-Keeps _) (λ lsn any.
    seq (modify-Keeps _ (λ m h. record { bounded = h.bounded; next = refl })) (
      seq (reads_only _) (
        seq (perform-Keeps _ (buffered-IsWriter _))
          (modify-Keeps _ (λ m h. record { bounded = h.bounded; next = h.next })))))

append_batch-IsWriter : (records : List LogRecord) → Keeps IsWriter Any (append_batch records)
unfolding append_batch
append_batch-IsWriter [] = pure-Keeps tt tt
append_batch-IsWriter (r ∷ rest) = seq (append_record-IsWriter r) (append_batch-IsWriter rest)

buffer-IsBounded : Keeps IsWriter IsBounded (gets (λ m. m.writer.buffer))
unfolding gets
buffer-IsBounded = record { holds = λ m h. (h, h.bounded) }

-- The buffer that is cleared is the one that was flushed.
flush-IsWriter : Keeps IsWriter Any flush
unfolding flush flush_buffer_to_file flushed_to_current set_buffer set_writer count
flush-IsWriter =
    seq
      (bind {Q = IsBounded} buffer-IsBounded (λ buffer bounded. branch-Keeps _ (pure-Keeps tt tt) (
        seq (on_log-IsWriter _) (
          modify-Keeps _
            (λ m h. record { bounded = clear-IsBounded buffer bounded; next = h.next })))))
      (seq (on_log-IsWriter _)
        (modify-Keeps _ (λ m h. record { bounded = h.bounded; next = h.next })))

scanned-IsWriter :
    (rest : ℕ → ℕ → Action LogManager ℕ) (offset last : ℕ) (found : Result (LogRecord × ℕ))
    → ((offset last : ℕ) → Keeps IsWriter Any (rest offset last))
    → Keeps IsWriter Any (scanned rest offset last found)
unfolding scanned
scanned-IsWriter rest offset last (err c) k = pure-Keeps last tt
scanned-IsWriter rest offset last (ok (r, size)) k = k (offset + size) r.lsn

scan-IsWriter : (rounds offset last : ℕ) → Keeps IsWriter Any (scan rounds offset last)
unfolding scan
scan-IsWriter zero offset last = reads_only _
scan-IsWriter (suc rounds) offset last = bind (gets-Keeps _) (λ size any.
    branch-Keeps _
      (bind (attempt-IsWriter (on_log-IsWriter _))
        (λ found any'. scanned-IsWriter _ offset last found (scan-IsWriter rounds)))
      (pure-Keeps last tt))

restored-IsWriter : (last : ℕ) (m : LogManager) → IsWriter m → IsWriter (restored last m)
unfolding restored set_writer count
restored-IsWriter last m h = elim (Bool-cases (is_valid_lsn last)) [
  | inl some_lsn ↦ rw some_lsn (record { bounded = h.bounded; next = refl })
  | inr none_yet ↦ rw none_yet h
]

restore-IsWriter : Keeps IsWriter Any restore_from_file
unfolding restore_from_file
restore-IsWriter = bind (gets-Keeps _) (λ rounds any.
    bind (scan-IsWriter _ _ _) (λ last any'. modify-Keeps _ (restored-IsWriter last)))

-- The buffer within its capacity, and the next sequence number after the current one: `appendRecord`,
-- `appendBatch`, `flush` and `restoreFromFile` keep that however they end, with an error of the record, of
-- the buffer or of the file too.
pub calls-IsWriter :
    (r : LogRecord) (records : List LogRecord)
    → Keeps IsWriter Any (append_record r)
      × Keeps IsWriter Any (append_batch records)
      × Keeps IsWriter Any flush
      × Keeps IsWriter Any restore_from_file
calls-IsWriter r records =
    (append_record-IsWriter r, append_batch-IsWriter records, flush-IsWriter, restore-IsWriter)
