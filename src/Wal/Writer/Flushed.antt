-- ===== src/Wal/Writer/Flushed.antt =====
-- Records that LogWriter.cpp takes and flushes.
use mathlib.Core.List.{append_assoc}
use quartz_database_c.Prelude.{
  ℕ, ◌+◌, ◌%◌, ◌^◌, ◌≤◌, ◌<◌, ◌≡◌, ◌≢◌, ◌∙◌, false, not, ◌||◌, List, [], ◌∷◌, ◌++◌, length, ◌==◌,
  arith, refl, ap, sym, length-append,
}
use quartz_database_c.Status.{success}
use quartz_database_c.Outcome.{returned}
use quartz_database_c.Outcome.Action
use quartz_database_c.Outcome.Action.Ending.{
  Ends, ends-bind, ends-seq, ends-gets, ends-reads, ends-modify, ends-perform, ends-within,
  ends-branch_false, ends-fail_if_false,
}
use quartz_database_c.Wal.Record.{
  LogRecord, validate_record, is_valid_record_type, is_valid_lsn, wire_size,
}
use quartz_database_c.Wal.LogBuffer
use quartz_database_c.Wal.LogBuffer.Bounds.{
  IsBounded, append_fitting, capacity-append, clear-IsBounded,
}
use quartz_database_c.Storage.DatabaseFile
use quartz_database_c.Storage.DatabaseFile.{DatabaseFile}
use quartz_database_c.Wal.LogFile.Opened.{HasBytes}
use quartz_database_c.Serialization.Buffer
use quartz_database_c.Wal.LogFile
use quartz_database_c.Wal.LogFile.{framed, padded_size, on_file}
use quartz_database_c.Wal.LogFile.Append.{Grows, padded, append-Grows}
use quartz_database_c.Wal.LogFile.Entries.{wal_header, length-wal_header}
use quartz_database_c.Wal.LogFile.Zeros.{zero_frame, framed-zeros, length-zero_frame}
use quartz_database_c.Wal.LogFile.Frames.{frame, frames, frames-add, padded-frame, even-frames}
use quartz_database_c.Wal.Log.{LogManager, on_log, set_writer, count}
use quartz_database_c.Wal.Writer.{
  append_record, write_record_to_buffer, buffered, take_lsn, count_record, set_buffer, flush,
  flush_buffer_to_file, flushed_to_current,
}

-- The file's bytes and room, and the bytes in the buffer.
pub record Pending (bytes : List ℕ) (room : ℕ) (queued : List ℕ) (limit : ℕ) (m : LogManager)
    : Type 0 where
  pub file : Grows bytes room m.file
  pub queue : m.writer.buffer.buffer.bytes ≡ queued
  pub bounded : IsBounded m.writer.buffer
  pub capacity : m.writer.buffer.capacity ≡ limit

-- The record is accepted with the next number.
pub record IsAccepted (r : LogRecord) (m : LogManager) : Type 0 where
  pub known : 1 ≤ r.tag
  pub last : r.tag ≤ 9
  pub timed : r.timestamp ≢ 0
  pub numbered : m.writer.next_lsn ≢ 0

accepted :
    (r : LogRecord) (m : LogManager)
    → IsAccepted r m
    → validate_record (record r { lsn = m.writer.next_lsn }) ≡ success
unfolding validate_record is_valid_record_type is_valid_lsn
accepted r m h = ground (arith, h.timed, h.numbered)

module _ (bytes : List ℕ) (room limit : ℕ) where
  buffered-Pending :
      (queued : List ℕ) (r : LogRecord) (m : LogManager)
      → Pending bytes room queued limit m
      → wire_size r < 2 ^ 32
      → length queued + (4 + wire_size r) ≤ limit
      → Ends m
          (write_record_to_buffer r)
          (returned tt)
          (Pending bytes room (queued ++ zero_frame (wire_size r)) limit)
  unfolding write_record_to_buffer buffered set_buffer set_writer
  buffered-Pending queued r m h small fits =
      let n = wire_size r in
      let (w, built, zeros) = framed-zeros r small in
      let size : length w.buffer.bytes ≡ 4 + n =
        ap (λ (t : List ℕ). length t) zeros ∙ length-zero_frame n in
      let enough : length m.writer.buffer.buffer.bytes + length w.buffer.bytes
          ≤ m.writer.buffer.capacity =
        omega (arith, size, fits, h.capacity, ap (λ (t : List ℕ). length t) h.queue) in
      let (contents, taken, bounded) =
        append_fitting m.writer.buffer w.buffer.bytes h.bounded enough in
      let same : m.writer.buffer.buffer.bytes ++ w.buffer.bytes ≡ queued ++ zero_frame n =
        rw (h.queue, zeros) refl in
      ends-perform _ (rw (built, taken) refl) (
        rw built (record {
          file = h.file;
          queue = contents ∙ same;
          bounded = bounded;
          capacity = capacity-append m.writer.buffer w.buffer.bytes ∙ h.capacity;
        }))

  append_record-Pending :
      (queued : List ℕ) (r : LogRecord) (m : LogManager)
      → Pending bytes room queued limit m
      → IsAccepted r m
      → wire_size r < 2 ^ 32
      → length queued + (4 + wire_size r) ≤ limit
      → Ends m
          (append_record r)
          (returned tt)
          (Pending bytes room (queued ++ zero_frame (wire_size r)) limit)
  unfolding append_record take_lsn set_writer count_record count wire_size
  append_record-Pending queued r m h good small fits =
      let numbered = record r { lsn = m.writer.next_lsn } in
      let P = Pending bytes room queued limit in
      ends-bind {P = λ m'. m' ≡ m} {a = m.writer.next_lsn} _ (ends-gets _ refl refl) (λ m1 same.
        ends-seq {P = P}
          (ends-modify _ (
            rw same (record {
              file = h.file;
              queue = h.queue;
              bounded = h.bounded;
              capacity = h.capacity;
            })))
          (λ m2 h2. ends-seq {P = P} (ends-reads _ (rw (accepted r m good) refl) h2) (λ m3 h3.
            ends-seq (buffered-Pending queued numbered m3 h3 small fits) (λ m4 h4.
              ends-modify _ (record {
                file = h4.file;
                queue = h4.queue;
                bounded = h4.bounded;
                capacity = h4.capacity;
              })))))

  flush_buffer-Pending :
      (queued : List ℕ) (m : LogManager)
      → Pending bytes room queued limit m
      → 0 < length queued
      → padded_size (length bytes + length queued) ≤ room
      → Ends m flush_buffer_to_file (returned tt) (Pending (padded (bytes ++ queued)) room [] limit)
  unfolding flush_buffer_to_file set_buffer set_writer on_log LogBuffer.is_empty LogBuffer.clear
      Buffer.clear
  flush_buffer-Pending queued m h some_bytes fits =
      let waiting : (length m.writer.buffer.buffer.bytes == 0) ≡ false =
        rw h.queue (ground (arith, some_bytes)) in
      ends-bind {P = λ m'. m' ≡ m} {a = m.writer.buffer} _ (ends-gets _ refl refl) (λ m1 same.
        rw same (
          ends-branch_false _ _ _ waiting (
            ends-seq {P = λ m'. Grows (padded (bytes ++ queued)) room m'.file}
              (ends-within (λ m. m.file) (λ file m. record m { file = file })
                (rw h.queue (append-Grows bytes queued room m.file h.file fits)) (λ l grown. grown))
              (λ m2 grown. ends-modify _ (record {
                file = grown;
                queue = refl;
                bounded = clear-IsBounded m.writer.buffer h.bounded;
                capacity = h.capacity;
              })))))

flush-HasBytes :
    {bytes : List ℕ} {f : DatabaseFile} → HasBytes bytes f → DatabaseFile.flush f ≡ (f, success)
unfolding DatabaseFile.flush
flush-HasBytes {bytes} {f} h =
    let healthy : (not f.is_open || f.failed) ≡ false = rw (h.is_open, h.sound) refl in
    rw healthy refl

flush_file-Pending :
    (bytes : List ℕ) (room limit : ℕ) (m : LogManager)
    → Pending bytes room [] limit m
    → Ends m (on_log LogFile.flush) (returned tt) (Pending bytes room [] limit)
unfolding on_log LogFile.flush on_file
flush_file-Pending bytes room limit m h =
    ends-within {P = Grows bytes room} (λ m. m.file) (λ file m. record m { file = file })
      (ends-bind {P = Grows bytes room} _ (ends-gets _ h.file.log.attached h.file) (λ l1 h1.
        ends-seq {P = Grows bytes room} (ends-fail_if_false _ _ refl h1) (λ l2 h2.
          ends-within {P = λ f. f ≡ l2.file} (λ l. l.file) (λ file l. record l { file = file })
            (ends-perform _ (rw (flush-HasBytes h2.log.file) refl)
              (ap (λ p. p.0) (flush-HasBytes h2.log.file)))
            (λ f e. rw e h2))))
      (λ l grown. record {
        file = grown;
        queue = h.queue;
        bounded = h.bounded;
        capacity = h.capacity;
      })

flush-Pending :
    (bytes queued : List ℕ) (room limit : ℕ) (m : LogManager)
    → Pending bytes room queued limit m
    → 0 < length queued
    → padded_size (length bytes + length queued) ≤ room
    → Ends m flush (returned tt) (Pending (padded (bytes ++ queued)) room [] limit)
unfolding flush flushed_to_current count set_writer
flush-Pending bytes queued room limit m h some_bytes fits =
    ends-seq (flush_buffer-Pending bytes room limit queued m h some_bytes fits) (λ m1 h1.
      ends-seq (flush_file-Pending (padded (bytes ++ queued)) room limit m1 h1) (λ m2 h2.
        ends-modify _ (record {
          file = h2.file;
          queue = h2.queue;
          bounded = h2.bounded;
          capacity = h2.capacity;
        })))

-- The file of a log to which records of these sizes have been written one at a time.
abbrev pub log_bytes : List ℕ → List ℕ
log_bytes ns = wal_header ++ frames ns

even_log : (ns : List ℕ) → length (log_bytes ns) % 8 ≡ 0
even_log ns = omega (arith, length-append wal_header (frames ns), length-wal_header, even-frames ns)

one_more : (ns : List ℕ) (n : ℕ) → padded (log_bytes ns ++ zero_frame n) ≡ log_bytes (ns ++ n ∷ [])
one_more ns n =
    padded-frame (log_bytes ns) n (even_log ns)
    ∙ append_assoc wal_header (frames ns) (frame n)
    ∙ ap (λ t. wal_header ++ t) (sym (frames-add ns n))

-- A record with a known type and a time, appended while a sequence number is left and flushed by itself, where
-- the buffer and the disk have room for it: both calls succeed, and the file has one frame more, which has
-- the size of the record and zeros in place of its bytes.
pub append-flush-zeros :
    (ns : List ℕ) (room limit : ℕ) (r : LogRecord) (m : LogManager)
    → Pending (log_bytes ns) room [] limit m
    → IsAccepted r m
    → wire_size r < 2 ^ 32
    → 4 + wire_size r ≤ limit
    → padded_size (length (log_bytes ns) + (4 + wire_size r)) ≤ room
    → Ends m
        (Action.◌>>◌ (append_record r) flush)
        (returned tt)
        (Pending (log_bytes (ns ++ wire_size r ∷ [])) room [] limit)
append-flush-zeros ns room limit r m h good small fits disk =
    let n = wire_size r in
    let size = length-zero_frame n in
    ends-seq
      (append_record-Pending (log_bytes ns) room limit [] r m h good small (omega (arith, fits)))
      (λ m1 h1. rw (← one_more ns n) (
        flush-Pending (log_bytes ns) (zero_frame n) room limit m1 h1 (omega (arith, size))
          (rw size disk)))
