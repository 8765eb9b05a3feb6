-- ===== src/Wal/Writer/Lost.antt =====
-- What LogWriter.cpp leaves in the file when each record is flushed, and what is found there.
use quartz_database_c.Prelude.{
  ℕ, zero, suc, ◌+◌, ◌<◌, ◌≡◌, List, [], ◌∷◌, ◌++◌, length, arith, refl, ap, length-append, All,
}
use quartz_database_c.Status.{err, corruption}
use quartz_database_c.Outcome.{returned}
use quartz_database_c.Outcome.Action.Ending.{
  Ends, ends-bind, ends-gets, ends-pure, ends-modify, ends-branch_true, ends-branch_false,
  ends-attempt_returned,
}
use quartz_database_c.Wal.Record.{validate_record, is_valid_record_type, invalid_lsn, is_valid_lsn}
use quartz_database_c.Wal.Record.Wire.{blank_record}
use quartz_database_c.Wal.LogFile.{header_size, padded_size}
use quartz_database_c.Wal.LogFile.Entries.{wal_header, length-wal_header}
use quartz_database_c.Wal.LogFile.Frames.{
  IsSize, frames, FrameRest, next_frame, frame_ahead, read_frame, no_frames_left, length-le-frames,
}
use quartz_database_c.Wal.Log.{LogManager, LogWriter, LogReader}
use quartz_database_c.Wal.Log.Held.{Held, on_log-Held, log_size-Held}
use quartz_database_c.Wal.Writer.{scan, scanned, restored, restore_from_file}

pub blank_refused : validate_record blank_record ≡ err corruption
unfolding validate_record is_valid_record_type
blank_refused = refl

module _ (bytes : List ℕ) (a : ℕ) (writer : LogWriter) (reader : LogReader) where
  abbrev Log : LogManager → Type 0
  Log = Held bytes a writer reader

  -- The scan finds the invalid number in every frame.
  scan-frames :
      (rounds offset : ℕ) (ns : List ℕ) (m : LogManager)
      → length ns < rounds
      → All IsSize ns
      → FrameRest bytes offset ns
      → Log m
      → Ends m (scan rounds offset invalid_lsn) (returned invalid_lsn) Log
  unfolding scan scanned
  scan-frames zero offset ns m enough sizes rest h = absurd (omega arith)
  scan-frames (suc rounds) offset [] m enough sizes rest h =
      ends-bind {P = Log} _ (ends-gets _ (log_size-Held m h) h) (λ m1 h1.
        ends-branch_false _ _ _ (ground (arith, no_frames_left bytes offset rest))
          (ends-pure invalid_lsn h1))
  scan-frames (suc rounds) offset (n ∷ ns) m enough sizes rest h =
      ends-bind {P = Log} _ (ends-gets _ (log_size-Held m h) h) (λ m1 h1.
        ends-branch_true _ _ _ (ground (arith, frame_ahead bytes offset n ns rest)) (
          ends-bind _
            (ends-attempt_returned
              (on_log-Held _ m1 h1 (read_frame bytes offset n ns rest sizes.0 a)))
            (λ m2 h2.
              scan-frames rounds (offset + padded_size (4 + n)) ns m2 (omega arith) sizes.1
                (next_frame bytes offset n ns rest) h2)))

  -- So nothing is restored.
  pub restore_from_file-frames :
      (ns : List ℕ) (m : LogManager)
      → All IsSize ns
      → bytes ≡ wal_header ++ frames ns
      → Log m
      → Ends m restore_from_file (returned tt) Log
  unfolding restore_from_file restored is_valid_lsn
  restore_from_file-frames ns m sizes split h =
      let rest : FrameRest bytes header_size ns = record {
        before = wal_header;
        split = split;
        at = length-wal_header;
      } in
      let enough : length ns < suc (length bytes) = omega (
        arith,
        length-le-frames ns,
        length-append wal_header (frames ns),
        ap (λ (t : List ℕ). length t) split,
      ) in
      ends-bind {P = Log} _ (ends-gets _ (log_size-Held m h) h) (λ m1 h1.
        ends-bind _ (scan-frames (suc (length bytes)) header_size ns m1 enough sizes rest h1)
          (λ m2 h2. ends-modify _ h2))
