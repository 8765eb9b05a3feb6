-- ===== src/Wal/Reader/Next.antt =====
-- LogReader.cpp on a log of well-formed records.
use quartz_database_c.Prelude.{
  ℕ, ◌+◌, ◌<◌, ◌≡◌, true, false, List, [], ◌∷◌, length, arith, refl, ap,
}
use quartz_database_c.Status.{success, invalid_argument}
use quartz_database_c.Outcome.{returned, failed}
use quartz_database_c.Outcome.Action.Ending.{
  Ends, ends-bind, ends-seq, ends-gets, ends-reads, ends-pure, ends-fail, ends-modify,
  ends-branch_true, ends-branch_false, ends-attempt_returned,
}
use quartz_database_c.Wal.Record.{LogRecord, validate_lsn_ordering}
use quartz_database_c.Wal.Record.Size.{validate_chain-Ascends}
use quartz_database_c.Wal.Record.Wire.{IsWord}
use quartz_database_c.Wal.LogFile.Entry.{entry}
use quartz_database_c.Wal.LogFile.Entries.{Rest, more_ahead, read_first, at_end}
use quartz_database_c.Wal.Log.{LogManager, LogWriter, LogReader, LogStatistics, set_reader, count}
use quartz_database_c.Wal.Log.Held.{Held, on_log-Held, log_size-Held}
use quartz_database_c.Wal.Reader.{read_next, accept, end_of_log, set_end}
use quartz_database_c.Wal.Record.Valid.{IsValid, IsValid-validate_record, both_ok}

abbrev pub at_offset : ℕ → ℕ → LogReader
at_offset offset last = record { offset = offset; last_lsn = last; end_of_log = false }

ordered : (last lsn : ℕ) → last < lsn → validate_lsn_ordering last lsn ≡ success
ordered last lsn h =
    (both_ok (validate_lsn_ordering last lsn) success
      ((validate_chain-Ascends last (lsn ∷ [])).1 (h, tt))).0

module _ (bytes : List ℕ) (a : ℕ) (writer : LogWriter) (offset last : ℕ) where
  abbrev Before : LogManager → Type 0
  Before = Held bytes a writer (at_offset offset last)

  more : (m : LogManager) → Before m → offset < length bytes → end_of_log m ≡ false
  unfolding end_of_log
  more m h inside = rw (log_size-Held m h, h.reader) (ground arith)

  abbrev After : LogRecord → LogManager → Type 0
  After r = Held bytes a writer (at_offset (offset + length (entry r)) r.lsn)

  moved :
      (r : LogRecord) (m : LogManager)
      → Before m
      → After r (
          set_reader
            (record m.reader { last_lsn = r.lsn; offset = m.reader.offset + length (entry r) })
            m)
  unfolding set_reader
  moved r m h = record {
    log = h.log;
    initialized = h.initialized;
    writer = h.writer;
    reader = rw h.reader refl;
  }

  counted :
      (r : LogRecord) (m : LogManager) (f : LogStatistics → LogStatistics)
      → After r m
      → After r (count f m)
  unfolding count
  counted r m f h = record {
    log = h.log;
    initialized = h.initialized;
    writer = h.writer;
    reader = h.reader;
  }

  -- The next record is given, and the reader stands after it.
  pub read_next-record :
      (r : LogRecord) (rs : List LogRecord) (m : LogManager)
      → Before m
      → Rest bytes offset (r ∷ rs)
      → IsWord r
      → IsValid r
      → last < r.lsn
      → Ends m read_next
          (returned r)
          (Held bytes a writer (at_offset (offset + length (entry r)) r.lsn))
  unfolding read_next accept
  read_next-record r rs m h rest word valid up =
      ends-bind {P = Before} _ (ends-gets _ (more m h (more_ahead bytes offset r rs rest)) h)
        (λ m2 h2. ends-branch_false _ _ _ refl (
          ends-bind {P = Before} _ (ends-gets _ (ap (λ x. x.offset) h2.reader) h2) (λ m3 h3.
            ends-bind _
              (ends-attempt_returned
                (on_log-Held _ m3 h3 (read_first bytes offset r rs rest word a)))
              (λ m4 h4.
                ends-seq {P = Before} (ends-reads _ (rw (IsValid-validate_record r valid) refl) h4)
                  (λ m5 h5.
                    ends-seq {P = Before}
                      (ends-reads _ (rw (h5.reader, ordered last r.lsn up) refl) h5)
                      (λ m6 h6. ends-seq {P = After r} (ends-modify _ (moved r m6 h6)) (λ m7 h7.
                        ends-seq {P = After r} (ends-modify _ (counted r m7 _ h7))
                          (λ m8 h8. ends-pure r h8))))))))

  ended : (m : LogManager) → Before m → Rest bytes offset [] → end_of_log m ≡ true
  unfolding end_of_log
  ended m h rest = rw (log_size-Held m h, h.reader) (ground (arith, at_end bytes offset rest))

  abbrev pub at_the_end : LogReader
  at_the_end = record { offset = offset; last_lsn = last; end_of_log = true }

  -- After the last record the log ends.
  pub read_next-end :
      (m : LogManager)
      → Before m
      → Rest bytes offset []
      → Ends m read_next (failed invalid_argument) (Held bytes a writer at_the_end)
  unfolding read_next set_end set_reader
  read_next-end m h rest = ends-bind {P = Before} _ (ends-gets _ (ended m h rest) h) (λ m2 h2.
      ends-branch_true _ _ _ refl (
        ends-seq {P = Held bytes a writer at_the_end}
          (ends-modify _ (record {
            log = h2.log;
            initialized = h2.initialized;
            writer = h2.writer;
            reader = rw h2.reader refl;
          }))
          (λ m3 h3. ends-fail invalid_argument h3)))
