-- ===== src/Wal/Writer/Restored.antt =====
-- `restoreFromFile` of LogWriter.cpp on a log of well-formed records.
use quartz_database_c.Prelude.{
  ℕ, zero, suc, ◌+◌, ◌%◌, ◌-◌, ◌^◌, ◌≤◌, ◌<◌, ◌≡◌, false, List, [], ◌∷◌, ◌++◌, length, ◌==◌, arith,
  refl, All, length-append, Bool-cases, inl, inr,
}
use quartz_database_c.Outcome.{returned}
use quartz_database_c.Outcome.Action.Ending.{
  Ends, ends-bind, ends-gets, ends-pure, ends-modify, ends-branch_true, ends-branch_false,
  ends-attempt_returned,
}
use quartz_database_c.Wal.Record.{LogRecord, is_valid_lsn, next_lsn}
use quartz_database_c.Wal.Record.Size.{Ascends}
use quartz_database_c.Wal.Record.Wire.{IsWord}
use quartz_database_c.Wal.LogFile.{header_size}
use quartz_database_c.Wal.LogFile.Entry.{entry}
use quartz_database_c.Wal.LogFile.Entries.{
  Rest, wal_header, entries, all_ahead, at_end, moved_past, more_ahead, read_first,
  length-le-entries,
}
use quartz_database_c.Wal.Log.{LogManager, LogWriter, LogReader, set_writer, count}
use quartz_database_c.Wal.Log.Held.{Held, on_log-Held, log_size-Held}
use quartz_database_c.Wal.Manager.Chain.{lsns}
use quartz_database_c.Wal.Writer.{scan, scanned, restored, restore_from_file}

last_of : ℕ → List ℕ → ℕ
last_of last [] = last
last_of last (lsn ∷ rest) = last_of lsn rest

module _ (bytes : List ℕ) (a : ℕ) (writer : LogWriter) (reader : LogReader) where
  abbrev Log : LogManager → Type 0
  Log = Held bytes a writer reader

  scan-Rest :
      (rounds offset last : ℕ) (rs : List LogRecord) (m : LogManager)
      → length rs < rounds
      → All IsWord rs
      → Rest bytes offset rs
      → Log m
      → Ends m (scan rounds offset last) (returned (last_of last (lsns rs))) Log
  unfolding scan scanned last_of
  scan-Rest zero offset last rs m enough words rest h = absurd (omega arith)
  scan-Rest (suc rounds) offset last [] m enough words rest h =
      ends-bind {P = Log} _ (ends-gets _ (log_size-Held m h) h) (λ m1 h1.
        ends-branch_false _ _ _ (ground (arith, at_end bytes offset rest)) (ends-pure last h1))
  scan-Rest (suc rounds) offset last (r ∷ rs) m enough words rest h =
      ends-bind {P = Log} _ (ends-gets _ (log_size-Held m h) h) (λ m1 h1.
        ends-branch_true _ _ _ (ground (arith, more_ahead bytes offset r rs rest)) (
          ends-bind _
            (ends-attempt_returned
              (on_log-Held _ m1 h1 (read_first bytes offset r rs rest words.0 a)))
            (λ m2 h2.
              scan-Rest rounds (offset + length (entry r)) r.lsn rs m2 (omega arith) words.1
                (moved_past bytes offset r rs rest) h2)))

restored-Held :
    (bytes : List ℕ) (a : ℕ) (writer : LogWriter) (reader : LogReader) (last : ℕ) (m : LogManager)
    → Held bytes a writer reader m
    → Held bytes a (restored last m).writer reader (restored last m)
unfolding restored set_writer count
restored-Held bytes a writer reader last m h = elim (Bool-cases (is_valid_lsn last)) [
  | inl some_lsn ↦
      rw some_lsn
        (record { log = h.log; initialized = h.initialized; writer = refl; reader = h.reader })
  | inr none_yet ↦
      rw none_yet
        (record { log = h.log; initialized = h.initialized; writer = refl; reader = h.reader })
]

last_of-ge : (last : ℕ) (xs : List ℕ) → Ascends last xs → last ≤ last_of last xs
unfolding last_of
last_of-ge last [] up = omega arith
last_of-ge last (x ∷ xs) up = omega (arith, up.0, last_of-ge x xs up.1)

all_below : (last : ℕ) (xs : List ℕ) → Ascends last xs → All (λ x. x ≤ last_of last xs) xs
unfolding last_of
all_below last [] up = tt
all_below last (x ∷ xs) up = (last_of-ge x xs up.1, all_below x xs up.1)

below_next :
    (bound next : ℕ) (rs : List LogRecord)
    → bound < next
    → All (λ x. x ≤ bound) (lsns rs)
    → All (λ r. r.lsn < next) rs
below_next bound next [] h all = tt
below_next bound next (r ∷ rs) h all = (omega (arith, h, all.0), below_next bound next rs h all.1)

all_words_last :
    (last : ℕ) (rs : List LogRecord)
    → All (λ r. r.lsn < 2 ^ 64 - 1) rs
    → last < 2 ^ 64 - 1
    → last_of last (lsns rs) < 2 ^ 64 - 1
unfolding last_of
all_words_last last [] all h = h
all_words_last last (r ∷ rs) all h = all_words_last r.lsn rs all.1 all.0

later_last :
    (r : LogRecord) (rs : List LogRecord)
    → Ascends 0 (lsns (r ∷ rs))
    → r.lsn ≤ last_of 0 (lsns (r ∷ rs))
unfolding last_of
later_last r rs up = last_of-ge r.lsn (lsns rs) up.1

restored_next :
    (last : ℕ) (m : LogManager)
    → 0 < last
    → last < 2 ^ 64 - 1
    → (restored last m).writer.next_lsn ≡ last + 1
unfolding restored set_writer count is_valid_lsn next_lsn
restored_next last m some_lsn small =
    let valid : (last == 0) ≡ false = ground (arith, some_lsn) in
    let next : (last + 1) % 2 ^ 64 ≡ last + 1 = omega (arith, small) in rw (valid, next) refl

restored_above :
    (rs : List LogRecord) (m : LogManager)
    → Ascends 0 (lsns rs)
    → All (λ r. r.lsn < 2 ^ 64 - 1) rs
    → All (λ r. r.lsn < (restored (last_of 0 (lsns rs)) m).writer.next_lsn) rs
restored_above [] m up left = tt
restored_above (r ∷ rs) m up left =
    let last = last_of 0 (lsns (r ∷ rs)) in
    let small = all_words_last 0 (r ∷ rs) left (omega arith) in
    let e = restored_next last m (omega (arith, up.0, later_last r rs up)) small in
    below_next last (restored last m).writer.next_lsn (r ∷ rs) (omega (arith, e))
      (all_below 0 (lsns (r ∷ rs)) up)

-- On a log of well-formed records whose sequence numbers ascend and do not reach the greatest one, restoring the
-- writer from the file succeeds, and the number that the next record gets is above all of theirs; the file and
-- the reader are as they were.
pub restore_from_file-above :
    (rs : List LogRecord) (a : ℕ) (writer : LogWriter) (reader : LogReader) (m : LogManager)
    → All IsWord rs
    → Ascends 0 (lsns rs)
    → All (λ r. r.lsn < 2 ^ 64 - 1) rs
    → Held (wal_header ++ entries rs) a writer reader m
    → Ends m restore_from_file (returned tt) (λ m'.
      Held (wal_header ++ entries rs) a m'.writer reader m'
      × All (λ r. r.lsn < m'.writer.next_lsn) rs)
unfolding restore_from_file
restore_from_file-above rs a writer reader m words up left h =
    let bytes = wal_header ++ entries rs in
    let enough : length rs < suc (length bytes) =
      omega (arith, length-le-entries rs, length-append wal_header (entries rs)) in
    ends-bind {P = Held bytes a writer reader} _ (ends-gets _ (log_size-Held m h) h) (λ m1 h1.
      ends-bind _
        (scan-Rest bytes a writer reader (suc (length bytes)) header_size 0 rs m1 enough words
          (all_ahead rs) h1)
        (λ m2 h2. ends-modify _ (
          restored-Held bytes a writer reader (last_of 0 (lsns rs)) m2 h2,
          restored_above rs m2 up left,
        )))
