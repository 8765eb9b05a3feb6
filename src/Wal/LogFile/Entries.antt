-- ===== src/Wal/LogFile/Entries.antt =====
-- Records one after another in the file of LogFile.cpp, after the file's header.
use mathlib.Core.List.{append_assoc}
use quartz_database_c.Prelude.{
  ℕ, ◌+◌, ◌≤◌, ◌<◌, ◌≡◌, ◌∙◌, false, List, [], ◌∷◌, ◌++◌, length, take, drop, replicate, ltb, arith,
  refl, ap, sym, length-append, take-append,
}
use quartz_database_c.Outcome.{returned}
use quartz_database_c.Outcome.Action.Ending.{
  Ends, ends_same, ends-bind, ends-seq, ends-gets, ends-pure, ends-fail_if_false,
}
use quartz_database_c.Serialization.Reader
use quartz_database_c.Serialization.Writer
use quartz_database_c.Wal.Record.{LogRecord}
use quartz_database_c.Wal.Record.Wire.{IsWord}
use quartz_database_c.Wal.LogFile.{
  LogFile, header_size, header_bytes, header_of, read_record, padded_size, read_header, validate,
  journal_magic, wal_format_version, page_size,
}
use quartz_database_c.Wal.LogFile.Opened.{IsLog, open-IsLog, seek-IsLogAt, read-IsLogAt}
use quartz_database_c.Wal.LogFile.Entry.{entry, length-entry, read_record-entry}

abbrev pub wal_header : List ℕ
wal_header = header_bytes (record {
  magic = journal_magic;
  version = wal_format_version;
  page_size = page_size;
  reserved = 0;
})

pub entries : List LogRecord → List ℕ
entries [] = []
entries (r ∷ rs) = entry r ++ entries rs

-- From this offset on the file has these records and nothing more.
pub record Rest (bytes : List ℕ) (offset : ℕ) (rs : List LogRecord) : Type 0 where
  pub before : List ℕ
  pub split : bytes ≡ before ++ entries rs
  pub at : offset ≡ length before

pub length-wal_header : header_size ≡ length wal_header
unfolding header_bytes Writer.le_bytes
length-wal_header = refl

pub all_ahead : (rs : List LogRecord) → Rest (wal_header ++ entries rs) header_size rs
unfolding header_bytes Writer.le_bytes
all_ahead rs = record { before = wal_header; split = refl; at = refl }

pub at_end : (bytes : List ℕ) (offset : ℕ) → Rest bytes offset [] → offset ≡ length bytes
unfolding entries
at_end bytes offset h =
    omega (arith, h.at, ap (λ (t : List ℕ). length t) h.split, length-append h.before [])

length-entry-pos : (r : LogRecord) → 0 < length (entry r)
unfolding padded_size
length-entry-pos r = ground (arith, length-entry r)

module _ (bytes : List ℕ) (offset : ℕ) (r : LogRecord) (rs : List LogRecord)
    (h : Rest bytes offset (r ∷ rs)) where
  pub moved_past : Rest bytes (offset + length (entry r)) rs
  unfolding entries
  moved_past = record {
    before = h.before ++ entry r;
    split = h.split ∙ sym (append_assoc h.before (entry r) (entries rs));
    at = omega (arith, h.at, length-append h.before (entry r));
  }

  pub more_ahead : offset < length bytes
  unfolding entries
  more_ahead = omega (
    arith,
    h.at,
    ap (λ (t : List ℕ). length t) h.split,
    length-append h.before (entry r ++ entries rs),
    length-append (entry r) (entries rs),
    length-entry-pos r,
  )

  pub read_first :
      IsWord r
      → (a : ℕ) (l : LogFile) → IsLog bytes a l
      → Ends l (read_record offset) (returned (r, length (entry r))) (IsLog bytes a)
  unfolding entries
  read_first w a l log =
      rw (h.at, h.split) (read_record-entry h.before (entries rs) r w a l (rw h.split at log))

pub length-le-entries : (rs : List LogRecord) → length rs ≤ length (entries rs)
unfolding entries
length-le-entries [] = omega arith
length-le-entries (r ∷ rs) =
    omega (arith, length-append (entry r) (entries rs), length-entry-pos r, length-le-entries rs)

-- The header of such a file is accepted.
module _ (after : List ℕ) (a : ℕ) where
  abbrev bytes : List ℕ
  bytes = wal_header ++ after

  long : header_size ≤ length bytes
  unfolding header_bytes Writer.le_bytes
  long = omega (arith, length-append wal_header after)

  big_enough : (l : LogFile) → IsLog bytes a l → ltb l.file.size header_size ≡ false
  big_enough l h = ground (arith, long, h.file.size)

  head : take (length (replicate {A = ℕ} header_size 0)) (drop 0 bytes) ≡ wal_header
  unfolding header_bytes Writer.le_bytes
  head = take-append wal_header after

  read_header-IsLog :
      (l : LogFile)
      → IsLog bytes a l
      → Ends l read_header (returned (header_of wal_header)) (IsLog bytes a)
  unfolding read_header
  read_header-IsLog l h = ends-seq (open-IsLog bytes a l h) (λ l1 h1.
      ends-bind {P = IsLog bytes a} _ (ends-gets _ (big_enough l1 h1) h1) (λ l2 h2.
        ends-seq {P = IsLog bytes a} (ends-fail_if_false _ _ refl h2) (λ l3 h3.
          ends-seq (seek-IsLogAt bytes a 0 l3 h3) (λ l4 h4.
            ends-bind _
              (ends_same head (read-IsLogAt bytes (replicate header_size 0) a 0 l4 h4 long))
              (λ l5 h5. ends-pure _ h5)))))

  pub validate-IsLog :
      (l : LogFile) → IsLog bytes a l → Ends l validate (returned tt) (IsLog bytes a)
  unfolding validate header_of header_bytes Writer.le_bytes Reader.le_value
  validate-IsLog l h = ends-seq (open-IsLog bytes a l h) (λ l1 h1.
      ends-bind _ (read_header-IsLog l1 h1) (λ l2 h2.
        ends-seq {P = IsLog bytes a} (ends-fail_if_false _ _ refl h2)
          (λ l3 h3. ends-fail_if_false _ _ refl h3)))
