-- ===== src/Wal/Manager/Chain.antt =====
-- What `validate` of LogManager.cpp accepts.
use quartz_database_c.Prelude.{
  ℕ, zero, suc, ◌+◌, ◌<◌, ◌≡◌, ◌↔◌, false, not, List, [], ◌∷◌, ◌++◌, map, length, ◌∙◌, arith, refl,
  sym, All, length-append,
}
use quartz_database_c.Status.{Status, ok, err, success, ◌>>◌}
use quartz_database_c.Outcome.{returned, of_status}
use quartz_database_c.Outcome.Action
use quartz_database_c.Outcome.Action.Ending.{
  Ends, ends-bind, ends-seq, ends-seq_failed, ends-gets, ends-reads, ends-pure, ends-branch_true,
  ends-branch_false,
}
use quartz_database_c.Wal.Record.{LogRecord, invalid_lsn, validate_record, validate_lsn_ordering}
use quartz_database_c.Wal.Record.Size.{validate_chain, Ascends, validate_chain-Ascends}
use quartz_database_c.Wal.Record.Wire.{IsWord}
use quartz_database_c.Wal.Record.Valid.{
  IsValid, validate_record-IsValid, IsValid-validate_record, both_ok,
}
use quartz_database_c.Wal.LogFile.{header_size}
use quartz_database_c.Wal.LogFile.Entry.{entry}
use quartz_database_c.Wal.LogFile.Entries.{
  Rest, wal_header, entries, all_ahead, at_end, moved_past, more_ahead, read_first, validate-IsLog,
  length-le-entries,
}
use quartz_database_c.Wal.Log.{LogManager, LogWriter, LogReader}
use quartz_database_c.Wal.Log.Held.{Held, on_log-Held, log_size-Held}
use quartz_database_c.Wal.Manager.{refuse_uninitialized, validate_records, validate}

-- The two tests on each record, along the records.
abbrev pub check_records : ℕ → List LogRecord → Status
check_records previous [] = success
check_records previous (r ∷ rs) =
    validate_record r >> (validate_lsn_ordering previous r.lsn >> check_records r.lsn rs)

pub ready-Held :
    {bytes : List ℕ} {a : ℕ} {writer : LogWriter} {reader : LogReader} (m : LogManager)
    → Held bytes a writer reader m
    → Ends m refuse_uninitialized (returned tt) (Held bytes a writer reader)
unfolding refuse_uninitialized Action.fail_if
ready-Held m h =
    let e : not m.initialized ≡ false = rw h.initialized refl in
    record { outcome = rw e refl; after = rw e h }

-- A status that is looked at, and the rest.
module _ {S : Type 0} {P Q : S → Type 0} where
  pub checked :
      {s : S} (st next : Status) (rest : Action.Action S (Unit {0}))
      → P s
      → ((s : S) → P s → Q s)
      → ((s' : S) → P s' → Ends s' rest (of_status next) Q)
      → Ends s (Action.◌>>◌ (Action.reads (λ s. of_status st)) rest) (of_status (st >> next)) Q
  checked (ok u) next rest p weaken k = ends-seq (ends-reads _ refl p) k
  checked (err c) next rest p weaken k = ends-seq_failed _ (ends-reads _ refl (weaken _ p))

module _ (bytes : List ℕ) (a : ℕ) (writer : LogWriter) (reader : LogReader) where
  validate_records-Rest :
      (rounds offset previous : ℕ) (rs : List LogRecord) (m : LogManager)
      → length rs < rounds
      → All IsWord rs
      → Rest bytes offset rs
      → Held bytes a writer reader m
      → Ends m
          (validate_records rounds offset previous)
          (of_status (check_records previous rs))
          (Held bytes a writer reader)
  unfolding validate_records
  validate_records-Rest zero offset previous rs m enough words rest h = absurd (omega arith)
  validate_records-Rest (suc rounds) offset previous [] m enough words rest h =
      ends-bind {P = Held bytes a writer reader} _ (ends-gets _ (log_size-Held m h) h) (λ m1 h1.
        ends-branch_false _ _ _ (ground (arith, at_end bytes offset rest)) (ends-pure tt h1))
  validate_records-Rest (suc rounds) offset previous (r ∷ rs) m enough words rest h =
      ends-bind {P = Held bytes a writer reader} _ (ends-gets _ (log_size-Held m h) h) (λ m1 h1.
        ends-branch_true _ _ _ (ground (arith, more_ahead bytes offset r rs rest)) (
          ends-bind _ (on_log-Held _ m1 h1 (read_first bytes offset r rs rest words.0 a)) (λ m2 h2.
            checked (validate_record r) _ _ h2 (λ s p. p)
              (λ m3 h3.
                checked (validate_lsn_ordering previous r.lsn) _ _ h3 (λ s p. p)
                  (λ m4 h4.
                    validate_records-Rest rounds (offset + length (entry r)) r.lsn rs m4
                      (omega arith) words.1 (moved_past bytes offset r rs rest) h4)))))

abbrev pub lsns : List LogRecord → List ℕ
lsns = map (λ r. r.lsn)

check_records_iff :
    (previous : ℕ) (rs : List LogRecord)
    → (check_records previous rs ≡ success)
      ↔ (All IsValid rs × (validate_chain previous (lsns rs) ≡ success))
check_records_iff previous [] = (λ h. (tt, refl), λ h. refl)
check_records_iff previous (r ∷ rs) = (
  λ h.
      let (one, others) = both_ok (validate_record r) _ h in
      let (up, rest) = both_ok (validate_lsn_ordering previous r.lsn) _ others in
      let (valid, chain) = (check_records_iff r.lsn rs).0 rest in
      ((validate_record-IsValid r one, valid), rw up chain),
  λ h.
      let (up, chain) = both_ok (validate_lsn_ordering previous r.lsn) _ h.1 in
      rw (IsValid-validate_record r h.0.0, up) ((check_records_iff r.lsn rs).1 (h.0.1, chain)),
)

returned_iff : (st : Status) → (of_status st ≡ returned tt) ↔ (st ≡ success)
returned_iff (ok u) = (λ h. refl, λ h. refl)
returned_iff (err c) = (λ h. cc, λ h. cc)

validate-Held :
    (rs : List LogRecord) (a : ℕ) (writer : LogWriter) (reader : LogReader) (m : LogManager)
    → All IsWord rs
    → Held (wal_header ++ entries rs) a writer reader m
    → Ends m validate
        (of_status (check_records invalid_lsn rs))
        (Held (wal_header ++ entries rs) a writer reader)
unfolding validate
validate-Held rs a writer reader m words h =
    let bytes = wal_header ++ entries rs in
    ends-seq (ready-Held m h) (λ m1 h1.
      ends-seq (on_log-Held _ m1 h1 (validate-IsLog (entries rs) a)) (λ m2 h2.
        ends-bind {P = Held bytes a writer reader} _ (ends-gets _ (log_size-Held m2 h2) h2)
          (λ m3 h3.
            validate_records-Rest bytes a writer reader (suc (length bytes)) header_size invalid_lsn
              rs m3 (omega (arith, length-le-entries rs, length-append wal_header (entries rs)))
              words (all_ahead rs) h3)))

-- On a log file that has its header and then well-formed records of any number, `validate` succeeds exactly
-- when each record has a type from 1 to 9, a sequence number and a time that are not 0, and the sequence
-- numbers ascend strictly.
pub validate_iff :
    (rs : List LogRecord) (a : ℕ) (writer : LogWriter) (reader : LogReader) (m : LogManager)
    → All IsWord rs
    → Held (wal_header ++ entries rs) a writer reader m
    → ((validate m).0 ≡ returned tt) ↔ (All IsValid rs × Ascends 0 (lsns rs))
validate_iff rs a writer reader m words h =
    let e = (validate-Held rs a writer reader m words h).outcome in
    let status = returned_iff (check_records invalid_lsn rs) in
    let tests = check_records_iff invalid_lsn rs in
    let chain = validate_chain-Ascends invalid_lsn (lsns rs) in
    (
      λ v. let both = tests.0 (status.0 (sym e ∙ v)) in (both.0, chain.0 both.1),
      λ v. e ∙ status.1 (tests.1 (v.0, chain.1 v.1)),
    )
