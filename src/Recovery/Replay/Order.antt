-- ===== src/Recovery/Replay/Order.antt =====
-- What LogReplayer.cpp does to the tree, on a log of well-formed records.
use quartz_database_c.Prelude.{
  ℕ, zero, suc, ◌+◌, ◌<◌, ◌≡◌, Bool, not, ◌&&◌, List, [], ◌∷◌, ◌++◌, length, leb, ◌==◌, arith, refl,
  sym, All, length-append, Bool-cases, inl, inr,
}
use quartz_database_c.Outcome.{Outcome, returned, failed, thrown, endless}
use quartz_database_c.Outcome.Action
use quartz_database_c.Outcome.Action.{Action, pure, ◌>>◌, branch, resume}
use quartz_database_c.Outcome.Action.Ending.{
  Ends, ends-bind, ends-seq, ends-gets, ends-reads, ends-pure, ends-modify, ends-attempt_returned,
  ends-attempt_failed, ends-within,
}
use quartz_database_c.Btree.Tree.{BTree}
use quartz_database_c.Wal.Record.{LogRecord}
use quartz_database_c.Wal.Record.Size.{Ascends}
use quartz_database_c.Wal.Record.Wire.{IsWord}
use quartz_database_c.Wal.Record.Valid.{IsValid, IsValid-validate_record}
use quartz_database_c.Wal.LogFile.{header_size}
use quartz_database_c.Wal.LogFile.Entry.{entry}
use quartz_database_c.Wal.LogFile.Entries.{
  Rest, wal_header, entries, all_ahead, moved_past, length-le-entries,
}
use quartz_database_c.Wal.Log.{LogManager, LogWriter, LogReader, new_reader, set_reader}
use quartz_database_c.Wal.Log.Held.{Held, log_size-Held}
use quartz_database_c.Wal.Reader
use quartz_database_c.Wal.Reader.Next.{at_offset, read_next-record, read_next-end}
use quartz_database_c.Wal.Manager
use quartz_database_c.Wal.Manager.Chain.{ready-Held, lsns}
use quartz_database_c.Recovery.Payload.{checkpoint_marker}
use quartz_database_c.Recovery.Replay.{
  Recovery, on_wal, on_tree, set_result, apply_record, replay_record, replay_rounds, replay,
  skip_record, count_replayed,
}

-- A record after the checkpoint, and not itself one.
abbrev pub is_due : ℕ → LogRecord → Bool
is_due after r = not (leb r.lsn after) && not (r.tag == checkpoint_marker)

-- The records that are due, one after another, until one cannot be applied.
abbrev pub apply_due : ℕ → List LogRecord → Action BTree (Unit {0})
apply_due after [] = pure tt
apply_due after (r ∷ rs) =
    branch (is_due after r) (apply_record r >> apply_due after rs) (apply_due after rs)

module _ (bytes : List ℕ) (a : ℕ) (writer : LogWriter) where
  -- The log is there with a reader, and this is the tree.
  abbrev Here : LogReader → BTree → Recovery → Type 0
  Here reader t s = Held bytes a writer reader s.wal × (s.tree ≡ t)

  -- A call in the recovery ends as one on the tree does, with that tree.
  abbrev EndsAs : Recovery → Action Recovery (Unit {0}) → Action BTree (Unit {0}) → BTree → Type 0
  EndsAs s m act t = Ends s m (act t).0 (λ s'. s'.tree ≡ (act t).1)

  resumed_as :
      (reader : LogReader) (rest : Action Recovery (Unit {0})) (next : Action BTree (Unit {0}))
      (o : Outcome (Unit {0})) (t : BTree) (s : Recovery)
      → Here reader t s
      → ((s' : Recovery) → Here reader t s' → EndsAs s' rest next t)
      → ((resume (λ u. rest) o s).0 ≡ (resume (λ u. next) o t).0)
        × ((resume (λ u. rest) o s).1.tree ≡ (resume (λ u. next) o t).1)
  unfolding resume
  resumed_as reader rest next (returned u) t s h k = let e = k s h in (e.outcome, e.after)
  resumed_as reader rest next (failed c) t s h k = (refl, h.1)
  resumed_as reader rest next thrown t s h k = (refl, h.1)
  resumed_as reader rest next endless t s h k = (refl, h.1)

  on_tree-seq :
      (reader : LogReader) (act next : Action BTree (Unit {0})) (rest : Action Recovery (Unit {0}))
      (t : BTree) (s : Recovery)
      → Here reader t s
      → ((s' : Recovery) → Here reader (act t).1 s' → EndsAs s' rest next (act t).1)
      → EndsAs s (on_tree act >> rest) (act >> next) t
  unfolding on_tree Action.within ◌>>◌
  on_tree-seq reader act next rest t s (log, e) k =
      let there = record s { tree = (act s.tree).1 } in
      let both =
        resumed_as reader rest next (act s.tree).0 (act s.tree).1 there (log, refl)
          (rw (sym e) at k) in
      rw (← e) (record { outcome = both.0; after = both.1 })

  read_as :
      {o : Outcome LogRecord} (reader reader' : LogReader) (t : BTree) (s : Recovery)
      → Here reader t s
      → ((m : LogManager)
          → Held bytes a writer reader m
          → Ends m Reader.read_next o (Held bytes a writer reader'))
      → Ends s (on_wal Manager.read_next) o (Here reader' t)
  unfolding on_wal Manager.read_next
  read_as reader reader' t s h k =
      ends-within (λ s. s.wal) (λ wal s. record s { wal = wal })
        (ends-seq (ready-Held s.wal h.0) (λ m1 h1. k m1 h1)) (λ wal log. (log, h.1))

  replay_as :
      (after rounds offset last : ℕ) (rs : List LogRecord) (t : BTree) (s : Recovery)
      → length rs < rounds
      → All IsWord rs
      → All IsValid rs
      → Ascends last (lsns rs)
      → Rest bytes offset rs
      → Here (at_offset offset last) t s
      → EndsAs s (replay_rounds rounds after) (apply_due after rs) t
  unfolding replay_rounds replay_record branch pure skip_record count_replayed set_result
  replay_as after zero offset last rs t s enough words valid up rest h = absurd (omega arith)
  replay_as after (suc rounds) offset last [] t s enough words valid up rest h =
      ends-bind _
        (ends-attempt_failed
          (read_as _ _ t s h (λ m log. read_next-end bytes a writer offset last m log rest)))
        (λ s1 h1. ends-pure tt h1.1)
  replay_as after (suc rounds) offset last (r ∷ rs) t s enough words valid up rest h =
      let reader = at_offset (offset + length (entry r)) r.lsn in
      let again = λ (t' : BTree) (s' : Recovery) (h' : Here reader t' s').
        replay_as after rounds (offset + length (entry r)) r.lsn rs t' s' (omega arith) words.1
          valid.1 up.1 (moved_past bytes offset r rs rest) h' in
      ends-bind _
        (ends-attempt_returned (
          read_as _ reader t s h (λ m log.
            read_next-record bytes a writer offset last r rs m log rest words.0 valid.0 up.0)))
        (λ s1 h1.
          ends-seq {P = Here reader t}
            (ends-reads _ (rw (IsValid-validate_record r valid.0) refl) h1)
            (λ s2 h2. elim (Bool-cases (leb r.lsn after)) [
              | inl old ↦ rw old (ends-seq {P = Here reader t} (ends-modify _ h2) (again t))
              | inr new ↦ elim (Bool-cases (r.tag == checkpoint_marker)) [
                | inl marker ↦
                    rw (new, marker) (ends-seq {P = Here reader t} (ends-modify _ h2) (again t))
                | inr due ↦
                    rw (new, due)
                      (on_tree-seq reader (apply_record r) (apply_due after rs) _ t s2 h2 (λ s3 h3.
                        ends-seq {P = Here reader (apply_record r t).1} (ends-modify _ h3)
                          (again (apply_record r t).1)))
              ]
            ]))

replayed :
    (rs : List LogRecord) (after a : ℕ) (writer : LogWriter) (reader : LogReader) (s : Recovery)
    → All IsWord rs
    → All IsValid rs
    → Ascends 0 (lsns rs)
    → Held (wal_header ++ entries rs) a writer reader s.wal
    → EndsAs (wal_header ++ entries rs) a writer s (replay after) (apply_due after rs) s.tree
unfolding replay set_result on_wal Manager.rewind_reader Reader.rewind set_reader
replayed rs after a writer reader s words valid up h =
    let bytes = wal_header ++ entries rs in
    let Start = Here bytes a writer new_reader s.tree in
    let enough : length rs < suc (length bytes) =
      omega (arith, length-le-entries rs, length-append wal_header (entries rs)) in
    ends-seq {P = Here bytes a writer reader s.tree} (ends-modify _ (h, refl)) (λ s1 h1.
      ends-seq {P = Start}
        (ends-within (λ s. s.wal) (λ wal s. record s { wal = wal })
          (ends-seq (ready-Held s1.wal h1.0) (λ m h2.
            ends-modify {P = Held bytes a writer new_reader} _ (record {
              log = h2.log;
              initialized = h2.initialized;
              writer = h2.writer;
              reader = refl;
            })))
          (λ wal log. (log, h1.1)))
        (λ s2 h2. ends-bind {P = Start} _ (ends-gets _ (log_size-Held s2.wal h2.0) h2) (λ s3 h3.
          replay_as bytes a writer after (suc (length bytes)) header_size 0 rs s.tree s3 enough
            words valid up (all_ahead rs) h3)))

-- On a log of well-formed records whose sequence numbers ascend, wherever its reader stands, `replay` after
-- some number ends as applying the records above the number does, in their order and without the
-- checkpoints: with the same outcome and the same tree, also where one of them cannot be applied.
pub replay_applies_due :
    (rs : List LogRecord) (after a : ℕ) (writer : LogWriter) (reader : LogReader) (s : Recovery)
    → All IsWord rs
    → All IsValid rs
    → Ascends 0 (lsns rs)
    → Held (wal_header ++ entries rs) a writer reader s.wal
    → ((replay after s).0 ≡ (apply_due after rs s.tree).0)
      × ((replay after s).1.tree ≡ (apply_due after rs s.tree).1)
replay_applies_due rs after a writer reader s words valid up h =
    let e = replayed rs after a writer reader s words valid up h in (e.outcome, e.after)
