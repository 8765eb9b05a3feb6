-- ===== src/Recovery/Replay/Lost.antt =====
-- What RecoveryManager.cpp makes of a log whose records were flushed one at a time.
use quartz_database_c.Prelude.{ℕ, ◌≡◌, false, List, ◌∷◌, ◌++◌, arith, refl, ap, All}
use quartz_database_c.Status.{ok, err, corruption, invalid_argument}
use quartz_database_c.Outcome.{Outcome, returned, failed}
use quartz_database_c.Outcome.Action.{Action}
use quartz_database_c.Outcome.Action.Ending.{
  Ends, ends-bind, ends-seq, ends-seq_failed, ends-gets, ends-reads, ends-pure, ends-modify,
  ends-branch_true, ends-branch_false, ends-attempt_returned, ends-attempt_failed, ends-within,
}
use quartz_database_c.Btree.Tree.{BTree, clear}
use quartz_database_c.Wal.Record.{invalid_lsn}
use quartz_database_c.Wal.LogFile.{header_size}
use quartz_database_c.Wal.LogFile.Entries.{wal_header, length-wal_header, validate-IsLog}
use quartz_database_c.Wal.LogFile.Frames.{IsSize, frames, FrameRest, frame_ahead, read_frame}
use quartz_database_c.Wal.Log.{LogManager, LogWriter, LogReader, new_reader, set_reader}
use quartz_database_c.Wal.Log.Held.{Held, on_log-Held, log_size-Held}
use quartz_database_c.Wal.Reader
use quartz_database_c.Wal.Writer.Lost.{blank_refused, restore_from_file-frames}
use quartz_database_c.Wal.Manager
use quartz_database_c.Wal.Manager.Chain.{ready-Held}
use quartz_database_c.Recovery.Checkpoint
use quartz_database_c.Recovery.Checkpoint.{Found}
use quartz_database_c.Recovery.Payload.{no_payload}
use quartz_database_c.Recovery.Replay.{
  Recovery, on_wal, on_tree, set_result, replay_record, replay_rounds, replay, validate, start_from,
  recover,
}

module _ (n : ℕ) (ns : List ℕ) (sizes : All IsSize (n ∷ ns)) (a : ℕ) (writer : LogWriter) where
  abbrev bytes : List ℕ
  bytes = wal_header ++ frames (n ∷ ns)

  abbrev Log : LogManager → Type 0
  Log = Held bytes a writer new_reader

  first : FrameRest bytes header_size (n ∷ ns)
  first = record { before = wal_header; split = refl; at = length-wal_header }

  not_at_end : (m : LogManager) → Log m → Reader.end_of_log m ≡ false
  unfolding Reader.end_of_log
  not_at_end m h =
      rw (log_size-Held m h, h.reader) (ground (arith, frame_ahead bytes header_size n ns first))

  read_next-Log : (m : LogManager) → Log m → Ends m Manager.read_next (failed corruption) Log
  unfolding Manager.read_next Reader.read_next Reader.accept
  read_next-Log m h = ends-seq (ready-Held m h) (λ m1 h1.
      ends-bind {P = Log} _ (ends-gets _ (not_at_end m1 h1) h1) (λ m2 h2.
        ends-branch_false _ _ _ refl (
          ends-bind {P = Log} _ (ends-gets _ (ap (λ r. r.offset) h2.reader) h2) (λ m3 h3.
            ends-bind _
              (ends-attempt_returned
                (on_log-Held _ m3 h3 (read_frame bytes header_size n ns first sizes.0 a)))
              (λ m4 h4. ends-seq_failed _ (ends-reads _ (rw blank_refused refl) h4))))))

  rewind-Log :
      (reader : LogReader) (m : LogManager)
      → Held bytes a writer reader m
      → Ends m Manager.rewind_reader (returned tt) Log
  unfolding Manager.rewind_reader Reader.rewind set_reader
  rewind-Log reader m h = ends-seq (ready-Held m h) (λ m1 h1.
      ends-modify _
        (record { log = h1.log; initialized = h1.initialized; writer = h1.writer; reader = refl }))

  abbrev nothing_found : Found
  nothing_found = ((no_payload, invalid_lsn), err invalid_argument)

  no_checkpoint :
      (reader : LogReader) (m : LogManager)
      → Held bytes a writer reader m
      → Ends m Checkpoint.find_last_checkpoint (returned nothing_found) Log
  unfolding Checkpoint.find_last_checkpoint Checkpoint.last_checkpoint Checkpoint.look_at
      Checkpoint.the_found
  no_checkpoint reader m h = ends-seq (rewind-Log reader m h) (λ m1 h1.
      ends-bind {P = Log} _ (ends-gets _ (log_size-Held m1 h1) h1) (λ m2 h2.
        ends-bind _ (ends-attempt_failed (read_next-Log m2 h2)) (λ m3 h3. ends-pure _ h3)))

  validate-Log : (m : LogManager) → Log m → Ends m Manager.validate (failed corruption) Log
  unfolding Manager.validate Manager.validate_records
  validate-Log m h = ends-seq (ready-Held m h) (λ m1 h1.
      ends-seq (on_log-Held _ m1 h1 (validate-IsLog (frames (n ∷ ns)) a)) (λ m2 h2.
        ends-bind {P = Log} _ (ends-gets _ (log_size-Held m2 h2) h2) (λ m3 h3.
          ends-bind {P = Log} _ (ends-gets _ (log_size-Held m3 h3) h3) (λ m4 h4.
            ends-branch_true _ _ _ (ground (arith, frame_ahead bytes header_size n ns first)) (
              ends-bind _ (on_log-Held _ m4 h4 (read_frame bytes header_size n ns first sizes.0 a))
                (λ m5 h5. ends-seq_failed _ (ends-reads _ (rw blank_refused refl) h5)))))))

  restore-Log : (m : LogManager) → Log m → Ends m Manager.restore_writer_state (returned tt) Log
  unfolding Manager.restore_writer_state
  restore-Log m h =
      ends-seq (ready-Held m h)
        (λ m1 h1. restore_from_file-frames bytes a writer new_reader (n ∷ ns) m1 sizes refl h1)

  module _ (t : BTree) where
    abbrev Here : Recovery → Type 0
    Here s = Log s.wal × (s.tree ≡ t)

    on_wal-Here :
        {A : Type 0} {o : Outcome A} (act : Action LogManager A) (s : Recovery)
        → Here s
        → ((m : LogManager) → Log m → Ends m act o Log)
        → Ends s (on_wal act) o Here
    unfolding on_wal
    on_wal-Here act s h k =
        ends-within (λ s. s.wal) (λ wal s. record s { wal = wal }) (k s.wal h.0)
          (λ wal log. (log, h.1))

    replay-Here : (after : ℕ) (s : Recovery) → Here s → Ends s (replay after) (returned tt) Here
    unfolding replay replay_rounds replay_record set_result
    replay-Here after s h = ends-seq {P = Here} (ends-modify _ h) (λ s1 h1.
        ends-seq (on_wal-Here _ s1 h1 (rewind-Log new_reader)) (λ s2 h2.
          ends-bind {P = Here} _ (ends-gets _ (log_size-Held s2.wal h2.0) h2) (λ s3 h3.
            ends-bind _ (ends-attempt_failed (on_wal-Here _ s3 h3 read_next-Log))
              (λ s4 h4. ends-pure tt h4))))

  cleared :
      (t : BTree) (s : Recovery)
      → Here t s
      → Ends s (start_from (ok nothing_found)) (returned invalid_lsn) (Here (clear t))
  unfolding start_from on_tree
  cleared t s h =
      ends-seq {P = Here (clear t)}
        (ends-within {P = λ t'. t' ≡ clear t} (λ s. s.tree) (λ tree s. record s { tree = tree })
          (ends-modify clear (ap clear h.1)) (λ t' e. (h.0, e)))
        (λ s1 h1. ends-pure invalid_lsn h1)

  validate-Here :
      (t : BTree) (s : Recovery) → Here t s → Ends s validate (failed corruption) (Here t)
  unfolding validate
  validate-Here t s h = ends-seq_failed _ (on_wal-Here t _ s h validate-Log)

  -- Recovery from a log to which at least one record has been written, each flushed by itself, fails with
  -- `corruption`, and the tree is the cleared one; the file is as it was.
  pub recover_clears_tree :
      (reader : LogReader) (s : Recovery)
      → Held bytes a writer reader s.wal
      → Ends s recover (failed corruption) (λ s'. Log s'.wal × (s'.tree ≡ clear s.tree))
  unfolding recover set_result on_wal
  recover_clears_tree reader s h =
      let t = clear s.tree in
      ends-seq {P = λ s'. Held bytes a writer reader s'.wal × (s'.tree ≡ s.tree)}
        (ends-modify _ (h, refl))
        (λ s1 h1.
          ends-bind {P = Here s.tree} _
            (ends-attempt_returned (
              ends-within (λ s. s.wal) (λ wal s. record s { wal = wal })
                (no_checkpoint reader s1.wal h1.0) (λ wal log. (log, h1.1))))
            (λ s2 h2. ends-bind _ (cleared s.tree s2 h2) (λ s3 h3.
              ends-seq (replay-Here t invalid_lsn s3 h3) (λ s4 h4.
                ends-seq (on_wal-Here t _ s4 h4 restore-Log) (λ s5 h5.
                  ends-seq (on_wal-Here t _ s5 h5 (rewind-Log new_reader))
                    (λ s6 h6. validate-Here t s6 h6))))))
