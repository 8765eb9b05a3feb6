-- ===== src/Wal/LogFile/Stuck.antt =====
-- The calls of LogFile.cpp on a file whose stream has failed.
use quartz_database_c.Prelude.{ℕ, ◌≡◌, true, false, not, List, [], ◌∷◌, refl}
use quartz_database_c.Status.{io_error}
use quartz_database_c.Outcome.{failed, returned}
use quartz_database_c.Outcome.Action
use quartz_database_c.Outcome.Action.{Action, ◌>>◌, pure, perform}
use quartz_database_c.Outcome.Action.Ending.{
  Ends, ends-bind, ends-bind_failed, ends-seq, ends-seq_failed, ends-gets, ends-fail_if_false,
  ends-perform, ends-within,
}
use quartz_database_c.Storage.DatabaseFile
use quartz_database_c.Storage.DatabaseFile.{DatabaseFile, seek}
use quartz_database_c.Wal.LogFile.{
  LogFile, is_open, refuse_closed, read_record, read_bytes, append, flush, on_file,
}

-- The file is there and open, and its stream has failed.
pub record HasFailed (l : LogFile) : Type 0 where
  pub attached : l.attached ≡ true
  pub is_open : l.file.is_open ≡ true
  pub broken : l.file.failed ≡ true

-- The calls that use the file at the log's offsets.
pub data LogCall : Type 0 where
  reads_record : ℕ → LogCall
  appends : List ℕ → LogCall
  flushes : LogCall

pub call : LogCall → Action LogFile (Unit {0})
call (reads_record offset) = read_record offset >> pure tt
call (appends bytes) = append bytes
call flushes = flush

pub after_calls : List LogCall → LogFile → LogFile
after_calls [] l = l
after_calls (c ∷ cs) l = after_calls cs (call c l).1

-- After any of these calls, each of them fails with `ioError`.
abbrev pub NoCallWorks : LogFile → Type 0
NoCallWorks l = (cs : List LogCall) (c : LogCall) → (call c (after_calls cs l)).0 ≡ failed io_error

refuse_closed-HasFailed : (l : LogFile) → HasFailed l → Ends l refuse_closed (returned tt) HasFailed
unfolding refuse_closed is_open Action.fail_if
refuse_closed-HasFailed l h =
    let opened : not (is_open l) ≡ false = rw (h.attached, h.is_open) refl in
    record { outcome = rw opened refl; after = rw opened h }

seek-HasFailed :
    (offset : ℕ) (l : LogFile)
    → HasFailed l
    → Ends l (on_file (perform (seek offset))) (failed io_error) HasFailed
unfolding on_file seek
seek-HasFailed offset l h =
    ends-within {P = λ f. (f.is_open ≡ true) × (f.failed ≡ true)} (λ l. l.file)
      (λ file l. record l { file = file })
      (ends-perform (seek offset) (rw (h.is_open, h.broken) refl)
        (rw (h.is_open, h.broken) (refl, refl)))
      (λ f (opened, broken). record { attached = h.attached; is_open = opened; broken = broken })

read_bytes-HasFailed :
    (offset : ℕ) (dest : List ℕ) (l : LogFile)
    → HasFailed l
    → Ends l (read_bytes offset dest) (failed io_error) HasFailed
unfolding read_bytes
read_bytes-HasFailed offset dest l h =
    ends-seq (refuse_closed-HasFailed l h)
      (λ l1 h1. ends-seq_failed _ (seek-HasFailed offset l1 h1))

call-HasFailed :
    (c : LogCall) (l : LogFile) → HasFailed l → Ends l (call c) (failed io_error) HasFailed
unfolding call read_record append flush on_file DatabaseFile.flush
call-HasFailed (reads_record offset) l h = ends-seq_failed _ (
    ends-seq (refuse_closed-HasFailed l h)
      (λ l1 h1. ends-bind_failed _ (read_bytes-HasFailed offset _ l1 h1)))
call-HasFailed (appends bytes) l h = ends-seq (refuse_closed-HasFailed l h) (λ l1 h1.
    ends-bind {P = HasFailed} _ (ends-gets _ refl h1)
      (λ l2 h2. ends-seq_failed _ (seek-HasFailed _ l2 h2)))
call-HasFailed flushes l h = ends-bind {P = HasFailed} _ (ends-gets _ h.attached h) (λ l1 h1.
    ends-seq {P = HasFailed} (ends-fail_if_false _ _ refl h1) (λ l2 h2.
      ends-within {P = λ f. (f.is_open ≡ true) × (f.failed ≡ true)} (λ l. l.file)
        (λ file l. record l { file = file })
        (ends-perform DatabaseFile.flush (rw (h2.is_open, h2.broken) refl)
          (rw (h2.is_open, h2.broken) (refl, refl)))
        (λ f (opened, broken). record {
          attached = h2.attached;
          is_open = opened;
          broken = broken;
        })))

all_calls_fail :
    (cs : List LogCall) (c : LogCall) (l : LogFile)
    → HasFailed l
    → (call c (after_calls cs l)).0 ≡ failed io_error
unfolding after_calls
all_calls_fail [] c l h = (call-HasFailed c l h).outcome
all_calls_fail (d ∷ cs) c l h = all_calls_fail cs c (call d l).1 (call-HasFailed d l h).after

pub failed-NoCallWorks : (l : LogFile) → HasFailed l → NoCallWorks l
failed-NoCallWorks l h cs c = all_calls_fail cs c l h
