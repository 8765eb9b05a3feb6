-- ===== src/Recovery/Replay/Report.antt =====
-- What `recover` of RecoveryManager.cpp reports.
use quartz_database_c.Prelude.{ℕ, zero, suc, ◌≡◌, ◌⊎◌, inl, inr, true, false, refl}
use quartz_database_c.Status.{Result, ok, err}
use quartz_database_c.Outcome.{Outcome, returned, failed, thrown, endless}
use quartz_database_c.Outcome.Action.{
  Action, resume, ◌>>=◌, ◌>>◌, pure, gets, modify, within, attempt,
}
use quartz_database_c.Outcome.Action.Invariant.{
  Keeps, Any, every_outcome, bind, seq, pure-Keeps, reads_only, gets-Keeps, modify-Keeps,
  branch-Keeps,
}
use quartz_database_c.Btree.Tree.{BTree}
use quartz_database_c.Wal.Record.{LogRecord}
use quartz_database_c.Wal.Log.{LogManager, log_size}
use quartz_database_c.Wal.Manager
use quartz_database_c.Recovery.Checkpoint
use quartz_database_c.Recovery.Checkpoint.{Found}
use quartz_database_c.Recovery.Payload.{CheckpointPayload}
use quartz_database_c.Recovery.Replay.{
  Recovery, no_result, on_wal, on_tree, set_result, apply_record, replay_record, replay_rounds,
  replay, skip_record, count_replayed, start_from, validate, recover,
}

-- No checkpoint is reported.
abbrev Silent : Recovery → Type 0
Silent s = s.result.recovered_from_checkpoint ≡ false

on_wal-Silent : {A : Type 0} (act : Action LogManager A) → Keeps Silent Any (on_wal act)
unfolding on_wal within
on_wal-Silent act = record { holds = λ s p. (p, every_outcome (act s.wal).0) }

on_tree-Silent : {A : Type 0} (act : Action BTree A) → Keeps Silent Any (on_tree act)
unfolding on_tree within
on_tree-Silent act = record { holds = λ s p. (p, every_outcome (act s.tree).0) }

attempt-Silent :
    {A : Type 0} (act : Action Recovery A) → Keeps Silent Any act → Keeps Silent Any (attempt act)
unfolding attempt
attempt-Silent act h = record { holds = λ s p. ((h.holds s p).0, every_outcome (attempt act s).0) }

skip-Silent : Keeps Silent Any (modify skip_record)
unfolding skip_record set_result
skip-Silent = modify-Keeps skip_record (λ s p. p)

count-Silent : (lsn : ℕ) → Keeps Silent Any (modify (count_replayed lsn))
unfolding count_replayed set_result
count-Silent lsn = modify-Keeps (count_replayed lsn) (λ s p. p)

replay_record-Silent :
    (rest : Action Recovery (Unit {0})) (after : ℕ) (next : Result LogRecord)
    → Keeps Silent Any rest
    → Keeps Silent Any (replay_record rest after next)
unfolding replay_record
replay_record-Silent rest after (err c) k = pure-Keeps tt tt
replay_record-Silent rest after (ok r) k = seq (reads_only _) (
    branch-Keeps _ (seq skip-Silent k) (
      branch-Keeps _ (seq skip-Silent k)
        (seq (on_tree-Silent (apply_record r)) (seq (count-Silent r.lsn) k))))

replay_rounds-Silent : (after rounds : ℕ) → Keeps Silent Any (replay_rounds rounds after)
unfolding replay_rounds
replay_rounds-Silent after zero = reads_only _
replay_rounds-Silent after (suc rounds) =
    bind (attempt-Silent _ (on_wal-Silent Manager.read_next))
      (λ next any. replay_record-Silent _ after next (replay_rounds-Silent after rounds))

-- The reset at the start of `replay` is there however it ends.
replay_resets : (after : ℕ) (s : Recovery) → Silent (replay after s).1
unfolding replay ◌>>◌ resume modify set_result
replay_resets after s =
    let keeps : Keeps Silent Any (
        on_wal Manager.rewind_reader
        >> (gets (λ s. log_size s.wal) >>= λ rounds. replay_rounds (suc rounds) after)) =
      seq (on_wal-Silent _)
        (bind (gets-Keeps _) (λ rounds any. replay_rounds-Silent after (suc rounds))) in
    (keeps.holds (set_result (λ x. no_result) s) refl).0

-- A call that breaks the silence only when it returns, and a rest that ends in silence from any state.
module _ {A B : Type 0} (rest : A → Action Recovery B)
    (quiet : (a : A) (s : Recovery) → Silent (rest a s).1) where
  settled :
      (o : Outcome A) (s : Recovery)
      → ((a : A) × (o ≡ returned a)) ⊎ Silent s
      → Silent (resume rest o s).1
  unfolding resume
  settled (returned a) s h = quiet a s
  settled (failed c) s (inl (a, e)) = cc
  settled (failed c) s (inr p) = p
  settled thrown s (inl (a, e)) = cc
  settled thrown s (inr p) = p
  settled endless s (inl (a, e)) = cc
  settled endless s (inr p) = p

  bind_settled :
      (m : Action Recovery A) (s : Recovery)
      → ((a : A) × ((m s).0 ≡ returned a)) ⊎ Silent (m s).1
      → Silent ((m >>= rest) s).1
  unfolding ◌>>=◌
  bind_settled m s h = settled (m s).0 (m s).1 h

restored_quiet :
    (payload : CheckpointPayload) (lsn : ℕ) (o : Outcome (Unit {0})) (s : Recovery)
    → Silent s
    → let rest =
        modify
          (set_result (λ x. record x { recovered_from_checkpoint = true; checkpoint_lsn = lsn }))
        >> pure lsn in
      ((a : ℕ) × ((resume (λ u. rest) o s).0 ≡ returned a)) ⊎ Silent (resume (λ u. rest) o s).1
unfolding resume modify pure ◌>>◌
restored_quiet payload lsn (returned u) s p = inl (lsn, refl)
restored_quiet payload lsn (failed c) s p = inr p
restored_quiet payload lsn thrown s p = inr p
restored_quiet payload lsn endless s p = inr p

-- `start_from` reports a checkpoint only if it returns.
start_from-quiet :
    (found : Result Found) (s : Recovery)
    → Silent s
    → ((a : ℕ) × ((start_from found s).0 ≡ returned a)) ⊎ Silent (start_from found s).1
unfolding start_from on_tree within modify pure ◌>>◌ resume
start_from-quiet (err c) s p = inr p
start_from-quiet (ok ((payload, lsn), err c)) s p = inr p
start_from-quiet (ok ((payload, lsn), ok u)) s p =
    restored_quiet payload lsn (Checkpoint.restore_tree payload s.tree).0
      (record s { tree = (Checkpoint.restore_tree payload s.tree).1 }) p

carried_on :
    {A B : Type 0} (rest : Action Recovery B) (o : Outcome A) (s : Recovery)
    → Keeps Silent Any rest
    → Silent s
    → Silent (resume (λ a. rest) o s).1
unfolding resume
carried_on rest (returned a) s k p = (k.holds s p).0
carried_on rest (failed c) s k p = p
carried_on rest thrown s k p = p
carried_on rest endless s k p = p

validate-Silent : Keeps Silent Any validate
unfolding validate
validate-Silent = seq (on_wal-Silent _) (reads_only _)

-- The calls after the tree to start from is there.
rest_of_recover : ℕ → Action Recovery (Unit {0})
rest_of_recover lsn =
    replay lsn
    >> (on_wal Manager.restore_writer_state >> (on_wal Manager.rewind_reader >> validate))

rest_of_recover-quiet : (lsn : ℕ) (s : Recovery) → Silent (rest_of_recover lsn s).1
unfolding rest_of_recover ◌>>◌
rest_of_recover-quiet lsn s =
    carried_on _ (replay lsn s).0 (replay lsn s).1
      (seq (on_wal-Silent _) (seq (on_wal-Silent _) validate-Silent)) (replay_resets lsn s)

from_start-Silent : (found : Result Found) → Keeps Silent Any (start_from found >>= rest_of_recover)
from_start-Silent found = record {
  holds = λ s p. (
    bind_settled rest_of_recover rest_of_recover-quiet (start_from found) s
        (start_from-quiet found s p),
    every_outcome _,
  );
}

-- However it ends, `recover` reports that there was no checkpoint: `replay` sets the result back to its first
-- value, also where the tree has just been restored from a checkpoint.
pub recover_reports_none : (s : Recovery) → (recover s).1.result.recovered_from_checkpoint ≡ false
unfolding recover ◌>>◌ modify resume set_result rest_of_recover
recover_reports_none s =
    let search = attempt-Silent _ (on_wal-Silent Checkpoint.find_last_checkpoint) in
    let all : Keeps Silent Any (
        attempt (on_wal Checkpoint.find_last_checkpoint) >>= λ found.
        start_from found >>= rest_of_recover) =
      bind search (λ found any. from_start-Silent found) in
    (all.holds (set_result (λ x. no_result) s) refl).0
