-- ===== src/Recovery/Replay.antt =====
-- recovery/LogReplayer.cpp, RecoveryManager.cpp, RecoveryValidator.cpp and RecoveryTypes.h. While a tree is
-- recovered it has no sink in the log.
pub mod Lost
pub mod Report
pub mod Order
use quartz_database_c.Prelude.{
  ℕ, zero, suc, ◌+◌, Bool, true, false, not, ◌&&◌, List, [], leb, ◌==◌, if◌then◌else◌,
}
use quartz_database_c.Status.{Status, Result, ok, err, corruption, success, Code}
use quartz_database_c.Outcome.{Outcome, returned, failed, endless, of_status}
use quartz_database_c.Outcome.Action.{
  Action, ◌>>=◌, ◌>>◌, pure, reads, gets, modify, perform, fail, fail_if, branch, attempt, within,
}
use quartz_database_c.Serialization.Reader.{open_reader}
use quartz_database_c.Format
use quartz_database_c.Format.{PageReference}
use quartz_database_c.Space.Policy.{first_fit_policy}
use quartz_database_c.Space.Manager as SpaceManager
use quartz_database_c.Btree.Key
use quartz_database_c.Btree.Key.{Key}
use quartz_database_c.Btree.Tree
use quartz_database_c.Btree.Tree.{BTree, clear}
use quartz_database_c.Btree.Tree.Search.{find, contains}
use quartz_database_c.Btree.Tree.Update.{insert, erase}
use quartz_database_c.Btree.Validator
use quartz_database_c.Wal.Record.{LogRecord, invalid_lsn, validate_record}
use quartz_database_c.Wal.Log.{LogManager, log_size}
use quartz_database_c.Wal.Manager
use quartz_database_c.Recovery.Checkpoint
use quartz_database_c.Recovery.Checkpoint.{Found}
use quartz_database_c.Recovery.Payload.{CheckpointPayload, checkpoint_marker}

pub record RecoveryResult : Type 0 where
  pub recovered_from_checkpoint : Bool
  pub checkpoint_lsn : ℕ
  pub last_replayed_lsn : ℕ
  pub records_replayed : ℕ
  pub records_skipped : ℕ

abbrev pub no_result : RecoveryResult
no_result = record {
  recovered_from_checkpoint = false;
  checkpoint_lsn = 0;
  last_replayed_lsn = 0;
  records_replayed = 0;
  records_skipped = 0;
}

-- The arguments that the calls change.
pub record Recovery : Type 0 where
  pub wal : LogManager
  pub tree : BTree
  pub result : RecoveryResult

unfoldable pub on_wal : {A : Type 0} → Action LogManager A → Action Recovery A
on_wal = within (λ s. s.wal) (λ wal s. record s { wal = wal })

unfoldable pub on_tree : {A : Type 0} → Action BTree A → Action Recovery A
on_tree = within (λ s. s.tree) (λ tree s. record s { tree = tree })

unfoldable pub set_result : (RecoveryResult → RecoveryResult) → Recovery → Recovery
set_result f s = record s { result = f s.result }

-- The payload of an insertion.
unfoldable pub key_and_reference : LogRecord → Outcome (Key × PageReference)
key_and_reference r = elim (Key.deserialize 0 (open_reader r.payload)) [
  | err c ↦ failed c
  | ok k ↦ elim (Format.read k.1) [ err c ↦ failed c | ok p ↦ returned (k.0, p.0) ]
]

unfoldable pub key_of : LogRecord → Outcome Key
key_of r = elim (Key.deserialize 0 (open_reader r.payload)) [
  | err c ↦ failed c
  | ok k ↦ returned k.0
]

-- A key that is in the tree with another reference is erased first.
unfoldable pub apply_update : Key × PageReference → Action BTree (Unit {0})
apply_update (key, ref) = do
  there ← reads (λ t. contains t key)
  branch there
      (do
        existing ← reads (λ t. find t key)
        branch (Format.equals existing ref) (pure tt) (do erase key; insert key ref))
      (insert key ref)

unfoldable pub apply_delete : Key → Action BTree (Unit {0})
apply_delete key = do there ← reads (λ t. contains t key); branch there (erase key) (pure tt)

-- The tags 2 and 3 are `PageUpdate` and `PageDelete`; of the others those from 1 to 9 change nothing.
unfoldable pub apply_record : LogRecord → Action BTree (Unit {0})
apply_record r =
    if r.tag == 2
    then (do entry ← reads (λ t. key_and_reference r); apply_update entry)
    else if r.tag == 3
    then (do key ← reads (λ t. key_of r); apply_delete key)
    else if leb 1 r.tag && leb r.tag 9
    then pure tt
    else fail corruption

unfoldable pub skip_record : Recovery → Recovery
skip_record = set_result (λ x. record x { records_skipped = x.records_skipped + 1 })

unfoldable pub count_replayed : ℕ → Recovery → Recovery
count_replayed lsn =
    set_result
      (λ x. record x { last_replayed_lsn = lsn; records_replayed = x.records_replayed + 1 })

-- What a round of `replay` does with what has been read.
unfoldable pub replay_record :
    Action Recovery (Unit {0}) → ℕ → Result LogRecord → Action Recovery (Unit {0})
replay_record rest after (err c) = pure tt
replay_record rest after (ok r) = do
  reads (λ s. of_status (validate_record r))
  branch (leb r.lsn after) (do modify skip_record; rest)
      (branch (r.tag == checkpoint_marker) (do modify skip_record; rest)
        (do on_tree (apply_record r); modify (count_replayed r.lsn); rest))

-- The loop of `replay`, a round for each record.
unfoldable pub replay_rounds : ℕ → ℕ → Action Recovery (Unit {0})
replay_rounds zero after = reads (λ s. endless)
replay_rounds (suc rounds) after = do
  next ← attempt (on_wal Manager.read_next)
  replay_record (replay_rounds rounds after) after next

unfoldable pub replay : ℕ → Action Recovery (Unit {0})
replay after = do
  modify (set_result (λ x. no_result))
  on_wal Manager.rewind_reader
  rounds ← gets (λ s. log_size s.wal)
  replay_rounds (suc rounds) after

-- `RecoveryValidator::validate`.
unfoldable pub validate : Action Recovery (Unit {0})
validate = do on_wal Manager.validate; reads (λ s. Validator.validate s.tree)

-- The tree to which the log is applied, that of the last checkpoint or an empty one, and the number after
-- which. Where the search has failed, that is still the number of the checkpoint before it, if there is one.
unfoldable pub start_from : Result Found → Action Recovery ℕ
start_from (err c) = do on_tree (modify clear); pure invalid_lsn
start_from (ok ((payload, lsn), err c)) = do on_tree (modify clear); pure lsn
start_from (ok ((payload, lsn), ok u)) = do
  on_tree (Checkpoint.restore_tree payload)
  modify (set_result (λ x. record x { recovered_from_checkpoint = true; checkpoint_lsn = lsn }))
  pure lsn

unfoldable pub recover : Action Recovery (Unit {0})
recover = do
  modify (set_result (λ x. no_result))
  found ← attempt (on_wal Checkpoint.find_last_checkpoint)
  checkpoint_lsn ← start_from found
  replay checkpoint_lsn
  on_wal Manager.restore_writer_state
  on_wal Manager.rewind_reader
  validate

-- `RecoveryManager::checkpoint`.
pub checkpoint : ℕ → Bool → Action Recovery ℕ
checkpoint now truncate_wal = do
  t ← gets (λ s. s.tree)
  lsn ← on_wal (Checkpoint.create_checkpoint now t)
  branch truncate_wal
      (do
        on_wal (Checkpoint.truncate_after_checkpoint lsn)
        on_wal Manager.restore_writer_state
        on_wal Manager.rewind_reader
        pure lsn)
      (pure lsn)

-- Without a checkpoint the new tree is left as it is.
unfoldable pub scratch_start : Result Found → Action Recovery ℕ
scratch_start (err c) = pure invalid_lsn
scratch_start (ok ((payload, lsn), err c)) = pure lsn
scratch_start (ok ((payload, lsn), ok u)) = do on_tree (Checkpoint.restore_tree payload); pure lsn

-- The body of `verifyLogicalConsistency` on the new tree.
unfoldable pub compare_replayed : BTree → Action Recovery (Unit {0})
compare_replayed t = do
  found ← attempt (on_wal Checkpoint.find_last_checkpoint)
  checkpoint_lsn ← scratch_start found
  replay checkpoint_lsn
  size ← gets (λ s. s.tree.size)
  fail_if (not (size == t.size)) corruption
  reads (λ s. Validator.validate s.tree)
  on_wal Manager.rewind_reader

-- `verifyLogicalConsistency`: the log is replayed into a new tree, whose size is compared.
pub verify_logical_consistency : BTree → Action LogManager (Unit {0})
verify_logical_consistency t m =
    let scratch : Recovery = record {
      wal = m;
      tree = Tree.create (SpaceManager.create first_fit_policy) t.config;
      result = no_result;
    } in
    let (o, s) = compare_replayed t scratch in (o, s.wal)
