-- ===== src/Recovery/Tests.antt =====
-- Runs of recovery/RecoveryManager.cpp and LogReplayer.cpp.
use quartz_database_c.Prelude.{ℕ, ◌≡◌, false, List, [], ◌∷◌, ◌++◌, length, All, arith}
use quartz_database_c.Status.{corruption}
use quartz_database_c.Outcome.{failed}
use quartz_database_c.Outcome.Action.Ending.{Ends}
use quartz_database_c.Space.Policy.{first_fit_policy}
use quartz_database_c.Space.Manager
use quartz_database_c.Btree.Key.{u32_key}
use quartz_database_c.Btree.Tree
use quartz_database_c.Btree.Tree.{BTree}
use quartz_database_c.Wal.LogFile.Entries.{wal_header, entries}
use quartz_database_c.Wal.LogFile.Frames.{IsSize, frames}
use quartz_database_c.Wal.Log.{new_writer, new_reader}
use quartz_database_c.Wal.Log.Held.{Held}
use quartz_database_c.Wal.Tests.Logs.{
  two_records, a_manager, a_manager-Held, two_records-IsWord, two_records-IsValid,
  two_records-Ascends,
}
use quartz_database_c.Recovery.Replay.{Recovery, no_result, replay, recover}
use quartz_database_c.Recovery.Replay.Order.{apply_due, replay_applies_due}
use quartz_database_c.Recovery.Replay.Lost.{recover_clears_tree}
use quartz_database_c.Recovery.Replay.Report.{recover_reports_none}

abbrev a_tree : BTree
a_tree =
    Tree.create (Manager.create first_fit_policy)
      (record { key_type = u32_key; binary_key_size = 0; allow_duplicates = false; level = 0 })

abbrev recovery_of : List ℕ → Recovery
recovery_of bytes = record { wal = a_manager bytes; tree = a_tree; result = no_result }

abbrev full_log : List ℕ
full_log = wal_header ++ entries two_records

abbrev zero_log : List ℕ
zero_log = wal_header ++ frames (50 ∷ 45 ∷ [])

replay_applies_due_example :
    ((replay 0 (recovery_of full_log)).0 ≡ (apply_due 0 two_records a_tree).0)
    × ((replay 0 (recovery_of full_log)).1.tree ≡ (apply_due 0 two_records a_tree).1)
replay_applies_due_example =
    replay_applies_due two_records 0 (length full_log) (new_writer 0x1_0000) new_reader
      (recovery_of full_log) two_records-IsWord two_records-IsValid two_records-Ascends
      (a_manager-Held full_log)

abbrev zero_log-IsSize : All IsSize (50 ∷ 45 ∷ [])
zero_log-IsSize = ((omega arith, omega arith), ((omega arith, omega arith), tt))

recover_clears_tree_example : Ends (recovery_of zero_log) recover (failed corruption) (λ s.
    Held zero_log (length zero_log) (new_writer 0x1_0000) new_reader s.wal
    × (s.tree ≡ Tree.clear a_tree))
recover_clears_tree_example =
    recover_clears_tree 50 (45 ∷ []) zero_log-IsSize (length zero_log) (new_writer 0x1_0000)
      new_reader (recovery_of zero_log) (a_manager-Held zero_log)

recover_reports_none_example :
    (recover (recovery_of full_log)).1.result.recovered_from_checkpoint ≡ false
recover_reports_none_example = recover_reports_none (recovery_of full_log)
