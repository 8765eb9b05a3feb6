-- ===== src/Wal/Tests/Files.antt =====
-- Runs of wal/LogFile.cpp, LogWriter.cpp and LogManager.cpp.
use quartz_database_c.Prelude.{
  ℕ, ◌+◌, ◌<◌, ◌≤◌, ◌≡◌, ◌↔◌, ◌^◌, refl, List, [], ◌∷◌, ◌++◌, length, replicate, All, arith,
}
use quartz_database_c.Outcome.{returned}
use quartz_database_c.Outcome.Action
use quartz_database_c.Outcome.Action.Ending.{Ends}
use quartz_database_c.Outcome.Action.Invariant.{Keeps, Any}
use quartz_database_c.Serialization.Writer.{le_bytes}
use quartz_database_c.Wal.Record.{wire_size}
use quartz_database_c.Wal.Record.Size.{Ascends}
use quartz_database_c.Wal.Record.Valid.{IsValid}
use quartz_database_c.Wal.Record.Wire.{wire_head}
use quartz_database_c.Wal.LogFile.{append, read_record, padded_size, header_bytes}
use quartz_database_c.Wal.LogFile.Opened.{IsLog}
use quartz_database_c.Wal.LogFile.Entry.{entry, read_record-entry}
use quartz_database_c.Wal.LogFile.Entries.{wal_header, entries}
use quartz_database_c.Wal.LogFile.Append.{Grows, padded, append-Grows}
use quartz_database_c.Wal.LogFile.Stuck.{NoCallWorks}
use quartz_database_c.Wal.LogFile.Torn.{read_record-torn}
use quartz_database_c.Wal.LogFile.Frames.{frames}
use quartz_database_c.Wal.Log.{LogManager, new_writer, new_reader}
use quartz_database_c.Wal.Log.Held.{Held}
use quartz_database_c.Wal.Writer.{append_record, append_batch, flush, restore_from_file}
use quartz_database_c.Wal.Writer.Flushed.{Pending, log_bytes, append-flush-zeros}
use quartz_database_c.Wal.Writer.Invariant.{IsWriter, calls-IsWriter}
use quartz_database_c.Wal.Writer.Restored.{restore_from_file-above}
use quartz_database_c.Wal.Manager.{validate}
use quartz_database_c.Wal.Manager.Chain.{lsns, validate_iff}
use quartz_database_c.Wal.Tests.Logs.{
  page_update, key_bytes, reference_bytes, two_records, a_log, a_manager, a_log-IsLog, a_log-Grows,
  a_manager-Held, page_update-IsWord, two_records-IsWord, two_records-Ascends,
}

abbrev full_log : List ℕ
full_log = wal_header ++ entries two_records

read_record-entry_example :
    Ends
      (a_log (wal_header ++ (entry page_update ++ (5 ∷ []))))
      (read_record (length wal_header))
      (returned (page_update, length (entry page_update)))
      (IsLog
        (wal_header ++ (entry page_update ++ (5 ∷ [])))
        (length (wal_header ++ (entry page_update ++ (5 ∷ [])))))
read_record-entry_example =
    read_record-entry wal_header (5 ∷ []) page_update page_update-IsWord
      (length (wal_header ++ (entry page_update ++ (5 ∷ []))))
      (a_log (wal_header ++ (entry page_update ++ (5 ∷ []))))
      (a_log-IsLog (wal_header ++ (entry page_update ++ (5 ∷ []))))

abbrev cut_log : List ℕ
cut_log = wal_header ++ (le_bytes 4 (wire_size page_update) ++ (wire_head page_update ++ key_bytes))

read_record-torn_example :
    Ends
      (a_log cut_log)
      (read_record (length wal_header))
      (returned (
        record page_update { payload = key_bytes ++ replicate (length reference_bytes) 0 },
        padded_size (4 + wire_size page_update),
      ))
      NoCallWorks
read_record-torn_example =
    read_record-torn wal_header key_bytes reference_bytes page_update page_update-IsWord refl
      (length cut_log) (a_log cut_log) (omega arith) (a_log-IsLog cut_log)

little_room : padded_size (length wal_header + length {A = ℕ} (1 ∷ 2 ∷ 3 ∷ [])) ≤ 4096
unfolding padded_size header_bytes le_bytes
little_room = omega arith

append-Grows_example :
    Ends
      (a_log wal_header)
      (append (1 ∷ 2 ∷ 3 ∷ []))
      (returned tt)
      (Grows (padded (wal_header ++ (1 ∷ 2 ∷ 3 ∷ []))) 4096)
append-Grows_example =
    append-Grows wal_header (1 ∷ 2 ∷ 3 ∷ []) 4096 (a_log wal_header) (a_log-Grows wal_header)
      little_room

validate_iff_example :
    ((validate (a_manager full_log)).0 ≡ returned tt)
    ↔ (All IsValid two_records × Ascends 0 (lsns two_records))
validate_iff_example =
    validate_iff two_records (length full_log) (new_writer 0x1_0000) new_reader (a_manager full_log)
      two_records-IsWord (a_manager-Held full_log)

restore_from_file-above_example : Ends (a_manager full_log) restore_from_file (returned tt) (λ m.
    Held full_log (length full_log) m.writer new_reader m
    × All (λ r. r.lsn < m.writer.next_lsn) two_records)
restore_from_file-above_example =
    restore_from_file-above two_records (length full_log) (new_writer 0x1_0000) new_reader
      (a_manager full_log) two_records-IsWord two_records-Ascends (omega arith, (omega arith, tt))
      (a_manager-Held full_log)

calls-IsWriter_example :
    Keeps IsWriter Any (append_record page_update)
    × Keeps IsWriter Any (append_batch two_records)
    × Keeps IsWriter Any flush
    × Keeps IsWriter Any restore_from_file
calls-IsWriter_example = calls-IsWriter page_update two_records

-- A writer with an empty buffer.
abbrev an_empty_log : LogManager
an_empty_log = record (a_manager (log_bytes [])) {
  writer = record (new_writer 0x1_0000) {
    buffer = record { buffer = record { bytes = []; capacity = 512 }; capacity = 512 };
  };
}

an_empty_log-Pending : Pending (log_bytes []) 4096 [] 512 an_empty_log
an_empty_log-Pending = record {
  file = a_log-Grows (log_bytes []);
  queue = refl;
  bounded = record { room = omega arith; within = omega arith };
  capacity = refl;
}

small_record : wire_size page_update < 2 ^ 32
unfolding wire_size
small_record = omega arith

short_record : 4 + wire_size page_update ≤ 512
unfolding wire_size
short_record = omega arith

disk_room : padded_size (length (log_bytes []) + (4 + wire_size page_update)) ≤ 4096
unfolding padded_size header_bytes le_bytes wire_size frames
disk_room = omega arith

append-flush-zeros_example :
    Ends an_empty_log
      (Action.◌>>◌ (append_record page_update) flush)
      (returned tt)
      (Pending (log_bytes ([] ++ wire_size page_update ∷ [])) 4096 [] 512)
append-flush-zeros_example =
    append-flush-zeros [] 4096 512 page_update an_empty_log an_empty_log-Pending
      (record {
        known = omega arith;
        last = omega arith;
        timed = λ e. omega arith;
        numbered = λ e. omega arith;
      })
      small_record short_record disk_room
