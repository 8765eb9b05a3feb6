-- ===== src/Wal/Tests/Logs.antt =====
-- Logs with two records, and the log's objects over them.
use quartz_database_c.Prelude.{
  ℕ, refl, true, false, some, List, [], ◌∷◌, ◌++◌, length, replicate, All, arith,
}
use quartz_database_c.Storage.DatabaseFile.{DatabaseFile}
use quartz_database_c.Wal.Record
use quartz_database_c.Wal.Record.{LogRecord}
use quartz_database_c.Wal.Record.Size.{Ascends}
use quartz_database_c.Wal.Record.Wire.{IsWord}
use quartz_database_c.Wal.Record.Valid.{IsValid}
use quartz_database_c.Wal.LogFile.{LogFile}
use quartz_database_c.Wal.LogFile.Opened.{IsLog}
use quartz_database_c.Wal.LogFile.Append.{Grows}
use quartz_database_c.Wal.Log.{LogManager, no_statistics, new_writer, new_reader}
use quartz_database_c.Wal.Log.Held.{Held}
use quartz_database_c.Wal.Manager.Chain.{lsns}

-- A key of four bytes with its type, and a reference.
abbrev pub key_bytes : List ℕ
key_bytes = 0 ∷ 7 ∷ 0 ∷ 0 ∷ 0 ∷ []

abbrev pub reference_bytes : List ℕ
reference_bytes = 9 ∷ replicate 19 0

abbrev pub page_update : LogRecord
page_update = record {
  tag = 2;
  lsn = 1;
  timestamp = 77;
  page_id = 9;
  transaction_id = 4;
  checksum = 0;
  reserved0 = 0;
  reserved1 = 0;
  payload = key_bytes ++ reference_bytes;
}

abbrev pub node_split : LogRecord
node_split = record {
  tag = 4;
  lsn = 3;
  timestamp = 78;
  page_id = 9;
  transaction_id = 0;
  checksum = 0;
  reserved0 = 0;
  reserved1 = 0;
  payload = [];
}

abbrev pub two_records : List LogRecord
two_records = page_update ∷ node_split ∷ []

abbrev pub a_disk : List ℕ → DatabaseFile
a_disk bytes = record {
  stored = some bytes;
  allowed = true;
  room = 4096;
  is_open = true;
  failed = false;
  eof = false;
  position = 0;
  size = length bytes;
}

abbrev pub a_log : List ℕ → LogFile
a_log bytes = record { file = a_disk bytes; attached = true; append_offset = length bytes }

abbrev pub a_manager : List ℕ → LogManager
a_manager bytes = record {
  initialized = true;
  file = a_log bytes;
  stats = no_statistics;
  writer = new_writer 0x1_0000;
  reader = new_reader;
}

pub a_log-IsLog : (bytes : List ℕ) → IsLog bytes (length bytes) (a_log bytes)
a_log-IsLog bytes = record {
  attached = refl;
  file = record { is_open = refl; sound = refl; not_past = refl; stored = refl; size = refl };
  append = refl;
}

pub a_log-Grows : (bytes : List ℕ) → Grows bytes 4096 (a_log bytes)
a_log-Grows bytes = record { log = a_log-IsLog bytes; room = refl }

pub a_manager-Held :
    (bytes : List ℕ) → Held bytes (length bytes) (new_writer 0x1_0000) new_reader (a_manager bytes)
a_manager-Held bytes = record {
  log = a_log-IsLog bytes;
  initialized = refl;
  writer = refl;
  reader = refl;
}

pub page_update-IsWord : IsWord page_update
unfolding Record.wire_size
page_update-IsWord = record {
  tag = omega arith;
  lsn = omega arith;
  timestamp = omega arith;
  page_id = omega arith;
  transaction_id = omega arith;
  checksum = omega arith;
  reserved0 = omega arith;
  reserved1 = omega arith;
  size = omega arith;
}

node_split-IsWord : IsWord node_split
unfolding Record.wire_size
node_split-IsWord = record {
  tag = omega arith;
  lsn = omega arith;
  timestamp = omega arith;
  page_id = omega arith;
  transaction_id = omega arith;
  checksum = omega arith;
  reserved0 = omega arith;
  reserved1 = omega arith;
  size = omega arith;
}

pub two_records-IsWord : All IsWord two_records
two_records-IsWord = (page_update-IsWord, (node_split-IsWord, tt))

pub two_records-IsValid : All IsValid two_records
two_records-IsValid = (
  record {
    known = omega arith;
    last = omega arith;
    numbered = λ e. omega arith;
    timed = λ e. omega arith;
  },
  (
    record {
      known = omega arith;
      last = omega arith;
      numbered = λ e. omega arith;
      timed = λ e. omega arith;
    },
    tt,
  ),
)

pub two_records-Ascends : Ascends 0 (lsns two_records)
two_records-Ascends = (omega arith, (omega arith, tt))
