-- ===== src/Wal/Adapter.antt =====
-- wal/BTreeWalAdapter.cpp: what a tree tells its sink, as records of the log. The time at which a record is
-- made is an argument.
use quartz_database_c.Prelude.{ℕ, if◌then◌else◌}
use quartz_database_c.Outcome.Action.{Action}
use quartz_database_c.Serialization.Buffer.{empty_buffer}
use quartz_database_c.Serialization.Writer.{BinaryWriter, open_writer, write_value}
use quartz_database_c.Format
use quartz_database_c.Format.{PageReference, invalid_page_id}
use quartz_database_c.Btree.Key
use quartz_database_c.Btree.Key.{Key}
use quartz_database_c.Btree.Tree.{
  WalEvent, on_insert, on_erase, on_page_allocate, on_page_deallocate, on_node_split, on_node_merge,
}
use quartz_database_c.Wal.Record
use quartz_database_c.Wal.Record.{LogRecord}
use quartz_database_c.Wal.Log.{LogManager}
use quartz_database_c.Wal.Manager

abbrev start : BinaryWriter
start = open_writer empty_buffer

with_payload : LogRecord → BinaryWriter → LogRecord
with_payload r w = record r { payload = w.buffer.bytes }

-- `appendKeyRecord`, the record.
key_record : ℕ → ℕ → ℕ → Key → PageReference → LogRecord
key_record now tag page_id key ref =
    let keyed = Key.serialize key start in
    with_payload (Record.make now tag page_id 0)
      (if Format.is_valid ref then Format.write ref keyed else keyed)

-- The record for each call; an erasure has no page and no reference.
pub record_of : ℕ → WalEvent → LogRecord
record_of now (on_insert key ref) = key_record now 2 ref.page_id key ref
record_of now (on_erase key) = key_record now 3 invalid_page_id key Format.invalid
record_of now (on_page_allocate id) = Record.make now 6 id 0
record_of now (on_page_deallocate id) = Record.make now 7 id 0
record_of now (on_node_split left right key) =
    with_payload (Record.make now 4 left 0) (Key.serialize key (write_value start 4 right))
record_of now (on_node_merge survivor removed) =
    with_payload (Record.make now 5 survivor 0) (write_value start 4 removed)

pub log_event : ℕ → WalEvent → Action LogManager (Unit {0})
log_event now event = Manager.append (record_of now event)
