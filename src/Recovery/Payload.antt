-- ===== src/Recovery/Payload.antt =====
-- recovery/CheckpointRecord.h and CheckpointRecord.cpp: what a checkpoint puts into the log.
use quartz_database_c.Prelude.{ℕ, ◌%◌, ◌^◌, not, List, [], length, ltb, ◌==◌, if◌then◌else◌}
use quartz_database_c.Status.{Status, Result, ok, err, success, corruption, ◌>>=◌}
use quartz_database_c.Serialization.Reader.{BinaryReader, read_value, read_bytes}
use quartz_database_c.Serialization.Writer.{BinaryWriter, write_value, write_bytes}
use quartz_database_c.Wal.Record.{invalid_lsn, is_valid_lsn}

pub record CheckpointPayload : Type 0 where
  pub magic : ℕ
  pub version : ℕ
  pub lsn : ℕ
  pub tree_size : ℕ
  pub tree_height : ℕ
  pub btree_snapshot : List ℕ

abbrev pub checkpoint_magic : ℕ
checkpoint_magic = 0x4348_504b

abbrev pub checkpoint_format_version : ℕ
checkpoint_format_version = 1

-- `LogRecordType::CheckpointMarker`.
abbrev pub checkpoint_marker : ℕ
checkpoint_marker = 9

abbrev pub no_payload : CheckpointPayload
no_payload = record {
  magic = checkpoint_magic;
  version = checkpoint_format_version;
  lsn = invalid_lsn;
  tree_size = 0;
  tree_height = 0;
  btree_snapshot = [];
}

pub serialize : CheckpointPayload → BinaryWriter → BinaryWriter
serialize p w0 =
    let w1 = write_value w0 4 p.magic in
    let w2 = write_value w1 4 p.version in
    let w3 = write_value w2 8 p.lsn in
    let w4 = write_value w3 8 p.tree_size in
    let w5 = write_value w4 4 p.tree_height in
    let size = length p.btree_snapshot % 2 ^ 32 in
    let w6 = write_value w5 4 size in if ltb 0 size then write_bytes w6 p.btree_snapshot else w6

unfoldable pub validate : CheckpointPayload → Status
validate p =
    if not (p.magic == checkpoint_magic)
    then err corruption
    else if not (p.version == checkpoint_format_version)
    then err corruption
    else if not (is_valid_lsn p.lsn)
    then err corruption
    else success

-- The payload that has been read, if it is accepted.
abbrev pub accepted : CheckpointPayload → Result CheckpointPayload
accepted p = elim (validate p) [ err c ↦ err c | ok u ↦ ok p ]

unfoldable pub deserialize : BinaryReader → Result CheckpointPayload
deserialize r = read_value r 4 >>= λ magic. read_value magic.1 4 >>= λ version.
    read_value version.1 8 >>= λ lsn. read_value lsn.1 8 >>= λ size.
    read_value size.1 4 >>= λ height. read_value height.1 4 >>= λ count.
    read_bytes count.1 count.0 >>= λ snapshot. accepted (record {
      magic = magic.0;
      version = version.0;
      lsn = lsn.0;
      tree_size = size.0;
      tree_height = height.0;
      btree_snapshot = snapshot.0;
    })
