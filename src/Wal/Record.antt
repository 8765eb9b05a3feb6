-- ===== src/Wal/Record.antt =====
-- wal/LogSequenceNumber.cpp, LogTypes.h, LogRecord.h, LogRecord.cpp and LogValidator.cpp. A sequence
-- number is its 64-bit value. The clock's time is an argument of `make`.
pub mod Size
pub mod Wire
pub mod Valid
use quartz_database_c.Prelude.{
  ℕ, ◌+◌, ◌*◌, ◌%◌, ◌^◌, Bool, not, ◌&&◌, List, [], length, ltb, leb, ◌==◌, if◌then◌else◌,
}
use quartz_database_c.Status.{Status, Result, ok, err, corruption, success, ◌>>=◌, ◌>>◌}
use quartz_database_c.Serialization.Reader.{BinaryReader, read_value, read_bytes}
use quartz_database_c.Serialization.Writer.{BinaryWriter, write_value, write_bytes}

abbrev pub invalid_lsn : ℕ
invalid_lsn = 0

abbrev pub initial_lsn : ℕ
initial_lsn = 1

unfoldable pub is_valid_lsn : ℕ → Bool
is_valid_lsn lsn = not (lsn == invalid_lsn)

unfoldable pub next_lsn : ℕ → ℕ
next_lsn lsn = (lsn + 1) % 2 ^ 64

-- `LogRecordType` as its byte: 1 to 9 are the valid ones.
unfoldable pub is_valid_record_type : ℕ → Bool
is_valid_record_type tag = ltb 0 tag && leb tag 9

pub record LogRecord : Type 0 where
  pub tag : ℕ
  pub lsn : ℕ
  pub timestamp : ℕ
  pub page_id : ℕ
  pub transaction_id : ℕ
  pub checksum : ℕ
  pub reserved0 : ℕ
  pub reserved1 : ℕ
  pub payload : List ℕ

pub make : ℕ → ℕ → ℕ → ℕ → LogRecord
make now tag page_id transaction_id = record {
  tag = tag;
  lsn = invalid_lsn;
  timestamp = now;
  page_id = page_id;
  transaction_id = transaction_id;
  checksum = 0;
  reserved0 = 0;
  reserved1 = 0;
  payload = [];
}

unfoldable pub wire_size : LogRecord → ℕ
wire_size r = 1 + 4 + 8 * 2 + 4 + 8 + 4 * 3 + length r.payload

-- `serialize` up to the payload.
unfoldable pub write_fields : LogRecord → BinaryWriter → BinaryWriter
write_fields r w0 =
    let w1 = write_value w0 1 r.tag in
    let w2 = write_value w1 8 r.lsn in
    let w3 = write_value w2 8 r.timestamp in
    let w4 = write_value w3 4 r.page_id in
    let w5 = write_value w4 8 r.transaction_id in
    let w6 = write_value w5 4 (length r.payload % 2 ^ 32) in
    let w7 = write_value w6 4 r.checksum in
    let w8 = write_value w7 4 r.reserved0 in write_value w8 4 r.reserved1

unfoldable pub serialize : LogRecord → BinaryWriter → BinaryWriter
serialize r w =
    let written = write_fields r w in
    if ltb 0 (length r.payload % 2 ^ 32) then write_bytes written r.payload else written

pub deserialize : BinaryReader → Result (LogRecord × BinaryReader)
deserialize r = read_value r 1 >>= λ tag. read_value tag.1 8 >>= λ lsn.
    read_value lsn.1 8 >>= λ timestamp. read_value timestamp.1 4 >>= λ page_id.
    read_value page_id.1 8 >>= λ transaction_id. read_value transaction_id.1 4 >>= λ size.
    read_value size.1 4 >>= λ checksum. read_value checksum.1 4 >>= λ reserved0.
    read_value reserved0.1 4 >>= λ reserved1. read_bytes reserved1.1 size.0 >>= λ payload. ok (
      record {
        tag = tag.0;
        lsn = lsn.0;
        timestamp = timestamp.0;
        page_id = page_id.0;
        transaction_id = transaction_id.0;
        checksum = checksum.0;
        reserved0 = reserved0.0;
        reserved1 = reserved1.0;
        payload = payload.0;
      },
      payload.1,
    )

-- `validateRecord`; the reserved fields are not tested.
unfoldable pub validate_record : LogRecord → Status
validate_record r =
    if not (is_valid_record_type r.tag)
    then err corruption
    else if not (is_valid_lsn r.lsn)
    then err corruption
    else if r.timestamp == 0
    then err corruption
    else success

unfoldable pub validate_lsn_ordering : ℕ → ℕ → Status
validate_lsn_ordering previous current =
    if not (is_valid_lsn current)
    then err corruption
    else if is_valid_lsn previous && leb current previous
    then err corruption
    else success
