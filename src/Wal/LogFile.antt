-- ===== src/Wal/LogFile.antt =====
-- wal/LogFile.h and LogFile.cpp, on a little-endian machine. `attached` is `file_ != nullptr`: the file is the
-- log's own or the one that the constructor is given.
pub mod Opened
pub mod Entry
pub mod Entries
pub mod Append
pub mod Zeros
pub mod Frames
pub mod Stuck
pub mod Torn
use quartz_database_c.Prelude.{
  ℕ, zero, ◌+◌, ◌-◌, ◌*◌, ◌/◌, ◌%◌, ◌^◌, Bool, true, false, not, ◌||◌, List, [], ◌∷◌, ◌++◌, length,
  take, drop, replicate, ltb, ◌==◌, if◌then◌else◌, none,
}
use quartz_database_c.Status
use quartz_database_c.Status.{
  Code, Status, Result, ok, err, success, invalid_argument, io_error, corruption,
}
use quartz_database_c.Outcome.{Outcome, returned, failed}
use quartz_database_c.Outcome.Action
use quartz_database_c.Outcome.Action.{
  Action, ◌>>=◌, ◌>>◌, pure, reads, gets, modify, perform, fail, fail_if, branch, within, attempt,
}
use quartz_database_c.Storage.DatabaseFile
use quartz_database_c.Storage.DatabaseFile.{DatabaseFile}
use quartz_database_c.Serialization.Buffer.{empty_buffer}
use quartz_database_c.Serialization.Reader
use quartz_database_c.Serialization.Reader.{BinaryReader, open_reader, le_value}
use quartz_database_c.Serialization.Writer.{
  BinaryWriter, open_writer, write_value, overwrite_at, le_bytes,
}
use quartz_database_c.Wal.Record.{LogRecord, serialize, deserialize}

abbrev pub header_size : ℕ
header_size = 16

-- `MagicNumbers::kJournalMagic`, `kWalFormatVersion`, `config::kPageSize`, `kLogRecordAlignment`.
abbrev pub journal_magic : ℕ
journal_magic = 0x4a52_4e35

abbrev pub wal_format_version : ℕ
wal_format_version = 1

abbrev pub page_size : ℕ
page_size = 4096

abbrev pub record_alignment : ℕ
record_alignment = 8

pub record WalFileHeader : Type 0 where
  pub magic : ℕ
  pub version : ℕ
  pub page_size : ℕ
  pub reserved : ℕ

-- The sixteen bytes of the packed struct.
unfoldable pub header_bytes : WalFileHeader → List ℕ
header_bytes h =
    le_bytes 4 h.magic ++ le_bytes 4 h.version ++ le_bytes 4 h.page_size ++ le_bytes 4 h.reserved

unfoldable pub header_of : List ℕ → WalFileHeader
header_of bytes = record {
  magic = le_value (take 4 bytes);
  version = le_value (take 4 (drop 4 bytes));
  page_size = le_value (take 4 (drop 8 bytes));
  reserved = le_value (take 4 (drop 12 bytes));
}

pub record LogFile : Type 0 where
  pub file : DatabaseFile
  pub attached : Bool
  pub append_offset : ℕ

-- The default constructor, over a file that is not open.
pub detached : DatabaseFile → LogFile
detached file = record { file = file; attached = true; append_offset = header_size }

-- The constructor over the file of another object.
pub over : DatabaseFile → LogFile
over file = record {
  file = file;
  attached = true;
  append_offset = if ltb header_size file.size then file.size else header_size;
}

-- A call on the file.
unfoldable pub on_file : {A : Type 0} → Action DatabaseFile A → Action LogFile A
on_file = within (λ l. l.file) (λ file l. record l { file = file })

unfoldable pub set_append_offset : ℕ → LogFile → LogFile
set_append_offset offset l = record l { append_offset = offset }

unfoldable pub is_open : LogFile → Bool
is_open l = if l.attached then l.file.is_open else false

unfoldable pub refuse_closed : Action LogFile (Unit {0})
refuse_closed l = fail_if (not (is_open l)) io_error l

unfoldable pub write_header : Action LogFile (Unit {0})
write_header = do
  on_file (perform (DatabaseFile.seek 0))
  on_file (
      perform (
        DatabaseFile.write_bytes (
          header_bytes (record {
            magic = journal_magic;
            version = wal_format_version;
            page_size = page_size;
            reserved = 0;
          }))))

unfoldable pub read_header : Action LogFile WalFileHeader
read_header = do
  refuse_closed
  small ← gets (λ l. ltb l.file.size header_size)
  fail_if small corruption
  on_file (perform (DatabaseFile.seek 0))
  bytes ← on_file (DatabaseFile.read_bytes (replicate header_size 0))
  pure (header_of bytes)

unfoldable pub create : Action LogFile (Unit {0})
create = do
  modify (λ l. record l { attached = true })
  on_file (DatabaseFile.open_file true)
  modify (set_append_offset header_size)
  write_header

-- What `open` does with the header that it has tried to read.
unfoldable pub with_header : Bool → Result WalFileHeader → Action LogFile (Unit {0})
with_header create_if_missing (ok header) = modify (λ l. set_append_offset l.file.size l)
with_header false (err c) = fail c
with_header true (err c) = do modify (set_append_offset header_size); write_header

unfoldable pub open_log : Bool → Action LogFile (Unit {0})
open_log create_if_missing = do
  modify (λ l. record l { attached = true })
  on_file (DatabaseFile.open_file create_if_missing)
  header ← attempt read_header
  with_header create_if_missing header

unfoldable pub close : LogFile → LogFile × Status
close l =
    let (file, st) = DatabaseFile.close l.file in
    if l.attached
    then (record { file = file; attached = false; append_offset = header_size }, st)
    else (l, success)

-- The padding follows the bytes just written.
unfoldable pub align_append_offset : Action LogFile (Unit {0})
align_append_offset = do
  remainder ← gets (λ l. l.append_offset % record_alignment)
  let padding = record_alignment - remainder
  branch (remainder == 0) (pure tt) (do
    on_file (perform (DatabaseFile.write_bytes (replicate padding 0)))
    modify (λ l. set_append_offset (l.append_offset + padding) l))

unfoldable pub append : List ℕ → Action LogFile (Unit {0})
append bytes = do
  refuse_closed
  offset ← gets (λ l. l.append_offset)
  on_file (perform (DatabaseFile.seek offset))
  on_file (perform (DatabaseFile.write_bytes bytes))
  modify (set_append_offset (offset + length bytes))
  align_append_offset

-- The buffer of a record with its size before it; `LogWriter::writeRecordToBuffer` makes the same.
unfoldable pub framed : LogRecord → Result BinaryWriter
framed r =
    let start = write_value (open_writer empty_buffer) 4 0 in
    let written = serialize r start in
    overwrite_at written 0 (le_bytes 4 ((written.offset - start.offset) % 2 ^ 32))

unfoldable pub append_framed : Result BinaryWriter → Action LogFile (Unit {0})
append_framed (ok w) = append w.buffer.bytes
append_framed (err c) = fail c

pub append_record : LogRecord → Action LogFile (Unit {0})
append_record r = append_framed (framed r)

unfoldable pub read_bytes : ℕ → List ℕ → Action LogFile (List ℕ)
read_bytes offset dest = do
  refuse_closed
  on_file (perform (DatabaseFile.seek offset))
  on_file (DatabaseFile.read_bytes dest)

unfoldable pub padded_size : ℕ → ℕ
padded_size n =
    if n % record_alignment == 0 then n else n + (record_alignment - n % record_alignment)

unfoldable pub parsed : ℕ → Result (LogRecord × BinaryReader) → Outcome (LogRecord × ℕ)
parsed bytes_read (ok (r, rest)) = returned (r, bytes_read)
parsed bytes_read (err c) = failed c

-- The record in a buffer that starts with its size.
unfoldable pub record_in : List ℕ → Result (LogRecord × BinaryReader)
record_in buf = Status.◌>>=◌ (Reader.skip (open_reader buf) 4) deserialize

unfoldable pub read_record : ℕ → Action LogFile (LogRecord × ℕ)
read_record offset = do
  refuse_closed
  size_bytes ← read_bytes offset (replicate 4 0)
  let record_size = le_value size_bytes
  fail_if (record_size == 0) corruption
  body ← read_bytes (offset + 4) (replicate record_size 0)
  reads (λ l. parsed (padded_size (4 + record_size)) (record_in (le_bytes 4 record_size ++ body)))

unfoldable pub flush : Action LogFile (Unit {0})
flush = do
  attached ← gets (λ l. l.attached)
  fail_if (not attached) io_error
  on_file (perform DatabaseFile.flush)

unfoldable pub truncate : ℕ → Action LogFile (Unit {0})
truncate new_size = do
  attached ← gets (λ l. l.attached)
  fail_if (not attached) io_error
  fail_if (ltb new_size header_size) invalid_argument
  on_file (perform (DatabaseFile.resize new_size))
  modify (set_append_offset new_size)

unfoldable pub file_size : LogFile → ℕ
file_size l = if l.attached then l.file.size else 0

unfoldable pub validate : Action LogFile (Unit {0})
validate = do
  refuse_closed
  header ← read_header
  fail_if (not (header.magic == journal_magic)) corruption
  fail_if (not (header.version == wal_format_version)) corruption
