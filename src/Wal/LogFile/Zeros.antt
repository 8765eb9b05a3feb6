-- ===== src/Wal/LogFile/Zeros.antt =====
-- What a record becomes on its way to the file: `appendRecord` of LogFile.cpp and `writeRecordToBuffer` of
-- LogWriter.cpp build it at the end of an empty buffer.
use mathlib.Core.List.{append_assoc}
use quartz_database_c.Prelude.{
  ◌≤◌, drop, sym, drop-append, length-append, ℕ, zero, suc, ◌+◌, ◌-◌, ◌%◌, ◌^◌, ◌<◌, ◌≡◌, ◌∙◌,
  false, List, [], ◌∷◌, ◌++◌, length, replicate, ltb, arith, refl, ap, length-replicate, inl, inr,
  Bool-cases,
}
use quartz_database_c.Status.{ok}
use quartz_database_c.Serialization.Buffer.{copy_to, empty_buffer}
use quartz_database_c.Serialization.Writer.{
  BinaryWriter, open_writer, write_value, overwrite_at, le_bytes,
}
use quartz_database_c.Serialization.Writer.Bytes.{
  ZeroWriter, open_writer-ZeroWriter, write_value-ZeroWriter, write_bytes-ZeroWriter,
  length-le_bytes, offset-write_value, copy_to-none,
}
use quartz_database_c.Wal.Record.{LogRecord, wire_size, serialize, write_fields}
use quartz_database_c.Wal.Record.Size.{serialize-wire_size}
use quartz_database_c.Wal.Record.Wire.{
  wire_before, deserialize-wire_before, blank_record, blank_record-IsWord, zeros_before,
}
use quartz_database_c.Outcome.{returned}
use quartz_database_c.Outcome.Action.Ending.{Ends}
use quartz_database_c.Serialization.Reader
use quartz_database_c.Serialization.Reader.{BinaryReader, open_reader}
use quartz_database_c.Serialization.Reader.Ahead.{Ahead}
use quartz_database_c.Wal.LogFile.{LogFile, framed, record_in, read_record, padded_size}
use quartz_database_c.Wal.LogFile.Opened.{IsLog}
use quartz_database_c.Wal.LogFile.Entry.{read_record-framed}

write_fields-ZeroWriter :
    (r : LogRecord) (w : BinaryWriter) → ZeroWriter w → ZeroWriter (write_fields r w)
unfolding write_fields
write_fields-ZeroWriter r w z =
    let z1 = (write_value-ZeroWriter w 1 r.tag z).0 in
    let z2 = (write_value-ZeroWriter _ 8 r.lsn z1).0 in
    let z3 = (write_value-ZeroWriter _ 8 r.timestamp z2).0 in
    let z4 = (write_value-ZeroWriter _ 4 r.page_id z3).0 in
    let z5 = (write_value-ZeroWriter _ 8 r.transaction_id z4).0 in
    let z6 = (write_value-ZeroWriter _ 4 (length r.payload % 2 ^ 32) z5).0 in
    let z7 = (write_value-ZeroWriter _ 4 r.checksum z6).0 in
    let z8 = (write_value-ZeroWriter _ 4 r.reserved0 z7).0 in
    (write_value-ZeroWriter _ 4 r.reserved1 z8).0

serialize-ZeroWriter :
    (r : LogRecord) (w : BinaryWriter) → ZeroWriter w → ZeroWriter (serialize r w)
unfolding serialize
serialize-ZeroWriter r w z =
    let fields = write_fields-ZeroWriter r w z in
    elim (Bool-cases (ltb 0 (length r.payload % 2 ^ 32))) [
      | inl e ↦ rw e (write_bytes-ZeroWriter (write_fields r w) r.payload fields).0
      | inr e ↦ rw e fields
    ]

copy_to-start :
    (src : List ℕ) (n : ℕ)
    → copy_to (replicate (length src + n) zero) 0 src ≡ src ++ replicate n zero
unfolding copy_to
copy_to-start [] n = let e : 0 + n ≡ n = omega arith in rw e (copy_to-none (replicate n zero) 0)
copy_to-start (s ∷ src) n =
    let e : suc (length src) + n ≡ suc (length src + n) = omega arith in
    rw e (ap (λ t. s ∷ t) (copy_to-start src n))

-- The size of a record, and as many zeros.
pub zero_frame : ℕ → List ℕ
zero_frame n = le_bytes 4 n ++ replicate n zero

payload-lt : (r : LogRecord) → wire_size r < 2 ^ 32 → length r.payload < 2 ^ 32
unfolding wire_size
payload-lt r h = omega (arith, h)

over_zeros :
    (w : BinaryWriter) (n : ℕ)
    → ZeroWriter w
    → w.offset ≡ 4 + n
    → (w' : BinaryWriter) × (overwrite_at w 0 (le_bytes 4 n) ≡ ok w')
      × (w'.buffer.bytes ≡ zero_frame n)
unfolding overwrite_at zero_frame
over_zeros w n z e =
    let size = length-le_bytes 4 n in
    let bytes : w.buffer.bytes ≡ replicate (length (le_bytes 4 n) + n) zero =
      z.zeros ∙ ap (λ (k : ℕ). replicate k zero) (omega (arith, e, size)) in
    let room : ltb (length w.buffer.bytes) (0 + length (le_bytes 4 n)) ≡ false =
      ground (arith, z.at_end, e, size) in
    (
      record w { buffer = record w.buffer { bytes = copy_to w.buffer.bytes 0 (le_bytes 4 n) } },
      rw room refl,
      ap (λ t. copy_to t 0 (le_bytes 4 n)) bytes ∙ copy_to-start (le_bytes 4 n) n,
    )

abbrev start : BinaryWriter
start = write_value (open_writer empty_buffer) 4 0

start_offset : start.offset ≡ 4
unfolding open_writer
start_offset = offset-write_value (open_writer empty_buffer) 4 0

-- Whatever a record holds, the frame that is built for it has its size and then zeros.
pub framed-zeros :
    (r : LogRecord)
    → wire_size r < 2 ^ 32
    → (w : BinaryWriter) × (framed r ≡ ok w) × (w.buffer.bytes ≡ zero_frame (wire_size r))
unfolding framed
framed-zeros r small =
    let z = (write_value-ZeroWriter (open_writer empty_buffer) 4 0 open_writer-ZeroWriter).0 in
    let written = serialize r start in
    let payload_small : length r.payload < 2 ^ 32 = payload-lt r small in
    let end : written.offset ≡ start.offset + wire_size r =
      serialize-wire_size r start payload_small in
    let size : (written.offset - start.offset) % 2 ^ 32 ≡ wire_size r = omega (arith, end, small) in
    rw size (
      over_zeros written (wire_size r) (serialize-ZeroWriter r start z)
        (omega (arith, end, start_offset)))

replicate_parts : (n k : ℕ) → (replicate n zero ++ replicate k zero) ≡ replicate (n + k) zero
replicate_parts zero k = let e : 0 + k ≡ k = omega arith in rw e refl
replicate_parts (suc n) k =
    let e : suc n + k ≡ suc (n + k) = omega arith in rw e (ap (λ t. zero ∷ t) (replicate_parts n k))

-- Such a frame is read as a record of zeros, whose payload is empty.
record_in-zeros :
    (n : ℕ)
    → 45 ≤ n
    → (after : BinaryReader) × (record_in (zero_frame n) ≡ ok (blank_record, after))
unfolding record_in zero_frame Reader.skip open_reader
record_in-zeros n h =
    let size = le_bytes 4 n in
    let zeros = replicate n zero in
    let four : length size ≡ 4 = length-le_bytes 4 n in
    let long : 4 ≤ length (size ++ zeros) = omega (arith, length-append size zeros, four) in
    let room : ltb (length (size ++ zeros)) 4 ≡ false = ground (arith, long) in
    let total : 45 + (n - 45) ≡ n = omega (arith, h) in
    let parts : zeros ≡ wire_before blank_record (replicate (n - 45) zero) =
      ap (λ (k : ℕ). replicate k zero) (sym total)
      ∙ sym (replicate_parts 45 (n - 45))
      ∙ zeros_before (n - 45) in
    let left : drop 4 (size ++ zeros) ≡ zeros =
      ap (λ (k : ℕ). drop k (size ++ zeros)) (sym four) ∙ drop-append size zeros in
    let ahead : Ahead (record { view = size ++ zeros; offset = 4 })
        (wire_before blank_record (replicate (n - 45) zero)) =
      record { inside = long; left = left ∙ parts } in
    rw room
      (deserialize-wire_before blank_record (replicate (n - 45) zero) _ blank_record-IsWord ahead)

-- Wherever such a frame stands in the file.
pub read_record-zeros :
    (pre post : List ℕ) (n : ℕ)
    → 45 ≤ n
    → n < 2 ^ 32
    → (a : ℕ) (l : LogFile) → IsLog (pre ++ (zero_frame n ++ post)) a l
    → Ends l
        (read_record (length pre))
        (returned (blank_record, padded_size (4 + n)))
        (IsLog (pre ++ (zero_frame n ++ post)) a)
unfolding zero_frame
read_record-zeros pre post n h small a l log =
    let (after, e) = record_in-zeros n h in
    let same : pre ++ (le_bytes 4 n ++ replicate n zero ++ post)
        ≡ pre ++ (le_bytes 4 n ++ (replicate n zero ++ post)) =
      simp append_assoc in
    rw same (
      read_record-framed pre (replicate n zero) post n (length-replicate n zero) small blank_record
        after e (ground (arith, h)) a l (rw same at log))

pub length-zero_frame : (n : ℕ) → length (zero_frame n) ≡ 4 + n
unfolding zero_frame
length-zero_frame n = omega (
  arith,
  length-append (le_bytes 4 n) (replicate n 0),
  length-le_bytes 4 n,
  length-replicate {A = ℕ} n 0,
)
