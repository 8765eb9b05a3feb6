-- ===== src/Wal/Record/Wire.antt =====
-- The bytes of a record as LogRecord.cpp lays them out, without the writer, and what is read from them.
use mathlib.Core.List.{append_assoc}
use quartz_database_c.Prelude.{
  ℕ, ◌+◌, ◌^◌, ◌<◌, ◌≡◌, List, [], ◌++◌, length, arith, refl, ap, append-nil, length-append,
  replicate,
}
use quartz_database_c.Status.{ok}
use quartz_database_c.Serialization.Reader.{BinaryReader}
use quartz_database_c.Serialization.Reader.Ahead.{Ahead, value_then, bytes_then}
use quartz_database_c.Serialization.Writer.{le_bytes}
use quartz_database_c.Serialization.Writer.Bytes.{length-le_bytes}
use quartz_database_c.Wal.Record.{LogRecord, wire_size, deserialize}

-- Each field has the width of its type, and the size of the record has 32 bits.
pub record IsWord (r : LogRecord) : Type 0 where
  pub tag : r.tag < 256
  pub lsn : r.lsn < 2 ^ 64
  pub timestamp : r.timestamp < 2 ^ 64
  pub page_id : r.page_id < 2 ^ 32
  pub transaction_id : r.transaction_id < 2 ^ 64
  pub checksum : r.checksum < 2 ^ 32
  pub reserved0 : r.reserved0 < 2 ^ 32
  pub reserved1 : r.reserved1 < 2 ^ 32
  pub size : wire_size r < 2 ^ 32

-- The fields in their order, the payload at the end.
pub wire : LogRecord → List ℕ
wire r =
    le_bytes 1 r.tag
    ++ (le_bytes 8 r.lsn
        ++ (le_bytes 8 r.timestamp
            ++ (le_bytes 4 r.page_id
                ++ (le_bytes 8 r.transaction_id
                    ++ (le_bytes 4 (length r.payload)
                        ++ (le_bytes 4 r.checksum
                            ++ (le_bytes 4 r.reserved0
                                ++ (le_bytes 4 r.reserved1 ++ r.payload))))))))

length_after : (n v : ℕ) (rest : List ℕ) → length (le_bytes n v ++ rest) ≡ n + length rest
length_after n v rest = omega (arith, length-append (le_bytes n v) rest, length-le_bytes n v)

pub length-wire : (r : LogRecord) → length (wire r) ≡ wire_size r
unfolding wire wire_size
length-wire r = omega (
  arith,
  length_after 1 r.tag _,
  length_after 8 r.lsn _,
  length_after 8 r.timestamp _,
  length_after 4 r.page_id _,
  length_after 8 r.transaction_id _,
  length_after 4 (length r.payload) _,
  length_after 4 r.checksum _,
  length_after 4 r.reserved0 _,
  length_after 4 r.reserved1 r.payload,
)

-- The bytes of a record with others after them.
pub wire_before : LogRecord → List ℕ → List ℕ
wire_before r rest =
    le_bytes 1 r.tag
    ++ (le_bytes 8 r.lsn
        ++ (le_bytes 8 r.timestamp
            ++ (le_bytes 4 r.page_id
                ++ (le_bytes 8 r.transaction_id
                    ++ (le_bytes 4 (length r.payload)
                        ++ (le_bytes 4 r.checksum
                            ++ (le_bytes 4 r.reserved0
                                ++ (le_bytes 4 r.reserved1 ++ (r.payload ++ rest)))))))))

-- A reader at the bytes of a record reads the record.
pub deserialize-wire_before :
    (r : LogRecord) (rest : List ℕ) (at : BinaryReader)
    → IsWord r
    → Ahead at (wire_before r rest)
    → (after : BinaryReader) × (deserialize at ≡ ok (r, after))
unfolding wire_before deserialize wire_size
deserialize-wire_before r rest at w h =
    let small : length r.payload < 256 ^ 4 = omega (arith, w.size) in
    value_then at 1 r.tag _ _ w.tag h (λ r1 h1. value_then r1 8 r.lsn _ _ w.lsn h1 (λ r2 h2.
      value_then r2 8 r.timestamp _ _ w.timestamp h2 (λ r3 h3.
        value_then r3 4 r.page_id _ _ w.page_id h3 (λ r4 h4.
          value_then r4 8 r.transaction_id _ _ w.transaction_id h4 (λ r5 h5.
            value_then r5 4 (length r.payload) _ _ small h5 (λ r6 h6.
              value_then r6 4 r.checksum _ _ w.checksum h6 (λ r7 h7.
                value_then r7 4 r.reserved0 _ _ w.reserved0 h7 (λ r8 h8.
                  value_then r8 4 r.reserved1 _ _ w.reserved1 h8
                    (λ r9 h9. bytes_then r9 r.payload rest _ h9 (λ r10. (r10, refl)))))))))))

pub deserialize-wire :
    (r : LogRecord) (at : BinaryReader)
    → IsWord r
    → Ahead at (wire r)
    → (after : BinaryReader) × (deserialize at ≡ ok (r, after))
unfolding wire wire_before
deserialize-wire r at w h =
    let all : Ahead at (wire_before r []) = rw (append-nil r.payload) h in
    deserialize-wire_before r [] at w all

-- A record of zeros.
abbrev pub blank_record : LogRecord
blank_record = record {
  tag = 0;
  lsn = 0;
  timestamp = 0;
  page_id = 0;
  transaction_id = 0;
  checksum = 0;
  reserved0 = 0;
  reserved1 = 0;
  payload = [];
}

pub blank_record-IsWord : IsWord blank_record
unfolding wire_size
blank_record-IsWord = omega arith

pub zeros_before :
    (k : ℕ) → (replicate 45 0 ++ replicate k 0) ≡ wire_before blank_record (replicate k 0)
unfolding wire_before le_bytes
zeros_before k = refl

-- The bytes of a record before its payload.
pub wire_head : LogRecord → List ℕ
wire_head r =
    le_bytes 1 r.tag
    ++ (le_bytes 8 r.lsn
        ++ (le_bytes 8 r.timestamp
            ++ (le_bytes 4 r.page_id
                ++ (le_bytes 8 r.transaction_id
                    ++ (le_bytes 4 (length r.payload)
                        ++ (le_bytes 4 r.checksum
                            ++ (le_bytes 4 r.reserved0 ++ le_bytes 4 r.reserved1)))))))

pub wire_parts : (r : LogRecord) → wire r ≡ wire_head r ++ r.payload
unfolding wire wire_head
wire_parts r = simp append_assoc

pub length-wire_head : (r : LogRecord) → length (wire_head r) ≡ 45
unfolding wire_size
length-wire_head r = omega (
  arith,
  ap (λ (t : List ℕ). length t) (wire_parts r),
  length-wire r,
  length-append (wire_head r) r.payload,
)

-- Bytes of the payload may change, not their number.
pub wire_head-payload :
    (r : LogRecord) (payload : List ℕ)
    → length payload ≡ length r.payload
    → wire_head (record r { payload = payload }) ≡ wire_head r
unfolding wire_head
wire_head-payload r payload e = rw e refl
