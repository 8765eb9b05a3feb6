-- ===== src/Wal/Record/Size.antt =====
-- The size of a record of LogRecord.cpp, and the order that LogValidator.cpp accepts.
use quartz_database_c.Prelude.{
  ℕ, ◌+◌, ◌%◌, ◌^◌, ◌<◌, ◌≡◌, ◌↔◌, inl, inr, List, [], ◌∷◌, length, ltb, if◌then◌else◌, arith, refl,
  Bool-cases,
}
use quartz_database_c.Status.{Status, err, corruption, success, ◌>>◌}
use quartz_database_c.Serialization.Writer.{BinaryWriter}
use quartz_database_c.Serialization.Writer.Bytes.{offset-write_bytes, offset-write_value}
use quartz_database_c.Wal.Record.{
  LogRecord, write_fields, serialize, wire_size, validate_lsn_ordering, is_valid_lsn,
}

offset-write_fields : (r : LogRecord) (w : BinaryWriter) → (write_fields r w).offset ≡ w.offset + 45
unfolding write_fields
offset-write_fields r w = omega (
  arith,
  offset-write_value _ 4 r.reserved1,
  offset-write_value _ 4 r.reserved0,
  offset-write_value _ 4 r.checksum,
  offset-write_value _ 4 (length r.payload % 2 ^ 32),
  offset-write_value _ 8 r.transaction_id,
  offset-write_value _ 4 r.page_id,
  offset-write_value _ 8 r.timestamp,
  offset-write_value _ 8 r.lsn,
  offset-write_value w 1 r.tag,
)

-- Serializing a record whose payload has fewer than 2^32 bytes moves the writer by the number of bytes
-- that `wireSize` says.
pub serialize-wire_size :
    (r : LogRecord) (w : BinaryWriter)
    → length r.payload < 2 ^ 32
    → (serialize r w).offset ≡ w.offset + wire_size r
unfolding serialize wire_size
serialize-wire_size r w small =
    ground (arith, offset-write_fields r w, offset-write_bytes (write_fields r w) r.payload)

-- The calls of `validateLsnOrdering` along a log, each number against the one before.
abbrev pub validate_chain : ℕ → List ℕ → Status
validate_chain previous [] = success
validate_chain previous (lsn ∷ rest) = validate_lsn_ordering previous lsn >> validate_chain lsn rest

-- Above `lo`, in strictly ascending order.
abbrev pub Ascends : ℕ → List ℕ → Type 0
Ascends lo [] = Unit {0}
Ascends lo (lsn ∷ rest) = (lo < lsn) × Ascends lsn rest

validate_lsn_ordering-eq :
    (a b : ℕ) → validate_lsn_ordering a b ≡ (if ltb a b then success else err corruption)
unfolding validate_lsn_ordering is_valid_lsn
validate_lsn_ordering-eq a b = ground arith

-- Checking each sequence number against the one before accepts exactly the strictly ascending lists of
-- numbers above the first one, also where that is the invalid number 0.
pub validate_chain-Ascends :
    (previous : ℕ) (lsns : List ℕ)
    → (validate_chain previous lsns ≡ success) ↔ Ascends previous lsns
validate_chain-Ascends previous [] = (λ h. tt, λ h. refl)
validate_chain-Ascends previous (lsn ∷ rest) = elim (Bool-cases (ltb previous lsn)) [
  | inl up ↦
      rw (validate_lsn_ordering-eq previous lsn, up)
        (
          λ h. (ground arith, (validate_chain-Ascends lsn rest).0 h),
          λ h. (validate_chain-Ascends lsn rest).1 h.1,
        )
  | inr down ↦
      rw (validate_lsn_ordering-eq previous lsn, down) (λ h. cc, λ h. absurd (ground (arith, h.0)))
]
