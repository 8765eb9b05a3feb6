-- ===== src/Wal/Record/Valid.antt =====
-- The records that LogValidator.cpp accepts by themselves.
use quartz_database_c.Prelude.{◌≤◌, ◌≡◌, ◌≢◌, arith, refl}
use quartz_database_c.Status.{Status, ok, err, success, ◌>>◌}
use quartz_database_c.Wal.Record.{LogRecord, validate_record, is_valid_record_type, is_valid_lsn}

-- What each record must be.
pub record IsValid (r : LogRecord) : Type 0 where
  pub known : 1 ≤ r.tag
  pub last : r.tag ≤ 9
  pub numbered : r.lsn ≢ 0
  pub timed : r.timestamp ≢ 0

pub validate_record-IsValid : (r : LogRecord) → validate_record r ≡ success → IsValid r
unfolding validate_record is_valid_record_type is_valid_lsn
validate_record-IsValid r h = record {
  known = ground arith;
  last = ground arith;
  numbered = λ e. ground (arith, e);
  timed = λ e. ground (arith, e);
}

pub IsValid-validate_record : (r : LogRecord) → IsValid r → validate_record r ≡ success
unfolding validate_record is_valid_record_type is_valid_lsn
IsValid-validate_record r v = ground (arith, v.numbered, v.timed)

pub both_ok : (st next : Status) → (st >> next) ≡ success → (st ≡ success) × (next ≡ success)
both_ok (ok u) next h = (refl, h)
both_ok (err c) next h = cc
