-- ===== src/Wal/LogFile/Entry.antt =====
-- A record in the file of LogFile.cpp: its size, its bytes, and zeros up to a multiple of eight.
use quartz_database_c.Prelude.{
  ℕ, ◌+◌, ◌^◌, ◌≤◌, ◌<◌, ◌≡◌, false, List, ◌++◌, length, take, drop, replicate, ltb, ◌==◌, arith,
  refl, sym, length-append, length-replicate, take-append, drop-append,
}
use mathlib.Core.List.{append_assoc}
use quartz_database_c.Status.{Result, ok}
use quartz_database_c.Outcome.{returned}
use quartz_database_c.Outcome.Action.Ending.{
  Ends, ends_same, ends-bind, ends-seq, ends-reads, ends-fail_if_false,
}
use quartz_database_c.Serialization.Reader
use quartz_database_c.Serialization.Reader.{BinaryReader, open_reader, le_value}
use quartz_database_c.Serialization.Reader.Ahead.{Ahead, drop-drop}
use quartz_database_c.Serialization.Writer.{le_bytes}
use quartz_database_c.Serialization.Writer.Bytes.{length-le_bytes, le_value-le_bytes}
use quartz_database_c.Wal.Record.{LogRecord, wire_size}
use quartz_database_c.Wal.Record.Wire.{IsWord, wire, length-wire, deserialize-wire}
use quartz_database_c.Wal.LogFile.{LogFile, read_record, padded_size, record_in, parsed}
use quartz_database_c.Wal.LogFile.Opened.{
  to_eight, padded_size-to_eight, IsLog, open-IsLog, read_bytes-IsLog,
}

pub padding : LogRecord → ℕ
padding r = to_eight (4 + wire_size r)

pub entry : LogRecord → List ℕ
entry r = le_bytes 4 (wire_size r) ++ (wire r ++ replicate (padding r) 0)

pub length-entry : (r : LogRecord) → length (entry r) ≡ padded_size (4 + wire_size r)
unfolding entry padding
length-entry r = omega (
  arith,
  length-append (le_bytes 4 (wire_size r)) (wire r ++ replicate (padding r) 0),
  length-append (wire r) (replicate (padding r) 0),
  length-le_bytes 4 (wire_size r),
  length-wire r,
  length-replicate {A = ℕ} (padding r) 0,
  padded_size-to_eight (4 + wire_size r),
)

take_part {ℓ} : {A : Type ℓ} (n : ℕ) (xs ys : List A) → length xs ≡ n → take n (xs ++ ys) ≡ xs
take_part n xs ys e = rw (sym e) (take-append xs ys)

drop_part {ℓ} : {A : Type ℓ} (n : ℕ) (xs ys : List A) → length xs ≡ n → drop n (xs ++ ys) ≡ ys
drop_part n xs ys e = rw (sym e) (drop-append xs ys)

-- The size and the bytes of a record, by themselves.
pub record_in-wire :
    (r : LogRecord)
    → IsWord r
    → (after : BinaryReader) × (record_in (le_bytes 4 (wire_size r) ++ wire r) ≡ ok (r, after))
unfolding record_in Reader.skip open_reader
record_in-wire r w =
    let size = le_bytes 4 (wire_size r) in
    let four : length size ≡ 4 = length-le_bytes 4 (wire_size r) in
    let long : 4 ≤ length (size ++ wire r) = omega (arith, length-append size (wire r), four) in
    let room : ltb (length (size ++ wire r)) 4 ≡ false = ground (arith, long) in
    let ahead : Ahead (record { view = size ++ wire r; offset = 4 }) (wire r) = record {
      inside = long;
      left = drop_part 4 size (wire r) four;
    } in
    rw room (deserialize-wire r _ w ahead)

pub parsed_ok :
    (k : ℕ) {r : LogRecord} {after : BinaryReader} {o : Result (LogRecord × BinaryReader)}
    → o ≡ ok (r, after)
    → parsed k o ≡ returned (r, k)
unfolding parsed
parsed_ok k e = rw e refl

-- A size and as many bytes, anywhere in a file.
module _ (pre body post : List ℕ) (n : ℕ) (counted : length body ≡ n) (small : n < 2 ^ 32) where
  abbrev framed_bytes : List ℕ
  framed_bytes = pre ++ (le_bytes 4 n ++ (body ++ post))

  at_frame : drop (length pre) framed_bytes ≡ le_bytes 4 n ++ (body ++ post)
  at_frame = drop-append pre (le_bytes 4 n ++ (body ++ post))

  size_there : take 4 (drop (length pre) framed_bytes) ≡ le_bytes 4 n
  size_there = rw at_frame (take_part 4 _ _ (length-le_bytes 4 n))

  body_there : take (length (replicate {A = ℕ} n 0)) (drop (length pre + 4) framed_bytes) ≡ body
  body_there =
      rw
        (
          length-replicate {A = ℕ} n 0,
          drop-drop (length pre) 4 framed_bytes,
          at_frame,
          drop_part 4 (le_bytes 4 n) (body ++ post) (length-le_bytes 4 n),
        )
        (take_part n body post counted)

  frame_fits : length pre + 4 + n ≤ length framed_bytes
  frame_fits = omega (
    arith,
    length-append pre (le_bytes 4 n ++ (body ++ post)),
    length-append (le_bytes 4 n) (body ++ post),
    length-append body post,
    length-le_bytes 4 n,
    counted,
  )

  size_value : le_value (le_bytes 4 n) ≡ n
  size_value = le_value-le_bytes 4 n (omega (arith, small))

  -- What the bytes are parsed to is what `readRecord` gives.
  pub read_record-framed :
      (r : LogRecord) (after : BinaryReader)
      → record_in (le_bytes 4 n ++ body) ≡ ok (r, after)
      → (n == 0) ≡ false
      → (a : ℕ) (l : LogFile) → IsLog framed_bytes a l
      → Ends l (read_record (length pre)) (returned (r, padded_size (4 + n))) (IsLog framed_bytes a)
  unfolding read_record
  read_record-framed r after parses not_empty a l h =
      let size_fits : length pre + length (replicate {A = ℕ} 4 0) ≤ length framed_bytes =
        omega (arith, frame_fits) in
      let body_fits : length pre + 4 + length (replicate {A = ℕ} n 0) ≤ length framed_bytes =
        omega (arith, frame_fits, length-replicate {A = ℕ} n 0) in
      let read : parsed (padded_size (4 + n)) (record_in (le_bytes 4 n ++ body))
          ≡ returned (r, padded_size (4 + n)) =
        parsed_ok (padded_size (4 + n)) parses in
      ends-seq (open-IsLog framed_bytes a l h) (λ l1 h1.
        ends-bind _
          (ends_same size_there
            (read_bytes-IsLog framed_bytes (replicate 4 0) a (length pre) l1 h1 size_fits))
          (λ l2 h2. rw size_value (
            ends-seq (ends-fail_if_false _ _ not_empty h2) (λ l3 h3.
              ends-bind _
                (ends_same body_there (
                  read_bytes-IsLog framed_bytes (replicate n 0) a (length pre + 4) l3 h3 body_fits))
                (λ l4 h4. ends-reads _ read h4)))))

pub not_empty : (r : LogRecord) → (wire_size r == 0) ≡ false
unfolding wire_size
not_empty r = ground arith

entry_parts :
    (r : LogRecord) (post : List ℕ)
    → (entry r ++ post) ≡ le_bytes 4 (wire_size r) ++ (wire r ++ (replicate (padding r) 0 ++ post))
unfolding entry
entry_parts r post = simp append_assoc

-- A record is read where it stands, and the place after it is given.
pub read_record-entry :
    (pre post : List ℕ) (r : LogRecord) (w : IsWord r) (a : ℕ) (l : LogFile)
    → IsLog (pre ++ (entry r ++ post)) a l
    → Ends l
        (read_record (length pre))
        (returned (r, length (entry r)))
        (IsLog (pre ++ (entry r ++ post)) a)
read_record-entry pre post r w a l =
    let (after, e) = record_in-wire r w in
    rw (entry_parts r post, length-entry r)
      (read_record-framed pre (wire r) (replicate (padding r) 0 ++ post) (wire_size r)
        (length-wire r) w.size r after e (not_empty r) a l)
