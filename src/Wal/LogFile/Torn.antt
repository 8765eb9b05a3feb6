-- ===== src/Wal/LogFile/Torn.antt =====
-- A file of LogFile.cpp that ends in the payload of a record.
use mathlib.Core.List.{append_assoc}
use quartz_database_c.Prelude.{
  ℕ, zero, suc, ◌+◌, ◌≤◌, ◌<◌, ◌≡◌, ◌∙◌, List, ◌++◌, length, take, drop, replicate, arith, refl, ap,
  sym, length-append, length-replicate, drop-append, take-append,
}
use quartz_database_c.Status.{ok}
use quartz_database_c.Outcome.{returned}
use quartz_database_c.Outcome.Action.Ending.{
  Ends, ends_weaken, ends_same, ends-bind, ends-seq, ends-reads, ends-fail_if_false, ends-within,
}
use quartz_database_c.Storage.DatabaseFile
use quartz_database_c.Storage.DatabaseFile.{DatabaseFile}
use quartz_database_c.Storage.DatabaseFile.Stream.{IsStuck, short_read-IsStuck}
use quartz_database_c.Serialization.Reader.{BinaryReader, le_value}
use quartz_database_c.Serialization.Reader.Ahead.{drop-drop}
use quartz_database_c.Serialization.Writer.{le_bytes}
use quartz_database_c.Serialization.Writer.Bytes.{length-le_bytes, le_value-le_bytes}
use quartz_database_c.Wal.Record.{LogRecord, wire_size}
use quartz_database_c.Wal.Record.Wire.{
  IsWord, wire, wire_head, wire_parts, length-wire_head, wire_head-payload,
}
use quartz_database_c.Wal.LogFile.{
  LogFile, read_bytes, read_record, record_in, padded_size, on_file,
}
use quartz_database_c.Wal.LogFile.Opened.{IsLog, Stands, seek-IsLogAt, open-IsLog, read_bytes-IsLog}
use quartz_database_c.Wal.LogFile.Stuck.{HasFailed, NoCallWorks, failed-NoCallWorks}
use quartz_database_c.Wal.LogFile.Entry.{record_in-wire, parsed_ok, not_empty}

short_read-Stands :
    (bytes dest : List ℕ) (offset : ℕ) (f : DatabaseFile)
    → Stands bytes offset f
    → offset ≤ length bytes
    → length bytes < offset + length dest
    → let got = drop offset bytes in
      Ends f (DatabaseFile.read_bytes dest) (returned (got ++ drop (length got) dest)) IsStuck
short_read-Stands bytes dest offset f h inside short =
    let (outcome, stuck, again) =
      short_read-IsStuck f bytes dest h.file.is_open h.file.sound h.file.not_past h.file.stored
        (rw h.there inside) (rw h.there short) in
    record {
      outcome =
          outcome
          ∙ ap (λ (k : ℕ). returned (drop k bytes ++ drop (length (drop k bytes)) dest)) h.there;
      after = stuck;
    }

short_read-IsLog :
    (bytes dest : List ℕ) (a offset : ℕ) (l : LogFile)
    → IsLog bytes a l
    → offset ≤ length bytes
    → length bytes < offset + length dest
    → let got = drop offset bytes in
      Ends l (read_bytes offset dest) (returned (got ++ drop (length got) dest)) HasFailed
unfolding read_bytes on_file
short_read-IsLog bytes dest a offset l h inside short = ends-seq (open-IsLog bytes a l h) (λ l1 h1.
    ends-seq (seek-IsLogAt bytes a offset l1 h1) (λ l2 (h2, there).
      ends-within (λ l. l.file) (λ file l. record l { file = file })
        (short_read-Stands bytes dest offset l2.file there inside short)
        (λ f stuck. record {
          attached = h2.attached;
          is_open = stuck.opened;
          broken = stuck.broken;
        })))

drop-replicate : (k n : ℕ) → drop k (replicate (k + n) zero) ≡ replicate n zero
drop-replicate zero n = let e : 0 + n ≡ n = omega arith in rw e refl
drop-replicate (suc k) n =
    let e : suc k + n ≡ suc (k + n) = omega arith in rw e (drop-replicate k n)

module _ (pre kept lost : List ℕ) (r : LogRecord) (w : IsWord r)
    (parts : r.payload ≡ kept ++ lost) where
  abbrev stored : List ℕ
  stored = pre ++ (le_bytes 4 (wire_size r) ++ (wire_head r ++ kept))

  abbrev torn : LogRecord
  torn = record r { payload = kept ++ replicate (length lost) 0 }

  size_fits : length pre + length (replicate {A = ℕ} 4 0) ≤ length stored
  size_fits = omega (
    arith,
    length-append pre (le_bytes 4 (wire_size r) ++ (wire_head r ++ kept)),
    length-append (le_bytes 4 (wire_size r)) (wire_head r ++ kept),
    length-le_bytes 4 (wire_size r),
  )

  at_size : drop (length pre) stored ≡ le_bytes 4 (wire_size r) ++ (wire_head r ++ kept)
  at_size = drop-append pre _

  part {ℓ} :
      {A : Type ℓ} (n : ℕ) (xs ys : List A)
      → length xs ≡ n
      → (take n (xs ++ ys) ≡ xs) × (drop n (xs ++ ys) ≡ ys)
  part n xs ys e = (rw (sym e) (take-append xs ys), rw (sym e) (drop-append xs ys))

  size_there : take 4 (drop (length pre) stored) ≡ le_bytes 4 (wire_size r)
  size_there = rw at_size (part 4 _ _ (length-le_bytes 4 (wire_size r))).0

  body_there : drop (length pre + 4) stored ≡ wire_head r ++ kept
  body_there =
      rw (drop-drop (length pre) 4 stored, at_size) (part 4 _ _ (length-le_bytes 4 (wire_size r))).1

  length_parts : wire_size r ≡ length (wire_head r ++ kept) + length lost
  unfolding wire_size
  length_parts = omega (
    arith,
    length-append (wire_head r) kept,
    length-wire_head r,
    ap (λ (t : List ℕ). length t) parts,
    length-append kept lost,
  )

  same_length : length (kept ++ replicate (length lost) 0) ≡ length r.payload
  same_length = omega (
    arith,
    length-append kept (replicate (length lost) 0),
    length-replicate {A = ℕ} (length lost) 0,
    ap (λ (t : List ℕ). length t) parts,
    length-append kept lost,
  )

  torn-wire : (wire_head r ++ kept) ++ replicate (length lost) 0 ≡ wire torn
  torn-wire =
      append_assoc (wire_head r) kept (replicate (length lost) 0)
      ∙ ap (λ t. t ++ (kept ++ replicate (length lost) 0))
          (sym (wire_head-payload r (kept ++ replicate (length lost) 0) same_length))
      ∙ sym (wire_parts torn)

  body_read :
      let got = drop (length pre + 4) stored in
      (got ++ drop (length got) (replicate (wire_size r) 0)) ≡ wire torn
  body_read =
      rw (body_there, length_parts, drop-replicate (length (wire_head r ++ kept)) (length lost))
        torn-wire

  torn_size : wire_size torn ≡ wire_size r
  unfolding wire_size
  torn_size = omega (arith, same_length)

  torn-IsWord : IsWord torn
  torn-IsWord = record {
    tag = w.tag;
    lsn = w.lsn;
    timestamp = w.timestamp;
    page_id = w.page_id;
    transaction_id = w.transaction_id;
    checksum = w.checksum;
    reserved0 = w.reserved0;
    reserved1 = w.reserved1;
    size = omega (arith, torn_size, w.size);
  }

  parses :
      (after : BinaryReader) × (record_in (le_bytes 4 (wire_size r) ++ wire torn)
        ≡ ok (torn, after))
  parses = rw (← torn_size) (record_in-wire torn torn-IsWord)

  size_value : le_value (le_bytes 4 (wire_size r)) ≡ wire_size r
  size_value = le_value-le_bytes 4 (wire_size r) (omega (arith, w.size))

  at_body : length pre + 4 ≤ length stored
  at_body = omega (arith, size_fits)

  too_short :
      0 < length lost → length stored < length pre + 4 + length (replicate {A = ℕ} (wire_size r) 0)
  too_short cut = omega (
    arith,
    cut,
    length-append pre (le_bytes 4 (wire_size r) ++ (wire_head r ++ kept)),
    length-append (le_bytes 4 (wire_size r)) (wire_head r ++ kept),
    length-le_bytes 4 (wire_size r),
    length_parts,
    length-replicate {A = ℕ} (wire_size r) 0,
  )

  -- In an open log file on which no call has failed, a record whose fields fit their widths, and whose payload
  -- is cut off by the end of the file while all before the payload is there, is read all the same, with
  -- zeros in place of the missing bytes of the payload. But from then on every call of `readRecord`, `append`
  -- and `flush` on the log file fails with `ioError`, however many of them there have been.
  pub read_record-torn :
      (a : ℕ) (l : LogFile)
      → 0 < length lost
      → IsLog stored a l
      → Ends l
          (read_record (length pre))
          (returned (torn, padded_size (4 + wire_size r)))
          NoCallWorks
  unfolding read_record
  read_record-torn a l cut h =
      let (after, e) = parses in
      ends_weaken
        (ends-seq (open-IsLog stored a l h) (λ l1 h1.
          ends-bind _
            (ends_same size_there
              (read_bytes-IsLog stored (replicate 4 0) a (length pre) l1 h1 size_fits))
            (λ l2 h2. rw size_value (
              ends-seq (ends-fail_if_false _ _ (not_empty r) h2) (λ l3 h3.
                ends-bind _
                  (ends_same body_read (
                    short_read-IsLog stored (replicate (wire_size r) 0) a (length pre + 4) l3 h3
                      at_body (too_short cut)))
                  (λ l4 stuck. ends-reads _ (parsed_ok _ e) stuck))))))
        failed-NoCallWorks
