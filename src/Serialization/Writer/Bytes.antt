-- ===== src/Serialization/Writer/Bytes.antt =====
-- What BinaryWriter.cpp leaves in its buffer.
use quartz_database_c.Prelude.{
  ℕ, zero, suc, ◌+◌, ◌/◌, ◌^◌, ◌≤◌, ◌<◌, ◌≡◌, true, false, List, [], ◌∷◌, ◌++◌, length, take, drop,
  replicate, ltb, ◌==◌, arith, refl, ap, sym, ◌∙◌, append-nil, length-append, length-replicate,
}
use quartz_database_c.Status.{ok}
use quartz_database_c.Serialization.Buffer.{empty_buffer, copy_to, resize}
use quartz_database_c.Serialization.Buffer.Growth.{
  grow_for-bytes, resize_bytes-longer, length-copy_to, length-resize_bytes,
}
use quartz_database_c.Serialization.Reader.{read_bytes, le_value}
use quartz_database_c.Serialization.Writer.{
  BinaryWriter, open_writer, write_value, ensure_capacity, extend_to, write_bytes, le_bytes,
}

copy_to-past : (xs src : List ℕ) → copy_to xs (length xs) src ≡ xs
unfolding copy_to
copy_to-past [] [] = refl
copy_to-past [] (s ∷ src) = refl
copy_to-past (x ∷ xs) src = ap (λ t. x ∷ t) (copy_to-past xs src)

pub copy_to-there :
    (xs : List ℕ) (at : ℕ) (src : List ℕ)
    → at + length src ≤ length xs
    → take (length src) (drop at (copy_to xs at src)) ≡ src
unfolding copy_to
copy_to-there xs zero [] h = refl
copy_to-there [] zero (s ∷ src) h = absurd (omega arith)
copy_to-there (x ∷ xs) zero (s ∷ src) h = ap (λ t. s ∷ t) (copy_to-there xs zero src (omega arith))
copy_to-there [] (suc at) src h = absurd (omega arith)
copy_to-there (x ∷ xs) (suc at) src h = copy_to-there xs at src (omega arith)

copy_to-before : (xs : List ℕ) (at : ℕ) (src : List ℕ) → take at (copy_to xs at src) ≡ take at xs
unfolding copy_to
copy_to-before xs zero src = refl
copy_to-before [] (suc at) src = refl
copy_to-before (x ∷ xs) (suc at) src = ap (λ t. x ∷ t) (copy_to-before xs at src)

copy_to-front : (xs src : List ℕ) → drop (length src) (copy_to xs 0 src) ≡ drop (length src) xs
unfolding copy_to
copy_to-front [] [] = refl
copy_to-front [] (s ∷ src) = refl
copy_to-front (x ∷ xs) [] = refl
copy_to-front (x ∷ xs) (s ∷ src) = copy_to-front xs src

copy_to-after :
    (xs : List ℕ) (at : ℕ) (src : List ℕ)
    → drop (at + length src) (copy_to xs at src) ≡ drop (at + length src) xs
unfolding copy_to
copy_to-after xs zero src =
    let e : length src ≡ 0 + length src = omega arith in
    ap (λ (k : ℕ). drop k (copy_to xs 0 src)) (sym e)
    ∙ copy_to-front xs src
    ∙ ap (λ (k : ℕ). drop k xs) e
copy_to-after [] (suc at) src = refl
copy_to-after (x ∷ xs) (suc at) src =
    let e : suc (at + length src) ≡ suc at + length src = omega arith in
    ap (λ (k : ℕ). drop k (copy_to (x ∷ xs) (suc at) src)) (sym e)
    ∙ copy_to-after xs at src
    ∙ ap (λ (k : ℕ). drop k (x ∷ xs)) e

-- Bytes written at the end of the buffer are lost: as many zeros are appended.
pub write_bytes_appends_zeros :
    (w : BinaryWriter) (src : List ℕ)
    → w.offset ≡ length w.buffer.bytes
    → ((write_bytes w src).buffer.bytes ≡ w.buffer.bytes ++ replicate (length src) 0)
      × ((write_bytes w src).offset ≡ length (write_bytes w src).buffer.bytes)
unfolding write_bytes ensure_capacity extend_to resize
write_bytes_appends_zeros w [] h = (sym (append-nil w.buffer.bytes), h)
write_bytes_appends_zeros w (s ∷ src) h =
    let n = length (s ∷ src) in
    let some_bytes : (length (s ∷ src) == 0) ≡ false = ground arith in
    let longer : ltb (length w.buffer.bytes) (length w.buffer.bytes + length (s ∷ src)) ≡ true =
      ground arith in
    rw
      (
        some_bytes,
        grow_for-bytes w.buffer (w.offset + n),
        h,
        copy_to-past w.buffer.bytes (s ∷ src),
        longer,
      )
      (
        resize_bytes-longer w.buffer.bytes n,
        sym (length-resize_bytes w.buffer.bytes (length w.buffer.bytes + n)),
      )

pub copy_to-none : (xs : List ℕ) (at : ℕ) → copy_to xs at [] ≡ xs
unfolding copy_to
copy_to-none [] zero = refl
copy_to-none (x ∷ xs) zero = refl
copy_to-none [] (suc at) = refl
copy_to-none (x ∷ xs) (suc at) = ap (λ t. x ∷ t) (copy_to-none xs at)

-- Inside the buffer a write is a copy.
write_bytes-inside :
    (w : BinaryWriter) (src : List ℕ)
    → w.offset + length src ≤ length w.buffer.bytes
    → ((write_bytes w src).buffer.bytes ≡ copy_to w.buffer.bytes w.offset src)
      × ((write_bytes w src).offset ≡ w.offset + length src)
unfolding write_bytes ensure_capacity extend_to
write_bytes-inside w [] h = (sym (copy_to-none w.buffer.bytes w.offset), omega arith)
write_bytes-inside w (s ∷ src) h =
    let some_bytes : (length (s ∷ src) == 0) ≡ false = ground arith in
    let short : ltb (length (copy_to w.buffer.bytes w.offset (s ∷ src)))
          (w.offset + length (s ∷ src))
        ≡ false =
      ground (arith, length-copy_to w.buffer.bytes w.offset (s ∷ src)) in
    rw (some_bytes, grow_for-bytes w.buffer (w.offset + length (s ∷ src)), short) (refl, refl)

read_copied :
    (xs : List ℕ) (at : ℕ) (src : List ℕ)
    → at + length src ≤ length xs
    → read_bytes (record { view = copy_to xs at src; offset = at }) (length src)
      ≡ ok (src, record { view = copy_to xs at src; offset = at + length src })
unfolding read_bytes
read_copied xs at [] h = let e : at ≡ at + 0 = omega arith in cc
read_copied xs at (s ∷ src) h =
    let some_bytes : (length (s ∷ src) == 0) ≡ false = ground arith in
    let inside : ltb (length (copy_to xs at (s ∷ src))) (at + length (s ∷ src)) ≡ false =
      ground (arith, length-copy_to xs at (s ∷ src)) in
    rw (some_bytes, inside, copy_to-there xs at (s ∷ src) h) refl

-- Bytes written over bytes that are in the buffer are there to read, at the offset where the writer
-- stood; the size and all other bytes stay.
pub read_bytes-write_bytes :
    (w : BinaryWriter) (src : List ℕ)
    → w.offset + length src ≤ length w.buffer.bytes
    → let w' = write_bytes w src in
      (read_bytes (record { view = w'.buffer.bytes; offset = w.offset }) (length src)
        ≡ ok (src, record { view = w'.buffer.bytes; offset = w'.offset }))
      × (length w'.buffer.bytes ≡ length w.buffer.bytes)
      × (take w.offset w'.buffer.bytes ≡ take w.offset w.buffer.bytes)
      × (drop w'.offset w'.buffer.bytes ≡ drop w'.offset w.buffer.bytes)
unfolding read_bytes
read_bytes-write_bytes w src h =
    let (bytes, offset) = write_bytes-inside w src h in
    rw (bytes, offset)
      (
        read_copied w.buffer.bytes w.offset src h,
        length-copy_to w.buffer.bytes w.offset src,
        copy_to-before w.buffer.bytes w.offset src,
        copy_to-after w.buffer.bytes w.offset src,
      )

-- A number of `n` bytes is read back from the bytes it is written as.
pub le_value-le_bytes : (n v : ℕ) → v < 256 ^ n → le_value (le_bytes n v) ≡ v
unfolding le_bytes le_value
le_value-le_bytes zero v h = omega arith
le_value-le_bytes (suc n) v h =
    let e : v / 256 < 256 ^ n = omega arith in
    let rest = le_value-le_bytes n (v / 256) e in omega (arith, rest)

-- A writer at the end of a buffer of zeros: all that a fresh writer comes to, whatever is written.
pub record ZeroWriter (w : BinaryWriter) : Type 0 where
  pub at_end : w.offset ≡ length w.buffer.bytes
  pub zeros : w.buffer.bytes ≡ replicate w.offset zero

replicate-append : (n m : ℕ) → replicate n zero ++ replicate m zero ≡ replicate (n + m) zero
replicate-append zero m = let e : m ≡ 0 + m = omega arith in ap (λ (k : ℕ). replicate k zero) e
replicate-append (suc n) m =
    let e : suc (n + m) ≡ suc n + m = omega arith in
    ap (λ t. zero ∷ t) (replicate-append n m) ∙ ap (λ (k : ℕ). replicate k zero) e

pub write_bytes-ZeroWriter :
    (w : BinaryWriter) (src : List ℕ)
    → ZeroWriter w
    → ZeroWriter (write_bytes w src) × ((write_bytes w src).offset ≡ w.offset + length src)
write_bytes-ZeroWriter w src z =
    let (bytes, end) = write_bytes_appends_zeros w src z.at_end in
    let size : (write_bytes w src).offset ≡ w.offset + length src = omega (
      arith,
      ap (λ (t : List ℕ). length t) bytes,
      length-append w.buffer.bytes (replicate (length src) 0),
      length-replicate (length src) zero,
      z.at_end,
    ) in
    (
      record {
        at_end = end;
        zeros =
            bytes
            ∙ ap (λ t. t ++ replicate (length src) zero) z.zeros
            ∙ replicate-append w.offset (length src)
            ∙ ap (λ (k : ℕ). replicate k zero) (sym size);
      },
      size,
    )

pub open_writer-ZeroWriter : ZeroWriter (open_writer empty_buffer)
unfolding open_writer
open_writer-ZeroWriter = record { at_end = refl; zeros = refl }

pub length-le_bytes : (n v : ℕ) → length (le_bytes n v) ≡ n
unfolding le_bytes
length-le_bytes zero v = refl
length-le_bytes (suc n) v = ap suc (length-le_bytes n (v / 256))

pub write_value-ZeroWriter :
    (w : BinaryWriter) (n v : ℕ)
    → ZeroWriter w
    → ZeroWriter (write_value w n v) × ((write_value w n v).offset ≡ w.offset + n)
unfolding write_value
write_value-ZeroWriter w n v z =
    let (after, size) = write_bytes-ZeroWriter w (le_bytes n v) z in
    (after, omega (arith, size, length-le_bytes n v))

-- Copying zeros over zeros.
pub copy_to-zeros : (n m : ℕ) → copy_to (replicate n zero) 0 (replicate m zero) ≡ replicate n zero
unfolding copy_to
copy_to-zeros zero zero = refl
copy_to-zeros zero (suc m) = refl
copy_to-zeros (suc n) zero = refl
copy_to-zeros (suc n) (suc m) = ap (λ t. zero ∷ t) (copy_to-zeros n m)

-- A write moves the writer by the number of bytes, wherever it stands.
pub offset-write_bytes :
    (w : BinaryWriter) (src : List ℕ) → (write_bytes w src).offset ≡ w.offset + length src
unfolding write_bytes
offset-write_bytes w [] = omega arith
offset-write_bytes w (s ∷ src) =
    let some_bytes : (length (s ∷ src) == 0) ≡ false = ground arith in
    rw (some_bytes, write_bytes) refl

pub offset-write_value : (w : BinaryWriter) (n v : ℕ) → (write_value w n v).offset ≡ w.offset + n
unfolding write_value
offset-write_value w n v = omega (arith, offset-write_bytes w (le_bytes n v), length-le_bytes n v)
