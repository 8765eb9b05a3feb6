-- ===== src/Serialization/Writer.antt =====
-- serialization/BinaryWriter.h and BinaryWriter.cpp, on a little-endian machine. (The byte order that the
-- constructor takes is never read.) `ensureCapacity` cannot fail.
pub mod Bytes
use quartz_database_c.Prelude.{
  ℕ, zero, suc, ◌+◌, ◌-◌, ◌*◌, ◌/◌, ◌%◌, ◌^◌, List, [], ◌∷◌, ◌++◌, length, take, drop, replicate,
  ltb, ◌==◌, if◌then◌else◌, reverse, max,
}
use quartz_database_c.Status.{Result, ok, err, invalid_argument, ◌>>=◌}
use quartz_database_c.Serialization.Buffer.{Buffer, grow_for, resize, copy_to}
use quartz_database_c.Serialization.View.{BufferView}
use quartz_database_c.Varint.{
  encode_u32, encode_u64, encode_s32, encode_s64, max_varint32_bytes, max_varint64_bytes,
}

pub record BinaryWriter : Type 0 where
  pub buffer : Buffer
  pub offset : ℕ

unfoldable pub open_writer : Buffer → BinaryWriter
open_writer buffer = record { buffer = buffer; offset = length buffer.bytes }

pub remaining_capacity : BinaryWriter → ℕ
remaining_capacity w = if ltb w.buffer.capacity w.offset then 0 else w.buffer.capacity - w.offset

pub seek : BinaryWriter → ℕ → Result BinaryWriter
seek w position =
    if ltb (length w.buffer.bytes) position
    then err invalid_argument
    else ok (record w { offset = position })

-- `ensureCapacity`, which grows the buffer as the buffer's own `grow` does.
unfoldable pub ensure_capacity : Buffer → ℕ → Buffer
ensure_capacity b needed = grow_for b needed

-- `if (offset_ > buffer_.size()) buffer_.resize(offset_);`
unfoldable pub extend_to : Buffer → ℕ → Buffer
extend_to b offset = if ltb (length b.bytes) offset then resize b offset else b

pub skip : BinaryWriter → ℕ → BinaryWriter
skip w count =
    let end = w.offset + count in
    record { buffer = extend_to (ensure_capacity w.buffer end) end; offset = end }

pub align : BinaryWriter → ℕ → BinaryWriter
align w alignment =
    if alignment == 0
    then w
    else if w.offset % alignment == 0
    then w
    else skip w (alignment - w.offset % alignment)

-- The bytes are copied to the offset before the vector is resized: what they put past its size is not
-- in the vector, whose new bytes are zero.
unfoldable pub write_bytes : BinaryWriter → List ℕ → BinaryWriter
write_bytes w src =
    let end = w.offset + length src in
    let room = ensure_capacity w.buffer end in
    let copied : Buffer = record room { bytes = copy_to room.bytes w.offset src } in
    if length src == 0 then w else record { buffer = extend_to copied end; offset = end }

-- The bytes of a number, the lowest first.
unfoldable pub le_bytes : ℕ → ℕ → List ℕ
le_bytes zero v = []
le_bytes (suc n) v = v % 256 ∷ le_bytes n (v / 256)

-- `write<T>` and `writeLE<T>` for an integer of `size` bytes.
unfoldable pub write_value : BinaryWriter → ℕ → ℕ → BinaryWriter
write_value w size v = write_bytes w (le_bytes size v)

-- `writeBE<T>`: the first bytes of the reversed word of eight.
pub write_be : BinaryWriter → ℕ → ℕ → BinaryWriter
write_be w size v = write_bytes w (take size (reverse (le_bytes 8 (v % 256 ^ size))))

pub write_var_u32 : BinaryWriter → ℕ → Result BinaryWriter
write_var_u32 w value = encode_u32 value max_varint32_bytes >>= λ bytes. ok (write_bytes w bytes)

pub write_var_u64 : BinaryWriter → ℕ → Result BinaryWriter
write_var_u64 w value = encode_u64 value max_varint64_bytes >>= λ bytes. ok (write_bytes w bytes)

pub write_var_s32 : BinaryWriter → ℕ → Result BinaryWriter
write_var_s32 w value = encode_s32 value max_varint32_bytes >>= λ bytes. ok (write_bytes w bytes)

pub write_var_s64 : BinaryWriter → ℕ → Result BinaryWriter
write_var_s64 w value = encode_s64 value max_varint64_bytes >>= λ bytes. ok (write_bytes w bytes)

unfoldable pub overwrite_at : BinaryWriter → ℕ → List ℕ → Result BinaryWriter
overwrite_at w position src =
    if ltb (length w.buffer.bytes) (position + length src)
    then err invalid_argument
    else ok (record w { buffer = record w.buffer { bytes = copy_to w.buffer.bytes position src } })
