-- ===== src/Serialization/Reader.antt =====
-- serialization/BinaryReader.h and BinaryReader.cpp, on a little-endian machine. (The byte order that the
-- constructor takes is never read.) A call that fails leaves the reader as it was.
pub mod Bounds
pub mod Ahead
use quartz_database_c.Prelude.{
  ℕ, zero, suc, ◌+◌, ◌-◌, ◌*◌, ◌%◌, ◌^◌, Bool, List, [], ◌∷◌, ◌++◌, length, take, drop, replicate,
  ltb, ◌==◌, if◌then◌else◌, reverse,
}
use quartz_database_c.Status.{
  Status, Result, ok, err, invalid_argument, corruption, map_ok, ◌>>=◌, success,
}
use quartz_database_c.Serialization.Buffer.{Buffer, append}
use quartz_database_c.Serialization.View
use quartz_database_c.Serialization.View.{BufferView}
use quartz_database_c.Varint.{decode_u32, decode_u64, decode_s32, decode_s64}

pub record BinaryReader : Type 0 where
  pub view : BufferView
  pub offset : ℕ

unfoldable pub open_reader : BufferView → BinaryReader
open_reader view = record { view = view; offset = 0 }

pub remaining : BinaryReader → ℕ
remaining r = length r.view - r.offset

pub has_more : BinaryReader → Bool
has_more r = ltb r.offset (length r.view)

pub seek : BinaryReader → ℕ → Result BinaryReader
seek r position =
    if ltb (length r.view) position
    then err invalid_argument
    else ok (record r { offset = position })

unfoldable pub skip : BinaryReader → ℕ → Result BinaryReader
skip r count =
    if ltb (length r.view) (r.offset + count)
    then err corruption
    else ok (record r { offset = r.offset + count })

pub align : BinaryReader → ℕ → Result BinaryReader
align r alignment =
    if alignment == 0
    then ok r
    else if r.offset % alignment == 0
    then ok r
    else skip r (alignment - r.offset % alignment)

unfoldable pub read_bytes : BinaryReader → ℕ → Result (List ℕ × BinaryReader)
read_bytes r count =
    if count == 0
    then ok ([], r)
    else if ltb (length r.view) (r.offset + count)
    then err corruption
    else ok (take count (drop r.offset r.view), record r { offset = r.offset + count })

-- `readBytes` into a buffer, to whose end the bytes go.
pub read_bytes_into : BinaryReader → Buffer → ℕ → Result (Buffer × BinaryReader)
read_bytes_into r dest count =
    if ltb (length r.view) (r.offset + count)
    then err corruption
    else ok
        (append dest (take count (drop r.offset r.view)), record r { offset = r.offset + count })

-- The number whose bytes these are, the lowest first.
unfoldable pub le_value : List ℕ → ℕ
le_value [] = 0
le_value (b ∷ bs) = b + 256 * le_value bs

-- `read<T>` and `readLE<T>` for an integer of `size` bytes.
pub read_value : BinaryReader → ℕ → Result (ℕ × BinaryReader)
read_value r size = map_ok (λ p. (le_value p.0, p.1)) (read_bytes r size)

-- `readBE<T>`: the bytes are put in a zeroed word of eight, the word is reversed and cast to `T`.
pub read_be : BinaryReader → ℕ → Result (ℕ × BinaryReader)
read_be r size =
    map_ok (λ p. (le_value (take size (reverse (p.0 ++ replicate (8 - length p.0) 0))), p.1))
      (read_bytes r size)

-- The reader after a decoded number of `p.1` bytes.
pub advance : BinaryReader → ℕ × ℕ → ℕ × BinaryReader
advance r p = (p.0, record r { offset = r.offset + p.1 })

pub read_var_u32 : BinaryReader → Result (ℕ × BinaryReader)
read_var_u32 r = map_ok (advance r) (decode_u32 (drop r.offset r.view))

pub read_var_u64 : BinaryReader → Result (ℕ × BinaryReader)
read_var_u64 r = map_ok (advance r) (decode_u64 (drop r.offset r.view))

pub read_var_s32 : BinaryReader → Result (ℕ × BinaryReader)
read_var_s32 r = map_ok (advance r) (decode_s32 (drop r.offset r.view))

pub read_var_s64 : BinaryReader → Result (ℕ × BinaryReader)
read_var_s64 r = map_ok (advance r) (decode_s64 (drop r.offset r.view))

pub remaining_view : BinaryReader → BufferView
remaining_view r = View.subview r.view r.offset (remaining r)

pub ensure : BinaryReader → ℕ → Status
ensure r count = if ltb (length r.view) (r.offset + count) then err corruption else success

pub sub_reader : BinaryReader → ℕ → BinaryReader
sub_reader r count = open_reader (View.subview r.view r.offset count)
