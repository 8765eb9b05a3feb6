-- ===== src/Varint.antt =====
-- src/serialization/VariableLengthInteger.cpp: 7-bit groups, lowest first, bit 7 set on all but the
-- last. A byte array is a list; words are numbers below `2 ^ 64`, signed ones two's complement.
mod Tests
pub mod Encode
pub mod RoundTrip
pub mod Zigzag
use quartz_database_c.Prelude.{
  ℕ, zero, suc, ◌+◌, ◌-◌, ◌*◌, ◌/◌, ◌%◌, ◌^◌, List, [], ◌∷◌, bit_and, bit_or, bit_xor, ltb, leb,
  ◌==◌, not, ◌&&◌, if◌then◌else◌, length,
}
use quartz_database_c.Status.{Result, ok, err, invalid_argument, corruption, ◌>>=◌, map_ok}

abbrev pub max_varint32_bytes : ℕ
max_varint32_bytes = 5

abbrev pub max_varint64_bytes : ℕ
max_varint64_bytes = 10

-- The `do` loop, by the rounds that `maxBytes` leaves; the result is `buf[0 .. i)`.
pub encode_loop : ℕ → ℕ → Result (List ℕ)
encode_loop zero value = err invalid_argument
encode_loop (suc rounds) value =
    let byte = bit_and value 0x7f in
    let value' = value / 2 ^ 7 in
    let rest = encode_loop rounds value' in
    if value' == 0 then ok (byte ∷ []) else map_ok (λ bs. bit_or byte 0x80 ∷ bs) rest

-- The bytes that are copied to `out`, which has room for `out_size`.
pub encode_impl : ℕ → ℕ → ℕ → Result (List ℕ)
encode_impl value out_size max_bytes = do
  buf ← encode_loop max_bytes value
  if ltb out_size (length buf) then err invalid_argument else ok buf

-- `x << shift` on 64 bits.
abbrev pub shl64 : ℕ → ℕ → ℕ
shl64 x shift = x * 2 ^ shift % 2 ^ 64

-- The `for` loop over the bytes not read yet, `i` of them read; the value and `bytesConsumed`.
pub decode_loop : ℕ → List ℕ → ℕ → ℕ → ℕ → Result (ℕ × ℕ)
decode_loop zero input value shift i = err corruption
decode_loop (suc rounds) [] value shift i = err corruption
decode_loop (suc rounds) (byte ∷ input) value shift i =
    let value' = bit_or value (shl64 (bit_and byte 0x7f) shift) in
    let rest = decode_loop rounds input value' (shift + 7) (i + 1) in
    if bit_and byte 0x80 == 0
    then ok (value', i + 1)
    else if leb 64 (shift + 7) && not (bit_and byte 0x7f == 0)
    then err corruption
    else rest

pub decode_impl : List ℕ → ℕ → Result (ℕ × ℕ)
decode_impl input max_bytes = decode_loop max_bytes input 0 0 0

-- The `while` loop on fuel; a 64-bit value takes nine rounds at most.
pub size_loop : ℕ → ℕ → ℕ → ℕ
size_loop zero value count = count
size_loop (suc fuel) value count =
    let rest = size_loop fuel (value / 2 ^ 7) (count + 1) in if leb 0x80 value then rest else count

pub encoded_size_impl : ℕ → ℕ
encoded_size_impl value = size_loop 10 value 1

pub encode_u32 : ℕ → ℕ → Result (List ℕ)
encode_u32 value out_size = encode_impl value out_size max_varint32_bytes

pub decode_u32 : List ℕ → Result (ℕ × ℕ)
decode_u32 input = do
  (tmp, consumed) ← decode_impl input max_varint32_bytes
  if ltb 0xffff_ffff tmp then err corruption else ok (tmp, consumed)

pub encode_u64 : ℕ → ℕ → Result (List ℕ)
encode_u64 value out_size = encode_impl value out_size max_varint64_bytes

pub decode_u64 : List ℕ → Result (ℕ × ℕ)
decode_u64 input = decode_impl input max_varint64_bytes

-- The casts to unsigned make `value >> (w - 1)` a logical shift.
pub zigzag : ℕ → ℕ → ℕ
zigzag w value = bit_xor (value * 2 % 2 ^ w) (value / 2 ^ (w - 1))

-- `(zigzag >> 1) ^ -(zigzag & 1)`, the negation on the w-bit two's complement.
pub unzigzag : ℕ → ℕ → ℕ
unzigzag w code = bit_xor (code / 2) ((2 ^ w - bit_and code 1) % 2 ^ w)

pub encode_s32 : ℕ → ℕ → Result (List ℕ)
encode_s32 value out_size = encode_u32 (zigzag 32 value) out_size

pub decode_s32 : List ℕ → Result (ℕ × ℕ)
decode_s32 input = do (code, consumed) ← decode_u32 input; ok (unzigzag 32 code, consumed)

pub encode_s64 : ℕ → ℕ → Result (List ℕ)
encode_s64 value out_size = encode_u64 (zigzag 64 value) out_size

pub decode_s64 : List ℕ → Result (ℕ × ℕ)
decode_s64 input = do (code, consumed) ← decode_u64 input; ok (unzigzag 64 code, consumed)

pub encoded_size_u32 : ℕ → ℕ
encoded_size_u32 value = encoded_size_impl value

pub encoded_size_u64 : ℕ → ℕ
encoded_size_u64 value = encoded_size_impl value

pub encoded_size_s32 : ℕ → ℕ
encoded_size_s32 value = encoded_size_impl (zigzag 32 value)

pub encoded_size_s64 : ℕ → ℕ
encoded_size_s64 value = encoded_size_impl (zigzag 64 value)
