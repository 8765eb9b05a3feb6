-- ===== src/Varint/RoundTrip.antt =====
-- The decoder of VariableLengthInteger.cpp reads back what the encoder wrote.
use native.Mathlib.Nat.{pow-le-pow_right}
use native.Mathlib.Numerals.{towards_suc}
use native.Mathlib.Decide.{dec_lt}
use quartz_database_c.Prelude.{
  ℕ, zero, suc, ◌+◌, ◌*◌, ◌/◌, ◌%◌, ◌^◌, ◌≤◌, ◌<◌, ◌≡◌, ◌++◌, List, bit_and, bit_or, ◌==◌,
  Bool-cases, length, arith, inl, inr, ◌∷◌, [], ap, ◌∙◌, le→ltb, lt→ltb,
}
use quartz_database_c.Prelude.Bits.{bit_and_low7, bit_or_bit7, bit_and_bit7, bit_or_above}
use quartz_database_c.Status.{Result, ok, err, map_ok-eq-ok, invalid_argument}
use quartz_database_c.Varint.Encode.{encode_loop-Encodes, size_loop-encode_loop}
use quartz_database_c.Varint.{
  encode_loop, decode_loop, shl64, size_loop, encode_impl, decode_impl, encoded_size_impl,
  encode_u32, decode_u32, encode_u64, decode_u64, encoded_size_u32, encoded_size_u64,
}

group-le : (g p : ℕ) → g ≤ 127 → g * p ≤ 127 * p
group-le g p h = grind arith

-- One group above the bits that are read already, and what is left above both.
module _ (value p acc : ℕ) (below : acc < p) (fits : value * p < 2 ^ 64) where
  split_product : value * p ≡ value / 128 * (128 * p) + value % 128 * p
  split_product = omega (
    arith,
    ap (λ (t : ℕ). t * p) (let e : value ≡ 128 * (value / 128) + value % 128 = omega arith in e),
  )

  group_fits : value % 128 * p < 2 ^ 64
  group_fits = omega (arith, split_product)

  rest_fits : value / 128 * (128 * p) < 2 ^ 64
  rest_fits = omega (arith, split_product)

  acc_below : acc + value % 128 * p < 128 * p
  acc_below = omega (arith, group-le (value % 128) p (omega arith))

shift_next : (s : ℕ) → 2 ^ (s + 7) ≡ 128 * 2 ^ s
shift_next s = simp towards_suc (omega arith)

le_mul : (a b : ℕ) → 0 < a → b ≤ a * b
le_mul a b h = grind arith

-- A shift of more than 56 bits leaves no room for a further group.
shift_room : (s value : ℕ) → 0 < value → value * 2 ^ s < 2 ^ 64 → s < 64
shift_room s value p h = elim (dec_lt s 64) [
  | yes q ↦ q
  | no q ↦ absurd (
      omega (
        arith,
        le_mul value (2 ^ s) p,
        pow-le-pow_right {n = 2} (let t : 0 < 2 = omega arith in t)
            (let t : 64 ≤ s = omega arith in t),
      ))
]

module _ (byte acc shift : ℕ) (below : acc < 2 ^ shift)
    (fits : byte % 128 * 2 ^ shift < 2 ^ 64) where
  add_group : bit_or acc (shl64 (bit_and byte 0x7f) shift) ≡ acc + byte % 128 * 2 ^ shift
  add_group =
      ap (λ (t : ℕ). bit_or acc (t * 2 ^ shift % 2 ^ 64)) (bit_and_low7 byte)
      ∙ ap (λ (t : ℕ). bit_or acc t)
          (let e : byte % 128 * 2 ^ shift % 2 ^ 64 ≡ byte % 128 * 2 ^ shift = omega arith in e)
      ∙ bit_or_above shift acc (byte % 128) below

  -- A byte below 128 ends the number.
  decode_last :
      (rounds i : ℕ) (input : List ℕ)
      → byte < 128
      → decode_loop (suc rounds) (byte ∷ input) acc shift i
        ≡ ok (acc + byte % 128 * 2 ^ shift, i + 1)
  unfolding decode_loop
  decode_last rounds i input h = ground (arith, add_group, bit_and_bit7 byte)

-- Any other byte adds its group and goes on.
decode_more :
    (g acc shift : ℕ)
    → acc < 2 ^ shift
    → g * 2 ^ shift < 2 ^ 64
    → g < 128
    → shift + 7 < 64
    → (rounds i : ℕ) (input : List ℕ)
    → decode_loop (suc rounds) ((g + 128) ∷ input) acc shift i
      ≡ decode_loop rounds input (acc + g * 2 ^ shift) (shift + 7) (i + 1)
unfolding decode_loop
decode_more g acc shift below fits small room rounds i input =
    let e : (g + 128) % 128 ≡ g = omega arith in
    let e' : (g + 128) % 128 * 2 ^ shift ≡ g * 2 ^ shift = ap (λ (t : ℕ). t * 2 ^ shift) e in
    ground
      (arith, e', add_group (g + 128) acc shift below (omega (arith, e')), bit_and_bit7 (g + 128))

last_byte : (value : ℕ) → value / 128 ≡ 0 → bit_and value 0x7f ≡ value
last_byte value h = omega (arith, bit_and_low7 value)

small_value : (value p : ℕ) → value / 128 ≡ 0 → value % 128 * p ≡ value * p
small_value value p h = ap (λ (t : ℕ). t * p) (let e : value % 128 ≡ value = omega arith in e)

more_byte : (value : ℕ) → bit_or (bit_and value 0x7f) 0x80 ≡ value % 128 + 128
more_byte value = omega (
  arith,
  bit_and_low7 value,
  bit_or_bit7 (bit_and value 0x7f) (omega (arith, bit_and_low7 value)),
)

ok_pair : {a b c d : ℕ} → a ≡ c → b ≡ d → ◌≡◌ {A = Result (ℕ × ℕ)} (ok (a, b)) (ok (c, d))
ok_pair p q = cc

ok-injective : {xs ys : List ℕ} → ok xs ≡ ok ys → xs ≡ ys
ok-injective h = cc

-- The loop, started above `acc`, reads the groups that `encode_loop` writes, whatever follows.
pub decode_loop-encode_loop :
    (r rounds value acc shift i : ℕ) (bs rest : List ℕ)
    → encode_loop r value ≡ ok bs
    → r ≤ rounds
    → acc < 2 ^ shift
    → value * 2 ^ shift < 2 ^ 64
    → decode_loop rounds (bs ++ rest) acc shift i ≡ ok (acc + value * 2 ^ shift, i + length bs)
unfolding encode_loop
decode_loop-encode_loop zero rounds value acc shift i bs rest e h below fits = cc
decode_loop-encode_loop (suc r) zero value acc shift i bs rest e h below fits = absurd (omega arith)
decode_loop-encode_loop (suc r) (suc rounds) value acc shift i bs rest e h below fits =
    elim (Bool-cases (value / 2 ^ 7 == 0)) [
      | inl done ↦
          let eq : bit_and value 0x7f ∷ [] ≡ bs = ok-injective (rw done at e) in
          rw (← eq, last_byte value (ground arith))
            (decode_last value acc shift below (omega (arith, split)) rounds i rest (ground arith)
              ∙ ok_pair (omega (arith, split, small_value value (2 ^ shift) (ground arith)))
                  (omega arith))
      | inr more ↦
          let (bs', e', eq) = map_ok-eq-ok _ (encode_loop r (value / 2 ^ 7)) (rw more at e) in
          rw (← eq, more_byte value)
            (decode_more (value % 128) acc shift below group_small (omega arith)
                (shift_room (shift + 7) (value / 128) (ground arith) next_small) rounds i
                (bs' ++ rest)
              ∙ decode_loop-encode_loop r rounds (value / 2 ^ 7) _ (shift + 7) (i + 1) bs' rest e'
                  (omega arith) next_below next_small
              ∙ ok_pair (omega (arith, split, next_product)) (omega arith))
    ]
  where
    split : value * 2 ^ shift ≡ value / 128 * (128 * 2 ^ shift) + value % 128 * 2 ^ shift
    split = split_product value (2 ^ shift) acc below fits

    next_product : value / 128 * 2 ^ (shift + 7) ≡ value / 128 * (128 * 2 ^ shift)
    next_product = ap (λ (t : ℕ). value / 128 * t) (shift_next shift)

    group_small : value % 128 * 2 ^ shift < 2 ^ 64
    group_small = omega (arith, split)

    next_small : value / 128 * 2 ^ (shift + 7) < 2 ^ 64
    next_small = omega (arith, split, next_product)

    next_below : acc + value % 128 * 2 ^ shift < 2 ^ (shift + 7)
    next_below = omega (arith, shift_next shift, acc_below value (2 ^ shift) acc below fits)

-- An encoder that takes `size` bytes at most writes what the decoder turns back into the value.
module _ (r value : ℕ) (some_round : 0 < r) (few : r ≤ 10) (fits : value < 128 ^ r)
    (word : value < 2 ^ 64) where
  encode_impl_total :
      (out_size : ℕ) (rest : List ℕ)
      → encoded_size_impl value ≤ out_size
      → (bs : List ℕ) × (encode_impl value out_size r ≡ ok bs)
        × (length bs ≡ encoded_size_impl value)
        × (length bs ≤ r)
        × (decode_impl (bs ++ rest) r ≡ ok (value, length bs))
  unfolding encode_impl decode_impl encoded_size_impl
  encode_impl_total out_size rest room =
      let (bs, e, most, _, _) = encode_loop-Encodes r value some_round fits in
      let size : length bs ≡ size_loop 10 value 1 =
        omega (arith, size_loop-encode_loop r 10 value 1 bs (omega arith) e) in
      (
        bs,
        rw (e, le→ltb out_size (length bs) (omega arith)),
        size,
        most,
        decode_loop-encode_loop r r value 0 0 0 bs rest e (omega arith) (omega arith) (omega arith)
            ∙ ok_pair (omega arith) (omega arith),
      )

  encode_impl_short :
      (out_size : ℕ)
      → out_size < encoded_size_impl value
      → encode_impl value out_size r ≡ err invalid_argument
  unfolding encode_impl encoded_size_impl
  encode_impl_short out_size short =
      let (bs, e, _, _, _) = encode_loop-Encodes r value some_round fits in
      rw (
        e,
        lt→ltb out_size (length bs)
            (omega (arith, size_loop-encode_loop r 10 value 1 bs (omega arith) e)),
      )

-- A 64-bit value is written in the number of bytes that `encodedSizeU64` says, ten at most, if the
-- output has the room, and `decodeU64` reads the value and that number of bytes back whatever follows.
pub decode_u64-encode_u64 :
    (value out_size : ℕ) (rest : List ℕ)
    → value < 2 ^ 64
    → encoded_size_u64 value ≤ out_size
    → (bs : List ℕ) × (encode_u64 value out_size ≡ ok bs)
      × (length bs ≡ encoded_size_u64 value)
      × (length bs ≤ 10)
      × (decode_u64 (bs ++ rest) ≡ ok (value, length bs))
unfolding encode_u64 decode_u64 encoded_size_u64
decode_u64-encode_u64 value out_size rest word room =
    encode_impl_total 10 value (omega arith) (omega arith) (omega arith) word out_size rest room

-- A 32-bit value is written in the number of bytes that `encodedSizeU32` says, five at most, if the
-- output has the room, and `decodeU32` reads the value and that number of bytes back whatever follows.
pub decode_u32-encode_u32 :
    (value out_size : ℕ) (rest : List ℕ)
    → value < 2 ^ 32
    → encoded_size_u32 value ≤ out_size
    → (bs : List ℕ) × (encode_u32 value out_size ≡ ok bs)
      × (length bs ≡ encoded_size_u32 value)
      × (length bs ≤ 5)
      × (decode_u32 (bs ++ rest) ≡ ok (value, length bs))
unfolding encode_u32 decode_u32 encoded_size_u32
decode_u32-encode_u32 value out_size rest word room =
    let (bs, e, size, most, d) =
      encode_impl_total 5 value (omega arith) (omega arith) (omega arith) (omega arith) out_size
        rest room in
    (bs, e, size, most, rw d (rw (le→ltb 0xffff_ffff value (omega arith))))

-- `encodeU64` of a 64-bit value to an output with less room than `encodedSizeU64` says is an error.
pub encode_u64_short :
    (value out_size : ℕ)
    → value < 2 ^ 64
    → out_size < encoded_size_u64 value
    → encode_u64 value out_size ≡ err invalid_argument
unfolding encode_u64 encoded_size_u64
encode_u64_short value out_size word short =
    encode_impl_short 10 value (omega arith) (omega arith) (omega arith) word out_size short
