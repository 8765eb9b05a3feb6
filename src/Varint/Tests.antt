-- ===== src/Varint/Tests.antt =====
-- Runs of serialization/VariableLengthInteger.cpp on concrete numbers.
use quartz_database_c.Prelude.{ℕ, ◌+◌, ◌-◌, ◌≤◌, ◌^◌, ◌≡◌, List, [], ◌∷◌, ◌++◌, length, arith, refl}
use quartz_database_c.Status.{ok}
use quartz_database_c.Varint.{
  encode_impl, encode_loop, decode_impl, decode_loop, size_loop, encoded_size_impl, zigzag,
  unzigzag, encode_u32, decode_u32, encode_u64, decode_u64, encode_s32, decode_s32,
  encoded_size_u32, encoded_size_u64, encoded_size_s32,
}
use quartz_database_c.Varint.RoundTrip.{decode_u64-encode_u64}

encode_300 : encode_u64 300 10 ≡ ok (0xac ∷ 2 ∷ [])
unfolding encode_u64 encode_impl encode_loop
encode_300 = refl

size_300 : encoded_size_u64 300 ≡ 2
unfolding encoded_size_u64 encoded_size_impl size_loop
size_300 = refl

size32_300 : encoded_size_u32 300 ≡ 2
unfolding encoded_size_u32 encoded_size_impl size_loop
size32_300 = refl

size_minus_two : encoded_size_s32 (2 ^ 32 - 2) ≡ 5
unfolding encoded_size_s32 encoded_size_u32 encoded_size_impl size_loop zigzag
size_minus_two = refl

minus_two_bytes : encode_s32 (2 ^ 32 - 2) 10 ≡ ok (0xfd ∷ 0xff ∷ 0xff ∷ 0xff ∷ 15 ∷ [])
unfolding encode_s32 encode_u32 encode_impl encode_loop zigzag
minus_two_bytes = refl

minus_two_reread : decode_s32 ((0xfd ∷ 0xff ∷ 0xff ∷ 0xff ∷ 15 ∷ []) ++ []) ≡ ok (2 ^ 31 + 1, 5)
unfolding decode_s32 decode_u32 decode_impl decode_loop unzigzag
minus_two_reread = refl

decode_u64-encode_u64_example :
    (bs : List ℕ) × (encode_u64 300 10 ≡ ok bs)
    × (length bs ≡ encoded_size_u64 300)
    × (length bs ≤ 10)
    × (decode_u64 (bs ++ 7 ∷ []) ≡ ok (300, length bs))
decode_u64-encode_u64_example =
    decode_u64-encode_u64 300 10 (7 ∷ []) (omega arith) (omega (arith, size_300))
