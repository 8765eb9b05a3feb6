-- ===== src/Varint/Zigzag.antt =====
-- The signed codecs of VariableLengthInteger.cpp. A negative number is a word from `2 ^ (w - 1)` up.
use quartz_database_c.Prelude.{
  ℕ, ◌+◌, ◌-◌, ◌*◌, ◌/◌, ◌%◌, ◌^◌, ◌≤◌, ◌<◌, ◌≡◌, ◌≢◌, ◌++◌, List, bit_and, bit_xor, ltb, arith, ap,
  length, if◌then◌else◌, Bool-cases, inl, inr, ◌∙◌,
}
use quartz_database_c.Prelude.Bits.{bit_and_low1, bit_xor_zero, bit_xor_one, bit_xor_ones}
use quartz_database_c.Status.{ok}
use quartz_database_c.Varint.{
  zigzag, unzigzag, encode_s32, decode_s32, encoded_size_s32, encoded_size_u32,
}
use quartz_database_c.Varint.RoundTrip.{decode_u32-encode_u32}

-- The two codes of the logical shift: `2 v` for `v` from 0 up, an odd word for a negative number.
zigzag32_pos : (v : ℕ) → v < 2 ^ 31 → zigzag 32 v ≡ 2 * v
unfolding zigzag
zigzag32_pos v h =
    ap (λ (t : ℕ). bit_xor (v * 2 % 2 ^ 32) t) (let e : v / 2 ^ 31 ≡ 0 = omega arith in e)
    ∙ bit_xor_zero (v * 2 % 2 ^ 32)
    ∙ (let e : v * 2 % 2 ^ 32 ≡ 2 * v = omega arith in e)

zigzag32_neg : (v : ℕ) → 2 ^ 31 ≤ v → v < 2 ^ 32 → zigzag 32 v ≡ 2 * (v - 2 ^ 31) + 1
unfolding zigzag
zigzag32_neg v h h' =
    ap (λ (t : ℕ). bit_xor (v * 2 % 2 ^ 32) t) (let e : v / 2 ^ 31 ≡ 1 = omega arith in e)
    ∙ ap (λ (t : ℕ). bit_xor t 1) (let e : v * 2 % 2 ^ 32 ≡ 2 * (v - 2 ^ 31) = omega arith in e)
    ∙ bit_xor_one (v - 2 ^ 31)

unzigzag32_even : (u : ℕ) → unzigzag 32 (2 * u) ≡ u
unfolding unzigzag
unzigzag32_even u =
    ap (λ (t : ℕ). bit_xor (2 * u / 2) ((2 ^ 32 - t) % 2 ^ 32))
      (let e : bit_and (2 * u) 1 ≡ 0 = omega (arith, bit_and_low1 (2 * u)) in e)
    ∙ bit_xor_zero (2 * u / 2)
    ∙ (let e : 2 * u / 2 ≡ u = omega arith in e)

unzigzag32_odd : (u : ℕ) → u < 2 ^ 31 → unzigzag 32 (2 * u + 1) ≡ 2 ^ 32 - 1 - u
unfolding unzigzag
unzigzag32_odd u h =
    ap (λ (t : ℕ). bit_xor ((2 * u + 1) / 2) ((2 ^ 32 - t) % 2 ^ 32))
      (let e : bit_and (2 * u + 1) 1 ≡ 1 = omega (arith, bit_and_low1 (2 * u + 1)) in e)
    ∙ ap (λ (t : ℕ). bit_xor t (2 ^ 32 - 1)) (let e : (2 * u + 1) / 2 ≡ u = omega arith in e)
    ∙ omega (arith, bit_xor_ones 32 u (omega arith))

-- What the two shifts make of a 32-bit word.
abbrev pub reread32 : ℕ → ℕ
reread32 v = if ltb v (2 ^ 31) then v else 3 * 2 ^ 31 - 1 - v

unzigzag32-zigzag32 : (v : ℕ) → v < 2 ^ 32 → unzigzag 32 (zigzag 32 v) ≡ reread32 v
unzigzag32-zigzag32 v h = elim (Bool-cases (ltb v (2 ^ 31))) [
  | inl low ↦ rw (low, zigzag32_pos v (ground arith)) (unzigzag32_even v)
  | inr high ↦
      rw (high, zigzag32_neg v (ground arith) h)
        (unzigzag32_odd (v - 2 ^ 31) (ground arith) ∙ ground arith)
]

zigzag32-lt : (v : ℕ) → v < 2 ^ 32 → zigzag 32 v < 2 ^ 32
zigzag32-lt v h = elim (Bool-cases (ltb v (2 ^ 31))) [
  | inl low ↦ ground (arith, zigzag32_pos v (ground arith))
  | inr high ↦ ground (arith, zigzag32_neg v (ground arith) h)
]

-- A 32-bit signed number with the word `v` is written, if the output has the room, in the number of bytes
-- that `encodedSizeS32` says, and decoding gives `v` back if the number is not negative, and otherwise
-- the word `3 * 2 ^ 31 - 1 - v`.
pub decode_s32-encode_s32 :
    (v out_size : ℕ) (rest : List ℕ)
    → v < 2 ^ 32
    → encoded_size_s32 v ≤ out_size
    → (bs : List ℕ) × (encode_s32 v out_size ≡ ok bs)
      × (length bs ≡ encoded_size_s32 v)
      × (decode_s32 (bs ++ rest) ≡ ok (reread32 v, length bs))
unfolding encode_s32 decode_s32 encoded_size_s32 encoded_size_u32
decode_s32-encode_s32 v out_size rest h room =
    let (bs, e, size, _, d) =
      decode_u32-encode_u32 (zigzag 32 v) out_size rest (zigzag32-lt v h) room in
    (bs, e, size, rw (d, unzigzag32-zigzag32 v h))

-- No negative 32-bit number is read back as itself, by any decoding of its encoding that succeeds.
pub encode_s32_loses_sign :
    (v out_size consumed w : ℕ) (bs rest : List ℕ)
    → 2 ^ 31 ≤ v
    → v < 2 ^ 32
    → encoded_size_s32 v ≤ out_size
    → encode_s32 v out_size ≡ ok bs
    → decode_s32 (bs ++ rest) ≡ ok (w, consumed)
    → w ≢ v
encode_s32_loses_sign v out_size consumed w bs rest neg h room e d eq =
    let (bs', e', _, d') = decode_s32-encode_s32 v out_size rest h room in
    let same : bs' ≡ bs = cc in
    let back : decode_s32 (bs ++ rest) ≡ ok (reread32 v, length bs) = rw (same) at d' in
    absurd (ground arith)
