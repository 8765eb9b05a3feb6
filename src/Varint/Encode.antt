-- ===== src/Varint/Encode.antt =====
-- The encoder of VariableLengthInteger.cpp: when it succeeds, and how many bytes it writes.
use native.Mathlib.Nat.{pow-suc}
use quartz_database_c.Prelude.{
  ℕ, zero, suc, ◌+◌, ◌/◌, ◌^◌, ◌≤◌, ◌<◌, ◌≡◌, List, bit_and, bit_or, ◌==◌, false, Bool-cases,
  length, arith, inl, inr, All, ap, refl, ◌∷◌, [],
}
use quartz_database_c.Prelude.Bits.{bit_and_low7, bit_or_bit7}
use quartz_database_c.Status.{ok, map_ok, map_ok-eq-ok}
use quartz_database_c.Varint.{encode_loop, size_loop}

-- Only values below 128 need no further round.
rounds_left : (r value : ℕ) → (value / 2 ^ 7 == 0) ≡ false → value < 128 ^ suc r → 0 < r
rounds_left zero value more h = absurd (ground arith)
rounds_left (suc r) value more h = omega arith

module _ (r value : ℕ) (more : (value / 2 ^ 7 == 0) ≡ false) (h : value < 128 ^ suc r) where
  next_fits : value / 2 ^ 7 < 128 ^ r
  next_fits = omega (arith, pow-suc 128 r)

-- What the encoder does on a value that fits the rounds: bytes, at most one for each round.
abbrev pub Encodes : ℕ → ℕ → Type 0
Encodes r value =
    (bs : List ℕ) × (encode_loop r value ≡ ok bs)
    × (length bs ≤ r)
    × (0 < length bs)
    × All (λ b. b < 256) bs

pub encode_loop-Encodes : (r value : ℕ) → 0 < r → value < 128 ^ r → Encodes r value
unfolding encode_loop
encode_loop-Encodes zero value p h = absurd (omega arith)
encode_loop-Encodes (suc r) value p h = elim (Bool-cases (value / 2 ^ 7 == 0)) [
  | inl done ↦ (
    bit_and value 0x7f ∷ [],
    rw done,
    omega arith,
    omega arith,
    (omega (arith, bit_and_low7 value), tt),
  )
  | inr more ↦
      let (bs, e, most, some_byte, small) =
        encode_loop-Encodes r (value / 2 ^ 7) (rounds_left r value more h)
          (next_fits r value more h) in
      (
        bit_or (bit_and value 0x7f) 0x80 ∷ bs,
        rw (more, e),
        omega arith,
        omega arith,
        (
          omega (
            arith,
            bit_and_low7 value,
            bit_or_bit7 (bit_and value 0x7f) (omega (arith, bit_and_low7 value)),
          ),
          small,
        ),
      )
]

size_loop_small : (fuel value count : ℕ) → value < 128 → size_loop fuel value count ≡ count
unfolding size_loop
size_loop_small zero value count h = refl
size_loop_small (suc fuel) value count h = ground arith

size_loop_large :
    (fuel value count : ℕ)
    → (value / 2 ^ 7 == 0) ≡ false
    → size_loop (suc fuel) value count ≡ size_loop fuel (value / 2 ^ 7) (count + 1)
unfolding size_loop
size_loop_large fuel value count h = ground arith

one_byte : {b : ℕ} (bs : List ℕ) → ok (b ∷ []) ≡ ok bs → length bs ≡ 1
one_byte {b} bs q = omega (arith, ap length (let e : b ∷ [] ≡ bs = cc in e))

-- `encodedSizeImpl` counts the bytes that the encoder writes.
pub size_loop-encode_loop :
    (r fuel value count : ℕ) (bs : List ℕ)
    → r ≤ suc fuel
    → encode_loop r value ≡ ok bs
    → size_loop fuel value count + 1 ≡ count + length bs
unfolding encode_loop
size_loop-encode_loop zero fuel value count bs h e = cc
size_loop-encode_loop (suc r) fuel value count bs h e = elim (Bool-cases (value / 2 ^ 7 == 0)) [
  | inl done ↦
      omega (arith, size_loop_small fuel value count (ground arith), one_byte bs (rw done at e))
  | inr more ↦ later r fuel h more (rw more at e) (size_loop-encode_loop r)
]
  where
    later :
        (r fuel : ℕ)
        → suc r ≤ suc fuel
        → (value / 2 ^ 7 == 0) ≡ false
        → map_ok (λ t. bit_or (bit_and value 0x7f) 0x80 ∷ t) (encode_loop r (value / 2 ^ 7)) ≡ ok bs
        → ((fuel value count : ℕ) (bs : List ℕ)
            → r ≤ suc fuel
            → encode_loop r value ≡ ok bs
            → size_loop fuel value count + 1 ≡ count + length bs)
        → size_loop fuel value count + 1 ≡ count + length bs
    later zero fuel h more e ih = cc
    later (suc r) zero h more e ih = absurd (omega arith)
    later (suc r) (suc fuel) h more e ih =
        let (bs', e', eq) = map_ok-eq-ok _ (encode_loop (suc r) (value / 2 ^ 7)) e in
        omega (
          arith,
          size_loop_large fuel value count more,
          ih fuel (value / 2 ^ 7) (count + 1) bs' (omega arith) e',
          ap length eq,
        )
