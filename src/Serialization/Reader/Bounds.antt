-- ===== src/Serialization/Reader/Bounds.antt =====
-- Where the calls of BinaryReader.cpp leave the reader, and what `readBE` gives.
use quartz_database_c.Prelude.{
  ℕ, zero, suc, ◌-◌, ◌≤◌, ◌≡◌, List, [], ◌∷◌, ◌++◌, length, take, drop, replicate, reverse, arith,
  refl, ap, ◌∙◌, length-take, length-drop, length-replicate, inl, inr,
}
use mathlib.Core.List.{reverse-append, reverse-cons}
use quartz_database_c.Status.{Result, ok, err, map_ok, Result-cases}
use quartz_database_c.Serialization.Reader.{
  BinaryReader, seek, skip, align, read_bytes, read_be, le_value,
}

-- The reader stands in its view or at the end of it.
abbrev pub InView : BinaryReader → Type 0
InView r = r.offset ≤ length r.view

-- What a call that ends in a reader does: on success the reader is in its view still.
abbrev pub StaysInView : Result BinaryReader → Type 0
StaysInView (ok r) = InView r
StaysInView (err c) = Unit {0}

-- `seek`, `skip` and `align` never leave the view, and neither does `readBytes`, which gives as many bytes
-- as were asked for.
pub reader_calls-InView :
    (r : BinaryReader) (n : ℕ)
    → InView r
    → StaysInView (seek r n)
      × StaysInView (skip r n)
      × StaysInView (align r n)
      × StaysInView (map_ok (λ p. p.1) (read_bytes r n))
unfolding seek skip align read_bytes
reader_calls-InView r n h = (ground arith, ground arith, ground arith, ground arith)

length-read_bytes :
    (r r' : BinaryReader) (n : ℕ) (bytes : List ℕ)
    → read_bytes r n ≡ ok (bytes, r')
    → length bytes ≡ n
unfolding read_bytes
length-read_bytes r r' n bytes h =
    ground (arith, length-take n (drop r.offset r.view), length-drop r.offset r.view)

le_value_zeros : (n : ℕ) → le_value (replicate n 0) ≡ 0
unfolding le_value
le_value_zeros zero = refl
le_value_zeros (suc n) = omega (arith, le_value_zeros n)

take-append-prefix : (n : ℕ) (xs ys : List ℕ) → n ≤ length xs → take n (xs ++ ys) ≡ take n xs
take-append-prefix zero xs ys h = refl
take-append-prefix (suc n) [] ys h = absurd (omega arith)
take-append-prefix (suc n) (x ∷ xs) ys h =
    ap (λ t. x ∷ t) (take-append-prefix n xs ys (omega arith))

take-zeros : (n m : ℕ) → n ≤ m → take n (replicate m zero) ≡ replicate n zero
take-zeros zero m h = refl
take-zeros (suc n) zero h = absurd (omega arith)
take-zeros (suc n) (suc m) h = ap (λ t. zero ∷ t) (take-zeros n m (omega arith))

reverse-zeros : (n : ℕ) → reverse (replicate n zero) ≡ replicate n zero
reverse-zeros zero = refl
reverse-zeros (suc n) =
    reverse-cons zero (replicate n zero) ∙ ap (λ t. t ++ zero ∷ []) (reverse-zeros n) ∙ zeros-end n
  where
    zeros-end : (n : ℕ) → replicate n zero ++ zero ∷ [] ≡ zero ∷ replicate n zero
    zeros-end zero = refl
    zeros-end (suc n) = ap (λ t. zero ∷ t) (zeros-end n)

top_zeros :
    (size : ℕ) (bytes : List ℕ)
    → size ≤ 4
    → length bytes ≡ size
    → take size (reverse (bytes ++ replicate (8 - length bytes) zero)) ≡ replicate size zero
top_zeros size bytes h e =
    rw (reverse-append bytes (replicate (8 - length bytes) zero), reverse-zeros (8 - length bytes))
      (take-append-prefix size (replicate (8 - length bytes) zero) (reverse bytes)
          (omega (arith, length-replicate (8 - length bytes) zero))
        ∙ take-zeros size (8 - length bytes) (omega arith))

-- `readBE` of an integer of four bytes or fewer gives 0 whatever the bytes are: the number is in the high
-- bytes of the reversed word, and the cast keeps the low ones.
pub read_be_is_zero :
    (r : BinaryReader) (size : ℕ)
    → size ≤ 4
    → read_be r size ≡ map_ok (λ p. (0, p.1)) (read_bytes r size)
unfolding read_be
read_be_is_zero r size h = elim (Result-cases (read_bytes r size)) [
  | inl (p, e) ↦
      rw (e, top_zeros size p.0 h (length-read_bytes r p.1 size p.0 e), le_value_zeros size) refl
  | inr (c, e) ↦ rw e refl
]
