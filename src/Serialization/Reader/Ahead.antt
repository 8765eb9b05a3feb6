-- ===== src/Serialization/Reader/Ahead.antt =====
-- Reading, in BinaryReader.cpp, what stands ahead of the reader.
use quartz_database_c.Prelude.{
  ℕ, zero, suc, ◌+◌, ◌^◌, ◌≤◌, ◌<◌, ◌≡◌, ◌∙◌, false, List, [], ◌∷◌, ◌++◌, length, drop, ltb, ◌==◌,
  arith, refl, ap, length-append, length-drop, take-append, drop-append,
}
use quartz_database_c.Status.{Result, ok, ◌>>=◌}
use quartz_database_c.Serialization.Reader.{BinaryReader, read_bytes, read_value}
use quartz_database_c.Serialization.Writer.{le_bytes}
use quartz_database_c.Serialization.Writer.Bytes.{le_value-le_bytes, length-le_bytes}

-- The bytes that the reader has not read.
pub record Ahead (r : BinaryReader) (bytes : List ℕ) : Type 0 where
  pub inside : r.offset ≤ length r.view
  pub left : drop r.offset r.view ≡ bytes

pub drop-drop {ℓ} : {A : Type ℓ} (n k : ℕ) (xs : List A) → drop (n + k) xs ≡ drop k (drop n xs)
drop-drop zero k xs = let e : 0 + k ≡ k = omega arith in ap (λ (t : ℕ). drop t xs) e
drop-drop (suc n) zero [] = let e : suc n + 0 ≡ suc n = omega arith in ap (λ (t : ℕ). drop t []) e
drop-drop (suc n) (suc k) [] =
    let e : suc n + suc k ≡ suc (n + suc k) = omega arith in ap (λ (t : ℕ). drop t []) e
drop-drop (suc n) k (x ∷ xs) =
    let e : suc n + k ≡ suc (n + k) = omega arith in
    ap (λ (t : ℕ). drop t (x ∷ xs)) e ∙ drop-drop n k xs

moved-Ahead :
    (r : BinaryReader) (bytes rest : List ℕ)
    → Ahead r (bytes ++ rest)
    → Ahead (record r { offset = r.offset + length bytes }) rest
moved-Ahead r bytes rest h = record {
  inside = omega (
    arith,
    h.inside,
    ap (λ (t : List ℕ). length t) h.left,
    length-append bytes rest,
    length-drop r.offset r.view,
  );
  left =
      drop-drop r.offset (length bytes) r.view
      ∙ ap (λ t. drop (length bytes) t) h.left
      ∙ drop-append bytes rest;
}

pub read_bytes-Ahead :
    (r : BinaryReader) (bytes rest : List ℕ)
    → Ahead r (bytes ++ rest)
    → (r' : BinaryReader) × (read_bytes r (length bytes) ≡ ok (bytes, r')) × Ahead r' rest
unfolding read_bytes
read_bytes-Ahead r [] rest h = (r, refl, h)
read_bytes-Ahead r (b ∷ bytes) rest h =
    let some_bytes : (length (b ∷ bytes) == 0) ≡ false = ground arith in
    let next = moved-Ahead r (b ∷ bytes) rest h in
    let room : ltb (length r.view) (r.offset + length (b ∷ bytes)) ≡ false =
      ground (arith, next.inside) in
    (
      record r { offset = r.offset + length (b ∷ bytes) },
      rw (some_bytes, room, h.left, take-append (b ∷ bytes) rest) refl,
      next,
    )

pub read_value-Ahead :
    (r : BinaryReader) (n v : ℕ) (rest : List ℕ)
    → v < 256 ^ n
    → Ahead r (le_bytes n v ++ rest)
    → (r' : BinaryReader) × (read_value r n ≡ ok (v, r')) × Ahead r' rest
unfolding read_value
read_value-Ahead r n v rest small h =
    let (r', e, next) = read_bytes-Ahead r (le_bytes n v) rest h in
    let e' : read_bytes r n ≡ ok (le_bytes n v, r') = rw (length-le_bytes n v) at e in
    (r', rw (e', le_value-le_bytes n v small) refl, next)

-- A number that is ahead, and what the rest of the call makes of it.
pub value_then :
    {A C : Type 0} {a : A} (r : BinaryReader) (n v : ℕ) (rest : List ℕ)
    (f : ℕ × BinaryReader → Result (A × C))
    → v < 256 ^ n
    → Ahead r (le_bytes n v ++ rest)
    → ((r' : BinaryReader) → Ahead r' rest → (after : C) × (f (v, r') ≡ ok (a, after)))
    → (after : C) × ((read_value r n >>= f) ≡ ok (a, after))
value_then r n v rest f small h k =
    let (r', e, next) = read_value-Ahead r n v rest small h in
    let (after, done) = k r' next in (after, rw e done)

pub bytes_then :
    {A C : Type 0} {a : A} (r : BinaryReader) (bytes rest : List ℕ)
    (f : List ℕ × BinaryReader → Result (A × C))
    → Ahead r (bytes ++ rest)
    → ((r' : BinaryReader) → (after : C) × (f (bytes, r') ≡ ok (a, after)))
    → (after : C) × ((read_bytes r (length bytes) >>= f) ≡ ok (a, after))
bytes_then r bytes rest f h k =
    let (r', e, next) = read_bytes-Ahead r bytes rest h in
    let (after, done) = k r' in (after, rw e done)
