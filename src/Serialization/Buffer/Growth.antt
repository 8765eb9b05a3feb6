-- ===== src/Serialization/Buffer/Growth.antt =====
-- The growth and the contents of a buffer of Buffer.cpp.
use quartz_database_c.Prelude.{
  ℕ, zero, suc, ◌+◌, ◌-◌, ◌*◌, ◌≤◌, ◌<◌, ◌≡◌, false, List, [], ◌∷◌, ◌++◌, length, take, replicate,
  max, ◌==◌, arith, refl, ap, sym, length-append, length-take, length-replicate, append-nil,
}
use quartz_database_c.Serialization.Buffer.{
  Buffer, size, reserve, resize_bytes, resize, grow_loop, grown_capacity, grow, grow_for,
  min_capacity, copy_to, append,
}

-- What a vector keeps.
abbrev pub HasRoom : Buffer → Type 0
HasRoom b = length b.bytes ≤ b.capacity

-- Doubling a positive capacity reaches any size with that size as fuel.
grow_loop-enough :
    (fuel needed capacity : ℕ)
    → 0 < capacity
    → needed ≤ fuel + capacity
    → needed ≤ grow_loop fuel needed capacity
unfolding grow_loop
grow_loop-enough zero needed capacity h h' = omega arith
grow_loop-enough (suc fuel) needed capacity h h' =
    ground (arith, grow_loop-enough fuel needed (capacity * 2) (omega arith) (omega arith))

pub grown_capacity-enough : (capacity needed : ℕ) → needed ≤ grown_capacity capacity needed
unfolding grown_capacity
grown_capacity-enough capacity needed =
    grow_loop-enough needed needed (max (capacity * 2) min_capacity) (omega arith) (omega arith)

pub take_all : (n : ℕ) (xs : List ℕ) → length xs ≤ n → take n xs ≡ xs
take_all zero [] h = refl
take_all zero (x ∷ xs) h = absurd (omega arith)
take_all (suc n) [] h = refl
take_all (suc n) (x ∷ xs) h = ap (λ t. x ∷ t) (take_all n xs (omega arith))

pub resize_bytes-longer :
    (xs : List ℕ) (n : ℕ) → resize_bytes xs (length xs + n) ≡ xs ++ replicate n 0
unfolding resize_bytes
resize_bytes-longer xs n =
    let more : length xs + n - length xs ≡ n = omega arith in
    rw (take_all (length xs + n) xs (omega arith), more) refl

pub length-resize_bytes : (xs : List ℕ) (n : ℕ) → length (resize_bytes xs n) ≡ n
unfolding resize_bytes
length-resize_bytes xs n = omega (
  arith,
  length-append (take n xs) (replicate (n - length xs) 0),
  length-take n xs,
  length-replicate (n - length xs) zero,
)

pub length-copy_to : (xs : List ℕ) (at : ℕ) (src : List ℕ) → length (copy_to xs at src) ≡ length xs
unfolding copy_to
length-copy_to [] zero [] = refl
length-copy_to [] zero (s ∷ src) = refl
length-copy_to [] (suc at) src = refl
length-copy_to (x ∷ xs) zero [] = refl
length-copy_to (x ∷ xs) zero (s ∷ src) = ap suc (length-copy_to xs zero src)
length-copy_to (x ∷ xs) (suc at) src = ap suc (length-copy_to xs at src)

-- Bytes copied over the end of a list take the place of what was there.
pub copy_to-end :
    (xs ys src : List ℕ) → length ys ≡ length src → copy_to (xs ++ ys) (length xs) src ≡ xs ++ src
unfolding copy_to
copy_to-end [] [] [] h = refl
copy_to-end [] [] (s ∷ src) h = absurd (omega arith)
copy_to-end [] (y ∷ ys) [] h = absurd (omega arith)
copy_to-end [] (y ∷ ys) (s ∷ src) h = ap (λ t. s ∷ t) (copy_to-end [] ys src (omega arith))
copy_to-end (x ∷ xs) ys src h = ap (λ t. x ∷ t) (copy_to-end xs ys src h)

pub grow_for-bytes : (b : Buffer) (needed : ℕ) → (grow_for b needed).bytes ≡ b.bytes
unfolding grow_for grow reserve
grow_for-bytes b needed = ground arith

pub grow_for-capacity :
    (b : Buffer) (needed : ℕ)
    → (needed ≤ (grow_for b needed).capacity) × (b.capacity ≤ (grow_for b needed).capacity)
unfolding grow_for grow reserve
grow_for-capacity b needed = ground (arith, grown_capacity-enough b.capacity needed)

-- `append` puts the bytes at the end, and the capacity has grown to hold them.
pub append_lem :
    (b : Buffer) (src : List ℕ)
    → HasRoom b
    → ((append b src).bytes ≡ b.bytes ++ src)
      × HasRoom (append b src)
      × (b.capacity ≤ (append b src).capacity)
unfolding append size resize
append_lem b [] room = (sym (append-nil b.bytes), room, omega arith)
append_lem b (s ∷ src) room =
    let some_bytes : (length (s ∷ src) == 0) ≡ false = ground arith in
    let contents : copy_to (resize_bytes b.bytes (length b.bytes + length (s ∷ src)))
          (length b.bytes) (s ∷ src)
        ≡ b.bytes ++ s ∷ src =
      rw (resize_bytes-longer b.bytes (length (s ∷ src))) (
        copy_to-end b.bytes (replicate (length (s ∷ src)) 0) (s ∷ src)
          (length-replicate (length (s ∷ src)) zero)) in
    rw (some_bytes, grow_for-bytes b (length b.bytes + length (s ∷ src)), contents)
      (
        refl,
        omega (arith, length-append b.bytes (s ∷ src)),
        omega (arith, grow_for-capacity b (length b.bytes + length (s ∷ src))),
      )
