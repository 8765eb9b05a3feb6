-- ===== src/Serialization/Buffer.antt =====
-- serialization/Buffer.h and Buffer.cpp: a vector of bytes. A list holds the bytes up to the vector's
-- size; what lies between its size and its capacity is not readable. `reserve` and `resize` of the vector
-- give exactly the capacity asked for where they allocate. Sizes do not reach 2^63.
pub mod Growth
use quartz_database_c.Prelude.{
  ℕ, zero, suc, ◌+◌, ◌-◌, ◌*◌, Bool, true, false, ◌&&◌, Option, List, [], ◌∷◌, ◌++◌, length, take,
  replicate, get_elem?, max, ltb, leb, ◌==◌, if◌then◌else◌,
}

pub record Buffer : Type 0 where
  pub bytes : List ℕ
  pub capacity : ℕ

abbrev pub min_capacity : ℕ
min_capacity = 64

abbrev pub empty_buffer : Buffer
empty_buffer = record { bytes = []; capacity = 0 }

pub size : Buffer → ℕ
size b = length b.bytes

pub with_capacity : ℕ → Buffer
with_capacity initial = record { bytes = []; capacity = max initial min_capacity }

pub reserve : Buffer → ℕ → Buffer
reserve b new_capacity =
    if ltb b.capacity new_capacity then record b { capacity = new_capacity } else b

-- `vector::resize`: new bytes are zero.
unfoldable pub resize_bytes : List ℕ → ℕ → List ℕ
resize_bytes bytes n = take n bytes ++ replicate (n - length bytes) 0

unfoldable pub resize : Buffer → ℕ → Buffer
resize b n = record { bytes = resize_bytes b.bytes n; capacity = max b.capacity n }

unfoldable pub clear : Buffer → Buffer
clear b = record b { bytes = [] }

-- The doubling loop of `grow`, with fuel.
unfoldable pub grow_loop : ℕ → ℕ → ℕ → ℕ
grow_loop zero needed capacity = capacity
grow_loop (suc fuel) needed capacity =
    let rest = grow_loop fuel needed (capacity * 2) in
    if ltb capacity needed then rest else capacity

unfoldable pub grown_capacity : ℕ → ℕ → ℕ
grown_capacity capacity needed = grow_loop needed needed (max (capacity * 2) min_capacity)

unfoldable pub grow : Buffer → ℕ → Buffer
grow b needed = reserve b (grown_capacity b.capacity needed)

-- `memcpy` to position `at` of the readable bytes: what would lie past them is not readable.
unfoldable pub copy_to : List ℕ → ℕ → List ℕ → List ℕ
copy_to bytes zero [] = bytes
copy_to [] at src = []
copy_to (b ∷ bytes) zero (s ∷ src) = s ∷ copy_to bytes zero src
copy_to (b ∷ bytes) (suc at) src = b ∷ copy_to bytes at src

-- The capacity test that comes before bytes are added.
unfoldable pub grow_for : Buffer → ℕ → Buffer
grow_for b needed = if ltb b.capacity needed then grow b needed else b

pub append : Buffer → List ℕ → Buffer
append b src =
    let needed = size b + length src in
    let resized = resize (grow_for b needed) needed in
    if length src == 0 then b else record resized { bytes = copy_to resized.bytes (size b) src }

-- `at`; nothing where it throws.
pub at : Buffer → ℕ → Option ℕ
at b index = get_elem? b.bytes index

pub same_bytes : List ℕ → List ℕ → Bool
same_bytes [] [] = true
same_bytes [] (y ∷ ys) = false
same_bytes (x ∷ xs) [] = false
same_bytes (x ∷ xs) (y ∷ ys) = x == y && same_bytes xs ys

pub equals : Buffer → Buffer → Bool
equals a b = same_bytes a.bytes b.bytes
