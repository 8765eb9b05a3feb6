-- ===== src/Btree/Key.antt =====
-- btree/Key.h, Key.cpp and the constants of BTreeTypes.h: keys of three types. `toString` and `hash` are
-- left out.
pub mod Order
use quartz_database_c.Prelude.{
  ℕ, ◌+◌, Bool, true, false, not, List, [], ◌∷◌, length, ltb, ◌==◌, if◌then◌else◌, ◌&&◌,
}
use quartz_database_c.Status.{Result, ok, err, corruption, map_ok, ◌>>=◌}
use quartz_database_c.Serialization.Reader.{BinaryReader, read_value, read_bytes}
use quartz_database_c.Serialization.Writer.{BinaryWriter, write_value, write_bytes}

abbrev pub max_binary_key_size : ℕ
max_binary_key_size = 256

-- `other_key` is a byte cast to the enumeration that is none of its values: no key has it, but a node's
-- configuration can.
pub data KeyType : Type 0 where
  u32_key u64_key binary_key : KeyType
  other_key : ℕ → KeyType

pub data Key : Type 0 where
  from_u32 from_u64 : ℕ → Key
  from_binary : List ℕ → Key

-- The values of the enumeration.
abbrev pub type_byte : KeyType → ℕ
type_byte u32_key = 1
type_byte u64_key = 2
type_byte binary_key = 3
type_byte (other_key tag) = tag

abbrev pub type : Key → KeyType
type (from_u32 v) = u32_key
type (from_u64 v) = u64_key
type (from_binary bytes) = binary_key

-- -1, 0 and 1.
pub data Sign : Type 0 where
  below same above : Sign

abbrev pub compare_numbers : ℕ → ℕ → Sign
compare_numbers a b = if ltb a b then below else if ltb b a then above else same

-- The bytes that both have, then the sizes.
abbrev pub compare_bytes : List ℕ → List ℕ → Sign
compare_bytes [] [] = same
compare_bytes [] (y ∷ ys) = below
compare_bytes (x ∷ xs) [] = above
compare_bytes (x ∷ xs) (y ∷ ys) =
    let rest = compare_bytes xs ys in if ltb x y then below else if ltb y x then above else rest

abbrev pub compare_types : Key → Key → Sign
compare_types a b = if ltb (type_byte (type a)) (type_byte (type b)) then below else above

unfoldable pub compare : Key → Key → Sign
compare (from_u32 v) (from_u32 w) = compare_numbers v w
compare (from_u64 v) (from_u64 w) = compare_numbers v w
compare (from_binary xs) (from_binary ys) = compare_bytes xs ys
compare a b = compare_types a b

-- `==`, `<` and `<=`.
abbrev pub is_same : Sign → Bool
is_same same = true
is_same below = false
is_same above = false

abbrev pub is_below : Sign → Bool
is_below below = true
is_below same = false
is_below above = false

abbrev pub is_above : Sign → Bool
is_above above = true
is_above same = false
is_above below = false

abbrev pub equal : Key → Key → Bool
equal a b = is_same (compare a b)

abbrev pub less : Key → Key → Bool
less a b = is_below (compare a b)

abbrev pub less_equal : Key → Key → Bool
less_equal a b = not (is_above (compare a b))

pub serialized_size : Key → ℕ
serialized_size (from_u32 v) = 1 + 4
serialized_size (from_u64 v) = 1 + 8
serialized_size (from_binary bytes) = 1 + 2 + length bytes

unfoldable pub serialize : Key → BinaryWriter → BinaryWriter
serialize (from_u32 v) w = write_value (write_value w 1 1) 4 v
serialize (from_u64 v) w = write_value (write_value w 1 2) 8 v
serialize (from_binary bytes) w =
    write_bytes (write_value (write_value w 1 3) 2 (length bytes)) bytes

-- The case of a binary key in `deserialize`, after its size.
pub deserialize_binary : ℕ → ℕ × BinaryReader → Result (Key × BinaryReader)
deserialize_binary binary_key_size p =
    if ltb 0 binary_key_size && not (p.0 == binary_key_size)
    then err corruption
    else if ltb max_binary_key_size p.0
    then err corruption
    else map_ok (λ q. (from_binary q.0, q.1)) (read_bytes p.1 p.0)

pub deserialize : ℕ → BinaryReader → Result (Key × BinaryReader)
deserialize binary_key_size r = read_value r 1 >>= λ tag.
    if tag.0 == 1
    then map_ok (λ p. (from_u32 p.0, p.1)) (read_value tag.1 4)
    else if tag.0 == 2
    then map_ok (λ p. (from_u64 p.0, p.1)) (read_value tag.1 8)
    else if tag.0 == 3
    then (read_value tag.1 2 >>= deserialize_binary binary_key_size)
    else err corruption
