-- ===== src/Format.antt =====
-- format/PageReference.h: the reference to a page that nodes keep.
use quartz_database_c.Prelude.{ℕ, Bool, not, ◌&&◌, ◌==◌, List, ◌++◌, take, drop}
use quartz_database_c.Status.{Result, map_ok}
use quartz_database_c.Serialization.Reader.{BinaryReader, read_bytes, le_value}
use quartz_database_c.Serialization.Writer.{BinaryWriter, write_bytes, le_bytes}

abbrev pub invalid_page_id : ℕ
invalid_page_id = 0xffff_ffff

pub record PageReference : Type 0 where
  pub page_id : ℕ
  pub generation : ℕ
  pub page_type : ℕ
  pub flags : ℕ
  pub reserved1 : ℕ
  pub checksum : ℕ

-- `kSize`, the size of the packed structure.
abbrev pub reference_size : ℕ
reference_size = 20

unfoldable pub is_valid : PageReference → Bool
is_valid r = not (r.page_id == invalid_page_id)

pub equals : PageReference → PageReference → Bool
equals a b =
    a.page_id == b.page_id
    && a.generation == b.generation
    && a.page_type == b.page_type
    && a.flags == b.flags

unfoldable pub make : ℕ → ℕ → ℕ → PageReference
make id generation page_type = record {
  page_id = id;
  generation = generation;
  page_type = page_type;
  flags = 0;
  reserved1 = 0;
  checksum = 0;
}

unfoldable pub invalid : PageReference
invalid = make invalid_page_id 0 0

-- The bytes of the structure in memory, as `write` and `read` copy them.
unfoldable pub to_bytes : PageReference → List ℕ
to_bytes r =
    le_bytes 4 r.page_id
    ++ le_bytes 8 r.generation
    ++ le_bytes 1 r.page_type
    ++ le_bytes 1 r.flags
    ++ le_bytes 2 r.reserved1
    ++ le_bytes 4 r.checksum

pub from_bytes : List ℕ → PageReference
from_bytes bs = record {
  page_id = le_value (take 4 bs);
  generation = le_value (take 8 (drop 4 bs));
  page_type = le_value (take 1 (drop 12 bs));
  flags = le_value (take 1 (drop 13 bs));
  reserved1 = le_value (take 2 (drop 14 bs));
  checksum = le_value (take 4 (drop 16 bs));
}

unfoldable pub write : PageReference → BinaryWriter → BinaryWriter
write r w = write_bytes w (to_bytes r)

pub read : BinaryReader → Result (PageReference × BinaryReader)
read r = map_ok (λ p. (from_bytes p.0, p.1)) (read_bytes r reference_size)
