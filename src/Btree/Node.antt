-- ===== src/Btree/Node.antt =====
-- btree/BTreeNode.h, BTreeNode.cpp and BTreeTypes.h: what the two kinds of node share, over the index
-- page of pages/IndexPage.cpp. The page's layout is never missing: `layout()` is the page's payload.
pub mod Capacity
use quartz_database_c.Prelude.{
  ℕ, ◌+◌, ◌-◌, ◌*◌, ◌/◌, ◌%◌, ◌==◌, Bool, true, false, not, ◌&&◌, ◌||◌, List, [], ◌∷◌, ◌++◌, length,
  take, drop, replicate, ltb, leb, if◌then◌else◌,
}
use quartz_database_c.Status.{Status, Result, ok, err, corruption, success, ◌>>=◌}
use quartz_database_c.Format
use quartz_database_c.Format.{PageReference, reference_size}
use quartz_database_c.Serialization.Buffer.{empty_buffer, copy_to}
use quartz_database_c.Serialization.Reader.{BinaryReader, open_reader, read_value}
use quartz_database_c.Serialization.Writer.{BinaryWriter, open_writer, write_value}
use quartz_database_c.Btree.Key.{KeyType, u32_key, u64_key, binary_key, other_key, type_byte}

pub data NodeType : Type 0 where
  leaf internal : NodeType

abbrev pub node_type_number : NodeType → ℕ
node_type_number leaf = 1
node_type_number internal = 2

-- `hasFlag` for `NodeFlags::AllowDuplicates`, the lowest bit.
abbrev pub has_allow_duplicates : ℕ → Bool
has_allow_duplicates flags = flags % 2 == 1

pub record NodeConfig : Type 0 where
  pub key_type : KeyType
  pub binary_key_size : ℕ
  pub allow_duplicates : Bool
  pub level : ℕ

-- The fields of `IndexPageLayout`; of `reserved` the nodes use the first.
pub record IndexPage : Type 0 where
  pub id : ℕ
  pub node_type : ℕ
  pub key_count : ℕ
  pub capacity : ℕ
  pub flags : ℕ
  pub reserved0 : ℕ
  pub body : List ℕ

pub record Node : Type 0 where
  pub page : IndexPage
  pub config : NodeConfig
  pub parent : PageReference

abbrev pub max_body_bytes : ℕ
max_body_bytes = 3992

abbrev pub body_header_size : ℕ
body_header_size = 4 + 20 + 4 + 1 + 1 + 2

abbrev pub entry_area_size : ℕ
entry_area_size = max_body_bytes - body_header_size

abbrev pub body_magic : ℕ
body_magic = 0x4552_5442

pub min_key_count : ℕ → Bool → ℕ
min_key_count capacity is_root = if is_root then 0 else capacity / 2

pub is_underfull : ℕ → ℕ → Bool → Bool
is_underfull key_count capacity is_root =
    not is_root && ltb key_count (min_key_count capacity false)

unfoldable pub key_wire_size : NodeConfig → ℕ
key_wire_size config = elim config.key_type [
  | u32_key ↦ 1 + 4
  | u64_key ↦ 1 + 8
  | binary_key ↦ 1 + 2 + config.binary_key_size
  | other_key tag ↦ 0
]

-- `entrySize`, the same for both types of node.
unfoldable pub entry_size : NodeConfig → ℕ
entry_size config = key_wire_size config + reference_size

unfoldable pub compute_capacity : NodeConfig → NodeType → ℕ
compute_capacity config leaf = (max_body_bytes - body_header_size) / entry_size config
compute_capacity config internal =
    (max_body_bytes - body_header_size - reference_size) / entry_size config

pub free_slots : Node → ℕ
free_slots n =
    if ltb n.page.key_count n.page.capacity then n.page.capacity - n.page.key_count else 0

pub free_space_bytes : Node → ℕ
free_space_bytes n =
    let used = n.page.key_count * entry_size n.config in
    if ltb used (max_body_bytes - body_header_size)
    then max_body_bytes - body_header_size - used
    else 0

-- `IndexPage::validate`.
unfoldable pub validate : Node → Status
validate n =
    if ltb 0 n.page.capacity && leb n.page.key_count n.page.capacity
    then success
    else err corruption

unfoldable pub set_key_count : Node → ℕ → Node
set_key_count n count = record n { page = record n.page { key_count = count } }

pub set_parent : Node → PageReference → Node
set_parent n parent = record n { parent = parent }

pub set_level : Node → ℕ → Node
set_level n level = record n {
  config = record n.config { level = level };
  page = record n.page { reserved0 = level };
}

abbrev pub bool_byte : Bool → ℕ
bool_byte true = 1
bool_byte false = 0

-- What `syncHeader` writes to its buffer.
unfoldable pub write_header : Node → BinaryWriter → BinaryWriter
write_header n w0 =
    let w1 = write_value w0 4 body_magic in
    let w2 = Format.write n.parent w1 in
    let w3 = write_value w2 4 n.config.level in
    let w4 = write_value w3 1 (type_byte n.config.key_type) in
    let w5 = write_value w4 1 (bool_byte n.config.allow_duplicates) in
    write_value w5 2 n.config.binary_key_size

unfoldable pub sync_header : Node → Result Node
sync_header n =
    let w = write_header n (open_writer empty_buffer) in
    if ltb max_body_bytes w.offset
    then err corruption
    else ok (record n {
      page = record n.page {
        body = copy_to n.page.body 0 w.buffer.bytes;
        reserved0 = n.config.level;
      };
    })

-- The cast of a byte to `KeyType`.
abbrev pub key_type_of : ℕ → KeyType
key_type_of tag =
    if tag == 1
    then u32_key
    else if tag == 2
    then u64_key
    else if tag == 3
    then binary_key
    else other_key tag

-- `loadHeader` past the magic number.
pub load_fields : Node → BinaryReader → Result Node
load_fields n r = Format.read r >>= λ parent. read_value parent.1 4 >>= λ level.
    read_value level.1 1 >>= λ tag. read_value tag.1 1 >>= λ duplicates.
    read_value duplicates.1 2 >>= λ size. ok (record n {
      parent = parent.0;
      config = record {
        key_type = key_type_of tag.0;
        binary_key_size = size.0;
        allow_duplicates = not (duplicates.0 == 0);
        level = level.0;
      };
    })

-- A body that starts with zeros is taken for one without a header.
pub load_header : Node → Result Node
load_header n = read_value (open_reader n.page.body) 4 >>= λ magic.
    if not (magic.0 == body_magic) && not (magic.0 == 0)
    then err corruption
    else if magic.0 == 0
    then ok (record n {
      config = record n.config { level = n.page.reserved0 };
      parent = Format.invalid;
    })
    else load_fields n magic.1

unfoldable pub initialize_header : Node → NodeType → NodeConfig → Node
initialize_header n type config =
    let fresh : Node = record {
      page = record n.page {
        node_type = node_type_number type;
        key_count = 0;
        capacity = compute_capacity config type;
        flags = bool_byte config.allow_duplicates;
        reserved0 = config.level;
        body = replicate max_body_bytes 0;
      };
      config = config;
      parent = Format.invalid;
    } in
    elim (sync_header fresh) [ ok synced ↦ synced | err c ↦ fresh ]

-- The entry area of a page is overwritten: zeros, and the bytes at its start.
unfoldable pub write_entry_area : Node → List ℕ → Node
write_entry_area n bytes = record n {
  page = record n.page {
    body = take body_header_size n.page.body ++ copy_to (replicate entry_area_size 0) 0 bytes;
  };
}

pub entry_area : Node → List ℕ
entry_area n = drop body_header_size n.page.body
