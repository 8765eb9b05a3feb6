-- ===== src/Btree/Tree/Snapshot.antt =====
-- `serialize` and `deserialize` of BTree.cpp: whole pages (pages/BasePage.cpp, storage/PageHeader.h,
-- pages/PageLayouts.h). Of a page that is read, the parts of its header but the page id, and the reserved
-- words that no node uses, are not kept. The maps are written in the order of the lists.
use quartz_database_c.Prelude.{
  ℕ, zero, suc, ◌+◌, ◌%◌, ◌^◌, not, List, [], ◌∷◌, ◌++◌, length, take, drop, replicate, ◌==◌,
  if◌then◌else◌,
}
use quartz_database_c.Status.{Status, ok, err, corruption, success}
use quartz_database_c.Serialization.Reader.{BinaryReader, read_value, read_bytes, le_value}
use quartz_database_c.Serialization.Writer.{BinaryWriter, write_value, write_bytes, le_bytes}
use quartz_database_c.Btree.Key.{type_byte}
use quartz_database_c.Btree.Node.{Node, IndexPage, bool_byte, key_type_of}
use quartz_database_c.Btree.Leaf
use quartz_database_c.Btree.Leaf.{LeafNode}
use quartz_database_c.Btree.Internal
use quartz_database_c.Btree.Internal.{InternalNode}
use quartz_database_c.Btree.Tree.{BTree, is_leaf, is_internal, blank_node, clear}

abbrev page_size : ℕ
page_size = 4096

-- `PageHeader::make` of an index page.
page_header : ℕ → List ℕ
page_header id =
    le_bytes 4 0x5144_4231
    ++ le_bytes 4 1
    ++ le_bytes 4 id
    ++ le_bytes 1 6
    ++ le_bytes 1 0
    ++ le_bytes 2 4032
    ++ replicate 48 0

page_bytes : IndexPage → List ℕ
page_bytes p =
    page_header p.id
    ++ le_bytes 4 p.node_type
    ++ le_bytes 4 p.key_count
    ++ le_bytes 4 p.capacity
    ++ le_bytes 4 p.flags
    ++ le_bytes 8 p.reserved0
    ++ replicate 16 0
    ++ p.body

abbrev word_at : ℕ → List ℕ → ℕ
word_at offset bytes = le_value (take 4 (drop offset bytes))

page_of : List ℕ → IndexPage
page_of bytes = record {
  id = word_at 8 bytes;
  node_type = word_at 64 bytes;
  key_count = word_at 68 bytes;
  capacity = word_at 72 bytes;
  flags = word_at 76 bytes;
  reserved0 = word_at 80 bytes;
  body = drop 104 bytes;
}

write_leaves : List (ℕ × LeafNode) → BinaryWriter → BinaryWriter
write_leaves [] w = w
write_leaves ((id, l) ∷ rest) w = write_leaves rest (write_bytes w (page_bytes l.node.page))

write_internals : List (ℕ × InternalNode) → BinaryWriter → BinaryWriter
write_internals [] w = w
write_internals ((id, i) ∷ rest) w = write_internals rest (write_bytes w (page_bytes i.node.page))

pub serialize : BTree → BinaryWriter → BinaryWriter
serialize t w0 =
    let w1 = write_value w0 4 t.root_id in
    let w2 = write_value w1 8 t.size in
    let w3 = write_value w2 4 t.height in
    let w4 = write_value w3 1 (type_byte t.config.key_type) in
    let w5 = write_value w4 2 t.config.binary_key_size in
    let w6 = write_value w5 1 (bool_byte t.config.allow_duplicates) in
    let w7 = write_value w6 4 ((length t.leaves + length t.internals) % 2 ^ 32) in
    write_internals t.internals (write_leaves t.leaves w7)

-- `fromPage`; a node whose entries cannot be loaded has those that could.
node_of_page : IndexPage → Node
node_of_page p = record (blank_node 0) { page = p }

leaf_of_page : IndexPage → LeafNode
leaf_of_page p = (Leaf.load_entries (record { node = node_of_page p; keys = []; refs = [] })).0

internal_of_page : IndexPage → InternalNode
internal_of_page p =
    (Internal.load_entries (record { node = node_of_page p; keys = []; children = [] })).0

-- `emplace` keeps a node that is there.
add_node : IndexPage → BTree → BTree × Status
add_node p t =
    if p.node_type == 1
    then (
      if is_leaf t p.id then t else record t { leaves = (p.id, leaf_of_page p) ∷ t.leaves },
      success,
    )
    else if p.node_type == 2
    then (
      if is_internal t p.id
          then t
          else record t { internals = (p.id, internal_of_page p) ∷ t.internals },
      success,
    )
    else (t, err corruption)

read_nodes : ℕ → BinaryReader → BTree → BTree × Status
read_nodes zero r t = (t, success)
read_nodes (suc count) r t = elim (read_bytes r page_size) [
  | err c ↦ (t, err c)
  | ok p ↦
      let (t', st) = add_node (page_of p.0) t in
      elim st [ err c ↦ (t', err c) | ok u ↦ read_nodes count p.1 t' ]
]

-- A value that is read is put in its field before the next one is read.
read_field :
    ℕ
    → (ℕ → BTree → BTree)
    → (BinaryReader → BTree → BTree × Status)
    → BinaryReader
    → BTree
    → BTree × Status
read_field size put rest r t = elim (read_value r size) [
  | err c ↦ (t, err c)
  | ok p ↦ rest p.1 (put p.0 t)
]

read_count : BinaryReader → BTree → BTree × Status
read_count r t = elim (read_value r 4) [ err c ↦ (t, err c) | ok p ↦ read_nodes p.0 p.1 t ]

read_config : BinaryReader → BTree → BTree × Status
read_config =
    read_field 1 (λ tag t. record t { config = record t.config { key_type = key_type_of tag } })
      (read_field 2 (λ size t. record t { config = record t.config { binary_key_size = size } })
        (read_field 1
          (λ b t. record t { config = record t.config { allow_duplicates = not (b == 0) } })
          read_count))

pub deserialize : BinaryReader → BTree → BTree × Status
deserialize r t =
    read_field 4 (λ id t. record t { root_id = id })
      (read_field 8 (λ n t. record t { size = n })
        (read_field 4 (λ n t. record t { height = n }) read_config))
      r (clear t)
