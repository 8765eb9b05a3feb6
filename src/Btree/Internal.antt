-- ===== src/Btree/Internal.antt =====
-- btree/InternalNode.h and InternalNode.cpp. `keyAt` and `childAt` are `get_elem?`.
pub mod Children
use quartz_database_c.Prelude.{
  ℕ, zero, suc, ◌+◌, Bool, true, false, not, ◌&&◌, List, [], ◌∷◌, ◌++◌, length, take, set,
  insert_at, erase_at, ltb, leb, ◌==◌, if◌then◌else◌,
}
use quartz_database_c.Status.{Status, Result, ok, err, invalid_argument, corruption, success, ◌>>◌}
use quartz_database_c.Format
use quartz_database_c.Format.{PageReference, is_valid}
use quartz_database_c.Serialization.Buffer.{empty_buffer}
use quartz_database_c.Serialization.Reader.{BinaryReader, open_reader}
use quartz_database_c.Serialization.Writer.{BinaryWriter, open_writer}
use quartz_database_c.Btree.Key
use quartz_database_c.Btree.Key.{Key, equal}
use quartz_database_c.Btree.Node
use quartz_database_c.Btree.Node.{
  Node, NodeConfig, has_allow_duplicates, entry_area_size, sync_header, load_header,
  initialize_header, set_key_count, write_entry_area, entry_area,
}
use quartz_database_c.Btree.Leaf.{write_entries, read_entries, validate_order}

pub record InternalNode : Type 0 where
  pub node : Node
  pub keys : List Key
  pub children : List PageReference

-- The first child, or the invalid reference if there is none, then the keys and the other children; in
-- `syncEntries` and `serializeBody`.
unfoldable pub write_body : List Key → List PageReference → BinaryWriter → BinaryWriter
write_body keys [] w = write_entries keys [] (Format.write Format.invalid w)
write_body keys (c ∷ cs) w = write_entries keys cs (Format.write c w)

-- The loops of `loadEntries` and `deserializeBody`.
unfoldable pub read_body : ℕ → ℕ → BinaryReader → List Key × List PageReference × Status
read_body count binary_key_size r = elim (Format.read r) [
  | err c ↦ ([], [], err c)
  | ok first ↦
      let (ks, cs, status) = read_entries count binary_key_size first.1 in
      (ks, first.0 ∷ cs, status)
]

-- The end of `syncEntries`, after the header.
unfoldable pub sync_area : InternalNode → Node → BinaryWriter → InternalNode × Status
sync_area i n w =
    if ltb entry_area_size w.offset then (record i { node = n }, err corruption) else (
      record i {
        node = set_key_count (write_entry_area n (take w.offset w.buffer.bytes)) (length i.keys);
      },
      success,
    )

unfoldable pub sync_entries : InternalNode → InternalNode × Status
sync_entries i = elim (sync_header i.node) [
  | err c ↦ (i, err c)
  | ok n ↦ sync_area i n (write_body i.keys i.children (open_writer empty_buffer))
]

-- `loadEntries` after the header.
pub load_area : InternalNode → Node → InternalNode × Status
load_area i n =
    let (ks, cs, status) =
      read_body n.page.key_count n.config.binary_key_size (open_reader (entry_area n)) in
    (record { node = n; keys = ks; children = cs }, status)

pub load_entries : InternalNode → InternalNode × Status
load_entries i = elim (load_header i.node) [
  | err c ↦ (record i { keys = []; children = [] }, err c)
  | ok n ↦ load_area i n
]

unfoldable pub create : Node → NodeConfig → InternalNode
create n config = record {
  node = initialize_header n Node.internal config;
  keys = [];
  children = Format.invalid ∷ [];
}

-- The loop of `insert` over the keys that are there.
unfoldable pub has_equal : Key → List Key → Bool
has_equal key [] = false
has_equal key (k ∷ ks) = let rest = has_equal key ks in if equal k key then true else rest

unfoldable pub with_entries : InternalNode → List Key → List PageReference → InternalNode
with_entries i keys children = record {
  node = set_key_count i.node (length keys);
  keys = keys;
  children = children;
}

unfoldable pub insert : InternalNode → ℕ → Key → PageReference → InternalNode × Status
insert i index key right_child =
    if not (is_valid right_child)
    then (i, err invalid_argument)
    else if ltb (length i.keys) index
    then (i, err invalid_argument)
    else if leb i.node.page.capacity (length i.keys)
    then (i, err invalid_argument)
    else if not (has_allow_duplicates i.node.page.flags) && has_equal key i.keys
    then (i, err invalid_argument)
    else sync_entries
        (with_entries i (insert_at i.keys index key) (insert_at i.children (index + 1) right_child))

unfoldable pub erase_entry : InternalNode → ℕ → InternalNode × Status
erase_entry i index =
    if leb (length i.keys) index
    then (i, err invalid_argument)
    else sync_entries (with_entries i (erase_at i.keys index) (erase_at i.children (index + 1)))

unfoldable pub set_key : InternalNode → ℕ → Key → InternalNode × Status
set_key i index key =
    if leb (length i.keys) index
    then (i, err invalid_argument)
    else sync_entries (record i { keys = set i.keys index key })

unfoldable pub assign_entries : InternalNode → List Key → List PageReference → InternalNode × Status
assign_entries i keys children =
    if not (length children == length keys + 1)
    then (i, err invalid_argument)
    else if ltb i.node.page.capacity (length keys)
    then (i, err invalid_argument)
    else sync_entries (with_entries i keys children)

unfoldable pub validate : InternalNode → Status
validate i =
    Node.validate i.node
    >> (if not (i.node.page.node_type == 2)
        then err corruption
        else if not (length i.children == length i.keys + 1)
        then err corruption
        else if not (length i.keys == i.node.page.key_count)
        then err corruption
        else validate_order (has_allow_duplicates i.node.page.flags) i.keys)
