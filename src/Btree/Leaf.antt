-- ===== src/Btree/Leaf.antt =====
-- btree/LeafNode.h and LeafNode.cpp. `keyAt` and `referenceAt` are `get_elem?`.
pub mod Entries
pub mod Page
use quartz_database_c.Prelude.{
  ℕ, zero, suc, ◌+◌, ◌≤◌, Bool, true, false, not, ◌&&◌, ◌||◌, List, [], ◌∷◌, ◌++◌, length, take,
  insert_at, erase_at, ltb, leb, ◌==◌, if◌then◌else◌,
}
use quartz_database_c.Status.{
  Status, Result, ok, err, invalid_argument, corruption, success, ◌>>=◌, ◌>>◌,
}
use quartz_database_c.Format
use quartz_database_c.Format.{PageReference, is_valid}
use quartz_database_c.Serialization.Buffer.{empty_buffer}
use quartz_database_c.Serialization.Reader.{BinaryReader, open_reader}
use quartz_database_c.Serialization.Writer.{BinaryWriter, open_writer}
use quartz_database_c.Btree.Key
use quartz_database_c.Btree.Key.{Key, equal, less}
use quartz_database_c.Btree.Comparator.{lower_bound, find, test_at}
use quartz_database_c.Btree.Node
use quartz_database_c.Btree.Node.{
  IndexPage, Node, NodeConfig, has_allow_duplicates, entry_area_size, sync_header, load_header,
  initialize_header, set_key_count, write_entry_area, entry_area,
}

pub record LeafNode : Type 0 where
  pub node : Node
  pub keys : List Key
  pub refs : List PageReference

-- The loop that writes the entries, in `syncEntries` and `serializeBody`.
unfoldable pub write_entries : List Key → List PageReference → BinaryWriter → BinaryWriter
write_entries [] refs w = w
write_entries (k ∷ ks) [] w = w
write_entries (k ∷ ks) (r ∷ rs) w = write_entries ks rs (Format.write r (Key.serialize k w))

-- The loop that reads `count` entries, in `loadEntries` and `deserializeBody`: what it has read when it
-- stops, and whether it stopped on an error.
unfoldable pub read_entries : ℕ → ℕ → BinaryReader → List Key × List PageReference × Status
read_entries zero binary_key_size r = ([], [], success)
read_entries (suc count) binary_key_size r = elim (Key.deserialize binary_key_size r) [
  | err c ↦ ([], [], err c)
  | ok k ↦ elim (Format.read k.1) [
    | err c ↦ ([], [], err c)
    | ok p ↦
        let (ks, rs, status) = read_entries count binary_key_size p.1 in
        (k.0 ∷ ks, p.0 ∷ rs, status)
  ]
]

-- The end of `syncEntries`, after the header; the entries have been written to `w`.
unfoldable pub sync_area : LeafNode → Node → BinaryWriter → LeafNode × Status
sync_area l n w =
    if ltb entry_area_size w.offset then (record l { node = n }, err corruption) else (
      record l {
        node = set_key_count (write_entry_area n (take w.offset w.buffer.bytes)) (length l.keys);
      },
      success,
    )

unfoldable pub sync_entries : LeafNode → LeafNode × Status
sync_entries l = elim (sync_header l.node) [
  | err c ↦ (l, err c)
  | ok n ↦ sync_area l n (write_entries l.keys l.refs (open_writer empty_buffer))
]

-- `loadEntries` after the header.
pub load_area : LeafNode → Node → LeafNode × Status
load_area l n =
    let (ks, rs, status) =
      read_entries n.page.key_count n.config.binary_key_size (open_reader (entry_area n)) in
    (record { node = n; keys = ks; refs = rs }, status)

pub load_entries : LeafNode → LeafNode × Status
load_entries l = elim (load_header l.node) [
  | err c ↦ (record l { keys = []; refs = [] }, err c)
  | ok n ↦ load_area l n
]

unfoldable pub create : Node → NodeConfig → LeafNode
create n config = record { node = initialize_header n Node.leaf config; keys = []; refs = [] }

pub contains : LeafNode → Key → Bool
contains l key = ltb (find l.keys key) (length l.keys)

-- The entries `keys` and `refs` with the page's key count, before they are synchronised.
unfoldable pub with_entries : LeafNode → List Key → List PageReference → LeafNode
with_entries l keys refs = record {
  node = set_key_count l.node (length keys);
  keys = keys;
  refs = refs;
}

unfoldable pub insert : LeafNode → Key → PageReference → LeafNode × Status
insert l key ref =
    let pos = lower_bound l.keys key in
    if not (is_valid ref)
    then (l, err invalid_argument)
    else if leb l.node.page.capacity l.node.page.key_count
    then (l, err invalid_argument)
    else if not (has_allow_duplicates l.node.page.flags)
        && ltb pos (length l.keys)
        && test_at (λ k. equal k key) l.keys pos
    then (l, err invalid_argument)
    else sync_entries (with_entries l (insert_at l.keys pos key) (insert_at l.refs pos ref))

unfoldable pub erase_entry : LeafNode → ℕ → LeafNode × Status
erase_entry l index =
    if leb (length l.keys) index
    then (l, err invalid_argument)
    else sync_entries (with_entries l (erase_at l.keys index) (erase_at l.refs index))

pub erase : LeafNode → Key → LeafNode × Status
erase l key =
    let pos = find l.keys key in
    if leb (length l.keys) pos then (l, err invalid_argument) else erase_entry l pos

unfoldable pub assign_entries : LeafNode → List Key → List PageReference → LeafNode × Status
assign_entries l keys refs =
    if not (length keys == length refs)
    then (l, err invalid_argument)
    else if ltb l.node.page.capacity (length keys)
    then (l, err invalid_argument)
    else sync_entries (with_entries l keys refs)

-- The loop of `validate`: neighbours ascend, or are equal where that is allowed.
unfoldable pub validate_order : Bool → List Key → Status
validate_order allow [] = success
validate_order allow (k ∷ []) = success
validate_order allow (k ∷ j ∷ ks) =
    let rest = validate_order allow (j ∷ ks) in
    if less k j || (allow && equal k j) then rest else err corruption

unfoldable pub validate : LeafNode → Status
validate l =
    Node.validate l.node
    >> (if not (l.node.page.node_type == 1)
        then err corruption
        else if not (length l.keys == length l.refs)
        then err corruption
        else if not (length l.keys == l.node.page.key_count)
        then err corruption
        else validate_order (has_allow_duplicates l.node.page.flags) l.keys)
