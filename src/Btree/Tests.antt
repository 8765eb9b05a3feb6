-- ===== src/Btree/Tests.antt =====
-- Runs of btree/ on a leaf with two keys and on an internal node with one.
pub mod Trees
mod Searches
mod Changes
mod Insertion
use quartz_database_c.Prelude.{
  ℕ, ◌≤◌, ◌≡◌, ◌↔◌, ◌⊎◌, true, false, ◌&&◌, List, [], ◌∷◌, ◌++◌, length, replicate, zero, insert_at,
  ltb, arith, refl, length-replicate,
}
use quartz_database_c.Status.{err, invalid_argument, success}
use quartz_database_c.Format.{make}
use quartz_database_c.Btree.Key.{
  Key, from_u32, from_u64, from_binary, u32_key, same, compare, less, less_equal,
}
use quartz_database_c.Btree.Key.Order.{opposite, compare_is_total_order}
use quartz_database_c.Btree.Comparator.{test_at, lower_bound, upper_bound}
use quartz_database_c.Btree.Comparator.Search.{IsSorted, lower_bound-test_at, upper_bound-test_at}
use quartz_database_c.Btree.Node
use quartz_database_c.Btree.Node.{
  NodeConfig, IndexPage, Node, internal, compute_capacity, entry_area_size, body_header_size,
}
use quartz_database_c.Btree.Node.Capacity.{compute_capacity-sync_entries}
use quartz_database_c.Btree.Leaf
use quartz_database_c.Serialization.Writer.{open_writer}
use quartz_database_c.Btree.Leaf.{LeafNode, sync_entries, sync_area, write_entries}
use quartz_database_c.Btree.Leaf.Entries.{refuses, insert_keeps_order}
use quartz_database_c.Btree.Leaf.Page.{sync_header-zeros, sync_entries_writes_zeros}
use quartz_database_c.Btree.Internal
use quartz_database_c.Btree.Internal.{InternalNode, insert, erase_entry, set_key, assign_entries}
use quartz_database_c.Btree.Internal.Children.{HasChildren, internal_operations-HasChildren}

abbrev config : NodeConfig
config = record { key_type = u32_key; binary_key_size = 0; allow_duplicates = false; level = 0 }

abbrev page : IndexPage
page = record {
  id = 9;
  node_type = 1;
  key_count = 2;
  capacity = 158;
  flags = 0;
  reserved0 = 0;
  body = replicate 3992 zero;
}

abbrev node : Node
node = record { page = page; config = config; parent = make 1 0 0 }

abbrev two_keys : List Key
two_keys = from_u32 3 ∷ from_u32 7 ∷ []

abbrev leaf_node : LeafNode
leaf_node = record { node = node; keys = two_keys; refs = make 11 0 0 ∷ make 12 0 0 ∷ [] }

abbrev internal_node : InternalNode
internal_node = record {
  node = node;
  keys = from_u32 3 ∷ [];
  children = make 11 0 0 ∷ make 12 0 0 ∷ [];
}

two_keys-IsSorted : IsSorted two_keys
unfolding compare
two_keys-IsSorted = ((refl, tt), (tt, tt))

compare_is_total_order_example :
    (compare (from_u64 7) (from_u32 9) ≡ opposite (compare (from_u32 9) (from_u64 7)))
    × ((compare (from_u32 9) (from_u64 7) ≡ same) ↔ (from_u32 9 ≡ from_u64 7))
    × ((less_equal (from_u32 9) (from_u64 7) && less (from_u64 7) (from_binary (1 ∷ []))) ≡ (
        less_equal (from_u32 9) (from_u64 7)
        && less (from_u64 7) (from_binary (1 ∷ []))
        && less (from_u32 9) (from_binary (1 ∷ []))))
compare_is_total_order_example =
    compare_is_total_order (from_u32 9) (from_u64 7) (from_binary (1 ∷ []))

lower_bound-test_at_example :
    (lower_bound two_keys (from_u32 7) ≤ 2)
    × ((i : ℕ)
        → test_at (λ k. less k (from_u32 7)) two_keys i ≡ ltb i (lower_bound two_keys (from_u32 7)))
lower_bound-test_at_example = lower_bound-test_at two_keys (from_u32 7) two_keys-IsSorted

compute_capacity-sync_entries_example :
    (((sync_entries leaf_node).1 ≡ success) ↔ (2 ≤ compute_capacity config Node.leaf))
    × (((Internal.sync_entries internal_node).1 ≡ success) ↔ (1 ≤ compute_capacity config internal))
compute_capacity-sync_entries_example =
    compute_capacity-sync_entries leaf_node internal_node (refl, (refl, tt)) refl (refl, tt) refl

insert_keeps_order_example :
    ((refuses leaf_node (from_u32 5) (make 13 0 0) ≡ true)
      × (Leaf.insert leaf_node (from_u32 5) (make 13 0 0) ≡ (leaf_node, err invalid_argument)))
    ⊎ ((refuses leaf_node (from_u32 5) (make 13 0 0) ≡ false)
        × ((Leaf.insert leaf_node (from_u32 5) (make 13 0 0)).0.keys
            ≡ insert_at two_keys (lower_bound two_keys (from_u32 5)) (from_u32 5))
        × ((Leaf.insert leaf_node (from_u32 5) (make 13 0 0)).0.refs
            ≡ insert_at
                (make 11 0 0 ∷ make 12 0 0 ∷ [])
                (lower_bound two_keys (from_u32 5))
                (make 13 0 0))
        × IsSorted (Leaf.insert leaf_node (from_u32 5) (make 13 0 0)).0.keys)
insert_keeps_order_example =
    insert_keeps_order leaf_node (from_u32 5) (make 13 0 0) two_keys-IsSorted

abbrev empty_leaf : LeafNode
empty_leaf = record { node = node; keys = []; refs = [] }

page_room : body_header_size ≤ length (replicate 3992 zero)
page_room = omega (arith, length-replicate 3992 zero)

empty_leaf_synced : (sync_entries empty_leaf).1 ≡ success
unfolding sync_entries sync_area write_entries open_writer
empty_leaf_synced = rw ((sync_header-zeros node page_room).1, sync_entries) refl

sync_entries_writes_zeros_example :
    (sync_entries empty_leaf).0.node.page.body
    ≡ replicate body_header_size zero ++ replicate entry_area_size zero
sync_entries_writes_zeros_example = sync_entries_writes_zeros empty_leaf page_room empty_leaf_synced
