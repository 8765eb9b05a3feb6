-- ===== src/Btree/Tests/Changes.antt =====
-- Changes of the trees: insertion, splits, borrowings, merges, and steps of a cursor.
use quartz_database_c.Prelude.{
  ℕ, ◌≡◌, ◌≢◌, [], ◌∷◌, ◌++◌, length, refl, false, none, some, arith, get_elem?, insert_at,
}
use quartz_database_c.Outcome.{returned}
use quartz_database_c.Outcome.Action
use quartz_database_c.Outcome.Action.{Action}
use quartz_database_c.Format
use quartz_database_c.Format.{PageReference, make}
use quartz_database_c.Serialization.Writer
use quartz_database_c.Serialization.Buffer
use quartz_database_c.Space.Manager
use quartz_database_c.Space.FreeSpaceMap
use quartz_database_c.Space.Extent
use quartz_database_c.Storage.PageAllocator
use quartz_database_c.Btree.Key
use quartz_database_c.Btree.Key.{Key, from_u32}
use quartz_database_c.Btree.Comparator
use quartz_database_c.Btree.Comparator.{lower_bound}
use quartz_database_c.Btree.Node
use quartz_database_c.Btree.Leaf
use quartz_database_c.Btree.Leaf.{LeafNode}
use quartz_database_c.Btree.Internal
use quartz_database_c.Btree.Internal.{InternalNode}
use quartz_database_c.Btree.Path.{SearchPath}
use quartz_database_c.Btree.Tree
use quartz_database_c.Btree.Tree.{BTree, lookup, clear}
use quartz_database_c.Btree.Tree.Shape.{IsWhole}
use quartz_database_c.Btree.Tree.Update.{insert, erase, collapse_root_if_needed}
use quartz_database_c.Btree.Tree.Update.Kept.{updates-IsWhole}
use quartz_database_c.Btree.Rebalance.Borrow
use quartz_database_c.Btree.Rebalance.Borrow.{
  Neighbours, borrow_from_left_leaf, borrow_from_right_leaf,
}
use quartz_database_c.Btree.Rebalance.Borrow.Order.{
  Moves, KeepsOrder, borrow_from_left_leaf-KeepsOrder,
}
use quartz_database_c.Btree.Rebalance.Split
use quartz_database_c.Btree.Rebalance.Split.{split_and_insert_leaf}
use quartz_database_c.Btree.Rebalance.Halves.{split_and_insert_leaf_drops_one}
use quartz_database_c.Btree.Rebalance.Merge.{merge_internals, fix_internal_underflow}
use quartz_database_c.Btree.Rebalance.Refused.{merge_internals_never_returns}
use quartz_database_c.Btree.Cursor.{Cursor, on_tree, leftmost}
use quartz_database_c.Btree.Cursor.Step.{advance_to_next_leaf}
use quartz_database_c.Btree.Cursor.Step.Leaves.{
  AreOther, moved, repeat, advance_to_next_leaf-moved, advance_to_next_leaf_never_ends,
}
use quartz_database_c.Btree.Tests.Trees.{tree, tall_tree, root, tall_root, left_leaf, right_leaf}

tree-IsWhole : IsWhole tree
unfolding IsWhole
tree-IsWhole = (
  ((refl, (refl, omega arith)), ((refl, (refl, omega arith)), tt)),
  ((refl, (refl, omega arith)), tt),
)

updates-IsWhole_example :
    IsWhole (insert (from_u32 5) (make 105 1 0) tree).1
    × IsWhole (erase (from_u32 5) tree).1
    × IsWhole (collapse_root_if_needed tree).1
    × IsWhole (clear tree)
updates-IsWhole_example = updates-IsWhole tree (from_u32 5) (make 105 1 0) tree-IsWhole

abbrev before_left : Neighbours LeafNode
before_left = record { parent = root; sibling = left_leaf; node = right_leaf }

abbrev after_left : Neighbours LeafNode
after_left = (borrow_from_left_leaf 1 before_left).1

left_borrowed : borrow_from_left_leaf 1 before_left ≡ (returned tt, after_left)
unfolding borrow_from_left_leaf Borrow.set_parent_key Action.◌>>◌ Action.◌>>=◌ Action.resume
    Action.reads Action.perform Leaf.erase_entry Leaf.assign_entries Leaf.with_entries
    Node.set_key_count Internal.set_key Leaf.sync_entries Leaf.sync_area Leaf.write_entries
    Internal.sync_entries Internal.sync_area Internal.write_body Node.sync_header Node.write_header
    Format.write Format.to_bytes Key.serialize Writer.write_value Writer.write_bytes
    Writer.open_writer Writer.extend_to Writer.ensure_capacity Writer.le_bytes Buffer.grow_for
    Buffer.grow Buffer.grow_loop Buffer.grown_capacity Buffer.resize Buffer.resize_bytes
    Buffer.copy_to
left_borrowed = refl

borrow_from_left_leaf-KeepsOrder_example :
    (separator key : Key) × (ref : PageReference) × Moves 0 1 before_left after_left separator key
      ref
    × KeepsOrder left_leaf separator right_leaf after_left.sibling key after_left.node
    × (get_elem? after_left.node.keys 0 ≡ some separator)
    × (get_elem? after_left.node.refs 0 ≡ some ref)
borrow_from_left_leaf-KeepsOrder_example =
    borrow_from_left_leaf-KeepsOrder 1 before_left after_left (refl, (refl, omega arith))
      left_borrowed

abbrev before_right : Neighbours LeafNode
before_right = record { parent = root; sibling = right_leaf; node = left_leaf }

abbrev after_right : Neighbours LeafNode
after_right = (borrow_from_right_leaf 0 before_right).1

right_borrowed : borrow_from_right_leaf 0 before_right ≡ (returned tt, after_right)
unfolding borrow_from_right_leaf Borrow.set_parent_key Action.◌>>◌ Action.◌>>=◌ Action.resume
    Action.reads Action.perform Leaf.erase_entry Leaf.assign_entries Leaf.with_entries
    Node.set_key_count Internal.set_key Leaf.sync_entries Leaf.sync_area Leaf.write_entries
    Internal.sync_entries Internal.sync_area Internal.write_body Node.sync_header Node.write_header
    Format.write Format.to_bytes Key.serialize Writer.write_value Writer.write_bytes
    Writer.open_writer Writer.extend_to Writer.ensure_capacity Writer.le_bytes Buffer.grow_for
    Buffer.grow Buffer.grow_loop Buffer.grown_capacity Buffer.resize Buffer.resize_bytes
    Buffer.copy_to
right_borrowed = refl

tall_tree-IsWhole : IsWhole tall_tree
unfolding IsWhole
tall_tree-IsWhole = (
  (
    (refl, (refl, omega arith)),
    ((refl, (refl, omega arith)), ((refl, (refl, omega arith)), ((refl, (refl, omega arith)), tt))),
  ),
  ((refl, (refl, omega arith)), ((refl, (refl, omega arith)), ((refl, (refl, omega arith)), tt))),
)

merge_internals_never_returns_example :
    (merge_internals (fix_internal_underflow []) 1 0 tall_tree).0 ≢ returned tt
merge_internals_never_returns_example =
    merge_internals_never_returns (fix_internal_underflow []) tall_tree 1 0 tall_tree-IsWhole

abbrev way_down : SearchPath
way_down = record { page_id = 11; child_index = 0; page_ref = make 11 1 6 } ∷ []

abbrev after_split : BTree
after_split = (split_and_insert_leaf 12 way_down (from_u32 5) (make 105 1 0) tree).1

was_split :
    split_and_insert_leaf 12 way_down (from_u32 5) (make 105 1 0) tree ≡ (returned tt, after_split)
unfolding split_and_insert_leaf Split.split_index Split.insert_into_parent Tree.leaf Tree.internal
    Tree.on_leaf Tree.on_internal Tree.set_leaf Tree.set_internal Tree.lookup Tree.replace Tree.wal
    Tree.is_leaf Tree.allocate_leaf Tree.allocate_page Tree.record_allocation Tree.record_split
    Tree.make_index_ref Internal.insert Internal.has_equal Internal.with_entries Leaf.create
    Node.initialize_header Node.compute_capacity Node.entry_size Node.key_wire_size
    Manager.allocate_page PageAllocator.allocate PageAllocator.allocate_with PageAllocator.init
    PageAllocator.count_allocated FreeSpaceMap.mark_allocated FreeSpaceMap.allocate_from
    FreeSpaceMap.allocate_loop FreeSpaceMap.split_out Extent.split Extent.intersects Extent.is_valid
    Extent.end_page Extent.contains_extent Action.modify Action.gets Action.fail_if Action.branch
    Action.pure Comparator.lower_bound Comparator.search Key.compare Format.make Format.is_valid
    Format.invalid Action.◌>>◌ Action.◌>>=◌ Action.resume Action.reads Action.perform
    Leaf.erase_entry Leaf.assign_entries Leaf.with_entries Node.set_key_count Internal.set_key
    Leaf.sync_entries Leaf.sync_area Leaf.write_entries Internal.sync_entries Internal.sync_area
    Internal.write_body Node.sync_header Node.write_header Format.write Format.to_bytes
    Key.serialize Writer.write_value Writer.write_bytes Writer.open_writer Writer.extend_to
    Writer.ensure_capacity Writer.le_bytes Buffer.grow_for Buffer.grow Buffer.grow_loop
    Buffer.grown_capacity Buffer.resize Buffer.resize_bytes Buffer.copy_to
was_split = refl

left_there : lookup 12 tree.leaves ≡ some left_leaf
unfolding lookup
left_there = refl

split_and_insert_leaf_drops_one_example :
    (sibling : ℕ) × (left right : LeafNode) × (promoted : Key) × (dropped : PageReference) × (lookup
        sibling tree.leaves
      ≡ none)
    × (lookup 12 after_split.leaves ≡ some left)
    × (lookup sibling after_split.leaves ≡ some right)
    × ((left.keys ++ promoted ∷ right.keys)
        ≡ insert_at left_leaf.keys (lower_bound left_leaf.keys (from_u32 5)) (from_u32 5))
    × ((left.refs ++ dropped ∷ right.refs)
        ≡ insert_at left_leaf.refs (lower_bound left_leaf.keys (from_u32 5)) (make 105 1 0))
    × (length left.refs ≡ length left.keys)
    × (length right.refs ≡ length right.keys)
split_and_insert_leaf_drops_one_example =
    split_and_insert_leaf_drops_one 12 way_down (from_u32 5) (make 105 1 0) tree after_split
      left_leaf left_there (refl, (refl, omega arith)) was_split

abbrev at_left : Cursor
at_left = record { target = on_tree (some tree); leaf_id = 12; index = 1; at_end = false }

tree_filled : Tree.is_empty tree ≡ false
unfolding Tree.is_empty
tree_filled = refl

root_there : lookup 11 tree.internals ≡ some root
unfolding lookup
root_there = refl

right_is_leaf : leftmost 1 tree (make 13 0 0).page_id ≡ returned 13
unfolding leftmost make lookup Tree.is_internal
right_is_leaf = refl

left_is_child : (make 12 0 0).page_id ≡ 12
unfolding make
left_is_child = refl

advance_to_next_leaf-moved_example : advance_to_next_leaf at_left ≡ (returned tt, moved at_left 13)
advance_to_next_leaf-moved_example =
    advance_to_next_leaf-moved tree root tree_filled root_there at_left 0 13 (make 12 0 0)
      (make 13 0 0) (refl, (refl, omega arith)) refl refl tt refl left_is_child refl right_is_leaf

-- A cursor on the second leaf, the last one under the first child of the root.
abbrev in_middle : Cursor
in_middle = record { target = on_tree (some tall_tree); leaf_id = 13; index = 1; at_end = false }

tall_filled : Tree.is_empty tall_tree ≡ false
unfolding Tree.is_empty
tall_filled = refl

tall_root_there : lookup 1 tall_tree.internals ≡ some tall_root
unfolding lookup
tall_root_there = refl

not_child : AreOther 13 tall_root.children × AreOther 22 tall_root.children
unfolding make
not_child = ((refl, (refl, tt)), (refl, (refl, tt)))

down_right : leftmost 3 tall_tree (make 21 0 0).page_id ≡ returned 22
unfolding leftmost make lookup Tree.is_internal Tree.internal
down_right = refl

advance_to_next_leaf_never_ends_example :
    repeat 5 advance_to_next_leaf in_middle ≡ (returned tt, moved in_middle 22)
advance_to_next_leaf_never_ends_example =
    advance_to_next_leaf_never_ends tall_tree tall_root tall_filled tall_root_there in_middle 22 5
      (make 21 0 0) (refl, (refl, omega arith)) refl refl refl not_child.0 not_child.1 refl
      down_right
