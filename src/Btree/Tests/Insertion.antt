-- ===== src/Btree/Tests/Insertion.antt =====
-- An insertion into the first leaf of the tree of two leaves.
use quartz_database_c.Prelude.{◌↔◌, ◌⊎◌, false, ◌≡◌, [], ◌∷◌, refl, false, some}
use quartz_database_c.Outcome.{returned}
use quartz_database_c.Outcome.Action
use quartz_database_c.Outcome.Action.{Action}
use quartz_database_c.Format
use quartz_database_c.Format.{PageReference, make}
use quartz_database_c.Serialization.Writer
use quartz_database_c.Serialization.Buffer
use quartz_database_c.Space.Manager
use quartz_database_c.Space.FreeSpaceMap
use quartz_database_c.Space.Extent
use quartz_database_c.Storage.PageAllocator
use quartz_database_c.Btree.Key
use quartz_database_c.Btree.Key.{Key, from_u32}
use quartz_database_c.Btree.Comparator
use quartz_database_c.Btree.Comparator.{lower_bound}
use quartz_database_c.Btree.Node
use quartz_database_c.Btree.Leaf
use quartz_database_c.Btree.Leaf.{LeafNode}
use quartz_database_c.Btree.Internal
use quartz_database_c.Btree.Internal.{InternalNode}
use quartz_database_c.Btree.Path
use quartz_database_c.Btree.Tree
use quartz_database_c.Btree.Tree.{BTree, lookup, clear}
use quartz_database_c.Btree.Tree.Update.{insert, erase, collapse_root_if_needed}
use quartz_database_c.Btree.Tests.Trees.{tree, left_leaf}
use quartz_database_c.Btree.Tree.Update
use quartz_database_c.Btree.Tree.Search
use quartz_database_c.Btree.Tree.Search.{Place, descend_for_insert}
use quartz_database_c.Btree.Tree.Search.Entry.{Entry}
use quartz_database_c.Btree.Tree.Update.Pairs.{insert-Entry}

abbrev place : Place
place = record {
  leaf_id = 12;
  index = 1;
  path = record { page_id = 11; child_index = 0; page_ref = make 11 1 6 } ∷ [];
}

abbrev after : BTree
after = (insert (from_u32 5) (make 105 1 0) tree).1

found : descend_for_insert tree (from_u32 5) ≡ returned place
unfolding descend_for_insert Search.refuse_duplicate Search.descend_to_leaf Search.descend_from
    Search.place_in Path.push Tree.leaf Tree.internal Tree.on_leaf Tree.on_internal Tree.set_leaf
    Tree.set_internal Tree.lookup Tree.replace Tree.wal Tree.is_leaf Tree.allocate_leaf
    Tree.allocate_page Tree.record_allocation Tree.record_split Tree.make_index_ref
    Comparator.lower_bound Comparator.search Key.compare Format.make Format.is_valid Format.invalid
    Format.write Format.to_bytes Key.serialize Tree.is_empty
found = refl

was_inserted : insert (from_u32 5) (make 105 1 0) tree ≡ (returned tt, after)
unfolding insert Update.grow descend_for_insert Search.refuse_duplicate Search.descend_to_leaf
    Search.descend_from Search.place_in Path.push Tree.is_empty Leaf.insert Tree.leaf Tree.internal
    Tree.on_leaf Tree.on_internal Tree.set_leaf Tree.set_internal Tree.lookup Tree.replace Tree.wal
    Tree.is_leaf Tree.allocate_leaf Tree.allocate_page Tree.record_allocation Tree.record_split
    Tree.make_index_ref Internal.insert Internal.has_equal Internal.with_entries Leaf.create
    Node.initialize_header Node.compute_capacity Node.entry_size Node.key_wire_size
    Manager.allocate_page PageAllocator.allocate PageAllocator.allocate_with PageAllocator.init
    PageAllocator.count_allocated FreeSpaceMap.mark_allocated FreeSpaceMap.allocate_from
    FreeSpaceMap.allocate_loop FreeSpaceMap.split_out Extent.split Extent.intersects Extent.is_valid
    Extent.end_page Extent.contains_extent Action.modify Action.gets Action.fail_if Action.branch
    Action.pure Comparator.lower_bound Comparator.search Key.compare Format.make Format.is_valid
    Format.invalid Action.◌>>◌ Action.◌>>=◌ Action.resume Action.reads Action.perform
    Leaf.erase_entry Leaf.with_entries Node.set_key_count Internal.set_key Leaf.sync_entries
    Leaf.sync_area Leaf.write_entries Internal.sync_entries Internal.sync_area Internal.write_body
    Node.sync_header Node.write_header Format.write Format.to_bytes Key.serialize Writer.write_value
    Writer.write_bytes Writer.open_writer Writer.extend_to Writer.ensure_capacity Writer.le_bytes
    Buffer.grow_for Buffer.grow Buffer.grow_loop Buffer.grown_capacity Buffer.resize
    Buffer.resize_bytes Buffer.copy_to
was_inserted = refl

leaf_there : lookup 12 tree.leaves ≡ some left_leaf
unfolding lookup
leaf_there = refl

filled : Tree.is_empty tree ≡ false
unfolding Tree.is_empty
filled = refl

insert-Entry_example : Entry after (from_u32 7) (make 107 0 0) after.root_id ↔ (
    Entry tree (from_u32 7) (make 107 0 0) 11
    ⊎ ((from_u32 7 ≡ from_u32 5) × (make 107 0 0 ≡ make 105 1 0)))
insert-Entry_example =
    insert-Entry tree after (from_u32 5) (from_u32 7) (make 105 1 0) (make 107 0 0) place left_leaf
      filled found leaf_there refl refl was_inserted
