-- ===== src/Btree/Rebalance/Merge.antt =====
-- The functions of Rebalance.cpp that repair a node with too few keys: one entry is borrowed from a
-- sibling that has more than the least count, or two siblings become one.
use quartz_database_c.Prelude.{
  ℕ, ◌+◌, ◌-◌, Bool, false, ◌&&◌, List, [], ◌∷◌, ◌++◌, length, if◌then◌else◌, take, drop, ltb, leb,
  ◌==◌,
}
use quartz_database_c.Outcome.{Outcome, returned, thrown, at}
use quartz_database_c.Outcome.Action.{Action, ◌>>=◌, ◌>>◌, pure, reads, gets, modify, branch}
use quartz_database_c.Btree.Node.{min_key_count, is_underfull}
use quartz_database_c.Btree.Leaf
use quartz_database_c.Btree.Leaf.{LeafNode}
use quartz_database_c.Btree.Internal
use quartz_database_c.Btree.Internal.{InternalNode}
use quartz_database_c.Btree.Path.{SearchPath}
use quartz_database_c.Btree.Tree.{
  BTree, leaf, internal, set_leaf, set_internal, on_leaf, on_internal, set_root, set_height, wal,
  on_node_merge, record_merge, record_rotation, release_node,
}
use quartz_database_c.Btree.Rebalance.Borrow.{
  Neighbours, borrow_from_left_leaf, borrow_from_right_leaf, borrow_from_left_internal,
  borrow_from_right_internal,
}

-- The nodes that a borrowing function has changed, in the tree, and `recordRotation` at its end.
unfoldable pub store_leaves : ℕ → ℕ → ℕ → Neighbours LeafNode → BTree → BTree
store_leaves parent sibling id s t =
    set_leaf id s.node (set_leaf sibling s.sibling (set_internal parent s.parent t))

unfoldable pub store_internals : ℕ → ℕ → ℕ → Neighbours InternalNode → BTree → BTree
store_internals parent sibling id s t =
    set_internal id s.node (set_internal sibling s.sibling (set_internal parent s.parent t))

unfoldable pub borrow_leaf :
    Action (Neighbours LeafNode) (Unit {0}) → ℕ → ℕ → ℕ → Action BTree (Unit {0})
borrow_leaf borrow parent_id sibling_id id = do
  parent ← reads (λ t. internal t parent_id)
  sibling ← reads (λ t. leaf t sibling_id)
  node ← reads (λ t. leaf t id)
  let done = borrow (record { parent = parent; sibling = sibling; node = node })
  modify (store_leaves parent_id sibling_id id done.1)
  reads (λ t. done.0)
  modify record_rotation

unfoldable pub borrow_internal :
    Action (Neighbours InternalNode) (Unit {0}) → ℕ → ℕ → ℕ → Action BTree (Unit {0})
borrow_internal borrow parent_id sibling_id id = do
  parent ← reads (λ t. internal t parent_id)
  sibling ← reads (λ t. internal t sibling_id)
  node ← reads (λ t. internal t id)
  let done = borrow (record { parent = parent; sibling = sibling; node = node })
  modify (store_internals parent_id sibling_id id done.1)
  reads (λ t. done.0)
  modify record_rotation

-- The end of the four merges, after `assignEntries`: the parent loses the key, the removed node is
-- released, and the parent is repaired. `fix` is `fixInternalUnderflow` for the rest of the path.
unfoldable pub finish_merge :
    (ℕ → Action BTree (Unit {0})) → ℕ → ℕ → ℕ → ℕ → Action BTree (Unit {0})
finish_merge fix parent_id index survivor removed = do
  on_internal parent_id (λ p. Internal.erase_entry p index)
  wal (on_node_merge survivor removed)
  modify (release_node removed)
  modify record_merge
  parent ← reads (λ t. internal t parent_id)
  is_root ← gets (λ t. parent_id == t.root_id)
  branch (is_root && parent.node.page.key_count == 0)
      (do
        child ← reads (λ t. at parent.children 0)
        modify (release_node parent_id)
        modify (set_root child.page_id)
        modify (λ t. set_height (t.height - 1) t))
      (branch (is_underfull parent.node.page.key_count parent.node.page.capacity is_root)
        (fix parent_id) (pure tt))

-- The loop of the merges of leaves over `current.keyCount()` entries, which throws where there are fewer.
unfoldable pub first_entries : {A : Type 0} → ℕ → List A → Outcome (List A)
first_entries count xs = if ltb (length xs) count then thrown else returned (take count xs)

-- `mergeLeafLeft(childIndex)` for `index + 1`, `mergeLeafRight(childIndex)` for `index`: the children at
-- `index` and `index + 1` become the first of them.
unfoldable pub merge_leaves : (ℕ → Action BTree (Unit {0})) → ℕ → ℕ → Action BTree (Unit {0})
merge_leaves fix parent_id index = do
  parent ← reads (λ t. internal t parent_id)
  left ← reads (λ t. at parent.children index)
  right ← reads (λ t. at parent.children (index + 1))
  l ← reads (λ t. leaf t left.page_id)
  r ← reads (λ t. leaf t right.page_id)
  moved_keys ← reads (λ t. first_entries r.node.page.key_count r.keys)
  moved_refs ← reads (λ t. first_entries r.node.page.key_count r.refs)
  on_leaf left.page_id (λ n. Leaf.assign_entries n (l.keys ++ moved_keys) (l.refs ++ moved_refs))
  finish_merge fix parent_id index left.page_id right.page_id

unfoldable pub merge_internals : (ℕ → Action BTree (Unit {0})) → ℕ → ℕ → Action BTree (Unit {0})
merge_internals fix parent_id index = do
  parent ← reads (λ t. internal t parent_id)
  left ← reads (λ t. at parent.children index)
  right ← reads (λ t. at parent.children (index + 1))
  l ← reads (λ t. internal t left.page_id)
  r ← reads (λ t. internal t right.page_id)
  separator ← reads (λ t. at parent.keys index)
  on_internal left.page_id (λ n.
      Internal.assign_entries n (l.keys ++ separator ∷ r.keys) (l.children ++ drop 1 r.children))
  finish_merge fix parent_id index left.page_id right.page_id

-- Whether the child at an index has more than the least count of keys.
unfoldable pub leaf_lends : InternalNode → ℕ → Action BTree Bool
leaf_lends parent index = do
  child ← reads (λ t. at parent.children index)
  l ← reads (λ t. leaf t child.page_id)
  pure (ltb (min_key_count l.node.page.capacity false) l.node.page.key_count)

unfoldable pub internal_lends : InternalNode → ℕ → Action BTree Bool
internal_lends parent index = do
  child ← reads (λ t. at parent.children index)
  i ← reads (λ t. internal t child.page_id)
  pure (ltb (min_key_count i.node.page.capacity false) i.node.page.key_count)

unfoldable pub fix_internal_underflow : SearchPath → ℕ → Action BTree (Unit {0})
fix_internal_underflow [] id = pure tt
fix_internal_underflow (frame ∷ path) id = do
  let index = frame.child_index
  let parent_id = frame.page_id
  let merge = merge_internals (fix_internal_underflow path) parent_id
  parent ← reads (λ t. internal t parent_id)
  left_lends ← branch (ltb 0 index) (internal_lends parent (index - 1)) (pure false)
  branch left_lends
      (do
        left ← reads (λ t. at parent.children (index - 1))
        borrow_internal (borrow_from_left_internal index) parent_id left.page_id id)
      (do
        right_lends ←
            branch (leb (index + 1) parent.node.page.key_count) (internal_lends parent (index + 1))
              (pure false)
        branch right_lends
            (do
              right ← reads (λ t. at parent.children (index + 1))
              borrow_internal (borrow_from_right_internal index) parent_id right.page_id id)
            (branch (ltb 0 index) (merge (index - 1)) (merge index)))

unfoldable pub fix_leaf_underflow : SearchPath → ℕ → Action BTree (Unit {0})
fix_leaf_underflow [] id = pure tt
fix_leaf_underflow (frame ∷ path) id = do
  let index = frame.child_index
  let parent_id = frame.page_id
  let merge = merge_leaves (fix_internal_underflow path) parent_id
  parent ← reads (λ t. internal t parent_id)
  left_lends ← branch (ltb 0 index) (leaf_lends parent (index - 1)) (pure false)
  branch left_lends
      (do
        left ← reads (λ t. at parent.children (index - 1))
        borrow_leaf (borrow_from_left_leaf index) parent_id left.page_id id)
      (do
        right_lends ←
            branch (leb (index + 1) parent.node.page.key_count) (leaf_lends parent (index + 1))
              (pure false)
        branch right_lends
            (do
              right ← reads (λ t. at parent.children (index + 1))
              borrow_leaf (borrow_from_right_leaf index) parent_id right.page_id id)
            (branch (ltb 0 index) (merge (index - 1)) (merge index)))
