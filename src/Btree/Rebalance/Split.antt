-- ===== src/Btree/Rebalance/Split.antt =====
-- The functions of Rebalance.cpp that split a full node and enter the promoted key above it.
use quartz_database_c.Prelude.{ℕ, ◌+◌, ◌/◌, List, [], ◌∷◌, length, take, drop, insert_at, ltb}
use quartz_database_c.Outcome.{at}
use quartz_database_c.Outcome.Action.{Action, ◌>>=◌, ◌>>◌, reads, gets, modify, branch}
use quartz_database_c.Format.{PageReference}
use quartz_database_c.Btree.Key.{Key}
use quartz_database_c.Btree.Comparator.{lower_bound}
use quartz_database_c.Btree.Leaf
use quartz_database_c.Btree.Internal
use quartz_database_c.Btree.Path.{SearchPath}
use quartz_database_c.Btree.Tree.{
  BTree, leaf, internal, on_leaf, on_internal, make_index_ref, set_root, set_height, wal,
  on_node_split, record_split, allocate_leaf, allocate_internal,
}

-- The lists on the two sides of the promoted key; the left half of the children is one longer.
unfoldable pub split_index : List Key → ℕ
split_index keys = length keys / 2

-- `splitAndInsertInternal`; `above` is `insertIntoParent` for the rest of the path.
unfoldable pub split_and_insert_internal :
    (Key → ℕ → ℕ → Action BTree (Unit {0})) → ℕ → ℕ → Key → PageReference → Action BTree (Unit {0})
split_and_insert_internal above id index key right_child = do
  node ← reads (λ t. internal t id)
  let keys = insert_at node.keys index key
  let children = insert_at node.children (index + 1) right_child
  let middle = split_index keys
  promoted ← reads (λ t. at keys middle)
  on_internal id (λ i. Internal.assign_entries i (take middle keys) (take (middle + 1) children))
  node_now ← reads (λ t. internal t id)
  sibling ← allocate_internal node_now.node.config.level
  on_internal sibling
      (λ i. Internal.assign_entries i (drop (middle + 1) keys) (drop (middle + 1) children))
  modify record_split
  wal (on_node_split id sibling promoted)
  above promoted id sibling

-- A new root over two nodes.
unfoldable pub grow_root : Key → ℕ → ℕ → Action BTree (Unit {0})
grow_root promoted left right = do
  height ← gets (λ t. t.height)
  root ← allocate_internal height
  on_internal root (λ i.
      Internal.assign_entries i (promoted ∷ []) (make_index_ref left ∷ make_index_ref right ∷ []))
  modify (set_root root)
  modify (λ t. set_height (t.height + 1) t)

unfoldable pub insert_into_parent : SearchPath → Key → ℕ → ℕ → Action BTree (Unit {0})
insert_into_parent [] promoted left right = grow_root promoted left right
insert_into_parent (frame ∷ path) promoted left right = do
  parent ← reads (λ t. internal t frame.page_id)
  branch (ltb parent.node.page.key_count parent.node.page.capacity)
      (on_internal frame.page_id
        (λ i. Internal.insert i frame.child_index promoted (make_index_ref right)))
      (split_and_insert_internal (insert_into_parent path) frame.page_id frame.child_index promoted
        (make_index_ref right))

unfoldable pub split_and_insert_leaf :
    ℕ → SearchPath → Key → PageReference → Action BTree (Unit {0})
split_and_insert_leaf id path key value = do
  node ← reads (λ t. leaf t id)
  let pos = lower_bound node.keys key
  let keys = insert_at node.keys pos key
  let refs = insert_at node.refs pos value
  let middle = split_index keys
  promoted ← reads (λ t. at keys middle)
  on_leaf id (λ l. Leaf.assign_entries l (take middle keys) (take middle refs))
  node_now ← reads (λ t. leaf t id)
  sibling ← allocate_leaf node_now.node.config.level
  on_leaf sibling (λ l. Leaf.assign_entries l (drop (middle + 1) keys) (drop (middle + 1) refs))
  modify record_split
  wal (on_node_split id sibling promoted)
  insert_into_parent path promoted id sibling
