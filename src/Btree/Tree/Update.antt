-- ===== src/Btree/Tree/Update.antt =====
-- `insert`, `erase`, `collapseRootIfNeeded` and the statistics' counts of BTree.cpp.
pub mod Kept
pub mod Changed
pub mod Pairs
use quartz_database_c.Prelude.{
  ℕ, ◌+◌, ◌-◌, Bool, true, false, not, ◌&&◌, List, [], ◌∷◌, length, ltb, ◌==◌, if◌then◌else◌,
}
use quartz_database_c.Status.{invalid_argument}
use quartz_database_c.Outcome.{at}
use quartz_database_c.Outcome.Action.{
  Action, ◌>>=◌, ◌>>◌, pure, reads, gets, modify, fail, fail_if, branch,
}
use quartz_database_c.Format.{PageReference, is_valid, invalid_page_id}
use quartz_database_c.Btree.Key.{Key}
use quartz_database_c.Btree.Node.{is_underfull}
use quartz_database_c.Btree.Leaf
use quartz_database_c.Btree.Tree.{
  BTree, TreeOperationStats, leaf, internal, is_internal, is_empty, on_leaf, set_root, set_height,
  wal, on_insert, on_erase, allocate_leaf, release_node,
}
use quartz_database_c.Btree.Tree.Search.{descend_to_leaf, descend_for_insert}
use quartz_database_c.Btree.Rebalance.Split.{split_and_insert_leaf}
use quartz_database_c.Btree.Rebalance.Merge.{fix_leaf_underflow}

-- `++size_` and `--size_`, on 64 bits; a size that is 0 wraps round.
unfoldable pub grow : BTree → BTree
grow t = record t { size = if t.size == 0xffff_ffff_ffff_ffff then 0 else t.size + 1 }

pub shrink : BTree → BTree
shrink t = record t { size = if t.size == 0 then 0xffff_ffff_ffff_ffff else t.size - 1 }

-- The first key of an empty tree.
pub insert_first : Key → PageReference → Action BTree (Unit {0})
insert_first key value = do
  id ← allocate_leaf 0
  on_leaf id (λ l. Leaf.insert l key value)
  modify (set_root id)
  modify (set_height 1)
  modify grow
  wal (on_insert key value)

unfoldable pub insert : Key → PageReference → Action BTree (Unit {0})
insert key value = do
  fail_if (not (is_valid value)) invalid_argument
  none_yet ← gets is_empty
  branch none_yet (insert_first key value) (do
    place ← reads (λ t. descend_for_insert t key)
    l ← reads (λ t. leaf t place.leaf_id)
    branch (ltb l.node.page.key_count l.node.page.capacity)
        (on_leaf place.leaf_id (λ n. Leaf.insert n key value))
        (split_and_insert_leaf place.leaf_id place.path key value)
    modify grow
    wal (on_insert key value))

-- The end of `erase`: the last key's leaf is released, or a leaf with too few keys is repaired.
pub erase : Key → Action BTree (Unit {0})
erase key = do
  none_yet ← gets is_empty
  fail_if none_yet invalid_argument
  place ← reads (λ t. descend_to_leaf t key true)
  on_leaf place.leaf_id (λ l. Leaf.erase_entry l place.index)
  modify shrink
  wal (on_erase key)
  l ← reads (λ t. leaf t place.leaf_id)
  branch (length place.path == 0)
      (branch (l.node.page.key_count == 0)
        (do
          modify (release_node place.leaf_id)
          modify (set_root invalid_page_id)
          modify (set_height 0))
        (pure tt))
      (branch (is_underfull l.node.page.key_count l.node.page.capacity false)
        (fix_leaf_underflow place.path place.leaf_id) (pure tt))

-- The root is replaced by its only child.
pub collapse_root_if_needed : Action BTree (Unit {0})
collapse_root_if_needed = do
  skip ← gets (λ t. is_empty t)
  inner ← gets (λ t. is_internal t t.root_id)
  branch (not skip && inner)
      (do
        id ← gets (λ t. t.root_id)
        root ← reads (λ t. internal t id)
        branch (root.node.page.key_count == 0 && length root.children == 1)
            (do
              child ← reads (λ t. at root.children 0)
              modify (release_node id)
              modify (set_root child.page_id)
              modify (λ t. set_height (t.height - 1) t))
            (pure tt))
      (pure tt)

-- `TreeStatistics` without the occupancy.
pub record TreeStatistics : Type 0 where
  pub key_count : ℕ
  pub height : ℕ
  pub max_depth : ℕ
  pub leaf_count : ℕ
  pub internal_count : ℕ
  pub node_count : ℕ
  pub operations : TreeOperationStats

pub statistics : BTree → TreeStatistics
statistics t =
    let leaf_count = if is_empty t then 0 else length t.leaves in
    let internal_count = if is_empty t then 0 else length t.internals in
    record {
      key_count = t.size;
      height = t.height;
      max_depth = t.height;
      leaf_count = leaf_count;
      internal_count = internal_count;
      node_count = leaf_count + internal_count;
      operations = t.operations;
    }
