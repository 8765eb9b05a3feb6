-- ===== src/Btree/Tree/Search.antt =====
-- The search of BTree.cpp: `descendToLeaf`, `descendForInsert`, `find` and `contains`. A descent passes
-- each internal node once or never ends, so the fuel is the number of internal nodes.
pub mod Entry
pub mod Found
pub mod Depth
use quartz_database_c.Prelude.{
  ℕ, zero, suc, ◌+◌, Bool, true, false, not, ◌&&◌, ◌||◌, List, [], ◌∷◌, length, ltb, leb,
  if◌then◌else◌,
}
use quartz_database_c.Status.{invalid_argument, corruption}
use quartz_database_c.Outcome.{Outcome, returned, failed, thrown, endless, ◌>>=◌, at}
use quartz_database_c.Format.{PageReference, is_valid}
use quartz_database_c.Btree.Key.{Key, equal}
use quartz_database_c.Btree.Comparator
use quartz_database_c.Btree.Comparator.{lower_bound, test_at}
use quartz_database_c.Btree.Leaf.{LeafNode}
use quartz_database_c.Btree.Path.{SearchPathEntry, SearchPath, push}
use quartz_database_c.Btree.Tree.{BTree, is_leaf, leaf, internal, make_index_ref, is_empty}

-- Where a descent ends: the leaf, the index in it, and the internal nodes passed.
pub record Place : Type 0 where
  pub leaf_id : ℕ
  pub index : ℕ
  pub path : SearchPath

-- `leaf->find`, with the test after it, or `leaf->lowerBound`.
unfoldable pub place_in : Bool → Key → ℕ → SearchPath → LeafNode → Outcome Place
place_in false key id path l =
    returned (record { leaf_id = id; index = lower_bound l.keys key; path = path })
place_in true key id path l =
    let index = Comparator.find l.keys key in
    if leb l.node.page.key_count index then failed invalid_argument else do
      k ← at l.keys index
      (if equal k key
          then returned (record { leaf_id = id; index = index; path = path })
          else failed invalid_argument)

-- The loop of `descendToLeaf`.
unfoldable pub descend_from : ℕ → BTree → Bool → Key → ℕ → SearchPath → Outcome Place
descend_from zero t exact key id path =
    if is_leaf t id
    then leaf t id >>= place_in exact key id path
    else do node ← internal t id; endless
descend_from (suc fuel) t exact key id path =
    if is_leaf t id then leaf t id >>= place_in exact key id path else do
      node ← internal t id
      let index = lower_bound node.keys key
      child ← at node.children index
      let entry : SearchPathEntry = record {
        page_id = id;
        child_index = index;
        page_ref = make_index_ref id;
      }
      let rest = descend_from fuel t exact key child.page_id (push entry path)
      if is_valid child then rest else failed corruption

unfoldable pub descend_to_leaf : BTree → Key → Bool → Outcome Place
descend_to_leaf t key exact =
    if is_empty t
    then failed invalid_argument
    else descend_from (length t.internals) t exact key t.root_id []

-- The end of `descendForInsert`: a key that is there is refused where duplicates are not allowed.
unfoldable pub refuse_duplicate : BTree → Key → Place → Outcome Place
refuse_duplicate t key place = do
  l ← leaf t place.leaf_id
  (if not t.config.allow_duplicates && ltb place.index l.node.page.key_count
      then (do
        k ← at l.keys place.index
        (if equal k key then failed invalid_argument else returned place))
      else returned place)

unfoldable pub descend_for_insert : BTree → Key → Outcome Place
descend_for_insert t key = descend_to_leaf t key false >>= refuse_duplicate t key

pub find : BTree → Key → Outcome PageReference
find t key = do place ← descend_to_leaf t key true; l ← leaf t place.leaf_id; at l.refs place.index

-- A status that is not ok is `false`; what is thrown passes through.
unfoldable pub contains : BTree → Key → Outcome Bool
contains t key = elim (find t key) [
  | returned ref ↦ returned true
  | failed c ↦ returned false
  | thrown ↦ thrown
  | endless ↦ endless
]
