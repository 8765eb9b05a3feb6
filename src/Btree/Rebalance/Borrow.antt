-- ===== src/Btree/Rebalance/Borrow.antt =====
-- The functions of Rebalance.cpp that move one entry from a sibling.
pub mod Order
use quartz_database_c.Prelude.{ℕ, ◌+◌, ◌-◌, List, [], ◌∷◌, ◌++◌, length, take, drop, erase_at}
use quartz_database_c.Status.{Status}
use quartz_database_c.Outcome.{Outcome, returned, at, of_status}
use quartz_database_c.Outcome.Action.{Action, ◌>>=◌, ◌>>◌, reads, perform}
use quartz_database_c.Btree.Key.{Key}
use quartz_database_c.Btree.Leaf
use quartz_database_c.Btree.Leaf.{LeafNode}
use quartz_database_c.Btree.Internal
use quartz_database_c.Btree.Internal.{InternalNode}
use quartz_database_c.Btree.Rebalance.{decrement}

-- The node, its sibling and their parent.
pub record Neighbours (N : Type 0) : Type 0 where
  pub parent : InternalNode
  pub sibling : N
  pub node : N

module _ {N : Type 0} where
  abbrev pub on_parent : (InternalNode → InternalNode × Status) → Action (Neighbours N) (Unit {0})
  on_parent f = perform (λ s. let (p, st) = f s.parent in (record s { parent = p }, st))

  abbrev pub on_sibling : (N → N × Status) → Action (Neighbours N) (Unit {0})
  on_sibling f = perform (λ s. let (n, st) = f s.sibling in (record s { sibling = n }, st))

  abbrev pub on_node : (N → N × Status) → Action (Neighbours N) (Unit {0})
  on_node f = perform (λ s. let (n, st) = f s.node in (record s { node = n }, st))

  unfoldable pub set_parent_key : ℕ → Key → Action (Neighbours N) (Unit {0})
  set_parent_key index key = on_parent (λ p. Internal.set_key p index key)

-- The functions without their last call, `recordRotation`.
unfoldable pub borrow_from_left_leaf : ℕ → Action (Neighbours LeafNode) (Unit {0})
borrow_from_left_leaf index = do
  separator ← reads (λ s. at s.parent.keys (index - 1))
  key ← reads (λ s. at s.sibling.keys (decrement s.sibling.node.page.key_count))
  ref ← reads (λ s. at s.sibling.refs (decrement s.sibling.node.page.key_count))
  on_sibling (λ l. Leaf.erase_entry l (decrement l.node.page.key_count))
  set_parent_key (index - 1) key
  on_node (λ l. Leaf.assign_entries l (separator ∷ l.keys) (ref ∷ l.refs))

unfoldable pub borrow_from_right_leaf : ℕ → Action (Neighbours LeafNode) (Unit {0})
borrow_from_right_leaf index = do
  separator ← reads (λ s. at s.parent.keys index)
  key ← reads (λ s. at s.sibling.keys 0)
  ref ← reads (λ s. at s.sibling.refs 0)
  on_sibling (λ l. Leaf.erase_entry l 0)
  set_parent_key index key
  on_node (λ l. Leaf.assign_entries l (l.keys ++ separator ∷ []) (l.refs ++ ref ∷ []))

-- `pop_back`.
abbrev pub drop_last : {A : Type 0} → List A → List A
drop_last xs = take (length xs - 1) xs

unfoldable pub borrow_from_left_internal : ℕ → Action (Neighbours InternalNode) (Unit {0})
borrow_from_left_internal index = do
  separator ← reads (λ s. at s.parent.keys (index - 1))
  key ← reads (λ s. at s.sibling.keys (decrement s.sibling.node.page.key_count))
  child ← reads (λ s. at s.sibling.children s.sibling.node.page.key_count)
  on_sibling (λ i. Internal.assign_entries i (drop_last i.keys) (drop_last i.children))
  set_parent_key (index - 1) key
  on_node (λ i. Internal.assign_entries i (separator ∷ i.keys) (child ∷ i.children))

unfoldable pub borrow_from_right_internal : ℕ → Action (Neighbours InternalNode) (Unit {0})
borrow_from_right_internal index = do
  separator ← reads (λ s. at s.parent.keys index)
  key ← reads (λ s. at s.sibling.keys 0)
  child ← reads (λ s. at s.sibling.children 0)
  on_sibling (λ i. Internal.assign_entries i (drop 1 i.keys) (drop 1 i.children))
  set_parent_key index key
  on_node (λ i. Internal.assign_entries i (i.keys ++ separator ∷ []) (i.children ++ child ∷ []))
