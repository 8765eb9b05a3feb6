-- ===== src/Btree/Cursor.antt =====
-- btree/Cursor.h and Cursor.cpp, and the functions of BTree.cpp that place a cursor. What a cursor points
-- to is its value at the time of the call.
pub mod Step
use quartz_database_c.Prelude.{
  ℕ, zero, suc, ◌+◌, ◌-◌, Bool, true, false, not, ◌&&◌, Option, none, some, List, [], ◌∷◌, length,
  get_elem?, ltb, leb, ◌==◌, if◌then◌else◌,
}
use quartz_database_c.Status.{invalid_argument}
use quartz_database_c.Outcome.{Outcome, returned, endless, at}
use quartz_database_c.Outcome
use quartz_database_c.Outcome.Action.{
  Action, ◌>>=◌, ◌>>◌, pure, reads, gets, modify, fail, fail_if, branch,
}
use quartz_database_c.Format
use quartz_database_c.Format.{PageReference, invalid_page_id}
use quartz_database_c.Btree.Key.{Key, from_u32, equal}
use quartz_database_c.Btree.Comparator
use quartz_database_c.Btree.Comparator.{test_at}
use quartz_database_c.Btree.Leaf.{LeafNode}
use quartz_database_c.Btree.Internal.{InternalNode}
use quartz_database_c.Btree.Tree.{BTree, is_leaf, is_internal, leaf, internal, is_empty}
use quartz_database_c.Btree.Tree.Search.{descend_to_leaf}

-- `mode_` with the pointer that goes with it.
pub data Target : Type 0 where
  unbound : Target
  on_leaf : Option LeafNode → Target
  on_internal : Option InternalNode → Target
  on_tree : Option BTree → Target

pub record Cursor : Type 0 where
  pub target : Target
  pub leaf_id : ℕ
  pub index : ℕ
  pub at_end : Bool

abbrev pub reset : Cursor
reset = record { target = unbound; leaf_id = invalid_page_id; index = 0; at_end = false }

pub bind_leaf : Option LeafNode → Cursor
bind_leaf node = record reset { target = on_leaf node }

pub bind_internal : Option InternalNode → Cursor
bind_internal node = record reset { target = on_internal node }

pub bind_tree : Option BTree → Bool → Cursor
bind_tree t at_end = record reset { target = on_tree t; at_end = at_end }

-- The tree a cursor is on, if it is on one.
abbrev pub tree_of : Cursor → Option BTree
tree_of c = elim c.target [
  | on_tree t ↦ t
  | unbound ↦ none
  | on_leaf n ↦ none
  | on_internal n ↦ none
]

-- The keys of the node a cursor is on, if it is on one.
abbrev pub node_keys : Cursor → Option (List Key)
node_keys c = elim c.target [
  | unbound ↦ none
  | on_tree t ↦ none
  | on_leaf n ↦ elim n [ none ↦ none | some l ↦ some l.keys ]
  | on_internal n ↦ elim n [ none ↦ none | some i ↦ some i.keys ]
]

-- The count of the keys of a leaf of the tree; no leaf, no keys.
abbrev pub leaf_count : BTree → ℕ → ℕ
leaf_count t id = elim (leaf t id) [
  | returned l ↦ l.node.page.key_count
  | Outcome.failed c ↦ 0
  | Outcome.thrown ↦ 0
  | endless ↦ 0
]

pub valid : Cursor → Bool
valid c = elim (tree_of c) [
  | some t ↦ not c.at_end && is_leaf t c.leaf_id && ltb c.index (leaf_count t c.leaf_id)
  | none ↦ elim (node_keys c) [ none ↦ false | some keys ↦ ltb c.index (length keys) ]
]

pub is_end : Cursor → Bool
is_end c = elim c.target [
  | on_tree t ↦ c.at_end
  | unbound ↦ not (valid c)
  | on_leaf n ↦ not (valid c)
  | on_internal n ↦ not (valid c)
]

-- The leaf and the index that a cursor on a tree is set to.
unfoldable pub place : ℕ → ℕ → Action Cursor (Unit {0})
place leaf_id index = modify (λ c. record c { leaf_id = leaf_id; index = index; at_end = false })

pub set_index : ℕ → Action Cursor (Unit {0})
set_index index = modify (λ c. record c { index = index })

pub finish : Action Cursor (Unit {0})
finish = modify (λ c. record c { at_end = true })

unfoldable pub seek : ℕ → Action Cursor (Unit {0})
seek index c = elim (node_keys c) [
  | some keys ↦ branch (leb (length keys) index) (fail invalid_argument) (set_index index) c
  | none ↦ elim (tree_of c) [
    | none ↦ fail invalid_argument c
    | some t ↦
        branch (is_leaf t c.leaf_id && ltb index (leaf_count t c.leaf_id)) (place c.leaf_id index)
          (fail invalid_argument) c
  ]
]

-- The loops that go down the first children, and the last ones, with fuel.
unfoldable pub leftmost : ℕ → BTree → ℕ → Outcome ℕ
leftmost zero t id = if is_internal t id then endless else returned id
leftmost (suc fuel) t id = elim (is_internal t id) [
  | false ↦ returned id
  | true ↦
      Outcome.◌>>=◌ (internal t id)
        (λ node. Outcome.◌>>=◌ (at node.children 0) (λ child. leftmost fuel t child.page_id))
]

pub rightmost : ℕ → BTree → ℕ → Outcome ℕ
rightmost zero t id = if is_internal t id then endless else returned id
rightmost (suc fuel) t id = elim (is_internal t id) [
  | false ↦ returned id
  | true ↦ Outcome.◌>>=◌ (internal t id) (λ node.
      Outcome.◌>>=◌ (at node.children node.node.page.key_count)
        (λ child. rightmost fuel t child.page_id))
]

pub seek_begin : Action Cursor (Unit {0})
seek_begin c = elim (tree_of c) [
  | none ↦ fail invalid_argument c
  | some t ↦
      branch (is_empty t) finish
        (do id ← reads (λ c. leftmost (length t.internals) t t.root_id); place id 0) c
]

pub seek_end : Action Cursor (Unit {0})
seek_end c = elim (tree_of c) [ none ↦ fail invalid_argument c | some t ↦ finish c ]
