-- ===== src/Btree/Cursor/Step.antt =====
-- The steps of Cursor.cpp from one entry to its neighbour, within a leaf and from leaf to leaf, and what a
-- cursor reads.
pub mod Leaves
use quartz_database_c.Prelude.{
  ℕ, zero, suc, ◌+◌, ◌-◌, Bool, true, false, not, ◌&&◌, Option, none, some, List, [], ◌∷◌, length,
  get_elem?, ltb, leb, ◌==◌, if◌then◌else◌,
}
use quartz_database_c.Status.{invalid_argument}
use quartz_database_c.Outcome
use quartz_database_c.Outcome.{Outcome, returned, failed, thrown, at}
use quartz_database_c.Outcome.Action.{
  Action, ◌>>=◌, ◌>>◌, pure, reads, gets, modify, fail, fail_if, branch,
}
use quartz_database_c.Format
use quartz_database_c.Format.{PageReference}
use quartz_database_c.Btree.Key.{Key, from_u32, equal}
use quartz_database_c.Btree.Comparator
use quartz_database_c.Btree.Comparator.{test_at}
use quartz_database_c.Btree.Path.{SearchPathEntry, SearchPath}
use quartz_database_c.Btree.Tree.{
  BTree, is_leaf, is_internal, leaf, internal, is_empty, make_index_ref,
}
use quartz_database_c.Btree.Tree.Search.{descend_to_leaf}
use quartz_database_c.Btree.Cursor.{
  Cursor, unbound, on_tree, on_leaf, on_internal, tree_of, node_keys, valid, place, set_index,
  finish, leftmost, rightmost, bind_tree, seek_begin,
}

-- The loop over the children, of which `count` are looked at; 0 when no child is the leaf.
pub child_position : ℕ → List PageReference → ℕ → ℕ → Outcome ℕ
child_position zero children id i = returned 0
child_position (suc count) [] id i = thrown
child_position (suc count) (c ∷ cs) id i =
    let rest = child_position count cs id (i + 1) in if c.page_id == id then returned i else rest

-- The loop that fills the path. It sets `current` to the leaf it looks for, so it makes one pass at most.
pub path_to_leaf : BTree → ℕ → Outcome SearchPath
path_to_leaf t leaf_id =
    if t.root_id == leaf_id
    then returned []
    else if not (is_internal t t.root_id)
    then failed invalid_argument
    else Outcome.◌>>=◌ (internal t t.root_id) (λ node.
      Outcome.◌>>=◌ (child_position (node.node.page.key_count + 1) node.children leaf_id 0) (λ i.
        returned (
          record { page_id = t.root_id; child_index = i; page_ref = make_index_ref t.root_id }
          ∷ [])))

-- The loop that goes up the path to a node with a child on the right, and down from there.
pub next_leaf : BTree → SearchPath → Outcome ℕ
next_leaf t [] = failed invalid_argument
next_leaf t (frame ∷ path) = Outcome.◌>>=◌ (internal t frame.page_id) (λ parent.
    let above = next_leaf t path in
    if leb (frame.child_index + 1) parent.node.page.key_count
    then Outcome.◌>>=◌ (at parent.children (frame.child_index + 1))
        (λ child. leftmost (length t.internals) t child.page_id)
    else above)

pub advance_to_next_leaf : Action Cursor (Unit {0})
advance_to_next_leaf c = elim (tree_of c) [
  | none ↦ (finish >> fail invalid_argument) c
  | some t ↦
      branch (is_empty t) (finish >> fail invalid_argument)
        (elim (Outcome.◌>>=◌ (path_to_leaf t c.leaf_id) (next_leaf t)) [
          | returned id ↦ place id 0
          | failed e ↦ finish >> fail e
          | thrown ↦ reads (λ c. thrown)
          | Outcome.endless ↦ reads (λ c. Outcome.endless)
        ])
        c
]

-- The leaf on the left, at its last entry.
pub place_last : BTree → ℕ → Action Cursor (Unit {0})
place_last t id = do
  modify (λ c. record c { leaf_id = id })
  l ← reads (λ c. leaf t id)
  place id (l.node.page.key_count - 1)

pub previous_leaf : BTree → SearchPath → Outcome ℕ
previous_leaf t [] = failed invalid_argument
previous_leaf t (frame ∷ path) =
    let above = previous_leaf t path in
    if ltb 0 frame.child_index
    then Outcome.◌>>=◌ (internal t frame.page_id) (λ parent.
      Outcome.◌>>=◌ (at parent.children (frame.child_index - 1))
        (λ child. rightmost (length t.internals) t child.page_id))
    else above

pub retreat_to_previous_leaf : Action Cursor (Unit {0})
retreat_to_previous_leaf c = elim (tree_of c) [
  | none ↦ fail invalid_argument c
  | some t ↦
      branch (is_empty t) (fail invalid_argument)
        (do
          id ← reads (λ c. Outcome.◌>>=◌ (path_to_leaf t c.leaf_id) (previous_leaf t))
          place_last t id)
        c
]

unfoldable pub next : Action Cursor (Unit {0})
next c = elim (tree_of c) [
  | some t ↦
      branch c.at_end (fail invalid_argument)
        (do
          l ← reads (λ c. leaf t c.leaf_id)
          branch (ltb (c.index + 1) l.node.page.key_count) (set_index (c.index + 1))
              advance_to_next_leaf)
        c
  | none ↦
      (do
        inside ← gets valid
        fail_if (not inside) invalid_argument
        set_index (c.index + 1)
        still ← gets valid
        fail_if (not still) invalid_argument)
        c
]

unfoldable pub previous : Action Cursor (Unit {0})
previous c = elim (tree_of c) [
  | some t ↦
      branch c.at_end
        (do
          fail_if (is_empty t) invalid_argument
          id ← reads (λ c. rightmost (length t.internals) t t.root_id)
          place_last t id)
        (branch (ltb 0 c.index) (set_index (c.index - 1)) retreat_to_previous_leaf) c
  | none ↦ branch (ltb 0 c.index) (set_index (c.index - 1)) (fail invalid_argument) c
]

-- `BTree::lowerBound` and `upperBound` of the key, the index in the leaf by `search`.
unfoldable pub bound : (List Key → Key → ℕ) → BTree → Key → Action Cursor (Unit {0})
bound search t key = do
  modify (λ c. bind_tree (some t) (is_empty t))
  branch (is_empty t) (pure tt) (do
    found ← reads (λ c. descend_to_leaf t key false)
    l ← reads (λ c. leaf t found.leaf_id)
    let index = search l.keys key
    modify (λ c. record c { leaf_id = found.leaf_id; index = index })
    branch (leb l.node.page.key_count index) advance_to_next_leaf (pure tt))

unfoldable pub lower_bound : BTree → Key → Action Cursor (Unit {0})
lower_bound = bound Comparator.lower_bound

unfoldable pub upper_bound : BTree → Key → Action Cursor (Unit {0})
upper_bound = bound Comparator.upper_bound

pub seek_key : Key → Action Cursor (Unit {0})
seek_key key c = elim (node_keys c) [
  | some keys ↦
      let index = Comparator.lower_bound keys key in
      (do set_index index; fail_if (not (test_at (λ k. equal k key) keys index)) invalid_argument) c
  | none ↦ elim (tree_of c) [ none ↦ fail invalid_argument c | some t ↦ lower_bound t key c ]
]

-- `BTree::begin` and `end`.
pub begin : BTree → Cursor
begin t = (seek_begin (bind_tree (some t) false)).1

pub end : BTree → Cursor
end t = bind_tree (some t) true

-- The key of a cursor that is nowhere is the default one. An index out of range on a tree has no meaning
-- in C++ for `currentKey`, and throws for `currentReference`.
pub current_key : Cursor → Outcome Key
current_key c = elim (tree_of c) [
  | some t ↦
      let here = Outcome.◌>>=◌ (leaf t c.leaf_id) (λ l. at l.keys c.index) in
      if not c.at_end && is_leaf t c.leaf_id then here else returned (from_u32 0)
  | none ↦ elim (node_keys c) [
    | none ↦ returned (from_u32 0)
    | some keys ↦ if ltb c.index (length keys) then at keys c.index else returned (from_u32 0)
  ]
]

pub current_reference : Cursor → Outcome PageReference
current_reference c = elim c.target [
  | unbound ↦ returned Format.invalid
  | on_tree target ↦ elim target [
    | none ↦ returned Format.invalid
    | some t ↦
        let here = Outcome.◌>>=◌ (leaf t c.leaf_id) (λ l. at l.refs c.index) in
        if not c.at_end && is_leaf t c.leaf_id then here else returned Format.invalid
  ]
  | on_leaf target ↦ elim target [
    | none ↦ returned Format.invalid
    | some l ↦ if ltb c.index (length l.refs) then at l.refs c.index else returned Format.invalid
  ]
  | on_internal target ↦ elim target [
    | none ↦ returned Format.invalid
    | some i ↦ at i.children (c.index + 1)
  ]
]
