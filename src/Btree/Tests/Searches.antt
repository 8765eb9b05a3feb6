-- ===== src/Btree/Tests/Searches.antt =====
-- Searches in the tree of two leaves, and its validation.
use quartz_database_c.Prelude.{
  ℕ, inl, inr, Option, ap, sym, ltb, zero, suc, ◌≡◌, ◌↔◌, ◌⊎◌, List, [], ◌∷◌, refl, true, false,
  some, arith, get_elem?,
}
use quartz_database_c.Status.{invalid_argument}
use quartz_database_c.Outcome.{returned, failed}
use quartz_database_c.Outcome.Action
use quartz_database_c.Format.{PageReference, make, is_valid}
use quartz_database_c.Serialization.Reader.{open_reader}
use quartz_database_c.Btree.Key.{Key, from_u32, compare}
use quartz_database_c.Btree.Node
use quartz_database_c.Btree.Node.{leaf, internal}
use quartz_database_c.Btree.Leaf
use quartz_database_c.Btree.Leaf.{LeafNode, read_entries}
use quartz_database_c.Btree.Internal
use quartz_database_c.Btree.Internal.{read_body}
use quartz_database_c.Btree.Tree.{lookup, is_empty}
use quartz_database_c.Btree.Tree.Search.{find}
use quartz_database_c.Btree.Tree.Search.Entry.{Entry, in_leaf, in_child, IsSearchTree, Separates}
use quartz_database_c.Btree.Tree.Search.Depth.{find-Entry, find_ends}
use quartz_database_c.Btree.Validator
use quartz_database_c.Btree.Validator.{validate_serialized_body, validate_subtree}
use quartz_database_c.Btree.Validator.Bounds.{
  InBounds, validate_serialized_body_reads, validate_subtree-InBounds,
}
use quartz_database_c.Btree.Tests.Trees.{config, tree, root, left_leaf, right_leaf}

one_of_two :
    (keys : List Key) (a b key : Key) (i : ℕ)
    → keys ≡ a ∷ b ∷ []
    → get_elem? keys i ≡ some key
    → (key ≡ a) ⊎ (key ≡ b)
one_of_two keys a b key i h k = in_pair i (rw h at k)
  where
    in_pair : (j : ℕ) → get_elem? (a ∷ b ∷ []) j ≡ some key → (key ≡ a) ⊎ (key ≡ b)
    in_pair zero e = inl cc
    in_pair (suc zero) e = inr cc
    in_pair (suc (suc j)) e = cc

keys_eq : {o : Option LeafNode} {l m : LeafNode} → o ≡ some l → o ≡ some m → m.keys ≡ l.keys
keys_eq h k = let e : _ ≡ _ = some_eq h k in sym (ap (λ n. n.keys) e)
  where
    some_eq : {l m : LeafNode} {o : Option LeafNode} → o ≡ some l → o ≡ some m → l ≡ m
    some_eq h k = cc

before_10 : (v : ℕ) → ltb 10 v ≡ false → Separates (from_u32 10 ∷ []) 0 (from_u32 v)
unfolding compare
before_10 v h zero = ground arith
before_10 v h (suc j) = ground arith

after_10 : (v : ℕ) → ltb 10 v ≡ true → Separates (from_u32 10 ∷ []) 1 (from_u32 v)
unfolding compare
after_10 v h zero = ground arith
after_10 v h (suc j) = ground arith

left_separated :
    (key : Key) (ref : PageReference) → Entry tree key ref 12 → Separates (from_u32 10 ∷ []) 0 key
unfolding lookup
left_separated key ref (in_leaf _ i l e k r) =
    elim (one_of_two l.keys (from_u32 3) (from_u32 7) key i (keys_eq refl e) k) [
      | inl is_3 ↦ rw is_3 (before_10 3 refl)
      | inr is_7 ↦ rw is_7 (before_10 7 refl)
    ]
left_separated key ref (in_child _ i node child n e c entry) = cc

right_separated :
    (key : Key) (ref : PageReference) → Entry tree key ref 13 → Separates (from_u32 10 ∷ []) 1 key
unfolding lookup
right_separated key ref (in_leaf _ i l e k r) =
    elim (one_of_two l.keys (from_u32 20) (from_u32 30) key i (keys_eq refl e) k) [
      | inl is_20 ↦ rw is_20 (after_10 20 refl)
      | inr is_30 ↦ rw is_30 (after_10 30 refl)
    ]
right_separated key ref (in_child _ i node child n e c entry) = cc

left_searched : IsSearchTree tree 0 12
unfolding IsSearchTree lookup compare
left_searched = (left_leaf, refl, (((refl, tt), (tt, tt)), refl, refl))

right_searched : IsSearchTree tree 0 13
unfolding IsSearchTree lookup compare
right_searched = (right_leaf, refl, (((refl, tt), (tt, tt)), refl, refl))

abbrev IsBelow : ℕ → PageReference → Type 0
IsBelow i child =
    (is_valid child ≡ true)
    × IsSearchTree tree 0 child.page_id
    × ((key : Key) (ref : PageReference)
        → Entry tree key ref child.page_id
        → Separates (from_u32 10 ∷ []) i key)

children_searched :
    (i : ℕ) (child : PageReference) → get_elem? root.children i ≡ some child → IsBelow i child
unfolding is_valid make
children_searched zero child h =
    let e : make 12 0 0 ≡ child = cc in rw (sym e) (refl, left_searched, left_separated)
children_searched (suc zero) child h =
    let e : make 13 0 0 ≡ child = cc in rw (sym e) (refl, right_searched, right_separated)
children_searched (suc (suc i)) child h = cc

tree_searched : IsSearchTree tree 1 11
unfolding IsSearchTree lookup
tree_searched = (root, refl, refl, (tt, tt), refl, children_searched)

tree_filled : is_empty tree ≡ false
unfolding is_empty
tree_filled = refl

find-Entry_example :
    (find tree (from_u32 7) ≡ returned (make 107 0 0)) ↔ Entry tree (from_u32 7) (make 107 0 0) 11
find-Entry_example = find-Entry tree 1 (from_u32 7) (make 107 0 0) tree_filled tree_searched

find_ends_example :
    ((ref : PageReference) × (find tree (from_u32 8) ≡ returned ref)
      × Entry tree (from_u32 8) ref 11)
    ⊎ (find tree (from_u32 8) ≡ failed invalid_argument)
find_ends_example = find_ends tree 1 (from_u32 8) tree_searched

validate_serialized_body_reads_example :
    (validate_serialized_body (open_reader (1 ∷ 5 ∷ [])) config leaf 1
      ≡ (read_entries 1 0 (open_reader (1 ∷ 5 ∷ []))).2)
    × (validate_serialized_body (open_reader (1 ∷ 5 ∷ [])) config internal 1
        ≡ (read_body 1 0 (open_reader (1 ∷ 5 ∷ []))).2)
validate_serialized_body_reads_example =
    validate_serialized_body_reads (open_reader (1 ∷ 5 ∷ [])) config 1

tree_validated :
    validate_subtree 1 tree 1 11 (some (from_u32 3)) (some (from_u32 40)) 0 ≡ (returned tt, 2)
unfolding validate_subtree Validator.validate_page lookup Validator.validate_internal_node
    Action.◌>>◌ Action.resume Action.reads Action.branch Internal.validate Leaf.validate
    Node.validate Validator.check_internal_keys Validator.check_leaf_keys
    Validator.validate_children Validator.validate_leaf Validator.check_depth
    Validator.validate_leaf_range Leaf.validate_order is_valid make compare
tree_validated = refl

tree-Entry : Entry tree (from_u32 30) (make 130 0 0) 11
unfolding lookup make
tree-Entry =
    in_child 11 1 root (make 13 0 0) refl refl refl (in_leaf 13 1 right_leaf refl refl refl)

validate_subtree-InBounds_example : InBounds (some (from_u32 3)) (some (from_u32 40)) (from_u32 30)
validate_subtree-InBounds_example =
    validate_subtree-InBounds 1 tree 1 11 0 2 (some (from_u32 3)) (some (from_u32 40)) (from_u32 30)
      (make 130 0 0) tree_validated tree-Entry
