-- ===== src/Btree/Rebalance/Borrow/Order.antt =====
-- What the borrowing functions of Rebalance.cpp do to the entries of the two nodes and the separator.
use quartz_database_c.Prelude.{
  ℕ, suc, ◌-◌, ◌≡◌, [], ◌∷◌, ◌++◌, length, erase_at, get_elem?, some, arith, refl, ◌∙◌, sym, ap,
}
use quartz_database_c.Outcome.{returned}
use quartz_database_c.Outcome.Action.Success.{
  Ensures, ensured, ensures-bind, ensures-seq, ensures-reads, ensures-perform,
}
use quartz_database_c.Format.{PageReference}
use quartz_database_c.Btree.Key.{Key}
use quartz_database_c.Btree.Leaf.{LeafNode}
use quartz_database_c.Btree.Tree.Shape.{IsWholeLeaf}
use quartz_database_c.Btree.Rebalance.Borrow.{
  Neighbours, set_parent_key, borrow_from_left_leaf, borrow_from_right_leaf,
}
use quartz_database_c.Btree.Rebalance.Calls.{
  leaf_assigned, leaf_erased, key_set, or_throw-some, get_elem-set, erase_last, last_at, append_one,
  erase_first, inside_some,
}

-- The separator before and after, and the entry that moves, when an entry is borrowed from the left leaf
-- and from the right one: the separator goes into the leaf with the reference of the sibling's key, and
-- the sibling's key, without a reference, becomes the separator.
abbrev pub Moves :
    ℕ → ℕ → Neighbours LeafNode → Neighbours LeafNode → Key → Key → PageReference → Type 0
Moves i place s s' separator key ref =
    (get_elem? s.parent.keys i ≡ some separator)
    × (get_elem? s.sibling.keys place ≡ some key)
    × (get_elem? s.sibling.refs place ≡ some ref)
    × (get_elem? s'.parent.keys i ≡ some key)
    × (s'.sibling.keys ≡ erase_at s.sibling.keys place)
    × (s'.sibling.refs ≡ erase_at s.sibling.refs place)

from_left :
    (index : ℕ) (s : Neighbours LeafNode)
    → Ensures s (borrow_from_left_leaf index) (λ _ s'.
      (separator key : Key) × (ref : PageReference) × Moves
        (index - 1)
        (last_at s.sibling)
        s
        s'
        separator
        key
        ref
      × (s'.node.keys ≡ separator ∷ s.node.keys)
      × (s'.node.refs ≡ ref ∷ s.node.refs))
unfolding borrow_from_left_leaf set_parent_key
from_left index s = ensures-bind (
    ensures-reads _ (λ separator e1. ensures-bind (
      ensures-reads _ (λ key e2. ensures-bind (
        ensures-reads _ (λ ref e3. ensures-seq (
          ensures-perform _ (λ e4. ensures-seq (
            ensures-perform _ (λ e5. ensures-perform _ (λ e6.
              let erased = leaf_erased s.sibling _ e4 in
              let changed = key_set s.parent _ key e5 in
              let got = leaf_assigned s.node _ _ e6 in
              (
                separator,
                key,
                ref,
                (
                  or_throw-some _ _ e1,
                  or_throw-some _ _ e2,
                  or_throw-some _ _ e3,
                  rw changed.1 (get_elem-set s.parent.keys _ key changed.0),
                  erased.0,
                  erased.1,
                ),
                got.0,
                got.1,
              ))))))))))))

from_right :
    (index : ℕ) (s : Neighbours LeafNode)
    → Ensures s (borrow_from_right_leaf index) (λ _ s'.
      (separator key : Key) × (ref : PageReference) × Moves index 0 s s' separator key ref
      × (s'.node.keys ≡ s.node.keys ++ separator ∷ [])
      × (s'.node.refs ≡ s.node.refs ++ ref ∷ []))
unfolding borrow_from_right_leaf set_parent_key
from_right index s = ensures-bind (
    ensures-reads _ (λ separator e1. ensures-bind (
      ensures-reads _ (λ key e2. ensures-bind (
        ensures-reads _ (λ ref e3. ensures-seq (
          ensures-perform _ (λ e4. ensures-seq (
            ensures-perform _ (λ e5. ensures-perform _ (λ e6.
              let erased = leaf_erased s.sibling _ e4 in
              let changed = key_set s.parent _ key e5 in
              let got = leaf_assigned s.node _ _ e6 in
              (
                separator,
                key,
                ref,
                (
                  or_throw-some _ _ e1,
                  or_throw-some _ _ e2,
                  or_throw-some _ _ e3,
                  rw changed.1 (get_elem-set s.parent.keys _ key changed.0),
                  erased.0,
                  erased.1,
                ),
                got.0,
                got.1,
              ))))))))))))

-- The keys of two leaves with the separator between them, and the references, in order.
abbrev pub KeepsOrder : LeafNode → Key → LeafNode → LeafNode → Key → LeafNode → Type 0
KeepsOrder l k r l' k' r' =
    ((l'.keys ++ k' ∷ r'.keys) ≡ (l.keys ++ k ∷ r.keys))
    × ((l'.refs ++ r'.refs) ≡ (l.refs ++ r.refs))

-- When a leaf borrows from its left sibling, whose page counts its keys, and the call returns, the keys of
-- the two leaves with the separator of the parent between them are the same in the same order, and so are
-- the references; the sibling's last key is the separator now and has left its reference to the old
-- separator, which is the first key of the leaf.
pub borrow_from_left_leaf-KeepsOrder :
    (index : ℕ) (s s' : Neighbours LeafNode)
    → IsWholeLeaf s.sibling
    → borrow_from_left_leaf index s ≡ (returned tt, s')
    → (separator key : Key) × (ref : PageReference) × Moves
        (index - 1)
        (length s.sibling.keys - 1)
        s
        s'
        separator
        key
        ref
      × KeepsOrder s.sibling separator s.node s'.sibling key s'.node
      × (get_elem? s'.node.keys 0 ≡ some separator)
      × (get_elem? s'.node.refs 0 ≡ some ref)
borrow_from_left_leaf-KeepsOrder index s s' w h =
    let (separator, key, ref, moves, ks, rs) = ensured (from_left index s) h in
    let inside = inside_some s.sibling.keys _ key moves.1 in
    let last : last_at s.sibling ≡ length s.sibling.keys - 1 = ground arith in
    let end : suc (last_at s.sibling) ≡ length s.sibling.keys = ground arith in
    let end_refs : suc (last_at s.sibling) ≡ length s.sibling.refs = ground arith in
    (
      separator,
      key,
      ref,
      rw (sym last) moves,
      (
        rw (moves.4, ks) (erase_last s.sibling.keys (separator ∷ s.node.keys) _ key end moves.1),
        rw (moves.5, rs) (erase_last s.sibling.refs s.node.refs _ ref end_refs moves.2),
      ),
      rw ks refl,
      rw rs refl,
    )

-- The same for a leaf that borrows from its right sibling: the order is kept, the sibling's first key is
-- the separator now and has left its reference to the old separator, the last key of the leaf.
pub borrow_from_right_leaf-KeepsOrder :
    (index : ℕ) (s s' : Neighbours LeafNode)
    → borrow_from_right_leaf index s ≡ (returned tt, s')
    → (separator key : Key) × (ref : PageReference) × Moves index 0 s s' separator key ref
      × KeepsOrder s.node separator s.sibling s'.node key s'.sibling
      × (s'.node.keys ≡ s.node.keys ++ separator ∷ [])
      × (s'.node.refs ≡ s.node.refs ++ ref ∷ [])
borrow_from_right_leaf-KeepsOrder index s s' h =
    let (separator, key, ref, moves, ks, rs) = ensured (from_right index s) h in
    (
      separator,
      key,
      ref,
      moves,
      (
        rw (moves.4, ks)
            (append_one s.node.keys separator (key ∷ erase_at s.sibling.keys 0)
              ∙ ap (λ t. s.node.keys ++ separator ∷ t) (erase_first s.sibling.keys key moves.1)),
        rw (moves.5, rs)
            (append_one s.node.refs ref (erase_at s.sibling.refs 0)
              ∙ ap (λ t. s.node.refs ++ t) (erase_first s.sibling.refs ref moves.2)),
      ),
      ks,
      rs,
    )
