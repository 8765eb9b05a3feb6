-- ===== src/Btree/Rebalance/Invariant.antt =====
-- The functions of Rebalance.cpp keep the shape of all nodes, however they end.
use quartz_database_c.Prelude.{ℕ, [], ◌∷◌}
use quartz_database_c.Outcome.Action.{Action}
use quartz_database_c.Outcome.Action.Invariant.{
  Keeps, Any, bind, seq, pure-Keeps, reads_only, gets-Keeps, modify-Keeps, perform-Keeps,
  branch-Keeps,
}
use quartz_database_c.Format.{PageReference}
use quartz_database_c.Btree.Key.{Key}
use quartz_database_c.Btree.Leaf.{LeafNode}
use quartz_database_c.Btree.Internal.{InternalNode}
use quartz_database_c.Btree.Path.{SearchPath}
use quartz_database_c.Btree.Tree.{
  BTree, set_root, set_height, record_split, record_merge, record_rotation,
}
use quartz_database_c.Btree.Tree.Shape.{
  IsWhole, IsWholeLeaf, IsWholeInternal, leaf-assign, leaf-erase, internal-assign, internal-erase,
  internal-insert, internal-set_key,
}
use quartz_database_c.Btree.Tree.Invariant.{
  Safe, leaf-Safe, internal-Safe, on_leaf-Safe, on_internal-Safe, wal-Safe, allocate_leaf-Safe,
  allocate_internal-Safe, set_leaf_kept, set_internal_kept, release_node-IsWhole,
}
use quartz_database_c.Btree.Rebalance.Borrow.{
  Neighbours, set_parent_key, borrow_from_left_leaf, borrow_from_right_leaf,
  borrow_from_left_internal, borrow_from_right_internal,
}
use quartz_database_c.Btree.Rebalance.Split.{
  split_and_insert_leaf, split_and_insert_internal, insert_into_parent, grow_root,
}
use quartz_database_c.Btree.Rebalance.Merge.{
  store_leaves, store_internals, borrow_leaf, borrow_internal, finish_merge, merge_leaves,
  merge_internals, leaf_lends, internal_lends, fix_leaf_underflow, fix_internal_underflow,
}

split_and_insert_internal-Safe :
    (above : Key → ℕ → ℕ → Action BTree (Unit {0})) (id index : ℕ) (key : Key)
    (child : PageReference)
    → ((k : Key) (a b : ℕ) → Safe (above k a b))
    → Safe (split_and_insert_internal above id index key child)
unfolding split_and_insert_internal record_split IsWhole
split_and_insert_internal-Safe above id index key child h = bind (internal-Safe id) (λ node _.
    bind (reads_only _) (λ promoted _.
      seq (on_internal-Safe id _ (λ i w. internal-assign i _ _ w)) (
        bind (internal-Safe id) (λ now _. bind (allocate_internal-Safe _) (λ sibling _.
          seq (on_internal-Safe sibling _ (λ i w. internal-assign i _ _ w))
            (seq (modify-Keeps _ (λ t w. w)) (seq (wal-Safe _) (h promoted id sibling))))))))

grow_root-Safe : (promoted : Key) (left right : ℕ) → Safe (grow_root promoted left right)
unfolding grow_root set_root set_height IsWhole
grow_root-Safe promoted left right = bind (gets-Keeps _) (λ height _.
    bind (allocate_internal-Safe height) (λ root _.
      seq (on_internal-Safe root _ (λ i w. internal-assign i _ _ w))
        (seq (modify-Keeps _ (λ t w. w)) (modify-Keeps _ (λ t w. w)))))

insert_into_parent-Safe :
    (path : SearchPath) (promoted : Key) (left right : ℕ)
    → Safe (insert_into_parent path promoted left right)
unfolding insert_into_parent
insert_into_parent-Safe [] promoted left right = grow_root-Safe promoted left right
insert_into_parent-Safe (frame ∷ path) promoted left right =
    bind (internal-Safe frame.page_id) (λ parent _.
      branch-Keeps _ (on_internal-Safe _ _ (λ i w. internal-insert i _ _ _ w))
        (split_and_insert_internal-Safe _ _ _ _ _ (insert_into_parent-Safe path)))

pub split_and_insert_leaf-Safe :
    (id : ℕ) (path : SearchPath) (key : Key) (value : PageReference)
    → Safe (split_and_insert_leaf id path key value)
unfolding split_and_insert_leaf record_split IsWhole
split_and_insert_leaf-Safe id path key value = bind (leaf-Safe id) (λ node _.
    bind (reads_only _) (λ promoted _. seq (on_leaf-Safe id _ (λ l w. leaf-assign l _ _ w)) (
      bind (leaf-Safe id) (λ now _. bind (allocate_leaf-Safe _) (λ sibling _.
        seq (on_leaf-Safe sibling _ (λ l w. leaf-assign l _ _ w)) (
          seq (modify-Keeps _ (λ t w. w))
            (seq (wal-Safe _) (insert_into_parent-Safe path promoted id sibling))))))))

-- The three nodes of a borrowing function.
abbrev AreWhole : {N : Type 0} → (N → Type 0) → Neighbours N → Type 0
AreWhole P s = IsWholeInternal s.parent × P s.sibling × P s.node

module _ {N : Type 0} (P : N → Type 0) where
  set_parent_key-Safe : (index : ℕ) (key : Key) → Keeps (AreWhole P) Any (set_parent_key index key)
  unfolding set_parent_key
  set_parent_key-Safe index key =
      perform-Keeps _ (λ s w. (internal-set_key s.parent index key w.0, w.1, w.2))

borrow_from_left_leaf-AreWhole :
    (index : ℕ) → Keeps (AreWhole IsWholeLeaf) Any (borrow_from_left_leaf index)
unfolding borrow_from_left_leaf
borrow_from_left_leaf-AreWhole index = bind (reads_only _) (λ separator _.
    bind (reads_only _) (λ key _. bind (reads_only _) (λ ref _.
      seq (perform-Keeps _ (λ s w. (w.0, leaf-erase s.sibling _ w.1, w.2))) (
        seq (set_parent_key-Safe IsWholeLeaf _ key)
          (perform-Keeps _ (λ s w. (w.0, w.1, leaf-assign s.node _ _ w.2)))))))

borrow_from_right_leaf-AreWhole :
    (index : ℕ) → Keeps (AreWhole IsWholeLeaf) Any (borrow_from_right_leaf index)
unfolding borrow_from_right_leaf
borrow_from_right_leaf-AreWhole index = bind (reads_only _) (λ separator _.
    bind (reads_only _) (λ key _. bind (reads_only _) (λ ref _.
      seq (perform-Keeps _ (λ s w. (w.0, leaf-erase s.sibling _ w.1, w.2))) (
        seq (set_parent_key-Safe IsWholeLeaf _ key)
          (perform-Keeps _ (λ s w. (w.0, w.1, leaf-assign s.node _ _ w.2)))))))

borrow_from_left_internal-AreWhole :
    (index : ℕ) → Keeps (AreWhole IsWholeInternal) Any (borrow_from_left_internal index)
unfolding borrow_from_left_internal
borrow_from_left_internal-AreWhole index = bind (reads_only _) (λ separator _.
    bind (reads_only _) (λ key _. bind (reads_only _) (λ ref _.
      seq (perform-Keeps _ (λ s w. (w.0, internal-assign s.sibling _ _ w.1, w.2))) (
        seq (set_parent_key-Safe IsWholeInternal _ key)
          (perform-Keeps _ (λ s w. (w.0, w.1, internal-assign s.node _ _ w.2)))))))

borrow_from_right_internal-AreWhole :
    (index : ℕ) → Keeps (AreWhole IsWholeInternal) Any (borrow_from_right_internal index)
unfolding borrow_from_right_internal
borrow_from_right_internal-AreWhole index = bind (reads_only _) (λ separator _.
    bind (reads_only _) (λ key _. bind (reads_only _) (λ ref _.
      seq (perform-Keeps _ (λ s w. (w.0, internal-assign s.sibling _ _ w.1, w.2))) (
        seq (set_parent_key-Safe IsWholeInternal _ key)
          (perform-Keeps _ (λ s w. (w.0, w.1, internal-assign s.node _ _ w.2)))))))

borrow_leaf-Safe :
    (borrow : Action (Neighbours LeafNode) (Unit {0})) (parent sibling id : ℕ)
    → Keeps (AreWhole IsWholeLeaf) Any borrow
    → Safe (borrow_leaf borrow parent sibling id)
unfolding borrow_leaf store_leaves record_rotation IsWhole
borrow_leaf-Safe borrow parent sibling id h = bind (internal-Safe parent) (λ p wp.
    bind (leaf-Safe sibling) (λ s ws. bind (leaf-Safe id) (λ n wn.
      let w = (h.holds (record { parent = p; sibling = s; node = n }) (wp, ws, wn)).0 in
      seq
        (modify-Keeps _ (λ t k.
          set_leaf_kept id _ _ w.2
            (set_leaf_kept sibling _ _ w.1 (set_internal_kept parent _ t w.0 k))))
        (seq (reads_only _) (modify-Keeps _ (λ t w. w))))))

borrow_internal-Safe :
    (borrow : Action (Neighbours InternalNode) (Unit {0})) (parent sibling id : ℕ)
    → Keeps (AreWhole IsWholeInternal) Any borrow
    → Safe (borrow_internal borrow parent sibling id)
unfolding borrow_internal store_internals record_rotation IsWhole
borrow_internal-Safe borrow parent sibling id h = bind (internal-Safe parent) (λ p wp.
    bind (internal-Safe sibling) (λ s ws. bind (internal-Safe id) (λ n wn.
      let w = (h.holds (record { parent = p; sibling = s; node = n }) (wp, ws, wn)).0 in
      seq
        (modify-Keeps _ (λ t k.
          set_internal_kept id _ _ w.2
            (set_internal_kept sibling _ _ w.1 (set_internal_kept parent _ t w.0 k))))
        (seq (reads_only _) (modify-Keeps _ (λ t w. w))))))

module _ (fix : ℕ → Action BTree (Unit {0})) (h : (id : ℕ) → Safe (fix id)) where
  finish_merge-Safe :
      (parent index survivor removed : ℕ) → Safe (finish_merge fix parent index survivor removed)
  unfolding finish_merge record_merge set_root set_height IsWhole
  finish_merge-Safe parent index survivor removed =
      seq (on_internal-Safe parent _ (λ i w. internal-erase i index w)) (
        seq (wal-Safe _) (
          seq (modify-Keeps _ (release_node-IsWhole removed)) (
            seq (modify-Keeps _ (λ t w. w)) (
              bind (internal-Safe parent) (λ p _. bind (gets-Keeps _) (λ is_root _.
                branch-Keeps _
                  (bind (reads_only _) (λ child _.
                    seq (modify-Keeps _ (release_node-IsWhole parent))
                      (seq (modify-Keeps _ (λ t w. w)) (modify-Keeps _ (λ t w. w)))))
                  (branch-Keeps _ (h parent) (pure-Keeps tt tt))))))))

  merge_leaves-Safe : (parent index : ℕ) → Safe (merge_leaves fix parent index)
  unfolding merge_leaves
  merge_leaves-Safe parent index = bind (internal-Safe parent) (λ p _.
      bind (reads_only _) (λ left _. bind (reads_only _) (λ right _. bind (leaf-Safe _) (λ l _.
        bind (leaf-Safe _) (λ r _. bind (reads_only _) (λ keys _. bind (reads_only _) (λ refs _.
          seq (on_leaf-Safe _ _ (λ n w. leaf-assign n _ _ w)) (finish_merge-Safe _ _ _ _))))))))

  merge_internals-Safe : (parent index : ℕ) → Safe (merge_internals fix parent index)
  unfolding merge_internals
  merge_internals-Safe parent index = bind (internal-Safe parent) (λ p _.
      bind (reads_only _) (λ left _. bind (reads_only _) (λ right _. bind (internal-Safe _) (λ l _.
        bind (internal-Safe _) (λ r _. bind (reads_only _) (λ separator _.
          seq (on_internal-Safe _ _ (λ n w. internal-assign n _ _ w))
            (finish_merge-Safe _ _ _ _)))))))

leaf_lends-Safe : (parent : InternalNode) (index : ℕ) → Safe (leaf_lends parent index)
unfolding leaf_lends
leaf_lends-Safe parent index =
    bind (reads_only _) (λ child _. bind (leaf-Safe _) (λ l _. pure-Keeps _ tt))

internal_lends-Safe : (parent : InternalNode) (index : ℕ) → Safe (internal_lends parent index)
unfolding internal_lends
internal_lends-Safe parent index =
    bind (reads_only _) (λ child _. bind (internal-Safe _) (λ l _. pure-Keeps _ tt))

fix_internal_underflow-Safe : (path : SearchPath) (id : ℕ) → Safe (fix_internal_underflow path id)
unfolding fix_internal_underflow
fix_internal_underflow-Safe [] id = pure-Keeps tt tt
fix_internal_underflow-Safe (frame ∷ path) id =
    let merge = merge_internals-Safe _ (fix_internal_underflow-Safe path) frame.page_id in
    bind (internal-Safe frame.page_id) (λ parent _.
      bind (branch-Keeps _ (internal_lends-Safe _ _) (pure-Keeps _ tt)) (λ left_lends _.
        branch-Keeps _
          (bind (reads_only _)
            (λ left _. borrow_internal-Safe _ _ _ _ (borrow_from_left_internal-AreWhole _)))
          (bind (branch-Keeps _ (internal_lends-Safe _ _) (pure-Keeps _ tt)) (λ right_lends _.
            branch-Keeps _
              (bind (reads_only _)
                (λ right _. borrow_internal-Safe _ _ _ _ (borrow_from_right_internal-AreWhole _)))
              (branch-Keeps _ (merge _) (merge _))))))

pub fix_leaf_underflow-Safe : (path : SearchPath) (id : ℕ) → Safe (fix_leaf_underflow path id)
unfolding fix_leaf_underflow
fix_leaf_underflow-Safe [] id = pure-Keeps tt tt
fix_leaf_underflow-Safe (frame ∷ path) id =
    let merge = merge_leaves-Safe _ (fix_internal_underflow-Safe path) frame.page_id in
    bind (internal-Safe frame.page_id) (λ parent _.
      bind (branch-Keeps _ (leaf_lends-Safe _ _) (pure-Keeps _ tt)) (λ left_lends _.
        branch-Keeps _
          (bind (reads_only _)
            (λ left _. borrow_leaf-Safe _ _ _ _ (borrow_from_left_leaf-AreWhole _)))
          (bind (branch-Keeps _ (leaf_lends-Safe _ _) (pure-Keeps _ tt)) (λ right_lends _.
            branch-Keeps _
              (bind (reads_only _)
                (λ right _. borrow_leaf-Safe _ _ _ _ (borrow_from_right_leaf-AreWhole _)))
              (branch-Keeps _ (merge _) (merge _))))))
