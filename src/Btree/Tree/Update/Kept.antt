-- ===== src/Btree/Tree/Update/Kept.antt =====
-- `insert`, `erase` and `collapseRootIfNeeded` of BTree.cpp keep the shape of all nodes.
use quartz_database_c.Outcome.Action.Invariant.{
  bind, seq, pure-Keeps, reads_only, gets-Keeps, modify-Keeps, fail_if-Keeps, branch-Keeps,
}
use quartz_database_c.Format.{PageReference}
use quartz_database_c.Btree.Key.{Key}
use quartz_database_c.Btree.Tree.{BTree, set_root, set_height, clear}
use quartz_database_c.Btree.Tree.Shape.{IsWhole, leaf-insert, leaf-erase}
use quartz_database_c.Btree.Tree.Invariant.{
  Safe, leaf-Safe, internal-Safe, on_leaf-Safe, wal-Safe, allocate_leaf-Safe, release_node-IsWhole,
}
use quartz_database_c.Btree.Tree.Update.{
  grow, shrink, insert_first, insert, erase, collapse_root_if_needed,
}
use quartz_database_c.Btree.Rebalance.Invariant.{
  split_and_insert_leaf-Safe, fix_leaf_underflow-Safe,
}

insert_first-Safe : (key : Key) (value : PageReference) → Safe (insert_first key value)
unfolding insert_first set_root set_height grow IsWhole
insert_first-Safe key value = bind (allocate_leaf-Safe 0) (λ id _.
    seq (on_leaf-Safe id _ (λ l w. leaf-insert l key value w)) (
      seq (modify-Keeps _ (λ t w. w))
        (seq (modify-Keeps _ (λ t w. w)) (seq (modify-Keeps _ (λ t w. w)) (wal-Safe _)))))

insert-Safe : (key : Key) (value : PageReference) → Safe (insert key value)
unfolding insert grow IsWhole
insert-Safe key value = seq (fail_if-Keeps _ _) (
    bind (gets-Keeps _) (λ none_yet _. branch-Keeps _ (insert_first-Safe key value) (
      bind (reads_only _) (λ place _. bind (leaf-Safe _) (λ l _.
        seq
          (branch-Keeps _ (on_leaf-Safe _ _ (λ n w. leaf-insert n key value w))
            (split_and_insert_leaf-Safe _ _ key value))
          (seq (modify-Keeps _ (λ t w. w)) (wal-Safe _)))))))

erase-Safe : (key : Key) → Safe (erase key)
unfolding erase shrink set_root set_height IsWhole
erase-Safe key = bind (gets-Keeps _) (λ none_yet _. seq (fail_if-Keeps _ _) (
    bind (reads_only _) (λ place _. seq (on_leaf-Safe _ _ (λ l w. leaf-erase l _ w)) (
      seq (modify-Keeps _ (λ t w. w)) (
        seq (wal-Safe _) (
          bind (leaf-Safe _) (λ l _.
            branch-Keeps _
              (branch-Keeps _
                (seq (modify-Keeps _ (release_node-IsWhole place.leaf_id))
                  (seq (modify-Keeps _ (λ t w. w)) (modify-Keeps _ (λ t w. w))))
                (pure-Keeps tt tt))
              (branch-Keeps _ (fix_leaf_underflow-Safe _ _) (pure-Keeps tt tt)))))))))

collapse_root_if_needed-Safe : Safe collapse_root_if_needed
unfolding collapse_root_if_needed set_root set_height IsWhole
collapse_root_if_needed-Safe = bind (gets-Keeps _) (λ skip _. bind (gets-Keeps _) (λ inner _.
    branch-Keeps _
      (bind (gets-Keeps _) (λ id _. bind (internal-Safe id) (λ root _.
        branch-Keeps _
          (bind (reads_only _) (λ child _.
            seq (modify-Keeps _ (release_node-IsWhole id))
              (seq (modify-Keeps _ (λ t w. w)) (modify-Keeps _ (λ t w. w)))))
          (pure-Keeps tt tt))))
      (pure-Keeps tt tt)))

-- Every leaf has as many references as keys and every internal node one child more, the page's count of
-- keys is theirs, and no node has more keys than its capacity: `insert`, `erase`, `collapseRootIfNeeded`
-- and `clear` keep that, and so do their splits, borrowings and merges, whether the call ends well, is
-- refused, fails in the log or the page, or throws half-way.
pub updates-IsWhole :
    (t : BTree) (key : Key) (value : PageReference)
    → IsWhole t
    → IsWhole (insert key value t).1
      × IsWhole (erase key t).1
      × IsWhole (collapse_root_if_needed t).1
      × IsWhole (clear t)
unfolding clear IsWhole
updates-IsWhole t key value w = (
  ((insert-Safe key value).holds t w).0,
  ((erase-Safe key).holds t w).0,
  (collapse_root_if_needed-Safe.holds t w).0,
  (tt, tt),
)
