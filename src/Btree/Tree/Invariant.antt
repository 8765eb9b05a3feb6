-- ===== src/Btree/Tree/Invariant.antt =====
-- The calls of BTree.cpp on single nodes keep the shape of all nodes.
use quartz_database_c.Prelude.{ℕ, Bool-cases, inl, inr, Option-cases}
use quartz_database_c.Status.{Status}
use quartz_database_c.Outcome.Action.{Action, pure, reads}
use quartz_database_c.Outcome.Action.Invariant.{
  Keeps, Any, bind, seq, pure-Keeps, reads-Keeps, reads_only, gets-Keeps, modify-Keeps,
  perform-Keeps, fail_if-Keeps,
}
use quartz_database_c.Btree.Leaf.{LeafNode}
use quartz_database_c.Btree.Internal.{InternalNode}
use quartz_database_c.Btree.Tree.{
  BTree, leaf, internal, is_leaf, is_internal, set_leaf, set_internal, on_leaf, on_internal, wal,
  WalEvent, on_page_deallocate, allocate_page, allocate_leaf, allocate_internal, forget_node,
  free_page, release_node, record_allocation,
}
use quartz_database_c.Btree.Tree.Shape.{
  IsWhole, IsWholeLeaf, IsWholeInternal, AllNodes-lookup, AllNodes-replace, AllNodes-remove,
  leaf-create, internal-create,
}

abbrev pub Safe : {A : Type 0} → Action BTree A → Type 0
Safe m = Keeps IsWhole Any m

pub leaf-Safe : (id : ℕ) → Keeps IsWhole IsWholeLeaf (reads (λ t. leaf t id))
unfolding leaf IsWhole
leaf-Safe id = reads-Keeps _ (λ t w. AllNodes-lookup IsWholeLeaf id t.leaves w.0)

pub internal-Safe : (id : ℕ) → Keeps IsWhole IsWholeInternal (reads (λ t. internal t id))
unfolding internal IsWhole
internal-Safe id = reads-Keeps _ (λ t w. AllNodes-lookup IsWholeInternal id t.internals w.1)

pub set_leaf_kept :
    (id : ℕ) (l : LeafNode) (t : BTree) → IsWholeLeaf l → IsWhole t → IsWhole (set_leaf id l t)
unfolding set_leaf IsWhole
set_leaf_kept id l t h w = (AllNodes-replace IsWholeLeaf id l t.leaves h w.0, w.1)

pub set_internal_kept :
    (id : ℕ) (i : InternalNode) (t : BTree)
    → IsWholeInternal i
    → IsWhole t
    → IsWhole (set_internal id i t)
unfolding set_internal IsWhole
set_internal_kept id i t h w = (w.0, AllNodes-replace IsWholeInternal id i t.internals h w.1)

pub on_leaf-Safe :
    (id : ℕ) (f : LeafNode → LeafNode × Status)
    → ((l : LeafNode) → IsWholeLeaf l → IsWholeLeaf (f l).0)
    → Safe (on_leaf id f)
unfolding on_leaf
on_leaf-Safe id f h =
    bind (leaf-Safe id)
      (λ l w. seq (modify-Keeps _ (λ t p. set_leaf_kept id (f l).0 t (h l w) p)) (reads_only _))

pub on_internal-Safe :
    (id : ℕ) (f : InternalNode → InternalNode × Status)
    → ((i : InternalNode) → IsWholeInternal i → IsWholeInternal (f i).0)
    → Safe (on_internal id f)
unfolding on_internal
on_internal-Safe id f h =
    bind (internal-Safe id)
      (λ i w. seq (modify-Keeps _ (λ t p. set_internal_kept id (f i).0 t (h i w) p)) (reads_only _))

pub wal-Safe : (event : WalEvent) → Safe (wal event)
unfolding wal IsWhole
wal-Safe event =
    perform-Keeps _
      (λ t w. elim (Option-cases t.wal_sink) [ inl e ↦ rw e w | inr (sink, e) ↦ rw e w ])

allocate_page-Safe : Safe allocate_page
unfolding allocate_page IsWhole pure
allocate_page-Safe = record { holds = λ t w. (w, tt) }

pub allocate_leaf-Safe : (level : ℕ) → Safe (allocate_leaf level)
unfolding allocate_leaf record_allocation IsWhole
allocate_leaf-Safe level = bind allocate_page-Safe (λ id _. seq (fail_if-Keeps _ _) (
    seq (modify-Keeps _ (λ t w. w)) (
      bind (gets-Keeps _) (λ taken _. seq (fail_if-Keeps _ _) (
        seq (modify-Keeps _ (λ t w. ((leaf-create _ _, w.0), w.1)))
          (seq (wal-Safe _) (pure-Keeps id tt)))))))

pub allocate_internal-Safe : (level : ℕ) → Safe (allocate_internal level)
unfolding allocate_internal record_allocation IsWhole
allocate_internal-Safe level = bind allocate_page-Safe (λ id _. seq (fail_if-Keeps _ _) (
    seq (modify-Keeps _ (λ t w. w)) (
      bind (gets-Keeps _) (λ taken _. seq (fail_if-Keeps _ _) (
        seq (modify-Keeps _ (λ t w. (w.0, (internal-create _ _, w.1))))
          (seq (wal-Safe _) (pure-Keeps id tt)))))))

forget_node-IsWhole : (id : ℕ) (t : BTree) → IsWhole t → IsWhole (forget_node id t)
unfolding forget_node IsWhole
forget_node-IsWhole id t w = elim (Bool-cases (is_leaf t id)) [
  | inl a ↦ rw a (AllNodes-remove IsWholeLeaf id t.leaves w.0, w.1)
  | inr a ↦ elim (Bool-cases (is_internal t id)) [
    | inl b ↦ rw (a, b) (w.0, AllNodes-remove IsWholeInternal id t.internals w.1)
    | inr b ↦ rw (a, b) w
  ]
]

pub release_node-IsWhole : (id : ℕ) (t : BTree) → IsWhole t → IsWhole (release_node id t)
unfolding release_node free_page IsWhole
release_node-IsWhole id t w =
    forget_node-IsWhole id _ ((wal-Safe (on_page_deallocate id)).holds t w).0
