-- ===== src/Btree/Rebalance/Leaves.antt =====
-- The calls of Rebalance.cpp that change no leaf, and the store of leaves after one is replaced.
use quartz_database_c.Prelude.{
  ℕ, ◌≡◌, true, false, some, List, [], ◌∷◌, ◌==◌, arith, refl, Bool-cases, inl, inr, Option-cases,
}
use quartz_database_c.Outcome.Action.{Action, pure}
use quartz_database_c.Outcome.Action.Invariant.{
  Keeps, Any, bind, seq, pure-Keeps, reads_only, gets-Keeps, modify-Keeps, perform-Keeps,
  fail_if-Keeps, branch-Keeps,
}
use quartz_database_c.Format.{PageReference}
use quartz_database_c.Status.{Status}
use quartz_database_c.Btree.Key.{Key}
use quartz_database_c.Btree.Leaf.{LeafNode}
use quartz_database_c.Btree.Internal.{InternalNode}
use quartz_database_c.Btree.Path.{SearchPath}
use quartz_database_c.Btree.Tree.{
  BTree, WalEvent, lookup, replace, on_internal, set_internal, wal, set_root, set_height,
  allocate_page, allocate_internal, record_allocation, record_split,
}
use quartz_database_c.Btree.Rebalance.Split.{
  split_and_insert_internal, insert_into_parent, grow_root,
}

-- The calls that change no leaf.
abbrev pub HasLeaves : List (ℕ × LeafNode) → BTree → Type 0
HasLeaves leaves t = t.leaves ≡ leaves

module _ (leaves : List (ℕ × LeafNode)) where
  abbrev pub Still : {A : Type 0} → Action BTree A → Type 0
  Still m = Keeps (HasLeaves leaves) Any m

  pub on_internal-Still :
      (id : ℕ) (f : InternalNode → InternalNode × Status) → Still (on_internal id f)
  unfolding on_internal set_internal
  on_internal-Still id f =
      bind (reads_only _) (λ i _. seq (modify-Keeps _ (λ t w. w)) (reads_only _))

  pub wal-Still : (event : WalEvent) → Still (wal event)
  unfolding wal
  wal-Still event =
      perform-Keeps _
        (λ t w. elim (Option-cases t.wal_sink) [ inl e ↦ rw e w | inr (sink, e) ↦ rw e w ])

  pub allocate_page-Still : Still allocate_page
  unfolding allocate_page pure
  allocate_page-Still = record { holds = λ t w. (w, tt) }

  pub allocate_internal-Still : (level : ℕ) → Still (allocate_internal level)
  unfolding allocate_internal record_allocation
  allocate_internal-Still level = bind allocate_page-Still (λ id _. seq (fail_if-Keeps _ _) (
      seq (modify-Keeps _ (λ t w. w)) (
        bind (gets-Keeps _) (λ taken _.
          seq (fail_if-Keeps _ _)
            (seq (modify-Keeps _ (λ t w. w)) (seq (wal-Still _) (pure-Keeps id tt)))))))

  pub split_and_insert_internal-Still :
      (above : Key → ℕ → ℕ → Action BTree (Unit {0})) (id index : ℕ) (key : Key)
      (child : PageReference)
      → ((k : Key) (a b : ℕ) → Still (above k a b))
      → Still (split_and_insert_internal above id index key child)
  unfolding split_and_insert_internal record_split
  split_and_insert_internal-Still above id index key child h = bind (reads_only _) (λ node _.
      bind (reads_only _) (λ promoted _. seq (on_internal-Still id _) (
        bind (reads_only _) (λ now _. bind (allocate_internal-Still _) (λ sibling _.
          seq (on_internal-Still sibling _)
            (seq (modify-Keeps _ (λ t w. w)) (seq (wal-Still _) (h promoted id sibling))))))))

  pub insert_into_parent-Still :
      (path : SearchPath) (promoted : Key) (left right : ℕ)
      → Still (insert_into_parent path promoted left right)
  unfolding insert_into_parent grow_root set_root set_height
  insert_into_parent-Still [] promoted left right = bind (gets-Keeps _) (λ height _.
      bind (allocate_internal-Still height) (λ root _.
        seq (on_internal-Still root _)
          (seq (modify-Keeps _ (λ t w. w)) (modify-Keeps _ (λ t w. w)))))
  insert_into_parent-Still (frame ∷ path) promoted left right = bind (reads_only _) (λ parent _.
      branch-Keeps _ (on_internal-Still _ _)
        (split_and_insert_internal-Still _ _ _ _ _ (insert_into_parent-Still path)))

module _ {V : Type 0} where
  pub lookup-replace_same :
      (id : ℕ) (old new : V) (m : List (ℕ × V))
      → lookup id m ≡ some old
      → lookup id (replace id new m) ≡ some new
  unfolding lookup replace
  lookup-replace_same id old new [] h = cc
  lookup-replace_same id old new (entry ∷ m) h = elim (Bool-cases (entry.0 == id)) [
    | inl here ↦ let self : (id == id) ≡ true = ground arith in rw here (rw self refl)
    | inr there ↦ rw there (rw there (lookup-replace_same id old new m (rw there at h)))
  ]

  pub lookup-replace_other :
      (id other : ℕ) (new : V) (m : List (ℕ × V))
      → (id == other) ≡ false
      → lookup other (replace id new m) ≡ lookup other m
  unfolding lookup replace
  lookup-replace_other id other new [] d = refl
  lookup-replace_other id other new (entry ∷ m) d = elim (Bool-cases (entry.0 == id)) [
    | inl here ↦
        let apart : (entry.0 == other) ≡ false = ground arith in rw here (rw (d, apart) refl)
    | inr there ↦ rw there (rw (lookup-replace_other id other new m d) refl)
  ]
