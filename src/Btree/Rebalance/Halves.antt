-- ===== src/Btree/Rebalance/Halves.antt =====
-- What `splitAndInsertLeaf` of Rebalance.cpp leaves in the two leaves.
use quartz_database_c.Prelude.{
  ℕ, zero, suc, ◌+◌, ◌≡◌, true, false, Option, none, some, List, [], ◌∷◌, ◌++◌, length, take, drop,
  insert_at, get_elem?, ◌==◌, arith, refl, ◌∙◌, sym, ap, Bool-cases, inl, inr, ==→eq,
  length-insert_at, length-take, length-drop,
}
use quartz_database_c.Outcome.{returned, of_status}
use quartz_database_c.Outcome.Action.Success.{
  Ensures, ensured, ensures-bind, ensures-seq, ensures-reads, ensures-gets, ensures-modify,
  ensures-pure, ensures_keeping, ensures-fail_if, ensures_weaken,
}
use quartz_database_c.Format.{PageReference}
use quartz_database_c.Status.{Status}
use quartz_database_c.Btree.Key.{Key}
use quartz_database_c.Btree.Comparator.{lower_bound}
use quartz_database_c.Btree.Leaf
use quartz_database_c.Btree.Leaf.{LeafNode}
use quartz_database_c.Btree.Path.{SearchPath}
use quartz_database_c.Btree.Tree.{
  BTree, lookup, replace, leaf, on_leaf, set_leaf, allocate_leaf, record_allocation, record_split,
  is_leaf, is_some, blank_node,
}
use quartz_database_c.Btree.Rebalance.Calls.{leaf_assigned, or_throw-some, inside_some}
use quartz_database_c.Btree.Tree.Search.Found.{get_elem-inside}
use quartz_database_c.Btree.Tree.Shape.{IsWholeLeaf}
use quartz_database_c.Btree.Rebalance.Split.{split_index, split_and_insert_leaf}
use quartz_database_c.Btree.Rebalance.Leaves.{
  wal-Still, allocate_page-Still, insert_into_parent-Still, lookup-replace_same,
  lookup-replace_other,
}

leaf_changed :
    (id : ℕ) (f : LeafNode → LeafNode × Status) (t : BTree)
    → Ensures t (on_leaf id f) (λ _ t'.
      (l : LeafNode) × (lookup id t.leaves ≡ some l)
      × (of_status (f l).1 ≡ returned tt)
      × (t'.leaves ≡ replace id (f l).0 t.leaves))
unfolding on_leaf set_leaf leaf
leaf_changed id f t = ensures-bind (
    ensures-reads _ (λ l e.
      ensures-seq (ensures-modify _ (ensures-reads _ (λ a h. (l, or_throw-some _ _ e, h, refl))))))

none_there : {V : Type 0} (o : Option V) → is_some o ≡ false → o ≡ none
none_there none h = refl
none_there (some v) h = cc

leaf_added :
    (level : ℕ) (t : BTree)
    → Ensures t
        (allocate_leaf level)
        (λ id t'. (l : LeafNode) × (lookup id t.leaves ≡ none) × (t'.leaves ≡ (id, l) ∷ t.leaves))
unfolding allocate_leaf record_allocation is_leaf
leaf_added level t = ensures-bind (
    ensures_keeping (allocate_page-Still t.leaves) refl (λ id t1 e1. ensures-seq (
      ensures-fail_if _ _ (λ _. ensures-seq (
        ensures-modify _ (
          ensures-bind (
            ensures-gets _ (
              ensures-seq (
                ensures-fail_if _ _ (λ free. ensures-seq (
                  ensures-modify _ (
                    ensures-seq (
                      ensures_keeping (wal-Still _ _) refl (λ _ t2 e2. ensures-pure id (
                        Leaf.create (blank_node id) (record t1.config { level = level }),
                        rw (sym e1) (none_there (lookup id t1.leaves) free),
                        e2
                            ∙ ap
                                (λ m.
                                  (
                                    id,
                                    Leaf.create (blank_node id)
                                        (record t1.config { level = level }),
                                  )
                                  ∷ m)
                                e1,
                      )))))))))))))))

take-drop :
    {A : Type 0} (xs : List A) (i : ℕ) (x : A)
    → get_elem? xs i ≡ some x
    → (take i xs ++ x ∷ drop (suc i) xs) ≡ xs
take-drop [] i x h = cc
take-drop (y ∷ xs) zero x h = let e : y ≡ x = cc in rw e refl
take-drop (y ∷ xs) (suc i) x h = ap (λ t. y ∷ t) (take-drop xs i x h)

-- The two leaves after a split, by the lists that are split.
abbrev Halved : List Key → List PageReference → ℕ → ℕ → BTree → BTree → Type 0
Halved keys refs middle id t t' =
    (sibling : ℕ) × (left right : LeafNode) × (promoted : Key) × (get_elem? keys middle
      ≡ some promoted)
    × (lookup sibling t.leaves ≡ none)
    × (lookup id t'.leaves ≡ some left)
    × (lookup sibling t'.leaves ≡ some right)
    × ((left.keys ≡ take middle keys) × (left.refs ≡ take middle refs))
    × ((right.keys ≡ drop (middle + 1) keys) × (right.refs ≡ drop (middle + 1) refs))

module _ (id sibling : ℕ) (left right fresh old : LeafNode) (t t1 t2 t3 : BTree)
    (there : lookup id t.leaves ≡ some old) (e1 : t1.leaves ≡ replace id left t.leaves)
    (free : lookup sibling t1.leaves ≡ none) (e2 : t2.leaves ≡ (sibling, fresh) ∷ t1.leaves)
    (e3 : t3.leaves ≡ replace sibling right t2.leaves) where
  left_there : lookup id t1.leaves ≡ some left
  left_there = rw e1 (lookup-replace_same id old left t.leaves there)

  apart : (sibling == id) ≡ false
  apart = elim (Bool-cases (sibling == id)) [
    | inr differs ↦ differs
    | inl equals ↦
        let one : sibling ≡ id = ==→eq sibling id equals in
        let taken : lookup id t1.leaves ≡ none = rw one at free in
        let clash : none ≡ some left = sym taken ∙ left_there in cc
  ]

  sibling_free : lookup sibling t.leaves ≡ none
  sibling_free =
      let differs : (id == sibling) ≡ false = let a = apart in ground arith in
      sym (lookup-replace_other id sibling left t.leaves differs) ∙ rw e1 at free

  left_after : lookup id t3.leaves ≡ some left
  unfolding lookup
  left_after =
      rw (e3, lookup-replace_other sibling id right t2.leaves apart) (rw e2 (rw apart left_there))

  right_after : lookup sibling t3.leaves ≡ some right
  unfolding lookup
  right_after =
      let self : (sibling == sibling) ≡ true = ground arith in
      let before : lookup sibling t2.leaves ≡ some fresh = rw e2 (rw self refl) in
      rw e3 (lookup-replace_same sibling fresh right t2.leaves before)

split_and_insert_leaf-Halved :
    (id : ℕ) (path : SearchPath) (key : Key) (value : PageReference) (t : BTree) (l : LeafNode)
    → lookup id t.leaves ≡ some l
    → Ensures t (split_and_insert_leaf id path key value) (λ _ t'.
      Halved
        (insert_at l.keys (lower_bound l.keys key) key)
        (insert_at l.refs (lower_bound l.keys key) value)
        (split_index (insert_at l.keys (lower_bound l.keys key) key))
        id
        t
        t')
unfolding split_and_insert_leaf leaf record_split
split_and_insert_leaf-Halved id path key value t l there = ensures-bind (
    ensures-reads _ (λ m e0.
      let same : m ≡ l = cc in
      rw same (
        ensures-bind (
          ensures-reads _ (λ promoted e1. ensures-seq (
            ensures_weaken (leaf_changed id _ t) (λ _ t1 (old, there1, ok1, c1). ensures-bind (
              ensures-reads _ (λ now e2. ensures-bind (
                ensures_weaken (leaf_added _ t1) (λ sibling t2 (fresh, free, c2). ensures-seq (
                  ensures_weaken (leaf_changed sibling _ t2) (λ _ t3 (fresh', there2, ok2, c3).
                    ensures-seq (
                      ensures-modify _ (
                        ensures-seq (
                          ensures_keeping (wal-Still t3.leaves _) refl (λ _ t4 c4.
                            ensures_keeping
                              (insert_into_parent-Still t3.leaves path promoted id sibling) c4
                              (λ _ t5 c5. (
                                sibling,
                                (Leaf.assign_entries old _ _).0,
                                (Leaf.assign_entries fresh' _ _).0,
                                promoted,
                                or_throw-some _ _ e1,
                                sibling_free id sibling _ _ fresh old t t1 t2 t3 there1 c1 free c2
                                    c3,
                                rw c5 (
                                    left_after id sibling _ _ fresh old t t1 t2 t3 there1 c1 free c2
                                      c3),
                                rw c5 (
                                    right_after id sibling _ _ fresh old t t1 t2 t3 there1 c1 free
                                      c2 c3),
                                leaf_assigned old _ _ ok1,
                                leaf_assigned fresh' _ _ ok2,
                              )))))))))))))))))))

-- A full leaf that is split, with as many references as keys, when the call returns: the old leaf, the
-- promoted key and a leaf under an id that was no leaf have the old keys with the new one put in, in the same
-- order. The references are those of the old leaf with the new one put in, but one, which no leaf keeps: the
-- reference of the promoted key.
pub split_and_insert_leaf_drops_one :
    (id : ℕ) (path : SearchPath) (key : Key) (value : PageReference) (t t' : BTree) (l : LeafNode)
    → lookup id t.leaves ≡ some l
    → IsWholeLeaf l
    → split_and_insert_leaf id path key value t ≡ (returned tt, t')
    → (sibling : ℕ) × (left right : LeafNode) × (promoted : Key) × (dropped : PageReference)
      × (lookup sibling t.leaves ≡ none)
      × (lookup id t'.leaves ≡ some left)
      × (lookup sibling t'.leaves ≡ some right)
      × ((left.keys ++ promoted ∷ right.keys) ≡ insert_at l.keys (lower_bound l.keys key) key)
      × ((left.refs ++ dropped ∷ right.refs) ≡ insert_at l.refs (lower_bound l.keys key) value)
      × (length left.refs ≡ length left.keys)
      × (length right.refs ≡ length right.keys)
split_and_insert_leaf_drops_one id path key value t t' l there w h =
    let pos = lower_bound l.keys key in
    let keys = insert_at l.keys pos key in
    let refs = insert_at l.refs pos value in
    let middle = split_index keys in
    let (sibling, left, right, promoted, e, new, at_id, at_sibling, ls, rs) =
      ensured (split_and_insert_leaf-Halved id path key value t l there) h in
    let counts : length refs ≡ length keys =
      omega (arith, length-insert_at l.keys pos key, length-insert_at l.refs pos value) in
    let inside = inside_some keys middle promoted e in
    let (dropped, d) = get_elem-inside refs middle (omega arith) in
    let next : middle + 1 ≡ suc middle = omega arith in
    (
      sibling,
      left,
      right,
      promoted,
      dropped,
      new,
      at_id,
      at_sibling,
      rw (ls.0, rs.0, next) (take-drop keys middle promoted e),
      rw (ls.1, rs.1, next) (take-drop refs middle dropped d),
      rw (ls.0, ls.1) (omega (arith, length-take middle keys, length-take middle refs)),
      rw (rs.0, rs.1) (omega (arith, length-drop (middle + 1) keys, length-drop (middle + 1) refs)),
    )
