-- ===== src/Btree/Tree/Update/Pairs.antt =====
-- What `insert` of BTree.cpp adds to the entries of a tree when no leaf is split.
use quartz_database_c.Prelude.{
  ℕ, ◌≡◌, ◌↔◌, ◌⊎◌, inl, inr, Bool, true, false, some, [], length, insert_at, ltb, if◌then◌else◌,
  refl, sym, Option-cases,
}
use quartz_database_c.Status.{Status, invalid_argument}
use quartz_database_c.Outcome.{Outcome, returned, failed, thrown, endless, of_status, at}
use quartz_database_c.Outcome
use quartz_database_c.Outcome.Action.{branch}
use quartz_database_c.Outcome.Action.Invariant.{Keeps, Any, perform-Keeps}
use quartz_database_c.Outcome.Action.Success.{
  Ensures, ensured, ensures-bind, ensures-seq, ensures-reads, ensures-gets, ensures-modify,
  ensures_keeping, ensures-fail_if, ensures_weaken,
}
use quartz_database_c.Format.{PageReference}
use quartz_database_c.Btree.Key.{Key, equal}
use quartz_database_c.Btree.Comparator.{lower_bound}
use quartz_database_c.Btree.Leaf
use quartz_database_c.Btree.Leaf.{LeafNode}
use quartz_database_c.Btree.Tree.{BTree, WalEvent, lookup, leaf, is_empty, on_leaf, set_leaf, wal}
use quartz_database_c.Btree.Tree.Search.{
  Place, descend_from, descend_to_leaf, refuse_duplicate, descend_for_insert,
}
use quartz_database_c.Btree.Tree.Search.Entry.{Entry}
use quartz_database_c.Btree.Rebalance.Calls.{or_throw-some}
use quartz_database_c.Btree.Tree.Update.{insert, grow}
use quartz_database_c.Btree.Tree.Update.Changed.{
  new_there, leaf_inserted, Changed, place_unique, endless_not, thrown_not, failed_not, some_eq,
  grown_before, pair_now, grown_after, reached,
}

on_leaf-Changed :
    (id : ℕ) (f : LeafNode → LeafNode × Status) (t : BTree)
    → Ensures t (on_leaf id f) (λ _ t'.
      (m : LeafNode) × (lookup id t.leaves ≡ some m)
      × (of_status (f m).1 ≡ returned tt)
      × Changed t id (f m).0 t')
unfolding on_leaf set_leaf leaf
on_leaf-Changed id f t = ensures-bind (
    ensures-reads _ (λ m e. ensures-seq (
      ensures-modify _ (ensures-reads _ (λ a h. (m, or_throw-some _ _ e, h, (refl, refl, refl)))))))

wal-Changed :
    (t : BTree) (id : ℕ) (l : LeafNode) (event : WalEvent) → Keeps (Changed t id l) Any (wal event)
unfolding wal
wal-Changed t id l event =
    perform-Keeps _
      (λ s w. elim (Option-cases s.wal_sink) [ inl e ↦ rw e w | inr (sink, e) ↦ rw e w ])

inserted :
    (key : Key) (value : PageReference) (t : BTree) (place : Place) (l : LeafNode)
    → is_empty t ≡ false
    → descend_for_insert t key ≡ returned place
    → lookup place.leaf_id t.leaves ≡ some l
    → ltb l.node.page.key_count l.node.page.capacity ≡ true
    → Ensures t (insert key value) (λ _ t'.
      (l' : LeafNode) × Changed t place.leaf_id l' t'
      × (l'.keys ≡ insert_at l.keys (lower_bound l.keys key) key)
      × (l'.refs ≡ insert_at l.refs (lower_bound l.keys key) value))
unfolding insert branch grow leaf
inserted key value t place l filled found there room = ensures-seq (
    ensures-fail_if _ _ (λ _. ensures-bind (
      ensures-gets _ (
        rw filled (
          ensures-bind (
            ensures-reads _ (λ place' e.
              let same : place' ≡ place = place_unique e found in
              rw same (
                ensures-bind (
                  ensures-reads _ (λ m e'.
                    let one : m ≡ l = some_eq (or_throw-some _ _ e') there in
                    rw (one, room)
                      (ensures-seq (
                        ensures_weaken (on_leaf-Changed place.leaf_id _ t)
                          (λ _ t1 (n, n_there, done, changed).
                            let n_l : n ≡ l = some_eq n_there there in
                            let facts = leaf_inserted n key value done in
                            ensures-seq (
                              ensures-modify _ (
                                ensures_keeping
                                  (wal-Changed t place.leaf_id (Leaf.insert n key value).0 _)
                                  changed
                                  (λ _ t2 kept. (
                                    (Leaf.insert n key value).0,
                                    kept,
                                    rw (sym n_l) facts.0,
                                    rw (sym n_l) facts.1,
                                  )))))))))))))))))

-- The calls before the last one in a function that has returned.
bound_value :
    {A B : Type 0} (o : Outcome A) (rest : A → Outcome B) (b : B)
    → Outcome.◌>>=◌ o rest ≡ returned b
    → (a : A) × (o ≡ returned a) × (rest a ≡ returned b)
bound_value (returned a) rest b h = (a, refl, h)
bound_value (failed c) rest b h = absurd (failed_not h)
bound_value thrown rest b h = absurd (thrown_not h)
bound_value endless rest b h = absurd (endless_not h)

accepted_place :
    (refused : Bool) (p place : Place)
    → (if refused then failed invalid_argument else returned p) ≡ returned place
    → p ≡ place
accepted_place true p place h = absurd (failed_not h)
accepted_place false p place h = place_unique refl h

compared_place :
    (compares : Bool) (there : Outcome Key) (equals : Key → Bool) (p place : Place)
    → (if compares
        then Outcome.◌>>=◌ there (λ k. if equals k then failed invalid_argument else returned p)
        else returned p)
      ≡ returned place
    → p ≡ place
compared_place true there equals p place h =
    let (k, e, rest) = bound_value there _ place h in accepted_place (equals k) p place rest
compared_place false there equals p place h = place_unique refl h

refuse_duplicate_keeps :
    (t : BTree) (key : Key) (p place : Place)
    → refuse_duplicate t key p ≡ returned place
    → p ≡ place
unfolding refuse_duplicate
refuse_duplicate_keeps t key p place h =
    let (l, e, rest) = bound_value (leaf t p.leaf_id) _ place h in
    compared_place _ (at l.keys p.index) (λ k. equal k key) p place rest

descended :
    (t : BTree) (key : Key) (place : Place)
    → is_empty t ≡ false
    → descend_for_insert t key ≡ returned place
    → descend_from (length t.internals) t false key t.root_id [] ≡ returned place
unfolding descend_for_insert descend_to_leaf
descended t key place filled h =
    let (p, e, rest) = bound_value (descend_to_leaf t key false) (refuse_duplicate t key) place h in
    let same = refuse_duplicate_keeps t key p place rest in rw same at rw filled at e

moved_to : (P : ℕ → Type 0) (a b : ℕ) → a ≡ b → P b → P a
moved_to P a b e p = rw e p

-- An insertion into a leaf with room: in a tree that is not empty, when the search finds a place for the key
-- in a leaf that has as many references as keys and is not full, and `insert` returns, the keys with their
-- references that are in the leaves below the root are those from before and the new one.
pub insert-Entry :
    (t t' : BTree) (key k : Key) (value r : PageReference) (place : Place) (l : LeafNode)
    → is_empty t ≡ false
    → descend_for_insert t key ≡ returned place
    → lookup place.leaf_id t.leaves ≡ some l
    → length l.refs ≡ length l.keys
    → ltb l.node.page.key_count l.node.page.capacity ≡ true
    → insert key value t ≡ (returned tt, t')
    → Entry t' k r t'.root_id ↔ (Entry t k r t.root_id ⊎ ((k ≡ key) × (r ≡ value)))
insert-Entry t t' key k value r place l filled found there counts room h =
    let (l', changed, ks, rs) = ensured (inserted key value t place l filled found there room) h in
    let id = place.leaf_id in
    let new : Entry t' key value id =
      pair_now t t' key value id l l' there counts changed ks rs key value
        (new_there key value (lower_bound l.keys key) l.keys l.refs counts) in
    let at_root : Entry t' key value t.root_id =
      reached t t' key value id l l' there counts changed ks rs (length t.internals) key t.root_id
        [] place key value (descended t key place filled found) new in
    moved_to (λ n. Entry t' k r n ↔ (Entry t k r t.root_id ⊎ ((k ≡ key) × (r ≡ value)))) t'.root_id
      t.root_id changed.2
      (
        grown_before t t' key value id l l' there counts changed ks rs k r t.root_id,
        λ either. elim either [
          | inl old ↦
              grown_after t t' key value id l l' there counts changed ks rs k r t.root_id old
          | inr same ↦ rw (same.0, same.1) at_root
        ],
      )
