-- ===== src/Btree/Rebalance/Refused.antt =====
-- The merges of internal nodes in Rebalance.cpp.
use quartz_database_c.Prelude.{ℕ, ◌≡◌, ◌≢◌, ◌∷◌, ◌++◌, drop, arith, length-append, length-drop}
use quartz_database_c.Status.{Status, err, invalid_argument}
use quartz_database_c.Outcome.{Outcome, returned, failed, thrown, endless}
use quartz_database_c.Outcome.Action.{Action, resume, ◌>>◌}
use quartz_database_c.Outcome.Action.Invariant.{
  Keeps, Gives, bind, seq, reads-Keeps, reads_only, modify-Keeps,
}
use quartz_database_c.Btree.Key.{Key}
use quartz_database_c.Btree.Internal
use quartz_database_c.Btree.Internal.{InternalNode}
use quartz_database_c.Btree.Tree.{BTree, on_internal}
use quartz_database_c.Btree.Tree.Shape.{IsWhole, IsWholeInternal}
use quartz_database_c.Btree.Tree.Invariant.{internal-Safe, set_internal_kept}
use quartz_database_c.Btree.Rebalance.Merge.{merge_internals}

-- No value: the call does not return.
abbrev Unreachable : {A : Type 0} → A → Type 0
Unreachable a = ⊥

module _ {S A B : Type 0} (P : S → Type 0) where
  cut_off :
      (rest : Action S B) (o : Outcome A) (s : S)
      → P s
      → Gives Unreachable o
      → P (resume (λ a. rest) o s).1 × Gives Unreachable (resume (λ a. rest) o s).0
  unfolding resume
  cut_off rest (returned a) s p never = absurd never
  cut_off rest (failed c) s p never = (p, tt)
  cut_off rest thrown s p never = (p, tt)
  cut_off rest endless s p never = (p, tt)

  cut_short :
      (m : Action S A) (rest : Action S B) → Keeps P Unreachable m → Keeps P Unreachable (m >> rest)
  unfolding ◌>>◌
  cut_short m rest h = record {
    holds = λ s p. cut_off rest (m s).0 (m s).1 (h.holds s p).0 (h.holds s p).1;
  }

one_child_short :
    (l r n : InternalNode) (separator : Key)
    → IsWholeInternal l
    → IsWholeInternal r
    → Internal.assign_entries n (l.keys ++ separator ∷ r.keys) (l.children ++ drop 1 r.children)
      ≡ (n, err invalid_argument)
unfolding Internal.assign_entries
one_child_short l r n separator wl wr =
    let keys = length-append l.keys (separator ∷ r.keys) in
    let children = length-append l.children (drop 1 r.children) in
    let tail = length-drop 1 r.children in ground arith

refused-on_internal :
    (id : ℕ) (f : InternalNode → InternalNode × Status)
    → ((n : InternalNode) → f n ≡ (n, err invalid_argument))
    → Keeps IsWhole Unreachable (on_internal id f)
unfolding on_internal
refused-on_internal id f h = bind (internal-Safe id) (λ n w.
    seq (modify-Keeps _ (λ t p. rw (h n) (set_internal_kept id n t w p)))
      (reads-Keeps _ (λ t p. rw (h n) tt)))

not_returned :
    {S A : Type 0} {P : S → Type 0} {m : Action S A} (s : S) (a : A)
    → Keeps P Unreachable m
    → P s
    → (m s).0 ≢ returned a
not_returned s a k p e = let g = (k.holds s p).1 in rw e at g

merge_internals-Unreachable :
    (fix : ℕ → Action BTree (Unit {0})) (parent index : ℕ)
    → Keeps IsWhole Unreachable (merge_internals fix parent index)
unfolding merge_internals
merge_internals-Unreachable fix parent index = bind (reads_only _) (λ p _.
    bind (reads_only _) (λ left _. bind (reads_only _) (λ right _.
      bind (internal-Safe left.page_id) (λ l wl. bind (internal-Safe right.page_id) (λ r wr.
        bind (reads_only _) (λ separator _.
          cut_short IsWhole _ _
            (refused-on_internal left.page_id _ (λ n. one_child_short l r n separator wl wr))))))))

-- In a tree of whole nodes a merge of two internal nodes never succeeds, whatever their counts of keys are:
-- it joins the keys with the separator between them but leaves out the first child of the right node, so
-- there is one child too few and `assignEntries` refuses.
pub merge_internals_never_returns :
    (fix : ℕ → Action BTree (Unit {0})) (t : BTree) (parent index : ℕ)
    → IsWhole t
    → (merge_internals fix parent index t).0 ≢ returned tt
merge_internals_never_returns fix t parent index w =
    not_returned t tt (merge_internals-Unreachable fix parent index) w
