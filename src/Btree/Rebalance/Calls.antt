-- ===== src/Btree/Rebalance/Calls.antt =====
-- What a call on a node leaves in it when it returns, and the lists of entries it is given.
use quartz_database_c.Prelude.{
  ℕ, zero, suc, ◌≤◌, ◌≡◌, true, List, [], ◌∷◌, ◌++◌, length, set, erase_at, get_elem?, ltb, Option,
  none, some, arith, refl, ap, inl, inr,
}
use quartz_database_c.Status.{Result-cases}
use quartz_database_c.Outcome.{returned, or_throw, of_status}
use quartz_database_c.Format.{PageReference}
use quartz_database_c.Btree.Key.{Key}
use quartz_database_c.Btree.Leaf
use quartz_database_c.Btree.Leaf.{LeafNode}
use quartz_database_c.Btree.Leaf.Entries.{sync_entries-kept}
use quartz_database_c.Btree.Internal
use quartz_database_c.Btree.Internal.{InternalNode}
use quartz_database_c.Btree.Node.{sync_header}
use quartz_database_c.Btree.Rebalance.{decrement}

pub leaf_assigned :
    (l : LeafNode) (keys : List Key) (refs : List PageReference)
    → of_status (Leaf.assign_entries l keys refs).1 ≡ returned tt
    → ((Leaf.assign_entries l keys refs).0.keys ≡ keys)
      × ((Leaf.assign_entries l keys refs).0.refs ≡ refs)
unfolding Leaf.assign_entries Leaf.with_entries
leaf_assigned l keys refs h = ground (arith, sync_entries-kept (Leaf.with_entries l keys refs))

pub leaf_erased :
    (l : LeafNode) (i : ℕ)
    → of_status (Leaf.erase_entry l i).1 ≡ returned tt
    → ((Leaf.erase_entry l i).0.keys ≡ erase_at l.keys i)
      × ((Leaf.erase_entry l i).0.refs ≡ erase_at l.refs i)
unfolding Leaf.erase_entry Leaf.with_entries
leaf_erased l i h =
    ground (arith, sync_entries-kept (Leaf.with_entries l (erase_at l.keys i) (erase_at l.refs i)))

pub internal_sync-kept :
    (i : InternalNode)
    → ((Internal.sync_entries i).0.keys ≡ i.keys)
      × ((Internal.sync_entries i).0.children ≡ i.children)
unfolding Internal.sync_entries Internal.sync_area
internal_sync-kept i = elim (Result-cases (sync_header i.node)) [
  | inr (c, e) ↦ rw (e, Internal.sync_entries) (refl, refl)
  | inl (n, e) ↦ rw (e, Internal.sync_entries) (ground arith)
]

pub key_set :
    (i : InternalNode) (index : ℕ) (key : Key)
    → of_status (Internal.set_key i index key).1 ≡ returned tt
    → (ltb index (length i.keys) ≡ true)
      × ((Internal.set_key i index key).0.keys ≡ set i.keys index key)
unfolding Internal.set_key
key_set i index key h =
    ground (arith, internal_sync-kept (record i { keys = set i.keys index key }))

pub internal_assigned :
    (i : InternalNode) (keys : List Key) (children : List PageReference)
    → of_status (Internal.assign_entries i keys children).1 ≡ returned tt
    → ((Internal.assign_entries i keys children).0.keys ≡ keys)
      × ((Internal.assign_entries i keys children).0.children ≡ children)
unfolding Internal.assign_entries Internal.with_entries
internal_assigned i keys children h =
    ground (arith, internal_sync-kept (Internal.with_entries i keys children))

module _ {A : Type 0} where
  pub or_throw-some : (o : Option A) (a : A) → or_throw o ≡ returned a → o ≡ some a
  or_throw-some none a h = cc
  or_throw-some (some b) a h = let e : b ≡ a = ground arith in ap some e

  pub get_elem-set :
      (xs : List A) (i : ℕ) (x : A) → ltb i (length xs) ≡ true → get_elem? (set xs i x) i ≡ some x
  get_elem-set [] i x h = absurd (ground arith)
  get_elem-set (y ∷ xs) zero x h = refl
  get_elem-set (y ∷ xs) (suc i) x h = get_elem-set xs i x (ground arith)

  pub erase_last :
      (xs ys : List A) (i : ℕ) (x : A)
      → suc i ≡ length xs
      → get_elem? xs i ≡ some x
      → (erase_at xs i ++ x ∷ ys) ≡ (xs ++ ys)
  erase_last [] ys i x l h = cc
  erase_last (y ∷ []) ys zero x l h = let e : y ≡ x = cc in rw e refl
  erase_last (y ∷ z ∷ xs) ys zero x l h = absurd (omega arith)
  erase_last (y ∷ xs) ys (suc i) x l h = ap (λ t. y ∷ t) (erase_last xs ys i x (omega arith) h)

abbrev pub last_at : LeafNode → ℕ
last_at l = decrement l.node.page.key_count

pub decrement_last : (n : ℕ) → 1 ≤ n → suc (decrement n) ≡ n
decrement_last n h = ground arith

pub append_one :
    {A : Type 0} (xs : List A) (y : A) (zs : List A) → ((xs ++ y ∷ []) ++ zs) ≡ (xs ++ y ∷ zs)
append_one [] y zs = refl
append_one (x ∷ xs) y zs = ap (λ t. x ∷ t) (append_one xs y zs)

pub erase_first :
    {A : Type 0} (xs : List A) (x : A) → get_elem? xs 0 ≡ some x → (x ∷ erase_at xs 0) ≡ xs
erase_first [] x h = cc
erase_first (y ∷ xs) x h = let e : y ≡ x = cc in rw e refl

pub inside_some :
    {A : Type 0} (xs : List A) (i : ℕ) (x : A) → get_elem? xs i ≡ some x → suc i ≤ length xs
inside_some [] i x h = cc
inside_some (y ∷ xs) zero x h = omega arith
inside_some (y ∷ xs) (suc i) x h = omega (arith, inside_some xs i x h)
