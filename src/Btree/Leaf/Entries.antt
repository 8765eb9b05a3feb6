-- ===== src/Btree/Leaf/Entries.antt =====
-- What `insert` of LeafNode.cpp does to the entries of a leaf.
use quartz_database_c.Prelude.{
  ℕ, zero, suc, ◌≡◌, ◌⊎◌, inl, inr, Bool, true, false, not, ◌&&◌, ◌||◌, List, [], ◌∷◌, length,
  insert_at, ltb, leb, if◌then◌else◌, All, arith, refl, Bool-cases, ◌∙◌,
}
use quartz_database_c.Status.{err, invalid_argument, Result-cases}
use quartz_database_c.Format.{PageReference, is_valid}
use quartz_database_c.Btree.Key.{
  Key, Sign, below, same, above, compare, is_below, is_above, equal, less, less_equal,
}
use quartz_database_c.Btree.Key.Order.{less_equal-not}
use quartz_database_c.Btree.Comparator.{test_at, lower_bound}
use quartz_database_c.Btree.Comparator.Search.{IsSorted, lower_bound-test_at}
use quartz_database_c.Btree.Node.{sync_header, has_allow_duplicates}
use quartz_database_c.Btree.Leaf.{LeafNode, sync_entries, sync_area, with_entries, insert}

-- Whether or not the page can be written, the entries in memory stay.
pub sync_entries-kept :
    (l : LeafNode) → ((sync_entries l).0.keys ≡ l.keys) × ((sync_entries l).0.refs ≡ l.refs)
unfolding sync_entries sync_area
sync_entries-kept l = elim (Result-cases (sync_header l.node)) [
  | inr (c, e) ↦ rw (e, sync_entries) (refl, refl)
  | inl (n, e) ↦ rw (e, sync_entries) (ground arith)
]

All-not_less :
    (key : Key) (keys : List Key)
    → ((i : ℕ) → test_at (λ k. less k key) keys i ≡ false)
    → All (λ j. less_equal key j ≡ true) keys
All-not_less key [] h = tt
All-not_less key (k ∷ ks) h =
    (rw (less_equal-not key k, h 0) refl, All-not_less key ks (λ i. h (suc i)))

All-insert_at :
    (k key : Key) (ks : List Key) (at : ℕ)
    → less_equal k key ≡ true
    → All (λ j. less_equal k j ≡ true) ks
    → All (λ j. less_equal k j ≡ true) (insert_at ks at key)
All-insert_at k key ks zero h a = (h, a)
All-insert_at k key [] (suc at) h a = (h, tt)
All-insert_at k key (j ∷ ks) (suc at) h a = (a.0, All-insert_at k key ks at h a.1)

pub less-less_equal : (a b : Key) → less a b ≡ true → less_equal a b ≡ true
less-less_equal a b h = not_above (compare a b) h
  where
    not_above : (t : Sign) → is_below t ≡ true → not (is_above t) ≡ true
    not_above below h = refl
    not_above same h = refl
    not_above above h = cc

-- A key put in after those that are less than it keeps the keys sorted.
insert_at-IsSorted :
    (keys : List Key) (key : Key) (at : ℕ)
    → IsSorted keys
    → ((i : ℕ) → test_at (λ k. less k key) keys i ≡ ltb i at)
    → IsSorted (insert_at keys at key)
insert_at-IsSorted keys key zero s h =
    (All-not_less key keys (λ i. let e : ltb i 0 ≡ false = ground arith in h i ∙ e), s)
insert_at-IsSorted [] key (suc at) s h = (tt, tt)
insert_at-IsSorted (k ∷ ks) key (suc at) s h = (
  All-insert_at k key ks at
      (less-less_equal k key (let e : ltb 0 (suc at) ≡ true = ground arith in h 0 ∙ e)) s.0,
  insert_at-IsSorted ks key at s.1
      (λ i. let e : ltb (suc i) (suc at) ≡ ltb i at = ground arith in h (suc i) ∙ e),
)

-- When `insert` refuses: an invalid reference, a full leaf, or a key that is there where duplicates are not
-- allowed.
abbrev pub refuses : LeafNode → Key → PageReference → Bool
refuses l key ref =
    not (is_valid ref)
    || leb l.node.page.capacity l.node.page.key_count
    || (not (has_allow_duplicates l.node.page.flags)
        && ltb (lower_bound l.keys key) (length l.keys)
        && test_at (λ k. equal k key) l.keys (lower_bound l.keys key))

insert-refuses :
    (l : LeafNode) (key : Key) (ref : PageReference)
    → insert l key ref ≡ (
        if refuses l key ref
        then (l, err invalid_argument)
        else sync_entries (
            with_entries l
              (insert_at l.keys (lower_bound l.keys key) key)
              (insert_at l.refs (lower_bound l.keys key) ref)))
unfolding insert
insert-refuses l key ref =
    nested (not (is_valid ref)) (leb l.node.page.capacity l.node.page.key_count) _ _ _
  where
    nested :
        {A : Type 0} (a b c : Bool) (x y : A)
        → (if a then x else if b then x else if c then x else y) ≡ (if a || b || c then x else y)
    nested true b c x y = refl
    nested false true c x y = refl
    nested false false c x y = refl

-- `insert` on sorted keys: it refuses, and the leaf is as it was; or the key and the reference are put in
-- at `lowerBound` of the key, whatever becomes of the page, and the keys are sorted.
pub insert_keeps_order :
    (l : LeafNode) (key : Key) (ref : PageReference)
    → IsSorted l.keys
    → ((refuses l key ref ≡ true) × (insert l key ref ≡ (l, err invalid_argument)))
      ⊎ ((refuses l key ref ≡ false)
          × ((insert l key ref).0.keys ≡ insert_at l.keys (lower_bound l.keys key) key)
          × ((insert l key ref).0.refs ≡ insert_at l.refs (lower_bound l.keys key) ref)
          × IsSorted (insert l key ref).0.keys)
unfolding with_entries lower_bound
insert_keeps_order l key ref s = elim (Bool-cases (refuses l key ref)) [
  | inl refused ↦ inl (refused, rw (insert-refuses l key ref, refused) refl)
  | inr accepted ↦
      let pos = lower_bound l.keys key in
      let kept =
        sync_entries-kept (with_entries l (insert_at l.keys pos key) (insert_at l.refs pos ref)) in
      let sorted = insert_at-IsSorted l.keys key pos s (lower_bound-test_at l.keys key s).1 in
      rw (insert-refuses l key ref, accepted) (inr (refl, kept.0, kept.1, rw kept.0 sorted))
]
