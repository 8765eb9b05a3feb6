-- ===== src/Btree/Tree/Search/Entry.antt =====
-- The entries of a tree and the search trees among the stores of BTree.cpp.
use quartz_database_c.Prelude.{
  ℕ, zero, suc, ◌+◌, ◌≡◌, true, false, none, some, List, [], ◌∷◌, length, get_elem?, ltb, All,
  arith, refl, ◌∙◌, sym,
}
use quartz_database_c.Format.{PageReference, is_valid}
use quartz_database_c.Btree.Key.{Key, less, less_equal}
use quartz_database_c.Btree.Key.Order.{compare-opposite, compare_self}
use quartz_database_c.Btree.Comparator.{test_at, lower_bound}
use quartz_database_c.Btree.Comparator.Search.{IsSorted, lower_bound-test_at}
use quartz_database_c.Btree.Leaf.{LeafNode}
use quartz_database_c.Btree.Leaf.Entries.{less-less_equal}
use quartz_database_c.Btree.Internal.{InternalNode}
use quartz_database_c.Btree.Tree.{BTree, lookup}

-- Below a page there is a leaf with the key and the reference at one index.
pub data Entry (t : BTree) (key : Key) (ref : PageReference) : ℕ → Type 0 where
  in_leaf :
      (id i : ℕ) (l : LeafNode)
      → lookup id t.leaves ≡ some l
      → get_elem? l.keys i ≡ some key
      → get_elem? l.refs i ≡ some ref
      → Entry t key ref id
  in_child :
      (id i : ℕ) (node : InternalNode) (child : PageReference)
      → lookup id t.leaves ≡ none
      → lookup id t.internals ≡ some node
      → get_elem? node.children i ≡ some child
      → Entry t key ref child.page_id
      → Entry t key ref id

abbrev pub IsAscending : List Key → Type 0
IsAscending [] = Unit {0}
IsAscending (k ∷ ks) = All (λ j. less k j ≡ true) ks × IsAscending ks

-- The separators before an index are less than the key, the others are not.
abbrev pub Separates : List Key → ℕ → Key → Type 0
Separates keys i key = (j : ℕ) → test_at (λ s. less s key) keys j ≡ ltb j i

-- A leaf in order whose page counts its keys, each with a reference.
abbrev pub IsLeafInOrder : LeafNode → Type 0
IsLeafInOrder l =
    IsAscending l.keys × (length l.refs ≡ length l.keys) × (l.node.page.key_count ≡ length l.keys)

-- A tree whose leaves are all at one depth, its nodes are in order, and the separators of a node tell the
-- entries below its children apart.
unfoldable pub IsSearchTree : BTree → ℕ → ℕ → Type 0
IsSearchTree t zero id = (l : LeafNode) × (lookup id t.leaves ≡ some l) × IsLeafInOrder l
IsSearchTree t (suc depth) id =
    (node : InternalNode) × (lookup id t.leaves ≡ none)
    × (lookup id t.internals ≡ some node)
    × IsSorted node.keys
    × (length node.children ≡ length node.keys + 1)
    × ((i : ℕ) (child : PageReference)
        → get_elem? node.children i ≡ some child
        → (is_valid child ≡ true)
          × IsSearchTree t depth child.page_id
          × ((key : Key) (ref : PageReference)
              → Entry t key ref child.page_id
              → Separates node.keys i key))

less_not_after : (a b : Key) → less a b ≡ true → less b a ≡ false
less_not_after a b h = rw (compare-opposite a b) (ground arith)

pub less_self : (a : Key) → less a a ≡ false
less_self a = rw (compare_self a) refl

All-at :
    (P : Key → Type 0) (ks : List Key) (i : ℕ) (key : Key)
    → All P ks
    → get_elem? ks i ≡ some key
    → P key
All-at P [] i key a h = cc
All-at P (k ∷ ks) zero key a h = let e : k ≡ key = cc in rw e at a.0
All-at P (k ∷ ks) (suc i) key a h = All-at P ks i key a.1 h

none_after :
    (k : Key) (ks : List Key) (j : ℕ)
    → All (λ j. less k j ≡ true) ks
    → test_at (λ s. less s k) ks j ≡ false
none_after k [] j a = refl
none_after k (i ∷ ks) zero a = less_not_after k i a.0
none_after k (i ∷ ks) (suc j) a = none_after k ks j a.1

-- In a leaf in order the place of a key separates the keys.
pub ascending-Separates :
    (keys : List Key) (i : ℕ) (key : Key)
    → IsAscending keys
    → get_elem? keys i ≡ some key
    → Separates keys i key
ascending-Separates [] i key a h j = cc
ascending-Separates (k ∷ ks) zero key a h zero =
    let e : k ≡ key = cc in rw (sym e, less_self k) (ground arith)
ascending-Separates (k ∷ ks) zero key a h (suc j) =
    let e : k ≡ key = cc in rw (sym e, none_after k ks j a.0) (ground arith)
ascending-Separates (k ∷ ks) (suc i) key a h zero =
    rw (All-at (λ j. less k j ≡ true) ks i key a.0 h) (ground arith)
ascending-Separates (k ∷ ks) (suc i) key a h (suc j) =
    ascending-Separates ks i key a.1 h j ∙ ground arith

All-less_equal :
    (k : Key) (ks : List Key) → All (λ j. less k j ≡ true) ks → All (λ j. less_equal k j ≡ true) ks
All-less_equal k [] a = tt
All-less_equal k (j ∷ ks) a = (less-less_equal k j a.0, All-less_equal k ks a.1)

pub ascending-IsSorted : (keys : List Key) → IsAscending keys → IsSorted keys
ascending-IsSorted [] a = tt
ascending-IsSorted (k ∷ ks) a = (All-less_equal k ks a.0, ascending-IsSorted ks a.1)

-- The index that separates a key is the one that the binary search finds.
pub lower_bound-Separates :
    (keys : List Key) (i : ℕ) (key : Key)
    → IsSorted keys
    → Separates keys i key
    → lower_bound keys key ≡ i
lower_bound-Separates keys i key s h =
    let found = (lower_bound-test_at keys key s).1 in
    let low : ltb i i ≡ ltb i (lower_bound keys key) = sym (h i) ∙ found i in
    let high : ltb (lower_bound keys key) i ≡ ltb (lower_bound keys key) (lower_bound keys key) =
      sym (h (lower_bound keys key)) ∙ found (lower_bound keys key) in
    ground arith
