-- ===== src/Btree/Tree/Search/Found.antt =====
-- What `find` of BTree.cpp finds in a search tree.
use quartz_database_c.Prelude.{
  ℕ, zero, suc, ◌≤◌, ◌≡◌, ◌⊎◌, inl, inr, Bool, true, false, Option, none, some, List, [], ◌∷◌,
  length, get_elem?, ltb, leb, arith, refl, ◌∙◌, ap, Option-cases, Bool-cases,
}
use quartz_database_c.Status.{invalid_argument}
use quartz_database_c.Outcome.{Outcome, returned, failed, ◌>>=◌, at}
use quartz_database_c.Format.{PageReference, is_valid}
use quartz_database_c.Btree.Key.{Key, compare, equal, is_same, Sign, same, below, above}
use quartz_database_c.Btree.Key.Order.{compare_self, compare-same}
use quartz_database_c.Btree.Comparator
use quartz_database_c.Btree.Comparator.{test_at, lower_bound}
use quartz_database_c.Btree.Comparator.Search.{lower_bound-test_at}
use quartz_database_c.Btree.Leaf.{LeafNode}
use quartz_database_c.Btree.Internal.{InternalNode}
use quartz_database_c.Btree.Path.{SearchPath, push}
use quartz_database_c.Btree.Tree.{BTree, lookup, is_leaf, leaf, internal, make_index_ref}
use quartz_database_c.Btree.Tree.Search.{Place, place_in, descend_from}
use quartz_database_c.Btree.Tree.Search.Entry.{
  Entry, in_leaf, in_child, IsSearchTree, IsLeafInOrder, ascending-Separates, ascending-IsSorted,
  lower_bound-Separates,
}

some_eq : {A : Type 0} {a b : A} {o : Option A} → o ≡ some a → o ≡ some b → a ≡ b
some_eq h k = cc

pub get_elem-inside :
    {A : Type 0} (xs : List A) (i : ℕ) → suc i ≤ length xs → (x : A) × (get_elem? xs i ≡ some x)
get_elem-inside [] i h = absurd (omega arith)
get_elem-inside (x ∷ xs) zero h = (x, refl)
get_elem-inside (x ∷ xs) (suc i) h = get_elem-inside xs i (omega arith)

inside-get_elem :
    {A : Type 0} (xs : List A) (i : ℕ) (x : A) → get_elem? xs i ≡ some x → ltb i (length xs) ≡ true
inside-get_elem [] i x h = cc
inside-get_elem (y ∷ xs) zero x h = ground arith
inside-get_elem (y ∷ xs) (suc i) x h = let e = inside-get_elem xs i x h in ground arith

-- Two steps of a descent.
descend-leaf :
    (fuel : ℕ) (t : BTree) (exact : Bool) (key : Key) (id : ℕ) (path : SearchPath) (l : LeafNode)
    → lookup id t.leaves ≡ some l
    → descend_from fuel t exact key id path ≡ place_in exact key id path l
unfolding descend_from is_leaf leaf
descend-leaf zero t exact key id path l h = rw h refl
descend-leaf (suc fuel) t exact key id path l h = rw h refl

abbrev longer : ℕ → InternalNode → Key → SearchPath → SearchPath
longer id node key path =
    push
      (record {
        page_id = id;
        child_index = lower_bound node.keys key;
        page_ref = make_index_ref id;
      })
      path

descend-internal :
    (fuel : ℕ) (t : BTree) (exact : Bool) (key : Key) (id : ℕ) (path : SearchPath)
    (node : InternalNode) (child : PageReference)
    → lookup id t.leaves ≡ none
    → lookup id t.internals ≡ some node
    → get_elem? node.children (lower_bound node.keys key) ≡ some child
    → is_valid child ≡ true
    → descend_from (suc fuel) t exact key id path
      ≡ descend_from fuel t exact key child.page_id (longer id node key path)
unfolding descend_from is_leaf internal
descend-internal fuel t exact key id path node child h k e v = rw (h, k, e, v) refl

test_at-some :
    (f : Key → Bool) (keys : List Key) (i : ℕ) (k : Key)
    → get_elem? keys i ≡ some k
    → test_at f keys i ≡ f k
test_at-some f keys i k h = rw (h, test_at) refl

test_at-none :
    (f : Key → Bool) (keys : List Key) (i : ℕ) → get_elem? keys i ≡ none → test_at f keys i ≡ false
test_at-none f keys i h = rw (h, test_at) refl

equal_self : (key : Key) → equal key key ≡ true
equal_self key = rw (compare_self key) refl

-- `place_in` with an exact match, in a leaf in order.
place-found :
    (key : Key) (id i : ℕ) (path : SearchPath) (l : LeafNode)
    → IsLeafInOrder l
    → get_elem? l.keys i ≡ some key
    → place_in true key id path l ≡ returned (record { leaf_id = id; index = i; path = path })
unfolding place_in Comparator.find
place-found key id i path l o h =
    let at_i : lower_bound l.keys key ≡ i =
      lower_bound-Separates l.keys i key (ascending-IsSorted l.keys o.0)
        (ascending-Separates l.keys i key o.0 h) in
    let inside = inside-get_elem l.keys i key h in
    let tested : test_at (λ k. equal k key) l.keys i ≡ true =
      test_at-some (λ k. equal k key) l.keys i key h ∙ equal_self key in
    let outside : leb l.node.page.key_count i ≡ false = rw o.2 (ground arith) in
    rw (at_i, inside, tested, outside) (rw (h, equal_self key) refl)

is_same-eq : (s : Sign) → is_same s ≡ true → s ≡ same
is_same-eq same h = refl
is_same-eq below h = cc
is_same-eq above h = cc

found_in-keys :
    (key : Key) (keys : List Key)
    → (get_elem? keys (Comparator.find keys key) ≡ some key)
      ⊎ (Comparator.find keys key ≡ length keys)
unfolding Comparator.find
found_in-keys key keys =
    let pos = lower_bound keys key in
    let test = test_at (λ k. equal k key) keys pos in
    elim (Option-cases (get_elem? keys pos)) [
      | inl nothing ↦ rw (test_at-none (λ k. equal k key) keys pos nothing) (inr (ground arith))
      | inr (k, e) ↦ elim (Bool-cases (equal k key)) [
        | inr differs ↦
            rw (test_at-some (λ k. equal k key) keys pos k e, differs) (inr (ground arith))
        | inl equals ↦
            let k_key : k ≡ key = compare-same k key (is_same-eq (compare k key) equals) in
            let inside = inside-get_elem keys pos k e in
            rw (test_at-some (λ k. equal k key) keys pos k e, equals, inside)
              (inl (e ∙ ap some k_key))
      ]
    ]

place_ends :
    (key : Key) (id : ℕ) (path : SearchPath) (l : LeafNode)
    → IsLeafInOrder l
    → ((i : ℕ) × (get_elem? l.keys i ≡ some key))
      ⊎ (place_in true key id path l ≡ failed invalid_argument)
unfolding place_in
place_ends key id path l o = elim (found_in-keys key l.keys) [
  | inl found ↦ inl (Comparator.find l.keys key, found)
  | inr missed ↦
      let over : leb (length l.keys) (length l.keys) ≡ true = ground arith in
      rw (missed, o.2, over) (inr refl)
]

-- The end of `find`, after the descent.
abbrev pub read : BTree → Place → Outcome PageReference
read t place = leaf t place.leaf_id >>= λ l. at l.refs place.index

read-place :
    (t : BTree) (id i : ℕ) (path : SearchPath) (l : LeafNode) (ref : PageReference)
    → lookup id t.leaves ≡ some l
    → get_elem? l.refs i ≡ some ref
    → read t (record { leaf_id = id; index = i; path = path }) ≡ returned ref
unfolding leaf
read-place t id i path l ref h e = rw (h, e) refl

pub read-Entry :
    (depth fuel : ℕ) (t : BTree) (key : Key) (ref : PageReference) (id : ℕ) (path : SearchPath)
    → IsSearchTree t depth id
    → depth ≤ fuel
    → Entry t key ref id
    → (descend_from fuel t true key id path >>= read t) ≡ returned ref
unfolding IsSearchTree
read-Entry zero fuel t key ref id path (l, h, o) f (in_leaf _ i m k e r) =
    let same_leaf : m ≡ l = some_eq k h in
    let e' : get_elem? l.keys i ≡ some key = rw same_leaf at e in
    let r' : get_elem? l.refs i ≡ some ref = rw same_leaf at r in
    rw (descend-leaf fuel t true key id path l h, place-found key id i path l o e')
      (read-place t id i path l ref h r')
read-Entry zero fuel t key ref id path (l, h, o) f (in_child _ i node child k e r entry) = cc
read-Entry (suc depth) fuel t key ref id path s f (in_leaf _ i m k e r) = let h = s.1 in cc
read-Entry (suc depth) zero t key ref id path s f (in_child _ i m child k e r entry) =
    absurd (omega arith)
read-Entry (suc depth) (suc fuel) t key ref id path (node, h, q, sorted, count, under) f
      (in_child _ i m child k e r entry) =
    let same_node : m ≡ node = some_eq e q in
    let r' : get_elem? node.children i ≡ some child = rw same_node at r in
    let facts = under i child r' in
    let at_i = lower_bound-Separates node.keys i key sorted (facts.2 key ref entry) in
    let r_at : get_elem? node.children (lower_bound node.keys key) ≡ some child = rw at_i r' in
    rw (descend-internal fuel t true key id path node child h q r_at facts.0) (
      read-Entry depth fuel t key ref child.page_id (longer id node key path) facts.1 (omega arith)
        entry)

pub read_ends :
    (depth fuel : ℕ) (t : BTree) (key : Key) (id : ℕ) (path : SearchPath)
    → IsSearchTree t depth id
    → depth ≤ fuel
    → ((ref : PageReference) × ((descend_from fuel t true key id path >>= read t) ≡ returned ref)
        × Entry t key ref id)
      ⊎ ((descend_from fuel t true key id path >>= read t) ≡ failed invalid_argument)
unfolding IsSearchTree
read_ends zero fuel t key id path (l, h, o) f = elim (place_ends key id path l o) [
  | inr missed ↦ inr (rw (descend-leaf fuel t true key id path l h, missed) refl)
  | inl (i, e) ↦
      let inside = inside-get_elem l.keys i key e in
      let (ref, r) = get_elem-inside l.refs i (ground arith) in
      inl (
        ref,
        rw (descend-leaf fuel t true key id path l h, place-found key id i path l o e)
            (read-place t id i path l ref h r),
        in_leaf id i l h e r,
      )
]
read_ends (suc depth) zero t key id path s f = absurd (omega arith)
read_ends (suc depth) (suc fuel) t key id path (node, h, q, sorted, count, under) f =
    let pos = lower_bound node.keys key in
    let low = (lower_bound-test_at node.keys key sorted).0 in
    let (child, r) = get_elem-inside node.children pos (omega arith) in
    let facts = under pos child r in
    rw (descend-internal fuel t true key id path node child h q r facts.0)
      (elim (read_ends depth fuel t key child.page_id (longer id node key path) facts.1
        (omega arith)) [
          | inr missed ↦ inr missed
          | inl (ref, e, entry) ↦ inl (ref, e, in_child id pos node child h q r entry)
        ])
