-- ===== src/Btree/Tree/Search/Depth.antt =====
-- A search tree is no deeper than it has internal nodes, so the descent's fuel is enough; what `find` of
-- BTree.cpp gives.
use quartz_database_c.Prelude.{
  ℕ, zero, suc, ◌≤◌, ◌≡◌, ◌≢◌, ◌↔◌, ◌⊎◌, inl, inr, false, some, List, [], ◌∷◌, length, get_elem?,
  ◌==◌, All, arith, refl, ap, Bool-cases, ==→eq,
}
use quartz_database_c.Status.{invalid_argument}
use quartz_database_c.Outcome.{Outcome, returned, failed}
use quartz_database_c.Format.{PageReference}
use quartz_database_c.Btree.Key.{Key}
use quartz_database_c.Btree.Tree.{BTree, lookup, remove, is_empty}
use quartz_database_c.Btree.Tree.Search.{descend_to_leaf, find}
use quartz_database_c.Btree.Tree.Search.Entry.{Entry, IsSearchTree}
use quartz_database_c.Btree.Tree.Search.Found.{read-Entry, read_ends, get_elem-inside}

module _ {V : Type 0} where
  length-remove :
      (id : ℕ) (node : V) (m : List (ℕ × V))
      → lookup id m ≡ some node
      → suc (length (remove id m)) ≡ length m
  unfolding lookup remove
  length-remove id node [] h = cc
  length-remove id node (entry ∷ m) h = elim (Bool-cases (entry.0 == id)) [
    | inl here ↦ rw here refl
    | inr there ↦ rw there (ap suc (length-remove id node m (rw there at h)))
  ]

  lookup-remove :
      (id other : ℕ) (node : V) (m : List (ℕ × V))
      → other ≢ id
      → lookup other m ≡ some node
      → lookup other (remove id m) ≡ some node
  unfolding lookup remove
  lookup-remove id other node [] d h = cc
  lookup-remove id other node (entry ∷ m) d h = elim (Bool-cases (entry.0 == id)) [
    | inl here ↦
        let e : entry.0 ≡ id = ==→eq entry.0 id here in
        let differs : (entry.0 == other) ≡ false = ground arith in rw here (rw differs at h)
    | inr there ↦ elim (Bool-cases (entry.0 == other)) [
      | inl found ↦ rw (there, found) (rw found at h)
      | inr later ↦ rw (there, later) (lookup-remove id other node m d (rw later at h))
    ]
  ]

  -- The ids of a list are different and all have a node.
  abbrev AreNodes : List (ℕ × V) → List ℕ → Type 0
  AreNodes m [] = Unit {0}
  AreNodes m (id ∷ ids) =
      ((node : V) × (lookup id m ≡ some node)) × All (λ other. other ≢ id) ids × AreNodes m ids

  AreNodes-remove :
      (m : List (ℕ × V)) (id : ℕ) (ids : List ℕ)
      → All (λ other. other ≢ id) ids
      → AreNodes m ids
      → AreNodes (remove id m) ids
  AreNodes-remove m id [] d a = tt
  AreNodes-remove m id (other ∷ ids) d a =
      ((a.0.0, lookup-remove id other a.0.0 m d.0 a.0.1), a.1, AreNodes-remove m id ids d.1 a.2)

  length-AreNodes : (ids : List ℕ) (m : List (ℕ × V)) → AreNodes m ids → length ids ≤ length m
  length-AreNodes [] m a = omega arith
  length-AreNodes (id ∷ ids) m a = omega (
    arith,
    length-remove id a.0.0 m a.0.1,
    length-AreNodes ids (remove id m) (AreNodes-remove m id ids a.1 a.2),
  )

-- A page is the root of a search tree of one depth only.
depth_unique : (d e : ℕ) (t : BTree) (id : ℕ) → IsSearchTree t d id → IsSearchTree t e id → d ≡ e
unfolding IsSearchTree
depth_unique zero zero t id s r = refl
depth_unique zero (suc e) t id s r = let h = s.1 in let k = r.1 in cc
depth_unique (suc d) zero t id s r = let h = s.1 in let k = r.1 in cc
depth_unique (suc d) (suc e) t id (node, h, q, sorted, count, under)
      (node', h', q', sorted', count', under') =
    let (child, r) = get_elem-inside node.children 0 (omega arith) in
    let same_node : node ≡ node' = cc in
    let r' : get_elem? node'.children 0 ≡ some child = rw same_node at r in
    ap suc (depth_unique d e t child.page_id (under 0 child r).1 (under' 0 child r').1)

-- All pages of a list are roots of search trees of a depth from 1 to a bound.
abbrev AreShallow : ℕ → BTree → List ℕ → Type 0
AreShallow d t = All (λ i. (e : ℕ) × (e ≤ d) × IsSearchTree t e i)

AreShallow-deeper :
    (d : ℕ) (t : BTree) (ids : List ℕ) → AreShallow d t ids → AreShallow (suc d) t ids
AreShallow-deeper d t [] a = tt
AreShallow-deeper d t (i ∷ ids) a = ((a.0.0, omega arith, a.0.2), AreShallow-deeper d t ids a.1)

AreShallow-not :
    (d : ℕ) (t : BTree) (id : ℕ) (ids : List ℕ)
    → IsSearchTree t (suc d) id
    → AreShallow d t ids
    → All (λ other. other ≢ id) ids
AreShallow-not d t id [] s a = tt
AreShallow-not d t id (i ∷ ids) s a = (
  λ e.
      (let here : IsSearchTree t a.0.0 id = rw e at a.0.2 in
        let depths = depth_unique (suc d) a.0.0 t id s here in absurd (omega arith)),
  AreShallow-not d t id ids s a.1,
)

-- The internal nodes on the way down the first children.
spine :
    (d : ℕ) (t : BTree) (id : ℕ)
    → IsSearchTree t d id
    → (ids : List ℕ) × (length ids ≡ d) × AreNodes t.internals ids × AreShallow d t ids
unfolding IsSearchTree
spine zero t id s = ([], refl, tt, tt)
spine (suc d) t id s =
    let (node, h, q, sorted, count, under) = s in
    let (child, r) = get_elem-inside node.children 0 (omega arith) in
    let (ids, e, nodes, depths) = spine d t child.page_id (under 0 child r).1 in
    (
      id ∷ ids,
      ap suc e,
      ((node, q), AreShallow-not d t id ids s depths, nodes),
      ((suc d, omega arith, s), AreShallow-deeper d t ids depths),
    )

-- A search tree is no deeper than the tree has internal nodes.
pub depth_bounded : (d : ℕ) (t : BTree) (id : ℕ) → IsSearchTree t d id → d ≤ length t.internals
depth_bounded d t id s =
    let (ids, e, nodes, depths) = spine d t id s in
    omega (arith, length-AreNodes ids t.internals nodes)

returned_eq : {A : Type 0} {a b : A} {o : Outcome A} → o ≡ returned a → o ≡ returned b → a ≡ b
returned_eq h k = cc

returned_not_failed :
    {A : Type 0} {a : A} {o : Outcome A} → o ≡ returned a → o ≡ failed invalid_argument → ⊥
returned_not_failed h k = cc

-- In a tree that is not empty and a search tree of any depth, `find` gives a reference exactly when the key
-- has that reference in a leaf.
pub find-Entry :
    (t : BTree) (depth : ℕ) (key : Key) (ref : PageReference)
    → is_empty t ≡ false
    → IsSearchTree t depth t.root_id
    → (find t key ≡ returned ref) ↔ Entry t key ref t.root_id
unfolding find descend_to_leaf
find-Entry t depth key ref e s =
    let deep = depth_bounded depth t t.root_id s in
    let found = read-Entry depth (length t.internals) t key in
    rw e (
      λ given. elim (read_ends depth (length t.internals) t key t.root_id [] s deep) [
        | inl (other, gives, entry) ↦
            let here : other ≡ ref = returned_eq gives given in rw here at entry
        | inr missed ↦ absurd (returned_not_failed given missed)
      ],
      λ entry. found ref t.root_id [] s deep entry,
    )

-- In a search tree of any depth, `find` ends: the descent reaches a leaf in no more steps than there are
-- internal nodes, and it gives a reference that is in the leaf with the key, or refuses with
-- `invalid_argument`; it throws nothing and finds no corruption.
pub find_ends :
    (t : BTree) (depth : ℕ) (key : Key)
    → IsSearchTree t depth t.root_id
    → ((ref : PageReference) × (find t key ≡ returned ref) × Entry t key ref t.root_id)
      ⊎ (find t key ≡ failed invalid_argument)
unfolding find descend_to_leaf
find_ends t depth key s = elim (Bool-cases (is_empty t)) [
  | inl nothing ↦ rw nothing (inr refl)
  | inr something ↦ rw something (
      read_ends depth (length t.internals) t key t.root_id [] s (depth_bounded depth t t.root_id s))
]
