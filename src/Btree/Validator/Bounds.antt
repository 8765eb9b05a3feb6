-- ===== src/Btree/Validator/Bounds.antt =====
-- What TreeValidator.cpp and NodeValidator.cpp accept.
use quartz_database_c.Prelude.{
  ℕ, zero, suc, ◌+◌, ◌≤◌, ◌≡◌, Bool, true, false, not, ◌||◌, Option, none, some, List, [], ◌∷◌,
  length, get_elem?, if◌then◌else◌, All, arith, refl, sym, Bool-cases, inl, inr,
}
use quartz_database_c.Status.{Status, Code, ok, err, corruption, Result-cases, ◌>>◌}
use quartz_database_c.Outcome.{returned, of_status}
use quartz_database_c.Outcome.Action.{Action}
use quartz_database_c.Outcome.Action.Success.{
  Ensures, ensured, ensures-seq, ensures-reads, ensures_weaken, ensures_known, ensures_or_fail,
}
use quartz_database_c.Format
use quartz_database_c.Format.{PageReference, is_valid}
use quartz_database_c.Serialization.Reader.{BinaryReader}
use quartz_database_c.Btree.Key
use quartz_database_c.Btree.Key.{Key, less, less_equal}
use quartz_database_c.Btree.Key.Order.{less_equal-less, less_equal-not}
use quartz_database_c.Btree.Node.{NodeConfig, NodeType, leaf, internal}
use quartz_database_c.Btree.Node
use quartz_database_c.Btree.Rebalance.Calls.{inside_some}
use quartz_database_c.Btree.Leaf
use quartz_database_c.Btree.Leaf.{LeafNode, read_entries}
use quartz_database_c.Btree.Internal
use quartz_database_c.Btree.Internal.{InternalNode, read_body}
use quartz_database_c.Btree.Tree.{BTree}
use quartz_database_c.Btree.Tree.Search.Entry.{Entry, in_leaf, in_child}
use quartz_database_c.Btree.Validator.{
  validate_entries, validate_serialized_body, is_less_than, is_not_less_than, is_greater_than,
  check_leaf_keys, check_internal_keys, validate_leaf_range, validate_children,
  validate_internal_node, validate_leaf, validate_page, validate_subtree,
}

validate_entries-read_entries :
    (count size : ℕ) (r : BinaryReader)
    → validate_entries count size r ≡ (read_entries count size r).2
unfolding validate_entries read_entries
validate_entries-read_entries zero size r = refl
validate_entries-read_entries (suc count) size r = elim (Result-cases (Key.deserialize size r)) [
  | inr (c, e) ↦ rw (e, validate_entries, read_entries) refl
  | inl (k, e) ↦ elim (Result-cases (Format.read k.1)) [
    | inr (c, e') ↦ rw (e, e', validate_entries, read_entries) refl
    | inl (p, e') ↦
        rw (e, e', validate_entries, read_entries) (validate_entries-read_entries count size p.1)
  ]
]

-- `validateSerializedBody` gives the status of the loop that reads the same body into a leaf or an internal
-- node: it accepts exactly the bodies that can be read.
pub validate_serialized_body_reads :
    (r : BinaryReader) (config : NodeConfig) (count : ℕ)
    → (validate_serialized_body r config leaf count
        ≡ (read_entries count config.binary_key_size r).2)
      × (validate_serialized_body r config internal count
          ≡ (read_body count config.binary_key_size r).2)
unfolding validate_serialized_body read_body
validate_serialized_body_reads r config count = (
  validate_entries-read_entries count config.binary_key_size r,
  elim (Result-cases (Format.read r)) [
    | inr (c, e) ↦ rw (e, validate_serialized_body, read_body) refl
    | inl (p, e) ↦
        rw (e, validate_serialized_body, read_body)
          (validate_entries-read_entries count config.binary_key_size p.1)
  ],
)

-- A key is not below the one bound and is below the other.
abbrev pub InBounds : Option Key → Option Key → Key → Type 0
InBounds lo hi key = (is_less_than key lo ≡ false) × (is_not_less_than key hi ≡ false)

abbrev Within : Option Key → Option Key → Key → Type 0
Within lo hi key = (is_less_than key lo ≡ false) × (is_greater_than key hi ≡ false)

accepted :
    (a b c : Bool) (e : Code) (st : Status)
    → (if a || b || c then err e else st) ≡ ok tt
    → (a ≡ false) × (b ≡ false) × (st ≡ ok tt)
accepted true b c e st h = cc
accepted false true c e st h = cc
accepted false false true e st h = cc
accepted false false false e st h = (refl, refl, h)

leaf_keys_inside :
    (lo hi before : Option Key) (keys : List Key) (i : ℕ) (key : Key)
    → check_leaf_keys lo hi before keys ≡ ok tt
    → get_elem? keys i ≡ some key
    → InBounds lo hi key
unfolding check_leaf_keys
leaf_keys_inside lo hi before [] i key h e = cc
leaf_keys_inside lo hi before (k ∷ ks) zero key h e =
    let one : k ≡ key = cc in let facts = accepted _ _ _ _ _ h in rw (sym one) (facts.0, facts.1)
leaf_keys_inside lo hi before (k ∷ ks) (suc i) key h e =
    let facts =
      accepted (is_less_than k lo) (is_not_less_than k hi) (is_less_than k before) corruption _ h in
    leaf_keys_inside lo hi (some k) ks i key facts.2 e

internal_keys_inside :
    (lo hi before : Option Key) (keys : List Key)
    → check_internal_keys lo hi before keys ≡ ok tt
    → All (Within lo hi) keys
unfolding check_internal_keys
internal_keys_inside lo hi before [] h = tt
internal_keys_inside lo hi before (k ∷ ks) h =
    let facts = accepted _ _ _ _ _ h in
    ((facts.0, facts.1), internal_keys_inside lo hi (some k) ks facts.2)

both_ok : (s u : Status) → (s >> u) ≡ ok tt → u ≡ ok tt
both_ok (ok tt) u h = h
both_ok (err c) u h = cc

status_ok : (st : Status) → of_status st ≡ returned tt → st ≡ ok tt
status_ok (ok tt) h = refl
status_ok (err c) h = cc

true-false : {b : Bool} → b ≡ true → b ≡ false → ⊥
true-false p q = cc

not-false : (b : Bool) → not b ≡ false → b ≡ true
not-false true h = refl
not-false false h = cc

-- A separator between the bounds, and a key on one side of it.
above_separator :
    (lo : Option Key) (k key : Key)
    → is_less_than k lo ≡ false
    → less key k ≡ false
    → is_less_than key lo ≡ false
above_separator none k key h g = refl
above_separator (some bound) k key h g = elim (Bool-cases (less key bound)) [
  | inr b ↦ b
  | inl b ↦
      let le : less_equal k key ≡ true = rw (less_equal-not k key, g) refl in
      absurd (true-false (less_equal-less k key bound le b) h)
]

below_separator :
    (hi : Option Key) (k key : Key)
    → is_greater_than k hi ≡ false
    → not (less key k) ≡ false
    → is_not_less_than key hi ≡ false
below_separator none k key h g = refl
below_separator (some bound) k key h g = elim (Bool-cases (less key bound)) [
  | inl b ↦ rw b refl
  | inr b ↦
      let le : less_equal bound key ≡ true = rw (less_equal-not bound key, b) refl in
      absurd (true-false (less_equal-less bound key k le (not-false (less key k) g)) h)
]

-- A lower bound that the loop over the children has reached.
abbrev IsTighter : Option Key → Option Key → Type 0
IsTighter lo lo' = (key : Key) → is_less_than key lo' ≡ false → is_less_than key lo ≡ false

module _ (sub : ℕ → Option Key → Option Key → Action ℕ (Unit {0})) (lo hi : Option Key)
    (key : Key) where
  children_inside :
      (lo' : Option Key) (keys : List Key) (children : List PageReference) (i : ℕ)
      (child : PageReference) (d : ℕ)
      → IsTighter lo lo'
      → All (Within lo hi) keys
      → i ≤ length keys
      → get_elem? children i ≡ some child
      → ((a b : Option Key) (n : ℕ) → Ensures n (sub child.page_id a b) (λ _ _. InBounds a b key))
      → Ensures d (validate_children sub lo' hi keys children) (λ _ _. InBounds lo hi key)
  unfolding validate_children
  children_inside lo' keys [] i child d t w l e h = cc
  children_inside lo' [] (c ∷ cs) zero child d t w l e h =
      let one : c ≡ child = cc in
      rw one (ensures_or_fail _ _ (ensures_weaken (h lo' hi d) (λ _ _ b. (t key b.0, b.1))))
  children_inside lo' [] (c ∷ cs) (suc i) child d t w l e h = absurd (omega arith)
  children_inside lo' (k ∷ ks) (c ∷ cs) zero child d t w l e h =
      let one : c ≡ child = cc in
      rw one (
        ensures_or_fail _ _ (
          ensures-seq (
            ensures_weaken (h lo' (some k) d)
              (λ _ n b. ensures_known (λ _ _. (t key b.0, below_separator hi k key w.0.1 b.1))))))
  children_inside lo' (k ∷ ks) (c ∷ cs) (suc i) child d t w l e h = ensures_or_fail _ _ (
      ensures-seq (
        ensures_known (λ _ n.
          children_inside (some k) ks cs i child n (λ j g. above_separator lo k j w.0.0 g) w.1
            (omega arith) e h)))

leaf_inside :
    (l : LeafNode) (lo hi : Option Key) (i : ℕ) (key : Key)
    → of_status (validate_leaf_range l lo hi) ≡ returned tt
    → get_elem? l.keys i ≡ some key
    → InBounds lo hi key
unfolding validate_leaf_range
leaf_inside l lo hi i key h e =
    leaf_keys_inside lo hi none l.keys i key
      (both_ok (Leaf.validate l) _ (status_ok (validate_leaf_range l lo hi) h)) e

both_first : (s u : Status) → (s >> u) ≡ ok tt → s ≡ ok tt
both_first (ok tt) u h = refl
both_first (err c) u h = cc

one_more_child :
    (node : InternalNode)
    → Internal.validate node ≡ ok tt
    → length node.children ≡ length node.keys + 1
unfolding Internal.validate
one_more_child node h = let later = both_ok (Node.validate node.node) _ h in ground arith

subtree_key_inside :
    (fuel : ℕ) (t : BTree) (depth id d : ℕ) (lo hi : Option Key) (key : Key) (ref : PageReference)
    → Entry t key ref id
    → Ensures d (validate_subtree fuel t depth id lo hi) (λ _ _. InBounds lo hi key)
unfolding validate_subtree validate_page validate_leaf validate_internal_node
subtree_key_inside zero t depth id d lo hi key ref (in_leaf _ i l e k r) =
    rw (e, validate_subtree, validate_page)
      (ensures-seq (ensures_known (λ _ n. ensures-reads _ (λ _ h. leaf_inside l lo hi i key h k))))
subtree_key_inside (suc fuel) t depth id d lo hi key ref (in_leaf _ i l e k r) =
    rw (e, validate_subtree, validate_page)
      (ensures-seq (ensures_known (λ _ n. ensures-reads _ (λ _ h. leaf_inside l lo hi i key h k))))
subtree_key_inside zero t depth id d lo hi key ref (in_child _ i node child n e r entry) =
    rw (n, e, validate_subtree, validate_page) (ensures-reads _ (λ _ h. cc))
subtree_key_inside (suc fuel) t depth id d lo hi key ref (in_child _ i node child n e r entry) =
    rw (n, e, validate_subtree, validate_page)
      (ensures-seq (
        ensures-reads _ (λ _ h.
          let fine =
            status_ok (Internal.validate node >> check_internal_keys lo hi none node.keys) h in
          let counts = one_more_child node (both_first (Internal.validate node) _ fine) in
          let inside = inside_some node.children i child r in
          children_inside (validate_subtree fuel t (depth + 1)) lo hi key lo node.keys node.children
            i child d (λ j g. g)
            (internal_keys_inside lo hi none node.keys (both_ok (Internal.validate node) _ fine))
            (omega arith) r
            (λ a b n. subtree_key_inside fuel t (depth + 1) child.page_id n a b key ref entry))))

-- When `validateSubtree` accepts a page under two bounds, at whatever depth and with whatever depth of the
-- leaves, every key in a leaf below the page is not below the first bound and is below the second.
pub validate_subtree-InBounds :
    (fuel : ℕ) (t : BTree) (depth id leaf_depth leaf_depth' : ℕ) (lo hi : Option Key) (key : Key)
    (ref : PageReference)
    → validate_subtree fuel t depth id lo hi leaf_depth ≡ (returned tt, leaf_depth')
    → Entry t key ref id
    → InBounds lo hi key
validate_subtree-InBounds fuel t depth id leaf_depth leaf_depth' lo hi key ref h entry =
    ensured (subtree_key_inside fuel t depth id leaf_depth lo hi key ref entry) h
