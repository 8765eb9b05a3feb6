-- ===== src/Btree/Tree/Shape.antt =====
-- The shape that the nodes of a tree in BTree.cpp have after every call: as many references or children as
-- there should be, the page's count of keys, and no more keys than the page's capacity.
use quartz_database_c.Prelude.{
  ℕ, ◌+◌, ◌≤◌, ◌≡◌, List, [], ◌∷◌, length, set, ltb, ◌==◌, insert_at, erase_at, All, arith, ◌∙◌,
  refl, Bool-cases, inl, inr, length-insert_at, ap, sym, length-erase_at,
}
use quartz_database_c.Status.{Code, ok, err, Result-cases}
use quartz_database_c.Outcome.{or_throw}
use quartz_database_c.Outcome.Action.Invariant.{Gives}
use quartz_database_c.Format.{PageReference}
use quartz_database_c.Btree.Key.{Key}
use quartz_database_c.Btree.Node.{
  Node, NodeType, leaf, internal, NodeConfig, sync_header, initialize_header, write_header,
  max_body_bytes, set_key_count, write_entry_area,
}
use quartz_database_c.Serialization.Buffer.{empty_buffer}
use quartz_database_c.Serialization.Writer.{open_writer}
use quartz_database_c.Btree.Comparator.{lower_bound}
use quartz_database_c.Btree.Leaf
use quartz_database_c.Btree.Leaf.{LeafNode}
use quartz_database_c.Btree.Internal
use quartz_database_c.Btree.Internal.{InternalNode}
use quartz_database_c.Btree.Internal.Children.{length-set}
use quartz_database_c.Btree.Tree.{BTree, lookup, replace, remove}

-- A page's count and capacity are right for so many keys.
abbrev pub Counts : Node → ℕ → Type 0
Counts n count = (n.page.key_count ≡ count) × (count ≤ n.page.capacity)

abbrev pub IsWholeLeaf : LeafNode → Type 0
IsWholeLeaf l = (length l.refs ≡ length l.keys) × Counts l.node (length l.keys)

abbrev pub IsWholeInternal : InternalNode → Type 0
IsWholeInternal i = (length i.children ≡ length i.keys + 1) × Counts i.node (length i.keys)

module _ {V : Type 0} (P : V → Type 0) where
  abbrev pub AllNodes : List (ℕ × V) → Type 0
  AllNodes m = All (λ entry. P entry.1) m

  pub AllNodes-lookup : (id : ℕ) (m : List (ℕ × V)) → AllNodes m → Gives P (or_throw (lookup id m))
  unfolding lookup
  AllNodes-lookup id [] a = tt
  AllNodes-lookup id (entry ∷ m) a = elim (Bool-cases (entry.0 == id)) [
    | inl here ↦ rw here a.0
    | inr there ↦ rw there (AllNodes-lookup id m a.1)
  ]

  pub AllNodes-replace :
      (id : ℕ) (node : V) (m : List (ℕ × V)) → P node → AllNodes m → AllNodes (replace id node m)
  unfolding replace
  AllNodes-replace id node [] p a = tt
  AllNodes-replace id node (entry ∷ m) p a = elim (Bool-cases (entry.0 == id)) [
    | inl here ↦ rw here (p, a.1)
    | inr there ↦ rw there (a.0, AllNodes-replace id node m p a.1)
  ]

  pub AllNodes-remove : (id : ℕ) (m : List (ℕ × V)) → AllNodes m → AllNodes (remove id m)
  unfolding remove
  AllNodes-remove id [] a = tt
  AllNodes-remove id (entry ∷ m) a = elim (Bool-cases (entry.0 == id)) [
    | inl here ↦ rw here a.1
    | inr there ↦ rw there (a.0, AllNodes-remove id m a.1)
  ]

unfoldable pub IsWhole : BTree → Type 0
IsWhole t = AllNodes IsWholeLeaf t.leaves × AllNodes IsWholeInternal t.internals

ok_eq : {A : Type 0} {a b : A} → ok a ≡ ok b → a ≡ b
ok_eq e = cc

err_ok : {A : Type 0} {c : Code} {a : A} → err c ≡ ok a → ⊥
err_ok e = cc

sync_header-Counts :
    (n m : Node)
    → sync_header n ≡ ok m
    → (m.page.key_count ≡ n.page.key_count) × (m.page.capacity ≡ n.page.capacity)
unfolding sync_header
sync_header-Counts n m h =
    elim (Bool-cases (ltb max_body_bytes (write_header n (open_writer empty_buffer)).offset)) [
      | inl over ↦ absurd (err_ok (rw over at h))
      | inr fits ↦
          let e = ok_eq (rw fits at h) in
          (ap (λ n. n.page.key_count) (sym e), ap (λ n. n.page.capacity) (sym e))
    ]

leaf_synced : (l : LeafNode) → IsWholeLeaf l → IsWholeLeaf (Leaf.sync_entries l).0
unfolding Leaf.sync_entries Leaf.sync_area set_key_count write_entry_area
leaf_synced l h = elim (Result-cases (sync_header l.node)) [
  | inr (c, e) ↦ rw (e, Leaf.sync_entries) h
  | inl (n, e) ↦ rw (e, Leaf.sync_entries) (ground (arith, sync_header-Counts l.node n e))
]

internal_synced :
    (i : InternalNode) → IsWholeInternal i → IsWholeInternal (Internal.sync_entries i).0
unfolding Internal.sync_entries Internal.sync_area set_key_count write_entry_area
internal_synced i h = elim (Result-cases (sync_header i.node)) [
  | inr (c, e) ↦ rw (e, Internal.sync_entries) h
  | inl (n, e) ↦ rw (e, Internal.sync_entries) (ground (arith, sync_header-Counts i.node n e))
]

leaf_entries :
    (l : LeafNode) (keys : List Key) (refs : List PageReference)
    → length refs ≡ length keys
    → length keys ≤ l.node.page.capacity
    → IsWholeLeaf (Leaf.sync_entries (Leaf.with_entries l keys refs)).0
leaf_entries l keys refs e f =
    leaf_synced (Leaf.with_entries l keys refs)
      (unfold Leaf.with_entries set_key_count in (e, (refl, f)))

pub leaf-assign :
    (l : LeafNode) (keys : List Key) (refs : List PageReference)
    → IsWholeLeaf l
    → IsWholeLeaf (Leaf.assign_entries l keys refs).0
unfolding Leaf.assign_entries
leaf-assign l keys refs h = ground (arith, leaf_entries l keys refs)

pub leaf-erase : (l : LeafNode) (i : ℕ) → IsWholeLeaf l → IsWholeLeaf (Leaf.erase_entry l i).0
unfolding Leaf.erase_entry
leaf-erase l i h = ground (
  arith,
  leaf_entries l (erase_at l.keys i) (erase_at l.refs i),
  length-erase_at l.keys i,
  length-erase_at l.refs i,
)

pub leaf-insert :
    (l : LeafNode) (key : Key) (ref : PageReference)
    → IsWholeLeaf l
    → IsWholeLeaf (Leaf.insert l key ref).0
unfolding Leaf.insert
leaf-insert l key ref h =
    let pos = lower_bound l.keys key in
    ground (
      arith,
      leaf_entries l (insert_at l.keys pos key) (insert_at l.refs pos ref),
      length-insert_at l.keys pos key,
      length-insert_at l.refs pos ref,
    )

internal_entries :
    (i : InternalNode) (keys : List Key) (children : List PageReference)
    → length children ≡ length keys + 1
    → length keys ≤ i.node.page.capacity
    → IsWholeInternal (Internal.sync_entries (Internal.with_entries i keys children)).0
internal_entries i keys children e f =
    internal_synced (Internal.with_entries i keys children)
      (unfold Internal.with_entries set_key_count in (e, (refl, f)))

pub internal-assign :
    (i : InternalNode) (keys : List Key) (children : List PageReference)
    → IsWholeInternal i
    → IsWholeInternal (Internal.assign_entries i keys children).0
unfolding Internal.assign_entries
internal-assign i keys children h = ground (arith, internal_entries i keys children)

pub internal-erase :
    (i : InternalNode) (index : ℕ)
    → IsWholeInternal i
    → IsWholeInternal (Internal.erase_entry i index).0
unfolding Internal.erase_entry
internal-erase i index h = ground (
  arith,
  internal_entries i (erase_at i.keys index) (erase_at i.children (index + 1)),
  length-erase_at i.keys index,
  length-erase_at i.children (index + 1),
)

pub internal-insert :
    (i : InternalNode) (index : ℕ) (key : Key) (child : PageReference)
    → IsWholeInternal i
    → IsWholeInternal (Internal.insert i index key child).0
unfolding Internal.insert
internal-insert i index key child h = ground (
  arith,
  internal_entries i (insert_at i.keys index key) (insert_at i.children (index + 1) child),
  length-insert_at i.keys index key,
  length-insert_at i.children (index + 1) child,
)

pub internal-set_key :
    (i : InternalNode) (index : ℕ) (key : Key)
    → IsWholeInternal i
    → IsWholeInternal (Internal.set_key i index key).0
unfolding Internal.set_key
internal-set_key i index key h =
    ground (
      arith,
      internal_synced (record i { keys = set i.keys index key }),
      length-set i.keys index key,
    )

header_or :
    (f : Node)
    → f.page.key_count ≡ 0
    → (n : Node) → n ≡ (elim (sync_header f) [ ok synced ↦ synced | err c ↦ f ])
    → n.page.key_count ≡ 0
header_or f h m e' = elim (Result-cases (sync_header f)) [
  | inl (n, e) ↦ let e'' : m ≡ n = (rw e at e') in rw e'' ((sync_header-Counts f n e).0 ∙ h)
  | inr (c, e) ↦ let e'' : m ≡ f = (rw e at e') in rw e'' h
]

initialize_header_empty :
    (n : Node) (type : NodeType) (config : NodeConfig)
    → (initialize_header n type config).page.key_count ≡ 0
unfolding initialize_header
initialize_header_empty n type config = header_or _ refl _ refl

pub leaf-create : (n : Node) (config : NodeConfig) → IsWholeLeaf (Leaf.create n config)
unfolding Leaf.create
leaf-create n config = (refl, (initialize_header_empty n leaf config, omega arith))

pub internal-create : (n : Node) (config : NodeConfig) → IsWholeInternal (Internal.create n config)
unfolding Internal.create
internal-create n config = (refl, (initialize_header_empty n internal config, omega arith))
