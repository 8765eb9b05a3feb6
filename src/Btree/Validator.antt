-- ===== src/Btree/Validator.antt =====
-- btree/TreeValidator.cpp and NodeValidator.cpp. The recursion has fuel: a tree with a cycle repeats its
-- bounds after a round, so three times the count of the internal nodes is enough.
pub mod Bounds
use quartz_database_c.Prelude.{
  ℕ, zero, suc, ◌+◌, ◌*◌, Bool, true, false, not, ◌&&◌, ◌||◌, Option, none, some, List, [], ◌∷◌,
  length, ◌==◌, if◌then◌else◌,
}
use quartz_database_c.Status.{Status, ok, err, success, corruption, ◌>>◌}
use quartz_database_c.Outcome.{Outcome, returned, failed, thrown, endless, of_status}
use quartz_database_c.Outcome.Action
use quartz_database_c.Outcome.Action.{Action, reads, fail, branch}
use quartz_database_c.Format
use quartz_database_c.Format.{PageReference, is_valid}
use quartz_database_c.Serialization.Reader.{BinaryReader}
use quartz_database_c.Btree.Key
use quartz_database_c.Btree.Key.{Key, less}
use quartz_database_c.Btree.Node.{NodeConfig, NodeType, leaf, internal}
use quartz_database_c.Btree.Leaf
use quartz_database_c.Btree.Leaf.{LeafNode}
use quartz_database_c.Btree.Internal
use quartz_database_c.Btree.Internal.{InternalNode}
use quartz_database_c.Btree.Tree
use quartz_database_c.Btree.Tree.{BTree, is_leaf, is_internal, is_empty, lookup}

-- The loop of `validateSerializedBody`.
pub validate_entries : ℕ → ℕ → BinaryReader → Status
validate_entries zero binary_key_size r = success
validate_entries (suc count) binary_key_size r = elim (Key.deserialize binary_key_size r) [
  | err c ↦ err c
  | ok k ↦ elim (Format.read k.1) [
    | err c ↦ err c
    | ok p ↦ validate_entries count binary_key_size p.1
  ]
]

pub validate_serialized_body : BinaryReader → NodeConfig → NodeType → ℕ → Status
validate_serialized_body r config leaf count = validate_entries count config.binary_key_size r
validate_serialized_body r config internal count = elim (Format.read r) [
  | err c ↦ err c
  | ok p ↦ validate_entries count config.binary_key_size p.1
]

-- `minKey`, `maxKey` and the key before; a bound that is not there does not exclude a key.
abbrev pub is_less_than : Key → Option Key → Bool
is_less_than key none = false
is_less_than key (some bound) = less key bound

abbrev pub is_not_less_than : Key → Option Key → Bool
is_not_less_than key none = false
is_not_less_than key (some bound) = not (less key bound)

abbrev pub is_greater_than : Key → Option Key → Bool
is_greater_than key none = false
is_greater_than key (some bound) = less bound key

-- The loop of `validateLeafRange`, and that over the keys of an internal node.
unfoldable pub check_leaf_keys : Option Key → Option Key → Option Key → List Key → Status
check_leaf_keys lo hi before [] = success
check_leaf_keys lo hi before (k ∷ ks) =
    let rest = check_leaf_keys lo hi (some k) ks in
    if is_less_than k lo || is_not_less_than k hi || is_less_than k before
    then err corruption
    else rest

unfoldable pub check_internal_keys : Option Key → Option Key → Option Key → List Key → Status
check_internal_keys lo hi before [] = success
check_internal_keys lo hi before (k ∷ ks) =
    let rest = check_internal_keys lo hi (some k) ks in
    if is_less_than k lo || is_greater_than k hi || is_less_than k before
    then err corruption
    else rest

unfoldable pub validate_leaf_range : LeafNode → Option Key → Option Key → Status
validate_leaf_range l lo hi = Leaf.validate l >> check_leaf_keys lo hi none l.keys

-- The state is `leafDepth`, 0 before the first leaf.
unfoldable pub check_depth : ℕ → Action ℕ (Unit {0})
check_depth depth leaf_depth =
    if leaf_depth == 0
    then (returned tt, depth)
    else if not (leaf_depth == depth)
    then (failed corruption, leaf_depth)
    else (returned tt, leaf_depth)

-- The loop over the children; `sub` is `validateSubtree` one level down.
unfoldable pub validate_children :
    (ℕ → Option Key → Option Key → Action ℕ (Unit {0}))
    → Option Key
    → Option Key
    → List Key
    → List PageReference
    → Action ℕ (Unit {0})
validate_children sub lo hi keys [] = reads (λ depth. thrown)
validate_children sub lo hi [] (c ∷ cs) =
    branch (is_valid c) (sub c.page_id lo hi) (fail corruption)
validate_children sub lo hi (k ∷ ks) (c ∷ cs) =
    branch (is_valid c)
      (Action.◌>>◌ (sub c.page_id lo (some k)) (validate_children sub (some k) hi ks cs))
      (fail corruption)

unfoldable pub validate_internal_node :
    (ℕ → Option Key → Option Key → Action ℕ (Unit {0}))
    → InternalNode
    → Option Key
    → Option Key
    → Action ℕ (Unit {0})
validate_internal_node sub node lo hi =
    Action.◌>>◌
      (reads
        (λ depth. of_status (Internal.validate node >> check_internal_keys lo hi none node.keys)))
      (validate_children sub lo hi node.keys node.children)

unfoldable pub validate_leaf : ℕ → LeafNode → Option Key → Option Key → Action ℕ (Unit {0})
validate_leaf depth l lo hi =
    Action.◌>>◌ (check_depth depth) (reads (λ leaf_depth. of_status (validate_leaf_range l lo hi)))

-- A page that is a leaf, or an internal node, which `inner` validates.
unfoldable pub validate_page :
    BTree
    → ℕ
    → ℕ
    → Option Key
    → Option Key
    → (InternalNode → Action ℕ (Unit {0}))
    → Action ℕ (Unit {0})
validate_page t depth id lo hi inner = elim (lookup id t.leaves) [
  | some l ↦ validate_leaf depth l lo hi
  | none ↦ elim (lookup id t.internals) [ none ↦ fail corruption | some node ↦ inner node ]
]

unfoldable pub validate_subtree : ℕ → BTree → ℕ → ℕ → Option Key → Option Key → Action ℕ (Unit {0})
validate_subtree zero t depth id lo hi =
    validate_page t depth id lo hi (λ node. reads (λ leaf_depth. endless))
validate_subtree (suc fuel) t depth id lo hi =
    validate_page t depth id lo hi
      (λ node. validate_internal_node (validate_subtree fuel t (depth + 1)) node lo hi)

unfoldable pub validate : BTree → Outcome (Unit {0})
validate t =
    if is_empty t
    then returned tt
    else if not (is_leaf t t.root_id) && not (is_internal t t.root_id)
    then failed corruption
    else (validate_subtree (3 * length t.internals) t 1 t.root_id none none 0).0
