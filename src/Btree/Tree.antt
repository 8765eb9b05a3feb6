-- ===== src/Btree/Tree.antt =====
-- btree/BTree.h, BTree.cpp, TreeStatistics.h and BTreeWalSink.h: the tree as a store of nodes under their
-- page ids. A reference to a node in C++ is its id here. A map is a list of pairs, a new one in front.
pub mod Search
pub mod Update
pub mod Shape
pub mod Invariant
pub mod Snapshot
use quartz_database_c.Prelude.{
  ℕ, ◌+◌, ◌-◌, ◌%◌, ◌^◌, Bool, true, false, Option, none, some, List, [], ◌∷◌, ◌==◌, if◌then◌else◌,
  replicate, zero,
}
use quartz_database_c.Status.{Status, success, Code, out_of_memory, corruption}
use quartz_database_c.Outcome.{Outcome, or_throw, of_status}
use quartz_database_c.Outcome.Action.{
  Action, ◌>>=◌, ◌>>◌, pure, reads, gets, modify, perform, fail_if, branch, fail,
}
use quartz_database_c.Format
use quartz_database_c.Format.{PageReference, make, invalid_page_id}
use quartz_database_c.Space.Manager
use quartz_database_c.Space.Manager.{SpaceManager}
use quartz_database_c.Btree.Key.{Key, u32_key}
use quartz_database_c.Btree.Node.{Node, NodeConfig, IndexPage, max_body_bytes}
use quartz_database_c.Btree.Leaf
use quartz_database_c.Btree.Leaf.{LeafNode}
use quartz_database_c.Btree.Internal
use quartz_database_c.Btree.Internal.{InternalNode}

-- The calls of the log sink.
pub data WalEvent : Type 0 where
  on_insert : Key → PageReference → WalEvent
  on_erase : Key → WalEvent
  on_page_allocate on_page_deallocate : ℕ → WalEvent
  on_node_split : ℕ → ℕ → Key → WalEvent
  on_node_merge : ℕ → ℕ → WalEvent

pub record TreeOperationStats : Type 0 where
  pub splits : ℕ
  pub merges : ℕ
  pub rotations : ℕ
  pub allocations : ℕ

abbrev pub no_operations : TreeOperationStats
no_operations = record { splits = 0; merges = 0; rotations = 0; allocations = 0 }

-- The sink answers a call by what it was called with before; `events` are the calls, the last in front.
pub record BTree : Type 0 where
  pub space : SpaceManager
  pub config : NodeConfig
  pub root_id : ℕ
  pub size : ℕ
  pub height : ℕ
  pub operations : TreeOperationStats
  pub wal_sink : Option (List WalEvent → WalEvent → Status)
  pub events : List WalEvent
  pub leaves : List (ℕ × LeafNode)
  pub internals : List (ℕ × InternalNode)

module _ {V : Type 0} where
  unfoldable pub lookup : ℕ → List (ℕ × V) → Option V
  lookup id [] = none
  lookup id (entry ∷ rest) =
      let later = lookup id rest in if entry.0 == id then some entry.1 else later

  unfoldable pub replace : ℕ → V → List (ℕ × V) → List (ℕ × V)
  replace id node [] = []
  replace id node (entry ∷ rest) =
      let later = replace id node rest in if entry.0 == id then (id, node) ∷ rest else entry ∷ later

  unfoldable pub remove : ℕ → List (ℕ × V) → List (ℕ × V)
  remove id [] = []
  remove id (entry ∷ rest) =
      let later = remove id rest in if entry.0 == id then rest else entry ∷ later

  abbrev pub is_some : Option V → Bool
  is_some none = false
  is_some (some node) = true

unfoldable pub is_leaf : BTree → ℕ → Bool
is_leaf t id = is_some (lookup id t.leaves)

unfoldable pub is_internal : BTree → ℕ → Bool
is_internal t id = is_some (lookup id t.internals)

-- `leaf(id)` and `internal(id)`.
unfoldable pub leaf : BTree → ℕ → Outcome LeafNode
leaf t id = or_throw (lookup id t.leaves)

unfoldable pub internal : BTree → ℕ → Outcome InternalNode
internal t id = or_throw (lookup id t.internals)

-- What a call does to a node of the tree that it has a reference to.
unfoldable pub set_leaf : ℕ → LeafNode → BTree → BTree
set_leaf id node t = record t { leaves = replace id node t.leaves }

unfoldable pub set_internal : ℕ → InternalNode → BTree → BTree
set_internal id node t = record t { internals = replace id node t.internals }

unfoldable pub on_leaf : ℕ → (LeafNode → LeafNode × Status) → Action BTree (Unit {0})
on_leaf id f = do
  node ← reads (λ t. leaf t id)
  modify (set_leaf id (f node).0)
  reads (λ t. of_status (f node).1)

unfoldable pub on_internal : ℕ → (InternalNode → InternalNode × Status) → Action BTree (Unit {0})
on_internal id f = do
  node ← reads (λ t. internal t id)
  modify (set_internal id (f node).0)
  reads (λ t. of_status (f node).1)

unfoldable pub is_empty : BTree → Bool
is_empty t = t.root_id == invalid_page_id

unfoldable pub set_root : ℕ → BTree → BTree
set_root id t = record t { root_id = id }

unfoldable pub set_height : ℕ → BTree → BTree
set_height height t = record t { height = height }

-- The type byte is `PageType::Index`.
unfoldable pub make_index_ref : ℕ → PageReference
make_index_ref id = make id 1 6

pub create : SpaceManager → NodeConfig → BTree
create space config = record {
  space = space;
  config = config;
  root_id = invalid_page_id;
  size = 0;
  height = 0;
  operations = no_operations;
  wal_sink = none;
  events = [];
  leaves = [];
  internals = [];
}

pub set_wal_sink : BTree → Option (List WalEvent → WalEvent → Status) → BTree
set_wal_sink t sink = record t { wal_sink = sink }

-- The `walOn…` functions.
unfoldable pub wal : WalEvent → Action BTree (Unit {0})
wal event = perform (λ t. elim t.wal_sink [
  | none ↦ (t, success)
  | some sink ↦ (record t { events = event ∷ t.events }, sink t.events event)
])

unfoldable pub record_split : BTree → BTree
record_split t = record t { operations = record t.operations { splits = t.operations.splits + 1 } }

unfoldable pub record_merge : BTree → BTree
record_merge t = record t { operations = record t.operations { merges = t.operations.merges + 1 } }

unfoldable pub record_rotation : BTree → BTree
record_rotation t = record t {
  operations = record t.operations { rotations = t.operations.rotations + 1 };
}

unfoldable pub record_allocation : BTree → BTree
record_allocation t = record t {
  operations = record t.operations { allocations = t.operations.allocations + 1 };
}

-- The node of a page that `IndexPage::create` has made.
pub blank_node : ℕ → Node
blank_node id = record {
  page = record {
    id = id;
    node_type = 0;
    key_count = 0;
    capacity = 0;
    flags = 0;
    reserved0 = 0;
    body = replicate max_body_bytes zero;
  };
  config = record { key_type = u32_key; binary_key_size = 0; allow_duplicates = false; level = 0 };
  parent = Format.invalid;
}

unfoldable pub allocate_page : Action BTree ℕ
allocate_page t =
    let (space, id) = Manager.allocate_page t.space in pure id (record t { space = space })

unfoldable pub allocate_leaf : ℕ → Action BTree ℕ
allocate_leaf level = do
  id ← allocate_page
  fail_if (id == invalid_page_id) out_of_memory
  modify record_allocation
  taken ← gets (λ t. is_leaf t id)
  fail_if taken corruption
  modify (λ t. record t {
    leaves = (id, Leaf.create (blank_node id) (record t.config { level = level })) ∷ t.leaves;
  })
  wal (on_page_allocate id)
  pure id

unfoldable pub allocate_internal : ℕ → Action BTree ℕ
allocate_internal level = do
  id ← allocate_page
  fail_if (id == invalid_page_id) out_of_memory
  modify record_allocation
  taken ← gets (λ t. is_internal t id)
  fail_if taken corruption
  modify (λ t. record t {
    internals =
        (id, Internal.create (blank_node id) (record t.config { level = level })) ∷ t.internals;
  })
  wal (on_page_allocate id)
  pure id

-- The node of a page id is erased from the map that has it.
pub forget_node : ℕ → BTree → BTree
forget_node id t =
    if is_leaf t id
    then record t { leaves = remove id t.leaves }
    else if is_internal t id
    then record t { internals = remove id t.internals }
    else t

unfoldable pub free_page : ℕ → BTree → BTree
free_page id t = record t { space = (Manager.free_page t.space id).0 }

-- The status of the log call is ignored.
pub release_node : ℕ → BTree → BTree
release_node id t = free_page id (forget_node id (wal (on_page_deallocate id) t).1)

-- `clear`, also the destructor.
pub free_pages : {V : Type 0} → List (ℕ × V) → SpaceManager → SpaceManager
free_pages [] space = space
free_pages (entry ∷ rest) space = free_pages rest (Manager.free_page space entry.0).0

unfoldable pub clear : BTree → BTree
clear t = record t {
  space = free_pages t.internals (free_pages t.leaves t.space);
  leaves = [];
  internals = [];
  root_id = invalid_page_id;
  size = 0;
  height = 0;
  operations = no_operations;
}
