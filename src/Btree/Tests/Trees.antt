-- ===== src/Btree/Tests/Trees.antt =====
-- A tree of two leaves, with the keys 3, 7 and 20, 30 and the separator 10, and one of three levels, for runs.
use quartz_database_c.Prelude.{ℕ, ◌+◌, [], ◌∷◌, replicate, zero, false, none}
use quartz_database_c.Format.{make}
use quartz_database_c.Space.Manager.{SpaceManager}
use quartz_database_c.Space.Statistics.{no_stats}
use quartz_database_c.Space.Policy.{first_fit_policy}
use quartz_database_c.Storage.PageAllocator.{init}
use quartz_database_c.Btree.Key.{from_u32, u32_key}
use quartz_database_c.Btree.Node.{Node, NodeConfig, IndexPage}
use quartz_database_c.Btree.Leaf.{LeafNode}
use quartz_database_c.Btree.Internal.{InternalNode}
use quartz_database_c.Btree.Tree.{BTree, no_operations}

abbrev pub config : NodeConfig
config = record { key_type = u32_key; binary_key_size = 0; allow_duplicates = false; level = 0 }

abbrev page : ℕ → ℕ → ℕ → IndexPage
page id node_type count = record {
  id = id;
  node_type = node_type;
  key_count = count;
  capacity = 158;
  flags = 0;
  reserved0 = 0;
  body = replicate 3992 zero;
}

abbrev pub node : ℕ → ℕ → ℕ → Node
node id node_type count = record {
  page = page id node_type count;
  config = config;
  parent = make 1 0 0;
}

abbrev pub left_leaf : LeafNode
left_leaf = record {
  node = node 12 1 2;
  keys = from_u32 3 ∷ from_u32 7 ∷ [];
  refs = make 103 0 0 ∷ make 107 0 0 ∷ [];
}

abbrev pub right_leaf : LeafNode
right_leaf = record {
  node = node 13 1 2;
  keys = from_u32 20 ∷ from_u32 30 ∷ [];
  refs = make 120 0 0 ∷ make 130 0 0 ∷ [];
}

abbrev pub root : InternalNode
root = record {
  node = node 11 2 1;
  keys = from_u32 10 ∷ [];
  children = make 12 0 0 ∷ make 13 0 0 ∷ [];
}

abbrev pub space : SpaceManager
space = record {
  pages = init;
  extents = record { fsm = record { start = 8; length = 8 } ∷ []; policy = first_fit_policy };
  stats = no_stats;
}

abbrev pub tree : BTree
tree = record {
  space = space;
  config = config;
  root_id = 11;
  size = 4;
  height = 2;
  operations = no_operations;
  wal_sink = none;
  events = [];
  leaves = (12, left_leaf) ∷ (13, right_leaf) ∷ [];
  internals = (11, root) ∷ [];
}

-- The same leaves under a root of three levels, with two more leaves on the right.
abbrev pub leaf_of : ℕ → ℕ → LeafNode
leaf_of id key = record {
  node = node id 1 1;
  keys = from_u32 key ∷ [];
  refs = make (100 + key) 0 0 ∷ [];
}

abbrev pub internal_of : ℕ → ℕ → ℕ → ℕ → InternalNode
internal_of id key left right = record {
  node = node id 2 1;
  keys = from_u32 key ∷ [];
  children = make left 0 0 ∷ make right 0 0 ∷ [];
}

abbrev pub tall_root : InternalNode
tall_root = internal_of 1 50 11 21

abbrev pub tall_tree : BTree
tall_tree = record tree {
  root_id = 1;
  size = 6;
  height = 3;
  leaves = (12, left_leaf) ∷ (13, right_leaf) ∷ (22, leaf_of 22 60) ∷ (23, leaf_of 23 90) ∷ [];
  internals = (1, tall_root) ∷ (11, root) ∷ (21, internal_of 21 80 22 23) ∷ [];
}
