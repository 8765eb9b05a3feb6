-- ===== src/Btree/Node/Capacity.antt =====
-- The capacity that BTreeNode.cpp computes for a node, and the room for its entries on the page
-- (LeafNode.cpp, InternalNode.cpp).
use native.Mathlib.Nat.{le-div_iff_mul-le}
use quartz_database_c.Prelude.{
  ℕ, suc, ◌+◌, ◌-◌, ◌*◌, ◌/◌, ◌≤◌, ◌<◌, ◌≡◌, ◌↔◌, List, [], ◌∷◌, length, All, ltb, arith, refl, inl,
  inr, Bool-cases,
}
use quartz_database_c.Status.{err, corruption, success}
use quartz_database_c.Format
use quartz_database_c.Format.{PageReference, reference_size}
use quartz_database_c.Serialization.Buffer.{empty_buffer}
use quartz_database_c.Serialization.Writer
use quartz_database_c.Serialization.Writer.{BinaryWriter, open_writer}
use quartz_database_c.Serialization.Writer.Bytes.{offset-write_bytes, offset-write_value}
use quartz_database_c.Btree.Key
use quartz_database_c.Btree.Key.{Key, u32_key, u64_key, binary_key, from_u32, from_u64, from_binary}
use quartz_database_c.Btree.Node
use quartz_database_c.Btree.Node.{
  NodeConfig, max_body_bytes, body_header_size, entry_area_size, key_wire_size, entry_size,
  compute_capacity, sync_header,
}
use quartz_database_c.Btree.Leaf
use quartz_database_c.Btree.Leaf.{LeafNode, write_entries}
use quartz_database_c.Btree.Leaf.Page.{length-to_bytes, open_writer_offset, sync_header_succeeds}
use quartz_database_c.Btree.Internal
use quartz_database_c.Btree.Internal.{InternalNode, write_body}

-- A key of the type, and of the size, that a node is configured for.
abbrev pub IsKeyOf : NodeConfig → Key → Type 0
IsKeyOf config (from_u32 v) = config.key_type ≡ u32_key
IsKeyOf config (from_u64 v) = config.key_type ≡ u64_key
IsKeyOf config (from_binary bytes) =
    (config.key_type ≡ binary_key) × (length bytes ≡ config.binary_key_size)

write_offset : (r : PageReference) (w : BinaryWriter) → (Format.write r w).offset ≡ w.offset + 20
unfolding Format.write
write_offset r w = omega (arith, offset-write_bytes w (Format.to_bytes r), length-to_bytes r)

serialize_offset :
    (config : NodeConfig) (k : Key) (w : BinaryWriter)
    → IsKeyOf config k
    → (Key.serialize k w).offset ≡ w.offset + key_wire_size config
unfolding Key.serialize key_wire_size
serialize_offset config (from_u32 v) w e =
    rw e
      (omega (arith, offset-write_value w 1 1, offset-write_value (Writer.write_value w 1 1) 4 v))
serialize_offset config (from_u64 v) w e =
    rw e
      (omega (arith, offset-write_value w 1 2, offset-write_value (Writer.write_value w 1 2) 8 v))
serialize_offset config (from_binary bytes) w (e, size) =
    let w1 = Writer.write_value w 1 3 in
    let w2 = Writer.write_value w1 2 (length bytes) in
    rw e (
      omega (
        arith,
        size,
        offset-write_value w 1 3,
        offset-write_value w1 2 (length bytes),
        offset-write_bytes w2 bytes,
      ))

-- What the entries take on the page.
write_entries_offset :
    (config : NodeConfig) (ks : List Key) (rs : List PageReference) (w : BinaryWriter)
    → All (IsKeyOf config) ks
    → length rs ≡ length ks
    → (write_entries ks rs w).offset ≡ w.offset + length ks * entry_size config
unfolding write_entries entry_size
write_entries_offset config [] rs w h e = omega arith
write_entries_offset config (k ∷ ks) [] w h e = absurd (omega (arith, e))
write_entries_offset config (k ∷ ks) (r ∷ rs) w h e =
    let w1 = Key.serialize k w in
    grind (
      arith,
      serialize_offset config k w h.0,
      write_offset r w1,
      write_entries_offset config ks rs (Format.write r w1) h.1 (omega (arith, e)),
    )

entry_size-positive : (config : NodeConfig) → 0 < entry_size config
unfolding entry_size
entry_size-positive config = omega arith

fits : (config : NodeConfig) (n a : ℕ) → (n ≤ a / entry_size config) ↔ (n * entry_size config ≤ a)
fits config n a = le-div_iff_mul-le (entry_size-positive config)

refused : err corruption ≡ success → ⊥
refused h = cc

-- The status of `syncEntries`, by the size of what is written.
leaf_synced :
    (l : LeafNode) (size : ℕ)
    → (write_entries l.keys l.refs (open_writer empty_buffer)).offset ≡ size
    → ((Leaf.sync_entries l).1 ≡ success) ↔ (size ≤ entry_area_size)
unfolding Leaf.sync_entries Leaf.sync_area
leaf_synced l size e =
    let (n, synced) = sync_header_succeeds l.node in
    elim (Bool-cases (ltb entry_area_size size)) [
      | inl long ↦
          rw (synced, Leaf.sync_entries, e, long)
            (λ h. absurd (refused h), λ h. absurd (ground (arith, long)))
      | inr short ↦ rw (synced, Leaf.sync_entries, e, short) (λ h. ground (arith, short), λ h. refl)
    ]

internal_synced :
    (i : InternalNode) (size : ℕ)
    → (write_body i.keys i.children (open_writer empty_buffer)).offset ≡ size
    → ((Internal.sync_entries i).1 ≡ success) ↔ (size ≤ entry_area_size)
unfolding Internal.sync_entries Internal.sync_area
internal_synced i size e =
    let (n, synced) = sync_header_succeeds i.node in
    elim (Bool-cases (ltb entry_area_size size)) [
      | inl long ↦
          rw (synced, Internal.sync_entries, e, long)
            (λ h. absurd (refused h), λ h. absurd (ground (arith, long)))
      | inr short ↦
          rw (synced, Internal.sync_entries, e, short) (λ h. ground (arith, short), λ h. refl)
    ]

leaf_room :
    (l : LeafNode)
    → All (IsKeyOf l.node.config) l.keys
    → length l.refs ≡ length l.keys
    → ((Leaf.sync_entries l).1 ≡ success)
      ↔ (length l.keys ≤ compute_capacity l.node.config Node.leaf)
unfolding compute_capacity
leaf_room l typed even =
    let config = l.node.config in
    let both = leaf_synced l (length l.keys * entry_size config) (
      omega (
        arith,
        open_writer_offset,
        write_entries_offset config l.keys l.refs (open_writer empty_buffer) typed even,
      )) in
    let room = fits config (length l.keys) (max_body_bytes - body_header_size) in
    (λ h. room.1 (both.0 h), λ h. both.1 (room.0 h))

-- The child on the left stands before the pairs.
body_offset :
    (config : NodeConfig) (ks : List Key) (cs : List PageReference)
    → All (IsKeyOf config) ks
    → length cs ≡ suc (length ks)
    → (write_body ks cs (open_writer empty_buffer)).offset
      ≡ reference_size + length ks * entry_size config
unfolding write_body
body_offset config ks [] typed e = absurd (omega (arith, e))
body_offset config ks (c ∷ cs) typed e =
    let start = open_writer empty_buffer in
    omega (
      arith,
      open_writer_offset,
      write_offset c start,
      write_entries_offset config ks cs (Format.write c start) typed (omega (arith, e)),
    )

internal_room :
    (i : InternalNode)
    → All (IsKeyOf i.node.config) i.keys
    → length i.children ≡ suc (length i.keys)
    → ((Internal.sync_entries i).1 ≡ success)
      ↔ (length i.keys ≤ compute_capacity i.node.config Node.internal)
unfolding compute_capacity
internal_room i typed one_more =
    let config = i.node.config in
    let both =
      internal_synced i (reference_size + length i.keys * entry_size config)
        (body_offset config i.keys i.children typed one_more) in
    let room = fits config (length i.keys) (max_body_bytes - body_header_size - reference_size) in
    (λ h. room.1 (omega (arith, both.0 h)), λ h. both.1 (omega (arith, room.0 h)))

-- For a leaf with as many references as keys, and for an internal node with one child more than keys, whose
-- keys are of the type and size of its configuration: `syncEntries`, which writes the keys and references
-- one after another for the page, succeeds exactly when there are no more keys than `computeCapacity`
-- allows for the configuration.
pub compute_capacity-sync_entries :
    (l : LeafNode) (i : InternalNode)
    → All (IsKeyOf l.node.config) l.keys
    → length l.refs ≡ length l.keys
    → All (IsKeyOf i.node.config) i.keys
    → length i.children ≡ suc (length i.keys)
    → (((Leaf.sync_entries l).1 ≡ success)
        ↔ (length l.keys ≤ compute_capacity l.node.config Node.leaf))
      × (((Internal.sync_entries i).1 ≡ success)
          ↔ (length i.keys ≤ compute_capacity i.node.config Node.internal))
compute_capacity-sync_entries l i leaf_typed even internal_typed one_more =
    (leaf_room l leaf_typed even, internal_room i internal_typed one_more)
