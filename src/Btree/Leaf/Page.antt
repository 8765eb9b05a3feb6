-- ===== src/Btree/Leaf/Page.antt =====
-- What `syncEntries` of LeafNode.cpp leaves in the page.
use quartz_database_c.Prelude.{
  ℕ, zero, ◌+◌, ◌≤◌, ◌≡◌, List, [], ◌∷◌, ◌++◌, length, take, replicate, false, Bool-cases, inl, inr,
  ltb, arith, refl, ap, ◌∙◌,
}
use quartz_database_c.Status.{Code, ok, err, success}
use quartz_database_c.Format
use quartz_database_c.Format.{PageReference, to_bytes}
use quartz_database_c.Serialization.Buffer.{empty_buffer}
use quartz_database_c.Serialization.Buffer.Growth.{take_all}
use quartz_database_c.Serialization.Writer.{BinaryWriter, open_writer, le_bytes}
use quartz_database_c.Serialization.Writer.Bytes.{
  ZeroWriter, write_bytes-ZeroWriter, write_value-ZeroWriter, open_writer-ZeroWriter, copy_to-zeros,
  copy_to-there,
}
use quartz_database_c.Btree.Key
use quartz_database_c.Btree.Key.{Key, type_byte, from_u32, from_u64, from_binary}
use quartz_database_c.Btree.Node.{
  Node, body_magic, bool_byte, write_header, sync_header, write_entry_area, set_key_count,
  body_header_size, entry_area_size, max_body_bytes,
}
use quartz_database_c.Btree.Leaf.{LeafNode, write_entries, sync_entries, sync_area}

pub length-to_bytes : (r : PageReference) → length (to_bytes r) ≡ 20
unfolding to_bytes le_bytes
length-to_bytes r = refl

write-ZeroWriter :
    (r : PageReference) (w : BinaryWriter)
    → ZeroWriter w
    → ZeroWriter (Format.write r w) × ((Format.write r w).offset ≡ w.offset + 20)
unfolding Format.write
write-ZeroWriter r w z =
    let (after, size) = write_bytes-ZeroWriter w (to_bytes r) z in
    (after, omega (arith, size, length-to_bytes r))

serialize-ZeroWriter : (k : Key) (w : BinaryWriter) → ZeroWriter w → ZeroWriter (Key.serialize k w)
unfolding Key.serialize
serialize-ZeroWriter (from_u32 v) w z =
    (write_value-ZeroWriter _ 4 v (write_value-ZeroWriter w 1 1 z).0).0
serialize-ZeroWriter (from_u64 v) w z =
    (write_value-ZeroWriter _ 8 v (write_value-ZeroWriter w 1 2 z).0).0
serialize-ZeroWriter (from_binary bytes) w z =
    (write_bytes-ZeroWriter _ bytes
      (write_value-ZeroWriter _ 2 (length bytes) (write_value-ZeroWriter w 1 3 z).0).0).0

write_entries-ZeroWriter :
    (ks : List Key) (rs : List PageReference) (w : BinaryWriter)
    → ZeroWriter w
    → ZeroWriter (write_entries ks rs w)
unfolding write_entries
write_entries-ZeroWriter [] rs w z = z
write_entries-ZeroWriter (k ∷ ks) [] w z = z
write_entries-ZeroWriter (k ∷ ks) (r ∷ rs) w z =
    write_entries-ZeroWriter ks rs _ (write-ZeroWriter r _ (serialize-ZeroWriter k w z)).0

pub open_writer_offset : (open_writer empty_buffer).offset ≡ 0
unfolding open_writer
open_writer_offset = refl

header_zeros :
    (n : Node)
    → (write_header n (open_writer empty_buffer)).buffer.bytes ≡ replicate body_header_size zero
      × ((write_header n (open_writer empty_buffer)).offset ≡ body_header_size)
unfolding write_header
header_zeros n =
    let (z1, s1) =
      write_value-ZeroWriter (open_writer empty_buffer) 4 body_magic open_writer-ZeroWriter in
    let (z2, s2) = write-ZeroWriter n.parent _ z1 in
    let (z3, s3) = write_value-ZeroWriter _ 4 n.config.level z2 in
    let (z4, s4) = write_value-ZeroWriter _ 1 (type_byte n.config.key_type) z3 in
    let (z5, s5) = write_value-ZeroWriter _ 1 (bool_byte n.config.allow_duplicates) z4 in
    let (z6, s6) = write_value-ZeroWriter _ 2 n.config.binary_key_size z5 in
    let size : (write_header n (open_writer empty_buffer)).offset ≡ body_header_size =
      omega (arith, s1, s2, s3, s4, s5, s6, open_writer_offset) in
    (z6.zeros ∙ ap (λ (k : ℕ). replicate k zero) size, size)

pub sync_header_succeeds : (n : Node) → (n' : Node) × (sync_header n ≡ ok n')
unfolding sync_header
sync_header_succeeds n =
    let small : ltb max_body_bytes (write_header n (open_writer empty_buffer)).offset ≡ false =
      ground (arith, (header_zeros n).1) in
    rw small (_, refl)

pub sync_header-zeros :
    (n : Node)
    → body_header_size ≤ length n.page.body
    → (n' : Node) × (sync_header n ≡ ok n')
      × (take body_header_size n'.page.body ≡ replicate body_header_size zero)
unfolding sync_header
sync_header-zeros n room =
    let (bytes, size) = header_zeros n in
    let small : ltb max_body_bytes (write_header n (open_writer empty_buffer)).offset ≡ false =
      ground (arith, size) in
    rw (small, sync_header)
      (
        _,
        refl,
        rw bytes (
            ap (λ (k : List ℕ). k)
              (copy_to-there n.page.body 0 (replicate body_header_size zero) room)),
      )

failed : {c : Code} → err c ≡ success → ⊥
failed h = cc

-- A leaf whose entries have been written to its page successfully has a page body of zeros: no byte of
-- the header or of an entry has reached it.
pub sync_entries_writes_zeros :
    (l : LeafNode)
    → body_header_size ≤ length l.node.page.body
    → (sync_entries l).1 ≡ success
    → (sync_entries l).0.node.page.body
      ≡ replicate body_header_size zero ++ replicate entry_area_size zero
unfolding sync_entries sync_area write_entry_area set_key_count
sync_entries_writes_zeros l room done =
    let (n, synced, header) = sync_header-zeros l.node room in
    let w = write_entries l.keys l.refs (open_writer empty_buffer) in
    let zero_writer =
      write_entries-ZeroWriter l.keys l.refs (open_writer empty_buffer) open_writer-ZeroWriter in
    let taken : take w.offset w.buffer.bytes ≡ replicate w.offset zero =
      take_all w.offset w.buffer.bytes (omega (arith, zero_writer.at_end)) ∙ zero_writer.zeros in
    elim (Bool-cases (ltb entry_area_size w.offset)) [
      | inl long ↦ absurd (failed (rw (synced, sync_entries, long) at done))
      | inr short ↦
          rw
            (
              synced,
              sync_entries,
              short,
              write_entry_area,
              taken,
              header,
              copy_to-zeros entry_area_size w.offset,
            )
            refl
    ]
