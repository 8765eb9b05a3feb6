-- ===== src/Btree/Internal/Children.antt =====
-- The shape that InternalNode.cpp keeps: one child more than keys.
use quartz_database_c.Prelude.{
  ℕ, suc, zero, ◌+◌, ◌<◌, ◌≡◌, List, [], ◌∷◌, length, set, insert_at, erase_at, arith, refl,
  length-insert_at, length-erase_at, inl, inr, ap,
}
use quartz_database_c.Status.{Result-cases}
use quartz_database_c.Format.{PageReference}
use quartz_database_c.Btree.Key.{Key}
use quartz_database_c.Btree.Node.{sync_header}
use quartz_database_c.Btree.Internal.{
  InternalNode, sync_entries, sync_area, with_entries, insert, erase_entry, set_key, assign_entries,
}

abbrev pub HasChildren : InternalNode → Type 0
HasChildren i = length i.children ≡ length i.keys + 1

sync_entries-kept : (i : InternalNode) → HasChildren i → HasChildren (sync_entries i).0
unfolding sync_entries sync_area
sync_entries-kept i h = elim (Result-cases (sync_header i.node)) [
  | inr (c, e) ↦ rw (e, sync_entries) h
  | inl (n, e) ↦ rw (e, sync_entries) (ground arith)
]

pub length-set : (xs : List Key) (n : ℕ) (k : Key) → length (set xs n k) ≡ length xs
length-set [] n k = refl
length-set (x ∷ xs) zero k = refl
length-set (x ∷ xs) (suc n) k = ap suc (length-set xs n k)

module _ (i : InternalNode) (h : HasChildren i) where
  insert_kept :
      (index : ℕ) (key : Key) (child : PageReference)
      → HasChildren
          (sync_entries (
            with_entries i (insert_at i.keys index key) (insert_at i.children (index + 1) child))).0
  insert_kept index key child = sync_entries-kept _ (
      unfold with_entries in
      omega
        (arith, length-insert_at i.keys index key, length-insert_at i.children (index + 1) child))

  erase_kept :
      (index : ℕ)
      → index < length i.keys
      → HasChildren
          (sync_entries
            (with_entries i (erase_at i.keys index) (erase_at i.children (index + 1)))).0
  erase_kept index inside = sync_entries-kept _ (
      unfold with_entries in
      omega (
        arith,
        length-erase_at i.keys index inside,
        length-erase_at i.children (index + 1) (omega arith),
      ))

  set_kept :
      (index : ℕ) (key : Key)
      → HasChildren (sync_entries (record i { keys = set i.keys index key })).0
  set_kept index key =
      sync_entries-kept (record i { keys = set i.keys index key })
        (omega (arith, length-set i.keys index key))

  assign_kept :
      (keys : List Key) (children : List PageReference)
      → length children ≡ length keys + 1
      → HasChildren (sync_entries (with_entries i keys children)).0
  assign_kept keys children e =
      sync_entries-kept (with_entries i keys children) (unfold with_entries in e)

-- Every operation that changes an internal node keeps one child more than keys, and so does one that
-- refuses or whose page cannot be written.
pub internal_operations-HasChildren :
    (i : InternalNode) (index : ℕ) (key : Key) (child : PageReference) (keys : List Key)
    (children : List PageReference)
    → HasChildren i
    → HasChildren (insert i index key child).0
      × HasChildren (erase_entry i index).0
      × HasChildren (set_key i index key).0
      × HasChildren (assign_entries i keys children).0
unfolding insert erase_entry set_key assign_entries
internal_operations-HasChildren i index key child keys children h = (
  ground (arith, insert_kept i h index key child),
  ground (arith, erase_kept i h index),
  ground (arith, set_kept i h index key),
  ground (arith, assign_kept i h keys children),
)
