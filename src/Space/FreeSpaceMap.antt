-- ===== src/Space/FreeSpaceMap.antt =====
-- space/FreeSpaceMap.h and FreeSpaceMap.cpp. A map is the vector `extents_`; `std::lower_bound` is the
-- first place where its test fails. A method that may fail returns the vector and the status.
pub mod Find
pub mod Pages
pub mod Allocate
pub mod MarkAllocated
pub mod Free
use quartz_database_c.Prelude.{
  ℕ, ◌+◌, ◌-◌, ◌%◌, ◌^◌, Bool, true, false, not, ◌&&◌, ◌||◌, Option, none, some, List, [], ◌∷◌,
  length, ltb, leb, ◌==◌, if◌then◌else◌,
}
use quartz_database_c.Status.{Status, success, err, invalid_argument, corruption}
use quartz_database_c.Space.Extent.{
  Extent, no_extent, is_valid, end_page, contains_page, contains_extent, intersects, adjacent_to,
  can_merge, merge, split,
}

abbrev pub FreeSpaceMap : Type 0
FreeSpaceMap = List Extent

pub initialize : ℕ → ℕ → FreeSpaceMap
initialize start count = if ltb 0 count then record { start = start; length = count } ∷ [] else []

-- The part of `markAllocated` for an extent that contains the range: `return` without `changed`.
unfoldable pub split_out : Extent → Extent → List Extent → List Extent
split_out range current rest = elim (split current range.start) [
  | none ↦ current ∷ rest
  | some (left, right_end) ↦
      let right_length = right_end.length - range.length in
      if ltb 0 right_length
      then left ∷ record { start = end_page range; length = right_length } ∷ rest
      else left ∷ rest
]

-- The `while` loop of `markAllocated` from `it` on; the flag says that the status is success. What is
-- moved to the end of the range ends the loop, since it starts where the range ends.
unfoldable pub allocate_loop : Extent → Bool → List Extent → List Extent × Bool
allocate_loop range changed [] = ([], changed)
allocate_loop range changed (current ∷ rest) =
    let dropped = allocate_loop range true rest in
    let kept = allocate_loop range changed rest in
    let overlap = end_page range - current.start in
    let shrunk = record current { length = range.start - current.start } in
    let shifted =
      let e : Extent = record { start = end_page range; length = current.length - overlap } in e in
    if not (ltb current.start (end_page range))
    then (current ∷ rest, changed)
    else if contains_extent range current
    then dropped
    else if contains_extent current range
    then (split_out range current rest, true)
    else if ltb current.start range.start && ltb range.start (end_page current)
    then (shrunk ∷ dropped.0, dropped.1)
    else if leb range.start current.start && ltb current.start (end_page range)
    then (if ltb 0 (current.length - overlap) then (shifted ∷ rest, true) else dropped)
    else (current ∷ kept.0, kept.1)

-- `lower_bound` by the end of the extents, then the loop.
unfoldable pub allocate_from : Extent → List Extent → List Extent × Bool
allocate_from range [] = ([], false)
allocate_from range (e ∷ es) =
    let later = allocate_from range es in
    if leb (end_page e) range.start
    then (e ∷ later.0, later.1)
    else allocate_loop range false (e ∷ es)

-- `range.isValid()` and `extents_.empty()` are tested first.
unfoldable pub mark_allocated : FreeSpaceMap → Extent → FreeSpaceMap × Status
mark_allocated [] range = ([], err invalid_argument)
mark_allocated (e ∷ es) range =
    let (extents, changed) = allocate_from range (e ∷ es) in
    if not (is_valid range)
    then (e ∷ es, err invalid_argument)
    else (extents, if changed then success else err invalid_argument)

-- The merging loop over the extents at the right of `leftExt`.
pub merge_right : Extent → List Extent → List Extent
merge_right left [] = left ∷ []
merge_right left (e ∷ es) = elim (can_merge left e) [
  | false ↦ left ∷ e ∷ es
  | true ↦ elim (merge left e) [ none ↦ left ∷ e ∷ es | some merged ↦ merge_right merged es ]
]

pub insert_after : Extent → Extent → List Extent → List Extent
insert_after range prev rest = elim (can_merge prev range) [
  | false ↦ prev ∷ merge_right range rest
  | true ↦ elim (merge prev range) [
    | none ↦ prev ∷ merge_right range rest
    | some merged ↦ merge_right merged rest
  ]
]

-- `lower_bound` by the start of the extents, `prev` before it.
pub free_after : Extent → Extent → List Extent → List Extent
free_after range prev [] = insert_after range prev []
free_after range prev (e ∷ es) =
    if ltb e.start range.start
    then prev ∷ free_after range e es
    else insert_after range prev (e ∷ es)

pub free_from : Extent → List Extent → List Extent
free_from range [] = merge_right range []
free_from range (e ∷ es) =
    if ltb e.start range.start then free_after range e es else merge_right range (e ∷ es)

pub mark_free : FreeSpaceMap → Extent → FreeSpaceMap × Status
mark_free extents range =
    if not (is_valid range)
    then (extents, err invalid_argument)
    else (free_from range extents, success)

abbrev pub clear : FreeSpaceMap → FreeSpaceMap
clear extents = []
