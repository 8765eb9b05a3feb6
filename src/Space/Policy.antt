-- ===== src/Space/Policy.antt =====
-- space/AllocationHints.h, AllocationPolicy.h and AllocationPolicy.cpp: a policy is one of the three
-- subclasses; the sequential one has a cursor, so `allocate` returns the policy too.
pub mod Choice
use quartz_database_c.Prelude.{
  ℕ, Bool, true, not, ◌&&◌, ◌||◌, Option, none, some, List, [], ◌∷◌, ltb, leb, if◌then◌else◌,
}
use quartz_database_c.Space.Extent.{Extent, no_extent, is_valid}
use quartz_database_c.Space.FreeSpaceMap.{FreeSpaceMap}
use quartz_database_c.Space.FreeSpaceMap.Find.{find_free_range, find_exact_range, find_best_range}

pub record AllocationHints : Type 0 where
  pub prefer_contiguous : Bool
  pub prefer_beginning : Bool
  pub prefer_end : Bool
  pub min_extent_length : ℕ
  pub exact_fit : Bool

-- `kFirstDataPageId` of storage/StorageConstants.h.
abbrev pub first_data_page_id : ℕ
first_data_page_id = 8

pub data Policy : Type 0 where
  first_fit_policy best_fit_policy : Policy
  sequential_policy : ℕ → Policy

unfoldable pub allocate_first_fit : FreeSpaceMap → ℕ → AllocationHints → Extent
allocate_first_fit fsm count hints =
    if hints.exact_fit
    then find_exact_range fsm count
    else if hints.prefer_contiguous || ltb 1 count
    then find_free_range fsm count (not hints.prefer_end)
    else find_free_range fsm count true

pub allocate_best_fit : FreeSpaceMap → ℕ → AllocationHints → Extent
allocate_best_fit fsm count hints =
    let best = find_best_range fsm count in
    if hints.exact_fit
    then find_exact_range fsm count
    else if hints.prefer_contiguous || ltb 1 count
    then (if is_valid best then best else find_free_range fsm count true)
    else find_free_range fsm count true

-- The start of the first extent of a scan that is long enough.
pub scan : ℕ → List Extent → Option ℕ
scan count [] = none
scan count (e ∷ es) = if leb count e.length then some e.start else scan count es

-- `lower_bound` by the start: the extents before the cursor, and those from it on.
pub before_cursor : ℕ → List Extent → List Extent
before_cursor cursor [] = []
before_cursor cursor (e ∷ es) = if ltb e.start cursor then e ∷ before_cursor cursor es else []

pub from_cursor : ℕ → List Extent → List Extent
from_cursor cursor [] = []
from_cursor cursor (e ∷ es) = if ltb e.start cursor then from_cursor cursor es else e ∷ es

-- The scan from `it` to the end, then from the beginning to `it`; `it` at the end is the beginning.
pub scan_around : ℕ → List Extent → List Extent → Option ℕ
scan_around count before [] = scan count before
scan_around count before (e ∷ es) = elim (scan count (e ∷ es)) [
  | some start ↦ some start
  | none ↦ scan count before
]

pub allocate_sequential : ℕ → FreeSpaceMap → ℕ → Extent × ℕ
allocate_sequential cursor fsm count =
    elim (scan_around count (before_cursor cursor fsm) (from_cursor cursor fsm)) [
      | none ↦ (no_extent, cursor)
      | some start ↦ (record { start = start; length = count }, start)
    ]

-- The virtual call `policy_->allocate`.
unfoldable pub allocate : Policy → FreeSpaceMap → ℕ → AllocationHints → Extent × Policy
allocate first_fit_policy fsm count hints = (allocate_first_fit fsm count hints, first_fit_policy)
allocate best_fit_policy fsm count hints = (allocate_best_fit fsm count hints, best_fit_policy)
allocate (sequential_policy cursor) fsm count hints =
    let (extent, cursor') = allocate_sequential cursor fsm count in
    (extent, sequential_policy cursor')

-- `SequentialPolicy::resetCursor`.
pub reset_cursor : Policy → Policy
reset_cursor (sequential_policy cursor) = sequential_policy first_data_page_id
reset_cursor p = p
