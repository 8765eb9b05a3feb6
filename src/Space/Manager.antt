-- ===== src/Space/Manager.antt =====
-- space/SpaceManager.h and SpaceManager.cpp: single pages from the page allocator, runs of pages from
-- the extent allocator, over one free space map.
pub mod Pages
use quartz_database_c.Prelude.{
  ℕ, ◌+◌, ◌-◌, ◌%◌, ◌^◌, Bool, true, false, not, ltb, ◌==◌, if◌then◌else◌,
}
use quartz_database_c.Status.{Status, err, invalid_argument, is_ok}
use quartz_database_c.Storage.PageAllocator
use quartz_database_c.Storage.PageAllocator.{PageAllocator, max_page_id, invalid_page_id}
use quartz_database_c.Space.Extent.{Extent, is_valid}
use quartz_database_c.Space.FreeSpaceMap.{FreeSpaceMap, initialize, mark_allocated, mark_free}
use quartz_database_c.Space.FreeSpaceMap.Find.{count_free}
use quartz_database_c.Space.Policy.{Policy, first_fit_policy, AllocationHints, first_data_page_id}
use quartz_database_c.Space.Allocator
use quartz_database_c.Space.Allocator.{ExtentAllocator}
use quartz_database_c.Space.Statistics.{
  SpaceStats, no_stats, record_allocation, record_free, update,
}

pub record SpaceManager : Type 0 where
  pub pages : PageAllocator
  pub extents : ExtentAllocator
  pub stats : SpaceStats

-- `initializeFreeSpace`: all data pages are free.
pub initial_map : FreeSpaceMap
initial_map = initialize first_data_page_id (max_page_id - first_data_page_id + 1)

pub create : Policy → SpaceManager
create policy = record {
  pages = PageAllocator.init;
  extents = record { fsm = initial_map; policy = policy };
  stats = no_stats;
}

abbrev pub one_page : ℕ → Extent
one_page id = record { start = id; length = 1 }

unfoldable pub allocate_page : SpaceManager → SpaceManager × ℕ
allocate_page m =
    let (pages, id) = PageAllocator.allocate m.pages in
    let (fsm, status) = mark_allocated m.extents.fsm (one_page id) in
    if not (id == invalid_page_id)
    then (if not (is_ok status)
        then (
          record {
            pages = (PageAllocator.free pages id).0;
            extents = record m.extents { fsm = fsm };
            stats = record_allocation m.stats false;
          },
          invalid_page_id,
        )
        else (
          record {
            pages = pages;
            extents = record m.extents { fsm = fsm };
            stats = record_allocation m.stats true;
          },
          id,
        ))
    else (record m { pages = pages; stats = record_allocation m.stats false }, id)

pub free_page : SpaceManager → ℕ → SpaceManager × Bool
free_page m id =
    let (pages, freed) = PageAllocator.free m.pages id in
    let (fsm, status) = mark_free m.extents.fsm (one_page id) in
    if not freed then (record m { pages = pages; stats = record_free m.stats false }, false) else (
      record {
        pages = pages;
        extents = record m.extents { fsm = fsm };
        stats = record_free m.stats (is_ok status);
      },
      is_ok status,
    )

pub allocate_extent : SpaceManager → ℕ → AllocationHints → SpaceManager × Extent
allocate_extent m count hints =
    let (extents, extent) = Allocator.allocate m.extents count hints in
    let stats = record_allocation m.stats (is_valid extent) in
    (
      record m {
        extents = extents;
        stats = if is_valid extent then update stats extents.fsm (max_page_id + 1) else stats;
      },
      extent,
    )

pub free_extent : SpaceManager → Extent → SpaceManager × Status
free_extent m extent =
    let (extents, status) = Allocator.release m.extents extent in
    let stats = record_free m.stats (is_ok status) in
    (
      record m {
        extents = extents;
        stats = if is_ok status then update stats extents.fsm (max_page_id + 1) else stats;
      },
      status,
    )

pub reserve_range : SpaceManager → ℕ → ℕ → SpaceManager × Status
reserve_range m start count =
    let (fsm, status) = mark_allocated m.extents.fsm (record { start = start; length = count }) in
    if ltb start first_data_page_id then (m, err invalid_argument) else (
      record m {
        extents = record m.extents { fsm = fsm };
        stats = if is_ok status then update m.stats fsm (max_page_id + 1) else m.stats;
      },
      status,
    )

pub allocated_page_count : SpaceManager → ℕ
allocated_page_count m =
    (max_page_id - first_data_page_id + 1 + 2 ^ 32 - count_free m.extents.fsm) % 2 ^ 32

pub free_page_count : SpaceManager → ℕ
free_page_count m = count_free m.extents.fsm

pub reset : SpaceManager → SpaceManager
reset m = record {
  pages = PageAllocator.reset m.pages;
  extents = record m.extents { fsm = initial_map };
  stats = no_stats;
}
