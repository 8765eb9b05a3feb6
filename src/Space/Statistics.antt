-- ===== src/Space/Statistics.antt =====
-- space/SpaceStatistics.h and SpaceStatistics.cpp: 64-bit counters that wrap, and the sizes of the map.
-- `fragmentationPercent`, a `double` that nothing reads back, is left out.
use quartz_database_c.Prelude.{ℕ, ◌+◌, ◌-◌, ◌%◌, ◌^◌, Bool, ltb, if◌then◌else◌}
use quartz_database_c.Space.FreeSpaceMap.{FreeSpaceMap}
use quartz_database_c.Space.FreeSpaceMap.Find.{count_free, count_free_extents}

pub record SpaceStats : Type 0 where
  pub allocations_requested : ℕ
  pub allocations_succeeded : ℕ
  pub allocations_failed : ℕ
  pub frees_requested : ℕ
  pub frees_succeeded : ℕ
  pub frees_failed : ℕ
  pub current_allocated_pages : ℕ
  pub current_free_pages : ℕ
  pub extent_count : ℕ

abbrev pub no_stats : SpaceStats
no_stats = record {
  allocations_requested = 0;
  allocations_succeeded = 0;
  allocations_failed = 0;
  frees_requested = 0;
  frees_succeeded = 0;
  frees_failed = 0;
  current_allocated_pages = 0;
  current_free_pages = 0;
  extent_count = 0;
}

abbrev inc64 : ℕ → ℕ
inc64 x = (x + 1) % 2 ^ 64

pub record_allocation : SpaceStats → Bool → SpaceStats
record_allocation s ok =
    let s' = record s { allocations_requested = inc64 s.allocations_requested } in
    if ok
    then record s' {
      allocations_succeeded = inc64 s.allocations_succeeded;
      current_allocated_pages = (s.current_allocated_pages + 1) % 2 ^ 32;
    }
    else record s' { allocations_failed = inc64 s.allocations_failed }

pub record_free : SpaceStats → Bool → SpaceStats
record_free s ok =
    let s' = record s { frees_requested = inc64 s.frees_requested } in
    if ok
    then record s' {
      frees_succeeded = inc64 s.frees_succeeded;
      current_allocated_pages =
          if ltb 0 s.current_allocated_pages
          then s.current_allocated_pages - 1
          else s.current_allocated_pages;
    }
    else record s' { frees_failed = inc64 s.frees_failed }

pub update : SpaceStats → FreeSpaceMap → ℕ → SpaceStats
update s fsm total_pages = record s {
  current_free_pages = count_free fsm;
  current_allocated_pages = (total_pages + 2 ^ 32 - count_free fsm) % 2 ^ 32;
  extent_count = count_free_extents fsm;
}
