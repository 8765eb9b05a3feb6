-- ===== src/Space/Allocator.antt =====
-- space/ExtentAllocator.h and ExtentAllocator.cpp: a policy over a free space map.
pub mod Requests
use quartz_database_c.Prelude.{ℕ, Bool, not, ◌==◌, if◌then◌else◌}
use quartz_database_c.Status.{Status, err, invalid_argument, is_ok}
use quartz_database_c.Space.Extent.{Extent, no_extent, is_valid}
use quartz_database_c.Space.FreeSpaceMap.{FreeSpaceMap, mark_allocated, mark_free, clear}
use quartz_database_c.Space.FreeSpaceMap.Find.{count_free, count_free_extents}
use quartz_database_c.Space.Policy
use quartz_database_c.Space.Policy.{Policy, AllocationHints}

pub record ExtentAllocator : Type 0 where
  pub fsm : FreeSpaceMap
  pub policy : Policy

unfoldable pub allocate : ExtentAllocator → ℕ → AllocationHints → ExtentAllocator × Extent
allocate a count hints =
    let (extent, policy) = Policy.allocate a.policy a.fsm count hints in
    let (fsm, status) = mark_allocated a.fsm extent in
    if count == 0
    then (a, no_extent)
    else if is_valid extent
    then (record { fsm = fsm; policy = policy }, if is_ok status then extent else no_extent)
    else (record a { policy = policy }, extent)

pub release : ExtentAllocator → Extent → ExtentAllocator × Status
release a extent =
    let (fsm, status) = mark_free a.fsm extent in
    if not (is_valid extent) then (a, err invalid_argument) else (record a { fsm = fsm }, status)

pub set_policy : ExtentAllocator → Policy → ExtentAllocator
set_policy a policy = record a { policy = policy }

pub free_page_count : ExtentAllocator → ℕ
free_page_count a = count_free a.fsm

pub free_extent_count : ExtentAllocator → ℕ
free_extent_count a = count_free_extents a.fsm

pub clear_all : ExtentAllocator → ExtentAllocator
clear_all a = record a { fsm = clear a.fsm }
