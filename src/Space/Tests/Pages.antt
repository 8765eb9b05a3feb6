-- ===== src/Space/Tests/Pages.antt =====
-- Runs of `allocatePage` and `freePage` of space/SpaceManager.cpp.
use quartz_database_c.Prelude.{ℕ, ◌≡◌, ◌≢◌, ◌⊎◌, true, not, ◌&&◌, ◌||◌, ◌==◌, leb, arith, refl}
use quartz_database_c.Storage.PageAllocator
use quartz_database_c.Storage.PageAllocator.{
  init, allocate_with, is_allocated, invalid_page_id, reserved_page_count,
}
use quartz_database_c.Storage.PageAllocator.Invariant.{Inv, init-Inv}
use quartz_database_c.Space.FreeSpaceMap.Pages.{is_free, IsOrdered}
use quartz_database_c.Space.FreeSpaceMap.Allocate.{starts_longer}
use quartz_database_c.Space.Policy.{first_fit_policy}
use quartz_database_c.Space.Statistics.{no_stats}
use quartz_database_c.Space.Manager.{SpaceManager, one_page, allocate_page, free_page}
use quartz_database_c.Space.Manager.Pages.{
  GivesPage, KeepsPages, allocate_page-GivesPage, free_page_lem,
}
use quartz_database_c.Space.Tests.{two_extents}
use quartz_database_c.Space.Tests.Maps.{two_extents-IsOrdered}

abbrev manager : SpaceManager
manager = record {
  pages = init;
  extents = record { fsm = two_extents; policy = first_fit_policy };
  stats = no_stats;
}

first_page : (PageAllocator.allocate init).1 ≡ 8
unfolding PageAllocator.allocate allocate_with init
first_page = refl

allocate_page-GivesPage_example :
    (((allocate_page manager).1 ≡ invalid_page_id) × KeepsPages manager (allocate_page manager).0)
    ⊎ GivesPage manager (allocate_page manager).0 (allocate_page manager).1
allocate_page-GivesPage_example = allocate_page-GivesPage manager init-Inv two_extents-IsOrdered

first_page_real : (PageAllocator.allocate init).1 ≢ invalid_page_id
first_page_real e = omega (arith, first_page, e)

first_page_longer : starts_longer (one_page (PageAllocator.allocate init).1) two_extents ≡ true
first_page_longer = rw first_page refl

free_page_lem_example :
    ((free_page manager 12).1 ≡ (is_allocated init 12 && leb reserved_page_count 12))
    × ((p : ℕ)
        → is_allocated (free_page manager 12).0.pages p
          ≡ (is_allocated init p && not ((free_page manager 12).1 && p == 12)))
    × ((p : ℕ)
        → is_free (free_page manager 12).0.extents.fsm p
          ≡ (is_free two_extents p || (free_page manager 12).1 && p == 12))
    × Inv (free_page manager 12).0.pages
    × IsOrdered (free_page manager 12).0.extents.fsm
free_page_lem_example = free_page_lem manager 12 init-Inv two_extents-IsOrdered
