-- ===== src/Space/Tests/Requests.antt =====
-- Runs of space/ExtentAllocator.cpp and AllocationPolicy.cpp on a map with two extents.
use quartz_database_c.Prelude.{ℕ, ◌≡◌, ◌≢◌, ◌⊎◌, true, false, arith, refl, sym, ap, ◌∙◌}
use quartz_database_c.Status.{success}
use quartz_database_c.Space.Extent.{Extent, no_extent, is_valid}
use quartz_database_c.Space.FreeSpaceMap.Pages.{is_free, IsOrdered}
use quartz_database_c.Space.FreeSpaceMap.Find.Pick.{Picks}
use quartz_database_c.Space.FreeSpaceMap.MarkAllocated.{mark_allocated_takes_range}
use quartz_database_c.Space.FreeSpaceMap.Find.{find_free_range, first_fit}
use quartz_database_c.Space.FreeSpaceMap.Allocate.{starts_longer}
use quartz_database_c.Space.Policy
use quartz_database_c.Space.Policy.{
  AllocationHints, first_fit_policy, best_fit_policy, sequential_policy, allocate_first_fit,
}
use quartz_database_c.Space.Policy.Choice.{allocate-Picks}
use quartz_database_c.Space.Allocator.{ExtentAllocator, allocate, release}
use quartz_database_c.Space.Allocator.Requests.{Takes, allocate-Takes, release-allocate}
use quartz_database_c.Space.Tests.{extent, two_extents, no_hints}
use quartz_database_c.Space.Tests.Maps.{extent_8-Fits, two_extents-IsOrdered}

abbrev first_fit_allocator : ExtentAllocator
first_fit_allocator = record { fsm = two_extents; policy = first_fit_policy }

allocate-Picks_example :
    Picks 6 two_extents (Policy.allocate (sequential_policy 16) two_extents 6 no_hints).0
allocate-Picks_example =
    allocate-Picks (sequential_policy 16) two_extents 6 no_hints two_extents-IsOrdered (omega arith)

allocate-Takes_example :
    (((allocate first_fit_allocator 4 no_hints).1 ≡ no_extent)
      × ((allocate first_fit_allocator 4 no_hints).0.fsm ≡ two_extents))
    ⊎ Takes two_extents 4
        (allocate first_fit_allocator 4 no_hints).1
        (allocate first_fit_allocator 4 no_hints).0.fsm
allocate-Takes_example =
    allocate-Takes first_fit_allocator 4 no_hints two_extents-IsOrdered (omega arith)

picks_four : (allocate first_fit_allocator 4 no_hints).1 ≡ extent 8 4
unfolding allocate Policy.allocate allocate_first_fit find_free_range first_fit is_valid
picks_four =
    rw
      (mark_allocated_takes_range two_extents (extent 8 4) two_extents-IsOrdered extent_8-Fits
        refl).2
      refl

clean_four : starts_longer (allocate first_fit_allocator 4 no_hints).1 two_extents ≡ false
clean_four = rw picks_four refl

picks_two : allocate_first_fit two_extents 2 no_hints ≡ extent 8 2
unfolding allocate_first_fit find_free_range first_fit
picks_two = refl

longer_two : starts_longer (allocate_first_fit two_extents 2 no_hints) two_extents ≡ true
longer_two = rw picks_two refl

some_four : (allocate first_fit_allocator 4 no_hints).1 ≢ no_extent
some_four h = omega (arith, ap (λ (e : Extent). e.start) (sym picks_four ∙ h))

-- Four pages are taken and released.
release-allocate_example :
    ((p : ℕ)
      → is_free
          (release
            (allocate first_fit_allocator 4 no_hints).0
            (allocate first_fit_allocator 4 no_hints).1).0.fsm
          p
        ≡ is_free two_extents p)
    × IsOrdered
        (release
          (allocate first_fit_allocator 4 no_hints).0
          (allocate first_fit_allocator 4 no_hints).1).0.fsm
    × ((release
          (allocate first_fit_allocator 4 no_hints).0
          (allocate first_fit_allocator 4 no_hints).1).1
        ≡ success)
release-allocate_example =
    release-allocate first_fit_allocator 4 no_hints two_extents-IsOrdered (omega arith) some_four
      clean_four
