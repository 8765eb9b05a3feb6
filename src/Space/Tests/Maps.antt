-- ===== src/Space/Tests/Maps.antt =====
-- Runs of space/FreeSpaceMap.cpp on a map with two extents.
use quartz_database_c.Prelude.{ℕ, ◌≡◌, ◌↔◌, not, ◌&&◌, ◌||◌, if◌then◌else◌, arith, refl}
use quartz_database_c.Status.{success, err, invalid_argument}
use quartz_database_c.Space.Extent.Pages.{Fits, has_page}
use quartz_database_c.Space.FreeSpaceMap.{mark_allocated, mark_free}
use quartz_database_c.Space.FreeSpaceMap.Pages.{is_free, IsOrdered}
use quartz_database_c.Space.FreeSpaceMap.Allocate.{overlaps}
use quartz_database_c.Space.FreeSpaceMap.MarkAllocated.{
  mark_allocated_takes_range, mark_allocated_skips_start,
}
use quartz_database_c.Space.FreeSpaceMap.Free.{mark_free_adds_range}
use quartz_database_c.Space.FreeSpaceMap.Find.{validate}
use quartz_database_c.Space.FreeSpaceMap.Find.Order.{validate-IsOrdered}
use quartz_database_c.Space.Tests.{extent, two_extents}

pub extent_8-Fits : Fits (extent 8 4)
extent_8-Fits = record { nonempty = omega arith; bounded = omega arith }

extent_12-Fits : Fits (extent 12 4)
extent_12-Fits = record { nonempty = omega arith; bounded = omega arith }

extent_16-Fits : Fits (extent 16 10)
extent_16-Fits = record { nonempty = omega arith; bounded = omega arith }

extent_18-Fits : Fits (extent 18 2)
extent_18-Fits = record { nonempty = omega arith; bounded = omega arith }

extent_8_2-Fits : Fits (extent 8 2)
extent_8_2-Fits = record { nonempty = omega arith; bounded = omega arith }

pub two_extents-IsOrdered : IsOrdered two_extents
two_extents-IsOrdered = (omega arith, extent_8-Fits, (omega arith, extent_16-Fits, tt))

-- The middle of an extent is taken: what is left of it is two extents.
mark_allocated_takes_range_example :
    ((p : ℕ)
      → is_free (mark_allocated two_extents (extent 18 2)).0 p
        ≡ (is_free two_extents p && not (has_page (extent 18 2) p)))
    × IsOrdered (mark_allocated two_extents (extent 18 2)).0
    × ((mark_allocated two_extents (extent 18 2)).1
        ≡ (if overlaps (extent 18 2) two_extents then success else err invalid_argument))
mark_allocated_takes_range_example =
    mark_allocated_takes_range two_extents (extent 18 2) two_extents-IsOrdered extent_18-Fits refl

mark_allocated_skips_start_example :
    mark_allocated two_extents (extent 8 2) ≡ (two_extents, success)
mark_allocated_skips_start_example =
    mark_allocated_skips_start two_extents (extent 8 2) two_extents-IsOrdered extent_8_2-Fits refl

-- The pages between the two extents are freed: one extent is left.
mark_free_adds_range_example :
    ((p : ℕ)
      → is_free (mark_free two_extents (extent 12 4)).0 p
        ≡ (is_free two_extents p || has_page (extent 12 4) p))
    × IsOrdered (mark_free two_extents (extent 12 4)).0
    × ((mark_free two_extents (extent 12 4)).1 ≡ success)
mark_free_adds_range_example =
    mark_free_adds_range two_extents (extent 12 4) two_extents-IsOrdered extent_12-Fits

validate-IsOrdered_example : (validate two_extents ≡ success) ↔ IsOrdered two_extents
validate-IsOrdered_example = validate-IsOrdered two_extents (extent_8-Fits, (extent_16-Fits, tt))
