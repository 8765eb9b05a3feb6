-- ===== src/Space/Tests.antt =====
-- Maps, requests and hints that the runs on concrete inputs share.
pub mod Maps
pub mod Requests
pub mod Pages
use quartz_database_c.Prelude.{ℕ, Bool, false, [], ◌∷◌}
use quartz_database_c.Space.Extent.{Extent}
use quartz_database_c.Space.FreeSpaceMap.{FreeSpaceMap}
use quartz_database_c.Space.Policy.{AllocationHints}

abbrev pub extent : ℕ → ℕ → Extent
extent start length = record { start = start; length = length }

abbrev pub two_extents : FreeSpaceMap
two_extents = extent 8 4 ∷ extent 16 10 ∷ []

abbrev pub no_hints : AllocationHints
no_hints = record {
  prefer_contiguous = false;
  prefer_beginning = false;
  prefer_end = false;
  min_extent_length = 0;
  exact_fit = false;
}
