-- ===== src/Space/FreeSpaceMap/Find.antt =====
-- FreeSpaceMap.cpp, the methods that only read the map.
pub mod Pages
pub mod Order
pub mod Fit
pub mod Pick
use mathlib.Core.List.{reverse}
use quartz_database_c.Prelude.{
  ℕ, ◌+◌, ◌-◌, ◌%◌, ◌^◌, Bool, true, false, not, ◌||◌, Option, none, some, List, [], ◌∷◌, length,
  ltb, leb, ◌==◌, if◌then◌else◌,
}
use quartz_database_c.Status.{Status, success, ok, err, corruption}
use quartz_database_c.Space.Extent.{
  Extent, no_extent, is_valid, contains_page, intersects, adjacent_to,
}
use quartz_database_c.Space.FreeSpaceMap.{FreeSpaceMap}

-- The two search loops of `findFreeRange`.
unfoldable pub first_fit : ℕ → List Extent → Extent
first_fit count [] = no_extent
first_fit count (e ∷ es) =
    if leb count e.length then record { start = e.start; length = count } else first_fit count es

pub last_fit : ℕ → List Extent → Extent
last_fit count [] = no_extent
last_fit count (e ∷ es) =
    if leb count e.length
    then record { start = (e.start + (e.length - count)) % 2 ^ 32; length = count }
    else last_fit count es

unfoldable pub find_free_range : FreeSpaceMap → ℕ → Bool → Extent
find_free_range extents count prefer_beginning =
    if count == 0
    then no_extent
    else if prefer_beginning
    then first_fit count extents
    else last_fit count (reverse extents)

pub find_exact_range : FreeSpaceMap → ℕ → Extent
find_exact_range [] count = no_extent
find_exact_range (e ∷ es) count = if e.length == count then e else find_exact_range es count

-- `best` is the pointer of the loop.
pub is_better : ℕ → Extent → Option Extent → Bool
is_better count e none = leb count e.length
is_better count e (some best) = if leb count e.length then ltb e.length best.length else false

pub best_fit : ℕ → Option Extent → List Extent → Option Extent
best_fit count best [] = best
best_fit count best (e ∷ es) = best_fit count (if is_better count e best then some e else best) es

pub find_best_range : FreeSpaceMap → ℕ → Extent
find_best_range extents count = elim (best_fit count none extents) [
  | none ↦ no_extent
  | some best ↦ record { start = best.start; length = count }
]

pub count_loop : ℕ → List Extent → ℕ
count_loop total [] = total
count_loop total (e ∷ es) = count_loop ((total + e.length) % 2 ^ 32) es

pub count_free : FreeSpaceMap → ℕ
count_free extents = count_loop 0 extents

pub count_free_extents : FreeSpaceMap → ℕ
count_free_extents extents = length extents % 2 ^ 32

-- `prev` is the extent before the place of `lower_bound`.
abbrev pub prev_contains : Option Extent → ℕ → Bool
prev_contains none page = false
prev_contains (some prev) page = contains_page prev page

pub contains_after : Option Extent → List Extent → ℕ → Bool
contains_after prev [] page = prev_contains prev page
contains_after prev (e ∷ es) page =
    if ltb e.start page
    then contains_after (some e) es page
    else e.start == page || prev_contains prev page

pub contains : FreeSpaceMap → ℕ → Bool
contains extents page = contains_after none extents page

-- The tests of `validate` on two neighbours, in their order.
pub validate_pair : Extent → Extent → Status
validate_pair prev curr =
    if not (is_valid prev)
    then err corruption
    else if not (is_valid curr)
    then err corruption
    else if leb curr.start prev.start
    then err corruption
    else if intersects prev curr
    then err corruption
    else if adjacent_to prev curr
    then err corruption
    else success

pub validate_after : Extent → List Extent → Status
validate_after prev [] = success
validate_after prev (curr ∷ es) = elim (validate_pair prev curr) [
  | ok _ ↦ validate_after curr es
  | err c ↦ err c
]

pub validate : FreeSpaceMap → Status
validate [] = success
validate (e ∷ es) = validate_after e es
