-- ===== src/Space/Extent.antt =====
-- space/Extent.h and Extent.cpp: a run of pages. Page ids are 32-bit words, and their sums wrap.
pub mod Pages
use quartz_database_c.Prelude.{
  ℕ, ◌+◌, ◌-◌, ◌%◌, ◌^◌, Bool, false, not, ◌&&◌, ◌||◌, Option, none, some, min, max, ltb, leb, ◌==◌,
  if◌then◌else◌,
}

-- common/Config.h, `kInvalidPageId`.
abbrev pub invalid_page_id : ℕ
invalid_page_id = 0xffff_ffff

pub record Extent : Type 0 where
  pub start : ℕ
  pub length : ℕ

-- `Extent{}`.
abbrev pub no_extent : Extent
no_extent = record { start = invalid_page_id; length = 0 }

unfoldable pub is_valid : Extent → Bool
is_valid e = ltb 0 e.length && not (e.start == invalid_page_id)

pub first_page : Extent → ℕ
first_page e = e.start

pub last_page : Extent → ℕ
last_page e = (e.start + e.length + 2 ^ 32 - 1) % 2 ^ 32

unfoldable pub end_page : Extent → ℕ
end_page e = (e.start + e.length) % 2 ^ 32

pub contains_page : Extent → ℕ → Bool
contains_page e page = leb e.start page && ltb page (end_page e)

unfoldable pub contains_extent : Extent → Extent → Bool
contains_extent e other =
    is_valid other && leb e.start other.start && leb (end_page other) (end_page e)

unfoldable pub intersects : Extent → Extent → Bool
intersects a b =
    if not (is_valid a) || not (is_valid b)
    then false
    else ltb a.start (end_page b) && ltb b.start (end_page a)

pub adjacent_to : Extent → Extent → Bool
adjacent_to a b =
    if not (is_valid a) || not (is_valid b)
    then false
    else end_page a == b.start || end_page b == a.start

pub can_merge : Extent → Extent → Bool
can_merge a b = intersects a b || adjacent_to a b

pub merge : Extent → Extent → Option Extent
merge a b =
    let new_start = min a.start b.start in
    let new_end = max (end_page a) (end_page b) in
    if not (is_valid a) || not (is_valid b)
    then none
    else if leb new_end new_start
    then none
    else some (record { start = new_start; length = new_end - new_start })

unfoldable pub split : Extent → ℕ → Option (Extent × Extent)
split e at_page =
    if not (is_valid e) || leb at_page e.start || leb (end_page e) at_page
    then none
    else some (
      record { start = e.start; length = at_page - e.start },
      record { start = at_page; length = end_page e - at_page },
    )
