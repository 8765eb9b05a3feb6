-- ===== src/Space/FreeSpaceMap/Pages.antt =====
-- A free space map as the set of its free pages, and the order that its extents are kept in.
use quartz_database_c.Prelude.{ℕ, ◌+◌, ◌≤◌, ◌<◌, ◌≡◌, Bool, false, ◌||◌, List, [], ◌∷◌, arith, refl}
use quartz_database_c.Space.Extent.{Extent}
use quartz_database_c.Space.Extent.Pages.{Fits, has_page}

-- The page is free: the specification of the map.
abbrev pub is_free : List Extent → ℕ → Bool
is_free [] p = false
is_free (e ∷ es) p = has_page e p || is_free es p

-- The extents lie above `lo`, in ascending order, with a page at least between two neighbours.
abbrev pub Separated : ℕ → List Extent → Type 0
Separated lo [] = Unit {0}
Separated lo (e ∷ es) = (lo ≤ e.start) × Fits e × Separated (e.start + e.length + 1) es

abbrev pub IsOrdered : List Extent → Type 0
IsOrdered extents = Separated 0 extents

pub Separated-mono : {lo lo' : ℕ} (es : List Extent) → lo' ≤ lo → Separated lo es → Separated lo' es
Separated-mono [] h s = tt
Separated-mono (e ∷ es) h s = (omega arith, s.1, s.2)

pub is_free_below :
    (lo : ℕ) (es : List Extent) (p : ℕ) → Separated lo es → p < lo → is_free es p ≡ false
is_free_below lo [] p s h = refl
is_free_below lo (e ∷ es) p s h = ground (arith, is_free_below (e.start + e.length + 1) es p s.2)
