-- ===== src/Space/FreeSpaceMap/Find/Pages.antt =====
-- The reading methods of FreeSpaceMap.cpp against the set of free pages.
use quartz_database_c.Prelude.{
  ℕ, ◌+◌, ◌<◌, ◌≡◌, ◌||◌, some, List, [], ◌∷◌, arith, ltb, refl, Bool-cases, inl, inr, ltb→lt,
}
use quartz_database_c.Space.Extent.{Extent}
use quartz_database_c.Space.Extent.Pages.{Fits, has_page, contains_page-eq}
use quartz_database_c.Space.FreeSpaceMap.{FreeSpaceMap}
use quartz_database_c.Space.FreeSpaceMap.Find.{contains_after, contains}
use quartz_database_c.Space.FreeSpaceMap.Pages.{is_free, Separated, IsOrdered, is_free_below}

contains_after-is_free :
    (prev : Extent) (es : List Extent) (p : ℕ)
    → Fits prev
    → prev.start < p
    → Separated (prev.start + prev.length + 1) es
    → contains_after (some prev) es p ≡ (has_page prev p || is_free es p)
unfolding contains_after
contains_after-is_free prev [] p f h s = ground (arith, contains_page-eq prev p f)
contains_after-is_free prev (e ∷ es) p f h s = elim (Bool-cases (ltb e.start p)) [
  | inl a ↦ rw a (ground (arith, contains_after-is_free e es p s.1 (ltb→lt _ _ a) s.2))
  | inr a ↦ rw a (
      ground (
        arith,
        contains_page-eq prev p f,
        s.1.nonempty,
        is_free_below (e.start + e.length + 1) es p s.2,
      ))
]

-- On a map in order, the binary search of `contains` finds exactly the free pages.
pub contains-is_free : (xs : FreeSpaceMap) (p : ℕ) → IsOrdered xs → contains xs p ≡ is_free xs p
unfolding contains contains_after
contains-is_free [] p s = refl
contains-is_free (e ∷ es) p s = elim (Bool-cases (ltb e.start p)) [
  | inl a ↦ rw a (contains_after-is_free e es p s.1 (ltb→lt _ _ a) s.2)
  | inr a ↦ rw a (ground (arith, s.1.nonempty, is_free_below (e.start + e.length + 1) es p s.2))
]
