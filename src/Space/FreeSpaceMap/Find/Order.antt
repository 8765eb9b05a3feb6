-- ===== src/Space/FreeSpaceMap/Find/Order.antt =====
-- `FreeSpaceMap::validate` decides the order of the extents, and `countFree` adds their lengths up.
use quartz_database_c.Prelude.{
  ℕ, ◌+◌, ◌%◌, ◌^◌, ◌≤◌, ◌<◌, ◌≡◌, List, [], ◌∷◌, arith, ltb, refl, if◌then◌else◌, All, Bool-cases,
  inl, inr, ltb→lt, ◌↔◌,
}
use quartz_database_c.Status.{success, err, corruption}
use quartz_database_c.Space.Extent.{Extent}
use quartz_database_c.Space.Extent.Pages.{Fits, is_valid-eq, intersects-eq, adjacent_to-eq}
use quartz_database_c.Space.FreeSpaceMap.{FreeSpaceMap}
use quartz_database_c.Space.FreeSpaceMap.Find.{
  validate_pair, validate_after, validate, count_loop, count_free,
}
use quartz_database_c.Space.FreeSpaceMap.Pages.{Separated, IsOrdered}

-- Two neighbours pass the tests exactly if a page lies between them.
validate_pair-eq :
    (a b : Extent)
    → Fits a
    → Fits b
    → validate_pair a b ≡ (if ltb (a.start + a.length) b.start then success else err corruption)
unfolding validate_pair
validate_pair-eq a b f g = ground (
  arith,
  is_valid-eq a f,
  is_valid-eq b g,
  intersects-eq a b f g,
  adjacent_to-eq a b f g,
  f.nonempty,
  g.nonempty,
)

validate_after-Separated :
    (prev : Extent) (es : List Extent)
    → Fits prev
    → All Fits es
    → (validate_after prev es ≡ success) ↔ Separated (prev.start + prev.length + 1) es
unfolding validate_after
validate_after-Separated prev [] f g = (λ h. tt, λ h. refl)
validate_after-Separated prev (e ∷ es) f g =
    let rest = validate_after-Separated e es g.0 g.1 in
    elim (Bool-cases (ltb (prev.start + prev.length) e.start)) [
      | inl a ↦
          rw (validate_pair-eq prev e f g.0, validate_after, a)
            (λ h. (omega (arith, ltb→lt _ _ a), g.0, rest.0 h), λ h. rest.1 h.2)
      | inr a ↦
          rw (validate_pair-eq prev e f g.0, validate_after, a)
            (λ h. cc, λ h. absurd (ground arith))
    ]

-- Of extents that are runs of pages, `validate` accepts exactly the lists in order: ascending, apart,
-- and with no two neighbours that should have been merged.
pub validate-IsOrdered : (xs : FreeSpaceMap) → All Fits xs → (validate xs ≡ success) ↔ IsOrdered xs
unfolding validate
validate-IsOrdered [] f = (λ h. tt, λ h. refl)
validate-IsOrdered (e ∷ es) f =
    let rest = validate_after-Separated e es f.0 f.1 in
    (λ h. (omega arith, f.0, rest.0 h), λ h. rest.1 h.2)

-- The number of free pages.
abbrev pub pages_in : List Extent → ℕ
pages_in [] = 0
pages_in (e ∷ es) = e.length + pages_in es

pages_in-le :
    (lo : ℕ) (xs : List Extent) → Separated lo xs → (lo ≤ 2 ^ 32) → lo + pages_in xs ≤ 2 ^ 32
pages_in-le lo [] s h = omega arith
pages_in-le lo (e ∷ es) s h =
    omega (arith, s.1.bounded, pages_in-le (e.start + e.length + 1) es s.2)

count_loop-eq :
    (total : ℕ) (xs : List Extent)
    → total + pages_in xs < 2 ^ 32
    → count_loop total xs ≡ total + pages_in xs
unfolding count_loop
count_loop-eq total [] h = omega arith
count_loop-eq total (e ∷ es) h =
    let e1 : (total + e.length) % 2 ^ 32 ≡ total + e.length = omega arith in
    rw e1 (omega (arith, count_loop-eq (total + e.length) es (omega arith)))

-- On a map in order, the 32-bit sum of `countFree` does not wrap: it is the number of free pages.
pub count_free-pages_in : (xs : FreeSpaceMap) → IsOrdered xs → count_free xs ≡ pages_in xs
unfolding count_free
count_free-pages_in [] s = omega (arith, count_loop-eq 0 [] (omega arith))
count_free-pages_in (e ∷ es) s = omega (
  arith,
  s.1.bounded,
  count_loop-eq 0 (e ∷ es) (
      omega (
        arith,
        s.1.bounded,
        pages_in-le (e.start + e.length + 1) es s.2 (omega (arith, s.1.bounded)),
      )),
)
