-- ===== src/Space/Extent/Pages.antt =====
-- An extent as the set of its pages, where its end does not wrap.
use quartz_database_c.Prelude.{
  ℕ, ◌+◌, ◌-◌, ◌^◌, ◌<◌, ◌≡◌, Bool, true, false, ◌&&◌, ◌||◌, none, some, min, max, ltb, leb, ◌==◌,
  arith, refl, if◌then◌else◌,
}
use quartz_database_c.Space.Extent.{
  Extent, no_extent, is_valid, end_page, contains_page, contains_extent, intersects, adjacent_to,
  can_merge, merge, split,
}

-- The page lies in the extent: the specification, with no wrap.
abbrev pub has_page : Extent → ℕ → Bool
has_page e p = leb e.start p && ltb p (e.start + e.length)

-- A run of pages of a real file: not empty, and its end is a page id.
pub record Fits (e : Extent) : Type 0 where
  pub nonempty : 0 < e.length
  pub bounded : e.start + e.length < 2 ^ 32

pub end_page-eq : (e : Extent) → Fits e → end_page e ≡ e.start + e.length
unfolding end_page
end_page-eq e f = omega arith

pub is_valid-eq : (e : Extent) → Fits e → is_valid e ≡ true
unfolding is_valid
is_valid-eq e f = ground arith

pub is_valid-no_extent : is_valid no_extent ≡ false
unfolding is_valid
is_valid-no_extent = refl

pub contains_page-eq : (e : Extent) (p : ℕ) → Fits e → contains_page e p ≡ has_page e p
unfolding contains_page
contains_page-eq e p f = ground (arith, end_page-eq e f)

module _ (a b : Extent) (fa : Fits a) (fb : Fits b) where
  pub contains_extent-eq :
      contains_extent a b ≡ (leb a.start b.start && leb (b.start + b.length) (a.start + a.length))
  unfolding contains_extent
  contains_extent-eq = ground (arith, end_page-eq a fa, end_page-eq b fb, is_valid-eq b fb)

  pub intersects-eq :
      intersects a b ≡ (ltb a.start (b.start + b.length) && ltb b.start (a.start + a.length))
  unfolding intersects
  intersects-eq =
      ground (arith, end_page-eq a fa, end_page-eq b fb, is_valid-eq a fa, is_valid-eq b fb)

  pub adjacent_to-eq :
      adjacent_to a b ≡ ((a.start + a.length) == b.start || (b.start + b.length) == a.start)
  unfolding adjacent_to
  adjacent_to-eq =
      ground (arith, end_page-eq a fa, end_page-eq b fb, is_valid-eq a fa, is_valid-eq b fb)

  -- Two runs merge where neither leaves a page between them.
  pub can_merge-eq :
      can_merge a b ≡ (leb a.start (b.start + b.length) && leb b.start (a.start + a.length))
  unfolding can_merge
  can_merge-eq = ground (arith, intersects-eq, adjacent_to-eq, fa.nonempty, fb.nonempty)

  pub merge-eq :
      merge a b
      ≡ some (record {
        start = min a.start b.start;
        length = max (a.start + a.length) (b.start + b.length) - min a.start b.start;
      })
  unfolding merge
  merge-eq =
      ground
        (arith, end_page-eq a fa, end_page-eq b fb, is_valid-eq a fa, is_valid-eq b fb, fa.nonempty)

pub split-eq :
    (e : Extent) (p : ℕ)
    → Fits e
    → split e p ≡ (
        if leb p e.start || leb (e.start + e.length) p
        then none
        else some (
          record { start = e.start; length = p - e.start },
          record { start = p; length = e.start + e.length - p },
        ))
unfolding split
split-eq e p f = ground (arith, end_page-eq e f, is_valid-eq e f)
