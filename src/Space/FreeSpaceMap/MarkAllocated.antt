-- ===== src/Space/FreeSpaceMap/MarkAllocated.antt =====
-- What `FreeSpaceMap::markAllocated` does to the free pages of a well-formed map.
use quartz_database_c.Prelude.{
  ℕ, ◌+◌, ◌≤◌, ◌<◌, ◌≡◌, Bool, true, false, not, ◌&&◌, ◌||◌, List, [], ◌∷◌, arith, ltb, leb, ◌==◌,
  refl, if◌then◌else◌, Bool-cases, inl, inr,
}
use quartz_database_c.Status.{success, err, invalid_argument}
use quartz_database_c.Space.Extent.{Extent, end_page}
use quartz_database_c.Space.Extent.Pages.{Fits, has_page, end_page-eq, is_valid-eq}
use quartz_database_c.Space.FreeSpaceMap.{
  FreeSpaceMap, allocate_loop, allocate_from, mark_allocated,
}
use quartz_database_c.Space.FreeSpaceMap.Pages.{
  is_free, Separated, IsOrdered, Separated-mono, is_free_below,
}
use quartz_database_c.Space.FreeSpaceMap.Allocate.{
  starts_longer, overlaps, allocate_loop_cases, split_out-is_free, split_out-Separated,
}

module _ (range : Extent) (f : Fits range) where
  overlaps_above :
      (lo : ℕ) (es : List Extent)
      → Separated lo es
      → range.start + range.length ≤ lo
      → overlaps range es ≡ false
  overlaps_above lo [] s h = refl
  overlaps_above lo (e ∷ es) s h = ground (arith, overlaps_above (e.start + e.length + 1) es s.2)

  -- The pages of the range are taken away, and no other.
  allocate_loop-is_free :
      (lo : ℕ) (changed : Bool) (xs : List Extent) (p : ℕ)
      → Separated lo xs
      → starts_longer range xs ≡ false
      → is_free (allocate_loop range changed xs).0 p ≡ (is_free xs p && not (has_page range p))
  unfolding allocate_loop
  allocate_loop-is_free lo changed [] p s h = refl
  allocate_loop-is_free lo changed (e ∷ es) p s h =
      let above = is_free_below (e.start + e.length + 1) es p s.2 in
      let later = allocate_loop-is_free (e.start + e.length + 1) true es p s.2 in
      let kept = allocate_loop-is_free (e.start + e.length + 1) changed es p s.2 in
      allocate_loop_cases range e f s.1 changed es
        (λ r. is_free r.0 p ≡ (is_free (e ∷ es) p && not (has_page range p)))
        (λ a. ground (arith, above)) (λ a b. ground (arith, later)) (λ a b. absurd (ground arith))
        (λ a b c. ground (arith, above)) (λ a b. split_out-is_free range f e es p s.1 s.2 a b)
        (λ a b c. ground (arith, later, above)) (λ a. ground (arith, kept, above))

  -- The order is kept.
  allocate_loop-Separated :
      (lo : ℕ) (changed : Bool) (xs : List Extent)
      → Separated lo xs
      → Separated lo (allocate_loop range changed xs).0
  unfolding allocate_loop
  allocate_loop-Separated lo changed [] s = tt
  allocate_loop-Separated lo changed (e ∷ es) s =
      let later = allocate_loop-Separated (e.start + e.length + 1) true es s.2 in
      allocate_loop_cases range e f s.1 changed es (λ r. Separated lo r.0) (λ a. s)
        (λ a b. Separated-mono (allocate_loop range true es).0 (omega arith) later) (λ a b. s)
        (λ a b c. (omega arith, omega (arith, s.1.bounded), Separated-mono es (omega arith) s.2))
        (λ a b. split_out-Separated range f lo e es s a b)
        (λ a b c. (
          s.0,
          omega (arith, s.1.bounded),
          Separated-mono (allocate_loop range true es).0 (omega arith) later,
        ))
        (λ a. (s.0, s.1, allocate_loop-Separated (e.start + e.length + 1) changed es s.2))

  -- It succeeds where a free page is in the range.
  allocate_loop-overlaps :
      (lo : ℕ) (changed : Bool) (xs : List Extent)
      → Separated lo xs
      → (allocate_loop range changed xs).1 ≡ (changed || overlaps range xs)
  unfolding allocate_loop
  allocate_loop-overlaps lo changed [] s = ground arith
  allocate_loop-overlaps lo changed (e ∷ es) s =
      let later = allocate_loop-overlaps (e.start + e.length + 1) true es s.2 in
      let kept = allocate_loop-overlaps (e.start + e.length + 1) changed es s.2 in
      let none = overlaps_above (e.start + e.length + 1) es s.2 in
      allocate_loop_cases range e f s.1 changed es (λ r. r.1 ≡ (changed || overlaps range (e ∷ es)))
        (λ a. ground (arith, none)) (λ a b. ground (arith, later, f.nonempty, s.1.nonempty))
        (λ a b. ground (arith, f.nonempty, s.1.nonempty)) (λ a b c. ground arith)
        (λ a b. ground (arith, f.nonempty)) (λ a b c. ground (arith, later))
        (λ a. ground (arith, kept))

  -- The same from the place of `lower_bound` on; the extents before it end before the range.
  allocate_from-is_free :
      (lo : ℕ) (xs : List Extent) (p : ℕ)
      → Separated lo xs
      → starts_longer range xs ≡ false
      → is_free (allocate_from range xs).0 p ≡ (is_free xs p && not (has_page range p))
  unfolding allocate_from
  allocate_from-is_free lo [] p s h = refl
  allocate_from-is_free lo (e ∷ es) p s h = ground (
    arith,
    end_page-eq e s.1,
    allocate_from-is_free (e.start + e.length + 1) es p s.2,
    allocate_loop-is_free lo false (e ∷ es) p s h,
  )

  allocate_from-Separated :
      (lo : ℕ) (xs : List Extent) → Separated lo xs → Separated lo (allocate_from range xs).0
  unfolding allocate_from
  allocate_from-Separated lo [] s = tt
  allocate_from-Separated lo (e ∷ es) s = elim (Bool-cases (leb (end_page e) range.start)) [
    | inl a ↦ rw a (s.0, s.1, allocate_from-Separated (e.start + e.length + 1) es s.2)
    | inr a ↦ rw a (allocate_loop-Separated lo false (e ∷ es) s)
  ]

  allocate_from-overlaps :
      (lo : ℕ) (xs : List Extent) → Separated lo xs → (allocate_from range xs).1 ≡ overlaps range xs
  unfolding allocate_from
  allocate_from-overlaps lo [] s = refl
  allocate_from-overlaps lo (e ∷ es) s = ground (
    arith,
    end_page-eq e s.1,
    allocate_from-overlaps (e.start + e.length + 1) es s.2,
    allocate_loop-overlaps lo false (e ∷ es) s,
  )

  start_above :
      (lo : ℕ) (xs : List Extent)
      → Separated lo xs
      → starts_longer range xs ≡ true
      → lo ≤ range.start
  start_above lo [] s h = cc
  start_above lo (e ∷ es) s h = ground (arith, start_above (e.start + e.length + 1) es s.2)

  loop_same :
      (e : Extent) (es : List Extent)
      → Fits e
      → e.start ≡ range.start
      → range.length < e.length
      → allocate_loop range false (e ∷ es) ≡ (e ∷ es, true)
  loop_same e es g h h' =
      allocate_loop_cases range e f g false es (λ r. r ≡ (e ∷ es, true))
        (λ a. absurd (omega (arith, f.nonempty))) (λ a b. absurd (omega arith)) (λ a b. refl)
        (λ a b c. absurd (omega arith)) (λ a b. absurd (omega arith))
        (λ a b c. absurd (omega arith)) (λ a. absurd (omega (arith, g.nonempty)))

  allocate_from-same :
      (lo : ℕ) (xs : List Extent)
      → Separated lo xs
      → starts_longer range xs ≡ true
      → allocate_from range xs ≡ (xs, true)
  unfolding allocate_from
  allocate_from-same lo [] s h = cc
  allocate_from-same lo (e ∷ es) s h =
      elim (Bool-cases (e.start == range.start && ltb range.length e.length)) [
        | inl here ↦
            ground (arith, end_page-eq e s.1, loop_same e es s.1 (ground arith) (ground arith))
        | inr later ↦
            let rest : starts_longer range es ≡ true = ground arith in
            ground (
              arith,
              end_page-eq e s.1,
              start_above (e.start + e.length + 1) es s.2 rest,
              allocate_from-same (e.start + e.length + 1) es s.2 rest,
            )
      ]

-- On a map in order, taking a range that no longer free extent starts with takes away the pages of the
-- range and no other, keeps the map in order, and succeeds exactly if a page of the range was free.
pub mark_allocated_takes_range :
    (xs : FreeSpaceMap) (range : Extent)
    → IsOrdered xs
    → Fits range
    → starts_longer range xs ≡ false
    → ((p : ℕ) → is_free (mark_allocated xs range).0 p ≡ (is_free xs p && not (has_page range p)))
      × IsOrdered (mark_allocated xs range).0
      × ((mark_allocated xs range).1
          ≡ (if overlaps range xs then success else err invalid_argument))
unfolding mark_allocated
mark_allocated_takes_range [] range s f h = (λ p. refl, tt, refl)
mark_allocated_takes_range (e ∷ es) range s f h = (
  λ p. rw (is_valid-eq range f) (allocate_from-is_free range f 0 (e ∷ es) p s h),
  rw (is_valid-eq range f) (allocate_from-Separated range f 0 (e ∷ es) s),
  ground (arith, is_valid-eq range f, allocate_from-overlaps range f 0 (e ∷ es) s),
)

-- On a map in order, if a longer free extent starts with the range, `markAllocated` reports success and takes nothing away.
pub mark_allocated_skips_start :
    (xs : FreeSpaceMap) (range : Extent)
    → IsOrdered xs
    → Fits range
    → starts_longer range xs ≡ true
    → mark_allocated xs range ≡ (xs, success)
unfolding mark_allocated
mark_allocated_skips_start [] range s f h = cc
mark_allocated_skips_start (e ∷ es) range s f h =
    ground (arith, is_valid-eq range f, allocate_from-same range f 0 (e ∷ es) s h)
