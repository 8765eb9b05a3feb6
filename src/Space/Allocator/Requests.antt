-- ===== src/Space/Allocator/Requests.antt =====
-- What one request, and the same request made again, get from the allocator of ExtentAllocator.cpp.
use quartz_database_c.Prelude.{
  ℕ, ◌+◌, ◌<◌, ◌≡◌, ◌≢◌, true, false, not, ◌&&◌, ◌||◌, List, [], ◌∷◌, arith, ◌==◌, refl, ap,
  Bool-cases, inl, inr, ◌⊎◌,
}
use quartz_database_c.Status.{success}
use quartz_database_c.Space.Extent.{Extent, no_extent}
use quartz_database_c.Space.Extent.Pages.{has_page, is_valid-eq, is_valid-no_extent}
use quartz_database_c.Space.FreeSpaceMap.{FreeSpaceMap, mark_allocated}
use quartz_database_c.Space.FreeSpaceMap.Pages.{is_free, Separated, IsOrdered}
use quartz_database_c.Space.FreeSpaceMap.Find.Fit.{IsFreeIn}
use quartz_database_c.Space.FreeSpaceMap.Allocate.{starts_longer, overlaps}
use quartz_database_c.Space.FreeSpaceMap.MarkAllocated.{
  mark_allocated_takes_range, mark_allocated_skips_start,
}
use quartz_database_c.Space.FreeSpaceMap.Free.{mark_free_adds_range}
use quartz_database_c.Space.Policy
use quartz_database_c.Space.Policy.{Policy, AllocationHints, first_fit_policy, allocate_first_fit}
use quartz_database_c.Space.Policy.Choice.{
  allocate-Picks, allocate-first_fit_policy, allocate_first_fit-Picks,
}
use quartz_database_c.Space.Allocator.{ExtentAllocator, allocate, release}

-- A free page in the range is an overlap.
overlaps_free :
    (range : Extent) (xs : List Extent) (p : ℕ)
    → has_page range p ≡ true
    → is_free xs p ≡ true
    → overlaps range xs ≡ true
overlaps_free range [] p h f = cc
overlaps_free range (e ∷ es) p h f = ground (arith, overlaps_free range es p)

-- No run of pages starts at the invalid page id.
no_longer : (lo : ℕ) (xs : List Extent) → Separated lo xs → starts_longer no_extent xs ≡ true → ⊥
no_longer lo [] s h = cc
no_longer lo (e ∷ es) s h = ground (arith, s.1.bounded, no_longer (e.start + e.length + 1) es s.2)

-- What a request with the extent `e` has done to the map.
pub record Takes (before : FreeSpaceMap) (count : ℕ) (e : Extent) (after : FreeSpaceMap)
    : Type 0 where
  pub count_eq : e.length ≡ count
  pub all_free : IsFreeIn before e
  pub in_order : IsOrdered after
  pub pages :
      (p : ℕ)
      → is_free after p ≡ (is_free before p && (starts_longer e before || not (has_page e p)))

mark_allocated-Takes :
    (xs : FreeSpaceMap) (count : ℕ) (e : Extent)
    → IsOrdered xs
    → e.length ≡ count
    → IsFreeIn xs e
    → Takes xs count e (mark_allocated xs e).0 × ((mark_allocated xs e).1 ≡ success)
mark_allocated-Takes xs count e s c f = elim (Bool-cases (starts_longer e xs)) [
  | inl longer ↦
      let same = mark_allocated_skips_start xs e s f.0 longer in
      rw same (
        record { count_eq = c; all_free = f; in_order = s; pages = λ p. rw longer (ground arith) },
        refl,
      )
  | inr clean ↦
      let (pages, order, status) = mark_allocated_takes_range xs e s f.0 clean in
      (
        record { count_eq = c; all_free = f; in_order = order; pages = λ p. rw clean (pages p) },
        rw
            (overlaps_free e xs e.start (ground (arith, f.0.nonempty))
              (ground (arith, f.1 e.start, f.0.nonempty)))
            at status,
      )
]

-- A request for some pages, under any policy and hints, on a map in order: it gets `Extent{}` and the map
-- is as it was; or it gets a run of that many pages, all of them free before, and the map stays in order.
-- The pages are free no longer, unless a longer free extent starts with them: then they stay free. No
-- other page changes.
pub allocate-Takes :
    (a : ExtentAllocator) (count : ℕ) (hints : AllocationHints)
    → IsOrdered a.fsm
    → 0 < count
    → let r = allocate a count hints in
      ((r.1 ≡ no_extent) × (r.0.fsm ≡ a.fsm)) ⊎ Takes a.fsm count r.1 r.0.fsm
unfolding allocate
allocate-Takes a count hints s positive =
    let some_pages : (count == 0) ≡ false = ground arith in
    rw (some_pages, allocate)
      (elim (allocate-Picks a.policy a.fsm count hints s positive) [
        | inl (c, f) ↦
            let (takes, fine) =
              mark_allocated-Takes a.fsm count (Policy.allocate a.policy a.fsm count hints).0 s c
                f in
            rw (is_valid-eq _ f.0, fine) (inr takes)
        | inr e ↦ rw (e, is_valid-no_extent) (inl (refl, refl))
      ])

-- On a map in order, releasing the extent that a request got, where no longer free extent starts with
-- it, makes free exactly the pages that were free
-- before the request, with the map in order.
pub release-allocate :
    (a : ExtentAllocator) (count : ℕ) (hints : AllocationHints)
    → IsOrdered a.fsm
    → 0 < count
    → (allocate a count hints).1 ≢ no_extent
    → starts_longer (allocate a count hints).1 a.fsm ≡ false
    → let r = allocate a count hints in
      ((p : ℕ) → is_free (release r.0 r.1).0.fsm p ≡ is_free a.fsm p)
      × IsOrdered (release r.0 r.1).0.fsm
      × ((release r.0 r.1).1 ≡ success)
unfolding release
release-allocate a count hints s positive got clean =
    elim (allocate-Takes a count hints s positive) [
      | inl (none_left, _) ↦ absurd (got none_left)
      | inr t ↦
          let r = allocate a count hints in
          let (pages, order, status) = mark_free_adds_range r.0.fsm r.1 t.in_order t.all_free.0 in
          rw (is_valid-eq r.1 t.all_free.0, release)
            (λ p. ground (arith, pages p, t.pages p, clean, t.all_free.1 p), order, status)
    ]

-- On a map in order, if a longer free extent starts with what the first-fit policy picks, the request leaves the allocator
-- as it was, and the same request made again gets the same extent.
pub allocate_repeats :
    (fsm : FreeSpaceMap) (count : ℕ) (hints : AllocationHints)
    → IsOrdered fsm
    → 0 < count
    → starts_longer (allocate_first_fit fsm count hints) fsm ≡ true
    → let a : ExtentAllocator = record { fsm = fsm; policy = first_fit_policy } in
      (allocate a count hints ≡ (a, allocate_first_fit fsm count hints))
      × (allocate (allocate a count hints).0 count hints ≡ allocate a count hints)
unfolding allocate
allocate_repeats fsm count hints s positive longer = (
  once,
  ap (λ (b : ExtentAllocator). allocate b count hints)
      (ap (λ (r : ExtentAllocator × Extent). r.0) once),
)
  where
    fits : IsFreeIn fsm (allocate_first_fit fsm count hints)
    fits = elim (allocate_first_fit-Picks fsm s count positive hints) [
      | inl (_, f) ↦ f
      | inr e ↦ absurd (no_longer 0 fsm s (rw e at longer))
    ]

    once :
        allocate (record { fsm = fsm; policy = first_fit_policy }) count hints
        ≡ (record { fsm = fsm; policy = first_fit_policy }, allocate_first_fit fsm count hints)
    once =
        let some_pages : (count == 0) ≡ false = ground arith in
        rw
          (
            some_pages,
            allocate-first_fit_policy fsm count hints,
            is_valid-eq _ fits.0,
            mark_allocated_skips_start fsm (allocate_first_fit fsm count hints) s fits.0 longer,
          )
          refl
