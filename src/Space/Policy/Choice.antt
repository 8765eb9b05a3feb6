-- ===== src/Space/Policy/Choice.antt =====
-- Every policy of AllocationPolicy.cpp picks free pages.
use quartz_database_c.Prelude.{
  ℕ, ◌<◌, ◌≡◌, ◌||◌, some, List, [], ◌∷◌, arith, ltb, leb, refl, All, Bool-cases, Option-cases, inl,
  inr, leb→le,
}
use quartz_database_c.Space.Extent.{Extent, is_valid}
use quartz_database_c.Space.FreeSpaceMap.{FreeSpaceMap}
use quartz_database_c.Space.FreeSpaceMap.Pages.{IsOrdered}
use quartz_database_c.Space.FreeSpaceMap.Find.{find_best_range}
use quartz_database_c.Space.FreeSpaceMap.Find.Fit.{IsFreeIn, Separated-IsFreeIn}
use quartz_database_c.Space.FreeSpaceMap.Find.Pick.{
  Picks, prefix-IsFreeIn, find_exact_range-Picks, find_free_range-Picks, find_best_range-Picks,
}
use quartz_database_c.Space.Policy.{
  AllocationHints, Policy, first_fit_policy, best_fit_policy, sequential_policy, allocate_first_fit,
  allocate_best_fit, scan, before_cursor, from_cursor, scan_around, allocate_sequential, allocate,
}

module _ (fsm : FreeSpaceMap) (s : IsOrdered fsm) (count : ℕ) (positive : 0 < count) where
  pub allocate_first_fit-Picks :
      (hints : AllocationHints) → Picks count fsm (allocate_first_fit fsm count hints)
  unfolding allocate_first_fit
  allocate_first_fit-Picks hints = elim (Bool-cases hints.exact_fit) [
    | inl a ↦ rw a (find_exact_range-Picks fsm count s)
    | inr a ↦ rw a (elim (Bool-cases (hints.prefer_contiguous || ltb 1 count)) [
      | inl b ↦ rw b (find_free_range-Picks fsm count _ s positive)
      | inr b ↦ rw b (find_free_range-Picks fsm count _ s positive)
    ])
  ]

  allocate_best_fit-Picks :
      (hints : AllocationHints) → Picks count fsm (allocate_best_fit fsm count hints)
  unfolding allocate_best_fit
  allocate_best_fit-Picks hints = elim (Bool-cases hints.exact_fit) [
    | inl a ↦ rw a (find_exact_range-Picks fsm count s)
    | inr a ↦ rw a (elim (Bool-cases (hints.prefer_contiguous || ltb 1 count)) [
      | inl b ↦ rw b (elim (Bool-cases (is_valid (find_best_range fsm count))) [
        | inl c ↦ rw c (find_best_range-Picks fsm count s positive)
        | inr c ↦ rw c (find_free_range-Picks fsm count _ s positive)
      ])
      | inr b ↦ rw b (find_free_range-Picks fsm count _ s positive)
    ])
  ]

  scan-Picks :
      (es : List Extent) (start : ℕ)
      → All (IsFreeIn fsm) es
      → scan count es ≡ some start
      → IsFreeIn fsm (record { start = start; length = count })
  unfolding scan
  scan-Picks [] start h e = cc
  scan-Picks (x ∷ es) start h e = elim (Bool-cases (leb count x.length)) [
    | inl a ↦
        let q : x.start ≡ start = ground arith in
        rw (← q) (prefix-IsFreeIn count fsm x positive (leb→le _ _ a) h.0)
    | inr a ↦ scan-Picks es start h.1 (rw a at e)
  ]

  scan_around-Picks :
      (before es : List Extent) (start : ℕ)
      → All (IsFreeIn fsm) before
      → All (IsFreeIn fsm) es
      → scan_around count before es ≡ some start
      → IsFreeIn fsm (record { start = start; length = count })
  unfolding scan_around
  scan_around-Picks before [] start h h' e = scan-Picks before start h e
  scan_around-Picks before (x ∷ es) start h h' e = elim (Option-cases (scan count (x ∷ es))) [
    | inl none_left ↦ scan-Picks before start h (rw (none_left, scan_around) at e)
    | inr (found, q) ↦ scan-Picks (x ∷ es) start h' (ground arith)
  ]

All-before_cursor {κ} :
    (P : Extent → Type κ) (cursor : ℕ) (xs : List Extent)
    → All P xs
    → All P (before_cursor cursor xs)
unfolding before_cursor
All-before_cursor P cursor [] h = h
All-before_cursor P cursor (e ∷ es) h = elim (Bool-cases (ltb e.start cursor)) [
  | inl a ↦ rw a (h.0, All-before_cursor P cursor es h.1)
  | inr a ↦ rw a tt
]

All-from_cursor {κ} :
    (P : Extent → Type κ) (cursor : ℕ) (xs : List Extent) → All P xs → All P (from_cursor cursor xs)
unfolding from_cursor
All-from_cursor P cursor [] h = h
All-from_cursor P cursor (e ∷ es) h = elim (Bool-cases (ltb e.start cursor)) [
  | inl a ↦ rw a (All-from_cursor P cursor es h.1)
  | inr a ↦ rw a h
]

allocate_sequential-Picks :
    (fsm : FreeSpaceMap) (count cursor : ℕ)
    → IsOrdered fsm
    → 0 < count
    → Picks count fsm (allocate_sequential cursor fsm count).0
unfolding allocate_sequential
allocate_sequential-Picks fsm count cursor s positive =
    elim (Option-cases (scan_around count (before_cursor cursor fsm) (from_cursor cursor fsm))) [
      | inl missed ↦ rw (missed, allocate_sequential) (inr refl)
      | inr (start, found) ↦
          rw (found, allocate_sequential)
            (inl (
              refl,
              scan_around-Picks fsm s count positive (before_cursor cursor fsm)
                  (from_cursor cursor fsm) start
                  (All-before_cursor (IsFreeIn fsm) cursor fsm all_free)
                  (All-from_cursor (IsFreeIn fsm) cursor fsm all_free) found,
            ))
    ]
  where
    all_free : All (IsFreeIn fsm) fsm
    all_free = Separated-IsFreeIn 0 fsm s

-- On a map in order, every policy, with any hints and at any cursor, picks a run of as many pages as
-- were asked for, all free, or `Extent{}`.
pub allocate-Picks :
    (policy : Policy) (fsm : FreeSpaceMap) (count : ℕ) (hints : AllocationHints)
    → IsOrdered fsm
    → 0 < count
    → Picks count fsm (allocate policy fsm count hints).0
unfolding allocate
allocate-Picks first_fit_policy fsm count hints s positive =
    allocate_first_fit-Picks fsm s count positive hints
allocate-Picks best_fit_policy fsm count hints s positive =
    allocate_best_fit-Picks fsm s count positive hints
allocate-Picks (sequential_policy cursor) fsm count hints s positive =
    allocate_sequential-Picks fsm count cursor s positive

pub allocate-first_fit_policy :
    (fsm : FreeSpaceMap) (count : ℕ) (hints : AllocationHints)
    → allocate first_fit_policy fsm count hints
      ≡ (allocate_first_fit fsm count hints, first_fit_policy)
unfolding allocate
allocate-first_fit_policy fsm count hints = refl
