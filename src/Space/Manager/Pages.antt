-- ===== src/Space/Manager/Pages.antt =====
-- What `allocatePage` and `freePage` of space/SpaceManager.cpp do to the two records of the pages: the
-- page allocator's, and the free space map.
use quartz_database_c.Prelude.{
  ℕ, ◌≤◌, ◌≡◌, ◌≢◌, ◌⊎◌, inl, inr, true, false, not, ◌&&◌, ◌||◌, ◌==◌, leb, ◌∷◌, [], arith, refl,
  Bool-cases,
}
use quartz_database_c.Status.{is_ok}
use quartz_database_c.Storage.PageAllocator
use quartz_database_c.Storage.PageAllocator.{
  invalid_page_id, is_allocated, max_page_id, reserved_page_count,
}
use quartz_database_c.Storage.PageAllocator.Invariant.{Inv}
use quartz_database_c.Storage.PageAllocator.Ownership.{
  HandsOut, is_allocated-le, allocate-HandsOut, free_lem,
}
use quartz_database_c.Space.Extent.Pages.{Fits}
use quartz_database_c.Space.FreeSpaceMap.{FreeSpaceMap, mark_allocated}
use quartz_database_c.Space.FreeSpaceMap.Pages.{is_free, IsOrdered}
use quartz_database_c.Space.FreeSpaceMap.Allocate.{starts_longer, overlaps}
use quartz_database_c.Space.FreeSpaceMap.MarkAllocated.{
  mark_allocated_takes_range, mark_allocated_skips_start,
}
use quartz_database_c.Space.FreeSpaceMap.Free.{mark_free_adds_range}
use quartz_database_c.Space.Manager.{SpaceManager, one_page, allocate_page, free_page}

one_page-Fits : (id : ℕ) → id ≤ max_page_id → Fits (one_page id)
one_page-Fits id h = omega (arith, h)

-- What taking one page out of the map does, in all cases.
overlaps-one_page : (xs : FreeSpaceMap) (id : ℕ) → overlaps (one_page id) xs ≡ is_free xs id
overlaps-one_page [] id = refl
overlaps-one_page (e ∷ es) id = ground (arith, overlaps-one_page es id)

starts_longer_free :
    (xs : FreeSpaceMap) (id : ℕ) → starts_longer (one_page id) xs ≡ true → is_free xs id ≡ true
starts_longer_free [] id h = cc
starts_longer_free (e ∷ es) id h = ground (arith, starts_longer_free es id)

pub record TakesPage (before after : FreeSpaceMap) (id : ℕ) : Type 0 where
  pub taken :
      (p : ℕ)
      → is_free after p
        ≡ (is_free before p && (starts_longer (one_page id) before || not (p == id)))
  pub ordered : IsOrdered after

mark_allocated-TakesPage :
    (xs : FreeSpaceMap) (id : ℕ)
    → IsOrdered xs
    → id ≤ max_page_id
    → TakesPage xs (mark_allocated xs (one_page id)).0 id
      × (is_ok (mark_allocated xs (one_page id)).1 ≡ is_free xs id)
mark_allocated-TakesPage xs id s h = elim (Bool-cases (starts_longer (one_page id) xs)) [
  | inl longer ↦ rw (mark_allocated_skips_start xs (one_page id) s (one_page-Fits id h) longer) (
    record { taken = λ p. rw longer (ground arith); ordered = s },
    rw (starts_longer_free xs id longer) refl,
  )
  | inr clean ↦
      let (pages, order, status) =
        mark_allocated_takes_range xs (one_page id) s (one_page-Fits id h) clean in
      (
        record { taken = λ p. rw clean (ground (arith, pages p)); ordered = order },
        rw (status, overlaps-one_page xs id) (ground arith),
      )
]

-- A page that both records had as free: the page allocator has it as allocated now.
pub record GivesPage (m m' : SpaceManager) (id : ℕ) : Type 0 where
  pub handed : HandsOut m.pages m'.pages id
  pub was_free : is_free m.extents.fsm id ≡ true
  pub map : TakesPage m.extents.fsm m'.extents.fsm id

-- Neither record has changed for any page.
pub record KeepsPages (m m' : SpaceManager) : Type 0 where
  pub allocated : (p : ℕ) → is_allocated m'.pages p ≡ is_allocated m.pages p
  pub free : (p : ℕ) → is_free m'.extents.fsm p ≡ is_free m.extents.fsm p
  pub kept : Inv m'.pages
  pub ordered : IsOrdered m'.extents.fsm

-- `allocatePage`, with the page allocator in a state that its calls reach and the map in order: it gives
-- a page that was free for both; or it returns the invalid page id and no page has changed, the page that
-- the page allocator had handed out, but the map did not have as free, given back.
-- The map has the page as free still if a longer free extent starts with it.
pub allocate_page-GivesPage :
    (m : SpaceManager)
    → Inv m.pages
    → IsOrdered m.extents.fsm
    → (((allocate_page m).1 ≡ invalid_page_id) × KeepsPages m (allocate_page m).0)
      ⊎ GivesPage m (allocate_page m).0 (allocate_page m).1
unfolding allocate_page
allocate_page-GivesPage m v s = elim (allocate-HandsOut m.pages v) [
  | inl (full, _, _) ↦
      rw (full, allocate_page)
        (inl (refl, record { allocated = λ p. refl; free = λ p. refl; kept = v; ordered = s }))
  | inr h ↦
      let id = (PageAllocator.allocate m.pages).1 in
      let real : (id == invalid_page_id) ≡ false = ground (arith, h.data_page) in
      let (t, status) = mark_allocated-TakesPage m.extents.fsm id s h.data_page.1 in
      elim (Bool-cases (is_free m.extents.fsm id)) [
        | inl fine ↦ rw (real, status, fine) (inr (record { handed = h; was_free = fine; map = t }))
        | inr failed ↦
            let (freed, _, others, kept) = free_lem (PageAllocator.allocate m.pages).0 id h.kept in
            rw (real, status, failed)
              (inl (
                refl,
                record {
                  allocated = λ p.
                      ground (arith, others p, freed, h.held p, h.held id, h.fresh, h.data_page);
                  free = λ p. ground (arith, t.taken p, failed);
                  kept = kept;
                  ordered = t.ordered;
                },
              ))
      ]
]

-- With the page allocator in a state that its calls reach, the map in order and a page left: if a longer
-- free extent starts with the page that the page allocator hands out, `allocatePage` returns
-- the page, which is then allocated for the page allocator and free for the map.
pub allocate_page_leaves_free :
    (m : SpaceManager)
    → Inv m.pages
    → IsOrdered m.extents.fsm
    → (PageAllocator.allocate m.pages).1 ≢ invalid_page_id
    → starts_longer (one_page (PageAllocator.allocate m.pages).1) m.extents.fsm ≡ true
    → ((allocate_page m).1 ≡ (PageAllocator.allocate m.pages).1)
      × (is_allocated (allocate_page m).0.pages (allocate_page m).1 ≡ true)
      × (is_free (allocate_page m).0.extents.fsm (allocate_page m).1 ≡ true)
unfolding allocate_page
allocate_page_leaves_free m v s got longer = elim (allocate-HandsOut m.pages v) [
  | inl (full, _, _) ↦ absurd (got (rw full refl))
  | inr h ↦
      let id = (PageAllocator.allocate m.pages).1 in
      let real : (id == invalid_page_id) ≡ false = ground (arith, h.data_page) in
      rw
        (
          real,
          mark_allocated_skips_start m.extents.fsm (one_page id) s (one_page-Fits id h.data_page.1)
              longer,
        )
        (refl, ground (arith, h.held id), starts_longer_free m.extents.fsm id longer)
]

-- `freePage`, with the page allocator in a state that its calls reach and the map in order: it succeeds exactly on an allocated data page. The page is then not
-- allocated, and free in the map, and no other page has changed; where it fails, no page has.
pub free_page_lem :
    (m : SpaceManager) (id : ℕ)
    → Inv m.pages
    → IsOrdered m.extents.fsm
    → let r = free_page m id in
      (r.1 ≡ (is_allocated m.pages id && leb reserved_page_count id))
      × ((p : ℕ) → is_allocated r.0.pages p ≡ (is_allocated m.pages p && not (r.1 && p == id)))
      × ((p : ℕ) → is_free r.0.extents.fsm p ≡ (is_free m.extents.fsm p || r.1 && p == id))
      × Inv r.0.pages
      × IsOrdered r.0.extents.fsm
unfolding free_page
free_page_lem m id v s =
    let (accepts, _, others, kept) = free_lem m.pages id v in
    elim (Bool-cases (PageAllocator.free m.pages id).1) [
      | inl fine ↦
          let small : id ≤ max_page_id =
            is_allocated-le m.pages id v (ground (arith, accepts, fine)) in
          let (pages, order, status) =
            mark_free_adds_range m.extents.fsm (one_page id) s (one_page-Fits id small) in
          rw (fine, status, free_page)
            (cc, λ p. ground (arith, others p, fine), λ p. ground (arith, pages p), kept, order)
      | inr failed ↦
          rw (failed, free_page)
            (cc, λ p. ground (arith, others p, failed), λ p. ground arith, kept, s)
    ]
