-- ===== src/Storage/Tests.antt =====
-- Runs of storage/PageAllocator.cpp.
use quartz_database_c.Prelude.{ℕ, ◌+◌, ◌≡◌, ◌⊎◌, true, not, ◌&&◌, ◌==◌, leb, [], ◌∷◌}
use quartz_database_c.Storage.PageAllocator.{
  PageAllocator, init, allocate, free, is_allocated, reserved_page_count, max_page_id,
  invalid_page_id,
}
use quartz_database_c.Storage.PageAllocator.Invariant.{Inv}
use quartz_database_c.Storage.PageAllocator.Ownership.{
  HandsOut, allocates, frees, TotalsAgree, run, allocate-HandsOut, free_lem, run-init-Inv,
}

abbrev two_pages : PageAllocator
two_pages = run init (allocates ∷ allocates ∷ [])

allocate-HandsOut_example :
    ((allocate two_pages ≡ (two_pages, invalid_page_id))
      × (two_pages.next_page_id ≡ max_page_id + 1)
      × (two_pages.free_list ≡ []))
    ⊎ HandsOut two_pages (allocate two_pages).0 (allocate two_pages).1
allocate-HandsOut_example =
    allocate-HandsOut two_pages (run-init-Inv (allocates ∷ allocates ∷ [])).0

free_lem_example :
    ((free two_pages 9).1 ≡ (is_allocated two_pages 9 && leb reserved_page_count 9))
    × (((free two_pages 9).1 ≡ true) ⊎ ((free two_pages 9).0 ≡ two_pages))
    × ((p : ℕ)
        → is_allocated (free two_pages 9).0 p
          ≡ (is_allocated two_pages p && not ((free two_pages 9).1 && p == 9)))
    × Inv (free two_pages 9).0
free_lem_example = free_lem two_pages 9 (run-init-Inv (allocates ∷ allocates ∷ [])).0

run-init-Inv_example :
    Inv (run init (allocates ∷ allocates ∷ frees 8 ∷ allocates ∷ []))
    × TotalsAgree (run init (allocates ∷ allocates ∷ frees 8 ∷ allocates ∷ []))
run-init-Inv_example = run-init-Inv (allocates ∷ allocates ∷ frees 8 ∷ allocates ∷ [])
