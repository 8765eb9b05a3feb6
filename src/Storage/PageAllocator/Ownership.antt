-- ===== src/Storage/PageAllocator/Ownership.antt =====
-- Which pages are allocated after a call of PageAllocator.cpp.
use native.Mathlib.Decide.{dec_lt}
use quartz_database_c.Prelude.{
  ℕ, ◌+◌, ◌%◌, ◌^◌, ◌≤◌, ◌<◌, ◌≡◌, ◌⊎◌, inl, inr, true, false, not, ◌&&◌, ◌||◌, ◌==◌, List, [], ◌∷◌,
  leb, arith, refl,
}
use quartz_database_c.Storage.PageAllocator.{
  PageAllocator, reserved_page_count, max_page_id, invalid_page_id, init, count_allocated,
  allocate_with, allocate, free, in_list, is_allocated, reset,
}
use quartz_database_c.Storage.PageAllocator.Invariant.{Inv, init-Inv, allocate_with-Inv, free-Inv}

-- The page `id` has come from the allocator: it was not allocated, it is now, and no other page changed.
pub record HandsOut (a a' : PageAllocator) (id : ℕ) : Type 0 where
  pub data_page : (reserved_page_count ≤ id) × (id ≤ max_page_id)
  pub fresh : is_allocated a id ≡ false
  pub held : (p : ℕ) → is_allocated a' p ≡ (p == id || is_allocated a p)
  pub kept : Inv a'

allocate_with-HandsOut :
    (a : PageAllocator) (xs : List ℕ)
    → a.free_list ≡ xs
    → Inv a
    → ((allocate_with a xs ≡ (a, invalid_page_id)) × (a.next_page_id ≡ max_page_id + 1) × (xs ≡ []))
      ⊎ HandsOut a (allocate_with a xs).0 (allocate_with a xs).1
allocate_with-HandsOut a [] e v = elim (dec_lt max_page_id a.next_page_id) [
  | yes full ↦ inl (unfold allocate_with in ground arith, omega (arith, v.high), refl)
  | no room ↦ inr (record {
    data_page = unfold allocate_with in ground (arith, v.low);
    fresh = unfold allocate_with is_allocated in ground (arith, v.low);
    held = λ p. unfold allocate_with is_allocated in_list in ground (arith, e, v.low);
    kept = allocate_with-Inv a [] e v;
  })
]
allocate_with-HandsOut a (x ∷ xs) e v = inr (record {
  data_page = unfold allocate_with in ground (arith, e, v.listed, v.high);
  fresh = unfold allocate_with is_allocated in_list in ground (arith, e, v.listed);
  held = λ p. unfold allocate_with is_allocated in_list in ground (arith, e, v.listed, v.high);
  kept = allocate_with-Inv a (x ∷ xs) e v;
})

-- `free` accepts exactly the allocated data pages.
free-eq :
    (a : PageAllocator) (id : ℕ)
    → Inv a
    → (free a id).1 ≡ (is_allocated a id && leb reserved_page_count id)
unfolding free is_allocated
free-eq a id v = ground arith

-- In an allocator that the calls can reach, `allocate` hands out a data page that was not allocated, and
-- leaves every other page as it was; or no page is left, and it changes nothing and says so.
pub allocate-HandsOut :
    (a : PageAllocator)
    → Inv a
    → ((allocate a ≡ (a, invalid_page_id))
        × (a.next_page_id ≡ max_page_id + 1)
        × (a.free_list ≡ []))
      ⊎ HandsOut a (allocate a).0 (allocate a).1
unfolding allocate
allocate-HandsOut a v = allocate_with-HandsOut a a.free_list refl v

-- In an allocator that the calls can reach, `free` succeeds exactly on an allocated data page; that page is then not allocated, and no other page
-- changes. Where it fails it changes nothing.
pub free_lem :
    (a : PageAllocator) (id : ℕ)
    → Inv a
    → ((free a id).1 ≡ (is_allocated a id && leb reserved_page_count id))
      × (((free a id).1 ≡ true) ⊎ ((free a id).0 ≡ a))
      × ((p : ℕ)
          → is_allocated (free a id).0 p ≡ (is_allocated a p && not ((free a id).1 && p == id)))
      × Inv (free a id).0
free_lem a id v = (
  free-eq a id v,
  unfold free in ground arith,
  λ p. unfold free is_allocated in_list in ground arith,
  free-Inv a id v,
)

pub is_allocated-le :
    (a : PageAllocator) (id : ℕ) → Inv a → is_allocated a id ≡ true → id ≤ max_page_id
unfolding is_allocated
is_allocated-le a id v h = ground (arith, v.high)

-- The calls that change the allocator.
pub data Call : Type 0 where
  allocates resets : Call
  frees : ℕ → Call

pub step : PageAllocator → Call → PageAllocator
step a allocates = (allocate a).0
step a (frees id) = (free a id).0
step a resets = reset a

pub run : PageAllocator → List Call → PageAllocator
run a [] = a
run a (c ∷ cs) = run (step a c) cs

step-Inv : (a : PageAllocator) (c : Call) → Inv a → Inv (step a c)
unfolding step allocate reset
step-Inv a allocates v = allocate_with-Inv a a.free_list refl v
step-Inv a (frees id) v = free-Inv a id v
step-Inv a resets v = omega arith

run-Inv : (a : PageAllocator) (cs : List Call) → Inv a → Inv (run a cs)
unfolding run
run-Inv a [] v = v
run-Inv a (c ∷ cs) v = run-Inv (step a c) cs (step-Inv a c v)

-- The counters of all pages handed out and freed, of which both may wrap, differ by the pages in use.
abbrev pub TotalsAgree : PageAllocator → Type 0
TotalsAgree a =
    (a.stats.total_allocated < 2 ^ 32)
    × ((a.stats.current_allocated + a.stats.total_freed) % 2 ^ 32 ≡ a.stats.total_allocated)

allocate_with-TotalsAgree :
    (a : PageAllocator) (xs : List ℕ) → TotalsAgree a → TotalsAgree (allocate_with a xs).0
unfolding allocate_with count_allocated
allocate_with-TotalsAgree a [] h = ground arith
allocate_with-TotalsAgree a (x ∷ xs) h = ground arith

step-TotalsAgree : (a : PageAllocator) (c : Call) → TotalsAgree a → TotalsAgree (step a c)
unfolding step allocate reset free
step-TotalsAgree a allocates h = allocate_with-TotalsAgree a a.free_list h
step-TotalsAgree a (frees id) h = ground arith
step-TotalsAgree a resets h = omega arith

run-TotalsAgree : (a : PageAllocator) (cs : List Call) → TotalsAgree a → TotalsAgree (run a cs)
unfolding run
run-TotalsAgree a [] h = h
run-TotalsAgree a (c ∷ cs) h = run-TotalsAgree (step a c) cs (step-TotalsAgree a c h)

init-TotalsAgree : TotalsAgree init
unfolding init
init-TotalsAgree = omega arith

-- After any calls on a new allocator: the free list holds distinct data pages that were handed out, and
-- `freeListSize` is its length; `currentAllocated` is the number of pages handed out and not freed, and at
-- most `peakAllocated`, which is at most the number of all page ids, so that these have not wrapped.
-- `totalAllocated`, which may have wrapped, is the sum of `currentAllocated` and `totalFreed` modulo 2^32.
pub run-init-Inv : (cs : List Call) → Inv (run init cs) × TotalsAgree (run init cs)
run-init-Inv cs = (run-Inv init cs init-Inv, run-TotalsAgree init cs init-TotalsAgree)
