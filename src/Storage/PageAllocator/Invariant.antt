-- ===== src/Storage/PageAllocator/Invariant.antt =====
-- What PageAllocator.cpp promises: no page is handed out twice, and the counters count.
use quartz_database_c.Prelude.{
  ℕ, zero, suc, ◌+◌, ◌-◌, ◌≤◌, ◌<◌, ◌≡◌, true, false, List, [], ◌∷◌, length, ◌==◌, if◌then◌else◌,
  arith, refl,
}
use quartz_database_c.Storage.PageAllocator.{
  PageAllocator, reserved_page_count, max_page_id, init, allocate_with, free, in_list,
  count_allocated,
}

-- Distinct pages from the first that is not reserved up to `next`.
abbrev pub FreeListOk : ℕ → List ℕ → Type 0
FreeListOk next [] = Unit {0}
FreeListOk next (x ∷ xs) =
    (reserved_page_count ≤ x) × (x < next) × (in_list x xs ≡ false) × FreeListOk next xs

pub record Inv (a : PageAllocator) : Type 0 where
  pub low : reserved_page_count ≤ a.next_page_id
  pub high : a.next_page_id ≤ max_page_id + 1
  pub listed : FreeListOk a.next_page_id a.free_list
  pub current :
      a.stats.current_allocated + length a.free_list + reserved_page_count ≡ a.next_page_id
  pub size : a.stats.free_list_size ≡ length a.free_list
  pub peak : a.stats.current_allocated ≤ a.stats.peak_allocated
  pub peak_small : a.stats.peak_allocated ≤ max_page_id + 1

FreeListOk-mono : (n m : ℕ) (xs : List ℕ) → n ≤ m → FreeListOk n xs → FreeListOk m xs
FreeListOk-mono n m [] h f = tt
FreeListOk-mono n m (x ∷ xs) h f = (f.0, omega arith, f.2, FreeListOk-mono n m xs h f.3)

pub in_list-lt : (n : ℕ) (xs : List ℕ) (p : ℕ) → FreeListOk n xs → in_list p xs ≡ true → p < n
unfolding in_list
in_list-lt n [] p f h = cc
in_list-lt n (x ∷ xs) p f h = ground (arith, in_list-lt n xs p f.3)

-- Distinct numbers from 8 up to `n` are `n - 8` at most: take the largest one out.
remove : ℕ → List ℕ → List ℕ
remove v [] = []
remove v (x ∷ xs) = if x == v then xs else x ∷ remove v xs

length-remove : (v : ℕ) (xs : List ℕ) → length xs ≤ length (remove v xs) + 1
unfolding remove
length-remove v [] = omega arith
length-remove v (x ∷ xs) = ground (arith, length-remove v xs)

in_list-remove : (v p : ℕ) (xs : List ℕ) → in_list p xs ≡ false → in_list p (remove v xs) ≡ false
unfolding remove in_list
in_list-remove v p [] h = refl
in_list-remove v p (x ∷ xs) h = ground (arith, in_list-remove v p xs)

tighten : (n : ℕ) (xs : List ℕ) → in_list n xs ≡ false → FreeListOk (suc n) xs → FreeListOk n xs
unfolding in_list
tighten n [] h f = tt
tighten n (x ∷ xs) h f = ground (arith, tighten n xs)

FreeListOk-remove : (n : ℕ) (xs : List ℕ) → FreeListOk (suc n) xs → FreeListOk n (remove n xs)
unfolding remove
FreeListOk-remove n [] f = tt
FreeListOk-remove n (x ∷ xs) f =
    ground (arith, tighten n xs, FreeListOk-remove n xs f.3, in_list-remove n x xs f.2)

pigeons : (n : ℕ) (xs : List ℕ) → FreeListOk n xs → length xs ≤ n - reserved_page_count
pigeons n [] f = omega arith
pigeons zero (x ∷ xs) f = absurd (omega arith)
pigeons (suc n) (x ∷ xs) f = omega (
  arith,
  pigeons n (remove n (x ∷ xs)) (FreeListOk-remove n (x ∷ xs) f),
  length-remove n (x ∷ xs),
)

pub init-Inv : Inv init
unfolding init
init-Inv = omega arith

pub allocate_with-Inv :
    (a : PageAllocator) (xs : List ℕ) → a.free_list ≡ xs → Inv a → Inv (allocate_with a xs).0
unfolding allocate_with count_allocated
allocate_with-Inv a [] e v =
    grind (arith, e, v.low, v.high, v.current, v.size, v.peak, v.peak_small, FreeListOk-mono)
allocate_with-Inv a (x ∷ xs) e v = ground (arith, e, v.listed)

pub free-Inv : (a : PageAllocator) (id : ℕ) → Inv a → Inv (free a id).0
unfolding free
free-Inv a id v = ground (arith, v.listed, pigeons a.next_page_id (id ∷ a.free_list))
