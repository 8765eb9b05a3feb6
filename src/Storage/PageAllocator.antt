-- ===== src/Storage/PageAllocator.antt =====
-- storage/PageAllocator.h and PageAllocator.cpp. The head of `free_list` is the back of the vector; the
-- 32-bit counters wrap.
pub mod Invariant
pub mod Ownership
use quartz_database_c.Prelude.{
  ℕ, ◌+◌, ◌-◌, ◌*◌, ◌%◌, ◌^◌, Bool, true, false, not, ◌||◌, List, [], ◌∷◌, length, ltb, leb, ◌==◌,
  if◌then◌else◌,
}

-- common/Config.h and storage/StorageConstants.h.
abbrev pub reserved_page_count : ℕ
reserved_page_count = 8

abbrev pub max_page_id : ℕ
max_page_id = 1024 * 1024 - 1

abbrev pub invalid_page_id : ℕ
invalid_page_id = 0xffff_ffff

pub record AllocatorStats : Type 0 where
  pub total_allocated : ℕ
  pub total_freed : ℕ
  pub peak_allocated : ℕ
  pub current_allocated : ℕ
  pub free_list_size : ℕ
  pub next_page_id : ℕ

pub record PageAllocator : Type 0 where
  pub free_list : List ℕ
  pub next_page_id : ℕ
  pub stats : AllocatorStats

abbrev pub no_stats : AllocatorStats
no_stats = record {
  total_allocated = 0;
  total_freed = 0;
  peak_allocated = 0;
  current_allocated = 0;
  free_list_size = 0;
  next_page_id = reserved_page_count;
}

unfoldable pub init : PageAllocator
init = record { free_list = []; next_page_id = reserved_page_count; stats = no_stats }

-- The counters of one more allocated page; both branches of `allocate` end with this.
unfoldable pub count_allocated : AllocatorStats → ℕ → AllocatorStats
count_allocated s free_list_size =
    let current = (s.current_allocated + 1) % 2 ^ 32 in
    record s {
      total_allocated = (s.total_allocated + 1) % 2 ^ 32;
      current_allocated = current;
      peak_allocated = if ltb s.peak_allocated current then current else s.peak_allocated;
      free_list_size = free_list_size % 2 ^ 32;
    }

-- The branches of `allocate`: a freed page is used again before a new one.
unfoldable pub allocate_with : PageAllocator → List ℕ → PageAllocator × ℕ
allocate_with a (id ∷ rest) =
    (record a { free_list = rest; stats = count_allocated a.stats (length rest) }, id)
allocate_with a [] = if ltb max_page_id a.next_page_id then (a, invalid_page_id) else (
  record a {
    next_page_id = (a.next_page_id + 1) % 2 ^ 32;
    stats = count_allocated a.stats (length a.free_list);
  },
  a.next_page_id,
)

unfoldable pub allocate : PageAllocator → PageAllocator × ℕ
allocate a = allocate_with a a.free_list

-- `std::find` over the free list.
pub in_list : ℕ → List ℕ → Bool
in_list id [] = false
in_list id (x ∷ xs) = x == id || in_list id xs

pub free : PageAllocator → ℕ → PageAllocator × Bool
free a id =
    if id == invalid_page_id || ltb id reserved_page_count
    then (a, false)
    else if leb a.next_page_id id
    then (a, false)
    else if in_list id a.free_list
    then (a, false)
    else (
      record a {
        free_list = id ∷ a.free_list;
        stats = record a.stats {
          total_freed = (a.stats.total_freed + 1) % 2 ^ 32;
          current_allocated = (a.stats.current_allocated + 2 ^ 32 - 1) % 2 ^ 32;
          free_list_size = length (id ∷ a.free_list) % 2 ^ 32;
        };
      },
      true,
    )

pub reset : PageAllocator → PageAllocator
reset a = record { free_list = []; next_page_id = reserved_page_count; stats = no_stats }

pub is_allocated : PageAllocator → ℕ → Bool
is_allocated a id =
    if id == invalid_page_id
    then false
    else if leb a.next_page_id id
    then false
    else if ltb id reserved_page_count
    then true
    else not (in_list id a.free_list)
