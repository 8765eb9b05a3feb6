-- ===== src/Btree/Comparator.antt =====
-- btree/KeyComparator.h: binary search in a list of keys.
pub mod Search
use quartz_database_c.Prelude.{
  ℕ, zero, suc, ◌+◌, ◌-◌, ◌/◌, Bool, true, false, ◌&&◌, Option, none, some, List, length, get_elem?,
  ltb, if◌then◌else◌,
}
use quartz_database_c.Btree.Key.{Key, less, less_equal, equal}

-- `test(keys[i], key)`; an index in range has a key.
abbrev pub test_at : (Key → Bool) → List Key → ℕ → Bool
test_at test keys i = elim (get_elem? keys i) [ none ↦ false | some k ↦ test k ]

-- The loop of `lowerBound` and `upperBound`, with fuel: `test` says whether to go on after `mid`.
unfoldable pub search : ℕ → (Key → Bool) → List Key → ℕ → ℕ → ℕ
search zero test keys lo hi = lo
search (suc fuel) test keys lo hi =
    let mid = lo + (hi - lo) / 2 in
    let after = test_at test keys mid in
    let rest = search fuel test keys (if after then mid + 1 else lo) (if after then hi else mid) in
    if ltb lo hi then rest else lo

unfoldable pub lower_bound : List Key → Key → ℕ
lower_bound keys key = search (length keys) (λ k. less k key) keys 0 (length keys)

pub upper_bound : List Key → Key → ℕ
upper_bound keys key = search (length keys) (λ k. less_equal k key) keys 0 (length keys)

unfoldable pub find : List Key → Key → ℕ
find keys key =
    let pos = lower_bound keys key in
    if ltb pos (length keys) && test_at (λ k. equal k key) keys pos then pos else length keys
