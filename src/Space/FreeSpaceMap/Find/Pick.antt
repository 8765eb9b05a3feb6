-- ===== src/Space/FreeSpaceMap/Find/Pick.antt =====
-- What the policies need of the search methods of FreeSpaceMap.cpp.
use quartz_database_c.Prelude.{
  ℕ, ◌≤◌, ◌<◌, ◌≡◌, Bool, List, [], ◌∷◌, arith, ◌==◌, refl, All, Bool-cases, inl, inr, ◌⊎◌,
}
use quartz_database_c.Space.Extent.{Extent, no_extent}
use quartz_database_c.Space.FreeSpaceMap.{FreeSpaceMap}
use quartz_database_c.Space.FreeSpaceMap.Find.{find_free_range, find_exact_range, find_best_range}
use quartz_database_c.Space.FreeSpaceMap.Pages.{IsOrdered}
use quartz_database_c.Space.FreeSpaceMap.Find.Fit.{
  IsFreeIn, Separated-IsFreeIn, find_free_range-Finds, find_best_range-FindsBest,
}

-- `result` is a run of `count` free pages, or `Extent{}`.
abbrev pub Picks : ℕ → List Extent → Extent → Type 0
Picks count xs result = ((result.length ≡ count) × IsFreeIn xs result) ⊎ (result ≡ no_extent)

-- The start of a free extent that is long enough.
pub prefix-IsFreeIn :
    (count : ℕ) (xs : List Extent) (e : Extent)
    → 0 < count
    → count ≤ e.length
    → IsFreeIn xs e
    → IsFreeIn xs (record { start = e.start; length = count })
prefix-IsFreeIn count xs e positive h f =
    (omega (arith, positive, h, f.0.bounded), λ p. ground (arith, f.1 p))

find_exact_range-among :
    (count : ℕ) (xs ys : List Extent)
    → All (IsFreeIn xs) ys
    → Picks count xs (find_exact_range ys count)
unfolding find_exact_range
find_exact_range-among count xs [] s = inr refl
find_exact_range-among count xs (e ∷ es) s = elim (Bool-cases (e.length == count)) [
  | inl a ↦ rw a (inl (ground arith, s.0))
  | inr a ↦ rw a (find_exact_range-among count xs es s.1)
]

pub find_exact_range-Picks :
    (xs : FreeSpaceMap) (count : ℕ) → IsOrdered xs → Picks count xs (find_exact_range xs count)
find_exact_range-Picks xs count s = find_exact_range-among count xs xs (Separated-IsFreeIn 0 xs s)

pub find_free_range-Picks :
    (xs : FreeSpaceMap) (count : ℕ) (prefer_beginning : Bool)
    → IsOrdered xs
    → 0 < count
    → Picks count xs (find_free_range xs count prefer_beginning)
find_free_range-Picks xs count b s h = elim (find_free_range-Finds xs count b s h) [
  | inl found ↦ inl (found.0, (found.1, found.2))
  | inr missed ↦ inr missed.0
]

pub find_best_range-Picks :
    (xs : FreeSpaceMap) (count : ℕ)
    → IsOrdered xs
    → 0 < count
    → Picks count xs (find_best_range xs count)
find_best_range-Picks xs count s h = elim (find_best_range-FindsBest xs count s) [
  | inl (b, e, f, k, _) ↦ rw e (inl (refl, prefix-IsFreeIn count xs b h k f))
  | inr missed ↦ inr missed.0
]
