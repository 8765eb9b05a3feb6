-- ===== src/Space/FreeSpaceMap/Find/Fit.antt =====
-- The extents that the search methods of FreeSpaceMap.cpp pick.
use mathlib.Core.List.{reverse, reverse-cons, reverse-reverse}
use mathlib.Core.Path.{subst}
use quartz_database_c.Prelude.{
  ℕ, ◌+◌, ◌-◌, ◌%◌, ◌^◌, ◌≤◌, ◌<◌, ◌≡◌, ◌&&◌, Bool, true, false, Option, none, some, List, [], ◌∷◌,
  ◌++◌, arith, leb, ◌==◌, refl, if◌then◌else◌, All, Bool-cases, inl, inr, leb→le, ◌⊎◌, Option-cases,
}
use quartz_database_c.Space.Extent.{Extent, no_extent}
use quartz_database_c.Space.Extent.Pages.{Fits, has_page}
use quartz_database_c.Space.FreeSpaceMap.{FreeSpaceMap}
use quartz_database_c.Space.FreeSpaceMap.Find.{
  first_fit, last_fit, find_free_range, best_fit, find_best_range, is_better,
}
use quartz_database_c.Space.FreeSpaceMap.Pages.{is_free, Separated, IsOrdered}

-- `result` is a run of `count` pages, all free; or `Extent{}`, and every free extent is too short.
abbrev pub Finds : ℕ → List Extent → Extent → Type 0
Finds count xs result =
    ((result.length ≡ count)
      × Fits result
      × ((p : ℕ) → (has_page result p && is_free xs p) ≡ has_page result p))
    ⊎ ((result ≡ no_extent) × All (λ e. e.length < count) xs)

-- Extents whose pages are all free in `xs`.
abbrev pub IsFreeIn : List Extent → Extent → Type 0
IsFreeIn xs e = Fits e × ((p : ℕ) → (has_page e p && is_free xs p) ≡ has_page e p)

All-map {ℓ κ} :
    {A : Type ℓ} {P Q : A → Type κ} (f : (a : A) → P a → Q a) (xs : List A) → All P xs → All Q xs
All-map f [] h = tt
All-map f (x ∷ xs) h = (f x h.0, All-map f xs h.1)

All-append {ℓ κ} :
    {A : Type ℓ} (P : A → Type κ) (xs ys : List A) → All P xs → All P ys → All P (xs ++ ys)
All-append P [] ys h h' = h'
All-append P (x ∷ xs) ys h h' = (h.0, All-append P xs ys h.1 h')

All-reverse {ℓ κ} : {A : Type ℓ} (P : A → Type κ) (xs : List A) → All P xs → All P (reverse xs)
All-reverse P [] h = h
All-reverse P (x ∷ xs) h =
    rw (reverse-cons x xs) (All-append P (reverse xs) (x ∷ []) (All-reverse P xs h.1) (h.0, tt))

pub Separated-IsFreeIn : (lo : ℕ) (xs : List Extent) → Separated lo xs → All (IsFreeIn xs) xs
Separated-IsFreeIn lo [] s = tt
Separated-IsFreeIn lo (e ∷ es) s = (
  (s.1, λ p. ground arith),
  All-map (λ a h. (h.0, λ p. ground (arith, h.1 p))) es
      (Separated-IsFreeIn (e.start + e.length + 1) es s.2),
)

module _ (count : ℕ) (positive : 0 < count) (xs : List Extent) where
  abbrev FindsAmong : List Extent → Extent → Type 0
  FindsAmong ys result =
      ((result.length ≡ count) × IsFreeIn xs result)
      ⊎ ((result ≡ no_extent) × All (λ e. e.length < count) ys)

  first_fit-FindsAmong :
      (ys : List Extent) → All (IsFreeIn xs) ys → FindsAmong ys (first_fit count ys)
  unfolding first_fit
  first_fit-FindsAmong [] s = inr (refl, tt)
  first_fit-FindsAmong (e ∷ es) s = elim (Bool-cases (leb count e.length)) [
    | inl a ↦ rw a (
        inl (
          refl,
          (omega (arith, positive, s.0.0.bounded, leb→le _ _ a), λ p. ground (arith, s.0.1 p)),
        ))
    | inr a ↦ rw a (elim (first_fit-FindsAmong es s.1) [
      | inl found ↦ inl found
      | inr missed ↦ inr (missed.0, (ground arith, missed.1))
    ])
  ]

  last_fit-FindsAmong :
      (ys : List Extent) → All (IsFreeIn xs) ys → FindsAmong ys (last_fit count ys)
  unfolding last_fit
  last_fit-FindsAmong [] s = inr (refl, tt)
  last_fit-FindsAmong (e ∷ es) s = elim (Bool-cases (leb count e.length)) [
    | inl a ↦
        let place : (e.start + (e.length - count)) % 2 ^ 32 ≡ e.start + (e.length - count) =
          omega (arith, s.0.0.bounded) in
        rw (a, place)
          (inl (
            refl,
            (omega (arith, positive, s.0.0.bounded, leb→le _ _ a), λ p. ground (arith, s.0.1 p)),
          ))
    | inr a ↦ rw a (elim (last_fit-FindsAmong es s.1) [
      | inl found ↦ inl found
      | inr missed ↦ inr (missed.0, (ground arith, missed.1))
    ])
  ]

reverse_back :
    (count : ℕ) (xs : List Extent)
    → All (λ e. e.length < count) (reverse xs)
    → All (λ e. e.length < count) xs
reverse_back count xs h =
    subst (All (λ e. e.length < count)) (reverse-reverse xs)
      (All-reverse (λ e. e.length < count) (reverse xs) h)

-- On a map in order a search for some pages, from either end, gives a run of that many pages that are
-- all free; or it gives `Extent{}`, and then every free extent is too short.
pub find_free_range-Finds :
    (xs : FreeSpaceMap) (count : ℕ) (prefer_beginning : Bool)
    → IsOrdered xs
    → 0 < count
    → Finds count xs (find_free_range xs count prefer_beginning)
unfolding find_free_range
find_free_range-Finds xs count prefer_beginning s h =
    let positive : (count == 0) ≡ false = ground arith in
    rw (positive, find_free_range) (search_from prefer_beginning)
  where
    all_free : All (IsFreeIn xs) xs
    all_free = Separated-IsFreeIn 0 xs s

    search_from :
        (b : Bool) → Finds count xs (if b then first_fit count xs else last_fit count (reverse xs))
    search_from true = elim (first_fit-FindsAmong count h xs xs all_free) [
      | inl found ↦ inl (found.0, found.1.0, found.1.1)
      | inr missed ↦ inr missed
    ]
    search_from false =
        elim (last_fit-FindsAmong count h xs (reverse xs) (All-reverse (IsFreeIn xs) xs all_free)) [
          | inl found ↦ inl (found.0, found.1.0, found.1.1)
          | inr missed ↦ inr (missed.0, reverse_back count xs missed.1)
        ]

-- No free extent that is long enough is shorter than `length`.
abbrev pub IsShortest : ℕ → ℕ → List Extent → Type 0
IsShortest count length ys = All (λ e. (e.length < count) ⊎ (length ≤ e.length)) ys

IsShortest-mono :
    (count : ℕ) {m n : ℕ} (ys : List Extent) → n ≤ m → IsShortest count m ys → IsShortest count n ys
IsShortest-mono count ys h =
    All-map (λ e p. elim p [ inl a ↦ inl a | inr b ↦ inr (omega arith) ]) ys

module _ (count : ℕ) (xs : List Extent) where
  best_fit-some :
      (b : Extent) (ys : List Extent)
      → IsFreeIn xs b
      → count ≤ b.length
      → All (IsFreeIn xs) ys
      → (c : Extent) × (best_fit count (some b) ys ≡ some c)
        × IsFreeIn xs c
        × (count ≤ c.length)
        × (c.length ≤ b.length)
        × IsShortest count c.length ys
  unfolding best_fit is_better
  best_fit-some b [] f h s = (b, refl, f, h, omega arith, tt)
  best_fit-some b (e ∷ es) f h s = elim (Bool-cases (is_better count e (some b))) [
    | inl a ↦
        let (c, q, g, k, l, m) = best_fit-some e es s.0 (ground arith) s.1 in
        (c, rw a q, g, k, ground arith, (inr l, m))
    | inr a ↦
        let (c, q, g, k, l, m) = best_fit-some b es f h s.1 in
        (c, rw a q, g, k, l, (ground arith, m))
  ]

  abbrev Best : List Extent → Option Extent → Type 0
  Best ys none = All (λ e. e.length < count) ys
  Best ys (some c) = IsFreeIn xs c × (count ≤ c.length) × IsShortest count c.length ys

  best_fit-Best : (ys : List Extent) → All (IsFreeIn xs) ys → Best ys (best_fit count none ys)
  unfolding best_fit is_better
  best_fit-Best [] s = tt
  best_fit-Best (e ∷ es) s = elim (Bool-cases (leb count e.length)) [
    | inl a ↦
        let (c, q, g, k, l, m) = best_fit-some e es s.0 (leb→le _ _ a) s.1 in
        rw (a, q) (g, k, (inr l, m))
    | inr a ↦ rw a (with_short (best_fit count none es) (ground arith) (best_fit-Best es s.1))
  ]
    where
      with_short : (r : Option Extent) → e.length < count → Best es r → Best (e ∷ es) r
      with_short none h b = (h, b)
      with_short (some c) h b = (b.0, b.1, (inl h, b.2))

-- `result` is the start of a free extent that is long enough, and as short as any that is; or it is
-- `Extent{}`, and every free extent is too short.
abbrev pub FindsBest : ℕ → List Extent → Extent → Type 0
FindsBest count xs result =
    ((b : Extent) × (result ≡ record { start = b.start; length = count })
      × IsFreeIn xs b
      × (count ≤ b.length)
      × IsShortest count b.length xs)
    ⊎ ((result ≡ no_extent) × All (λ e. e.length < count) xs)

-- On a map in order the best-fit search finds the start of a shortest free extent that is long enough, or `Extent{}` if every one is too short.
pub find_best_range-FindsBest :
    (xs : FreeSpaceMap) (count : ℕ) → IsOrdered xs → FindsBest count xs (find_best_range xs count)
unfolding find_best_range
find_best_range-FindsBest xs count s = elim (Option-cases (best_fit count none xs)) [
  | inl e ↦ rw (e, find_best_range) (inr (refl, rw e at all_short))
  | inr (b, e) ↦
      let found : Best count xs xs (some b) = rw e at all_short in
      rw (e, find_best_range) (inl (b, refl, found.0, found.1, found.2))
]
  where
    all_short : Best count xs xs (best_fit count none xs)
    all_short = best_fit-Best count xs xs (Separated-IsFreeIn 0 xs s)
