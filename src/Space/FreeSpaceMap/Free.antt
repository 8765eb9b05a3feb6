-- ===== src/Space/FreeSpaceMap/Free.antt =====
-- What `FreeSpaceMap::markFree` does to the free pages of a well-formed map.
use quartz_database_c.Prelude.{
  ℕ, ◌+◌, ◌-◌, ◌≤◌, ◌<◌, ◌≡◌, true, false, ◌||◌, List, [], ◌∷◌, arith, ltb, refl, some, max,
  Bool-cases, inl, inr, ltb→lt,
}
use quartz_database_c.Status.{success}
use quartz_database_c.Space.Extent.{Extent, can_merge, merge}
use quartz_database_c.Space.Extent.Pages.{Fits, has_page, can_merge-eq, merge-eq, is_valid-eq}
use quartz_database_c.Space.FreeSpaceMap.{
  FreeSpaceMap, merge_right, insert_after, free_after, free_from, mark_free,
}
use quartz_database_c.Space.FreeSpaceMap.Pages.{is_free, Separated, IsOrdered, Separated-mono}

-- The two extents joined, where `a` starts first.
abbrev joined : Extent → Extent → Extent
joined a b = record {
  start = a.start;
  length = max (a.start + a.length) (b.start + b.length) - a.start;
}

-- What the map looks like from the extent `left` on, once it is `left` followed by `es`.
record Holds (left : Extent) (es result : List Extent) : Type 0 where
  pages : (p : ℕ) → is_free result p ≡ (has_page left p || is_free es p)
  order : Separated left.start result

module _ (a b : Extent) (fa : Fits a) (fb : Fits b) (h : a.start ≤ b.start) where
  joined-Fits : Fits (joined a b)
  joined-Fits = record {
    nonempty = omega (arith, fa.nonempty);
    bounded = omega (arith, fa.bounded, fb.bounded);
  }

  merge-joined : merge a b ≡ some (joined a b)
  merge-joined = rw (merge-eq a b fa fb) (ground arith)

  has_page-joined :
      can_merge a b ≡ true → (p : ℕ) → has_page (joined a b) p ≡ (has_page a p || has_page b p)
  has_page-joined m p = ground (arith, can_merge-eq a b fa fb)

  apart : can_merge a b ≡ false → a.start + a.length + 1 ≤ b.start
  apart m = ground (arith, can_merge-eq a b fa fb, fb.nonempty)

merge_right-Holds :
    (left : Extent) (es : List Extent)
    → Fits left
    → Separated left.start es
    → Holds left es (merge_right left es)
unfolding merge_right
merge_right-Holds left [] f s = record { pages = λ p. refl; order = (omega arith, f, tt) }
merge_right-Holds left (e ∷ es) f s = elim (Bool-cases (can_merge left e)) [
  | inr no_merge ↦
      rw (no_merge, merge_right)
        (record {
          pages = λ p. refl;
          order = (omega arith, f, (apart left e f s.1 s.0 no_merge, s.1, s.2));
        })
  | inl merges ↦
      rw (merges, merge_right, merge-joined left e f s.1 s.0)
        (let rest =
            merge_right-Holds (joined left e) es (joined-Fits left e f s.1 s.0)
              (Separated-mono es (omega arith) s.2) in
          record {
            pages = λ p. ground (arith, rest.pages p, has_page-joined left e f s.1 s.0 merges p);
            order = rest.order;
          })
]

-- The range put behind `prev`, which starts before it.
record Adds (prev range : Extent) (es result : List Extent) : Type 0 where
  pages : (p : ℕ) → is_free result p ≡ (has_page prev p || (has_page range p || is_free es p))
  order : Separated prev.start result

module _ (range : Extent) (f : Fits range) where
  insert_after-Adds :
      (prev : Extent) (es : List Extent)
      → Fits prev
      → prev.start ≤ range.start
      → Separated (prev.start + prev.length + 1) es
      → Separated range.start es
      → Adds prev range es (insert_after range prev es)
  unfolding insert_after
  insert_after-Adds prev es g h s s' = elim (Bool-cases (can_merge prev range)) [
    | inr no_merge ↦
        rw (no_merge, insert_after)
          (let rest = merge_right-Holds range es f s' in
            record {
              pages = λ p. ground (arith, rest.pages p);
              order = (
                omega arith,
                g,
                Separated-mono (merge_right range es) (apart prev range g f h no_merge) rest.order,
              );
            })
    | inl merges ↦
        rw (merges, insert_after, merge-joined prev range g f h)
          (let rest =
              merge_right-Holds (joined prev range) es (joined-Fits prev range g f h)
                (Separated-mono es (omega arith) s) in
            record {
              pages = λ p. ground (arith, rest.pages p, has_page-joined prev range g f h merges p);
              order = rest.order;
            })
  ]

  free_after-Adds :
      (prev : Extent) (es : List Extent)
      → Fits prev
      → prev.start < range.start
      → Separated (prev.start + prev.length + 1) es
      → Adds prev range es (free_after range prev es)
  unfolding free_after
  free_after-Adds prev [] g h s = insert_after-Adds prev [] g (omega arith) s tt
  free_after-Adds prev (e ∷ es) g h s = elim (Bool-cases (ltb e.start range.start)) [
    | inl before ↦
        rw (before, free_after)
          (let rest = free_after-Adds e es s.1 (ltb→lt _ _ before) s.2 in
            record {
              pages = λ p. ground (arith, rest.pages p);
              order = (omega arith, g, Separated-mono (free_after range e es) s.0 rest.order);
            })
    | inr behind ↦
        rw (behind, free_after)
          (insert_after-Adds prev (e ∷ es) g (omega arith) s (ground arith, s.1, s.2))
  ]

  free_from-pages :
      (es : List Extent)
      → IsOrdered es
      → (p : ℕ) → is_free (free_from range es) p ≡ (is_free es p || has_page range p)
  unfolding free_from
  free_from-pages [] s p = ground (arith, (merge_right-Holds range [] f tt).pages p)
  free_from-pages (e ∷ es) s p = elim (Bool-cases (ltb e.start range.start)) [
    | inl before ↦
        rw (before) (ground (arith, (free_after-Adds e es s.1 (ltb→lt _ _ before) s.2).pages p))
    | inr behind ↦
        rw (behind)
          (ground (arith, (merge_right-Holds range (e ∷ es) f (ground arith, s.1, s.2)).pages p))
  ]

  free_from-IsOrdered : (es : List Extent) → IsOrdered es → IsOrdered (free_from range es)
  unfolding free_from
  free_from-IsOrdered [] s =
      Separated-mono (merge_right range []) (omega arith) (merge_right-Holds range [] f tt).order
  free_from-IsOrdered (e ∷ es) s = elim (Bool-cases (ltb e.start range.start)) [
    | inl before ↦ rw (before) (
        Separated-mono (free_after range e es) (omega arith)
          (free_after-Adds e es s.1 (ltb→lt _ _ before) s.2).order)
    | inr behind ↦ rw (behind) (
        Separated-mono (merge_right range (e ∷ es)) (omega arith)
          (merge_right-Holds range (e ∷ es) f (ground arith, s.1, s.2)).order)
  ]

-- On a map in order, freeing a range succeeds, makes the pages of the range free and changes no other
-- page, and keeps the map in order.
pub mark_free_adds_range :
    (xs : FreeSpaceMap) (range : Extent)
    → IsOrdered xs
    → Fits range
    → ((p : ℕ) → is_free (mark_free xs range).0 p ≡ (is_free xs p || has_page range p))
      × IsOrdered (mark_free xs range).0
      × ((mark_free xs range).1 ≡ success)
unfolding mark_free
mark_free_adds_range xs range s f =
    rw (is_valid-eq range f, mark_free)
      (free_from-pages range f xs s, free_from-IsOrdered range f xs s, refl)
