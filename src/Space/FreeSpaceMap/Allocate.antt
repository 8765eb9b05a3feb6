-- ===== src/Space/FreeSpaceMap/Allocate.antt =====
-- `FreeSpaceMap::markAllocated` on a well-formed map.
use native.Mathlib.Decide.{dec_le}
use quartz_database_c.Prelude.{
  ℕ, ◌+◌, ◌-◌, ◌≤◌, ◌<◌, ◌≡◌, Bool, true, false, not, ◌&&◌, ◌||◌, List, [], ◌∷◌, arith, ltb, leb,
  ◌==◌, ltb→lt, if◌then◌else◌, Bool-cases, inl, inr,
}
use quartz_database_c.Space.Extent.{Extent, end_page, contains_extent}
use quartz_database_c.Space.Extent.Pages.{Fits, has_page, end_page-eq, contains_extent-eq, split-eq}
use quartz_database_c.Space.FreeSpaceMap.{split_out, allocate_loop}
use quartz_database_c.Space.FreeSpaceMap.Pages.{is_free, Separated, Separated-mono, is_free_below}

-- A longer extent starts with the range: the one case that `split` does not take apart.
abbrev pub starts_longer : Extent → List Extent → Bool
starts_longer range [] = false
starts_longer range (e ∷ es) =
    e.start == range.start && ltb range.length e.length || starts_longer range es

-- Some page of the range is free.
abbrev pub overlaps : Extent → List Extent → Bool
overlaps range [] = false
overlaps range (e ∷ es) =
    ltb e.start (range.start + range.length) && ltb range.start (e.start + e.length)
    || overlaps range es

module _ (range : Extent) (f : Fits range) where
  split_out-eq :
      (e : Extent) (es : List Extent)
      → Fits e
      → e.start < range.start
      → range.start + range.length ≤ e.start + e.length
      → split_out range e es
        ≡ record { start = e.start; length = range.start - e.start }
          ∷ (if ltb (range.start + range.length) (e.start + e.length)
              then record {
                start = range.start + range.length;
                length = e.start + e.length - (range.start + range.length);
              }
                ∷ es
              else es)
  unfolding split_out
  split_out-eq e es g h h' =
      ground (arith, split-eq e range.start g, end_page-eq range f, f.nonempty)

  pub split_out-Separated :
      (lo : ℕ) (e : Extent) (es : List Extent)
      → Separated lo (e ∷ es)
      → e.start < range.start
      → range.start + range.length ≤ e.start + e.length
      → Separated lo (split_out range e es)
  split_out-Separated lo e es s h h' =
      rw (split_out-eq e es s.1 h h')
        (elim (Bool-cases (ltb (range.start + range.length) (e.start + e.length))) [
          | inl a ↦ rw a (
            s.0,
            fits,
            (
              omega (arith, f.nonempty),
              omega (arith, s.1.bounded, ltb→lt _ _ a),
              Separated-mono es (omega (arith, ltb→lt _ _ a)) s.2,
            ),
          )
          | inr a ↦ rw a (s.0, fits, Separated-mono es (omega arith) s.2)
        ])
    where
      fits : Fits (record { start = e.start; length = range.start - e.start })
      fits = omega (arith, s.1.bounded)

  pub split_out-is_free :
      (current : Extent) (rest : List Extent) (p : ℕ)
      → Fits current
      → Separated (current.start + current.length + 1) rest
      → current.start < range.start
      → range.start + range.length ≤ current.start + current.length
      → is_free (split_out range current rest) p
        ≡ (is_free (current ∷ rest) p && not (has_page range p))
  unfolding split_out
  split_out-is_free current rest p fc s h h' = ground (
    arith,
    split-eq current range.start fc,
    end_page-eq range f,
    is_free_below (current.start + current.length + 1) rest p s,
  )

module _ (range e : Extent) (f : Fits range) (g : Fits e) (changed : Bool) (es : List Extent) where
  tests :
      (end_page range ≡ range.start + range.length)
      × (end_page e ≡ e.start + e.length)
      × (contains_extent range e
          ≡ (leb range.start e.start && leb (e.start + e.length) (range.start + range.length)))
      × (contains_extent e range
          ≡ (leb e.start range.start && leb (range.start + range.length) (e.start + e.length)))
  tests = (
    end_page-eq range f,
    end_page-eq e g,
    contains_extent-eq range e f g,
    contains_extent-eq e range g f,
  )

  abbrev pub step : List Extent × Bool
  step = allocate_loop range changed (e ∷ es)

  after_start :
      range.start ≤ e.start
      → e.start < range.start + range.length
      → range.start + range.length < e.start + e.length
      → step ≡ (
          if e.start == range.start then (e ∷ es, true) else (
            record {
              start = range.start + range.length;
              length = e.start + e.length - (range.start + range.length);
            }
                ∷ es,
            true,
          ))
  unfolding allocate_loop split_out
  after_start h h' h'' = ground (arith, tests, split-eq e range.start g)

  before_start :
      e.start < range.start
      → step ≡ (
          if leb (range.start + range.length) (e.start + e.length)
          then (split_out range e es, true)
          else if ltb range.start (e.start + e.length)
          then (
            record { start = e.start; length = range.start - e.start }
                ∷ (allocate_loop range true es).0,
            (allocate_loop range true es).1,
          )
          else (e ∷ (allocate_loop range changed es).0, (allocate_loop range changed es).1))
  unfolding allocate_loop
  before_start h = ground (arith, tests, f.nonempty)

  exits : range.start + range.length ≤ e.start → step ≡ (e ∷ es, changed)
  unfolding allocate_loop
  exits h = ground (arith, tests)

  covers :
      range.start ≤ e.start
      → e.start + e.length ≤ range.start + range.length
      → step ≡ allocate_loop range true es
  unfolding allocate_loop
  covers h h' = ground (arith, tests, g.nonempty)

  -- The places that an extent has with regard to the range, and what the loop does there.
  pub allocate_loop_cases :
      (P : List Extent × Bool → Type 0)
      → (range.start + range.length ≤ e.start → P (e ∷ es, changed))
      → (range.start ≤ e.start
          → e.start + e.length ≤ range.start + range.length
          → P (allocate_loop range true es))
      → (e.start ≡ range.start → range.length < e.length → P (e ∷ es, true))
      → (range.start < e.start
          → e.start < range.start + range.length
          → range.start + range.length < e.start + e.length
          → P (
            record {
              start = range.start + range.length;
              length = e.start + e.length - (range.start + range.length);
            }
                ∷ es,
            true,
          ))
      → (e.start < range.start
          → range.start + range.length ≤ e.start + e.length
          → P (split_out range e es, true))
      → (e.start < range.start
          → range.start < e.start + e.length
          → e.start + e.length < range.start + range.length
          → P (
            record { start = e.start; length = range.start - e.start }
                ∷ (allocate_loop range true es).0,
            (allocate_loop range true es).1,
          ))
      → (e.start + e.length ≤ range.start
          → P (e ∷ (allocate_loop range changed es).0, (allocate_loop range changed es).1))
      → P step
  allocate_loop_cases P exit inside same head around tail before =
      elim (dec_le range.start e.start) [
        | yes h ↦ elim (dec_le (range.start + range.length) e.start) [
          | yes a ↦ rw (exits a) (exit a)
          | no a ↦ elim (dec_le (e.start + e.length) (range.start + range.length)) [
            | yes b ↦ rw (covers h b) (inside h b)
            | no b ↦
                rw (after_start h (omega arith) (omega arith))
                  (elim (Bool-cases (e.start == range.start)) [
                    | inl c ↦ rw c (same (ground arith) (ground arith))
                    | inr c ↦ rw c (head (ground arith) (omega arith) (omega arith))
                  ])
          ]
        ]
        | no h ↦
            rw (before_start (omega arith))
              (elim (Bool-cases (leb (range.start + range.length) (e.start + e.length))) [
                | inl a ↦ rw a (around (omega arith) (ground arith))
                | inr a ↦ rw a (elim (Bool-cases (ltb range.start (e.start + e.length))) [
                  | inl b ↦ rw b (tail (omega arith) (ground arith) (ground arith))
                  | inr b ↦ rw b (before (ground arith))
                ])
              ])
      ]
