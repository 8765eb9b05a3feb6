-- ===== src/Wal/LogFile/Frames.antt =====
-- A file of LogFile.cpp to which records have been appended one at a time: frames of zeros.
use mathlib.Core.List.{append_assoc}
use quartz_database_c.Prelude.{
  ℕ, ◌+◌, ◌%◌, ◌^◌, ◌≤◌, ◌<◌, ◌≡◌, ◌∙◌, List, [], ◌∷◌, ◌++◌, length, replicate, arith, refl, ap,
  sym, length-append, length-replicate, append-nil,
}
use quartz_database_c.Outcome.{returned}
use quartz_database_c.Outcome.Action.Ending.{Ends}
use quartz_database_c.Wal.Record.Wire.{blank_record}
use quartz_database_c.Wal.LogFile.{LogFile, read_record, padded_size}
use quartz_database_c.Wal.LogFile.Opened.{to_eight, to_eight-add, padded_size-to_eight, IsLog}
use quartz_database_c.Wal.LogFile.Append.{padded}
use quartz_database_c.Wal.LogFile.Zeros.{zero_frame, length-zero_frame, read_record-zeros}

-- A frame and its padding.
pub frame : ℕ → List ℕ
frame n = zero_frame n ++ replicate (to_eight (4 + n)) 0

unfoldable pub frames : List ℕ → List ℕ
frames [] = []
frames (n ∷ ns) = frame n ++ frames ns

-- The size of a record without payload is 45.
abbrev pub IsSize : ℕ → Type 0
IsSize n = (45 ≤ n) × (n < 2 ^ 32)

padded_size-le : (k : ℕ) → k ≤ padded_size k
unfolding padded_size
padded_size-le k = ground arith

pub length-frame : (n : ℕ) → length (frame n) ≡ padded_size (4 + n)
unfolding frame
length-frame n = omega (
  arith,
  length-append (zero_frame n) (replicate (to_eight (4 + n)) 0),
  length-replicate {A = ℕ} (to_eight (4 + n)) 0,
  length-zero_frame n,
  padded_size-to_eight (4 + n),
)

pub record FrameRest (bytes : List ℕ) (offset : ℕ) (ns : List ℕ) : Type 0 where
  pub before : List ℕ
  pub split : bytes ≡ before ++ frames ns
  pub at : offset ≡ length before

pub no_frames_left :
    (bytes : List ℕ) (offset : ℕ) → FrameRest bytes offset [] → offset ≡ length bytes
unfolding frames
no_frames_left bytes offset h =
    omega (arith, h.at, ap (λ (t : List ℕ). length t) h.split, length-append h.before [])

module _ (bytes : List ℕ) (offset n : ℕ) (ns : List ℕ) (h : FrameRest bytes offset (n ∷ ns)) where
  pub next_frame : FrameRest bytes (offset + padded_size (4 + n)) ns
  unfolding frames
  next_frame = record {
    before = h.before ++ frame n;
    split = h.split ∙ sym (append_assoc h.before (frame n) (frames ns));
    at = omega (arith, h.at, length-append h.before (frame n), length-frame n);
  }

  pub frame_ahead : offset < length bytes
  unfolding frames
  frame_ahead = omega (
    arith,
    h.at,
    ap (λ (t : List ℕ). length t) h.split,
    length-append h.before (frame n ++ frames ns),
    length-append (frame n) (frames ns),
    length-frame n,
    padded_size-le (4 + n),
  )

  pub read_frame :
      IsSize n
      → (a : ℕ) (l : LogFile) → IsLog bytes a l
      → Ends l (read_record offset) (returned (blank_record, padded_size (4 + n))) (IsLog bytes a)
  unfolding frames frame
  read_frame size a l log =
      let pad = replicate (to_eight (4 + n)) 0 in
      let same : h.before ++ (zero_frame n ++ pad ++ frames ns)
          ≡ h.before ++ (zero_frame n ++ (pad ++ frames ns)) =
        simp append_assoc in
      let split : bytes ≡ h.before ++ (zero_frame n ++ (pad ++ frames ns)) = h.split ∙ same in
      rw (h.at, split)
        (read_record-zeros h.before (pad ++ frames ns) n size.0 size.1 a l (rw split at log))

pub length-le-frames : (ns : List ℕ) → length ns ≤ length (frames ns)
unfolding frames
length-le-frames [] = omega arith
length-le-frames (n ∷ ns) = omega (
  arith,
  length-append (frame n) (frames ns),
  length-frame n,
  padded_size-le (4 + n),
  length-le-frames ns,
)

frames-append : (ns ms : List ℕ) → frames (ns ++ ms) ≡ frames ns ++ frames ms
unfolding frames
frames-append [] ms = refl
frames-append (n ∷ ns) ms =
    ap (λ t. frame n ++ t) (frames-append ns ms)
    ∙ sym (append_assoc (frame n) (frames ns) (frames ms))

-- Appending a frame at a multiple of eight.
pub padded-frame :
    (bytes : List ℕ) (n : ℕ)
    → length bytes % 8 ≡ 0
    → padded (bytes ++ zero_frame n) ≡ bytes ++ frame n
unfolding padded frame
padded-frame bytes n even =
    let total : length (bytes ++ zero_frame n) ≡ length bytes + (4 + n) =
      length-append bytes (zero_frame n) ∙ ap (λ k. length bytes + k) (length-zero_frame n) in
    rw (total, to_eight-add (length bytes) (4 + n) even) (append_assoc bytes (zero_frame n) _)

-- Frames end at a multiple of eight.
pub even-frame : (n : ℕ) → padded_size (4 + n) % 8 ≡ 0
unfolding padded_size
even-frame n = ground arith

pub even-frames : (ns : List ℕ) → length (frames ns) % 8 ≡ 0
unfolding frames
even-frames [] = refl
even-frames (n ∷ ns) =
    omega (arith, length-append (frame n) (frames ns), length-frame n, even-frame n, even-frames ns)

pub frames-add : (ns : List ℕ) (n : ℕ) → frames (ns ++ n ∷ []) ≡ frames ns ++ frame n
unfolding frames
frames-add ns n = frames-append ns (n ∷ []) ∙ ap (λ t. frames ns ++ t) (append-nil (frame n))
