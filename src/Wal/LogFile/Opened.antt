-- ===== src/Wal/LogFile/Opened.antt =====
-- An open file of LogFile.cpp with given bytes: seeking and reading in it.
use quartz_database_c.Prelude.{
  ℕ, ◌%◌, zero, suc, ◌+◌, ◌-◌, ◌≤◌, ◌≡◌, true, false, not, some, List, [], ◌∷◌, ◌++◌, length, take,
  drop, ltb, ◌==◌, arith, refl, ap, length-drop, length-take, append-nil,
}
use quartz_database_c.Outcome.{returned}
use quartz_database_c.Outcome.Action
use quartz_database_c.Outcome.Action.{perform}
use quartz_database_c.Outcome.Action.Ending.{Ends, ends-seq, ends-perform, ends-within}
use quartz_database_c.Storage.DatabaseFile
use quartz_database_c.Storage.DatabaseFile.{DatabaseFile, contents, seek}
use quartz_database_c.Wal.LogFile.{
  LogFile, padded_size, is_open, refuse_closed, read_bytes, padded_size, on_file,
}

-- An open file with these bytes, on which no call has failed.
pub record HasBytes (bytes : List ℕ) (f : DatabaseFile) : Type 0 where
  pub is_open : f.is_open ≡ true
  pub sound : f.failed ≡ false
  pub not_past : f.eof ≡ false
  pub stored : f.stored ≡ some bytes
  pub size : f.size ≡ length bytes

pub record IsLog (bytes : List ℕ) (append_offset : ℕ) (l : LogFile) : Type 0 where
  pub attached : l.attached ≡ true
  pub file : HasBytes bytes l.file
  pub append : l.append_offset ≡ append_offset

-- Such a file, after a seek.
pub record Stands (bytes : List ℕ) (offset : ℕ) (f : DatabaseFile) : Type 0 where
  pub file : HasBytes bytes f
  pub there : f.position ≡ offset

pub seek-Stands :
    (bytes : List ℕ) (offset : ℕ) (f : DatabaseFile)
    → HasBytes bytes f
    → Ends f (perform (seek offset)) (returned tt) (Stands bytes offset)
unfolding seek
seek-Stands bytes offset f h = ends-perform (seek offset) (rw (h.is_open, h.sound) refl) (
    rw (h.is_open, h.sound)
      (record {
        file = record {
          is_open = refl;
          sound = refl;
          not_past = refl;
          stored = h.stored;
          size = h.size;
        };
        there = refl;
      }))

contents_of : (bytes : List ℕ) (f : DatabaseFile) → f.stored ≡ some bytes → contents f ≡ bytes
unfolding contents
contents_of bytes f e = rw e refl

length_read :
    (bytes : List ℕ) (offset n : ℕ)
    → offset + n ≤ length bytes
    → length (take n (drop offset bytes)) ≡ n
length_read bytes offset n h =
    omega (arith, length-take n (drop offset bytes), length-drop offset bytes)

drop_all {ℓ} : {A : Type ℓ} (n : ℕ) (xs : List A) → length xs ≤ n → drop n xs ≡ []
drop_all zero [] h = refl
drop_all zero (x ∷ xs) h = absurd (omega arith)
drop_all (suc n) [] h = refl
drop_all (suc n) (x ∷ xs) h = drop_all n xs (omega arith)

nothing_kept :
    (got dest : List ℕ) → length got ≡ length dest → (got ++ drop (length got) dest) ≡ got
nothing_kept got dest h = rw (drop_all (length got) dest (omega (arith, h)), append-nil got) refl

pub read_bytes-Stands :
    (bytes dest : List ℕ) (offset : ℕ) (f : DatabaseFile)
    → Stands bytes offset f
    → offset + length dest ≤ length bytes
    → Ends f
        (DatabaseFile.read_bytes dest)
        (returned (take (length dest) (drop offset bytes)))
        (HasBytes bytes)
unfolding DatabaseFile.read_bytes DatabaseFile.refuse_closed contents Action.◌>>=◌ Action.◌>>◌
    Action.resume Action.gets Action.perform Action.fail_if
read_bytes-Stands bytes dest offset f h inside =
    let got = take (length dest) (drop offset bytes) in
    let whole : length got ≡ length dest = length_read bytes offset (length dest) inside in
    let not_short : ltb (length got) (length dest) ≡ false = ground (arith, whole) in
    record {
      outcome =
          rw (h.file.is_open, h.file.sound, h.file.not_past, h.there, h.file.stored)
            (ap returned (nothing_kept got dest whole));
      after =
          rw (h.file.is_open, h.file.sound, h.file.not_past, h.there, h.file.stored)
            (record {
              is_open = refl;
              sound = not_short;
              not_past = not_short;
              stored = refl;
              size = h.file.size;
            });
    }

pub not_closed : (bytes : List ℕ) (a : ℕ) (l : LogFile) → IsLog bytes a l → not (is_open l) ≡ false
unfolding is_open
not_closed bytes a l h = rw (h.attached, h.file.is_open) refl

pub open-IsLog :
    (bytes : List ℕ) (a : ℕ) (l : LogFile)
    → IsLog bytes a l
    → Ends l refuse_closed (returned tt) (IsLog bytes a)
unfolding refuse_closed Action.fail_if
open-IsLog bytes a l h = record {
  outcome = rw (not_closed bytes a l h) refl;
  after = rw (not_closed bytes a l h) h;
}

abbrev pub IsLogAt : List ℕ → ℕ → ℕ → LogFile → Type 0
IsLogAt bytes a offset l = IsLog bytes a l × Stands bytes offset l.file

pub seek-IsLogAt :
    (bytes : List ℕ) (a offset : ℕ) (l : LogFile)
    → IsLog bytes a l
    → Ends l (on_file (perform (seek offset))) (returned tt) (IsLogAt bytes a offset)
unfolding on_file
seek-IsLogAt bytes a offset l h =
    ends-within (λ l. l.file) (λ file l. record l { file = file })
      (seek-Stands bytes offset l.file h.file)
      (λ f there. (record { attached = h.attached; file = there.file; append = h.append }, there))

pub read-IsLogAt :
    (bytes dest : List ℕ) (a offset : ℕ) (l : LogFile)
    → IsLogAt bytes a offset l
    → offset + length dest ≤ length bytes
    → Ends l
        (on_file (DatabaseFile.read_bytes dest))
        (returned (take (length dest) (drop offset bytes)))
        (IsLog bytes a)
unfolding on_file
read-IsLogAt bytes dest a offset l (h, there) inside =
    ends-within (λ l. l.file) (λ file l. record l { file = file })
      (read_bytes-Stands bytes dest offset l.file there inside)
      (λ f h'. record { attached = h.attached; file = h'; append = h.append })

-- Bytes inside the file are read as they are.
pub read_bytes-IsLog :
    (bytes dest : List ℕ) (a offset : ℕ) (l : LogFile)
    → IsLog bytes a l
    → offset + length dest ≤ length bytes
    → Ends l
        (read_bytes offset dest)
        (returned (take (length dest) (drop offset bytes)))
        (IsLog bytes a)
unfolding read_bytes
read_bytes-IsLog bytes dest a offset l h inside = ends-seq (open-IsLog bytes a l h) (λ l1 h1.
    ends-seq (seek-IsLogAt bytes a offset l1 h1)
      (λ l2 h2. read-IsLogAt bytes dest a offset l2 h2 inside))

-- How many bytes are missing to the next multiple of eight.
pub to_eight : ℕ → ℕ
to_eight n = (8 - n % 8) % 8

pub padded_size-to_eight : (n : ℕ) → padded_size n ≡ n + to_eight n
unfolding padded_size to_eight
padded_size-to_eight n = ground arith

pub to_eight-even : (n : ℕ) → (n % 8 == 0) ≡ true → to_eight n ≡ 0
unfolding to_eight
to_eight-even n e = ground arith

pub to_eight-odd : (n : ℕ) → (n % 8 == 0) ≡ false → to_eight n ≡ 8 - n % 8
unfolding to_eight
to_eight-odd n e = ground arith

pub to_eight-add : (k n : ℕ) → k % 8 ≡ 0 → to_eight (k + n) ≡ to_eight n
unfolding to_eight
to_eight-add k n e = ground arith
