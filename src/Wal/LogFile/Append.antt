-- ===== src/Wal/LogFile/Append.antt =====
-- What `append` of LogFile.cpp puts into the file.
use quartz_database_c.Prelude.{
  ℕ, zero, suc, ◌+◌, ◌-◌, ◌%◌, ◌≤◌, ◌≡◌, ◌∙◌, true, false, some, List, [], ◌∷◌, ◌++◌, length, take,
  drop, replicate, ltb, ◌==◌, max, arith, refl, ap, sym, length-append, length-replicate,
  append-nil, le→ltb, Bool-cases, inl, inr,
}
use quartz_database_c.Outcome.{returned}
use quartz_database_c.Outcome.Action
use quartz_database_c.Outcome.Action.{perform}
use quartz_database_c.Outcome.Action.Ending.{
  Ends, ends-bind, ends-seq, ends-gets, ends-pure, ends-modify, ends-perform, ends-within,
  ends-branch_true, ends-branch_false,
}
use quartz_database_c.Storage.DatabaseFile.{DatabaseFile, contents, overlay, write_bytes, seek}
use quartz_database_c.Wal.LogFile.{
  LogFile, append, refuse_closed, align_append_offset, set_append_offset, on_file, padded_size,
}
use quartz_database_c.Wal.LogFile.Opened.{
  to_eight, to_eight-even, to_eight-odd, padded_size-to_eight, HasBytes, IsLog, seek-Stands,
  not_closed,
}

take_whole {ℓ} : {A : Type ℓ} (xs : List A) → take (length xs) xs ≡ xs
take_whole [] = refl
take_whole (x ∷ xs) = ap (λ t. x ∷ t) (take_whole xs)

drop_none {ℓ} : {A : Type ℓ} (n : ℕ) → drop {A = A} n [] ≡ []
drop_none zero = refl
drop_none (suc n) = refl

drop_past {ℓ} : {A : Type ℓ} (xs : List A) (n : ℕ) → drop (length xs + n) xs ≡ []
drop_past [] n = drop_none (0 + n)
drop_past (x ∷ xs) n =
    let e : suc (length xs) + n ≡ suc (length xs + n) = omega arith in
    ap (λ (t : ℕ). drop t (x ∷ xs)) e ∙ drop_past xs n

overlay_end : (bytes src : List ℕ) → overlay bytes (length bytes) src ≡ bytes ++ src
unfolding overlay
overlay_end bytes src =
    let e : length bytes - length bytes ≡ 0 = omega arith in
    rw
      (
        take_whole bytes,
        e,
        drop_past bytes (length src),
        append-nil bytes,
        append-nil (bytes ++ src),
      )
      refl

-- Such a file, which stands at its end, with a room.
pub record AtEnd (bytes : List ℕ) (n : ℕ) (f : DatabaseFile) : Type 0 where
  pub file : HasBytes bytes f
  pub there : f.position ≡ length bytes
  pub room : f.room ≡ n

same_bytes : {bytes : List ℕ} (f : DatabaseFile) → HasBytes bytes f → contents f ≡ bytes
unfolding contents
same_bytes f h = rw h.stored refl

write-AtEnd :
    (bytes src : List ℕ) (n : ℕ) (f : DatabaseFile)
    → AtEnd bytes n f
    → length bytes + length src ≤ n
    → Ends f (perform (write_bytes src)) (returned tt) (AtEnd (bytes ++ src) n)
unfolding write_bytes contents
write-AtEnd bytes src n f h room =
    let fits : ltb n (length bytes + length src) ≡ false = le→ltb _ _ room in
    let longer : max (length bytes) (length bytes + length src) ≡ length bytes + length src =
      omega arith in
    ends-perform (write_bytes src)
      (rw (h.file.is_open, h.file.sound, h.file.not_past, h.room, h.there, fits) refl)
      (rw (h.file.is_open, h.file.sound, h.file.not_past, h.room, h.there, fits)
        (record {
          file = record {
            is_open = refl;
            sound = refl;
            not_past = refl;
            stored = ap some (
                ap (λ t. overlay t (length bytes) src) (same_bytes f h.file)
                ∙ overlay_end bytes src);
            size = rw (h.file.size, longer) (sym (length-append bytes src));
          };
          there = sym (length-append bytes src);
          room = refl;
        }))

-- A log file with room for so many bytes, which appends at its end.
pub record Grows (bytes : List ℕ) (n : ℕ) (l : LogFile) : Type 0 where
  pub log : IsLog bytes (length bytes) l
  pub room : l.file.room ≡ n

-- The same, where the file stands at its end.
record GrowsHere (bytes : List ℕ) (n offset : ℕ) (l : LogFile) : Type 0 where
  log : IsLog bytes offset l
  here : AtEnd bytes n l.file

-- The bytes, and zeros up to a multiple of eight.
unfoldable pub padded : List ℕ → List ℕ
padded bytes = bytes ++ replicate (to_eight (length bytes)) 0

write-GrowsHere :
    (bytes src : List ℕ) (n offset : ℕ) (l : LogFile)
    → GrowsHere bytes n offset l
    → length bytes + length src ≤ n
    → Ends l (on_file (perform (write_bytes src))) (returned tt) (GrowsHere (bytes ++ src) n offset)
unfolding on_file
write-GrowsHere bytes src n offset l h room =
    ends-within (λ l. l.file) (λ file l. record l { file = file })
      (write-AtEnd bytes src n l.file h.here room)
      (λ f done. record {
        log = record { attached = h.log.attached; file = done.file; append = h.log.append };
        here = done;
      })

offset-GrowsHere :
    (bytes : List ℕ) (n offset new_offset : ℕ) (l : LogFile)
    → GrowsHere bytes n offset l
    → GrowsHere bytes n new_offset (set_append_offset new_offset l)
unfolding set_append_offset
offset-GrowsHere bytes n offset new_offset l h = record {
  log = record { attached = h.log.attached; file = h.log.file; append = refl };
  here = h.here;
}

grown :
    (bytes : List ℕ) (n : ℕ) (l : LogFile) → GrowsHere bytes n (length bytes) l → Grows bytes n l
grown bytes n l h = record { log = h.log; room = h.here.room }

padded-even : (bytes : List ℕ) → (length bytes % 8 == 0) ≡ true → padded bytes ≡ bytes
unfolding padded
padded-even bytes e = rw (to_eight-even (length bytes) e) (append-nil bytes)

padded-odd :
    (bytes : List ℕ)
    → (length bytes % 8 == 0) ≡ false
    → padded bytes ≡ bytes ++ replicate (8 - length bytes % 8) 0
unfolding padded
padded-odd bytes e = rw (to_eight-odd (length bytes) e) refl

align-Grows :
    (bytes : List ℕ) (n : ℕ) (l : LogFile)
    → GrowsHere bytes n (length bytes) l
    → padded_size (length bytes) ≤ n
    → Ends l align_append_offset (returned tt) (Grows (padded bytes) n)
unfolding align_append_offset
align-Grows bytes n l h room =
    ends-bind {P = GrowsHere bytes n (length bytes)} _
      (ends-gets _ (ap (λ k. k % 8) h.log.append) h)
      (λ l1 h1. elim (Bool-cases (length bytes % 8 == 0)) [
        | inl even ↦
            ends-branch_true _ _ _ even
              (ends-pure tt (rw (padded-even bytes even) (grown bytes n l1 h1)))
        | inr odd ↦
            let pad = 8 - length bytes % 8 in
            let count : length (replicate pad zero) ≡ pad = length-replicate pad zero in
            let fits : length bytes + length (replicate pad zero) ≤ n = omega (
              arith,
              room,
              to_eight-odd (length bytes) odd,
              padded_size-to_eight (length bytes),
              count,
            ) in
            ends-branch_false _ _ _ odd (
              ends-seq (write-GrowsHere bytes (replicate pad zero) n (length bytes) l1 h1 fits)
                (λ l2 h2.
                  let longer : l2.append_offset + pad ≡ length (bytes ++ replicate pad zero) =
                    omega (arith, h2.log.append, length-append bytes (replicate pad zero), count) in
                  ends-modify _ (
                    rw (padded-odd bytes odd, longer)
                      (grown (bytes ++ replicate pad zero) n _
                        (offset-GrowsHere _ n (length bytes) _ l2 h2)))))
      ])

seek-AtEnd :
    (bytes : List ℕ) (n : ℕ) (f : DatabaseFile)
    → HasBytes bytes f
    → f.room ≡ n
    → Ends f (perform (seek (length bytes))) (returned tt) (AtEnd bytes n)
unfolding seek perform
seek-AtEnd bytes n f h room =
    let moved = seek-Stands bytes (length bytes) f h in
    record {
      outcome = moved.outcome;
      after = record {
        file = moved.after.file;
        there = moved.after.there;
        room = rw (h.is_open, h.sound) room;
      };
    }

open-Grows :
    (bytes : List ℕ) (n : ℕ) (l : LogFile)
    → Grows bytes n l
    → Ends l refuse_closed (returned tt) (Grows bytes n)
unfolding refuse_closed Action.fail_if
open-Grows bytes n l h =
    let e = not_closed bytes (length bytes) l h.log in
    record { outcome = rw e refl; after = rw e h }

seek-GrowsHere :
    (bytes : List ℕ) (n : ℕ) (l : LogFile)
    → Grows bytes n l
    → Ends l
        (on_file (perform (seek (length bytes))))
        (returned tt)
        (GrowsHere bytes n (length bytes))
unfolding on_file
seek-GrowsHere bytes n l h =
    ends-within (λ l. l.file) (λ file l. record l { file = file })
      (seek-AtEnd bytes n l.file h.log.file h.room)
      (λ f there. record {
        log = record { attached = h.log.attached; file = there.file; append = h.log.append };
        here = there;
      })

padded_size-le : (k : ℕ) → k ≤ padded_size k
unfolding padded_size
padded_size-le k = ground arith

-- Appending to a log file that has the room: the bytes stand after those that were there, zeros follow up to
-- a multiple of eight, and that is where the next bytes go.
pub append-Grows :
    (bytes src : List ℕ) (n : ℕ) (l : LogFile)
    → Grows bytes n l
    → padded_size (length bytes + length src) ≤ n
    → Ends l (append src) (returned tt) (Grows (padded (bytes ++ src)) n)
unfolding append
append-Grows bytes src n l h room =
    let fits : length bytes + length src ≤ n =
      omega (arith, room, padded_size-le (length bytes + length src)) in
    let total : length bytes + length src ≡ length (bytes ++ src) = sym (length-append bytes src) in
    ends-seq (open-Grows bytes n l h) (λ l1 h1.
      ends-bind {P = Grows bytes n} _ (ends-gets _ h1.log.append h1) (λ l2 h2.
        ends-seq (seek-GrowsHere bytes n l2 h2) (λ l3 h3.
          ends-seq (write-GrowsHere bytes src n (length bytes) l3 h3 fits) (λ l4 h4.
            ends-seq {P = GrowsHere (bytes ++ src) n (length (bytes ++ src))}
              (ends-modify _ (rw total (offset-GrowsHere _ n (length bytes) _ l4 h4)))
              (λ l5 h5. align-Grows (bytes ++ src) n l5 h5 (rw (← total) room))))))
