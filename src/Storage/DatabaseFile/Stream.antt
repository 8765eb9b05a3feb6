-- ===== src/Storage/DatabaseFile/Stream.antt =====
-- The stream of DatabaseFile.cpp after a read that the file has too few bytes for.
use quartz_database_c.Prelude.{
  ℕ, ◌+◌, ◌≤◌, ◌<◌, ◌≡◌, true, false, zero, suc, some, List, [], ◌∷◌, ◌++◌, ap, lt→ltb, le→ltb,
  length, take, drop, ltb, arith, refl, length-drop,
}
use quartz_database_c.Status.{err, io_error, success}
use quartz_database_c.Outcome.{returned}
use quartz_database_c.Outcome.Action
use quartz_database_c.Storage.DatabaseFile.{
  DatabaseFile, contents, read_bytes, refuse_closed, seek, write_bytes, flush, exists, resize,
  open_stream, fresh,
}

-- The stream is open and has failed: no seek, write or flush works any more.
pub record IsStuck (f : DatabaseFile) : Type 0 where
  pub no_seek : (position : ℕ) → (seek position f).1 ≡ err io_error
  pub no_write : (bytes : List ℕ) → (write_bytes bytes f).1 ≡ err io_error
  pub no_flush : (flush f).1 ≡ err io_error
  pub opened : f.is_open ≡ true
  pub broken : f.failed ≡ true

failed-IsStuck : (f : DatabaseFile) → f.is_open ≡ true → f.failed ≡ true → IsStuck f
unfolding seek write_bytes flush
failed-IsStuck f o e = record {
  no_seek = λ position. rw (o, e) refl;
  no_write = λ bytes. rw (o, e) refl;
  no_flush = rw (o, e) refl;
  opened = o;
  broken = e;
}

take_all {ℓ} : {A : Type ℓ} (n : ℕ) (xs : List A) → length xs ≤ n → take n xs ≡ xs
take_all zero [] h = refl
take_all zero (x ∷ xs) h = absurd (omega arith)
take_all (suc n) [] h = refl
take_all (suc n) (x ∷ xs) h = ap (λ t. x ∷ t) (take_all n xs (omega arith))

-- Reading more bytes than there are from the position on, on an open file where no call has failed,
-- succeeds: the bytes that are there are followed by what the destination had. But the stream has failed,
-- and `seek`, `writeBytes` and `flush` fail, until `resize` opens the file again.
pub short_read-IsStuck :
    (f : DatabaseFile) (bytes dest : List ℕ)
    → f.is_open ≡ true
    → f.failed ≡ false
    → f.eof ≡ false
    → f.stored ≡ some bytes
    → f.position ≤ length bytes
    → length bytes < f.position + length dest
    → let got = drop f.position bytes in
      let f' = (read_bytes dest f).1 in
      ((read_bytes dest f).0 ≡ returned (got ++ drop (length got) dest))
      × IsStuck f'
      × ((n : ℕ) → n ≤ f.room → f.allowed ≡ true → (resize n f').1 ≡ success)
unfolding read_bytes refuse_closed contents Action.◌>>=◌ Action.◌>>◌ Action.resume Action.gets
    Action.perform Action.fail_if resize open_stream exists fresh
short_read-IsStuck f bytes dest opened sound clear stored inside short =
    let got = drop f.position bytes in
    let few : length got < length dest = omega (arith, length-drop f.position bytes) in
    let all : take (length dest) got ≡ got = take_all (length dest) got (omega arith) in
    let is_short : ltb (length got) (length dest) ≡ true = lt→ltb _ _ few in
    (
      rw (opened, sound, clear, stored, all) refl,
      failed-IsStuck _ (rw (opened, sound, clear) refl)
          (rw (opened, sound, clear, stored, all) is_short),
      λ n room allowed.
          let fits : ltb f.room n ≡ false = le→ltb _ _ room in
          rw (opened, sound, clear, stored, fits, allowed) refl,
    )
