-- ===== src/Storage/DatabaseFile.antt =====
-- storage/DatabaseFile.h and DatabaseFile.cpp over one `std::fstream`. What the stream does is written out:
-- `stored` is the file on the disk, if there is one; `failed` and `eof` are the stream's failbit or badbit
-- and its eofbit; the positions for reading and writing are one. The environment is `allowed`, whether
-- the file may be opened or made, and `room`, the bytes that it can have; a write that has no room
-- leaves the file as it was. The path is one path, and positions do not reach 2^63.
pub mod Stream
use quartz_database_c.Prelude.{
  ℕ, ◌+◌, ◌-◌, Bool, true, false, not, ◌&&◌, ◌||◌, Option, none, some, List, [], ◌++◌, length, take,
  drop, replicate, ltb, max, if◌then◌else◌,
}
use quartz_database_c.Status.{Code, io_error, Status, err, success}
use quartz_database_c.Outcome.{returned}
use quartz_database_c.Outcome.Action.{Action, ◌>>=◌, ◌>>◌, gets, perform, fail_if}

pub record DatabaseFile : Type 0 where
  pub stored : Option (List ℕ)
  pub allowed : Bool
  pub room : ℕ
  pub is_open : Bool
  pub failed : Bool
  pub eof : Bool
  pub position : ℕ
  pub size : ℕ

unfoldable pub exists : DatabaseFile → Bool
exists f = elim f.stored [ none ↦ false | some bytes ↦ true ]

-- The bytes on the disk.
unfoldable pub contents : DatabaseFile → List ℕ
contents f = elim f.stored [ none ↦ [] | some bytes ↦ bytes ]

-- `fstream::open` with a good result starts at 0 with no flag set.
unfoldable pub fresh : DatabaseFile → DatabaseFile
fresh f = record f { is_open = true; failed = false; eof = false; position = 0 }

-- `fstream::open` for reading and writing a file that must be there.
unfoldable pub open_stream : DatabaseFile → DatabaseFile
open_stream f = if f.allowed && exists f then fresh f else record f { failed = true }

unfoldable pub refuse_closed : Action DatabaseFile (Unit {0})
refuse_closed f = fail_if (not f.is_open) io_error f

-- The size is found by going to the end.
unfoldable pub open_existing : DatabaseFile → DatabaseFile × Status
open_existing f =
    let opened = open_stream f in
    if opened.is_open
    then (record opened { size = length (contents opened) }, success)
    else (opened, err io_error)

unfoldable pub create_file : DatabaseFile → DatabaseFile × Status
create_file f =
    if f.allowed
    then (record (fresh f) { stored = some []; size = 0 }, success)
    else (record f { failed = true }, err io_error)

unfoldable pub open_file : Bool → Action DatabaseFile (Unit {0})
open_file create = do
  already ← gets (λ f. f.is_open)
  fail_if already io_error
  perform (λ f. if create && not (exists f) then create_file f else open_existing f)

unfoldable pub close : DatabaseFile → DatabaseFile × Status
close f = if f.is_open then (record f { is_open = false; size = 0 }, success) else (f, success)

unfoldable pub flush : DatabaseFile → DatabaseFile × Status
flush f = if not f.is_open || f.failed then (f, err io_error) else (f, success)

pub sync : DatabaseFile → DatabaseFile × Status
sync f = flush f

pub file_size : DatabaseFile → ℕ
file_size f = f.size

-- `seekg` takes eofbit away first, and neither `seekg` nor `seekp` moves a stream that has failed.
unfoldable pub seek : ℕ → DatabaseFile → DatabaseFile × Status
seek position f =
    if not f.is_open
    then (f, err io_error)
    else if f.failed
    then (record f { eof = false }, err io_error)
    else (record f { eof = false; position = position }, success)

-- `read` of as many bytes as the destination has. What could not be read stays in the destination, and the
-- call succeeds where the end of the file is the reason.
unfoldable pub read_bytes : List ℕ → Action DatabaseFile (List ℕ)
read_bytes dest = do
  refuse_closed
  got ←
      gets
        (λ f. if f.failed || f.eof then [] else take (length dest) (drop f.position (contents f)))
  perform (λ f.
      let short = ltb (length got) (length dest) in
      if f.failed || f.eof
      then (record f { failed = true }, if f.eof then success else err io_error)
      else (record f { failed = short; eof = short; position = f.position + length got }, success))
  gets (λ f. got ++ drop (length got) dest)

-- The bytes of the file after a write at a position; a gap is filled with zeros.
unfoldable pub overlay : List ℕ → ℕ → List ℕ → List ℕ
overlay bytes at src =
    take at bytes ++ replicate (at - length bytes) 0 ++ src ++ drop (at + length src) bytes

unfoldable pub write_bytes : List ℕ → DatabaseFile → DatabaseFile × Status
write_bytes src f =
    let end = f.position + length src in
    if not f.is_open
    then (f, err io_error)
    else if f.failed || f.eof || ltb f.room end
    then (record f { failed = true }, err io_error)
    else (
      record f {
        stored = some (overlay (contents f) f.position src);
        position = end;
        size = max f.size end;
      },
      success,
    )

-- `resize_file` and the stream opened again, which clears its flags; a size that the disk has no room for
-- makes it throw.
unfoldable pub resize : ℕ → DatabaseFile → DatabaseFile × Status
resize new_size f =
    let bytes = contents f in
    let resized = record f {
      stored = some (take new_size bytes ++ replicate (new_size - length bytes) 0);
      is_open = false;
      size = new_size;
    } in
    if not f.is_open
    then (f, err io_error)
    else if ltb f.room new_size
    then (open_stream (record f { is_open = false }), err io_error)
    else let reopened = open_stream resized in
      (reopened, if reopened.is_open then success else err io_error)
