-- ===== src/Wal/LogBuffer/Bounds.antt =====
-- What LogBuffer.cpp keeps: the bytes that were appended and not flushed, in a bounded buffer.
use quartz_database_c.Prelude.{
  ◌∙◌, ℕ, ◌+◌, ◌≤◌, ◌≡◌, true, false, List, [], ◌∷◌, ◌++◌, length, ltb, leb, ◌==◌, if◌then◌else◌,
  arith, refl, length-append, Bool-cases, inl, inr, ◌⊎◌, ==→eq,
}
use quartz_database_c.Status.{Status, err, out_of_memory, success, is_ok}
use quartz_database_c.Serialization.Buffer
use quartz_database_c.Serialization.Buffer.Growth.{HasRoom, append_lem}
use quartz_database_c.Wal.LogBuffer.{LogBuffer, append, flush, clear}

pub record IsBounded (l : LogBuffer) : Type 0 where
  pub room : HasRoom l.buffer
  pub within : length l.buffer.bytes ≤ l.capacity

ltb→ge : (a b : ℕ) → ltb a b ≡ false → b ≤ a
ltb→ge a b h = ground arith

-- On a bounded buffer, `append` puts the bytes at the end if they fit in the capacity, and otherwise
-- refuses them and changes nothing; the buffer stays bounded.
pub append-IsBounded :
    (l : LogBuffer) (bytes : List ℕ)
    → IsBounded l
    → let fits = leb (length l.buffer.bytes + length bytes) l.capacity in
      ((append l bytes).0.buffer.bytes ≡ (if fits then l.buffer.bytes ++ bytes else l.buffer.bytes))
      × ((append l bytes).1 ≡ (if fits then success else err out_of_memory))
      × IsBounded (append l bytes).0
unfolding append
append-IsBounded l bytes b =
    elim (Bool-cases (ltb l.capacity (length l.buffer.bytes + length bytes))) [
      | inl long ↦
          let short : leb (length l.buffer.bytes + length bytes) l.capacity ≡ false =
            ground arith in
          rw (long, short, append) (refl, refl, b)
      | inr fits ↦
          let short : leb (length l.buffer.bytes + length bytes) l.capacity ≡ true = ground arith in
          let (contents, room, _) = append_lem l.buffer bytes b.room in
          rw (fits, short, append)
            (
              contents,
              refl,
              record {
                room = room;
                within = rw contents (
                    omega (
                      arith,
                      length-append l.buffer.bytes bytes,
                      ltb→ge l.capacity (length l.buffer.bytes + length bytes) fits,
                    ));
              },
            )
    ]

no_bytes : (xs : List ℕ) → (length xs == 0) ≡ true → xs ≡ []
no_bytes [] h = refl
no_bytes (x ∷ xs) h = absurd (omega (arith, ==→eq (length (x ∷ xs)) 0 h))

-- `flush` with any sink: after success no byte is left in the buffer, and after a failure, whose status is
-- the sink's, all are; it fails only if the sink did.
pub flush_lem :
    (sink : List ℕ → Status) (l : LogBuffer)
    → ((flush sink l).0.buffer.bytes ≡ (if is_ok (flush sink l).1 then [] else l.buffer.bytes))
      × (((flush sink l).1 ≡ success) ⊎ ((flush sink l).1 ≡ sink l.buffer.bytes))
      × ((flush sink l).0.capacity ≡ l.capacity)
unfolding flush Buffer.clear
flush_lem sink l = elim (Bool-cases (length l.buffer.bytes == 0)) [
  | inl empty ↦ rw (empty, flush) (no_bytes l.buffer.bytes empty, inl refl, refl)
  | inr some_bytes ↦ elim (Bool-cases (is_ok (sink l.buffer.bytes))) [
    | inl taken ↦ rw (some_bytes, taken, flush) (refl, inl refl, refl)
    | inr failed ↦ rw (some_bytes, failed, flush) (rw failed refl, inr refl, refl)
  ]
]

pub capacity-append : (l : LogBuffer) (bytes : List ℕ) → (append l bytes).0.capacity ≡ l.capacity
unfolding append
capacity-append l bytes = ground arith

-- Bytes that fit.
pub append_fitting :
    (l : LogBuffer) (bytes : List ℕ)
    → IsBounded l
    → length l.buffer.bytes + length bytes ≤ l.capacity
    → ((append l bytes).0.buffer.bytes ≡ l.buffer.bytes ++ bytes)
      × ((append l bytes).1 ≡ success)
      × IsBounded (append l bytes).0
append_fitting l bytes b fits =
    let (contents, status, after) = append-IsBounded l bytes b in
    let short : leb (length l.buffer.bytes + length bytes) l.capacity ≡ true = ground arith in
    (contents ∙ (rw short refl), status ∙ (rw short refl), after)

pub clear-IsBounded : (l : LogBuffer) → IsBounded l → IsBounded (clear l)
unfolding clear Buffer.clear
clear-IsBounded l b = record { room = omega (arith, b.room); within = omega arith }
