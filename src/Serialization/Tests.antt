-- ===== src/Serialization/Tests.antt =====
-- Runs of serialization/.
use quartz_database_c.Prelude.{ℕ, ◌≡◌, [], ◌∷◌, length, refl}
use quartz_database_c.Serialization.Buffer.{Buffer}
use quartz_database_c.Serialization.Reader.{BinaryReader}
use quartz_database_c.Serialization.Writer.{BinaryWriter, write_bytes}
use quartz_database_c.Serialization.Writer.Bytes.{write_bytes_appends_zeros}

abbrev two_bytes : Buffer
two_bytes = record { bytes = 5 ∷ 6 ∷ []; capacity = 64 }

abbrev writer_at : ℕ → BinaryWriter
writer_at offset = record { buffer = two_bytes; offset = offset }

abbrev reader_at : ℕ → BinaryReader
reader_at offset = record { view = 5 ∷ 6 ∷ []; offset = offset }

write_bytes_appends_zeros_example :
    ((write_bytes (writer_at 2) (7 ∷ [])).buffer.bytes ≡ 5 ∷ 6 ∷ 0 ∷ [])
    × ((write_bytes (writer_at 2) (7 ∷ [])).offset
        ≡ length (write_bytes (writer_at 2) (7 ∷ [])).buffer.bytes)
write_bytes_appends_zeros_example = write_bytes_appends_zeros (writer_at 2) (7 ∷ []) refl
