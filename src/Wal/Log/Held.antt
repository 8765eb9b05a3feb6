-- ===== src/Wal/Log/Held.antt =====
-- The log's objects over a file with given bytes.
use quartz_database_c.Prelude.{ℕ, ◌≡◌, refl, true, List, length}
use quartz_database_c.Outcome.{Outcome}
use quartz_database_c.Outcome.Action.{Action}
use quartz_database_c.Outcome.Action.Ending.{Ends, ends-within}
use quartz_database_c.Wal.LogFile
use quartz_database_c.Wal.LogFile.{LogFile}
use quartz_database_c.Wal.LogFile.Opened.{IsLog}
use quartz_database_c.Wal.Log.{LogManager, LogWriter, LogReader, on_log, log_size}

-- An initialized manager, its writer and its reader.
pub record Held (bytes : List ℕ) (a : ℕ) (w : LogWriter) (r : LogReader) (m : LogManager)
    : Type 0 where
  pub log : IsLog bytes a m.file
  pub initialized : m.initialized ≡ true
  pub writer : m.writer ≡ w
  pub reader : m.reader ≡ r

module _ {bytes : List ℕ} {a : ℕ} {writer : LogWriter} {reader : LogReader} where
  pub on_log-Held :
      {A : Type 0} {o : Outcome A} (act : Action LogFile A) (m : LogManager)
      → Held bytes a writer reader m
      → ((l : LogFile) → IsLog bytes a l → Ends l act o (IsLog bytes a))
      → Ends m (on_log act) o (Held bytes a writer reader)
  unfolding on_log
  on_log-Held act m h k =
      ends-within (λ m. m.file) (λ file m. record m { file = file }) (k m.file h.log)
        (λ file log. record {
          log = log;
          initialized = h.initialized;
          writer = h.writer;
          reader = h.reader;
        })

  pub log_size-Held : (m : LogManager) → Held bytes a writer reader m → log_size m ≡ length bytes
  unfolding log_size LogFile.file_size
  log_size-Held m h = rw (h.log.attached, h.log.file.size) refl
