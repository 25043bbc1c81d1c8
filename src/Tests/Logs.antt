-- ===== src/Tests/Logs.antt =====
-- The theorem on the log files, at the first line of a day.
use logateway.Prelude.{◌≡◌, refl, arith, true, false, [], ◌∷◌}
use logateway.Prelude.Bytes.{Bytes, codes, beq}
use logateway.Wal.Disk.{Dir, find}
use logateway.Logging.{new_daily_writer, no_faults, write, filter_write}
use logateway.Logging.Days.{Logs, write-Logs}

abbrev today : Bytes
today = codes "2024-01-02"

-- the file of the day before, and the clock's text
abbrev files : Dir
files = record { name = codes "2024-01-01.log"; is_dir = false; content = codes "[ERROR] old" } ∷ []

write-Logs_example :
    Logs today
      (codes "[ERROR] x")
      files
      (write no_faults today (codes "[ERROR] x") new_daily_writer files)
unfolding find beq
write-Logs_example =
    write-Logs today (codes "[ERROR] x") new_daily_writer files (λ h. ground arith) refl
      (λ f here. ground arith)

-- a line of another level goes nowhere, and no error is returned
filtered :
    filter_write beq (codes "WARN") no_faults today (codes "[ERROR] x") new_daily_writer files
    ≡ (new_daily_writer, files, true)
unfolding filter_write beq
filtered = refl
