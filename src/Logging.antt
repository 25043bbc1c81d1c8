-- ===== src/Logging.antt =====
-- internal/logging/filewriter.go, the dailyWriter, and levelFilter of internal/logging/logging.go.
-- The directory is that of the writer's level, with its files by their names. Format gives the day
-- of the clock as bytes; strings.EqualFold is `equal_fold`.
pub mod Days
use logateway.Prelude.{
  ℕ, ◌+◌, Bool, true, false, not, Option, none, some, List, [], ◌∷◌, ◌++◌, length, take, ltb,
  if◌then◌else◌,
}
use logateway.Prelude.Bytes.{Bytes, codes, beq}
use logateway.Wal.Disk.{Dir, Handle, opened, open_create, buf_write, flush, close_file}

-- dailyWriter, with the file and its buffer in one handle
pub record DailyWriter : Type 0 where
  pub file : Option Handle
  pub today : Bytes

-- newDailyWriter
abbrev pub new_daily_writer : DailyWriter
new_daily_writer = record { file = none; today = [] }

-- how the calls of the operating system end in one Write
pub record Faults : Type 0 where
  pub mkdir : Bool
  pub open_file : Bool
  pub old_flush : Option ℕ
  pub close : Bool
  pub full_flush : Option ℕ
  pub direct : Option ℕ
  pub flush_line : Option ℕ

abbrev pub no_faults : Faults
no_faults = record {
  mkdir = true;
  open_file = true;
  old_flush = none;
  close = true;
  full_flush = none;
  direct = none;
  flush_line = none;
}

-- the file of a day
unfoldable pub day_file : Bytes → Bytes
day_file today = today ++ codes ".log"

-- the first lines of rotate: the old file is flushed and closed, and stays in the writer
unfoldable pub leave_file : Faults → DailyWriter → Dir → DailyWriter × Dir
unfolding flush close_file
leave_file f w d = elim w.file [
  | none ↦ (w, d)
  | some h ↦
      let (h', d', done) = flush f.old_flush h d in
      (record w { file = some (close_file f.close h').0 }, d')
]

-- rotate
unfoldable pub rotate : Faults → Bytes → DailyWriter → Dir → DailyWriter × Dir
unfolding leave_file open_create day_file
rotate f today w d =
    let (w', d') = leave_file f w d in
    if not f.mkdir then (w', d') else elim (open_create f.open_file (day_file today) d') [
      | none ↦ (record w' { file = none }, d')
      | some d'' ↦ (record { file = some (opened (day_file today)); today = today }, d'')
    ]

-- the rest of Write; the last component is whether it returns no error
unfoldable pub write_out : Faults → Bytes → DailyWriter → Dir → DailyWriter × Dir × Bool
unfolding buf_write flush
write_out f p w d = elim w.file [
  | none ↦ (w, d, true)
  | some h ↦
      let (h', d', done) = buf_write f.full_flush f.direct h p d in
      let (h'', d'', flushed) = flush f.flush_line h' d' in
      if done
      then (record w { file = some h'' }, d'', true)
      else (record w { file = some h' }, d', false)
]

-- dailyWriter.Write on a day
unfoldable pub write : Faults → Bytes → Bytes → DailyWriter → Dir → DailyWriter × Dir × Bool
unfolding rotate write_out beq
write f today p w d =
    let (w', d') = if beq w.today today then (w, d) else rotate f today w d in write_out f p w' d'

-- dailyWriter.Close
unfoldable pub close : Faults → DailyWriter → Dir → DailyWriter × Dir
unfolding flush
close f w d = elim w.file [
  | none ↦ (w, d)
  | some h ↦ (record w { file = none }, (flush f.old_flush h d).1)
]

module _ (equal_fold : Bytes → Bytes → Bool) where
  -- the loop of containsLevel
  unfoldable contains_prefix : Bytes → Bytes → Bool
  contains_prefix prefix [] = false
  contains_prefix prefix (b ∷ p) =
      let rest = contains_prefix prefix p in
      if ltb (length (b ∷ p)) (length prefix)
      then false
      else if equal_fold (take (length prefix) (b ∷ p)) prefix
      then true
      else rest

  -- containsLevel
  unfoldable pub contains_level : Bytes → Bytes → Bool
  unfolding contains_prefix
  contains_level p level = contains_prefix (codes "[" ++ (level ++ codes "]")) p

  -- levelFilter.Write
  unfoldable pub filter_write :
      Bytes → Faults → Bytes → Bytes → DailyWriter → Dir → DailyWriter × Dir × Bool
  unfolding contains_level write
  filter_write level f today p w d =
      if contains_level p level then write f today p w d else (w, d, true)
