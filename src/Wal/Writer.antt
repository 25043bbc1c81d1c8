-- ===== src/Wal/Writer.antt =====
-- The `Writer` of internal/wal/wal.go: NewWriter, Write, rotate, openLatest, the tick of syncLoop,
-- Close. The mutex makes each method one step on the writer and the directory together. Every
-- call of the operating system has its outcome in `Faults`; log lines are left out.
pub mod Rotation
pub mod Effects
pub mod Wedged
pub mod Fatal
use logateway.Prelude.{
  ℕ, zero, suc, ◌+◌, ◌*◌, ◌%◌, ◌^◌, Bool, true, false, not, ◌&&◌, ◌||◌, Option, none, some, List,
  [], ◌∷◌, ◌++◌, length, ltb, ◌==◌, if◌then◌else◌,
}
use logateway.Prelude.Int.{ℤ, pos, negsuc, ltb_ℤ}
use logateway.Prelude.Bytes.{Bytes, codes, beq}
use logateway.Wal.Disk
use logateway.Wal.Name.{segment_name}
use logateway.Wal.Disk.{
  File, Dir, find, open_create, Handle, opened, buf_write, sync_file, close_file,
}
use logateway.Wal.Segments.{next_segment_num, latest}
use logateway.Wal.Entry.{Config, Entry, Codec, newline}

-- What fails in rotate, and what Write and NewWriter report.
pub data RotateError : Type 0 where
  flush_error sync_error close_error create_error : RotateError

pub data Error : Type 0 where
  marshal : Error
  rotate : RotateError → Error
  initial_rotate : RotateError → Error
  write flush sync : Error
  mkdir read_dir open_segment stat : Error
  seal_previous : RotateError → Error

-- The outcome of each call of the operating system that one method makes: `true` and `none` for
-- success, `some k` for a write that fails after `k` bytes.
pub record Faults : Type 0 where
  pub seal_flush : Option ℕ
  pub seal_sync : Bool
  pub seal_close : Bool
  pub list : Bool
  pub create : Bool
  pub fill : Option ℕ
  pub direct : Option ℕ
  pub flush : Option ℕ
  pub sync : Bool
  pub mkdir : Bool
  pub open_latest : Bool
  pub stat : Bool

abbrev pub no_faults : Faults
no_faults = record {
  seal_flush = none;
  seal_sync = true;
  seal_close = true;
  list = true;
  create = true;
  fill = none;
  direct = none;
  flush = none;
  sync = true;
  mkdir = true;
  open_latest = true;
  stat = true;
}

-- Writer, and the directory that it writes to. `active` holds activeSeg with activeBuf, `closed`
-- says that closeOnce has run.
pub record World : Type 0 where
  pub cfg : Config
  pub seq : ℕ
  pub active : Option Handle
  pub active_size : ℕ
  pub active_name : Bytes
  pub closed : Bool
  pub dir : Dir

-- the second half of rotate: create the next segment and make it the active one
unfoldable pub open_next : Faults → World → World × Option RotateError
unfolding next_segment_num segment_name open_create
open_next f w =
    let name = segment_name (next_segment_num f.list w.dir) in
    elim (open_create f.create name w.dir) [
      | none ↦ (w, some create_error)
      | some d ↦ (
        record w { active = some (opened name); active_size = 0; active_name = name; dir = d },
        none,
      )
    ]

-- the first half of rotate: flush, sync and close the active segment
unfoldable pub seal : Faults → Handle → World → World × Option RotateError
unfolding Disk.flush sync_file close_file open_next
seal f h w =
    let (h', d, flushed) = Disk.flush f.seal_flush h w.dir in
    let w' = record w { active = some h'; dir = d } in
    if not flushed
    then (w', some flush_error)
    else if not (sync_file f.seal_sync h')
    then (w', some sync_error)
    else let (closed, done) = close_file f.seal_close h' in
      let w'' = record w' { active = some closed } in
      if not done then (w'', some close_error) else open_next f w''

unfoldable pub rotate_active : Option Handle → Faults → World → World × Option RotateError
unfolding seal open_next
rotate_active none f w = open_next f w
rotate_active (some h) f w = seal f h w

-- rotate
unfoldable pub rotate_segment : Faults → World → World × Option RotateError
unfolding rotate_active
rotate_segment f w = rotate_active w.active f w

-- `if w.cfg.SyncInterval == 0 { Flush; Sync }`
unfoldable pub maybe_sync : ℤ → Faults → Handle → World → World × Option Error
unfolding Disk.flush sync_file
maybe_sync (negsuc n) f h w = (w, none)
maybe_sync (pos (suc n)) f h w = (w, none)
maybe_sync (pos zero) f h w =
    let (h', d, flushed) = Disk.flush f.flush h w.dir in
    let w' = record w { active = some h'; dir = d } in
    if not flushed
    then (w', some flush)
    else if not (sync_file f.sync h')
    then (w', some sync)
    else (w', none)

-- Write from the call of activeBuf.Write on; the sequence number is a uint64
unfoldable pub append_with : Faults → Bytes → Handle → World → World × Option Error
unfolding buf_write maybe_sync
append_with f data_bytes h w =
    let (h', d, done) = buf_write f.fill f.direct h data_bytes w.dir in
    let w' = record w { active = some h'; dir = d } in
    if not done
    then (w', some write)
    else maybe_sync w.cfg.sync_interval f h'
        (record w' { active_size = w.active_size + length data_bytes; seq = (w.seq + 1) % 2 ^ 64 })

-- `some write` at no active segment stands for a nil buffer, which no call of this meets
unfoldable pub append : Faults → Bytes → World → World × Option Error
unfolding append_with
append f data_bytes w = elim w.active [
  | none ↦ (w, some write)
  | some h ↦ append_with f data_bytes h w
]

-- go on after a call of rotate
unfoldable pub after_rotate :
    (RotateError → Error)
    → (World → World × Option Error)
    → World × Option RotateError
    → World × Option Error
after_rotate wrap next (w, none) = next w
after_rotate wrap next (w, some e) = (w, some (wrap e))

-- `if w.activeSeg == nil { rotate }`, and the rest of Write
unfoldable pub ensure_active : Faults → Bytes → World → World × Option Error
unfolding append after_rotate rotate_segment
ensure_active f data_bytes w = elim w.active [
  | none ↦ after_rotate initial_rotate (append f data_bytes) (rotate_segment f w)
  | some h ↦ append f data_bytes w
]

-- Write after the entry is marshalled; `data` ends in a newline
unfoldable pub write_line : Faults → Bytes → World → World × Option Error
unfolding ensure_active after_rotate rotate_segment
write_line f data_bytes w =
    let full = ltb_ℤ w.cfg.max_segment_bytes (pos (w.active_size + length data_bytes)) in
    elim w.active [
      | none ↦ ensure_active f data_bytes w
      | some h ↦
          if full
          then after_rotate rotate (ensure_active f data_bytes) (rotate_segment f w)
          else ensure_active f data_bytes w
    ]

-- Write
unfoldable pub write_entry : Codec → Faults → Entry → World → World × Option Error
unfolding write_line
write_entry c f e w = elim (c.marshal e) [
  | none ↦ (w, some marshal)
  | some line ↦ write_line f (line ++ newline ∷ []) w
]
