-- ===== src/Wal/Open.antt =====
-- The start and the end of a `Writer` of internal/wal/wal.go: openLatest, NewWriter, one tick of
-- syncLoop, Close, and the two accessors.
pub mod Start
use logateway.Prelude.{
  ℕ, zero, suc, true, false, not, Option, none, some, [], length, ltb, if◌then◌else◌,
}
use logateway.Prelude.Int.{ℤ, pos, negsuc}
use logateway.Prelude.Bytes.{Bytes, codes, beq}
use logateway.Wal.Disk
use logateway.Wal.Disk.{File, Dir, find, Handle, opened, close_file}
use logateway.Wal.Segments.{latest}
use logateway.Wal.Entry.{Config}
use logateway.Wal.Writer.{
  World, Faults, Error, read_dir, open_segment, stat, mkdir, seal_previous, rotate_segment,
}

-- the size of the file, once it is open
unfoldable pub open_found : Faults → Bytes → World → World × Option Error
unfolding find
open_found f name w = elim (find name w.dir) [
  | none ↦ (w, some open_segment)
  | some file ↦
      if not f.open_latest then (w, some open_segment) else if not f.stat then (w, some stat) else (
        record w {
          active = some (opened name);
          active_size = length file.content;
          active_name = name;
        },
        none,
      )
]

-- openLatest
unfoldable pub open_latest : Faults → World → World × Option Error
unfolding open_found latest
open_latest f w =
    if not f.list
    then (w, some read_dir)
    else elim (latest 0 none w.dir) [ none ↦ (w, none) | some name ↦ open_found f name w ]

-- the defaults of NewWriter
abbrev or_default : ℤ → ℕ → ℤ
or_default (pos zero) d = pos d
or_default (pos (suc n)) d = pos (suc n)
or_default (negsuc n) d = pos d

unfoldable pub normalize : Config → Config
unfolding beq
normalize cfg = record cfg {
  dir = if beq cfg.dir [] then codes "data/wal" else cfg.dir;
  max_segment_bytes = or_default cfg.max_segment_bytes 67108864;
  max_segments = or_default cfg.max_segments 10;
}

unfoldable pub seal_nonempty : Faults → World → World × Option Error
unfolding rotate_segment
seal_nonempty f w = elim w.active [
  | none ↦ (w, none)
  | some h ↦
      if ltb 0 w.active_size
      then (let (w', r) = rotate_segment f w in
          elim r [ none ↦ (w', none) | some e ↦ (w', some (seal_previous e)) ])
      else (w, none)
]

-- NewWriter; beside an error the caller gets no writer. The goroutine that it starts makes the
-- calls of `sync_tick`.
unfoldable pub new_writer : Faults → Config → Dir → World × Option Error
unfolding normalize open_latest seal_nonempty
new_writer f cfg d =
    let w : World = record {
      cfg = normalize cfg;
      seq = 0;
      active = none;
      active_size = 0;
      active_name = [];
      closed = false;
      dir = d;
    } in
    if not f.mkdir
    then (w, some mkdir)
    else let (w', r) = open_latest f w in
      elim r [ some e ↦ (w', some e) | none ↦ seal_nonempty f w' ]

-- one tick of syncLoop: errors are only logged
unfoldable pub sync_tick : Faults → World → World
unfolding Disk.flush
sync_tick f w = elim w.active [
  | none ↦ w
  | some h ↦
      let (h', d, done) = Disk.flush f.flush h w.dir in record w { active = some h'; dir = d }
]

-- Close: the first call flushes and closes the active segment, later ones do nothing
unfoldable pub close_writer : Faults → World → World
unfolding Disk.flush
close_writer f w = if w.closed then w else elim w.active [
  | none ↦ record w { closed = true }
  | some h ↦
      let (h', d, done) = Disk.flush f.flush h w.dir in
      record w { active = none; dir = d; closed = true }
]
