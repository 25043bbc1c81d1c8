-- ===== src/Wal/Open/Start.antt =====
-- What NewWriter makes of the segments that it finds.
use logateway.Prelude.{◌≡◌, refl, false, none, [], append-nil, arith, Option-cases, inl, inr}
use logateway.Prelude.Bytes.{Bytes}
use logateway.Wal.Disk.{Dir}
use logateway.Wal.Disk.Contents.{content, exists, pending}
use logateway.Wal.Segments.{latest}
use logateway.Wal.Entry.{Config}
use logateway.Wal.Writer.{World, Faults}
use logateway.Wal.Writer.Rotation.{held, IsWired, rotate_segment_effect}
use logateway.Wal.Open.{open_found, open_latest, seal_nonempty, normalize, new_writer}

-- The writer is wired, and every segment holds what it had on disk before.
abbrev Opened : Bytes → Dir → World → Type 0
Opened n d w = IsWired w × (held n w ≡ content n d)

open_found-Opened :
    (f : Faults) (name n : Bytes) (w : World)
    → Opened n w.dir w
    → (open_found f name w).1 ≡ none
    → Opened n w.dir (open_found f name w).0
unfolding open_found held exists pending
open_found-Opened f name n w h s = ground (arith, append-nil (content n w.dir))

open_latest-Opened :
    (f : Faults) (n : Bytes) (w : World)
    → Opened n w.dir w
    → (open_latest f w).1 ≡ none
    → Opened n w.dir (open_latest f w).0
unfolding open_latest
open_latest-Opened f n w h s = elim (Option-cases (latest 0 none w.dir)) [
  | inl nothing ↦ ground (arith, nothing)
  | inr (name, here) ↦ ground (arith, here, open_found-Opened f name n w h)
]

-- a size above 0 only beside an active segment
open_latest-size :
    (f : Faults) (w : World)
    → w.active_size ≡ 0
    → (open_latest f w).0.active ≡ none
    → (open_latest f w).0.active_size ≡ 0
unfolding open_latest open_found
open_latest-size f w z idle = ground arith

seal_nonempty-Opened :
    (f : Faults) (n : Bytes) (d : Dir) (w : World)
    → Opened n d w
    → (seal_nonempty f w).1 ≡ none
    → Opened n d (seal_nonempty f w).0
unfolding seal_nonempty
seal_nonempty-Opened f n d w h s = elim (Option-cases w.active) [
  | inl idle ↦ ground (arith, idle)
  | inr (x, e) ↦ ground (arith, e, rotate_segment_effect f w n h.0)
]

seal_nonempty-empty :
    (f : Faults) (w : World)
    → IsWired w
    → (w.active ≡ none → w.active_size ≡ 0)
    → (seal_nonempty f w).1 ≡ none
    → (seal_nonempty f w).0.active_size ≡ 0
unfolding seal_nonempty
seal_nonempty-empty f w h z s = elim (Option-cases w.active) [
  | inl idle ↦ ground (arith, idle)
  | inr (x, e) ↦ ground (arith, e, rotate_segment_effect f w [] h)
]

-- the writer that NewWriter starts from
abbrev started : Config → Dir → World
started cfg d = record {
  cfg = normalize cfg;
  seq = 0;
  active = none;
  active_size = 0;
  active_name = [];
  closed = false;
  dir = d;
}

-- When NewWriter returns a writer, the active segment, if there is one, is a file of the
-- directory, its size counter is 0, since a segment that is not empty is sealed, and every
-- segment holds what the directory had under its name.
pub new_writer-IsWired :
    (f : Faults) (cfg : Config) (d : Dir) (n : Bytes)
    → (new_writer f cfg d).1 ≡ none
    → IsWired (new_writer f cfg d).0
      × ((new_writer f cfg d).0.active_size ≡ 0)
      × (held n (new_writer f cfg d).0 ≡ content n d)
unfolding new_writer
new_writer-IsWired f cfg d n s =
    let w = started cfg d in
    let start : Opened n d w = unfold held in (tt, append-nil (content n d)) in
    elim (Option-cases (open_latest f w).1) [
      | inr (e, failed) ↦ absurd (ground (arith, failed))
      | inl found ↦
          let w' = (open_latest f w).0 in
          let opened = open_latest-Opened f n w start found in
          ground (
            arith,
            found,
            opened,
            seal_nonempty-Opened f n d w' opened,
            seal_nonempty-empty f w' opened.0 (open_latest-size f w refl),
          )
    ]
