-- ===== src/Wal/Reader.antt =====
-- ReadAll and readSegment of internal/wal/wal.go. What the goroutine sends on the two channels is
-- the result: the entries in the order of the sends, and whether there is no error after them.
pub mod Agreement
use logateway.Prelude.{
  Bool, true, false, not, Option, none, some, List, [], ◌∷◌, ◌++◌, if◌then◌else◌,
}
use logateway.Prelude.Bytes.{Bytes}
use logateway.Wal.Disk.{File, Dir, find}
use logateway.Wal.Entry.{Entry, Codec}
use logateway.Wal.Segments.{file_num}
use logateway.Wal.Scan.{hard_replay_line_cap, scan_file, parse_line}
use logateway.Wal.Replay.{SegFile, SegmentFaults, sort_segs}

-- how os.ReadDir ends
pub data Listing : Type 0 where
  listed missing failed : Listing

-- the segments of the directory
unfoldable pub all_segments : Dir → List SegFile
unfolding file_num
all_segments [] = []
all_segments (f ∷ d) =
    let rest = all_segments d in
    elim (file_num f) [ none ↦ rest | some n ↦ record { path = f.name; num = n } ∷ rest ]

module _ (c : Codec) where
  -- the loop of readSegment over the tokens
  unfoldable pub read_tokens : List Bytes → List Entry
  unfolding parse_line
  read_tokens [] = []
  read_tokens (l ∷ ls) =
      let rest = read_tokens ls in elim (parse_line c l) [ none ↦ rest | some e ↦ e ∷ rest ]

  -- readSegment
  unfoldable pub read_segment : SegmentFaults → Bytes → Dir → List Entry × Bool
  unfolding find scan_file read_tokens
  read_segment f path d = if not f.open_file then ([], false) else elim (find path d) [
    | none ↦ ([], false)
    | some file ↦
        let (ts, fine) = scan_file f.read hard_replay_line_cap file.content in
        (read_tokens ts, fine)
  ]

  -- the loop over the sorted segments, which ends at the first error
  unfoldable pub read_segments : (Bytes → SegmentFaults) → List SegFile → Dir → List Entry × Bool
  unfolding read_segment
  read_segments faults [] d = ([], true)
  read_segments faults (seg ∷ segs) d =
      let (es, ok) = read_segment (faults seg.path) seg.path d in
      let (rest, fine) = read_segments faults segs d in
      if ok then (es ++ rest, fine) else (es, false)

  -- ReadAll
  unfoldable pub read_all : (Bytes → SegmentFaults) → Listing → Dir → List Entry × Bool
  unfolding read_segments all_segments sort_segs
  read_all faults listed d = read_segments faults (sort_segs (all_segments d)) d
  read_all faults missing d = ([], true)
  read_all faults failed d = ([], false)
