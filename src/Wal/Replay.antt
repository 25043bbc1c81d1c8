-- ===== src/Wal/Replay.antt =====
-- The replay of sealed segments in internal/wal/wal.go: invokeReplayCallback, replaySegment,
-- removeSegmentFile, replaySealedSegments.
-- `fn` acts on a state of its own, which stands for all that it reaches outside the directory.
pub mod Delivery
pub mod Safety
use logateway.Prelude.{
  ℕ, zero, suc, ◌+◌, ◌≡◌, refl, Bool, true, false, not, ◌&&◌, ◌||◌, Option, none, some, List, [],
  ◌∷◌, ◌++◌, length, take, ltb, ◌==◌, leb, if◌then◌else◌,
}
use logateway.Prelude.Int.{ℤ, pos, negsuc, ltb_ℤ}
use logateway.Prelude.Bytes.{Bytes, codes, beq}
use logateway.Wal.Disk.{File, Dir, find, remove}
use logateway.Wal.Entry.{Config, Entry, Codec}
use logateway.Wal.Name.{is_segment, segment_num}
use logateway.Wal.Segments.{file_num}
use logateway.Wal.Scan.{max_replay_line_bytes, hard_replay_line_cap, scan_file, parse_line}

-- How a callback ends: with nil, with an error, or with a panic.
pub data Outcome : Type 0 where
  accepted refused panicked : Outcome

-- invokeReplayCallback: a panic is an error; `true` is nil
unfoldable pub invoke_replay_callback : Outcome → Bool
invoke_replay_callback accepted = true
invoke_replay_callback refused = false
invoke_replay_callback panicked = false

-- The outcomes of the operating system while one segment is replayed: opening and reading it,
-- and the three tries to remove it.
pub record SegmentFaults : Type 0 where
  pub open_file : Bool
  pub read : Option ℕ
  pub remove_1 : Bool
  pub remove_2 : Bool
  pub remove_3 : Bool

abbrev pub no_segment_faults : SegmentFaults
no_segment_faults = record {
  open_file = true;
  read = none;
  remove_1 = true;
  remove_2 = true;
  remove_3 = true;
}

-- a segment that a scan of the directory selects
pub record SegFile : Type 0 where
  pub path : Bytes
  pub num : ℤ

-- strings.ToLower on ASCII; other names fail the test of segments
unfoldable pub to_lower : Bytes → Bytes
to_lower [] = []
to_lower (c ∷ s) = (if leb b'A' c && leb c b'Z' then c + 32 else c) ∷ to_lower s

-- what the loop over the entries of the directory keeps of one file
unfoldable pub sealed_file : Bytes → File → List SegFile
unfolding file_num to_lower
sealed_file active f =
    if beq (to_lower f.name) active
    then []
    else elim (file_num f) [ none ↦ [] | some n ↦ record { path = f.name; num = n } ∷ [] ]

unfoldable pub collect : Bytes → Dir → List SegFile
unfolding sealed_file
collect active [] = []
collect active (f ∷ d) = sealed_file active f ++ collect active d

-- sort.Slice by the number
unfoldable pub insert_seg : SegFile → List SegFile → List SegFile
insert_seg s [] = s ∷ []
insert_seg s (t ∷ ts) = if ltb_ℤ t.num s.num then t ∷ insert_seg s ts else s ∷ t ∷ ts

unfoldable pub sort_segs : List SegFile → List SegFile
unfolding insert_seg
sort_segs [] = []
sort_segs (s ∷ ss) = insert_seg s (sort_segs ss)

-- removeSegmentFile: three tries
unfoldable pub remove_segment_file : SegmentFaults → Bytes → Dir → Dir
unfolding remove
remove_segment_file f path d = if f.remove_1 || (f.remove_2 || f.remove_3) then remove path d else d

module _ {ℓ} {S : Type ℓ} (c : Codec) (fn : Entry → S → S × Outcome) where
  -- the loop of replaySegment over the tokens; `false` is an error of the callback
  unfoldable pub replay_tokens : List Bytes → S → ℕ → S × ℕ × Bool
  unfolding parse_line invoke_replay_callback
  replay_tokens [] s count = (s, count, true)
  replay_tokens (l ∷ ls) s count = elim (parse_line c l) [
    | none ↦ replay_tokens ls s count
    | some e ↦ elim (invoke_replay_callback (fn e s).1) [
      | true ↦ replay_tokens ls (fn e s).0 (count + 1)
      | false ↦ ((fn e s).0, count, false)
    ]
  ]

  -- replaySegment; `false` is an error of opening, of the callback or of the scan
  unfoldable pub replay_segment : Config → SegmentFaults → Bytes → Dir → S → S × ℕ × Bool
  unfolding find scan_file max_replay_line_bytes replay_tokens
  replay_segment cfg f path d s = if not f.open_file then (s, 0, false) else elim (find path d) [
    | none ↦ (s, 0, false)
    | some file ↦
        let (ts, fine) =
          scan_file f.read (max_replay_line_bytes cfg.max_segment_bytes) file.content in
        let (s', count, done) = replay_tokens ts s 0 in (s', count, done && fine)
  ]

  -- the loop of replaySealedSegments over the sorted segments: it stops at the first error and
  -- removes what was replayed
  unfoldable pub replay_all : Config → (Bytes → SegmentFaults) → List SegFile → Dir → S → S × Dir
  unfolding replay_segment remove_segment_file
  replay_all cfg faults [] d s = (s, d)
  replay_all cfg faults (seg ∷ segs) d s =
      let r = replay_segment cfg (faults seg.path) seg.path d s in
      elim r.2 [
        | false ↦ (r.0, d)
        | true ↦ replay_all cfg faults segs (remove_segment_file (faults seg.path) seg.path d) r.0
      ]

  -- replaySealedSegments, given the name that ActiveSegmentName returned and whether the
  -- directory could be read
  unfoldable pub replay_sealed_segments :
      Config → (Bytes → SegmentFaults) → Bytes → Bool → Dir → S → S × Dir
  unfolding to_lower collect sort_segs replay_all
  replay_sealed_segments cfg faults active readable d s =
      if readable
      then replay_all cfg faults (sort_segs (collect (to_lower active) d)) d s
      else (s, d)
