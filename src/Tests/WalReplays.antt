-- ===== src/Tests/WalReplays.antt =====
-- The theorems on the replay of segments.
use Prim.Native.Nat.{max}
use logateway.Prelude.{
  ℕ, zero, suc, ◌≤◌, ◌≡◌, ◌≢◌, ◌⊎◌, refl, arith, true, false, some, List, [], ◌∷◌, length,
  replicate,
}
use logateway.Prelude.Int.{pos}
use logateway.Prelude.Bytes.{Bytes, codes, beq}
use logateway.Tests.Samples.{unary, at, name_1, All-replicate, length-replicate}
use logateway.Wal.Name.{segment_num}
use logateway.Wal.Disk.{File, Dir, find}
use logateway.Wal.Entry.{Config, Entry, newline}
use logateway.Wal.Scan.{scan_buffer, max_replay_line_bytes}
use logateway.Wal.Scan.Lines.{join_lines}
use logateway.Wal.Replay.{
  Outcome, accepted, refused, no_segment_faults, replay_segment, replay_sealed_segments, SegFile,
}
use logateway.Wal.Replay.Delivery.{replay_segment-too-long}
use logateway.Wal.Scan.{raw_lines}
use logateway.Wal.Replay.Delivery.{deliver}
use logateway.Wal.Reader.{listed, read_segment, read_all}
use logateway.Wal.Reader.Agreement.{read_segment-replay_segment}
use logateway.Wal.Replay.Safety.{
  IsDelivered, replay_sealed_segments-IsDelivered, replay_sealed_segments-active,
}

abbrev config : Config
config = record {
  dir = codes "w";
  max_segment_bytes = pos 8;
  max_segments = pos 10;
  sync_interval = pos 5;
}

abbrev name_2 : Bytes
name_2 = codes "wal-000002.log"

abbrev lines : List Bytes
lines = codes "{1" ∷ codes "{11" ∷ []

abbrev segment_1 : File
segment_1 = record { name = name_1; is_dir = false; content = join_lines lines }

abbrev segment_2 : File
segment_2 = record { name = name_2; is_dir = false; content = [] }

abbrev directory : Dir
directory = segment_1 ∷ segment_2 ∷ []

-- a callback that counts, and refuses the third entry
abbrev count : Entry → ℕ → ℕ × Outcome
count e zero = (1, accepted)
count e (suc zero) = (2, accepted)
count e (suc (suc n)) = (suc (suc n), refused)

found_1 : find name_1 directory ≡ some segment_1
unfolding find beq
found_1 = refl

-- the sealed segment is delivered and removed
removed :
    (replay_sealed_segments unary count config (λ p. no_segment_faults) name_2 true directory 0).1
    ≡ segment_2 ∷ []
unfolding replay_sealed_segments beq segment_num
removed = refl

replay_sealed_segments-IsDelivered_example :
    (find name_1
        (replay_sealed_segments unary count config
          (λ p. no_segment_faults)
          name_2
          true
          directory
          0).1
      ≡ some segment_1)
    ⊎ IsDelivered unary count config (λ p. no_segment_faults) segment_1
replay_sealed_segments-IsDelivered_example =
    replay_sealed_segments-IsDelivered unary count config (λ p. no_segment_faults) name_2 name_1
      true directory 0 segment_1 found_1

-- a line as long as the scanner's buffer
abbrev long_line : Bytes
long_line = replicate scan_buffer b'x'

abbrev long_segment : File
long_segment = record { name = name_1; is_dir = false; content = join_lines (long_line ∷ []) }

found_long : find name_1 (long_segment ∷ []) ≡ some long_segment
unfolding find beq
found_long = refl

long_line-long : max (max_replay_line_bytes config.max_segment_bytes) scan_buffer ≤ length long_line
unfolding max_replay_line_bytes
long_line-long = omega (arith, length-replicate scan_buffer b'x')

replay_segment-too-long_example :
    (replay_segment unary count config no_segment_faults name_1 (long_segment ∷ []) 0).2 ≡ false
replay_segment-too-long_example =
    replay_segment-too-long unary count config name_1 (long_segment ∷ []) long_segment found_long
      no_segment_faults [] [] long_line 0
      (All-replicate (λ b. b ≢ newline) scan_buffer b'x' (λ h. omega arith), tt) long_line-long refl

replay_sealed_segments-active_example :
    find name_2
      (replay_sealed_segments unary count config (λ p. no_segment_faults) name_2 true directory 0).1
    ≡ find name_2 directory
replay_sealed_segments-active_example =
    replay_sealed_segments-active unary count config (λ p. no_segment_faults) name_2 true directory
      0

-- a directory out of order: the segment 1000000 has a longer name
abbrev selected : List SegFile
selected =
    record { path = codes "wal-1000000.log"; num = pos 1000000 }
    ∷ record { path = name_2; num = pos 2 }
    ∷ []

replayed_1 : (replay_segment unary count config no_segment_faults name_1 directory 0).2 ≡ true
unfolding replay_segment raw_lines find beq
replayed_1 = refl

read_segment-replay_segment_example :
    ((read_segment unary no_segment_faults name_1 directory).1 ≡ true)
    × (replay_segment unary count config no_segment_faults name_1 directory 0
        ≡ deliver count (read_segment unary no_segment_faults name_1 directory).0 0 0)
read_segment-replay_segment_example =
    read_segment-replay_segment unary count config no_segment_faults name_1 directory 0 replayed_1

-- two segments, the second one empty
all_read : read_all unary (λ p. no_segment_faults) listed directory ≡ (at 2 ∷ at 3 ∷ [], true)
unfolding read_all raw_lines find beq segment_num
all_read = refl
