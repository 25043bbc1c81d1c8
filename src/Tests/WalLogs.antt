-- ===== src/Tests/WalLogs.antt =====
-- The theorems on the log that a process writes, at a run of two Writes and a restart.
use logateway.Prelude.{◌≡◌, refl, arith, false, none, some, List, [], ◌∷◌, ◌++◌, map, All}
use logateway.Prelude.Int.{pos}
use logateway.Prelude.Bytes.{codes, beq}
use logateway.Tests.Samples.{at, unary, unary-IsCodec, name_1}
use logateway.Wal.Name.{segment_num}
use logateway.Wal.Disk.{File, find}
use logateway.Wal.Disk.Contents.{content, pending}
use logateway.Wal.Entry.{Config, Entry}
use logateway.Wal.Writer.{World, no_faults, write_entry}
use logateway.Wal.Writer.Rotation.{held}
use logateway.Wal.Open.{sync_tick}
use logateway.Wal.Scan.{raw_lines, max_replay_line_bytes}
use logateway.Wal.Scan.Lines.{join_lines, Fits}
use logateway.Wal.Replay.{Outcome, accepted, no_segment_faults, replay_segment}
use logateway.Wal.Replay.Delivery.{deliver}
use logateway.Wal.Log.{Log, Takes, Run, here, next, wrote, ticked, Represents}
use logateway.Wal.Log.Refines.{Run-Represents}
use logateway.Wal.Log.Replayed.{Run-replayed}

abbrev config : Config
config = record {
  dir = codes "w";
  max_segment_bytes = pos 100;
  max_segments = pos 10;
  sync_interval = pos 5;
}

abbrev start : World
start = record {
  cfg = config;
  seq = 0;
  active = none;
  active_size = 0;
  active_name = [];
  closed = false;
  dir = [];
}

abbrev after_1 : World
after_1 = (write_entry unary no_faults (at 1) start).0

abbrev after_2 : World
after_2 = (write_entry unary no_faults (at 2) after_1).0

abbrev flushed : World
flushed = sync_tick no_faults after_2

succeeds_1 : (write_entry unary no_faults (at 1) start).1 ≡ none
unfolding write_entry beq segment_num
succeeds_1 = refl

succeeds_2 : (write_entry unary no_faults (at 2) after_1).1 ≡ none
unfolding write_entry beq segment_num
succeeds_2 = refl

abbrev empty_log : Log
empty_log n = []

start-Represents : Represents unary start empty_log
unfolding held content find
start-Represents = (tt, λ n. ([], tt, refl))

run : Run unary start (at 1 ∷ at 2 ∷ []) flushed
run =
    next
      (next (next (here start) (wrote start no_faults (at 1) succeeds_1))
        (wrote after_1 no_faults (at 2) succeeds_2))
      (ticked after_2 no_faults)

Run-Represents_example :
    (l : Log) × Takes empty_log (at 1 ∷ at 2 ∷ []) l × Represents unary flushed l
Run-Represents_example = Run-Represents unary empty_log run start-Represents

abbrev segment_1 : File
segment_1 = record {
  name = name_1;
  is_dir = false;
  content = join_lines (codes "{1" ∷ codes "{11" ∷ []);
}

found_1 : find name_1 flushed.dir ≡ some segment_1
unfolding write_entry sync_tick beq segment_num
found_1 = refl

nothing_pending : held name_1 flushed ≡ content name_1 flushed.dir
unfolding write_entry sync_tick held pending beq segment_num content
nothing_pending = refl

lines_fit :
    All (Fits (max_replay_line_bytes config.max_segment_bytes)) (raw_lines segment_1.content)
unfolding raw_lines
lines_fit = (ground arith, (ground arith, tt))

-- a callback that keeps the entries that it gets
abbrev keep : Entry → List Entry → List Entry × Outcome
keep e es = (es ++ e ∷ [], accepted)

Run-replayed_example :
    (l : Log) × Takes empty_log (at 1 ∷ at 2 ∷ []) l
    × ((s : List Entry)
        → replay_segment unary keep config no_segment_faults name_1 flushed.dir s
          ≡ deliver keep (map unary.wire (l name_1)) s 0)
Run-replayed_example =
    Run-replayed unary unary-IsCodec keep empty_log config name_1 segment_1 run start-Represents
      nothing_pending found_1 lines_fit
