-- ===== src/Tests/WalWrites.antt =====
-- The theorems on the WAL writer, at a directory with one segment.
use logateway.Prelude.{◌+◌, ◌^◌, ◌<◌, ◌≡◌, refl, arith, true, false, none, some, [], ◌∷◌, ◌++◌, inl}
use logateway.Prelude.Int.{ℤ, pos}
use logateway.Prelude.Bytes.{Bytes, codes, beq}
use logateway.Tests.Samples.{at, unary, name_1}
use logateway.Wal.Name.{segment_num, segment_name}
use logateway.Wal.Name.RoundTrip.{segment_num-segment_name}
use logateway.Wal.Disk.{File, find, Handle, opened}
use logateway.Wal.Disk.Contents.{content, exists}
use logateway.Wal.Entry.{Config, newline}
use logateway.Wal.Segments.{next_segment_num, max_num}
use logateway.Wal.Segments.Fresh.{next_segment_num_fresh}
use logateway.Wal.Writer
use logateway.Wal.Writer.{World, Faults, no_faults, write_entry, write_line}
use logateway.Wal.Writer.Rotation.{held, IsWired}
use logateway.Wal.Writer.Effects.{Landed, write_entry_effect}
use logateway.Wal.Writer.Wedged.{IsWedged, write_entry-IsWedged}
use logateway.Wal.Open.{new_writer}
use logateway.Wal.Open.Start.{new_writer-IsWired}
use logateway.Wal.Writer.Fatal.{write_entry-IsFatal}

abbrev segment_1 : File
segment_1 = record { name = name_1; is_dir = false; content = codes "{1" ++ newline ∷ [] }

abbrev small : ℤ → Config
small interval = record {
  dir = codes "w";
  max_segment_bytes = pos 8;
  max_segments = pos 10;
  sync_interval = interval;
}

abbrev world : ℤ → World
world interval = record {
  cfg = small interval;
  seq = 1;
  active = some (opened name_1);
  active_size = 3;
  active_name = name_1;
  closed = false;
  dir = segment_1 ∷ [];
}

-- the same writer after a rotation that has closed its segment and gone no further
abbrev closed_handle : Handle
closed_handle = record { name = name_1; is_open = false; buf = []; failed = false }

abbrev wedged_world : World
wedged_world = record {
  cfg = small (pos 5);
  seq = 1;
  active = some closed_handle;
  active_size = 3;
  active_name = name_1;
  closed = false;
  dir = segment_1 ∷ [];
}

world-IsWired : (interval : ℤ) → IsWired (world interval)
unfolding exists find beq
world-IsWired interval = (refl, refl)

-- an entry of six bytes and a newline rotates
rotates :
    (write_entry unary no_faults (at 5) (world (pos 0))).0.active_name ≡ codes "wal-000002.log"
unfolding write_entry beq segment_num
rotates = refl

write_succeeds : (write_entry unary no_faults (at 5) (world (pos 0))).1 ≡ none
unfolding write_entry beq segment_num
write_succeeds = refl

write_entry_effect_example :
    (line : Bytes) × (unary.marshal (at 5) ≡ some line)
    × Landed
        (codes "wal-000002.log")
        (line ++ newline ∷ [])
        (world (pos 0))
        (write_entry unary no_faults (at 5) (world (pos 0))).0
write_entry_effect_example =
    write_entry_effect unary no_faults (at 5) (world (pos 0)) (codes "wal-000002.log")
      (world-IsWired (pos 0)) write_succeeds

-- the creation of the next segment fails
abbrev no_create : Faults
no_create = record no_faults { create = false }

create_fails :
    (write_entry unary no_create (at 5) (world (pos 5))).1
    ≡ some (Writer.Error.rotate Writer.RotateError.create_error)
unfolding write_entry beq segment_num
create_fails = refl

write_entry-IsFatal_example : IsWedged (write_entry unary no_create (at 5) (world (pos 5))).0
write_entry-IsFatal_example =
    write_entry-IsFatal unary no_create (at 5) (world (pos 5)) create_fails tt

write_entry-IsWedged_example :
    ((write_entry unary no_faults (at 1) wedged_world).0.dir ≡ wedged_world.dir)
    × IsWedged (write_entry unary no_faults (at 1) wedged_world).0
write_entry-IsWedged_example = write_entry-IsWedged unary no_faults (at 1) wedged_world (inl refl)

-- a directory whose name is that of the next segment
abbrev in_the_way : File
in_the_way = record { name = codes "wal-000002.log"; is_dir = true; content = [] }

fits : max_num 0 (segment_1 ∷ in_the_way ∷ []) + 1 < 2 ^ 63
unfolding max_num segment_num beq
fits = ground arith

taken :
    find
      (segment_name (next_segment_num true (segment_1 ∷ in_the_way ∷ [])))
      (segment_1 ∷ in_the_way ∷ [])
    ≡ some in_the_way
unfolding find next_segment_num segment_num segment_name beq
taken = refl

next_segment_num_fresh_example : in_the_way.is_dir ≡ true
next_segment_num_fresh_example =
    next_segment_num_fresh (segment_1 ∷ in_the_way ∷ []) in_the_way fits taken

segment_num-segment_name_example : segment_num (segment_name (pos 1234567)) ≡ some (pos 1234567)
segment_num-segment_name_example = segment_num-segment_name 1234567 (ground arith)

new_writer_succeeds : (new_writer no_faults (small (pos 5)) (segment_1 ∷ [])).1 ≡ none
unfolding new_writer beq segment_num
new_writer_succeeds = refl

new_writer-IsWired_example :
    IsWired (new_writer no_faults (small (pos 5)) (segment_1 ∷ [])).0
    × ((new_writer no_faults (small (pos 5)) (segment_1 ∷ [])).0.active_size ≡ 0)
    × (held name_1 (new_writer no_faults (small (pos 5)) (segment_1 ∷ [])).0
        ≡ content name_1 (segment_1 ∷ []))
new_writer-IsWired_example =
    new_writer-IsWired no_faults (small (pos 5)) (segment_1 ∷ []) name_1 new_writer_succeeds
