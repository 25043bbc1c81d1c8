-- ===== src/Wal/Log.antt =====
-- The contract of the write-ahead log of internal/wal/wal.go, over all that a process does with a
-- `Writer`: the segments are a log of entries, to which each accepted Write adds one entry.
pub mod Refines
pub mod Replayed
use logateway.Prelude.{◌≡◌, Bool, true, Option, none, some, List, [], ◌∷◌, ◌++◌, if◌then◌else◌}
use logateway.Prelude.Bytes.{Bytes, beq}
use logateway.Wal.Disk
use logateway.Wal.Disk.{Dir}
use logateway.Wal.Disk.Contents.{content}
use logateway.Wal.Entry.{Config, Entry, Codec}
use logateway.Wal.Writer.{World, Faults, write_entry}
use logateway.Wal.Writer.Rotation.{held, IsWired}
use logateway.Wal.Open.{new_writer, sync_tick, close_writer}
use logateway.Wal.Scan.Lines.{join_lines, Marshalled}

-- The abstract log: the entries of each segment, in order.
abbrev pub Log : Type 0
Log = Bytes → List Entry

-- one more entry in one segment
unfoldable pub add_entry : Bytes → Entry → Log → Log
add_entry name e l n = if beq name n then l n ++ e ∷ [] else l n

-- The abstract log takes these entries one after the other, each into a segment of its choice.
pub data Takes : Log → List Entry → Log → Type 0 where
  nothing : {l : Log} → Takes l [] l
  entry :
      {l : Log} {es : List Entry} {l' : Log} (name : Bytes) (e : Entry)
      → Takes l es l'
      → Takes l (es ++ e ∷ []) (add_entry name e l')

-- What a process does with the writer, and the entries that it is told are written: Writes that
-- return no error, Writes whose entry json.Marshal refuses, ticks of the background flush, a Close
-- whose flush succeeds, and a NewWriter on a directory that holds all that was written. Left out
-- are the other Writes that fail, of which some leave their line in the buffer or the file (a
-- failed sync does), a Close that cannot flush, the end of a process with bytes in the buffer,
-- and the removal of segments by a replay.
pub data Step (c : Codec) : World → List Entry → World → Type 0 where
  wrote :
      (w : World) (f : Faults) (e : Entry)
      → (write_entry c f e w).1 ≡ none
      → Step c w (e ∷ []) (write_entry c f e w).0
  not_marshalled :
      (w : World) (f : Faults) (e : Entry)
      → c.marshal e ≡ none
      → Step c w [] (write_entry c f e w).0
  ticked : (w : World) (f : Faults) → Step c w [] (sync_tick f w)
  closed :
      (w : World) (f : Faults)
      → ((h : Disk.Handle) → w.active ≡ some h → (Disk.flush f.flush h w.dir).2 ≡ true)
      → Step c w [] (close_writer f w)
  restarted :
      (w : World) (f : Faults) (cfg : Config)
      → ((n : Bytes) → held n w ≡ content n w.dir)
      → (new_writer f cfg w.dir).1 ≡ none
      → Step c w [] (new_writer f cfg w.dir).0

-- any number of steps
pub data Run (c : Codec) : World → List Entry → World → Type 0 where
  here : (w : World) → Run c w [] w
  next :
      {w : World} {es : List Entry} {w' : World} {fs : List Entry} {w'' : World}
      → Run c w es w'
      → Step c w' fs w''
      → Run c w (es ++ fs) w''

-- The segments hold the lines of the log's entries, on disk or in the buffer.
abbrev pub Represents : Codec → World → Log → Type 0
Represents c w l =
    IsWired w
    × ((n : Bytes) → (ls : List Bytes) × Marshalled c (l n) ls × (held n w ≡ join_lines ls))
