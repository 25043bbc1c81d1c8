-- ===== src/Wal/Disk.antt =====
-- The directory that holds the segments, and the files and buffers through which
-- internal/wal/wal.go reaches it: the `os` and `bufio.Writer` operations that it calls.
-- `os.ReadDir` lists entries by name; the model keeps a directory as a list in any order.
-- Each call's outcome is an argument: `true`, or `none`, for a call that succeeds.
pub mod Contents
use logateway.Prelude.{
  ℕ, zero, suc, ◌+◌, ◌-◌, Bool, true, false, not, ◌&&◌, Option, none, some, List, [], ◌∷◌, ◌++◌,
  length, take, drop, ltb, leb, if◌then◌else◌,
}
use logateway.Prelude.Bytes.{Bytes, beq}

-- fs.DirEntry, with the bytes of the file
pub record File : Type 0 where
  pub name : Bytes
  pub is_dir : Bool
  pub content : Bytes

abbrev pub Dir : Type 0
Dir = List File

-- the file of a name
unfoldable pub find : Bytes → Dir → Option File
find name [] = none
find name (f ∷ d) = if beq f.name name then some f else find name d

-- what a write through an open file adds to its file; the file may have been removed
unfoldable pub append_to : Bytes → Bytes → Dir → Dir
append_to name p [] = []
append_to name p (f ∷ d) =
    if beq f.name name then record f { content = f.content ++ p } ∷ d else f ∷ append_to name p d

-- os.OpenFile(path, O_CREATE|O_WRONLY|O_APPEND): a directory of that name is an error
unfoldable pub open_create : Bool → Bytes → Dir → Option Dir
unfolding find
open_create permitted name d = if not permitted then none else elim (find name d) [
  | none ↦ some (d ++ record { name = name; is_dir = false; content = [] } ∷ [])
  | some f ↦ if f.is_dir then none else some d
]

-- os.Remove(path)
unfoldable pub remove : Bytes → Dir → Dir
remove name [] = []
remove name (f ∷ d) = if beq f.name name then d else f ∷ remove name d

-- `*os.File` with the `*bufio.Writer` over it; `failed` is the writer's sticky error
pub record Handle : Type 0 where
  pub name : Bytes
  pub is_open : Bool
  pub buf : Bytes
  pub failed : Bool

-- bufio.NewWriterSize(f, 64<<10)
abbrev pub buffer_size : ℕ
buffer_size = 65536

abbrev pub opened : Bytes → Handle
opened name = record { name = name; is_open = true; buf = []; failed = false }

-- f.Write(p): `some k` is an error after `k` bytes; a closed file takes nothing
unfoldable pub file_write : Option ℕ → Handle → Bytes → Dir → Dir × Bool
unfolding append_to
file_write none h p d = if h.is_open then (append_to h.name p d, true) else (d, false)
file_write (some k) h p d = if h.is_open then (append_to h.name (take k p) d, false) else (d, false)

-- how many bytes of a failed write went out
unfoldable pub written : Option ℕ → Handle → ℕ
written none h = 0
written (some k) h = if h.is_open then k else 0

is_empty : Bytes → Bool
is_empty [] = true
is_empty (x ∷ xs) = false

-- bufio.Writer.Flush
unfoldable pub flush : Option ℕ → Handle → Dir → Handle × Dir × Bool
unfolding file_write written is_empty
flush o h d =
    if h.failed
    then (h, d, false)
    else if is_empty h.buf
    then (h, d, true)
    else let (d', done) = file_write o h h.buf d in
      if done
      then (record h { buf = [] }, d', true)
      else (record h { buf = drop (written o h) h.buf; failed = true }, d', false)

-- a write that finds the buffer empty: what does not fit goes to the file at once
unfoldable pub write_empty : Option ℕ → Handle → Bytes → Dir → Handle × Dir × Bool
unfolding file_write
write_empty o h p d =
    if leb (length p) buffer_size
    then (record h { buf = p }, d, true)
    else let (d', done) = file_write o h p d in
      if done then (h, d', true) else (record h { failed = true }, d', false)

-- bufio.Writer.Write: fill the buffer, flush it, and go on with the rest. The first outcome is
-- that of the flush, the second that of a direct write.
unfoldable pub buf_write : Option ℕ → Option ℕ → Handle → Bytes → Dir → Handle × Dir × Bool
unfolding flush write_empty is_empty
buf_write o o' h p d =
    let room = buffer_size - length h.buf in
    if h.failed
    then (h, d, false)
    else if leb (length p) room
    then (record h { buf = h.buf ++ p }, d, true)
    else if is_empty h.buf
    then write_empty o' h p d
    else let (h', d', done) = flush o (record h { buf = h.buf ++ take room p }) d in
      if done then write_empty o' h' (drop room p) d' else (h', d', false)

-- f.Sync() and f.Close() are errors on a closed file
unfoldable pub sync_file : Bool → Handle → Bool
sync_file succeeds h = h.is_open && succeeds

unfoldable pub close_file : Bool → Handle → Handle × Bool
close_file succeeds h = (record h { is_open = false }, h.is_open && succeeds)
