-- ===== src/Wal/Writer/Rotation.antt =====
-- What segments hold, and what a rotation does to them.
use logateway.Prelude.{
  ◌≡◌, inl, inr, Bool, true, false, Option, none, some, [], ◌∷◌, ◌++◌, append-nil, arith,
  Option-cases,
}
use logateway.Prelude.Bytes.{Bytes, beq_refl}
use logateway.Wal.Name.{segment_name}
use logateway.Wal.Disk
use logateway.Wal.Disk.{
  File, Dir, find, open_create, Handle, opened, buf_write, sync_file, close_file,
}
use logateway.Wal.Disk.Contents.{content, exists, pending, flush_keeps, flush_frame, pending_of_nil}
use logateway.Wal.Segments.{next_segment_num}
use logateway.Wal.Writer.{World, Faults, open_next, seal, rotate_segment}

abbrev pub pending_active : Bytes → Option Handle → Bytes
pending_active name none = []
pending_active name (some h) = pending name h

-- What a segment holds: its bytes on disk, and those that wait in the buffer.
unfoldable pub held : Bytes → World → Bytes
held name w = content name w.dir ++ pending_active name w.active

-- The active segment is a file of the directory, and its handle has its name.
abbrev pub Present : Option Handle → Bytes → Dir → Type 0
Present none name d = Unit
Present (some h) name d = (exists h.name d ≡ true) × (h.name ≡ name)

abbrev pub IsWired : World → Type 0
IsWired w = Present w.active w.active_name w.dir

find-append-new :
    (name m : Bytes) (d : Dir) (f : File)
    → f.content ≡ []
    → content name (d ++ f ∷ []) ≡ content name d
unfolding content find
find-append-new name m [] f e = ground arith
find-append-new name m (g ∷ d) f e = ground (arith, find-append-new name m d f e)

exists-append-new :
    (name : Bytes) (d : Dir) (f : File)
    → (exists f.name (d ++ f ∷ []) ≡ true)
      × (exists name d ≡ true → exists name (d ++ f ∷ []) ≡ true)
unfolding exists find
exists-append-new name [] f = ground (arith, beq_refl f.name)
exists-append-new name (g ∷ d) f = ground (arith, exists-append-new name d f)

pub open_create_effect :
    (permitted : Bool) (name n : Bytes) (d d' : Dir)
    → open_create permitted name d ≡ some d'
    → (content n d' ≡ content n d) × (exists name d' ≡ true)
unfolding open_create exists
open_create_effect permitted name n d d' h =
    let f : File = record { name = name; is_dir = false; content = [] } in
    ground (arith, find-append-new n n d f, exists-append-new n d f)

-- A rotation that succeeds, from a point where no byte waits in a buffer.
open_next_effect :
    (f : Faults) (w : World) (n : Bytes)
    → pending_active n w.active ≡ []
    → let r = open_next f w in
      r.1 ≡ none
      → (held n r.0 ≡ held n w)
        × IsWired r.0
        × (r.0.active ≡ some (opened r.0.active_name))
        × (r.0.active_size ≡ 0)
        × (r.0.cfg ≡ w.cfg)
unfolding open_next held pending
open_next_effect f w n e h =
    let name = segment_name (next_segment_num f.list w.dir) in
    elim (Option-cases (open_create f.create name w.dir)) [
      | inl failed ↦ ground arith
      | inr (d, made) ↦
          ground (arith, open_create_effect f.create name n w.dir d, append-nil (content n w.dir))
    ]

-- What a successful rotation leaves behind, seen at the name `n`.
abbrev pub Rotated : Bytes → World → World → Type 0
Rotated n w w' =
    (held n w' ≡ held n w)
    × IsWired w'
    × (w'.active ≡ some (opened w'.active_name))
    × (w'.active_size ≡ 0)
    × (w'.cfg ≡ w.cfg)

seal_effect :
    (f : Faults) (h : Handle) (w : World) (n : Bytes)
    → w.active ≡ some h
    → exists h.name w.dir ≡ true
    → (seal f h w).1 ≡ none
    → Rotated n w (seal f h w).0
unfolding seal close_file held pending
seal_effect f h w n e present s =
    let r = Disk.flush f.seal_flush h w.dir in
    let closed : Handle = record r.0 { is_open = false } in
    let w' : World = record w { active = some closed; dir = r.1 } in
    let frame = flush_frame f.seal_flush h w.dir n in
    ground (
      arith,
      frame,
      flush_keeps n h w.dir present f.seal_flush,
      pending_of_nil n closed,
      open_next_effect f w' n,
    )

pub rotate_segment_effect :
    (f : Faults) (w : World) (n : Bytes)
    → IsWired w
    → (rotate_segment f w).1 ≡ none
    → Rotated n w (rotate_segment f w).0
unfolding rotate_segment
rotate_segment_effect f w n wired s = elim (Option-cases w.active) [
  | inl idle ↦ ground (arith, open_next_effect f w n)
  | inr (h, e) ↦ ground (arith, seal_effect f h w n e)
]
