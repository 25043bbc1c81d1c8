-- ===== src/Wal/Writer/Effects.antt =====
-- What Write does to the segments, whichever calls of the operating system fail.
use logateway.Prelude.{
  ℕ, zero, suc, ◌+◌, ◌%◌, ◌^◌, ◌≡◌, ◌⊎◌, inl, inr, ap, sym, ◌∙◌, true, false, Option, none, some,
  [], ◌∷◌, ◌++◌, append-nil, arith, length, Option-cases,
}
use logateway.Prelude.Int.{ℤ, pos, negsuc, ltb_ℤ}
use logateway.Prelude.Bytes.{Bytes}
use logateway.Wal.Disk
use logateway.Wal.Disk.{
  File, Dir, find, open_create, Handle, opened, buf_write, sync_file, close_file,
}
use logateway.Wal.Disk.Contents.{
  content, exists, pending, added, flush_keeps, flush_frame, buf_write_keeps, buf_write_frame,
  pending_of_nil,
}
use logateway.Wal.Entry.{Codec, Entry, newline}
use logateway.Wal.Writer.{
  World, Faults, Error, RotateError, maybe_sync, rotate_segment, append_with, append, after_rotate,
  ensure_active, write_line, write_entry,
}
use logateway.Wal.Writer.Rotation.{held, IsWired, rotate_segment_effect}

-- What a successful append leaves behind, seen at the name `n`.
abbrev Appended : Bytes → Bytes → World → World → Type 0
Appended n p w w' =
    (held n w' ≡ held n w ++ added n w.active_name p)
    × IsWired w'
    × (w'.active_name ≡ w.active_name)
    × (w'.active_size ≡ w.active_size + length p)
    × (w.cfg.sync_interval ≡ pos 0 → held n w' ≡ content n w'.dir)
    × (w'.cfg ≡ w.cfg)

-- one more flush, after bytes were written to the buffer
flush_after :
    (o : Option ℕ) (n : Bytes) (h : Handle) (d : Dir)
    → exists h.name d ≡ true
    → let r = Disk.flush o h d in
      r.2 ≡ true
      → (content n r.1 ≡ content n d ++ pending n h)
        × (pending n r.0 ≡ [])
        × (exists r.0.name r.1 ≡ true)
        × (r.0.name ≡ h.name)
flush_after o n h d present s =
    let r = Disk.flush o h d in
    let frame = flush_frame o h d h.name in
    let nothing = pending_of_nil n r.0 (frame.3 s) in
    (
      sym (append-nil (content n r.1))
          ∙ ap (λ (q : Bytes). content n r.1 ++ q) (sym nothing)
          ∙ flush_keeps n h d present o,
      nothing,
      rw frame.0 (frame.2 ∙ present),
      frame.0,
    )

maybe_sync_effect :
    (i : ℤ) (f : Faults) (h : Handle) (w : World) (n : Bytes)
    → w.active ≡ some h
    → exists h.name w.dir ≡ true
    → h.name ≡ w.active_name
    → let r = maybe_sync i f h w in
      r.1 ≡ none
      → (held n r.0 ≡ held n w)
        × IsWired r.0
        × (r.0.active_name ≡ w.active_name)
        × (r.0.active_size ≡ w.active_size)
        × (i ≡ pos 0 → held n r.0 ≡ content n r.0.dir)
        × (r.0.cfg ≡ w.cfg)
unfolding maybe_sync held
maybe_sync_effect (negsuc k) f h w n e present named s = ground arith
maybe_sync_effect (pos (suc k)) f h w n e present named s = ground arith
maybe_sync_effect (pos zero) f h w n e present named s =
    let r = Disk.flush f.flush h w.dir in
    ground (arith, flush_after f.flush n h w.dir present, append-nil (content n r.1))

append_with_effect :
    (f : Faults) (p : Bytes) (h : Handle) (w : World) (n : Bytes)
    → w.active ≡ some h
    → exists h.name w.dir ≡ true
    → h.name ≡ w.active_name
    → (append_with f p h w).1 ≡ none
    → Appended n p w (append_with f p h w).0
unfolding append_with held
append_with_effect f p h w n e present named s =
    let r = buf_write f.fill f.direct h p w.dir in
    let w' : World = record w {
      active = some r.0;
      dir = r.1;
      active_size = w.active_size + length p;
      seq = (w.seq + 1) % 2 ^ 64;
    } in
    let frame = buf_write_frame f.fill f.direct h p w.dir h.name in
    ground (
      arith,
      frame,
      buf_write_keeps f.fill f.direct n h p w.dir present,
      maybe_sync_effect w.cfg.sync_interval f r.0 w' n,
    )

append_effect :
    (f : Faults) (p : Bytes) (w : World) (n : Bytes)
    → IsWired w
    → (append f p w).1 ≡ none
    → Appended n p w (append f p w).0
unfolding append
append_effect f p w n wired s = elim (Option-cases w.active) [
  | inl idle ↦ ground arith
  | inr (h, e) ↦ ground (arith, append_with_effect f p h w n e)
]

-- What a successful Write of the bytes `p` leaves behind, seen at the name `n`.
abbrev pub Landed : Bytes → Bytes → World → World → Type 0
Landed n p w w' =
    (held n w' ≡ held n w ++ added n w'.active_name p)
    × IsWired w'
    × ((w'.active_size ≡ length p)
        ⊎ (w'.active_size ≡ w.active_size + length p)
          × (ltb_ℤ w.cfg.max_segment_bytes (pos w'.active_size) ≡ false))
    × (w'.cfg ≡ w.cfg)

-- the same, with what SyncInterval 0 adds
abbrev Written : Bytes → Bytes → World → World → Type 0
Written n p w w' =
    (held n w' ≡ held n w ++ added n w'.active_name p)
    × IsWired w'
    × (w.cfg.sync_interval ≡ pos 0 → held n w' ≡ content n w'.dir)
    × ((w'.active_size ≡ length p)
        ⊎ (w'.active_size ≡ w.active_size + length p)
          × (ltb_ℤ w.cfg.max_segment_bytes (pos w'.active_size) ≡ false))
    × (w'.cfg ≡ w.cfg)

rotate_then_append :
    (wrap : RotateError → Error) (f : Faults) (p : Bytes) (w : World) (n : Bytes)
    → IsWired w
    → (after_rotate wrap (append f p) (rotate_segment f w)).1 ≡ none
    → Written n p w (after_rotate wrap (append f p) (rotate_segment f w)).0
unfolding after_rotate
rotate_then_append wrap f p w n wired s =
    let r = rotate_segment f w in
    elim (Option-cases r.1) [
      | inl done ↦ ground (arith, done, rotate_segment_effect f w n wired, append_effect f p r.0 n)
      | inr (e, failed) ↦ ground (arith, failed)
    ]

-- a rotation that succeeds leaves an active segment, so the second test of Write does not rotate
ensure_after_rotate :
    (wrap : RotateError → Error) (f : Faults) (p : Bytes) (w : World)
    → IsWired w
    → after_rotate wrap (ensure_active f p) (rotate_segment f w)
      ≡ after_rotate wrap (append f p) (rotate_segment f w)
unfolding after_rotate ensure_active
ensure_after_rotate wrap f p w wired =
    let r = rotate_segment f w in
    elim (Option-cases r.1) [
      | inl done ↦ ground (arith, done, rotate_segment_effect f w [] wired)
      | inr (e, failed) ↦ ground (arith, failed)
    ]

write_line_effect :
    (f : Faults) (p : Bytes) (w : World) (n : Bytes)
    → IsWired w
    → (write_line f p w).1 ≡ none
    → Written n p w (write_line f p w).0
unfolding write_line ensure_active
write_line_effect f p w n wired s = ground (
  arith,
  ensure_after_rotate Error.rotate f p w wired,
  rotate_then_append Error.rotate f p w n wired,
  rotate_then_append Error.initial_rotate f p w n wired,
  append_effect f p w n wired,
)

-- A Write that returns no error, whatever the operating system did, has marshalled the entry and
-- added that line and a newline to the segment that is active afterwards, behind all that it
-- held, and added nothing to any other segment and taken nothing from any; the active segment
-- is a file of the directory; and its size counter is within MaxSegmentBytes or counts this one
-- entry alone. The writer's active segment, if it has one, is a file of the directory before.
pub write_entry_effect :
    (c : Codec) (f : Faults) (e : Entry) (w : World) (n : Bytes)
    → IsWired w
    → (write_entry c f e w).1 ≡ none
    → (line : Bytes) × (c.marshal e ≡ some line)
      × Landed n (line ++ newline ∷ []) w (write_entry c f e w).0
unfolding write_entry
write_entry_effect c f e w n wired s = elim (Option-cases (c.marshal e)) [
  | inl failed ↦ absurd (ground arith)
  | inr (line, made) ↦ (line, made, ground (arith, write_line_effect f (line ++ newline ∷ []) w n))
]

-- With SyncInterval 0, if the active segment is a file of the directory before, all that the
-- segments hold after a Write that returns no error is on disk.
write_entry_synced :
    (c : Codec) (f : Faults) (e : Entry) (w : World) (n : Bytes)
    → IsWired w
    → w.cfg.sync_interval ≡ pos 0
    → (write_entry c f e w).1 ≡ none
    → held n (write_entry c f e w).0 ≡ content n (write_entry c f e w).0.dir
unfolding write_entry
write_entry_synced c f e w n wired each s = elim (Option-cases (c.marshal e)) [
  | inl failed ↦ absurd (ground arith)
  | inr (line, made) ↦ ground (arith, write_line_effect f (line ++ newline ∷ []) w n)
]
