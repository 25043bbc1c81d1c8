-- ===== src/Wal/Writer/Fatal.antt =====
-- The errors of Write after which the active segment is unusable.
use logateway.Prelude.{
  ℕ, zero, suc, ◌+◌, ◌-◌, ◌%◌, ◌^◌, ◌≡◌, ◌⊎◌, inl, inr, true, false, Option, none, some, [], ◌∷◌,
  ◌++◌, arith, length, take, Option-cases,
}
use logateway.Prelude.Int.{ℤ, pos, negsuc}
use logateway.Prelude.Bytes.{Bytes}
use logateway.Wal.Disk.{Dir, Handle, opened, buffer_size, flush, write_empty, buf_write, close_file}
use logateway.Wal.Entry.{Codec, Entry, newline}
use logateway.Wal.Writer.{
  World, Faults, Error, RotateError, open_next, seal, rotate_segment, maybe_sync, append_with,
  append, after_rotate, ensure_active, write_line, write_entry,
}
use logateway.Wal.Writer.Wedged.{IsWedged}

-- the errors after which the active segment is unusable
abbrev pub IsFatal : Error → Type 0
IsFatal Error.write = Unit
IsFatal Error.flush = Unit
IsFatal (Error.rotate RotateError.flush_error) = Unit
IsFatal (Error.rotate RotateError.close_error) = Unit
IsFatal (Error.rotate RotateError.create_error) = Unit
IsFatal _ = ⊥

failed-flush :
    (o : Option ℕ) (h : Handle) (d : Dir) → (flush o h d).2 ≡ false → (flush o h d).0.failed ≡ true
unfolding flush
failed-flush o h d s = ground arith

failed-buf_write :
    (o o' : Option ℕ) (h : Handle) (p : Bytes) (d : Dir)
    → (buf_write o o' h p d).2 ≡ false
    → (buf_write o o' h p d).0.failed ≡ true
unfolding buf_write write_empty
failed-buf_write o o' h p d s =
    let room = buffer_size - length h.buf in
    ground (arith, failed-flush o (record h { buf = h.buf ++ take room p }) d)

fatal-seal :
    (f : Faults) (h : Handle) (w : World) {x : RotateError}
    → (seal f h w).1 ≡ some x
    → IsFatal (Error.rotate x)
    → IsWedged (seal f h w).0
unfolding seal close_file open_next
fatal-seal f h w s fatal = ground (arith, failed-flush f.seal_flush h w.dir)

fatal-maybe_sync :
    (i : ℤ) (f : Faults) (h : Handle) (w : World) (x : Error)
    → (maybe_sync i f h w).1 ≡ some x
    → IsFatal x
    → IsWedged (maybe_sync i f h w).0
unfolding maybe_sync
fatal-maybe_sync (negsuc n) f h w x s fatal = ground arith
fatal-maybe_sync (pos (suc n)) f h w x s fatal = ground arith
fatal-maybe_sync (pos zero) f h w x s fatal = ground (arith, failed-flush f.flush h w.dir)

fatal-append_with :
    (f : Faults) (p : Bytes) (h : Handle) (w : World) (x : Error)
    → (append_with f p h w).1 ≡ some x
    → IsFatal x
    → IsWedged (append_with f p h w).0
unfolding append_with
fatal-append_with f p h w x s fatal =
    let r = buf_write f.fill f.direct h p w.dir in
    let w' : World = record w {
      active = some r.0;
      dir = r.1;
      active_size = w.active_size + length p;
      seq = (w.seq + 1) % 2 ^ 64;
    } in
    ground (
      arith,
      failed-buf_write f.fill f.direct h p w.dir,
      fatal-maybe_sync w.cfg.sync_interval f r.0 w' x,
    )

fatal-append :
    (f : Faults) (p : Bytes) (h : Handle) (w : World) (x : Error)
    → w.active ≡ some h
    → (append f p w).1 ≡ some x
    → IsFatal x
    → IsWedged (append f p w).0
unfolding append
fatal-append f p h w x e s fatal = ground (arith, fatal-append_with f p h w x)

active-open_next :
    (f : Faults) (w : World)
    → (open_next f w).1 ≡ none
    → (open_next f w).0.active ≡ some (opened (open_next f w).0.active_name)
unfolding open_next
active-open_next f w s = ground arith

active-seal :
    (f : Faults) (h : Handle) (w : World)
    → (seal f h w).1 ≡ none
    → (seal f h w).0.active ≡ some (opened (seal f h w).0.active_name)
unfolding seal
active-seal f h w s =
    let r = flush f.seal_flush h w.dir in
    let closed = (close_file f.seal_close r.0).0 in
    ground (arith, active-open_next f (record w { active = some closed; dir = r.1 }))

-- the three courses of a Write
write_line-idle :
    (f : Faults) (p : Bytes) (w : World)
    → w.active ≡ none
    → write_line f p w ≡ after_rotate Error.initial_rotate (append f p) (open_next f w)
unfolding write_line ensure_active rotate_segment
write_line-idle f p w idle = ground arith

write_line-course :
    (f : Faults) (p : Bytes) (h : Handle) (w : World)
    → w.active ≡ some h
    → (write_line f p w ≡ after_rotate Error.rotate (ensure_active f p) (seal f h w))
      ⊎ (write_line f p w ≡ append f p w)
unfolding write_line ensure_active rotate_segment
write_line-course f p h w e = ground arith

ensure_active-some :
    (f : Faults) (p : Bytes) (h : Handle) (w : World)
    → w.active ≡ some h
    → ensure_active f p w ≡ append f p w
unfolding ensure_active
ensure_active-some f p h w e = ground arith

fatal-idle :
    (f : Faults) (p : Bytes) (w : World) (x : Error)
    → (after_rotate Error.initial_rotate (append f p) (open_next f w)).1 ≡ some x
    → IsFatal x
    → IsWedged (after_rotate Error.initial_rotate (append f p) (open_next f w)).0
unfolding after_rotate
fatal-idle f p w x s fatal =
    let r = open_next f w in
    elim (Option-cases r.1) [
      | inl done ↦
          ground
            (arith, done, active-open_next f w, fatal-append f p (opened r.0.active_name) r.0 x)
      | inr (y, failed) ↦ absurd (ground (arith, failed))
    ]

fatal-full :
    (f : Faults) (p : Bytes) (h : Handle) (w : World) (x : Error)
    → (after_rotate Error.rotate (ensure_active f p) (seal f h w)).1 ≡ some x
    → IsFatal x
    → IsWedged (after_rotate Error.rotate (ensure_active f p) (seal f h w)).0
unfolding after_rotate
fatal-full f p h w x s fatal =
    let r = seal f h w in
    elim (Option-cases r.1) [
      | inl done ↦ ground (
        arith,
        done,
        active-seal f h w,
        ensure_active-some f p (opened r.0.active_name) r.0,
        fatal-append f p (opened r.0.active_name) r.0 x,
      )
      | inr (y, failed) ↦ ground (arith, failed, fatal-seal f h w {x = y})
    ]

write_line-IsFatal :
    (f : Faults) (p : Bytes) (w : World) {x : Error}
    → (write_line f p w).1 ≡ some x
    → IsFatal x
    → IsWedged (write_line f p w).0
write_line-IsFatal f p w {x} s fatal = elim (Option-cases w.active) [
  | inl idle ↦ let e = write_line-idle f p w idle in rw e (fatal-idle f p w x (rw e at s) fatal)
  | inr (h, here) ↦ elim (write_line-course f p h w here) [
    | inl e ↦ rw e (fatal-full f p h w x (rw e at s) fatal)
    | inr e ↦ rw e (fatal-append f p h w x here (rw e at s) fatal)
  ]
]

-- A Write that fails in its write or its flush, or in the flush, close or create of the rotation of
-- an active segment that is full, leaves the writer with a closed or failed active segment. A
-- failed creation of the first segment is not among these errors.
pub write_entry-IsFatal :
    (c : Codec) (f : Faults) (e : Entry) (w : World) {x : Error}
    → (write_entry c f e w).1 ≡ some x
    → IsFatal x
    → IsWedged (write_entry c f e w).0
unfolding write_entry
write_entry-IsFatal c f e w s fatal = elim (Option-cases (c.marshal e)) [
  | inl failed ↦ absurd (ground (arith, failed))
  | inr (line, made) ↦
      rw (made, write_entry)
        (write_line-IsFatal f (line ++ newline ∷ []) w (rw (made, write_entry) at s) fatal)
]
