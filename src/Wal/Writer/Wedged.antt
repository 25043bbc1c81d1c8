-- ===== src/Wal/Writer/Wedged.antt =====
-- A writer whose active segment is closed or has a failed buffer never reaches the disk again.
use logateway.Prelude.{
  ℕ, zero, suc, ◌+◌, ◌-◌, ◌%◌, ◌^◌, ◌≤◌, ◌≡◌, ◌≢◌, ◌⊎◌, inl, inr, true, false, Option, none, some,
  [], ◌∷◌, ◌++◌, arith, length, take, drop, Option-cases,
}
use logateway.Prelude.Int.{ℤ, pos, negsuc, ltb_ℤ}
use logateway.Prelude.Bytes.{Bytes}
use logateway.Wal.Disk.{
  Dir, Handle, buffer_size, file_write, flush, write_empty, buf_write, sync_file,
}
use logateway.Wal.Entry.{Codec, Entry, newline}
use logateway.Wal.Writer.{
  World, Faults, seal, rotate_segment, maybe_sync, append_with, append, after_rotate, ensure_active,
  write_line, write_entry,
}
use logateway.Wal.Open.{sync_tick}

-- The file is closed, or the buffer has met an error, which bufio keeps.
abbrev pub IsDead : Handle → Type 0
IsDead h = (h.is_open ≡ false) ⊎ (h.failed ≡ true)

IsDead-flush :
    (o : Option ℕ) (h : Handle) (d : Dir)
    → IsDead h
    → ((flush o h d).1 ≡ d)
      × IsDead (flush o h d).0
      × ((flush o h d).2 ≡ true → (flush o h d).0.is_open ≡ false)
unfolding flush file_write
IsDead-flush none h d dead = ground arith
IsDead-flush (some k) h d dead = ground arith

IsDead-write_empty :
    (o : Option ℕ) (h : Handle) (p : Bytes) (d : Dir)
    → h.is_open ≡ false
    → ((write_empty o h p d).1 ≡ d) × IsDead (write_empty o h p d).0
unfolding write_empty file_write
IsDead-write_empty none h p d dead = ground arith
IsDead-write_empty (some k) h p d dead = ground arith

IsDead-buf_write :
    (o o' : Option ℕ) (h : Handle) (p : Bytes) (d : Dir)
    → IsDead h
    → ((buf_write o o' h p d).1 ≡ d) × IsDead (buf_write o o' h p d).0
unfolding buf_write
IsDead-buf_write o o' h p d dead =
    let room = buffer_size - length h.buf in
    let full : Handle = record h { buf = h.buf ++ take room p } in
    let r = flush o full d in
    ground (
      arith,
      IsDead-flush o full d,
      IsDead-write_empty o' h p d,
      IsDead-write_empty o' r.0 (drop room p) r.1,
    )

-- The active segment's handle is dead.
abbrev pub HasDead : Option Handle → Type 0
HasDead none = ⊥
HasDead (some h) = IsDead h

abbrev pub IsWedged : World → Type 0
IsWedged w = HasDead w.active

-- the directory is as it was, and the writer is still wedged
abbrev Stuck : World → World → Type 0
Stuck w w' = (w'.dir ≡ w.dir) × IsWedged w'

seal-Stuck :
    (f : Faults) (h : Handle) (w : World)
    → IsDead h
    → Stuck w (seal f h w).0 × ((seal f h w).1 ≢ none)
unfolding seal sync_file
seal-Stuck f h w dead = ground (arith, IsDead-flush f.seal_flush h w.dir)

maybe_sync-Stuck :
    (i : ℤ) (f : Faults) (h : Handle) (w : World)
    → w.active ≡ some h
    → IsDead h
    → Stuck w (maybe_sync i f h w).0
unfolding maybe_sync
maybe_sync-Stuck (negsuc n) f h w e dead = ground arith
maybe_sync-Stuck (pos (suc n)) f h w e dead = ground arith
maybe_sync-Stuck (pos zero) f h w e dead = ground (arith, IsDead-flush f.flush h w.dir)

append_with-Stuck :
    (f : Faults) (p : Bytes) (h : Handle) (w : World) → IsDead h → Stuck w (append_with f p h w).0
unfolding append_with
append_with-Stuck f p h w dead =
    let r = buf_write f.fill f.direct h p w.dir in
    let w' : World = record w {
      active = some r.0;
      dir = r.1;
      active_size = w.active_size + length p;
      seq = (w.seq + 1) % 2 ^ 64;
    } in
    ground (
      arith,
      IsDead-buf_write f.fill f.direct h p w.dir,
      maybe_sync-Stuck w.cfg.sync_interval f r.0 w',
    )

write_line-Stuck : (f : Faults) (p : Bytes) (w : World) → IsWedged w → Stuck w (write_line f p w).0
unfolding write_line ensure_active append after_rotate rotate_segment
write_line-Stuck f p w wedged = elim (Option-cases w.active) [
  | inl idle ↦ absurd (ground arith)
  | inr (h, e) ↦
      let r = seal f h w in
      elim (Option-cases r.1) [
        | inl done ↦ absurd (ground (arith, seal-Stuck f h w))
        | inr (x, failed) ↦ ground (arith, failed, seal-Stuck f h w, append_with-Stuck f p h w)
      ]
]

-- Once the active segment's handle is closed or its buffer has failed, no Write changes the
-- directory any more, and the writer stays so, even if every later call of the operating
-- system succeeds.
pub write_entry-IsWedged :
    (c : Codec) (f : Faults) (e : Entry) (w : World)
    → IsWedged w
    → ((write_entry c f e w).0.dir ≡ w.dir) × IsWedged (write_entry c f e w).0
unfolding write_entry
write_entry-IsWedged c f e w wedged = elim (Option-cases (c.marshal e)) [
  | inl failed ↦ ground arith
  | inr (line, made) ↦ ground (arith, write_line-Stuck f (line ++ newline ∷ []) w wedged)
]

-- Nor does a tick of the background flush.
sync_tick-IsWedged :
    (f : Faults) (w : World) → IsWedged w → ((sync_tick f w).dir ≡ w.dir) × IsWedged (sync_tick f w)
unfolding sync_tick
sync_tick-IsWedged f w wedged = elim (Option-cases w.active) [
  | inl idle ↦ absurd (ground arith)
  | inr (h, e) ↦ ground (arith, IsDead-flush f.flush h w.dir)
]

-- With a closed segment, a buffer that has met no error and a positive SyncInterval, a Write
-- that fits the segment and the buffer reports success, and nothing reaches the disk.
write_line-acknowledged :
    (f : Faults) (p : Bytes) (h : Handle) (n : ℕ) (w : World)
    → w.active ≡ some h
    → h.is_open ≡ false
    → h.failed ≡ false
    → w.cfg.sync_interval ≡ pos (suc n)
    → ltb_ℤ w.cfg.max_segment_bytes (pos (w.active_size + length p)) ≡ false
    → length h.buf + length p ≤ buffer_size
    → ((write_line f p w).1 ≡ none) × ((write_line f p w).0.dir ≡ w.dir)
unfolding write_line ensure_active append append_with maybe_sync buf_write
write_line-acknowledged f p h n w e closed good timer fits room = ground arith
