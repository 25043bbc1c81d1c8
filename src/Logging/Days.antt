-- ===== src/Logging/Days.antt =====
-- The file of each day, while no call of the operating system fails.
use mathlib.Core.Path.{subst}
use logateway.Prelude.{
  ◌≡◌, ◌≢◌, refl, sym, ap, ◌∙◌, Bool, true, false, Option, none, some, [], ◌++◌, append-nil, arith,
  Bool-cases, Option-cases, inl, inr,
}
use logateway.Prelude.Bytes.{Bytes, beq, beq→≡}
use logateway.Wal.Disk.{
  File, Dir, find, Handle, opened, open_create, file_write, write_empty, buf_write, flush,
}
use logateway.Wal.Disk.Contents.{
  content, exists, added, flush_keeps, flush_frame, buf_write_keeps, buf_write_frame,
  pending_of_nil,
}
use logateway.Wal.Writer.Rotation.{open_create_effect}
use logateway.Logging.{DailyWriter, no_faults, day_file, leave_file, rotate, write_out, write}

-- the file is that of the writer's day, it is there and open, and its buffer is empty
pub record IsTidyHandle (today : Bytes) (h : Handle) (d : Dir) : Type 0 where
  pub same_name : h.name ≡ day_file today
  pub is_open : h.is_open ≡ true
  pub sound : h.failed ≡ false
  pub flushed : h.buf ≡ []
  pub present : exists h.name d ≡ true

abbrev TidyFile : Bytes → Option Handle → Dir → Type 0
TidyFile today none d = today ≡ []
TidyFile today (some h) d = IsTidyHandle today h d

-- The writer has no file and no day yet, or the file of its day.
abbrev pub IsTidy : DailyWriter → Dir → Type 0
IsTidy w d = TidyFile w.today w.file d

flush_ok :
    (h : Handle) (d : Dir)
    → h.is_open ≡ true
    → h.failed ≡ false
    → let r = flush none h d in (r.2 ≡ true) × (r.0.failed ≡ false)
unfolding flush file_write
flush_ok h d up sound = ground arith

flush_idle : (h : Handle) (d : Dir) → h.failed ≡ false → h.buf ≡ [] → flush none h d ≡ (h, d, true)
unfolding flush
flush_idle h d sound idle = ground arith

buf_write_ok :
    (h : Handle) (d : Dir) (p : Bytes)
    → h.is_open ≡ true
    → h.failed ≡ false
    → let r = buf_write none none h p d in (r.2 ≡ true) × (r.0.failed ≡ false)
unfolding buf_write write_empty file_write flush
buf_write_ok h d p up sound = ground arith

-- what a write and its flush leave of an open file
through :
    (today : Bytes) (h : Handle) (d : Dir) (p name : Bytes)
    → IsTidyHandle today h d
    → let b = buf_write none none h p d in
      let g = flush none b.0 b.1 in
      (content name g.1 ≡ content name d ++ added name (day_file today) p)
      × IsTidyHandle today g.0 g.1
through today h d p name t =
    let b = buf_write none none h p d in
    let good = buf_write_ok h d p t.is_open t.sound in
    let kept = buf_write_frame none none h p d h.name in
    let wrote = buf_write_keeps none none name h p d t.present good.0 in
    let there : exists b.0.name b.1 ≡ true =
      subst (λ n. exists n b.1 ≡ true) (sym kept.0) (kept.2 ∙ t.present) in
    let done = flush_ok b.0 b.1 (kept.1 ∙ t.is_open) good.1 in
    let g = flush none b.0 b.1 in
    let kept' = flush_frame none b.0 b.1 b.0.name in
    let wrote' = flush_keeps name b.0 b.1 there none in
    let empty : g.0.buf ≡ [] = kept'.3 done.0 in
    (
      cc (
        append-nil (content name g.1),
        append-nil (content name d),
        pending_of_nil name g.0 empty,
        pending_of_nil name h t.flushed,
        wrote',
        wrote,
        t.same_name,
      ),
      record {
        same_name = kept'.0 ∙ kept.0 ∙ t.same_name;
        is_open = kept'.1 ∙ kept.1 ∙ t.is_open;
        sound = done.1;
        flushed = empty;
        present = subst (λ n. exists n g.1 ≡ true) (sym kept'.0) (kept'.2 ∙ there);
      },
    )

-- What a write of a day does to every file, with what it returns.
abbrev pub Logs : Bytes → Bytes → Dir → DailyWriter × Dir × Bool → Type 0
Logs today p d r =
    (r.2 ≡ true)
    × ((name : Bytes) → content name r.1 ≡ content name d ++ added name (day_file today) p)
    × (r.0.today ≡ today)
    × IsTidy r.0 r.1

-- a line that goes to an open file is on disk when Write returns
write_out-Logs :
    (w : DailyWriter) (h : Handle) (d : Dir) (p : Bytes)
    → w.file ≡ some h
    → IsTidyHandle w.today h d
    → Logs w.today p d (write_out no_faults p w d)
unfolding write_out
write_out-Logs w h d p here t =
    let good = buf_write_ok h d p t.is_open t.sound in
    rw (here, write_out)
      (rw (good.0, write_out)
        (refl, (λ name. (through w.today h d p name t).0), refl, (through w.today h d p [] t).1))

tidy :
    (w : DailyWriter) (h : Handle) (d : Dir)
    → w.file ≡ some h
    → IsTidy w d
    → IsTidyHandle w.today h d
tidy w h d here t = subst (λ o. TidyFile w.today o d) here t

leave_file_idle : (w : DailyWriter) (d : Dir) → IsTidy w d → (leave_file no_faults w d).1 ≡ d
unfolding leave_file
leave_file_idle w d t = elim (Option-cases w.file) [
  | inl shut ↦ rw (shut, leave_file) refl
  | inr (h, here) ↦
      let k = tidy w h d here t in
      rw (here, leave_file)
        (ap (λ (q : Handle × Dir × Bool). q.1) (flush_idle h d k.sound k.flushed))
]

-- the file that a rotation opens
abbrev Opened : Bytes → Dir → DailyWriter × Dir → Type 0
Opened today d r =
    (r.0 ≡ record { file = some (opened (day_file today)); today = today })
    × (exists (day_file today) r.1 ≡ true)
    × ((name : Bytes) → content name r.1 ≡ content name d)

open_create_ok :
    (name : Bytes) (d : Dir)
    → ((f : File) → find name d ≡ some f → f.is_dir ≡ false)
    → (d' : Dir) × (open_create true name d ≡ some d')
unfolding open_create
open_create_ok name d plain = elim (Option-cases (find name d)) [
  | inl missing ↦ rw (missing, open_create) (_, refl)
  | inr (f, here) ↦ rw (here, open_create) (rw (plain f here, open_create) (_, refl))
]

rotate-Opened :
    (today : Bytes) (w : DailyWriter) (d : Dir)
    → IsTidy w d
    → ((f : File) → find (day_file today) d ≡ some f → f.is_dir ≡ false)
    → Opened today d (rotate no_faults today w d)
unfolding rotate
rotate-Opened today w d t plain =
    let (d', made) = open_create_ok (day_file today) d plain in
    let same = leave_file_idle w d t in
    let made' : open_create true (day_file today) (leave_file no_faults w d).1 ≡ some d' =
      ap (open_create true (day_file today)) same ∙ made in
    rw (made', rotate)
      (
        refl,
        (open_create_effect true (day_file today) [] d d' made).1,
        (λ name. (open_create_effect true (day_file today) name d d' made).0),
      )

new_day :
    (today p : Bytes) (d : Dir) (r : DailyWriter × Dir)
    → Opened today d r
    → Logs today p d (write_out no_faults p r.0 r.1)
new_day today p d (w, d') o =
    let h = opened (day_file today) in
    let t : IsTidyHandle today h d' = record {
      same_name = refl;
      is_open = refl;
      sound = refl;
      flushed = refl;
      present = o.1;
    } in
    let w' : DailyWriter = record { file = some h; today = today } in
    let l = write_out-Logs w' h d' p refl t in
    subst (λ k. Logs today p d (write_out no_faults p k d')) (sym o.0)
      (
        l.0,
        (λ name. l.1 name ∙ ap (λ (c : Bytes). c ++ added name (day_file today) p) (o.2 name)),
        l.2,
        l.3,
      )

-- From a writer that has no day and no file yet, or has the file of its day, which is in the
-- directory and open, with an empty buffer and no earlier error: if no call of the operating
-- system fails, and no subdirectory has the name of the day's file, a Write returns no error, on
-- disk its line stands at the end of the file of the day, whether the day is the one of the last
-- line or another one, every other file is as it was, and the writer is at such a point again.
-- The clock gives a day that is not the empty text.
pub write-Logs :
    (today p : Bytes) (w : DailyWriter) (d : Dir)
    → today ≢ []
    → IsTidy w d
    → ((f : File) → find (day_file today) d ≡ some f → f.is_dir ≡ false)
    → Logs today p d (write no_faults today p w d)
unfolding write
write-Logs today p w d dated t plain = elim (Bool-cases (beq w.today today)) [
  | inr other ↦
      rw (other, write)
        (new_day today p d (rotate no_faults today w d) (rotate-Opened today w d t plain))
  | inl same ↦ elim (Option-cases w.file) [
    | inl shut ↦
        absurd (dated (sym (beq→≡ w.today today same) ∙ subst (λ o. TidyFile w.today o d) shut t))
    | inr (h, here) ↦
        rw (same, write)
          (subst (λ k. Logs k p d (write_out no_faults p w d)) (beq→≡ w.today today same)
            (write_out-Logs w h d p here (tidy w h d here t)))
  ]
]
