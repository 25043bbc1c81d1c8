-- ===== src/Wal/Log/Refines.antt =====
-- The writer keeps the contract of the log.
use logateway.Prelude.{
  ◌≡◌, inl, inr, refl, sym, ap, ◌∙◌, Bool, true, false, none, some, List, [], ◌∷◌, ◌++◌,
  append_assoc, append-nil, arith, Option-cases, if◌then◌else◌,
}
use logateway.Prelude.Bytes.{Bytes, beq}
use logateway.Wal.Disk
use logateway.Wal.Disk.{Dir, Handle}
use logateway.Wal.Disk.Contents.{content, exists, flush_keeps, flush_frame, pending_of_nil}
use logateway.Wal.Entry.{Entry, Codec, newline}
use logateway.Wal.Writer.{World, Faults, write_entry}
use logateway.Wal.Writer.Rotation.{held, IsWired}
use logateway.Wal.Writer.Effects.{write_entry_effect}
use logateway.Wal.Open.{new_writer, sync_tick, close_writer}
use logateway.Wal.Open.Start.{new_writer-IsWired}
use logateway.Wal.Scan.Lines.{join_lines, Marshalled}
use logateway.Wal.Log.{
  Log, add_entry, Takes, nothing, entry, Step, wrote, not_marshalled, ticked, closed, restarted,
  Run, here, next, Represents,
}

join_lines-snoc :
    (ls : List Bytes) (l : Bytes) → join_lines (ls ++ l ∷ []) ≡ join_lines ls ++ (l ++ newline ∷ [])
join_lines-snoc [] l = refl
join_lines-snoc (k ∷ ls) l =
    ap (λ (b : Bytes). k ++ newline ∷ b) (join_lines-snoc ls l)
    ∙ sym (append_assoc k (newline ∷ join_lines ls) (l ++ newline ∷ []))

Marshalled-snoc :
    (c : Codec) (es : List Entry) (ls : List Bytes) (e : Entry) (l : Bytes)
    → Marshalled c es ls
    → c.marshal e ≡ some l
    → Marshalled c (es ++ e ∷ []) (ls ++ l ∷ [])
Marshalled-snoc c [] [] e l m h = (h, tt)
Marshalled-snoc c [] (k ∷ ls) e l m h = elim m [ ]
Marshalled-snoc c (d ∷ es) [] e l m h = elim m [ ]
Marshalled-snoc c (d ∷ es) (k ∷ ls) e l m h = (m.0, Marshalled-snoc c es ls e l m.1 h)

-- the lines of one segment
abbrev Lines : Codec → List Entry → Bytes → Type 0
Lines c es text = (ls : List Bytes) × Marshalled c es ls × (text ≡ join_lines ls)

Lines-snoc :
    (c : Codec) (b : Bool) (es : List Entry) (e : Entry) (line text text' : Bytes)
    → c.marshal e ≡ some line
    → text' ≡ text ++ (if b then line ++ newline ∷ [] else [])
    → Lines c es text
    → Lines c (if b then es ++ e ∷ [] else es) text'
Lines-snoc c true es e line text text' m t h = (
  h.0 ++ line ∷ [],
  Marshalled-snoc c es h.0 e line h.1 m,
  t ∙ ap (λ (x : Bytes). x ++ (line ++ newline ∷ [])) h.2 ∙ sym (join_lines-snoc h.0 line),
)
Lines-snoc c false es e line text text' m t h = (h.0, h.1, t ∙ append-nil text ∙ h.2)

write_entry-Represents :
    (c : Codec) (f : Faults) (e : Entry) (w : World) (l : Log)
    → (write_entry c f e w).1 ≡ none
    → Represents c w l
    → let w' = (write_entry c f e w).0 in Represents c w' (add_entry w'.active_name e l)
unfolding add_entry
write_entry-Represents c f e w l s r =
    let w' = (write_entry c f e w).0 in
    (
      (write_entry_effect c f e w [] r.0 s).2.1,
      λ n.
          let x = write_entry_effect c f e w n r.0 s in
          Lines-snoc c (beq w'.active_name n) (l n) e x.0 (held n w) (held n w') x.1 x.2.0 (r.1 n),
    )

-- a flush of the active segment, whatever its outcome, moves bytes and loses none
sync_tick_effect :
    (f : Faults) (w : World) (n : Bytes)
    → IsWired w
    → IsWired (sync_tick f w) × (held n (sync_tick f w) ≡ held n w)
unfolding sync_tick held
sync_tick_effect f w n wired = elim (Option-cases w.active) [
  | inl idle ↦ ground (arith, idle)
  | inr (h, e) ↦
      let present : exists h.name w.dir ≡ true = ground (arith, e) in
      ground (arith, e, flush_keeps n h w.dir present f.flush, flush_frame f.flush h w.dir h.name)
]

close_writer_effect :
    (f : Faults) (w : World) (n : Bytes)
    → IsWired w
    → ((h : Handle) → w.active ≡ some h → (Disk.flush f.flush h w.dir).2 ≡ true)
    → IsWired (close_writer f w) × (held n (close_writer f w) ≡ held n w)
unfolding close_writer held
close_writer_effect f w n wired flushed = elim (Option-cases w.active) [
  | inl idle ↦ ground (arith, idle)
  | inr (h, e) ↦
      let r = Disk.flush f.flush h w.dir in
      let present : exists h.name w.dir ≡ true = ground (arith, e) in
      ground (
        arith,
        e,
        flushed h e,
        flush_keeps n h w.dir present f.flush,
        flush_frame f.flush h w.dir h.name,
        pending_of_nil n r.0,
        append-nil (content n r.1),
      )
]

-- the same log, after a step that keeps what the segments hold
Represents-kept :
    (c : Codec) (w w' : World) (l : Log)
    → Represents c w l
    → IsWired w'
    → ((n : Bytes) → held n w' ≡ held n w)
    → Represents c w' l
Represents-kept c w w' l r wired same = (wired, λ n. ((r.1 n).0, (r.1 n).1, same n ∙ (r.1 n).2))

write_entry-not_marshalled :
    (c : Codec) (f : Faults) (e : Entry) (w : World)
    → c.marshal e ≡ none
    → (write_entry c f e w).0 ≡ w
unfolding write_entry
write_entry-not_marshalled c f e w h = rw (h, write_entry) refl

Step-Represents :
    (c : Codec) {w w' : World} {fs : List Entry} (l₀ : Log) (es : List Entry) (l : Log)
    → Step c w fs w'
    → Takes l₀ es l
    → Represents c w l
    → (l' : Log) × Takes l₀ (es ++ fs) l' × Represents c w' l'
Step-Represents c l₀ es l (wrote w f e s) t r =
    let w' = (write_entry c f e w).0 in
    (add_entry w'.active_name e l, entry w'.active_name e t, write_entry-Represents c f e w l s r)
Step-Represents c l₀ es l (not_marshalled w f e h) t r =
    (l, rw (append-nil es) t, rw (write_entry-not_marshalled c f e w h) r)
Step-Represents c l₀ es l (ticked w f) t r = (
  l,
  rw (append-nil es) t,
  Represents-kept c w (sync_tick f w) l r (sync_tick_effect f w [] r.0).0
      (λ n. (sync_tick_effect f w n r.0).1),
)
Step-Represents c l₀ es l (closed w f h) t r = (
  l,
  rw (append-nil es) t,
  Represents-kept c w (close_writer f w) l r (close_writer_effect f w [] r.0 h).0
      (λ n. (close_writer_effect f w n r.0 h).1),
)
Step-Represents c l₀ es l (restarted w f cfg kept s) t r = (
  l,
  rw (append-nil es) t,
  Represents-kept c w (new_writer f cfg w.dir).0 l r (new_writer-IsWired f cfg w.dir [] s).0
      (λ n. (new_writer-IsWired f cfg w.dir n s).2 ∙ sym (kept n)),
)

-- Whatever a process does with the writer, from a point where the segments represent a log: there
-- is a log that they represent afterwards, and it is the first one with the entries of the
-- Writes that returned no error, and no others, added one by one in the order of the Writes,
-- each at the end of one segment. The process may write, with any call of the operating system
-- failing as long as Write returns no error, write entries that json.Marshal refuses, flush in
-- the background with or without success, close the writer with a flush that succeeds, and,
-- once nothing waits in a buffer, open the directory again with NewWriter.
pub Run-Represents :
    (c : Codec) {w w' : World} {es : List Entry} (l : Log)
    → Run c w es w'
    → Represents c w l
    → (l' : Log) × Takes l es l' × Represents c w' l'
Run-Represents c l (here w) r = (l, nothing, r)
Run-Represents c l (next {es = es} run step) r =
    let x = Run-Represents c l run r in Step-Represents c l es x.0 step x.1 x.2
