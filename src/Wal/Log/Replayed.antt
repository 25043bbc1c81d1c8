-- ===== src/Wal/Log/Replayed.antt =====
-- What a replay finds in a segment that a process has written.
use logateway.Prelude.{◌≡◌, ◌≢◌, refl, sym, ap, ◌∙◌, some, List, [], ◌∷◌, map, All}
use logateway.Prelude.Bytes.{Bytes}
use logateway.Wal.Disk.{File, find}
use logateway.Wal.Disk.Contents.{content}
use logateway.Wal.Entry.{Config, Entry, Codec, IsCodec, newline}
use logateway.Wal.Writer.{World}
use logateway.Wal.Writer.Rotation.{held}
use logateway.Wal.Scan.{raw_lines, max_replay_line_bytes}
use logateway.Wal.Scan.Lines.{join_lines, Fits, IsOneLine-Marshalled, IsOneLine}
use logateway.Wal.Replay.{Outcome, no_segment_faults, replay_segment}
use logateway.Wal.Replay.Delivery.{deliver, replay_segment-Marshalled, raw_lines-join_lines}
use logateway.Wal.Log.{Takes, Run, Represents, Log}
use logateway.Wal.Log.Refines.{Run-Represents}

content_found :
    (n : Bytes) (w : World) (file : File)
    → find n w.dir ≡ some file
    → content n w.dir ≡ file.content
unfolding content
content_found n w file here = rw (here, content) refl

newline_free : (ls : List Bytes) → All IsOneLine ls → All (All (λ b. b ≢ newline)) ls
newline_free [] h = tt
newline_free (l ∷ ls) h = (h.0.0, newline_free ls h.1)

module _ {ℓ} {S : Type ℓ} (c : Codec) (laws : IsCodec c) (fn : Entry → S → S × Outcome) where
  -- From a writer whose segments represent a log, after any number of these: Writes that return no
  -- error, whatever fails in them, Writes whose entry json.Marshal refuses, background flushes, with
  -- or without success, a Close whose flush succeeds, and, once nothing waits in a buffer, a
  -- NewWriter on the directory; but no other Write that fails, and no removal by a replay. Then the
  -- log with the entries of the accepted Writes, each at the end of one segment in the order of
  -- the Writes, is what a replay reads. For a segment that is a file of the directory and has nothing in a
  -- buffer, and whose lines fit the scanner's buffer, replaySegment makes the calls of the log's
  -- entries of that segment, as encoding/json reads them back, in order up to the first that is
  -- not accepted, if no call of the operating system fails and encoding/json keeps its laws.
  pub Run-replayed :
      {w w' : World} {es : List Entry} (l : Log) (cfg : Config) (n : Bytes) (file : File)
      → Run c w es w'
      → Represents c w l
      → held n w' ≡ content n w'.dir
      → find n w'.dir ≡ some file
      → All (Fits (max_replay_line_bytes cfg.max_segment_bytes)) (raw_lines file.content)
      → (l' : Log) × Takes l es l'
        × ((s : S)
            → replay_segment c fn cfg no_segment_faults n w'.dir s
              ≡ deliver fn (map c.wire (l' n)) s 0)
  Run-replayed {w' = w'} l cfg n file run start flushed here fit =
      let (l', taken, r) = Run-Represents c l run start in
      let (ls, made, h) = r.1 n in
      let text : file.content ≡ join_lines ls =
        sym (content_found n w' file here) ∙ sym flushed ∙ h in
      let lines : raw_lines file.content ≡ ls =
        ap raw_lines text
        ∙ raw_lines-join_lines ls (newline_free ls (IsOneLine-Marshalled c laws (l' n) ls made)) in
      let fit' : All (Fits (max_replay_line_bytes cfg.max_segment_bytes)) ls = rw (sym lines) fit in
      (
        l',
        taken,
        λ s. replay_segment-Marshalled c fn cfg n w'.dir file here (l' n) ls s laws made fit' text,
      )
