-- ===== src/Wal/Replay/Delivery.antt =====
-- What a replay hands to the callback.
use Prim.Native.Nat.{max}
use logateway.Prelude.{
  ℕ, ◌+◌, ◌≤◌, ◌≡◌, ◌≢◌, inl, inr, refl, ap, ◌∙◌, Bool, true, false, ◌&&◌, Option, none, some, List,
  [], ◌∷◌, ◌++◌, length, All, map, Bool-cases, Option-cases,
}
use logateway.Prelude.Bytes.{Bytes}
use logateway.Wal.Disk.{File, Dir, find}
use logateway.Wal.Entry.{Config, Entry, Codec, IsCodec, newline}
use logateway.Wal.Scan.{
  raw_lines, tokens, scan_file, parse_line, max_replay_line_bytes, scan_buffer,
}
use logateway.Wal.Scan.Lines.{
  join_lines, Fits, raw_lines-append, tokens-join_lines, tokens-too-long, entries, Marshalled,
  entries-Marshalled, IsOneLine-Marshalled,
}
use logateway.Wal.Replay.{
  Outcome, invoke_replay_callback, SegmentFaults, no_segment_faults, replay_tokens, replay_segment,
}

module _ {ℓ} {S : Type ℓ} (fn : Entry → S → S × Outcome) where
  -- The calls that a replay of these entries makes: one after the other, up to the first that
  -- is not accepted; with the number accepted, and whether all were.
  unfoldable pub deliver : List Entry → S → ℕ → S × ℕ × Bool
  deliver [] s count = (s, count, true)
  deliver (e ∷ es) s count = elim (invoke_replay_callback (fn e s).1) [
    | true ↦ deliver es (fn e s).0 (count + 1)
    | false ↦ ((fn e s).0, count, false)
  ]

and_true : (b : Bool) → (b && true) ≡ b
and_true true = refl
and_true false = refl

module _ {ℓ} {S : Type ℓ} where
  -- the result of the loop, and that of the scan
  abbrev with_scan : S × ℕ × Bool → Bool → S × ℕ × Bool
  with_scan r fine = (r.0, r.1, r.2 && fine)

  with_scan-true : (r : S × ℕ × Bool) → with_scan r true ≡ r
  with_scan-true r = λ i. (r.0, r.1, and_true r.2 i)

and_false : (a b : Bool) → b ≡ false → (a && b) ≡ false
and_false true b e = e
and_false false b e = refl

pub raw_lines-join_lines :
    (ls : List Bytes) → All (All (λ b. b ≢ newline)) ls → raw_lines (join_lines ls) ≡ ls
unfolding raw_lines
raw_lines-join_lines [] h = refl
raw_lines-join_lines (l ∷ ls) h =
    raw_lines-append l (join_lines ls) h.0 ∙ ap (◌∷◌ l) (raw_lines-join_lines ls h.1)

scan_file-too-long :
    (o : Option ℕ) (limit : ℕ) (before after : List Bytes) (l : Bytes) (text : Bytes)
    → All (All (λ b. b ≢ newline)) (before ++ l ∷ after)
    → max limit scan_buffer ≤ length l
    → text ≡ join_lines (before ++ l ∷ after)
    → (scan_file o limit text).1 ≡ false
unfolding scan_file
scan_file-too-long (some k) limit before after l text one long e = refl
scan_file-too-long none limit before after l text one long e =
    rw (e, raw_lines-join_lines (before ++ l ∷ after) one)
      (tokens-too-long limit before l after long)

module _ {ℓ} {S : Type ℓ} (c : Codec) (fn : Entry → S → S × Outcome) where
  -- The loop over the lines makes the calls of the entries in the lines, in order; empty and
  -- corrupt lines make none.
  pub replay_tokens-deliver :
      (ls : List Bytes) (s : S) (n : ℕ) → replay_tokens c fn ls s n ≡ deliver fn (entries c ls) s n
  unfolding replay_tokens deliver entries
  replay_tokens-deliver [] s n = refl
  replay_tokens-deliver (l ∷ ls) s n = elim (Option-cases (parse_line c l)) [
    | inl blank ↦ rw (blank, replay_tokens, entries) (replay_tokens-deliver ls s n)
    | inr (e, parsed) ↦ elim (Bool-cases (invoke_replay_callback (fn e s).1)) [
      | inl good ↦
          rw (parsed, replay_tokens, entries)
            (rw (good, replay_tokens, deliver) (replay_tokens-deliver ls (fn e s).0 (n + 1)))
      | inr bad ↦ rw (parsed, replay_tokens, entries) (rw (bad, replay_tokens, deliver) refl)
    ]
  ]

  module _ (cfg : Config) (path : Bytes) (d : Dir) (file : File)
      (here : find path d ≡ some file) where
    -- replaySegment on a file that can be opened and read
    pub replay_segment-scan :
        (f : SegmentFaults) (s : S)
        → f.open_file ≡ true
        → let t = scan_file f.read (max_replay_line_bytes cfg.max_segment_bytes) file.content in
          let r = replay_tokens c fn t.0 s 0 in
          replay_segment c fn cfg f path d s ≡ (r.0, r.1, r.2 && t.1)
    unfolding replay_segment
    replay_segment-scan f s opened = rw (opened, replay_segment) (rw (here, replay_segment) refl)

    -- If no call of the operating system fails and encoding/json keeps its laws, a segment that
    -- holds the lines of marshalled entries, each within the scanner's buffer, is replayed as
    -- those entries: each is handed over once, in the order of the writes, up to the first that
    -- is not accepted.
    pub replay_segment-Marshalled :
        (es : List Entry) (ls : List Bytes) (s : S)
        → IsCodec c
        → Marshalled c es ls
        → All (Fits (max_replay_line_bytes cfg.max_segment_bytes)) ls
        → file.content ≡ join_lines ls
        → replay_segment c fn cfg no_segment_faults path d s ≡ deliver fn (map c.wire es) s 0
    unfolding scan_file
    replay_segment-Marshalled es ls s laws made fit text =
        let limit = max_replay_line_bytes cfg.max_segment_bytes in
        let t : tokens limit (raw_lines file.content) ≡ (ls, true) =
          rw text (tokens-join_lines limit ls (IsOneLine-Marshalled c laws es ls made) fit) in
        let r : replay_tokens c fn ls s 0 ≡ deliver fn (map c.wire es) s 0 =
          replay_tokens-deliver ls s 0
          ∙ ap (λ (x : List Entry). deliver fn x s 0) (entries-Marshalled c laws es ls made) in
        replay_segment-scan no_segment_faults s refl
        ∙ ap (λ (x : List Bytes × Bool). with_scan (replay_tokens c fn x.0 s 0) x.1) t
        ∙ with_scan-true (replay_tokens c fn ls s 0)
        ∙ r

    -- A segment of whole lines, one of them as long as the scanner's buffer or longer, is never
    -- replayed with success, whatever the callback does: replaySegment reports an error.
    pub replay_segment-too-long :
        (f : SegmentFaults) (before after : List Bytes) (l : Bytes) (s : S)
        → All (All (λ b. b ≢ newline)) (before ++ l ∷ after)
        → max (max_replay_line_bytes cfg.max_segment_bytes) scan_buffer ≤ length l
        → file.content ≡ join_lines (before ++ l ∷ after)
        → (replay_segment c fn cfg f path d s).2 ≡ false
    unfolding replay_segment
    replay_segment-too-long f before after l s one long text = elim (Bool-cases f.open_file) [
      | inl opened ↦
          rw (replay_segment-scan f s opened)
            (and_false _ _ (scan_file-too-long f.read _ before after l file.content one long text))
      | inr shut ↦ rw (shut, replay_segment) refl
    ]
