-- ===== src/Wal/Reader/Agreement.antt =====
-- ReadAll reads what a replay hands over.
use Prim.Native.Nat.{max}
use logateway.Prelude.{
  ℕ, ◌≤◌, ◌≡◌, refl, sym, ap, ◌∙◌, Bool, true, ◌&&◌, Option, none, some, List, [], ◌∷◌, length, ltb,
  arith, Bool-cases, Option-cases, inl, inr,
}
use logateway.Prelude.Int.{ℤ}
use logateway.Prelude.Bytes.{Bytes}
use logateway.Wal.Disk.{File, Dir, find}
use logateway.Wal.Entry.{Config, Entry, Codec}
use logateway.Wal.Scan.{
  raw_lines, drop_cr, tokens, scan_file, parse_line, scan_buffer, max_replay_line_bytes,
  hard_replay_line_cap,
}
use logateway.Wal.Scan.Lines.{entries}
use logateway.Wal.Replay.{Outcome, SegmentFaults, replay_tokens, replay_segment}
use logateway.Wal.Replay.Delivery.{deliver, replay_tokens-deliver, replay_segment-scan}
use logateway.Wal.Reader.{read_tokens, read_segment}

read_tokens_lem : (c : Codec) (ls : List Bytes) → read_tokens c ls ≡ entries c ls
unfolding read_tokens entries
read_tokens_lem c [] = refl
read_tokens_lem c (l ∷ ls) = elim (Option-cases (parse_line c l)) [
  | inl blank ↦ rw (blank, read_tokens, entries) (read_tokens_lem c ls)
  | inr (e, parsed) ↦ rw (parsed, read_tokens, entries) (ap (◌∷◌ e) (read_tokens_lem c ls))
]

-- a scan that comes to its end does so with any larger buffer, with the same tokens
tokens_mono :
    (small large : ℕ) (ls : List Bytes)
    → small ≤ large
    → (tokens small ls).1 ≡ true
    → tokens large ls ≡ tokens small ls
unfolding tokens
tokens_mono small large [] le h = refl
tokens_mono small large (l ∷ ls) le h = elim (Bool-cases (ltb (length l) (max small scan_buffer))) [
  | inl fits ↦
      let fits' : ltb (length l) (max large scan_buffer) ≡ true = ground arith in
      rw (fits, tokens)
        (rw (fits', tokens)
          (ap (λ (r : List Bytes × Bool). (drop_cr l ∷ r.0, r.1))
            (tokens_mono small large ls le (ground (arith, fits)))))
  | inr long ↦ absurd (ground (arith, long))
]

max_replay_line_bytes_le : (n : ℤ) → max_replay_line_bytes n ≤ hard_replay_line_cap
unfolding max_replay_line_bytes
max_replay_line_bytes_le n = ground arith

scan_file_mono :
    (o : Option ℕ) (small large : ℕ) (text : Bytes)
    → small ≤ large
    → (scan_file o small text).1 ≡ true
    → scan_file o large text ≡ scan_file o small text
unfolding scan_file
scan_file_mono none small large text le h = tokens_mono small large (raw_lines text) le h
scan_file_mono (some k) small large text le h = absurd (ground arith)

and_fine : (a b : Bool) → (a && b) ≡ true → (b ≡ true) × ((a && b) ≡ a)
and_fine a b h = ground arith

read_segment-scan :
    (c : Codec) (f : SegmentFaults) (path : Bytes) (d : Dir) (file : File)
    → f.open_file ≡ true
    → find path d ≡ some file
    → let t = scan_file f.read hard_replay_line_cap file.content in
      read_segment c f path d ≡ (read_tokens c t.0, t.1)
unfolding read_segment
read_segment-scan c f path d file opened here =
    rw (opened, read_segment) (rw (here, read_segment) refl)

module _ {ℓ} {S : Type ℓ} (c : Codec) (fn : Entry → S → S × Outcome) (cfg : Config)
    (f : SegmentFaults) (path : Bytes) (d : Dir) where
  agreement :
      (s : S) (file : File)
      → f.open_file ≡ true
      → find path d ≡ some file
      → (replay_segment c fn cfg f path d s).2 ≡ true
      → ((read_segment c f path d).1 ≡ true)
        × (replay_segment c fn cfg f path d s ≡ deliver fn (read_segment c f path d).0 s 0)
  agreement s file opened here h =
      let limit = max_replay_line_bytes cfg.max_segment_bytes in
      let t = scan_file f.read limit file.content in
      let r = replay_tokens c fn t.0 s 0 in
      let replayed : replay_segment c fn cfg f path d s ≡ (r.0, r.1, r.2 && t.1) =
        replay_segment-scan c fn cfg path d file here f s opened in
      let fine = and_fine r.2 t.1 (sym (ap (λ (q : S × ℕ × Bool). q.2) replayed) ∙ h) in
      let same =
        scan_file_mono f.read limit hard_replay_line_cap file.content
          (max_replay_line_bytes_le cfg.max_segment_bytes) fine.0 in
      let read : read_segment c f path d ≡ (read_tokens c t.0, t.1) =
        read_segment-scan c f path d file opened here
        ∙ ap (λ (q : List Bytes × Bool). (read_tokens c q.0, q.1)) same in
      let found : (read_segment c f path d).0 ≡ entries c t.0 =
        ap (λ (q : List Entry × Bool). q.0) read ∙ read_tokens_lem c t.0 in
      (
        ap (λ (q : List Entry × Bool). q.1) read ∙ fine.0,
        replayed
            ∙ (λ i. (r.0, r.1, fine.1 i))
            ∙ replay_tokens-deliver c fn t.0 s 0
            ∙ ap (λ (es : List Entry). deliver fn es s 0) (sym found),
      )

  -- Whatever the configuration, the callback and the segment, intact or corrupt: if a replay of a
  -- segment comes to its end, then readSegment, under the same outcomes of the operating system,
  -- reads the segment without an error, and the calls that the replay made are those of the
  -- entries that it reads, each once and in order.
  pub read_segment-replay_segment :
      (s : S)
      → (replay_segment c fn cfg f path d s).2 ≡ true
      → ((read_segment c f path d).1 ≡ true)
        × (replay_segment c fn cfg f path d s ≡ deliver fn (read_segment c f path d).0 s 0)
  unfolding replay_segment
  read_segment-replay_segment s h = elim (Bool-cases f.open_file) [
    | inr shut ↦ absurd (ground (arith, shut))
    | inl opened ↦ elim (Option-cases (find path d)) [
      | inl missing ↦ absurd (ground (arith, opened, missing))
      | inr (file, here) ↦ agreement s file opened here h
    ]
  ]
