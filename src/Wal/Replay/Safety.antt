-- ===== src/Wal/Replay/Safety.antt =====
-- Which files a replay may remove.
use logateway.Prelude.{
  ℕ, ◌≡◌, ◌≢◌, ◌⊎◌, inl, inr, refl, ap, sym, ◌∙◌, Bool, true, false, ◌&&◌, Option, none, some, List,
  [], ◌∷◌, arith, All, All-append, Bool-cases, Option-cases,
}
use logateway.Prelude.Int.{ℤ, ltb_ℤ, ◌≤ℤ◌}
use logateway.Prelude.Bytes.{Bytes, beq, beq_iff, beq→≡}
use logateway.Wal.Disk.{File, Dir, find, remove}
use logateway.Wal.Entry.{Config, Entry, Codec}
use logateway.Wal.Segments.{file_num}
use logateway.Wal.Scan.{raw_lines, tokens, scan_file, max_replay_line_bytes}
use logateway.Wal.Scan.Lines.{entries}
use logateway.Wal.Replay.{
  Outcome, SegmentFaults, SegFile, to_lower, sealed_file, collect, insert_seg, sort_segs,
  remove_segment_file, replay_tokens, replay_segment, replay_all, replay_sealed_segments,
}
use logateway.Wal.Replay.Delivery.{deliver, replay_tokens-deliver, replay_segment-scan}

find-remove : (n p : Bytes) (d : Dir) → p ≢ n → find n (remove p d) ≡ find n d
unfolding find remove
find-remove n p [] h = refl
find-remove n p (f ∷ d) h = ground (arith, beq_iff f.name p, beq_iff f.name n, find-remove n p d h)

find-remove_segment_file :
    (f : SegmentFaults) (n p : Bytes) (d : Dir)
    → p ≢ n
    → find n (remove_segment_file f p d) ≡ find n d
unfolding remove_segment_file
find-remove_segment_file f n p d h = ground (arith, find-remove n p d h)

-- sorting keeps what holds of every segment, and puts the numbers in order
All-insert_seg :
    (P : SegFile → Type 0) (s : SegFile) (ts : List SegFile)
    → P s
    → All P ts
    → All P (insert_seg s ts)
unfolding insert_seg
All-insert_seg P s [] ps pts = (ps, tt)
All-insert_seg P s (t ∷ ts) ps (pt, pts) = elim (Bool-cases (ltb_ℤ t.num s.num)) [
  | inl less ↦ rw (less, insert_seg) (pt, All-insert_seg P s ts ps pts)
  | inr more ↦ rw (more, insert_seg) (ps, (pt, pts))
]

All-sort_segs : (P : SegFile → Type 0) (ss : List SegFile) → All P ss → All P (sort_segs ss)
unfolding sort_segs
All-sort_segs P [] h = tt
All-sort_segs P (s ∷ ss) h = All-insert_seg P s (sort_segs ss) h.0 (All-sort_segs P ss h.1)

-- no segment that the scan selects has the name of the active one
abbrev Avoids : Bytes → SegFile → Type 0
Avoids active s = to_lower s.path ≢ active

sealed_file-Avoids : (active : Bytes) (f : File) → All (Avoids active) (sealed_file active f)
unfolding sealed_file
sealed_file-Avoids active f = elim (Bool-cases (beq (to_lower f.name) active)) [
  | inl same ↦ rw (same, sealed_file) tt
  | inr other ↦ elim (Option-cases (file_num f)) [
    | inl bad ↦ rw (other, sealed_file) (rw (bad, sealed_file) tt)
    | inr (n, good) ↦
        rw (other, sealed_file)
          (rw (good, sealed_file) (ground (arith, beq_iff (to_lower f.name) active), tt))
  ]
]

collect-Avoids : (active : Bytes) (d : Dir) → All (Avoids active) (collect active d)
unfolding collect
collect-Avoids active [] = tt
collect-Avoids active (f ∷ d) =
    All-append (Avoids active) (sealed_file active f) (collect active d)
      (sealed_file-Avoids active f) (collect-Avoids active d)

-- the numbers do not fall along the list
abbrev pub IsSorted : List SegFile → Type 0
IsSorted [] = Unit
IsSorted (s ∷ ss) = All (λ t. s.num ≤ℤ t.num) ss × IsSorted ss

All-le :
    (a b : ℤ) (ts : List SegFile) → a ≤ℤ b → All (λ t. b ≤ℤ t.num) ts → All (λ t. a ≤ℤ t.num) ts
All-le a b [] h hs = tt
All-le a b (t ∷ ts) h hs = (omega arith, All-le a b ts h hs.1)

insert_seg-IsSorted : (s : SegFile) (ts : List SegFile) → IsSorted ts → IsSorted (insert_seg s ts)
unfolding insert_seg
insert_seg-IsSorted s [] h = (tt, tt)
insert_seg-IsSorted s (t ∷ ts) h = elim (Bool-cases (ltb_ℤ t.num s.num)) [
  | inl less ↦
      rw (less, insert_seg)
        (All-insert_seg (λ x. t.num ≤ℤ x.num) s ts (ground arith) h.0, insert_seg-IsSorted s ts h.1)
  | inr more ↦
      let le : s.num ≤ℤ t.num = ground arith in
      rw (more, insert_seg) ((le, All-le s.num t.num ts le h.0), h)
]

-- The list of segments that a replay goes through is in the order of their numbers.
sort_segs-IsSorted : (ss : List SegFile) → IsSorted (sort_segs ss)
unfolding sort_segs
sort_segs-IsSorted [] = tt
sort_segs-IsSorted (s ∷ ss) = insert_seg-IsSorted s (sort_segs ss) (sort_segs-IsSorted ss)

not-active :
    (active : Bytes) (segs : List SegFile)
    → All (Avoids (to_lower active)) segs
    → All (λ seg. seg.path ≢ active) segs
not-active active [] h = tt
not-active active (s ∷ segs) h = (λ e. h.0 (ap to_lower e), not-active active segs h.1)

and-true : (a b : Bool) → (a && b) ≡ true → (a ≡ true) × (b ≡ true)
and-true a b h = ground arith

scan_file-whole :
    (o : Option ℕ) (limit : ℕ) (text : Bytes)
    → (scan_file o limit text).1 ≡ true
    → (scan_file o limit text ≡ tokens limit (raw_lines text))
unfolding scan_file
scan_file-whole none limit text h = refl
scan_file-whole (some k) limit text h = cc

module _ {ℓ} {S : Type ℓ} (c : Codec) (fn : Entry → S → S × Outcome) (cfg : Config)
    (faults : Bytes → SegmentFaults) where
  replay_all-find :
      (n : Bytes) (segs : List SegFile) (d : Dir) (s : S)
      → All (λ seg. seg.path ≢ n) segs
      → find n (replay_all c fn cfg faults segs d s).1 ≡ find n d
  unfolding replay_all
  replay_all-find n [] d s h = refl
  replay_all-find n (seg ∷ segs) d s h =
      let r = replay_segment c fn cfg (faults seg.path) seg.path d s in
      elim (Bool-cases r.2) [
        | inl done ↦
            rw (done, replay_all)
              (replay_all-find n segs (remove_segment_file (faults seg.path) seg.path d) r.0 h.1
                ∙ find-remove_segment_file (faults seg.path) n seg.path d h.0)
        | inr failed ↦ rw (failed, replay_all) refl
      ]

  -- A replay that knows the name of the active segment leaves that file as it is.
  pub replay_sealed_segments-active :
      (active : Bytes) (readable : Bool) (d : Dir) (s : S)
      → find active (replay_sealed_segments c fn cfg faults active readable d s).1 ≡ find active d
  unfolding replay_sealed_segments
  replay_sealed_segments-active active false d s = refl
  replay_sealed_segments-active active true d s =
      replay_all-find active (sort_segs (collect (to_lower active) d)) d s (
        All-sort_segs (λ seg. seg.path ≢ active) (collect (to_lower active) d)
          (not-active active _ (collect-Avoids (to_lower active) d)))

  -- The scan of the file comes to its end, and the callback, from some state on, accepts each of
  -- its entries, one after the other.
  abbrev pub IsDelivered : File → Type ℓ
  IsDelivered file =
      let t = tokens (max_replay_line_bytes cfg.max_segment_bytes) (raw_lines file.content) in
      (s : S) × (t.1 ≡ true) × ((deliver fn (entries c t.0) s 0).2 ≡ true)

  opened_of_done :
      (f : SegmentFaults) (path : Bytes) (d : Dir) (s : S)
      → (replay_segment c fn cfg f path d s).2 ≡ true
      → f.open_file ≡ true
  unfolding replay_segment
  opened_of_done f path d s h = elim (Bool-cases f.open_file) [
    | inl opened ↦ opened
    | inr shut ↦ cc (rw (shut, replay_segment) at h)
  ]

  replay_segment-IsDelivered :
      (f : SegmentFaults) (path : Bytes) (d : Dir) (file : File) (s : S)
      → find path d ≡ some file
      → (replay_segment c fn cfg f path d s).2 ≡ true
      → IsDelivered file
  replay_segment-IsDelivered f path d file s here done =
      let opened = opened_of_done f path d s done in
      let limit = max_replay_line_bytes cfg.max_segment_bytes in
      let t = tokens limit (raw_lines file.content) in
      let parts =
        and-true _ _ (rw (replay_segment-scan c fn cfg path d file here f s opened) at done) in
      let scan = scan_file-whole f.read limit file.content parts.1 in
      (
        s,
        ap (λ (x : List Bytes × Bool). x.1) (sym scan) ∙ parts.1,
        ap (λ (x : S × ℕ × Bool). x.2) (sym (replay_tokens-deliver c fn t.0 s 0))
            ∙ ap (λ (x : List Bytes × Bool). (replay_tokens c fn x.0 s 0).2) (sym scan)
            ∙ parts.0,
      )

  replay_all-IsDelivered :
      (n : Bytes) (segs : List SegFile) (d : Dir) (s : S) (file : File)
      → find n d ≡ some file
      → (find n (replay_all c fn cfg faults segs d s).1 ≡ some file) ⊎ IsDelivered file
  unfolding replay_all
  replay_all-IsDelivered n [] d s file here = inl here
  replay_all-IsDelivered n (seg ∷ segs) d s file here =
      let r = replay_segment c fn cfg (faults seg.path) seg.path d s in
      elim (Bool-cases r.2) [
        | inr failed ↦ inl (rw (failed, replay_all) here)
        | inl done ↦ elim (Bool-cases (beq seg.path n)) [
          | inl same ↦ inr (
              replay_segment-IsDelivered (faults seg.path) seg.path d file s
                (rw (beq→≡ seg.path n same) here) done)
          | inr other ↦
              rw (done, replay_all)
                (replay_all-IsDelivered n segs (remove_segment_file (faults seg.path) seg.path d)
                  r.0 file
                  (find-remove_segment_file (faults seg.path) n seg.path d
                      (λ e. cc (other, (beq_iff seg.path n).1 e))
                    ∙ here))
        ]
      ]

  -- Whatever fails, each file of the directory is either kept as it was, or its scan came to the
  -- end and the callback accepted each of its entries, one after the other, from some state on.
  pub replay_sealed_segments-IsDelivered :
      (active n : Bytes) (readable : Bool) (d : Dir) (s : S) (file : File)
      → find n d ≡ some file
      → (find n (replay_sealed_segments c fn cfg faults active readable d s).1 ≡ some file)
        ⊎ IsDelivered file
  unfolding replay_sealed_segments
  replay_sealed_segments-IsDelivered active n false d s file here = inl here
  replay_sealed_segments-IsDelivered active n true d s file here =
      replay_all-IsDelivered n (sort_segs (collect (to_lower active) d)) d s file here
