-- ===== src/Wal/Scan.antt =====
-- The lines of a segment as bufio.Scanner yields them to replaySegment and readSegment of
-- internal/wal/wal.go.
pub mod Lines
use Prim.Native.Nat.{max}
use logateway.Prelude.{
  ℕ, zero, suc, ◌+◌, ◌≡◌, refl, Bool, true, false, not, ◌&&◌, ◌||◌, Option, none, some, List, [],
  ◌∷◌, ◌++◌, length, take, ltb, ◌==◌, if◌then◌else◌,
}
use logateway.Prelude.Int.{ℤ, pos, negsuc, ltb_ℤ}
use logateway.Prelude.Bytes.{Bytes, codes}
use logateway.Wal.Entry.{Entry, Codec, newline, carriage_return}

-- one byte before the first line
unfoldable pub prepend : ℕ → List Bytes → List Bytes
prepend c [] = (c ∷ []) ∷ []
prepend c (l ∷ ls) = (c ∷ l) ∷ ls

-- The text cut at each newline; a last line without one counts if it is not empty.
unfoldable pub raw_lines : Bytes → List Bytes
unfolding prepend
raw_lines [] = []
raw_lines (c ∷ s) = let rest = raw_lines s in if c == newline then [] ∷ rest else prepend c rest

-- dropCR of bufio.ScanLines
unfoldable pub drop_cr : Bytes → Bytes
drop_cr [] = []
drop_cr (c ∷ []) = if c == carriage_return then [] else c ∷ []
drop_cr (c ∷ c' ∷ s) = c ∷ drop_cr (c' ∷ s)

-- const hardReplayLineCap
abbrev pub hard_replay_line_cap : ℕ
hard_replay_line_cap = 67108864

-- maxReplayLineBytes
unfoldable pub max_replay_line_bytes : ℤ → ℕ
max_replay_line_bytes (negsuc n) = hard_replay_line_cap
max_replay_line_bytes (pos n) =
    if ltb 0 n && ltb n hard_replay_line_cap then n else hard_replay_line_cap

-- the size of the buffer that the Scanner is given, and keeps where the limit is smaller
abbrev pub scan_buffer : ℕ
scan_buffer = 65536

-- The tokens up to the first line that does not fit the buffer together with its newline, and
-- whether the scan ends without ErrTooLong.
unfoldable pub tokens : ℕ → List Bytes → List Bytes × Bool
unfolding drop_cr
tokens limit [] = ([], true)
tokens limit (l ∷ ls) =
    let (rest, fine) = tokens limit ls in
    if ltb (length l) (max limit scan_buffer) then (drop_cr l ∷ rest, fine) else ([], false)

-- Scanning a file whose reads fail after `k` bytes at `some k`; the error comes after the tokens.
unfoldable pub scan_file : Option ℕ → ℕ → Bytes → List Bytes × Bool
unfolding tokens raw_lines
scan_file none limit text = tokens limit (raw_lines text)
scan_file (some k) limit text = ((tokens limit (raw_lines (take k text))).0, false)

is_blank : Bytes → Bool
is_blank [] = true
is_blank (c ∷ s) = false

-- What one line stands for: nothing if it is empty or corrupt.
unfoldable pub parse_line : Codec → Bytes → Option Entry
unfolding is_blank
parse_line c l = if is_blank l then none else c.unmarshal l

lines_of_text :
    raw_lines (codes "ab" ++ newline ∷ newline ∷ codes "c") ≡ codes "ab" ∷ [] ∷ codes "c" ∷ []
unfolding raw_lines
lines_of_text = refl

too_long : tokens 10 (codes "ab" ∷ []) ≡ (codes "ab" ∷ [], true)
unfolding tokens
too_long = refl
