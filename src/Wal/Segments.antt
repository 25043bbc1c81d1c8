-- ===== src/Wal/Segments.antt =====
-- The scans of the WAL directory in internal/wal/wal.go: `nextSegmentNum`, the search of
-- `openLatest`, `SegmentCount`. Each skips what is a directory or not a segment by its name.
pub mod Fresh
use logateway.Prelude.{
  ℕ, zero, suc, ◌+◌, ◌-◌, ◌^◌, ◌≡◌, refl, Bool, true, false, not, ◌&&◌, ◌||◌, Option, none, some,
  List, [], ◌∷◌, ◌++◌, length, ltb, ◌==◌, if◌then◌else◌,
}
use logateway.Prelude.Int.{ℤ, pos, negsuc}
use logateway.Prelude.Bytes.{Bytes, codes}
use logateway.Wal.Name.{is_segment, segment_num}
use logateway.Wal.Disk.{File, Dir}

-- The number of a regular file with a segment's name.
unfoldable pub file_num : File → Option ℤ
file_num f = if f.is_dir then none else segment_num f.name

-- `n > maxNum`, where `maxNum` starts at 0 and only grows
unfoldable pub larger : ℕ → Option ℤ → ℕ
larger top none = top
larger top (some (negsuc n)) = top
larger top (some (pos n)) = if ltb top n then n else top

-- the loop of nextSegmentNum
unfoldable pub max_num : ℕ → Dir → ℕ
unfolding larger file_num
max_num top [] = top
max_num top (f ∷ d) = max_num (larger top (file_num f)) d

-- `maxNum + 1` in an int of 64 bits
unfoldable pub succ_int : ℕ → ℤ
succ_int n = if n + 1 == 2 ^ 63 then negsuc (2 ^ 63 - 1) else pos (n + 1)

-- nextSegmentNum; a directory that cannot be read gives 1
unfoldable pub next_segment_num : Bool → Dir → ℤ
unfolding max_num succ_int
next_segment_num readable d = if readable then succ_int (max_num 0 d) else pos 1

-- the loop of openLatest: the name with the largest positive number, the first of equal ones
unfoldable pub latest : ℕ → Option Bytes → Dir → Option Bytes
unfolding larger file_num
latest top name [] = name
latest top name (f ∷ d) =
    let top' = larger top (file_num f) in latest top' (if ltb top top' then some f.name else name) d

-- SegmentCount
unfoldable pub segment_count : Bool → Dir → ℕ
segment_count false d = 0
segment_count true [] = 0
segment_count true (f ∷ d) =
    let rest = segment_count true d in if not f.is_dir && is_segment f.name then suc rest else rest
