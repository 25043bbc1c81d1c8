-- ===== src/Wal/Segments/Fresh.antt =====
-- nextSegmentNum finds a number that no segment of the directory has.
use logateway.Prelude.{
  ℕ, ◌+◌, ◌^◌, ◌≤◌, ◌<◌, ◌≡◌, inl, inr, ap, ◌∙◌, true, false, Option, some, [], ◌∷◌, arith,
  Bool-cases,
}
use logateway.Prelude.Int.{ℤ, pos}
use logateway.Prelude.Bytes.{Bytes, beq, beq→≡}
use logateway.Wal.Name.{segment_name, segment_num}
use logateway.Wal.Name.RoundTrip.{segment_num-segment_name}
use logateway.Wal.Disk.{File, Dir, find}
use logateway.Wal.Segments.{file_num, larger, max_num, succ_int, next_segment_num}

larger_bounds : (top : ℕ) (o : Option ℤ) → top ≤ larger top o
unfolding larger
larger_bounds top o = ground arith

le-larger : (top n : ℕ) → n ≤ larger top (some (pos n))
unfolding larger
le-larger top n = ground arith

le-max_num : (top : ℕ) (d : Dir) → top ≤ max_num top d
unfolding max_num
le-max_num top [] = omega arith
le-max_num top (f ∷ d) =
    omega (arith, larger_bounds top (file_num f), le-max_num (larger top (file_num f)) d)

le-max_num-cons :
    (top n : ℕ) (g : File) (d : Dir) → file_num g ≡ some (pos n) → n ≤ max_num top (g ∷ d)
unfolding max_num
le-max_num-cons top n g d e =
    rw e (omega (arith, le-larger top n, le-max_num (larger top (some (pos n))) d))

-- What `find` returns is a file of that name.
pub name-find : (name : Bytes) (d : Dir) (f : File) → find name d ≡ some f → f.name ≡ name
unfolding find
name-find name [] f h = cc
name-find name (g ∷ d) f h = ground (arith, beq→≡ g.name name, name-find name d f)

find-le-max_num :
    (name : Bytes) (top : ℕ) (d : Dir) (f : File) (n : ℕ)
    → find name d ≡ some f
    → file_num f ≡ some (pos n)
    → n ≤ max_num top d
unfolding find max_num
find-le-max_num name top [] f n h e = cc
find-le-max_num name top (g ∷ d) f n h e = elim (Bool-cases (beq g.name name)) [
  | inl same ↦ let here : g ≡ f = ground arith in le-max_num-cons top n g d (rw here e)
  | inr other ↦ find-le-max_num name (larger top (file_num g)) d f n (ground arith) e
]

next-eq-pos : (d : Dir) → max_num 0 d + 1 < 2 ^ 63 → next_segment_num true d ≡ pos (max_num 0 d + 1)
unfolding next_segment_num succ_int
next-eq-pos d small = ground arith

num-plain : (f : File) → f.is_dir ≡ false → file_num f ≡ segment_num f.name
unfolding file_num
num-plain f plain = ground arith

-- Where os.ReadDir succeeds, and the largest number of a segment is below the largest int, the name
-- that rotate makes from nextSegmentNum belongs to no file of the directory, unless that is a
-- subdirectory: the new segment does not continue an old one.
pub next_segment_num_fresh :
    (d : Dir) (f : File)
    → max_num 0 d + 1 < 2 ^ 63
    → find (segment_name (next_segment_num true d)) d ≡ some f
    → f.is_dir ≡ true
next_segment_num_fresh d f small h = elim (Bool-cases f.is_dir) [
  | inl yes_dir ↦ yes_dir
  | inr plain ↦
      let m = max_num 0 d in
      let name = segment_name (next_segment_num true d) in
      let num : file_num f ≡ some (pos (m + 1)) =
        num-plain f plain
        ∙ ap segment_num (name-find name d f h ∙ ap segment_name (next-eq-pos d small))
        ∙ segment_num-segment_name (m + 1) small in
      absurd (omega (arith, find-le-max_num name 0 d f (m + 1) h num))
]
