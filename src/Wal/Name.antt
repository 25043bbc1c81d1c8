-- ===== src/Wal/Name.antt =====
-- Segment file names of internal/wal/wal.go: `fmt.Sprintf("wal-%06d.log", n)` and the prefix,
-- suffix and `strconv.Atoi` tests by which every scan of the directory reads them back.
-- An `int` is 64 bits wide.
pub mod RoundTrip
use logateway.Prelude.{
  ℕ, zero, suc, ◌+◌, ◌-◌, ◌*◌, ◌/◌, ◌%◌, ◌^◌, ◌≡◌, refl, Bool, true, false, not, ◌&&◌, ◌||◌, Option,
  none, some, [], ◌∷◌, ◌++◌, length, take, drop, replicate, ltb, leb, ◌==◌, if◌then◌else◌, ◌>>=◌,
}
use logateway.Prelude.Int.{ℤ, pos, negsuc}
use logateway.Prelude.Bytes.{Bytes, codes, beq}

-- strings.HasPrefix
unfoldable pub has_prefix : Bytes → Bytes → Bool
has_prefix s [] = true
has_prefix [] (p ∷ ps) = false
has_prefix (c ∷ s) (p ∷ ps) = (c == p) && has_prefix s ps

-- strings.HasSuffix
unfoldable pub has_suffix : Bytes → Bytes → Bool
unfolding beq
has_suffix [] suffix = beq [] suffix
has_suffix (c ∷ s) suffix = beq (c ∷ s) suffix || has_suffix s suffix

-- strings.TrimPrefix
unfoldable pub trim_prefix : Bytes → Bytes → Bytes
unfolding has_prefix
trim_prefix s prefix = if has_prefix s prefix then drop (length prefix) s else s

-- strings.TrimSuffix
unfoldable pub trim_suffix : Bytes → Bytes → Bytes
unfolding has_suffix
trim_suffix s suffix = if has_suffix s suffix then take (length s - length suffix) s else s

-- the decimal digits of `n` before `acc`; a 64-bit number has at most 20
unfoldable pub digits : ℕ → ℕ → Bytes → Bytes
digits zero n acc = acc
digits (suc fuel) n acc =
    let rest = digits fuel (n / 10) ((b'0' + n % 10) ∷ acc) in if n == 0 then acc else rest

-- zeros up to the width `w`
unfoldable pub pad : ℕ → Bytes → Bytes
pad w s = replicate (w - length s) b'0' ++ s

-- the verb `%06d`: the sign counts toward the width
unfoldable pub format_06d : ℤ → Bytes
unfolding digits pad
format_06d (pos n) = pad 6 (digits 20 n [])
format_06d (negsuc n) = b'-' ∷ pad 5 (digits 20 (n + 1) [])

abbrev pub prefix : Bytes
prefix = codes "wal-"

abbrev pub suffix : Bytes
suffix = codes ".log"

-- fmt.Sprintf("wal-%06d.log", segNum)
unfoldable pub segment_name : ℤ → Bytes
unfolding format_06d
segment_name n = prefix ++ (format_06d n ++ suffix)

unfoldable pub scan_digits : Bytes → ℕ → Option ℕ
scan_digits [] n = some n
scan_digits (c ∷ s) n =
    if leb b'0' c && leb c b'9' then scan_digits s (n * 10 + (c - b'0')) else none

unfoldable pub unsigned : Bytes → Option ℕ
unfolding scan_digits
unsigned [] = none
unsigned (c ∷ s) = scan_digits (c ∷ s) 0

-- the range checks of a 64-bit integer
unfoldable pub in_range_pos : ℕ → Option ℤ
in_range_pos n = if ltb n (2 ^ 63) then some (pos n) else none

unfoldable pub in_range_neg : ℕ → Option ℤ
in_range_neg zero = some (pos 0)
in_range_neg (suc n) = if ltb n (2 ^ 63) then some (negsuc n) else none

-- strconv.Atoi, and strconv.ParseInt at base 10 and 64 bits: an optional sign and decimal digits
unfoldable pub atoi : Bytes → Option ℤ
unfolding unsigned in_range_pos in_range_neg
atoi [] = none
atoi (c ∷ s) =
    if c == b'-'
    then (do n ← unsigned s; in_range_neg n)
    else if c == b'+'
    then (do n ← unsigned s; in_range_pos n)
    else do n ← unsigned (c ∷ s); in_range_pos n

-- The test that the scans share: prefix "wal-" and suffix ".log".
unfoldable pub is_segment : Bytes → Bool
unfolding has_prefix has_suffix
is_segment name = has_prefix name prefix && has_suffix name suffix

-- The number in a segment's name, if the name passes the test and the number parses.
unfoldable pub segment_num : Bytes → Option ℤ
unfolding is_segment trim_prefix trim_suffix atoi
segment_num name =
    if is_segment name then atoi (trim_suffix (trim_prefix name prefix) suffix) else none

name_7 : segment_name (pos 7) ≡ codes "wal-000007.log"
unfolding segment_name
name_7 = refl

name_big : segment_name (pos 1234567) ≡ codes "wal-1234567.log"
unfolding segment_name
name_big = refl

name_negative : segment_name (negsuc 4) ≡ codes "wal--00005.log"
unfolding segment_name
name_negative = refl

num_7 : segment_num (codes "wal-000007.log") ≡ some (pos 7)
unfolding segment_num
num_7 = refl

num_minus : segment_num (codes "wal--7.log") ≡ some (negsuc 6)
unfolding segment_num
num_minus = refl

num_bad : segment_num (codes "wal-x.log") ≡ none
unfolding segment_num
num_bad = refl

num_overflow : segment_num (codes "wal-9223372036854775808.log") ≡ none
unfolding segment_num
num_overflow = refl
