-- ===== src/Wal/Name/RoundTrip.antt =====
-- A segment's name gives its number back.
use native.Mathlib.Nat.{pow-suc}
use logateway.Prelude.{
  ℕ, zero, suc, ◌+◌, ◌-◌, ◌/◌, ◌%◌, ◌^◌, ◌≤◌, ◌<◌, ◌≡◌, refl, ap, ◌∙◌, true, [], ◌∷◌, ◌++◌, some,
  length, length-append, take, replicate, All, All-append, arith,
}
use logateway.Prelude.Int.{ℤ, pos}
use logateway.Prelude.Bytes.{Bytes}
use logateway.Wal.Name.{
  has_prefix, has_suffix, trim_prefix, trim_suffix, digits, pad, format_06d, prefix, suffix,
  segment_name, scan_digits, atoi, is_segment, segment_num,
}

abbrev IsDigit : ℕ → Type 0
IsDigit c = (b'0' ≤ c) × (c ≤ b'9')

digits-IsDigit : (fuel n : ℕ) (acc : Bytes) → All IsDigit acc → All IsDigit (digits fuel n acc)
unfolding digits
digits-IsDigit zero n acc h = h
digits-IsDigit (suc fuel) n acc h =
    ground (arith, digits-IsDigit fuel (n / 10) ((b'0' + n % 10) ∷ acc))

scan-digits :
    (fuel n : ℕ) (acc : Bytes)
    → n < 10 ^ fuel
    → scan_digits (digits fuel n acc) 0 ≡ scan_digits acc n
unfolding digits scan_digits
scan-digits zero n acc h = let e : n ≡ 0 = omega arith in rw e refl
scan-digits (suc fuel) n acc h =
    ground (arith, pow-suc 10 fuel, scan-digits fuel (n / 10) ((b'0' + n % 10) ∷ acc))

replicate-IsDigit : (k : ℕ) → All IsDigit (replicate k b'0')
replicate-IsDigit zero = tt
replicate-IsDigit (suc k) = (omega arith, replicate-IsDigit k)

scan-zeros : (k : ℕ) (s : Bytes) → scan_digits (replicate k b'0' ++ s) 0 ≡ scan_digits s 0
unfolding scan_digits
scan-zeros zero s = refl
scan-zeros (suc k) s = ground (arith, scan-zeros k s)

pad-IsDigit : (w : ℕ) (s : Bytes) → All IsDigit s → All IsDigit (pad w s)
unfolding pad
pad-IsDigit w s h = All-append IsDigit (replicate (w - length s) b'0') s (replicate-IsDigit _) h

length-replicate : (k : ℕ) (c : ℕ) → length (replicate k c) ≡ k
length-replicate zero c = refl
length-replicate (suc k) c = ap suc (length-replicate k c)

le-length-pad : (w : ℕ) (s : Bytes) → w ≤ length (pad w s)
unfolding pad
le-length-pad w s =
    omega
      (arith, length-append (replicate (w - length s) b'0') s, length-replicate (w - length s) b'0')

atoi_of_digits :
    (s : Bytes) (n : ℕ)
    → 0 < length s
    → All IsDigit s
    → scan_digits s 0 ≡ some n
    → n < 2 ^ 63
    → atoi s ≡ some (pos n)
unfolding atoi
atoi_of_digits [] n h d e lt = absurd (omega arith)
atoi_of_digits (c ∷ s) n h d e lt = ground arith

atoi-format : (n : ℕ) → n < 2 ^ 63 → atoi (format_06d (pos n)) ≡ some (pos n)
unfolding format_06d pad scan_digits
atoi-format n h =
    let s = digits 20 n [] in
    atoi_of_digits (pad 6 s) n (omega (arith, le-length-pad 6 s))
      (pad-IsDigit 6 s (digits-IsDigit 20 n [] tt))
      (scan-zeros (6 - length s) s ∙ scan-digits 20 n [] (omega arith)) h

has_suffix-append : (s : Bytes) → has_suffix (s ++ suffix) suffix ≡ true
unfolding has_suffix
has_suffix-append [] = refl
has_suffix-append (c ∷ s) = ground (arith, has_suffix-append s)

take-length : (s t : Bytes) → take (length s) (s ++ t) ≡ s
take-length [] t = refl
take-length (c ∷ s) t = ap (◌∷◌ c) (take-length s t)

trim_suffix-append : (s : Bytes) → trim_suffix (s ++ suffix) suffix ≡ s
unfolding trim_suffix
trim_suffix-append s = rw (has_suffix-append s) (
    let e : length (s ++ suffix) - length suffix ≡ length s =
      omega (arith, length-append s suffix) in
    rw e (take-length s suffix))

-- A segment's name passes the test that every scan makes.
pub is_segment-segment_name : (n : ℤ) → is_segment (segment_name n) ≡ true
unfolding is_segment segment_name has_prefix
is_segment-segment_name n = has_suffix-append (prefix ++ format_06d n)

-- The number in the name that `rotate` prints for `n` is `n`, for every `n` that is not negative
-- and that an int holds.
pub segment_num-segment_name :
    (n : ℕ) → n < 2 ^ 63 → segment_num (segment_name (pos n)) ≡ some (pos n)
unfolding segment_num segment_name trim_prefix
segment_num-segment_name n h = ground (
  arith,
  is_segment-segment_name (pos n),
  trim_suffix-append (format_06d (pos n)),
  atoi-format n h,
)
