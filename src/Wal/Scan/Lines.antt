-- ===== src/Wal/Scan/Lines.antt =====
-- The scanner gives back the lines that Write appended.
use Prim.Native.Nat.{max}
use logateway.Prelude.{
  ℕ, ◌≤◌, ◌<◌, ◌≡◌, ◌≢◌, refl, ap, true, false, none, some, List, [], ◌∷◌, ◌++◌, length, arith, All,
  map,
}
use logateway.Prelude.Bytes.{Bytes}
use logateway.Wal.Entry.{Entry, Codec, IsCodec, newline, carriage_return}
use logateway.Wal.Scan.{raw_lines, drop_cr, scan_buffer, tokens, parse_line}

-- what a file holds after Write has appended these lines
abbrev pub join_lines : List Bytes → Bytes
join_lines [] = []
join_lines (l ∷ ls) = l ++ newline ∷ join_lines ls

abbrev pub IsOneLine : Bytes → Type 0
IsOneLine l = All (λ b. b ≢ newline) l × All (λ b. b ≢ carriage_return) l

pub raw_lines-append :
    (l s : Bytes) → All (λ b. b ≢ newline) l → raw_lines (l ++ newline ∷ s) ≡ l ∷ raw_lines s
unfolding raw_lines
raw_lines-append [] s h = refl
raw_lines-append (c ∷ l) s h = ground (arith, raw_lines-append l s)

drop_cr_id : (l : Bytes) → All (λ b. b ≢ carriage_return) l → drop_cr l ≡ l
unfolding drop_cr
drop_cr_id [] h = refl
drop_cr_id (c ∷ []) h = ground arith
drop_cr_id (c ∷ c' ∷ l) h = ap (◌∷◌ c) (drop_cr_id (c' ∷ l) h.1)

-- A line, with its newline, fits the scanner's buffer.
abbrev pub Fits : ℕ → Bytes → Type 0
Fits limit l = length l < max limit scan_buffer

-- Lines that fit come back as they were appended.
pub tokens-join_lines :
    (limit : ℕ) (ls : List Bytes)
    → All IsOneLine ls
    → All (Fits limit) ls
    → tokens limit (raw_lines (join_lines ls)) ≡ (ls, true)
unfolding tokens raw_lines
tokens-join_lines limit [] one fits = refl
tokens-join_lines limit (l ∷ ls) one fits =
    rw (raw_lines-append l (join_lines ls) one.0.0)
      (ground (arith, drop_cr_id l one.0.1, tokens-join_lines limit ls one.1 fits.1))

-- A line that does not fit ends the scan with an error, whatever stands before and behind it.
pub tokens-too-long :
    (limit : ℕ) (before : List Bytes) (l : Bytes) (after : List Bytes)
    → max limit scan_buffer ≤ length l
    → (tokens limit (before ++ l ∷ after)).1 ≡ false
unfolding tokens
tokens-too-long limit [] l after long = ground arith
tokens-too-long limit (b ∷ before) l after long =
    ground (arith, tokens-too-long limit before l after long)

-- The entries that the lines of a segment stand for: empty and corrupt lines give none.
unfoldable pub entries : Codec → List Bytes → List Entry
entries c [] = []
entries c (l ∷ ls) = elim (parse_line c l) [ none ↦ entries c ls | some e ↦ e ∷ entries c ls ]

-- the lines that Write makes of these entries
abbrev pub Marshalled : Codec → List Entry → List Bytes → Type 0
Marshalled c [] [] = Unit
Marshalled c (e ∷ es) (l ∷ ls) = (c.marshal e ≡ some l) × Marshalled c es ls
Marshalled c _ _ = ⊥

module _ (c : Codec) (laws : IsCodec c) where
  parse_line-marshal :
      (e : Entry) (l : Bytes) → c.marshal e ≡ some l → parse_line c l ≡ some (c.wire e)
  unfolding parse_line
  parse_line-marshal e [] m = absurd (omega (arith, laws.not_empty e [] m))
  parse_line-marshal e (b ∷ l) m = laws.read_back e (b ∷ l) m

  pub entries-Marshalled :
      (es : List Entry) (ls : List Bytes) → Marshalled c es ls → entries c ls ≡ map c.wire es
  unfolding entries
  entries-Marshalled [] [] m = refl
  entries-Marshalled [] (l ∷ ls) m = elim m [ ]
  entries-Marshalled (e ∷ es) [] m = elim m [ ]
  entries-Marshalled (e ∷ es) (l ∷ ls) m =
      rw (parse_line-marshal e l m.0, entries) (ap (◌∷◌ (c.wire e)) (entries-Marshalled es ls m.1))

  pub IsOneLine-Marshalled :
      (es : List Entry) (ls : List Bytes) → Marshalled c es ls → All IsOneLine ls
  IsOneLine-Marshalled [] [] m = tt
  IsOneLine-Marshalled [] (l ∷ ls) m = elim m [ ]
  IsOneLine-Marshalled (e ∷ es) [] m = elim m [ ]
  IsOneLine-Marshalled (e ∷ es) (l ∷ ls) m =
      ((laws.one_line e l m.0, laws.no_return e l m.0), IsOneLine-Marshalled es ls m.1)
