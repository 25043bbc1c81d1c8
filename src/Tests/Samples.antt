-- ===== src/Tests/Samples.antt =====
-- A codec and names that the runs on the WAL share.
use logateway.Prelude.{
  ℕ, zero, suc, ◌≡◌, ◌≢◌, refl, sym, arith, some, [], ◌∷◌, length, All, replicate,
}
use logateway.Prelude.Bytes.{Bytes, codes}
use logateway.Wal.Entry.{Entry, Codec, IsCodec, newline, carriage_return}

abbrev pub at : ℕ → Entry
at t = record {
  sequence = 0;
  project = codes "p";
  router = [];
  data_bytes = [];
  request_id = [];
  trace_id = [];
  timestamp = t;
  env = [];
}

-- a codec that writes the timestamp in unary
abbrev pub unary : Codec
unary = record {
  marshal = λ e. some (b'{' ∷ replicate e.timestamp b'1');
  unmarshal = λ l. some (at (length l));
  wire = λ e. at (suc e.timestamp);
}

pub All-replicate : (P : ℕ → Type 0) (n x : ℕ) → P x → All P (replicate n x)
All-replicate P zero x h = tt
All-replicate P (suc n) x h = (h, All-replicate P n x h)

pub length-replicate : (n x : ℕ) → length (replicate n x) ≡ n
length-replicate zero x = refl
length-replicate (suc n) x = omega (arith, length-replicate n x)

other_than :
    (k : ℕ) (e : Entry) (line : Bytes)
    → b'{' ≢ k
    → b'1' ≢ k
    → unary.marshal e ≡ some line
    → All (λ b. b ≢ k) line
other_than k e line h₁ h₂ m =
    let same : (b'{' ∷ replicate e.timestamp b'1') ≡ line = cc m in
    rw (sym same) ((h₁, All-replicate (λ b. b ≢ k) e.timestamp b'1' h₂))

pub unary-IsCodec : IsCodec unary
unary-IsCodec = record {
  one_line = λ e line m. other_than newline e line (λ h. omega arith) (λ h. omega arith) m;
  no_return = λ e line m. other_than carriage_return e line (λ h. omega arith) (λ h. omega arith) m;
  not_empty = λ e line m. ground arith;
  read_back = λ e line m. ground (arith, length-replicate e.timestamp b'1');
}

abbrev pub name_1 : Bytes
name_1 = codes "wal-000001.log"
