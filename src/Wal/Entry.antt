-- ===== src/Wal/Entry.antt =====
-- `Entry` and `Config` of internal/wal/wal.go, and what the package uses of encoding/json.
use logateway.Prelude.{ℕ, ◌<◌, ◌≡◌, ◌≢◌, Option, some, length, All}
use logateway.Prelude.Int.{ℤ, pos}
use logateway.Prelude.Bytes.{Bytes, codes}

-- Config; the interval in nanoseconds
pub record Config : Type 0 where
  pub dir : Bytes
  pub max_segment_bytes : ℤ
  pub max_segments : ℤ
  pub sync_interval : ℤ

-- DefaultConfig()
unfoldable pub default_config : Config
default_config = record {
  dir = codes "data/wal";
  max_segment_bytes = pos 67108864;
  max_segments = pos 10;
  sync_interval = pos 100000000;
}

-- Entry; `data` is the raw JSON of a message, the timestamp is in nanoseconds
pub record Entry : Type 0 where
  pub sequence : ℕ
  pub project : Bytes
  pub router : Bytes
  pub data_bytes : Bytes
  pub request_id : Bytes
  pub trace_id : Bytes
  pub timestamp : ℕ
  pub env : Bytes

-- json.Marshal and json.Unmarshal at the type Entry. `wire e` is what is left of `e` on the
-- wire: RawMessage is compacted, and a timestamp loses its monotonic clock reading.
pub record Codec : Type 0 where
  pub marshal : Entry → Option Bytes
  pub unmarshal : Bytes → Option Entry
  pub wire : Entry → Entry

abbrev pub newline : ℕ
newline = 10

abbrev pub carriage_return : ℕ
carriage_return = 13

-- The documented behaviour of encoding/json: a marshalled object has no raw newline and no raw
-- carriage return (control characters are escaped, RawMessage is compacted), is not empty, and
-- is read back.
pub record IsCodec (c : Codec) : Type 0 where
  pub one_line : (e : Entry) (line : Bytes) → c.marshal e ≡ some line → All (λ b. b ≢ newline) line
  pub no_return :
      (e : Entry) (line : Bytes) → c.marshal e ≡ some line → All (λ b. b ≢ carriage_return) line
  pub not_empty : (e : Entry) (line : Bytes) → c.marshal e ≡ some line → 0 < length line
  pub read_back :
      (e : Entry) (line : Bytes) → c.marshal e ≡ some line → c.unmarshal line ≡ some (c.wire e)
