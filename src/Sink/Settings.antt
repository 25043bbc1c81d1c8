-- ===== src/Sink/Settings.antt =====
-- How the sink factories of internal/sink/redis_sink.go read their settings. A warning that is
-- logged for a value of another type changes nothing.
use logateway.Prelude.{◌≡◌, Option, none, some, List, ◌≤◌, ◌^◌}
use logateway.Prelude.Int.{ℤ, pos_part, neg_part}
use logateway.Prelude.Bytes.{Bytes}
use logateway.Prelude.Maps.{lookup}
use logateway.Config.Value.{Value, float64, int, str}

-- a `map[string]interface{}`
abbrev pub Settings : Type 0
Settings = List (Bytes × Value)

-- time.Duration.String, time.ParseDuration, and the integer part of float64(n)
pub record Formats : Type 0 where
  pub duration_string : ℤ → Bytes
  pub parse_duration : Bytes → Option ℤ
  pub through_float64 : ℤ → ℤ

-- What the package `time` documents of the two, and that a float64 holds every integer up to 2^53.
pub record IsFormats (f : Formats) : Type 0 where
  pub parsed_back : (d : ℤ) → f.parse_duration (f.duration_string d) ≡ some d
  pub exact : (n : ℤ) → pos_part n ≤ 2 ^ 53 → neg_part n ≤ 2 ^ 53 → f.through_float64 n ≡ n

-- `if v, ok := cfg[key].(string); ok { x = v }`
unfoldable pub string_or : Settings → Bytes → Bytes → Bytes
unfolding lookup
string_or cfg key def = elim (lookup key cfg) [
  | none ↦ def
  | some v ↦ elim v [ str s ↦ s | _ ↦ def ]
]

-- intConfig and int64Config, which differ in the integer types of Go that they accept
unfoldable pub int_config : Settings → Bytes → ℤ → ℤ
unfolding lookup
int_config cfg key def = elim (lookup key cfg) [
  | none ↦ def
  | some v ↦ elim v [ float64 n ↦ n | int n ↦ n | _ ↦ def ]
]

-- durationConfig
unfoldable pub duration_config : Formats → Settings → Bytes → ℤ → ℤ
unfolding lookup
duration_config f cfg key def = elim (lookup key cfg) [
  | none ↦ def
  | some v ↦ elim v [ str s ↦ elim (f.parse_duration s) [ none ↦ def | some d ↦ d ] | _ ↦ def ]
]
