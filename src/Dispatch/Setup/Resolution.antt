-- ===== src/Dispatch/Setup/Resolution.antt =====
-- Which settings a sink is created with.
use logateway.Prelude.{
  ◌≡◌, refl, ap, ◌∙◌, Option, none, some, [], ◌∷◌, arith, if◌then◌else◌, ◌≤◌, ◌^◌,
}
use logateway.Prelude.Int.{ℤ, pos, ltb_ℤ, pos_part, neg_part}
use logateway.Prelude.Bytes.{Bytes, codes, beq}
use logateway.Prelude.Maps.{lookup, lookup-put}
use logateway.Config.Value.{Value}
use logateway.Config.Types.{SinkRef, SinkInstanceConfig, RedisSinkConfig, Config}
use logateway.Config.Defaults.{default_if_empty}
use logateway.Sink.Settings.{Settings, Formats, IsFormats, string_or, int_config, duration_config}
use logateway.Sink.Redis.{redis_sink_factory}
use logateway.Dispatch.Setup.{
  merge, redis_settings, global_sink_defaults, instance_of, unless_positive, Resolved, resolve_with,
  resolve_sink_config,
}

-- the value, or else the other one
abbrev pub or_else : Option Value → Option Value → Option Value
or_else none o = o
or_else (some v) o = some v

lookup-merge :
    (k : Bytes) (m base : Settings) → lookup k (merge m base) ≡ or_else (lookup k m) (lookup k base)
unfolding merge lookup
lookup-merge k [] base = refl
lookup-merge k ((j, v) ∷ m) base =
    ground (arith, lookup-put j k v (merge m base), lookup-merge k m base)

module _ (f : Formats) (cfg : Config) (ref : SinkRef) where
  -- where each part of the resolved settings comes from
  abbrev pub Precedence : Bytes → Resolved → Type 0
  Precedence k r =
      ((inst : SinkInstanceConfig)
        → instance_of cfg ref ≡ some inst
        → (lookup k r.settings
            ≡ or_else (lookup k ref.config) (
                or_else (lookup k inst.config)
                  (lookup k (global_sink_defaults f cfg.sinks r.sink_type))))
          × (r.sink_type ≡ default_if_empty inst.kind (codes "redis"))
          × (r.workers ≡ (if ltb_ℤ (pos 0) ref.workers then ref.workers else inst.workers))
          × (r.channel_size
              ≡ (if ltb_ℤ (pos 0) ref.channel_size then ref.channel_size else inst.channel_size)))
      × (instance_of cfg ref ≡ none
          → (lookup k r.settings
              ≡ or_else (lookup k ref.config)
                  (lookup k (global_sink_defaults f cfg.sinks r.sink_type)))
            × (r.sink_type ≡ default_if_empty ref.kind (codes "redis")))

  -- The settings of a sink: a reference's own settings come before those of the instance that it
  -- names, and these before the defaults of the sinks section for the type; the type is the
  -- instance's where there is one, else the reference's, and redis where that is empty. The
  -- workers and the channel size of the reference come before those of the instance if they
  -- are positive.
  pub resolve_sink_config-Precedence : (k : Bytes) → Precedence k (resolve_sink_config f cfg ref)
  unfolding resolve_sink_config resolve_with unless_positive
  resolve_sink_config-Precedence k =
      let base : Bytes → Settings = λ t. global_sink_defaults f cfg.sinks t in
      (
        λ inst named.
            let t = default_if_empty inst.kind (codes "redis") in
            rw (named, resolve_with)
              (
                lookup-merge k ref.config (merge inst.config (base t))
                    ∙ ap (or_else (lookup k ref.config)) (lookup-merge k inst.config (base t)),
                refl,
                refl,
                refl,
              ),
        λ unnamed.
            rw (unnamed, resolve_with)
              (lookup-merge k ref.config (base (default_if_empty ref.kind (codes "redis"))), refl),
      )

abbrev pub IsExact : ℤ → Type 0
IsExact n = (pos_part n ≤ 2 ^ 53) × (neg_part n ≤ 2 ^ 53)

-- The integers of the redis section fit a float64.
abbrev pub AreExact : RedisSinkConfig → Type 0
AreExact r = IsExact r.db × IsExact r.pool_size × IsExact r.min_idle_conns × IsExact r.max_len

-- the factory on the settings that globalSinkDefaults makes of the redis section
from_settings :
    (f : Formats) (name : Bytes) (r : RedisSinkConfig)
    → IsFormats f
    → AreExact r
    → redis_sink_factory f name (redis_settings f r) ≡ record {
      name = name;
      options = record {
        addr = r.addr;
        password = r.password;
        db = r.db;
        pool_size = r.pool_size;
        min_idle_conns = r.min_idle_conns;
        dial_timeout = r.dial_timeout;
        read_timeout = r.read_timeout;
        write_timeout = r.write_timeout;
      };
      key = r.key;
      kind = default_if_empty r.kind (codes "list");
      max_len = r.max_len;
    }
unfolding redis_sink_factory redis_settings string_or int_config duration_config lookup beq
from_settings f name r laws exact = simp (
  laws.parsed_back,
  laws.exact r.db exact.0.0 exact.0.1,
  laws.exact r.pool_size exact.1.0 exact.1.1,
  laws.exact r.min_idle_conns exact.2.0 exact.2.1,
  laws.exact r.max_len exact.3.0 exact.3.1,
)

-- A reference to redis that sets nothing of its own gives the factory, through the map of
-- settings and its strings and floats, exactly the redis section of the configuration, with
-- `list` for an empty type; the integers of the section are at most 2^53 in size.
pub redis_sink_factory-defaults :
    (f : Formats) (name : Bytes) (cfg : Config) (ref : SinkRef)
    → IsFormats f
    → ref.config ≡ []
    → instance_of cfg ref ≡ none
    → default_if_empty ref.kind (codes "redis") ≡ codes "redis"
    → AreExact cfg.sinks.redis
    → let r = cfg.sinks.redis in
      redis_sink_factory f name (resolve_sink_config f cfg ref).settings ≡ record {
        name = name;
        options = record {
          addr = r.addr;
          password = r.password;
          db = r.db;
          pool_size = r.pool_size;
          min_idle_conns = r.min_idle_conns;
          dial_timeout = r.dial_timeout;
          read_timeout = r.read_timeout;
          write_timeout = r.write_timeout;
        };
        key = r.key;
        kind = default_if_empty r.kind (codes "list");
        max_len = r.max_len;
      }
unfolding resolve_sink_config resolve_with merge global_sink_defaults beq
redis_sink_factory-defaults f name cfg ref laws plain unnamed kind exact =
    rw (unnamed, resolve_with)
      (rw (plain, merge)
        (rw (kind, global_sink_defaults) (from_settings f name cfg.sinks.redis laws exact)))
