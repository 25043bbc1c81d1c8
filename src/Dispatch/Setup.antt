-- ===== src/Dispatch/Setup.antt =====
-- Initialize of the `Dispatcher` in internal/project/dispatcher.go, with initProject,
-- resolveSinkConfig, globalSinkDefaults and readPoolInt; and its Shutdown and SinkInfos.
pub mod Resolution
pub mod Readiness
use logateway.Prelude.{
  ℕ, zero, suc, ◌+◌, Bool, true, false, not, Option, none, some, List, [], ◌∷◌, ◌++◌, map, ◌==◌,
  if◌then◌else◌,
}
use logateway.Prelude.Int.{ℤ, pos, negsuc, ltb_ℤ}
use logateway.Prelude.Bytes.{Bytes, codes, beq}
use logateway.Prelude.Maps.{lookup, put}
use logateway.Wal.Name.{digits}
use logateway.Config.Value.{Value, float64, int, str, arr, Items, nil, cons}
use logateway.Config.Types.{
  SinkRef, ProjectConfig, SinkInstanceConfig, RedisSinkConfig, KafkaSinkConfig, SinksConfig, Config,
}
use logateway.Config.Defaults.{default_if_empty}
use logateway.Sink.Settings.{Settings, Formats}
use logateway.Sink.Registry.{Sink, Registry, create}
use logateway.Sink.Pool.{Pool, Backpressure, new_worker_pool}
use logateway.Dispatch.{Dispatcher}

-- `for k, v := range m { merged[k] = v }`; the keys of a map are distinct, so their order does not
-- matter
unfoldable pub merge : Settings → Settings → Settings
unfolding put
merge [] base = base
merge ((k, v) ∷ m) base = put k v (merge m base)

unfoldable pub items : List Bytes → Items
items [] = nil
items (s ∷ ss) = cons (str s) (items ss)

-- the instance that a reference names, if it names one that there is
unfoldable pub instance_of : Config → SinkRef → Option SinkInstanceConfig
unfolding lookup
instance_of cfg ref = elim ref.instance_name [
  | [] ↦ none
  | c ∷ name ↦ lookup (c ∷ name) cfg.sink_instances
]

-- `if x <= 0 { x = y }`
unfoldable pub unless_positive : ℤ → ℤ → ℤ
unless_positive x y = if ltb_ℤ (pos 0) x then x else y

-- the results of resolveSinkConfig
pub record Resolved : Type 0 where
  pub sink_type : Bytes
  pub workers : ℤ
  pub channel_size : ℤ
  pub settings : Settings

-- readPoolInt
unfoldable pub read_pool_int : Settings → Bytes → ℤ → ℤ
unfolding lookup
read_pool_int cfg key def = elim (lookup key cfg) [
  | none ↦ def
  | some v ↦ elim v [ float64 n ↦ n | int n ↦ n | _ ↦ def ]
]

-- the decimal numeral of an index
decimal : ℕ → Bytes
decimal n = if n == 0 then codes "0" else digits 20 n []

-- fmt.Sprintf("%s-%s-%d", projCfg.Name, sinkType, i)
unfoldable pub sink_name : Bytes → Bytes → ℕ → Bytes
unfolding decimal
sink_name project sink_type i = project ++ (codes "-" ++ (sink_type ++ (codes "-" ++ decimal i)))

-- a pool with its sink, and the number of its workers
pub record Started (W : Type 0) : Type 0 where
  pub sink : Sink
  pub workers : ℤ
  pub pool : Pool W

module _ (f : Formats) where
  unfoldable pub redis_settings : RedisSinkConfig → Settings
  redis_settings r =
      (codes "addr", str r.addr)
      ∷ (codes "password", str r.password)
      ∷ (codes "db", float64 (f.through_float64 r.db))
      ∷ (codes "pool_size", float64 (f.through_float64 r.pool_size))
      ∷ (codes "min_idle_conns", float64 (f.through_float64 r.min_idle_conns))
      ∷ (codes "dial_timeout", str (f.duration_string r.dial_timeout))
      ∷ (codes "read_timeout", str (f.duration_string r.read_timeout))
      ∷ (codes "write_timeout", str (f.duration_string r.write_timeout))
      ∷ (codes "key", str r.key)
      ∷ (codes "type", str r.kind)
      ∷ (codes "max_len", float64 (f.through_float64 r.max_len))
      ∷ []

  unfoldable pub kafka_settings : KafkaSinkConfig → Settings
  unfolding items
  kafka_settings k =
      (codes "brokers", arr (items k.brokers))
      ∷ (codes "topic", str k.topic)
      ∷ (codes "partition_key", str k.partition_key)
      ∷ (codes "compression", str k.compression)
      ∷ (codes "batch_size", float64 (f.through_float64 k.batch_size))
      ∷ (codes "batch_timeout", str (f.duration_string k.batch_timeout))
      ∷ []

  -- globalSinkDefaults
  unfoldable pub global_sink_defaults : SinksConfig → Bytes → Settings
  unfolding redis_settings kafka_settings beq
  global_sink_defaults sinks sink_type =
      if beq sink_type (codes "redis")
      then redis_settings sinks.redis
      else if beq sink_type (codes "kafka")
      then kafka_settings sinks.kafka
      else []

  unfoldable pub resolve_with : Config → SinkRef → Option SinkInstanceConfig → Resolved
  unfolding global_sink_defaults merge default_if_empty unless_positive
  resolve_with cfg ref none =
      let sink_type = default_if_empty ref.kind (codes "redis") in
      record {
        sink_type = sink_type;
        workers = ref.workers;
        channel_size = ref.channel_size;
        settings = merge ref.config (global_sink_defaults cfg.sinks sink_type);
      }
  resolve_with cfg ref (some inst) =
      let sink_type = default_if_empty inst.kind (codes "redis") in
      record {
        sink_type = sink_type;
        workers = unless_positive ref.workers inst.workers;
        channel_size = unless_positive ref.channel_size inst.channel_size;
        settings = merge ref.config (merge inst.config (global_sink_defaults cfg.sinks sink_type));
      }

  -- resolveSinkConfig
  unfoldable pub resolve_sink_config : Config → SinkRef → Resolved
  unfolding resolve_with instance_of
  resolve_sink_config cfg ref = resolve_with cfg ref (instance_of cfg ref)

  module _ {W : Type 0} (reg : Registry) (bp : Backpressure) (wal : Option W) (cfg : Config) where
    -- one step of the loop of initProject
    unfoldable pub init_sink : Bytes → ℕ → SinkRef → Option (Started W)
    unfolding resolve_sink_config unless_positive read_pool_int sink_name create new_worker_pool
    init_sink project i ref =
        let r = resolve_sink_config cfg ref in
        elim (create reg r.sink_type (sink_name project r.sink_type i) r.settings) [
          | none ↦ none
          | some s ↦ some (record {
            sink = s;
            workers =
                unless_positive r.workers (read_pool_int r.settings (codes "workers") (pos 16));
            pool =
                new_worker_pool
                  (unless_positive r.channel_size
                    (read_pool_int r.settings (codes "channel_size") (pos 16384)))
                  (pos 10) bp wal;
          })
        ]

    -- initProject from the sink number `i` on; the first that cannot be created ends it
    unfoldable pub init_sinks : Bytes → ℕ → List SinkRef → Option (List (Started W))
    unfolding init_sink
    init_sinks project i [] = some []
    init_sinks project i (ref ∷ refs) =
        let rest = init_sinks project (i + 1) refs in
        elim (init_sink project i ref) [
          | none ↦ none
          | some s ↦ elim rest [ none ↦ none | some ss ↦ some (s ∷ ss) ]
        ]

    -- Initialize: the pools by project, and whether it returns nil. After an error the projects
    -- before it have their pools.
    unfoldable pub init_projects :
        List ProjectConfig
        → List (Bytes × List (Started W))
        → List (Bytes × List (Started W)) × Bool
    unfolding init_sinks put
    init_projects [] m = (m, true)
    init_projects (p ∷ ps) m =
        if not p.enabled then init_projects ps m else elim (init_sinks p.name 0 p.sinks) [
          | none ↦ (m, false)
          | some ss ↦ init_projects ps (put p.name ss m)
        ]

    unfoldable pub initialize : List (Bytes × List (Started W)) × Bool
    unfolding init_projects
    initialize = init_projects cfg.projects []

module _ {W : Type 0} where
  -- the pools that Dispatch sees
  unfoldable pub pools_of : List (Bytes × List (Started W)) → List (Bytes × List (Pool W))
  pools_of [] = []
  pools_of ((name, ss) ∷ m) = (name, map (λ (s : Started W). s.pool) ss) ∷ pools_of m

  unfoldable pub sinks_of : List (Started W) → List Sink
  sinks_of ss = map (λ (s : Started W). s.sink) ss

  -- SinkInfos, in the order in which the map is visited
  unfoldable pub sink_infos : List (Bytes × List (Started W)) → List Sink
  unfolding sinks_of
  sink_infos [] = []
  sink_infos ((name, ss) ∷ m) = sinks_of ss ++ sink_infos m
