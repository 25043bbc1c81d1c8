-- ===== src/Sink/Registry.antt =====
-- `Registry` of internal/sink/sink.go, and the two factories that New of internal/server/server.go
-- registers.
use logateway.Prelude.{Option, none, some, List, []}
use logateway.Prelude.Bytes.{Bytes, codes}
use logateway.Prelude.Maps.{lookup, put}
use logateway.Sink.Settings.{Settings, Formats}
use logateway.Sink.Redis.{RedisSink, redis_sink_factory}
use logateway.Sink.Kafka.{KafkaSink, kafka_sink_factory}

-- the implementations of the interface Sink
pub data Sink : Type 0 where
  redis : RedisSink → Sink
  kafka : KafkaSink → Sink

-- Factory; `none` is an error
abbrev pub Factory : Type 0
Factory = Bytes → Settings → Option Sink

-- Registry
abbrev pub Registry : Type 0
Registry = List (Bytes × Factory)

-- Register
unfoldable pub register : Bytes → Factory → Registry → Registry
unfolding put
register sink_type factory r = put sink_type factory r

-- Create; an unknown type is an error
unfoldable pub create : Registry → Bytes → Bytes → Settings → Option Sink
unfolding lookup
create r sink_type name cfg = elim (lookup sink_type r) [
  | none ↦ none
  | some factory ↦ factory name cfg
]

abbrev redis_factory : Formats → Factory
redis_factory f name cfg = some (redis (redis_sink_factory f name cfg))

as_kafka : Option KafkaSink → Option Sink
as_kafka none = none
as_kafka (some s) = some (kafka s)

abbrev kafka_factory : Formats → Factory
kafka_factory f name cfg = as_kafka (kafka_sink_factory f name cfg)

-- the registry that New sets up
unfoldable pub builtin_registry : Formats → Registry
unfolding register as_kafka
builtin_registry f =
    register (codes "kafka") (kafka_factory f) (register (codes "redis") (redis_factory f) [])
