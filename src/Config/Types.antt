-- ===== src/Config/Types.antt =====
-- The configuration records of internal/config/config.go. Integers are int or int64, durations
-- nanoseconds in int64.
use logateway.Prelude.{Bool, List}
use logateway.Prelude.Int.{ℤ}
use logateway.Prelude.Bytes.{Bytes}
use logateway.Config.Value.{Value}

pub record ServerConfig : Type 0 where
  pub listen_addr : Bytes
  pub read_timeout : ℤ
  pub write_timeout : ℤ
  pub max_body_bytes : ℤ
  pub max_conns_per_ip : ℤ
  pub global_rate_limit : ℤ
  pub ants_pool_size : ℤ
  pub backpressure : Bytes
  pub idle_timeout : ℤ
  pub env : Bytes

pub record AuthConfig : Type 0 where
  pub enabled : Bool
  pub timestamp_window : ℤ
  pub nonce_ttl_seconds : ℤ
  pub nonce_cache_size : ℤ

pub record SinkRef : Type 0 where
  pub kind : Bytes
  pub instance_name : Bytes
  pub workers : ℤ
  pub channel_size : ℤ
  pub config : List (Bytes × Value)

pub record PipelineRef : Type 0 where
  pub kind : Bytes
  pub config : List (Bytes × Value)

pub record ProjectConfig : Type 0 where
  pub name : Bytes
  pub enabled : Bool
  pub sinks : List SinkRef
  pub rate_limit : ℤ
  pub max_body_bytes : ℤ
  pub auth_required : Bool
  pub pipelines : List PipelineRef

pub record SinkInstanceConfig : Type 0 where
  pub kind : Bytes
  pub workers : ℤ
  pub channel_size : ℤ
  pub config : List (Bytes × Value)

pub record RedisSinkConfig : Type 0 where
  pub addr : Bytes
  pub password : Bytes
  pub db : ℤ
  pub pool_size : ℤ
  pub min_idle_conns : ℤ
  pub dial_timeout : ℤ
  pub read_timeout : ℤ
  pub write_timeout : ℤ
  pub key : Bytes
  pub kind : Bytes
  pub max_len : ℤ

pub record KafkaSinkConfig : Type 0 where
  pub brokers : List Bytes
  pub topic : Bytes
  pub partition_key : Bytes
  pub compression : Bytes
  pub batch_size : ℤ
  pub batch_timeout : ℤ

pub record SinksConfig : Type 0 where
  pub redis : RedisSinkConfig
  pub kafka : KafkaSinkConfig

pub record PipelineConfig : Type 0 where
  pub max_depth : ℤ

pub record ConsoleLogConf : Type 0 where
  pub enabled : Bool
  pub format : Bytes

pub record FileLogConf : Type 0 where
  pub enabled : Bool
  pub dir : Bytes
  pub levels : List Bytes
  pub max_age : ℤ

pub record LogConfig : Type 0 where
  pub level : Bytes
  pub console : ConsoleLogConf
  pub file : FileLogConf

pub record MetricsConfig : Type 0 where
  pub enabled : Bool
  pub path : Bytes
  pub port : ℤ

pub record PprofConfig : Type 0 where
  pub enabled : Bool
  pub path : Bytes

pub record WalConfig : Type 0 where
  pub enabled : Bool
  pub dir : Bytes
  pub max_segment_bytes : ℤ
  pub max_segments : ℤ
  pub sync_interval : ℤ

pub record Config : Type 0 where
  pub server : ServerConfig
  pub auth : AuthConfig
  pub projects : List ProjectConfig
  pub sinks : SinksConfig
  pub sink_instances : List (Bytes × SinkInstanceConfig)
  pub pipeline : PipelineConfig
  pub log : LogConfig
  pub metrics : MetricsConfig
  pub wal : WalConfig
  pub pprof : PprofConfig
