-- ===== src/Sink/Redis.antt =====
-- RedisSinkFactory and NewRedisSink of internal/sink/redis_sink.go, and what Send asks the client
-- for. The client of github.com/redis/go-redis is described by its options.
use logateway.Prelude.{Bool, Option, none, some, [], if◌then◌else◌}
use logateway.Prelude.Int.{ℤ, pos, ltb_ℤ}
use logateway.Prelude.Bytes.{Bytes, codes, beq}
use logateway.Config.Defaults.{default_if_empty}
use logateway.Message.{Message, Envelope, build_envelope}
use logateway.Sink.Settings.{Settings, Formats, string_or, int_config, duration_config}

-- redis.Options, as far as NewRedisSink sets them
pub record Options : Type 0 where
  pub addr : Bytes
  pub password : Bytes
  pub db : ℤ
  pub pool_size : ℤ
  pub min_idle_conns : ℤ
  pub dial_timeout : ℤ
  pub read_timeout : ℤ
  pub write_timeout : ℤ

-- RedisSink
pub record RedisSink : Type 0 where
  pub name : Bytes
  pub options : Options
  pub key : Bytes
  pub kind : Bytes
  pub max_len : ℤ

-- NewRedisSink of a name, the options, and Key, Type and MaxLen of the RedisConfig
unfoldable pub new_redis_sink : Bytes → Options → Bytes → Bytes → ℤ → RedisSink
unfolding default_if_empty
new_redis_sink name options key kind max_len = record {
  name = name;
  options = options;
  key = key;
  kind = default_if_empty kind (codes "list");
  max_len = max_len;
}

-- RedisSinkFactory, which returns no error
unfoldable pub redis_sink_factory : Formats → Bytes → Settings → RedisSink
unfolding new_redis_sink string_or int_config duration_config
redis_sink_factory f name cfg =
    new_redis_sink name
      (record {
        addr = string_or cfg (codes "addr") [];
        password = string_or cfg (codes "password") [];
        db = int_config cfg (codes "db") (pos 0);
        pool_size = int_config cfg (codes "pool_size") (pos 0);
        min_idle_conns = int_config cfg (codes "min_idle_conns") (pos 0);
        dial_timeout = duration_config f cfg (codes "dial_timeout") (pos 0);
        read_timeout = duration_config f cfg (codes "read_timeout") (pos 0);
        write_timeout = duration_config f cfg (codes "write_timeout") (pos 0);
      })
      (string_or cfg (codes "key") []) (string_or cfg (codes "type") (codes "list"))
      (int_config cfg (codes "max_len") (pos 0))

-- the command that Send gives to the client
pub data Command : Type 0 where
  xadd : Bytes → ℤ → Bool → Bytes → Command
  lpush : Bytes → Bytes → Command

-- Send up to the call of the client; `marshal` is json.Marshal of an envelope, `none` its error
unfoldable pub send_command : (Envelope → Option Bytes) → Message → RedisSink → Option Command
unfolding build_envelope beq
send_command marshal msg s = elim (marshal (build_envelope msg)) [
  | none ↦ none
  | some text ↦
      if beq s.kind (codes "stream")
      then some (xadd s.key s.max_len (ltb_ℤ (pos 0) s.max_len) text)
      else some (lpush s.key text)
]
