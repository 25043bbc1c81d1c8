-- ===== src/Config/Defaults.antt =====
-- applyDefaults of internal/config/config.go.
use logateway.Prelude.{ℕ, zero, suc, ◌*◌, ◌≡◌, refl, [], ◌∷◌, arith, ◌≢◌}
use logateway.Prelude.Int.{ℤ, pos, negsuc}
use logateway.Prelude.Bytes.{Bytes, codes}
use logateway.Config.Types.{ServerConfig, AuthConfig, RedisSinkConfig, WalConfig, Config}

abbrev pub second : ℕ
second = 1000000000

-- `if x == 0 { x = d }`
unfoldable pub default_if_zero : ℤ → ℕ → ℤ
default_if_zero (pos zero) d = pos d
default_if_zero (pos (suc n)) d = pos (suc n)
default_if_zero (negsuc n) d = negsuc n

-- `if x <= 0 { x = d }`
unfoldable pub default_if_not_positive : ℤ → ℕ → ℤ
default_if_not_positive (pos zero) d = pos d
default_if_not_positive (pos (suc n)) d = pos (suc n)
default_if_not_positive (negsuc n) d = pos d

-- `if s == "" { s = d }`
unfoldable pub default_if_empty : Bytes → Bytes → Bytes
default_if_empty [] d = d
default_if_empty (c ∷ s) d = c ∷ s

unfoldable pub server_defaults : ServerConfig → ServerConfig
server_defaults s = record s {
  listen_addr = default_if_empty s.listen_addr (codes ":8080");
  read_timeout = default_if_zero s.read_timeout (3 * second);
  write_timeout = default_if_zero s.write_timeout (5 * second);
  max_body_bytes = default_if_zero s.max_body_bytes 1048576;
  ants_pool_size = default_if_zero s.ants_pool_size 10000;
  global_rate_limit = default_if_not_positive s.global_rate_limit 20000;
  backpressure = default_if_empty s.backpressure (codes "drop");
  idle_timeout = default_if_zero s.idle_timeout (120 * second);
}

unfoldable pub auth_defaults : AuthConfig → AuthConfig
auth_defaults a = record a {
  timestamp_window = default_if_zero a.timestamp_window 300;
  nonce_ttl_seconds = default_if_zero a.nonce_ttl_seconds 300;
  nonce_cache_size = default_if_zero a.nonce_cache_size 100000;
}

unfoldable pub wal_defaults : WalConfig → WalConfig
wal_defaults w = record w {
  dir = default_if_empty w.dir (codes "data/wal");
  max_segment_bytes = default_if_zero w.max_segment_bytes 67108864;
  max_segments = default_if_zero w.max_segments 10;
  sync_interval = default_if_zero w.sync_interval 100000000;
}

unfoldable pub redis_defaults : RedisSinkConfig → RedisSinkConfig
redis_defaults r = record r {
  min_idle_conns = default_if_zero r.min_idle_conns 10;
  dial_timeout = default_if_zero r.dial_timeout (5 * second);
  read_timeout = default_if_zero r.read_timeout (3 * second);
  write_timeout = default_if_zero r.write_timeout (3 * second);
  pool_size = default_if_zero r.pool_size 100;
}

-- applyDefaults
unfoldable pub apply_defaults : Config → Config
unfolding server_defaults auth_defaults wal_defaults redis_defaults
apply_defaults c = record c {
  server = server_defaults c.server;
  auth = auth_defaults c.auth;
  log = record c.log {
    file = record c.log.file { dir = default_if_empty c.log.file.dir (codes "logs") };
  };
  wal = wal_defaults c.wal;
  sinks = record c.sinks { redis = redis_defaults c.sinks.redis };
}

-- No configuration that has gone through applyDefaults has a SyncInterval of 0: the mode that
-- syncs each entry, which the WAL implements, cannot be configured.
sync_interval-ne-zero : (c : Config) → (apply_defaults c).wal.sync_interval ≢ pos 0
unfolding apply_defaults default_if_zero
sync_interval-ne-zero c = λ h. ground arith

zero_idem : (x : ℤ) (d : ℕ) → default_if_zero (default_if_zero x d) d ≡ default_if_zero x d
unfolding default_if_zero
zero_idem x d = ground arith

positive_idem :
    (x : ℤ) (d : ℕ)
    → default_if_not_positive (default_if_not_positive x d) d ≡ default_if_not_positive x d
unfolding default_if_not_positive
positive_idem x d = ground arith

empty_idem : (s d : Bytes) → default_if_empty (default_if_empty s d) d ≡ default_if_empty s d
unfolding default_if_empty
empty_idem [] [] = refl
empty_idem [] (c ∷ d) = refl
empty_idem (c ∷ s) d = refl

-- Filling the defaults in a second time changes nothing.
apply_defaults_idem : (c : Config) → apply_defaults (apply_defaults c) ≡ apply_defaults c
unfolding apply_defaults
apply_defaults_idem c = simp (zero_idem, positive_idem, empty_idem)
