-- ===== src/Tests/Configs.antt =====
-- The theorems on the configuration.
use logateway.Prelude.{◌≡◌, refl, Bool, true, false, some, [], ◌∷◌}
use logateway.Prelude.Int.{pos}
use logateway.Prelude.Bytes.{codes, beq}
use logateway.Config.Types.{ProjectConfig, Config}
use logateway.Config.Manager.{get_project}

abbrev project : Bool → ProjectConfig
project enabled = record {
  name = codes "p";
  enabled = enabled;
  sinks = [];
  rate_limit = pos 0;
  max_body_bytes = pos 0;
  auth_required = false;
  pipelines = [];
}

-- a file that sets nothing but two projects of the same name
abbrev pub config : Config
config = record {
  server = record {
    listen_addr = [];
    read_timeout = pos 0;
    write_timeout = pos 0;
    max_body_bytes = pos 0;
    max_conns_per_ip = pos 0;
    global_rate_limit = pos 0;
    ants_pool_size = pos 0;
    backpressure = [];
    idle_timeout = pos 0;
    env = [];
  };
  auth = record {
    enabled = false;
    timestamp_window = pos 0;
    nonce_ttl_seconds = pos 0;
    nonce_cache_size = pos 0;
  };
  projects = project false ∷ project true ∷ [];
  sinks = record {
    redis = record {
      addr = [];
      password = [];
      db = pos 0;
      pool_size = pos 0;
      min_idle_conns = pos 0;
      dial_timeout = pos 0;
      read_timeout = pos 0;
      write_timeout = pos 0;
      key = [];
      kind = [];
      max_len = pos 0;
    };
    kafka = record {
      brokers = [];
      topic = [];
      partition_key = [];
      compression = [];
      batch_size = pos 0;
      batch_timeout = pos 0;
    };
  };
  sink_instances = [];
  pipeline = record { max_depth = pos 0 };
  log = record {
    level = [];
    console = record { enabled = true; format = [] };
    file = record { enabled = false; dir = []; levels = []; max_age = pos 0 };
  };
  metrics = record { enabled = false; path = []; port = pos 0 };
  wal = record {
    enabled = true;
    dir = [];
    max_segment_bytes = pos 0;
    max_segments = pos 0;
    sync_interval = pos 0;
  };
  pprof = record { enabled = false; path = [] };
}

found : get_project config (codes "p") ≡ some (project true)
unfolding get_project beq
found = refl
