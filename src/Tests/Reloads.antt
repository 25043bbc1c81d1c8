-- ===== src/Tests/Reloads.antt =====
-- The theorems on reloads of the configuration, health and the resolution of sinks.
use logateway.Prelude.{◌≡◌, ◌↔◌, refl, true, false, Option, none, some, List, [], ◌∷◌}
use logateway.Prelude.Int.{pos}
use logateway.Prelude.Bytes.{Bytes, codes, beq}
use logateway.Prelude.Maps.{lookup, put}
use logateway.Config.Value.{str}
use logateway.Config.Types.{SinkRef, SinkInstanceConfig, Config}
use logateway.Config.Defaults.{apply_defaults}
use logateway.Config.Reload
use logateway.Config.Reload.{Callback, read_config, load}
use logateway.RateLimit.{Manager}
use logateway.RateLimit.Limits.{HasRate}
use logateway.RateLimit.Reload.{limit_callback, load-global-rate}
use logateway.Sink.Registry.{Sink, redis}
use logateway.Sink.Redis.{redis_sink_factory}
use logateway.Dispatch.Setup.{resolve_sink_config}
use logateway.Dispatch.Setup.Resolution.{Precedence, resolve_sink_config-Precedence}
use logateway.Observability.{
  Probed, returned_nil, timed_out, Probe, sink_probe, gateway_probe, new_health_checker, check_all,
  health_endpoint, ready_endpoint, register_sink_probes,
}
use logateway.Observability.Health.{PassByName, probe_of, health_endpoint-PassByName}
use logateway.Tests.Configs.{config}
use logateway.Tests.Limits.{Bucket, buckets, buckets-IsLimiters}
use logateway.Tests.Setups.{formats, gateway, ref}

-- a callback that panics at once
abbrev panicking : Callback (Manager Bucket)
panicking cfg m = (m, false)

abbrev limits : Manager Bucket
limits = record { project_rl = []; global_rl = (pos 1, pos 2, 3) }

abbrev manager : Reload.Manager (Manager Bucket)
manager = record { current = none; callbacks = panicking ∷ limit_callback (buckets 1) 7 ∷ [] }

abbrev decode : Bytes → Option Config
decode text = some config

load-global-rate_example :
    let r = load (some []) decode manager limits in
    (read_config (some []) decode ≡ none → r ≡ (manager, limits, false))
    × ((decoded : Config)
        → read_config (some []) decode ≡ some decoded
        → (r.0.current ≡ some (apply_defaults decoded))
          × HasRate (buckets 1) (apply_defaults decoded).server.global_rate_limit r.1.global_rl
          × (r.2 ≡ true))
load-global-rate_example =
    load-global-rate (buckets 1) (buckets-IsLimiters 1) (some []) decode manager (panicking ∷ []) []
      7 limits refl tt

-- a reference that names an instance and sets one thing itself
abbrev instance_1 : SinkInstanceConfig
instance_1 = record {
  kind = codes "redis";
  workers = pos 4;
  channel_size = pos 8;
  config = (codes "key", str (codes "k")) ∷ (codes "addr", str (codes "a")) ∷ [];
}

abbrev named : SinkRef
named = record ref { instance_name = codes "i"; config = (codes "key", str (codes "own")) ∷ [] }

abbrev with_instance : Config
with_instance = record gateway { sink_instances = (codes "i", instance_1) ∷ [] }

own_key :
    lookup (codes "key") (resolve_sink_config formats with_instance named).settings
    ≡ some (str (codes "own"))
unfolding lookup put resolve_sink_config beq
own_key = refl

resolve_sink_config-Precedence_example :
    Precedence formats with_instance named
      (codes "key")
      (resolve_sink_config formats with_instance named)
resolve_sink_config-Precedence_example =
    resolve_sink_config-Precedence formats with_instance named (codes "key")

abbrev infos : List (Bytes × Sink)
infos = (codes "s", redis (redis_sink_factory formats (codes "s") [])) ∷ []

-- the sink does not answer in time
abbrev ends : Bytes → Probe → Probed
ends name (sink_probe s) = timed_out
ends name gateway_probe = returned_nil

not_ready :
    (ready_endpoint (check_all ends (register_sink_probes infos new_health_checker))).0 ≡ 503
unfolding ready_endpoint check_all register_sink_probes put beq
not_ready = refl

health_endpoint-PassByName_example :
    let h = register_sink_probes infos new_health_checker in
    let r = health_endpoint (check_all ends h) in
    ((health_endpoint h).0 ≡ 503)
    × ((r.0 ≡ 200) ↔ PassByName ends (probe_of infos))
    × ((r.0 ≡ 200) ↔ (ready_endpoint (check_all ends h) ≡ (200, true)))
    × ((r.0 ≡ 503) ↔ (ready_endpoint (check_all ends h) ≡ (503, false)))
health_endpoint-PassByName_example = health_endpoint-PassByName infos ends
