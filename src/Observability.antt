-- ===== src/Observability.antt =====
-- `HealthChecker` of internal/observability/observability.go with its endpoints, and
-- registerSinkProbes of internal/server/server.go. A call of a probe enters as how it ends; the
-- request counters and log entries of that file are left out.
pub mod Health
use logateway.Prelude.{
  ℕ, Bool, true, false, ◌&&◌, Option, none, some, List, [], ◌∷◌, ltb, length, if◌then◌else◌,
}
use logateway.Prelude.Bytes.{Bytes, codes}
use logateway.Prelude.Maps.{put}
use logateway.Sink.Registry.{Sink}

-- how the goroutine of runProbe ends, or that the timeout comes first
pub data Probed : Type 0 where
  returned_nil returned_error panicked timed_out : Probed

-- Probe: the health check of a sink, or that of the gateway, which always returns nil
pub data Probe : Type 0 where
  sink_probe : Sink → Probe
  gateway_probe : Probe

-- HealthChecker
pub record HealthChecker : Type 0 where
  pub statuses : List (Bytes × Bool)
  pub probes : List (Bytes × Probe)

-- NewHealthChecker
abbrev pub new_health_checker : HealthChecker
new_health_checker = record { statuses = []; probes = [] }

-- Register
unfoldable pub register : Bytes → Probe → HealthChecker → HealthChecker
unfolding put
register name probe h = record h { probes = put name probe h.probes }

-- runProbe: `true` is a nil error
unfoldable pub run_probe : Probed → Bool
run_probe returned_nil = true
run_probe returned_error = false
run_probe panicked = false
run_probe timed_out = false

-- the loop of checkAll
unfoldable pub check_probes : (Bytes → Probe → Probed) → List (Bytes × Probe) → List (Bytes × Bool)
unfolding run_probe
check_probes ends [] = []
check_probes ends ((name, probe) ∷ ps) = (name, run_probe (ends name probe)) ∷ check_probes ends ps

-- checkAll
unfoldable pub check_all : (Bytes → Probe → Probed) → HealthChecker → HealthChecker
unfolding check_probes
check_all ends h = record h { statuses = check_probes ends h.probes }

-- Status
unfoldable pub status : HealthChecker → List (Bytes × Bool)
status h = h.statuses

unfoldable pub all_healthy : List (Bytes × Bool) → Bool
all_healthy [] = true
all_healthy ((name, healthy) ∷ m) = let rest = all_healthy m in if healthy then rest else false

-- Healthy
unfoldable pub is_healthy : HealthChecker → Bool
unfolding all_healthy
is_healthy h = all_healthy h.statuses && ltb 0 (length h.statuses)

-- GET /health: the HTTP status, `status` and `components`
unfoldable pub health_endpoint : HealthChecker → ℕ × Bool × List (Bytes × Bool)
unfolding is_healthy status
health_endpoint h = let healthy = is_healthy h in (if healthy then 200 else 503, healthy, status h)

-- GET /ready
unfoldable pub ready_endpoint : HealthChecker → ℕ × Bool
unfolding is_healthy
ready_endpoint h = if is_healthy h then (200, true) else (503, false)

-- registerSinkProbes, with the names and sinks of SinkInfos
unfoldable pub register_sinks : List (Bytes × Sink) → HealthChecker → HealthChecker
unfolding register
register_sinks [] h = h
register_sinks ((name, sink) ∷ infos) h = register_sinks infos (register name (sink_probe sink) h)

unfoldable pub register_sink_probes : List (Bytes × Sink) → HealthChecker → HealthChecker
unfolding register_sinks
register_sink_probes infos h = register (codes "gateway") gateway_probe (register_sinks infos h)
