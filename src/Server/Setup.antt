-- ===== src/Server/Setup.antt =====
-- New of internal/server/server.go up to the router, with resolveBackpressure and initWAL:
-- configuration to WAL writer, sinks and pools. `lower` is strings.ToLower. The configuration is
-- the one that the manager holds, and is the same at both readings.
pub mod Safety
use logateway.Prelude.{
  Bool, true, false, not, ◌&&◌, Option, none, some, List, [], ◌∷◌, if◌then◌else◌,
}
use logateway.Prelude.Bytes.{Bytes, codes, beq}
use logateway.Config.Types.{Config}
use logateway.Wal.Disk.{Dir}
use logateway.Wal.Entry
use logateway.Wal.Writer
use logateway.Wal.Writer.{World, Faults}
use logateway.Wal.Open.{new_writer}
use logateway.Sink.Settings.{Formats}
use logateway.Sink.Registry.{Registry, builtin_registry}
use logateway.Sink.Pool.{Backpressure, drop_message, block, fallback}
use logateway.Dispatch.{Dispatcher}
use logateway.Dispatch.Setup.{Started, initialize, pools_of}

-- resolveBackpressure
unfoldable pub resolve_backpressure : (Bytes → Bytes) → Bytes → Backpressure
unfolding beq
resolve_backpressure lower s =
    let t = lower s in
    if beq t (codes "block")
    then block
    else if beq t (codes "fallback")
    then fallback
    else drop_message

-- what initWAL returns: no writer and no error, a writer, or an error
pub data WalStart : Type 0 where
  no_wal : WalStart
  opened : World → WalStart
  failed : Writer.Error → WalStart

unfoldable pub is_fallback : Backpressure → Bool
is_fallback fallback = true
is_fallback drop_message = false
is_fallback block = false

-- the wal.Config that initWAL makes
unfoldable pub wal_config : Config → Entry.Config
wal_config cfg = record {
  dir = cfg.wal.dir;
  max_segment_bytes = cfg.wal.max_segment_bytes;
  max_segments = cfg.wal.max_segments;
  sync_interval = cfg.wal.sync_interval;
}

-- initWAL, on a directory with the outcomes of the calls of NewWriter
unfoldable pub init_wal : Faults → Config → Backpressure → Dir → WalStart
unfolding is_fallback wal_config new_writer
init_wal f cfg bp d =
    if not (is_fallback bp) && not cfg.wal.enabled
    then no_wal
    else let (w, r) = new_writer f (wal_config cfg) d in
      elim r [ none ↦ opened w | some e ↦ failed e ]

-- what New returns, as far as the dispatcher goes
pub data NewGateway : Type 0 where
  wal_error : Writer.Error → NewGateway
  dispatcher_error : NewGateway
  pool_error : NewGateway
  started : Dispatcher World → List (Bytes × List (Started World)) → NewGateway

-- New once there is a WAL writer, or none; `goroutines` is whether ants.NewPool succeeds
unfoldable pub new_with : Formats → Bool → Config → Backpressure → Option World → NewGateway
unfolding initialize builtin_registry pools_of
new_with fmt goroutines cfg bp wal =
    let (m, ok) = initialize fmt (builtin_registry fmt) bp wal cfg in
    if not ok
    then dispatcher_error
    else if not goroutines
    then pool_error
    else started (record { cfg = cfg; pools = some (pools_of m); wal = wal }) m

-- New from what initWAL returns on
unfoldable pub new_after_wal : Formats → Bool → Config → Backpressure → WalStart → NewGateway
unfolding new_with
new_after_wal fmt goroutines cfg bp no_wal = new_with fmt goroutines cfg bp none
new_after_wal fmt goroutines cfg bp (opened w) = new_with fmt goroutines cfg bp (some w)
new_after_wal fmt goroutines cfg bp (failed e) = wal_error e

-- New
unfoldable pub new_gateway : Formats → (Bytes → Bytes) → Faults → Bool → Config → Dir → NewGateway
unfolding resolve_backpressure init_wal new_after_wal
new_gateway fmt lower f goroutines cfg d =
    let bp = resolve_backpressure lower cfg.server.backpressure in
    new_after_wal fmt goroutines cfg bp (init_wal f cfg bp d)
