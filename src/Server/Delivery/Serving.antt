-- ===== src/Server/Delivery/Serving.antt =====
-- A gateway that New returns with the back pressure `fallback` serves its projects.
use mathlib.Core.Path.{subst}
use logateway.Prelude.{◌≡◌, Bool, false, some, List, [], ◌∷◌, All}
use logateway.Prelude.Bytes.{Bytes}
use logateway.Config.Types.{Config}
use logateway.Config.Manager.{get_project}
use logateway.Message.{Message}
use logateway.Pipeline.Processors.{Json}
use logateway.Wal.Disk.{Dir}
use logateway.Wal.Writer.{World, Faults}
use logateway.Sink.Settings.{Formats}
use logateway.Sink.Pool.{Pool, fallback}
use logateway.Sink.Pool.Fates.{IsSafe}
use logateway.Dispatch.{Dispatcher}
use logateway.Dispatch.Fallback.{FallsBack}
use logateway.Dispatch.Setup.{Started}
use logateway.Server.Setup.{resolve_backpressure, new_gateway, started}
use logateway.Server.Setup.Safety.{IsReady, new_gateway-IsReady, new_gateway-wired}
use logateway.Server.Delivery.{IsServing}

module _ (fmt : Formats) (goroutines : Bool) (cfg : Config) (lower : Bytes → Bytes)
    (write_message : Message → World → World × Bool) (json : Json) where
  All-FallsBack :
      (ps : List (Pool World))
      → All (λ (q : Pool World). q.closed ≡ false) ps
      → All (IsSafe write_message) ps
      → All FallsBack ps
  All-FallsBack [] opens safe = tt
  All-FallsBack (p ∷ ps) opens safe =
      ((opens.0, safe.0.falls_back), All-FallsBack ps opens.1 safe.1)

  -- a gateway that has just been started
  pub new_gateway-IsServing :
      (f : Faults) (dir : Dir) (d : Dispatcher World) (m : List (Bytes × List (Started World)))
      → resolve_backpressure lower cfg.server.backpressure ≡ fallback
      → new_gateway fmt lower f goroutines cfg dir ≡ started d m
      → IsServing write_message json d
  new_gateway-IsServing f dir d m falls h =
      let (writer, same) =
        new_gateway-wired fmt goroutines cfg write_message lower f dir d m falls h in
      record {
        has_wal = writer;
        served = λ name p found.
            (let r : IsReady fmt goroutines cfg write_message lower d name =
                new_gateway-IsReady fmt goroutines cfg write_message lower f dir d m name p h
                  (subst (λ c. get_project c name ≡ some p) same found) in
              record {
                m = r.m;
                ps = r.ps;
                has_pools = r.has_pools;
                found = r.found;
                falls = All-FallsBack r.ps r.are_open (r.are_safe falls).1;
              });
      }
