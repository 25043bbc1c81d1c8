-- ===== src/Server/Delivery.antt =====
-- The task that UploadHandler of internal/server/server.go gives to the goroutine pool: it
-- dispatches the message of a request. `upload` is a request with its task, which runs here before
-- the next request; gateway and dispatcher read one configuration.
pub mod Landing
pub mod Serving
use mathlib.Core.Path.{subst}
use logateway.Prelude.{
  ◌≡◌, ◌≢◌, ◌⊎◌, refl, sym, ap, ◌∙◌, Bool, true, false, Option, none, some, List, [], ◌∷◌, All,
  arith, Option-cases, Bool-cases, inl, inr,
}
use logateway.Prelude.Bytes.{Bytes, beq, beq→≡}
use logateway.Prelude.Maps.{lookup}
use logateway.Config.Types.{ProjectConfig, Config}
use logateway.Config.Manager.{get_project}
use logateway.Message.{Message}
use logateway.Pipeline.Processors
use logateway.Pipeline.Processors.{Json, Result}
use logateway.Sink.Pool.{Pool}
use logateway.Dispatch.{
  Dispatcher, Dispatched, ok, dispatch, dispatch_impl, submit_project, run_pipeline,
}
use logateway.Dispatch.Fallback.{FallsBack, AllTook, Lands, dispatch-Lands}
use logateway.Server.Context.{Arrival, Response, success, failure}
use logateway.Server.Route.{State, Surroundings, Services, serve}
use logateway.Server.Route.Accepted.{IsAccepted, serve-IsAccepted}

module _ {W : Type 0} (write_message : Message → W → W × Bool) (json : Json) where
  -- the task, where there is a message
  unfoldable pub run_task :
      (Pool W → Pool W) → Option Message → Dispatcher W → Dispatcher W × Option Dispatched
  unfolding dispatch
  run_task meanwhile none d = (d, none)
  run_task meanwhile (some msg) d =
      let (d', r) = dispatch write_message json meanwhile msg d in (d', some r)

  -- UploadHandler's request and its task
  unfoldable pub upload :
      {L R : Type 0}
      → Services L R
      → Surroundings
      → (Pool W → Pool W)
      → State L
      → Dispatcher W
      → Arrival
      → State L × Dispatcher W × (Response × Option Dispatched)
  unfolding serve run_task
  upload x o meanwhile s d a =
      let (s', (m, response)) = serve x d.cfg o s a in
      let (d', r) = run_task meanwhile m d in (s', d', (response, r))

  -- The project has pools, each of which is open and falls back.
  pub record IsServed (name : Bytes) (d : Dispatcher W) : Type 0 where
    pub m : List (Bytes × List (Pool W))
    pub ps : List (Pool W)
    pub has_pools : d.pools ≡ some m
    pub found : lookup name m ≡ some ps
    pub falls : All FallsBack ps

  -- The gateway has a WAL writer, and every project of the configuration is served.
  pub record IsServing (d : Dispatcher W) : Type 0 where
    pub has_wal : d.wal ≢ none
    pub served :
        (name : Bytes) (p : ProjectConfig) → get_project d.cfg name ≡ some p → IsServed name d
