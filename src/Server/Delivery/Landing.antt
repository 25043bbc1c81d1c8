-- ===== src/Server/Delivery/Landing.antt =====
-- What becomes of the message of a request that the upload route answers with 200.
use logateway.Prelude.{◌≡◌, ◌≢◌, ◌⊎◌, Bool, true, false, some, List, []}
use logateway.Prelude.Bytes.{Bytes}
use logateway.Prelude.Maps.{lookup}
use logateway.Config.Manager.{get_project}
use logateway.Message.{Message}
use logateway.Pipeline.Processors
use logateway.Pipeline.Processors.{Json}
use logateway.Sink.Pool.{Pool}
use logateway.Dispatch.{Dispatcher, Dispatched, ok, run_pipeline}
use logateway.Dispatch.Fallback.{Lands}

module _ {W : Type 0} (write_message : Message → W → W × Bool) (json : Json)
    (works : (msg : Message) (w : W) → (write_message msg w).1 ≡ true) where
  -- The message lands in every pool of its project, after the project's pipeline; or it comes to
  -- no pool, and the dispatcher is as it was: the project has no pool, or its pipeline failed or
  -- panicked on the message.
  pub record IsHandled (msg : Message) (d d' : Dispatcher W) (r : Dispatched) : Type 0 where
    pub m : List (Bytes × List (Pool W))
    pub ps : List (Pool W)
    pub has_pools : d.pools ≡ some m
    pub found : lookup msg.project m ≡ some ps
    pub fate :
        let piped = run_pipeline json false (get_project d.cfg msg.project) msg in
        ((ps ≡ []) ⊎ (piped ≡ Processors.failed) ⊎ (piped ≡ Processors.panicked))
          × (d' ≡ d)
          × (r ≢ ok)
        ⊎ ((msg' : Message) × (piped ≡ Processors.done msg')
            × ((r ≡ ok) × Lands write_message msg.project msg' ps d d'))
