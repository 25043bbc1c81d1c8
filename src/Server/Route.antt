-- ===== src/Server/Route.antt =====
-- The upload route that buildRouter of internal/server/server.go sets up: the middlewares in their
-- order, each going on or ending the request. Requests run one at a time here, each under one
-- configuration; gin itself, with its recovery from panics, is a parameter that no step uses.
pub mod Steps
pub mod Checks
pub mod Accepted
pub mod Causes
pub mod Refusals
pub mod Statuses
use logateway.Prelude.{ℕ, Bool, true, false, Option, none, some, [], if◌then◌else◌}
use logateway.Prelude.Bytes.{Bytes}
use logateway.Config.Types.{Config}
use logateway.Auth.Nonce.{Cache}
use logateway.Auth.Handler.{AppKeyStore, Mac, handle}
use logateway.RateLimit
use logateway.RateLimit.{Limiters, Manager, global_middleware, project_middleware}
use logateway.Message.{Message}
use logateway.Server.Context.{
  Arrival, Context, UploadRequest, Flow, next, abort, Response, failure, over_global_rate,
  over_project_rate,
}
use logateway.Server.Middleware.{
  request_id_middleware, body_cache, auth_request, apply_verdict, project_resolution,
}
use logateway.Server.Upload.{upload_handler}

-- what the middlewares of the route keep between requests
pub record State (L : Type 0) : Type 0 where
  pub cache : Cache
  pub limiters : Manager L

-- What one request draws from its surroundings: the readings of the clock in the order of the
-- calls, the id that uuid.New gives, the message that comes from the pool, and whether the
-- goroutine pool takes the task.
pub record Surroundings : Type 0 where
  pub global_at : ℕ
  pub clock : ℕ
  pub nonce_at : ℕ
  pub project_at : ℕ
  pub received_at : ℕ
  pub fresh_id : Bytes
  pub pooled : Message
  pub accepted : Bool

-- The functions that the route is given, of encoding/json, crypto/hmac, golang.org/x/time/rate and
-- the key store.
pub record Services (L R : Type 0) : Type 0 where
  pub limits : Limiters L R
  pub mac : Mac
  pub peek : Bytes → Option Bytes
  pub unmarshal : Bytes → Option UploadRequest
  pub store : AppKeyStore

-- the context of a new request
abbrev pub arrived : Arrival → Context
arrived a = record {
  arrival = a;
  request_id = [];
  raw_body = none;
  app_key = none;
  project_name = none;
}

-- the outcome of a request: the state, the message that is handed over, and the response
abbrev pub Outcome : Type 0 → Type 0
Outcome L = State L × (Option Message × Response)

module _ {L R : Type 0} (x : Services L R) (cfg : Config) (o : Surroundings) where
  -- go on, or end the request
  unfoldable pub after : Flow → State L → (Context → Outcome L) → Outcome L
  after (next c) s go = go c
  after (abort code problem) s go = (s, (none, failure code problem))

  -- rlMgr.ProjectMiddleware and UploadHandler
  unfoldable pub limit_and_upload : State L → Context → Outcome L
  unfolding upload_handler
  limit_and_upload s c =
      let (m, ok) =
        project_middleware x.limits (λ k. k) cfg c.project_name o.project_at s.limiters in
      let s' = record s { limiters = m } in
      if ok
      then (s', upload_handler x.unmarshal cfg o.pooled o.received_at o.accepted c)
      else (s', (none, failure 429 over_project_rate))

  -- authMiddleware and ProjectResolutionMiddleware, and the rest
  unfoldable pub authenticate : State L → Context → Outcome L
  unfolding after limit_and_upload apply_verdict project_resolution auth_request
  authenticate s c =
      let (v, cache) =
        handle x.mac x.peek x.store cfg.auth (auth_request c) o.clock o.nonce_at s.cache in
      let s' = record s { cache = cache } in
      after (apply_verdict v c) s'
        (λ c'. after (project_resolution x.peek cfg c') s' (limit_and_upload s'))

  -- the route
  unfoldable pub serve : State L → Arrival → Outcome L
  unfolding after authenticate request_id_middleware body_cache
  serve s a =
      let c = request_id_middleware o.fresh_id (arrived a) in
      let (m, ok) = global_middleware x.limits o.global_at s.limiters in
      let s' = record s { limiters = m } in
      if ok
      then after (body_cache cfg c) s' (authenticate s')
      else (s', (none, failure 429 over_global_rate))
