-- ===== src/Server/Route/Causes.antt =====
-- What each error of the upload route stands for.
use logateway.Prelude.{◌≢◌, ◌⊎◌, ℕ, ◌≡◌, true, false, Option, none, some, [], length}
use logateway.Prelude.Int.{ℤ, pos, ltb_ℤ}
use logateway.Prelude.Bytes.{Bytes}
use logateway.Config.Types.{ProjectConfig, Config}
use logateway.Config.Manager.{get_project}
use logateway.Auth.Handler.{
  Reason, no_body, missing_key, invalid_key, invalid_timestamp, out_of_window, missing_nonce,
  signature_mismatch, not_authorized, nonce_used, usable_secret, verify_hmac, project_allowed,
}
use logateway.Auth.Nonce.{consume_nonce}
use logateway.Auth.Window.{in_window}
use logateway.Wal.Name.{atoi}
use logateway.Config.Defaults.{default_if_not_positive}
use logateway.RateLimit.{global_middleware, project_middleware}
use logateway.Message.{Message}
use logateway.Server.Context
use logateway.Server.Context.{
  Arrival, Context, UploadRequest, Flow, next, abort, Response, success, failure, Problem,
}
use logateway.Server.Middleware.{read_limited, plus_one}
use logateway.Server.Upload.{over_limit}
use logateway.Server.Route.{State, Surroundings, Services}

-- the HTTP status of each error
abbrev pub auth_status : Reason → ℕ
auth_status no_body = 400
auth_status not_authorized = 403
auth_status _ = 401

abbrev pub status_of : Problem → ℕ
status_of (Context.over_global_rate) = 429
status_of (Context.over_project_rate) = 429
status_of (Context.body_too_large) = 413
status_of (Context.over_project_limit) = 413
status_of (Context.body_not_available) = 500
status_of (Context.unreadable_body) = 400
status_of (Context.project_required) = 400
status_of (Context.invalid_json) = 400
status_of (Context.unknown_project) = 404
status_of (Context.authentication_required) = 401
status_of (Context.server_busy) = 503
status_of (Context.auth_denied reason) = auth_status reason

module _ {L R : Type 0} (x : Services L R) (cfg : Config) (o : Surroundings) (s : State L)
    (a : Arrival) where
  -- what a refusal of the authentication stands for
  abbrev pub DenialCause : Reason → Type 0
  DenialCause no_body = ⊥
  DenialCause missing_key = a.app_key ≡ []
  DenialCause invalid_key = usable_secret x.store a.app_key ≡ none
  DenialCause invalid_timestamp = atoi a.timestamp ≡ none
  DenialCause out_of_window =
      (ts : ℤ) × (atoi a.timestamp ≡ some ts)
      × (in_window (pos o.clock) ts cfg.auth.timestamp_window ≡ false)
  DenialCause missing_nonce = a.nonce ≡ []
  DenialCause signature_mismatch =
      (secret : Bytes) × (usable_secret x.store a.app_key ≡ some secret)
      × (verify_hmac x.mac secret a.body a.timestamp a.nonce a.signature ≡ false)
  DenialCause not_authorized = project_allowed x.store x.peek a.app_key a.body ≡ false
  DenialCause nonce_used =
      (consume_nonce a.app_key a.nonce cfg.auth.nonce_ttl_seconds cfg.auth.nonce_cache_size
        o.nonce_at s.cache).0
      ≡ true

  -- the body names a project of the configuration
  abbrev pub Resolves : Bytes → ProjectConfig → Type 0
  Resolves name p = (x.peek a.body ≡ some name) × (get_project cfg name ≡ some p)

  -- What each error stands for. Two of them never come: the body is always cached.
  abbrev pub Cause : Problem → Type 0
  Cause (Context.over_global_rate) = (global_middleware x.limits o.global_at s.limiters).1 ≡ false
  Cause (Context.body_too_large) =
      let max_bytes = default_if_not_positive cfg.server.max_body_bytes 1048576 in
      (read_limited (plus_one max_bytes) a ≡ none)
      ⊎ (ltb_ℤ max_bytes (pos (length a.body)) ≡ true)
      ⊎ (ltb_ℤ cfg.server.max_body_bytes (pos (length a.body)) ≡ true)
  Cause (Context.body_not_available) = ⊥
  Cause (Context.unreadable_body) = ⊥
  Cause (Context.auth_denied reason) = (cfg.auth.enabled ≡ true) × DenialCause reason
  Cause (Context.project_required) = (x.peek a.body ≡ none) ⊎ (x.peek a.body ≡ some [])
  Cause (Context.unknown_project) =
      (name : Bytes) × (x.peek a.body ≡ some name) × ((name ≢ []) × (get_project cfg name ≡ none))
  Cause (Context.authentication_required) =
      (name : Bytes) × (p : ProjectConfig) × Resolves name p
      × ((p.auth_required ≡ true) × (cfg.auth.enabled ≡ false))
  Cause (Context.over_project_rate) =
      (name : Bytes) × (p : ProjectConfig) × Resolves name p
      × ((project_middleware x.limits (λ k. k) cfg (some p.name) o.project_at
            (global_middleware x.limits o.global_at s.limiters).0).1
          ≡ false)
  Cause (Context.invalid_json) = x.unmarshal a.body ≡ none
  Cause (Context.over_project_limit) =
      (req : UploadRequest) × (x.unmarshal a.body ≡ some req)
      × (over_limit (get_project cfg req.project) (length a.body) ≡ true)
  Cause (Context.server_busy) = o.accepted ≡ false

  -- An error has its status and its cause, and hands nothing over; a success hands a message over.
  abbrev pub IsReported : Option Message × Response → Type 0
  IsReported (m, failure code problem) = (code ≡ status_of problem) × Cause problem × (m ≡ none)
  IsReported (m, success rid tid) = (msg : Message) × (m ≡ some msg)

  -- the same of a middleware that ends a request
  abbrev pub HasCause : Flow → Type 0
  HasCause (next c) = Unit
  HasCause (abort code problem) = (code ≡ status_of problem) × Cause problem
