-- ===== src/Server/Middleware.antt =====
-- RequestIDMiddleware, BodyCacheMiddleware and ProjectResolutionMiddleware of
-- internal/server/middleware.go, and what the handler of internal/auth/auth.go sets. The first
-- goes on in every case. Those that log and count change nothing that the others read.
use logateway.Prelude.{zero, suc, ◌+◌, not, Option, none, some, [], ◌∷◌, length, if◌then◌else◌}
use logateway.Prelude.Int.{ℤ, pos, negsuc, ltb_ℤ}
use logateway.Prelude.Bytes.{Bytes}
use logateway.Config.Types.{Config}
use logateway.Config.Defaults.{default_if_empty, default_if_not_positive}
use logateway.Config.Manager.{get_project}
use logateway.Auth.Window.{wrap64}
use logateway.Auth.Handler.{Request, Verdict, skipped, authenticated, denied}
use logateway.Server.Context.{
  Arrival, Context, Flow, next, abort, body_too_large, unreadable_body, project_required,
  unknown_project, authentication_required, auth_denied,
}

-- RequestIDMiddleware, with the id that uuid.New would give
unfoldable pub request_id_middleware : Bytes → Context → Context
unfolding default_if_empty
request_id_middleware fresh c = record c {
  request_id = default_if_empty c.arrival.request_id fresh;
}

-- io.ReadAll of a body behind http.MaxBytesReader: a longer body is an error, and a limit below 0
-- counts as 0
unfoldable pub read_limited : ℤ → Arrival → Option Bytes
read_limited limit a = if not a.readable then none else elim limit [
  | pos n ↦ if ltb_ℤ (pos n) (pos (length a.body)) then none else some a.body
  | negsuc n ↦ if ltb_ℤ (pos 0) (pos (length a.body)) then none else some a.body
]

-- `maxBytes+1` in an int64
unfoldable pub plus_one : ℤ → ℤ
unfolding wrap64
plus_one (pos n) = wrap64 (pos (n + 1))
plus_one (negsuc zero) = pos 0
plus_one (negsuc (suc n)) = negsuc n

-- BodyCacheMiddleware
unfoldable pub body_cache : Config → Context → Flow
unfolding read_limited plus_one default_if_not_positive
body_cache cfg c =
    let max_bytes = default_if_not_positive cfg.server.max_body_bytes 1048576 in
    elim (read_limited (plus_one max_bytes) c.arrival) [
      | none ↦ abort 413 body_too_large
      | some raw ↦
          if ltb_ℤ max_bytes (pos (length raw))
          then abort 413 body_too_large
          else next (record c { raw_body = some raw })
    ]

-- what the handler of internal/auth reads of the request
unfoldable pub auth_request : Context → Request
auth_request c = record {
  app_key = c.arrival.app_key;
  timestamp = c.arrival.timestamp;
  nonce = c.arrival.nonce;
  signature = c.arrival.signature;
  body = c.raw_body;
}

-- c.Next() without and with c.Set("app_key", appKey), or writeAuthError and c.Abort()
unfoldable pub apply_verdict : Verdict → Context → Flow
apply_verdict skipped c = next c
apply_verdict (authenticated key) c = next (record c { app_key = some key })
apply_verdict (denied code reason) c = abort code (auth_denied reason)

-- the checks of ProjectResolutionMiddleware on the project that the body names
unfoldable pub resolve_project : Config → Bytes → Context → Flow
resolve_project cfg [] c = abort 400 project_required
resolve_project cfg (x ∷ name) c = elim (get_project cfg (x ∷ name)) [
  | none ↦ abort 404 unknown_project
  | some p ↦
      let found = next (record c { project_name = some p.name }) in
      if not p.auth_required
      then found
      else elim c.app_key [ none ↦ abort 401 authentication_required | some key ↦ found ]
]

-- `peek` is json.Unmarshal into a struct with the project alone
unfoldable pub resolve_body : (Bytes → Option Bytes) → Config → Bytes → Context → Flow
unfolding resolve_project
resolve_body peek cfg raw c = elim (peek raw) [
  | none ↦ abort 400 project_required
  | some name ↦ resolve_project cfg name c
]

-- ProjectResolutionMiddleware; without a cached body it reads the request itself
unfoldable pub project_resolution : (Bytes → Option Bytes) → Config → Context → Flow
unfolding resolve_body
project_resolution peek cfg c = elim c.raw_body [
  | some raw ↦ resolve_body peek cfg raw c
  | none ↦
      if c.arrival.readable
      then resolve_body peek cfg c.arrival.body (record c { raw_body = some c.arrival.body })
      else abort 400 unreadable_body
]
