-- ===== src/Server/Route/Statuses.antt =====
-- The errors of the upload route.
use mathlib.Core.Path.{subst}
use logateway.Prelude.{
  ◌≡◌, ◌∙◌, inl, inr, refl, sym, ap, false, none, some, length, arith, Option-cases, Bool-cases,
}
use logateway.Prelude.Int.{pos, ltb_ℤ}
use logateway.Prelude.Bytes.{Bytes}
use logateway.Config.Types.{ProjectConfig, Config}
use logateway.Config.Manager.{get_project}
use logateway.Auth.Handler.{handle}
use logateway.Auth.Handler.Guarantees.{handle-enabled}
use logateway.RateLimit.{global_middleware, project_middleware}
use logateway.Server.Context.{Arrival, Context, Flow, next, abort, failure, server_busy}
use logateway.Server.Middleware.{body_cache, auth_request, apply_verdict, project_resolution}
use logateway.Server.Upload.{over_limit, upload_body, upload_handler}
use logateway.Server.Route.{
  State, Surroundings, Services, Outcome, after, limit_and_upload, authenticate, serve,
}
use logateway.Server.Route.Steps.{
  body_cache-next, apply_verdict-next, project_resolution-next, resolve_project-next,
}
use logateway.Server.Route.Causes.{Resolves, IsReported, HasCause}
use logateway.Server.Route.Refusals.{
  first, cached, body_cache-HasCause, apply_verdict-HasCause, project_resolution-HasCause,
}

module _ {L R : Type 0} (x : Services L R) (cfg : Config) (o : Surroundings) (s : State L)
    (a : Arrival) where
  upload_body-IsReported :
      (c : Context)
      → IsReported x cfg o s a
          (upload_body x.unmarshal cfg o.pooled o.received_at o.accepted a.body c)
  unfolding upload_body
  upload_body-IsReported c = elim (Option-cases (x.unmarshal a.body)) [
    | inl bad ↦ rw (bad, upload_body) (refl, bad, refl)
    | inr (req, parsed) ↦
        elim (Bool-cases (over_limit (get_project cfg req.project) (length a.body))) [
          | inl large ↦
              rw (parsed, upload_body) (rw (large, upload_body) (refl, (req, parsed, large), refl))
          | inr fits ↦ elim (Bool-cases o.accepted) [
            | inl taken ↦
                rw (parsed, upload_body)
                  (rw (fits, upload_body) (rw (taken, upload_body) (_, refl)))
            | inr busy ↦
                let e : upload_body x.unmarshal cfg o.pooled o.received_at o.accepted a.body c
                    ≡ (none, failure 503 server_busy) =
                  ground (arith, parsed, fits, busy) in
                subst (IsReported x cfg o s a) (sym e) (refl, busy, refl)
          ]
        ]
  ]

  upload_handler-IsReported :
      (c : Context)
      → c.raw_body ≡ some a.body
      → IsReported x cfg o s a (upload_handler x.unmarshal cfg o.pooled o.received_at o.accepted c)
  unfolding upload_handler
  upload_handler-IsReported c here =
      elim (Bool-cases (ltb_ℤ cfg.server.max_body_bytes (pos (length a.body)))) [
        | inl large ↦
            rw (here, upload_handler) (rw (large, upload_handler) (refl, inr (inr large), refl))
        | inr small ↦
            rw (here, upload_handler) (rw (small, upload_handler) (upload_body-IsReported c))
      ]

  after-IsReported :
      (f : Flow) (t : State L) (go : Context → Outcome L)
      → HasCause x cfg o s a f
      → ((c : Context) → f ≡ next c → IsReported x cfg o s a (go c).1)
      → IsReported x cfg o s a (after x cfg o f t go).1
  unfolding after
  after-IsReported (next c) t go h rest = rest c refl
  after-IsReported (abort code problem) t go h rest = (h.0, h.1, refl)

  limit_and_upload-IsReported :
      (t : State L) (c : Context) (name : Bytes) (p : ProjectConfig)
      → t.limiters ≡ (global_middleware x.limits o.global_at s.limiters).0
      → c.raw_body ≡ some a.body
      → Resolves x cfg o s a name p
      → c.project_name ≡ some p.name
      → IsReported x cfg o s a (limit_and_upload x cfg o t c).1
  unfolding limit_and_upload
  limit_and_upload-IsReported t c name p same here found named =
      elim (Bool-cases
        (project_middleware x.limits (λ k. k) cfg c.project_name o.project_at t.limiters).1) [
          | inl allowed ↦ rw (allowed, limit_and_upload) (upload_handler-IsReported c here)
          | inr over ↦
              let over' : (project_middleware x.limits (λ k. k) cfg (some p.name) o.project_at
                    (global_middleware x.limits o.global_at s.limiters).0).1
                  ≡ false =
                ap
                  (λ n.
                    (project_middleware x.limits (λ k. k) cfg n o.project_at
                      (global_middleware x.limits o.global_at s.limiters).0).1)
                  (sym named)
                ∙ ap
                    (λ m.
                      (project_middleware x.limits (λ k. k) cfg c.project_name o.project_at m).1)
                    (sym same)
                ∙ over in
              rw (over, limit_and_upload) (refl, (name, p, found, over'), refl)
        ]

  -- from the resolution of the project on
  resolved-IsReported :
      (t : State L) (c : Context)
      → t.limiters ≡ (global_middleware x.limits o.global_at s.limiters).0
      → c.raw_body ≡ some a.body
      → (c.app_key ≡ none → cfg.auth.enabled ≡ false)
      → IsReported x cfg o s a
          (after x cfg o (project_resolution x.peek cfg c) t (limit_and_upload x cfg o t)).1
  resolved-IsReported t c same here off =
      after-IsReported (project_resolution x.peek cfg c) t (limit_and_upload x cfg o t)
        (project_resolution-HasCause x cfg o s a c here off)
        (λ c' went.
          (let (name, seen, resolving) = project_resolution-next x.peek cfg a.body c c' here went in
            let (p, found, rest) = resolve_project-next cfg name c c' resolving in
            limit_and_upload-IsReported t c' name p same
              (ap (λ (k : Context). k.raw_body) rest.1 ∙ here) (seen, found)
              (ap (λ (k : Context). k.project_name) rest.1)))

  authenticate-IsReported :
      (t : State L)
      → t.limiters ≡ (global_middleware x.limits o.global_at s.limiters).0
      → t.cache ≡ s.cache
      → IsReported x cfg o s a (authenticate x cfg o t (cached x cfg o s a)).1
  unfolding authenticate
  authenticate-IsReported t same same_cache =
      let c = cached x cfg o s a in
      let r = handle x.mac x.peek x.store cfg.auth (auth_request c) o.clock o.nonce_at t.cache in
      let enabled =
        handle-enabled x.mac x.peek x.store cfg.auth (auth_request c) o.clock o.nonce_at t.cache in
      let t' : State L = record t { cache = r.1 } in
      after-IsReported (apply_verdict r.0 c) t'
        (λ c'. after x cfg o (project_resolution x.peek cfg c') t' (limit_and_upload x cfg o t'))
        (subst
          (λ k. HasCause x cfg o s a (
            apply_verdict
              (handle x.mac x.peek x.store cfg.auth (auth_request c) o.clock o.nonce_at k).0 c))
          (sym same_cache) (apply_verdict-HasCause x cfg o s a))
        (λ c' went. elim (apply_verdict-next r.0 c c' went) [
          | inl (skips, kept) ↦
              resolved-IsReported t' c' same (ap (λ (k : Context). k.raw_body) kept)
                (λ keyless. enabled.0 skips)
          | inr (key, known, kept) ↦
              resolved-IsReported t' c' same (ap (λ (k : Context). k.raw_body) kept)
                (λ keyless. absurd (ground (arith, keyless, ap (λ (k : Context). k.app_key) kept)))
        ])

  -- Whatever the request, the configuration and the state: the upload route either answers with
  -- 200 and hands a message over, or hands nothing over and answers with an error that has its
  -- status and its cause: 429 where the limiter of the gateway or that of the request's project
  -- refuses; 413 where the body cannot be read within the limit, is longer than the gateway's
  -- limit, or than that of its project; 401 where authentication is on and the key, the timestamp,
  -- the nonce or the signature fails its check, and where the project requires authentication
  -- and it is off; 403 where the key is not authorized for the project; 400 where the body names
  -- no project or does not decode; 404 where it names one that is not configured; 503 where the
  -- goroutine pool refuses the task.
  pub serve-IsReported : IsReported x cfg o s a (serve x cfg o s a).1
  unfolding serve
  serve-IsReported =
      let r = global_middleware x.limits o.global_at s.limiters in
      let t : State L = record s { limiters = r.0 } in
      elim (Bool-cases r.1) [
        | inr over ↦ rw (over, serve) (refl, over, refl)
        | inl granted ↦
            rw (granted, serve)
              (after-IsReported (body_cache cfg (first x cfg o s a)) t (authenticate x cfg o t)
                (body_cache-HasCause x cfg o s a)
                (λ c went.
                  subst (λ k. IsReported x cfg o s a (authenticate x cfg o t k).1)
                    (sym (body_cache-next cfg (first x cfg o s a) c went).2)
                    (authenticate-IsReported t refl refl)))
      ]
