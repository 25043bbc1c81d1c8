-- ===== src/Server/Route/Refusals.antt =====
-- That the middlewares of the upload route end a request with the cause of their error.
use mathlib.Core.Path.{subst}
use logateway.Prelude.{
  sym, ap, ◌∙◌, ℕ, ◌≡◌, inl, inr, refl, true, false, none, some, [], ◌∷◌, length, arith,
  Option-cases, Bool-cases,
}
use logateway.Prelude.Int.{ℤ, pos, negsuc, ltb_ℤ}
use logateway.Prelude.Bytes.{Bytes}
use logateway.Config.Types.{Config}
use logateway.Config.Manager.{get_project}
use logateway.Auth.Handler.{
  Reason, missing_key, invalid_key, invalid_timestamp, out_of_window, missing_nonce,
  signature_mismatch, not_authorized, nonce_used, usable_secret, verify_hmac, project_allowed,
  Verdict, skipped, authenticated, denied, check_request, check_nonce, handle,
}
use logateway.Auth.Nonce.{is_nil, consume_nonce}
use logateway.Auth.Window.{in_window}
use logateway.Wal.Name.{atoi}
use logateway.Config.Defaults.{default_if_not_positive}
use logateway.Server.Route.Accepted.{signed_request}
use logateway.Server.Context.{Arrival, Context}
use logateway.Server.Middleware.{
  request_id_middleware, body_cache, read_limited, plus_one, auth_request, apply_verdict,
  resolve_project, resolve_body, project_resolution,
}
use logateway.Server.Route.{State, Surroundings, Services, arrived}
use logateway.Server.Route.Causes.{auth_status, DenialCause, HasCause}

module _ {L R : Type 0} (x : Services L R) (cfg : Config) (o : Surroundings) (s : State L)
    (a : Arrival) where
  read_limited_body : (n : ℤ) (raw : Bytes) → read_limited n a ≡ some raw → raw ≡ a.body
  unfolding read_limited
  read_limited_body (pos n) raw h = ground arith
  read_limited_body (negsuc n) raw h = ground arith

  -- the context before and behind the body cache
  abbrev pub first : Context
  first = request_id_middleware o.fresh_id (arrived a)

  abbrev pub cached : Context
  cached = record first { raw_body = some a.body }

  pub body_cache-HasCause : HasCause x cfg o s a (body_cache cfg first)
  unfolding body_cache request_id_middleware
  body_cache-HasCause =
      let max_bytes = default_if_not_positive cfg.server.max_body_bytes 1048576 in
      elim (Option-cases (read_limited (plus_one max_bytes) a)) [
        | inl short ↦ rw (short, body_cache) (refl, inl short)
        | inr (raw, got) ↦ elim (Bool-cases (ltb_ℤ max_bytes (pos (length raw)))) [
          | inr fits ↦ rw (got, body_cache) (rw (fits, body_cache) tt)
          | inl over ↦
              rw (got, body_cache)
                (rw (over, body_cache)
                  (
                    refl,
                    inr (
                        inl (
                          subst (λ b. ltb_ℤ max_bytes (pos (length b)) ≡ true)
                            (read_limited_body (plus_one max_bytes) raw got) over)),
                  ))
        ]
      ]

  abbrev Denies : ℕ × Reason → Type 0
  Denies (code, reason) = (code ≡ auth_status reason) × DenialCause x cfg o s a reason

  moved : (d d' : ℕ × Reason) → d ≡ d' → Denies d → Denies d'
  moved d d' same h = subst Denies same h

  is_nil_sound : (b : Bytes) → is_nil b ≡ true → b ≡ []
  unfolding is_nil
  is_nil_sound [] h = refl
  is_nil_sound (c ∷ b) h = absurd (ground arith)

  -- the checks behind that of the timestamp's text
  after_stamp :
      (key : Bytes) (ts : ℤ) (code : ℕ) (reason : Reason)
      → is_nil a.app_key ≡ false
      → usable_secret x.store a.app_key ≡ some key
      → atoi a.timestamp ≡ some ts
      → check_request x.mac x.peek x.store cfg.auth (signed_request a) a.body o.clock
        ≡ some (code, reason)
      → Denies (code, reason)
  unfolding check_request
  after_stamp key ts code reason keyed known parsed h =
      elim (Bool-cases (in_window (pos o.clock) ts cfg.auth.timestamp_window)) [
        | inr late ↦
            moved (401, out_of_window) (code, reason) (ground (arith, keyed, known, parsed, late))
              (refl, (ts, parsed, late))
        | inl timely ↦ elim (Bool-cases (is_nil a.nonce)) [
          | inl bare ↦
              moved (401, missing_nonce) (code, reason)
                (ground (arith, keyed, known, parsed, timely, bare))
                (refl, is_nil_sound a.nonce bare)
          | inr given ↦
              elim (Bool-cases (verify_hmac x.mac key a.body a.timestamp a.nonce a.signature)) [
                | inr forged ↦
                    moved (401, signature_mismatch) (code, reason)
                      (ground (arith, keyed, known, parsed, timely, given, forged))
                      (refl, (key, known, forged))
                | inl genuine ↦
                    elim (Bool-cases (project_allowed x.store x.peek a.app_key a.body)) [
                      | inr barred ↦
                          moved (403, not_authorized) (code, reason)
                            (ground (arith, keyed, known, parsed, timely, given, genuine, barred))
                            (refl, barred)
                      | inl allowed ↦
                          absurd
                            (ground (arith, keyed, known, parsed, timely, given, genuine, allowed))
                    ]
              ]
        ]
      ]

  check_request-DenialCause :
      (code : ℕ) (reason : Reason)
      → check_request x.mac x.peek x.store cfg.auth (signed_request a) a.body o.clock
        ≡ some (code, reason)
      → (code ≡ auth_status reason) × DenialCause x cfg o s a reason
  unfolding check_request
  check_request-DenialCause code reason h = elim (Bool-cases (is_nil a.app_key)) [
    | inl keyless ↦
        moved (401, missing_key) (code, reason) (ground (arith, keyless))
          (refl, is_nil_sound a.app_key keyless)
    | inr keyed ↦ elim (Option-cases (usable_secret x.store a.app_key)) [
      | inl unknown ↦
          moved (401, invalid_key) (code, reason) (ground (arith, keyed, unknown)) (refl, unknown)
      | inr (key, known) ↦ elim (Option-cases (atoi a.timestamp)) [
        | inl bad ↦
            moved (401, invalid_timestamp) (code, reason) (ground (arith, keyed, known, bad))
              (refl, bad)
        | inr (ts, parsed) ↦ after_stamp key ts code reason keyed known parsed h
      ]
    ]
  ]

  handle-DenialCause :
      (code : ℕ) (reason : Reason)
      → (handle x.mac x.peek x.store cfg.auth (signed_request a) o.clock o.nonce_at s.cache).0
        ≡ denied code reason
      → (code ≡ auth_status reason) × (cfg.auth.enabled ≡ true) × DenialCause x cfg o s a reason
  unfolding handle check_nonce
  handle-DenialCause code reason h = elim (Bool-cases cfg.auth.enabled) [
    | inr off ↦ absurd (ground (arith, off))
    | inl on ↦
        elim (Option-cases
          (check_request x.mac x.peek x.store cfg.auth (signed_request a) a.body o.clock)) [
            | inr ((code', reason'), stopped) ↦
                let same : (code' ≡ code) × (reason' ≡ reason) = ground (arith, on, stopped) in
                let r = check_request-DenialCause code' reason' stopped in
                (
                  sym same.0 ∙ r.0 ∙ ap auth_status same.1,
                  on,
                  subst (DenialCause x cfg o s a) same.1 r.1,
                )
            | inl clear ↦
                let used =
                  (consume_nonce a.app_key a.nonce cfg.auth.nonce_ttl_seconds
                    cfg.auth.nonce_cache_size o.nonce_at s.cache).0 in
                elim (Bool-cases used) [
                  | inr fresh ↦ absurd (ground (arith, on, clear, fresh))
                  | inl seen ↦
                      let same : (401 ≡ code) × (nonce_used ≡ reason) =
                        ground (arith, on, clear, seen) in
                      (
                        sym same.0 ∙ ap auth_status same.1,
                        on,
                        subst (DenialCause x cfg o s a) same.1 seen,
                      )
                ]
          ]
  ]

  pub apply_verdict-HasCause : HasCause x cfg o s a (
      apply_verdict
        (handle x.mac x.peek x.store cfg.auth (auth_request cached) o.clock o.nonce_at s.cache).0
        cached)
  unfolding apply_verdict auth_request request_id_middleware
  apply_verdict-HasCause =
      go (handle x.mac x.peek x.store cfg.auth (signed_request a) o.clock o.nonce_at s.cache).0 refl
    where
      go :
          (v : Verdict)
          → (handle x.mac x.peek x.store cfg.auth (signed_request a) o.clock o.nonce_at s.cache).0
            ≡ v
          → HasCause x cfg o s a (apply_verdict v cached)
      go skipped e = tt
      go (authenticated key) e = tt
      go (denied code reason) e = let r = handle-DenialCause code reason e in (r.0, (r.1, r.2))

  resolve_project-HasCause :
      (name : Bytes) (c : Context)
      → x.peek a.body ≡ some name
      → (c.app_key ≡ none → cfg.auth.enabled ≡ false)
      → HasCause x cfg o s a (resolve_project cfg name c)
  unfolding resolve_project
  resolve_project-HasCause [] c named off = (refl, inr named)
  resolve_project-HasCause (b ∷ name) c named off =
      elim (Option-cases (get_project cfg (b ∷ name))) [
        | inl unknown ↦
            rw (unknown, resolve_project) (refl, (b ∷ name, named, ((λ e. ground arith), unknown)))
        | inr (p, found) ↦ elim (Bool-cases p.auth_required) [
          | inr free ↦ rw (found, resolve_project) (rw (free, resolve_project) tt)
          | inl required ↦ elim (Option-cases c.app_key) [
            | inr (key, keyed) ↦
                rw (found, resolve_project)
                  (rw (required, resolve_project) (rw (keyed, resolve_project) tt))
            | inl keyless ↦
                rw (found, resolve_project)
                  (rw (required, resolve_project)
                    (rw (keyless, resolve_project)
                      (refl, (b ∷ name, p, (named, found), (required, off keyless)))))
          ]
        ]
      ]

  pub project_resolution-HasCause :
      (c : Context)
      → c.raw_body ≡ some a.body
      → (c.app_key ≡ none → cfg.auth.enabled ≡ false)
      → HasCause x cfg o s a (project_resolution x.peek cfg c)
  unfolding project_resolution resolve_body
  project_resolution-HasCause c here off = elim (Option-cases (x.peek a.body)) [
    | inl bad ↦ rw (here, project_resolution) (rw (bad, resolve_body) (refl, inl bad))
    | inr (name, seen) ↦
        rw (here, project_resolution)
          (rw (seen, resolve_body) (resolve_project-HasCause name c seen off))
  ]
