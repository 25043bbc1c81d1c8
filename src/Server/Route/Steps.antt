-- ===== src/Server/Route/Steps.antt =====
-- What each step of the upload route has checked when it goes on.
use logateway.Prelude.{
  ℕ, [], ◌∷◌, ◌≡◌, ◌≢◌, ◌⊎◌, inl, inr, refl, Bool, true, false, Option, none, some, length, arith,
  Option-cases, Bool-cases,
}
use logateway.Prelude.Int.{pos, ltb_ℤ}
use logateway.Prelude.Bytes.{Bytes}
use logateway.Config.Types.{ProjectConfig, Config}
use logateway.Config.Defaults.{default_if_not_positive}
use logateway.Config.Manager.{get_project}
use logateway.Auth.Handler.{Verdict, skipped, authenticated, denied}
use logateway.Message.{Message}
use logateway.Server.Context.{Context, UploadRequest, Flow, next, abort, success, Problem}
use logateway.Server.Middleware.{
  read_limited, body_cache, apply_verdict, resolve_project, resolve_body, project_resolution,
}
use logateway.Server.Upload.{over_limit, trace_id_of, fill_message, upload_body, upload_handler}

Flow-cases :
    (f : Flow)
    → ((c : Context) × (f ≡ next c)) ⊎ ((code : ℕ) × (problem : Problem) × (f ≡ abort code problem))
Flow-cases (next c) = inl (c, refl)
Flow-cases (abort code problem) = inr (code, problem, refl)

-- What UploadHandler has checked when it answers with 200.
abbrev pub Uploaded :
    (Bytes → Option UploadRequest)
    → Config
    → Message
    → ℕ
    → Bool
    → Bytes
    → Context
    → Option Message
    → Bytes
    → Bytes
    → Type 0
Uploaded unmarshal cfg pooled now accepted raw c m rid tid =
    (req : UploadRequest) × (unmarshal raw ≡ some req)
    × ((over_limit (get_project cfg req.project) (length raw) ≡ false)
        × (accepted ≡ true)
        × (m ≡ some (fill_message pooled cfg req now c))
        × (rid ≡ c.request_id)
        × (tid ≡ trace_id_of c))

upload_body-success :
    (unmarshal : Bytes → Option UploadRequest) (cfg : Config) (pooled : Message) (now : ℕ)
    (accepted : Bool) (raw : Bytes) (c : Context) (rid tid : Bytes)
    → let r = upload_body unmarshal cfg pooled now accepted raw c in
      r.1 ≡ success rid tid → Uploaded unmarshal cfg pooled now accepted raw c r.0 rid tid
unfolding upload_body
upload_body-success unmarshal cfg pooled now accepted raw c rid tid h =
    elim (Option-cases (unmarshal raw)) [
      | inl bad ↦ absurd (ground (arith, bad))
      | inr (req, parsed) ↦ (req, parsed, ground (arith, parsed))
    ]

pub upload_handler-success :
    (unmarshal : Bytes → Option UploadRequest) (cfg : Config) (pooled : Message) (now : ℕ)
    (accepted : Bool) (raw : Bytes) (c : Context) (rid tid : Bytes)
    → c.raw_body ≡ some raw
    → let r = upload_handler unmarshal cfg pooled now accepted c in
      r.1 ≡ success rid tid
      → (ltb_ℤ cfg.server.max_body_bytes (pos (length raw)) ≡ false)
        × Uploaded unmarshal cfg pooled now accepted raw c r.0 rid tid
unfolding upload_handler
upload_handler-success unmarshal cfg pooled now accepted raw c rid tid here h =
    elim (Bool-cases (ltb_ℤ cfg.server.max_body_bytes (pos (length raw)))) [
      | inl large ↦ absurd (ground (arith, here, large))
      | inr small ↦
          rw (here, upload_handler)
            (rw (small, upload_handler)
              (
                refl,
                upload_body-success unmarshal cfg pooled now accepted raw c rid tid
                    (ground (arith, here, small)),
              ))
    ]

pub body_cache-next :
    (cfg : Config) (c c' : Context)
    → body_cache cfg c ≡ next c'
    → (c.arrival.readable ≡ true)
      × (ltb_ℤ
            (default_if_not_positive cfg.server.max_body_bytes 1048576)
            (pos (length c.arrival.body))
          ≡ false)
      × (c' ≡ record c { raw_body = some c.arrival.body })
unfolding body_cache read_limited
body_cache-next cfg c c' h = ground arith

pub resolve_project-next :
    (cfg : Config) (name : Bytes) (c c' : Context)
    → resolve_project cfg name c ≡ next c'
    → (p : ProjectConfig) × (get_project cfg name ≡ some p)
      × ((p.auth_required ≡ true → c.app_key ≢ none)
          × (c' ≡ record c { project_name = some p.name })
          × (name ≢ []))
unfolding resolve_project
resolve_project-next cfg [] c c' h = absurd (ground arith)
resolve_project-next cfg (b ∷ name) c c' h = elim (Option-cases (get_project cfg (b ∷ name))) [
  | inl unknown ↦ absurd (ground (arith, unknown))
  | inr (p, found) ↦
      let (keyed, same) : (p.auth_required ≡ true → c.app_key ≢ none)
          × (c' ≡ record c { project_name = some p.name }) =
        ground (arith, found) in
      (p, found, (keyed, same, λ e. ground arith))
]

-- the same on the cached body; `peek` and `unmarshal` read the same project
pub project_resolution-next :
    (peek : Bytes → Option Bytes) (cfg : Config) (raw : Bytes) (c c' : Context)
    → c.raw_body ≡ some raw
    → project_resolution peek cfg c ≡ next c'
    → (name : Bytes) × (peek raw ≡ some name) × (resolve_project cfg name c ≡ next c')
unfolding project_resolution resolve_body
project_resolution-next peek cfg raw c c' here h = elim (Option-cases (peek raw)) [
  | inl bad ↦ absurd (ground (arith, here, bad))
  | inr (name, seen) ↦ (name, seen, ground (arith, here, seen))
]

pub apply_verdict-next :
    (v : Verdict) (c c' : Context)
    → apply_verdict v c ≡ next c'
    → (v ≡ skipped) × (c' ≡ c)
      ⊎ (key : Bytes) × (v ≡ authenticated key) × (c' ≡ record c { app_key = some key })
unfolding apply_verdict
apply_verdict-next skipped c c' h = ground arith
apply_verdict-next (authenticated key) c c' h = inr (key, refl, ground arith)
apply_verdict-next (denied code reason) c c' h = absurd (ground arith)
