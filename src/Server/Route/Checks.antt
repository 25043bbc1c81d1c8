-- ===== src/Server/Route/Checks.antt =====
-- What the middlewares of the upload route between body cache and upload have checked together.
use mathlib.Core.Path.{subst}
use logateway.Prelude.{
  [], ◌≡◌, ◌≢◌, inl, inr, refl, sym, ap, ◌∙◌, true, false, Option, none, some, length, arith,
  Bool-cases,
}
use logateway.Prelude.Int.{pos, ltb_ℤ}
use logateway.Prelude.Bytes.{Bytes}
use logateway.Config.Types.{ProjectConfig, Config}
use logateway.Config.Manager.{get_project}
use logateway.Auth.Nonce.{consume_nonce}
use logateway.Auth.Handler.{authenticated, handle}
use logateway.Auth.Handler.Guarantees.{Passes, handle_sound, handle-enabled}
use logateway.RateLimit.{project_middleware}
use logateway.Message.{Message}
use logateway.Server.Context.{Context, Flow, next, abort, success}
use logateway.Server.Middleware.{auth_request, apply_verdict, project_resolution}
use logateway.Server.Upload.{upload_handler}
use logateway.Server.Route.{
  State, Surroundings, Services, Outcome, after, limit_and_upload, authenticate,
}
use logateway.Server.Route.Steps.{
  Uploaded, upload_handler-success, resolve_project-next, project_resolution-next,
  apply_verdict-next,
}

module _ {L R : Type 0} (x : Services L R) (cfg : Config) (o : Surroundings) where
  pub after-success :
      (f : Flow) (s : State L) (go : Context → Outcome L) (rid tid : Bytes)
      → (after x cfg o f s go).1.1 ≡ success rid tid
      → (c : Context) × (f ≡ next c)
        × ((go c).1.1 ≡ success rid tid)
        × (after x cfg o f s go ≡ go c)
  unfolding after
  after-success (next c) s go rid tid h = (c, refl, h, refl)
  after-success (abort code problem) s go rid tid h = absurd (ground arith)

  limit_and_upload-success :
      (s : State L) (c : Context) (raw rid tid : Bytes)
      → c.raw_body ≡ some raw
      → (limit_and_upload x cfg o s c).1.1 ≡ success rid tid
      → ((project_middleware x.limits (λ k. k) cfg c.project_name o.project_at s.limiters).1 ≡ true)
        × (ltb_ℤ cfg.server.max_body_bytes (pos (length raw)) ≡ false)
        × Uploaded x.unmarshal cfg o.pooled o.received_at o.accepted raw c
            (limit_and_upload x cfg o s c).1.0
            rid
            tid
  unfolding limit_and_upload upload_handler
  limit_and_upload-success s c raw rid tid here h =
      let r = project_middleware x.limits (λ k. k) cfg c.project_name o.project_at s.limiters in
      elim (Bool-cases r.1) [
        | inr over ↦ absurd (ground (arith, over))
        | inl allowed ↦
            let up =
              upload_handler-success x.unmarshal cfg o.pooled o.received_at o.accepted raw c rid tid
                here (ground (arith, allowed)) in
            rw (allowed, limit_and_upload) (refl, up.0, up.1)
      ]

  -- The checks of the middlewares between the body cache and the upload, on the body `raw`.
  pub record Checked (s : State L) (c : Context) (raw rid tid : Bytes) (m : Option Message)
      : Type 0 where
    pub name : Bytes
    pub project : ProjectConfig
    pub last : Context
    pub seen : x.peek raw ≡ some name
    pub found : get_project cfg name ≡ some project
    pub is_named : name ≢ []
    pub required : project.auth_required ≡ true → cfg.auth.enabled ≡ true
    pub signed :
        cfg.auth.enabled ≡ true
        → Passes x.mac x.peek x.store cfg.auth (auth_request c) raw o.clock
          × ((consume_nonce c.arrival.app_key c.arrival.nonce cfg.auth.nonce_ttl_seconds
                cfg.auth.nonce_cache_size o.nonce_at s.cache).0
              ≡ false)
    pub same_id : last.request_id ≡ c.request_id
    pub same_arrival : last.arrival ≡ c.arrival
    pub small : ltb_ℤ cfg.server.max_body_bytes (pos (length raw)) ≡ false
    pub uploaded : Uploaded x.unmarshal cfg o.pooled o.received_at o.accepted raw last m rid tid

  handle-signed :
      (s : State L) (c : Context) (raw key : Bytes)
      → c.raw_body ≡ some raw
      → (handle x.mac x.peek x.store cfg.auth (auth_request c) o.clock o.nonce_at s.cache).0
        ≡ authenticated key
      → Passes x.mac x.peek x.store cfg.auth (auth_request c) raw o.clock
        × ((consume_nonce c.arrival.app_key c.arrival.nonce cfg.auth.nonce_ttl_seconds
              cfg.auth.nonce_cache_size o.nonce_at s.cache).0
            ≡ false)
  unfolding auth_request
  handle-signed s c raw key here h =
      let r = handle x.mac x.peek x.store cfg.auth (auth_request c) o.clock o.nonce_at s.cache in
      let (body, there, same, passed, unused) =
        handle_sound x.mac x.peek x.store cfg.auth (auth_request c) o.clock o.nonce_at s.cache r.1
          key (λ i. (h i, r.1)) in
      let same_body : body ≡ raw = cc (there, here) in
      (
        subst (λ b. Passes x.mac x.peek x.store cfg.auth (auth_request c) b o.clock) same_body
            passed,
        unused,
      )

  -- the context that goes on from the handler of internal/auth
  after_auth :
      (s : State L) (c c₁ : Context) (raw : Bytes)
      → c.raw_body ≡ some raw
      → c.app_key ≡ none
      → apply_verdict
          (handle x.mac x.peek x.store cfg.auth (auth_request c) o.clock o.nonce_at s.cache).0
          c
        ≡ next c₁
      → (c₁.raw_body ≡ some raw)
        × (c₁.request_id ≡ c.request_id)
        × (c₁.arrival ≡ c.arrival)
        × (c₁.app_key ≢ none → cfg.auth.enabled ≡ true)
        × (cfg.auth.enabled ≡ true
            → Passes x.mac x.peek x.store cfg.auth (auth_request c) raw o.clock
              × ((consume_nonce c.arrival.app_key c.arrival.nonce cfg.auth.nonce_ttl_seconds
                    cfg.auth.nonce_cache_size o.nonce_at s.cache).0
                  ≡ false))
  after_auth s c c₁ raw here no_key h =
      let v =
        (handle x.mac x.peek x.store cfg.auth (auth_request c) o.clock o.nonce_at s.cache).0 in
      let enabled =
        handle-enabled x.mac x.peek x.store cfg.auth (auth_request c) o.clock o.nonce_at s.cache in
      elim (apply_verdict-next v c c₁ h) [
        | inl (off, same) ↦ (
          ap (λ (k : Context). k.raw_body) same ∙ here,
          ap (λ (k : Context). k.request_id) same,
          ap (λ (k : Context). k.arrival) same,
          λ key. absurd (key (ap (λ (k : Context). k.app_key) same ∙ no_key)),
          λ on. absurd (cc (on, enabled.0 off)),
        )
        | inr (key, on, same) ↦ (
          ap (λ (k : Context). k.raw_body) same ∙ here,
          ap (λ (k : Context). k.request_id) same,
          ap (λ (k : Context). k.arrival) same,
          λ has. enabled.1 key on,
          λ e. handle-signed s c raw key here on,
        )
      ]

  -- from the resolution of the project on
  resolved :
      (s : State L) (c c' : Context) (raw rid tid : Bytes)
      → c.raw_body ≡ some raw
      → project_resolution x.peek cfg c ≡ next c'
      → (limit_and_upload x cfg o s c').1.1 ≡ success rid tid
      → (name : Bytes) × (p : ProjectConfig) × (x.peek raw ≡ some name)
        × ((get_project cfg name ≡ some p)
            × (p.auth_required ≡ true → c.app_key ≢ none)
            × (c'.request_id ≡ c.request_id)
            × (c'.arrival ≡ c.arrival)
            × (ltb_ℤ cfg.server.max_body_bytes (pos (length raw)) ≡ false)
            × (name ≢ [])
            × Uploaded x.unmarshal cfg o.pooled o.received_at o.accepted raw c'
                (limit_and_upload x cfg o s c').1.0
                rid
                tid)
  resolved s c c' raw rid tid here h done =
      let (name, seen, resolving) = project_resolution-next x.peek cfg raw c c' here h in
      let (p, found, rest) = resolve_project-next cfg name c c' resolving in
      let kept : c'.raw_body ≡ some raw = ap (λ (k : Context). k.raw_body) rest.1 ∙ here in
      let up = limit_and_upload-success s c' raw rid tid kept done in
      (
        name,
        p,
        seen,
        (
          found,
          rest.0,
          ap (λ (k : Context). k.request_id) rest.1,
          ap (λ (k : Context). k.arrival) rest.1,
          up.1,
          rest.2,
          up.2,
        ),
      )

  pub authenticate-Checked :
      (s : State L) (c : Context) (raw rid tid : Bytes)
      → c.raw_body ≡ some raw
      → c.app_key ≡ none
      → (authenticate x cfg o s c).1.1 ≡ success rid tid
      → Checked s c raw rid tid (authenticate x cfg o s c).1.0
  unfolding authenticate
  authenticate-Checked s c raw rid tid here no_key h =
      let r = handle x.mac x.peek x.store cfg.auth (auth_request c) o.clock o.nonce_at s.cache in
      let s' : State L = record s { cache = r.1 } in
      let (c₁, passed, h₁, e₁) =
        after-success (apply_verdict r.0 c) s'
          (λ c'. after x cfg o (project_resolution x.peek cfg c') s' (limit_and_upload x cfg o s'))
          rid tid h in
      let (c₂, found, h₂, e₂) =
        after-success (project_resolution x.peek cfg c₁) s' (limit_and_upload x cfg o s') rid tid
          h₁ in
      let (here₁, id₁, arrival₁, keyed, signed) = after_auth s c c₁ raw here no_key passed in
      let (name, p, seen, rest) = resolved s' c₁ c₂ raw rid tid here₁ found h₂ in
      record {
        name = name;
        project = p;
        last = c₂;
        seen = seen;
        found = rest.0;
        is_named = rest.5;
        required = λ need. keyed (rest.1 need);
        signed = signed;
        same_id = rest.2 ∙ id₁;
        same_arrival = rest.3 ∙ arrival₁;
        small = rest.4;
        uploaded =
            subst (λ m. Uploaded x.unmarshal cfg o.pooled o.received_at o.accepted raw c₂ m rid tid)
              (sym (ap (λ (q : Outcome L). q.1.0) (e₁ ∙ e₂))) rest.6;
      }
