-- ===== src/Server/Route/Accepted.antt =====
-- What a request has shown that the upload route answers with 200.
use mathlib.Core.Path.{subst}
use logateway.Prelude.{
  ◌≡◌, ◌≢◌, inl, inr, refl, sym, ap, ◌∙◌, true, false, Option, some, [], length, arith, Bool-cases,
}
use logateway.Prelude.Int.{pos, ltb_ℤ}
use logateway.Prelude.Bytes.{Bytes}
use logateway.Config.Types.{ProjectConfig, Config}
use logateway.Config.Defaults.{default_if_empty, default_if_not_positive}
use logateway.Config.Manager.{get_project}
use logateway.Auth.Nonce.{Cache, consume_nonce}
use logateway.Auth.Handler.{Request}
use logateway.Auth.Handler.Guarantees.{Passes}
use logateway.RateLimit.{global_middleware}
use logateway.Message.{Message}
use logateway.Server.Context.{Arrival, Context, UploadRequest, success}
use logateway.Server.Middleware.{request_id_middleware, body_cache, auth_request}
use logateway.Server.Upload.{over_limit, trace_id_of, fill_message}
use logateway.Server.Route.{State, Surroundings, Services, arrived, Outcome, authenticate, serve}
use logateway.Server.Route.Steps.{body_cache-next}
use logateway.Server.Route.Checks.{after-success, Checked, authenticate-Checked}

-- the headers of a request that are signed or sign it, with its body
abbrev pub signed_request : Arrival → Request
signed_request a = record {
  app_key = a.app_key;
  timestamp = a.timestamp;
  nonce = a.nonce;
  signature = a.signature;
  body = some a.body;
}

module _ {L R : Type 0} (x : Services L R) (cfg : Config) (o : Surroundings) where
  -- The facts that a request with the answer 200 has shown, and the message that it hands over.
  pub record IsAccepted (s : State L) (a : Arrival) (rid tid : Bytes) (m : Option Message)
      : Type 0 where
    pub req : UploadRequest
    pub project : ProjectConfig
    pub readable : a.readable ≡ true
    pub within_cache :
        ltb_ℤ (default_if_not_positive cfg.server.max_body_bytes 1048576) (pos (length a.body))
        ≡ false
    pub within_server : ltb_ℤ cfg.server.max_body_bytes (pos (length a.body)) ≡ false
    pub parsed : x.unmarshal a.body ≡ some req
    pub found : get_project cfg req.project ≡ some project
    pub is_named : req.project ≢ []
    pub within_project : over_limit (some project) (length a.body) ≡ false
    pub required : project.auth_required ≡ true → cfg.auth.enabled ≡ true
    pub signed :
        cfg.auth.enabled ≡ true
        → Passes x.mac x.peek x.store cfg.auth (signed_request a) a.body o.clock
          × ((consume_nonce a.app_key a.nonce cfg.auth.nonce_ttl_seconds cfg.auth.nonce_cache_size
                o.nonce_at s.cache).0
              ≡ false)
    pub granted : (global_middleware x.limits o.global_at s.limiters).1 ≡ true
    pub taken : o.accepted ≡ true
    pub the_id : rid ≡ default_if_empty a.request_id o.fresh_id
    pub the_trace : tid ≡ default_if_empty a.trace_id rid
    pub handed :
        m
        ≡ some (record o.pooled {
          request_id = rid;
          trace_id = tid;
          project = req.project;
          router = req.router;
          data_bytes = req.data_bytes;
          timestamp = o.received_at;
          env = cfg.server.env;
        })

  -- the context behind the body cache
  abbrev cached : Arrival → Context
  cached a = record (request_id_middleware o.fresh_id (arrived a)) { raw_body = some a.body }

  IsAccepted-of :
      (s s' : State L) (a : Arrival) (rid tid : Bytes) (m : Option Message)
      → s'.cache ≡ s.cache
      → ((raw : Bytes) (req : UploadRequest)
          → x.unmarshal raw ≡ some req
          → x.peek raw ≡ some req.project)
      → (global_middleware x.limits o.global_at s.limiters).1 ≡ true
      → a.readable ≡ true
      → ltb_ℤ (default_if_not_positive cfg.server.max_body_bytes 1048576) (pos (length a.body))
        ≡ false
      → Checked x cfg o s' (cached a) a.body rid tid m
      → IsAccepted s a rid tid m
  unfolding request_id_middleware fill_message trace_id_of auth_request
  IsAccepted-of s s' a rid tid m same_cache agree granted readable within k =
      let (req, parsed, rest) = k.uploaded in
      let (fits, taken, handed, id, trace) = rest in
      let named : k.name ≡ req.project = ground (arith, agree a.body req parsed, k.seen) in
      let found : get_project cfg req.project ≡ some k.project =
        subst (λ n. get_project cfg n ≡ some k.project) named k.found in
      let trace' : tid ≡ default_if_empty a.trace_id rid =
        trace
        ∙ ap (λ (y : Arrival). default_if_empty y.trace_id k.last.request_id) k.same_arrival
        ∙ ap (λ (y : Bytes). default_if_empty a.trace_id y) (sym id) in
      record {
        req = req;
        project = k.project;
        readable = readable;
        within_cache = within;
        within_server = k.small;
        parsed = parsed;
        found = found;
        is_named = λ e. k.is_named (named ∙ e);
        within_project =
            subst (λ (q : Option ProjectConfig). over_limit q (length a.body) ≡ false) found fits;
        required = k.required;
        signed = λ on. (
          (k.signed on).0,
          ap
                (λ (y : Cache).
                  (consume_nonce a.app_key a.nonce cfg.auth.nonce_ttl_seconds
                    cfg.auth.nonce_cache_size o.nonce_at y).0)
                (sym same_cache)
              ∙ (k.signed on).1,
        );
        granted = granted;
        taken = taken;
        the_id = id ∙ k.same_id;
        the_trace = trace';
        handed = handed ∙ (λ i. some (record o.pooled {
          request_id = sym id i;
          trace_id = sym trace i;
          project = req.project;
          router = req.router;
          data_bytes = req.data_bytes;
          timestamp = o.received_at;
          env = cfg.server.env;
        }));
      }

  -- A request that the upload route answers with 200 had a body that could be read and is within
  -- the limits of the gateway, those of the body cache and of UploadHandler, and of its project;
  -- the body decodes, and names a project that is configured and enabled; with authentication
  -- on, its own headers and body passed every check of the key, the timestamp, the nonce, the
  -- signature and the project, and the nonce was unused; with
  -- authentication off, its project does not require it; the gateway's limiter let it pass, and
  -- the goroutine pool took its task. The request id is that of the header, or a new one, the
  -- trace id that of the header, or the request id; and the message that is handed over has
  -- these, the request's project, router and data, the clock's time and the configured
  -- environment. The two decodings of the body read the same project.
  pub serve-IsAccepted :
      (s : State L) (a : Arrival) (rid tid : Bytes)
      → ((raw : Bytes) (req : UploadRequest)
          → x.unmarshal raw ≡ some req
          → x.peek raw ≡ some req.project)
      → (serve x cfg o s a).1.1 ≡ success rid tid
      → IsAccepted s a rid tid (serve x cfg o s a).1.0
  unfolding serve request_id_middleware
  serve-IsAccepted s a rid tid agree h =
      let r = global_middleware x.limits o.global_at s.limiters in
      let s' : State L = record s { limiters = r.0 } in
      let c = request_id_middleware o.fresh_id (arrived a) in
      elim (Bool-cases r.1) [
        | inr over ↦ absurd (ground (arith, over))
        | inl granted ↦
            let (c₁, passed, h₁, e₁) =
              after-success x cfg o (body_cache cfg c) s' (authenticate x cfg o s') rid tid
                (ground (arith, granted)) in
            let (readable, within, same) = body_cache-next cfg c c₁ passed in
            rw (granted, serve)
              (subst (IsAccepted s a rid tid) (sym (ap (λ (q : Outcome L). q.1.0) e₁)) (
                subst (λ (k : Context). IsAccepted s a rid tid (authenticate x cfg o s' k).1.0)
                  (sym same)
                  (IsAccepted-of s s' a rid tid _ refl agree granted readable within (
                    authenticate-Checked x cfg o s' (cached a) a.body rid tid refl refl (
                      subst (λ (k : Context). (authenticate x cfg o s' k).1.1 ≡ success rid tid)
                        same h₁)))))
      ]
