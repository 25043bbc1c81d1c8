-- ===== src/Tests/Routes.antt =====
-- The theorems on the upload route, at a signed request.
use logateway.Prelude.{◌≡◌, refl, arith, Bool, true, false, none, some, [], ◌∷◌}
use logateway.Prelude.Int.{ℤ, pos}
use logateway.Prelude.Bytes.{codes, beq}
use logateway.Prelude.Maps.{lookup, put}
use logateway.Config.Types.{Config}
use logateway.Config.Defaults.{default_if_zero, apply_defaults}
use logateway.Config.Manager.{get_project}
use logateway.Wal.Name.{atoi}
use logateway.Auth.Window.{in_window}
use logateway.Auth.Nonce.{consume_nonce}
use logateway.Auth.Handler.{verify_hmac, static_key_store, handle}
use logateway.Message.{blank}
use logateway.RateLimit.{global_middleware, project_middleware}
use logateway.Server.Context.{Arrival, success, failure, authentication_required}
use logateway.Server.Route.{State, Surroundings, Services, serve}
use logateway.Server.Route.Accepted.{IsAccepted, serve-IsAccepted}
use logateway.Server.Route.Causes.{IsReported}
use logateway.Server.Route.Statuses.{serve-IsReported}
use logateway.Tests.Configs.{config}
use logateway.Tests.Limits.{Bucket, buckets}

-- the secret itself as a code, and a body that is the name of the project
abbrev pub services : Services Bucket ℤ
services = record {
  limits = buckets 1;
  mac = λ secret text. secret;
  peek = λ raw. some raw;
  unmarshal = λ raw. some (record { project = raw; router = []; data_bytes = raw });
  store = static_key_store ((codes "a", codes "k") ∷ []);
}

-- a project that requires authentication, which is on
abbrev cfg : Bool → Config
cfg enabled =
    let c = apply_defaults config in
    record c {
      auth = record c.auth { enabled = enabled };
      projects =
          record {
            name = codes "p";
            enabled = true;
            sinks = [];
            rate_limit = pos 5;
            max_body_bytes = pos 4;
            auth_required = true;
            pipelines = [];
          }
          ∷ [];
    }

abbrev pub arrival : Arrival
arrival = record {
  request_id = codes "r";
  trace_id = [];
  app_key = codes "a";
  timestamp = codes "1000";
  nonce = codes "n";
  signature = codes "6b";
  body = codes "p";
  readable = true;
}

abbrev pub around : Surroundings
around = record {
  global_at = 1;
  clock = 1000;
  nonce_at = 1000000000;
  project_at = 2;
  received_at = 3;
  fresh_id = codes "u";
  pooled = blank;
  accepted = true;
}

abbrev pub state : State Bucket
state = record { cache = []; limiters = record { project_rl = []; global_rl = (pos 5, pos 10, 1) } }

answers_ok : (serve services (cfg true) around state arrival).1.1 ≡ success (codes "r") (codes "r")
unfolding serve apply_defaults static_key_store handle atoi in_window verify_hmac consume_nonce
    get_project lookup put beq project_middleware global_middleware default_if_zero
answers_ok = refl

serve-IsAccepted_example :
    IsAccepted services
      (cfg true)
      around
      state
      arrival
      (codes "r")
      (codes "r")
      (serve services (cfg true) around state arrival).1.0
serve-IsAccepted_example =
    serve-IsAccepted services (cfg true) around state arrival (codes "r") (codes "r")
      (λ raw req h. ground arith) answers_ok

serve-IsReported_example :
    IsReported services
      (cfg true)
      around
      state
      arrival
      (serve services (cfg true) around state arrival).1
serve-IsReported_example = serve-IsReported services (cfg true) around state arrival

-- with authentication off, the project that requires it gets no request at all
locked_out :
    (serve services (cfg false) around state arrival).1
    ≡ (none, failure 401 authentication_required)
unfolding serve apply_defaults static_key_store handle get_project lookup put beq project_middleware
    global_middleware default_if_zero
locked_out = refl
