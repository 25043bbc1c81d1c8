-- ===== src/RateLimit/Reload.antt =====
-- What a reload of the configuration does to the limiter of the gateway.
use mathlib.Core.Path.{subst}
use logateway.Prelude.{
  ℕ, ◌≡◌, refl, sym, ap, ◌∙◌, true, false, Option, none, some, List, [], ◌∷◌, ◌++◌, All, arith,
}
use logateway.Prelude.Int.{ℤ}
use logateway.Prelude.Bytes.{Bytes}
use logateway.Config.Types.{Config}
use logateway.Config.Defaults.{apply_defaults, default_if_not_positive, server_defaults}
use logateway.Config.Reload
use logateway.Config.Reload.{Callback, run_callbacks, read_config, load}
use logateway.RateLimit.{
  Limiters, IsLimiters, Manager, normalize_qps, update_global_limiter, set_rate,
}
use logateway.RateLimit.Limits.{HasRate, set_rate-HasRate, normalize_qps_idem}

-- a rate limit that applyDefaults has gone over is positive, and normalizeQPS keeps it
default-normalized :
    (q : ℤ) → normalize_qps (default_if_not_positive q 20000) ≡ default_if_not_positive q 20000
unfolding normalize_qps default_if_not_positive
default-normalized q = ground arith

-- the callback that NewManager of internal/ratelimit registers
unfoldable pub limit_callback : {L R : Type 0} → Limiters L R → ℕ → Callback (Manager L)
unfolding update_global_limiter
limit_callback x now cfg m = (update_global_limiter x now cfg.server.global_rate_limit m, true)

module _ {L R : Type 0} (x : Limiters L R) (laws : IsLimiters x) where
  -- The callback leaves the limiter of the gateway alone.
  abbrev pub IsOther : Callback (Manager L) → Type 0
  IsOther fn = (cfg : Config) (m : Manager L) → (fn cfg m).0.global_rl ≡ m.global_rl

  run_callbacks-append :
      (cfg : Config) (fns gns : List (Callback (Manager L))) (m : Manager L)
      → run_callbacks cfg (fns ++ gns) m ≡ run_callbacks cfg gns (run_callbacks cfg fns m)
  unfolding run_callbacks
  run_callbacks-append cfg [] gns m = refl
  run_callbacks-append cfg (fn ∷ fns) gns m = run_callbacks-append cfg fns gns (fn cfg m).0

  run_callbacks-others :
      (cfg : Config) (fns : List (Callback (Manager L))) (m : Manager L)
      → All IsOther fns
      → (run_callbacks cfg fns m).global_rl ≡ m.global_rl
  unfolding run_callbacks
  run_callbacks-others cfg [] m h = refl
  run_callbacks-others cfg (fn ∷ fns) m h =
      run_callbacks-others cfg fns (fn cfg m).0 h.1 ∙ h.0 cfg m

  -- after all callbacks the limiter has the configured rate
  run_callbacks-HasRate :
      (cfg : Config) (before after : List (Callback (Manager L))) (now : ℕ) (m : Manager L)
      → All IsOther after
      → normalize_qps cfg.server.global_rate_limit ≡ cfg.server.global_rate_limit
      → HasRate x cfg.server.global_rate_limit
          (run_callbacks cfg (before ++ limit_callback x now ∷ after) m).global_rl
  unfolding limit_callback update_global_limiter run_callbacks
  run_callbacks-HasRate cfg before after now m others normal =
      let q = cfg.server.global_rate_limit in
      let m₁ = run_callbacks cfg before m in
      let m₂ = update_global_limiter x now q m₁ in
      let at_end : (run_callbacks cfg (before ++ limit_callback x now ∷ after) m).global_rl
          ≡ set_rate x now (normalize_qps q) m₁.global_rl =
        ap (λ (w : Manager L). w.global_rl)
          (run_callbacks-append cfg before (limit_callback x now ∷ after) m)
        ∙ run_callbacks-others cfg after m₂ others in
      subst (HasRate x q) (sym at_end) (
        subst (λ r. HasRate x r (set_rate x now (normalize_qps q) m₁.global_rl)) normal
          (set_rate-HasRate x laws now (normalize_qps q) m₁.global_rl (normalize_qps_idem q)))

  -- A load or reload that fails, because the file cannot be read or decoded, changes neither the
  -- configuration nor any limiter. One that succeeds makes the decoded configuration, with its
  -- defaults, the current one, and sets the gateway's limiter to exactly the rate limit that is
  -- configured there, with bursts of twice as many, whether or not callbacks before it panic.
  -- Of the callbacks registered after it none touches that limiter.
  pub load-global-rate :
      (file : Option Bytes) (unmarshal : Bytes → Option Config) (k : Reload.Manager (Manager L))
      (before after : List (Callback (Manager L))) (now : ℕ) (m : Manager L)
      → k.callbacks ≡ before ++ limit_callback x now ∷ after
      → All IsOther after
      → let r = load file unmarshal k m in
        (read_config file unmarshal ≡ none → r ≡ (k, m, false))
        × ((decoded : Config)
            → read_config file unmarshal ≡ some decoded
            → (r.0.current ≡ some (apply_defaults decoded))
              × HasRate x (apply_defaults decoded).server.global_rate_limit r.1.global_rl
              × (r.2 ≡ true))
  unfolding load apply_defaults server_defaults
  load-global-rate file unmarshal k before after now m registered others = (
    λ failed. rw (failed, load) refl,
    λ decoded found.
        let cfg = apply_defaults decoded in
        rw (found, load)
          (
            refl,
            rw registered (
                run_callbacks-HasRate cfg before after now m others
                  (default-normalized decoded.server.global_rate_limit)),
            refl,
          ),
  )
