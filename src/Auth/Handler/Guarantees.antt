-- ===== src/Auth/Handler/Guarantees.antt =====
-- What an authenticated request has shown, and what becomes of the same request sent again.
use logateway.Prelude.{
  ℕ, ◌≡◌, ◌≢◌, true, false, Option, none, some, arith, if◌then◌else◌, Option-cases, inl, inr, ◌++◌,
}
use logateway.Prelude.Int.{ℤ, pos}
use logateway.Prelude.Bytes.{Bytes, beq→≡}
use logateway.Config.Types.{AuthConfig}
use logateway.Wal.Name.{atoi}
use logateway.Auth.Window.{in_window}
use logateway.Auth.Nonce.{Cache, is_nil, positive_or, expired, consume_nonce}
use logateway.Auth.Nonce.Laws.{consume_nonce_twice}
use logateway.Auth.Handler.{
  AppKeyStore, Request, nonce_used, skipped, authenticated, denied, hex_decode, Mac, verify_hmac,
  usable_secret, project_allowed, check_nonce, check_request, handle,
}

module _ (mac : Mac) (peek : Bytes → Option Bytes) (store : AppKeyStore) (cfg : AuthConfig) where
  -- The facts that the checks before the nonce establish.
  pub record Passes (r : Request) (body : Bytes) (clock : ℕ) : Type 0 where
    pub secret : Bytes
    pub stamp : ℤ
    pub has_key : is_nil r.app_key ≡ false
    pub known : usable_secret store r.app_key ≡ some secret
    pub parsed : atoi r.timestamp ≡ some stamp
    pub recent : in_window (pos clock) stamp cfg.timestamp_window ≡ true
    pub has_nonce : is_nil r.nonce ≡ false
    pub signed : hex_decode r.signature ≡ some (mac secret (body ++ (r.timestamp ++ r.nonce)))
    pub allowed : project_allowed store peek r.app_key body ≡ true

  verify_hmac_sound :
      (secret body timestamp nonce signature : Bytes)
      → verify_hmac mac secret body timestamp nonce signature ≡ true
      → hex_decode signature ≡ some (mac secret (body ++ (timestamp ++ nonce)))
  unfolding verify_hmac
  verify_hmac_sound secret body timestamp nonce signature h =
      elim (Option-cases (hex_decode signature)) [
        | inl bad ↦ absurd (ground (arith, bad))
        | inr (got, decoded) ↦
            ground (arith, decoded, beq→≡ (mac secret (body ++ (timestamp ++ nonce))) got)
      ]

  check_request-Passes :
      (r : Request) (body : Bytes) (clock : ℕ)
      → check_request mac peek store cfg r body clock ≡ none
      → Passes r body clock
  unfolding check_request
  check_request-Passes r body clock h = elim (Option-cases (usable_secret store r.app_key)) [
    | inl unknown ↦ absurd (ground (arith, unknown))
    | inr (key, known) ↦ elim (Option-cases (atoi r.timestamp)) [
      | inl bad ↦ absurd (ground (arith, known, bad))
      | inr (ts, parsed) ↦ record {
        secret = key;
        stamp = ts;
        has_key = ground arith;
        known = known;
        parsed = parsed;
        recent = ground arith;
        has_nonce = ground arith;
        signed = verify_hmac_sound key body r.timestamp r.nonce r.signature (ground arith);
        allowed = ground arith;
      }
    ]
  ]

  -- With authentication enabled a request is passed on with an app key only if it has a body, a
  -- known app key, a timestamp in the window, a nonce not used before, and a signature that is
  -- the HMAC of body, timestamp and nonce under the key's secret, and the key is authorized for
  -- the project that the body names.
  pub handle_sound :
      (r : Request) (clock now : ℕ) (cache cache' : Cache) (key : Bytes)
      → handle mac peek store cfg r clock now cache ≡ (authenticated key, cache')
      → (body : Bytes) × (r.body ≡ some body)
        × (key ≡ r.app_key)
        × Passes r body clock
        × ((consume_nonce r.app_key r.nonce cfg.nonce_ttl_seconds cfg.nonce_cache_size now cache).0
            ≡ false)
  unfolding handle check_nonce
  handle_sound r clock now cache cache' key h = elim (Option-cases r.body) [
    | inl missing ↦ absurd (ground (arith, missing))
    | inr (body, here) ↦ elim (Option-cases (check_request mac peek store cfg r body clock)) [
      | inl clear ↦ (
        body,
        here,
        ground (arith, clear),
        check_request-Passes r body clock clear,
        ground (arith, clear),
      )
      | inr (v, stopped) ↦ absurd (ground (arith, stopped))
    ]
  ]

  -- Only where authentication is off is a request passed on without a key, and only where it is
  -- on with one.
  pub handle-enabled :
      (r : Request) (clock now : ℕ) (cache : Cache)
      → let v = (handle mac peek store cfg r clock now cache).0 in
        (v ≡ skipped → cfg.enabled ≡ false)
        × ((key : Bytes) → v ≡ authenticated key → cfg.enabled ≡ true)
  unfolding handle check_nonce
  handle-enabled r clock now cache = (λ h. ground arith, λ key h. ground arith)

  -- A request that is not authenticated with an app key, and is not denied for a used nonce,
  -- leaves the nonce cache as it was.
  handle_cache :
      (r : Request) (clock now : ℕ) (cache : Cache)
      → ((key : Bytes) → (handle mac peek store cfg r clock now cache).0 ≢ authenticated key)
      → (handle mac peek store cfg r clock now cache).0 ≢ denied 401 nonce_used
      → (handle mac peek store cfg r clock now cache).1 ≡ cache
  unfolding handle check_nonce
  handle_cache r clock now cache no_key fresh = ground (arith, no_key r.app_key)

  -- A request that was authenticated once and is sent again right after it, when it still passes
  -- the checks before the nonce, is authenticated again exactly if the nonce has expired, and is
  -- otherwise denied for its nonce.
  pub handle_twice :
      (r : Request) (body : Bytes) (clock clock' now now' : ℕ) (cache : Cache)
      → r.body ≡ some body
      → (handle mac peek store cfg r clock now cache).0 ≡ authenticated r.app_key
      → check_request mac peek store cfg r body clock' ≡ none
      → (handle mac peek store cfg r clock' now' (handle mac peek store cfg r clock now cache).1).0
        ≡ (if expired (positive_or cfg.nonce_ttl_seconds 300) now' now
            then authenticated r.app_key
            else denied 401 nonce_used)
  unfolding handle check_nonce
  handle_twice r body clock clock' now now' cache here first again =
      elim (Option-cases (check_request mac peek store cfg r body clock)) [
        | inl clear ↦ ground (
          arith,
          clear,
          consume_nonce_twice r.app_key r.nonce cfg.nonce_ttl_seconds cfg.nonce_cache_size now now'
              cache,
        )
        | inr (v, stopped) ↦ absurd (ground (arith, stopped))
      ]
