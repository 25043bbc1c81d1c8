-- ===== src/Auth/Handler.antt =====
-- The handler of internal/auth/auth.go, in the order of its checks, with verifyHMAC,
-- authorizeProject and the static key store of internal/server/server.go.
pub mod Guarantees
use logateway.Prelude.{
  ℕ, zero, suc, ◌+◌, ◌-◌, ◌*◌, ◌/◌, Bool, true, false, not, ◌&&◌, ◌||◌, Option, none, some, List,
  [], ◌∷◌, ◌++◌, leb, ltb, ◌==◌, if◌then◌else◌,
}
use logateway.Prelude.Int.{ℤ, pos}
use logateway.Prelude.Bytes.{Bytes, codes, beq}
use logateway.Prelude.Maps.{lookup}
use logateway.Config.Types.{AuthConfig}
use logateway.Wal.Name.{atoi}
use logateway.Auth.Window.{in_window}
use logateway.Auth.Nonce.{Cache, is_nil, consume_nonce}

-- AppKeyStore: `none` is an error, "" an unknown key
pub record AppKeyStore : Type 0 where
  pub get_secret : Bytes → Option Bytes
  pub is_authorized : Bytes → Bytes → Option Bool

-- What the handler reads of the request: its headers, and the raw body if there is one.
pub record Request : Type 0 where
  pub app_key : Bytes
  pub timestamp : Bytes
  pub nonce : Bytes
  pub signature : Bytes
  pub body : Option Bytes

-- The messages of writeAuthError.
pub data Reason : Type 0 where
  no_body missing_key invalid_key invalid_timestamp out_of_window missing_nonce : Reason
  signature_mismatch not_authorized nonce_used : Reason

-- c.Next() without and with the app key, or an error with its HTTP status
pub data Verdict : Type 0 where
  skipped : Verdict
  authenticated : Bytes → Verdict
  denied : ℕ → Reason → Verdict

hex_digit : ℕ → Option ℕ
hex_digit c =
    if leb b'0' c && leb c b'9'
    then some (c - b'0')
    else if leb b'a' c && leb c b'f'
    then some (c - b'a' + 10)
    else if leb b'A' c && leb c b'F'
    then some (c - b'A' + 10)
    else none

hex_pair : Option ℕ → Option ℕ → Option ℕ
hex_pair none y = none
hex_pair (some x) none = none
hex_pair (some x) (some y) = some (x * 16 + y)

push : Option ℕ → Option Bytes → Option Bytes
push none s = none
push (some b) none = none
push (some b) (some s) = some (b ∷ s)

-- hex.DecodeString
unfoldable pub hex_decode : Bytes → Option Bytes
unfolding hex_digit hex_pair push
hex_decode [] = some []
hex_decode (c ∷ []) = none
hex_decode (c ∷ c' ∷ s) = push (hex_pair (hex_digit c) (hex_digit c')) (hex_decode s)

-- HMAC-SHA256 of a secret and a text, which crypto/hmac and crypto/sha256 compute
abbrev pub Mac : Type 0
Mac = Bytes → Bytes → Bytes

-- verifyHMAC
unfoldable pub verify_hmac : Mac → Bytes → Bytes → Bytes → Bytes → Bytes → Bool
unfolding is_nil hex_decode
verify_hmac mac secret body timestamp nonce signature =
    if is_nil signature then false else elim (hex_decode signature) [
      | none ↦ false
      | some got ↦ beq (mac secret (body ++ (timestamp ++ nonce))) got
    ]

-- authorizeProject: `true` is a nil error
unfoldable pub authorize_project : AppKeyStore → Bytes → Bytes → Bool
authorize_project store app_key project = elim (store.is_authorized app_key project) [
  | none ↦ false
  | some yes_no ↦ yes_no
]

-- the secret that the handler goes on with: no error, and not ""
unfoldable pub usable_secret : AppKeyStore → Bytes → Option Bytes
unfolding is_nil
usable_secret store app_key = elim (store.get_secret app_key) [
  | none ↦ none
  | some secret ↦ if is_nil secret then none else some secret
]

-- `peek.Project` where it decodes and is not "": then the app key must be authorized for it
unfoldable pub project_allowed : AppKeyStore → (Bytes → Option Bytes) → Bytes → Bytes → Bool
unfolding authorize_project is_nil
project_allowed store peek app_key body = elim (peek body) [
  | none ↦ true
  | some project ↦ if is_nil project then true else authorize_project store app_key project
]

module _ (mac : Mac) (peek : Bytes → Option Bytes) (store : AppKeyStore) (cfg : AuthConfig) where
  -- the last check: consumeNonce, at the time `now` in nanoseconds
  unfoldable pub check_nonce : Request → ℕ → Cache → Verdict × Cache
  check_nonce r now cache =
      let (used, cache') =
        consume_nonce r.app_key r.nonce cfg.nonce_ttl_seconds cfg.nonce_cache_size now cache in
      (if used then denied 401 nonce_used else authenticated r.app_key, cache')

  -- the checks that come before it; `none` lets the request through. `clock` is
  -- time.Now().Unix().
  unfoldable pub check_request : Request → Bytes → ℕ → Option (ℕ × Reason)
  unfolding usable_secret project_allowed
  check_request r body clock =
      if is_nil r.app_key then some (401, missing_key) else elim (usable_secret store r.app_key) [
        | none ↦ some (401, invalid_key)
        | some secret ↦ elim (atoi r.timestamp) [
          | none ↦ some (401, invalid_timestamp)
          | some ts ↦
              if not (in_window (pos clock) ts cfg.timestamp_window)
              then some (401, out_of_window)
              else if is_nil r.nonce
              then some (401, missing_nonce)
              else if not (verify_hmac mac secret body r.timestamp r.nonce r.signature)
              then some (401, signature_mismatch)
              else if not (project_allowed store peek r.app_key body)
              then some (403, not_authorized)
              else none
        ]
      ]

  -- Handler, with the readings of the clock by the window check and by consumeNonce
  unfoldable pub handle : Request → ℕ → ℕ → Cache → Verdict × Cache
  unfolding check_request check_nonce
  handle r clock now cache = if not cfg.enabled then (skipped, cache) else elim r.body [
    | none ↦ (denied 400 no_body, cache)
    | some body ↦ elim (check_request r body clock) [
      | some (code, reason) ↦ (denied code reason, cache)
      | none ↦ check_nonce r now cache
    ]
  ]

-- staticKeyStore
unfoldable pub static_key_store : List (Bytes × Bytes) → AppKeyStore
unfolding lookup
static_key_store keys = record {
  get_secret = λ app_key. elim (lookup app_key keys) [ none ↦ some [] | some secret ↦ some secret ];
  is_authorized = λ app_key project. some true;
}
