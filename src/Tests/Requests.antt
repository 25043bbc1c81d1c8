-- ===== src/Tests/Requests.antt =====
-- The theorems on authentication and the configuration.
use logateway.Prelude.{
  ℕ, ◌+◌, ◌^◌, ◌≤◌, ◌≡◌, ◌≢◌, ◌↔◌, ◌⊎◌, ◌*◌, ◌-◌, refl, arith, true, false, Option, none, some, [],
  ◌∷◌, ◌++◌, if◌then◌else◌,
}
use logateway.Prelude.Int.{pos, negsuc, pos_part, neg_part}
use logateway.Prelude.Bytes.{Bytes, codes, beq}
use logateway.Prelude.Maps.{lookup, put}
use logateway.Wal.Name.{atoi}
use logateway.Config.Types.{AuthConfig}
use logateway.Auth.Window.{in_window, in_window_iff}
use logateway.Auth.Nonce.{positive_or, expired, is_nil, consume_nonce}
use logateway.Auth.Nonce.Laws.{Call, consume_all, replay_refused}
use logateway.Auth.Nonce.Room.{IsBounded, consume_nonce-IsBounded}
use logateway.Auth.Handler.{
  AppKeyStore, Request, nonce_used, signature_mismatch, authenticated, denied, Mac, verify_hmac,
  check_request, handle, static_key_store,
}
use logateway.Auth.Handler.Guarantees.{Passes, handle_sound, handle_twice}

-- a code that is the secret itself
abbrev mac : Mac
mac secret text = secret

abbrev peek : Bytes → Option Bytes
peek body = some body

abbrev store : AppKeyStore
store = static_key_store ((codes "a", codes "k") ∷ [])

abbrev auth : AuthConfig
auth = record {
  enabled = true;
  timestamp_window = pos 300;
  nonce_ttl_seconds = pos 300;
  nonce_cache_size = pos 2;
}

-- "6b" is the hexadecimal form of "k"
abbrev request : Request
request = record {
  app_key = codes "a";
  timestamp = codes "1000";
  nonce = codes "n";
  signature = codes "6b";
  body = some (codes "p");
}

abbrev forged : Request
forged = record request { signature = codes "6c" }

abbrev second_ns : ℕ
second_ns = 1000000000

passes :
    handle mac peek store auth request 1000 second_ns []
    ≡ (authenticated (codes "a"), (codes "a" ++ 0 ∷ codes "n", second_ns) ∷ [])
unfolding handle static_key_store beq atoi in_window verify_hmac consume_nonce put
passes = refl

handle_sound_example :
    (body : Bytes) × (request.body ≡ some body)
    × (codes "a" ≡ request.app_key)
    × Passes mac peek store auth request body 1000
    × ((consume_nonce request.app_key request.nonce auth.nonce_ttl_seconds auth.nonce_cache_size
          second_ns []).0
        ≡ false)
handle_sound_example =
    handle_sound mac peek store auth request 1000 second_ns []
      ((codes "a" ++ 0 ∷ codes "n", second_ns) ∷ []) (codes "a") passes

first_passes :
    (handle mac peek store auth request 1000 second_ns []).0 ≡ authenticated request.app_key
unfolding handle static_key_store beq atoi in_window verify_hmac consume_nonce put
first_passes = refl

again_passes : check_request mac peek store auth request (codes "p") 1299 ≡ none
unfolding check_request static_key_store beq atoi in_window verify_hmac
again_passes = refl

handle_twice_example :
    (handle mac peek store auth request 1299
      (300 * second_ns)
      (handle mac peek store auth request 1000 second_ns []).1).0
    ≡ (if expired (positive_or auth.nonce_ttl_seconds 300) (300 * second_ns) second_ns
        then authenticated request.app_key
        else denied 401 nonce_used)
handle_twice_example =
    handle_twice mac peek store auth request (codes "p") 1000 1299 second_ns (300 * second_ns) []
      refl first_passes again_passes

-- the request sent ahead of its time: it passes again after the nonce has expired
sent_ahead :
    (handle mac peek store auth request 1001
      (302 * second_ns)
      (handle mac peek store auth request 700 second_ns []).1).0
    ≡ authenticated (codes "a")
unfolding handle static_key_store beq atoi in_window verify_hmac consume_nonce put
sent_ahead = refl

forged_denied :
    (handle mac peek store auth forged 1000 second_ns []).0 ≡ denied 401 signature_mismatch
unfolding handle static_key_store beq atoi in_window verify_hmac consume_nonce put
forged_denied = refl

forged_no_key :
    (key : Bytes) → (handle mac peek store auth forged 1000 second_ns []).0 ≢ authenticated key
forged_no_key key = λ h. cc (h, forged_denied)

forged_other : (handle mac peek store auth forged 1000 second_ns []).0 ≢ denied 401 nonce_used
forged_other = λ h. cc (h, forged_denied)

in_window_iff_example : (in_window (pos 1000) (negsuc 4) (pos 300) ≡ true) ↔ (
    ((1000 + neg_part (negsuc 4) ≤ pos_part (negsuc 4) + 300)
      × (pos_part (negsuc 4) ≤ 1000 + neg_part (negsuc 4) + 300))
    ⊎ (1000 + neg_part (negsuc 4) ≡ pos_part (negsuc 4) + 2 ^ 63))
in_window_iff_example =
    in_window_iff 1000 300 (negsuc 4) (ground arith) (ground arith) (ground arith) (ground arith)

-- a timestamp 2^63 seconds before the clock
overflow : in_window (pos 1000) (negsuc (2 ^ 63 - 1001)) (pos 300) ≡ true
unfolding in_window
overflow = refl

abbrev call : Bytes → ℕ → Call
call nonce now = record { app_key = codes "a"; nonce = nonce; now = now }

fresh : (consume_nonce (codes "a") (codes "n") (pos 300) (pos 2) 5 []).0 ≡ false
unfolding consume_nonce lookup
fresh = refl

replay_refused_example :
    (consume_nonce (codes "a") (codes "n") (pos 300) (pos 2) 9 (
      consume_all
        (pos 300)
        (pos 2)
        (call (codes "m") 7 ∷ [])
        (consume_nonce (codes "a") (codes "n") (pos 300) (pos 2) 5 []).1)).0
    ≡ true
unfolding expired positive_or
replay_refused_example =
    replay_refused (pos 300) (pos 2) (call (codes "n") 5) (call (codes "n") 9)
      (call (codes "m") 7 ∷ []) [] refl refl fresh (refl, (refl, tt)) (ground arith)

full-IsBounded : IsBounded (pos 2) ((codes "x", 1) ∷ (codes "y", 2) ∷ [])
unfolding positive_or is_nil
full-IsBounded = record { keys = (refl, (refl, tt)); size = ground arith }

consume_nonce-IsBounded_example :
    IsBounded
      (pos 2)
      (consume_nonce
        (codes "a")
        (codes "n")
        (pos 300)
        (pos 2)
        9
        ((codes "x", 1) ∷ (codes "y", 2) ∷ [])).1
consume_nonce-IsBounded_example =
    consume_nonce-IsBounded (codes "a") (codes "n") (pos 300) (pos 2) 9
      ((codes "x", 1) ∷ (codes "y", 2) ∷ []) full-IsBounded
