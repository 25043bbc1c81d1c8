-- ===== src/Auth/Nonce.antt =====
-- The nonce cache of internal/auth/auth.go: consumeNonce under its mutex. Times are nanoseconds.
pub mod Laws
pub mod Room
use logateway.Prelude.{
  ℕ, zero, suc, ◌+◌, ◌-◌, ◌*◌, ◌%◌, ◌^◌, Bool, true, false, not, ◌&&◌, Option, none, some, List, [],
  ◌∷◌, ◌++◌, length, ltb, leb, if◌then◌else◌,
}
use logateway.Prelude.Int.{ℤ, pos, negsuc}
use logateway.Prelude.Bytes.{Bytes, beq}
use logateway.Prelude.Maps.{lookup, delete, put}

-- nonceCache
abbrev pub Cache : Type 0
Cache = List (Bytes × ℕ)

-- appKey + "\x00" + nonce
abbrev pub cache_key : Bytes → Bytes → Bytes
cache_key app_key nonce = app_key ++ 0 ∷ nonce

-- the defaults of consumeNonce
unfoldable pub positive_or : ℤ → ℕ → ℕ
positive_or (pos zero) d = d
positive_or (pos (suc n)) d = suc n
positive_or (negsuc n) d = d

-- `seenAt.Before(now.Add(-time.Duration(ttlSeconds) * time.Second))`; the Duration is an int64
unfoldable pub expired : ℕ → ℕ → ℕ → Bool
expired ttl_seconds now seen =
    let t = (ttl_seconds * 1000000000) % 2 ^ 64 in
    if ltb t (2 ^ 63) then ltb (seen + t) now else ltb seen (now + (2 ^ 64 - t))

-- the loop that deletes expired nonces
unfoldable pub purge : ℕ → ℕ → Cache → Cache
unfolding expired
purge ttl now [] = []
purge ttl now ((k, seen) ∷ m) =
    let rest = purge ttl now m in if expired ttl now seen then rest else (k, seen) ∷ rest

unfoldable pub is_nil : Bytes → Bool
is_nil [] = true
is_nil (c ∷ s) = false

-- the loop that looks for the oldest nonce: its key, "" if there is none, and its time
unfoldable pub oldest : Bytes → ℕ → Cache → Bytes
unfolding is_nil
oldest key time [] = key
oldest key time ((k, seen) ∷ m) =
    let next = if is_nil key then true else ltb seen time in
    oldest (if next then k else key) (if next then seen else time) m

-- the loop that makes room; a round removes an entry, so the length of the map is fuel enough
unfoldable pub evict : ℕ → ℕ → Cache → Cache
unfolding oldest is_nil
evict zero max_nonces m = m
evict (suc fuel) max_nonces m =
    let key = oldest [] 0 m in
    let rest = evict fuel max_nonces (delete key m) in
    if ltb (length m) max_nonces then m else if is_nil key then m else rest

-- consumeNonce: whether the nonce was used before, and the new cache
unfoldable pub consume_nonce : Bytes → Bytes → ℤ → ℤ → ℕ → Cache → Bool × Cache
unfolding positive_or purge evict
consume_nonce app_key nonce ttl_seconds max_nonces now cache =
    let key = cache_key app_key nonce in
    let m = purge (positive_or ttl_seconds 300) now cache in
    elim (lookup key m) [
      | some seen ↦ (true, m)
      | none ↦ (false, put key now (evict (length m) (positive_or max_nonces 100000) m))
    ]
