-- ===== src/Auth/Nonce/Room.antt =====
-- The loop of consumeNonce that makes room ends, and the cache never grows past its limit.
use logateway.Prelude.{
  ℕ, zero, suc, ◌≤◌, ◌<◌, ◌≡◌, ◌⊎◌, inl, inr, refl, false, [], ◌∷◌, length, arith, All,
  Option-cases,
}
use logateway.Prelude.Int.{ℤ}
use logateway.Prelude.Bytes.{Bytes, beq_refl}
use logateway.Prelude.Maps.{lookup, delete, put, length-delete-le, length-put-le}
use logateway.Auth.Nonce.Laws.{length-purge-le}
use logateway.Auth.Nonce.{
  Cache, cache_key, positive_or, purge, is_nil, oldest, evict, consume_nonce,
}

-- what consumeNonce relies on: no key is the empty string
abbrev pub KeysNonempty : Cache → Type 0
KeysNonempty = All (λ e. is_nil e.0 ≡ false)

oldest-nonempty :
    (key : Bytes) (t : ℕ) (m : Cache)
    → is_nil key ≡ false
    → KeysNonempty m
    → is_nil (oldest key t m) ≡ false
unfolding oldest
oldest-nonempty key t [] h hs = h
oldest-nonempty key t ((k, s) ∷ m) h hs =
    ground (arith, oldest-nonempty key t m, oldest-nonempty k s m)

-- the loop returns the key that it started with, or one of the map
oldest-found :
    (key : Bytes) (t : ℕ) (m : Cache)
    → (oldest key t m ≡ key) ⊎ (length (delete (oldest key t m) m) < length m)
unfolding oldest delete
oldest-found key t [] = inl refl
oldest-found key t ((k, s) ∷ m) = ground (
  arith,
  beq_refl k,
  oldest-found key t m,
  oldest-found k s m,
  length-delete-le k m,
  length-delete-le (oldest key t m) m,
  length-delete-le (oldest k s m) m,
)

delete-KeysNonempty : (k : Bytes) (m : Cache) → KeysNonempty m → KeysNonempty (delete k m)
unfolding delete
delete-KeysNonempty k [] h = tt
delete-KeysNonempty k ((j, s) ∷ m) h = ground (arith, delete-KeysNonempty k m)

shrinks :
    (k : Bytes) (s : ℕ) (m : Cache)
    → length (delete (oldest [] 0 ((k, s) ∷ m)) ((k, s) ∷ m)) ≤ length m
unfolding oldest delete
shrinks k s m =
    ground (
      arith,
      beq_refl k,
      oldest-found k s m,
      length-delete-le k m,
      length-delete-le (oldest k s m) m,
    )

names_a_key :
    (k : Bytes) (s : ℕ) (m : Cache)
    → KeysNonempty ((k, s) ∷ m)
    → is_nil (oldest [] 0 ((k, s) ∷ m)) ≡ false
unfolding oldest
names_a_key k s m h = ground (arith, oldest-nonempty k s m)

-- With a round for each entry the loop ends by its test.
length-evict-lt :
    (fuel mx : ℕ) (m : Cache)
    → 0 < mx
    → length m ≤ fuel
    → KeysNonempty m
    → length (evict fuel mx m) < mx
unfolding evict
length-evict-lt zero mx m h le ks = omega arith
length-evict-lt (suc fuel) mx [] h le ks = ground arith
length-evict-lt (suc fuel) mx ((k, s) ∷ m) h le ks =
    let all : Cache = (k, s) ∷ m in
    let key = oldest [] 0 all in
    ground (
      arith,
      shrinks k s m,
      names_a_key k s m ks,
      delete-KeysNonempty key all ks,
      length-evict-lt fuel mx (delete key all),
    )

purge-KeysNonempty : (ttl now : ℕ) (m : Cache) → KeysNonempty m → KeysNonempty (purge ttl now m)
unfolding purge
purge-KeysNonempty ttl now [] h = tt
purge-KeysNonempty ttl now ((j, s) ∷ m) h = ground (arith, purge-KeysNonempty ttl now m)

evict-KeysNonempty : (fuel mx : ℕ) (m : Cache) → KeysNonempty m → KeysNonempty (evict fuel mx m)
unfolding evict
evict-KeysNonempty zero mx m h = h
evict-KeysNonempty (suc fuel) mx m h =
    let key = oldest [] 0 m in
    ground (arith, delete-KeysNonempty key m h, evict-KeysNonempty fuel mx (delete key m))

put-KeysNonempty :
    (k : Bytes) (s : ℕ) (m : Cache) → is_nil k ≡ false → KeysNonempty m → KeysNonempty (put k s m)
unfolding put
put-KeysNonempty k s [] h hs = ground arith
put-KeysNonempty k s ((j, t) ∷ m) h hs = ground (arith, put-KeysNonempty k s m)

cache_key-nonempty : (app_key nonce : Bytes) → is_nil (cache_key app_key nonce) ≡ false
unfolding is_nil
cache_key-nonempty [] nonce = refl
cache_key-nonempty (c ∷ s) nonce = refl

-- The cache has no empty key, and is within the limit.
pub record IsBounded (max_nonces : ℤ) (m : Cache) : Type 0 where
  pub keys : KeysNonempty m
  pub size : length m ≤ positive_or max_nonces 100000

positive_or-pos : (n : ℤ) → 0 < positive_or n 100000
unfolding positive_or
positive_or-pos n = ground arith

-- No call of consumeNonce, refused or not, lets a cache that is within its limit and has no
-- empty key grow past its limit, nor adds an empty key: the loop that makes room always ends
-- with room for one more nonce.
pub consume_nonce-IsBounded :
    (app_key nonce : Bytes) (ttl max_nonces : ℤ) (now : ℕ) (m : Cache)
    → IsBounded max_nonces m
    → IsBounded max_nonces (consume_nonce app_key nonce ttl max_nonces now m).1
unfolding consume_nonce
consume_nonce-IsBounded app_key nonce ttl mx now m h =
    let key = cache_key app_key nonce in
    let limit = positive_or mx 100000 in
    let m₁ = purge (positive_or ttl 300) now m in
    let m₂ = evict (length m₁) limit m₁ in
    let ks = purge-KeysNonempty (positive_or ttl 300) now m h.keys in
    let room = length-evict-lt (length m₁) limit m₁ (positive_or-pos mx) (omega arith) ks in
    elim (Option-cases (lookup key m₁)) [
      | inl fresh ↦
          rw (fresh, consume_nonce)
            (record {
              keys =
                  put-KeysNonempty key now m₂ (cache_key-nonempty app_key nonce)
                    (evict-KeysNonempty (length m₁) limit m₁ ks);
              size = omega (arith, room, length-put-le key now m₂);
            })
      | inr (t, old) ↦
          rw (old, consume_nonce)
            (record {
              keys = ks;
              size = omega (arith, h.size, length-purge-le (positive_or ttl 300) now m);
            })
    ]
