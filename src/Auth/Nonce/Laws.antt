-- ===== src/Auth/Nonce/Laws.antt =====
-- What the nonce cache remembers, for how long, and how large it grows.
use logateway.Prelude.{
  ℕ, zero, suc, ◌+◌, ◌≤◌, ◌<◌, ◌≡◌, refl, true, false, not, none, some, List, [], ◌∷◌, length,
  arith, All, if◌then◌else◌,
}
use logateway.Prelude.Int.{ℤ}
use logateway.Prelude.Bytes.{Bytes, beq_iff, beq_refl}
use logateway.Prelude.Maps.{
  lookup, delete, put, lookup-put, lookup-delete, length-delete-le, length-put-le,
}
use logateway.Auth.Nonce.{
  Cache, cache_key, positive_or, expired, purge, oldest, evict, consume_nonce,
}

module _ (ttl now : ℕ) where
  lookup-purge-none :
      (k : Bytes) (m : Cache) → lookup k m ≡ none → lookup k (purge ttl now m) ≡ none
  unfolding lookup purge
  lookup-purge-none k [] h = refl
  lookup-purge-none k ((j, s) ∷ m) h = ground (arith, lookup-purge-none k m)

  lookup-purge-some :
      (k : Bytes) (t : ℕ) (m : Cache)
      → lookup k m ≡ some t
      → expired ttl now t ≡ false
      → lookup k (purge ttl now m) ≡ some t
  unfolding lookup purge
  lookup-purge-some k t [] h e = cc
  lookup-purge-some k t ((j, s) ∷ m) h e = ground (arith, lookup-purge-some k t m)

  lookup-purge-put :
      (k : Bytes) (t : ℕ) (m : Cache)
      → lookup k m ≡ none
      → lookup k (purge ttl now (put k t m)) ≡ (if expired ttl now t then none else some t)
  unfolding lookup purge put
  lookup-purge-put k t [] h = ground (arith, beq_refl k)
  lookup-purge-put k t ((j, s) ∷ m) h =
      ground (arith, beq_refl k, lookup-purge-put k t m, lookup-purge-none k m)

  pub length-purge-le : (m : Cache) → length (purge ttl now m) ≤ length m
  unfolding purge
  length-purge-le [] = omega arith
  length-purge-le ((j, s) ∷ m) = ground (arith, length-purge-le m)

lookup-evict-none :
    (fuel max_nonces : ℕ) (k : Bytes) (m : Cache)
    → lookup k m ≡ none
    → lookup k (evict fuel max_nonces m) ≡ none
unfolding evict
lookup-evict-none zero mx k m h = h
lookup-evict-none (suc fuel) mx k m h =
    let key = oldest [] 0 m in
    ground (arith, lookup-evict-none fuel mx k (delete key m), lookup-delete key k m)

-- where there is room, nothing is evicted
evict_room : (fuel mx : ℕ) (m : Cache) → length m < mx → evict fuel mx m ≡ m
unfolding evict
evict_room zero mx m h = refl
evict_room (suc fuel) mx m h = ground arith

length-evict-le : (fuel mx : ℕ) (m : Cache) → length (evict fuel mx m) ≤ length m
unfolding evict
length-evict-le zero mx m = omega arith
length-evict-le (suc fuel) mx m =
    let key = oldest [] 0 m in
    ground (arith, length-evict-le fuel mx (delete key m), length-delete-le key m)

-- The second use of a nonce, right after its first, is refused exactly while the nonce has not
-- expired: the same request is accepted again as soon as more than the TTL has passed.
pub consume_nonce_twice :
    (app_key nonce : Bytes) (ttl max_nonces : ℤ) (t₁ t₂ : ℕ) (cache : Cache)
    → (consume_nonce app_key nonce ttl max_nonces t₁ cache).0 ≡ false
    → (consume_nonce app_key nonce ttl max_nonces t₂
        (consume_nonce app_key nonce ttl max_nonces t₁ cache).1).0
      ≡ not (expired (positive_or ttl 300) t₂ t₁)
unfolding consume_nonce
consume_nonce_twice app_key nonce ttl mx t₁ t₂ cache fresh =
    let key = cache_key app_key nonce in
    let m = purge (positive_or ttl 300) t₁ cache in
    let m' = evict (length m) (positive_or mx 100000) m in
    ground (
      arith,
      lookup-evict-none (length m) (positive_or mx 100000) key m,
      lookup-purge-put (positive_or ttl 300) t₂ key t₁ m',
    )

-- one call of consumeNonce
pub record Call : Type 0 where
  pub app_key : Bytes
  pub nonce : Bytes
  pub now : ℕ

module _ (ttl max_nonces : ℤ) where
  -- the cache after these calls
  unfoldable pub consume_all : List Call → Cache → Cache
  consume_all [] m = m
  consume_all (c ∷ cs) m = consume_all cs (consume_nonce c.app_key c.nonce ttl max_nonces c.now m).1

  length-consume_nonce :
      (c : Call) (m : Cache)
      → length (consume_nonce c.app_key c.nonce ttl max_nonces c.now m).1 ≤ length m + 1
  unfolding consume_nonce
  length-consume_nonce c m =
      let key = cache_key c.app_key c.nonce in
      let m₁ = purge (positive_or ttl 300) c.now m in
      let m₂ = evict (length m₁) (positive_or max_nonces 100000) m₁ in
      ground (
        arith,
        length-purge-le (positive_or ttl 300) c.now m,
        length-evict-le (length m₁) (positive_or max_nonces 100000) m₁,
        length-put-le key c.now m₂,
      )

  -- a nonce that has not expired stays, while there is room
  remembers :
      (k : Bytes) (t : ℕ) (c : Call) (m : Cache)
      → lookup k m ≡ some t
      → expired (positive_or ttl 300) c.now t ≡ false
      → length m < positive_or max_nonces 100000
      → lookup k (consume_nonce c.app_key c.nonce ttl max_nonces c.now m).1 ≡ some t
  unfolding consume_nonce
  remembers k t c m here live room =
      let key = cache_key c.app_key c.nonce in
      let m₁ = purge (positive_or ttl 300) c.now m in
      ground (
        arith,
        beq_iff key k,
        length-purge-le (positive_or ttl 300) c.now m,
        evict_room (length m₁) (positive_or max_nonces 100000) m₁,
        lookup-purge-some (positive_or ttl 300) c.now k t m,
        lookup-put key k c.now m₁,
      )

  remembers-All :
      (k : Bytes) (t : ℕ) (cs : List Call) (m : Cache)
      → lookup k m ≡ some t
      → All (λ c. expired (positive_or ttl 300) c.now t ≡ false) cs
      → length m + length cs ≤ positive_or max_nonces 100000
      → lookup k (consume_all cs m) ≡ some t
  unfolding consume_all
  remembers-All k t [] m here live room = here
  remembers-All k t (c ∷ cs) m here live room =
      remembers-All k t cs (consume_nonce c.app_key c.nonce ttl max_nonces c.now m).1
        (remembers k t c m here live.0 (omega arith)) live.1
        (omega (arith, length-consume_nonce c m))

  refused_of_lookup :
      (c : Call) (t : ℕ) (m : Cache)
      → lookup (cache_key c.app_key c.nonce) m ≡ some t
      → expired (positive_or ttl 300) c.now t ≡ false
      → (consume_nonce c.app_key c.nonce ttl max_nonces c.now m).0 ≡ true
  unfolding consume_nonce
  refused_of_lookup c t m here live =
      ground
        (arith, lookup-purge-some (positive_or ttl 300) c.now (cache_key c.app_key c.nonce) t m)

  recorded :
      (c : Call) (m : Cache)
      → (consume_nonce c.app_key c.nonce ttl max_nonces c.now m).0 ≡ false
      → lookup
          (cache_key c.app_key c.nonce)
          (consume_nonce c.app_key c.nonce ttl max_nonces c.now m).1
        ≡ some c.now
  unfolding consume_nonce
  recorded c m fresh =
      let key = cache_key c.app_key c.nonce in
      let m₁ = purge (positive_or ttl 300) c.now m in
      ground (
        arith,
        beq_refl key,
        lookup-put key key c.now (evict (length m₁) (positive_or max_nonces 100000) m₁),
      )

  -- After the first use of a nonce, its second use by the same app key is refused, whatever
  -- other nonces are used in between, as long as the nonce has not expired at any of these calls
  -- and the cache has room for all of them.
  pub replay_refused :
      (first again : Call) (cs : List Call) (m : Cache)
      → again.app_key ≡ first.app_key
      → again.nonce ≡ first.nonce
      → (consume_nonce first.app_key first.nonce ttl max_nonces first.now m).0 ≡ false
      → All (λ c. expired (positive_or ttl 300) c.now first.now ≡ false) (again ∷ cs)
      → length m + 1 + length cs ≤ positive_or max_nonces 100000
      → (consume_nonce again.app_key again.nonce ttl max_nonces again.now
          (consume_all cs (consume_nonce first.app_key first.nonce ttl max_nonces first.now m).1)).0
        ≡ true
  replay_refused first again cs m same_key same_nonce fresh live room =
      refused_of_lookup again first.now _
        (rw (same_key, same_nonce)
          (remembers-All (cache_key first.app_key first.nonce) first.now cs _
            (recorded first m fresh) live.1 (omega (arith, length-consume_nonce first m))))
        live.0
