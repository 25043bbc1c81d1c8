-- ===== src/Sink/Pool/Fates.antt =====
-- What becomes of a message that a worker takes, and of one that SubmitStrict is given.
use mathlib.Core.Path.{subst}
use logateway.Prelude.{
  sym, ltb, ◌&&◌, ℕ, zero, suc, some, refl, Bool-cases, ◌+◌, ◌≤◌, ◌<◌, ◌≡◌, ◌≢◌, ◌⊎◌, inl, inr,
  Bool, true, false, none, [], ◌∷◌, ◌++◌, length, arith,
}
use logateway.Message.{Message}
use logateway.Sink.Circuit.{record_failure}
use logateway.Sink.Pool.{
  fallback, Reason, circuit_open, shutdown_interrupt, send_failure, worker_panic, circuit_is_open,
  channel_is_full, Sent, Fate, delivered_ok, send_error, send_panic, delivered, stored, lost, Pool,
  Attempts, Ended, sent, interrupt, exhausted, panicked, attempt_loop, handle_rejected, finish,
  process, enqueued, released, pool_closed, try_enqueue, submit_strict, can_accept_replay, accepted,
}

module _ {W : Type 0} (write_message : Message → W → W × Bool) where
  -- The pool falls back to a WAL that is there.
  pub record IsSafe (p : Pool W) : Type 0 where
    pub falls_back : p.backpressure ≡ fallback
    pub has_wal : p.wal ≢ none

  -- What a pool that falls back to the writer `w` has made of a message: it is delivered, by a
  -- Send that returned nil, and nothing is written; or it is written to the WAL, once, and the
  -- count of fallbacks went up by one.
  abbrev pub IsKept : Attempts → Message → W → ℕ → Pool W × Fate → Type 0
  IsKept a msg w before (p', delivered) =
      ((n : ℕ) × (n < 3) × (a.send n ≡ delivered_ok))
      × (p'.wal ≡ some w)
      × (p'.wal_fallbacks ≡ before)
  IsKept a msg w before (p', stored r) =
      (p'.wal ≡ some (write_message msg w).0) × (p'.wal_fallbacks ≡ before + 1)
  IsKept a msg w before (p', lost r) = ⊥

  rejected-IsKept :
      (a : Attempts) (msg : Message) (r : Reason) (p : Pool W) (w : W) (before : ℕ)
      → (write_message msg w).1 ≡ true
      → p.backpressure ≡ fallback
      → p.wal ≡ some w
      → p.wal_fallbacks ≡ before
      → let q = handle_rejected write_message msg r p in
        (q.0.backpressure ≡ fallback) × IsKept a msg w before q
  unfolding handle_rejected
  rejected-IsKept a msg r p w before works falls here same = ground arith

  Sent-cases : (s : Sent) → (s ≡ delivered_ok) ⊎ (s ≡ send_error) ⊎ (s ≡ send_panic)
  Sent-cases delivered_ok = inl refl
  Sent-cases send_error = inr (inl refl)
  Sent-cases send_panic = inr (inr refl)

  attempt_loop-sent :
      (left attempt : ℕ) (a : Attempts)
      → attempt_loop left attempt a ≡ sent
      → (n : ℕ) × (n < attempt + left) × (a.send n ≡ delivered_ok)
  unfolding attempt_loop
  attempt_loop-sent zero attempt a h = absurd (ground arith)
  attempt_loop-sent (suc left) attempt a h =
      elim (Bool-cases (ltb 0 attempt && a.interrupted attempt)) [
        | inl stopped ↦ absurd (ground (arith, stopped))
        | inr goes_on ↦ elim (Sent-cases (a.send attempt)) [
          | inl done ↦ (attempt, omega arith, done)
          | inr (inl failed) ↦
              let (n, below, done) =
                attempt_loop-sent left (attempt + 1) a (ground (arith, goes_on, failed)) in
              (n, omega (arith, below), done)
          | inr (inr panics) ↦ absurd (ground (arith, goes_on, panics))
        ]
      ]

  finish-IsKept :
      (e : Ended) (a : Attempts) (msg : Message) (p : Pool W) (w : W)
      → attempt_loop 3 0 a ≡ e
      → (write_message msg w).1 ≡ true
      → p.backpressure ≡ fallback
      → p.wal ≡ some w
      → let q = finish write_message e msg p in
        (q.0.backpressure ≡ fallback) × IsKept a msg w p.wal_fallbacks q
  unfolding finish
  finish-IsKept sent a msg p w ends works falls here =
      (falls, ((attempt_loop-sent 3 0 a ends), here, refl))
  finish-IsKept interrupt a msg p w ends works falls here =
      rejected-IsKept a msg shutdown_interrupt p w p.wal_fallbacks works falls here refl
  finish-IsKept exhausted a msg p w ends works falls here =
      rejected-IsKept a msg send_failure (record p { circuit = record_failure p.circuit }) w
        p.wal_fallbacks works falls here refl
  finish-IsKept panicked a msg p w ends works falls here =
      rejected-IsKept a msg worker_panic p w p.wal_fallbacks works falls here refl

  -- Whatever the sink does at each attempt (succeed, fail, panic), and whether the circuit is
  -- open or the wait is interrupted: if the pool falls back to a WAL writer that takes the
  -- message, then a message that a worker takes is delivered, by one of three calls of Send that
  -- returned nil, with nothing written; or the writer has been called with it, once, and the
  -- count of fallbacks goes up by one. It is never lost, and the pool still falls back.
  pub process-IsKept :
      (a : Attempts) (msg : Message) (p : Pool W) (w : W)
      → (write_message msg w).1 ≡ true
      → p.backpressure ≡ fallback
      → p.wal ≡ some w
      → let q = process write_message a msg p in
        (q.0.backpressure ≡ fallback) × IsKept a msg w p.wal_fallbacks q
  unfolding process
  process-IsKept a msg p w works falls here =
      let Keeps =
        λ (q : Pool W × Fate). (q.0.backpressure ≡ fallback) × IsKept a msg w p.wal_fallbacks q in
      elim (Bool-cases p.circuit.is_open) [
        | inl tripped ↦
            let e : process write_message a msg p
                ≡ handle_rejected write_message msg circuit_open p =
              ground (arith, tripped) in
            subst Keeps (sym e)
              (rejected-IsKept a msg circuit_open p w p.wal_fallbacks works falls here refl)
        | inr shut ↦
            let e : process write_message a msg p
                ≡ finish write_message (attempt_loop 3 0 a) msg p =
              ground (arith, shut) in
            subst Keeps (sym e) (finish-IsKept (attempt_loop 3 0 a) a msg p w refl works falls here)
      ]

  -- SubmitStrict touches neither the WAL nor the circuit breaker: it enqueues the message, on an
  -- open pool with room and a closed circuit, or it leaves the pool as it is and releases the
  -- message with the error that says why.
  pub submit_strict_frame :
      (msg : Message) (p : Pool W)
      → (submit_strict write_message msg p ≡ (record p { queue = p.queue ++ msg ∷ [] }, enqueued))
          × (p.closed ≡ false)
          × (p.circuit.is_open ≡ false)
          × (length p.queue < p.capacity)
        ⊎ (submit_strict write_message msg p ≡ (p, released pool_closed)) × (p.closed ≡ true)
        ⊎ (submit_strict write_message msg p ≡ (p, released circuit_is_open))
          × (p.circuit.is_open ≡ true)
        ⊎ (submit_strict write_message msg p ≡ (p, released channel_is_full))
          × (p.capacity ≤ length p.queue)
  unfolding submit_strict try_enqueue
  submit_strict_frame msg p = ground arith

  -- When CanAcceptReplay accepts on a pool whose channel has at least one place, an entry that
  -- is replayed before anything else happens to the pool is enqueued, and the delay is 0 or
  -- between 10 and 300 milliseconds.
  submit_strict-can_accept_replay :
      (msg : Message) (p : Pool W) (delay : ℕ)
      → 0 < p.capacity
      → can_accept_replay p ≡ accepted delay
      → ((submit_strict write_message msg p).1 ≡ enqueued)
        × ((delay ≡ 0) ⊎ (10 ≤ delay) × (delay ≤ 300))
  unfolding submit_strict try_enqueue can_accept_replay
  submit_strict-can_accept_replay msg p delay room h = ground arith
