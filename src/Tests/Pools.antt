-- ===== src/Tests/Pools.antt =====
-- The theorems on the worker pool and its circuit breaker.
use logateway.Prelude.{
  ℕ, suc, ◌+◌, ◌≤◌, ◌≡◌, refl, arith, Bool, true, false, some, List, [], ◌∷◌, ◌++◌, length, leb,
  replicate,
}
use logateway.Prelude.Int.{pos}
use logateway.Prelude.Bytes.{codes}
use logateway.Message.{Message, blank}
use logateway.Sink.Circuit.{
  Circuit, new, waiting, absent, failure, tick, loop_returns, healthy, run,
}
use logateway.Sink.Circuit.Threshold.{failures_since, open_iff_threshold}
use logateway.Sink.Circuit.Stranded.{IsStranded, recovery_race}
use logateway.Sink.Pool.{
  Pool, Attempts, send_error, fallback, accepted, new_worker_pool, process, finish, attempt_loop,
  handle_rejected, can_accept_replay,
}
use logateway.Sink.Pool.Fates.{IsKept, process-IsKept}
use logateway.Sink.Pool.Accounts
use logateway.Sink.Pool.Accounts.{
  Op, offer, offer_strict, take_next, stop, no_messages, accounted, all_offered, run-accounts,
}

-- a WAL that counts its entries
abbrev count : Message → ℕ → ℕ × Bool
count msg n = (suc n, true)

abbrev msg : Message
msg = record blank { project = codes "p" }

-- a channel for one message, with a message in it, and two failures to the open circuit
abbrev pool : Pool ℕ
pool = record (new_worker_pool (pos 1) (pos 2) fallback (some 0)) { queue = msg ∷ [] }

abbrev empty_pool : Pool ℕ
empty_pool = record (new_worker_pool (pos 4) (pos 2) fallback (some 0)) { queue = [] }

abbrev failing : Attempts
failing = record { send = λ n. send_error; interrupted = λ n. false }

fails_and_is_stored : (process count failing msg pool).0.wal ≡ some 1
unfolding process new_worker_pool finish attempt_loop handle_rejected
fails_and_is_stored = refl

process-IsKept_example :
    ((process count failing msg pool).0.backpressure ≡ fallback)
    × IsKept count failing msg 0 pool.wal_fallbacks (process count failing msg pool)
unfolding new_worker_pool
process-IsKept_example = process-IsKept count failing msg pool 0 refl refl refl

abbrev no_delay : ℕ
no_delay = 0

accepts : can_accept_replay empty_pool ≡ accepted no_delay
unfolding can_accept_replay new_worker_pool
accepts = refl

abbrev ops : List Op
ops = offer msg ∷ offer_strict msg ∷ take_next failing ∷ take_next failing ∷ stop ∷ offer msg ∷ []

run-accounts_example :
    (accounted (Accounts.run count ops (pool, no_messages))
      ≡ all_offered ops + accounted (pool, no_messages))
    × (length (Accounts.run count ops (pool, no_messages)).0.queue ≤ pool.capacity)
unfolding new_worker_pool
run-accounts_example = run-accounts count ops (pool, no_messages) (ground arith)

open_iff_threshold_example :
    (run (new 2) (failure ∷ failure ∷ tick healthy ∷ failure ∷ [])).is_open
    ≡ leb 2 (failures_since (new 2) 0 (failure ∷ failure ∷ tick healthy ∷ failure ∷ []))
open_iff_threshold_example =
    open_iff_threshold 2 (failure ∷ failure ∷ tick healthy ∷ failure ∷ []) (ground arith)

-- the circuit after two failures
abbrev open_circuit : Circuit
open_circuit = record {
  is_open = true;
  fail_count = 2;
  max_fails = 2;
  once_done = true;
  loop = waiting;
}

two_failures : run (new 2) (failure ∷ failure ∷ []) ≡ open_circuit
unfolding run
two_failures = refl

recovery_race_example :
    IsStranded (run open_circuit (tick healthy ∷ (replicate 2 failure ++ loop_returns ∷ [])))
recovery_race_example = recovery_race open_circuit refl refl refl (ground arith)

abbrev stranded : Circuit
stranded = record {
  is_open = true;
  fail_count = 2;
  max_fails = 2;
  once_done = false;
  loop = absent;
}
