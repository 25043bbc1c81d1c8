-- ===== src/Sink/Circuit.antt =====
-- The circuit breaker of internal/sink/worker.go: recordFailure, resetFailures, startRecovery and
-- recoveryLoop. Each function is one step under the mutex; the loop's `defer`, which resets
-- recoveryOnce, is a step of its own after the loop has decided to return.
pub mod Threshold
pub mod Stranded
use logateway.Prelude.{
  ℕ, zero, suc, ◌+◌, Bool, true, false, not, ◌&&◌, List, [], ◌∷◌, leb, if◌then◌else◌,
}

-- where the goroutine of recoveryLoop is
pub data Loop : Type 0 where
  absent : Loop
  waiting : Loop
  leaving : Loop

pub record Circuit : Type 0 where
  pub is_open : Bool
  pub fail_count : ℕ
  pub max_fails : ℕ
  pub once_done : Bool
  pub loop : Loop

abbrev pub new : ℕ → Circuit
new max_fails = record {
  is_open = false;
  fail_count = 0;
  max_fails = max_fails;
  once_done = false;
  loop = absent;
}

-- startRecovery: the Once lets the goroutine start only if it has not run since its last reset
unfoldable pub start_recovery : Circuit → Circuit
start_recovery c = if c.once_done then c else record c { once_done = true; loop = waiting }

-- recordFailure
unfoldable pub record_failure : Circuit → Circuit
unfolding start_recovery
record_failure c =
    let c' = record c { fail_count = c.fail_count + 1 } in
    if leb c.max_fails (c.fail_count + 1) && not c.is_open
    then start_recovery (record c' { is_open = true })
    else c'

-- resetFailures
unfoldable pub reset_failures : Circuit → Circuit
reset_failures c = record c { fail_count = 0; is_open = false }

-- how one call of sink.HealthCheck ends
pub data Health : Type 0 where
  healthy unhealthy health_panic : Health

-- one tick of recoveryLoop; a panic of HealthCheck runs the deferred function and ends the loop
unfoldable pub probe : Health → Circuit → Circuit
unfolding reset_failures
probe health c = elim c.loop [
  | absent ↦ c
  | leaving ↦ c
  | waiting ↦ if not c.is_open then record c { loop = leaving } else elim health [
    | healthy ↦ record (reset_failures c) { loop = leaving }
    | unhealthy ↦ c
    | health_panic ↦ record c { loop = leaving }
  ]
]

-- `case <-wp.recoveryStop: return`, once Shutdown has closed that channel
unfoldable pub halt : Circuit → Circuit
halt c = elim c.loop [ absent ↦ c | leaving ↦ c | waiting ↦ record c { loop = leaving } ]

-- the deferred `wp.recoveryOnce = sync.Once{}`
unfoldable pub leave : Circuit → Circuit
leave c = elim c.loop [
  | absent ↦ c
  | waiting ↦ c
  | leaving ↦ record c { once_done = false; loop = absent }
]

-- what happens to a circuit breaker
pub data Event : Type 0 where
  failure success : Event
  tick : Health → Event
  halts loop_returns : Event

unfoldable pub step : Circuit → Event → Circuit
unfolding record_failure reset_failures probe halt leave
step c failure = record_failure c
step c success = reset_failures c
step c (tick health) = probe health c
step c halts = halt c
step c loop_returns = leave c

unfoldable pub run : Circuit → List Event → Circuit
unfolding step
run c [] = c
run c (e ∷ es) = run (step c e) es
