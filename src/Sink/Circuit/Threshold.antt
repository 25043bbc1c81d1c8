-- ===== src/Sink/Circuit/Threshold.antt =====
-- When the circuit breaker is open.
use logateway.Prelude.{
  ℕ, ◌+◌, ◌<◌, ◌≡◌, refl, ap, ◌∙◌, Bool, true, false, List, [], ◌∷◌, arith, leb,
}
use logateway.Sink.Circuit.{
  Loop, healthy, absent, waiting, leaving, Circuit, new, Event, failure, success, tick, halts,
  loop_returns, step, run,
}

-- The state of the loop and of the Once belong together, and the circuit is open exactly if the
-- failures since the last reset have reached the maximum.
pub record IsConsistent (c : Circuit) : Type 0 where
  pub positive : 0 < c.max_fails
  pub threshold : c.is_open ≡ leb c.max_fails c.fail_count
  pub absent_unused : c.loop ≡ absent → c.once_done ≡ false
  pub waiting_used : c.loop ≡ waiting → c.once_done ≡ true
  pub leaving_used : c.loop ≡ leaving → c.once_done ≡ true

step-IsConsistent : (c : Circuit) (e : Event) → IsConsistent c → IsConsistent (step c e)
unfolding step
step-IsConsistent c failure h = ground arith
step-IsConsistent c success h = ground arith
step-IsConsistent c (tick b) h = ground arith
step-IsConsistent c halts h = ground arith
step-IsConsistent c loop_returns h = ground arith

-- What an event makes of a count of failures: a failure adds one. A success resets it, and so does
-- a probe that finds the sink healthy while the recovery loop waits for an open circuit.
unfoldable pub counted : Loop → Bool → Event → ℕ → ℕ
counted loop is_open failure n = n + 1
counted loop is_open success n = 0
counted waiting true (tick healthy) n = 0
counted loop is_open e n = n

-- The failures among the events since the last reset, with `n` before them.
unfoldable pub failures_since : Circuit → ℕ → List Event → ℕ
unfolding counted step
failures_since c n [] = n
failures_since c n (e ∷ es) = failures_since (step c e) (counted c.loop c.is_open e n) es

step_counts :
    (c : Circuit) (e : Event)
    → ((step c e).fail_count ≡ counted c.loop c.is_open e c.fail_count)
      × ((step c e).max_fails ≡ c.max_fails)
unfolding step counted
step_counts c failure = ground arith
step_counts c success = ground arith
step_counts c (tick b) = ground arith
step_counts c halts = ground arith
step_counts c loop_returns = ground arith

run_open :
    (c : Circuit) (n max_fails : ℕ) (es : List Event)
    → IsConsistent c
    → c.fail_count ≡ n
    → c.max_fails ≡ max_fails
    → (run c es).is_open ≡ leb max_fails (failures_since c n es)
unfolding run failures_since
run_open c n max_fails [] h same same_max = ground (arith, h.threshold)
run_open c n max_fails (e ∷ es) h same same_max =
    run_open (step c e) (counted c.loop c.is_open e n) max_fails es (step-IsConsistent c e h)
      ((step_counts c e).0 ∙ ap (counted c.loop c.is_open e) same) ((step_counts c e).1 ∙ same_max)

-- Whatever failures, successes, probes, halts and returns of the recovery loop a new circuit
-- breaker with a positive maximum sees, it is open exactly if the failures among these events
-- since the last reset reach the maximum; a reset is a success, or a probe that finds the sink
-- healthy while the recovery loop waits for an open circuit.
pub open_iff_threshold :
    (max_fails : ℕ) (es : List Event)
    → 0 < max_fails
    → (run (new max_fails) es).is_open ≡ leb max_fails (failures_since (new max_fails) 0 es)
open_iff_threshold max_fails es h = run_open (new max_fails) 0 max_fails es (ground arith) refl refl
