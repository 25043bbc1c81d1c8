-- ===== src/Sink/Circuit/Stranded.antt =====
-- A circuit breaker that is open with no recovery loop.
use mathlib.Core.Path.{subst}
use logateway.Prelude.{
  ℕ, zero, suc, ◌+◌, ◌<◌, ◌≡◌, ◌≢◌, refl, sym, ◌∙◌, true, List, [], ◌∷◌, ◌++◌, arith, leb,
  replicate,
}
use logateway.Sink.Circuit.{
  absent, waiting, leaving, Circuit, record_failure, probe, Event, failure, success, tick, halts,
  loop_returns, healthy, step, run,
}

abbrev pub IsStranded : Circuit → Type 0
IsStranded c = (c.is_open ≡ true) × (c.loop ≡ absent)

-- no message is sent while the circuit is open, so no event is a success
abbrev pub NoSuccess : List Event → Type 0
NoSuccess [] = Unit
NoSuccess (success ∷ es) = ⊥
NoSuccess (_ ∷ es) = NoSuccess es

step-IsStranded : (c : Circuit) (e : Event) → e ≢ success → IsStranded c → IsStranded (step c e)
unfolding step
step-IsStranded c e n h = ground arith

-- An open circuit breaker without a recovery loop stays so for ever, as long as no send that was
-- under way succeeds: no failure, probe or healthy sink closes it.
run-IsStranded :
    (c : Circuit) (es : List Event) → NoSuccess es → IsStranded c → IsStranded (run c es)
unfolding run
run-IsStranded c [] n h = h
run-IsStranded c (success ∷ es) n h = elim n [ ]
run-IsStranded c (failure ∷ es) n h =
    run-IsStranded (step c failure) es n (step-IsStranded c failure (λ e. cc) h)
run-IsStranded c (tick b ∷ es) n h =
    run-IsStranded (step c (tick b)) es n (step-IsStranded c (tick b) (λ e. cc) h)
run-IsStranded c (halts ∷ es) n h =
    run-IsStranded (step c halts) es n (step-IsStranded c halts (λ e. cc) h)
run-IsStranded c (loop_returns ∷ es) n h =
    run-IsStranded (step c loop_returns) es n (step-IsStranded c loop_returns (λ e. cc) h)

run-append : (c : Circuit) (es fs : List Event) → run c (es ++ fs) ≡ run (run c es) fs
unfolding run
run-append c [] fs = refl
run-append c (e ∷ es) fs = run-append (step c e) es fs

-- failures on a closed circuit whose Once is used up and whose loop is about to return
fill :
    (n : ℕ) (c : Circuit)
    → c.loop ≡ leaving
    → c.once_done ≡ true
    → c.is_open ≡ leb c.max_fails c.fail_count
    → let c' = run c (replicate n failure) in
      (c'.loop ≡ leaving)
      × (c'.once_done ≡ true)
      × (c'.fail_count ≡ c.fail_count + n)
      × (c'.max_fails ≡ c.max_fails)
      × (c'.is_open ≡ leb c'.max_fails c'.fail_count)
unfolding run step
fill zero c l o t = ground arith
fill (suc n) c l o t = ground (arith, fill n (record_failure c))

probe-closes :
    (c : Circuit)
    → c.loop ≡ waiting
    → c.once_done ≡ true
    → c.is_open ≡ true
    → 0 < c.max_fails
    → let c' = probe healthy c in
      (c'.loop ≡ leaving)
      × (c'.once_done ≡ true)
      × (c'.is_open ≡ leb c'.max_fails c'.fail_count)
      × (c'.max_fails ≡ c.max_fails)
      × (c'.fail_count ≡ 0)
unfolding probe
probe-closes c l o op h = ground arith

leave-IsStranded :
    (c : Circuit) → c.loop ≡ leaving → c.is_open ≡ true → IsStranded (run c (loop_returns ∷ []))
unfolding run step
leave-IsStranded c l op = ground arith

-- Take an open circuit breaker with a positive maximum whose recovery loop waits. If, between
-- the moment when the loop has closed the circuit and the moment when its deferred function
-- resets the Once, the maximum number of sends fails, the circuit is open and no loop runs that
-- could ever close it.
pub recovery_race :
    (c : Circuit)
    → c.loop ≡ waiting
    → c.once_done ≡ true
    → c.is_open ≡ true
    → 0 < c.max_fails
    → IsStranded (run c (tick healthy ∷ (replicate c.max_fails failure ++ loop_returns ∷ [])))
unfolding run
recovery_race c l o op pos_max =
    let c₁ = probe healthy c in
    let facts = probe-closes c l o op pos_max in
    let c₂ = run c₁ (replicate c.max_fails failure) in
    let filled = fill c.max_fails c₁ facts.0 facts.1 facts.2 in
    let full : leb c₂.max_fails c₂.fail_count ≡ true = ground (arith, filled, facts) in
    subst IsStranded (sym (run-append c₁ (replicate c.max_fails failure) (loop_returns ∷ [])))
      (leave-IsStranded c₂ filled.0 (filled.4 ∙ full))
