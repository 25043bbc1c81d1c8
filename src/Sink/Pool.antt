-- ===== src/Sink/Pool.antt =====
-- `WorkerPool` of internal/sink/worker.go: Submit, SubmitStrict, handleRejected, the work on one
-- message, Shutdown, CanAcceptReplay. What the workers and the callers do to the pool is a
-- sequence of these steps. The WAL writer and the sink enter as arguments; metrics and log lines
-- are left out, and a message that is released is gone.
pub mod Fates
pub mod Accounts
use logateway.Prelude.{
  ℕ, zero, suc, ◌+◌, ◌-◌, ◌*◌, ◌/◌, Bool, true, false, not, ◌&&◌, Option, none, some, List, [], ◌∷◌,
  ◌++◌, length, ltb, leb, ◌==◌, if◌then◌else◌,
}
use logateway.Prelude.Int.{ℤ, pos, negsuc}
use logateway.Message.{Message}
use logateway.Sink.Circuit
use logateway.Sink.Circuit.{Circuit, record_failure, reset_failures}

pub data Backpressure : Type 0 where
  drop_message block fallback : Backpressure

-- the reasons of handleRejected
pub data Reason : Type 0 where
  worker_panic circuit_open shutdown_interrupt send_failure channel_full channel_full_timeout :
      Reason

-- what becomes of a message that leaves the pool
pub data Fate : Type 0 where
  delivered : Fate
  stored : Reason → Fate
  lost : Reason → Fate

pub data Error : Type 0 where
  pool_closed block_timeout dropped circuit_is_open channel_is_full : Error

-- WorkerPool, with the WAL writer's state `W`; `none` is a nil writer
pub record Pool (W : Type 0) : Type 0 where
  pub queue : List Message
  pub capacity : ℕ
  pub closed : Bool
  pub circuit : Circuit
  pub backpressure : Backpressure
  pub wal : Option W
  pub wal_fallbacks : ℕ

-- the defaults of NewWorkerPool for the sizes that matter here
unfoldable pub default_size : ℤ → ℕ → ℕ
default_size (pos zero) d = d
default_size (pos (suc n)) d = suc n
default_size (negsuc n) d = d

unfoldable pub new_worker_pool : {W : Type 0} → ℤ → ℤ → Backpressure → Option W → Pool W
unfolding default_size
new_worker_pool channel_size max_fails bp wal = record {
  queue = [];
  capacity = default_size channel_size 16384;
  closed = false;
  circuit = Circuit.new (default_size max_fails 10);
  backpressure = bp;
  wal = wal;
  wal_fallbacks = 0;
}

-- how one call of sink.Send ends
pub data Sent : Type 0 where
  delivered_ok send_error send_panic : Sent

-- What the loop over the attempts meets: how each Send ends, and whether the context is done
-- while the loop waits before an attempt.
pub record Attempts : Type 0 where
  pub send : ℕ → Sent
  pub interrupted : ℕ → Bool

-- how the loop over the attempts ends
pub data Ended : Type 0 where
  sent : Ended
  interrupt : Ended
  exhausted : Ended
  panicked : Ended

-- the loop of processWithContext from attempt number `attempt` on, with `left` attempts left
unfoldable pub attempt_loop : ℕ → ℕ → Attempts → Ended
attempt_loop zero attempt a = exhausted
attempt_loop (suc left) attempt a =
    let next = attempt_loop left (attempt + 1) a in
    if ltb 0 attempt && a.interrupted attempt
    then interrupt
    else elim (a.send attempt) [ delivered_ok ↦ sent | send_error ↦ next | send_panic ↦ panicked ]

-- how a submission ends: enqueued, or rejected with the message's fate, or with the message
-- released and an error, or still waiting for room
pub data Submitted : Type 0 where
  enqueued : Submitted
  rejected : Fate → Option Error → Submitted
  released : Error → Submitted
  waits : Submitted

module _ {W : Type 0} (write_message : Message → W → W × Bool) where
  -- handleRejected: with the backpressure `fallback` and a writer the message goes to the WAL
  unfoldable pub handle_rejected : Message → Reason → Pool W → Pool W × Fate
  handle_rejected msg reason p = elim p.backpressure [
    | drop_message ↦ (p, lost reason)
    | block ↦ (p, lost reason)
    | fallback ↦ elim p.wal [
      | none ↦ (p, lost reason)
      | some w ↦
          let (w', ok) = write_message msg w in
          if ok
          then (record p { wal = some w'; wal_fallbacks = p.wal_fallbacks + 1 }, stored reason)
          else (record p { wal = some w' }, lost reason)
    ]
  ]

  -- the end of processWithContext and the recover of safeProcess
  unfoldable pub finish : Ended → Message → Pool W → Pool W × Fate
  finish sent msg p = (record p { circuit = reset_failures p.circuit }, delivered)
  finish interrupt msg p = handle_rejected msg shutdown_interrupt p
  finish exhausted msg p =
      handle_rejected msg send_failure (record p { circuit = record_failure p.circuit })
  finish panicked msg p = handle_rejected msg worker_panic p

  -- safeProcess with processWithContext, on a message taken from the channel
  unfoldable pub process : Attempts → Message → Pool W → Pool W × Fate
  process a msg p =
      if p.circuit.is_open
      then handle_rejected msg circuit_open p
      else finish (attempt_loop 3 0 a) msg p

  -- a worker takes the next message, if there is one
  unfoldable pub work : Attempts → Pool W → Pool W × Option Fate
  work a p = elim p.queue [
    | [] ↦ (p, none)
    | msg ∷ rest ↦ let (p', f) = process a msg (record p { queue = rest }) in (p', some f)
  ]

  -- `case wp.ch <- msg`, where there is room; in Go a send on a closed channel panics
  unfoldable pub try_enqueue : Message → Pool W → Option (Pool W)
  try_enqueue msg p =
      if ltb (length p.queue) p.capacity
      then some (record p { queue = p.queue ++ msg ∷ [] })
      else none

  unfoldable pub reject_full : Message → Pool W → Pool W × Submitted
  reject_full msg p = elim p.backpressure [
    | block ↦ (p, waits)
    | fallback ↦ let (p', f) = handle_rejected msg channel_full p in (p', rejected f none)
    | drop_message ↦
        let (p', f) = handle_rejected msg channel_full p in (p', rejected f (some dropped))
  ]

  -- Submit, up to the point where it returns or waits
  unfoldable pub submit : Message → Pool W → Pool W × Submitted
  submit msg p =
      if p.closed
      then (p, released pool_closed)
      else elim (try_enqueue msg p) [ some p' ↦ (p', enqueued) | none ↦ reject_full msg p ]

  -- the second select of Submit: room in time, or the timer
  unfoldable pub submit_timeout : Message → Pool W → Pool W × Submitted
  submit_timeout msg p =
      let (p', f) = handle_rejected msg channel_full_timeout p in
      (p', rejected f (some block_timeout))

  -- SubmitStrict
  unfoldable pub submit_strict : Message → Pool W → Pool W × Submitted
  submit_strict msg p =
      if p.closed
      then (p, released pool_closed)
      else if p.circuit.is_open
      then (p, released circuit_is_open)
      else elim (try_enqueue msg p) [
        | some p' ↦ (p', enqueued)
        | none ↦ (p, released channel_is_full)
      ]

-- the part of Shutdown that changes the pool; the workers then drain the channel
unfoldable pub shutdown : {W : Type 0} → Pool W → Pool W
shutdown p = record p { closed = true }

-- CanAcceptReplay: refused, or accepted with a delay in milliseconds. The usage is the exact
-- fraction len / cap, where the program has a float64: the delay can be one millisecond less.
pub data Replay : Type 0 where
  paused : Error → Replay
  accepted : ℕ → Replay

clamp_delay : ℕ → ℕ
clamp_delay d = if ltb d 10 then 10 else if ltb 300 d then 300 else d

unfoldable pub can_accept_replay : {W : Type 0} → Pool W → Replay
unfolding clamp_delay
can_accept_replay p =
    if p.closed
    then paused pool_closed
    else if p.circuit.is_open
    then paused circuit_is_open
    else if p.capacity == 0
    then accepted 0
    else if leb (4 * p.capacity) (5 * length p.queue)
    then paused channel_is_full
    else if leb p.capacity (2 * length p.queue)
    then accepted (clamp_delay ((1000 * length p.queue) / p.capacity - 500))
    else accepted 0
