-- ===== src/Sink/Pool/Accounts.antt =====
-- Every message that is offered to a pool is accounted for.
use logateway.Prelude.{
  ℕ, zero, suc, ◌+◌, ◌≤◌, ◌<◌, ◌≡◌, ◌≢◌, inl, inr, refl, Bool, Option, none, some, List, [], ◌∷◌,
  length, length-append, arith, Option-cases,
}
use logateway.Message.{Message}
use logateway.Sink.Circuit.{record_failure}
use logateway.Sink.Pool.{
  Reason, worker_panic, circuit_open, shutdown_interrupt, send_failure, channel_full,
  channel_full_timeout, Fate, delivered, stored, lost, Pool, Attempts, handle_rejected, finish,
  process, work, Submitted, enqueued, rejected, released, waits, try_enqueue, reject_full, submit,
  submit_timeout, submit_strict, shutdown,
}

-- How many messages ended in each way, and how many wait in the second select of Submit.
pub record Tally : Type 0 where
  pub delivered_count : ℕ
  pub stored_count : ℕ
  pub lost_count : ℕ
  pub released_count : ℕ
  pub waiting : ℕ

abbrev pub no_messages : Tally
no_messages = record {
  delivered_count = 0;
  stored_count = 0;
  lost_count = 0;
  released_count = 0;
  waiting = 0;
}

unfoldable pub count_fate : Fate → Tally → Tally
count_fate delivered t = record t { delivered_count = t.delivered_count + 1 }
count_fate (stored r) t = record t { stored_count = t.stored_count + 1 }
count_fate (lost r) t = record t { lost_count = t.lost_count + 1 }

unfoldable pub count_work : Option Fate → Tally → Tally
unfolding count_fate
count_work none t = t
count_work (some f) t = count_fate f t

unfoldable pub count_submitted : Submitted → Tally → Tally
unfolding count_fate
count_submitted enqueued t = t
count_submitted (rejected f e) t = count_fate f t
count_submitted (released e) t = record t { released_count = t.released_count + 1 }
count_submitted waits t = record t { waiting = t.waiting + 1 }

-- what callers and workers do to a pool; `resume` and `expire` go on with a submission that waits
pub data Op : Type 0 where
  offer : Message → Op
  offer_strict : Message → Op
  resume : Message → Op
  expire : Message → Op
  take_next : Attempts → Op
  stop : Op

abbrev pub State : Type 0 → Type 0
State W = Pool W × Tally

abbrev pub offered : Op → ℕ
offered (offer msg) = 1
offered (offer_strict msg) = 1
offered _ = 0

abbrev pub all_offered : List Op → ℕ
all_offered [] = 0
all_offered (op ∷ ops) = offered op + all_offered ops

abbrev pub accounted : {W : Type 0} → State W → ℕ
accounted s =
    length s.0.queue
    + s.1.delivered_count
    + s.1.stored_count
    + s.1.lost_count
    + s.1.released_count
    + s.1.waiting

module _ {W : Type 0} (write_message : Message → W → W × Bool) where
  -- a waiting submission finds room, if there is any
  unfoldable pub resume_submit : Message → State W → State W
  unfolding try_enqueue
  resume_submit msg (p, t) = elim t.waiting [
    | zero ↦ (p, t)
    | suc n ↦ elim (try_enqueue write_message msg p) [
      | none ↦ (p, t)
      | some p' ↦ (p', record t { waiting = n })
    ]
  ]

  unfoldable pub expire_submit : Message → State W → State W
  expire_submit msg (p, t) = elim t.waiting [
    | zero ↦ (p, t)
    | suc n ↦
        let (p', s) = submit_timeout write_message msg p in
        (p', count_submitted s (record t { waiting = n }))
  ]

  unfoldable pub step : Op → State W → State W
  unfolding shutdown
  step (offer msg) (p, t) = let (p', s) = submit write_message msg p in (p', count_submitted s t)
  step (offer_strict msg) (p, t) =
      let (p', s) = submit_strict write_message msg p in (p', count_submitted s t)
  step (resume msg) s = resume_submit msg s
  step (expire msg) s = expire_submit msg s
  step (take_next a) (p, t) = let (p', f) = work write_message a p in (p', count_work f t)
  step stop (p, t) = (shutdown p, t)

  unfoldable pub run : List Op → State W → State W
  run [] s = s
  run (op ∷ ops) s = run ops (step op s)

  handle_rejected_queue :
      (msg : Message) (r : Reason) (p : Pool W)
      → ((handle_rejected write_message msg r p).0.queue ≡ p.queue)
        × ((handle_rejected write_message msg r p).0.capacity ≡ p.capacity)
        × ((handle_rejected write_message msg r p).1 ≢ delivered)
  unfolding handle_rejected
  handle_rejected_queue msg r p = ground arith

  -- the queue and the messages taken from it, over the work on one message
  process_queue :
      (a : Attempts) (msg : Message) (p : Pool W)
      → ((process write_message a msg p).0.queue ≡ p.queue)
        × ((process write_message a msg p).0.capacity ≡ p.capacity)
  unfolding process finish
  process_queue a msg p = ground (
    arith,
    handle_rejected_queue msg circuit_open p,
    handle_rejected_queue msg shutdown_interrupt p,
    handle_rejected_queue msg worker_panic p,
    handle_rejected_queue msg send_failure (record p { circuit = record_failure p.circuit }),
  )

  -- how much longer the queue is, and how many messages are counted, after an operation
  abbrev Balanced : ℕ → State W → State W → Type 0
  Balanced n s s' =
      (accounted s' ≡ n + accounted s)
      × (s'.0.capacity ≡ s.0.capacity)
      × (length s.0.queue ≤ s.0.capacity → length s'.0.queue ≤ s'.0.capacity)

  try_enqueue_lem :
      (msg : Message) (p p' : Pool W)
      → try_enqueue write_message msg p ≡ some p'
      → (length p'.queue ≡ length p.queue + 1)
        × (p'.capacity ≡ p.capacity)
        × (length p.queue < p.capacity)
  unfolding try_enqueue
  try_enqueue_lem msg p p' h = ground (arith, length-append p.queue (msg ∷ []))

  offer-Balanced : (msg : Message) (s : State W) → Balanced 1 s (step (offer msg) s)
  unfolding step submit reject_full count_submitted
  offer-Balanced msg (p, t) = elim (Option-cases (try_enqueue write_message msg p)) [
    | inl full ↦ ground (arith, full, handle_rejected_queue msg channel_full p)
    | inr (p', room) ↦ ground (arith, room, try_enqueue_lem msg p p')
  ]

  offer_strict-Balanced : (msg : Message) (s : State W) → Balanced 1 s (step (offer_strict msg) s)
  unfolding step submit_strict count_submitted
  offer_strict-Balanced msg (p, t) = elim (Option-cases (try_enqueue write_message msg p)) [
    | inl full ↦ ground (arith, full)
    | inr (p', room) ↦ ground (arith, room, try_enqueue_lem msg p p')
  ]

  resume-Balanced : (msg : Message) (s : State W) → Balanced 0 s (step (resume msg) s)
  unfolding step resume_submit
  resume-Balanced msg (p, t) = elim (Option-cases (try_enqueue write_message msg p)) [
    | inl full ↦ ground (arith, full)
    | inr (p', room) ↦ ground (arith, room, try_enqueue_lem msg p p')
  ]

  expire-Balanced : (msg : Message) (s : State W) → Balanced 0 s (step (expire msg) s)
  unfolding step expire_submit submit_timeout count_submitted
  expire-Balanced msg (p, t) = ground (arith, handle_rejected_queue msg channel_full_timeout p)

  take_next-Balanced : (a : Attempts) (s : State W) → Balanced 0 s (step (take_next a) s)
  unfolding step work count_work
  take_next-Balanced a (p, t) = take_from p.queue refl
    where
      take_from : (q : List Message) → p.queue ≡ q → Balanced 0 (p, t) (step (take_next a) (p, t))
      take_from [] e = ground arith
      take_from (msg ∷ rest) e = ground (arith, process_queue a msg (record p { queue = rest }))

  step-Balanced : (op : Op) (s : State W) → Balanced (offered op) s (step op s)
  step-Balanced (offer msg) s = offer-Balanced msg s
  step-Balanced (offer_strict msg) s = offer_strict-Balanced msg s
  step-Balanced (resume msg) s = resume-Balanced msg s
  step-Balanced (expire msg) s = expire-Balanced msg s
  step-Balanced (take_next a) s = take_next-Balanced a s
  step-Balanced stop s = unfold step shutdown in ground arith

  run-Balanced : (ops : List Op) (s : State W) → Balanced (all_offered ops) s (run ops s)
  unfolding run
  run-Balanced [] s = ground arith
  run-Balanced (op ∷ ops) s = ground (arith, step-Balanced op s, run-Balanced ops (step op s))

  -- Over any sequence of submissions, waits, timeouts, work and a shutdown, from a channel that
  -- is within its capacity, the number of messages in the channel, delivered, in the WAL, lost,
  -- released with an error, or still waiting grows by exactly the number of those offered: none
  -- counts twice and none is forgotten. The channel stays within its capacity.
  pub run-accounts :
      (ops : List Op) (s : State W)
      → length s.0.queue ≤ s.0.capacity
      → (accounted (run ops s) ≡ all_offered ops + accounted s)
        × (length (run ops s).0.queue ≤ s.0.capacity)
  run-accounts ops s room = ground (arith, run-Balanced ops s)
