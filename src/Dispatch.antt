-- ===== src/Dispatch.antt =====
-- `Dispatcher` of internal/project/dispatcher.go: dispatchImpl, ReplayBackoff,
-- buildPipelineChain, and the replay callback of internal/server/server.go that uses them. The
-- pools of all projects hold the same WAL writer, so its state is the dispatcher's here, and each
-- call gives it to the pool. A message is released at the end of each call, and is gone.
pub mod Strict
pub mod Replaying
pub mod Setup
pub mod Fallback
use logateway.Prelude.{
  ℕ, zero, suc, ◌+◌, Bool, true, false, not, ◌||◌, Option, none, some, List, [], ◌∷◌, ◌++◌, ltb,
  if◌then◌else◌,
}
use logateway.Prelude.Bytes.{Bytes}
use logateway.Prelude.Maps.{lookup, put}
use logateway.Config.Types.{PipelineRef, ProjectConfig, Config}
use logateway.Config.Manager.{get_project}
use logateway.Message.{Message, blank, copy_message_into, message_from_wal_entry}
use logateway.Wal.Entry.{Entry}
use logateway.Wal.Replay
use logateway.Wal.Replay.{Outcome}
use logateway.Pipeline.Processors.{Json, Processor, create, Result}
use logateway.Pipeline.Processors
use logateway.Pipeline.Chain.{process_chain}
use logateway.Sink.Pool
use logateway.Sink.Pool.{
  Pool, Submitted, enqueued, rejected, released, waits, try_enqueue, submit, submit_timeout,
  submit_strict, can_accept_replay, paused, accepted,
}

-- the errors of dispatchImpl and ReplayBackoff
pub data Error : Type 0 where
  empty_project not_initialized unknown_project no_pools pipeline_failed : Error
  submit_failed replay_paused : Pool.Error → Error

-- how dispatchImpl ends: with nil, with an error, or with the panic of a processor
pub data Dispatched : Type 0 where
  ok : Dispatched
  failed : Error → Dispatched
  panicked : Dispatched

-- Dispatcher; `none` at `pools` is a nil map
pub record Dispatcher (W : Type 0) : Type 0 where
  pub cfg : Config
  pub pools : Option (List (Bytes × List (Pool W)))
  pub wal : Option W

-- buildPipelineChain: a processor that cannot be created is skipped
unfoldable pub build_chain : List PipelineRef → List Processor
unfolding create
build_chain [] = []
build_chain (ref ∷ refs) =
    let rest = build_chain refs in
    elim (create ref.kind ref.config) [ none ↦ rest | some p ↦ p ∷ rest ]

-- copyMessage
unfoldable pub copy_message : Message → Message
unfolding copy_message_into
copy_message src = copy_message_into blank src

-- the error that Submit or SubmitStrict returns
unfoldable pub error_of : Submitted → Option Pool.Error
error_of enqueued = none
error_of (rejected f e) = e
error_of (released e) = some e
error_of waits = none

pub is_unset : Bytes → Bool
is_unset [] = true
is_unset (c ∷ s) = false

module _ {W : Type 0} (write_message : Message → W → W × Bool) where
  -- The second select of Submit. `meanwhile` is what workers and other callers do to the pool
  -- until there is room or the timer fires.
  unfoldable pub await : (Pool W → Pool W) → Message → Pool W × Submitted → Pool W × Submitted
  unfolding try_enqueue submit_timeout
  await meanwhile msg (p, waits) = elim (try_enqueue write_message msg (meanwhile p)) [
    | some p' ↦ (p', enqueued)
    | none ↦ submit_timeout write_message msg (meanwhile p)
  ]
  await meanwhile msg (p, s) = (p, s)

  unfoldable pub submit_one : Bool → (Pool W → Pool W) → Message → Pool W → Pool W × Submitted
  unfolding await submit submit_strict
  submit_one strict meanwhile msg p =
      if strict
      then submit_strict write_message msg p
      else await meanwhile msg (submit write_message msg p)

  -- go on after one submission: an error ends the loop, and leaves the other pools
  unfoldable pub after_submit :
      Pool W × Submitted
      → List (Pool W)
      → (Option W → List (Pool W) × Option W × Option Pool.Error)
      → List (Pool W) × Option W × Option Pool.Error
  unfolding error_of
  after_submit (p, s) ps next = elim (error_of s) [
    | some e ↦ (p ∷ ps, p.wal, some e)
    | none ↦ let (ps', wal', e) = next p.wal in (p ∷ ps', wal', e)
  ]

  -- the loop over the pools, which stops at the first error
  unfoldable pub submit_all :
      Bool
      → (Pool W → Pool W)
      → Message
      → List (Pool W)
      → Option W
      → List (Pool W) × Option W × Option Pool.Error
  unfolding submit_one after_submit copy_message
  submit_all strict meanwhile msg [] wal = ([], wal, none)
  submit_all strict meanwhile msg (p ∷ ps) wal =
      after_submit (submit_one strict meanwhile (copy_message msg) (record p { wal = wal })) ps
        (submit_all strict meanwhile msg ps)

  unfoldable pub submit_project :
      Bool
      → (Pool W → Pool W)
      → Message
      → Bytes
      → List (Pool W)
      → List (Bytes × List (Pool W))
      → Dispatcher W
      → Dispatcher W × Dispatched
  unfolding submit_all
  submit_project strict meanwhile msg project ps m d =
      let (ps', wal', e) = submit_all strict meanwhile msg ps d.wal in
      (
        record d { pools = some (put project ps' m); wal = wal' },
        elim e [ none ↦ ok | some x ↦ failed (submit_failed x) ],
      )

-- the message that the pipeline of a project makes of one
unfoldable pub run_pipeline : Json → Bool → Option ProjectConfig → Message → Result
unfolding process_chain build_chain
run_pipeline json skip none msg = Processors.done msg
run_pipeline json skip (some project) msg =
    if skip then Processors.done msg else process_chain json (build_chain project.pipelines) msg

module _ {W : Type 0} (write_message : Message → W → W × Bool) (json : Json) where
  -- dispatchImpl
  unfoldable pub dispatch_impl :
      Bool → Bool → (Pool W → Pool W) → Message → Dispatcher W → Dispatcher W × Dispatched
  unfolding is_unset submit_project run_pipeline
  dispatch_impl strict skip_pipeline meanwhile msg d =
      if is_unset msg.project then (d, failed empty_project) else elim d.pools [
        | none ↦ (d, failed not_initialized)
        | some m ↦ elim (lookup msg.project m) [
          | none ↦ (d, failed unknown_project)
          | some [] ↦ (d, failed no_pools)
          | some (p ∷ ps) ↦
              elim (run_pipeline json skip_pipeline (get_project d.cfg msg.project) msg) [
                | Processors.done msg' ↦
                    submit_project write_message strict meanwhile msg' msg.project (p ∷ ps) m d
                | Processors.failed ↦ (d, failed pipeline_failed)
                | Processors.panicked ↦ (d, panicked)
              ]
        ]
      ]

  -- Dispatch
  unfoldable pub dispatch : (Pool W → Pool W) → Message → Dispatcher W → Dispatcher W × Dispatched
  unfolding dispatch_impl
  dispatch meanwhile msg d = dispatch_impl false false meanwhile msg d

  -- DispatchStrict
  unfoldable pub dispatch_strict : Message → Dispatcher W → Dispatcher W × Dispatched
  unfolding dispatch_impl
  dispatch_strict msg d = dispatch_impl true true (λ p. p) msg d

-- what ReplayBackoff returns: a delay in milliseconds, or an error
pub data Backoff : Type 0 where
  delay : ℕ → Backoff
  refused : Error → Backoff

-- the loop of ReplayBackoff
unfoldable pub max_delay : {W : Type 0} → ℕ → List (Pool W) → Backoff
unfolding can_accept_replay
max_delay top [] = delay top
max_delay top (p ∷ ps) = elim (can_accept_replay p) [
  | paused e ↦ refused (replay_paused e)
  | accepted d ↦ max_delay (if ltb top d then d else top) ps
]

-- ReplayBackoff
unfoldable pub replay_backoff : {W : Type 0} → Bytes → Dispatcher W → Backoff
unfolding is_unset max_delay
replay_backoff project d = if is_unset project then refused empty_project else elim d.pools [
  | none ↦ refused not_initialized
  | some m ↦ elim (lookup project m) [
    | none ↦ refused unknown_project
    | some [] ↦ refused no_pools
    | some (p ∷ ps) ↦ max_delay 0 (p ∷ ps)
  ]
]

-- the error that the callback returns
unfoldable pub outcome_of : Dispatched → Outcome
outcome_of ok = Replay.accepted
outcome_of (failed e) = Replay.refused
outcome_of panicked = Replay.panicked

-- the callback once ReplayBackoff has answered. `meanwhile` is what happens while it sleeps.
unfoldable pub replay_after :
    {W : Type 0}
    → (Message → W → W × Bool)
    → Json
    → (Dispatcher W → Dispatcher W)
    → Entry
    → Backoff
    → Dispatcher W
    → Dispatcher W × Outcome
unfolding dispatch_strict message_from_wal_entry outcome_of
replay_after write_message json meanwhile entry (refused e) d = (d, Replay.refused)
replay_after write_message json meanwhile entry (delay n) d =
    let (d', r) =
      dispatch_strict write_message json (message_from_wal_entry blank entry) (meanwhile d) in
    (d', outcome_of r)

-- the callback that New gives to StartReplay
unfoldable pub replay_entry :
    {W : Type 0}
    → (Message → W → W × Bool)
    → Json
    → (Dispatcher W → Dispatcher W)
    → Entry
    → Dispatcher W
    → Dispatcher W × Outcome
unfolding is_unset replay_backoff replay_after
replay_entry write_message json meanwhile entry d =
    if is_unset entry.project
    then (d, Replay.refused)
    else replay_after write_message json meanwhile entry (replay_backoff entry.project d) d
