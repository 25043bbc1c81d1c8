-- ===== src/Dispatch/Strict.antt =====
-- What a strict dispatch does to the pools of a project.
use logateway.Prelude.{
  ℕ, ◌<◌, ◌≤◌, ◌≡◌, ◌≢◌, ◌↔◌, ◌⊎◌, inl, inr, refl, ap, ◌∙◌, arith, Bool, true, false, Option, none,
  some, List, [], ◌∷◌, ◌++◌, map, All, ltb, if◌then◌else◌,
}
use logateway.Prelude.Bytes.{Bytes}
use logateway.Prelude.Maps.{lookup, put}
use logateway.Message.{Message, message_from_wal_entry, blank}
use logateway.Wal.Entry.{Entry}
use logateway.Wal.Replay
use logateway.Pipeline.Processors.{Json}
use logateway.Sink.Pool
use logateway.Sink.Pool.{
  Pool, Submitted, enqueued, submit_strict, try_enqueue, can_accept_replay, paused, accepted,
}
use logateway.Dispatch.{
  Dispatched, ok, Dispatcher, copy_message, submit_one, after_submit, submit_all, submit_project,
  run_pipeline, dispatch_strict, Backoff, delay, max_delay, replay_backoff, replay_after,
  outcome_of, replay_entry, is_unset,
}

pub replay-cases :
    (r : Pool.Replay) → ((e : Pool.Error) × (r ≡ paused e)) ⊎ ((d : ℕ) × (r ≡ accepted d))
replay-cases (paused e) = inl (e, refl)
replay-cases (accepted d) = inr (d, refl)

module _ {W : Type 0} where
  -- the pool with a copy of the message at the end of its channel
  abbrev pub with_copy : Message → Option W → Pool W → Pool W
  with_copy msg wal p = record p { queue = p.queue ++ copy_message msg ∷ []; wal = wal }

  -- the pool lets a replay in, and can hold a message at all
  abbrev pub Accepts : Pool W → Type 0
  Accepts p = (d : ℕ) × (can_accept_replay p ≡ accepted d)

  abbrev pub HasRoom : Pool W → Type 0
  HasRoom p = 0 < p.capacity

  delay_le : (p : Pool W) (d : ℕ) → can_accept_replay p ≡ accepted d → d ≤ 300
  unfolding can_accept_replay
  delay_le p d h = ground arith

  pub max_delay-Accepts :
      (ps : List (Pool W)) (top n : ℕ)
      → top ≤ 300
      → max_delay top ps ≡ delay n
      → All Accepts ps × (n ≤ 300)
  unfolding max_delay
  max_delay-Accepts [] top n small h = (tt, ground arith)
  max_delay-Accepts (p ∷ ps) top n small h = elim (replay-cases (can_accept_replay p)) [
    | inl (e, c) ↦ absurd (ground (arith, c))
    | inr (d, c) ↦
        let rest =
          max_delay-Accepts ps (if ltb top d then d else top) n (ground (arith, delay_le p d c))
            (ground (arith, c)) in
        (((d, c), rest.0), rest.1)
  ]

module _ {W : Type 0} (write_message : Message → W → W × Bool) where
  submit_strict-Accepts :
      (msg : Message) (wal : Option W) (p : Pool W) (d : ℕ)
      → can_accept_replay p ≡ accepted d
      → 0 < p.capacity
      → submit_strict write_message (copy_message msg) (record p { wal = wal })
        ≡ (with_copy msg wal p, enqueued)
  unfolding submit_strict try_enqueue can_accept_replay
  submit_strict-Accepts msg wal p d h room = ground arith

  submit_all-Accepts :
      (mw : Pool W → Pool W) (msg : Message) (wal : Option W) (ps : List (Pool W))
      → All Accepts ps
      → All HasRoom ps
      → submit_all write_message true mw msg ps wal ≡ (map (with_copy msg wal) ps, wal, none)
  unfolding submit_all submit_one after_submit
  submit_all-Accepts mw msg wal [] free rooms = refl
  submit_all-Accepts mw msg wal (p ∷ ps) ((d, a), free) (room, rooms) =
      ap
        (λ (r : Pool W × Submitted).
          after_submit write_message r ps (submit_all write_message true mw msg ps))
        (submit_strict-Accepts msg wal p d a room)
      ∙ ap
          (λ (r : List (Pool W) × Option W × Option Pool.Error).
            (with_copy msg wal p ∷ r.0, r.1, r.2))
          (submit_all-Accepts mw msg wal ps free rooms)

module _ {W : Type 0} (write_message : Message → W → W × Bool) (json : Json) where
  pub max_delay-backoff :
      (project : Bytes) (d : Dispatcher W) (n : ℕ) (m : List (Bytes × List (Pool W)))
      (ps : List (Pool W))
      → replay_backoff project d ≡ delay n
      → d.pools ≡ some m
      → lookup project m ≡ some ps
      → (is_unset project ≡ false) × (ps ≢ []) × (max_delay 0 ps ≡ delay n)
  unfolding replay_backoff
  max_delay-backoff project d n m [] h has here = absurd (ground arith)
  max_delay-backoff project d n m (p ∷ ps) h has here = ground arith

  dispatch_strict-submit_project :
      (msg : Message) (d : Dispatcher W) (m : List (Bytes × List (Pool W))) (ps : List (Pool W))
      → is_unset msg.project ≡ false
      → d.pools ≡ some m
      → lookup msg.project m ≡ some ps
      → ps ≢ []
      → dispatch_strict write_message json msg d
        ≡ submit_project write_message true (λ p. p) msg msg.project ps m d
  unfolding dispatch_strict run_pipeline
  dispatch_strict-submit_project msg d m [] set has here some_pool = absurd (some_pool refl)
  dispatch_strict-submit_project msg d m (p ∷ ps) set has here some_pool = ground arith

  -- If ReplayBackoff lets an entry of a project in, where each pool of the project has a channel of
  -- at least one place, then DispatchStrict, before anything else happens to the pools, returns
  -- nil, puts a copy of the message at the end of each channel of the project, and changes
  -- nothing else; and the delay is at most 300 milliseconds.
  pub dispatch_strict-replay_backoff :
      (msg : Message) (d : Dispatcher W) (n : ℕ) (m : List (Bytes × List (Pool W)))
      (ps : List (Pool W))
      → d.pools ≡ some m
      → lookup msg.project m ≡ some ps
      → All HasRoom ps
      → replay_backoff msg.project d ≡ delay n
      → (dispatch_strict write_message json msg d
          ≡ (record d { pools = some (put msg.project (map (with_copy msg d.wal) ps) m) }, ok))
        × (n ≤ 300)
  unfolding submit_project
  dispatch_strict-replay_backoff msg d n m ps has here rooms lets_in =
      let facts = max_delay-backoff msg.project d n m ps lets_in has here in
      let free = max_delay-Accepts ps 0 n (omega arith) facts.2 in
      (
        dispatch_strict-submit_project msg d m ps facts.0 has here facts.1
            ∙ (rw (submit_all-Accepts write_message (λ p. p) msg d.wal ps free.0 rooms) refl),
        free.1,
      )

  -- An entry that ReplayBackoff lets in, with nothing else happening to the pools until the
  -- dispatch, is accepted by the replay callback: its message is at the end of each channel of the
  -- project, if each of these channels has at least one place.
  pub replay_entry-accepted :
      (entry : Entry) (d : Dispatcher W) (n : ℕ) (m : List (Bytes × List (Pool W)))
      (ps : List (Pool W))
      → d.pools ≡ some m
      → lookup entry.project m ≡ some ps
      → All HasRoom ps
      → replay_backoff entry.project d ≡ delay n
      → replay_entry write_message json (λ x. x) entry d ≡ (
        record d {
          pools =
              some (
                put entry.project
                  (map (with_copy (message_from_wal_entry blank entry) d.wal) ps)
                  m);
        },
        Replay.accepted,
      )
  unfolding replay_entry replay_after message_from_wal_entry
  replay_entry-accepted entry d n m ps has here rooms lets_in =
      let set = (max_delay-backoff entry.project d n m ps lets_in has here).0 in
      let sent =
        dispatch_strict-replay_backoff (message_from_wal_entry blank entry) d n m ps has here rooms
          lets_in in
      ap
        (λ (b : Bool).
          if b
          then (d, Replay.refused)
          else replay_after write_message json (λ x. x) entry (replay_backoff entry.project d) d)
        set
      ∙ ap (λ (b : Backoff). replay_after write_message json (λ x. x) entry b d) lets_in
      ∙ ap (λ (r : Dispatcher W × Dispatched). (r.0, outcome_of r.1)) sent.0

  -- What a strict dispatch has done to the pools `ps` of a project, seen at their channels: an
  -- initial run of them has the copy, the others are as they were, and the WAL too.
  abbrev pub IsPrefix :
      Message → Option W → List (Pool W) → List (Pool W) × Option W × Option Pool.Error → Type 0
  IsPrefix msg wal ps r =
      (before : List (Pool W)) × (after : List (Pool W)) × (ps ≡ before ++ after)
      × (map (λ p. p.queue) r.0
          ≡ map (λ p. p.queue ++ copy_message msg ∷ []) before ++ map (λ p. p.queue) after)
      × (r.1 ≡ wal)
      × ((r.2 ≡ none) ↔ (after ≡ []))
