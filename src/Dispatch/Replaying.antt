-- ===== src/Dispatch/Replaying.antt =====
-- The callback of New in internal/server/server.go that replays one WAL entry: all pools or none.
use mathlib.Core.List.{Memᴰ}
use logateway.Prelude.{
  ℕ, ◌*◌, ◌<◌, ◌≤◌, ◌≡◌, ◌≢◌, ◌⊎◌, inl, inr, refl, arith, Bool, true, false, some, List, [], ◌∷◌,
  map, All, length, ltb, if◌then◌else◌,
}
use logateway.Prelude.Bytes.{Bytes}
use logateway.Prelude.Maps.{lookup, put}
use logateway.Message.{message_from_wal_entry, blank}
use logateway.Wal.Entry.{Entry}
use logateway.Message.{Message}
use logateway.Wal.Replay
use logateway.Wal.Replay.{Outcome}
use logateway.Pipeline.Processors.{Json}
use logateway.Sink.Pool.{Pool, can_accept_replay, paused, accepted}
use logateway.Dispatch.{
  Error, Dispatcher, Backoff, delay, refused, max_delay, replay_backoff, replay_after, replay_entry,
  is_unset,
}
use logateway.Dispatch.Strict.{
  with_copy, HasRoom, Accepts, replay-cases, max_delay-Accepts, max_delay-backoff,
  replay_entry-accepted,
}

backoff-cases : (b : Backoff) → ((n : ℕ) × (b ≡ delay n)) ⊎ ((e : Error) × (b ≡ refused e))
backoff-cases (delay n) = inl (n, refl)
backoff-cases (refused e) = inr (e, refl)

module _ {W : Type 0} where
  -- A pool that takes no replay: it is closed, its circuit is open, or four fifths of its channel
  -- are full.
  abbrev pub IsBusy : Pool W → Type 0
  IsBusy p = (p.closed ≡ true) ⊎ (p.circuit.is_open ≡ true) ⊎ (4 * p.capacity ≤ 5 * length p.queue)

  -- A pool that takes one.
  abbrev pub IsIdle : Pool W → Type 0
  IsIdle p =
      (p.closed ≡ false) × (p.circuit.is_open ≡ false) × (5 * length p.queue < 4 * p.capacity)

  paused-IsBusy : (p : Pool W) (e : _) → can_accept_replay p ≡ paused e → IsBusy p
  unfolding can_accept_replay
  paused-IsBusy p e h = ground arith

  accepted-IsIdle : (p : Pool W) (d : ℕ) → HasRoom p → can_accept_replay p ≡ accepted d → IsIdle p
  unfolding can_accept_replay
  accepted-IsIdle p d room h = ground arith

  All-IsIdle : (ps : List (Pool W)) → All HasRoom ps → All Accepts ps → All IsIdle ps
  All-IsIdle [] rooms h = tt
  All-IsIdle (p ∷ ps) (room, rooms) ((d, h), hs) =
      (accepted-IsIdle p d room h, All-IsIdle ps rooms hs)

  max_delay-IsBusy :
      (ps : List (Pool W)) (top : ℕ) (e : Error)
      → max_delay top ps ≡ refused e
      → (p : Pool W) × Memᴰ p ps × IsBusy p
  unfolding max_delay
  max_delay-IsBusy [] top e h = absurd (ground arith)
  max_delay-IsBusy (p ∷ ps) top e h = elim (replay-cases (can_accept_replay p)) [
    | inl (x, c) ↦ (p, Memᴰ.head refl, paused-IsBusy p x c)
    | inr (d, c) ↦
        let (q, at, busy) =
          max_delay-IsBusy ps (if ltb top d then d else top) e (ground (arith, c)) in
        (q, Memᴰ.tail at, busy)
  ]

  -- why an entry is refused
  abbrev Refuses : Bytes → List (Pool W) → Type 0
  Refuses project ps = (project ≡ []) ⊎ (ps ≡ []) ⊎ ((p : Pool W) × Memᴰ p ps × IsBusy p)

  replay_backoff-Refuses :
      (project : Bytes) (d : Dispatcher W) (m : List (Bytes × List (Pool W))) (ps : List (Pool W))
      (e : Error)
      → d.pools ≡ some m
      → lookup project m ≡ some ps
      → replay_backoff project d ≡ refused e
      → Refuses project ps
  unfolding replay_backoff is_unset
  replay_backoff-Refuses [] d m ps e has here h = inl refl
  replay_backoff-Refuses (b ∷ name) d m [] e has here h = inr (inl refl)
  replay_backoff-Refuses (b ∷ name) d m (p ∷ ps) e has here h =
      inr (inr (max_delay-IsBusy (p ∷ ps) 0 e (ground (arith, has, here))))

is_unset_sound : (b : Bytes) → is_unset b ≡ false → b ≢ []
unfolding is_unset
is_unset_sound [] h = absurd (ground arith)
is_unset_sound (c ∷ b) h = λ e. ground arith

module _ {W : Type 0} (write_message : Message → W → W × Bool) (json : Json) where
  replay_entry-refused :
      (entry : Entry) (d : Dispatcher W) (e : Error)
      → replay_backoff entry.project d ≡ refused e
      → replay_entry write_message json (λ x. x) entry d ≡ (d, Replay.refused)
  unfolding replay_entry replay_after
  replay_entry-refused entry d e h = ground (arith, h)

  -- The replay callback on an entry of a project with these pools, each with at least one place in
  -- its channel, with nothing else happening to the pools while it runs, does all or nothing.
  -- Either it accepts the entry, each pool is open, with a closed circuit and less than four
  -- fifths of its channel full, and each has a copy of the entry's message at the end of its
  -- channel and nothing else changes, the WAL included. Or it refuses the entry, the project has
  -- no name, no pools or a pool that is closed, has an open circuit or is four fifths full, and
  -- nothing at all changes, so that a later replay of the entry does not deliver it twice.
  pub replay_entry-IsAtomic :
      (entry : Entry) (d : Dispatcher W) (m : List (Bytes × List (Pool W))) (ps : List (Pool W))
      → d.pools ≡ some m
      → lookup entry.project m ≡ some ps
      → All HasRoom ps
      → let r = replay_entry write_message json (λ x. x) entry d in
        let msg = message_from_wal_entry blank entry in
        (r ≡ (
          record d { pools = some (put entry.project (map (with_copy msg d.wal) ps) m) },
          Replay.accepted,
        ))
          × (entry.project ≢ [])
          × (ps ≢ [])
          × All IsIdle ps
        ⊎ (r ≡ (d, Replay.refused))
          × ((entry.project ≡ []) ⊎ (ps ≡ []) ⊎ ((p : Pool W) × Memᴰ p ps × IsBusy p))
  replay_entry-IsAtomic entry d m ps has here rooms =
      elim (backoff-cases (replay_backoff entry.project d)) [
        | inl (n, lets_in) ↦
            let facts =
              max_delay-backoff write_message json entry.project d n m ps lets_in has here in
            inl (
              replay_entry-accepted write_message json entry d n m ps has here rooms lets_in,
              is_unset_sound entry.project facts.0,
              facts.1,
              All-IsIdle ps rooms (max_delay-Accepts ps 0 n (omega arith) facts.2).0,
            )
        | inr (e, refuses) ↦ inr (
          replay_entry-refused entry d e refuses,
          replay_backoff-Refuses entry.project d m ps e has here refuses,
        )
      ]
