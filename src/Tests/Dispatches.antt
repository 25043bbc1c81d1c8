-- ===== src/Tests/Dispatches.antt =====
-- The theorems on the dispatcher, at a project with two pools.
use mathlib.Core.List.{Memᴰ}
use logateway.Prelude.{
  ◌≢◌, ◌⊎◌, ℕ, suc, ◌≤◌, ◌≡◌, refl, arith, Bool, true, none, some, [], ◌∷◌, map, All,
}
use logateway.Prelude.Int.{pos}
use logateway.Prelude.Bytes.{Bytes, codes, beq}
use logateway.Prelude.Maps.{lookup, put}
use logateway.Config.Manager.{get_project}
use logateway.Message.{Message, blank, message_from_wal_entry}
use logateway.Wal.Replay
use logateway.Pipeline.Processors.{Json, nil_map}
use logateway.Sink.Pool.{
  Pool, fallback, new_worker_pool, can_accept_replay, submit, reject_full, handle_rejected,
}
use logateway.Dispatch.{
  Dispatcher, ok, dispatch, dispatch_strict, delay, replay_backoff, replay_entry,
}
use logateway.Dispatch.Strict.{with_copy, HasRoom, dispatch_strict-replay_backoff}
use logateway.Dispatch.Replaying.{IsBusy, IsIdle, replay_entry-IsAtomic}
use logateway.Tests.Samples.{at}
use logateway.Tests.Configs.{config}

-- a WAL that counts its entries
abbrev count : Message → ℕ → ℕ × Bool
count msg n = (suc n, true)

abbrev json : Json
json = record { decode = λ s. nil_map; encode = λ m. none; encode_nil = none }

abbrev p : Bytes
p = codes "p"

abbrev msg : Message
msg = record blank { project = p }

abbrev roomy : Pool ℕ
roomy = new_worker_pool (pos 4) (pos 2) fallback (some 0)

-- a channel for two messages with one in it
abbrev busy : Pool ℕ
busy = record (new_worker_pool (pos 2) (pos 2) fallback (some 0)) { queue = msg ∷ [] }

abbrev dispatcher : Dispatcher ℕ
dispatcher = record { cfg = config; pools = some ((p, roomy ∷ busy ∷ []) ∷ []); wal = some 0 }

here : lookup p ((p, roomy ∷ busy ∷ []) ∷ []) ≡ some (roomy ∷ busy ∷ [])
unfolding lookup beq
here = refl

rooms : All HasRoom (roomy ∷ busy ∷ [])
unfolding new_worker_pool
rooms = (ground arith, (ground arith, tt))

abbrev ten : ℕ
ten = 10

half_full : replay_backoff p dispatcher ≡ delay ten
unfolding replay_backoff can_accept_replay new_worker_pool lookup beq
half_full = refl

dispatch_strict-replay_backoff_example :
    (dispatch_strict count json msg dispatcher ≡ (
      record dispatcher {
        pools = some (
            put p
              (map (with_copy msg dispatcher.wal) (roomy ∷ busy ∷ []))
              ((p, roomy ∷ busy ∷ []) ∷ []));
      },
      ok,
    ))
    × (ten ≤ 300)
dispatch_strict-replay_backoff_example =
    dispatch_strict-replay_backoff count json msg dispatcher ten ((p, roomy ∷ busy ∷ []) ∷ [])
      (roomy ∷ busy ∷ []) refl here rooms half_full

replay_entry-IsAtomic_example :
    let r = replay_entry count json (λ x. x) (at 3) dispatcher in
    (r ≡ (
      record dispatcher {
        pools = some (
            put p
              (map
                (with_copy (message_from_wal_entry blank (at 3)) dispatcher.wal)
                (roomy ∷ busy ∷ []))
              ((p, roomy ∷ busy ∷ []) ∷ []));
      },
      Replay.accepted,
    ))
      × (p ≢ [])
      × ((roomy ∷ busy ∷ []) ≢ [])
      × All IsIdle (roomy ∷ busy ∷ [])
    ⊎ (r ≡ (dispatcher, Replay.refused))
      × ((p ≡ [])
          ⊎ ((roomy ∷ busy ∷ []) ≡ [])
          ⊎ ((q : Pool ℕ) × Memᴰ q (roomy ∷ busy ∷ []) × IsBusy q))
replay_entry-IsAtomic_example =
    replay_entry-IsAtomic count json (at 3) dispatcher ((p, roomy ∷ busy ∷ []) ∷ [])
      (roomy ∷ busy ∷ []) refl here rooms

-- the second pool is full
abbrev full : Pool ℕ
full = record (new_worker_pool (pos 1) (pos 2) fallback (some 0)) { queue = msg ∷ [] }

-- a project with a channel that has room and one that is full
abbrev mixed : Dispatcher ℕ
mixed = record { cfg = config; pools = some ((p, roomy ∷ full ∷ []) ∷ []); wal = some 0 }

-- one copy in a channel, one in the WAL
one_stored : (dispatch count json (λ q. q) msg mixed).0.wal ≡ some 1
unfolding dispatch get_project lookup beq new_worker_pool submit reject_full handle_rejected
one_stored = refl
