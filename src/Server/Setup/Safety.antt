-- ===== src/Server/Setup/Safety.antt =====
-- What a gateway that New returns is ready for.
use mathlib.Core.Path.{subst}
use logateway.Prelude.{
  map, ◌≡◌, ◌≢◌, refl, sym, ◌∙◌, Bool, true, false, Option, none, some, List, [], ◌∷◌, All, arith,
  Option-cases, Bool-cases, inl, inr,
}
use logateway.Prelude.Bytes.{Bytes}
use logateway.Prelude.Maps.{lookup}
use logateway.Config.Types.{ProjectConfig, Config}
use logateway.Config.Manager.{get_project}
use logateway.Message.{Message}
use logateway.Wal.Disk.{Dir}
use logateway.Wal.Writer.{World, Faults}
use logateway.Wal.Open.{new_writer}
use logateway.Sink.Settings.{Formats}
use logateway.Sink.Registry.{builtin_registry}
use logateway.Sink.Pool.{Pool, Backpressure, fallback}
use logateway.Sink.Pool.Fates.{IsSafe}
use logateway.Dispatch.{Dispatcher}
use logateway.Dispatch.Strict.{HasRoom}
use logateway.Dispatch.Setup.{Started, initialize, pools_of}
use logateway.Dispatch.Setup.Readiness.{IsFresh, AreFresh, IsBuilt, initialize-IsBuilt, pools}
use logateway.Server.Setup.{
  resolve_backpressure, is_fallback, WalStart, no_wal, opened, failed, init_wal, started, new_with,
  new_after_wal, new_gateway, wal_config,
}

module _ (fmt : Formats) (goroutines : Bool) (cfg : Config) where
  -- a gateway with this writer: every project has fresh pools
  new_with-started :
      (bp : Backpressure) (wal : Option World) (d : Dispatcher World)
      (m : List (Bytes × List (Started World))) (name : Bytes) (p : ProjectConfig)
      → new_with fmt goroutines cfg bp wal ≡ started d m
      → get_project cfg name ≡ some p
      → (ss : List (Started World)) × (d.pools ≡ some (pools_of m))
        × ((lookup name (pools_of m) ≡ some (pools fmt (builtin_registry fmt) bp wal cfg ss))
            × IsBuilt fmt (builtin_registry fmt) bp wal cfg name ss)
        × (d.wal ≡ wal)
  unfolding new_with
  new_with-started bp wal d m name p h found =
      let r = initialize fmt (builtin_registry fmt) bp wal cfg in
      elim (Bool-cases r.1) [
        | inr bad ↦ absurd (ground (arith, bad))
        | inl good ↦ elim (Bool-cases goroutines) [
          | inr bad ↦ absurd (ground (arith, good, bad))
          | inl made ↦
              let same : r.0 ≡ m = ground (arith, good, made) in
              let kept : (d.pools ≡ some (pools_of m)) × (d.wal ≡ wal) =
                ground (arith, good, made) in
              let done : initialize fmt (builtin_registry fmt) bp wal cfg ≡ (m, true) =
                λ i. (same i, good i) in
              let (ss, here, fresh) =
                initialize-IsBuilt fmt (builtin_registry fmt) bp wal cfg m name p done found in
              (ss, kept.0, fresh, kept.1)
        ]
      ]

  new_with-wiring :
      (bp : Backpressure) (wal : Option World) (d : Dispatcher World)
      (m : List (Bytes × List (Started World)))
      → new_with fmt goroutines cfg bp wal ≡ started d m
      → (d.wal ≡ wal) × (d.cfg ≡ cfg)
  unfolding new_with
  new_with-wiring bp wal d m h =
      elim (Bool-cases (initialize fmt (builtin_registry fmt) bp wal cfg).1) [
        | inr bad ↦ absurd (ground (arith, bad))
        | inl good ↦ elim (Bool-cases goroutines) [
          | inr bad ↦ absurd (ground (arith, good, bad))
          | inl made ↦ ground (arith, good, made)
        ]
      ]

  All-pools :
      (bp : Backpressure) (wal : Option World) (P : Pool World → Type 0) (ss : List (Started World))
      → ((q : Pool World) → IsFresh fmt (builtin_registry fmt) bp wal cfg q → P q)
      → AreFresh fmt (builtin_registry fmt) bp wal cfg ss
      → All P (pools fmt (builtin_registry fmt) bp wal cfg ss)
  All-pools bp wal P [] f h = tt
  All-pools bp wal P (s ∷ ss) f h = (f s.pool h.0, All-pools bp wal P ss f h.1)

  module _ (write_message : Message → World → World × Bool) (lower : Bytes → Bytes) where
    -- A gateway that is ready for the messages of a project: the pools under its name are those
    -- of an enabled project of that name, one for each of its sink references in their order,
    -- with the sink that the registry makes for it; they are empty and open and have room, and
    -- with the back pressure `fallback` each falls back to the WAL writer that the gateway then
    -- has.
    pub record IsReady (d : Dispatcher World) (name : Bytes) : Type 0 where
      pub m : List (Bytes × List (Pool World))
      pub ps : List (Pool World)
      pub ss : List (Started World)
      pub has_pools : d.pools ≡ some m
      pub built :
          IsBuilt fmt
            (builtin_registry fmt)
            (resolve_backpressure lower cfg.server.backpressure)
            d.wal
            cfg
            name
            ss
      pub pooled : ps ≡ map (λ (s : Started World). s.pool) ss
      pub found : lookup name m ≡ some ps
      pub are_open : All (λ (q : Pool World). q.closed ≡ false) ps
      pub have_room : All HasRoom ps
      pub are_safe :
          resolve_backpressure lower cfg.server.backpressure ≡ fallback
          → (d.wal ≢ none) × All (IsSafe write_message) ps

    new_with-IsReady :
        (wal : Option World) (d : Dispatcher World) (m : List (Bytes × List (Started World)))
        (name : Bytes) (p : ProjectConfig)
        → let bp = resolve_backpressure lower cfg.server.backpressure in
          (bp ≡ fallback → wal ≢ none)
          → new_with fmt goroutines cfg bp wal ≡ started d m
          → get_project cfg name ≡ some p
          → IsReady d name
    new_with-IsReady wal d m name p safe h found =
        let bp = resolve_backpressure lower cfg.server.backpressure in
        let (ss, has_pools, rest, same_wal) = new_with-started bp wal d m name p h found in
        record {
          m = pools_of m;
          ps = pools fmt (builtin_registry fmt) bp wal cfg ss;
          ss = ss;
          built =
              subst (λ (o : Option World). IsBuilt fmt (builtin_registry fmt) bp o cfg name ss)
                (sym same_wal) rest.1;
          pooled = refl;
          has_pools = has_pools;
          found = rest.0;
          are_open =
              All-pools bp wal (λ q. q.closed ≡ false) ss (λ q fresh. fresh.is_open) rest.1.fresh;
          have_room = All-pools bp wal HasRoom ss (λ q fresh. fresh.room) rest.1.fresh;
          are_safe = λ falls. (
            λ none_left. safe falls (sym same_wal ∙ none_left),
            All-pools bp wal (IsSafe write_message) ss
                (λ q fresh. record {
                  falls_back = fresh.pressure ∙ falls;
                  has_wal = λ none_left. safe falls (sym fresh.has_wal ∙ none_left);
                })
                rest.1.fresh,
          );
        }

    init_wal-fallback :
        (f : Faults) (dir : Dir)
        → let bp = resolve_backpressure lower cfg.server.backpressure in
          init_wal f cfg bp dir ≡ no_wal → bp ≢ fallback
    unfolding init_wal
    init_wal-fallback f dir none_made falls =
        let bp = resolve_backpressure lower cfg.server.backpressure in
        let on : is_fallback bp ≡ true = rw falls refl in
        elim (Option-cases (new_writer f (wal_config cfg) dir).1) [
          | inl good ↦ ground (arith, on, good)
          | inr (e, bad) ↦ ground (arith, on, bad)
        ]

    -- the writer and the configuration of a gateway that New returns
    wired_after :
        (f : Faults) (dir : Dir) (d : Dispatcher World) (m : List (Bytes × List (Started World)))
        (s : WalStart)
        → let bp = resolve_backpressure lower cfg.server.backpressure in
          bp ≡ fallback
          → init_wal f cfg bp dir ≡ s
          → new_after_wal fmt goroutines cfg bp s ≡ started d m
          → (d.wal ≢ none) × (d.cfg ≡ cfg)
    unfolding new_after_wal
    wired_after f dir d m no_wal falls e h = absurd (init_wal-fallback f dir e falls)
    wired_after f dir d m (opened w) falls e h =
        let kept =
          new_with-wiring (resolve_backpressure lower cfg.server.backpressure) (some w) d m h in
        ((λ none_left. ground (arith, kept.0, none_left)), kept.1)
    wired_after f dir d m (failed x) falls e h = absurd (ground arith)

    -- with the back pressure `fallback` there is a writer
    pub new_gateway-wired :
        (f : Faults) (dir : Dir) (d : Dispatcher World) (m : List (Bytes × List (Started World)))
        → resolve_backpressure lower cfg.server.backpressure ≡ fallback
        → new_gateway fmt lower f goroutines cfg dir ≡ started d m
        → (d.wal ≢ none) × (d.cfg ≡ cfg)
    unfolding new_gateway
    new_gateway-wired f dir d m falls h =
        wired_after f dir d m
          (init_wal f cfg (resolve_backpressure lower cfg.server.backpressure) dir) falls refl h

    IsReady-after :
        (f : Faults) (dir : Dir) (d : Dispatcher World) (m : List (Bytes × List (Started World)))
        (name : Bytes) (p : ProjectConfig) (s : WalStart)
        → let bp = resolve_backpressure lower cfg.server.backpressure in
          init_wal f cfg bp dir ≡ s
          → new_after_wal fmt goroutines cfg bp s ≡ started d m
          → get_project cfg name ≡ some p
          → IsReady d name
    unfolding new_after_wal
    IsReady-after f dir d m name p no_wal e h found =
        new_with-IsReady none d m name p (λ falls none_left. init_wal-fallback f dir e falls) h
          found
    IsReady-after f dir d m name p (opened w) e h found =
        new_with-IsReady (some w) d m name p (λ falls none_left. ground arith) h found
    IsReady-after f dir d m name p (failed x) e h found = absurd (ground arith)

    -- A gateway that New returns, whatever the file system did, has pools for every project that
    -- is configured and enabled: under its name are the pools of an enabled project of that name,
    -- exactly one for each of its sink
    -- references, in their order, with the sink that the registry makes for it; each is empty and
    -- open and has room for a message. And where the configuration says `fallback`, in any case
    -- of its letters, even with the WAL disabled there, the gateway has a WAL writer and every
    -- pool falls back to it.
    pub new_gateway-IsReady :
        (f : Faults) (dir : Dir) (d : Dispatcher World) (m : List (Bytes × List (Started World)))
        (name : Bytes) (p : ProjectConfig)
        → new_gateway fmt lower f goroutines cfg dir ≡ started d m
        → get_project cfg name ≡ some p
        → IsReady d name
    unfolding new_gateway
    new_gateway-IsReady f dir d m name p h found =
        let bp = resolve_backpressure lower cfg.server.backpressure in
        IsReady-after f dir d m name p (init_wal f cfg bp dir) refl h found
