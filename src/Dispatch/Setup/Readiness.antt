-- ===== src/Dispatch/Setup/Readiness.antt =====
-- What Initialize leaves behind.
use mathlib.Core.Path.{subst}
use mathlib.Core.List.{Memᴰ}
use logateway.Prelude.{
  refl, ◌∙◌, ℕ, ◌+◌, ◌<◌, ◌≡◌, ◌≢◌, sym, ap, Bool, true, false, Option, none, some, List, [], ◌∷◌,
  map, arith, All, Option-cases, Bool-cases, inl, inr,
}
use logateway.Prelude.Int.{ℤ, pos}
use logateway.Prelude.Bytes.{Bytes, codes, beq, beq→≡}
use logateway.Prelude.Maps.{lookup, put, lookup-put}
use logateway.Config.Types.{SinkRef, ProjectConfig, Config}
use logateway.Config.Manager.{find_project, get_project}
use logateway.Sink.Settings.{Formats}
use logateway.Sink.Registry.{Sink, Registry, create}
use logateway.Sink.Pool.{Pool, Backpressure, default_size, new_worker_pool}
use logateway.Dispatch.Strict.{HasRoom}
use logateway.Dispatch.Setup.{
  Started, unless_positive, read_pool_int, resolve_sink_config, sink_name, init_sink, init_sinks,
  init_projects, initialize, pools_of,
}

default_size-positive : (n : ℤ) (d : ℕ) → 0 < d → 0 < default_size n d
unfolding default_size
default_size-positive n d h = ground arith

module _ {W : Type 0} (f : Formats) (reg : Registry) (bp : Backpressure) (wal : Option W)
    (cfg : Config) where
  -- A pool as NewWorkerPool returns it, with the dispatcher's back pressure and WAL.
  pub record IsFresh (p : Pool W) : Type 0 where
    pub empty : p.queue ≡ []
    pub is_open : p.closed ≡ false
    pub room : HasRoom p
    pub pressure : p.backpressure ≡ bp
    pub has_wal : p.wal ≡ wal

  abbrev pub AreFresh : List (Started W) → Type 0
  AreFresh ss = All (λ (s : Started W). IsFresh s.pool) ss

  -- the sink that the registry makes for the reference number `i` of a project
  abbrev pub IsSinkOf : Bytes → ℕ → SinkRef → Sink → Type 0
  IsSinkOf project i ref sink =
      let r = resolve_sink_config f cfg ref in
      create reg r.sink_type (sink_name project r.sink_type i) r.settings ≡ some sink

  -- One sink and pool for each reference, in their order, each with the sink that the registry
  -- makes for it.
  abbrev pub AreSinksOf : Bytes → ℕ → List SinkRef → List (Started W) → Type 0
  AreSinksOf project i [] [] = Unit
  AreSinksOf project i (ref ∷ refs) (s ∷ ss) =
      IsSinkOf project i ref s.sink × AreSinksOf project (i + 1) refs ss
  AreSinksOf project i _ _ = ⊥

  init_sink-IsSinkOf :
      (project : Bytes) (i : ℕ) (ref : SinkRef) (s : Started W)
      → init_sink f reg bp wal cfg project i ref ≡ some s
      → IsSinkOf project i ref s.sink
  unfolding init_sink
  init_sink-IsSinkOf project i ref s h =
      let r = resolve_sink_config f cfg ref in
      elim (Option-cases (create reg r.sink_type (sink_name project r.sink_type i) r.settings)) [
        | inl failed ↦ absurd (ground (arith, failed))
        | inr (made, e) ↦ let same : made ≡ s.sink = ground (arith, e) in e ∙ ap some same
      ]

  init_sinks-AreSinksOf :
      (project : Bytes) (i : ℕ) (refs : List SinkRef) (ss : List (Started W))
      → init_sinks f reg bp wal cfg project i refs ≡ some ss
      → AreSinksOf project i refs ss
  unfolding init_sinks
  init_sinks-AreSinksOf project i [] ss h =
      let same : [] ≡ ss = ground arith in subst (AreSinksOf project i []) same tt
  init_sinks-AreSinksOf project i (ref ∷ refs) ss h =
      elim (Option-cases (init_sink f reg bp wal cfg project i ref)) [
        | inl failed ↦ absurd (ground (arith, failed))
        | inr (s, made) ↦ elim (Option-cases (init_sinks f reg bp wal cfg project (i + 1) refs)) [
          | inl failed ↦ absurd (ground (arith, made, failed))
          | inr (rest, more) ↦
              let same : (s ∷ rest) ≡ ss = ground (arith, made, more) in
              subst (AreSinksOf project i (ref ∷ refs)) same (
                (
                  init_sink-IsSinkOf project i ref s made,
                  init_sinks-AreSinksOf project (i + 1) refs rest more,
                ))
        ]
      ]

  init_sink-IsFresh :
      (project : Bytes) (i : ℕ) (ref : SinkRef) (s : Started W)
      → init_sink f reg bp wal cfg project i ref ≡ some s
      → IsFresh s.pool
  unfolding init_sink new_worker_pool
  init_sink-IsFresh project i ref s h =
      let r = resolve_sink_config f cfg ref in
      let size =
        unless_positive r.channel_size
          (read_pool_int r.settings (codes "channel_size") (pos 16384)) in
      elim (Option-cases (create reg r.sink_type (sink_name project r.sink_type i) r.settings)) [
        | inl failed ↦ absurd (ground (arith, failed))
        | inr (made, e) ↦ record {
          empty = ground (arith, e);
          is_open = ground (arith, e);
          room = ground (arith, e, default_size-positive size 16384);
          pressure = ground (arith, e);
          has_wal = ground (arith, e);
        }
      ]

  init_sinks-AreFresh :
      (project : Bytes) (i : ℕ) (refs : List SinkRef) (ss : List (Started W))
      → init_sinks f reg bp wal cfg project i refs ≡ some ss
      → AreFresh ss
  unfolding init_sinks
  init_sinks-AreFresh project i [] ss h =
      let same : [] ≡ ss = ground arith in subst AreFresh same tt
  init_sinks-AreFresh project i (ref ∷ refs) ss h =
      elim (Option-cases (init_sink f reg bp wal cfg project i ref)) [
        | inl failed ↦ absurd (ground (arith, failed))
        | inr (s, made) ↦ elim (Option-cases (init_sinks f reg bp wal cfg project (i + 1) refs)) [
          | inl failed ↦ absurd (ground (arith, made, failed))
          | inr (rest, more) ↦
              let same : (s ∷ rest) ≡ ss = ground (arith, made, more) in
              subst AreFresh same (
                (
                  init_sink-IsFresh project i ref s made,
                  init_sinks-AreFresh project (i + 1) refs rest more,
                ))
        ]
      ]

  -- The sinks and pools under a name are those of an enabled project of that name.
  pub record IsBuilt (name : Bytes) (ss : List (Started W)) : Type 0 where
    pub project : ProjectConfig
    pub listed : Memᴰ project cfg.projects
    pub same_name : project.name ≡ name
    pub enabled : project.enabled ≡ true
    pub sinks : AreSinksOf name 0 project.sinks ss
    pub fresh : AreFresh ss

  abbrev AllBuilt : List (Bytes × List (Started W)) → Type 0
  AllBuilt m = (name : Bytes) (ss : List (Started W)) → lookup name m ≡ some ss → IsBuilt name ss

  -- what holds of the result of the loop over `ps` from `m` on
  abbrev Built :
      List ProjectConfig
      → List (Bytes × List (Started W))
      → List (Bytes × List (Started W))
      → Type 0
  Built ps m m' =
      AllBuilt m'
      × ((name : Bytes) → lookup name m ≢ none → lookup name m' ≢ none)
      × ((name : Bytes) (p : ProjectConfig) → find_project name ps ≡ some p → lookup name m' ≢ none)

  put-AllBuilt :
      (name : Bytes) (ss : List (Started W)) (m : List (Bytes × List (Started W)))
      → IsBuilt name ss
      → AllBuilt m
      → AllBuilt (put name ss m)
  put-AllBuilt name ss m new old k ss' h = elim (Bool-cases (beq name k)) [
    | inl same ↦
        let kept : ss ≡ ss' = ground (arith, lookup-put name k ss m, same) in
        subst (λ n. IsBuilt n ss') (beq→≡ name k same) (subst (IsBuilt name) kept new)
    | inr other ↦ old k ss' (ground (arith, lookup-put name k ss m, other))
  ]

  init_projects-Built :
      (ps : List ProjectConfig) (m : List (Bytes × List (Started W)))
      → ((p : ProjectConfig) → Memᴰ p ps → Memᴰ p cfg.projects)
      → AllBuilt m
      → (init_projects f reg bp wal cfg ps m).1 ≡ true
      → Built ps m (init_projects f reg bp wal cfg ps m).0
  unfolding init_projects find_project
  init_projects-Built [] m mem fresh h = (fresh, λ name found. found, λ name p found. ground arith)
  init_projects-Built (p ∷ ps) m mem fresh h = elim (Bool-cases p.enabled) [
    | inr off ↦
        let ih =
          init_projects-Built ps m (λ q at. mem q (Memᴰ.tail at)) fresh (ground (arith, off)) in
        let same : init_projects f reg bp wal cfg ps m ≡ init_projects f reg bp wal cfg (p ∷ ps) m =
          ground (arith, off) in
        subst (λ (r : List (Bytes × List (Started W)) × Bool). Built (p ∷ ps) m r.0) same
          ((ih.0, ih.1, λ name q found. ih.2 name q (ground (arith, off))))
    | inl on ↦ elim (Option-cases (init_sinks f reg bp wal cfg p.name 0 p.sinks)) [
      | inl failed ↦ absurd (ground (arith, on, failed))
      | inr (ss, made) ↦
          let m' = put p.name ss m in
          let new : IsBuilt p.name ss = record {
            project = p;
            listed = mem p (Memᴰ.head refl);
            same_name = refl;
            enabled = on;
            sinks = init_sinks-AreSinksOf p.name 0 p.sinks ss made;
            fresh = init_sinks-AreFresh p.name 0 p.sinks ss made;
          } in
          let ih =
            init_projects-Built ps m' (λ q at. mem q (Memᴰ.tail at))
              (put-AllBuilt p.name ss m new fresh) (ground (arith, on, made)) in
          let same : init_projects f reg bp wal cfg ps m'
              ≡ init_projects f reg bp wal cfg (p ∷ ps) m =
            ground (arith, on, made) in
          subst (λ (r : List (Bytes × List (Started W)) × Bool). Built (p ∷ ps) m r.0) same
            ((
              ih.0,
              λ name found. ih.1 name (λ h'. found (ground (arith, lookup-put p.name name ss m))),
              λ name q found. elim (Bool-cases (beq p.name name)) [
                | inl here ↦ ih.1 name (λ h'. ground (arith, here, lookup-put p.name name ss m))
                | inr other ↦ ih.2 name q (ground (arith, other))
              ],
            ))
    ]
  ]

  abbrev pub pools : List (Started W) → List (Pool W)
  pools ss = map (λ (s : Started W). s.pool) ss

  lookup-pools_of :
      (name : Bytes) (m : List (Bytes × List (Started W))) (ss : List (Started W))
      → lookup name m ≡ some ss
      → lookup name (pools_of m) ≡ some (pools ss)
  unfolding lookup pools_of
  lookup-pools_of name [] ss h = absurd (ground arith)
  lookup-pools_of name ((n, ts) ∷ m) ss h = elim (Bool-cases (beq n name)) [
    | inl here ↦
        let same : ts ≡ ss = ground (arith, here) in
        rw (here, pools_of) (ap (λ (x : List (Started W)). some (pools x)) same)
    | inr other ↦ rw (other, pools_of) (lookup-pools_of name m ss (ground (arith, other)))
  ]

  -- After an Initialize that returns nil, every project that GetProject finds has pools under its
  -- name: those of an enabled project of that name, one for each of its sinks.
  pub initialize-IsBuilt :
      (m : List (Bytes × List (Started W))) (name : Bytes) (p : ProjectConfig)
      → initialize f reg bp wal cfg ≡ (m, true)
      → get_project cfg name ≡ some p
      → (ss : List (Started W)) × (lookup name m ≡ some ss)
        × ((lookup name (pools_of m) ≡ some (pools ss)) × IsBuilt name ss)
  unfolding initialize get_project
  initialize-IsBuilt m name p h found =
      let built =
        init_projects-Built cfg.projects [] (λ q at. at) (λ k ss h'. absurd (ground arith))
          (ap (λ (r : List (Bytes × List (Started W)) × Bool). r.1) h) in
      let same = ap (λ (r : List (Bytes × List (Started W)) × Bool). r.0) h in
      let there : lookup name m ≢ none = rw (sym same) (built.2 name p found) in
      elim (Option-cases (lookup name m)) [
        | inl missing ↦ absurd (there missing)
        | inr (ss, here) ↦
            let all : AllBuilt m = rw (sym same) built.0 in
            (ss, here, (lookup-pools_of name m ss here, all name ss here))
      ]
