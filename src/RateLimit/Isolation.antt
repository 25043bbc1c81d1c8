-- ===== src/RateLimit/Isolation.antt =====
-- The requests of one project do not count against another.
use logateway.Prelude.{
  ℕ, ◌≡◌, refl, Bool, true, Option, none, some, List, [], ◌∷◌, arith, Option-cases, inl, inr,
  if◌then◌else◌,
}
use logateway.Prelude.Int.{ℤ, eq_ℤ}
use logateway.Prelude.Bytes.{Bytes, beq, beq_refl, beq→≡}
use logateway.Prelude.Maps.{lookup, lookup-put}
use logateway.Config.Types.{Config, ProjectConfig}
use logateway.Config.Manager.{get_project, get_project_sound}
use logateway.RateLimit.{
  Limiters, ProjectLimiter, Manager, normalize_qps, new_limiter, set_rate, create_limiter,
  get_or_create_limiter, allow_project, project_middleware,
}

-- those of one project
abbrev pub only {ℓ} : {A : Type ℓ} → Bytes → List (Bytes × A) → List (Bytes × A)
only name [] = []
only name ((n, a) ∷ rs) = let rest = only name rs in if beq n name then (n, a) ∷ rest else rest

module _ {L R : Type 0} (x : Limiters L R) (cfg : Config) where
  -- The answers to requests, each with its project and its time, one after the other.
  unfoldable pub answers : List (Bytes × ℕ) → Manager L → List (Bytes × Bool)
  answers [] m = []
  answers ((name, now) ∷ rs) m =
      let (m', ok) = project_middleware x (λ k. k) cfg (some name) now m in
      (name, ok) ∷ answers rs m'

  -- the entry that a request finds, or makes
  entry_for : ℕ → ℤ → Option (ProjectLimiter L) → ProjectLimiter L
  entry_for now q none = record { qps = q; lim = new_limiter x q }
  entry_for now q (some e) =
      if eq_ℤ e.qps q then e else record { qps = q; lim = set_rate x now q e.lim }

  -- the entry that it leaves, and the answer
  served : ℕ → Option ProjectConfig → Option (ProjectLimiter L) → Option (ProjectLimiter L) × Bool
  unfolding entry_for
  served now none o = (o, true)
  served now (some p) o =
      let e = entry_for now (normalize_qps p.rate_limit) o in
      let r = x.allow now e.lim in (some (record e { lim = r.0 }), r.1)

  create_limiter-lookup :
      (now : ℕ) (name k : Bytes) (q : ℤ) (m : Manager L)
      → lookup k (create_limiter x now name q m).project_rl ≡ (
          if beq name k
          then some (entry_for now q (lookup name m.project_rl))
          else lookup k m.project_rl)
  unfolding create_limiter entry_for
  create_limiter-lookup now name k q m = elim (Option-cases (lookup name m.project_rl)) [
    | inl new ↦
        ground
          (arith, new, lookup-put name k (record { qps = q; lim = new_limiter x q }) m.project_rl)
    | inr (e, old) ↦ ground (
      arith,
      old,
      beq→≡ name k,
      lookup-put name k (record { qps = q; lim = set_rate x now q e.lim }) m.project_rl,
    )
  ]

  get_or_create_limiter-lookup :
      (now : ℕ) (name k : Bytes) (qps : ℤ) (m : Manager L)
      → lookup k (get_or_create_limiter x (λ w. w) now name qps m).project_rl ≡ (
          if beq name k
          then some (entry_for now (normalize_qps qps) (lookup name m.project_rl))
          else lookup k m.project_rl)
  unfolding get_or_create_limiter entry_for
  get_or_create_limiter-lookup now name k qps m =
      ground (arith, beq→≡ name k, create_limiter-lookup now name k (normalize_qps qps) m)

  allow_project-lookup :
      (now : ℕ) (name k : Bytes) (e : ProjectLimiter L) (m : Manager L)
      → lookup name m.project_rl ≡ some e
      → (lookup k (allow_project x now name m).0.project_rl ≡ (
          if beq name k
          then some (record e { lim = (x.allow now e.lim).0 })
          else lookup k m.project_rl))
        × ((allow_project x now name m).1 ≡ (x.allow now e.lim).1)
  unfolding allow_project
  allow_project-lookup now name k e m old =
      ground (arith, old, lookup-put name k (record e { lim = (x.allow now e.lim).0 }) m.project_rl)

  step :
      (name k : Bytes) (now : ℕ) (m : Manager L)
      → let r = project_middleware x (λ w. w) cfg (some name) now m in
        let s = served now (get_project cfg name) (lookup name m.project_rl) in
        (lookup k r.0.project_rl ≡ (if beq name k then s.0 else lookup k m.project_rl))
        × (r.1 ≡ s.1)
  unfolding project_middleware served
  step name k now m = elim (Option-cases (get_project cfg name)) [
    | inl unknown ↦ ground (arith, unknown, beq→≡ name k)
    | inr (p, found) ↦
        let q = normalize_qps p.rate_limit in
        let e = entry_for now q (lookup name m.project_rl) in
        let m' = get_or_create_limiter x (λ w. w) now name p.rate_limit m in
        ground (
          arith,
          found,
          beq_refl name,
          get_project_sound cfg name p found,
          get_or_create_limiter-lookup now name name p.rate_limit m,
          get_or_create_limiter-lookup now name k p.rate_limit m,
          allow_project-lookup now name k e m',
        )
  ]

  -- Two managers that agree on a project give its requests the same answers.
  answers_agree :
      (name : Bytes) (rs : List (Bytes × ℕ)) (m m' : Manager L)
      → lookup name m.project_rl ≡ lookup name m'.project_rl
      → only name (answers rs m) ≡ answers (only name rs) m'
  unfolding answers
  answers_agree name [] m m' same = refl
  answers_agree name ((n, now) ∷ rs) m m' same =
      let w = (project_middleware x (λ k. k) cfg (some n) now m).0 in
      let w' = (project_middleware x (λ k. k) cfg (some n) now m').0 in
      ground (
        arith,
        same,
        beq→≡ n name,
        step n name now m,
        step n name now m',
        answers_agree name rs w w',
        answers_agree name rs w m',
      )

  -- The requests of a project get the same answers, in order, as if no other project had sent any
  -- between them. The requests run one after the other under one configuration.
  pub answers-only :
      (name : Bytes) (rs : List (Bytes × ℕ)) (m : Manager L)
      → only name (answers rs m) ≡ answers (only name rs) m
  answers-only name rs m = answers_agree name rs m m refl
