-- ===== src/RateLimit/Limits.antt =====
-- The limiters have the rates that the configuration asks for.
use mathlib.Core.Path.{subst}
use logateway.Prelude.{
  ℕ, ◌≡◌, ap, ◌∙◌, true, Option, none, some, arith, Option-cases, Bool-cases, inl, inr,
}
use logateway.Prelude.Int.{ℤ, eq_ℤ, eq_ℤ→≡}
use logateway.Prelude.Bytes.{Bytes, beq_refl}
use logateway.Prelude.Maps.{lookup, put, lookup-put}
use logateway.Config.Types.{Config}
use logateway.Config.Manager.{get_project}
use logateway.RateLimit.{
  Limiters, IsLimiters, ProjectLimiter, Manager, normalize_qps, double, new_limiter, set_rate,
  create_limiter, get_or_create_limiter, allow_project, project_middleware,
}

pub normalize_qps_idem : (q : ℤ) → normalize_qps (normalize_qps q) ≡ normalize_qps q
unfolding normalize_qps
normalize_qps_idem q = ground arith

module _ {L R : Type 0} (x : Limiters L R) where
  -- A limiter that grants `qps` events a second, and bursts of twice as many.
  abbrev pub HasRate : ℤ → L → Type 0
  HasRate qps l =
      (normalize_qps qps ≡ qps) × (x.limit_of l ≡ x.rate qps) × (x.burst_of l ≡ double qps)

  -- Each project's limiter has the rate that its entry records.
  abbrev pub IsConfigured : Manager L → Type 0
  IsConfigured m =
      (name : Bytes) (e : ProjectLimiter L)
      → lookup name m.project_rl ≡ some e
      → HasRate e.qps e.lim

module _ {L R : Type 0} (x : Limiters L R) (laws : IsLimiters x) where
  new_limiter-HasRate : (q : ℤ) → normalize_qps q ≡ q → HasRate x q (new_limiter x q)
  unfolding new_limiter
  new_limiter-HasRate q e = (e, laws.limit-new _ _ ∙ ap x.rate e, laws.burst-new _ _ ∙ ap double e)

  pub set_rate-HasRate :
      (now : ℕ) (q : ℤ) (l : L) → normalize_qps q ≡ q → HasRate x q (set_rate x now q l)
  unfolding set_rate
  set_rate-HasRate now q l e =
      (e, laws.limit-set_burst now _ _ ∙ laws.limit-set_limit now _ l, laws.burst-set_burst now _ _)

  allow-HasRate : (now : ℕ) (q : ℤ) (l : L) → HasRate x q l → HasRate x q (x.allow now l).0
  allow-HasRate now q l h = (h.0, laws.limit-allow now l ∙ h.1, laws.burst-allow now l ∙ h.2)

  -- the invariant, when one entry is written
  put-IsConfigured :
      (name : Bytes) (e : ProjectLimiter L) (m : Manager L)
      → HasRate x e.qps e.lim
      → IsConfigured x m
      → IsConfigured x (record m { project_rl = put name e m.project_rl })
  put-IsConfigured name e m h all k e' found =
      ground (arith, lookup-put name k e m.project_rl, all k e', h)

  -- the limiter of the project has the rate, and so have the others theirs
  abbrev pub Serves : Bytes → ℤ → Manager L → Type 0
  Serves project q m =
      ((e : ProjectLimiter L) × (lookup project m.project_rl ≡ some e) × HasRate x q e.lim)
      × IsConfigured x m

  put-Serves :
      (name : Bytes) (q : ℤ) (l : L) (m : Manager L)
      → HasRate x q l
      → IsConfigured x m
      → Serves name q
          (record m { project_rl = put name (record { qps = q; lim = l }) m.project_rl })
  put-Serves name q l m h all =
      let e : ProjectLimiter L = record { qps = q; lim = l } in
      (
        (e, ground (arith, lookup-put name name e m.project_rl, beq_refl name), h),
        put-IsConfigured name e m h all,
      )

  kept-Serves :
      (name : Bytes) (q : ℤ) (e : ProjectLimiter L) (m : Manager L)
      → lookup name m.project_rl ≡ some e
      → eq_ℤ e.qps q ≡ true
      → IsConfigured x m
      → Serves name q m
  kept-Serves name q e m old same all =
      ((e, old, subst (λ k. HasRate x k e.lim) (eq_ℤ→≡ e.qps q same) (all name e old)), all)

  create_limiter-Serves :
      (now : ℕ) (project : Bytes) (q : ℤ) (m : Manager L)
      → normalize_qps q ≡ q
      → IsConfigured x m
      → Serves project q (create_limiter x now project q m)
  unfolding create_limiter
  create_limiter-Serves now project q m n all = elim (Option-cases (lookup project m.project_rl)) [
    | inl new ↦
        rw (new, create_limiter)
          (put-Serves project q (new_limiter x q) m (new_limiter-HasRate q n) all)
    | inr (e, old) ↦ elim (Bool-cases (eq_ℤ e.qps q)) [
      | inl same ↦
          rw (old, create_limiter)
            (rw (same, create_limiter) (kept-Serves project q e m old same all))
      | inr other ↦
          rw (old, create_limiter)
            (rw (other, create_limiter)
              (put-Serves project q (set_rate x now q e.lim) m (set_rate-HasRate now q e.lim n)
                all))
    ]
  ]

  pub get_or_create_limiter-Serves :
      (meanwhile : Manager L → Manager L) (now : ℕ) (project : Bytes) (qps : ℤ) (m : Manager L)
      → ((k : Manager L) → IsConfigured x k → IsConfigured x (meanwhile k))
      → IsConfigured x m
      → Serves project (normalize_qps qps) (get_or_create_limiter x meanwhile now project qps m)
  unfolding get_or_create_limiter
  get_or_create_limiter-Serves meanwhile now project qps m keeps all =
      let q = normalize_qps qps in
      let slow =
        create_limiter-Serves now project q (meanwhile m) (normalize_qps_idem qps) (keeps m all) in
      elim (Option-cases (lookup project m.project_rl)) [
        | inl new ↦ rw (new, get_or_create_limiter) slow
        | inr (e, old) ↦ elim (Bool-cases (eq_ℤ e.qps q)) [
          | inl same ↦
              rw (old, get_or_create_limiter)
                (rw (same, get_or_create_limiter) (kept-Serves project q e m old same all))
          | inr other ↦ rw (old, get_or_create_limiter) (rw (other, get_or_create_limiter) slow)
        ]
      ]

  allow_project-IsConfigured :
      (now : ℕ) (project : Bytes) (m : Manager L)
      → IsConfigured x m
      → IsConfigured x (allow_project x now project m).0
  unfolding allow_project
  allow_project-IsConfigured now project m all = elim (Option-cases (lookup project m.project_rl)) [
    | inl new ↦ rw (new, allow_project) all
    | inr (e, old) ↦
        rw (old, allow_project)
          (put-IsConfigured project (record e { lim = (x.allow now e.lim).0 }) m
            (allow-HasRate now e.qps e.lim (all project e old)) all)
  ]

  -- If every limiter has the rate of its entry before, and what other requests do keeps that, then
  -- it holds after ProjectMiddleware has passed or refused a request, of any project.
  pub project_middleware-IsConfigured :
      (meanwhile : Manager L → Manager L) (cfg : Config) (name : Option Bytes) (now : ℕ)
      (m : Manager L)
      → ((k : Manager L) → IsConfigured x k → IsConfigured x (meanwhile k))
      → IsConfigured x m
      → IsConfigured x (project_middleware x meanwhile cfg name now m).0
  unfolding project_middleware
  project_middleware-IsConfigured meanwhile cfg none now m keeps all = all
  project_middleware-IsConfigured meanwhile cfg (some name) now m keeps all =
      elim (Option-cases (get_project cfg name)) [
        | inl unknown ↦ rw (unknown, project_middleware) all
        | inr (p, found) ↦
            rw (found, project_middleware)
              (allow_project-IsConfigured now p.name
                (get_or_create_limiter x meanwhile now p.name p.rate_limit m)
                (get_or_create_limiter-Serves meanwhile now p.name p.rate_limit m keeps all).1)
      ]
