-- ===== src/RateLimit.antt =====
-- internal/ratelimit/ratelimit.go: the limiter of the gateway and those of the projects. The token
-- bucket is golang.org/x/time/rate, a parameter. An entry of the map and the limiter in it are
-- shared by pointer: a call that changes one changes what the map holds under its name.
pub mod Limits
pub mod Isolation
pub mod Reload
use logateway.Prelude.{
  ℕ, zero, suc, ◌+◌, ◌*◌, ◌≡◌, Bool, true, false, Option, none, some, List, [], ◌∷◌, if◌then◌else◌,
}
use logateway.Prelude.Int.{ℤ, pos, negsuc, eq_ℤ}
use logateway.Prelude.Bytes.{Bytes}
use logateway.Prelude.Maps.{lookup, put}
use logateway.Config.Types.{ProjectConfig, Config}
use logateway.Config.Manager.{get_project}
use logateway.Auth.Window.{wrap64}

-- `*rate.Limiter` as `L` and `rate.Limit` as `R`: NewLimiter, the setters and Allow, which read
-- the clock, and the getters Limit and Burst; `rate` is the conversion rate.Limit(n).
pub record Limiters (L R : Type 0) : Type 0 where
  pub rate : ℤ → R
  pub new_limiter : R → ℤ → L
  pub set_limit : ℕ → R → L → L
  pub set_burst : ℕ → ℤ → L → L
  pub allow : ℕ → L → L × Bool
  pub limit_of : L → R
  pub burst_of : L → ℤ

-- What the package documents of the getters.
pub record IsLimiters {L R : Type 0} (x : Limiters L R) : Type 0 where
  pub limit-new : (r : R) (b : ℤ) → x.limit_of (x.new_limiter r b) ≡ r
  pub burst-new : (r : R) (b : ℤ) → x.burst_of (x.new_limiter r b) ≡ b
  pub limit-set_limit : (t : ℕ) (r : R) (l : L) → x.limit_of (x.set_limit t r l) ≡ r
  pub burst-set_limit : (t : ℕ) (r : R) (l : L) → x.burst_of (x.set_limit t r l) ≡ x.burst_of l
  pub limit-set_burst : (t : ℕ) (b : ℤ) (l : L) → x.limit_of (x.set_burst t b l) ≡ x.limit_of l
  pub burst-set_burst : (t : ℕ) (b : ℤ) (l : L) → x.burst_of (x.set_burst t b l) ≡ b
  pub limit-allow : (t : ℕ) (l : L) → x.limit_of (x.allow t l).0 ≡ x.limit_of l
  pub burst-allow : (t : ℕ) (l : L) → x.burst_of (x.allow t l).0 ≡ x.burst_of l

-- projectLimiter
pub record ProjectLimiter (L : Type 0) : Type 0 where
  pub qps : ℤ
  pub lim : L

-- Manager; the configuration is an argument of what reads it
pub record Manager (L : Type 0) : Type 0 where
  pub project_rl : List (Bytes × ProjectLimiter L)
  pub global_rl : L

-- normalizeQPS
unfoldable pub normalize_qps : ℤ → ℤ
normalize_qps (pos zero) = pos 1000
normalize_qps (pos (suc n)) = pos (suc n)
normalize_qps (negsuc n) = pos 1000

-- `qps*2` in an int
unfoldable pub double : ℤ → ℤ
unfolding wrap64
double (pos n) = wrap64 (pos (n * 2))
double (negsuc n) = wrap64 (negsuc (n * 2 + 1))

module _ {L R : Type 0} (x : Limiters L R) where
  -- newLimiter
  unfoldable pub new_limiter : ℤ → L
  unfolding normalize_qps double
  new_limiter qps = let q = normalize_qps qps in x.new_limiter (x.rate q) (double q)

  -- SetLimit and SetBurst, one after the other
  unfoldable pub set_rate : ℕ → ℤ → L → L
  unfolding double
  set_rate now qps l = x.set_burst now (double qps) (x.set_limit now (x.rate qps) l)

  -- NewManager, with the rate limit of the configuration
  unfoldable pub new_manager : ℤ → Manager L
  unfolding new_limiter
  new_manager global_rate_limit = record {
    project_rl = [];
    global_rl = new_limiter global_rate_limit;
  }

  -- GetOrCreateLimiter behind m.mu.Lock(), for a rate that is normalized
  unfoldable pub create_limiter : ℕ → Bytes → ℤ → Manager L → Manager L
  unfolding new_limiter set_rate
  create_limiter now project qps m = elim (lookup project m.project_rl) [
    | none ↦ record m {
      project_rl = put project (record { qps = qps; lim = new_limiter qps }) m.project_rl;
    }
    | some entry ↦ if eq_ℤ entry.qps qps then m else record m {
      project_rl =
          put project (record { qps = qps; lim = set_rate now qps entry.lim }) m.project_rl;
    }
  ]

  -- GetOrCreateLimiter. The limiter that it returns is the one under the project's name
  -- afterwards. `meanwhile` is what other requests do between the two locks.
  unfoldable pub get_or_create_limiter :
      (Manager L → Manager L) → ℕ → Bytes → ℤ → Manager L → Manager L
  unfolding create_limiter normalize_qps
  get_or_create_limiter meanwhile now project qps m =
      let q = normalize_qps qps in
      elim (lookup project m.project_rl) [
        | none ↦ create_limiter now project q (meanwhile m)
        | some entry ↦ if eq_ℤ entry.qps q then m else create_limiter now project q (meanwhile m)
      ]

  -- updateGlobalLimiter
  unfoldable pub update_global_limiter : ℕ → ℤ → Manager L → Manager L
  unfolding set_rate normalize_qps
  update_global_limiter now qps m = record m {
    global_rl = set_rate now (normalize_qps qps) m.global_rl;
  }

  -- GlobalMiddleware, GlobalLimit: `true` lets the request through, `false` answers 429
  unfoldable pub global_middleware : ℕ → Manager L → Manager L × Bool
  global_middleware now m =
      let (l, ok) = x.allow now m.global_rl in (record m { global_rl = l }, ok)

  -- `lim.Allow()` on the limiter under a name
  unfoldable pub allow_project : ℕ → Bytes → Manager L → Manager L × Bool
  allow_project now project m = elim (lookup project m.project_rl) [
    | none ↦ (m, true)
    | some entry ↦
        let (l, ok) = x.allow now entry.lim in
        (record m { project_rl = put project (record entry { lim = l }) m.project_rl }, ok)
  ]

  -- ProjectMiddleware, with the `project_name` of the request if it is set
  unfoldable pub project_middleware :
      (Manager L → Manager L) → Config → Option Bytes → ℕ → Manager L → Manager L × Bool
  unfolding get_or_create_limiter allow_project
  project_middleware meanwhile cfg none now m = (m, true)
  project_middleware meanwhile cfg (some name) now m = elim (get_project cfg name) [
    | none ↦ (m, true)
    | some p ↦ allow_project now p.name (get_or_create_limiter meanwhile now p.name p.rate_limit m)
  ]
