-- ===== src/Tests/Limits.antt =====
-- The theorems on the rate limits, at limiters that count tokens.
use logateway.Prelude.{ℕ, zero, suc, ◌≡◌, refl, Bool, true, false, some, List, [], ◌∷◌, arith}
use logateway.Prelude.Int.{ℤ, pos}
use logateway.Prelude.Bytes.{Bytes, codes, beq}
use logateway.Prelude.Maps.{lookup, put}
use logateway.Config.Manager.{get_project}
use logateway.Tests.Configs.{config}
use logateway.RateLimit.{Limiters, IsLimiters, Manager, project_middleware}
use logateway.RateLimit.Limits.{IsConfigured, project_middleware-IsConfigured}
use logateway.RateLimit.Isolation.{only, answers, answers-only}

-- a limiter that grants as many events as the number of tokens it starts with
abbrev pub Bucket : Type 0
Bucket = ℤ × ℤ × ℕ

abbrev spend : ℕ → Bucket → Bucket × Bool
spend now (r, b, zero) = ((r, b, zero), false)
spend now (r, b, suc n) = ((r, b, n), true)

abbrev pub buckets : ℕ → Limiters Bucket ℤ
buckets tokens = record {
  rate = λ n. n;
  new_limiter = λ r b. (r, b, tokens);
  set_limit = λ t r l. (r, l.1, l.2);
  set_burst = λ t b l. (l.0, b, l.2);
  allow = spend;
  limit_of = λ l. l.0;
  burst_of = λ l. l.1;
}

spend_keeps : (t : ℕ) (l : Bucket) → ((spend t l).0.0 ≡ l.0) × ((spend t l).0.1 ≡ l.1)
spend_keeps t (r, b, zero) = (refl, refl)
spend_keeps t (r, b, suc n) = (refl, refl)

pub buckets-IsLimiters : (tokens : ℕ) → IsLimiters (buckets tokens)
buckets-IsLimiters tokens = record {
  limit-new = λ r b. refl;
  burst-new = λ r b. refl;
  limit-set_limit = λ t r l. refl;
  burst-set_limit = λ t r l. refl;
  limit-set_burst = λ t b l. refl;
  burst-set_burst = λ t b l. refl;
  limit-allow = λ t l. (spend_keeps t l).0;
  burst-allow = λ t l. (spend_keeps t l).1;
}

abbrev fresh : Manager Bucket
fresh = record { project_rl = []; global_rl = (pos 5, pos 10, 3) }

fresh-IsConfigured : IsConfigured (buckets 1) fresh
unfolding lookup
fresh-IsConfigured name e h = absurd (ground arith)

project_middleware-IsConfigured_example :
    IsConfigured
      (buckets 1)
      (project_middleware (buckets 1) (λ m. m) config (some (codes "p")) 0 fresh).0
project_middleware-IsConfigured_example =
    project_middleware-IsConfigured (buckets 1) (buckets-IsLimiters 1) (λ m. m) config
      (some (codes "p")) 0 fresh (λ m h. h) fresh-IsConfigured

-- two requests of a project with a limiter of one token, and one of an unknown project
abbrev requests : List (Bytes × ℕ)
requests = (codes "p", 1) ∷ (codes "q", 2) ∷ (codes "p", 3) ∷ []

answered :
    answers (buckets 1) config requests fresh
    ≡ (codes "p", true) ∷ (codes "q", true) ∷ (codes "p", false) ∷ []
unfolding answers project_middleware lookup beq get_project put
answered = refl

answers-only_example :
    only (codes "p") (answers (buckets 1) config requests fresh)
    ≡ answers (buckets 1) config (only (codes "p") requests) fresh
answers-only_example = answers-only (buckets 1) config (codes "p") requests fresh
