-- ===== src/Auth/Window.antt =====
-- The timestamp check of the handler in internal/auth/auth.go: `abs(now-ts) > TimestampWindow` in
-- int64 arithmetic, which wraps around.
use logateway.Prelude.{
  ℕ, ◌+◌, ◌-◌, ◌%◌, ◌^◌, ◌≤◌, ◌<◌, ◌≡◌, ◌↔◌, ◌⊎◌, Bool, true, not, arith, ltb, if◌then◌else◌,
}
use logateway.Prelude.Int.{ℤ, pos, negsuc, pos_part, neg_part, sub_ℕ, ltb_ℤ}

-- the int64 that a true result wraps around to
unfoldable pub wrap64 : ℤ → ℤ
wrap64 (pos n) = let m = n % 2 ^ 64 in if ltb m (2 ^ 63) then pos m else negsuc (2 ^ 64 - m - 1)
wrap64 (negsuc n) = let m = n % 2 ^ 64 in if ltb m (2 ^ 63) then negsuc m else pos (2 ^ 64 - m - 1)

-- now - ts
unfoldable pub sub64 : ℤ → ℤ → ℤ
unfolding wrap64
sub64 a b = wrap64 (sub_ℕ (pos_part a + neg_part b) (neg_part a + pos_part b))

-- abs
unfoldable pub abs64 : ℤ → ℤ
unfolding wrap64
abs64 (pos n) = pos n
abs64 (negsuc n) = wrap64 (pos (n + 1))

-- the negation of the test that refuses a request
unfoldable pub in_window : ℤ → ℤ → ℤ → Bool
unfolding sub64 abs64
in_window now ts window = not (ltb_ℤ window (abs64 (sub64 now ts)))

-- A timestamp that an int64 holds, for a clock and a window that are not negative and below
-- 2^62, is accepted exactly if it lies within the window on either side of the clock, or lies
-- exactly 2^63 seconds before it, where the difference overflows and abs leaves it negative.
pub in_window_iff :
    (now window : ℕ) (ts : ℤ)
    → now < 2 ^ 62
    → window < 2 ^ 62
    → pos_part ts < 2 ^ 63
    → neg_part ts ≤ 2 ^ 63
    → (in_window (pos now) ts (pos window) ≡ true) ↔ (
        ((now + neg_part ts ≤ pos_part ts + window) × (pos_part ts ≤ now + neg_part ts + window))
        ⊎ (now + neg_part ts ≡ pos_part ts + 2 ^ 63))
unfolding in_window
in_window_iff now window (pos t) a b c d = (λ h. ground arith, λ h. ground arith)
in_window_iff now window (negsuc t) a b c d = (λ h. ground arith, λ h. ground arith)
