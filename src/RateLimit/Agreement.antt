-- ===== src/RateLimit/Agreement.antt =====
-- The two limiters of gateway/rate_limit.py beside each other.
use secure_gpu_inference_gat.Prelude.{ℕ, ◌≤◌, String, ◌≡◌, ok, arith}
use secure_gpu_inference_gat.RateLimit.{
  FixedWindowLimiter, rate_window, budget_window, allow_request, allow_tokens, key_eq,
}

-- With a limit of at least 1, a call of the request limiter decides and writes what a call of the
-- token limiter does at a cost of 1.
allow_tokens-one :
    (ticks : ℕ) (l : FixedWindowLimiter) (now : ℕ) (p m : String) (limit : ℕ)
    → 1 ≤ limit
    → allow_tokens ticks l now p m 1 limit
      ≡ (ok (allow_request ticks l now p m limit).0, (allow_request ticks l now p m limit).1)
unfolding allow_tokens allow_request rate_window budget_window
allow_tokens-one ticks l now p m limit h = ground arith
