-- ===== src/RateLimit/Spending.antt =====
-- What one call of a limiter writes.
use secure_gpu_inference_gat.Prelude.{
  ℕ, ◌≤◌, String, ◌≡◌, ◌≢◌, true, Option, ok, arith, leb, ◌+◌, ◌*◌, none, some, beq_of_ne, beq_refl,
  if◌then◌else◌,
}
use secure_gpu_inference_gat.Dict
use secure_gpu_inference_gat.Dict.{get-put}
use secure_gpu_inference_gat.RateLimit.{
  Window, Key, key_eq, FixedWindowLimiter, store, is_over, budget_window, allow_tokens,
}
use secure_gpu_inference_gat.RateLimit.Interval.{call-other, get-store}
use secure_gpu_inference_gat.RateLimit.Room.{merged}

-- A call that the token limiter denies, or refuses with an exception, spends nothing.
allow_tokens_denied :
    (ticks : ℕ) (l : FixedWindowLimiter) (now : ℕ) (p m : String) (cost limit : ℕ)
    → (allow_tokens ticks l now p m cost limit).0 ≢ ok true
    → (allow_tokens ticks l now p m cost limit).1 ≡ l
unfolding allow_tokens budget_window store
allow_tokens_denied ticks l now p m cost limit h = ground arith

-- A call of the token limiter, whatever it answers, leaves the window of every other pair of
-- caller and model as it was.
pub allow_tokens_other :
    (ticks : ℕ) (l : FixedWindowLimiter) (now : ℕ) (p m : String) (cost limit : ℕ) (k : Key)
    → (p, m) ≢ k
    → Dict.get (allow_tokens ticks l now p m cost limit).1.windows k ≡ Dict.get l.windows k
allow_tokens_other ticks l now p m cost limit k h =
    call-other ticks l
      (record { now = now; principal_id = p; model_id = m; cost = cost; limit = limit }) k
      (beq_of_ne (p, m) k h)

module _ (ticks : ℕ) where
  used_of : FixedWindowLimiter → ℕ → Option Window → ℕ
  used_of l now none = 0
  used_of l now (some w) = if is_over ticks l now w then 0 else w.count

  -- What a pair of caller and model has spent in its window that is open at a time.
  pub used : FixedWindowLimiter → ℕ → Key → ℕ
  used l now k = used_of l now (Dict.get l.windows k)

  module _ (l : FixedWindowLimiter) (now cost limit : ℕ) (long : 1 ≤ l.window_seconds * ticks) where
    budget_window-allowed :
        (o : Option Window)
        → (budget_window ticks l now cost limit o).0 ≡ leb (used_of l now o + cost) limit
    unfolding budget_window used_of
    budget_window-allowed none = ground arith
    budget_window-allowed (some w) = ground arith

    budget_window-used :
        (o : Option Window)
        → used_of l now (merged o (budget_window ticks l now cost limit o).1)
          ≡ (if leb (used_of l now o + cost) limit then used_of l now o + cost else used_of l now o)
    unfolding budget_window used_of
    budget_window-used none = ground arith
    budget_window-used (some w) = ground arith

  used_of-store :
      (l : FixedWindowLimiter) (now : ℕ) (k : Key) (w o : Option Window)
      → used_of (store l k w) now o ≡ used_of l now o
  unfolding store used_of
  used_of-store l now k w o = ground arith

  -- A call with a positive cost and limit is allowed exactly when the cost still fits, and then
  -- the cost is added to what is spent; a denied call leaves that as it is.
  pub allow_tokens-used :
      (l : FixedWindowLimiter) (now : ℕ) (p m : String) (cost limit : ℕ)
      → 1 ≤ l.window_seconds * ticks
      → 1 ≤ cost
      → 1 ≤ limit
      → ((allow_tokens ticks l now p m cost limit).0 ≡ ok (leb (used l now (p, m) + cost) limit))
        × (used (allow_tokens ticks l now p m cost limit).1 now (p, m) ≡ (
            if leb (used l now (p, m) + cost) limit
            then used l now (p, m) + cost
            else used l now (p, m)))
  unfolding allow_tokens used
  allow_tokens-used l now p m cost limit long costs limited =
      let old = Dict.get l.windows (p, m) in
      let step = budget_window ticks l now cost limit old in
      ground (
        arith,
        get-store l (p, m) (p, m) step.1,
        beq_refl {A = Key} (p, m),
        budget_window-allowed l now cost limit long old,
        budget_window-used l now cost limit long old,
        used_of-store l now (p, m) step.1 (merged old step.1),
      )
