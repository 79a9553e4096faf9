-- ===== src/RateLimit.antt =====
-- gateway/rate_limit.py, the in-memory limiters. A time is a whole number of ticks, of which
-- `ticks` make a second, so the test `now - started_at >= window_seconds` is exact.
pub mod Room
pub mod Interval
pub mod Spending
pub mod Agreement
use secure_gpu_inference_gat.Prelude.{
  ℕ, ◌+◌, ◌*◌, String, Bool, true, false, Option, none, some, Eq, string_eq, pair_eq, ltb, leb,
  Result, ok, err, if◌then◌else◌,
}
use secure_gpu_inference_gat.Errors.{Exception, value_error}
use secure_gpu_inference_gat.Dict
use secure_gpu_inference_gat.Dict.{Dict}

pub record Window : Type 0 where
  pub started_at : ℕ
  pub count : ℕ

-- `(principal_id, model_id)`
abbrev pub Key : Type 0
Key = String × String

instance abbrev pub key_eq : Eq Key
key_eq = pair_eq string_eq string_eq

-- The fields of `FixedWindowRateLimiter` and of `FixedWindowTokenBudgetLimiter`.
pub record FixedWindowLimiter : Type 0 where
  pub window_seconds : ℕ
  pub windows : Dict Key Window

abbrev pub init : ℕ → FixedWindowLimiter
init window_seconds = record { window_seconds = window_seconds; windows = Dict.empty }

-- `self.windows[key] = window`; `none` is a call that writes nothing.
unfoldable pub store : FixedWindowLimiter → Key → Option Window → FixedWindowLimiter
store l key none = l
store l key (some w) = record l { windows = Dict.put l.windows key w }

module _ (ticks : ℕ) where
  -- `now - window.started_at >= self.window_seconds`
  abbrev pub is_over : FixedWindowLimiter → ℕ → Window → Bool
  is_over l now w = leb (w.started_at + l.window_seconds * ticks) now

  unfoldable pub rate_window : FixedWindowLimiter → ℕ → ℕ → Option Window → Bool × Option Window
  rate_window l now limit none = (true, some (record { started_at = now; count = 1 }))
  rate_window l now limit (some w) =
      if is_over l now w
      then (true, some (record { started_at = now; count = 1 }))
      else if leb limit w.count
      then (false, none)
      else (true, some (record w { count = w.count + 1 }))

  -- `FixedWindowRateLimiter.allow`
  unfoldable pub allow_request :
      FixedWindowLimiter → ℕ → String → String → ℕ → Bool × FixedWindowLimiter
  allow_request l now principal_id model_id limit =
      let key : Key = (principal_id, model_id) in
      let (allowed, window) = rate_window l now limit (Dict.get l.windows key) in
      (allowed, store l key window)

  new_budget : ℕ → ℕ → ℕ → Bool × Option Window
  new_budget now cost limit =
      if ltb limit cost
      then (false, none)
      else (true, some (record { started_at = now; count = cost }))

  unfoldable pub budget_window :
      FixedWindowLimiter → ℕ → ℕ → ℕ → Option Window → Bool × Option Window
  unfolding new_budget
  budget_window l now cost limit none = new_budget now cost limit
  budget_window l now cost limit (some w) =
      if is_over l now w
      then new_budget now cost limit
      else if ltb limit (w.count + cost)
      then (false, none)
      else (true, some (record w { count = w.count + cost }))

  -- `FixedWindowTokenBudgetLimiter.allow`; what raises writes nothing.
  unfoldable pub allow_tokens :
      FixedWindowLimiter → ℕ → String → String → ℕ → ℕ → Result Exception Bool × FixedWindowLimiter
  allow_tokens l now principal_id model_id cost limit =
      if ltb cost 1
      then (err (value_error "token cost must be positive"), l)
      else if ltb limit 1
      then (err (value_error "token limit must be positive"), l)
      else let key : Key = (principal_id, model_id) in
        let (allowed, window) = budget_window l now cost limit (Dict.get l.windows key) in
        (ok allowed, store l key window)
