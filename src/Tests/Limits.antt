-- ===== src/Tests/Limits.antt =====
-- The limiters, the cap on recorded denials and the estimate, at work.
use secure_gpu_inference_gat.Prelude.{
  ◌+◌, ◌*◌, ◌≤◌, ◌<◌, ◌≡◌, refl, ◌⊎◌, true, false, List, [], ◌∷◌, string_eq, leb, ok, err, arith,
  if◌then◌else◌,
}
use secure_gpu_inference_gat.Errors.{value_error}
use secure_gpu_inference_gat.Dict
use secure_gpu_inference_gat.RateLimit
use secure_gpu_inference_gat.RateLimit.{
  Key, FixedWindowLimiter, key_eq, allow_request, allow_tokens,
}
use secure_gpu_inference_gat.RateLimit.Interval.{Call, spent, spent-le}
use secure_gpu_inference_gat.RateLimit.Spending.{allow_tokens_other, used, allow_tokens-used}
use secure_gpu_inference_gat.Audit
use secure_gpu_inference_gat.Audit.Interval.{recorded, recorded-le}
use secure_gpu_inference_gat.Text.{len, strip, is_space}
use secure_gpu_inference_gat.TokenBudget.{estimate_input_tokens}
use secure_gpu_inference_gat.TokenBudget.Bounds.{estimate_bounds}

limiters : Unit {0}
unfolding allow_tokens RateLimit.budget_window RateLimit.store Dict.get Dict.put
limiters = tt

abbrev fresh : FixedWindowLimiter
fresh = RateLimit.init 60

-- After 70 tokens of ada on m at the time 5.
abbrev partly_spent : FixedWindowLimiter
partly_spent = (allow_tokens 1 fresh 5 "ada" "m" 70 100).1

spends : (allow_tokens 1 fresh 5 "ada" "m" 70 100).0 ≡ ok true
unfolding limiters
spends = refl

too_much : (allow_tokens 1 partly_spent 6 "ada" "m" 31 100).0 ≡ ok false
unfolding limiters
too_much = refl

next_window : (allow_tokens 1 partly_spent 65 "ada" "m" 31 100).0 ≡ ok true
unfolding limiters
next_window = refl

no_cost :
    (allow_tokens 1 fresh 5 "ada" "m" 0 100).0 ≡ err (value_error "token cost must be positive")
unfolding limiters
no_cost = refl

allow_tokens-used_example :
    ((allow_tokens 1 partly_spent 6 "ada" "m" 30 100).0
      ≡ ok (leb (used 1 partly_spent 6 ("ada", "m") + 30) 100))
    × (used 1 (allow_tokens 1 partly_spent 6 "ada" "m" 30 100).1 6 ("ada", "m") ≡ (
        if leb (used 1 partly_spent 6 ("ada", "m") + 30) 100
        then used 1 partly_spent 6 ("ada", "m") + 30
        else used 1 partly_spent 6 ("ada", "m")))
unfolding limiters
allow_tokens-used_example =
    allow_tokens-used 1 partly_spent 6 "ada" "m" 30 100 (omega arith) (omega arith) (omega arith)

allow_tokens_other_example :
    Dict.get (allow_tokens 1 partly_spent 6 "bob" "m" 31 100).1.windows ("ada", "m")
    ≡ Dict.get partly_spent.windows ("ada", "m")
allow_tokens_other_example =
    allow_tokens_other 1 partly_spent 6 "bob" "m" 31 100 ("ada", "m")
      (λ h. ground (arith, (key_eq.beq_iff ("bob", "m") ("ada", "m")).1 h))

-- A window that is filled at its end, and the next that is filled at its beginning.
abbrev two_windows : List Call
two_windows =
    record { now = 0; principal_id = "ada"; model_id = "m"; cost = 1; limit = 100 }
    ∷ record { now = 59; principal_id = "ada"; model_id = "m"; cost = 99; limit = 100 }
    ∷ record { now = 60; principal_id = "ada"; model_id = "m"; cost = 100; limit = 100 }
    ∷ []

spent-le_example : spent 1 59 ("ada", "m") (RateLimit.init 60) two_windows ≤ 2 * 100
spent-le_example =
    spent-le 1 59 ("ada", "m") 100 0 60 two_windows (omega arith, (omega arith, (omega arith, tt)))
      ((λ h. refl), ((λ h. refl), ((λ h. refl), tt)))

recorded-le_example : recorded 1 59 (Audit.init 2 0) (58 ∷ 59 ∷ 60 ∷ 61 ∷ []) ≤ 2 * 2
recorded-le_example =
    recorded-le 1 59 2 0 (58 ∷ 59 ∷ 60 ∷ 61 ∷ [])
      (omega arith, (omega arith, (omega arith, (omega arith, tt))))

estimate_bounds_example :
    (1 ≤ estimate_input_tokens " abcde ")
    × (len (strip " abcde ") ≤ 4 * estimate_input_tokens " abcde ")
    × ((estimate_input_tokens " abcde " ≡ 1)
        ⊎ (4 * estimate_input_tokens " abcde " < len (strip " abcde ") + 4))
estimate_bounds_example = estimate_bounds " abcde "

five_letters : estimate_input_tokens " abcde " ≡ 2
unfolding estimate_input_tokens strip is_space
five_letters = refl
