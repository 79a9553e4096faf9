-- ===== src/Replay/Loop.antt =====
-- gateway/workload_replay.py: the loop of `build_workload_report`.

use secure_gpu_inference_gat.Prelude.{
  ℕ, ◌+◌, String, Option, none, some, List, [], ◌∷◌, ◌++◌, string_eq, ◌==◌, Result, ok, err, ◌>>=◌,
  if◌then◌else◌,
}
use secure_gpu_inference_gat.Errors.{Exception}
use secure_gpu_inference_gat.Dict
use secure_gpu_inference_gat.Dict.{Dict}
use secure_gpu_inference_gat.Models.{Principal, ModelPolicy}
use secure_gpu_inference_gat.Policy.{evaluate_policy}
use secure_gpu_inference_gat.RateLimit.{FixedWindowLimiter, init, allow_request, allow_tokens}
use secure_gpu_inference_gat.Metrics.{bump}
use secure_gpu_inference_gat.Replay.{ReplayRequest, token_cost, estimate_latency}

-- What the loop over the requests keeps.
pub record Replay : Type 0 where
  pub request_limiter : FixedWindowLimiter
  pub token_budget_limiter : FixedWindowLimiter
  pub outcomes : Dict String ℕ
  pub model_outcomes : Dict String (Dict String ℕ)
  pub model_input_tokens : Dict String ℕ
  pub model_allowed_latency : Dict String (List ℕ)
  pub allowed_latencies : List ℕ

-- `d[key]` of a `defaultdict`
abbrev pub counter_of : Option (Dict String ℕ) → Dict String ℕ
counter_of none = Dict.empty
counter_of (some counter) = counter

abbrev pub list_of : Option (List ℕ) → List ℕ
list_of none = []
list_of (some values) = values

abbrev pub begin : Replay
begin = record {
  request_limiter = init 60;
  token_budget_limiter = init 60;
  outcomes = Dict.empty;
  model_outcomes = Dict.empty;
  model_input_tokens = Dict.empty;
  model_allowed_latency = Dict.empty;
  allowed_latencies = [];
}

-- The counts of one request.
unfoldable pub count_outcome : ReplayRequest → String → Replay → Replay
unfolding bump token_cost Dict.put Dict.get
count_outcome request outcome r = record r {
  outcomes = bump r.outcomes outcome 1;
  model_outcomes =
      Dict.put r.model_outcomes request.model_id
        (bump (counter_of (Dict.get r.model_outcomes request.model_id)) outcome 1);
  model_input_tokens = bump r.model_input_tokens request.model_id (token_cost request);
}

-- The latency of a request that is allowed.
unfoldable pub add_latency : ReplayRequest → ℕ → Replay → Replay
unfolding estimate_latency token_cost Dict.put Dict.get
add_latency request sequence r =
    let latency = estimate_latency request.model_id (token_cost request) sequence in
    record r {
      allowed_latencies = r.allowed_latencies ++ latency ∷ [];
      model_allowed_latency =
          Dict.put r.model_allowed_latency request.model_id
            (list_of (Dict.get r.model_allowed_latency request.model_id) ++ latency ∷ []);
    }

unfoldable pub settle : ReplayRequest → ℕ → String → Replay → Replay
unfolding count_outcome add_latency
settle request sequence outcome r =
    let counted = count_outcome request outcome r in
    if outcome == "allowed" then add_latency request sequence counted else counted

-- The two limiters.
abbrev pub Limiters : Type 0
Limiters = FixedWindowLimiter × FixedWindowLimiter

abbrev pub settled :
    ReplayRequest → ℕ → Replay → Result Exception String × Limiters → Result Exception Replay
settled request sequence r (err e, limiters) = err e
settled request sequence r (ok outcome, (requests, tokens)) = ok (
    settle request sequence outcome
      (record r { request_limiter = requests; token_budget_limiter = tokens }))

module _ (ticks : ℕ) (policies : Dict String ModelPolicy) (principals : Dict String Principal) where
  -- The outcome after the policy, with the two limiters asked in turn at their times.
  unfoldable pub limit_outcome :
      ℕ
      → ℕ
      → Principal
      → ModelPolicy
      → ReplayRequest
      → Limiters
      → Result Exception String × Limiters
  unfolding allow_request allow_tokens token_cost
  limit_outcome now later principal policy request (requests, tokens) =
      let (fits, asked) =
        allow_request ticks requests now principal.principal_id request.model_id
          policy.requests_per_minute in
      let (affordable, spent) =
        allow_tokens ticks tokens later principal.principal_id request.model_id (token_cost request)
          policy.input_tokens_per_minute in
      if fits
      then (
        affordable >>= λ fine. ok (if fine then "allowed" else "token_budget_limited"),
        (asked, spent),
      )
      else (ok "rate_limited", (asked, tokens))

  abbrev known_outcome :
      ℕ
      → ℕ
      → Option Principal
      → Option ModelPolicy
      → ReplayRequest
      → Limiters
      → Result Exception String × Limiters
  known_outcome now later (some principal) (some policy) request limiters =
      limit_outcome now later principal policy request limiters
  known_outcome now later _ _ request limiters = (ok "policy_denied", limiters)

  -- The chain of tests in the loop.
  unfoldable pub replay_outcome :
      ℕ → ℕ → ReplayRequest → Limiters → Result Exception String × Limiters
  unfolding Dict.get evaluate_policy limit_outcome
  replay_outcome now later request limiters =
      let policy = Dict.get policies request.model_id in
      let principal = Dict.get principals request.principal_id in
      let reason =
        if request.reason_present then some "synthetic workload-readiness replay" else none in
      let limited = known_outcome now later principal policy request limiters in
      if (evaluate_policy principal policy reason).allowed
      then limited
      else (ok "policy_denied", limiters)

  -- The loop, from a sequence number on, at the times of a clock.
  unfoldable pub replay_requests :
      (ℕ → ℕ × ℕ) → ℕ → List ReplayRequest → Replay → Result Exception Replay
  unfolding replay_outcome settle
  replay_requests clock sequence [] r = ok r
  replay_requests clock sequence (request ∷ requests) r = do
    let (now, later) = clock sequence
    next ←
        settled request sequence r
          (replay_outcome now later request (r.request_limiter, r.token_budget_limiter))
    replay_requests clock (sequence + 1) requests next
