-- ===== src/Tests/Reports.antt =====
-- A replay of three requests, and a percentile of four samples.
use secure_gpu_inference_gat.Prelude.{
  ◌≡◌, refl, ℕ, ◌*◌, ◌≤◌, ◌<◌, true, false, some, List, [], ◌∷◌, length, map, ◌==◌, string_eq,
  Result, ok, err, arith, if◌then◌else◌,
}
use secure_gpu_inference_gat.Errors.{Exception}
use secure_gpu_inference_gat.Dict
use secure_gpu_inference_gat.Text.{strip, lstrip, rstrip, is_space}
use secure_gpu_inference_gat.Registry.{principals, model_policies}
use secure_gpu_inference_gat.Policy.{evaluate_policy, isdisjoint, has_reason}
use secure_gpu_inference_gat.RateLimit.{
  store, rate_window, budget_window, allow_request, allow_tokens,
}
use secure_gpu_inference_gat.TokenBudget.{estimate_input_tokens}
use secure_gpu_inference_gat.Metrics.{count, bump}
use secure_gpu_inference_gat.Sorting.Ranks.{at_most, below}
use secure_gpu_inference_gat.Replay.{
  ReplayRequest, replay, token_cost, estimate_latency, ninety_fifth, percentile,
}
use secure_gpu_inference_gat.Replay.Loop.{
  Replay, counter_of, list_of, begin, settle, count_outcome, add_latency, limit_outcome,
  replay_outcome, replay_requests,
}
use secure_gpu_inference_gat.Replay.Totals.{
  Decided, one_if, tally, of_model, limiters_of, decide_all, replay_requests-total,
}
use secure_gpu_inference_gat.Replay.Rank.{percentile-rank}

abbrev requests : List ReplayRequest
requests =
    replay "analyst-1" "mission-summarizer" 72 true
    ∷ replay "analyst-1" "threat-triage" 64 true
    ∷ replay "nobody" "benchmark-echo" 32 false
    ∷ []

abbrev clock : ℕ → ℕ × ℕ
clock sequence = (sequence, sequence)

abbrev or_begin : Result Exception Replay → Replay
or_begin (err e) = begin
or_begin (ok r) = r

abbrev last : Replay
last = or_begin (replay_requests 1 (model_policies 60 6000) principals clock 1 requests begin)

is_last : replay_requests 1 (model_policies 60 6000) principals clock 1 requests begin ≡ ok last
unfolding replay_requests replay_outcome limit_outcome settle count_outcome add_latency token_cost
    estimate_latency evaluate_policy isdisjoint has_reason strip lstrip rstrip is_space store
    rate_window budget_window allow_request allow_tokens estimate_input_tokens count bump Dict.get
    Dict.put
is_last = refl

replay_requests-total_example :
    (decided : List Decided) × (decide_all 1
        (model_policies 60 6000)
        principals
        clock
        1
        requests
        (limiters_of begin)
      ≡ ok decided)
    × (map (λ d. d.0) decided ≡ requests)
    × (count last.outcomes "allowed" ≡ tally (λ d. one_if (d.1 == "allowed")) decided)
    × (count (counter_of (Dict.get last.model_outcomes "mission-summarizer")) "allowed"
        ≡ tally (λ d. one_if (of_model "mission-summarizer" "allowed" d)) decided)
    × (count last.model_input_tokens "mission-summarizer"
        ≡ tally (λ d. if d.0.model_id == "mission-summarizer" then token_cost d.0 else 0) decided)
    × (length last.allowed_latencies ≡ tally (λ d. one_if (d.1 == "allowed")) decided)
    × (length (list_of (Dict.get last.model_allowed_latency "mission-summarizer"))
        ≡ tally (λ d. one_if (of_model "mission-summarizer" "allowed" d)) decided)
replay_requests-total_example =
    replay_requests-total 1 (model_policies 60 6000) principals clock requests last
      "mission-summarizer" "allowed" is_last

percentile-rank_example :
    (v : ℕ) × (percentile (40 ∷ 10 ∷ 30 ∷ 20 ∷ []) ninety_fifth ≡ ok (some v))
    × (95 * 4 ≤ 100 * at_most v (40 ∷ 10 ∷ 30 ∷ 20 ∷ []))
    × (100 * below v (40 ∷ 10 ∷ 30 ∷ 20 ∷ []) < 95 * 4)
percentile-rank_example = percentile-rank (40 ∷ 10 ∷ 30 ∷ 20 ∷ []) ninety_fifth (omega arith)
