-- ===== src/Replay/Report.antt =====
-- gateway/workload_replay.py: the report on a replay, without the texts that never change.
use secure_gpu_inference_gat.Prelude.{
  ℕ, String, Bool, true, false, not, Option, none, some, List, [], ◌∷◌, map, filter, nat_beq,
  string_eq, Result, ok, ◌>>=◌, ◌>>◌, ◌&&◌,
}
use secure_gpu_inference_gat.Prelude.Int.{ℤ, pos, ltb_ℤ}
use secure_gpu_inference_gat.Errors.{Exception}
use secure_gpu_inference_gat.Sorting.{text_le, sorted}
use secure_gpu_inference_gat.Dict
use secure_gpu_inference_gat.Dict.{Dict, sum_sizes}
use secure_gpu_inference_gat.Models.{Principal, ModelPolicy}
use secure_gpu_inference_gat.Metrics.{count}
use secure_gpu_inference_gat.Replay.{
  ReplayRequest, ReplayThresholds, LatencySummary, validate, ninety_fifth, percentile,
  latency_summary,
}
use secure_gpu_inference_gat.Replay.Loop.{Replay, begin, counter_of, list_of, replay_requests}

-- `sum(counter.values())`
abbrev pub total : Dict String ℕ → ℕ
total = sum_sizes (λ n. n)

abbrev pub by_name : String × ℕ → String × ℕ → Bool
by_name p q = text_le p.0 q.0

-- The required outcomes that never came.
unfoldable pub missing_outcomes : List String → Dict String ℕ → List String
unfolding count
missing_outcomes required outcomes = filter (λ outcome. nat_beq (count outcomes outcome) 0) required

abbrev pub is_within : Option ℕ → ℤ → Bool
is_within none threshold = false
is_within (some latency) threshold = not (ltb_ℤ threshold (pos latency))

pub record ReleaseGates : Type 0 where
  pub missing : List String
  pub is_covered : Bool
  pub observed : Option ℕ
  pub is_fast : Bool

-- `build_release_gates`; the third gate, `no_sensitive_data`, is always passed.
unfoldable pub build_release_gates :
    Dict String ℕ → List ℕ → ReplayThresholds → Result Exception ReleaseGates
unfolding missing_outcomes percentile
build_release_gates outcomes allowed_latencies thresholds = do
  p95 ← percentile allowed_latencies ninety_fifth
  let missing = missing_outcomes thresholds.required_outcomes outcomes
  ok (record {
    missing = missing;
    is_covered = elim missing [ [] ↦ true | _ ∷ _ ↦ false ];
    observed = p95;
    is_fast = is_within p95 thresholds.max_allowed_p95_latency;
  })

pub record ModelReport : Type 0 where
  pub model_id : String
  pub request_count : ℕ
  pub outcomes : List (String × ℕ)
  pub estimated_input_tokens : ℕ
  pub allowed_latency : LatencySummary
  pub policy_limits : Option (ℕ × ℕ)

-- `build_model_report`
unfoldable pub build_model_report :
    String → Option ModelPolicy → Dict String ℕ → ℕ → List ℕ → Result Exception ModelReport
unfolding sum_sizes sorted latency_summary
build_model_report model_id policy outcomes tokens latencies = do
  summary ← latency_summary latencies
  ok (record {
    model_id = model_id;
    request_count = total outcomes;
    outcomes = sorted by_name outcomes.items;
    estimated_input_tokens = tokens;
    allowed_latency = summary;
    policy_limits = elim policy [
      | none ↦ none
      | some limits ↦ some (limits.requests_per_minute, limits.input_tokens_per_minute)
    ];
  })

-- The reports on the models, one after the other.
unfoldable pub model_reports :
    Dict String ModelPolicy → Replay → List String → Result Exception (List ModelReport)
unfolding build_model_report Dict.get count
model_reports policies r [] = ok []
model_reports policies r (model_id ∷ models) = do
  first ←
      build_model_report model_id (Dict.get policies model_id)
        (counter_of (Dict.get r.model_outcomes model_id)) (count r.model_input_tokens model_id)
        (list_of (Dict.get r.model_allowed_latency model_id))
  rest ← model_reports policies r models
  ok (first ∷ rest)

pub record WorkloadReport : Type 0 where
  pub is_ready : Bool
  pub request_count : ℕ
  pub outcomes : List (String × ℕ)
  pub latency : LatencySummary
  pub models : List ModelReport
  pub release_gates : ReleaseGates

-- `build_workload_report`
unfoldable pub build_workload_report :
    ℕ
    → Dict String ModelPolicy
    → Dict String Principal
    → (ℕ → ℕ × ℕ)
    → List ReplayRequest
    → ReplayThresholds
    → Result Exception WorkloadReport
unfolding validate replay_requests build_release_gates model_reports latency_summary sum_sizes
    sorted
build_workload_report ticks policies principals clock requests thresholds = do
  validate thresholds
  r ← replay_requests ticks policies principals clock 1 requests begin
  gates ← build_release_gates r.outcomes r.allowed_latencies thresholds
  models ← model_reports policies r (sorted text_le (map (λ item. item.0) r.model_outcomes.items))
  summary ← latency_summary r.allowed_latencies
  ok (record {
    is_ready = gates.is_covered && gates.is_fast;
    request_count = total r.outcomes;
    outcomes = sorted by_name r.outcomes.items;
    latency = summary;
    models = models;
    release_gates = gates;
  })
