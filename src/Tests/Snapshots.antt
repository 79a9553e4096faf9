-- ===== src/Tests/Snapshots.antt =====
-- A histogram of four latencies, the line of a counter, and a snapshot of a short metrics text.

use Prim.Native.String.{◌++◌}
use secure_gpu_inference_gat.Prelude.{
  ◌≡◌, refl, ◌↔◌, ◌⊎◌, ℕ, ◌+◌, ◌*◌, ◌≤◌, ◌<◌, ◌/◌, String, true, false, Option, none, some, List,
  [], ◌∷◌, All, length, ◌==◌, string_eq, Result, ok, err, ◌>>=◌, arith, if◌then◌else◌,
}
use secure_gpu_inference_gat.Prelude.Int.{pos}
use secure_gpu_inference_gat.Errors.{Exception}
use secure_gpu_inference_gat.Dict
use secure_gpu_inference_gat.Text.{decimal, is_space}
use secure_gpu_inference_gat.Text.Case.{lower_char, is_cased, lower_code}
use secure_gpu_inference_gat.Sorting.{sorted}
use secure_gpu_inference_gat.Telemetry.{parse_labels}
use secure_gpu_inference_gat.Text.Split.{ends_line, splitlines}
use secure_gpu_inference_gat.Text.Decimal.{ascii_digit}
use secure_gpu_inference_gat.Sorting.Ranks.{count_if, at_most}
use secure_gpu_inference_gat.Json.{Float, finite, Json, null, str}
use secure_gpu_inference_gat.Floats.{Rounding, of_nat}
use secure_gpu_inference_gat.Metrics.{GatewayMetrics, bucket_eq, count, bump}
use secure_gpu_inference_gat.Metrics.Histogram.{observe_all, observe_all-histogram}
use secure_gpu_inference_gat.Metrics.Render.{MetricSample, whole, format_sample}
use secure_gpu_inference_gat.Telemetry.Labels.{put_all}
use secure_gpu_inference_gat.Telemetry.Lines.{Sample, parse_prometheus, read_lines}
use secure_gpu_inference_gat.Telemetry.Snapshot.{
  Collected, nothing, add_samples, to_ms, latency_summary,
}
use secure_gpu_inference_gat.Telemetry.Build.{total_requests, build_snapshot}
use secure_gpu_inference_gat.Telemetry.Bound.{IsLeast, observed_latency, latency_summary-p95}
use secure_gpu_inference_gat.Telemetry.ReadBack.{parse_prometheus-format_sample}
use secure_gpu_inference_gat.Telemetry.Public.{published, IsClean}
use secure_gpu_inference_gat.Telemetry.Verdict.{status_of, probe_passes, build_snapshot-published}

abbrev buckets : List ℕ
buckets = 25 ∷ 50 ∷ 100 ∷ []

abbrev started : GatewayMetrics
started = record {
  latency_buckets = buckets;
  limiter_latency_buckets = [];
  requests = Dict.empty;
  denials = Dict.empty;
  audit_suppressed = 0;
  auth_events = Dict.empty;
  input_tokens = Dict.empty;
  bucket_counts = Dict.empty;
  latency_count = Dict.empty;
  latency_sum = Dict.empty;
  limiter_bucket_counts = Dict.empty;
  limiter_latency_count = Dict.empty;
  limiter_latency_sum = Dict.empty;
}

abbrev observed : List (String × ℕ)
observed = ("m", 20) ∷ ("m", 40) ∷ ("n", 900) ∷ ("m", 30) ∷ ("m", 90) ∷ []

observe_all-histogram_example :
    (count (observe_all started observed).bucket_counts ("m", 50)
      ≡ count started.bucket_counts ("m", 50) + at_most 50 (20 ∷ 40 ∷ 30 ∷ 90 ∷ []))
    × (count (observe_all started observed).latency_count "m" ≡ count started.latency_count "m" + 4)
    × (count (observe_all started observed).latency_sum "m" ≡ count started.latency_sum "m" + 180)
unfolding count_if
observe_all-histogram_example = observe_all-histogram observed started "m" 50 refl

abbrev exact_times : Float → Float → Float
exact_times (finite (pos m)) (finite (pos n)) = finite (pos (m * n / 1000))
exact_times a b = a

-- Exact arithmetic in milliseconds.
abbrev in_ms : Rounding
in_ms = record {
  ticks = 1000;
  times = exact_times;
  minus = λ a b. a;
  over = λ a b. a;
  round = λ a digits. a;
}

latency_summary-p95_example :
    let latencies : List ℕ = 20 ∷ 40 ∷ 30 ∷ 90 ∷ [] in
    let found : Option Float =
      (latency_summary in_ms (
        observed_latency (observe_all started observed) "m" (of_nat in_ms 0))).p95_upper_bound_ms in
    ((b : ℕ) × (found ≡ some (to_ms in_ms (finite (pos b)))) × IsLeast b buckets latencies)
    ⊎ (found ≡ none) × All (λ c. 100 * at_most c latencies < 95 * length latencies) buckets
unfolding count_if
latency_summary-p95_example =
    latency_summary-p95 in_ms started observed "m" (of_nat in_ms 0) refl refl
      ((omega arith, (omega arith, tt)), ((omega arith, tt), (tt, tt))) (refl, (refl, (refl, tt)))
      (omega arith)

abbrev sample : MetricSample
sample = record {
  name = "security_gateway_requests_total";
  labels = ("outcome", "allowed") ∷ ("model_id", "a\"b}\\\n") ∷ [];
  value = whole 12;
}

-- The numbers of the texts below.
abbrev to_float : String → Option Float
to_float text =
    if text == "12"
    then some (finite (pos 12000))
    else if text == "1"
    then some (finite (pos 1000))
    else none

parse_prometheus-format_sample_example :
    parse_prometheus ascii_digit to_float
      (format_sample (λ n. "") (λ n. "") sample ++ "\n" ++ "# the end")
    ≡ (read_lines ascii_digit to_float 2 (splitlines "# the end") >>= λ more. ok (
        record {
          name = "security_gateway_requests_total";
          labels = put_all (("model_id", "a\"b}\\\n") ∷ ("outcome", "allowed") ∷ []) Dict.empty;
          value = of_nat in_ms 12;
        }
        ∷ more))
unfolding decimal is_space ends_line sorted
parse_prometheus-format_sample_example =
    parse_prometheus-format_sample in_ms ascii_digit to_float (λ n. "") (λ n. "") 12 sample
      "# the end" (λ c h. h) refl refl (refl, (refl, tt)) refl

abbrev text : String
text =
    "# TYPE security_gateway_requests_total counter\nsecurity_gateway_requests_total{model_id=\"m\",outcome=\"allowed\"} 12\n\nsecurity_gateway_inference_latency_seconds_count{model_id=\"m\"} 12\n"

abbrev or_null : Result Exception Json → Json
or_null (err e) = null
or_null (ok j) = j

abbrev made : Json
made = or_null (build_snapshot in_ms ascii_digit to_float text none)

build_snapshot-published_example :
    All IsClean (published false made)
    × (samples : List Sample) × (parse_prometheus ascii_digit to_float text ≡ ok samples)
    × (c : Collected) × (add_samples in_ms to_float nothing samples ≡ ok c)
    × ((status_of made ≡ some (str "pass"))
        ↔ ((1 ≤ total_requests c) × (1 ≤ length c.latency.items) × (probe_passes none ≡ true)))
unfolding build_snapshot parse_prometheus is_space parse_labels lower_char is_cased lower_code
    Dict.sum_sizes bump
build_snapshot-published_example =
    build_snapshot-published in_ms ascii_digit to_float text none made refl
