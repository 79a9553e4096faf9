-- ===== src/Telemetry/Build.antt =====
-- gateway/telemetry_snapshot.py, `build_snapshot`: the snapshot as the JSON value that is published.
use Prim.Native.Char.{Char}
use secure_gpu_inference_gat.Prelude.{
  ℕ, String, Bool, true, false, not, ◌&&◌, Option, none, some, List, [], ◌∷◌, ◌++◌, map, length,
  ltb, nat_beq, ◌==◌, string_eq, Result, ok, ◌>>=◌, ◌>>◌, if◌then◌else◌,
}
use secure_gpu_inference_gat.Prelude.Int.{pos}
use secure_gpu_inference_gat.Errors.{Exception}
use secure_gpu_inference_gat.Dict
use secure_gpu_inference_gat.Dict.{Dict}
use secure_gpu_inference_gat.Sorting.{sorted, text_le}
use secure_gpu_inference_gat.Metrics.{count}
use secure_gpu_inference_gat.Json.{
  Float, Json, null, int, float, str, arr, Fields, get, object, to_items,
}
use secure_gpu_inference_gat.Floats.{Rounding, of_nat}
use secure_gpu_inference_gat.Telemetry.{walk}
use secure_gpu_inference_gat.Telemetry.Lines.{parse_prometheus}
use secure_gpu_inference_gat.Telemetry.Snapshot.{
  Collected, nothing, add_samples, LatencySummary, latency_summary,
}
use secure_gpu_inference_gat.Telemetry.Probe.{aggregate_probe, strings}

abbrev or_null : Option Float → Json
or_null none = null
or_null (some x) = float x

abbrev or_json : Json → Option Json → Json
or_json default none = default
or_json default (some value) = value

abbrev summary_json : LatencySummary → Json
summary_json s = object (
    ("count", int (pos s.total))
    ∷ ("mean_ms", or_null s.mean_ms)
    ∷ ("p95_upper_bound_ms", or_null s.p95_upper_bound_ms)
    ∷ [])

-- `dict(sorted(counts.items()))`
abbrev sorted_counts : Dict String ℕ → Json
sorted_counts counts =
    object (map (λ p. (p.0, int (pos p.1))) (sorted (λ p q. text_le p.0 q.0) counts.items))

abbrev pub pass_if : Bool → Json
pass_if b = str (if b then "pass" else "hold")

abbrev pub total_requests : Collected → ℕ
total_requests c = Dict.sum_sizes (λ n. n) c.request_counts

-- `bool(latency)`
abbrev pub has_latency : Collected → Bool
has_latency c = not (nat_beq (length c.latency.items) 0)

-- The field `status` of the snapshot before the probe is looked at.
abbrev pub metrics_pass : Collected → Bool
metrics_pass c = ltb 0 (total_requests c) && has_latency c

-- `probe_report.get("status") != "pass"`
abbrev pub passes : Option Json → Bool
passes (some (str status)) = status == "pass"
passes _ = false

-- The two gates that every snapshot has.
abbrev metrics_gates : Collected → List Json
metrics_gates c =
    object (
      ("name", str "gateway_request_metrics_present")
      ∷ ("status", pass_if (ltb 0 (total_requests c)))
      ∷ ("observed", int (pos (total_requests c)))
      ∷ [])
    ∷ object (
        ("name", str "gateway_latency_metrics_present")
        ∷ ("status", pass_if (has_latency c))
        ∷ ("observed_models", int (pos (length c.latency.items)))
        ∷ [])
    ∷ []

-- What a probe report adds: a field, a gate and a verdict.
pub record ProbePart : Type 0 where
  pub fields : List (String × Json)
  pub gates : List Json
  pub verdict : Bool

unfoldable pub probe_part : Rounding → Option Fields → Result Exception ProbePart
unfolding aggregate_probe get
probe_part f none = ok (record { fields = []; gates = []; verdict = true })
probe_part f (some report) = do
  aggregate ← aggregate_probe f report
  ok (record {
    fields = ("backend_probe", aggregate) ∷ [];
    gates =
        object (
          ("name", str "backend_probe_status")
          ∷ ("status", or_json (str "hold") (get report "status"))
          ∷ ("observed_success_rate", or_json null (get report "success_rate"))
          ∷ [])
        ∷ [];
    verdict = passes (get report "status");
  })

module _ (f : Rounding) where
  -- `round(allowed_requests / total_requests, 4)`, unless there is no request.
  unfoldable pub allowed_rate : Collected → Json
  unfolding count
  allowed_rate c =
      if nat_beq (total_requests c) 0
      then null
      else float (
          f.round
            (f.over (of_nat f (count c.request_counts "allowed")) (of_nat f (total_requests c))) 4)

  unfoldable pub gateway_json : Collected → Json
  unfolding allowed_rate latency_summary sorted
  gateway_json c = object (
      (
        "requests",
        object (
            ("total", int (pos (total_requests c)))
            ∷ ("by_outcome", sorted_counts c.request_counts)
            ∷ ("allowed_rate", allowed_rate c)
            ∷ []),
      )
      ∷ ("estimated_input_tokens", sorted_counts c.token_counts)
      ∷ (
        "latency_ms",
        object (
            map (λ p. (p.0, summary_json (latency_summary f p.1)))
              (sorted (λ p q. text_le p.0 q.0) c.latency.items)),
      )
      ∷ [])

  unfoldable pub snapshot_of : Collected → ProbePart → Json
  unfolding gateway_json
  snapshot_of c probe = object (
      ("schema_version", int (pos 1))
      ∷ ("status", pass_if (metrics_pass c && probe.verdict))
      ∷ (
        "evidence_scope",
        strings (
            "aggregate gateway Prometheus snapshot"
            ∷ "request-outcome and estimated-token correlation"
            ∷ "histogram upper-bound latency summaries" ∷ []),
      )
      ∷ ("gateway", gateway_json c)
      ∷ ("release_gates", arr (to_items (metrics_gates c ++ probe.gates)))
      ∷ (
        "exclusions",
        strings (
            "request bodies" ∷ "decoded output" ∷ "API keys" ∷ "endpoint URLs"
            ∷ "principal identities" ∷ []),
      )
      ∷ probe.fields)

  unfoldable pub build_snapshot :
      (Char → Bool) → (String → Option Float) → String → Option Fields → Result Exception Json
  unfolding parse_prometheus add_samples probe_part snapshot_of walk
  build_snapshot is_digit to_float metrics_text probe_report = do
    samples ← parse_prometheus is_digit to_float metrics_text
    c ← add_samples f to_float nothing samples
    probe ← probe_part f probe_report
    let snapshot = snapshot_of c probe
    walk false snapshot
    ok snapshot
