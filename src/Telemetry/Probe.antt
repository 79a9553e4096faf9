-- ===== src/Telemetry/Probe.antt =====
-- gateway/telemetry_snapshot.py, `aggregate_probe`: what of a probe report is published.
use secure_gpu_inference_gat.Prelude.{
  String, Bool, true, false, Option, none, some, List, [], ◌∷◌, ◌++◌, map, Result, ok, ◌>>=◌,
  if◌then◌else◌,
}
use secure_gpu_inference_gat.Prelude.Int.{ℤ}
use secure_gpu_inference_gat.Errors.{Exception}
use secure_gpu_inference_gat.Identity.{to_float as int_to_float}
use secure_gpu_inference_gat.Json.{Json, int, float, str, arr, obj, Fields, get, object, to_items}
use secure_gpu_inference_gat.Floats.{Rounding}

module _ (f : Rounding) where
  rounded : String → ℤ → Result Exception (List (String × Json))
  unfolding int_to_float
  rounded key n = do x ← int_to_float f.ticks n; ok ((key, float (f.round x 3)) ∷ [])

  -- `round(float(value), 3)` under its key, if it is a number and no bool.
  rounded_number : String → Option Json → Result Exception (List (String × Json))
  unfolding rounded
  rounded_number key (some (int n)) = rounded key n
  rounded_number key (some (float x)) = ok ((key, float (f.round x 3)) ∷ [])
  rounded_number key _ = ok []

  unfoldable pub latencies : Fields → List String → Result Exception (List (String × Json))
  unfolding rounded_number
  latencies latency [] = ok []
  latencies latency (key ∷ keys) = do
    first ← rounded_number key (get latency key)
    more ← latencies latency keys
    ok (first ++ more)

  under_latency_ms : List (String × Json) → List (String × Json)
  under_latency_ms [] = []
  under_latency_ms (p ∷ ps) = ("latency_ms", object (p ∷ ps)) ∷ []

  latency_part : Option Json → Result Exception (List (String × Json))
  unfolding latencies under_latency_ms
  latency_part (some (obj latency)) = do
    parts ← latencies latency ("p50" ∷ "p95" ∷ "p99" ∷ "max" ∷ [])
    ok (under_latency_ms parts)
  latency_part _ = ok []

-- A text or a number that is no bool.
abbrev pub is_aggregate : Json → Bool
is_aggregate (str text) = true
is_aggregate (int n) = true
is_aggregate (float x) = true
is_aggregate _ = false

abbrev pub kept : String → Option Json → List (String × Json)
kept key none = []
kept key (some value) = if is_aggregate value then (key, value) ∷ [] else []

abbrev pub probe_keys : List String
probe_keys =
    "status" ∷ "backend_protocol" ∷ "model_id" ∷ "attempted_requests" ∷ "successful_requests"
    ∷ "failed_requests" ∷ "success_rate" ∷ "total_tokens_reported" ∷ []

unfoldable pub kept_fields : Fields → List String → List (String × Json)
unfolding get
kept_fields report [] = []
kept_fields report (key ∷ keys) = kept key (get report key) ++ kept_fields report keys

abbrev pub strings : List String → Json
strings texts = arr (to_items (map str texts))

unfoldable pub aggregate_probe : Rounding → Fields → Result Exception Json
unfolding kept_fields latency_part
aggregate_probe f report = do
  latency ← latency_part f (get report "latency_ms")
  ok (
      object (
        kept_fields report probe_keys
        ++ latency
        ++ (
          "evidence_scope",
          strings (
              "whitelisted aggregate backend-probe fields"
              ∷ "response-shape validation and latency summary" ∷ []),
        )
          ∷ []))
