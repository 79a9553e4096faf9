-- ===== src/Telemetry/Snapshot.antt =====
-- gateway/telemetry_snapshot.py: the snapshot of a metrics text and a probe report. The sums keep
-- the first of equal keys in place, as Python's dicts do; how the buckets of a nan bound are
-- sorted is left as the insertion does it.
use secure_gpu_inference_gat.Prelude.{
  ℕ, ◌+◌, ◌*◌, ◌/◌, String, Bool, ◌||◌, Option, none, some, List, [], ◌∷◌, ◌++◌, leb, ltb, nat_beq,
  ◌==◌, string_eq, Result, ok, ◌>>=◌, if◌then◌else◌,
}
use secure_gpu_inference_gat.Errors.{Exception}
use secure_gpu_inference_gat.Text.{is_empty}
use secure_gpu_inference_gat.Dict
use secure_gpu_inference_gat.Dict.{Dict}
use secure_gpu_inference_gat.Sorting.{sorted}
use secure_gpu_inference_gat.Metrics.{bump}
use secure_gpu_inference_gat.Json.{Float}
use secure_gpu_inference_gat.Floats.{Rounding, le, is_infinite, zero_float, of_nat, as_int}
use secure_gpu_inference_gat.Telemetry.Lines.{Sample, parse_number}

-- What is known of one model.
pub record Latency : Type 0 where
  pub buckets : List (Float × ℕ)
  pub total : ℕ
  pub sum_seconds : Float

pub record Collected : Type 0 where
  pub request_counts : Dict String ℕ
  pub token_counts : Dict String ℕ
  pub latency : Dict String Latency

abbrev pub nothing : Collected
nothing = record { request_counts = Dict.empty; token_counts = Dict.empty; latency = Dict.empty }

abbrev or_fresh : Option Latency → Latency
or_fresh none = record { buckets = []; total = 0; sum_seconds = zero_float }
or_fresh (some values) = values

-- `latency[model_id]` of the default dict
abbrev pub latency_of : Collected → String → Latency
latency_of c model_id = or_fresh (Dict.get c.latency model_id)

abbrev with_latency : Collected → String → Latency → Collected
with_latency c model_id values = record c { latency = Dict.put c.latency model_id values }

-- A label that is there and not empty.
unfoldable pub label : Sample → String → Option String
unfolding Dict.get
label sample key = elim (Dict.get sample.labels key) [
  | none ↦ none
  | some value ↦ if is_empty value then none else some value
]

-- `math.ceil(count * 0.95)`, exact for the counts whose product a float holds.
abbrev pub target : ℕ → ℕ
target n = let ceiling = (19 * n + 19) / 20 in if ltb ceiling 1 then 1 else ceiling

abbrev pub by_bound : Float × ℕ → Float × ℕ → Bool
by_bound p q = le p.0 q.0

-- `counts[key] += as_int(value)`
add_count : Dict String ℕ → Option String → Result Exception ℕ → Result Exception (Dict String ℕ)
add_count counts none n = ok counts
add_count counts (some key) n = do n ← n; ok (bump counts key n)

module _ (f : Rounding) (to_float : String → Option Float) where
  add_bucket : Collected → Option String → Option String → Float → Result Exception Collected
  unfolding parse_number as_int
  add_bucket c (some model_id) (some bucket) value = do
    let values = latency_of c model_id
    bound ← parse_number to_float bucket
    n ← as_int f value
    ok (with_latency c model_id (record values { buckets = values.buckets ++ (bound, n) ∷ [] }))
  add_bucket c _ _ value = ok c

  add_total : Collected → Option String → Float → Result Exception Collected
  unfolding as_int
  add_total c none value = ok c
  add_total c (some model_id) value = do
    n ← as_int f value
    ok (with_latency c model_id (record (latency_of c model_id) { total = n }))

  add_sum : Collected → Option String → Float → Collected
  add_sum c none value = c
  add_sum c (some model_id) value =
      with_latency c model_id (record (latency_of c model_id) { sum_seconds = value })

  -- The body of the loop over the samples.
  unfoldable pub add_sample : Collected → Sample → Result Exception Collected
  unfolding label add_count add_bucket add_total add_sum as_int
  add_sample c sample =
      if sample.name == "security_gateway_requests_total"
      then (do
        counts ← add_count c.request_counts (label sample "outcome") (as_int f sample.value)
        ok (record c { request_counts = counts }))
      else if sample.name == "security_gateway_input_tokens_total"
      then (do
        counts ← add_count c.token_counts (label sample "outcome") (as_int f sample.value)
        ok (record c { token_counts = counts }))
      else if sample.name == "security_gateway_inference_latency_seconds_bucket"
      then add_bucket c (label sample "model_id") (label sample "le") sample.value
      else if sample.name == "security_gateway_inference_latency_seconds_count"
      then add_total c (label sample "model_id") sample.value
      else if sample.name == "security_gateway_inference_latency_seconds_sum"
      then ok (add_sum c (label sample "model_id") sample.value)
      else ok c

  unfoldable pub add_samples : Collected → List Sample → Result Exception Collected
  unfolding add_sample
  add_samples c [] = ok c
  add_samples c (sample ∷ samples) = do c ← add_sample c sample; add_samples c samples

pub record LatencySummary : Type 0 where
  pub total : ℕ
  pub mean_ms : Option Float
  pub p95_upper_bound_ms : Option Float

module _ (f : Rounding) where
  -- `round(seconds * 1000, 3)`
  abbrev pub to_ms : Float → Float
  to_ms seconds = f.round (f.times seconds (of_nat f 1000)) 3

  -- The loop over the sorted buckets: the bound of the first that has enough.
  unfoldable pub first_enough : ℕ → List (Float × ℕ) → Option Float
  first_enough wanted [] = none
  first_enough wanted ((upper_bound, cumulative_count) ∷ buckets) =
      let rest = first_enough wanted buckets in
      if is_infinite upper_bound || leb wanted cumulative_count
      then if is_infinite upper_bound then none else some (to_ms upper_bound)
      else rest

  unfoldable pub latency_summary : Latency → LatencySummary
  unfolding first_enough sorted
  latency_summary values = record {
    total = values.total;
    mean_ms =
        (if nat_beq values.total 0
          then none
          else some (
              f.round (f.over (f.times values.sum_seconds (of_nat f 1000)) (of_nat f values.total))
                3));
    p95_upper_bound_ms =
        (if nat_beq values.total 0
          then none
          else first_enough (target values.total) (sorted by_bound values.buckets));
  }
