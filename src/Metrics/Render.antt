-- ===== src/Metrics/Render.antt =====
-- gateway/metrics.py: the text that a Prometheus server scrapes. How Python writes a float, as a
-- bucket with `:g` and as a sum with six decimals, are the two parameters.

use Prim.Native.Char.{code}
use Prim.Native.String.{◌++◌}
use secure_gpu_inference_gat.Prelude.{
  ℕ, String, Bool, true, false, List, [], ◌∷◌, ◌++◌ as append, map, filter, ◌==◌, string_eq,
  nat_beq, if◌then◌else◌,
}
use secure_gpu_inference_gat.Dict
use secure_gpu_inference_gat.Dict.{Dict}
use secure_gpu_inference_gat.Text.{decimal, is_empty}
use secure_gpu_inference_gat.Text.Affix.{starts_with, join, prepend}
use secure_gpu_inference_gat.Sorting.{text_le, labels_le, sorted}
use secure_gpu_inference_gat.Models.{ModelPolicy}
use secure_gpu_inference_gat.Metrics.{
  Labels, labels_eq, bucket_eq, limiter_bucket_eq, count, GatewayMetrics,
}

-- A whole number, or a sum of latencies in ticks.
pub data Value : Type 0 where
  whole seconds : ℕ → Value

pub record MetricSample : Type 0 where
  pub name : String
  pub labels : List (String × String)
  pub value : Value

abbrev by_key : {V : Type 0} → Labels × V → Labels × V → Bool
by_key p q = labels_le p.0 q.0

abbrev flat : {A : Type 0} → List (List A) → List A
flat [] = []
flat (l ∷ ls) = append l (flat ls)

-- `s.replace(a, b)` for a single character a.
unfoldable pub replace_with : ℕ → String → String → String
replace_with a b String.[] = ""
replace_with a b (String.◌∷◌ c s) =
    let rest = replace_with a b s in
    if nat_beq (code c) a then prepend b rest else String.◌∷◌ c rest

unfoldable pub escape_label_value : String → String
unfolding replace_with
escape_label_value value =
    replace_with b'"' "\\\"" (replace_with 10 "\\n" (replace_with b'\\' "\\\\" value))

-- One label of a sample.
abbrev pub render_label : String × String → String
render_label label = label.0 ++ "=\"" ++ escape_label_value label.1 ++ "\""

abbrev lowered : Bool → String
lowered true = "true"
lowered false = "false"

module _ (format_bucket format_seconds : ℕ → String) where
  unfoldable pub format_number : Value → String
  format_number (whole n) = decimal n
  format_number (seconds n) = format_seconds n

  unfoldable pub format_sample : MetricSample → String
  format_sample sample =
      let labels = join "," (map render_label (sorted (λ p q. text_le p.0 q.0) sample.labels)) in
      let block = if is_empty labels then "" else "{" ++ labels ++ "}" in
      sample.name ++ block ++ " " ++ format_number sample.value

  module _ (m : GatewayMetrics) where
    -- The samples of one counter.
    unfoldable pub counter_samples : String → String → String → Dict Labels ℕ → List MetricSample
    counter_samples name first second counter =
        map
          (λ item. record {
            name = name;
            labels = (first, item.0.0) ∷ (second, item.0.1) ∷ [];
            value = whole item.1;
          })
          (sorted by_key counter.items)

    -- The samples of one histogram under one key.
    unfoldable pub histogram_samples :
        String → List (String × String) → List ℕ → (ℕ → ℕ) → ℕ → ℕ → List MetricSample
    histogram_samples name labels buckets bucket_count total sum =
        append
          (map
            (λ bucket. record {
              name = name ++ "_bucket";
              labels = append labels (("le", format_bucket bucket) ∷ []);
              value = whole (bucket_count bucket);
            })
            buckets)
          (record {
            name = name ++ "_bucket";
            labels = append labels (("le", "+Inf") ∷ []);
            value = whole total;
          }
            ∷ record { name = name ++ "_count"; labels = labels; value = whole total }
            ∷ record { name = name ++ "_sum"; labels = labels; value = seconds sum }
            ∷ [])

    unfoldable pub latency_samples : List MetricSample
    unfolding histogram_samples
    latency_samples = flat (
        map
          (λ model_id.
            histogram_samples "security_gateway_inference_latency_seconds"
              (("model_id", model_id) ∷ []) m.latency_buckets
              (λ bucket. count m.bucket_counts (model_id, bucket)) (count m.latency_count model_id)
              (count m.latency_sum model_id))
          (sorted text_le (map (λ item. item.0) m.latency_count.items)))

    unfoldable pub limiter_latency_samples : List MetricSample
    unfolding histogram_samples
    limiter_latency_samples = flat (
        map
          (λ key.
            histogram_samples "security_gateway_limiter_latency_seconds"
              (("backend", key.1) ∷ ("limiter", key.0) ∷ []) m.limiter_latency_buckets
              (λ bucket. count m.limiter_bucket_counts (key, bucket))
              (count m.limiter_latency_count key) (count m.limiter_latency_sum key))
          (sorted labels_le (map (λ item. item.0) m.limiter_latency_count.items)))

    unfoldable pub model_policy_samples : Dict String ModelPolicy → List MetricSample
    model_policy_samples policies =
        map
          (λ policy. record {
            name = "security_gateway_model_policy_info";
            labels =
                ("model_id", policy.model_id)
                ∷ ("input_tokens_per_minute", decimal policy.input_tokens_per_minute)
                ∷ ("requests_per_minute", decimal policy.requests_per_minute)
                ∷ ("sensitivity", policy.sensitivity)
                ∷ ("requires_reason", lowered policy.requires_reason)
                ∷ [];
            value = whole 1;
          })
          (sorted (λ p q. text_le p.model_id q.model_id) (Dict.values policies))

    -- All samples, in the order in which `render_prometheus` collects them.
    unfoldable pub all_samples : Dict String ModelPolicy → List MetricSample
    unfolding model_policy_samples counter_samples latency_samples limiter_latency_samples
    all_samples policies = flat (
        model_policy_samples policies
        ∷ counter_samples "security_gateway_requests_total" "model_id" "outcome" m.requests
        ∷ counter_samples "security_gateway_denials_total" "model_id" "reason" m.denials
        ∷ counter_samples "security_gateway_auth_events_total" "auth_method" "outcome" m.auth_events
        ∷ counter_samples "security_gateway_input_tokens_total" "model_id" "outcome" m.input_tokens
        ∷ latency_samples
        ∷ limiter_latency_samples
        ∷ [])

    -- The lines of a section: its two comments, and the samples that it takes.
    unfoldable pub section :
        List MetricSample → String → String → String → (String → Bool) → List String
    unfolding format_sample
    section samples name help type_ takes =
        ("# HELP " ++ name ++ " " ++ help)
        ∷ ("# TYPE " ++ name ++ " " ++ type_)
        ∷ map format_sample (filter (λ sample. takes sample.name) samples)

    unfoldable pub render_prometheus : Dict String ModelPolicy → String
    unfolding section all_samples
    render_prometheus policies =
        let samples = all_samples policies in
        let exactly : String → String → String → List String =
          λ name help type_. section samples name help type_ (λ n. n == name) in
        let histogram : String → String → List String =
          λ name help. section samples name help "histogram" (λ n. starts_with n name) in
        join "\n" (
          flat (
            exactly "security_gateway_model_policy_info" "Configured model policy metadata." "gauge"
            ∷ exactly "security_gateway_requests_total"
                "Inference gateway requests by model and outcome." "counter"
            ∷ exactly "security_gateway_denials_total" "Denied requests by model and reason."
                "counter"
            ∷ (("# HELP security_gateway_audit_suppressed_total "
                  ++ "Unauthenticated denials not written to the audit log.")
                ∷ "# TYPE security_gateway_audit_suppressed_total counter"
                ∷ ("security_gateway_audit_suppressed_total " ++ decimal m.audit_suppressed)
                ∷ [])
            ∷ exactly "security_gateway_auth_events_total"
                "Authentication attempts by method and outcome." "counter"
            ∷ exactly "security_gateway_input_tokens_total"
                "Estimated input tokens by model and outcome." "counter"
            ∷ histogram "security_gateway_inference_latency_seconds"
                "Successful inference latency histogram."
            ∷ histogram "security_gateway_limiter_latency_seconds"
                "Limiter decision latency by control and backend."
            ∷ []))
        ++ "\n"
