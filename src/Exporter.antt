-- ===== src/Exporter.antt =====
-- gateway/trace_exporter.py: the record of a span, and the exporters that it is handed to. How
-- Python rounds a latency to three decimals is a parameter.
pub mod Otlp
pub mod Sinks
pub mod Setup
pub mod Grouping
pub mod Faithful
pub mod Lines
pub mod Delivery
use Prim.Native.String.{◌++◌}
use secure_gpu_inference_gat.Prelude.{
  ℕ, String, Bool, true, false, ◌&&◌, Option, none, some, List, [], ◌∷◌, ◌++◌ as append, ◌==◌,
  string_eq, filter, contains, length, Result, ok, err, ◌>>=◌, if◌then◌else◌,
}
use secure_gpu_inference_gat.Prelude.Int.{pos}
use secure_gpu_inference_gat.Errors.{Exception, os_error}
use secure_gpu_inference_gat.Sorting.{text_le, sorted}
use secure_gpu_inference_gat.Dict
use secure_gpu_inference_gat.Dict.{Dict}
use secure_gpu_inference_gat.Json.{
  Float, Json, null, bool, int, float, str, arr, obj, object, Fields, to_fields,
}
use secure_gpu_inference_gat.TraceContext.{RequestTrace, format_traceparent}

abbrev pub safe_attribute_keys : List String
safe_attribute_keys =
    "http.route" ∷ "ai.gateway.auth_method" ∷ "ai.gateway.decision_count" ∷ "ai.gateway.latency_ms"
    ∷ "ai.gateway.model_id" ∷ "ai.gateway.outcome" ∷ "ai.gateway.sampled"
    ∷ "ai.gateway.estimated_input_tokens" ∷ "ai.gateway.token_budget_limit"
    ∷ "ai.gateway.trace_source" ∷ []

-- `isinstance(value, str | int | float | bool)`
abbrev pub is_scalar : Json → Bool
is_scalar null = false
is_scalar (arr _) = false
is_scalar (obj _) = false
is_scalar _ = true

abbrev pub is_safe : String × Json → Bool
is_safe item = contains safe_attribute_keys item.0 && is_scalar item.1

abbrev pub by_name : String × Json → String × Json → Bool
by_name p q = text_le p.0 q.0

-- `sanitize_attributes`
unfoldable pub sanitize_attributes : Dict String Json → List (String × Json)
sanitize_attributes attributes = filter is_safe (sorted by_name attributes.items)

-- The arguments of `write_span`.
pub record SpanCall : Type 0 where
  pub trace : RequestTrace
  pub model_id : String
  pub outcome : String
  pub auth_method : String
  pub decision_reasons : List String
  pub latency : Option ℕ
  pub started_at_unix_nano : ℕ
  pub ended_at_unix_nano : ℕ
  pub extra_attributes : List (String × Json)
  pub route : String

-- `attributes.update(extra_attributes)`
unfoldable pub update : Dict String Json → List (String × Json) → Dict String Json
update attributes [] = attributes
update attributes ((key, value) ∷ extra) = update (Dict.put attributes key value) extra

abbrev pub parent_json : Option String → Json
parent_json none = null
parent_json (some parent) = str parent

module _ (rounded_ms : ℕ → Float) where
  -- The latency, when there is one.
  abbrev pub add_latency : Option ℕ → Dict String Json → Dict String Json
  add_latency none attributes = attributes
  add_latency (some latency) attributes =
      Dict.put attributes "ai.gateway.latency_ms" (float (rounded_ms latency))

  unfoldable pub span_attributes : SpanCall → Dict String Json
  unfolding update
  span_attributes s =
      let fixed : Dict String Json = record {
        items =
            ("http.route", str s.route)
            ∷ ("ai.gateway.auth_method", str s.auth_method)
            ∷ ("ai.gateway.decision_count", int (pos (length s.decision_reasons)))
            ∷ ("ai.gateway.model_id", str s.model_id)
            ∷ ("ai.gateway.outcome", str s.outcome)
            ∷ ("ai.gateway.sampled", bool s.trace.sampled)
            ∷ ("ai.gateway.trace_source", str s.trace.source)
            ∷ [];
      } in
      update (add_latency s.latency fixed) s.extra_attributes

  unfoldable pub span_record : String → SpanCall → Fields
  unfolding span_attributes sanitize_attributes
  span_record service_name s = to_fields (
      ("resource", object (("service.name", str service_name) ∷ []))
      ∷ (
        "scope",
        object (
            ("name", str "gateway.trace_exporter")
            ∷ ("schema_url", str "https://opentelemetry.io/schemas/1.28.0")
            ∷ []),
      )
      ∷ (
        "span",
        object (
            ("attributes", object (sanitize_attributes (span_attributes s)))
            ∷ ("end_time_unix_nano", int (pos s.ended_at_unix_nano))
            ∷ ("kind", str "SERVER")
            ∷ ("name", str ("POST " ++ s.route))
            ∷ ("parent_span_id", parent_json s.trace.parent_span_id)
            ∷ ("span_id", str s.trace.span_id)
            ∷ ("start_time_unix_nano", int (pos s.started_at_unix_nano))
            ∷ (
              "status",
              object (
                  ("code", str (if s.outcome == "allowed" then "OK" else "ERROR"))
                  ∷ ("message", str s.outcome)
                  ∷ []),
            )
            ∷ ("trace_id", str s.trace.trace_id)
            ∷ ("traceparent", str (format_traceparent s.trace))
            ∷ []),
      )
      ∷ [])

  -- `build_span_record`
  abbrev pub build_span_record : String → SpanCall → Json
  build_span_record service_name s = obj (span_record service_name s)
