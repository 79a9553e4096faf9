-- ===== src/App/Exported.antt =====
-- gateway/app.py: what the handlers hand to the exporters for a span.
use secure_gpu_inference_gat.Prelude.{ℕ, String, Option, none, some, List, [], ◌∷◌}
use secure_gpu_inference_gat.Prelude.Int.{pos}
use secure_gpu_inference_gat.Errors.{Exception}
use secure_gpu_inference_gat.Json.{Json, int}
use secure_gpu_inference_gat.App.{Span}
use secure_gpu_inference_gat.Exporter.{SpanCall}
use secure_gpu_inference_gat.Exporter.Sinks.{Outside, Exporter, Files, write_span}

-- `trace_budget_attributes`
abbrev pub trace_budget_attributes : ℕ → Option ℕ → List (String × Json)
trace_budget_attributes estimated none =
    ("ai.gateway.estimated_input_tokens", int (pos estimated)) ∷ []
trace_budget_attributes estimated (some limit) =
    ("ai.gateway.estimated_input_tokens", int (pos estimated))
    ∷ ("ai.gateway.token_budget_limit", int (pos limit))
    ∷ []

abbrev pub span_call : Span → SpanCall
span_call s = record {
  trace = s.trace;
  model_id = s.model_id;
  outcome = s.outcome;
  auth_method = s.auth_method;
  decision_reasons = s.decision_reasons;
  latency = s.latency;
  started_at_unix_nano = s.started_at;
  ended_at_unix_nano = s.ended_at;
  extra_attributes = trace_budget_attributes s.estimated_input_tokens s.token_budget_limit;
  route = s.route;
}

-- `export_trace_span`, after the exporters are set up.
unfoldable pub export_trace_span :
    Outside → List Exporter → Span → Files → Option Exception × List Exporter × Files
unfolding write_span
export_trace_span o exporters s files = write_span o exporters (span_call s) files
