-- ===== src/Audit/Sink.antt =====
-- gateway/audit.py: the file of audit events. The clock's text, Python's json and the opening of
-- the file are parameters.
use Prim.Native.String.{◌++◌}
use secure_gpu_inference_gat.Prelude.{
  ℕ, String, Option, none, some, [], ◌∷◌, map, Result, if◌then◌else◌,
}
use secure_gpu_inference_gat.Prelude.Int.{pos}
use secure_gpu_inference_gat.Errors.{Exception}
use secure_gpu_inference_gat.Text.{is_empty}
use secure_gpu_inference_gat.Dict
use secure_gpu_inference_gat.Models.{AuditEvent}
use secure_gpu_inference_gat.Json.{Float, Json, null, bool, int, float, str, arr, to_items, object}
use secure_gpu_inference_gat.Exporter.Sinks.{Files, contents, after_append}

-- `path or os.getenv("AUDIT_LOG_PATH", "audit.log")`
abbrev default_path : Option String → String
default_path none = "audit.log"
default_path (some path) = path

unfoldable pub audit_path : (String → Option String) → Option String → String
audit_path getenv none = default_path (getenv "AUDIT_LOG_PATH")
audit_path getenv (some path) =
    if is_empty path then default_path (getenv "AUDIT_LOG_PATH") else path

abbrev optional : {A : Type 0} → (A → Json) → Option A → Json
optional to_json none = null
optional to_json (some a) = to_json a

module _ (milliseconds : ℕ → Float) (dumps : Json → String)
    (append_to : String → Result Exception Unit) where
  -- The timestamp and `asdict(event)`
  unfoldable pub payload : String → AuditEvent → Json
  payload timestamp event = object (
      ("timestamp", str timestamp)
      ∷ ("principal_id", str event.principal_id)
      ∷ ("model_id", str event.model_id)
      ∷ ("allowed", bool event.allowed)
      ∷ ("reason", optional str event.reason)
      ∷ ("decision_reasons", arr (to_items (map str event.decision_reasons)))
      ∷ ("latency_ms", optional (λ ticks. float (milliseconds ticks)) event.latency_ms)
      ∷ ("auth_method", optional str event.auth_method)
      ∷ ("auth_subject", optional str event.auth_subject)
      ∷ ("auth_issuer", optional str event.auth_issuer)
      ∷ ("trace_id", optional str event.trace_id)
      ∷ ("span_id", optional str event.span_id)
      ∷ ("parent_span_id", optional str event.parent_span_id)
      ∷ ("estimated_input_tokens", optional (λ n. int (pos n)) event.estimated_input_tokens)
      ∷ ("token_budget_limit", optional (λ n. int (pos n)) event.token_budget_limit)
      ∷ [])

  -- `JsonlAuditSink.write`: what it raises, and the files then.
  unfoldable pub write : String → String → AuditEvent → Files → Option Exception × Files
  unfolding payload Dict.get Dict.put
  write path timestamp event files =
      after_append (append_to path) files path
        (contents files path ++ dumps (payload timestamp event) ++ "\n")
