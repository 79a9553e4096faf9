-- ===== src/Models.antt =====
-- gateway/models.py: the records that the parts of the gateway exchange.
use secure_gpu_inference_gat.Prelude.{ℕ, String, Bool, Option, List}

-- A `frozenset` is a list that is only asked for membership.
pub record Principal : Type 0 where
  pub principal_id : String
  pub display_name : String
  pub roles : List String

pub record ModelPolicy : Type 0 where
  pub model_id : String
  pub description : String
  pub allowed_roles : List String
  pub requests_per_minute : ℕ
  pub input_tokens_per_minute : ℕ
  pub requires_reason : Bool
  pub sensitivity : String

pub record PolicyDecision : Type 0 where
  pub allowed : Bool
  pub reasons : List String

pub record AuditEvent : Type 0 where
  pub principal_id : String
  pub model_id : String
  pub allowed : Bool
  pub reason : Option String
  pub decision_reasons : List String
  pub latency_ms : Option ℕ
  pub auth_method : Option String
  pub auth_subject : Option String
  pub auth_issuer : Option String
  pub trace_id : Option String
  pub span_id : Option String
  pub parent_span_id : Option String
  pub estimated_input_tokens : Option ℕ
  pub token_budget_limit : Option ℕ
