-- ===== src/Registry.antt =====
-- gateway/registry.py: the demo principals and the models.
use secure_gpu_inference_gat.Prelude.{ℕ, String, true, false, [], ◌∷◌, string_eq}
use secure_gpu_inference_gat.Models.{Principal, ModelPolicy}
use secure_gpu_inference_gat.Dict.{Dict}

-- `PRINCIPALS`
abbrev pub principals : Dict String Principal
principals = record {
  items =
      (
        "analyst-1",
        record {
          principal_id = "analyst-1";
          display_name = "Mission Analyst";
          roles = "analyst" ∷ "mission-user" ∷ [];
        },
      )
      ∷ (
        "security-1",
        record {
          principal_id = "security-1";
          display_name = "Security Engineer";
          roles = "security-engineer" ∷ "mission-user" ∷ [];
        },
      )
      ∷ (
        "admin-1",
        record {
          principal_id = "admin-1";
          display_name = "Platform Admin";
          roles = "platform-admin" ∷ "security-engineer" ∷ [];
        },
      )
      ∷ [];
}

-- `MODEL_POLICIES`, with the two limits of the benchmark model that the environment may set.
abbrev pub model_policies : ℕ → ℕ → Dict String ModelPolicy
model_policies benchmark_requests benchmark_tokens = record {
  items =
      (
        "mission-summarizer",
        record {
          model_id = "mission-summarizer";
          description = "Synthetic mission report summarization model";
          allowed_roles = "analyst" ∷ "mission-user" ∷ "platform-admin" ∷ [];
          requests_per_minute = 30;
          input_tokens_per_minute = 8000;
          requires_reason = true;
          sensitivity = "standard";
        },
      )
      ∷ (
        "threat-triage",
        record {
          model_id = "threat-triage";
          description = "Synthetic security event triage model";
          allowed_roles = "security-engineer" ∷ "platform-admin" ∷ [];
          requests_per_minute = 20;
          input_tokens_per_minute = 6000;
          requires_reason = true;
          sensitivity = "restricted";
        },
      )
      ∷ (
        "benchmark-echo",
        record {
          model_id = "benchmark-echo";
          description = "Low-risk model used for load and health checks";
          allowed_roles = "analyst" ∷ "security-engineer" ∷ "platform-admin" ∷ [];
          requests_per_minute = benchmark_requests;
          input_tokens_per_minute = benchmark_tokens;
          requires_reason = false;
          sensitivity = "low";
        },
      )
      ∷ [];
}
