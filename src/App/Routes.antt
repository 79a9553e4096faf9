-- ===== src/App/Routes.antt =====
-- gateway/app.py: GET /v1/models and GET /metrics.
use Prim.Native.String.{◌++◌}
use secure_gpu_inference_gat.Prelude.{
  ℕ, String, ◌≡◌, refl, Bool, Option, none, some, List, map, Result, ok, err, Result-cases, inl,
  inr, string_eq, arith, if◌then◌else◌,
}
use secure_gpu_inference_gat.Errors.{Exception}
use secure_gpu_inference_gat.Dict
use secure_gpu_inference_gat.Models.{Principal, ModelPolicy}
use secure_gpu_inference_gat.Identity.{truthy}
use secure_gpu_inference_gat.Identity.Verify.{same_bytes}
use secure_gpu_inference_gat.Identity.Resolve.{resolve_principal}
use secure_gpu_inference_gat.Identity.Resolve.Sound.{Authentic, resolve_principal-Authentic}
use secure_gpu_inference_gat.Metrics.Render.{render_prometheus}
use secure_gpu_inference_gat.App.{Config, Gateway, Moment, count_auth_event}

-- What is told of a model.
pub record ModelEntry : Type 0 where
  pub model_id : String
  pub description : String
  pub sensitivity : String
  pub requests_per_minute : ℕ
  pub input_tokens_per_minute : ℕ
  pub requires_reason : Bool

-- 401 with a reason, or the models.
pub data Listing : Type 0 where
  unauthorized : String → Listing
  listed : List ModelEntry → Listing

abbrev pub entry : ModelPolicy → ModelEntry
entry policy = record {
  model_id = policy.model_id;
  description = policy.description;
  sensitivity = policy.sensitivity;
  requests_per_minute = policy.requests_per_minute;
  input_tokens_per_minute = policy.input_tokens_per_minute;
  requires_reason = policy.requires_reason;
}

unfoldable pub list_for : (c : Config) → Option Principal → Listing
list_for c none = unauthorized "authentication required"
list_for c (some principal) = listed (map entry (Dict.values c.policies))

-- `list_models`
unfoldable pub list_models :
    (c : Config)
    → Moment
    → Option String
    → Option String
    → Gateway c
    → Result Exception Listing × Gateway c
list_models c at authorization x_principal_id g =
    elim (resolve_principal c.codec c.ticks c.auth_settings at.auth_now authorization
      x_principal_id) [
        | err e ↦ (err e, g)
        | ok resolved ↦ (ok (list_for c resolved.principal), count_auth_event resolved g)
      ]

-- `prometheus_metrics`, none for the 401; the token is that of the environment.
unfoldable pub prometheus_metrics :
    (format_bucket format_seconds : ℕ → String) (c : Config)
    → Option String
    → Option String
    → Gateway c
    → Option String
prometheus_metrics format_bucket format_seconds c expected authorization g =
    let body = render_prometheus format_bucket format_seconds g.metrics c.policies in
    elim (truthy expected) [
      | none ↦ some body
      | some token ↦
          let given : String = elim authorization [ none ↦ "" | some text ↦ text ] in
          if same_bytes (c.codec.encode_utf8 given) (c.codec.encode_utf8 ("Bearer " ++ token))
          then some body
          else none
    ]

list_for-some :
    (c : Config) (p? : Option Principal) (models : List ModelEntry)
    → list_for c p? ≡ listed models
    → (p : Principal) × (p? ≡ some p) × (models ≡ map entry (Dict.values c.policies))
unfolding list_for
list_for-some c none models h = cc
list_for-some c (some p) models h = (p, refl, ground (arith, h))

-- The models are listed to an authentic caller only, and it gets all of them.
pub list_models-Authentic :
    (c : Config) (at : Moment) (authorization x_principal_id : Option String) (g : Gateway c)
    (models : List ModelEntry)
    → (list_models c at authorization x_principal_id g).0 ≡ ok (listed models)
    → (p : Principal) × Authentic c.codec c.ticks c.auth_settings at.auth_now
        (truthy authorization)
        (truthy x_principal_id)
        p
      × (models ≡ map entry (Dict.values c.policies))
unfolding list_models
list_models-Authentic c at authorization x_principal_id g models h =
    elim (Result-cases (
      resolve_principal c.codec c.ticks c.auth_settings at.auth_now authorization x_principal_id)) [
        | inl (x, e) ↦ cc (rw (e, list_models) at h)
        | inr (resolved, e) ↦
            let k = rw (e, list_models) at h in
            let (p, is_p, same) = list_for-some c resolved.principal models (ground (arith, k)) in
            (
              p,
              resolve_principal-Authentic c.codec c.ticks c.auth_settings at.auth_now authorization
                  x_principal_id resolved p e is_p,
              same,
            )
      ]
