-- ===== src/Tests/Callers.antt =====
-- Tokens, callers, decisions and trace contexts.
use secure_gpu_inference_gat.Prelude.{
  ℕ, ◌^◌, ◌⊎◌, List, String, ◌≡◌, refl, ◌↔◌, true, false, Option, none, some, [], ◌∷◌, string_eq,
  ok, err,
}
use secure_gpu_inference_gat.Prelude.Int.{ℤ, pos}
use secure_gpu_inference_gat.Errors.{runtime_error, overflow_error}
use secure_gpu_inference_gat.Json.{Fields, end, field, str, int, obj, value, broke_off}
use secure_gpu_inference_gat.Models.{Principal, ModelPolicy}
use secure_gpu_inference_gat.Policy.{evaluate_policy}
use secure_gpu_inference_gat.Policy.Laws.{Allows, evaluate_policy-allowed_iff}
use secure_gpu_inference_gat.Identity.{Codec, ResolvedPrincipal, truthy, validate_claims}
use secure_gpu_inference_gat.Identity.Claims.{Valid, validate_claims_iff}
use secure_gpu_inference_gat.Identity.Verify.{verify_hs256_jwt}
use secure_gpu_inference_gat.Identity.Verify.Sound.{Verified, verify_hs256_jwt_sound}
use secure_gpu_inference_gat.Identity.Resolve.{resolve_principal}
use secure_gpu_inference_gat.Identity.Resolve.Sound.{Authentic, resolve_principal-Authentic}
use secure_gpu_inference_gat.Identity.Resolve.Closed.{resolve_principal-raises}
use secure_gpu_inference_gat.TraceContext.{
  is_lower_hex, all_lower_hex, resolve_trace_context, is_all_zero, RequestTrace, parse_traceparent,
  format_traceparent,
}
use secure_gpu_inference_gat.TraceContext.RoundTrip.{IsId}
use secure_gpu_inference_gat.TraceContext.Resolved.{all_lower_hex-IsHex, resolve-forwarded}
use secure_gpu_inference_gat.Tests.{tracing, resolving, plain_codec, settings, claim_fields}

abbrev now : ℤ
now = pos 90

abbrev ada : Principal
ada = record { principal_id = "ada"; display_name = "ada"; roles = "analyst" ∷ [] }

abbrev model : ModelPolicy
model = record {
  model_id = "m";
  description = "";
  allowed_roles = "analyst" ∷ [];
  requests_per_minute = 2;
  input_tokens_per_minute = 100;
  requires_reason = true;
  sensitivity = "standard";
}

evaluate_policy-allowed_iff_example :
    ((evaluate_policy (some ada) (some model) (some "audit")).allowed ≡ true)
    ↔ Allows (some ada) (some model) (some "audit")
evaluate_policy-allowed_iff_example =
    evaluate_policy-allowed_iff (some ada) (some model) (some "audit")

validate_claims_iff_example :
    (validate_claims 1 settings now claim_fields ≡ ok tt) ↔ Valid 1 settings now claim_fields
validate_claims_iff_example = validate_claims_iff 1 settings now claim_fields

is_verified : verify_hs256_jwt plain_codec 1 settings now "h.c.s" ≡ ok claim_fields
unfolding resolving
is_verified = refl

abbrev header : Option String
header = some "Bearer h.c.s"

abbrev caller : ResolvedPrincipal
caller = record {
  principal = some ada;
  auth_method = "jwt";
  issuer = some "unknown";
  subject = some "ada";
  failure_reason = none;
}

is_resolved : resolve_principal plain_codec 1 settings now header none ≡ ok caller
unfolding resolving
is_resolved = refl

-- A date that no float can hold.
abbrev huge_fields : Fields
huge_fields = field "alg" (str "HS256") (field "exp" (int (pos (2 ^ 1024))) end)

abbrev huge_codec : Codec
huge_codec = record plain_codec { loads = λ bytes. value (obj huge_fields) }

verify_hs256_jwt_sound_example : Verified plain_codec 1 settings now "h.c.s" claim_fields
verify_hs256_jwt_sound_example =
    verify_hs256_jwt_sound plain_codec 1 settings now "h.c.s" claim_fields is_verified

resolve_principal-Authentic_example :
    Authentic plain_codec 1 settings now (truthy header) (truthy none) ada
resolve_principal-Authentic_example =
    resolve_principal-Authentic plain_codec 1 settings now header none caller ada is_resolved refl

-- The token names the algorithm and a date of 2^1024.
is_huge : resolve_principal huge_codec 1 settings now header none ≡ err overflow_error
unfolding resolving
is_huge = refl

-- A segment that is nested too deeply.
abbrev deep_codec : Codec
deep_codec = record plain_codec {
  loads = λ bytes. broke_off (runtime_error "maximum recursion depth exceeded");
}

is_deep :
    resolve_principal deep_codec 1 settings now header none
    ≡ err (runtime_error "maximum recursion depth exceeded")
unfolding resolving
is_deep = refl

resolve_principal-raises_example :
    (runtime_error "maximum recursion depth exceeded" ≡ overflow_error)
    ⊎ ((bytes : List ℕ) × (deep_codec.loads bytes
          ≡ broke_off (runtime_error "maximum recursion depth exceeded")))
resolve_principal-raises_example =
    resolve_principal-raises deep_codec 1 settings now header none
      (runtime_error "maximum recursion depth exceeded") is_deep

abbrev trace : RequestTrace
trace = record {
  trace_id = "0123456789abcdef0123456789abcdef";
  span_id = "0123456789abcdef";
  parent_span_id = none;
  sampled = true;
  source = "generated";
}

trace-IsId : IsId 32 trace.trace_id × IsId 16 trace.span_id
unfolding is_lower_hex is_all_zero all_lower_hex
trace-IsId = (
  record { digits = all_lower_hex-IsHex trace.trace_id refl; size = refl; nonzero = refl },
  record { digits = all_lower_hex-IsHex trace.span_id refl; size = refl; nonzero = refl },
)

is_trace :
    resolve_trace_context none trace.trace_id trace.span_id ≡ ok (record trace { sampled = false })
unfolding tracing
is_trace = refl

resolve-forwarded_example :
    parse_traceparent (some (format_traceparent (record trace { sampled = false })))
    ≡ some (record {
      version = "00";
      trace_id = trace.trace_id;
      parent_id = trace.span_id;
      trace_flags = "00";
    })
resolve-forwarded_example =
    resolve-forwarded none trace.trace_id trace.span_id (record trace { sampled = false }) is_trace
