-- ===== src/Tests.antt =====
-- Runs of the program on concrete inputs, and the inputs that they share.
mod Limits
mod Shared
mod Callers
mod Service
mod Proxy
mod Scrape
mod Spans
mod Backends
mod Reports
mod Snapshots
mod Plans
mod Drills
mod Startup
use Prim.Native.Char.{code}
use Prim.Native.String
use secure_gpu_inference_gat.Prelude.{
  ℕ, ◌+◌, String, Bool, true, false, Option, none, some, List, [], ◌∷◌, nat_beq, string_eq, Result,
  ok, err, if◌then◌else◌,
}
use secure_gpu_inference_gat.Prelude.Int.{pos}
use secure_gpu_inference_gat.Json.{
  get, Json, Fields, end, field, str, int, obj, Loaded, value, invalid,
}
use secure_gpu_inference_gat.Identity.{
  AuthSettings, Codec, check_audience, check_expiry, check_start, claim_values, first_string,
  is_text, numeric_date, to_float, validate_claims,
}
use secure_gpu_inference_gat.Identity.Verify.{
  extract_bearer_token, verify_hs256_jwt, verify_parts, decode_json, base64url_decode, encode_ascii,
}
use secure_gpu_inference_gat.Identity.Resolve.{
  resolve_principal, or_nobody, jwt_principal, demo_principal, principal_from_claims, subject_of,
}
use secure_gpu_inference_gat.Text.{strip, is_space, lstrip, rstrip}
use secure_gpu_inference_gat.Text.Case.{lower, lower_char, is_cased, chr, lower_code}
use secure_gpu_inference_gat.Text.Split.{partition, split, replace, words}
use secure_gpu_inference_gat.TraceContext.{
  resolve_trace_context, nonzero_hex, parse_traceparent, is_all_zero, all_lower_hex, is_lower_hex,
}
use secure_gpu_inference_gat.Dict

-- What runs when a caller is resolved.
unfoldable pub resolving : Unit {0}
unfolding resolve_principal or_nobody jwt_principal extract_bearer_token lower partition strip
    is_space lower_char is_cased chr lower_code verify_hs256_jwt split verify_parts decode_json
    base64url_decode encode_ascii Dict.get demo_principal principal_from_claims subject_of
    check_audience check_expiry check_start claim_values first_string is_text numeric_date to_float
    validate_claims get replace words lstrip rstrip
resolving = tt

-- What runs when a trace context is resolved.
unfoldable pub tracing : Unit {0}
unfolding resolve_trace_context nonzero_hex parse_traceparent is_all_zero all_lower_hex is_lower_hex
    lower lower_char is_cased
tracing = tt

-- The bytes without the padding.
abbrev unpadded : List ℕ → List ℕ
unpadded [] = []
unpadded (b ∷ bs) = let rest = unpadded bs in if nat_beq b b'=' then rest else b ∷ rest

abbrev codes : String → List ℕ
codes String.[] = []
codes (String.◌∷◌ c s) = code c ∷ codes s

abbrev pub header_fields : Fields
header_fields = field "alg" (str "HS256") end

abbrev pub claim_fields : Fields
claim_fields =
    field "sub" (str "ada") (field "exp" (int (pos 100)) (field "roles" (str "analyst") end))

-- `h` stands for a header and `c` for the claims.
abbrev load : List ℕ → Loaded
load [] = invalid
load (b ∷ bs) =
    if nat_beq b b'h'
    then value (obj header_fields)
    else if nat_beq b b'c'
    then value (obj claim_fields)
    else invalid

-- A codec with segments in plain text, whose MAC of every message is the key.
abbrev pub plain_codec : Codec
plain_codec = record {
  urlsafe_b64decode = λ bytes. some (unpadded bytes);
  loads = load;
  encode_utf8 = codes;
  hmac_sha256 = λ key message. key;
}

abbrev pub settings : AuthSettings
settings = record {
  jwt_issuer = none;
  jwt_audience = none;
  jwt_hs256_secret = some "s";
  roles_claim = "roles";
  scopes_claim = "scope";
  allow_demo_principals = true;
  clock_skew_seconds = pos 60;
  max_token_lifetime_seconds = pos 86400;
}
