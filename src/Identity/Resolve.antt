-- ===== src/Identity/Resolve.antt =====
-- gateway/identity.py: the principal of a verified token, and the caller of a request.
pub mod Sound
pub mod Closed
use secure_gpu_inference_gat.Prelude.{
  ℕ, String, Bool, true, false, Option, none, some, List, [], ◌∷◌, ◌++◌, string_eq, Result, ok, err,
  ◌>>=◌, ◌>>◌, if◌then◌else◌,
}
use secure_gpu_inference_gat.Prelude.Int.{ℤ}
use secure_gpu_inference_gat.Errors.{Exception, authentication_error}
use secure_gpu_inference_gat.Text.{is_empty}
use secure_gpu_inference_gat.Json.{Json, Fields, str, get}
use secure_gpu_inference_gat.Models.{Principal}
use secure_gpu_inference_gat.Registry.{principals}
use secure_gpu_inference_gat.Dict
use secure_gpu_inference_gat.Identity.{
  AuthSettings, ResolvedPrincipal, Codec, truthy, raise_auth, claim_values, first_string,
}
use secure_gpu_inference_gat.Identity.Verify.{extract_bearer_token, verify_hs256_jwt}

-- `isinstance(subject, str)` and not empty
unfoldable pub subject_of : Fields → Result Exception String
unfolding raise_auth
subject_of claims = elim (get claims "sub") [
  | some (str subject) ↦ if is_empty subject then raise_auth "missing jwt subject" else ok subject
  | _ ↦ raise_auth "missing jwt subject"
]

unfoldable pub principal_from_claims : Fields → AuthSettings → Result Exception ResolvedPrincipal
principal_from_claims claims settings = do
  subject ← subject_of claims
  ok (record {
    principal = some (record {
      principal_id = subject;
      display_name = first_string (
          get claims "name"
          ∷ get claims "preferred_username"
          ∷ get claims "email"
          ∷ some (str subject)
          ∷ []);
      roles =
          claim_values (get claims settings.roles_claim)
          ++ claim_values (get claims settings.scopes_claim);
    });
    auth_method = "jwt";
    issuer = some (first_string (get claims "iss" ∷ []));
    subject = some subject;
    failure_reason = none;
  })

abbrev nobody : String → Option String → String → ResolvedPrincipal
nobody auth_method subject reason = record {
  principal = none;
  auth_method = auth_method;
  issuer = none;
  subject = subject;
  failure_reason = some reason;
}

-- `except AuthenticationError`; any other exception goes on.
unfoldable pub or_nobody : Result Exception ResolvedPrincipal → Result Exception ResolvedPrincipal
or_nobody (err (authentication_error reason)) = ok (nobody "jwt" none reason)
or_nobody (err e) = err e
or_nobody (ok resolved) = ok resolved

-- The caller named by the demo header.
unfoldable pub demo_principal : AuthSettings → String → ResolvedPrincipal
demo_principal settings demo_principal_id =
    if settings.allow_demo_principals
    then (elim (Dict.get principals demo_principal_id) [
      | none ↦ record {
        principal = none;
        auth_method = "demo-header";
        issuer = some "local-demo";
        subject = some demo_principal_id;
        failure_reason = some "unknown demo principal";
      }
      | some principal ↦ record {
        principal = some principal;
        auth_method = "demo-header";
        issuer = some "local-demo";
        subject = some demo_principal_id;
        failure_reason = none;
      }
    ])
    else nobody "demo-header" (some demo_principal_id) "demo principals disabled"

module _ (codec : Codec) (ticks : ℕ) (settings : AuthSettings) (now : ℤ) where
  unfoldable pub jwt_principal : String → Result Exception ResolvedPrincipal
  jwt_principal authorization_header = do
    token ← extract_bearer_token authorization_header
    claims ← verify_hs256_jwt codec ticks settings now token
    principal_from_claims claims settings

  -- `resolve_principal`
  unfoldable pub resolve_principal :
      Option String → Option String → Result Exception ResolvedPrincipal
  resolve_principal authorization_header demo_principal_id = elim (truthy authorization_header) [
    | some header ↦ or_nobody (jwt_principal header)
    | none ↦ elim (truthy demo_principal_id) [
      | some demo ↦ ok (demo_principal settings demo)
      | none ↦ ok (nobody "none" none "missing bearer token or demo principal header")
    ]
  ]
