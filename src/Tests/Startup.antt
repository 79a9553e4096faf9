-- ===== src/Tests/Startup.antt =====
-- A service that is started in an empty environment, and a request with a demo header.
use secure_gpu_inference_gat.Prelude.{◌≡◌, refl, false, none, some, ok}
use secure_gpu_inference_gat.Prelude.Int.{pos}
use secure_gpu_inference_gat.Text.{strip, lstrip, rstrip, is_space}
use secure_gpu_inference_gat.Text.Case.{lower, lower_char, is_cased, chr, lower_code}
use secure_gpu_inference_gat.Json.{finite}
use secure_gpu_inference_gat.RateLimit.{init}
use secure_gpu_inference_gat.Identity.{AuthSettings, ResolvedPrincipal}
use secure_gpu_inference_gat.Settings.{
  Environment, empty_to_none, parse_bool, from_env, in_memory, positive_int_env,
  build_limiters_from_env,
}
use secure_gpu_inference_gat.Settings.Closed.{resolve_principal-from_env}
use secure_gpu_inference_gat.Tests.{resolving, plain_codec}

abbrev empty : Environment
empty = record {
  getenv = λ name. none;
  parse_int = λ text. ok (pos 60);
  parse_float = λ text. ok (finite (pos 1));
  redis_installed = false;
  connect = λ url timeout. ok tt;
}

abbrev closed : AuthSettings
closed = record {
  jwt_issuer = none;
  jwt_audience = none;
  jwt_hs256_secret = none;
  roles_claim = "roles";
  scopes_claim = "scope";
  allow_demo_principals = false;
  clock_skew_seconds = pos 60;
  max_token_lifetime_seconds = pos 60;
}

abbrev refused : ResolvedPrincipal
refused = record {
  principal = none;
  auth_method = "demo-header";
  issuer = none;
  subject = some "analyst-1";
  failure_reason = some "demo principals disabled";
}

resolve_principal-from_env_example : refused.principal ≡ none
unfolding resolving from_env empty_to_none parse_bool
resolve_principal-from_env_example =
    resolve_principal-from_env plain_codec 1 closed (pos 5) empty none (some "analyst-1") refused
      refl refl refl refl

-- Without settings, the limiters are in memory with a window of a minute.
default_limiters : build_limiters_from_env empty ≡ ok (in_memory (init 60) (init 60))
unfolding build_limiters_from_env positive_int_env lower lower_char is_cased chr lower_code strip
    lstrip rstrip is_space
default_limiters = refl
