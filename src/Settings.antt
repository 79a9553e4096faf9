-- ===== src/Settings.antt =====
-- The settings that gateway/identity.py, gateway/rate_limit.py and gateway/registry.py take from
-- the environment when the service starts. `os.getenv`, `int` and `float` of a text, and the redis
-- package are parameters.
pub mod Closed
use Prim.Native.String.{◌++◌}
use secure_gpu_inference_gat.Prelude.{
  ℕ, String, Bool, true, false, not, Option, none, some, [], ◌∷◌, contains, ◌==◌, string_eq, Result,
  ok, err, ◌>>=◌, ◌>>◌, raise_if, if◌then◌else◌,
}
use secure_gpu_inference_gat.Prelude.Int.{ℤ, pos, pos_part, ltb_ℤ}
use secure_gpu_inference_gat.Errors.{Exception, value_error, runtime_error}
use secure_gpu_inference_gat.Text.{strip, is_empty}
use secure_gpu_inference_gat.Text.Case.{lower}
use secure_gpu_inference_gat.Json.{Float}
use secure_gpu_inference_gat.Dict.{Dict}
use secure_gpu_inference_gat.Models.{ModelPolicy}
use secure_gpu_inference_gat.Registry.{model_policies}
use secure_gpu_inference_gat.Identity.{AuthSettings}
use secure_gpu_inference_gat.RateLimit.{FixedWindowLimiter, init}
use secure_gpu_inference_gat.Redis.{RedisLimiter, make}

pub record Environment : Type 0 where
  pub getenv : String → Option String
  -- `int(text)` and `float(text)`, with the ValueError that they raise.
  pub parse_int : String → Result Exception ℤ
  pub parse_float : String → Result Exception Float
  pub redis_installed : Bool
  -- `redis.Redis.from_url` and `ping`.
  pub connect : String → Float → Result Exception Unit

-- `_empty_to_none` of gateway/identity.py
unfoldable pub empty_to_none : Option String → Option String
empty_to_none none = none
empty_to_none (some value) = if is_empty (strip value) then none else some (strip value)

-- `_parse_bool`
unfoldable pub parse_bool : Option String → Bool → Bool
unfolding strip lower
parse_bool none other = other
parse_bool (some value) other = contains ("1" ∷ "true" ∷ "yes" ∷ "on" ∷ []) (lower (strip value))

module _ (env : Environment) where
  -- `os.getenv(name, other)`
  abbrev pub getenv_or : String → String → String
  getenv_or name other = elim (env.getenv name) [ none ↦ other | some text ↦ text ]

  -- `AuthSettings.from_env`
  unfoldable pub from_env : Result Exception AuthSettings
  unfolding empty_to_none parse_bool
  from_env = do
    skew ← env.parse_int (getenv_or "OIDC_CLOCK_SKEW_SECONDS" "60")
    lifetime ← env.parse_int (getenv_or "OIDC_MAX_TOKEN_LIFETIME_SECONDS" "86400")
    ok (record {
      jwt_issuer = empty_to_none (env.getenv "OIDC_ISSUER");
      jwt_audience = empty_to_none (env.getenv "OIDC_AUDIENCE");
      jwt_hs256_secret = empty_to_none (env.getenv "OIDC_JWT_HS256_SECRET");
      roles_claim = getenv_or "OIDC_ROLES_CLAIM" "roles";
      scopes_claim = getenv_or "OIDC_SCOPES_CLAIM" "scope";
      allow_demo_principals = parse_bool (env.getenv "ALLOW_DEMO_PRINCIPALS") false;
      clock_skew_seconds = skew;
      max_token_lifetime_seconds = lifetime;
    })

  -- A number that is at least 1.
  abbrev positive : String → ℤ → Result Exception ℕ
  positive name value =
      if ltb_ℤ value (pos 1)
      then err (value_error (name ++ " must be positive"))
      else ok (pos_part value)

  -- `_positive_env_int` of gateway/registry.py
  unfoldable pub positive_env_int : String → String → Result Exception ℕ
  positive_env_int name other = do value ← env.parse_int (getenv_or name other); positive name value

  -- `MODEL_POLICIES`
  unfoldable pub policies_from_env : Result Exception (Dict String ModelPolicy)
  unfolding positive_env_int
  policies_from_env = do
    requests ← positive_env_int "BENCHMARK_REQUESTS_PER_MINUTE" "120"
    tokens ← positive_env_int "BENCHMARK_INPUT_TOKENS_PER_MINUTE" "20000"
    ok (model_policies requests tokens)

  -- `_positive_int_env` of gateway/rate_limit.py
  unfoldable pub positive_int_env : String → ℕ → Result Exception ℕ
  positive_int_env name other = elim (env.getenv name) [
    | none ↦ ok other
    | some raw ↦ env.parse_int raw >>= positive name
  ]

-- The two limiters that are built.
pub data Limiters : Type 0 where
  in_memory : FixedWindowLimiter → FixedWindowLimiter → Limiters
  in_redis : RedisLimiter → RedisLimiter → Limiters

-- `limiter_backend_name` of either of the two.
abbrev pub limiter_backend_name : Limiters → String
limiter_backend_name (in_memory requests tokens) = "memory"
limiter_backend_name (in_redis requests tokens) = "redis"

module _ (env : Environment) where
  -- The part of `build_limiters_from_env` for Redis.
  unfoldable pub redis_limiters : ℕ → Result Exception Limiters
  unfolding make
  redis_limiters window_seconds = do
    let url = getenv_or env "REDIS_URL" ""
    raise_if (is_empty url) (runtime_error "REDIS_URL is required when RATE_LIMIT_BACKEND=redis")
    raise_if (not env.redis_installed) (
        runtime_error
          "Redis mode requires the optional redis dependency; install requirements-redis.txt")
    timeout ← env.parse_float (getenv_or env "REDIS_SOCKET_TIMEOUT_SECONDS" "1.0")
    env.connect url timeout
    let key_prefix = getenv_or env "REDIS_KEY_PREFIX" "sgig"
    requests ← make "requests" window_seconds key_prefix
    tokens ← make "input_tokens" window_seconds key_prefix
    ok (in_redis requests tokens)

  abbrev limiters_for : String → ℕ → Result Exception Limiters
  limiters_for backend window_seconds =
      if backend == "memory"
      then ok (in_memory (init window_seconds) (init window_seconds))
      else if backend == "redis"
      then redis_limiters window_seconds
      else err (value_error "RATE_LIMIT_BACKEND must be memory or redis")

  -- `build_limiters_from_env`
  unfoldable pub build_limiters_from_env : Result Exception Limiters
  unfolding positive_int_env redis_limiters strip lower
  build_limiters_from_env = do
    let backend = lower (strip (getenv_or env "RATE_LIMIT_BACKEND" "memory"))
    window_seconds ← positive_int_env env "RATE_LIMIT_WINDOW_SECONDS" 60
    limiters_for backend window_seconds
