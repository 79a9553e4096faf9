-- ===== src/Backend/Request.antt =====
-- gateway/backend_adapter.py: a completion of the /v1/infer route. What urllib and json make of a
-- URL, a request and an answer are parameters, as are the clock and the environment.
use Prim.Native.String.{◌++◌}
use secure_gpu_inference_gat.Prelude.{
  ℕ, String, false, Option, none, some, List, [], ◌∷◌, ◌++◌ as append, contains, string_eq, Result,
  ok, err, ◌>>=◌, ◌>>◌, raise_if, if◌then◌else◌,
}
use secure_gpu_inference_gat.Prelude.Int.{ℤ, pos}
use secure_gpu_inference_gat.Errors.{Exception, backend_adapter_error}
use secure_gpu_inference_gat.Text.{strip, is_empty}
use secure_gpu_inference_gat.Json.{
  Float, Json, bool, int, str, obj, Fields, end, field, get, object, Loaded, value, invalid,
  broke_off,
}
use secure_gpu_inference_gat.Backend.{
  Python, getenv_or, backend_timeout_seconds, is_not_positive, completion_url, extract_completion,
  as_dict, Inference, run_mock_inference,
}

-- How `urlopen` and the read of its answer end: with the bytes, with one of the exceptions that are
-- caught, or with another one.
pub data Fetch : Type 0 where
  received : List ℕ → Fetch
  request_failed : Fetch
  broke : Exception → Fetch

pub record HttpRequest : Type 0 where
  pub url : String
  pub payload : Json
  pub headers : List (String × String)

pub record Transport : Type 0 where
  -- What `Request(url)` raises.
  pub refuses : String → Option Exception
  pub open_url : HttpRequest → Float → Fetch
  pub loads : List ℕ → Loaded
  pub latency_ms : Float

-- `MAX_COMPLETION_TOKENS`
abbrev pub max_completion_tokens : ℕ
max_completion_tokens = 256

abbrev pub authorization : Option String → List (String × String)
authorization none = []
authorization (some key) = if is_empty key then [] else ("Authorization", "Bearer " ++ key) ∷ []

abbrev pub inference_request : String → String → String → Option String → HttpRequest
inference_request url model_id user_input api_key = record {
  url = url;
  payload = object (
      ("model", str model_id)
      ∷ ("prompt", str user_input)
      ∷ ("max_tokens", int (pos max_completion_tokens))
      ∷ ("stream", bool false)
      ∷ []);
  headers =
      append (("Accept", "application/json") ∷ ("Content-Type", "application/json") ∷ [])
        (authorization api_key);
}

abbrev pub after_loads : Loaded → Result Exception Json
after_loads (value json) = ok json
after_loads invalid = err (backend_adapter_error "inference backend returned invalid JSON")
after_loads (broke_off e) = err e

abbrev pub after_fetch : (List ℕ → Loaded) → Fetch → Result Exception Json
after_fetch loads (broke e) = err e
after_fetch loads request_failed = err (backend_adapter_error "inference backend request failed")
after_fetch loads (received bytes) = after_loads (loads bytes)

-- The token counts of a usage: integers under one of the three names.
unfoldable pub counted : Fields → List (String × ℤ)
counted end = []
counted (field key (int n) more) =
    let rest = counted more in
    if contains ("prompt_tokens" ∷ "completion_tokens" ∷ "total_tokens" ∷ []) key
    then (key, n) ∷ rest
    else rest
counted (field key _ more) = counted more

-- The `usage` of the result: none when it is missing, null or empty.
unfoldable pub usage_of : Option Json → Result Exception (Option (List (String × ℤ)))
unfolding counted
usage_of none = ok none
usage_of (some Json.null) = ok none
usage_of (some (obj end)) = ok none
usage_of (some (obj usage)) = ok (some (counted usage))
usage_of (some _) = err (backend_adapter_error "inference backend returned invalid usage metadata")

-- `response_payload.get("usage")`
abbrev pub usage_field : Json → Option Json
unfolding get
usage_field response = elim (as_dict response) [ none ↦ none | some fields ↦ get fields "usage" ]

abbrev pub inference_of :
    String → Float → String × Option String → Option (List (String × ℤ)) → Inference
inference_of model_id latency (output, response_model) usage = record {
  model_id = elim response_model [ none ↦ model_id | some name ↦ name ];
  output = output;
  latency_ms = latency;
  backend = "openai-compatible";
  usage = usage;
}

-- From the answer of the backend on.
unfoldable pub read_answer : String → Float → Json → Result Exception Inference
unfolding extract_completion usage_of usage_field
read_answer model_id latency response = do
  found ← extract_completion response
  usage ← usage_of (usage_field response)
  ok (inference_of model_id latency found usage)

abbrev pub raise_some : Option Exception → Result Exception Unit
raise_some none = ok tt
raise_some (some e) = err e

-- `run_openai_compatible_inference`
unfoldable pub run_openai_compatible_inference :
    Transport → String → String → String → Option String → Float → Result Exception Inference
unfolding completion_url read_answer
run_openai_compatible_inference t model_id user_input endpoint api_key timeout = do
  raise_if (is_not_positive timeout) (backend_adapter_error "backend timeout must be positive")
  url ← completion_url endpoint
  raise_some (t.refuses url)
  response ←
      after_fetch t.loads (t.open_url (inference_request url model_id user_input api_key) timeout)
  read_answer model_id t.latency_ms response

-- `run_configured_inference`
unfoldable pub run_configured_inference :
    Python
    → Transport
    → (String → Result Exception String)
    → String
    → String
    → Result Exception Inference
unfolding run_mock_inference backend_timeout_seconds run_openai_compatible_inference strip
run_configured_inference python t hexdigest model_id user_input =
    let endpoint = strip (getenv_or python "INFERENCE_BACKEND_COMPLETIONS_URL" "") in
    if is_empty endpoint then run_mock_inference hexdigest t.latency_ms model_id user_input else do
      timeout ← backend_timeout_seconds python
      run_openai_compatible_inference t model_id user_input endpoint
          (python.getenv "INFERENCE_BACKEND_API_KEY") timeout
