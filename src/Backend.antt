-- ===== src/Backend.antt =====
-- gateway/backend_adapter.py and gateway/mock_inference.py: the environment of the backend, the URL
-- of its completions, the shapes of its answers, and the mock. `os.getenv`, `int` and `float` of a
-- text are parameters.
pub mod Request
pub mod Stream
pub mod Url
pub mod Answers
pub mod Served
use Prim.Native.String.{◌++◌}
use secure_gpu_inference_gat.Prelude.{
  ℕ, String, Bool, true, false, ◌&&◌, ◌||◌, not, Option, none, some, List, [], ◌∷◌, ◌==◌, string_eq,
  contains, Result, ok, err, ◌>>=◌, ◌>>◌, raise_if, if◌then◌else◌,
}
use secure_gpu_inference_gat.Prelude.Int.{ℤ, pos, ltb_ℤ}
use secure_gpu_inference_gat.Errors.{Exception, backend_adapter_error}
use secure_gpu_inference_gat.Text.{strip, is_empty, take}
use secure_gpu_inference_gat.Text.Case.{lower}
use secure_gpu_inference_gat.Text.Affix.{ends_with, rstrip_slash}
use secure_gpu_inference_gat.Json.{
  Float, finite, minus_infinity, Json, str, int, arr, obj, null, cons, Items, Fields, get, entries,
}

-- What Python is asked for: the environment, and the numbers in texts.
pub record Python : Type 0 where
  pub getenv : String → Option String
  pub parse_int : String → Option ℤ
  pub parse_milliseconds : String → Option Float

module _ (python : Python) where
  abbrev pub getenv_or : String → String → String
  getenv_or name other = elim (python.getenv name) [ none ↦ other | some text ↦ text ]

  -- `_positive_int_env`
  unfoldable pub positive_int_env : String → ℤ → Result Exception ℤ
  positive_int_env name other = elim (python.getenv name) [
    | none ↦ ok other
    | some raw ↦ elim (python.parse_int raw) [
      | none ↦ err (backend_adapter_error (name ++ " must be an integer"))
      | some value ↦
          if ltb_ℤ value (pos 1)
          then err (backend_adapter_error (name ++ " must be positive"))
          else ok value
    ]
  ]

  -- `_env_bool`
  unfoldable pub env_bool : String → Bool → Bool
  unfolding strip lower
  env_bool name other = elim (python.getenv name) [
    | none ↦ other
    | some raw ↦ contains ("1" ∷ "true" ∷ "yes" ∷ "on" ∷ []) (lower (strip raw))
  ]

  -- `_backend_timeout_seconds`: the milliseconds of the environment, over a thousand.
  unfoldable pub backend_timeout_seconds : Result Exception Float
  backend_timeout_seconds =
      elim (python.parse_milliseconds (getenv_or "INFERENCE_BACKEND_TIMEOUT_MS" "5000")) [
        | none ↦ err (backend_adapter_error "backend timeout must be numeric")
        | some seconds ↦ ok seconds
      ]

-- `timeout <= 0`: a nan is not.
abbrev pub is_not_positive : Float → Bool
is_not_positive (finite n) = not (ltb_ℤ (pos 0) n)
is_not_positive minus_infinity = true
is_not_positive _ = false

-- `completion_url`
unfoldable pub completion_url : String → Result Exception String
unfolding strip rstrip_slash ends_with
completion_url endpoint =
    let normalized = rstrip_slash (strip endpoint) in
    if is_empty normalized
    then err (backend_adapter_error "backend endpoint must not be empty")
    else if ends_with normalized "/completions"
    then ok normalized
    else if ends_with normalized "/v1"
    then ok (normalized ++ "/completions")
    else ok (normalized ++ "/v1/completions")

-- `isinstance(value, dict)` and `isinstance(value, str)`
abbrev pub as_dict : Json → Option Fields
as_dict (obj fields) = some fields
as_dict _ = none

abbrev pub as_text : Option Json → Option String
as_text (some (str text)) = some text
as_text _ = none

-- The first of the choices, when it is a dict.
abbrev pub first_choice : Option Json → Option Fields
first_choice (some (arr (cons choice more))) = as_dict choice
first_choice _ = none

-- What a choice has for an output: its text, or the content of its message.
unfoldable pub output_of : Fields → Option Json
unfolding get
output_of choice = elim (get choice "text") [
  | none ↦ elim (get choice "message") [ some (obj message) ↦ get message "content" | _ ↦ none ]
  | some null ↦ elim (get choice "message") [
    | some (obj message) ↦ get message "content"
    | _ ↦ none
  ]
  | some text ↦ some text
]

-- A model's name, unless it is empty or no text.
abbrev pub named_model : Option Json → Option String
named_model model = elim (as_text model) [
  | none ↦ none
  | some name ↦ if is_empty name then none else some name
]

abbrev pub or_fail : {A : Type 0} → Option A → String → Result Exception A
or_fail none text = err (backend_adapter_error text)
or_fail (some a) text = ok a

-- `extract_completion`
unfoldable pub extract_completion : Json → Result Exception (String × Option String)
unfolding output_of
extract_completion response = do
  payload ← or_fail (as_dict response) "inference backend response must be an object"
  choice ←
      or_fail (first_choice (get payload "choices")) "inference backend response has no choices"
  output ← or_fail (as_text (output_of choice)) "inference backend response has no text content"
  ok (output, named_model (get payload "model"))

-- The result of an inference.
pub record Inference : Type 0 where
  pub model_id : String
  pub output : String
  pub latency_ms : Float
  pub backend : String
  pub usage : Option (List (String × ℤ))

-- `run_mock_inference`, with the SHA-256 of a text in hexadecimal.
unfoldable pub run_mock_inference :
    (String → Result Exception String) → Float → String → String → Result Exception Inference
run_mock_inference hexdigest latency model_id user_input = do
  digest ← hexdigest (model_id ++ ":" ++ user_input)
  ok (record {
    model_id = model_id;
    output = "synthetic response " ++ take 12 digest;
    latency_ms = latency;
    backend = "mock-gpu";
    usage = none;
  })
