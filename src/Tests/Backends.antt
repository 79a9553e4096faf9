-- ===== src/Tests/Backends.antt =====
-- A backend that answers with a completion, one whose status is an error, and an endpoint.
use secure_gpu_inference_gat.Prelude.{◌≡◌, refl, true, none, some, [], ◌∷◌, ok}
use secure_gpu_inference_gat.Prelude.Int.{pos}
use secure_gpu_inference_gat.Text.{strip, lstrip, rstrip, is_space}
use secure_gpu_inference_gat.Text.Affix.{ends_with, rstrip_slash}
use secure_gpu_inference_gat.Json.{Json, finite, str, object, arr, to_items, to_fields, value}
use secure_gpu_inference_gat.Backend.{Python, completion_url}
use secure_gpu_inference_gat.Backend.Request.{Transport, received, run_openai_compatible_inference}
use secure_gpu_inference_gat.Backend.Served.{
  IsWell, IsSettled, run_openai_compatible_inference-IsWell, open_completion_response-IsSettled,
}
use secure_gpu_inference_gat.Backend.Stream.{Client, Opening, responded, open_completion_response}
use secure_gpu_inference_gat.Backend.Url.{completion_url_idem}

abbrev answer : Json
answer = object (
    ("choices", arr (to_items (object (("text", str "hello") ∷ []) ∷ [])))
    ∷ ("model", str "served")
    ∷ [])

abbrev transport : Transport
transport = record {
  refuses = λ url. none;
  open_url = λ request timeout. received [];
  loads = λ bytes. value answer;
  latency_ms = finite (pos 1);
}

run_openai_compatible_inference-IsWell_example :
    IsWell transport "m" "hi" "http://gpu" none
      (finite (pos 5))
      (run_openai_compatible_inference transport "m" "hi" "http://gpu" none (finite (pos 5)))
run_openai_compatible_inference-IsWell_example =
    run_openai_compatible_inference-IsWell transport "m" "hi" "http://gpu" none (finite (pos 5))

abbrev python : Python
python = record {
  getenv = λ name. none;
  parse_int = λ text. none;
  parse_milliseconds = λ text. some (finite (pos 5));
}

abbrev failing : Client
failing = record { refuses = λ request timeout. none; send = λ request timeout. responded 503 }

abbrev opening : Opening
opening = record {
  payload = to_fields (("stream", Json.bool true) ∷ []);
  endpoint = some "http://gpu";
  api_key = none;
  timeout_seconds = none;
  request_id = none;
  has_client = true;
  pool = none;
}

open_completion_response-IsSettled_example :
    IsSettled (open_completion_response python failing opening)
open_completion_response-IsSettled_example =
    open_completion_response-IsSettled python failing opening

completion_url_idem_example :
    (ends_with "http://gpu/v1/completions" "/completions" ≡ true)
    × (completion_url "http://gpu/v1/completions" ≡ ok "http://gpu/v1/completions")
unfolding completion_url strip lstrip rstrip is_space rstrip_slash ends_with
completion_url_idem_example =
    completion_url_idem " http://gpu/v1/ " "http://gpu/v1/completions" refl
