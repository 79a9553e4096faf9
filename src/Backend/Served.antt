-- ===== src/Backend/Served.antt =====
-- gateway/backend_adapter.py: what a call of a backend that succeeds gives.
use secure_gpu_inference_gat.Prelude.{
  ◌≡◌, refl, sym, ap, ◌∙◌, ℕ, ◌≤◌, ◌<◌, String, Bool, true, false, Option, none, some, List, ◌⊎◌,
  inl, inr, arith, Result, ok, err, raise_if-eq-ok, >>=-eq-ok, if◌then◌else◌,
}
use secure_gpu_inference_gat.Errors.{Exception}
use secure_gpu_inference_gat.Json.{Float, Json, Loaded, value, invalid, broke_off}
use secure_gpu_inference_gat.Backend.{
  Python, is_not_positive, completion_url, extract_completion, Inference,
}
use secure_gpu_inference_gat.Backend.Request.{
  Transport, Fetch, received, request_failed, broke, inference_request, after_fetch, after_loads,
  usage_of, usage_field, inference_of, HttpRequest, read_answer, raise_some,
  run_openai_compatible_inference,
}
use secure_gpu_inference_gat.Backend.Answers.{IsExplained, run_openai_compatible_inference-raises}
use secure_gpu_inference_gat.Backend.Stream.{
  Client, Connection, nothing, connected, Opening, check_response, handed_out, closed, is_success,
  Sent, responded, http_error, failed, send_prepared, prepare_request, open_completion_response,
}

after_loads-ok : (l : Loaded) {j : Json} → after_loads l ≡ ok j → l ≡ value j
after_loads-ok (value i) h = cc
after_loads-ok invalid h = cc
after_loads-ok (broke_off e) h = cc

after_fetch-ok :
    (loads : List ℕ → Loaded) (f : Fetch) {j : Json}
    → after_fetch loads f ≡ ok j
    → (bytes : List ℕ) × (f ≡ received bytes) × (loads bytes ≡ value j)
after_fetch-ok loads (received bytes) h = (bytes, refl, after_loads-ok (loads bytes) h)
after_fetch-ok loads request_failed h = cc
after_fetch-ok loads (broke e) h = cc

-- The output and the model of a result are those of a response.
abbrev pub IsFrom : String → Json → Inference → Type 0
IsFrom model_id response r =
    (named : Option String) × (extract_completion response ≡ ok (r.output, named))
    × (r.model_id ≡ elim named [ none ↦ model_id | some name ↦ name ])

read_answer-IsFrom :
    (model_id : String) (latency : Float) (response : Json) (r : Inference)
    → read_answer model_id latency response ≡ ok r
    → IsFrom model_id response r
unfolding read_answer
read_answer-IsFrom model_id latency response r h =
    let ((output, named), found, rest) = >>=-eq-ok (extract_completion response) _ h in
    let (usage, _, last) = >>=-eq-ok (usage_of (usage_field response)) _ rest in
    let same : inference_of model_id latency (output, named) usage ≡ r = cc in
    (named, found ∙ ap (λ i. ok (i.output, named)) same, sym (ap (λ i. i.model_id) same))

module _ (t : Transport) where
  run_openai_compatible_inference-IsFrom :
      (model_id user_input endpoint : String) (api_key : Option String) (timeout : Float)
      (r : Inference)
      → run_openai_compatible_inference t model_id user_input endpoint api_key timeout ≡ ok r
      → (is_not_positive timeout ≡ false)
        × (url : String) × (bytes : List ℕ) × (response : Json) × (completion_url endpoint ≡ ok url)
        × (t.open_url (inference_request url model_id user_input api_key) timeout ≡ received bytes)
        × (t.loads bytes ≡ value response)
        × IsFrom model_id response r
  unfolding run_openai_compatible_inference
  run_openai_compatible_inference-IsFrom model_id user_input endpoint api_key timeout r h =
      let (positive, h) = raise_if-eq-ok (is_not_positive timeout) _ _ h in
      let (url, at_url, h) = >>=-eq-ok (completion_url endpoint) _ h in
      let (_, _, h) = >>=-eq-ok (raise_some (t.refuses url)) _ h in
      let (response, fetched, h) = >>=-eq-ok (after_fetch t.loads _) _ h in
      let (bytes, came, loaded) = after_fetch-ok t.loads _ fetched in
      (
        positive,
        url,
        bytes,
        response,
        at_url,
        came,
        loaded,
        read_answer-IsFrom model_id t.latency_ms response r h,
      )

  -- How a call is to end: a result comes from the body that was fetched, and an exception is
  -- explained.
  abbrev pub IsWell :
      (model_id user_input endpoint : String)
      → Option String
      → Float
      → Result Exception Inference
      → Type 0
  IsWell model_id user_input endpoint api_key timeout (err e) = IsExplained t e
  IsWell model_id user_input endpoint api_key timeout (ok r) =
      (is_not_positive timeout ≡ false)
      × (url : String) × (bytes : List ℕ) × (response : Json) × (completion_url endpoint ≡ ok url)
      × (t.open_url (inference_request url model_id user_input api_key) timeout ≡ received bytes)
      × (t.loads bytes ≡ value response)
      × IsFrom model_id response r

  -- A result of the adapter is read from the body that the backend sent for this prompt, model and
  -- key, at the URL of the endpoint, under a timeout that is not 0 or less. An exception is a
  -- `BackendAdapterError`, unless a library raised it: when the request is made, or one outside the
  -- exceptions that are caught while it is sent or its answer is decoded.
  pub run_openai_compatible_inference-IsWell :
      (model_id user_input endpoint : String) (api_key : Option String) (timeout : Float)
      → IsWell model_id user_input endpoint api_key timeout
          (run_openai_compatible_inference t model_id user_input endpoint api_key timeout)
  run_openai_compatible_inference-IsWell model_id user_input endpoint api_key timeout = well _ refl
    where
      well :
          (r : Result Exception Inference)
          → run_openai_compatible_inference t model_id user_input endpoint api_key timeout ≡ r
          → IsWell model_id user_input endpoint api_key timeout r
      well (ok r) h =
          run_openai_compatible_inference-IsFrom model_id user_input endpoint api_key timeout r h
      well (err e) h =
          run_openai_compatible_inference-raises t model_id user_input endpoint api_key timeout e h

-- The response is open exactly when the caller has it, and it has a status from 200 to 299.
abbrev pub IsSettled : Result Exception ℕ × Connection → Type 0
IsSettled (ok status, connection) =
    (200 ≤ status) × (status < 300) × (connection ≡ connected status false)
IsSettled (err e, connection) =
    (connection ≡ nothing) ⊎ ((status : ℕ) × (connection ≡ connected status true))

IsSettled-if :
    (status : ℕ) (fine : Bool)
    → (fine ≡ true → (200 ≤ status) × (status < 300))
    → IsSettled (if fine then handed_out status else closed status)
IsSettled-if status true within = let (low, high) = within refl in (low, high, refl)
IsSettled-if status false within = inr (status, refl)

check_response-IsSettled : (sent : Sent) → IsSettled (check_response sent)
unfolding check_response
check_response-IsSettled (failed e) = inl refl
check_response-IsSettled http_error = inl refl
check_response-IsSettled (responded status) =
    IsSettled-if status (is_success status) (λ h. (ground arith, ground arith))

send_prepared-IsSettled :
    (python : Python) (client : Client) (prepared : Result Exception (HttpRequest × Float))
    → IsSettled (send_prepared python client prepared)
send_prepared-IsSettled python client (err e) = inl refl
send_prepared-IsSettled python client (ok (request, timeout)) =
    check_response-IsSettled (client.send request timeout)

-- `open_completion_response` hands out a response only with a status from 200 to 299 and open, and
-- when it raises, a response that came has been closed.
pub open_completion_response-IsSettled :
    (python : Python) (client : Client) (o : Opening)
    → IsSettled (open_completion_response python client o)
unfolding open_completion_response
open_completion_response-IsSettled python client o =
    send_prepared-IsSettled python client (prepare_request python client o)
