-- ===== src/Backend/Stream.antt =====
-- gateway/backend_adapter.py: the response that is opened for the proxy, and the pool of its
-- connections. httpx is a parameter; the state is whether a response that came was closed.

use secure_gpu_inference_gat.Prelude.{
  ℕ, String, Bool, true, false, ◌||◌, ltb, leb, Option, none, some, List, [], ◌∷◌, ◌++◌ as append,
  Result, ok, err, ◌>>=◌, ◌>>◌, raise_if, if◌then◌else◌,
}
use secure_gpu_inference_gat.Prelude.Int.{ℤ, pos}
use secure_gpu_inference_gat.Errors.{Exception, backend_adapter_error}
use secure_gpu_inference_gat.Text.{strip, is_empty}
use secure_gpu_inference_gat.Json.{Float, Fields, obj, get, is_true}
use secure_gpu_inference_gat.Backend.{
  Python, getenv_or, positive_int_env, env_bool, backend_timeout_seconds, is_not_positive,
  completion_url,
}
use secure_gpu_inference_gat.Backend.Request.{HttpRequest, authorization, raise_some}

-- The settings of `httpx.Client`.
pub record HttpClient : Type 0 where
  pub max_connections : ℤ
  pub max_keepalive_connections : ℤ
  pub trust_env : Bool

-- `backend_http_client`: the client of the process, made at the first call.
unfoldable pub backend_http_client : Python → Option HttpClient → Result Exception HttpClient
unfolding positive_int_env env_bool
backend_http_client python (some client) = ok client
backend_http_client python none = do
  connections ← positive_int_env python "INFERENCE_BACKEND_MAX_CONNECTIONS" (pos 256)
  keepalive ← positive_int_env python "INFERENCE_BACKEND_MAX_KEEPALIVE_CONNECTIONS" (pos 128)
  ok (record {
    max_connections = connections;
    max_keepalive_connections = keepalive;
    trust_env = env_bool python "INFERENCE_BACKEND_TRUST_ENV" false;
  })

-- How `client.send` ends: with a status, with an `httpx.HTTPError`, or with another exception.
pub data Sent : Type 0 where
  responded : ℕ → Sent
  http_error : Sent
  failed : Exception → Sent

pub record Client : Type 0 where
  -- What `client.build_request` raises.
  pub refuses : HttpRequest → Float → Option Exception
  pub send : HttpRequest → Float → Sent

-- A response that came, by its status, and whether it was closed.
pub data Connection : Type 0 where
  nothing : Connection
  connected : ℕ → Bool → Connection

abbrev pub is_success : ℕ → Bool
is_success status = if ltb status 200 || leb 300 status then false else true

abbrev pub handed_out : ℕ → Result Exception ℕ × Connection
handed_out status = (ok status, connected status false)

abbrev pub closed : ℕ → Result Exception ℕ × Connection
closed status = (
  err (backend_adapter_error "inference backend returned a non-success status"),
  connected status true,
)

-- From the result of `client.send` on.
unfoldable pub check_response : Sent → Result Exception ℕ × Connection
check_response (failed e) = (err e, nothing)
check_response http_error =
    (err (backend_adapter_error "inference backend request failed"), nothing)
check_response (responded status) = if is_success status then handed_out status else closed status

abbrev pub with_request_id : Option String → List (String × String)
with_request_id none = []
with_request_id (some id) = if is_empty id then [] else ("X-Request-Id", id) ∷ []

abbrev pub or_text : Option String → String → String
or_text none other = other
or_text (some text) other = text

abbrev pub or_key : Option String → Option String → Option String
or_key none other = other
or_key (some key) other = some key

abbrev pub or_timeout : Option Float → Result Exception Float → Result Exception Float
or_timeout none other = other
or_timeout (some timeout) other = ok timeout

-- The arguments of `open_completion_response`, and the client of the process, which is used when
-- no client is given.
pub record Opening : Type 0 where
  pub payload : Fields
  pub endpoint : Option String
  pub api_key : Option String
  pub timeout_seconds : Option Float
  pub request_id : Option String
  pub has_client : Bool
  pub pool : Option HttpClient

module _ (python : Python) (client : Client) where
  abbrev pub proxied_request : Opening → String → HttpRequest
  proxied_request o url =
      let streams : Bool = elim (get o.payload "stream") [
        | none ↦ false
        | some flag ↦ is_true flag
      ] in
      record {
        url = url;
        payload = obj o.payload;
        headers =
            append
              (("Accept", if streams then "text/event-stream" else "application/json")
                ∷ ("Content-Type", "application/json")
                ∷ [])
              (append (authorization (or_key o.api_key (python.getenv "INFERENCE_BACKEND_API_KEY")))
                (with_request_id o.request_id));
      }

  -- `client or backend_http_client()`
  unfoldable pub connect : Bool → Option HttpClient → Result Exception Unit
  unfolding backend_http_client
  connect true pool = ok tt
  connect false pool = do backend_http_client python pool; ok tt

  -- Up to the request and its timeout.
  unfoldable pub prepare_request : Opening → Result Exception (HttpRequest × Float)
  unfolding strip backend_timeout_seconds completion_url get is_true connect
  prepare_request o = do
    let endpoint = or_text o.endpoint (getenv_or python "INFERENCE_BACKEND_COMPLETIONS_URL" "")
    raise_if (is_empty (strip endpoint))
        (backend_adapter_error "inference backend is not configured")
    timeout ← or_timeout o.timeout_seconds (backend_timeout_seconds python)
    raise_if (is_not_positive timeout) (backend_adapter_error "backend timeout must be positive")
    connect o.has_client o.pool
    url ← completion_url endpoint
    raise_some (client.refuses (proxied_request o url) timeout)
    ok (proxied_request o url, timeout)

  abbrev pub send_prepared :
      Result Exception (HttpRequest × Float) → Result Exception ℕ × Connection
  send_prepared (err e) = (err e, nothing)
  send_prepared (ok (request, timeout)) = check_response (client.send request timeout)

  -- `open_completion_response`: the status of the response that is handed to the caller, and the
  -- connection.
  unfoldable pub open_completion_response : Opening → Result Exception ℕ × Connection
  unfolding prepare_request check_response
  open_completion_response o = send_prepared (prepare_request o)
