-- ===== src/App/Completion/Proxy.antt =====
-- gateway/app.py: what completions does behind the admission, and the body that it streams.
use secure_gpu_inference_gat.Prelude.{
  ℕ, zero, suc, Bool, true, false, Option, none, some, List, [], ◌∷◌, ◌++◌, Result, ok, err,
  if◌then◌else◌,
}
use secure_gpu_inference_gat.Errors.{Exception}
use secure_gpu_inference_gat.App.{Config, Gateway, Moment, HttpException}
use secure_gpu_inference_gat.App.Completion.{
  CompletionCall, Chunk, UpstreamResponse, Upstream, CompletionAdmission, Admission, denied,
  admitted, backend_unavailable, http_error, record_completion_event, admit_completion,
}

-- A refusal, a body that was read whole, or a body that is streamed later.
pub data CompletionReply : Type 0 where
  refused : HttpException → CompletionReply
  answered : ℕ → Chunk → CompletionReply
  streaming : UpstreamResponse → CompletionAdmission → CompletionReply

-- `backend_response.read()`
abbrev pub joined : List Chunk → Chunk
joined [] = []
joined (chunk ∷ chunks) = chunk ++ joined chunks

-- The reader of a stream goes on to the end, or closes it after a number of chunks.
pub data Reader : Type 0 where
  to_end : Reader
  closing : ℕ → Reader

-- How a stream ends. A generator that is closed before its first chunk is asked for runs no code.
pub data Ending : Type 0 where
  finished broken disconnected unstarted : Ending

-- The chunks that are delivered from here on, while the reader asks for one.
unfoldable pub deliver : Bool → Reader → List Chunk → List Chunk × Ending
deliver breaks_off reader [] = ([], if breaks_off then broken else finished)
deliver breaks_off reader ([] ∷ chunks) = deliver breaks_off reader chunks
deliver breaks_off (closing (suc zero)) ((b ∷ bs) ∷ chunks) = ((b ∷ bs) ∷ [], disconnected)
deliver breaks_off (closing (suc (suc n))) ((b ∷ bs) ∷ chunks) =
    let (rest, ending) = deliver breaks_off (closing (suc n)) chunks in ((b ∷ bs) ∷ rest, ending)
deliver breaks_off to_end ((b ∷ bs) ∷ chunks) =
    let (rest, ending) = deliver breaks_off to_end chunks in ((b ∷ bs) ∷ rest, ending)
deliver breaks_off (closing zero) ((b ∷ bs) ∷ chunks) = ([], unstarted)

unfoldable pub stream_body : UpstreamResponse → Reader → List Chunk × Ending
stream_body response (closing zero) = ([], unstarted)
stream_body response reader = deliver response.breaks_off reader response.chunks

module _ {c : Config} (at : Moment) (admission : CompletionAdmission) (latency : ℕ) where
  -- `finally`
  unfoldable pub record_ending : Ending → Gateway c → Gateway c
  record_ending finished g =
      record_completion_event at admission "allowed" admission.decision_reasons latency g
  record_ending broken g =
      record_completion_event at admission "backend_error" backend_unavailable latency g
  record_ending disconnected g =
      record_completion_event at admission "backend_error"
        ("client disconnected during inference" ∷ []) latency g
  record_ending unstarted g = g

  -- `iter_completion_response`
  unfoldable pub iter_completion_response :
      UpstreamResponse → Reader → Gateway c → (List Chunk × Ending) × Gateway c
  iter_completion_response response reader g =
      let (chunks, ending) = stream_body response reader in
      ((chunks, ending), record_ending ending g)

module _ {c : Config} (at : Moment) (latency : ℕ) where
  abbrev unavailable : CompletionAdmission → Gateway c → CompletionReply × Gateway c
  unavailable admission g = (
    refused (http_error admission.trace 502 backend_unavailable none),
    record_completion_event at admission "backend_error" backend_unavailable latency g,
  )

  -- From the opened response on.
  unfoldable pub respond :
      Bool → CompletionAdmission → Option UpstreamResponse → Gateway c → CompletionReply × Gateway c
  respond stream admission none g = unavailable admission g
  respond true admission (some response) g = (streaming response admission, g)
  respond false admission (some response) g =
      if response.breaks_off then unavailable admission g else (
        answered response.status_code (joined response.chunks),
        record_completion_event at admission "allowed" admission.decision_reasons latency g,
      )

module _ (c : Config) (u : Upstream) (at : Moment) (latency : ℕ) (call : CompletionCall) where
  -- From the admission on.
  unfoldable pub proxy :
      Result Exception Admission
      → Gateway c
      → u.State
      → Result Exception CompletionReply × Gateway c × u.State
  proxy (err e) g s = (err e, g, s)
  proxy (ok (denied e)) g s = (ok (refused e), g, s)
  proxy (ok (admitted admission)) g s =
      let (response, s') = u.open_response s call in
      let (reply, g') = respond at latency call.stream admission response g in (ok reply, g', s')

  -- `completions`
  unfoldable pub completions :
      Gateway c → u.State → Result Exception CompletionReply × Gateway c × u.State
  completions g s = let (admission, g') = admit_completion c at call g in proxy admission g' s
