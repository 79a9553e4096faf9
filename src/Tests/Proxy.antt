-- ===== src/Tests/Proxy.antt =====
-- Completions that are refused, answered and streamed.
use secure_gpu_inference_gat.Prelude.{
  ℕ, ◌+◌, ◌≡◌, refl, ◌⊎◌, false, none, some, [], ◌∷◌, ◌++◌, if◌then◌else◌,
}
use secure_gpu_inference_gat.App.Recorded.{recorded, slot}
use secure_gpu_inference_gat.App.Infer.Guard.{Admitted}
use secure_gpu_inference_gat.App.Completion.{
  CompletionCall, Chunk, UpstreamResponse, Upstream, CompletionAdmission,
}
use secure_gpu_inference_gat.App.Completion.Proxy.{
  joined, to_end, closing, finished, broken, disconnected, deliver, stream_body,
  iter_completion_response, completions,
}
use secure_gpu_inference_gat.App.Completion.Stream.{stream_body-to_end, stream_body-closing}
use secure_gpu_inference_gat.App.Completion.Recording.{
  log_with, ending_reasons, log_with_ending, completions-recorded,
  iter_completion_response-recorded,
}
use secure_gpu_inference_gat.App.Completion.Guard.{controlled, NotServed, completions-guarded}
use secure_gpu_inference_gat.Tests.Service.{
  config, started, moment, trace, caller, is_traced, is_resolved,
}

abbrev sent : UpstreamResponse
sent = record { status_code = 200; chunks = (1 ∷ 2 ∷ []) ∷ [] ∷ (3 ∷ []) ∷ []; breaks_off = false }

-- An upstream that counts the responses it has opened.
abbrev counter : Upstream
counter = record { State = ℕ; open_response = λ opened call. (some sent, opened + 1) }

abbrev completion : CompletionCall
completion = record {
  model = "m";
  prompt = "hello";
  stream = false;
  payload = "";
  x_inference_reason = none;
  authorization = some "Bearer h.c.s";
  x_principal_id = none;
  traceparent = none;
}

abbrev admission : CompletionAdmission
admission = record {
  resolved = caller;
  trace = trace;
  model_id = "m";
  reason = none;
  decision_reasons = "policy allow" ∷ [];
  estimated_input_tokens = 2;
  token_budget_limit = 100;
}

completions-guarded_example :
    (((completions config counter moment 5 completion started 0).2 ≡ 0)
      × NotServed (completions config counter moment 5 completion started 0).0)
    ⊎ Admitted config moment (controlled completion) started
completions-guarded_example = completions-guarded config counter moment 5 completion started 0

completions-recorded_example :
    recorded (completions config counter moment 5 completion started 0).1
    ≡ log_with config completion trace caller
        (slot 1 moment caller.principal started.denial_budget)
        5
        (completions config counter moment 5 completion started 0).0
        (recorded started)
completions-recorded_example =
    completions-recorded config counter moment 5 completion started 0 trace caller is_traced
      is_resolved

iter_completion_response-recorded_example :
    let ((chunks, ending), g') =
      iter_completion_response moment admission 5 sent (closing 1) started in
    recorded g' ≡ log_with_ending admission 5 (ending_reasons admission ending) (recorded started)
iter_completion_response-recorded_example =
    iter_completion_response-recorded moment admission 5 sent (closing 1) started

left_early : stream_body sent (closing 1) ≡ ((1 ∷ 2 ∷ []) ∷ [], disconnected)
unfolding stream_body deliver
left_early = refl

stream_body-to_end_example :
    (joined (stream_body sent to_end).0 ≡ joined sent.chunks)
    × ((stream_body sent to_end).1 ≡ (if sent.breaks_off then broken else finished))
stream_body-to_end_example = stream_body-to_end sent

stream_body-closing_example :
    (rest : Chunk) × (joined (stream_body sent (closing 1)).0 ++ rest ≡ joined sent.chunks)
stream_body-closing_example = stream_body-closing sent 1
