-- ===== src/Lib.antt =====
-- The secure GPU inference gateway: a FastAPI service that authenticates a caller, decides by a
-- policy whether the caller may use a model, enforces a request rate and a token budget, calls the
-- inference backend, and keeps metrics, an audit log and trace spans.
--
-- The parts, and the code that each of them models:
--   Models, Registry    gateway/models.py and gateway/registry.py: the records that the parts
--                       exchange, the demo principals and the model policies.
--   Policy              gateway/policy.py: evaluate_policy.
--   TokenBudget         gateway/token_budget.py: estimate_input_tokens.
--   TraceContext        gateway/trace_context.py: parse_traceparent, format_traceparent and
--                       resolve_trace_context, with the values of the random source as arguments.
--   RateLimit           gateway/rate_limit.py, the in-memory limiters: allow_request is
--                       FixedWindowRateLimiter.allow, and allow_tokens is
--                       FixedWindowTokenBudgetLimiter.allow.
--   Redis               gateway/rate_limit.py, the Redis limiters: the Lua script, and
--                       _RedisFixedWindowLimiter.
--   Identity            gateway/identity.py: the claims of a token (Identity), the token
--                       (Identity.Verify), and the caller of a request (Identity.Resolve).
--   Audit               gateway/audit.py: DenialAuditBudget, and JsonlAuditSink (Audit.Sink).
--   Metrics             gateway/metrics.py: what the handlers count, and the text that is scraped
--                       (Metrics.Render), with Python's writing of floats as parameters.
--   App                 gateway/app.py: the state of the service and what the handlers do with it;
--                       App.Infer is the handler of POST /v1/infer/{model_id},
--                       App.Completion is the proxy of POST /v1/completions, and App.Routes
--                       has GET /v1/models and GET /metrics.
--                       App.Exported is what it hands to the exporters.
--   Exporter            gateway/trace_exporter.py: build_span_record and sanitize_attributes;
--                       Exporter.Otlp has build_otlp_traces_payload, Exporter.Sinks the exporters
--                       and the reader of the file of spans, and Exporter.Setup the environment.
--   Backend             gateway/backend_adapter.py and gateway/mock_inference.py: completion_url,
--                       extract_completion and the mock; Backend.Request has
--                       run_openai_compatible_inference and run_configured_inference, and
--                       Backend.Stream open_completion_response and backend_http_client.
--   Telemetry           gateway/telemetry_snapshot.py: parse_labels, and
--                       assert_no_sensitive_data as walk; Telemetry.Lines has the pattern of a
--                       sample and parse_prometheus, Telemetry.Snapshot the sums and
--                       latency_summary, Telemetry.Probe aggregate_probe, and Telemetry.Build
--                       build_snapshot.
--   Replay              gateway/workload_replay.py: the requests, their latencies and percentile;
--                       Replay.Loop has the loop of build_workload_report, and Replay.Report
--                       the gates and the report.
--   Distributed         gateway/distributed_limiter.py: build_limit_rules, sample_decisions and
--                       build_release_gates.
--   Capacity            gateway/capacity_plan.py: the checks, estimate_profile_capacity and
--                       build_capacity_report.
--   Deployment          gateway/deployment_readiness.py: the checks of the phases,
--                       build_phase_reports, build_release_gates and the report on them.
--   Resilience          gateway/resilience_drill.py: build_probe_report, build_scenario_coverage,
--                       build_release_gates and the report of a drill.
--   Settings            what gateway/identity.py, gateway/rate_limit.py and gateway/registry.py take
--                       from the environment: AuthSettings.from_env and build_limiters_from_env.
--   Prelude, Dict, Text, Json, Floats, Sorting, Errors
--                       lists, results, integers, Python's dict, str, JSON values, floats and
--                       sorted, and the exceptions.
--   Tests               runs on concrete inputs.
--
-- How the code is read. State is passed: an operation takes the state and returns a result with the
-- state after it. A raised exception is the `err` of a Result; an HTTPException, which the framework
-- turns into a response, is a reply of the handler (Reply.refused). A time is a whole number of
-- ticks, of which `ticks` make a second, so the comparisons of the source are exact; limits, costs
-- and latencies are natural numbers. A float of a token is such a number, a NaN or an infinity. A
-- frozenset is a list that is asked for membership only. Lower-casing is exact wherever the result
-- is ASCII, which is all that the code compares. The only fuel is that of the decimal digits of a
-- number n, which is n + 1: each round divides by ten.
--
-- What is not part of the repository is a parameter. Codec is Python's base64, JSON, UTF-8 and HMAC,
-- and sha256_hex is its hash; nothing is assumed of them, and json.loads
-- may end with any exception. Server is the Redis server, and IsRedis is
-- the documented behaviour of its commands. A handler runs over any Limiter, Backend and
-- Upstream, with whatever state they keep; an upstream's response is a list of chunks that may break
-- off, and the reader of a stream may close it after any number of chunks. Requests have passed the
-- framework's check of their shape. The state of App holds the audit events and spans that were
-- written, and their files can be written there; that a file cannot be opened is a behaviour of
-- Exporter.Sinks. One request is one step; a lock of the source is a step of its own only in
-- Redis.Shared, where calls of several replicas and the passing of time come in any order.
--
-- Outside is what the exporters call: the files, the POST to a collector, and Python's json.
-- Transport, Client and Python are urllib, httpx, and the environment with the readers of numbers.
-- Each may fail, and with any exception. App runs over any Backend; Backend models the one that
-- the repository has. The latencies of Replay are thousandths of a millisecond, to which the
-- report rounds. Where a report computes with floats, the operations that round are the record Rounding
-- and what float() reads is a parameter; order, infinities and NaN are those of Floats.
--
-- Not modelled: the texts of the server-timing header of gateway/app.py and its route /health, the
-- command lines, and the other offline tools (the other files of gateway/, bench/ and scripts/), most
-- of which drive processes, HTTP clients or kubectl.
pub mod Prelude
pub mod Capacity
pub mod Deployment
pub mod Dict
pub mod Text
pub mod Errors
pub mod Models
pub mod Policy
pub mod TokenBudget
pub mod TraceContext
pub mod RateLimit
pub mod Redis
pub mod Resilience
pub mod Json
pub mod Sorting
pub mod Registry
pub mod Identity
pub mod Audit
pub mod Metrics
pub mod Exporter
pub mod Floats
pub mod Backend
pub mod Telemetry
pub mod Replay
pub mod Settings
pub mod Distributed
pub mod App
pub mod Tests
