-- ===== src/Telemetry/Verdict.antt =====
-- gateway/telemetry_snapshot.py, `build_snapshot`: what a snapshot that is published says.
use Prim.Native.Char.{Char}
use mathlib.Core.Path.{subst}
use secure_gpu_inference_gat.Prelude.{
  ◌≡◌, refl, sym, ap, ◌∙◌, ◌↔◌, ◌≤◌, String, Bool, true, false, ◌&&◌, Option, none, some, List, All,
  length, arith, ok, ◌>>◌, >>=-eq-ok,
}
use secure_gpu_inference_gat.Json.{Float, Json, str, obj, Fields, get}
use secure_gpu_inference_gat.Floats.{Rounding}
use secure_gpu_inference_gat.Telemetry.{walk}
use secure_gpu_inference_gat.Telemetry.Lines.{Sample, parse_prometheus}
use secure_gpu_inference_gat.Telemetry.Snapshot.{Collected, nothing, add_samples}
use secure_gpu_inference_gat.Telemetry.Probe.{aggregate_probe}
use secure_gpu_inference_gat.Telemetry.Build.{
  total_requests, metrics_pass, pass_if, passes, ProbePart, probe_part, snapshot_of, build_snapshot,
}
use secure_gpu_inference_gat.Telemetry.Public.{published, IsClean, walk_iff}

-- `snapshot["status"]`
abbrev pub status_of : Json → Option Json
status_of (obj fields) = get fields "status"
status_of _ = none

-- A probe report that is there says that it passed.
abbrev pub probe_passes : Option Fields → Bool
probe_passes none = true
probe_passes (some report) = passes (get report "status")

probe_part-verdict :
    (f : Rounding) (probe : Option Fields) (part : ProbePart)
    → probe_part f probe ≡ ok part
    → part.verdict ≡ probe_passes probe
unfolding probe_part
probe_part-verdict f none part h = cc
probe_part-verdict f (some report) part h =
    let (aggregate, _, built) = >>=-eq-ok (aggregate_probe f report) _ h in cc

pass_if-pass : (b : Bool) → (some (pass_if b) ≡ some (str "pass")) ↔ (b ≡ true)
pass_if-pass true = ((λ h. refl), (λ h. refl))
pass_if-pass false = ((λ h. ap passes h), (λ h. cc))

status_of-snapshot_of :
    (f : Rounding) (c : Collected) (part : ProbePart)
    → status_of (snapshot_of f c part) ≡ some (pass_if (metrics_pass c && part.verdict))
unfolding snapshot_of get
status_of-snapshot_of f c part = refl

verdict_iff :
    (c : Collected) (verdict : Bool)
    → (metrics_pass c && verdict ≡ true)
      ↔ ((1 ≤ total_requests c) × (1 ≤ length c.latency.items) × (verdict ≡ true))
verdict_iff c verdict = ground arith

snapshot_of-passes_iff :
    (f : Rounding) (c : Collected) (part : ProbePart) (verdict : Bool)
    → part.verdict ≡ verdict
    → (status_of (snapshot_of f c part) ≡ some (str "pass"))
      ↔ ((1 ≤ total_requests c) × (1 ≤ length c.latency.items) × (verdict ≡ true))
snapshot_of-passes_iff f c part verdict same =
    let said =
      status_of-snapshot_of f c part ∙ ap (λ v. some (pass_if (metrics_pass c && v))) same in
    let (to, from) = pass_if-pass (metrics_pass c && verdict) in
    let (sums, counted) = verdict_iff c verdict in
    ((λ h. sums (to (sym said ∙ h))), (λ h. said ∙ from (counted h)))

published-snapshot_of :
    (f : Rounding) (c : Collected) (part : ProbePart) (verdict : Bool) (snapshot : Json)
    → (walk false (snapshot_of f c part) >> ok (snapshot_of f c part)) ≡ ok snapshot
    → part.verdict ≡ verdict
    → All IsClean (published false snapshot)
      × ((status_of snapshot ≡ some (str "pass"))
          ↔ ((1 ≤ total_requests c) × (1 ≤ length c.latency.items) × (verdict ≡ true)))
published-snapshot_of f c part verdict snapshot given same =
    let (_, walked, made) = >>=-eq-ok (walk false (snapshot_of f c part)) _ given in
    let built : snapshot_of f c part ≡ snapshot = cc in
    let P : Json → Type 0 = λ j.
      All IsClean (published false j)
      × ((status_of j ≡ some (str "pass"))
          ↔ ((1 ≤ total_requests c) × (1 ≤ length c.latency.items) × (verdict ≡ true))) in
    subst P built (
      (walk_iff false (snapshot_of f c part)).0 walked,
      snapshot_of-passes_iff f c part verdict same,
    )

-- A snapshot that is published comes from sums of the samples of its text. It has no forbidden
-- term in a key, or in a text outside its exclusions, in whatever case. It says that it passes
-- exactly when the sums count a request and have the latency of a model, and the probe report, if
-- there is one, says that it passed.
pub build_snapshot-published :
    (f : Rounding) (is_digit : Char → Bool) (to_float : String → Option Float) (text : String)
    (probe : Option Fields) (snapshot : Json)
    → build_snapshot f is_digit to_float text probe ≡ ok snapshot
    → All IsClean (published false snapshot)
      × (samples : List Sample) × (parse_prometheus is_digit to_float text ≡ ok samples)
      × (c : Collected) × (add_samples f to_float nothing samples ≡ ok c)
      × ((status_of snapshot ≡ some (str "pass"))
          ↔ ((1 ≤ total_requests c) × (1 ≤ length c.latency.items) × (probe_passes probe ≡ true)))
unfolding build_snapshot
build_snapshot-published f is_digit to_float text probe snapshot given =
    let (samples, parsed, h) = >>=-eq-ok (parse_prometheus is_digit to_float text) _ given in
    let (c, added, h) = >>=-eq-ok (add_samples f to_float nothing samples) _ h in
    let (part, probed, h) = >>=-eq-ok (probe_part f probe) _ h in
    let (clean, passes_iff) =
      published-snapshot_of f c part (probe_passes probe) snapshot h
        (probe_part-verdict f probe part probed) in
    (clean, samples, parsed, c, added, passes_iff)
