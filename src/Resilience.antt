-- ===== src/Resilience.antt =====
-- gateway/resilience_drill.py: the probes of a drill and the gates of its report, without the texts
-- that never change. The fields of the reports that are read may be missing from them.
pub mod Passed
use secure_gpu_inference_gat.Prelude.{
  ℕ, String, Bool, true, false, not, ◌&&◌, ◌||◌, Option, none, some, List, [], ◌∷◌, map, all,
  filter, contains, length, nat_beq, ◌==◌, string_eq, Result, ok, err, ◌>>=◌, ◌>>◌, raise_if,
  if◌then◌else◌,
}
use secure_gpu_inference_gat.Prelude.Int.{ℤ, pos, ltb_ℤ, leb_ℤ}
use secure_gpu_inference_gat.Errors.{Exception, value_error}
use secure_gpu_inference_gat.Text.{is_empty}
use secure_gpu_inference_gat.Sorting.{sorted, text_le}
use secure_gpu_inference_gat.Json.{Float}
use secure_gpu_inference_gat.Floats.{Rounding, le, lt, zero_float, of_nat}

pub record ResilienceProbe : Type 0 where
  pub name : String
  pub scenario : String
  pub affected_model : String
  pub injected_condition : String
  pub detection_signal : String
  pub mitigation_path : String
  pub rollback_action : String
  pub baseline_p95_latency_ms : Float
  pub observed_p95_latency_ms : Float
  pub observed_error_rate : Float
  pub observed_queue_depth : ℤ
  pub recovery_seconds : Float

pub record ResilienceThresholds : Type 0 where
  pub max_latency_multiplier : Float
  pub max_error_rate : Float
  pub max_queue_depth : ℤ
  pub max_recovery_seconds : Float
  pub required_scenarios : List String

-- The tests of a probe, in their order.
pub record Checks : Type 0 where
  pub latency_within_multiplier : Bool
  pub error_rate_within_limit : Bool
  pub queue_depth_within_limit : Bool
  pub recovery_within_limit : Bool
  pub mitigation_path_defined : Bool

pub record ProbeReport : Type 0 where
  pub probe : ResilienceProbe
  pub passes : Bool
  pub baseline_p95_latency_ms : Float
  pub observed_p95_latency_ms : Float
  pub latency_limit_ms : Float
  pub observed_error_rate : Float
  pub recovery_seconds : Float
  pub checks : Checks

-- What is read of the report of the replay.
pub record WorkloadStatus : Type 0 where
  pub readiness_status : Option String
  pub observed_outcomes : Option (List String)

-- What is read of the deployment report, with the statuses of the two parts of its `source_evidence`
-- that are passed on, where they are there.
pub record DeploymentStatus : Type 0 where
  pub readiness_status : Option String
  pub phase_count : ℕ
  pub capacity_plan : Option String
  pub distributed_limiter : Option String

pub record SourceEvidence : Type 0 where
  pub workload_readiness : Bool
  pub observed_outcomes : List String
  pub deployment_readiness : Bool
  pub phase_count : ℕ
  pub capacity_plan : String
  pub distributed_limiter : String

-- `report.get("readiness_status") == "pass"`
abbrev pub says_pass : Option String → Bool
says_pass none = false
says_pass (some status) = status == "pass"

-- A part that is missing is held.
abbrev pub or_hold : Option String → String
or_hold none = "hold"
or_hold (some status) = status

abbrev outcomes_or_none : Option (List String) → List String
outcomes_or_none none = []
outcomes_or_none (some outcomes) = outcomes

unfoldable pub build_source_evidence : WorkloadStatus → DeploymentStatus → SourceEvidence
build_source_evidence workload deployment = record {
  workload_readiness = says_pass workload.readiness_status;
  observed_outcomes = outcomes_or_none workload.observed_outcomes;
  deployment_readiness = says_pass deployment.readiness_status;
  phase_count = deployment.phase_count;
  capacity_plan = or_hold deployment.capacity_plan;
  distributed_limiter = or_hold deployment.distributed_limiter;
}

-- The members of a set of texts.
unfoldable pub distinct : List String → List String
distinct [] = []
distinct (s ∷ texts) = let rest = distinct texts in if contains texts s then rest else s ∷ rest

pub record ScenarioCoverage : Type 0 where
  pub observed_scenarios : List String
  pub missing_scenarios : List String

unfoldable pub build_scenario_coverage : List ProbeReport → ResilienceThresholds → ScenarioCoverage
unfolding distinct sorted
build_scenario_coverage reports thresholds =
    let observed = sorted text_le (distinct (map (λ report. report.probe.scenario) reports)) in
    record {
      observed_scenarios = observed;
      missing_scenarios =
          filter (λ scenario. not (contains observed scenario)) thresholds.required_scenarios;
    }

pub record ReleaseGates : Type 0 where
  pub workload_readiness_passed : Bool
  pub deployment_readiness_passed : Bool
  pub capacity_plan_passed : Bool
  pub distributed_limiter_evidence_passed : Bool
  pub missing_scenarios : List String
  pub held_probes : List String
  pub missing_mitigations : List String

abbrev pub is_mitigated : ResilienceProbe → Bool
is_mitigated probe = not (is_empty probe.mitigation_path) && not (is_empty probe.rollback_action)

-- `build_release_gates`; the last gate, `no_sensitive_data`, is always passed.
unfoldable pub build_release_gates :
    List ProbeReport → SourceEvidence → ResilienceThresholds → ReleaseGates
unfolding build_scenario_coverage
build_release_gates reports source thresholds =
    let coverage = build_scenario_coverage reports thresholds in
    let names : List ProbeReport → List String = map (λ report. report.probe.name) in
    record {
      workload_readiness_passed = source.workload_readiness;
      deployment_readiness_passed = source.deployment_readiness;
      capacity_plan_passed = source.capacity_plan == "pass";
      distributed_limiter_evidence_passed = source.distributed_limiter == "pass";
      missing_scenarios = coverage.missing_scenarios;
      held_probes = names (filter (λ report. not report.passes) reports);
      missing_mitigations = names (filter (λ report. not (is_mitigated report.probe)) reports);
    }

-- `not items`
abbrev pub is_none : List String → Bool
is_none [] = true
is_none (s ∷ texts) = false

-- `all(gate["status"] == "pass" for gate in release_gates)`
abbrev pub all_pass : ReleaseGates → Bool
all_pass gates =
    gates.workload_readiness_passed
    && gates.deployment_readiness_passed
    && gates.capacity_plan_passed
    && gates.distributed_limiter_evidence_passed
    && is_none gates.missing_scenarios
    && is_none gates.held_probes
    && is_none gates.missing_mitigations

pub record DrillReport : Type 0 where
  pub is_ready : Bool
  pub source_evidence : SourceEvidence
  pub scenario_coverage : ScenarioCoverage
  pub probes : List ProbeReport
  pub release_gates : ReleaseGates

-- `if not text: raise ValueError(...)`, one after the other.
unfoldable pub all_given : List (String × String) → Result Exception Unit
all_given [] = ok tt
all_given ((text, message) ∷ more) = do
  raise_if (is_empty text) (value_error message)
  all_given more

module _ (f : Rounding) where
  abbrev pub one : Float
  one = of_nat f 1

  abbrev is_rate : Float → Bool
  is_rate x = le zero_float x && le x one

  -- `ResilienceProbe.validate`
  unfoldable pub validate_probe : ResilienceProbe → Result Exception Unit
  unfolding all_given le
  validate_probe p = do
    all_given (
        (p.name, "probe name must not be empty")
        ∷ (p.scenario, "probe scenario must not be empty")
        ∷ (p.affected_model, "affected_model must not be empty")
        ∷ (p.injected_condition, "injected_condition must not be empty")
        ∷ (p.detection_signal, "detection_signal must not be empty")
        ∷ (p.mitigation_path, "mitigation_path must not be empty")
        ∷ (p.rollback_action, "rollback_action must not be empty")
        ∷ [])
    raise_if (le p.baseline_p95_latency_ms zero_float)
        (value_error "baseline_p95_latency_ms must be positive")
    raise_if (le p.observed_p95_latency_ms zero_float)
        (value_error "observed_p95_latency_ms must be positive")
    raise_if (not (is_rate p.observed_error_rate))
        (value_error "observed_error_rate must be in [0, 1]")
    raise_if (ltb_ℤ p.observed_queue_depth (pos 0))
        (value_error "observed_queue_depth must be non-negative")
    raise_if (le p.recovery_seconds zero_float) (value_error "recovery_seconds must be positive")

  -- `ResilienceThresholds.validate`
  unfoldable pub validate_thresholds : ResilienceThresholds → Result Exception Unit
  unfolding le
  validate_thresholds t = do
    raise_if (le t.max_latency_multiplier one)
        (value_error "max_latency_multiplier must be greater than 1")
    raise_if (not (is_rate t.max_error_rate)) (value_error "max_error_rate must be in [0, 1]")
    raise_if (leb_ℤ t.max_queue_depth (pos 0)) (value_error "max_queue_depth must be positive")
    raise_if (le t.max_recovery_seconds zero_float)
        (value_error "max_recovery_seconds must be positive")
    raise_if (nat_beq (length t.required_scenarios) 0)
        (value_error "required_scenarios must not be empty")

  unfoldable pub validate_probes : List ResilienceProbe → Result Exception Unit
  unfolding validate_probe
  validate_probes [] = ok tt
  validate_probes (probe ∷ probes) = do validate_probe probe; validate_probes probes

  -- `all(checks.values())`
  abbrev pub all_checks : Checks → Bool
  all_checks checks =
      checks.latency_within_multiplier && checks.error_rate_within_limit
      && checks.queue_depth_within_limit && checks.recovery_within_limit
      && checks.mitigation_path_defined

  unfoldable pub build_probe_report : ResilienceThresholds → ResilienceProbe → ProbeReport
  unfolding le
  build_probe_report thresholds probe =
      let limit = f.times probe.baseline_p95_latency_ms thresholds.max_latency_multiplier in
      let checks : Checks = record {
        latency_within_multiplier = le probe.observed_p95_latency_ms limit;
        error_rate_within_limit = le probe.observed_error_rate thresholds.max_error_rate;
        queue_depth_within_limit = leb_ℤ probe.observed_queue_depth thresholds.max_queue_depth;
        recovery_within_limit = le probe.recovery_seconds thresholds.max_recovery_seconds;
        mitigation_path_defined = is_mitigated probe;
      } in
      record {
        probe = probe;
        passes = all_checks checks;
        baseline_p95_latency_ms = f.round probe.baseline_p95_latency_ms 3;
        observed_p95_latency_ms = f.round probe.observed_p95_latency_ms 3;
        latency_limit_ms = f.round limit 3;
        observed_error_rate = f.round probe.observed_error_rate 6;
        recovery_seconds = f.round probe.recovery_seconds 3;
        checks = checks;
      }

  -- `build_resilience_drill_report`, from the reports that it is given or builds.
  unfoldable pub build_resilience_drill_report :
      List ResilienceProbe
      → ResilienceThresholds
      → WorkloadStatus
      → DeploymentStatus
      → Result Exception DrillReport
  unfolding validate_thresholds validate_probes build_probe_report build_source_evidence
      build_release_gates build_scenario_coverage
  build_resilience_drill_report probes thresholds workload deployment = do
    validate_thresholds thresholds
    raise_if (nat_beq (length probes) 0) (value_error "probes must not be empty")
    validate_probes probes
    let reports = map (build_probe_report thresholds) probes
    let source = build_source_evidence workload deployment
    let gates = build_release_gates reports source thresholds
    ok (record {
      is_ready = all_pass gates;
      source_evidence = source;
      scenario_coverage = build_scenario_coverage reports thresholds;
      probes = reports;
      release_gates = gates;
    })
