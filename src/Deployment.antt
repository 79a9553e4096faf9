-- ===== src/Deployment.antt =====
-- gateway/deployment_readiness.py: the phases of a rollout and the gates of its report, without the
-- texts that never change. The fields of the reports that are read may be missing from them.
pub mod Greatest
pub mod Ready
use secure_gpu_inference_gat.Prelude.{
  ℕ, suc, String, Bool, true, false, not, ◌&&◌, ◌||◌, Option, none, some, List, [], ◌∷◌, map, all,
  length, nat_beq, ltb, ◌==◌, string_eq, Result, ok, err, ◌>>=◌, ◌>>◌, raise_if, if◌then◌else◌,
}
use secure_gpu_inference_gat.Errors.{Exception, value_error}
use secure_gpu_inference_gat.Text.{is_empty}
use secure_gpu_inference_gat.Sorting.{sorted, text_le}
use secure_gpu_inference_gat.Json.{Float}
use secure_gpu_inference_gat.Floats.{Rounding, le, lt, equal, greater, zero_float, of_nat}

pub record DeploymentPhase : Type 0 where
  pub name : String
  pub traffic_fraction : Float
  pub capacity_reservation_fraction : Float
  pub validation_mode : String
  pub rollback_trigger : String
  pub required_evidence : List String

-- What is read of a model of the capacity report.
pub record CapacityModel : Type 0 where
  pub model_id : Option String
  pub status : Option String
  pub policy_request_utilization : Option Float
  pub policy_input_token_utilization : Option Float
  pub modeled_requests_per_minute : Option Float
  pub modeled_input_tokens_per_minute : Option Float

-- `report.get("models", [])`
abbrev pub or_none : Option (List CapacityModel) → List CapacityModel
or_none none = []
or_none (some models) = models

-- What is read of the reports of the replay and of the limiters.
pub record WorkloadStatus : Type 0 where
  pub readiness_status : Option String
  pub observed_outcomes : Option (List String)

pub record LimiterStatus : Type 0 where
  pub readiness_status : Option String
  pub rule_count : Option ℕ

pub record SourceStatus : Type 0 where
  pub capacity_plan : Bool
  pub model_count : ℕ
  pub workload_readiness : Bool
  pub observed_outcomes : List String
  pub distributed_limiter : Bool
  pub rule_count : ℕ

-- `model.get("status") == text`
abbrev pub is_text : Option String → String → Bool
is_text none text = false
is_text (some s) text = s == text

abbrev outcomes_or_none : Option (List String) → List String
outcomes_or_none none = []
outcomes_or_none (some outcomes) = outcomes

abbrev count_or_zero : Option ℕ → ℕ
count_or_zero none = 0
count_or_zero (some n) = n

abbrev is_within : CapacityModel → Bool
is_within model = is_text model.status "within_synthetic_capacity"

-- `build_source_status`
unfoldable pub build_source_status :
    List CapacityModel → WorkloadStatus → LimiterStatus → SourceStatus
build_source_status models workload limiter = record {
  capacity_plan = ltb 0 (length models) && all is_within models;
  model_count = length models;
  workload_readiness = is_text workload.readiness_status "pass";
  observed_outcomes = outcomes_or_none workload.observed_outcomes;
  distributed_limiter = is_text limiter.readiness_status "pass";
  rule_count = count_or_zero limiter.rule_count;
}

pub record ModelSchedule : Type 0 where
  pub model_id : Option String
  pub capacity_status : Option String
  pub request_utilization : Float
  pub input_token_utilization : Float
  pub reserved_requests_per_minute : Float
  pub reserved_input_tokens_per_minute : Float

pub record PhaseReport : Type 0 where
  pub phase : DeploymentPhase
  pub max_scheduled_policy_utilization : Float
  pub models : List ModelSchedule

-- `max(items, default=0)`
unfoldable pub max_from : Float → List Float → Float
unfolding greater
max_from m [] = m
max_from m (x ∷ xs) = max_from (greater m x) xs

unfoldable pub max_of : List Float → Float
unfolding max_from
max_of [] = zero_float
max_of (x ∷ xs) = max_from x xs

abbrev or_zero : Option Float → Float
or_zero none = zero_float
or_zero (some x) = x

abbrev id_or_empty : Option String → String
id_or_empty none = ""
id_or_empty (some id) = id

-- The order of the models, by their names.
abbrev pub by_id : CapacityModel → CapacityModel → Bool
by_id m n = text_le (id_or_empty m.model_id) (id_or_empty n.model_id)

-- The greater of the two utilizations of a model.
abbrev pub utilization_of : ModelSchedule → Float
utilization_of s = greater s.request_utilization s.input_token_utilization

-- `bool(phases) and phases[-1].traffic_fraction == 1.0`, given what is equal to one.
unfoldable pub ends_full : (Float → Bool) → List DeploymentPhase → Bool
ends_full is_one [] = false
ends_full is_one (phase ∷ []) = is_one phase.traffic_fraction
ends_full is_one (phase ∷ next ∷ phases) = ends_full is_one (next ∷ phases)

pub record ReleaseGates : Type 0 where
  pub capacity_plan_passed : Bool
  pub workload_readiness_passed : Bool
  pub distributed_limiter_evidence_passed : Bool
  pub phased_rollout_shape : Bool
  pub staged_capacity_utilization : Bool
  pub observed_max : Float
  pub rollback_path_defined : Bool
  pub rollback_trigger_count : ℕ

abbrev pub has_rollback : DeploymentPhase → Bool
has_rollback phase = not (is_empty phase.rollback_trigger)

count_rollbacks : List DeploymentPhase → ℕ
count_rollbacks [] = 0
count_rollbacks (phase ∷ phases) =
    let rest = count_rollbacks phases in if has_rollback phase then suc rest else rest

pub record DeploymentReport : Type 0 where
  pub is_ready : Bool
  pub source_evidence : SourceStatus
  pub phases : List PhaseReport
  pub release_gates : ReleaseGates

module _ (f : Rounding) where
  abbrev pub one : Float
  one = of_nat f 1

  -- `DeploymentPhase.validate`
  unfoldable pub validate_phase : DeploymentPhase → Result Exception Unit
  unfolding le lt
  validate_phase p = do
    raise_if (is_empty p.name) (value_error "deployment phase name must not be empty")
    raise_if (not (le zero_float p.traffic_fraction && le p.traffic_fraction one))
        (value_error "traffic_fraction must be in [0, 1]")
    raise_if
        (not
          (lt zero_float p.capacity_reservation_fraction && le p.capacity_reservation_fraction one))
        (value_error "capacity_reservation_fraction must be in (0, 1]")
    raise_if (lt p.capacity_reservation_fraction p.traffic_fraction)
        (value_error "capacity_reservation_fraction must cover traffic_fraction")
    raise_if (is_empty p.validation_mode) (value_error "validation_mode must not be empty")
    raise_if (is_empty p.rollback_trigger) (value_error "rollback_trigger must not be empty")
    raise_if (nat_beq (length p.required_evidence) 0)
        (value_error "required_evidence must not be empty")

  unfoldable pub validate_phases : List DeploymentPhase → Result Exception Unit
  unfolding validate_phase
  validate_phases [] = ok tt
  validate_phases (phase ∷ phases) = do validate_phase phase; validate_phases phases

  -- `DeploymentThresholds.validate`, of `max_phase_policy_utilization`.
  unfoldable pub validate_threshold : Float → Result Exception Unit
  unfolding le lt
  validate_threshold threshold =
      raise_if (not (lt zero_float threshold && le threshold one))
        (value_error "max_phase_policy_utilization must be in (0, 1]")

  unfoldable pub build_model_schedule : DeploymentPhase → CapacityModel → ModelSchedule
  build_model_schedule phase m =
      let fraction = phase.capacity_reservation_fraction in
      record {
        model_id = m.model_id;
        capacity_status = m.status;
        request_utilization = f.round (f.times (or_zero m.policy_request_utilization) fraction) 6;
        input_token_utilization =
            f.round (f.times (or_zero m.policy_input_token_utilization) fraction) 6;
        reserved_requests_per_minute =
            f.round (f.times (or_zero m.modeled_requests_per_minute) fraction) 3;
        reserved_input_tokens_per_minute =
            f.round (f.times (or_zero m.modeled_input_tokens_per_minute) fraction) 3;
      }

  unfoldable pub build_phase_report : List CapacityModel → DeploymentPhase → PhaseReport
  unfolding build_model_schedule max_of greater
  build_phase_report models phase =
      let schedules = map (build_model_schedule phase) models in
      record {
        phase = phase;
        max_scheduled_policy_utilization = f.round (max_of (map utilization_of schedules)) 6;
        models = schedules;
      }

  unfoldable pub build_phase_reports : List CapacityModel → List DeploymentPhase → List PhaseReport
  unfolding build_phase_report sorted
  build_phase_reports models phases = map (build_phase_report (sorted by_id models)) phases

  -- `build_release_gates`; the last gate, `no_sensitive_data`, is always passed.
  unfoldable pub build_release_gates :
      SourceStatus → List PhaseReport → List DeploymentPhase → Float → ReleaseGates
  unfolding max_of le ends_full count_rollbacks
  build_release_gates source reports phases threshold =
      let observed = max_of (map (λ report. report.max_scheduled_policy_utilization) reports) in
      record {
        capacity_plan_passed = source.capacity_plan;
        workload_readiness_passed = source.workload_readiness;
        distributed_limiter_evidence_passed = source.distributed_limiter;
        phased_rollout_shape = ends_full (λ x. equal x one) phases;
        staged_capacity_utilization = le observed threshold;
        observed_max = f.round observed 6;
        rollback_path_defined = all has_rollback phases;
        rollback_trigger_count = count_rollbacks phases;
      }

  -- `all(gate["status"] == "pass" for gate in release_gates)`
  abbrev pub all_pass : ReleaseGates → Bool
  all_pass gates =
      gates.capacity_plan_passed && gates.workload_readiness_passed
      && gates.distributed_limiter_evidence_passed && gates.phased_rollout_shape
      && gates.staged_capacity_utilization && gates.rollback_path_defined

  -- `build_deployment_readiness_report`, from the reports that it is given or builds.
  unfoldable pub build_deployment_readiness_report :
      Option (List CapacityModel)
      → WorkloadStatus
      → LimiterStatus
      → List DeploymentPhase
      → Float
      → Result Exception DeploymentReport
  unfolding validate_threshold validate_phases build_source_status build_phase_reports
      build_release_gates
  build_deployment_readiness_report capacity workload limiter phases threshold = do
    validate_threshold threshold
    validate_phases phases
    let models = or_none capacity
    let source = build_source_status models workload limiter
    let reports = build_phase_reports models phases
    let gates = build_release_gates source reports phases threshold
    ok (record {
      is_ready = all_pass gates;
      source_evidence = source;
      phases = reports;
      release_gates = gates;
    })
