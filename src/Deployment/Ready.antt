-- ===== src/Deployment/Ready.antt =====
-- gateway/deployment_readiness.py: what a report that is ready for review says.
use mathlib.Core.Path.{subst}
use secure_gpu_inference_gat.Prelude.{
  ◌≡◌, refl, ap, sym, ◌∙◌, ◌≤◌, String, Bool, true, false, not, ◌&&◌, Option, none, some, List, [],
  ◌∷◌, ◌++◌, All, all, map, length, ltb, arith, string_eq, Result, ok, err, ◌>>◌, >>=-eq-ok,
  raise_if, raise_if-eq-ok,
}
use secure_gpu_inference_gat.Errors.{Exception, value_error}
use secure_gpu_inference_gat.Text.{is_empty}
use secure_gpu_inference_gat.Sorting.{sorted}
use secure_gpu_inference_gat.Sorting.Ranks.{All-sorted, of-All-sorted}
use secure_gpu_inference_gat.Json.{Float}
use secure_gpu_inference_gat.Floats.{Rounding, le, lt, equal, zero_float}
use secure_gpu_inference_gat.Floats.Order.{IsNumber, greater-le_iff, greater-IsNumber}
use secure_gpu_inference_gat.Deployment.{
  DeploymentPhase, CapacityModel, WorkloadStatus, LimiterStatus, ModelSchedule, DeploymentReport,
  or_none, is_text, utilization_of, by_id, max_of, ends_full, all_pass, one, validate_phase,
  validate_threshold, validate_phases, build_source_status, build_model_schedule,
  build_phase_report, build_phase_reports, build_release_gates, build_deployment_readiness_report,
}
use secure_gpu_inference_gat.Deployment.Greatest.{
  max_of-le, max_of-IsNumber, IsRounded, greater-IsRounded, max_of-IsRounded,
}

-- What `round(x, 6)` is relied on for.
pub record IsRounding (f : Rounding) : Type 0 where
  pub round_round : (x : Float) → f.round (f.round x 6) 6 ≡ f.round x 6
  pub round_zero : f.round zero_float 6 ≡ zero_float

module _ (f : Rounding) where
  -- The scheduled utilizations of a model in a phase are numbers.
  abbrev pub HasNumbers : DeploymentPhase → CapacityModel → Type 0
  HasNumbers phase m =
      let s : ModelSchedule = build_model_schedule f phase m in
      IsNumber s.request_utilization × IsNumber s.input_token_utilization

  -- Both are up to the threshold.
  abbrev pub Fits : Float → DeploymentPhase → CapacityModel → Type 0
  Fits threshold phase m =
      let s : ModelSchedule = build_model_schedule f phase m in
      (le s.request_utilization threshold ≡ true) × (le s.input_token_utilization threshold ≡ true)

  module _ (laws : IsRounding f) (phase : DeploymentPhase) where
    abbrev utilizations : List CapacityModel → List Float
    utilizations models = map utilization_of (map (build_model_schedule f phase) models)

    utilizations-IsNumber :
        (models : List CapacityModel)
        → All (HasNumbers phase) models
        → All IsNumber (utilizations models)
    utilizations-IsNumber [] all = tt
    utilizations-IsNumber (m ∷ models) ((request, token), all) =
        (greater-IsNumber _ _ request token, utilizations-IsNumber models all)

    utilizations-IsRounded : (models : List CapacityModel) → All (IsRounded f) (utilizations models)
    unfolding build_model_schedule
    utilizations-IsRounded [] = tt
    utilizations-IsRounded (m ∷ models) = (
      greater-IsRounded f _ _ (laws.round_round _) (laws.round_round _),
      utilizations-IsRounded models,
    )

    utilizations-Fits :
        (models : List CapacityModel) (threshold : Float)
        → All (HasNumbers phase) models
        → All (λ x. le x threshold ≡ true) (utilizations models)
        → All (Fits threshold phase) models
    utilizations-Fits [] threshold numbers all = tt
    utilizations-Fits (m ∷ models) threshold ((request, token), numbers) (first, all) = (
      (greater-le_iff _ _ threshold request token).0 first,
      utilizations-Fits models threshold numbers all,
    )

    -- The greatest utilization of a phase is rounded already.
    build_phase_report-max :
        (models : List CapacityModel)
        → (build_phase_report f models phase).max_scheduled_policy_utilization
          ≡ max_of (utilizations models)
    unfolding build_phase_report
    build_phase_report-max models =
        max_of-IsRounded f (utilizations models) laws.round_zero (utilizations-IsRounded models)

    build_phase_report-Fits :
        (models : List CapacityModel) (threshold : Float)
        → All (HasNumbers phase) models
        → le (build_phase_report f models phase).max_scheduled_policy_utilization threshold ≡ true
        → All (Fits threshold phase) models
    build_phase_report-Fits models threshold numbers bound =
        utilizations-Fits models threshold numbers (
          max_of-le (utilizations models) threshold (utilizations-IsNumber models numbers)
            (sym (ap (λ x. le x threshold) (build_phase_report-max models)) ∙ bound))

    build_phase_report-IsNumber :
        (models : List CapacityModel)
        → All (HasNumbers phase) models
        → IsNumber (build_phase_report f models phase).max_scheduled_policy_utilization
    build_phase_report-IsNumber models numbers =
        subst IsNumber (sym (build_phase_report-max models))
          (max_of-IsNumber (utilizations models) (utilizations-IsNumber models numbers))

-- The phase passes its checks: what it reserves covers its traffic, and it can be rolled back.
abbrev pub IsPlanned : DeploymentPhase → Type 0
IsPlanned phase =
    (lt phase.capacity_reservation_fraction phase.traffic_fraction ≡ false)
    × (is_empty phase.rollback_trigger ≡ false)

past :
    (test : Bool) (text : String) {rest : Result Exception Unit}
    → (raise_if test (value_error text) >> rest) ≡ ok tt
    → (test ≡ false) × (rest ≡ ok tt)
past test text {rest} h = raise_if-eq-ok test (value_error text) rest h

validate_phase-IsPlanned :
    (f : Rounding) (p : DeploymentPhase) → validate_phase f p ≡ ok tt → IsPlanned p
unfolding validate_phase
validate_phase-IsPlanned f p h =
    let (_, h) = past (is_empty p.name) "deployment phase name must not be empty" h in
    let (_, h) =
      past (not (le zero_float p.traffic_fraction && le p.traffic_fraction (one f)))
        "traffic_fraction must be in [0, 1]" h in
    let (_, h) =
      past
        (not (
          lt zero_float p.capacity_reservation_fraction
          && le p.capacity_reservation_fraction (one f)))
        "capacity_reservation_fraction must be in (0, 1]" h in
    let (covered, h) =
      past (lt p.capacity_reservation_fraction p.traffic_fraction)
        "capacity_reservation_fraction must cover traffic_fraction" h in
    let (_, h) = past (is_empty p.validation_mode) "validation_mode must not be empty" h in
    let (rollback, _) = past (is_empty p.rollback_trigger) "rollback_trigger must not be empty" h in
    (covered, rollback)

validate_phases-IsPlanned :
    (f : Rounding) (phases : List DeploymentPhase)
    → validate_phases f phases ≡ ok tt
    → All IsPlanned phases
unfolding validate_phases
validate_phases-IsPlanned f [] h = tt
validate_phases-IsPlanned f (p ∷ phases) h =
    let (_, first, rest) = >>=-eq-ok (validate_phase f p) (λ _. validate_phases f phases) h in
    (validate_phase-IsPlanned f p first, validate_phases-IsPlanned f phases rest)

-- The last phase takes all traffic.
abbrev pub EndsFull : Rounding → List DeploymentPhase → Type 0
EndsFull f phases =
    (initial : List DeploymentPhase) × (last : DeploymentPhase) × (phases ≡ initial ++ last ∷ [])
    × (equal last.traffic_fraction (one f) ≡ true)

ends_full-EndsFull :
    (f : Rounding) (phases : List DeploymentPhase)
    → ends_full (λ x. equal x (one f)) phases ≡ true
    → EndsFull f phases
unfolding ends_full
ends_full-EndsFull f [] h = cc
ends_full-EndsFull f (p ∷ []) h = ([], p, refl, h)
ends_full-EndsFull f (p ∷ q ∷ phases) h =
    let (initial, last, same, full) = ends_full-EndsFull f (q ∷ phases) h in
    (p ∷ initial, last, ap (λ l. p ∷ l) same, full)

is_text-some : (o : Option String) (text : String) → is_text o text ≡ true → o ≡ some text
is_text-some none text h = cc
is_text-some (some s) text h = ap (λ t. some t) ((string_eq.beq_iff s text).0 h)

abbrev pub IsWithin : CapacityModel → Type 0
IsWithin m = m.status ≡ some "within_synthetic_capacity"

all-IsWithin :
    (models : List CapacityModel)
    → all (λ m. is_text m.status "within_synthetic_capacity") models ≡ true
    → All IsWithin models
all-IsWithin [] h = tt
all-IsWithin (m ∷ models) h =
    (is_text-some m.status _ (ground (arith, h)), all-IsWithin models (ground (arith, h)))

module _ (f : Rounding) (laws : IsRounding f) (models : List CapacityModel)
    (threshold : Float) where
  reports-IsNumber :
      (phases : List DeploymentPhase)
      → All (λ phase. All (HasNumbers f phase) models) phases
      → All IsNumber (
          map
            (λ report. report.max_scheduled_policy_utilization)
            (map (build_phase_report f models) phases))
  reports-IsNumber [] numbers = tt
  reports-IsNumber (phase ∷ phases) (first, numbers) =
      (build_phase_report-IsNumber f laws phase models first, reports-IsNumber phases numbers)

  reports-Fits :
      (phases : List DeploymentPhase)
      → All (λ phase. All (HasNumbers f phase) models) phases
      → All
          (λ x. le x threshold ≡ true)
          (map
            (λ report. report.max_scheduled_policy_utilization)
            (map (build_phase_report f models) phases))
      → All (λ phase. All (Fits f threshold phase) models) phases
  reports-Fits [] numbers bounds = tt
  reports-Fits (phase ∷ phases) (first, numbers) (bound, bounds) = (
    build_phase_report-Fits f laws phase models threshold first bound,
    reports-Fits phases numbers bounds,
  )

both : (a b : Bool) → (a && b) ≡ true → (a ≡ true) × (b ≡ true)
both a b h = ground arith

all_true :
    (a b c d e g : Bool)
    → (a && b && c && d && e && g) ≡ true
    → (a ≡ true) × (b ≡ true) × (c ≡ true) × (d ≡ true) × (e ≡ true) × (g ≡ true)
all_true a b c d e g h = ground arith

abbrev ready_of : Result Exception DeploymentReport → Bool
ready_of (err e) = false
ready_of (ok report) = report.is_ready

-- What a report that is ready stands on.
pub record Ready (f : Rounding) (models : List CapacityModel) (workload : WorkloadStatus)
    (limiter : LimiterStatus) (phases : List DeploymentPhase) (threshold : Float) : Type 0 where
  pub some_model : 1 ≤ length models
  pub within : All IsWithin models
  pub workload_passed : workload.readiness_status ≡ some "pass"
  pub limiter_passed : limiter.readiness_status ≡ some "pass"
  pub planned : All IsPlanned phases
  pub ends : EndsFull f phases
  pub fits : All (λ phase. All (Fits f threshold phase) models) phases

sorted-numbers :
    (f : Rounding) (models : List CapacityModel) (phases : List DeploymentPhase)
    → All (λ phase. All (HasNumbers f phase) models) phases
    → All (λ phase. All (HasNumbers f phase) (sorted by_id models)) phases
sorted-numbers f models [] all = tt
sorted-numbers f models (phase ∷ phases) (first, all) =
    (All-sorted (HasNumbers f phase) by_id models first, sorted-numbers f models phases all)

unsorted-Fits :
    (f : Rounding) (models : List CapacityModel) (threshold : Float) (phases : List DeploymentPhase)
    → All (λ phase. All (Fits f threshold phase) (sorted by_id models)) phases
    → All (λ phase. All (Fits f threshold phase) models) phases
unsorted-Fits f models threshold [] all = tt
unsorted-Fits f models threshold (phase ∷ phases) (first, all) = (
  of-All-sorted (Fits f threshold phase) by_id models first,
  unsorted-Fits f models threshold phases all,
)

module _ (f : Rounding) (laws : IsRounding f) (models : List CapacityModel)
    (workload : WorkloadStatus) (limiter : LimiterStatus) (phases : List DeploymentPhase)
    (threshold : Float) where
  gates-Ready :
      All (λ phase. All (HasNumbers f phase) models) phases
      → All IsPlanned phases
      → all_pass f (
          build_release_gates f
            (build_source_status models workload limiter)
            (build_phase_reports f models phases)
            phases
            threshold)
        ≡ true
      → Ready f models workload limiter phases threshold
  unfolding build_release_gates build_source_status build_phase_reports
  gates-Ready numbers planned passed =
      let ordered : List CapacityModel = sorted by_id models in
      let inside = sorted-numbers f models phases numbers in
      let bounds = reports-IsNumber f laws ordered threshold phases inside in
      let (sources, workloads, limiters, shape, staged, _) = all_true _ _ _ _ _ _ passed in
      let (counted, each) = both (ltb 0 (length models)) _ sources in
      record {
        some_model = ground (arith, counted);
        within = all-IsWithin models each;
        workload_passed = is_text-some workload.readiness_status "pass" workloads;
        limiter_passed = is_text-some limiter.readiness_status "pass" limiters;
        planned = planned;
        ends = ends_full-EndsFull f phases shape;
        fits = unsorted-Fits f models threshold phases (
            reports-Fits f laws ordered threshold phases inside
              (max_of-le _ threshold bounds staged));
      }

-- What a report that is ready for review stands on, when no scheduled utilization is a nan: there
-- is a model and all are within capacity, the replay and the limiter check passed, every phase
-- reserves the capacity of its traffic and says when to roll back, the last phase takes all
-- traffic, and no utilization that a phase schedules for a model is past the threshold.
pub build_deployment_readiness_report-Ready :
    (f : Rounding) (capacity : Option (List CapacityModel)) (workload : WorkloadStatus)
    (limiter : LimiterStatus) (phases : List DeploymentPhase) (threshold : Float)
    (report : DeploymentReport)
    → IsRounding f
    → All (λ phase. All (HasNumbers f phase) (or_none capacity)) phases
    → build_deployment_readiness_report f capacity workload limiter phases threshold ≡ ok report
    → report.is_ready ≡ true
    → Ready f (or_none capacity) workload limiter phases threshold
unfolding build_deployment_readiness_report
build_deployment_readiness_report-Ready f capacity workload limiter phases threshold report laws
      numbers built ready =
    let (_, _, h) = >>=-eq-ok (validate_threshold f threshold) _ built in
    let (_, valid, made) = >>=-eq-ok (validate_phases f phases) _ h in
    gates-Ready f laws (or_none capacity) workload limiter phases threshold numbers
      (validate_phases-IsPlanned f phases valid) (ap ready_of made ∙ ready)
