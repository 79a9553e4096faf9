-- ===== src/Tests/Plans.antt =====
-- The capacity of a model, in whole numbers, and a rollout in two phases, in thousandths.
use native.Mathlib.Nat.{div-lt_iff_lt-mul, mul-le-mul_right}
use secure_gpu_inference_gat.Prelude.{
  ◌≡◌, refl, ◌↔◌, ℕ, ◌+◌, ◌-◌, ◌*◌, ◌/◌, ◌≤◌, ◌<◌, true, false, Option, none, some, List, [], ◌∷◌,
  arith, ok,
}
use secure_gpu_inference_gat.Prelude.Int.{pos, negsuc}
use secure_gpu_inference_gat.Models.{ModelPolicy}
use secure_gpu_inference_gat.Json.{Float, finite, infinity, minus_infinity, nan}
use secure_gpu_inference_gat.Floats.{Rounding, le, lt, zero_float, of_nat}
use secure_gpu_inference_gat.Capacity.{
  CapacityProfile, CapacityAssumption, CapacityEstimate, per_minute, estimate_profile_capacity,
}
use secure_gpu_inference_gat.Capacity.Fits.{
  IsDividing, request_rate, token_rate, estimate_profile_capacity-fits,
}
use secure_gpu_inference_gat.Deployment.{
  DeploymentPhase, CapacityModel, WorkloadStatus, LimiterStatus, DeploymentReport, SourceStatus,
  PhaseReport, or_none, build_source_status, build_phase_reports, build_release_gates,
  build_deployment_readiness_report,
}
use secure_gpu_inference_gat.Deployment.Ready.{Ready, build_deployment_readiness_report-Ready}

abbrev product : Float → Float → Float
product (finite (pos a)) (finite (pos b)) = finite (pos (a * b))
product infinity b = infinity
product a b = zero_float

-- The quotient, rounded up.
abbrev quotient : Float → Float → Float
quotient (finite (pos a)) (finite (pos b)) = finite (pos ((a + b - 1) / b))
quotient a b = zero_float

abbrev whole : Rounding
whole = record {
  ticks = 1;
  times = product;
  minus = λ a b. a;
  over = quotient;
  round = λ a digits. a;
}

quotient-le_one : (n y : ℕ) → 1 ≤ y → ((n + y - 1) / y ≤ 1) ↔ (n ≤ y)
quotient-le_one n y some_y =
    let small : ((n + y - 1) / y < 2) ↔ (n + y - 1 < 2 * y) = div-lt_iff_lt-mul some_y in
    let (to, from) = small in
    (
      (λ h. let bound : n + y - 1 < 2 * y = to (omega (arith, h)) in omega (arith, bound, some_y)),
      (λ h.
          let bound : (n + y - 1) / y < 2 = from (omega (arith, h, some_y)) in
          omega (arith, bound)),
    )

over_number :
    (n : ℕ) (y : Float)
    → lt zero_float y ≡ true
    → le (quotient (finite (pos (n * 1))) y) (quotient (finite (pos (n * 1))) y) ≡ true
unfolding le
over_number n y h = ground arith

over_le_one :
    (n : ℕ) (y : Float)
    → lt zero_float y ≡ true
    → (le (quotient (finite (pos (n * 1))) y) (finite (pos 1)) ≡ true)
      ↔ (le (finite (pos (n * 1))) y ≡ true)
unfolding le lt
over_le_one n (finite (pos y)) h =
    let (to, from) = quotient-le_one (n * 1) y (ground (arith, h)) in
    ((λ k. ground (arith, to, k)), (λ k. ground (arith, from, k)))
over_le_one n infinity h = ((λ k. refl), (λ k. refl))
over_le_one n (finite (negsuc y)) h = absurd (ground (arith, h))
over_le_one n minus_infinity h = cc
over_le_one n nan h = cc

times_positive :
    (x : Float) (n : ℕ)
    → 1 ≤ n
    → lt zero_float x ≡ true
    → lt zero_float (product x (finite (pos (n * 1)))) ≡ true
unfolding lt
times_positive (finite (pos x)) n some_n h =
    let some_x : 1 ≤ x = ground (arith, h) in
    let more : 1 ≤ x * (n * 1) = omega (arith, mul-le-mul_right n some_x, some_n) in
    ground (arith, more)
times_positive infinity n some_n h = refl
times_positive (finite (negsuc x)) n some_n h = absurd (ground (arith, h))
times_positive minus_infinity n some_n h = cc
times_positive nan n some_n h = cc

whole-IsDividing : IsDividing whole
whole-IsDividing = record {
  over_number = over_number;
  over_le_one = over_le_one;
  times_positive = times_positive;
}

abbrev profile : CapacityProfile
profile = record {
  model_id = "m";
  profile_name = "p";
  measured_requests_per_second = finite (pos 12);
  measured_input_tokens_per_second = finite (pos 3300);
  measured_decode_tokens_per_second = finite (pos 820);
  observed_p95_latency_ms = finite (pos 410);
  observed_gpu_utilization = finite (pos 1);
  gpu_hourly_cost_usd = finite (pos 3);
  accelerator_class = "synthetic-review-gpu";
}

abbrev policy : ModelPolicy
policy = record {
  model_id = "m";
  description = "";
  allowed_roles = [];
  requests_per_minute = 60;
  input_tokens_per_minute = 6000;
  requires_reason = false;
  sensitivity = "standard";
}

abbrev assumption : CapacityAssumption
assumption = record { target_gpu_utilization = finite (pos 1); safety_margin = finite (pos 0) }

estimate_profile_capacity-fits_example :
    (e : CapacityEstimate) × (estimate_profile_capacity whole profile policy assumption ≡ ok e)
    × ((e.status ≡ "within_synthetic_capacity") ↔ (
        (le (of_nat whole 60) (per_minute whole (request_rate whole profile assumption)) ≡ true)
        × (le (of_nat whole 6000) (per_minute whole (token_rate whole profile assumption)) ≡ true)))
unfolding estimate_profile_capacity le lt
estimate_profile_capacity-fits_example =
    estimate_profile_capacity-fits whole profile policy assumption whole-IsDividing refl refl refl
      refl

abbrev thousandths_of : Float → Float → Float
thousandths_of (finite (pos a)) (finite (pos b)) = finite (pos (a * b / 1000))
thousandths_of a b = zero_float

abbrev pub thousandths : Rounding
thousandths = record {
  ticks = 1000;
  times = thousandths_of;
  minus = λ a b. a;
  over = λ a b. a;
  round = λ a digits. a;
}

abbrev phases : List DeploymentPhase
phases =
    record {
      name = "canary";
      traffic_fraction = finite (pos 100);
      capacity_reservation_fraction = finite (pos 150);
      validation_mode = "canary";
      rollback_trigger = "the denial rate deviates";
      required_evidence = "limiter" ∷ [];
    }
    ∷ record {
      name = "full";
      traffic_fraction = finite (pos 1000);
      capacity_reservation_fraction = finite (pos 1000);
      validation_mode = "full";
      rollback_trigger = "an audit gap";
      required_evidence = "capacity" ∷ [];
    }
    ∷ []

abbrev capacity : Option (List CapacityModel)
capacity = some (
    record {
      model_id = some "m";
      status = some "within_synthetic_capacity";
      policy_request_utilization = some (finite (pos 320));
      policy_input_token_utilization = some (finite (pos 700));
      modeled_requests_per_minute = none;
      modeled_input_tokens_per_minute = none;
    }
    ∷ [])

abbrev replayed : WorkloadStatus
replayed = record { readiness_status = some "pass"; observed_outcomes = none }

abbrev limited : LimiterStatus
limited = record { readiness_status = some "pass"; rule_count = some 6 }

abbrev threshold : Float
threshold = finite (pos 800)

abbrev source : SourceStatus
source = build_source_status (or_none capacity) replayed limited

abbrev reports : List PhaseReport
reports = build_phase_reports thousandths (or_none capacity) phases

abbrev report : DeploymentReport
report = record {
  is_ready = true;
  source_evidence = source;
  phases = reports;
  release_gates = build_release_gates thousandths source reports phases threshold;
}

build_deployment_readiness_report-Ready_example :
    Ready thousandths (or_none capacity) replayed limited phases threshold
unfolding build_deployment_readiness_report le lt
build_deployment_readiness_report-Ready_example =
    build_deployment_readiness_report-Ready thousandths capacity replayed limited phases threshold
      report (record { round_round = λ x. refl; round_zero = refl })
      (((refl, refl), tt), (((refl, refl), tt), tt)) refl refl
