-- ===== src/Capacity.antt =====
-- gateway/capacity_plan.py: the estimate of the capacity of a model, without the texts that never
-- change. The limits of a policy are small enough to be floats.
pub mod Fits
use Prim.Native.String.{◌++◌}
use secure_gpu_inference_gat.Prelude.{
  ℕ, String, Bool, true, false, not, ◌&&◌, Option, none, some, List, [], ◌∷◌, string_eq, Result, ok,
  err, ◌>>=◌, ◌>>◌, raise_if, if◌then◌else◌,
}
use secure_gpu_inference_gat.Errors.{Exception, value_error, key_error}
use secure_gpu_inference_gat.Dict
use secure_gpu_inference_gat.Dict.{Dict}
use secure_gpu_inference_gat.Models.{ModelPolicy}
use secure_gpu_inference_gat.Json.{Float}
use secure_gpu_inference_gat.Floats.{Rounding, le, lt, greater, zero_float, of_nat, divide}

pub record CapacityProfile : Type 0 where
  pub model_id : String
  pub profile_name : String
  pub measured_requests_per_second : Float
  pub measured_input_tokens_per_second : Float
  pub measured_decode_tokens_per_second : Float
  pub observed_p95_latency_ms : Float
  pub observed_gpu_utilization : Float
  pub gpu_hourly_cost_usd : Float
  pub accelerator_class : String

pub record CapacityAssumption : Type 0 where
  pub target_gpu_utilization : Float
  pub safety_margin : Float

abbrev pub positive_fields : CapacityProfile → List (String × Float)
positive_fields p =
    ("measured_requests_per_second", p.measured_requests_per_second)
    ∷ ("measured_input_tokens_per_second", p.measured_input_tokens_per_second)
    ∷ ("measured_decode_tokens_per_second", p.measured_decode_tokens_per_second)
    ∷ ("observed_p95_latency_ms", p.observed_p95_latency_ms)
    ∷ ("gpu_hourly_cost_usd", p.gpu_hourly_cost_usd)
    ∷ []

-- The loop over `positive_fields`.
unfoldable pub all_positive : List (String × Float) → Result Exception Unit
unfolding le
all_positive [] = ok tt
all_positive ((field_name, value) ∷ fields) = do
  raise_if (le value zero_float) (value_error (field_name ++ " must be positive"))
  all_positive fields

pub record CapacityEstimate : Type 0 where
  pub model_id : String
  pub profile_name : String
  pub accelerator_class : String
  pub observed_p95_latency_ms : Float
  pub observed_gpu_utilization : Float
  pub modeled_requests_per_minute : Float
  pub modeled_input_tokens_per_minute : Float
  pub modeled_decode_tokens_per_minute : Float
  pub policy_requests_per_minute : ℕ
  pub policy_input_tokens_per_minute : ℕ
  pub policy_request_utilization : Float
  pub policy_input_token_utilization : Float
  pub cost_per_1000_requests_usd : Float
  pub cost_per_1m_input_tokens_usd : Float
  pub status : String

module _ (f : Rounding) where
  abbrev pub one : Float
  one = of_nat f 1

  -- `0 < x <= 1`
  abbrev pub is_fraction : Float → Bool
  is_fraction x = lt zero_float x && le x one

  -- `CapacityProfile.validate`
  unfoldable pub validate_profile : CapacityProfile → Result Exception Unit
  unfolding all_positive le lt
  validate_profile p = do
    all_positive (positive_fields p)
    raise_if (not (is_fraction p.observed_gpu_utilization))
        (value_error "observed_gpu_utilization must be in (0, 1]")

  -- `CapacityAssumption.validate`
  unfoldable pub validate_assumption : CapacityAssumption → Result Exception Unit
  unfolding le lt
  validate_assumption a = do
    raise_if (not (is_fraction a.target_gpu_utilization))
        (value_error "target_gpu_utilization must be in (0, 1]")
    raise_if (not (le zero_float a.safety_margin && lt a.safety_margin one))
        (value_error "safety_margin must be in [0, 1)")

  unfoldable pub cost_per_units : Float → Float → ℕ → Result Exception Float
  unfolding le divide
  cost_per_units hourly_cost units_per_second unit_count = do
    raise_if (le hourly_cost zero_float) (value_error "hourly_cost must be positive")
    raise_if (le units_per_second zero_float) (value_error "units_per_second must be positive")
    hourly ← divide f hourly_cost (f.times units_per_second (of_nat f 3600))
    ok (f.times hourly (of_nat f unit_count))

  abbrev pub per_minute : Float → Float
  per_minute rate = f.times rate (of_nat f 60)

  -- The share of a measured rate that may be used.
  abbrev pub usable_scale : CapacityAssumption → Float → Float
  usable_scale a utilization_scale = f.times utilization_scale (f.minus one a.safety_margin)

  abbrev pub status_of : Float → String
  status_of limiting_ratio =
      if le limiting_ratio one then "within_synthetic_capacity" else "exceeds_synthetic_capacity"

  -- The estimate with its utilizations and costs, at a scale of the measured rates.
  unfoldable pub estimate_with :
      CapacityProfile → ModelPolicy → Float → Float → Float → Float → Float → CapacityEstimate
  unfolding greater le
  estimate_with p policy scale request_utilization token_utilization request_cost token_cost =
      record {
        model_id = p.model_id;
        profile_name = p.profile_name;
        accelerator_class = p.accelerator_class;
        observed_p95_latency_ms = f.round p.observed_p95_latency_ms 3;
        observed_gpu_utilization = f.round p.observed_gpu_utilization 6;
        modeled_requests_per_minute =
            f.round (per_minute (f.times p.measured_requests_per_second scale)) 3;
        modeled_input_tokens_per_minute =
            f.round (per_minute (f.times p.measured_input_tokens_per_second scale)) 3;
        modeled_decode_tokens_per_minute =
            f.round (per_minute (f.times p.measured_decode_tokens_per_second scale)) 3;
        policy_requests_per_minute = policy.requests_per_minute;
        policy_input_tokens_per_minute = policy.input_tokens_per_minute;
        policy_request_utilization = f.round request_utilization 6;
        policy_input_token_utilization = f.round token_utilization 6;
        cost_per_1000_requests_usd = f.round request_cost 6;
        cost_per_1m_input_tokens_usd = f.round token_cost 6;
        status = status_of (greater request_utilization token_utilization);
      }

  -- From the scale on.
  unfoldable pub estimate_at :
      CapacityProfile → ModelPolicy → Float → Result Exception CapacityEstimate
  unfolding divide cost_per_units estimate_with
  estimate_at p policy scale = do
    let requests = f.times p.measured_requests_per_second scale
    let input_tokens = f.times p.measured_input_tokens_per_second scale
    request_utilization ← divide f (of_nat f policy.requests_per_minute) (per_minute requests)
    token_utilization ← divide f (of_nat f policy.input_tokens_per_minute) (per_minute input_tokens)
    request_cost ← cost_per_units p.gpu_hourly_cost_usd requests 1000
    token_cost ← cost_per_units p.gpu_hourly_cost_usd input_tokens 1000000
    ok (estimate_with p policy scale request_utilization token_utilization request_cost token_cost)

  unfoldable pub estimate_profile_capacity :
      CapacityProfile → ModelPolicy → CapacityAssumption → Result Exception CapacityEstimate
  unfolding validate_profile validate_assumption divide estimate_at
  estimate_profile_capacity p policy a = do
    validate_profile p
    validate_assumption a
    utilization_scale ← divide f a.target_gpu_utilization p.observed_gpu_utilization
    estimate_at p policy (usable_scale a utilization_scale)

  -- `policies[profile.model_id]` and the estimate with it.
  unfoldable pub estimate_of :
      CapacityAssumption → CapacityProfile → Option ModelPolicy → Result Exception CapacityEstimate
  unfolding estimate_profile_capacity
  estimate_of a p none = err (key_error p.model_id)
  estimate_of a p (some policy) = estimate_profile_capacity p policy a

  unfoldable pub estimates :
      Dict String ModelPolicy
      → CapacityAssumption
      → List CapacityProfile
      → Result Exception (List CapacityEstimate)
  unfolding estimate_of Dict.get
  estimates policies a [] = ok []
  estimates policies a (p ∷ profiles) = do
    first ← estimate_of a p (Dict.get policies p.model_id)
    more ← estimates policies a profiles
    ok (first ∷ more)

  -- `build_capacity_report`: the estimates of the models.
  unfoldable pub build_capacity_report :
      List CapacityProfile
      → Dict String ModelPolicy
      → CapacityAssumption
      → Result Exception (List CapacityEstimate)
  unfolding validate_assumption estimates
  build_capacity_report profiles policies a = do
    validate_assumption a
    estimates policies a profiles
