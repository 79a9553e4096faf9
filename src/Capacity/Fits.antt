-- ===== src/Capacity/Fits.antt =====
-- gateway/capacity_plan.py: when a model is said to be within capacity.
use Prim.Native.String.{◌++◌}
use secure_gpu_inference_gat.Prelude.{
  ◌≡◌, refl, ap, ◌↔◌, ℕ, ◌≤◌, String, Bool, true, false, not, List, [], ◌∷◌, All, arith, ◌==◌,
  string_eq, ok, >>=-eq-ok, raise_if, raise_if-eq-ok, if◌then◌else◌,
}
use secure_gpu_inference_gat.Errors.{Exception, value_error}
use secure_gpu_inference_gat.Models.{ModelPolicy}
use secure_gpu_inference_gat.Json.{Float}
use secure_gpu_inference_gat.Floats.{Rounding, le, lt, greater, is_zero, zero_float, of_nat, divide}
use secure_gpu_inference_gat.Floats.Order.{IsNumber, greater-le_iff}
use secure_gpu_inference_gat.Capacity.{
  CapacityProfile, CapacityAssumption, CapacityEstimate, positive_fields, all_positive, one,
  is_fraction, validate_profile, validate_assumption, cost_per_units, per_minute, usable_scale,
  estimate_with, estimate_at, estimate_profile_capacity,
}

-- What the quotients and products of floats are relied on for: a quotient by a positive number is
-- no nan, and is at most one exactly when the dividend is at most the divisor; a positive number
-- times a whole number that is not zero is positive.
pub record IsDividing (f : Rounding) : Type 0 where
  pub over_number : (n : ℕ) (y : Float) → lt zero_float y ≡ true → IsNumber (f.over (of_nat f n) y)
  pub over_le_one :
      (n : ℕ) (y : Float)
      → lt zero_float y ≡ true
      → (le (f.over (of_nat f n) y) (one f) ≡ true) ↔ (le (of_nat f n) y ≡ true)
  pub times_positive :
      (x : Float) (n : ℕ)
      → 1 ≤ n
      → lt zero_float x ≡ true
      → lt zero_float (f.times x (of_nat f n)) ≡ true

abbrev the_text : String → String
the_text s = s

is_zero-positive : (x : Float) → lt zero_float x ≡ true → is_zero x ≡ false
unfolding lt
is_zero-positive x h = ground arith

le-positive : (x : Float) → lt zero_float x ≡ true → le x zero_float ≡ false
unfolding le lt
le-positive x h = ground arith

divide-positive :
    (f : Rounding) (x y : Float) → lt zero_float y ≡ true → divide f x y ≡ ok (f.over x y)
unfolding divide
divide-positive f x y h = rw (is_zero-positive y h) refl

within_iff :
    (b : Bool)
    → ((if b then "within_synthetic_capacity" else "exceeds_synthetic_capacity")
        ≡ the_text "within_synthetic_capacity")
      ↔ (b ≡ true)
within_iff true = ((λ h. refl), (λ h. refl))
within_iff false = ((λ h. ap (λ s. s == "within_synthetic_capacity") h), (λ h. cc))

module _ (f : Rounding) (laws : IsDividing f) where
  -- What `cost_per_units` gives for a positive rate.
  abbrev cost_of : Float → Float → ℕ → Float
  cost_of cost units n = f.times (f.over cost (f.times units (of_nat f 3600))) (of_nat f n)

  cost_per_units-ok :
      (cost units : Float) (n : ℕ)
      → le cost zero_float ≡ false
      → lt zero_float units ≡ true
      → cost_per_units f cost units n ≡ ok (cost_of cost units n)
  unfolding cost_per_units
  cost_per_units-ok cost units n dear positive =
      let seconds = laws.times_positive units 3600 (omega arith) positive in
      rw (dear, le-positive units positive, divide-positive f cost _ seconds) refl

  module _ (p : CapacityProfile) (policy : ModelPolicy) (scale : Float) where
    abbrev requests : Float
    requests = f.times p.measured_requests_per_second scale

    abbrev input_tokens : Float
    input_tokens = f.times p.measured_input_tokens_per_second scale

    abbrev request_ratio : Float
    request_ratio = f.over (of_nat f policy.requests_per_minute) (per_minute f requests)

    abbrev token_ratio : Float
    token_ratio = f.over (of_nat f policy.input_tokens_per_minute) (per_minute f input_tokens)

    abbrev estimated : CapacityEstimate
    estimated =
        estimate_with f p policy scale request_ratio token_ratio
          (cost_of p.gpu_hourly_cost_usd requests 1000)
          (cost_of p.gpu_hourly_cost_usd input_tokens 1000000)

    estimate_at-ok :
        le p.gpu_hourly_cost_usd zero_float ≡ false
        → lt zero_float requests ≡ true
        → lt zero_float input_tokens ≡ true
        → estimate_at f p policy scale ≡ ok estimated
    unfolding estimate_at
    estimate_at-ok dear some_requests some_tokens =
        let rate = laws.times_positive requests 60 (omega arith) some_requests in
        let token_rate = laws.times_positive input_tokens 60 (omega arith) some_tokens in
        rw
          (
            divide-positive f (of_nat f policy.requests_per_minute) _ rate,
            divide-positive f (of_nat f policy.input_tokens_per_minute) _ token_rate,
            cost_per_units-ok p.gpu_hourly_cost_usd requests 1000 dear some_requests,
            cost_per_units-ok p.gpu_hourly_cost_usd input_tokens 1000000 dear some_tokens,
          )
          refl

    estimated-fits :
        lt zero_float requests ≡ true
        → lt zero_float input_tokens ≡ true
        → (estimated.status ≡ "within_synthetic_capacity") ↔ (
            (le (of_nat f policy.requests_per_minute) (per_minute f requests) ≡ true)
            × (le (of_nat f policy.input_tokens_per_minute) (per_minute f input_tokens) ≡ true))
    unfolding estimate_with
    estimated-fits some_requests some_tokens =
        let rate = laws.times_positive requests 60 (omega arith) some_requests in
        let token_rate = laws.times_positive input_tokens 60 (omega arith) some_tokens in
        let (to, from) = within_iff (le (greater request_ratio token_ratio) (one f)) in
        let (split, join) =
          greater-le_iff request_ratio token_ratio (one f)
            (laws.over_number policy.requests_per_minute _ rate)
            (laws.over_number policy.input_tokens_per_minute _ token_rate) in
        let (request_to, request_from) = laws.over_le_one policy.requests_per_minute _ rate in
        let (token_to, token_from) = laws.over_le_one policy.input_tokens_per_minute _ token_rate in
        (
          (λ h. let (a, b) = split (to h) in (request_to a, token_to b)),
          (λ h. from (join (request_from h.0, token_from h.1))),
        )

all_positive-All :
    (fields : List (String × Float))
    → all_positive fields ≡ ok tt
    → All (λ field. le field.1 zero_float ≡ false) fields
unfolding all_positive
all_positive-All [] h = tt
all_positive-All ((name, value) ∷ fields) h =
    let (first, rest) =
      raise_if-eq-ok (le value zero_float) (value_error (name ++ " must be positive"))
        (all_positive fields) h in
    (first, all_positive-All fields rest)

raise_if-ok : (test : Bool) (e : Exception) → raise_if test e ≡ ok tt → test ≡ false
raise_if-ok true e h = cc
raise_if-ok false e h = refl

validate_profile-ok :
    (f : Rounding) (p : CapacityProfile)
    → validate_profile f p ≡ ok tt
    → (le p.gpu_hourly_cost_usd zero_float ≡ false)
      × (lt zero_float p.observed_gpu_utilization ≡ true)
unfolding validate_profile
validate_profile-ok f p h =
    let (_, positive, bounded) = >>=-eq-ok (all_positive (positive_fields p)) _ h in
    let (_, (_, (_, (_, (dear, _))))) = all_positive-All (positive_fields p) positive in
    let inside =
      raise_if-ok (not (is_fraction f p.observed_gpu_utilization))
        (value_error "observed_gpu_utilization must be in (0, 1]") bounded in
    (dear, ground (arith, inside))

-- The rates that a profile is modelled to allow in a second.
module _ (f : Rounding) (p : CapacityProfile) (a : CapacityAssumption) where
  abbrev pub scale_of : Float
  scale_of = usable_scale f a (f.over a.target_gpu_utilization p.observed_gpu_utilization)

  abbrev pub request_rate : Float
  request_rate = f.times p.measured_requests_per_second scale_of

  abbrev pub token_rate : Float
  token_rate = f.times p.measured_input_tokens_per_second scale_of

-- A profile and an assumption that pass their checks, and whose modelled rates did not round to
-- zero, get an estimate. It says that the model is within capacity exactly when the limits of its
-- policy are at most the requests and the tokens that are modelled for a minute.
pub estimate_profile_capacity-fits :
    (f : Rounding) (p : CapacityProfile) (policy : ModelPolicy) (a : CapacityAssumption)
    → IsDividing f
    → validate_profile f p ≡ ok tt
    → validate_assumption f a ≡ ok tt
    → lt zero_float (request_rate f p a) ≡ true
    → lt zero_float (token_rate f p a) ≡ true
    → (e : CapacityEstimate) × (estimate_profile_capacity f p policy a ≡ ok e)
      × ((e.status ≡ "within_synthetic_capacity") ↔ (
          (le (of_nat f policy.requests_per_minute) (per_minute f (request_rate f p a)) ≡ true)
          × (le (of_nat f policy.input_tokens_per_minute) (per_minute f (token_rate f p a))
              ≡ true)))
unfolding estimate_profile_capacity
estimate_profile_capacity-fits f p policy a laws valid assumed some_requests some_tokens =
    let (dear, observed) = validate_profile-ok f p valid in
    (
      estimated f laws p policy (scale_of f p a),
      rw
          (
            valid,
            assumed,
            divide-positive f a.target_gpu_utilization p.observed_gpu_utilization observed,
          )
          (estimate_at-ok f laws p policy (scale_of f p a) dear some_requests some_tokens),
      estimated-fits f laws p policy (scale_of f p a) some_requests some_tokens,
    )
