-- ===== src/Resilience/Passed.antt =====
-- gateway/resilience_drill.py: what a drill that passes says.
use secure_gpu_inference_gat.Prelude.{
  ◌≡◌, refl, ap, sym, ◌∙◌, String, Bool, true, false, not, ◌&&◌, Option, none, some, List, [], ◌∷◌,
  All, Any, map, filter, contains, length, nat_beq, arith, string_eq, ◌==◌, Result, ok, err,
  >>=-eq-ok, raise_if-eq-ok, Bool-cases, inl, inr,
}
use secure_gpu_inference_gat.Prelude.Int.{leb_ℤ}
use secure_gpu_inference_gat.Errors.{Exception, value_error}
use secure_gpu_inference_gat.Sorting.{sorted, text_le}
use secure_gpu_inference_gat.Sorting.Ranks.{All-sorted}
use secure_gpu_inference_gat.Floats.{Rounding, le}
use secure_gpu_inference_gat.Resilience.{
  ResilienceProbe, ResilienceThresholds, ProbeReport, WorkloadStatus, DeploymentStatus, DrillReport,
  says_pass, or_hold, is_mitigated, distinct, is_none, all_pass, build_source_evidence,
  build_scenario_coverage, build_release_gates, build_probe_report, validate_thresholds,
  validate_probes, build_resilience_drill_report,
}

-- A probe within all limits.
abbrev pub Withstood : Rounding → ResilienceThresholds → ResilienceProbe → Type 0
Withstood f t p =
    (le p.observed_p95_latency_ms (f.times p.baseline_p95_latency_ms t.max_latency_multiplier)
      ≡ true)
    × (le p.observed_error_rate t.max_error_rate ≡ true)
    × (leb_ℤ p.observed_queue_depth t.max_queue_depth ≡ true)
    × (le p.recovery_seconds t.max_recovery_seconds ≡ true)
    × (is_mitigated p ≡ true)

all_true :
    (a b c d e : Bool)
    → (a && b && c && d && e) ≡ true
    → (a ≡ true) × (b ≡ true) × (c ≡ true) × (d ≡ true) × (e ≡ true)
all_true a b c d e h = ground arith

build_probe_report-Withstood :
    (f : Rounding) (t : ResilienceThresholds) (p : ResilienceProbe)
    → (build_probe_report f t p).passes ≡ true
    → Withstood f t p
unfolding build_probe_report
build_probe_report-Withstood f t p h = all_true _ _ _ _ _ h

abbrev is_nil : {A : Type 0} → List A → Bool
is_nil [] = true
is_nil (x ∷ xs) = false

is_none-is_nil : (texts : List String) → is_none texts ≡ is_nil texts
is_none-is_nil [] = refl
is_none-is_nil (s ∷ texts) = refl

is_none-map : {A : Type 0} (name : A → String) (xs : List A) → is_none (map name xs) ≡ is_nil xs
is_none-map name [] = refl
is_none-map name (x ∷ xs) = refl

kept-nil :
    {A : Type 0} (b : Bool) (x : A) (rest : List A)
    → is_nil (elim b as (λ _. List A) [ true ↦ x ∷ rest | false ↦ rest ]) ≡ true
    → (b ≡ false) × (is_nil rest ≡ true)
kept-nil true x rest h = cc
kept-nil false x rest h = (refl, h)

-- A filter that leaves nothing.
filter-nil :
    {A : Type 0} (p : A → Bool) (xs : List A)
    → is_nil (filter p xs) ≡ true
    → All (λ x. p x ≡ false) xs
filter-nil p [] h = tt
filter-nil p (x ∷ xs) h =
    let (out, rest) = kept-nil (p x) x (filter p xs) h in (out, filter-nil p xs rest)

-- No probe of the report is held.
held-Withstood :
    (f : Rounding) (t : ResilienceThresholds) (probes : List ResilienceProbe)
    → All (λ report. not report.passes ≡ false) (map (build_probe_report f t) probes)
    → All (Withstood f t) probes
held-Withstood f t [] h = tt
held-Withstood f t (p ∷ probes) (first, h) =
    (build_probe_report-Withstood f t p (ground (arith, first)), held-Withstood f t probes h)

module _ (s : String) where
  abbrev IsOther : String → Type 0
  IsOther t = (t == s) ≡ false

  others-contains : (texts : List String) → All IsOther texts → contains texts s ≡ false
  others-contains [] h = refl
  others-contains (t ∷ texts) (first, h) = rw (first, others-contains texts h) refl

  contains-others : (texts : List String) → contains texts s ≡ false → All IsOther texts
  contains-others [] h = tt
  contains-others (t ∷ texts) h = (ground (arith, h), contains-others texts (ground (arith, h)))

  distinct-others : (texts : List String) → All IsOther texts → All IsOther (distinct texts)
  unfolding distinct
  distinct-others [] h = tt
  distinct-others (t ∷ texts) (first, h) = elim (Bool-cases (contains texts t)) [
    | inl there ↦ rw (there, All) (distinct-others texts h)
    | inr new ↦ rw (new, All) (first, distinct-others texts h)
  ]

  -- What is among the members of a set stands in the list that it was made of.
  observed-contains :
      (texts : List String)
      → contains (sorted text_le (distinct texts)) s ≡ true
      → contains texts s ≡ true
  observed-contains texts h = elim (Bool-cases (contains texts s)) [
    | inl there ↦ there
    | inr missing ↦
        let gone : contains (sorted text_le (distinct texts)) s ≡ false =
          others-contains (sorted text_le (distinct texts)) (
            All-sorted IsOther text_le (distinct texts)
              (distinct-others texts (contains-others texts missing))) in
        cc
  ]

  probed :
      (f : Rounding) (t : ResilienceThresholds) (probes : List ResilienceProbe)
      → contains (map (λ report. report.probe.scenario) (map (build_probe_report f t) probes)) s
        ≡ true
      → Any (λ p. p.scenario ≡ s) probes
  unfolding build_probe_report
  probed f t [] h = cc
  probed f t (p ∷ probes) h = elim (Bool-cases (p.scenario == s)) [
    | inl same ↦ inl ((string_eq.beq_iff p.scenario s).0 same)
    | inr other ↦ inr (probed f t probes (ground (arith, h, other)))
  ]

-- What a drill that passes stands on.
pub record Passed (f : Rounding) (probes : List ResilienceProbe) (t : ResilienceThresholds)
    (workload : WorkloadStatus) (deployment : DeploymentStatus) : Type 0 where
  pub withstood : All (Withstood f t) probes
  pub covered : All (λ scenario. Any (λ p. p.scenario ≡ scenario) probes) t.required_scenarios
  pub workload_passed : workload.readiness_status ≡ some "pass"
  pub deployment_passed : deployment.readiness_status ≡ some "pass"
  pub capacity_passed : deployment.capacity_plan ≡ some "pass"
  pub limiter_passed : deployment.distributed_limiter ≡ some "pass"

says_pass-some : (o : Option String) → says_pass o ≡ true → o ≡ some "pass"
says_pass-some none h = cc
says_pass-some (some s) h = ap (λ t. some t) ((string_eq.beq_iff s "pass").0 h)

or_hold-some : (o : Option String) → (or_hold o == "pass") ≡ true → o ≡ some "pass"
or_hold-some none h = cc
or_hold-some (some s) h = ap (λ t. some t) ((string_eq.beq_iff s "pass").0 h)

seven_true :
    (a b c d e g h : Bool)
    → (a && b && c && d && e && g && h) ≡ true
    → (a ≡ true) × (b ≡ true) × (c ≡ true) × (d ≡ true) × (e ≡ true) × (g ≡ true)
seven_true a b c d e g h k = ground arith

abbrev ready_of : Result Exception DrillReport → Bool
ready_of (err e) = false
ready_of (ok report) = report.is_ready

module _ (f : Rounding) (probes : List ResilienceProbe) (t : ResilienceThresholds)
    (workload : WorkloadStatus) (deployment : DeploymentStatus) where
  abbrev reports : List ProbeReport
  reports = map (build_probe_report f t) probes

  scenarios-probed :
      (required : List String)
      → All
          (λ scenario.
            not (
              contains
                (sorted text_le (distinct (map (λ report. report.probe.scenario) reports)))
                scenario)
            ≡ false)
          required
      → All (λ scenario. Any (λ p. p.scenario ≡ scenario) probes) required
  scenarios-probed [] h = tt
  scenarios-probed (scenario ∷ required) (first, h) = (
    probed scenario f t probes (
        observed-contains scenario (map (λ report. report.probe.scenario) reports)
          (ground (arith, first))),
    scenarios-probed required h,
  )

  gates-Passed :
      all_pass (build_release_gates reports (build_source_evidence workload deployment) t) ≡ true
      → Passed f probes t workload deployment
  unfolding build_release_gates build_source_evidence build_scenario_coverage
  gates-Passed passed =
      let (workloads, deployments, capacities, limiters, scenarios, held) =
        seven_true _ _ _ _ _ _ _ passed in
      record {
        withstood = held-Withstood f t probes (
            filter-nil (λ report. not report.passes) reports
              (sym (is_none-map (λ report. report.probe.name) _) ∙ held));
        covered =
            scenarios-probed t.required_scenarios
              (filter-nil _ t.required_scenarios (sym (is_none-is_nil _) ∙ scenarios));
        workload_passed = says_pass-some workload.readiness_status workloads;
        deployment_passed = says_pass-some deployment.readiness_status deployments;
        capacity_passed = or_hold-some deployment.capacity_plan capacities;
        limiter_passed = or_hold-some deployment.distributed_limiter limiters;
      }

-- What a drill that passes stands on: every probe is within the limits of latency, errors, queue and
-- recovery and says how it is mitigated, every required scenario is the scenario of a probe, and the
-- replay, the deployment report and its capacity plan and limiter check passed.
pub build_resilience_drill_report-Passed :
    (f : Rounding) (probes : List ResilienceProbe) (t : ResilienceThresholds)
    (workload : WorkloadStatus) (deployment : DeploymentStatus) (report : DrillReport)
    → build_resilience_drill_report f probes t workload deployment ≡ ok report
    → report.is_ready ≡ true
    → Passed f probes t workload deployment
unfolding build_resilience_drill_report
build_resilience_drill_report-Passed f probes t workload deployment report built ready =
    let (_, _, h) = >>=-eq-ok (validate_thresholds f t) _ built in
    let (_, h) =
      raise_if-eq-ok (nat_beq (length probes) 0) (value_error "probes must not be empty") _ h in
    let (_, _, made) = >>=-eq-ok (validate_probes f probes) _ h in
    gates-Passed f probes t workload deployment (ap ready_of made ∙ ready)
