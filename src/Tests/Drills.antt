-- ===== src/Tests/Drills.antt =====
-- A drill of one probe.
use secure_gpu_inference_gat.Prelude.{refl, true, none, some, List, [], ◌∷◌}
use secure_gpu_inference_gat.Prelude.Int.{pos}
use secure_gpu_inference_gat.Json.{finite}
use secure_gpu_inference_gat.Floats.{le, lt}
use secure_gpu_inference_gat.Resilience.{
  ResilienceProbe, ResilienceThresholds, WorkloadStatus, DeploymentStatus, SourceEvidence,
  ProbeReport, DrillReport, build_probe_report, build_source_evidence, build_scenario_coverage,
  build_release_gates, build_resilience_drill_report,
}
use secure_gpu_inference_gat.Resilience.Passed.{Passed, build_resilience_drill_report-Passed}
use secure_gpu_inference_gat.Tests.Plans.{thousandths}

abbrev probe : ResilienceProbe
probe = record {
  name = "latency";
  scenario = "backend_latency_spike";
  affected_model = "m";
  injected_condition = "a slow backend";
  detection_signal = "the p95 gate";
  mitigation_path = "hold the change";
  rollback_action = "restore the route";
  baseline_p95_latency_ms = finite (pos 410000);
  observed_p95_latency_ms = finite (pos 488000);
  observed_error_rate = finite (pos 0);
  observed_queue_depth = pos 17;
  recovery_seconds = finite (pos 28000);
}

abbrev thresholds : ResilienceThresholds
thresholds = record {
  max_latency_multiplier = finite (pos 1500);
  max_error_rate = finite (pos 20);
  max_queue_depth = pos 64;
  max_recovery_seconds = finite (pos 60000);
  required_scenarios = "backend_latency_spike" ∷ [];
}

abbrev replayed : WorkloadStatus
replayed = record { readiness_status = some "pass"; observed_outcomes = none }

abbrev deployed : DeploymentStatus
deployed = record {
  readiness_status = some "pass";
  phase_count = 4;
  capacity_plan = some "pass";
  distributed_limiter = some "pass";
}

abbrev reports : List ProbeReport
reports = build_probe_report thousandths thresholds probe ∷ []

abbrev source : SourceEvidence
source = build_source_evidence replayed deployed

abbrev report : DrillReport
report = record {
  is_ready = true;
  source_evidence = source;
  scenario_coverage = build_scenario_coverage reports thresholds;
  probes = reports;
  release_gates = build_release_gates reports source thresholds;
}

build_resilience_drill_report-Passed_example :
    Passed thousandths (probe ∷ []) thresholds replayed deployed
unfolding build_resilience_drill_report le lt
build_resilience_drill_report-Passed_example =
    build_resilience_drill_report-Passed thousandths (probe ∷ []) thresholds replayed deployed
      report refl refl
