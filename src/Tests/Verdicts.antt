-- ===== src/Tests/Verdicts.antt =====
-- The theorems on the registered diagnosers and on the verdict of `watch`, at concrete states.
use kubectl_safe_rollout.Prelude.{
  List, [], ◌∷◌, ◌≡◌, refl, Option, none, some, Fallible, ok, if◌then◌else◌, All,
}
use kubectl_safe_rollout.Prelude.Int.{pos}
use kubectl_safe_rollout.Workload.{
  from_deployment, pod_selector, progress_deadline_exceeded, is_paused, pending_revision_update,
  replica_set_create_error, progressing_message,
}
use kubectl_safe_rollout.Diagnose.{
  add_result, any_findings, skip_result, group_events, group_events_by_involved_object,
}
use kubectl_safe_rollout.Diagnose.Observer.{pod_creation_sources, list_owned_replica_sets}
use kubectl_safe_rollout.Diagnose.Restarts.{
  collect_container_restart_counts, increased, observe, index_pods,
}
use kubectl_safe_rollout.Diagnose.Tick.{
  index_results, replace_in, append_left, replace_skipped_results, or_skip, collect_sources,
  collect_events, tick_target, classify, classify_diagnosis, evaluate_read,
}
use kubectl_safe_rollout.Diagnose.Watch.{
  new_loop, windows, settle, then_stability, handle_evaluated, handle_tick,
}
use kubectl_safe_rollout.Diagnose.Watch.Kinds.{
  scan, all_undetermined, undetermined_from, is_settle_window_only,
}
use kubectl_safe_rollout.Diagnose.Watch.Session.{
  select_loop, after_first_tick, open_session, watch_from_current_state, watch_sessions,
  watch_selected,
}
use kubectl_safe_rollout.Diagnose.Spec.{
  diagnose_paused, diagnose_progress_deadline, progress_deadline_finding,
  diagnose_stateful_set_update,
}
use kubectl_safe_rollout.Diagnose.Pods.Crash.{diagnose_crash_loop}
use kubectl_safe_rollout.Diagnose.Pods.Pull.{diagnose_image_pull}
use kubectl_safe_rollout.Diagnose.Pods.Config.{diagnose_config_error}
use kubectl_safe_rollout.Diagnose.Pods.Mount.{diagnose_volume_mount}
use kubectl_safe_rollout.Diagnose.Pods.Init.{diagnose_init_container}
use kubectl_safe_rollout.Diagnose.Pods.Ready.{diagnose_readiness, readiness_after_deadline}
use kubectl_safe_rollout.Diagnose.Pods.Pending.{diagnose_pending}
use kubectl_safe_rollout.Diagnose.Quota.{diagnose_quota}
use kubectl_safe_rollout.Diagnose.ReplicaSetCreate.{
  diagnose_replica_set_create, creation_findings, fallback_findings,
}
use kubectl_safe_rollout.Cluster.{Cluster}
use kubectl_safe_rollout.Diagnose.{Target, Result, run_diagnosis}
use kubectl_safe_rollout.Diagnose.Observer.{deployment_observer, get, new_controller_observer}
use kubectl_safe_rollout.Diagnose.Tick.{WatchTarget, Outcome, Tick, no_outcome, evaluate_tick}
use kubectl_safe_rollout.Diagnose.Watch.Session.{watch}
use kubectl_safe_rollout.Diagnose.Watch.Session.Origin.{Origin, watch-Origin}
use kubectl_safe_rollout.Diagnose.Registered.{registered_diagnosers}
use kubectl_safe_rollout.Diagnose.Registered.Verdict.{AreSound, run_diagnosis-registered_diagnosers}
use kubectl_safe_rollout.Command.{Renderer, err_high_severity, validate_output_format}
use kubectl_safe_rollout.Command.Watching.{run_watch}
use kubectl_safe_rollout.Command.Verdict.{
  Diagnosed, evaluate_tick-registered_diagnosers, run_watch-watch,
}
use kubectl_safe_rollout.Tests.Data.{cluster, late_deployment, restarted_pod, pulled}
use kubectl_safe_rollout.Tests.Observing.{target, opening, script}

-- A rollout that missed its deadline, seen through a cluster whose events cannot be listed.
abbrev late_cluster : Cluster
late_cluster = record cluster { get_deployment = λ ns n. ok late_deployment }

abbrev late_target : WatchTarget
late_target = record (target registered_diagnosers) { workload = from_deployment late_deployment }

abbrev outcome_of : Option (Fallible Outcome) → Outcome
outcome_of (some (ok o)) = o
outcome_of _ = no_outcome

abbrev late : Outcome
late = outcome_of (watch late_target (record opening { at_tick = late_cluster } ∷ []) script)

watch-fails :
    watch late_target (record opening { at_tick = late_cluster } ∷ []) script ≡ some (ok late)
unfolding watch watch_selected watch_sessions watch_from_current_state select_loop open_session
    after_first_tick handle_tick handle_evaluated settle then_stability windows new_loop index_pods
    observe increased collect_container_restart_counts evaluate_tick evaluate_read
    classify_diagnosis classify collect_sources collect_events or_skip tick_target run_diagnosis
    any_findings get new_controller_observer pod_selector index_results replace_in append_left
    replace_skipped_results skip_result pod_creation_sources list_owned_replica_sets add_result
    group_events group_events_by_involved_object diagnose_crash_loop diagnose_image_pull
    diagnose_config_error diagnose_volume_mount diagnose_init_container diagnose_readiness
    readiness_after_deadline diagnose_pending diagnose_quota diagnose_replica_set_create
    creation_findings fallback_findings diagnose_progress_deadline progress_deadline_finding
    diagnose_paused diagnose_stateful_set_update progress_deadline_exceeded progressing_message
    replica_set_create_error is_paused pending_revision_update all_undetermined scan
    undetermined_from is_settle_window_only
watch-fails = refl

watch-Origin_example :
    Origin late_target (record opening { at_tick = late_cluster } ∷ []) script late
watch-Origin_example =
    watch-Origin late_target (record opening { at_tick = late_cluster } ∷ []) script late
      watch-fails

abbrev silent : Renderer (Unit {0})
silent w r = (w, none)

valid : validate_output_format "human" ≡ none
unfolding validate_output_format
valid = refl

run_watch-watch_example :
    (run_watch silent silent (pos 0) (ok (ok late)) tt "human").1
    ≡ (if late.succeeded then none else some err_high_severity)
run_watch-watch_example =
    run_watch-watch late_target refl silent silent (pos 0) tt "human"
      (record opening { at_tick = late_cluster } ∷ []) script late valid (λ r. refl) (λ r. refl)
      watch-fails

abbrev pending_target : Target
pending_target = record {
  namespace = "shop";
  workload = from_deployment late_deployment;
  client = cluster;
  pods = restarted_pod ∷ [];
  pod_creation_sources = [];
  events_by_uid = ("pod-1", pulled ∷ []) ∷ [];
  log_tailer = some (λ ns pod container lines. ok "panic\n");
}

run_diagnosis-registered_diagnosers_example :
    (rs : List Result) × (run_diagnosis registered_diagnosers pending_target ≡ ok rs)
    × AreSound registered_diagnosers rs
run_diagnosis-registered_diagnosers_example = run_diagnosis-registered_diagnosers pending_target

late_read :
    get deployment_observer late_cluster "shop" "web" ≡ ok (from_deployment late_deployment, "7")
unfolding get
late_read = refl

evaluate_tick-registered_diagnosers_example :
    (t : Tick) × (evaluate_tick late_target deployment_observer late_cluster [] ≡ ok t)
    × All Diagnosed t.outcome.results
evaluate_tick-registered_diagnosers_example =
    evaluate_tick-registered_diagnosers late_target refl deployment_observer late_cluster []
      (from_deployment late_deployment) "7" late_read
