-- ===== src/Tests/Observing.antt =====
-- The theorems on the observation of a rollout, at concrete states and scripts.
use kubectl_safe_rollout.Prelude.{
  ◌≤◌, ◌<◌, true, false, List, [], ◌∷◌, ◌≡◌, refl, none, some, Fallible, ok, plain, wrapping, str,
}
use kubectl_safe_rollout.Prelude.Int.{pos}
use kubectl_safe_rollout.Workload.{Workload, rollout_complete, pod_selector}
use kubectl_safe_rollout.Diagnose.{
  Diagnoser, Result, found, skip_result, add_result, run_diagnosis, any_findings, all_findings,
}
use kubectl_safe_rollout.Diagnose.Observer.{
  deployment_observer, get, pod_creation_sources, list_owned_replica_sets, new_controller_observer,
}
use kubectl_safe_rollout.Diagnose.Restarts.{modified, new_restart_observations}
use kubectl_safe_rollout.Diagnose.Tick.{
  WatchTarget, Outcome, Tick, index_results, replace_in, append_left, replace_skipped_results,
  or_skip, collect_sources, collect_events, classify, classify_diagnosis, evaluate_read,
  evaluate_tick,
}
use kubectl_safe_rollout.Diagnose.Tick.Priority.{
  Reads, Reports, shown, unread, evaluate_tick-Reports,
}
use kubectl_safe_rollout.Diagnose.Watch.{Loop, new_loop, finished, handle_tick}
use kubectl_safe_rollout.Diagnose.Watch.Kinds.{scan, all_undetermined, undetermined_from}
use kubectl_safe_rollout.Diagnose.Watch.AtOnce.{IsDetermined, IsFresh, IsDetermined-returned}
use kubectl_safe_rollout.Diagnose.Watch.Waiting.{IsUndetermined, GoesOnWaiting, undetermined-Waits}
use kubectl_safe_rollout.Diagnose.Watch.Session.{
  WatchEvent, stability_fired, controller_event, Moment, Opening,
}
use kubectl_safe_rollout.Tests.Data.{library, web, cluster, low, unsure, reporting}

abbrev pub target : List Diagnoser → WatchTarget
target ds = record {
  lib = library;
  diagnosers = ds;
  namespace = "shop";
  workload = web;
  log_tailer = none;
  stability_window = pos 0;
  undetermined_grace_window = pos 0;
  paused_settle_window = pos 0;
}

abbrev pub opening : Opening
opening = record {
  at_list = cluster;
  at_tick = cluster;
  at_read = cluster;
  now = 1000;
  pod_watch_error = none;
  controller_watch_error = none;
}

abbrev changed : WatchEvent
changed = record {
  type = modified;
  pod = none;
  object_error = record {
    message = "";
    is_not_found = false;
    is_resource_expired = false;
    is_gone = false;
  };
}

abbrev pub script : List Moment
script =
    record {
      now = 2000000000;
      cluster = cluster;
      ctx_err = none;
      input = controller_event (some changed);
    }
    ∷ record { now = 5000001000; cluster = cluster; ctx_err = none; input = stability_fired }
    ∷ []

abbrev succeeds : Outcome
succeeds = record { succeeded = true; results = [] }

abbrev pub failing : WatchTarget
failing = target (reporting "crashloop" (low ∷ []) ∷ [])

abbrev pub results : List Result
results = found "crashloop" (low ∷ []) ∷ []

abbrev pub shown_results : List Result
shown_results =
    found "crashloop" (low ∷ [])
    ∷ skip_result "events"
        (wrapping "cannot list events in namespace %s: %v" (str "shop" ∷ []) (plain "not found"))
    ∷ []

abbrev pub fails : Tick
fails = record {
  complete = false;
  failure_found = true;
  outcome = record { succeeded = false; results = shown_results };
}

abbrev started : Loop
started = new_loop [] new_restart_observations

evaluated : evaluate_tick failing deployment_observer cluster [] ≡ ok fails
unfolding evaluate_tick evaluate_read classify_diagnosis classify collect_sources collect_events
    or_skip run_diagnosis add_result any_findings rollout_complete get new_controller_observer
    pod_selector index_results replace_in append_left replace_skipped_results skip_result
    pod_creation_sources list_owned_replica_sets
evaluated = refl

evaluate_tick-Reports_example :
    (wl : Workload) × (rs : List Result) × Reads failing deployment_observer cluster [] wl rs
    × Reports wl (shown (unread failing deployment_observer cluster [] wl) rs) fails
evaluate_tick-Reports_example =
    evaluate_tick-Reports failing deployment_observer cluster [] fails evaluated

fails-IsDetermined : IsDetermined fails.outcome
unfolding all_findings skip_result
fails-IsDetermined = (refl, refl)

started-IsFresh : IsFresh started
unfolding new_loop
started-IsFresh = (refl, refl)

IsDetermined-returned_example :
    (IsDetermined fails.outcome
      → handle_tick failing deployment_observer cluster 7 started ≡ finished (ok fails.outcome))
    × (IsFresh started
        → (r : Fallible Outcome)
        → handle_tick failing deployment_observer cluster 7 started ≡ finished r
        → IsDetermined fails.outcome)
unfolding new_loop
IsDetermined-returned_example =
    IsDetermined-returned failing deployment_observer cluster 7 started fails evaluated

abbrev unclear : WatchTarget
unclear = target (reporting "imagepull" (unsure ∷ []) ∷ [])

abbrev unclear_tick : Tick
unclear_tick = record fails {
  outcome = record {
    succeeded = false;
    results =
        found "imagepull" (unsure ∷ [])
        ∷ skip_result "events" (
            wrapping "cannot list events in namespace %s: %v" (str "shop" ∷ []) (plain "not found"))
        ∷ [];
  };
}

unclear_evaluated : evaluate_tick unclear deployment_observer cluster [] ≡ ok unclear_tick
unfolding evaluate_tick evaluate_read classify_diagnosis classify collect_sources collect_events
    or_skip run_diagnosis add_result any_findings rollout_complete get new_controller_observer
    pod_selector index_results replace_in append_left replace_skipped_results skip_result
    pod_creation_sources list_owned_replica_sets
unclear_evaluated = refl

unclear_IsUndetermined : IsUndetermined unclear_tick
unfolding all_undetermined undetermined_from scan skip_result
unclear_IsUndetermined = (refl, refl)

abbrev waiting : Loop
waiting = record (new_loop [] new_restart_observations) { grace_ticker = true; grace_deadline = 9 }

undetermined-Waits_example :
    (10 ≤ 9
      → GoesOnWaiting unclear deployment_observer 9
          (handle_tick unclear deployment_observer cluster 10 waiting))
    × (9 < 10
        → handle_tick unclear deployment_observer cluster 10 waiting
          ≡ finished (ok unclear_tick.outcome))
unfolding new_loop
undetermined-Waits_example =
    undetermined-Waits unclear deployment_observer cluster 10 waiting unclear_tick unclear_evaluated
      unclear_IsUndetermined 9 (refl, refl)
