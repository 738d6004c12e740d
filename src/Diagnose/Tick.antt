-- ===== src/Diagnose/Tick.antt =====
-- internal/diagnose/watch.go: one reevaluation of the observed state.
pub mod Replace
pub mod Priority
pub mod Kept
use kubectl_safe_rollout.Prelude.{
  String, Bool, true, false, not, List, [], ◌∷◌, ◌++◌, Option, none, some, ◌==◌, if◌then◌else◌,
  is_empty, Text, wrapping, str, wrap, error_text, Error, Fallible, ok, err, Dict, lookup, insert,
  delete, is_some,
}
use kubectl_safe_rollout.Prelude.Int.{ℤ}
use kubectl_safe_rollout.Api.{Apimachinery}
use kubectl_safe_rollout.Workload.{Workload, kind, name, rollout_complete}
use kubectl_safe_rollout.Cluster.{Cluster, Event}
use kubectl_safe_rollout.Diagnose.{
  Diagnoser, LogTailer, PodCreationSource, Result, Target, any_findings,
  group_events_by_involved_object, run_diagnosis, skip_result,
}
use kubectl_safe_rollout.Diagnose.Observer.{Observer, get, pod_creation_sources}
use kubectl_safe_rollout.Diagnose.Restarts.{Pods, pod_slice}

abbrev pub quota_diagnoser_id : String
quota_diagnoser_id = "quota"

-- `Outcome`
pub record Outcome : Type 0 where
  pub succeeded : Bool
  pub results : List Result

abbrev pub no_outcome : Outcome
no_outcome = record { succeeded = false; results = [] }

-- `tick`
pub record Tick : Type 0 where
  pub complete : Bool
  pub failure_found : Bool
  pub outcome : Outcome

-- The map `byID`
unfoldable pub index_results : Dict Result → List Result → Dict Result
index_results m [] = m
index_results m (r ∷ rs) = index_results (insert r.diagnoser_id r m) rs

-- The body of the loop over `results`: what is appended, and `byID` after it.
abbrev pub replace_one : Dict Result → Result → Result × Dict Result
replace_one m r = elim (lookup r.diagnoser_id m) [
  | none ↦ (r, m)
  | some q ↦ (q, delete r.diagnoser_id m)
]

-- The loop over `results`: what it appends, and what is left of `byID`.
unfoldable pub replace_in : Dict Result → List Result → List Result × Dict Result
replace_in m [] = ([], m)
replace_in m (r ∷ rs) =
    let (q, m') = replace_one m r in let (out, left) = replace_in m' rs in (q ∷ out, left)

-- The loop over `skipped`
unfoldable pub append_left : Dict Result → List Result → List Result
append_left m [] = []
append_left m (r ∷ rs) =
    let absent = append_left m rs in
    let present = append_left (delete r.diagnoser_id m) rs in
    if is_some (lookup r.diagnoser_id m) then r ∷ present else absent

-- `replaceSkippedResults`
unfoldable pub replace_skipped_results : List Result → List Result → List Result
replace_skipped_results results skipped =
    let (out, left) = replace_in (index_results [] skipped) results in
    out ++ append_left left skipped

-- `WatchTarget`, with the library and the registered diagnosers. The client is a Cluster for each
-- instant, given to the functions below.
pub record WatchTarget : Type 0 where
  pub lib : Apimachinery
  pub diagnosers : List Diagnoser
  pub namespace : String
  pub workload : Workload
  pub log_tailer : Option LogTailer
  pub stability_window : ℤ
  pub undetermined_grace_window : ℤ
  pub paused_settle_window : ℤ

-- What could be read of the pod creation sources, and the result that says what could not.
unfoldable pub or_skip :
    {A : Type 0} → String → (Error → Text) → Fallible (List A) → List A × List Result
or_skip id reason (ok xs) = (xs, [])
or_skip id reason (err e) = ([], skip_result id (reason e) ∷ [])

unfoldable pub collect_sources :
    WatchTarget → Observer → Cluster → Workload → List PodCreationSource × List Result
collect_sources wt o c wl =
    or_skip quota_diagnoser_id error_text (pod_creation_sources wt.lib o c wl)

unfoldable pub collect_events : WatchTarget → Cluster → List Event × List Result
collect_events wt c =
    or_skip "events"
      (λ e.
        wrapping "cannot list events in namespace %s: %v" (str wt.namespace ∷ []) (error_text e))
      (c.list_events wt.namespace)

-- The target that the diagnosers are given.
unfoldable pub tick_target : WatchTarget → Observer → Cluster → Pods → Workload → Target
tick_target wt o c pods wl = record {
  namespace = wt.namespace;
  workload = wl;
  client = c;
  pods = pod_slice pods;
  pod_creation_sources = (collect_sources wt o c wl).0;
  events_by_uid = group_events_by_involved_object (collect_events wt c).0;
  log_tailer = wt.log_tailer;
}

-- The end of `evaluateTick`, from the diagnosis on.
unfoldable pub classify : Workload → List Result → List Result → Tick
classify wl collection results =
    let shown =
      if is_empty collection then results else replace_skipped_results results collection in
    if any_findings shown
    then record {
      complete = false;
      failure_found = true;
      outcome = record { succeeded = false; results = shown };
    }
    else record { complete = rollout_complete wl; failure_found = false; outcome = no_outcome }

unfoldable pub classify_diagnosis : Workload → List Result → Fallible (List Result) → Fallible Tick
classify_diagnosis wl collection (err e) = err e
classify_diagnosis wl collection (ok results) = ok (classify wl collection results)

unfoldable pub evaluate_read :
    WatchTarget → Observer → Cluster → Pods → Fallible (Workload × String) → Fallible Tick
evaluate_read wt o c pods (err e) =
    err (wrap "reading %s/%s: %w" (str (kind wt.workload) ∷ str (name wt.workload) ∷ []) e)
evaluate_read wt o c pods (ok (wl, rv)) =
    classify_diagnosis wl ((collect_sources wt o c wl).1 ++ (collect_events wt c).1)
      (run_diagnosis wt.diagnosers (tick_target wt o c pods wl))

-- `evaluateTick`
unfoldable pub evaluate_tick : WatchTarget → Observer → Cluster → Pods → Fallible Tick
evaluate_tick wt o c pods = evaluate_read wt o c pods (get o c wt.namespace (name wt.workload))
