-- ===== src/Diagnose.antt =====
-- internal/diagnose/diagnose.go: what a diagnoser reads and returns, and the run over all of them.
pub mod Pattern
pub mod Pods
pub mod Results
pub mod Observer
pub mod Restarts
pub mod Tick
pub mod Watch
pub mod Spec
pub mod Quota
pub mod ReplicaSetCreate
pub mod Registered
use kubectl_safe_rollout.Prelude.{
  String, Bool, true, false, not, List, [], ◌∷◌, ◌++◌, Option, none, some, ◌==◌, ◌||◌,
  if◌then◌else◌, Text, plain, wrap, str, Fallible, ok, err, Dict, lookup, insert, is_empty,
}
use kubectl_safe_rollout.Prelude.Int.{ℤ}
use kubectl_safe_rollout.Model.{Finding}
use kubectl_safe_rollout.Workload.{Workload}
use kubectl_safe_rollout.Cluster.{Cluster, Pod, Event}

-- `PodCreationSource`
pub record PodCreationSource : Type 0 where
  pub kind : String
  pub namespace : String
  pub name : String
  pub uid : String

-- `Result`
pub record Result : Type 0 where
  pub diagnoser_id : String
  pub findings : List Finding
  pub skipped : Bool
  pub skip_reason : Text

-- `LogTailer`: the previous log of a container, by namespace, pod, container and number of lines.
abbrev pub LogTailer : Type 0
LogTailer = String → String → String → ℤ → Fallible String

-- `Target`
pub record Target : Type 0 where
  pub namespace : String
  pub workload : Workload
  pub client : Cluster
  pub pods : List Pod
  pub pod_creation_sources : List PodCreationSource
  pub events_by_uid : Dict (List Event)
  pub log_tailer : Option LogTailer

-- The interface `Diagnoser`
pub record Diagnoser : Type 0 where
  pub id : String
  pub diagnose : Target → Fallible Result

-- `SkipResult`
unfoldable pub skip_result : String → Text → Result
skip_result id reason = record {
  diagnoser_id = id;
  findings = [];
  skipped = true;
  skip_reason = reason;
}

-- `Result{DiagnoserID: id, Findings: findings}`
abbrev pub found : String → List Finding → Result
found id fs = record { diagnoser_id = id; findings = fs; skipped = false; skip_reason = plain "" }

-- The body of the loop of `RunDiagnosis`, given what the diagnoser and the rest of the loop return.
unfoldable pub add_result :
    String → Fallible Result → Fallible (List Result) → Fallible (List Result)
add_result id (err e) rest = err (wrap "diagnosis %s: %w" (str id ∷ []) e)
add_result id (ok r) (err e) = err e
add_result id (ok r) (ok rs) = ok (r ∷ rs)

-- `RunDiagnosis`, over the registered diagnosers.
unfoldable pub run_diagnosis : List Diagnoser → Target → Fallible (List Result)
run_diagnosis [] t = ok []
run_diagnosis (d ∷ ds) t = add_result d.id (d.diagnose t) (run_diagnosis ds t)

-- `grouped[uid]`, which is empty where the key is missing.
abbrev pub events_of : String → Dict (List Event) → List Event
events_of uid grouped = elim (lookup uid grouped) [ none ↦ [] | some es ↦ es ]

-- The loop of `GroupEventsByInvolvedObject`
unfoldable pub group_events : Dict (List Event) → List Event → Dict (List Event)
group_events grouped [] = grouped
group_events grouped (e ∷ es) =
    group_events
      (if e.involved_uid == ""
        then grouped
        else insert e.involved_uid (events_of e.involved_uid grouped ++ e ∷ []) grouped)
      es

-- `GroupEventsByInvolvedObject`
unfoldable pub group_events_by_involved_object : List Event → Dict (List Event)
unfolding group_events
group_events_by_involved_object es = group_events [] es

-- `AnyFindings`
unfoldable pub any_findings : List Result → Bool
any_findings [] = false
any_findings (r ∷ rs) = not (is_empty r.findings) || any_findings rs

-- The loop of `AllFindings`
pub append_findings : List Finding → List Result → List Finding
append_findings fs [] = fs
append_findings fs (r ∷ rs) = append_findings (fs ++ r.findings) rs

-- `AllFindings`
unfoldable pub all_findings : List Result → List Finding
unfolding append_findings
all_findings rs = append_findings [] rs
