-- ===== src/Diagnose/Spec.antt =====
-- internal/diagnose/paused.go, progressdeadline.go and statefulsetupdate.go: the diagnosers that read
-- the workload alone.
pub mod Stuck
pub mod Held
use kubectl_safe_rollout.Prelude.{
  String, Bool, true, false, not, List, [], ◌∷◌, Option, none, some, ◌==◌, ◌&&◌, ◌||◌,
  if◌then◌else◌, Text, plain, sprintf, str, num, Fallible, ok, Dict,
}
use kubectl_safe_rollout.Prelude.Int.{ℤ, leb_ℤ}
use kubectl_safe_rollout.Model.{Finding, ResourceRef, ref_string, severity_high}
use kubectl_safe_rollout.Workload.{
  Workload, UpdateStrategy, kind, name, namespace, replicas, is_paused, progress_deadline_exceeded,
  pending_revision_update, update_strategy, on_delete, rolling_update,
}
use kubectl_safe_rollout.Diagnose.{Result, Target, Diagnoser, skip_result, found}

abbrev pub paused_diagnoser_id : String
paused_diagnoser_id = "rollout-paused"

abbrev pub progress_deadline_diagnoser_id : String
progress_deadline_diagnoser_id = "progress-deadline"

abbrev pub stateful_set_update_diagnoser_id : String
stateful_set_update_diagnoser_id = "statefulset-update"

-- The reference to the workload, as the three diagnosers build it.
abbrev pub workload_resource : Workload → ResourceRef
workload_resource w = record { kind = kind w; namespace = namespace w; name = name w }

-- `case "StatefulSet", "DaemonSet"`
abbrev pub has_no_deployment_fields : Workload → Bool
has_no_deployment_fields w = kind w == "StatefulSet" || kind w == "DaemonSet"

unfoldable pub paused_finding : Workload → Finding
paused_finding w = record {
  check_id = "rollout-paused";
  severity = severity_high;
  cause =
      sprintf
        "%s is paused: the controller will not create, update, or otherwise progress this rollout until it is resumed"
        (str (ref_string (workload_resource w)) ∷ []);
  evidence = plain "spec.paused=true" ∷ [];
  remediation = record {
    summary =
        plain
          "this may be deliberate (e.g. `kubectl rollout pause`, or a tool like Argo Rollouts managing the rollout in stages): confirm before resuming with `kubectl rollout resume`";
    commands = [];
    context_dependent = true;
  };
  resource = workload_resource w;
  undetermined = false;
}

-- `Paused.Diagnose`
unfoldable pub diagnose_paused : Target → Fallible Result
diagnose_paused t =
    if has_no_deployment_fields t.workload
    then ok (
        skip_result paused_diagnoser_id (
          sprintf "%s has no spec.paused field: this category cannot be evaluated for this kind"
            (str (kind t.workload) ∷ [])))
    else (if not (is_paused t.workload)
        then ok (found paused_diagnoser_id [])
        else ok (found paused_diagnoser_id (paused_finding t.workload ∷ [])))

unfoldable pub progress_deadline_finding : Workload → String → Finding
progress_deadline_finding w message = record {
  check_id = "progress-deadline-exceeded";
  severity = severity_high;
  cause =
      sprintf
        "%s exceeded its progressDeadlineSeconds: the controller concluded that the rollout is not progressing"
        (str (ref_string (workload_resource w)) ∷ []);
  evidence = sprintf "condition Progressing/ProgressDeadlineExceeded: %s" (str message ∷ []) ∷ [];
  remediation = record {
    summary =
        plain
          "the other Diagnosers in this command classify this rollout's pods separately; if none reported a cause, inspect the pods directly because the cause is outside what this tool classifies today, or consider a rollback with `kubectl rollout undo` if the previous release was stable";
    commands = [];
    context_dependent = true;
  };
  resource = workload_resource w;
  undetermined = false;
}

-- `ProgressDeadline.Diagnose`
unfoldable pub diagnose_progress_deadline : Target → Fallible Result
diagnose_progress_deadline t =
    if has_no_deployment_fields t.workload
    then ok (
        skip_result progress_deadline_diagnoser_id (
          sprintf
            "%s has no progressDeadlineSeconds and its controller sets no Progressing condition: this category cannot be evaluated for this kind"
            (str (kind t.workload) ∷ [])))
    else elim (progress_deadline_exceeded t.workload) [
      | none ↦ ok (found progress_deadline_diagnoser_id [])
      | some message ↦
          ok (
            found progress_deadline_diagnoser_id
              (progress_deadline_finding t.workload message ∷ []))
    ]

unfoldable pub on_delete_finding : Workload → String → String → Finding
on_delete_finding w update current = record {
  check_id = "statefulset-update-ondelete";
  severity = severity_high;
  cause =
      sprintf
        "%s uses the OnDelete update strategy and has a pending update (updateRevision %q differs from currentRevision %q): the controller will not create, update, or delete any pod on its own until the operator deletes them"
        (str (ref_string (workload_resource w)) ∷ str update ∷ str current ∷ []);
  evidence =
      sprintf "status.updateRevision=%s" (str update ∷ [])
      ∷ sprintf "status.currentRevision=%s" (str current ∷ [])
      ∷ plain "spec.updateStrategy.type=OnDelete"
      ∷ [];
  remediation = record {
    summary =
        sprintf
          "OnDelete is frequently a deliberate choice (e.g. an operator or external tool manages the rollout in a specific order); if this update should proceed, delete the pods that must move to revision %q yourself, one at a time — this tool never deletes pods on its own"
          (str update ∷ []);
    commands = [];
    context_dependent = true;
  };
  resource = workload_resource w;
  undetermined = false;
}

unfoldable pub partition_finding : Workload → String → String → ℤ → Finding
partition_finding w update current partition = record {
  check_id = "statefulset-partition-blocked";
  severity = severity_high;
  cause =
      sprintf
        "%s has a pending update (updateRevision %q differs from currentRevision %q) but spec.updateStrategy.rollingUpdate.partition=%d is greater than or equal to %d replicas: no pod ordinal is eligible for the update"
        (str (ref_string (workload_resource w))
          ∷ str update
          ∷ str current
          ∷ num partition
          ∷ num (replicas w)
          ∷ []);
  evidence =
      sprintf "status.updateRevision=%s" (str update ∷ [])
      ∷ sprintf "status.currentRevision=%s" (str current ∷ [])
      ∷ sprintf "spec.updateStrategy.rollingUpdate.partition=%d" (num partition ∷ [])
      ∷ sprintf "spec.replicas=%d" (num (replicas w) ∷ [])
      ∷ [];
  remediation = record {
    summary =
        plain
          "lowering spec.updateStrategy.rollingUpdate.partition allows pods with an ordinal at or above the new value to update; the correct value depends on how much of the StatefulSet should move to the new revision now";
    commands =
        sprintf
          "kubectl get statefulset %s -n %s -o jsonpath='{.spec.updateStrategy.rollingUpdate.partition}'"
          (str (name w) ∷ str (namespace w) ∷ [])
        ∷ [];
    context_dependent = true;
  };
  resource = workload_resource w;
  undetermined = false;
}

-- The test of the partition: `*strategy.Partition >= target.Workload.Replicas()`.
unfoldable pub blocked_findings : Workload → String → String → Option ℤ → List Finding
blocked_findings w update current none = []
blocked_findings w update current (some p) =
    if leb_ℤ (replicas w) p then partition_finding w update current p ∷ [] else []

-- What `StatefulSetUpdate.Diagnose` finds, given the revisions.
unfoldable pub pending_findings : Workload → Option (String × String) → List Finding
unfolding blocked_findings
pending_findings w none = []
pending_findings w (some (update, current)) =
    if update == "" || update == current
    then []
    else (if (update_strategy w).type == on_delete
        then on_delete_finding w update current ∷ []
        else (if (update_strategy w).type == rolling_update
            then blocked_findings w update current (update_strategy w).partition
            else []))

-- `StatefulSetUpdate.Diagnose`
unfoldable pub diagnose_stateful_set_update : Target → Fallible Result
diagnose_stateful_set_update t =
    if not (kind t.workload == "StatefulSet")
    then ok (found stateful_set_update_diagnoser_id [])
    else ok (
        found stateful_set_update_diagnoser_id
          (pending_findings t.workload (pending_revision_update t.workload)))

abbrev pub paused : Diagnoser
paused = record { id = paused_diagnoser_id; diagnose = diagnose_paused }

abbrev pub progress_deadline : Diagnoser
progress_deadline = record {
  id = progress_deadline_diagnoser_id;
  diagnose = diagnose_progress_deadline;
}

abbrev pub stateful_set_update : Diagnoser
stateful_set_update = record {
  id = stateful_set_update_diagnoser_id;
  diagnose = diagnose_stateful_set_update;
}
