-- ===== src/Diagnose/ReplicaSetCreate.antt =====
-- internal/diagnose/replicasetcreate.go: a Deployment that cannot create its next ReplicaSet.
pub mod Exclusive
use kubectl_safe_rollout.Prelude.{
  String, Bool, true, false, not, List, [], ◌∷◌, Option, none, some, ◌==◌, ◌||◌, if◌then◌else◌,
  Text, plain, sprintf, wrapping, str, num, Fallible, ok, Arg,
}
use kubectl_safe_rollout.Prelude.Int.{ℤ, pos, ltb_ℤ}
use kubectl_safe_rollout.Model.{Finding, ref_string}
use kubectl_safe_rollout.Workload.{
  Workload, kind, name, namespace, uid, progress_deadline_exceeded, replica_set_create_error,
}
use kubectl_safe_rollout.Cluster.{Event}
use kubectl_safe_rollout.Diagnose.{Target, Result, Diagnoser, skip_result, found, events_of}
use kubectl_safe_rollout.Diagnose.Pattern.{quota_exceeded}
use kubectl_safe_rollout.Diagnose.Spec.{has_no_deployment_fields, workload_resource}
use kubectl_safe_rollout.Diagnose.Pods.{advice, high_finding}

abbrev pub replica_set_create_diagnoser_id : String
replica_set_create_diagnoser_id = "replicaset-create"

abbrev pub replica_set_create_error_reason : String
replica_set_create_error_reason = "ReplicaSetCreateError"

-- `findReplicaSetCreateErrorEvent`
unfoldable pub find_replica_set_create_error_event : List Event → String × ℤ
find_replica_set_create_error_event [] = ("", pos 0)
find_replica_set_create_error_event (e ∷ es) =
    if not (e.type == "Warning") || not (e.reason == replica_set_create_error_reason)
    then find_replica_set_create_error_event es
    else (e.message, e.count)

-- The prefix of the evidence, for an event seen a number of times.
abbrev event_prefix : ℤ → String → Text
event_prefix count message =
    if ltb_ℤ (pos 1) count
    then sprintf "event (seen %dx): %s" (num count ∷ str message ∷ [])
    else sprintf "event: %s" (str message ∷ [])

abbrev exceeded_creation : Workload → Text → Finding
exceeded_creation w evidence =
    high_finding "replicaset-create-quota-exceeded"
      (sprintf
        "%s cannot create a new ReplicaSet for its current pod template: the namespace ResourceQuota is exhausted"
        (str (ref_string (workload_resource w)) ∷ []))
      (evidence ∷ [])
      (advice
        (plain
          "increase the namespace ResourceQuota's count/replicasets.apps hard limit, or free a slot by deleting an inactive, scaled-down ReplicaSet in the namespace; lowering revisionHistoryLimit will not unblock this rollout right now, since its cleanup only runs once the rollout completes, and it cannot complete while blocked; a rollback to a pod template matching an existing ReplicaSet is unaffected, the controller reuses it instead of creating a new one")
        (sprintf "kubectl describe deployment %s -n %s" (str (name w) ∷ str (namespace w) ∷ [])
          ∷ sprintf "kubectl get resourcequota -n %s -o yaml" (str (namespace w) ∷ [])
          ∷ sprintf "kubectl get replicaset -n %s -o wide" (str (namespace w) ∷ [])
          ∷ []))
      (workload_resource w) false

abbrev undetermined_creation : Workload → Text → Finding
undetermined_creation w evidence =
    high_finding "replicaset-create-undetermined"
      (sprintf
        "%s cannot create a new ReplicaSet for its current pod template, but the message does not mention an exceeded ResourceQuota"
        (str (ref_string (workload_resource w)) ∷ []))
      (evidence ∷ [])
      (advice
        (plain
          "read the full message: it may be an admission webhook, a ValidatingAdmissionPolicy, or another constraint on ReplicaSet creation")
        (sprintf "kubectl describe deployment %s -n %s" (str (name w) ∷ str (namespace w) ∷ [])
          ∷ []))
      (workload_resource w) true

-- The finding that the end of `ReplicaSetCreate.Diagnose` builds.
unfoldable pub creation_finding : Workload → String → Text → Finding
creation_finding w message evidence =
    if quota_exceeded message
    then exceeded_creation w evidence
    else undetermined_creation w evidence

-- What the event of the fallback gives.
abbrev pub event_findings : Workload → String × ℤ → List Finding
event_findings w (message, count) =
    if message == "" then [] else creation_finding w message (event_prefix count message) ∷ []

-- The fallback, which a known other reason of the condition closes.
unfoldable pub fallback_findings : Target → Option String → List Finding
fallback_findings t (some deadline) = []
fallback_findings t none =
    event_findings t.workload
      (find_replica_set_create_error_event (events_of (uid t.workload) t.events_by_uid))

-- `ReplicaSetCreate.Diagnose` of a Deployment, given the message of its condition.
unfoldable pub creation_findings : Target → Option String → List Finding
creation_findings t (some message) =
    creation_finding t.workload message
      (sprintf "condition Progressing/ReplicaSetCreateError: %s" (str message ∷ []))
    ∷ []
creation_findings t none = fallback_findings t (progress_deadline_exceeded t.workload)

-- `ReplicaSetCreate.Diagnose`
unfoldable pub diagnose_replica_set_create : Target → Fallible Result
diagnose_replica_set_create t =
    if has_no_deployment_fields t.workload
    then ok (
        skip_result replica_set_create_diagnoser_id (
          sprintf
            "%s creates Pods directly and has no ReplicaSet or Progressing condition: this category cannot be evaluated for this kind"
            (str (kind t.workload) ∷ [])))
    else ok (
        found replica_set_create_diagnoser_id
          (creation_findings t (replica_set_create_error t.workload)))

abbrev pub replica_set_create : Diagnoser
replica_set_create = record {
  id = replica_set_create_diagnoser_id;
  diagnose = diagnose_replica_set_create;
}
