-- ===== src/Diagnose/Pods/Pending.antt =====
-- internal/diagnose/pending.go: pods that stay Pending.
use kubectl_safe_rollout.Prelude.{
  String, true, false, not, List, [], ◌∷◌, Option, none, some, ◌==◌, if◌then◌else◌, Text, plain,
  sprintf, str, Fallible, ok, err, flat_map,
}
use kubectl_safe_rollout.Model.{Finding, ResourceRef, ref_string}
use kubectl_safe_rollout.Cluster.{Pod, Volume, Event}
use kubectl_safe_rollout.Diagnose.{Target, Result, Diagnoser, found}
use kubectl_safe_rollout.Diagnose.Pattern.{failed_scheduling}
use kubectl_safe_rollout.Diagnose.Pods.{pod_resource, pod_events, advice, high_finding, event_line}

abbrev pub pending_diagnoser_id : String
pending_diagnoser_id = "pending"

-- `Pending.undetermined`
abbrev undetermined_pending : ResourceRef → List Text → Finding
undetermined_pending r evidence =
    high_finding "pending-undetermined"
      (sprintf
        "%s remains Pending but the collected evidence does not distinguish among insufficient resources, scheduling constraints, and an unbound PersistentVolumeClaim"
        (str (ref_string r) ∷ []))
      evidence
      (advice
        (plain "collect more context: describe the pod to see the full scheduling event messages")
        (sprintf "kubectl describe pod %s -n %s" (str r.name ∷ str r.namespace ∷ []) ∷ []))
      r true

-- `Pending.findingForCause`
unfoldable pub finding_for_pending_cause : String → ResourceRef → List Text → Finding
finding_for_pending_cause cause r evidence =
    if cause == "insufficient-resources"
    then high_finding "pending-insufficient-resources"
        (sprintf
          "%s remains Pending: no node has enough CPU, memory, or ephemeral storage for scheduling"
          (str (ref_string r) ∷ []))
        evidence
        (advice
          (plain
            "reduce pod requests if oversized, or add cluster capacity (new nodes or cluster-autoscaler); the correct value depends on the actual expected load")
          [])
        r false
    else (if cause == "scheduling-constraints"
        then high_finding "pending-scheduling-constraints"
            (sprintf
              "%s remains Pending: nodeSelector, affinity, or taint/toleration excludes all available nodes"
              (str (ref_string r) ∷ []))
            evidence
            (advice
              (plain
                "check the pod's nodeSelector/affinity against available node labels and its tolerations against taints: the correct constraint depends on where the workload must actually run")
              [])
            r false
        else (if cause == "unbound-pvc"
            then high_finding "pending-unbound-pvc"
                (sprintf
                  "%s remains Pending: the scheduler reports an unbound PersistentVolumeClaim"
                  (str (ref_string r) ∷ []))
                evidence
                (advice
                  (plain "check the status of the PersistentVolumeClaims referenced by the pod")
                  (sprintf "kubectl get pvc -n %s" (str r.namespace ∷ []) ∷ []))
                r false
            else undetermined_pending r evidence))

abbrev unbound_finding : Pod → Volume → String → String → Finding
unbound_finding p v claim phase =
    high_finding "pending-unbound-pvc"
      (sprintf
        "%s remains Pending because PersistentVolumeClaim %q is not Bound (current phase: %s)"
        (str (ref_string (pod_resource p)) ∷ str claim ∷ str phase ∷ []))
      (sprintf "volume=%s claim=%s" (str v.name ∷ str claim ∷ [])
        ∷ sprintf "pvcPhase=%s" (str phase ∷ [])
        ∷ [])
      (advice
        (sprintf
          "check why %q is not binding to a PersistentVolume: its storageClass may have no available provisioner, capacity may be insufficient, or zone/node constraints may be incompatible with where the pod can be scheduled"
          (str claim ∷ []))
        [])
      (pod_resource p) false

-- The phase of a volume's claim, with the claim, where it could be read and is not Bound.
abbrev pub unbound_phase : Fallible String → Option String
unbound_phase (err e) = none
unbound_phase (ok phase) = if phase == "Bound" then none else some phase

abbrev pub unbound_claim : Target → Pod → Option String → Option (String × String)
unbound_claim t p none = none
unbound_claim t p (some claim) = elim (unbound_phase (t.client.get_claim_phase p.namespace claim)) [
  | none ↦ none
  | some phase ↦ some (claim, phase)
]

-- The loop of `classifyUnboundPVC`; no finding is none.
unfoldable pub classify_unbound_pvc : Target → Pod → List Volume → Option Finding
classify_unbound_pvc t p [] = none
classify_unbound_pvc t p (v ∷ vs) = elim (unbound_claim t p v.claim_name) [
  | none ↦ classify_unbound_pvc t p vs
  | some (claim, phase) ↦ some (unbound_finding p v claim phase)
]

-- What a FailedScheduling event says.
unfoldable pub scheduling_finding : Pod → Event → Option String → Finding
scheduling_finding p e none =
    undetermined_pending (pod_resource p)
      (sprintf "unrecognized FailedScheduling event: %s" (str e.message ∷ []) ∷ [])
scheduling_finding p e (some cause) =
    finding_for_pending_cause cause (pod_resource p) (event_line e ∷ [])

-- The loop of `Pending.classify` over the events; no finding is the empty list.
unfoldable pub classify_scheduling : Pod → List Event → List Finding
classify_scheduling p [] = []
classify_scheduling p (e ∷ es) =
    if not (e.reason == "FailedScheduling")
    then classify_scheduling p es
    else scheduling_finding p e (failed_scheduling e.message) ∷ []

-- `Pending.classify`, given what the claims say.
unfoldable pub classify_pending : Target → Pod → Option Finding → List Finding
classify_pending t p (some f) = f ∷ []
classify_pending t p none = classify_scheduling p (pod_events t p)

-- The body of the loop of `Pending.Diagnose`.
unfoldable pub pod_pending_findings : Target → Pod → List Finding
pod_pending_findings t p =
    if not (p.phase == "Pending")
    then []
    else classify_pending t p (classify_unbound_pvc t p p.volumes)

-- `Pending.Diagnose`
unfoldable pub diagnose_pending : Target → Fallible Result
diagnose_pending t = ok (found pending_diagnoser_id (flat_map (pod_pending_findings t) t.pods))

abbrev pub pending : Diagnoser
pending = record { id = pending_diagnoser_id; diagnose = diagnose_pending }
