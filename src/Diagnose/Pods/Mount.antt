-- ===== src/Diagnose/Pods/Mount.antt =====
-- internal/diagnose/volumemount.go: pods whose volumes cannot be mounted.
use kubectl_safe_rollout.Prelude.{
  String, Bool, true, false, not, List, [], ◌∷◌, Option, none, some, ◌==◌, ◌||◌, if◌then◌else◌,
  Text, plain, sprintf, str, Fallible, ok, flat_map, any,
}
use kubectl_safe_rollout.Model.{Finding, ResourceRef, ref_string}
use kubectl_safe_rollout.Cluster.{Pod, ContainerStatus, Event}
use kubectl_safe_rollout.Diagnose.{Target, Result, Diagnoser, found}
use kubectl_safe_rollout.Diagnose.Pattern.{missing_config_object}
use kubectl_safe_rollout.Diagnose.Pods.{pod_resource, pod_events, advice, high_finding, event_line}
use kubectl_safe_rollout.Diagnose.Pods.Config.{display_kind}

abbrev pub volume_mount_diagnoser_id : String
volume_mount_diagnoser_id = "volume-mount"

-- `hasNonRunningContainer`
unfoldable pub has_non_running_container : Pod → Bool
has_non_running_container p =
    any (λ (cs : ContainerStatus). not cs.is_running) p.init_container_statuses
    || any (λ (cs : ContainerStatus). not cs.is_running) p.container_statuses

-- `VolumeMount.missingObject`
unfoldable pub missing_volume_object : ResourceRef → String → String → List Text → Finding
missing_volume_object r kind name evidence =
    high_finding
      (if kind == "configmap"
        then "volumemount-missing-configmap"
        else "volumemount-missing-secret")
      (sprintf "%s cannot mount a volume because referenced %s %q does not exist"
        (str (ref_string r) ∷ str (display_kind kind) ∷ str name ∷ []))
      evidence
      (advice
        (sprintf
          "verify whether %s %q should be created or the volume reference should name a different object"
          (str (display_kind kind) ∷ str name ∷ []))
        (sprintf "kubectl get %s %s -n %s" (str kind ∷ str name ∷ str r.namespace ∷ []) ∷ []))
      r false

-- `VolumeMount.undetermined`
abbrev undetermined_mount : ResourceRef → List Text → Finding
undetermined_mount r evidence =
    high_finding "volumemount-undetermined"
      (sprintf
        "%s cannot mount a volume, but the FailedMount event names no recognized missing Secret or ConfigMap"
        (str (ref_string r) ∷ []))
      evidence
      (advice
        (plain
          "inspect the full FailedMount event and the pod's volume references before changing the workload")
        (sprintf "kubectl describe pod %s -n %s" (str r.name ∷ str r.namespace ∷ []) ∷ []))
      r true

-- The end of `VolumeMount.classify`, with the first event that was not recognized.
unfoldable pub unrecognized_finding : Pod → Option Event → List Finding
unrecognized_finding p none = []
unrecognized_finding p (some e) = undetermined_mount (pod_resource p) (event_line e ∷ []) ∷ []

-- `if unrecognizedEvent == nil { unrecognizedEvent = event }`
abbrev first_event : Option Event → Event → Option Event
first_event none e = some e
first_event (some d) e = some d

-- The loop of `VolumeMount.classify`; no finding is the empty list.
unfoldable pub classify_mount : Pod → Option Event → List Event → List Finding
classify_mount p unrecognized [] = unrecognized_finding p unrecognized
classify_mount p unrecognized (e ∷ es) =
    if not (e.reason == "FailedMount")
    then classify_mount p unrecognized es
    else elim (missing_config_object e.message) [
      | some (kind, name) ↦
          missing_volume_object (pod_resource p) kind name (event_line e ∷ []) ∷ []
      | none ↦ classify_mount p (first_event unrecognized e) es
    ]

-- The body of the loop of `VolumeMount.Diagnose`.
unfoldable pub mount_findings : Target → Pod → List Finding
mount_findings t p =
    if not (has_non_running_container p) then [] else classify_mount p none (pod_events t p)

-- `VolumeMount.Diagnose`
unfoldable pub diagnose_volume_mount : Target → Fallible Result
diagnose_volume_mount t = ok (found volume_mount_diagnoser_id (flat_map (mount_findings t) t.pods))

abbrev pub volume_mount : Diagnoser
volume_mount = record { id = volume_mount_diagnoser_id; diagnose = diagnose_volume_mount }
