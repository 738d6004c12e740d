-- ===== src/Diagnose/Pods/Config.antt =====
-- internal/diagnose/configerror.go: containers that wait for a ConfigMap or Secret that is missing.
use kubectl_safe_rollout.Prelude.{
  String, Bool, true, false, not, List, [], ◌∷◌, ◌++◌, Option, none, some, ◌==◌, ◌&&◌, ◌||◌,
  if◌then◌else◌, Text, plain, sprintf, str, Fallible, ok, flat_map, contains,
}
use kubectl_safe_rollout.Model.{Finding, ResourceRef, ref_string}
use kubectl_safe_rollout.Cluster.{Pod, ContainerStatus, Waiting, Event}
use kubectl_safe_rollout.Diagnose.{Target, Result, Diagnoser, found}
use kubectl_safe_rollout.Diagnose.Pattern.{missing_config_object}
use kubectl_safe_rollout.Diagnose.Pods.{pod_resource, pod_events, advice, high_finding, event_line}

abbrev pub config_error_diagnoser_id : String
config_error_diagnoser_id = "container-config"

abbrev pub display_kind : String → String
display_kind kind = if kind == "configmap" then "ConfigMap" else "Secret"

-- `ConfigError.missingObject`
unfoldable pub missing_object : ResourceRef → String → String → String → List Text → Finding
missing_object r container kind name evidence =
    high_finding
      (if kind == "configmap"
        then "configerror-missing-configmap"
        else "configerror-missing-secret")
      (sprintf "container %q in %s cannot start because referenced %s %q does not exist"
        (str container ∷ str (ref_string r) ∷ str (display_kind kind) ∷ str name ∷ []))
      evidence
      (advice
        (sprintf
          "verify whether %s %q should be created or the container reference should name a different object"
          (str (display_kind kind) ∷ str name ∷ []))
        (sprintf "kubectl get %s %s -n %s" (str kind ∷ str name ∷ str r.namespace ∷ []) ∷ []))
      r false

-- `ConfigError.undetermined`
abbrev undetermined_config : ResourceRef → List Text → Finding
undetermined_config r evidence =
    high_finding "configerror-undetermined"
      (sprintf
        "%s cannot start because its container configuration is invalid, but the waiting message names no recognized missing ConfigMap or Secret"
        (str (ref_string r) ∷ []))
      evidence
      (advice
        (plain
          "inspect the pod events and container references to identify the invalid configuration")
        (sprintf "kubectl describe pod %s -n %s" (str r.name ∷ str r.namespace ∷ []) ∷ []))
      r true

abbrev same_object : String × String → Option (String × String) → Bool
same_object (kind, name) none = false
same_object (kind, name) (some (k, n)) = k == kind && n == name

-- `matchingConfigErrorEvent`
abbrev pub matching_config_error_event : String → String → Option (String × String) → Bool
matching_config_error_event event waiting none = not (waiting == "") && contains event waiting
matching_config_error_event event waiting (some object) =
    same_object object (missing_config_object event)

-- The loop of `ConfigError.classify`: the first event that matches.
abbrev pub config_event : String → Option (String × String) → List Event → List Text
config_event waiting object [] = []
config_event waiting object (e ∷ es) =
    if not (e.reason == "Failed") || not (matching_config_error_event e.message waiting object)
    then config_event waiting object es
    else event_line e ∷ []

unfoldable pub config_finding :
    Pod → ContainerStatus → Option (String × String) → List Text → Finding
config_finding p cs none evidence = undetermined_config (pod_resource p) evidence
config_finding p cs (some (kind, name)) evidence =
    missing_object (pod_resource p) cs.name kind name evidence

-- `ConfigError.classify`
unfoldable pub classify_config : Target → Pod → ContainerStatus → Waiting → Finding
classify_config t p cs w =
    let object : Option (String × String) = missing_config_object w.message in
    config_finding p cs object (
      sprintf "container=%s" (str cs.name ∷ [])
      ∷ sprintf "waitingReason=%s" (str w.reason ∷ [])
      ∷ sprintf "waitingMessage=%s" (str w.message ∷ [])
      ∷ config_event w.message object (pod_events t p))

-- The body of the inner loop of `ConfigError.Diagnose`, given the waiting state.
unfoldable pub config_findings : Target → Pod → ContainerStatus → Option Waiting → List Finding
config_findings t p cs none = []
config_findings t p cs (some w) =
    if not (w.reason == "CreateContainerConfigError") then [] else classify_config t p cs w ∷ []

-- `ConfigError.Diagnose`
unfoldable pub diagnose_config_error : Target → Fallible Result
diagnose_config_error t = ok (
    found config_error_diagnoser_id (
      flat_map
        (λ (p : Pod).
          flat_map (λ cs. config_findings t p cs cs.waiting)
            (p.init_container_statuses ++ p.container_statuses))
        t.pods))

abbrev pub config_error : Diagnoser
config_error = record { id = config_error_diagnoser_id; diagnose = diagnose_config_error }
