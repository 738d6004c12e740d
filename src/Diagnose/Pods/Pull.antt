-- ===== src/Diagnose/Pods/Pull.antt =====
-- internal/diagnose/imagepull.go: containers whose image cannot be pulled.
use kubectl_safe_rollout.Prelude.{
  String, true, false, not, List, [], ◌∷◌, ◌++◌, Option, none, some, ◌==◌, ◌&&◌, if◌then◌else◌,
  Text, plain, sprintf, str, Fallible, ok, flat_map,
}
use kubectl_safe_rollout.Model.{Finding, ResourceRef, ref_string}
use kubectl_safe_rollout.Cluster.{Pod, ContainerStatus, Waiting, Event}
use kubectl_safe_rollout.Diagnose.{Target, Result, Diagnoser, found}
use kubectl_safe_rollout.Diagnose.Pattern.{image_pull_failure}
use kubectl_safe_rollout.Diagnose.Pods.{pod_resource, pod_events, advice, high_finding, event_line}

abbrev pub image_pull_diagnoser_id : String
image_pull_diagnoser_id = "imagepull"

-- `invalidReference`
abbrev invalid_reference : Pod → ContainerStatus → Waiting → Finding
invalid_reference p cs w =
    high_finding "imagepull-invalid-reference"
      (sprintf "container %q in %s cannot start because image reference %q is malformed"
        (str cs.name ∷ str (ref_string (pod_resource p)) ∷ str cs.image ∷ []))
      (sprintf "container=%s" (str cs.name ∷ [])
        ∷ sprintf "image=%s" (str cs.image ∷ [])
        ∷ sprintf "waitingReason=%s" (str w.reason ∷ [])
        ∷ sprintf "waitingMessage=%s" (str w.message ∷ [])
        ∷ [])
      (advice
        (sprintf
          "correct malformed image reference %q: no registry was contacted, no credential or network problem is involved, and retrying or adding an imagePullSecret cannot help"
          (str cs.image ∷ []))
        [])
      (pod_resource p) false

-- `ImagePull.undetermined`
abbrev undetermined_pull : ResourceRef → List Text → Finding
undetermined_pull r evidence =
    high_finding "imagepull-undetermined"
      (sprintf "%s cannot pull the image but no recognized event explains why"
        (str (ref_string r) ∷ []))
      evidence
      (advice (plain "collect more context: describe the pod to see the full pull event message")
        (sprintf "kubectl describe pod %s -n %s" (str r.name ∷ str r.namespace ∷ []) ∷ []))
      r true

-- `ImagePull.findingForCause`
unfoldable pub finding_for_pull_cause : String → Pod → ContainerStatus → List Text → Finding
finding_for_pull_cause cause p cs evidence =
    if cause == "tag-not-found"
    then high_finding "imagepull-tag-not-found"
        (sprintf
          "container %q in %s cannot pull image %q: tag or digest does not exist in the registry"
          (str cs.name ∷ str (ref_string (pod_resource p)) ∷ str cs.image ∷ []))
        evidence
        (advice
          (sprintf
            "verify that %q exists with that tag/digest in the registry: the tag may contain a typo, or the build may not have been published yet"
            (str cs.image ∷ []))
          [])
        (pod_resource p) false
    else (if cause == "unauthorized"
        then high_finding "imagepull-credentials-missing"
            (sprintf
              "container %q in %s cannot pull image %q: the registry rejects the pull because authentication or authorization is missing"
              (str cs.name ∷ str (ref_string (pod_resource p)) ∷ str cs.image ∷ []))
            evidence
            (advice
              (sprintf
                "add or renew imagePullSecrets on the ServiceAccount or Pod for the registry hosting %q"
                (str cs.image ∷ []))
              (sprintf "kubectl get pod %s -n %s -o jsonpath={.spec.imagePullSecrets}"
                  (str p.name ∷ str p.namespace ∷ [])
                ∷ []))
            (pod_resource p) false
        else (if cause == "registry-unreachable"
            then high_finding "imagepull-registry-unreachable"
                (sprintf
                  "container %q in %s cannot pull image %q: the registry is unreachable from the cluster (DNS, network, or timeout)"
                  (str cs.name ∷ str (ref_string (pod_resource p)) ∷ str cs.image ∷ []))
                evidence
                (advice
                  (sprintf
                    "verify from the node that the registry hosting %q is reachable (DNS, network policy, proxy), or check the registry itself"
                    (str cs.image ∷ []))
                  [])
                (pod_resource p) false
            else undetermined_pull (pod_resource p) evidence))

-- What an event says of a failed pull.
abbrev pub pull_cause : Event → Option String
pull_cause e = if not (e.reason == "Failed") then none else image_pull_failure e.message

-- The loop of `ImagePull.classify`, over the evidence that each branch starts with.
unfoldable pub classify_pull : Pod → ContainerStatus → List Text → List Event → Finding
classify_pull p cs base [] = undetermined_pull (pod_resource p) base
classify_pull p cs base (e ∷ es) = elim (pull_cause e) [
  | none ↦ classify_pull p cs base es
  | some cause ↦ finding_for_pull_cause cause p cs (base ++ event_line e ∷ [])
]

-- The body of the inner loop of `ImagePull.Diagnose`, given the waiting state.
unfoldable pub pull_findings : Target → Pod → ContainerStatus → Option Waiting → List Finding
pull_findings t p cs none = []
pull_findings t p cs (some w) =
    if w.reason == "InvalidImageName"
    then invalid_reference p cs w ∷ []
    else (if not (w.reason == "ImagePullBackOff") && not (w.reason == "ErrImagePull")
        then []
        else classify_pull p cs
            (sprintf "container=%s" (str cs.name ∷ [])
              ∷ sprintf "image=%s" (str cs.image ∷ [])
              ∷ sprintf "waitingReason=%s" (str w.reason ∷ [])
              ∷ [])
            (pod_events t p)
          ∷ [])

-- `ImagePull.Diagnose`
unfoldable pub diagnose_image_pull : Target → Fallible Result
diagnose_image_pull t = ok (
    found image_pull_diagnoser_id (
      flat_map (λ (p : Pod). flat_map (λ cs. pull_findings t p cs cs.waiting) p.container_statuses)
        t.pods))

abbrev pub image_pull : Diagnoser
image_pull = record { id = image_pull_diagnoser_id; diagnose = diagnose_image_pull }
