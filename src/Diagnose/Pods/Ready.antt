-- ===== src/Diagnose/Pods/Ready.antt =====
-- internal/diagnose/readiness.go: containers that run and are not ready after the progress deadline.
use kubectl_safe_rollout.Prelude.{
  String, Bool, true, false, not, List, [], ◌∷◌, ◌++◌, Option, none, some, ◌||◌, if◌then◌else◌,
  Text, plain, sprintf, str, num, Fallible, ok, flat_map,
}
use kubectl_safe_rollout.Model.{Finding, ref_string}
use kubectl_safe_rollout.Workload.{progress_deadline_exceeded}
use kubectl_safe_rollout.Cluster.{Pod, ContainerStatus, Event}
use kubectl_safe_rollout.Diagnose.{Target, Result, Diagnoser, skip_result, found}
use kubectl_safe_rollout.Diagnose.Pattern.{readiness_failure}
use kubectl_safe_rollout.Diagnose.Spec.{has_no_deployment_fields}
use kubectl_safe_rollout.Diagnose.Pods.{pod_resource, pod_events, advice, high_finding, event_line}

abbrev pub readiness_diagnoser_id : String
readiness_diagnoser_id = "readiness"

-- `Readiness.finding`
abbrev readiness_finding : Pod → ContainerStatus → String → Text → List Text → Bool → Finding
readiness_finding p cs id cause evidence undetermined =
    high_finding id cause evidence
      (advice
        (plain
          "a readiness probe pointing at the wrong path or port and an application that is genuinely not serving produce the same symptom; inspect the pod events and current container logs before changing either")
        (sprintf "kubectl describe pod %s -n %s" (str p.name ∷ str p.namespace ∷ [])
          ∷ sprintf "kubectl logs %s -c %s -n %s" (str p.name ∷ str cs.name ∷ str p.namespace ∷ [])
          ∷ []))
      (pod_resource p) undetermined

-- The loop of `Readiness.classify`, over the evidence that each branch starts with.
unfoldable pub classify_readiness : Pod → ContainerStatus → List Text → List Event → Finding
classify_readiness p cs base [] =
    readiness_finding p cs "readiness-undetermined"
      (sprintf
        "container %q in %s is running but not ready after the rollout exceeded its progress deadline, but no observed event identifies why"
        (str cs.name ∷ str (ref_string (pod_resource p)) ∷ []))
      (base
        ++ plain
            "container is running and not ready after the rollout exceeded its progress deadline"
          ∷ plain "no Unhealthy event explaining the unready state was observed"
          ∷ [])
      true
classify_readiness p cs base (e ∷ es) =
    if not (readiness_failure e.reason e.message)
    then classify_readiness p cs base es
    else readiness_finding p cs "readiness-probe-failing"
        (sprintf
          "container %q in %s is running but not ready because its readiness probe is failing after the rollout exceeded its progress deadline"
          (str cs.name ∷ str (ref_string (pod_resource p)) ∷ []))
        (base ++ event_line e ∷ []) false

-- The body of the inner loop of `Readiness.Diagnose`.
unfoldable pub readiness_findings : Target → Pod → ContainerStatus → List Finding
readiness_findings t p cs =
    if not cs.is_running || cs.ready
    then []
    else classify_readiness p cs
        (sprintf "container=%s" (str cs.name ∷ [])
          ∷ plain "state=running ready=false"
          ∷ sprintf "restartCount=%d" (num cs.restart_count ∷ [])
          ∷ [])
        (pod_events t p)
      ∷ []

-- `Readiness.Diagnose` where the kind has a progress deadline, given the message of its condition.
unfoldable pub readiness_after_deadline : Target → Option String → List Finding
readiness_after_deadline t none = []
readiness_after_deadline t (some message) =
    flat_map (λ (p : Pod). flat_map (readiness_findings t p) p.container_statuses) t.pods

-- `Readiness.Diagnose`
unfoldable pub diagnose_readiness : Target → Fallible Result
diagnose_readiness t =
    if has_no_deployment_fields t.workload
    then ok (
        skip_result readiness_diagnoser_id (
          plain
            "readiness classification depends on progress-deadline evaluation, which is not available for this kind"))
    else ok (
        found readiness_diagnoser_id
          (readiness_after_deadline t (progress_deadline_exceeded t.workload)))

abbrev pub readiness : Diagnoser
readiness = record { id = readiness_diagnoser_id; diagnose = diagnose_readiness }
