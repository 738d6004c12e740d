-- ===== src/Diagnose/Pods/Crash.antt =====
-- internal/diagnose/crashloop.go: containers in CrashLoopBackOff, and those that a liveness probe kills.
pub mod Priority
use kubectl_safe_rollout.Prelude.{
  String, Bool, true, false, not, List, [], ◌∷◌, ◌++◌, Option, none, some, ◌==◌, ◌&&◌, ◌||◌,
  if◌then◌else◌, Text, plain, sprintf, str, num, Fallible, ok, any, flat_map,
}
use kubectl_safe_rollout.Prelude.Int.{pos, eq_ℤ}
use kubectl_safe_rollout.Model.{Finding, ResourceRef, ref_string}
use kubectl_safe_rollout.Cluster.{Pod, ContainerStatus, Terminated, Event}
use kubectl_safe_rollout.Diagnose.{Target, Result, Diagnoser, found}
use kubectl_safe_rollout.Diagnose.Pattern.{liveness_killing}
use kubectl_safe_rollout.Diagnose.Pods.{
  pod_resource, pod_events, advice, high_finding, is_waiting_for, event_line, log_evidence,
}

abbrev pub crash_loop_diagnoser_id : String
crash_loop_diagnoser_id = "crashloop"

-- The evidence that each branch of `classify` starts with.
abbrev base : ContainerStatus → List Text
base cs =
    sprintf "container=%s" (str cs.name ∷ [])
    ∷ sprintf "restartCount=%d" (num cs.restart_count ∷ [])
    ∷ []

abbrev pub kills : ContainerStatus → Event → Bool
kills cs e = liveness_killing e.reason e.message cs.name

-- `hasLivenessKilling`
abbrev pub has_liveness_killing : Target → Pod → ContainerStatus → Bool
has_liveness_killing t p cs = any (kills cs) (pod_events t p)

abbrev liveness_finding : Pod → ContainerStatus → Event → Finding
liveness_finding p cs e =
    high_finding "crashloop-liveness-probe"
      (sprintf
        "container %q in %s is terminated by the kubelet because the liveness probe repeatedly fails, not because the application crashes"
        (str cs.name ∷ str (ref_string (pod_resource p)) ∷ []))
      (base cs ++ event_line e ∷ [])
      (advice
        (sprintf
          "the liveness probe for %q terminates the container before the app is ready: increase initialDelaySeconds/periodSeconds/failureThreshold, or verify that the liveness endpoint responds correctly during startup (consider a startupProbe if startup is slow)"
          (str cs.name ∷ []))
        [])
      (pod_resource p) false

-- The loop of `classifyLivenessKilling`
unfoldable pub classify_liveness_killing : Pod → ContainerStatus → List Event → Option Finding
classify_liveness_killing p cs [] = none
classify_liveness_killing p cs (e ∷ es) =
    if not (kills cs e) then classify_liveness_killing p cs es else some (liveness_finding p cs e)

-- `classifyOOMKilled`
abbrev classify_oom_killed : Pod → ContainerStatus → Terminated → Finding
classify_oom_killed p cs term =
    high_finding "crashloop-oomkilled"
      (sprintf
        "container %q in %s is killed by the kernel (OOMKilled) for exceeding its memory limit"
        (str cs.name ∷ str (ref_string (pod_resource p)) ∷ []))
      (base cs ++ sprintf "exitCode=%d reason=OOMKilled" (num term.exit_code ∷ []) ∷ [])
      (advice
        (sprintf
          "increase limits.memory for container %q or reduce the app's memory usage; the correct value depends on the actual usage profile and cannot be safely suggested without context"
          (str cs.name ∷ []))
        [])
      (pod_resource p) false

-- `classifyAppError`
abbrev classify_app_error : Target → Pod → ContainerStatus → Terminated → Finding
classify_app_error t p cs term =
    high_finding "crashloop-app-error"
      (sprintf
        "container %q in %s exits due to an application error (exit code %d), neither OOMKill nor liveness probe"
        (str cs.name ∷ str (ref_string (pod_resource p)) ∷ num term.exit_code ∷ []))
      (base cs
        ++ sprintf "exitCode=%d reason=%s" (num term.exit_code ∷ str term.reason ∷ [])
          ∷ log_evidence t.log_tailer p cs)
      (advice
        (sprintf "check the logs for container %q to find the application cause of the exit"
          (str cs.name ∷ []))
        (sprintf "kubectl logs %s -c %s -n %s --previous"
            (str p.name ∷ str cs.name ∷ str p.namespace ∷ [])
          ∷ []))
      (pod_resource p) false

-- `CrashLoop.undetermined`
abbrev undetermined_crash : ResourceRef → List Text → Finding
undetermined_crash r evidence =
    high_finding "crashloop-undetermined"
      (sprintf
        "%s is in CrashLoopBackOff but the collected evidence does not distinguish OOMKill, liveness probe, or application error"
        (str (ref_string r) ∷ []))
      evidence
      (advice
        (plain
          "collect more context before acting: describe the pod and inspect the previous container logs")
        (sprintf "kubectl describe pod %s -n %s" (str r.name ∷ str r.namespace ∷ []) ∷ []))
      r true

-- The switch of `CrashLoop.classify` on the last termination.
unfoldable pub classify_termination : Target → Pod → ContainerStatus → Option Terminated → Finding
classify_termination t p cs none = undetermined_crash (pod_resource p) (
    base cs
    ++ sprintf "container=%s in CrashLoopBackOff, LastTerminationState.Terminated not populated"
        (str cs.name ∷ [])
      ∷ [])
classify_termination t p cs (some term) =
    if term.reason == "OOMKilled"
    then classify_oom_killed p cs term
    else (if not (term.reason == "")
        then classify_app_error t p cs term
        else undetermined_crash (pod_resource p) (
            base cs
            ++ sprintf "container=%s in CrashLoopBackOff, Terminated.Reason empty"
                (str cs.name ∷ [])
              ∷ []))

-- `CrashLoop.classify`
unfoldable pub classify_crash : Target → Pod → ContainerStatus → Finding
classify_crash t p cs = elim (classify_liveness_killing p cs (pod_events t p)) [
  | some f ↦ f
  | none ↦ classify_termination t p cs cs.last_terminated
]

-- The body of the inner loop of `CrashLoop.Diagnose`.
unfoldable pub crash_findings : Target → Pod → ContainerStatus → List Finding
crash_findings t p cs =
    if not (is_waiting_for "CrashLoopBackOff" cs.waiting)
      && (eq_ℤ cs.restart_count (pos 0) || not (has_liveness_killing t p cs))
    then []
    else classify_crash t p cs ∷ []

-- `CrashLoop.Diagnose`
unfoldable pub diagnose_crash_loop : Target → Fallible Result
diagnose_crash_loop t = ok (
    found crash_loop_diagnoser_id
      (flat_map (λ (p : Pod). flat_map (crash_findings t p) p.container_statuses) t.pods))

abbrev pub crash_loop : Diagnoser
crash_loop = record { id = crash_loop_diagnoser_id; diagnose = diagnose_crash_loop }
