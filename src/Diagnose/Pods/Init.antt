-- ===== src/Diagnose/Pods/Init.antt =====
-- internal/diagnose/initcontainer.go: init containers that fail again and again.
use kubectl_safe_rollout.Prelude.{
  String, Bool, true, false, not, List, [], ◌∷◌, ◌++◌, Option, none, some, ◌==◌, ◌&&◌,
  if◌then◌else◌, Text, sprintf, str, num, Fallible, ok, flat_map,
}
use kubectl_safe_rollout.Prelude.Int.{pos, eq_ℤ, ltb_ℤ}
use kubectl_safe_rollout.Model.{Finding, ref_string}
use kubectl_safe_rollout.Cluster.{Pod, ContainerStatus, Terminated}
use kubectl_safe_rollout.Diagnose.{Target, Result, Diagnoser, found}
use kubectl_safe_rollout.Diagnose.Pods.{
  pod_resource, advice, high_finding, is_waiting_for, log_evidence,
}

abbrev pub init_container_diagnoser_id : String
init_container_diagnoser_id = "init-container"

-- `cs.State.Terminated`, if it is set, with a failure, and the container was restarted.
abbrev failed_now : ContainerStatus → Option Terminated → Option Terminated
failed_now cs none = none
failed_now cs (some term) =
    if not (eq_ℤ term.exit_code (pos 0)) && ltb_ℤ (pos 0) cs.restart_count then some term else none

-- `failedInitTermination`: none where it answers false, or the termination, which may be nil.
unfoldable pub failed_init_termination : ContainerStatus → Option (Option Terminated)
failed_init_termination cs = elim (failed_now cs cs.terminated) [
  | some term ↦ some (some term)
  | none ↦ if is_waiting_for "CrashLoopBackOff" cs.waiting then some cs.last_terminated else none
]

-- The evidence on the exit code and the reason.
abbrev exit_lines : Option Terminated → List Text
exit_lines none =
    sprintf "exitCode=%s" (str "unknown" ∷ []) ∷ sprintf "reason=%s" (str "unknown" ∷ []) ∷ []
exit_lines (some term) =
    sprintf "exitCode=%d" (num term.exit_code ∷ [])
    ∷ sprintf "reason=%s" (str term.reason ∷ [])
    ∷ []

-- `logBasedFinding`
abbrev log_based_finding : Pod → ContainerStatus → String → Text → List Text → Bool → Finding
log_based_finding p cs id cause evidence undetermined =
    high_finding id cause evidence
      (advice
        (sprintf
          "inspect the previous logs for init container %q to identify why initialization cannot complete"
          (str cs.name ∷ []))
        (sprintf "kubectl logs %s -c %s -n %s --previous"
            (str p.name ∷ str cs.name ∷ str p.namespace ∷ [])
          ∷ []))
      (pod_resource p) undetermined

abbrev undetermined_init : Pod → ContainerStatus → List Text → Finding
undetermined_init p cs evidence =
    log_based_finding p cs "initcontainer-undetermined"
      (sprintf
        "init container %q in %s is in CrashLoopBackOff but its termination state does not identify the cause"
        (str cs.name ∷ str (ref_string (pod_resource p)) ∷ []))
      evidence true

-- The switch of `InitContainer.classify`.
unfoldable pub classify_init : Pod → ContainerStatus → Option Terminated → List Text → Finding
classify_init p cs none evidence = undetermined_init p cs evidence
classify_init p cs (some term) evidence =
    if term.reason == "OOMKilled"
    then high_finding "initcontainer-oomkilled"
        (sprintf
          "init container %q in %s is killed by the kernel (OOMKilled) before initialization completes"
          (str cs.name ∷ str (ref_string (pod_resource p)) ∷ []))
        evidence
        (advice
          (sprintf
            "increase limits.memory for init container %q or reduce what it allocates during initialization; the correct value depends on the actual usage profile and cannot be safely suggested without context"
            (str cs.name ∷ []))
          [])
        (pod_resource p) false
    else (if not (eq_ℤ term.exit_code (pos 0))
        then log_based_finding p cs "initcontainer-app-error"
            (sprintf
              "init container %q in %s exits with application error code %d before initialization completes"
              (str cs.name ∷ str (ref_string (pod_resource p)) ∷ num term.exit_code ∷ []))
            evidence false
        else undetermined_init p cs evidence)

-- The body of the inner loop of `InitContainer.Diagnose`, given the termination.
unfoldable pub init_findings :
    Target → Pod → ContainerStatus → Option (Option Terminated) → List Finding
init_findings t p cs none = []
init_findings t p cs (some term) =
    classify_init p cs term (
      sprintf "initContainer=%s" (str cs.name ∷ [])
      ∷ (exit_lines term
          ++ sprintf "restartCount=%d" (num cs.restart_count ∷ [])
            ∷ log_evidence t.log_tailer p cs))
    ∷ []

-- `InitContainer.Diagnose`
unfoldable pub diagnose_init_container : Target → Fallible Result
diagnose_init_container t = ok (
    found init_container_diagnoser_id (
      flat_map
        (λ (p : Pod).
          flat_map (λ cs. init_findings t p cs (failed_init_termination cs))
            p.init_container_statuses)
        t.pods))

abbrev pub init_container : Diagnoser
init_container = record { id = init_container_diagnoser_id; diagnose = diagnose_init_container }
