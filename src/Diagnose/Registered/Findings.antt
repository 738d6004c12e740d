-- ===== src/Diagnose/Registered/Findings.antt =====
-- internal/diagnose: what the findings of the diagnosers of pods have in common.
use kubectl_safe_rollout.Prelude.{
  String, not, List, [], ◌∷◌, ◌++◌, refl, Option, none, some, ◌==◌, ◌&&◌, ◌||◌, Text, All, if_lem,
  elim_lem,
}
use kubectl_safe_rollout.Prelude.Int.{pos, eq_ℤ}
use kubectl_safe_rollout.Model.{Finding}
use kubectl_safe_rollout.Cluster.{Pod, ContainerStatus, Waiting, Terminated, Event}
use kubectl_safe_rollout.Diagnose.{Target}
use kubectl_safe_rollout.Diagnose.Pods.{pod_events, is_waiting_for, event_line}
use kubectl_safe_rollout.Diagnose.Pods.Crash.{
  kills, has_liveness_killing, classify_liveness_killing, classify_termination, classify_crash,
  crash_findings,
}
use kubectl_safe_rollout.Diagnose.Pods.Pull.{
  finding_for_pull_cause, pull_cause, classify_pull, pull_findings,
}
use kubectl_safe_rollout.Diagnose.Registered.{IsDiagnosis}

abbrev pub AreDiagnoses : List Finding → Type 0
AreDiagnoses = All IsDiagnosis

-- The finding of an option.
abbrev IsDiagnosisIfAny : Option Finding → Type 0
IsDiagnosisIfAny none = Unit
IsDiagnosisIfAny (some f) = IsDiagnosis f

module _ (t : Target) (p : Pod) where
  classify_liveness_killing-IsDiagnosis :
      (cs : ContainerStatus) (es : List Event)
      → IsDiagnosisIfAny (classify_liveness_killing p cs es)
  unfolding classify_liveness_killing
  classify_liveness_killing-IsDiagnosis cs [] = tt
  classify_liveness_killing-IsDiagnosis cs (e ∷ es) =
      if_lem IsDiagnosisIfAny (not (kills cs e)) (classify_liveness_killing-IsDiagnosis cs es)
        (refl, refl, refl)

  classify_termination-IsDiagnosis :
      (cs : ContainerStatus) (term : Option Terminated)
      → IsDiagnosis (classify_termination t p cs term)
  unfolding classify_termination
  classify_termination-IsDiagnosis cs none = (refl, refl, refl)
  classify_termination-IsDiagnosis cs (some term) =
      if_lem IsDiagnosis (term.reason == "OOMKilled") (refl, refl, refl)
        (if_lem IsDiagnosis (not (term.reason == "")) (refl, refl, refl) (refl, refl, refl))

  classify_crash-IsDiagnosis : (cs : ContainerStatus) → IsDiagnosis (classify_crash t p cs)
  unfolding classify_crash
  classify_crash-IsDiagnosis cs =
      either (classify_liveness_killing p cs (pod_events t p))
        (classify_liveness_killing-IsDiagnosis cs (pod_events t p))
    where
      either :
          (o : Option Finding)
          → IsDiagnosisIfAny o
          → IsDiagnosis
              (elim o [ some f ↦ f | none ↦ classify_termination t p cs cs.last_terminated ])
      either none h = classify_termination-IsDiagnosis cs cs.last_terminated
      either (some f) h = h

  pub crash_findings-AreDiagnoses : (cs : ContainerStatus) → AreDiagnoses (crash_findings t p cs)
  unfolding crash_findings
  crash_findings-AreDiagnoses cs =
      if_lem AreDiagnoses
        (not (is_waiting_for "CrashLoopBackOff" cs.waiting)
          && (eq_ℤ cs.restart_count (pos 0) || not (has_liveness_killing t p cs)))
        tt (classify_crash-IsDiagnosis cs, tt)

  finding_for_pull_cause-IsDiagnosis :
      (cause : String) (cs : ContainerStatus) (evidence : List Text)
      → IsDiagnosis (finding_for_pull_cause cause p cs evidence)
  unfolding finding_for_pull_cause
  finding_for_pull_cause-IsDiagnosis cause cs evidence =
      if_lem IsDiagnosis (cause == "tag-not-found") (refl, refl, refl)
        (if_lem IsDiagnosis (cause == "unauthorized") (refl, refl, refl)
          (if_lem IsDiagnosis (cause == "registry-unreachable") (refl, refl, refl)
            (refl, refl, refl)))

  classify_pull-IsDiagnosis :
      (cs : ContainerStatus) (base : List Text) (es : List Event)
      → IsDiagnosis (classify_pull p cs base es)
  unfolding classify_pull
  classify_pull-IsDiagnosis cs base [] = (refl, refl, refl)
  classify_pull-IsDiagnosis cs base (e ∷ es) =
      elim_lem IsDiagnosis (pull_cause e) (classify_pull-IsDiagnosis cs base es)
        (λ cause. finding_for_pull_cause-IsDiagnosis cause cs (base ++ event_line e ∷ []))

  pub pull_findings-AreDiagnoses :
      (cs : ContainerStatus) (w : Option Waiting) → AreDiagnoses (pull_findings t p cs w)
  unfolding pull_findings
  pull_findings-AreDiagnoses cs none = tt
  pull_findings-AreDiagnoses cs (some w) =
      if_lem AreDiagnoses (w.reason == "InvalidImageName") ((refl, refl, refl), tt)
        (if_lem AreDiagnoses
          (not (w.reason == "ImagePullBackOff") && not (w.reason == "ErrImagePull")) tt
          (classify_pull-IsDiagnosis cs _ (pod_events t p), tt))
