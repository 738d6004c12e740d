-- ===== src/Diagnose/Registered/Conditions.antt =====
-- internal/diagnose: what the findings on configuration, volumes, init containers, readiness, scheduling
-- and rejected creations have in common.
use kubectl_safe_rollout.Prelude.{
  String, not, List, [], ◌∷◌, ◌++◌, refl, Option, none, some, ◌==◌, ◌||◌, Bool-cases, inl, inr,
  Text, All-append, if_lem, elim_lem, is_empty,
}
use kubectl_safe_rollout.Prelude.Int.{ℤ, pos, eq_ℤ}
use kubectl_safe_rollout.Model.{Finding, ResourceRef}
use kubectl_safe_rollout.Workload.{Workload}
use kubectl_safe_rollout.Cluster.{Pod, ContainerStatus, Waiting, Terminated, Volume, Event}
use kubectl_safe_rollout.Diagnose.{Target, PodCreationSource}
use kubectl_safe_rollout.Diagnose.Pattern.{
  failed_scheduling, missing_config_object, readiness_failure, quota_exceeded,
}
use kubectl_safe_rollout.Diagnose.Pods.{pod_resource, pod_events, event_line}
use kubectl_safe_rollout.Diagnose.Pods.Config.{
  missing_object, config_finding, classify_config, config_findings,
}
use kubectl_safe_rollout.Diagnose.Pods.Mount.{
  has_non_running_container, missing_volume_object, unrecognized_finding, classify_mount,
  mount_findings,
}
use kubectl_safe_rollout.Diagnose.Pods.Init.{classify_init, init_findings}
use kubectl_safe_rollout.Diagnose.Pods.Ready.{classify_readiness, readiness_findings}
use kubectl_safe_rollout.Diagnose.Pods.Pending.{
  finding_for_pending_cause, unbound_claim, classify_unbound_pvc, scheduling_finding,
  classify_scheduling, classify_pending, pod_pending_findings,
}
use kubectl_safe_rollout.Diagnose.Quota.{
  Rejections, if_any, exceeded_finding, missing_account_finding, undetermined_finding,
  rejection_findings, source_findings,
}
use kubectl_safe_rollout.Diagnose.ReplicaSetCreate.{
  creation_finding, event_findings, fallback_findings, creation_findings,
}
use kubectl_safe_rollout.Diagnose.Registered.{IsDiagnosis}
use kubectl_safe_rollout.Diagnose.Registered.Findings.{AreDiagnoses}

missing_object-IsDiagnosis :
    (r : ResourceRef) (container kind name : String) (evidence : List Text)
    → IsDiagnosis (missing_object r container kind name evidence)
unfolding missing_object
missing_object-IsDiagnosis r container kind name evidence =
    elim (Bool-cases (kind == "configmap")) [
      | inl e ↦ rw e (refl, refl, refl)
      | inr e ↦ rw e (refl, refl, refl)
    ]

config_finding-IsDiagnosis :
    (p : Pod) (cs : ContainerStatus) (object : Option (String × String)) (evidence : List Text)
    → IsDiagnosis (config_finding p cs object evidence)
unfolding config_finding
config_finding-IsDiagnosis p cs none evidence = (refl, refl, refl)
config_finding-IsDiagnosis p cs (some (kind, name)) evidence =
    missing_object-IsDiagnosis (pod_resource p) cs.name kind name evidence

missing_volume_object-IsDiagnosis :
    (r : ResourceRef) (kind name : String) (evidence : List Text)
    → IsDiagnosis (missing_volume_object r kind name evidence)
unfolding missing_volume_object
missing_volume_object-IsDiagnosis r kind name evidence = elim (Bool-cases (kind == "configmap")) [
  | inl e ↦ rw e (refl, refl, refl)
  | inr e ↦ rw e (refl, refl, refl)
]

finding_for_pending_cause-IsDiagnosis :
    (cause : String) (r : ResourceRef) (evidence : List Text)
    → IsDiagnosis (finding_for_pending_cause cause r evidence)
unfolding finding_for_pending_cause
finding_for_pending_cause-IsDiagnosis cause r evidence =
    if_lem IsDiagnosis (cause == "insufficient-resources") (refl, refl, refl)
      (if_lem IsDiagnosis (cause == "scheduling-constraints") (refl, refl, refl)
        (if_lem IsDiagnosis (cause == "unbound-pvc") (refl, refl, refl) (refl, refl, refl)))

scheduling_finding-IsDiagnosis :
    (p : Pod) (e : Event) (cause : Option String) → IsDiagnosis (scheduling_finding p e cause)
unfolding scheduling_finding
scheduling_finding-IsDiagnosis p e none = (refl, refl, refl)
scheduling_finding-IsDiagnosis p e (some cause) =
    finding_for_pending_cause-IsDiagnosis cause (pod_resource p) (event_line e ∷ [])

classify_scheduling-AreDiagnoses :
    (p : Pod) (es : List Event) → AreDiagnoses (classify_scheduling p es)
unfolding classify_scheduling
classify_scheduling-AreDiagnoses p [] = tt
classify_scheduling-AreDiagnoses p (e ∷ es) =
    if_lem AreDiagnoses (not (e.reason == "FailedScheduling"))
      (classify_scheduling-AreDiagnoses p es)
      (scheduling_finding-IsDiagnosis p e (failed_scheduling e.message), tt)

if_any-AreDiagnoses :
    (evidence : List Text) (f : Finding) → IsDiagnosis f → AreDiagnoses (if_any evidence f)
if_any-AreDiagnoses evidence f h = if_lem AreDiagnoses (is_empty evidence) tt (h, tt)

unrecognized_finding-AreDiagnoses :
    (p : Pod) (o : Option Event) → AreDiagnoses (unrecognized_finding p o)
unfolding unrecognized_finding
unrecognized_finding-AreDiagnoses p none = tt
unrecognized_finding-AreDiagnoses p (some e) = ((refl, refl, refl), tt)

classify_mount-AreDiagnoses :
    (p : Pod) (o : Option Event) (es : List Event) → AreDiagnoses (classify_mount p o es)
unfolding classify_mount
classify_mount-AreDiagnoses p o [] = unrecognized_finding-AreDiagnoses p o
classify_mount-AreDiagnoses p o (e ∷ es) =
    if_lem AreDiagnoses (not (e.reason == "FailedMount")) (classify_mount-AreDiagnoses p o es) (
      elim_lem AreDiagnoses (missing_config_object e.message) (classify_mount-AreDiagnoses p _ es)
        (λ m. (missing_volume_object-IsDiagnosis (pod_resource p) m.0 m.1 (event_line e ∷ []), tt)))

module _ (t : Target) (p : Pod) where
  pub config_findings-AreDiagnoses :
      (cs : ContainerStatus) (w : Option Waiting) → AreDiagnoses (config_findings t p cs w)
  unfolding config_findings classify_config
  config_findings-AreDiagnoses cs none = tt
  config_findings-AreDiagnoses cs (some w) =
      if_lem AreDiagnoses (not (w.reason == "CreateContainerConfigError")) tt
        (config_finding-IsDiagnosis p cs (missing_config_object w.message) _, tt)

  pub mount_findings-AreDiagnoses : AreDiagnoses (mount_findings t p)
  unfolding mount_findings
  mount_findings-AreDiagnoses =
      if_lem AreDiagnoses (not (has_non_running_container p)) tt
        (classify_mount-AreDiagnoses p none (pod_events t p))

  pub init_findings-AreDiagnoses :
      (cs : ContainerStatus) (term : Option (Option Terminated))
      → AreDiagnoses (init_findings t p cs term)
  unfolding init_findings classify_init
  init_findings-AreDiagnoses cs none = tt
  init_findings-AreDiagnoses cs (some none) = ((refl, refl, refl), tt)
  init_findings-AreDiagnoses cs (some (some term)) = (
    if_lem IsDiagnosis (term.reason == "OOMKilled") (refl, refl, refl)
        (if_lem IsDiagnosis (not (eq_ℤ term.exit_code (pos 0))) (refl, refl, refl)
          (refl, refl, refl)),
    tt,
  )

  classify_readiness-IsDiagnosis :
      (cs : ContainerStatus) (base : List Text) (es : List Event)
      → IsDiagnosis (classify_readiness p cs base es)
  unfolding classify_readiness
  classify_readiness-IsDiagnosis cs base [] = (refl, refl, refl)
  classify_readiness-IsDiagnosis cs base (e ∷ es) =
      if_lem IsDiagnosis (not (readiness_failure e.reason e.message))
        (classify_readiness-IsDiagnosis cs base es) (refl, refl, refl)

  pub readiness_findings-AreDiagnoses :
      (cs : ContainerStatus) → AreDiagnoses (readiness_findings t p cs)
  unfolding readiness_findings
  readiness_findings-AreDiagnoses cs =
      if_lem AreDiagnoses (not cs.is_running || cs.ready) tt
        (classify_readiness-IsDiagnosis cs _ (pod_events t p), tt)

  classify_unbound_pvc-AreDiagnoses :
      (vs : List Volume) → AreDiagnoses (classify_pending t p (classify_unbound_pvc t p vs))
  unfolding classify_unbound_pvc classify_pending
  classify_unbound_pvc-AreDiagnoses [] = classify_scheduling-AreDiagnoses p (pod_events t p)
  classify_unbound_pvc-AreDiagnoses (v ∷ vs) =
      elim_lem (λ o. AreDiagnoses (classify_pending t p o)) (unbound_claim t p v.claim_name)
        (classify_unbound_pvc-AreDiagnoses vs) (λ c. ((refl, refl, refl), tt))

  pub pod_pending_findings-AreDiagnoses : AreDiagnoses (pod_pending_findings t p)
  unfolding pod_pending_findings
  pod_pending_findings-AreDiagnoses =
      if_lem AreDiagnoses (not (p.phase == "Pending")) tt
        (classify_unbound_pvc-AreDiagnoses p.volumes)

rejection_findings-AreDiagnoses :
    (s : PodCreationSource) (r : Rejections) → AreDiagnoses (rejection_findings s r)
unfolding rejection_findings
rejection_findings-AreDiagnoses s r =
    let exceeded : Finding = exceeded_finding s r.exceeded in
    let missing : Finding =
      missing_account_finding s r.missing_account r.missing_account_evidence in
    let other : Finding = undetermined_finding s r.undetermined in
    All-append IsDiagnosis (if_any r.exceeded exceeded)
      (if_any r.missing_account_evidence missing ++ if_any r.undetermined other)
      (if_any-AreDiagnoses r.exceeded exceeded (refl, refl, refl))
      (All-append IsDiagnosis (if_any r.missing_account_evidence missing)
        (if_any r.undetermined other)
        (if_any-AreDiagnoses r.missing_account_evidence missing (refl, refl, refl))
        (if_any-AreDiagnoses r.undetermined other (refl, refl, refl)))

pub source_findings-AreDiagnoses :
    (t : Target) (s : PodCreationSource) → AreDiagnoses (source_findings t s)
unfolding source_findings
source_findings-AreDiagnoses t s = rejection_findings-AreDiagnoses s _

creation_finding-IsDiagnosis :
    (w : Workload) (message : String) (evidence : Text)
    → IsDiagnosis (creation_finding w message evidence)
unfolding creation_finding
creation_finding-IsDiagnosis w message evidence =
    if_lem IsDiagnosis (quota_exceeded message) (refl, refl, refl) (refl, refl, refl)

event_findings-AreDiagnoses : (w : Workload) (e : String × ℤ) → AreDiagnoses (event_findings w e)
event_findings-AreDiagnoses w e =
    if_lem AreDiagnoses (e.0 == "") tt (creation_finding-IsDiagnosis w e.0 _, tt)

fallback_findings-AreDiagnoses :
    (t : Target) (deadline : Option String) → AreDiagnoses (fallback_findings t deadline)
unfolding fallback_findings
fallback_findings-AreDiagnoses t none = event_findings-AreDiagnoses t.workload _
fallback_findings-AreDiagnoses t (some deadline) = tt

pub creation_findings-AreDiagnoses :
    (t : Target) (o : Option String) → AreDiagnoses (creation_findings t o)
unfolding creation_findings
creation_findings-AreDiagnoses t none = fallback_findings-AreDiagnoses t _
creation_findings-AreDiagnoses t (some message) =
    (creation_finding-IsDiagnosis t.workload message _, tt)
