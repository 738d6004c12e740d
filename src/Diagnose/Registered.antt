-- ===== src/Diagnose/Registered.antt =====
-- internal/diagnose: the registered diagnosers, and the causes that their findings name.
pub mod Findings
pub mod Conditions
pub mod Run
pub mod Verdict
use kubectl_safe_rollout.Prelude.{
  String, Bool, true, false, List, [], ◌∷◌, ◌≡◌, Option, some, Dict, lookup, ◌↔◌, All, ◌||◌, not,
}
use kubectl_safe_rollout.Model.{Finding, severity_high}
use kubectl_safe_rollout.Diagnose.{Diagnoser}
use kubectl_safe_rollout.Diagnose.Spec.{paused, progress_deadline, stateful_set_update}
use kubectl_safe_rollout.Diagnose.Pods.Crash.{crash_loop}
use kubectl_safe_rollout.Diagnose.Pods.Pull.{image_pull}
use kubectl_safe_rollout.Diagnose.Pods.Config.{config_error}
use kubectl_safe_rollout.Diagnose.Pods.Mount.{volume_mount}
use kubectl_safe_rollout.Diagnose.Pods.Init.{init_container}
use kubectl_safe_rollout.Diagnose.Pods.Ready.{readiness}
use kubectl_safe_rollout.Diagnose.Pods.Pending.{pending}
use kubectl_safe_rollout.Diagnose.Quota.{quota}
use kubectl_safe_rollout.Diagnose.ReplicaSetCreate.{replica_set_create}

-- `registeredDiagnosers`
abbrev pub registered_diagnosers : List Diagnoser
registered_diagnosers =
    crash_loop ∷ image_pull ∷ config_error ∷ volume_mount ∷ init_container ∷ readiness ∷ pending
    ∷ quota ∷ replica_set_create ∷ progress_deadline ∷ paused ∷ stateful_set_update ∷ []

-- The constants CauseID, each with whether its findings say that the cause is not known.
abbrev pub causes : Dict Bool
causes =
    ("crashloop-oomkilled", false)
    ∷ ("crashloop-liveness-probe", false)
    ∷ ("crashloop-app-error", false)
    ∷ ("crashloop-undetermined", true)
    ∷ ("configerror-missing-configmap", false)
    ∷ ("configerror-missing-secret", false)
    ∷ ("configerror-undetermined", true)
    ∷ ("imagepull-invalid-reference", false)
    ∷ ("imagepull-tag-not-found", false)
    ∷ ("imagepull-registry-unreachable", false)
    ∷ ("imagepull-credentials-missing", false)
    ∷ ("imagepull-undetermined", true)
    ∷ ("volumemount-missing-secret", false)
    ∷ ("volumemount-missing-configmap", false)
    ∷ ("volumemount-undetermined", true)
    ∷ ("initcontainer-app-error", false)
    ∷ ("initcontainer-oomkilled", false)
    ∷ ("initcontainer-undetermined", true)
    ∷ ("readiness-probe-failing", false)
    ∷ ("readiness-undetermined", true)
    ∷ ("pending-insufficient-resources", false)
    ∷ ("pending-scheduling-constraints", false)
    ∷ ("pending-unbound-pvc", false)
    ∷ ("pending-undetermined", true)
    ∷ ("quota-exceeded", false)
    ∷ ("quota-undetermined", true)
    ∷ ("serviceaccount-missing", false)
    ∷ ("progress-deadline-exceeded", false)
    ∷ ("rollout-paused", false)
    ∷ ("statefulset-update-ondelete", false)
    ∷ ("statefulset-partition-blocked", false)
    ∷ ("replicaset-create-quota-exceeded", false)
    ∷ ("replicaset-create-undetermined", true)
    ∷ []

-- A finding of a declared cause: it is High, says that its cause is not known exactly if its identifier
-- is one of those, and leaves the remedy to the reader.
abbrev pub IsDiagnosis : Finding → Type 0
IsDiagnosis f =
    (f.severity ≡ severity_high)
    × (lookup f.check_id causes ≡ some f.undetermined)
    × (f.remediation.context_dependent ≡ true)
