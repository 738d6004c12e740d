-- ===== src/Diagnose/Registered/Run.antt =====
-- internal/diagnose: each registered diagnoser answers, with findings of declared causes.
use kubectl_safe_rollout.Prelude.{
  String, Bool, true, not, List, [], ◌++◌, ◌≡◌, refl, Option, none, some, ◌==◌, ◌||◌, if◌then◌else◌,
  Text, All-flat_map, elim_lem, if_lem, flat_map, Fallible, ok, err,
}
use kubectl_safe_rollout.Prelude.Int.{ℤ, leb_ℤ}
use kubectl_safe_rollout.Model.{Finding}
use kubectl_safe_rollout.Workload.{
  is_paused, progress_deadline_exceeded, pending_revision_update, replica_set_create_error,
  update_strategy, on_delete, rolling_update, replicas, kind,
}
use kubectl_safe_rollout.Cluster.{Pod, ContainerStatus}
use kubectl_safe_rollout.Diagnose.{Target, Result, Diagnoser, skip_result, found}
use kubectl_safe_rollout.Diagnose.Spec.{
  has_no_deployment_fields, paused_finding, diagnose_paused, progress_deadline_finding,
  diagnose_progress_deadline, on_delete_finding, partition_finding, blocked_findings,
  pending_findings, diagnose_stateful_set_update, paused, progress_deadline, stateful_set_update,
}
use kubectl_safe_rollout.Diagnose.Pods.Crash.{crash_findings, diagnose_crash_loop, crash_loop}
use kubectl_safe_rollout.Diagnose.Pods.Pull.{pull_findings, diagnose_image_pull, image_pull}
use kubectl_safe_rollout.Diagnose.Pods.Config.{config_findings, diagnose_config_error, config_error}
use kubectl_safe_rollout.Diagnose.Pods.Mount.{mount_findings, diagnose_volume_mount, volume_mount}
use kubectl_safe_rollout.Diagnose.Pods.Init.{
  init_findings, failed_init_termination, diagnose_init_container, init_container,
}
use kubectl_safe_rollout.Diagnose.Pods.Ready.{
  readiness_findings, readiness_after_deadline, diagnose_readiness, readiness,
}
use kubectl_safe_rollout.Diagnose.Pods.Pending.{pod_pending_findings, diagnose_pending, pending}
use kubectl_safe_rollout.Diagnose.Quota.{source_findings, diagnose_quota, quota}
use kubectl_safe_rollout.Diagnose.ReplicaSetCreate.{diagnose_replica_set_create, replica_set_create}
use kubectl_safe_rollout.Diagnose.Registered.{IsDiagnosis}
use kubectl_safe_rollout.Diagnose.Registered.Findings.{
  AreDiagnoses, crash_findings-AreDiagnoses, pull_findings-AreDiagnoses,
}
use kubectl_safe_rollout.Diagnose.Registered.Conditions.{
  config_findings-AreDiagnoses, mount_findings-AreDiagnoses, init_findings-AreDiagnoses,
  readiness_findings-AreDiagnoses, pod_pending_findings-AreDiagnoses, source_findings-AreDiagnoses,
  creation_findings-AreDiagnoses,
}

-- The result of a diagnoser: under its identifier, with findings of declared causes, and with none if
-- the category was skipped.
abbrev pub IsSound : String → Result → Type 0
IsSound id r =
    (r.diagnoser_id ≡ id) × AreDiagnoses r.findings × ((r.skipped ≡ true) → (r.findings ≡ []))

abbrev pub AnswersSoundly : String → Fallible Result → Type 0
AnswersSoundly id (ok r) = IsSound id r
AnswersSoundly id (err e) = ⊥

found-IsSound :
    (id : String) (fs : List Finding) → AreDiagnoses fs → AnswersSoundly id (ok (found id fs))
found-IsSound id fs h = (refl, h, λ e. cc)

-- A diagnoser that is skipped for the kinds that are no Deployment.
or_found-AnswersSoundly :
    (id : String) (reason : Text) (b : Bool) (fs : List Finding)
    → AreDiagnoses fs
    → AnswersSoundly id (if b then ok (skip_result id reason) else ok (found id fs))
unfolding skip_result
or_found-AnswersSoundly id reason b fs h =
    if_lem (AnswersSoundly id) b (refl, tt, λ e. refl) (found-IsSound id fs h)

over_containers :
    (f : Pod → ContainerStatus → List Finding) (statuses : Pod → List ContainerStatus)
    → ((p : Pod) (cs : ContainerStatus) → AreDiagnoses (f p cs))
    → (ps : List Pod) → AreDiagnoses (flat_map (λ (p : Pod). flat_map (f p) (statuses p)) ps)
over_containers f statuses h =
    All-flat_map IsDiagnosis (λ (p : Pod). flat_map (f p) (statuses p))
      (λ p. All-flat_map IsDiagnosis (f p) (h p) (statuses p))

abbrev pub Soundly : Target → Diagnoser → Type 0
Soundly t d = AnswersSoundly d.id (d.diagnose t)

module _ (t : Target) where
  pub crash_loop-Soundly : Soundly t crash_loop
  unfolding diagnose_crash_loop
  crash_loop-Soundly =
      found-IsSound _ _
        (over_containers (crash_findings t) _ (crash_findings-AreDiagnoses t) t.pods)

  pub image_pull-Soundly : Soundly t image_pull
  unfolding diagnose_image_pull
  image_pull-Soundly = found-IsSound _ _ (
      over_containers (λ p cs. pull_findings t p cs cs.waiting) _
        (λ p cs. pull_findings-AreDiagnoses t p cs cs.waiting) t.pods)

  pub config_error-Soundly : Soundly t config_error
  unfolding diagnose_config_error
  config_error-Soundly = found-IsSound _ _ (
      over_containers (λ p cs. config_findings t p cs cs.waiting)
        (λ p. p.init_container_statuses ++ p.container_statuses)
        (λ p cs. config_findings-AreDiagnoses t p cs cs.waiting) t.pods)

  pub volume_mount-Soundly : Soundly t volume_mount
  unfolding diagnose_volume_mount
  volume_mount-Soundly =
      found-IsSound _ _
        (All-flat_map IsDiagnosis (mount_findings t) (mount_findings-AreDiagnoses t) t.pods)

  pub init_container-Soundly : Soundly t init_container
  unfolding diagnose_init_container
  init_container-Soundly = found-IsSound _ _ (
      over_containers (λ p cs. init_findings t p cs (failed_init_termination cs)) _
        (λ p cs. init_findings-AreDiagnoses t p cs (failed_init_termination cs)) t.pods)

  after_deadline-AreDiagnoses : (o : Option String) → AreDiagnoses (readiness_after_deadline t o)
  unfolding readiness_after_deadline
  after_deadline-AreDiagnoses none = tt
  after_deadline-AreDiagnoses (some message) =
      over_containers (readiness_findings t) _ (readiness_findings-AreDiagnoses t) t.pods

  pub readiness-Soundly : Soundly t readiness
  unfolding diagnose_readiness
  readiness-Soundly =
      or_found-AnswersSoundly _ _ (has_no_deployment_fields t.workload) _
        (after_deadline-AreDiagnoses (progress_deadline_exceeded t.workload))

  pub pending-Soundly : Soundly t pending
  unfolding diagnose_pending
  pending-Soundly = found-IsSound _ _ (
      All-flat_map IsDiagnosis (pod_pending_findings t) (pod_pending_findings-AreDiagnoses t)
        t.pods)

  pub quota-Soundly : Soundly t quota
  unfolding diagnose_quota
  quota-Soundly = found-IsSound _ _ (
      All-flat_map IsDiagnosis (source_findings t) (source_findings-AreDiagnoses t)
        t.pod_creation_sources)

  pub replica_set_create-Soundly : Soundly t replica_set_create
  unfolding diagnose_replica_set_create
  replica_set_create-Soundly =
      or_found-AnswersSoundly _ _ (has_no_deployment_fields t.workload) _
        (creation_findings-AreDiagnoses t (replica_set_create_error t.workload))

  pub progress_deadline-Soundly : Soundly t progress_deadline
  unfolding diagnose_progress_deadline progress_deadline_finding
  progress_deadline-Soundly =
      if_lem (AnswersSoundly _) (has_no_deployment_fields t.workload)
        (or_found-AnswersSoundly _ _ true [] tt)
        (elim_lem (AnswersSoundly _) (progress_deadline_exceeded t.workload) (found-IsSound _ _ tt)
          (λ message. found-IsSound _ _ ((refl, refl, refl), tt)))

  pub paused-Soundly : Soundly t paused
  unfolding diagnose_paused paused_finding
  paused-Soundly =
      if_lem (AnswersSoundly _) (has_no_deployment_fields t.workload)
        (or_found-AnswersSoundly _ _ true [] tt)
        (if_lem (AnswersSoundly _) (not (is_paused t.workload)) (found-IsSound _ _ tt)
          (found-IsSound _ _ ((refl, refl, refl), tt)))

  blocked_findings-AreDiagnoses :
      (update current : String) (o : Option ℤ)
      → AreDiagnoses (blocked_findings t.workload update current o)
  unfolding blocked_findings partition_finding
  blocked_findings-AreDiagnoses update current none = tt
  blocked_findings-AreDiagnoses update current (some p) =
      if_lem AreDiagnoses (leb_ℤ (replicas t.workload) p) ((refl, refl, refl), tt) tt

  pending_findings-AreDiagnoses :
      (o : Option (String × String)) → AreDiagnoses (pending_findings t.workload o)
  unfolding pending_findings on_delete_finding
  pending_findings-AreDiagnoses none = tt
  pending_findings-AreDiagnoses (some (update, current)) =
      if_lem AreDiagnoses (update == "" || update == current) tt (
        if_lem AreDiagnoses ((update_strategy t.workload).type == on_delete)
          ((refl, refl, refl), tt)
          (if_lem AreDiagnoses ((update_strategy t.workload).type == rolling_update)
            (blocked_findings-AreDiagnoses update current (update_strategy t.workload).partition)
            tt))

  pub stateful_set_update-Soundly : Soundly t stateful_set_update
  unfolding diagnose_stateful_set_update
  stateful_set_update-Soundly =
      if_lem (AnswersSoundly _) (not (kind t.workload == "StatefulSet")) (found-IsSound _ _ tt)
        (found-IsSound _ _ (pending_findings-AreDiagnoses (pending_revision_update t.workload)))
