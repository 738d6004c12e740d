-- ===== src/Workload.antt =====
-- internal/workload: the three supported controllers behind the interface `Workload`. The type has
-- a constructor for each implementation; a method of the interface is a function by clauses.
pub mod Rollout
pub mod Requests
pub mod Strategy
use kubectl_safe_rollout.Prelude.{
  String, Bool, true, false, not, List, [], ◌∷◌, Option, none, some, ◌==◌, ◌&&◌, if◌then◌else◌,
  Fallible, Dict, lookup, insert,
}
use kubectl_safe_rollout.Prelude.Int.{ℤ, pos, ltb_ℤ, leb_ℤ, ◌-ℤ◌, i32}
use kubectl_safe_rollout.Api.{
  IntOrString, int_value, str_value, Quantity, Selector, LabelSelector, Apimachinery, ResourceList,
  Container, PodTemplate, ObjectMeta, Condition, RollingUpdate, RollingUpdateStatefulSet,
  ClaimTemplate, Deployment, StatefulSet, DaemonSet,
}

-- `Workload`, with FromDeployment, FromStatefulSet and FromDaemonSet as constructors.
pub data Workload : Type 0 where
  from_deployment : Deployment → Workload
  from_stateful_set : StatefulSet → Workload
  from_daemon_set : DaemonSet → Workload

-- `UpdateStrategy`
pub record UpdateStrategy : Type 0 where
  pub type : String
  pub max_unavailable : Option IntOrString
  pub max_surge : Option IntOrString
  pub partition : Option ℤ

abbrev pub recreate : String
recreate = "Recreate"

abbrev pub rolling_update : String
rolling_update = "RollingUpdate"

abbrev pub on_delete : String
on_delete = "OnDelete"

abbrev pub kind : Workload → String
kind (from_deployment d) = "Deployment"
kind (from_stateful_set s) = "StatefulSet"
kind (from_daemon_set d) = "DaemonSet"

abbrev pub meta : Workload → ObjectMeta
meta (from_deployment d) = d.meta
meta (from_stateful_set s) = s.meta
meta (from_daemon_set d) = d.meta

-- `Name`, `Namespace`, `UID`
abbrev pub name : Workload → String
name w = (meta w).name

abbrev pub namespace : Workload → String
namespace w = (meta w).namespace

abbrev pub uid : Workload → String
uid w = (meta w).uid

abbrev or_one : Option ℤ → ℤ
or_one none = pos 1
or_one (some n) = n

-- `Replicas`
unfoldable pub replicas : Workload → ℤ
replicas (from_deployment d) = or_one d.spec.replicas
replicas (from_stateful_set s) = or_one s.spec.replicas
replicas (from_daemon_set d) = d.status.desired_number_scheduled

-- `PodTemplate`
abbrev pub pod_template : Workload → PodTemplate
pod_template (from_deployment d) = d.spec.template
pod_template (from_stateful_set s) = s.spec.template
pod_template (from_daemon_set d) = d.spec.template

-- `PodLabels`, `PodContainers`, `InitContainers`
abbrev pub pod_labels : Workload → Dict String
pod_labels w = (pod_template w).labels

abbrev pub pod_containers : Workload → List Container
pod_containers w = (pod_template w).containers

abbrev pub init_containers : Workload → List Container
init_containers w = (pod_template w).init_containers

-- `ServiceAccountName`, `PriorityClassName`
abbrev pub service_account_name : Workload → String
service_account_name w = (pod_template w).service_account_name

abbrev pub priority_class_name : Workload → String
priority_class_name w = (pod_template w).priority_class_name

-- `Volumes`
abbrev pub volumes : Workload → List (Option String)
volumes w = (pod_template w).volumes

-- `VolumeClaimTemplates`
abbrev pub volume_claim_templates : Workload → List ClaimTemplate
volume_claim_templates (from_deployment d) = []
volume_claim_templates (from_stateful_set s) = s.spec.volume_claim_templates
volume_claim_templates (from_daemon_set d) = []

-- `PodSelector`
unfoldable pub pod_selector : Apimachinery → Workload → Fallible Selector
pod_selector lib (from_deployment d) = lib.as_selector d.spec.selector
pod_selector lib (from_stateful_set s) = lib.as_selector s.spec.selector
pod_selector lib (from_daemon_set d) = lib.as_selector d.spec.selector

abbrev pub or_default : {A : Type 0} → Option A → A → A
or_default none d = d
or_default (some a) d = a

-- `spec.updateStrategy.rollingUpdate.partition`, where both are set.
abbrev pub partition_of : Option RollingUpdateStatefulSet → Option ℤ
partition_of none = none
partition_of (some r) = r.partition

-- The strategy of a controller whose rolling update has a default for both fields.
surging_strategy : Option RollingUpdate → IntOrString → IntOrString → UpdateStrategy
surging_strategy ru unavailable surge = record {
  type = rolling_update;
  max_unavailable =
      some (elim ru [ none ↦ unavailable | some r ↦ or_default r.max_unavailable unavailable ]);
  max_surge = some (elim ru [ none ↦ surge | some r ↦ or_default r.max_surge surge ]);
  partition = none;
}

bare_strategy : String → UpdateStrategy
bare_strategy t = record { type = t; max_unavailable = none; max_surge = none; partition = none }

-- The strategy type, with the default of an unset field.
abbrev pub strategy_type_or_default : String → String
strategy_type_or_default t = if t == "" then rolling_update else t

-- `UpdateStrategy` of the three controllers
unfoldable pub update_strategy : Workload → UpdateStrategy
unfolding surging_strategy bare_strategy
update_strategy (from_deployment d) =
    if strategy_type_or_default d.spec.strategy_type == recreate
    then bare_strategy recreate
    else surging_strategy d.spec.rolling_update (str_value "25%") (str_value "25%")
update_strategy (from_stateful_set s) =
    if strategy_type_or_default s.spec.strategy_type == on_delete
    then bare_strategy on_delete
    else record {
      type = rolling_update;
      max_unavailable = elim s.spec.rolling_update [ none ↦ none | some r ↦ r.max_unavailable ];
      max_surge = none;
      partition = partition_of s.spec.rolling_update;
    }
update_strategy (from_daemon_set d) =
    if strategy_type_or_default d.spec.strategy_type == on_delete
    then bare_strategy on_delete
    else surging_strategy d.spec.rolling_update (int_value (pos 1)) (int_value (pos 0))

-- The inner loop of `PodRequests`: a missing entry counts as the zero quantity.
pub add_requests : Apimachinery → ResourceList → ResourceList → ResourceList
add_requests lib total [] = total
add_requests lib total ((res, qty) ∷ requests) =
    add_requests lib
      (insert res
        (lib.add (or_default (lookup res total) (record { amount = pos 0; format = "" })) qty)
        total)
      requests

-- The outer loop of `PodRequests`.
pub add_containers : Apimachinery → ResourceList → List Container → ResourceList
add_containers lib total [] = total
add_containers lib total (c ∷ cs) = add_containers lib (add_requests lib total c.requests) cs

-- `PodRequests`
unfoldable pub pod_requests : Apimachinery → Workload → ResourceList
pod_requests lib w = add_containers lib [] (pod_containers w)

-- The end of `RolloutComplete` of a StatefulSet under RollingUpdate.
unfoldable pub rolling_update_done : StatefulSet → Option ℤ → Bool
unfolding replicas
rolling_update_done s none = s.status.update_revision == s.status.current_revision
rolling_update_done s (some p) =
    leb_ℤ (i32 (replicas (from_stateful_set s) -ℤ p)) s.status.updated_replicas

-- `RolloutComplete`
unfoldable pub rollout_complete : Workload → Bool
unfolding replicas
rollout_complete (from_deployment d) =
    let desired = replicas (from_deployment d) in
    if ltb_ℤ d.status.observed_generation d.meta.generation
    then false
    else (if ltb_ℤ d.status.updated_replicas desired
        then false
        else (if ltb_ℤ d.status.updated_replicas d.status.replicas
            then false
            else (if ltb_ℤ d.status.available_replicas d.status.updated_replicas
                then false
                else true)))
rollout_complete (from_stateful_set s) =
    let desired = replicas (from_stateful_set s) in
    if ltb_ℤ s.status.observed_generation s.meta.generation
    then false
    else (if ltb_ℤ s.status.ready_replicas desired
        then false
        else (if strategy_type_or_default s.spec.strategy_type == on_delete
            then true
            else rolling_update_done s (partition_of s.spec.rolling_update)))
rollout_complete (from_daemon_set d) =
    let desired = d.status.desired_number_scheduled in
    if ltb_ℤ d.status.observed_generation d.meta.generation
    then false
    else (if ltb_ℤ d.status.updated_number_scheduled desired
        then false
        else (if ltb_ℤ d.status.number_available desired then false else true))

-- The message of the first "Progressing" condition with the reason.
unfoldable pub progressing_message : String → List Condition → Option String
progressing_message reason [] = none
progressing_message reason (c ∷ cs) =
    if c.type == "Progressing" && c.reason == reason
    then some c.message
    else progressing_message reason cs

-- `ProgressDeadlineExceeded`
unfoldable pub progress_deadline_exceeded : Workload → Option String
progress_deadline_exceeded (from_deployment d) =
    progressing_message "ProgressDeadlineExceeded" d.status.conditions
progress_deadline_exceeded (from_stateful_set s) = none
progress_deadline_exceeded (from_daemon_set d) = none

-- `ReplicaSetCreateError`
unfoldable pub replica_set_create_error : Workload → Option String
replica_set_create_error (from_deployment d) =
    progressing_message "ReplicaSetCreateError" d.status.conditions
replica_set_create_error (from_stateful_set s) = none
replica_set_create_error (from_daemon_set d) = none

-- `Paused`
unfoldable pub is_paused : Workload → Bool
is_paused (from_deployment d) = d.spec.paused
is_paused (from_stateful_set s) = false
is_paused (from_daemon_set d) = false

-- `PendingRevisionUpdate`: the update revision and the current revision.
unfoldable pub pending_revision_update : Workload → Option (String × String)
pending_revision_update (from_deployment d) = none
pending_revision_update (from_stateful_set s) =
    some (s.status.update_revision, s.status.current_revision)
pending_revision_update (from_daemon_set d) = none

-- `DesiredCount`
unfoldable pub desired_count : Workload → ℤ × Bool
unfolding replicas
desired_count (from_deployment d) =
    (replicas (from_deployment d), leb_ℤ d.meta.generation d.status.observed_generation)
desired_count (from_stateful_set s) =
    (replicas (from_stateful_set s), leb_ℤ s.meta.generation s.status.observed_generation)
desired_count (from_daemon_set d) =
    (d.status.desired_number_scheduled, leb_ℤ d.meta.generation d.status.observed_generation)
