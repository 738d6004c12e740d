-- ===== src/Cluster.antt =====
-- What the API server answers to the program's reads, at one instant, and the target of a check.
use kubectl_safe_rollout.Prelude.{String, Bool, List, Option, Fallible}
use kubectl_safe_rollout.Prelude.Int.{ℤ}
use kubectl_safe_rollout.Api.{
  ObjectMeta, Deployment, StatefulSet, DaemonSet, PodDisruptionBudget, ResourceQuota,
  HorizontalPodAutoscaler, NetworkPolicy,
}
use kubectl_safe_rollout.Workload.{Workload}

-- corev1.ContainerStateWaiting
pub record Waiting : Type 0 where
  pub reason : String
  pub message : String

-- corev1.ContainerStateTerminated
pub record Terminated : Type 0 where
  pub exit_code : ℤ
  pub reason : String

-- corev1.ContainerStatus: the three pointers of its State, and LastTerminationState.Terminated.
pub record ContainerStatus : Type 0 where
  pub name : String
  pub image : String
  pub ready : Bool
  pub restart_count : ℤ
  pub waiting : Option Waiting
  pub is_running : Bool
  pub terminated : Option Terminated
  pub last_terminated : Option Terminated

-- corev1.Volume, with the claim that it names, if it is a claim.
pub record Volume : Type 0 where
  pub name : String
  pub claim_name : Option String

-- corev1.Pod
pub record Pod : Type 0 where
  pub name : String
  pub namespace : String
  pub uid : String
  pub phase : String
  pub volumes : List Volume
  pub container_statuses : List ContainerStatus
  pub init_container_statuses : List ContainerStatus

-- corev1.Event
pub record Event : Type 0 where
  pub involved_uid : String
  pub type : String
  pub reason : String
  pub message : String
  pub count : ℤ

-- appsv1.ReplicaSet, with the UIDs of its owner references.
pub record ReplicaSet : Type 0 where
  pub meta : ObjectMeta
  pub owner_uids : List String

-- kubernetes.Interface: the reads that the modelled code makes.
pub record Cluster : Type 0 where
  pub get_deployment : String → String → Fallible Deployment
  pub get_stateful_set : String → String → Fallible StatefulSet
  pub get_daemon_set : String → String → Fallible DaemonSet
  pub list_pod_disruption_budgets : String → Fallible (List PodDisruptionBudget)
  pub list_replica_sets : String → String → Fallible (List ReplicaSet)
  pub list_events : String → Fallible (List Event)
  pub list_pods : String → String → Fallible (List Pod)
  -- The phase of a PersistentVolumeClaim.
  pub get_claim_phase : String → String → Fallible String
  -- Whether a ServiceAccount and a PriorityClass can be read.
  pub get_service_account : String → String → Fallible (Unit {0})
  pub get_priority_class : String → Fallible (Unit {0})
  pub get_storage_class : String → Fallible (Unit {0})
  pub list_resource_quotas : String → Fallible (List ResourceQuota)
  pub list_horizontal_pod_autoscalers : String → Fallible (List HorizontalPodAutoscaler)
  pub list_network_policies : String → Fallible (List NetworkPolicy)

-- `Target` of internal/check
pub record Target : Type 0 where
  pub namespace : String
  pub workload : Workload
  pub client : Cluster
