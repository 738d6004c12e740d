-- ===== src/Api.antt =====
-- The objects of the Kubernetes API that the program reads, with the fields that the modelled code
-- uses, and the functions of k8s.io/apimachinery that it calls, as a record of parameters.
use kubectl_safe_rollout.Prelude.{ℕ, String, Bool, List, Option, Fallible, Dict}
use kubectl_safe_rollout.Prelude.Int.{ℤ}

-- intstr.IntOrString
pub data IntOrString : Type 0 where
  int_value : ℤ → IntOrString
  str_value : String → IntOrString

-- resource.Quantity: an amount in the smallest unit, and the format in which it prints.
pub record Quantity : Type 0 where
  pub amount : ℤ
  pub format : String

-- metav1.LabelSelectorRequirement and metav1.LabelSelector
pub record Requirement : Type 0 where
  pub key : String
  pub operator : String
  pub values : List String

pub record LabelSelector : Type 0 where
  pub match_labels : Dict String
  pub match_expressions : List Requirement

-- labels.Selector
pub record Selector : Type 0 where
  pub matches : Dict String → Bool
  pub to_string : String

-- The functions of k8s.io/apimachinery.
pub record Apimachinery : Type 0 where
  -- metav1.LabelSelectorAsSelector
  pub as_selector : Option LabelSelector → Fallible Selector
  -- intstr.GetScaledValueFromIntOrPercent
  pub scaled_value : IntOrString → ℤ → Bool → Fallible ℤ
  -- IntOrString.String
  pub int_or_string : IntOrString → String
  -- Quantity.Add
  pub add : Quantity → Quantity → Quantity
  -- Quantity.String
  pub quantity_string : Quantity → String
  -- Quantity.Value and Quantity.MilliValue
  pub value : Quantity → ℤ
  pub milli_value : Quantity → ℤ
  -- Quantity.Sub, on a copy
  pub sub : Quantity → Quantity → Quantity
  -- resource.NewMilliQuantity
  pub new_milli_quantity : ℤ → String → Quantity

-- corev1.ResourceList
abbrev pub ResourceList : Type 0
ResourceList = Dict Quantity

-- corev1.Container
pub record Container : Type 0 where
  pub name : String
  pub requests : ResourceList
  pub limits : ResourceList
  pub has_readiness_probe : Bool
  pub has_liveness_probe : Bool

-- corev1.PodTemplateSpec
-- The claim of each volume, where it is of a claim, stands for the volumes.
pub record PodTemplate : Type 0 where
  pub labels : Dict String
  pub containers : List Container
  pub init_containers : List Container
  pub image_pull_secrets : List String
  pub service_account_name : String
  pub priority_class_name : String
  pub node_selector : Dict String
  pub scheduler_name : String
  pub volumes : List (Option String)

-- metav1.ObjectMeta
pub record ObjectMeta : Type 0 where
  pub name : String
  pub namespace : String
  pub uid : String
  pub generation : ℤ
  pub resource_version : String

-- A condition of a status.
pub record Condition : Type 0 where
  pub type : String
  pub status : String
  pub reason : String
  pub message : String

-- appsv1.RollingUpdateDeployment, and appsv1.RollingUpdateDaemonSet, which has the same fields.
pub record RollingUpdate : Type 0 where
  pub max_unavailable : Option IntOrString
  pub max_surge : Option IntOrString

-- appsv1.Deployment
pub record DeploymentSpec : Type 0 where
  pub replicas : Option ℤ
  pub selector : Option LabelSelector
  pub template : PodTemplate
  pub strategy_type : String
  pub rolling_update : Option RollingUpdate
  pub paused : Bool

pub record DeploymentStatus : Type 0 where
  pub observed_generation : ℤ
  pub replicas : ℤ
  pub updated_replicas : ℤ
  pub available_replicas : ℤ
  pub conditions : List Condition

pub record Deployment : Type 0 where
  pub meta : ObjectMeta
  pub spec : DeploymentSpec
  pub status : DeploymentStatus

-- A claim of volumeClaimTemplates: its name and spec.storageClassName.
pub record ClaimTemplate : Type 0 where
  pub name : String
  pub storage_class_name : Option String

-- appsv1.StatefulSet
pub record RollingUpdateStatefulSet : Type 0 where
  pub max_unavailable : Option IntOrString
  pub partition : Option ℤ

pub record StatefulSetSpec : Type 0 where
  pub replicas : Option ℤ
  pub selector : Option LabelSelector
  pub template : PodTemplate
  pub strategy_type : String
  pub rolling_update : Option RollingUpdateStatefulSet
  pub volume_claim_templates : List ClaimTemplate

pub record StatefulSetStatus : Type 0 where
  pub observed_generation : ℤ
  pub ready_replicas : ℤ
  pub updated_replicas : ℤ
  pub current_revision : String
  pub update_revision : String

pub record StatefulSet : Type 0 where
  pub meta : ObjectMeta
  pub spec : StatefulSetSpec
  pub status : StatefulSetStatus

-- appsv1.DaemonSet
pub record DaemonSetSpec : Type 0 where
  pub selector : Option LabelSelector
  pub template : PodTemplate
  pub strategy_type : String
  pub rolling_update : Option RollingUpdate

pub record DaemonSetStatus : Type 0 where
  pub observed_generation : ℤ
  pub desired_number_scheduled : ℤ
  pub updated_number_scheduled : ℤ
  pub number_available : ℤ

pub record DaemonSet : Type 0 where
  pub meta : ObjectMeta
  pub spec : DaemonSetSpec
  pub status : DaemonSetStatus

-- policyv1.PodDisruptionBudget
pub record PodDisruptionBudget : Type 0 where
  pub meta : ObjectMeta
  pub selector : Option LabelSelector
  pub min_available : Option IntOrString
  pub max_unavailable : Option IntOrString
  pub conditions : List Condition
  pub observed_generation : ℤ
  pub disruptions_allowed : ℤ
  pub current_healthy : ℤ
  pub desired_healthy : ℤ
  pub expected_pods : ℤ
  -- The names of the pods in status.disruptedPods.
  pub disrupted_pods : List String

-- corev1.ResourceQuota: its scopes, the requirements of its scope selector, and its status.
pub record ResourceQuota : Type 0 where
  pub meta : ObjectMeta
  pub scopes : List String
  pub scope_selector : Option (List Requirement)
  pub hard : ResourceList
  pub used : ResourceList

-- networkingv1.NetworkPolicy, with the number of its ingress rules.
pub record NetworkPolicy : Type 0 where
  pub meta : ObjectMeta
  pub pod_selector : LabelSelector
  pub policy_types : List String
  pub ingress_rules : ℕ

-- autoscalingv2.HorizontalPodAutoscaler, with the kind and the name of its target.
pub record HorizontalPodAutoscaler : Type 0 where
  pub meta : ObjectMeta
  pub target_kind : String
  pub target_name : String
  pub max_replicas : ℤ
