-- ===== src/Tests/Causes.antt =====
-- The theorems on single diagnosers, on messages and on references, at concrete states.
use kubectl_safe_rollout.Prelude.{
  map, ◌++◌, ◌+◌, String, true, [], ◌∷◌, ◌≡◌, refl, ◌⊎◌, ◌↔◌, none, some, ok, is_some, is_empty,
  length, filter, All,
}
use kubectl_safe_rollout.Prelude.Int.{pos}
use kubectl_safe_rollout.Workload.{from_deployment}
use kubectl_safe_rollout.Cluster.{Event}
use kubectl_safe_rollout.Diagnose.{Target, PodCreationSource}
use kubectl_safe_rollout.Diagnose.Pattern.{service_account_missing}
use kubectl_safe_rollout.Diagnose.Pattern.Objects.{Names, service_account_missing-Names}
use kubectl_safe_rollout.Diagnose.Pods.Crash.{has_liveness_killing, classify_crash}
use kubectl_safe_rollout.Diagnose.Pods.Crash.Priority.{cause_of, classify_crash-cause_of}
use kubectl_safe_rollout.Diagnose.Quota.{no_rejections, collect_rejections, rejection_findings}
use kubectl_safe_rollout.Diagnose.Quota.Evidence.{
  is_rejection, by_quota, by_account, by_neither, lines, collect_rejections-lines,
}
use kubectl_safe_rollout.Diagnose.Quota.Capped.{
  cause_lines, owed_for, IsShort, rejection_findings-IsShort,
}
use kubectl_safe_rollout.Diagnose.Spec.{diagnose_progress_deadline}
use kubectl_safe_rollout.Diagnose.ReplicaSetCreate.{diagnose_replica_set_create}
use kubectl_safe_rollout.Diagnose.ReplicaSetCreate.Exclusive.{
  HasNoFindings, diagnose_replica_set_create-diagnose_progress_deadline,
}
use kubectl_safe_rollout.Resolve.{resolve_workload}
use kubectl_safe_rollout.Resolve.Names.{IsRef}
use kubectl_safe_rollout.Resolve.Kinds.{HasKind, ReadsAs, resolve_workload_iff}
use kubectl_safe_rollout.Tests.Data.{web, cluster, late_deployment, restarted_pod, crashed, pulled}

abbrev late_target : Target
late_target = record {
  namespace = "shop";
  workload = from_deployment late_deployment;
  client = cluster;
  pods = restarted_pod ∷ [];
  pod_creation_sources = [];
  events_by_uid = ("pod-1", pulled ∷ []) ∷ [];
  log_tailer = none;
}

classify_crash-cause_of_example :
    (classify_crash late_target restarted_pod crashed).check_id
    ≡ cause_of (has_liveness_killing late_target restarted_pod crashed) crashed.last_terminated
classify_crash-cause_of_example = classify_crash-cause_of late_target restarted_pod crashed

diagnose_replica_set_create-diagnose_progress_deadline_example :
    HasNoFindings (diagnose_replica_set_create late_target)
    ⊎ HasNoFindings (diagnose_progress_deadline late_target)
diagnose_replica_set_create-diagnose_progress_deadline_example =
    diagnose_replica_set_create-diagnose_progress_deadline late_target ((λ e. refl), tt)

abbrev rejected : Event
rejected = record {
  involved_uid = "rs-1";
  type = "Warning";
  reason = "FailedCreate";
  message = "pods is forbidden: exceeded quota: compute";
  count = pos 1;
}

abbrev source : PodCreationSource
source = record { kind = "ReplicaSet"; namespace = "shop"; name = "web-1"; uid = "rs-1" }

collect_rejections-lines_example :
    ((collect_rejections no_rejections (rejected ∷ pulled ∷ [])).exceeded
      ≡ lines by_quota (rejected ∷ pulled ∷ []))
    × ((collect_rejections no_rejections (rejected ∷ pulled ∷ [])).missing_account_evidence
        ≡ lines by_account (rejected ∷ pulled ∷ []))
    × ((collect_rejections no_rejections (rejected ∷ pulled ∷ [])).undetermined
        ≡ lines by_neither (rejected ∷ pulled ∷ []))
    × (length (filter is_rejection (rejected ∷ pulled ∷ []))
        ≡ length (collect_rejections no_rejections (rejected ∷ pulled ∷ [])).exceeded
          + (length
                (collect_rejections no_rejections (rejected ∷ pulled ∷ [])).missing_account_evidence
              + length (collect_rejections no_rejections (rejected ∷ pulled ∷ [])).undetermined))
collect_rejections-lines_example = collect_rejections-lines (rejected ∷ pulled ∷ [])

rejection_findings-IsShort_example :
    (is_empty (rejection_findings source (collect_rejections no_rejections (rejected ∷ [])))
      ≡ is_empty (filter is_rejection (rejected ∷ [])))
    × (map cause_lines
          (rejection_findings source (collect_rejections no_rejections (rejected ∷ [])))
        ≡ owed_for "quota-exceeded" by_quota (rejected ∷ [])
          ++ (owed_for "serviceaccount-missing" by_account (rejected ∷ [])
              ++ owed_for "quota-undetermined" by_neither (rejected ∷ [])))
    × All IsShort (rejection_findings source (collect_rejections no_rejections (rejected ∷ [])))
rejection_findings-IsShort_example = rejection_findings-IsShort source (rejected ∷ [])

abbrev no_account : String
no_account =
    "forbidden: error looking up service account shop/web: serviceaccount \"web\" not found"

service_account_missing-Names_example :
    ((n : String) → service_account_missing no_account ≡ some n → Names no_account n)
    × ((n : String) → Names no_account n → is_some (service_account_missing no_account) ≡ true)
service_account_missing-Names_example = service_account_missing-Names no_account

resolve_workload_iff_example : (resolve_workload cluster "shop" "Deploy/web" ≡ ok web) ↔ (
    (kind : String) × (n : String) × IsRef "Deploy/web" kind n
    × HasKind kind web
    × ReadsAs cluster "shop" n web)
resolve_workload_iff_example = resolve_workload_iff cluster "shop" "Deploy/web" web
