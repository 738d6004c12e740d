-- ===== src/Tests/Namespaces.antt =====
-- The theorems on the checks of quotas and network policies, at a concrete target.
use kubectl_safe_rollout.Prelude.{
  not, ◌&&◌, List, [], all, some, ◌∷◌, ◌≡◌, refl, ok, filter, is_empty, if◌then◌else◌,
}
use kubectl_safe_rollout.Check.{CheckResult, found}
use kubectl_safe_rollout.Check.NetworkPolicies.{
  shuts, denies, unreachable_finding, run_network_policy_ingress, network_policy_ingress_check_id,
  run_network_policy_ingress-denies,
}
use kubectl_safe_rollout.Check.QuotaObjectCount.{run_quota_object_count}
use kubectl_safe_rollout.Check.QuotaObjectCount.Blocked.{Answers, run_quota_object_count-Answers}
use kubectl_safe_rollout.Prelude.Int.{pos, i32}
use kubectl_safe_rollout.Model.{Finding}
use kubectl_safe_rollout.Api.{int_value}
use kubectl_safe_rollout.Workload.{update_strategy, rolling_update, pod_requests}
use kubectl_safe_rollout.Cluster.{Target}
use kubectl_safe_rollout.Check.QuotaHeadroom.{quota_headroom_check_id, run_quota_headroom}
use kubectl_safe_rollout.Check.QuotaHeadroom.Fits.{fits, run_quota_headroom-fits}
use kubectl_safe_rollout.Api.{StatefulSet}
use kubectl_safe_rollout.Api.{int_value}
use kubectl_safe_rollout.Workload.{from_stateful_set}
use kubectl_safe_rollout.Check.StorageClasses.{run_storage_class_exists}
use kubectl_safe_rollout.Check.StorageClasses.Uncached.{
  first_unread, missing_class, conclude, run_storage_class_exists-conclude,
}
use kubectl_safe_rollout.Prelude.{flat_map}
use kubectl_safe_rollout.Tests.Specs.{database_set}
use kubectl_safe_rollout.Tests.Data.{library, check_target, surging, full_quota, deny_all}

abbrev surging_target : Target
surging_target = record check_target { workload = surging }

surging_rolls :
    ((update_strategy surging).type ≡ rolling_update)
    × ((update_strategy surging).max_surge ≡ some (int_value (pos 1)))
unfolding update_strategy
surging_rolls = (refl, refl)

run_quota_headroom-fits_example :
    (fs : List Finding) × (run_quota_headroom library surging_target
      ≡ ok (found quota_headroom_check_id fs))
    × (is_empty fs
        ≡ all (fits library (i32 (pos 1)) (pod_requests library surging)) (full_quota ∷ []))
run_quota_headroom-fits_example =
    run_quota_headroom-fits library surging_target (full_quota ∷ []) (int_value (pos 1)) (pos 1)
      refl surging_rolls.0 surging_rolls.1 refl refl

run_quota_object_count-Answers_example :
    (r : CheckResult) × (run_quota_object_count library check_target ≡ ok r)
    × Answers library check_target [] (full_quota ∷ []) r
run_quota_object_count-Answers_example =
    run_quota_object_count-Answers library check_target (full_quota ∷ []) refl

run_network_policy_ingress-denies_example :
    run_network_policy_ingress library check_target
    ≡ ok (
        found network_policy_ingress_check_id (
          if not (is_empty (filter (shuts library check_target) (deny_all ∷ [])))
            && denies library check_target (deny_all ∷ [])
          then unreachable_finding library check_target
              (filter (shuts library check_target) (deny_all ∷ []))
            ∷ []
          else []))
run_network_policy_ingress-denies_example =
    run_network_policy_ingress-denies library check_target (deny_all ∷ []) refl

-- A StatefulSet with two claim templates of one class.
abbrev stored_set : StatefulSet
stored_set = record database_set {
  spec = record database_set.spec {
    volume_claim_templates =
        record { name = "data"; storage_class_name = some "fast" }
        ∷ record { name = "log"; storage_class_name = some "fast" }
        ∷ [];
  };
}

abbrev stored_target : Target
stored_target = record check_target { workload = from_stateful_set stored_set }

run_storage_class_exists-conclude_example :
    run_storage_class_exists stored_target
    ≡ ok (
        conclude
          (first_unread stored_target stored_set.spec.volume_claim_templates)
          (flat_map (missing_class stored_target) stored_set.spec.volume_claim_templates))
run_storage_class_exists-conclude_example = run_storage_class_exists-conclude stored_target
