-- ===== src/Tests/Checking.antt =====
-- The theorems on workloads and on the check pdb-consistency, at concrete objects.
use kubectl_safe_rollout.Prelude.{
  ℕ, ◌-◌, ◌*◌, ◌+◌, ◌≤◌, ◌<◌, true, false, List, [], ◌∷◌, ◌≡◌, refl, ◌↔◌, none, some, arith, map,
  ok, lookup,
}
use kubectl_safe_rollout.Prelude.Int.{pos, ◌≤ℤ◌, IsInt32, eq_ℤ}
use kubectl_safe_rollout.Model.{Finding}
use kubectl_safe_rollout.Api.{int_value, str_value}
use kubectl_safe_rollout.Workload.{
  replicas, rollout_complete, update_strategy, desired_count, pod_containers, pod_requests,
}
use kubectl_safe_rollout.Workload.Rollout.{IsRolledOut, rollout_complete_iff}
use kubectl_safe_rollout.Workload.Strategy.{
  IsNormal, available, update_strategy-IsNormal, rollout_complete-desired_count,
}
use kubectl_safe_rollout.Workload.Requests.{requested, lookup-pod_requests}
use kubectl_safe_rollout.Check.{found}
use kubectl_safe_rollout.Check.Pdb.{pdb_check_id, allowed_disruptions, desired, run_pdb_consistency}
use kubectl_safe_rollout.Check.Pdb.Allowed.{
  allowed_disruptions_bounds, min_int_allows, min_percent_allows,
}
use kubectl_safe_rollout.Check.Pdb.Verdict.{headline, owed, run_pdb_consistency-owed}
use kubectl_safe_rollout.Tests.Data.{
  library, percent_of, library-ScalesUp, web, check_target, strict_pdb,
}

rollout_complete_iff_example : (rollout_complete web ≡ true) ↔ IsRolledOut web
rollout_complete_iff_example = rollout_complete_iff web

web_complete : rollout_complete web ≡ true
unfolding rollout_complete
web_complete = refl

rollout_complete-desired_count_example :
    (desired_count web ≡ (replicas web, true)) × (replicas web ≤ℤ available web)
rollout_complete-desired_count_example = rollout_complete-desired_count web web_complete

update_strategy-IsNormal_example : IsNormal web (update_strategy web)
update_strategy-IsNormal_example = update_strategy-IsNormal web

lookup-pod_requests_example :
    lookup "cpu" (pod_requests library web) ≡ requested library "cpu" none (pod_containers web)
lookup-pod_requests_example = lookup-pod_requests library "cpu" web ((refl, tt), ((refl, tt), tt))

strict_allows :
    allowed_disruptions library (some (int_value (pos 4))) none (pos 4) ≡ ok (pos 0, "minAvailable")
strict_allows =
    min_int_allows library percent_of library-ScalesUp 4 4 none (omega arith) (omega arith)

allowed_disruptions_bounds_example : (pos 0 ≤ℤ pos 0) × IsInt32 (pos 0)
allowed_disruptions_bounds_example =
    allowed_disruptions_bounds library (some (int_value (pos 4))) none (pos 4) strict_allows

min_percent_allows_example :
    (a : ℕ) × (allowed_disruptions library (some (str_value "50%")) none (pos 5)
      ≡ ok (pos a, "minAvailable"))
    × (a ≤ 5)
    × (50 * 5 ≤ 100 * (5 - a))
    × (100 * (5 - a) < 50 * 5 + 100)
min_percent_allows_example =
    min_percent_allows library percent_of library-ScalesUp "50%" 50 5 none refl (omega arith)
      (omega arith)

is_running : eq_ℤ (desired library check_target) (pos 0) ≡ false
unfolding replicas
is_running = refl

run_pdb_consistency-owed_example :
    (fs : List Finding) × (run_pdb_consistency library check_target ≡ ok (found pdb_check_id fs))
    × (map headline fs ≡ owed library check_target (strict_pdb ∷ []))
run_pdb_consistency-owed_example =
    run_pdb_consistency-owed library check_target (strict_pdb ∷ []) refl is_running
