-- ===== src/Tests/Diagnosing.antt =====
-- The theorems on the results of a tick, on restart counts and on observers, at concrete objects.
use kubectl_safe_rollout.Prelude.{
  false, not, List, [], ◌∷◌, ◌++◌, ◌≡◌, refl, map, filter, plain, ◌||◌, any,
}
use kubectl_safe_rollout.Diagnose.{Result, Target, found, skip_result}
use kubectl_safe_rollout.Diagnose.Observer.{deployment_observer}
use kubectl_safe_rollout.Diagnose.Restarts.{
  Pods, RestartKey, count_of, collect_container_restart_counts, new_restart_observations, observe,
}
use kubectl_safe_rollout.Diagnose.Restarts.Counts.{latest, rises, observe_lem}
use kubectl_safe_rollout.Diagnose.Tick.{replace_skipped_results, tick_target}
use kubectl_safe_rollout.Diagnose.Tick.Replace.{has_id, instead, replace_skipped_results_lem}
use kubectl_safe_rollout.Tests.Data.{web, cluster, low, restarted_pod}
use kubectl_safe_rollout.Tests.Observing.{failing}

abbrev skipped : List Result
skipped = skip_result "quota" (plain "forbidden") ∷ skip_result "events" (plain "forbidden") ∷ []

abbrev quota_results : List Result
quota_results = found "quota" (low ∷ []) ∷ found "paused" [] ∷ []

replace_skipped_results_lem_example :
    replace_skipped_results quota_results skipped
    ≡ map (instead skipped) quota_results
      ++ filter (λ (s : Result). not (has_id s.diagnoser_id quota_results)) skipped
unfolding skip_result
replace_skipped_results_lem_example =
    replace_skipped_results_lem quota_results skipped (refl, (refl, tt)) (refl, (refl, tt))

abbrev restarted_pods : Pods
restarted_pods = ("pod-1", restarted_pod) ∷ []

observe_lem_example :
    ((observe new_restart_observations restarted_pods).increase_observed
      ≡ (false || any (rises []) (collect_container_restart_counts restarted_pods)))
    × ((j : RestartKey)
        → count_of j (observe new_restart_observations restarted_pods).counts
          ≡ latest (count_of j (collect_container_restart_counts restarted_pods)) (count_of j []))
observe_lem_example = observe_lem new_restart_observations restarted_pods

abbrev diagnosis_target : Target
diagnosis_target = tick_target failing deployment_observer cluster [] web
