-- ===== src/Tests/Specs.antt =====
-- The theorems on the diagnosers of the spec and on pdb-daemonset-scale, at concrete objects.
use kubectl_safe_rollout.Prelude.{
  false, List, [], ◌∷◌, ◌≡◌, refl, ◌↔◌, none, some, is_empty, map, filter, ok, ◌==◌,
}
use kubectl_safe_rollout.Prelude.Int.{pos, eq_ℤ, ◌-ℤ◌, i32}
use kubectl_safe_rollout.Model.{Finding}
use kubectl_safe_rollout.Api.{StatefulSet, DaemonSet, PodDisruptionBudget, str_value}
use kubectl_safe_rollout.Workload.{
  Workload, from_stateful_set, from_daemon_set, replicas, pod_labels, rollout_complete,
  update_strategy, recreate,
}
use kubectl_safe_rollout.Cluster.{Cluster, Target as CheckTarget}
use kubectl_safe_rollout.Check.{found as reports}
use kubectl_safe_rollout.Check.Pdb.Verdict.{headline}
use kubectl_safe_rollout.Check.Pdb.{selects, allowed_disruptions}
use kubectl_safe_rollout.Check.PdbEviction.{pdb_eviction_blocked_check_id, run_pdb_eviction_blocked}
use kubectl_safe_rollout.Check.PdbEviction.Blocked.{
  owed_evictions, run_pdb_eviction_blocked-owed, fact_b_finding-pdb_findings,
}
use kubectl_safe_rollout.Check.PdbDaemonset.{pdb_daemonset_scale_check_id, run_pdb_daemonset_scale}
use kubectl_safe_rollout.Check.PdbDaemonset.Unverifiable.{
  verdict, is_reported, run_pdb_daemonset_scale-verdict,
}
use kubectl_safe_rollout.Diagnose.{Target, found}
use kubectl_safe_rollout.Diagnose.Spec.{
  diagnose_paused, diagnose_progress_deadline, diagnose_stateful_set_update,
  stateful_set_update_diagnoser_id,
}
use kubectl_safe_rollout.Diagnose.Spec.Stuck.{IsStuck, diagnose_stateful_set_update-IsStuck}
use kubectl_safe_rollout.Diagnose.Spec.Held.{
  Classifies, is_deployment, spec_paused, deadline_passed, diagnose_paused-Classifies,
  diagnose_progress_deadline-Classifies,
}
use kubectl_safe_rollout.Check.Pdb.{pdb_findings}
use kubectl_safe_rollout.Check.PdbEviction.{fact_b_finding, live_findings}
use kubectl_safe_rollout.Prelude.{is_empty}
use kubectl_safe_rollout.Tests.Data.{library, web, web_deployment, cluster, strict_pdb}

abbrev pub database_set : StatefulSet
database_set = record {
  meta = record web_deployment.meta { name = "db" };
  spec = record {
    replicas = some (pos 3);
    selector = none;
    template = web_deployment.spec.template;
    strategy_type = "OnDelete";
    rolling_update = none;
    volume_claim_templates = [];
  };
  status = record {
    observed_generation = pos 3;
    ready_replicas = pos 3;
    updated_replicas = pos 0;
    current_revision = "db-1";
    update_revision = "db-2";
  };
}

abbrev agent_set : DaemonSet
agent_set = record {
  meta = record web_deployment.meta { name = "agent" };
  spec = record {
    selector = none;
    template = web_deployment.spec.template;
    strategy_type = "";
    rolling_update = none;
  };
  status = record {
    observed_generation = pos 3;
    desired_number_scheduled = pos 5;
    updated_number_scheduled = pos 5;
    number_available = pos 5;
  };
}

abbrev about_workload : Workload → Target
about_workload w = record {
  namespace = "shop";
  workload = w;
  client = cluster;
  pods = [];
  pod_creation_sources = [];
  events_by_uid = [];
  log_tailer = none;
}

abbrev database : Target
database = about_workload (from_stateful_set database_set)

diagnose_stateful_set_update-IsStuck_example :
    (fs : List Finding) × (diagnose_stateful_set_update database
      ≡ ok (found stateful_set_update_diagnoser_id fs))
    × ((is_empty fs ≡ false) ↔ IsStuck database.workload)
diagnose_stateful_set_update-IsStuck_example = diagnose_stateful_set_update-IsStuck database

diagnose_paused-Classifies_example :
    Classifies (diagnose_paused (about_workload web)) (is_deployment web) (spec_paused web)
diagnose_paused-Classifies_example = diagnose_paused-Classifies (about_workload web)

diagnose_progress_deadline-Classifies_example :
    Classifies
      (diagnose_progress_deadline (about_workload web))
      (is_deployment web)
      (deadline_passed web)
diagnose_progress_deadline-Classifies_example =
    diagnose_progress_deadline-Classifies (about_workload web)

abbrev half_pdb : PodDisruptionBudget
half_pdb = record strict_pdb { min_available = some (str_value "50%") }

abbrev two_budgets : Cluster
two_budgets = record cluster { list_pod_disruption_budgets = λ ns. ok (strict_pdb ∷ half_pdb ∷ []) }

abbrev agent : CheckTarget
agent = record { namespace = "shop"; workload = from_daemon_set agent_set; client = two_budgets }

agents_run : eq_ℤ (replicas agent.workload) (pos 0) ≡ false
unfolding replicas
agents_run = refl

run_pdb_daemonset_scale-verdict_example :
    (fs : List Finding) × (run_pdb_daemonset_scale library agent
      ≡ ok (reports pdb_daemonset_scale_check_id fs))
    × (map headline fs
        ≡ map verdict (filter (is_reported library agent) (strict_pdb ∷ half_pdb ∷ [])))
run_pdb_daemonset_scale-verdict_example =
    run_pdb_daemonset_scale-verdict library agent (strict_pdb ∷ half_pdb ∷ []) refl agents_run refl

abbrev two_pdbs : CheckTarget
two_pdbs = record { namespace = "shop"; workload = web; client = two_budgets }

web_runs : eq_ℤ (replicas two_pdbs.workload) (pos 0) ≡ false
unfolding replicas
web_runs = refl

run_pdb_eviction_blocked-owed_example :
    (fs : List Finding) × (run_pdb_eviction_blocked library two_pdbs
      ≡ ok (reports pdb_eviction_blocked_check_id fs))
    × (map headline fs
        ≡ owed_evictions library two_pdbs
            (filter (selects library (pod_labels two_pdbs.workload)) (strict_pdb ∷ half_pdb ∷ [])))
run_pdb_eviction_blocked-owed_example =
    run_pdb_eviction_blocked-owed library two_pdbs (strict_pdb ∷ half_pdb ∷ []) web_runs refl

half_blocked : is_empty (fact_b_finding library two_pdbs half_pdb) ≡ false
unfolding fact_b_finding live_findings rollout_complete allowed_disruptions replicas ◌-ℤ◌ i32
half_blocked = refl

web_rolls : ((update_strategy two_pdbs.workload).type == recreate) ≡ false
unfolding update_strategy
web_rolls = refl

fact_b_finding-pdb_findings_example : pdb_findings library two_pdbs half_pdb ≡ []
fact_b_finding-pdb_findings_example =
    fact_b_finding-pdb_findings library two_pdbs half_pdb half_blocked web_rolls
