-- ===== src/Check/PdbEviction.antt =====
-- internal/check/pdbeviction.go: the check pdb-eviction-blocked.
pub mod Blocked
use Prim.Native.String.{◌++◌ as concat}
use kubectl_safe_rollout.Prelude.{
  ℕ, String, Bool, true, false, not, List, [], ◌∷◌, ◌++◌, Option, none, some, length, is_empty, map,
  filter, ◌==◌, ◌&&◌, if◌then◌else◌, Text, plain, sprintf, wrapping, str, num, error_text, Fallible,
  ok, err,
}
use kubectl_safe_rollout.Prelude.Int.{ℤ, pos, eq_ℤ, leb_ℤ}
use kubectl_safe_rollout.Model.{Finding, severity_high, severity_medium}
use kubectl_safe_rollout.Api.{Apimachinery, PodDisruptionBudget}
use kubectl_safe_rollout.Workload.{kind, name, pod_labels, replicas, rollout_complete}
use kubectl_safe_rollout.Cluster.{Target}
use kubectl_safe_rollout.Check.{CheckResult, skip, found}
use kubectl_safe_rollout.Check.Pdb.{
  workload_ref, selects, pdb_ref, allowed_disruptions, pdb_spec_value,
}

abbrev pub pdb_eviction_blocked_check_id : String
pdb_eviction_blocked_check_id = "pdb-eviction-blocked"

-- strings.Join
pub join : String → List String → String
join sep [] = ""
join sep (x ∷ []) = x
join sep (x ∷ y ∷ ys) = concat x (concat sep (join sep (y ∷ ys)))

module _ (lib : Apimachinery) (t : Target) where
  -- `factAFinding`
  pub fact_a_finding : List PodDisruptionBudget → Finding
  fact_a_finding matched =
      let names : List String = map (λ (pdb : PodDisruptionBudget). pdb.meta.name) matched in
      let joined : String = join ", " names in
      record {
        check_id = pdb_eviction_blocked_check_id;
        severity = severity_high;
        cause =
            sprintf
              "%d PodDisruptionBudgets (%s) match %s's pods: the eviction subresource does not support more than one matching PodDisruptionBudget per pod and rejects every eviction attempt with \"This pod has more than one PodDisruptionBudget, which the eviction subresource does not support.\" — a node drain, cluster-autoscaler scale-down, or descheduler action against any of these pods will fail permanently, independent of how generous either budget is"
              (num (pos (length matched)) ∷ str joined ∷ str (workload_ref t) ∷ []);
        evidence = sprintf "matchingPodDisruptionBudgets=%s" (str joined ∷ []) ∷ [];
        remediation = record {
          summary =
              sprintf
                "make the selectors of %s disjoint, or delete one of them, so that at most one PodDisruptionBudget matches %s's pods; widening either budget does not fix this, the eviction subresource rejects the request regardless of the allowed disruption count"
                (str joined ∷ str (workload_ref t) ∷ []);
          commands =
              sprintf "kubectl get pdb %s -n %s" (str (join " " names) ∷ str t.namespace ∷ []) ∷ [];
          context_dependent = true;
        };
        resource = record {
          kind = kind t.workload;
          namespace = t.namespace;
          name = name t.workload;
        };
        undetermined = false;
      }

  pub live_finding : PodDisruptionBudget → ℤ → String → Finding
  live_finding pdb allowed mode = record {
    check_id = pdb_eviction_blocked_check_id;
    severity = severity_medium;
    cause =
        sprintf
          "PodDisruptionBudget %q selecting %s's pods reports disruptionsAllowed=0 live, even though its %s=%s over %d replicas should leave headroom: currentHealthy=%d, desiredHealthy=%d, expectedPods=%d — a node drain, cluster-autoscaler scale-down, or descheduler action against these pods is blocked right now for a reason the budget's spec alone does not show (an unready pod, or a PDB whose selector also covers pods from another controller)"
          (str pdb.meta.name
            ∷ str (workload_ref t)
            ∷ str mode
            ∷ str (pdb_spec_value lib pdb.min_available pdb.max_unavailable)
            ∷ num (replicas t.workload)
            ∷ num pdb.current_healthy
            ∷ num pdb.desired_healthy
            ∷ num pdb.expected_pods
            ∷ []);
    evidence =
        sprintf "%s=%s"
          (str mode ∷ str (pdb_spec_value lib pdb.min_available pdb.max_unavailable) ∷ [])
        ∷ sprintf "specAllowedDisruptions=%d" (num allowed ∷ [])
        ∷ sprintf "status.disruptionsAllowed=%d" (num pdb.disruptions_allowed ∷ [])
        ∷ sprintf "status.currentHealthy=%d" (num pdb.current_healthy ∷ [])
        ∷ sprintf "status.desiredHealthy=%d" (num pdb.desired_healthy ∷ [])
        ∷ sprintf "status.expectedPods=%d" (num pdb.expected_pods ∷ [])
        ∷ [];
    remediation = record {
      summary =
          sprintf
            "inspect PodDisruptionBudget %q's live status: compare currentHealthy/desiredHealthy/expectedPods against %s's actual pods to find the unready pod or the other controller sharing this PDB's selector; the Spec alone predicts headroom, so the cause is live cluster state, not the budget's configuration"
            (str pdb.meta.name ∷ str (workload_ref t) ∷ []);
      commands =
          sprintf "kubectl get pdb %s -n %s -o jsonpath='{.status}'"
            (str pdb.meta.name ∷ str t.namespace ∷ [])
          ∷ [];
      context_dependent = true;
    };
    resource = pdb_ref pdb;
    undetermined = false;
  }

  -- The end of `factBFinding`, given the answer of `allowedDisruptions`.
  unfoldable pub live_findings : PodDisruptionBudget → Fallible (ℤ × String) → List Finding
  live_findings pdb (err e) = []
  live_findings pdb (ok (allowed, mode)) =
      if leb_ℤ allowed (pos 0) then [] else live_finding pdb allowed mode ∷ []

  -- `factBFinding`: no finding, or one.
  unfoldable pub fact_b_finding : PodDisruptionBudget → List Finding
  fact_b_finding pdb =
      if not (eq_ℤ pdb.observed_generation pdb.meta.generation)
      then []
      else (if not (eq_ℤ pdb.disruptions_allowed (pos 0))
          then []
          else (if not (is_empty pdb.disrupted_pods)
              then []
              else (if not (rollout_complete t.workload)
                  then []
                  else live_findings pdb (
                      allowed_disruptions lib pdb.min_available pdb.max_unavailable
                        (replicas t.workload)))))

  -- The switch on the number of budgets that match.
  pub matched_findings : List PodDisruptionBudget → List Finding
  matched_findings [] = []
  matched_findings (pdb ∷ []) = fact_b_finding pdb
  matched_findings (p ∷ q ∷ pdbs) = fact_a_finding (p ∷ q ∷ pdbs) ∷ []

  -- The loop that collects `matched`.
  pub matching : List PodDisruptionBudget → List PodDisruptionBudget → List PodDisruptionBudget
  matching acc [] = acc
  matching acc (pdb ∷ pdbs) =
      matching (if not (selects lib (pod_labels t.workload) pdb) then acc else acc ++ pdb ∷ []) pdbs

  pub judge_evictions : Fallible (List PodDisruptionBudget) → CheckResult
  judge_evictions (err e) =
      skip pdb_eviction_blocked_check_id
        (wrapping "PodDisruptionBudget list is not accessible: %v" [] (error_text e))
  judge_evictions (ok pdbs) =
      found pdb_eviction_blocked_check_id (matched_findings (matching [] pdbs))

  -- `PDBEvictionBlocked.Run`
  pub run_pdb_eviction_blocked : Fallible CheckResult
  run_pdb_eviction_blocked =
      if eq_ℤ (replicas t.workload) (pos 0)
      then ok (found pdb_eviction_blocked_check_id [])
      else ok (judge_evictions (t.client.list_pod_disruption_budgets t.namespace))
