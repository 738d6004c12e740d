-- ===== src/Check/PdbDaemonset.antt =====
-- internal/check/pdbdaemonset.go: the check pdb-daemonset-scale.
pub mod Unverifiable
use kubectl_safe_rollout.Prelude.{
  String, Bool, true, false, not, List, [], ◌∷◌, ◌++◌, Option, none, some, ◌==◌, ◌&&◌,
  if◌then◌else◌, Text, plain, sprintf, wrapping, str, num, error_text, Fallible, ok, err,
}
use kubectl_safe_rollout.Prelude.Int.{ℤ, pos, eq_ℤ}
use kubectl_safe_rollout.Model.{Severity, Finding, severity_high, severity_medium}
use kubectl_safe_rollout.Api.{
  Apimachinery, IntOrString, int_value, str_value, PodDisruptionBudget, Condition,
}
use kubectl_safe_rollout.Workload.{kind, pod_labels, replicas}
use kubectl_safe_rollout.Cluster.{Target}
use kubectl_safe_rollout.Check.{CheckResult, skip, found}
use kubectl_safe_rollout.Check.Pdb.{workload_ref, selects, pdb_ref}

abbrev pub pdb_daemonset_scale_check_id : String
pdb_daemonset_scale_check_id = "pdb-daemonset-scale"

-- `pdbDaemonsetUnverifiableForm`: the field and its value, where the form cannot be evaluated.
unfoldable pub pdb_daemonset_unverifiable_form :
    Apimachinery → Option IntOrString → Option IntOrString → Option (String × String)
pdb_daemonset_unverifiable_form lib min (some max) = some ("maxUnavailable", lib.int_or_string max)
pdb_daemonset_unverifiable_form lib (some (str_value s)) none =
    some ("minAvailable", lib.int_or_string (str_value s))
pdb_daemonset_unverifiable_form lib _ none = none

-- `pdbDaemonsetSeverity`, over the conditions of the status.
unfoldable pub pdb_daemonset_severity : List Condition → Severity × List Text
pdb_daemonset_severity [] = (
  severity_medium,
  plain
        "disruptionAllowedCondition=absent (controller has not reconciled this PodDisruptionBudget yet)"
      ∷ [],
)
pdb_daemonset_severity (c ∷ cs) =
    let rest = pdb_daemonset_severity cs in
    if not (c.type == "DisruptionAllowed")
    then rest
    else (if c.status == "False" && c.reason == "SyncFailed"
        then (
          severity_high,
          sprintf "disruptionAllowedCondition=%s/%s" (str c.status ∷ str c.reason ∷ []) ∷ [],
        )
        else (
          severity_medium,
          sprintf "disruptionAllowedCondition=%s/%s" (str c.status ∷ str c.reason ∷ []) ∷ [],
        ))

module _ (lib : Apimachinery) (t : Target) where
  pub unverifiable_finding : PodDisruptionBudget → String → String → Severity × List Text → Finding
  unverifiable_finding pdb mode value (severity, condition_evidence) = record {
    check_id = pdb_daemonset_scale_check_id;
    severity = severity;
    cause =
        sprintf
          "PodDisruptionBudget %q selects %s's pods and sets %s=%s, but DaemonSet pods have no /scale subresource: the disruption controller cannot compute the owning controller's scale for them, so it fails the sync and permanently reports disruptionsAllowed=0 with condition DisruptionAllowed=False/SyncFailed — an integer minAvailable is the only form this controller can evaluate for a DaemonSet-selecting PDB"
          (str pdb.meta.name ∷ str (workload_ref t) ∷ str mode ∷ str value ∷ []);
    evidence =
        (sprintf "%s=%s" (str mode ∷ str value ∷ [])
          ∷ sprintf "desiredNumberScheduled=%d" (num (replicas t.workload) ∷ [])
          ∷ [])
        ++ condition_evidence;
    remediation = record {
      summary =
          sprintf
            "the only form of PodDisruptionBudget %q's spec this controller can evaluate for a DaemonSet is an integer minAvailable (e.g. minAvailable: 1); maxUnavailable in any form, and minAvailable expressed as a percentage, are not evaluable for DaemonSet pods, which have no /scale subresource"
            (str pdb.meta.name ∷ []);
      commands =
          sprintf "kubectl get pdb %s -n %s -o jsonpath='{.status.conditions}'"
            (str pdb.meta.name ∷ str t.namespace ∷ [])
          ∷ [];
      context_dependent = true;
    };
    resource = pdb_ref pdb;
    undetermined = false;
  }

  -- The body of the loop, for a budget that selects the pods, given the form of its spec.
  pub judge_form : PodDisruptionBudget → Option (String × String) → List Finding
  judge_form pdb none = []
  judge_form pdb (some (mode, value)) =
      unverifiable_finding pdb mode value (pdb_daemonset_severity pdb.conditions) ∷ []

  -- The loop over the budgets.
  pub scan_forms : List Finding → List PodDisruptionBudget → List Finding
  scan_forms fs [] = fs
  scan_forms fs (pdb ∷ pdbs) =
      scan_forms
        (if not (selects lib (pod_labels t.workload) pdb)
          then fs
          else fs
            ++ judge_form pdb
                (pdb_daemonset_unverifiable_form lib pdb.min_available pdb.max_unavailable))
        pdbs

  pub judge_list : Fallible (List PodDisruptionBudget) → CheckResult
  judge_list (err e) =
      skip pdb_daemonset_scale_check_id
        (wrapping "PodDisruptionBudget list is not accessible: %v" [] (error_text e))
  judge_list (ok pdbs) = found pdb_daemonset_scale_check_id (scan_forms [] pdbs)

  -- `PDBDaemonsetScale.Run`
  pub run_pdb_daemonset_scale : Fallible CheckResult
  run_pdb_daemonset_scale =
      if not (kind t.workload == "DaemonSet")
      then ok (found pdb_daemonset_scale_check_id [])
      else (if eq_ℤ (replicas t.workload) (pos 0)
          then ok (found pdb_daemonset_scale_check_id [])
          else ok (judge_list (t.client.list_pod_disruption_budgets t.namespace)))
