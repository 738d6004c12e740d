-- ===== src/Check/Pdb.antt =====
-- internal/check/pdb.go: the check pdb-consistency.
pub mod Allowed
pub mod Verdict
use Prim.Native.String.{◌++◌ as concat}
use kubectl_safe_rollout.Prelude.{
  String, Bool, true, false, not, List, [], ◌∷◌, ◌++◌, Option, none, some, ◌==◌, ◌&&◌,
  if◌then◌else◌, Text, plain, sprintf, wrapping, str, num, Error, errorf, error_text, Fallible, ok,
  err, Dict,
}
use kubectl_safe_rollout.Prelude.Int.{ℤ, pos, ltb_ℤ, leb_ℤ, eq_ℤ, ◌-ℤ◌, i32}
use kubectl_safe_rollout.Model.{Finding, ResourceRef, severity_high, severity_low}
use kubectl_safe_rollout.Api.{Apimachinery, IntOrString, PodDisruptionBudget}
use kubectl_safe_rollout.Workload.{kind, name, pod_labels, replicas, update_strategy, recreate}
use kubectl_safe_rollout.Cluster.{Target}
use kubectl_safe_rollout.Check.{CheckResult, skip, found}

-- `PDBCheckID`
abbrev pub pdb_check_id : String
pdb_check_id = "pdb-consistency"

-- fmt.Sprintf("%s/%s", target.Workload.Kind(), target.Workload.Name())
abbrev pub workload_ref : Target → String
workload_ref t = concat (kind t.workload) (concat "/" (name t.workload))

-- `if allowed < 0 { allowed = 0 }`
abbrev pub at_least_zero : ℤ → ℤ
at_least_zero z = if ltb_ℤ z (pos 0) then pos 0 else z

-- `allowedDisruptions`: the disruptions allowed and the field that decides them.
unfoldable pub allowed_disruptions :
    Apimachinery → Option IntOrString → Option IntOrString → ℤ → Fallible (ℤ × String)
allowed_disruptions lib (some min) max r = elim (lib.scaled_value min r true) [
  | err e ↦ err e
  | ok v ↦ ok (at_least_zero (i32 (r -ℤ i32 v)), "minAvailable")
]
allowed_disruptions lib none (some max) r = elim (lib.scaled_value max r true) [
  | err e ↦ err e
  | ok v ↦ ok (at_least_zero (i32 v), "maxUnavailable")
]
allowed_disruptions lib none none r =
    err (errorf (plain "PDB has neither minAvailable nor maxUnavailable"))

-- `pdbSpecValue`
pub pdb_spec_value : Apimachinery → Option IntOrString → Option IntOrString → String
pdb_spec_value lib (some min) max = lib.int_or_string min
pdb_spec_value lib none (some max) = lib.int_or_string max
pdb_spec_value lib none none = "<unset>"

-- Whether the loop goes on with this PodDisruptionBudget.
unfoldable pub selects : Apimachinery → Dict String → PodDisruptionBudget → Bool
selects lib labels pdb = elim (lib.as_selector pdb.selector) [
  | err e ↦ false
  | ok s ↦ s.matches labels
]

abbrev pub pdb_ref : PodDisruptionBudget → ResourceRef
pdb_ref pdb = record {
  kind = "PodDisruptionBudget";
  namespace = pdb.meta.namespace;
  name = pdb.meta.name;
}

module _ (lib : Apimachinery) (t : Target) where
  abbrev pub desired : ℤ
  desired = replicas t.workload

  pub spec_evidence : PodDisruptionBudget → String → Text
  spec_evidence pdb mode =
      sprintf "%s=%s"
        (str mode ∷ str (pdb_spec_value lib pdb.min_available pdb.max_unavailable) ∷ [])

  pub no_headroom_finding : PodDisruptionBudget → ℤ → String → Finding
  no_headroom_finding pdb allowed mode = record {
    check_id = pdb_check_id;
    severity = severity_high;
    cause =
        sprintf
          "PodDisruptionBudget %q leaves no disruption headroom (%s calculated over %d replicas): a node drain concurrent with the rollout of %s will remain blocked until the pods are ready again"
          (str pdb.meta.name ∷ str mode ∷ num desired ∷ str (workload_ref t) ∷ []);
    evidence =
        spec_evidence pdb mode
        ∷ sprintf "replicas=%d" (num desired ∷ [])
        ∷ sprintf "disruptionsAllowed=%d" (num allowed ∷ [])
        ∷ [];
    remediation = record {
      summary =
          sprintf
            "increase the PDB headroom (for example, maxUnavailable: 1 or minAvailable: %d) or increase the replicas of %s; the correct value depends on how many replicas can be lost in production"
            (num (i32 (desired -ℤ pos 1)) ∷ str (workload_ref t) ∷ []);
      commands = [];
      context_dependent = true;
    };
    resource = pdb_ref pdb;
    undetermined = false;
  }

  pub recreate_finding : PodDisruptionBudget → ℤ → String → Finding
  recreate_finding pdb allowed mode = record {
    check_id = pdb_check_id;
    severity = severity_high;
    cause =
        sprintf
          "%s uses the Recreate strategy (all pods are terminated together), but PodDisruptionBudget %q allows only %d disruptions out of %d replicas: node maintenance during the rollout would still be blocked"
          (str (workload_ref t) ∷ str pdb.meta.name ∷ num allowed ∷ num desired ∷ []);
    evidence =
        plain "strategy=Recreate"
        ∷ spec_evidence pdb mode
        ∷ sprintf "disruptionsAllowed=%d" (num allowed ∷ [])
        ∷ [];
    remediation = record {
      summary =
          sprintf
            "switch %s to the RollingUpdate strategy, or widen the PDB to maxUnavailable equal to the total replicas if Recreate is a deliberate choice"
            (str (workload_ref t) ∷ []);
      commands = [];
      context_dependent = true;
    };
    resource = pdb_ref pdb;
    undetermined = false;
  }

  -- The body of the loop, from the answer of `allowedDisruptions` on: what it appends.
  unfoldable pub judge : PodDisruptionBudget → Fallible (ℤ × String) → List Finding
  judge pdb (err e) = []
  judge pdb (ok (allowed, mode)) =
      if leb_ℤ allowed (pos 0)
      then no_headroom_finding pdb allowed mode ∷ []
      else (if (update_strategy t.workload).type == recreate && ltb_ℤ allowed desired
          then recreate_finding pdb allowed mode ∷ []
          else [])

  -- The body of the loop, for a PodDisruptionBudget that selects the pods.
  unfoldable pub pdb_findings : PodDisruptionBudget → List Finding
  pdb_findings pdb =
      judge pdb (allowed_disruptions lib pdb.min_available pdb.max_unavailable desired)

  -- The loop, with `findings` and `matchedPDB`.
  pub scan : List Finding × Bool → List PodDisruptionBudget → List Finding × Bool
  scan acc [] = acc
  scan (fs, matched) (pdb ∷ pdbs) =
      scan
        (if selects lib (pod_labels t.workload) pdb
          then (fs ++ pdb_findings pdb, true)
          else (fs, matched))
        pdbs

  -- `noPDBRemediationSummary`
  no_pdb_remediation_summary : Text
  no_pdb_remediation_summary =
      if kind t.workload == "DaemonSet"
      then sprintf
          "add a PodDisruptionBudget selecting %s's pods using an integer minAvailable (for example minAvailable: 1); DaemonSet pods have no /scale subresource, so maxUnavailable (in any form) or a percentage minAvailable would leave the PDB permanently unable to compute disruptionsAllowed (see pdb-daemonset-scale) — the right integer value depends on how many replicas can be lost in production"
          (str (workload_ref t) ∷ [])
      else sprintf
          "add a PodDisruptionBudget selecting %s's pods (for example maxUnavailable: 1) to bound how many replicas a concurrent drain can take at once; the right value depends on how many replicas can be lost in production"
          (str (workload_ref t) ∷ [])

  pub no_pdb_finding : Finding
  no_pdb_finding = record {
    check_id = pdb_check_id;
    severity = severity_low;
    cause =
        sprintf
          "%s has %d replicas but no PodDisruptionBudget selects its pods: a node drain concurrent with the rollout could terminate more than one replica at once, with nothing to stop it"
          (str (workload_ref t) ∷ num desired ∷ []);
    evidence =
        sprintf "replicas=%d" (num desired ∷ []) ∷ plain "matchingPodDisruptionBudgets=0" ∷ [];
    remediation = record {
      summary = no_pdb_remediation_summary;
      commands = [];
      context_dependent = true;
    };
    resource = record { kind = kind t.workload; namespace = t.namespace; name = name t.workload };
    undetermined = false;
  }

  -- `PDBConsistency.Run`
  pub run_pdb_consistency : Fallible CheckResult
  run_pdb_consistency = elim (t.client.list_pod_disruption_budgets t.namespace) [
    | err e ↦ ok (
        skip pdb_check_id
          (wrapping "PodDisruptionBudget list is not accessible: %v" [] (error_text e)))
    | ok pdbs ↦
        if eq_ℤ desired (pos 0)
        then ok (found pdb_check_id [])
        else (let (fs, matched) = scan ([], false) pdbs in
            ok (
              found pdb_check_id
                (if not matched && ltb_ℤ (pos 1) desired then fs ++ no_pdb_finding ∷ [] else fs)))
  ]
