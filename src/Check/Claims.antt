-- ===== src/Check/Claims.antt =====
-- internal/check/pvc.go: whether the claims that the volumes of the pod template name exist.
use kubectl_safe_rollout.Prelude.{
  String, true, false, List, [], ◌∷◌, ◌++◌, Option, none, some, ◌==◌, if◌then◌else◌, any, sprintf,
  wrapping, str, error_text, is_not_found, Fallible, ok, err, is_empty,
}
use kubectl_safe_rollout.Model.{Finding, severity_high}
use kubectl_safe_rollout.Workload.{volumes}
use kubectl_safe_rollout.Cluster.{Target}
use kubectl_safe_rollout.Check.{CheckResult, skip, found}
use kubectl_safe_rollout.Check.Pdb.{workload_ref}

abbrev pub pvc_exists_check_id : String
pvc_exists_check_id = "pvc-exists"

-- `pvcVolumeNames`
unfoldable pub pvc_volume_names : List (Option String) → List String
pvc_volume_names [] = []
pvc_volume_names (none ∷ vs) = pvc_volume_names vs
pvc_volume_names (some n ∷ vs) =
    let rest : List String = pvc_volume_names vs in if n == "" then rest else n ∷ rest

module _ (t : Target) where
  unfoldable pub missing_claim : String → Finding
  missing_claim n = record {
    check_id = pvc_exists_check_id;
    severity = severity_high;
    cause =
        sprintf
          "%s references PersistentVolumeClaim %q, which does not exist in namespace %q: the kubelet cannot mount this volume"
          (str (workload_ref t) ∷ str n ∷ str t.namespace ∷ []);
    evidence = sprintf "persistentVolumeClaim=%s" (str n ∷ []) ∷ [];
    remediation = record {
      summary =
          sprintf
            "create PersistentVolumeClaim %q in namespace %q, or correct the claimName referenced in the pod template"
            (str n ∷ str t.namespace ∷ []);
      commands = sprintf "kubectl get pvc %s -n %s" (str n ∷ str t.namespace ∷ []) ∷ [];
      context_dependent = true;
    };
    resource = record { kind = "PersistentVolumeClaim"; namespace = t.namespace; name = n };
    undetermined = false;
  }

  -- The switch on the error of a Get: the findings of a claim, or the error that ends the loop.
  abbrev pub read_claim : String → Fallible String → Fallible (List Finding)
  read_claim n (ok phase) = ok []
  read_claim n (err e) = if is_not_found e then ok (missing_claim n ∷ []) else err e

  -- The loop over the names, with the names seen.
  unfoldable pub judge_claims : List String → List Finding → List String → CheckResult
  judge_claims seen fs [] = found pvc_exists_check_id fs
  judge_claims seen fs (n ∷ ns) = elim (any (λ s. s == n) seen) [
    | true ↦ judge_claims seen fs ns
    | false ↦ elim (read_claim n (t.client.get_claim_phase t.namespace n)) [
      | err e ↦
          skip pvc_exists_check_id
            (wrapping "failed to read PersistentVolumeClaim %q: %v" (str n ∷ []) (error_text e))
      | ok new ↦ judge_claims (n ∷ seen) (fs ++ new) ns
    ]
  ]

  -- `PVCExists.Run`
  unfoldable pub run_pvc_exists : Fallible CheckResult
  run_pvc_exists =
      let names : List String = pvc_volume_names (volumes t.workload) in
      ok (if is_empty names then found pvc_exists_check_id [] else judge_claims [] [] names)
