-- ===== src/Check/StorageClasses.antt =====
-- internal/check/storageclass.go: whether the storage classes that the volume claim templates name exist.
pub mod Uncached
use kubectl_safe_rollout.Prelude.{
  String, Bool, true, false, List, [], ◌∷◌, ◌++◌, Option, none, some, ◌==◌, if◌then◌else◌, sprintf,
  wrapping, str, error_text, is_not_found, Error, Fallible, ok, err, Dict, lookup, insert, is_empty,
}
use kubectl_safe_rollout.Model.{Finding, severity_high}
use kubectl_safe_rollout.Api.{ClaimTemplate}
use kubectl_safe_rollout.Workload.{volume_claim_templates}
use kubectl_safe_rollout.Cluster.{Target}
use kubectl_safe_rollout.Check.{CheckResult, skip, found}
use kubectl_safe_rollout.Check.Pdb.{workload_ref}

abbrev pub storage_class_exists_check_id : String
storage_class_exists_check_id = "storageclass-exists"

-- The class that a template names, if it names one.
abbrev pub named_class : Option String → Option String
named_class none = none
named_class (some n) = if n == "" then none else some n

-- The switch on the error of a Get.
abbrev pub class_exists : Fallible (Unit {0}) → Fallible Bool
class_exists (ok u) = ok true
class_exists (err e) = if is_not_found e then ok false else err e

module _ (t : Target) where
  unfoldable pub missing_storage_class : ClaimTemplate → String → Finding
  missing_storage_class v n = record {
    check_id = storage_class_exists_check_id;
    severity = severity_high;
    cause =
        sprintf
          "%s's volumeClaimTemplate %q references StorageClass %q, which does not exist: the PersistentVolumeClaim the controller creates for each pod ordinal has nothing to dynamically provision from"
          (str (workload_ref t) ∷ str v.name ∷ str n ∷ []);
    evidence = sprintf "volumeClaimTemplate=%s storageClassName=%s" (str v.name ∷ str n ∷ []) ∷ [];
    remediation = record {
      summary =
          sprintf
            "create StorageClass %q, or correct volumeClaimTemplate %q's storageClassName if the name is wrong"
            (str n ∷ str v.name ∷ []);
      commands =
          sprintf "kubectl get storageclass %s" (str n ∷ [])
          ∷ sprintf "kubectl get storageclasses" []
          ∷ [];
      context_dependent = true;
    };
    resource = record { kind = "StorageClass"; namespace = ""; name = n };
    undetermined = false;
  }

  abbrev pub unread_class : String → Error → CheckResult
  unread_class n e =
      skip storage_class_exists_check_id
        (wrapping "failed to read StorageClass %q: %v" (str n ∷ []) (error_text e))

  -- What the loop knows of a class: what it remembers, or what a Get answers.
  abbrev pub resolve_class : Dict Bool → String → Fallible Bool
  resolve_class resolved n = elim (lookup n resolved) [
    | none ↦ class_exists (t.client.get_storage_class n)
    | some b ↦ ok b
  ]

  -- `resolved[*name] = exists`, where the name was not there.
  abbrev pub remember : Dict Bool → String → Bool → Dict Bool
  remember resolved n b = elim (lookup n resolved) [
    | none ↦ insert n b resolved
    | some c ↦ resolved
  ]

  -- The loop over the templates.
  unfoldable pub judge_templates : Dict Bool → List Finding → List ClaimTemplate → CheckResult
  judge_templates resolved fs [] = found storage_class_exists_check_id fs
  judge_templates resolved fs (v ∷ vs) = elim (named_class v.storage_class_name) [
    | none ↦ judge_templates resolved fs vs
    | some n ↦ elim (resolve_class resolved n) [
      | err e ↦ unread_class n e
      | ok b ↦
          judge_templates (remember resolved n b)
            (if b then fs else fs ++ missing_storage_class v n ∷ []) vs
    ]
  ]

  -- `StorageClassExists.Run`
  unfoldable pub run_storage_class_exists : Fallible CheckResult
  run_storage_class_exists =
      let vs : List ClaimTemplate = volume_claim_templates t.workload in
      ok (if is_empty vs then found storage_class_exists_check_id [] else judge_templates [] [] vs)
