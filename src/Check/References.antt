-- ===== src/Check/References.antt =====
-- internal/check/serviceaccount.go and priorityclass.go: whether the objects that the pod template names
-- exist.
use kubectl_safe_rollout.Prelude.{
  String, Bool, true, false, [], ◌∷◌, ◌==◌, ◌||◌, if◌then◌else◌, sprintf, wrapping, str, error_text,
  is_not_found, Fallible, ok, err,
}
use kubectl_safe_rollout.Model.{Finding, severity_high}
use kubectl_safe_rollout.Workload.{service_account_name, priority_class_name}
use kubectl_safe_rollout.Cluster.{Target}
use kubectl_safe_rollout.Check.{CheckResult, skip, found}
use kubectl_safe_rollout.Check.Pdb.{workload_ref}

abbrev pub service_account_exists_check_id : String
service_account_exists_check_id = "serviceaccount-exists"

abbrev pub priority_class_exists_check_id : String
priority_class_exists_check_id = "priorityclass-exists"

-- The switch on the error of a Get, given the finding of a missing object and the format of the others.
abbrev pub judge_read : String → Finding → String → String → Fallible (Unit {0}) → CheckResult
judge_read id missing f n (ok u) = found id []
judge_read id missing f n (err e) =
    if is_not_found e
    then found id (missing ∷ [])
    else skip id (wrapping f (str n ∷ []) (error_text e))

-- `name == "default"` where the template names none.
abbrev pub account_or_default : String → String
account_or_default n = if n == "" then "default" else n

unfoldable pub missing_service_account : Target → String → Finding
missing_service_account t n = record {
  check_id = service_account_exists_check_id;
  severity = severity_high;
  cause =
      sprintf
        "%s references ServiceAccount %q, which does not exist in namespace %q: the ReplicaSet controller will be unable to create any Pod"
        (str (workload_ref t) ∷ str n ∷ str t.namespace ∷ []);
  evidence = sprintf "serviceAccount=%s" (str n ∷ []) ∷ [];
  remediation = record {
    summary =
        sprintf
          "create ServiceAccount %q in namespace %q, or correct %s's serviceAccountName if the name is wrong"
          (str n ∷ str t.namespace ∷ str (workload_ref t) ∷ []);
    commands = sprintf "kubectl get serviceaccount %s -n %s" (str n ∷ str t.namespace ∷ []) ∷ [];
    context_dependent = true;
  };
  resource = record { kind = "ServiceAccount"; namespace = t.namespace; name = n };
  undetermined = false;
}

-- `ServiceAccountExists.Run`
unfoldable pub run_service_account_exists : Target → Fallible CheckResult
run_service_account_exists t =
    let n : String = account_or_default (service_account_name t.workload) in
    ok (
      judge_read service_account_exists_check_id (missing_service_account t n)
        "failed to read ServiceAccount %q: %v" n (t.client.get_service_account t.namespace n))

unfoldable pub missing_priority_class : Target → String → Finding
missing_priority_class t n = record {
  check_id = priority_class_exists_check_id;
  severity = severity_high;
  cause =
      sprintf
        "%s references PriorityClass %q, which does not exist: the pod template's declared priority cannot be applied"
        (str (workload_ref t) ∷ str n ∷ []);
  evidence = sprintf "priorityClassName=%s" (str n ∷ []) ∷ [];
  remediation = record {
    summary =
        sprintf "create PriorityClass %q, or correct %s's priorityClassName if the name is wrong"
          (str n ∷ str (workload_ref t) ∷ []);
    commands = sprintf "kubectl get priorityclass %s" (str n ∷ []) ∷ [];
    context_dependent = true;
  };
  resource = record { kind = "PriorityClass"; namespace = ""; name = n };
  undetermined = false;
}

-- A priority class that needs no object.
abbrev pub needs_no_class : String → Bool
needs_no_class n = n == "" || (n == "system-node-critical" || n == "system-cluster-critical")

-- `PriorityClassExists.Run`
unfoldable pub run_priority_class_exists : Target → Fallible CheckResult
run_priority_class_exists t =
    let n : String = priority_class_name t.workload in
    if needs_no_class n
    then ok (found priority_class_exists_check_id [])
    else ok (
        judge_read priority_class_exists_check_id (missing_priority_class t n)
          "failed to read PriorityClass %q: %v" n (t.client.get_priority_class n))
