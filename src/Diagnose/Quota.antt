-- ===== src/Diagnose/Quota.antt =====
-- internal/diagnose/quota.go: rejected creations of pods.
pub mod Evidence
pub mod Capped
use kubectl_safe_rollout.Prelude.{
  ℕ, zero, suc, ◌-◌, String, Bool, true, false, not, List, [], ◌∷◌, ◌++◌, Option, none, some, ◌==◌,
  ◌||◌, if◌then◌else◌, leb, Text, plain, sprintf, str, num, Fallible, ok, flat_map, length, is_some,
  is_empty, to_lower,
}
use kubectl_safe_rollout.Prelude.Int.{ℤ, pos, ltb_ℤ}
use kubectl_safe_rollout.Model.{Finding, ResourceRef, ref_string}
use kubectl_safe_rollout.Workload.{
  Workload, kind, name, namespace, uid, progress_deadline_exceeded, replica_set_create_error,
}
use kubectl_safe_rollout.Cluster.{Event}
use kubectl_safe_rollout.Diagnose.{
  Target, Result, Diagnoser, PodCreationSource, skip_result, found, events_of,
}
use kubectl_safe_rollout.Diagnose.Pattern.{quota_exceeded, service_account_missing}
use kubectl_safe_rollout.Diagnose.Spec.{has_no_deployment_fields, workload_resource}
use kubectl_safe_rollout.Diagnose.Tick.{quota_diagnoser_id}
use kubectl_safe_rollout.Diagnose.Pods.{advice, high_finding, event_line}

abbrev pub max_quota_evidence : ℕ
max_quota_evidence = 3

-- `evidence[:n]`, where n is at most the length.
abbrev pub take {ℓ} : {A : Type ℓ} → ℕ → List A → List A
take zero xs = []
take (suc n) [] = []
take (suc n) (x ∷ xs) = x ∷ take n xs

-- `capEvidence`
unfoldable pub cap_evidence : List Text → List Text
cap_evidence evidence =
    if leb (length evidence) max_quota_evidence
    then evidence
    else (take max_quota_evidence evidence
        ++ sprintf "... and %d more rejections with the same cause"
            (num (pos (length evidence - max_quota_evidence)) ∷ [])
          ∷ [])

-- What the loop over the events of a source collects.
pub record Rejections : Type 0 where
  pub exceeded : List Text
  pub undetermined : List Text
  pub missing_account : String
  pub missing_account_evidence : List Text

abbrev pub no_rejections : Rejections
no_rejections = record {
  exceeded = [];
  undetermined = [];
  missing_account = "";
  missing_account_evidence = [];
}

-- The switch of the loop, given what ServiceAccountMissing answers.
abbrev pub add_other : Rejections → Event → Option String → Rejections
add_other r e none = record r { undetermined = r.undetermined ++ event_line e ∷ [] }
add_other r e (some name) = record r {
  missing_account = name;
  missing_account_evidence = r.missing_account_evidence ++ event_line e ∷ [];
}

abbrev pub add_rejection : Rejections → Event → Rejections
add_rejection r e =
    if not (e.reason == "FailedCreate")
    then r
    else (if quota_exceeded e.message
        then record r { exceeded = r.exceeded ++ event_line e ∷ [] }
        else add_other r e (service_account_missing e.message))

-- The loop over the events of a source.
unfoldable pub collect_rejections : Rejections → List Event → Rejections
collect_rejections r [] = r
collect_rejections r (e ∷ es) = collect_rejections (add_rejection r e) es

abbrev pub source_resource : PodCreationSource → ResourceRef
source_resource s = record { kind = s.kind; namespace = s.namespace; name = s.name }

abbrev pub exceeded_finding : PodCreationSource → List Text → Finding
exceeded_finding s evidence =
    high_finding "quota-exceeded"
      (sprintf "%s cannot create pods: the namespace ResourceQuota is exhausted"
        (str (ref_string (source_resource s)) ∷ []))
      (cap_evidence evidence)
      (advice
        (plain
          "increase the namespace ResourceQuota, reduce workload requests, or free capacity by terminating other workloads; the correct choice depends on what the namespace hosts and who has authority over it")
        (sprintf "kubectl describe resourcequota -n %s" (str s.namespace ∷ []) ∷ []))
      (source_resource s) false

abbrev pub missing_account_finding : PodCreationSource → String → List Text → Finding
missing_account_finding s account evidence =
    high_finding "serviceaccount-missing"
      (sprintf
        "%s cannot create pods: the pod template references ServiceAccount %q, which does not exist in namespace %q"
        (str (ref_string (source_resource s)) ∷ str account ∷ str s.namespace ∷ []))
      (cap_evidence evidence)
      (advice
        (sprintf
          "verify whether ServiceAccount %q should exist in namespace %q, or the pod template should reference a different one"
          (str account ∷ str s.namespace ∷ []))
        (sprintf "kubectl get serviceaccount %s -n %s" (str account ∷ str s.namespace ∷ []) ∷ []))
      (source_resource s) false

abbrev pub undetermined_finding : PodCreationSource → List Text → Finding
undetermined_finding s evidence =
    high_finding "quota-undetermined"
      (sprintf
        "%s cannot create pods, but the event message does not mention an exceeded ResourceQuota or a missing ServiceAccount"
        (str (ref_string (source_resource s)) ∷ []))
      (cap_evidence evidence)
      (advice
        (plain
          "read the full FailedCreate event message: it may be an admission webhook or another constraint")
        (sprintf "kubectl describe %s %s -n %s"
            (str (to_lower s.kind) ∷ str s.name ∷ str s.namespace ∷ [])
          ∷ []))
      (source_resource s) true

-- `if len(evidence) > 0 { findings = append(findings, f) }`
abbrev pub if_any : List Text → Finding → List Finding
if_any evidence f = if is_empty evidence then [] else f ∷ []

-- The findings of one source.
unfoldable pub rejection_findings : PodCreationSource → Rejections → List Finding
rejection_findings s r =
    if_any r.exceeded (exceeded_finding s r.exceeded)
    ++ (if_any r.missing_account_evidence
          (missing_account_finding s r.missing_account r.missing_account_evidence)
        ++ if_any r.undetermined (undetermined_finding s r.undetermined))

-- The body of the loop of `Quota.Diagnose`.
unfoldable pub source_findings : Target → PodCreationSource → List Finding
source_findings t s =
    rejection_findings s (collect_rejections no_rejections (events_of s.uid t.events_by_uid))

-- `Quota.Diagnose`
unfoldable pub diagnose_quota : Target → Fallible Result
diagnose_quota t =
    ok (found quota_diagnoser_id (flat_map (source_findings t) t.pod_creation_sources))

abbrev pub quota : Diagnoser
quota = record { id = quota_diagnoser_id; diagnose = diagnose_quota }
