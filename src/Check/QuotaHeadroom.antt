-- ===== src/Check/QuotaHeadroom.antt =====
-- internal/check/quota.go: whether the quotas of the namespace leave room for the pods of a surge.
pub mod Rooms
pub mod Fits
use kubectl_safe_rollout.Prelude.{
  String, Bool, true, false, not, List, [], ◌∷◌, ◌++◌, Option, none, some, ◌==◌, ◌||◌,
  if◌then◌else◌, Text, sprintf, wrapping, str, num, error_text, Fallible, ok, err, flat_map, lookup,
  is_empty,
}
use kubectl_safe_rollout.Prelude.Int.{ℤ, pos, ◌-ℤ◌, ◌*ℤ◌, leb_ℤ, eq_ℤ, i32, i64}
use kubectl_safe_rollout.Model.{Finding, Severity, ResourceRef, severity_high}
use kubectl_safe_rollout.Api.{Apimachinery, Quantity, ResourceQuota, ResourceList, IntOrString}
use kubectl_safe_rollout.Workload.{
  Workload, replicas, update_strategy, rolling_update, pod_requests, or_default,
}
use kubectl_safe_rollout.Cluster.{Target}
use kubectl_safe_rollout.Check.{CheckResult, skip, found}
use kubectl_safe_rollout.Check.Pdb.{workload_ref}
use Prim.Native.String.{◌++◌ as ◌then◌}

abbrev pub quota_headroom_check_id : String
quota_headroom_check_id = "quota-headroom"

-- `resource.Quantity{}`
abbrev pub zero_quantity : Quantity
zero_quantity = record { amount = pos 0; format = "" }

abbrev pub quota_ref : ResourceQuota → ResourceRef
quota_ref q = record { kind = "ResourceQuota"; namespace = q.meta.namespace; name = q.meta.name }

-- The loop of `headroom` over the keys: the hard limit and the used amount.
unfoldable pub headroom_of : ResourceQuota → List String → Option (Quantity × Quantity)
headroom_of q [] = none
headroom_of q (k ∷ ks) = elim (lookup k q.hard) [
  | none ↦ headroom_of q ks
  | some h ↦ some (h, or_default (lookup k q.used) zero_quantity)
]

-- `headroom`
abbrev pub headroom : ResourceQuota → String → String → Option (Quantity × Quantity)
headroom q name prefix =
    headroom_of q (if prefix == "" then name ∷ [] else (prefix then name) ∷ name ∷ [])

-- A finding on a quota, with the fields that both checks of headroom fill.
abbrev pub quota_finding : String → Severity → ResourceQuota → Text → List Text → Text → Finding
quota_finding id severity q cause evidence summary = record {
  check_id = id;
  severity = severity;
  cause = cause;
  evidence = evidence;
  remediation = record { summary = summary; commands = []; context_dependent = true };
  resource = quota_ref q;
  undetermined = false;
}

module _ (lib : Apimachinery) where
  -- What is left of a limit on pods, as an int64.
  abbrev pub available_pods : Quantity × Quantity → ℤ
  available_pods (hard, used) = i64 (lib.value hard -ℤ lib.value used)

  -- What a number of pods requests, through thousandths and with the wrap-around of int64.
  abbrev pub needed_by : ℤ → Quantity → Quantity
  needed_by pods per_pod =
      lib.new_milli_quantity (i64 (lib.milli_value per_pod *ℤ pods)) per_pod.format

  -- `surgeCount`, given the scaled maxSurge.
  abbrev pub positive_surge : Fallible ℤ → Option ℤ
  positive_surge (err e) = none
  positive_surge (ok v) = if leb_ℤ v (pos 0) then none else some (i32 v)

  abbrev pub scaled_surge : Workload → Option IntOrString → Option ℤ
  scaled_surge w none = none
  scaled_surge w (some surge) = positive_surge (lib.scaled_value surge (replicas w) true)

  -- `surgeCount`
  unfoldable pub surge_count : Workload → Option ℤ
  surge_count w =
      if not ((update_strategy w).type == rolling_update)
      then none
      else scaled_surge w (update_strategy w).max_surge

  module _ (t : Target) (surge : ℤ) (q : ResourceQuota) where
    -- `podCountFinding`, given what `headroom` answers.
    unfoldable pub pod_count_finding : Option (Quantity × Quantity) → List Finding
    pod_count_finding none = []
    pod_count_finding (some (hard, used)) =
        if leb_ℤ surge (available_pods (hard, used))
        then []
        else quota_finding quota_headroom_check_id severity_high q
            (sprintf
              "the rolling update of %s can create up to %d additional pods during surge, but ResourceQuota %q leaves headroom for only %d additional pods (hard=%s, used=%s)"
              (str (workload_ref t)
                ∷ num surge
                ∷ str q.meta.name
                ∷ num (available_pods (hard, used))
                ∷ str (lib.quantity_string hard)
                ∷ str (lib.quantity_string used)
                ∷ []))
            (sprintf "surge=%d" (num surge ∷ [])
              ∷ sprintf "quota pods hard=%s used=%s"
                  (str (lib.quantity_string hard) ∷ str (lib.quantity_string used) ∷ [])
              ∷ [])
            (sprintf
              "increase the \"pods\" quota of %q, reduce maxSurge for %s, or free capacity by terminating other workloads; the correct choice depends on who shares the namespace"
              (str q.meta.name ∷ str (workload_ref t) ∷ []))
          ∷ []

    -- `computeFinding`, given what `headroom` answers.
    unfoldable pub compute_finding : String → Quantity → Option (Quantity × Quantity) → List Finding
    compute_finding res per_pod none = []
    compute_finding res per_pod (some (hard, used)) =
        let available : Quantity = lib.sub hard used in
        let needed : Quantity = needed_by surge per_pod in
        if eq_ℤ per_pod.amount (pos 0) || leb_ℤ needed.amount available.amount
        then []
        else quota_finding quota_headroom_check_id severity_high q
            (sprintf
              "the rolling update of %s requires up to %s of additional %s during surge (%d pods), but ResourceQuota %q leaves only %s of headroom"
              (str (workload_ref t)
                ∷ str (lib.quantity_string needed)
                ∷ str res
                ∷ num surge
                ∷ str q.meta.name
                ∷ str (lib.quantity_string available)
                ∷ []))
            (sprintf "surge=%d perPodRequest.%s=%s"
                (num surge ∷ str res ∷ str (lib.quantity_string per_pod) ∷ [])
              ∷ sprintf "quota %s hard=%s used=%s"
                  (str res ∷ str (lib.quantity_string hard) ∷ str (lib.quantity_string used) ∷ [])
              ∷ [])
            (sprintf
              "increase the %s quota on %q, reduce maxSurge for %s, or reduce container requests; the correct choice depends on how much extra capacity the namespace can provide during a rollout"
              (str res ∷ str q.meta.name ∷ str (workload_ref t) ∷ []))
          ∷ []

    -- The body of the loop over the quotas, given the requests of a pod.
    unfoldable pub headroom_findings : ResourceList → List Finding
    headroom_findings per_pod =
        pod_count_finding (headroom q "pods" "")
        ++ flat_map
            (λ res.
              compute_finding res (or_default (lookup res per_pod) zero_quantity)
                (headroom q res "requests."))
            ("cpu" ∷ "memory" ∷ [])

  -- `QuotaHeadroom.Run` over a list of quotas that is not empty.
  abbrev pub judge_surge : Target → List ResourceQuota → Option ℤ → CheckResult
  judge_surge t qs none = found quota_headroom_check_id []
  judge_surge t qs (some surge) =
      found quota_headroom_check_id
        (flat_map (λ q. headroom_findings t surge q (pod_requests lib t.workload)) qs)

  abbrev pub judge_headroom : Target → Fallible (List ResourceQuota) → CheckResult
  judge_headroom t (err e) =
      skip quota_headroom_check_id
        (wrapping "ResourceQuota list is not accessible: %v" [] (error_text e))
  judge_headroom t (ok qs) =
      if is_empty qs
      then found quota_headroom_check_id []
      else judge_surge t qs (surge_count t.workload)

  -- `QuotaHeadroom.Run`
  unfoldable pub run_quota_headroom : Target → Fallible CheckResult
  run_quota_headroom t = ok (judge_headroom t (t.client.list_resource_quotas t.namespace))
