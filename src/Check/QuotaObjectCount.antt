-- ===== src/Check/QuotaObjectCount.antt =====
-- internal/check/quotaobjectcount.go: whether a quota leaves room for the object that the next rollout
-- creates.
pub mod Blocked
use kubectl_safe_rollout.Prelude.{
  String, Bool, true, false, not, List, [], ◌∷◌, ◌++◌, ◌≡◌, refl, sym, ap, ◌∙◌, Option, none, some,
  ◌==◌, ◌&&◌, ◌||◌, if◌then◌else◌, Bool-cases, inl, inr, Text, append, sprintf, wrapping, str,
  error_text, Fallible, ok, err, any, map, filter, is_empty, is_none, is_some, lookup, append-nil,
  append_assoc,
}
use kubectl_safe_rollout.Prelude.Int.{ℤ, ltb_ℤ, leb_ℤ}
use kubectl_safe_rollout.Model.{Finding, severity_high}
use kubectl_safe_rollout.Api.{Apimachinery, Quantity, ResourceQuota}
use kubectl_safe_rollout.Workload.{
  Workload, kind, from_deployment, from_stateful_set, from_daemon_set,
}
use kubectl_safe_rollout.Cluster.{Target}
use kubectl_safe_rollout.Check.{CheckResult, skip, found}
use kubectl_safe_rollout.Check.Pdb.{workload_ref}

abbrev pub quota_object_count_check_id : String
quota_object_count_check_id = "quota-object-count"

-- `quotaObjectCountResource`
pub record QuotaObjectCountResource : Type 0 where
  pub key : String
  pub child_kind : String
  pub list_command_format : String

abbrev controller_revisions : QuotaObjectCountResource
controller_revisions = record {
  key = "count/controllerrevisions.apps";
  child_kind = "ControllerRevision";
  list_command_format = "kubectl get controllerrevision -n %s";
}

-- `quotaObjectCountResources`, at the kind of a workload; every kind has an entry.
abbrev pub quota_object_count_resource : Workload → QuotaObjectCountResource
quota_object_count_resource (from_deployment d) = record {
  key = "count/replicasets.apps";
  child_kind = "ReplicaSet";
  list_command_format = "kubectl get replicaset -n %s -o wide";
}
quota_object_count_resource (from_stateful_set s) = controller_revisions
quota_object_count_resource (from_daemon_set d) = controller_revisions

-- `quotaHasScope`
unfoldable pub quota_has_scope : ResourceQuota → Bool
quota_has_scope q =
    if not (is_empty q.scopes)
    then true
    else elim q.scope_selector [ none ↦ false | some es ↦ not (is_empty es) ]

module _ (lib : Apimachinery) (t : Target) where
  abbrev res : QuotaObjectCountResource
  res = quota_object_count_resource t.workload

  abbrev blocked_action : String → Text
  blocked_action workload =
      if res.child_kind == "ReplicaSet"
      then sprintf
          "the next rollout of %s that changes the pod template will not be able to start: its controller will fail to create the new ReplicaSet"
          (str workload ∷ [])
      else sprintf
          "the next update of %s will not even be able to start: its controller creates a new ControllerRevision before it does anything else, and that creation will be rejected"
          (str workload ∷ [])

  abbrev revision_history_caveat : String → Text
  revision_history_caveat workload =
      if res.child_kind == "ReplicaSet"
      then sprintf
          "lowering revisionHistoryLimit on %s will not free a slot right now: its cleanup only runs once the current rollout completes, and this rollout cannot complete while blocked"
          (str workload ∷ [])
      else sprintf
          "lowering revisionHistoryLimit on %s may not free a slot immediately either, since revision cleanup in Kubernetes controllers typically only runs once a sync completes successfully"
          (str workload ∷ [])

  -- `quotaObjectCountFinding`
  unfoldable pub quota_object_count_finding : ResourceQuota → Quantity → Quantity → Finding
  quota_object_count_finding q hard used = record {
    check_id = quota_object_count_check_id;
    severity = severity_high;
    cause =
        append
          (wrapping "ResourceQuota %q has no headroom left for %s (hard=%s, used=%s): %s"
            (str q.meta.name
              ∷ str res.key
              ∷ str (lib.quantity_string hard)
              ∷ str (lib.quantity_string used)
              ∷ [])
            (blocked_action (workload_ref t)))
          (sprintf
            ". A rollback to a pod template matching an existing %s is unaffected — the controller reuses it instead of creating a new one."
            (str res.child_kind ∷ []));
    evidence =
        sprintf "quota %s hard=%s used=%s"
          (str res.key ∷ str (lib.quantity_string hard) ∷ str (lib.quantity_string used) ∷ [])
        ∷ [];
    remediation = record {
      summary =
          append
            (wrapping
              "increase %q's hard[%s] limit, or free a slot by deleting an inactive, scaled-down %s in the namespace; %s"
              (str q.meta.name ∷ str res.key ∷ str res.child_kind ∷ [])
              (revision_history_caveat (workload_ref t)))
            (sprintf " — delete one manually instead, or raise the quota" []);
      commands =
          sprintf "kubectl get resourcequota %s -n %s -o yaml"
            (str q.meta.name ∷ str t.namespace ∷ [])
          ∷ sprintf res.list_command_format (str t.namespace ∷ [])
          ∷ [];
      context_dependent = true;
    };
    resource = record { kind = "ResourceQuota"; namespace = q.meta.namespace; name = q.meta.name };
    undetermined = false;
  }

  -- What the loop makes of a quota: its findings, or the quota has no used count yet.
  pub data Judged : Type 0 where
    not_synced : Judged
    judged : List Finding → Judged

  -- The body of the loop, given the two entries of the status.
  unfoldable pub judge_counts : ResourceQuota → Option Quantity → Option Quantity → Judged
  judge_counts q none used = judged []
  judge_counts q (some hard) none = not_synced
  judge_counts q (some hard) (some used) =
      if ltb_ℤ used.amount hard.amount
      then judged []
      else judged (quota_object_count_finding q hard used ∷ [])

  unfoldable pub judge_quota : ResourceQuota → Judged
  judge_quota q =
      if quota_has_scope q
      then judged []
      else judge_counts q (lookup res.key q.hard) (lookup res.key q.used)

  unfoldable pub skip_not_synced : ResourceQuota → CheckResult
  skip_not_synced q = skip quota_object_count_check_id (
      sprintf
        "ResourceQuota %q declares a hard limit for %s but its status has not reported a used count yet (quota controller not synced)"
        (str q.meta.name ∷ str res.key ∷ []))

  -- The loop over the quotas.
  unfoldable pub judge_quotas : List Finding → List ResourceQuota → CheckResult
  judge_quotas fs [] = found quota_object_count_check_id fs
  judge_quotas fs (q ∷ qs) = elim (judge_quota q) [
    | not_synced ↦ skip_not_synced q
    | judged new ↦ judge_quotas (fs ++ new) qs
  ]

  abbrev pub judge_quota_list : Fallible (List ResourceQuota) → CheckResult
  judge_quota_list (err e) =
      skip quota_object_count_check_id
        (wrapping "ResourceQuota list is not accessible: %v" [] (error_text e))
  judge_quota_list (ok qs) =
      if is_empty qs then found quota_object_count_check_id [] else judge_quotas [] qs

  -- `QuotaObjectCount.Run`
  unfoldable pub run_quota_object_count : Fallible CheckResult
  run_quota_object_count = ok (judge_quota_list (t.client.list_resource_quotas t.namespace))
