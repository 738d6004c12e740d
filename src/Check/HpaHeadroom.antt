-- ===== src/Check/HpaHeadroom.antt =====
-- internal/check/hpa.go: whether the quotas of the namespace leave room for the pods that an autoscaler
-- may add.
use kubectl_safe_rollout.Prelude.{
  String, List, [], ◌∷◌, ◌++◌, Option, none, some, ◌==◌, ◌&&◌, ◌||◌, if◌then◌else◌, sprintf,
  wrapping, str, num, error_text, Fallible, ok, err, flat_map, lookup,
}
use kubectl_safe_rollout.Prelude.Int.{ℤ, pos, ◌-ℤ◌, leb_ℤ, eq_ℤ}
use kubectl_safe_rollout.Model.{Finding, severity_medium}
use kubectl_safe_rollout.Api.{
  Apimachinery, Quantity, ResourceQuota, ResourceList, HorizontalPodAutoscaler,
}
use kubectl_safe_rollout.Workload.{Workload, kind, name, replicas, pod_requests, or_default}
use kubectl_safe_rollout.Cluster.{Target}
use kubectl_safe_rollout.Check.{CheckResult, skip, found}
use kubectl_safe_rollout.Check.Pdb.{workload_ref}
use kubectl_safe_rollout.Check.QuotaHeadroom.{
  zero_quantity, headroom, quota_finding, available_pods, needed_by,
}

abbrev pub hpa_quota_headroom_check_id : String
hpa_quota_headroom_check_id = "hpa-quota-headroom"

-- The loop that looks for the first autoscaler of the workload.
unfoldable pub targeting : Workload → List HorizontalPodAutoscaler → Option HorizontalPodAutoscaler
targeting w [] = none
targeting w (h ∷ hs) =
    let rest : Option HorizontalPodAutoscaler = targeting w hs in
    if h.target_kind == kind w && h.target_name == name w then some h else rest

module _ (lib : Apimachinery) where
  module _ (t : Target) (h : HorizontalPodAutoscaler) (additional : ℤ) (q : ResourceQuota) where
    -- `hpaPodCountFinding`, given what `headroom` answers.
    unfoldable pub hpa_pod_count_finding : Option (Quantity × Quantity) → List Finding
    hpa_pod_count_finding none = []
    hpa_pod_count_finding (some (hard, used)) =
        if leb_ℤ additional (available_pods lib (hard, used))
        then []
        else quota_finding hpa_quota_headroom_check_id severity_medium q
            (sprintf
              "HorizontalPodAutoscaler %q can scale %s up to %d replicas (%d more than the current desired count), but ResourceQuota %q leaves headroom for only %d additional pods: if the HPA scales up during a rollout, new pods will be blocked the same way surge would be"
              (str h.meta.name
                ∷ str (workload_ref t)
                ∷ num h.max_replicas
                ∷ num additional
                ∷ str q.meta.name
                ∷ num (available_pods lib (hard, used))
                ∷ []))
            (sprintf "hpaMaxReplicas=%d additionalPods=%d"
                (num h.max_replicas ∷ num additional ∷ [])
              ∷ sprintf "quota pods hard=%s used=%s"
                  (str (lib.quantity_string hard) ∷ str (lib.quantity_string used) ∷ [])
              ∷ [])
            (sprintf
              "increase the \"pods\" quota of %q, lower HorizontalPodAutoscaler %q's maxReplicas, or free capacity by terminating other workloads; the correct choice depends on who shares the namespace"
              (str q.meta.name ∷ str h.meta.name ∷ []))
          ∷ []

    -- `hpaComputeFinding`, given what `headroom` answers.
    unfoldable pub hpa_compute_finding :
        String → Quantity → Option (Quantity × Quantity) → List Finding
    hpa_compute_finding res per_pod none = []
    hpa_compute_finding res per_pod (some (hard, used)) =
        let available : Quantity = lib.sub hard used in
        let needed : Quantity = needed_by lib additional per_pod in
        if eq_ℤ per_pod.amount (pos 0) || leb_ℤ needed.amount available.amount
        then []
        else quota_finding hpa_quota_headroom_check_id severity_medium q
            (sprintf
              "HorizontalPodAutoscaler %q can scale %s up to %d replicas, requiring up to %s of additional %s, but ResourceQuota %q leaves only %s of headroom: if the HPA scales up during a rollout, new pods will be blocked the same way surge would be"
              (str h.meta.name
                ∷ str (workload_ref t)
                ∷ num h.max_replicas
                ∷ str (lib.quantity_string needed)
                ∷ str res
                ∷ str q.meta.name
                ∷ str (lib.quantity_string available)
                ∷ []))
            (sprintf "hpaMaxReplicas=%d additionalPods=%d perPodRequest.%s=%s" (
                num h.max_replicas
                ∷ num additional
                ∷ str res
                ∷ str (lib.quantity_string per_pod)
                ∷ [])
              ∷ sprintf "quota %s hard=%s used=%s"
                  (str res ∷ str (lib.quantity_string hard) ∷ str (lib.quantity_string used) ∷ [])
              ∷ [])
            (sprintf
              "increase the %s quota on %q, lower HorizontalPodAutoscaler %q's maxReplicas, or reduce container requests; the correct choice depends on how much extra capacity the namespace can provide"
              (str res ∷ str q.meta.name ∷ str h.meta.name ∷ []))
          ∷ []

    -- The body of the loop over the quotas, given the requests of a pod.
    unfoldable pub hpa_findings : ResourceList → List Finding
    hpa_findings per_pod =
        hpa_pod_count_finding (headroom q "pods" "")
        ++ flat_map
            (λ res.
              hpa_compute_finding res (or_default (lookup res per_pod) zero_quantity)
                (headroom q res "requests."))
            ("cpu" ∷ "memory" ∷ [])

  module _ (t : Target) where
    -- `HPAQuotaHeadroom.Run`, over the quotas.
    unfoldable pub judge_room :
        HorizontalPodAutoscaler → ℤ → Fallible (List ResourceQuota) → CheckResult
    judge_room h additional (err e) =
        skip hpa_quota_headroom_check_id
          (wrapping "ResourceQuota list is not accessible: %v" [] (error_text e))
    judge_room h additional (ok qs) =
        found hpa_quota_headroom_check_id
          (flat_map (λ q. hpa_findings t h additional q (pod_requests lib t.workload)) qs)

    -- The pods that the autoscaler may add.
    abbrev pub additional_pods : HorizontalPodAutoscaler → ℤ
    additional_pods h = h.max_replicas -ℤ replicas t.workload

    unfoldable pub judge_targeting : Option HorizontalPodAutoscaler → CheckResult
    judge_targeting none = found hpa_quota_headroom_check_id []
    judge_targeting (some h) =
        if leb_ℤ (additional_pods h) (pos 0)
        then found hpa_quota_headroom_check_id []
        else judge_room h (additional_pods h) (t.client.list_resource_quotas t.namespace)

    unfoldable pub judge_autoscalers : Fallible (List HorizontalPodAutoscaler) → CheckResult
    judge_autoscalers (err e) =
        skip hpa_quota_headroom_check_id
          (wrapping "HorizontalPodAutoscaler list is not accessible: %v" [] (error_text e))
    judge_autoscalers (ok hs) = judge_targeting (targeting t.workload hs)

    -- `HPAQuotaHeadroom.Run`
    unfoldable pub run_hpa_quota_headroom : Fallible CheckResult
    run_hpa_quota_headroom = ok (
        if kind t.workload == "DaemonSet"
        then found hpa_quota_headroom_check_id []
        else judge_autoscalers (t.client.list_horizontal_pod_autoscalers t.namespace))
