-- ===== src/Check/QuotaHeadroom/Fits.antt =====
-- internal/check/quota.go: what the check reports, described by the limits of the quotas alone.
use kubectl_safe_rollout.Prelude.{
  String, Bool, true, false, List, [], ◌∷◌, ◌≡◌, refl, ap, ◌∙◌, Option, none, some, ◌&&◌, ◌||◌, ok,
  all, flat_map, lookup, is_empty,
}
use mathlib.Core.Bool.{and-true}
use kubectl_safe_rollout.Prelude.Int.{ℤ, ◌-ℤ◌, ◌*ℤ◌, i32, i64, pos, leb_ℤ, eq_ℤ}
use kubectl_safe_rollout.Model.{Finding}
use kubectl_safe_rollout.Api.{Apimachinery, Quantity, IntOrString, ResourceQuota, ResourceList}
use kubectl_safe_rollout.Workload.{
  pod_requests, or_default, update_strategy, rolling_update, replicas,
}
use kubectl_safe_rollout.Cluster.{Target}
use kubectl_safe_rollout.Check.{found}
use kubectl_safe_rollout.Check.QuotaHeadroom.{
  quota_headroom_check_id, zero_quantity, headroom, headroom_of, surge_count, headroom_findings,
  judge_surge, judge_headroom, run_quota_headroom,
}
use kubectl_safe_rollout.Check.QuotaHeadroom.Rooms.{
  has_pods, has_amount, has_room, headroom_findings-has_room, is_empty-flat_map,
}

module _ (lib : Apimachinery) (surge : ℤ) (per_pod : ResourceList) (q : ResourceQuota) where
  abbrev used_of : String → Quantity
  used_of k = or_default (lookup k q.used) zero_quantity

  -- What is left of the limit on pods, as an int64, is no less than the surge.
  abbrev pods_fit : Option Quantity → Bool
  pods_fit none = true
  pods_fit (some hard) = leb_ℤ surge (i64 (lib.value hard -ℤ lib.value (used_of "pods")))

  -- A pod requests none of the resource, or what the pods of the surge request of it, in thousandths
  -- of an int64, is no more than what is left of a limit on it.
  abbrev amount_fits : String → String → Quantity → Bool
  amount_fits res key hard =
      let request : Quantity = or_default (lookup res per_pod) zero_quantity in
      eq_ℤ request.amount (pos 0)
      || leb_ℤ
          (lib.new_milli_quantity (i64 (lib.milli_value request *ℤ surge)) request.format).amount
          (lib.sub hard (used_of key)).amount

  -- The limit on the requests of a resource counts, or without one the limit on the resource.
  abbrev resource_fits : String → String → Option Quantity → Option Quantity → Bool
  resource_fits res prefixed (some hard) other = amount_fits res prefixed hard
  resource_fits res prefixed none (some hard) = amount_fits res res hard
  resource_fits res prefixed none none = true

  -- The quota has room for the pods of the surge, and for the cpu and the memory that they request.
  abbrev pub fits : Bool
  fits =
      pods_fit (lookup "pods" q.hard)
      && (resource_fits "cpu" "requests.cpu" (lookup "requests.cpu" q.hard) (lookup "cpu" q.hard)
          && resource_fits "memory" "requests.memory" (lookup "requests.memory" q.hard)
              (lookup "memory" q.hard))

  has_pods-pods_fit : has_pods lib surge (headroom q "pods" "") ≡ pods_fit (lookup "pods" q.hard)
  unfolding headroom_of
  has_pods-pods_fit = by_limit (lookup "pods" q.hard)
    where
      by_limit :
          (x : Option Quantity)
          → has_pods lib surge (elim x [ none ↦ none | some h ↦ some (h, used_of "pods") ])
            ≡ pods_fit x
      by_limit none = refl
      by_limit (some h) = refl

  has_amount-resource_fits :
      (res prefixed : String)
      → has_amount lib surge
          (or_default (lookup res per_pod) zero_quantity)
          (headroom_of q (prefixed ∷ res ∷ []))
        ≡ resource_fits res prefixed (lookup prefixed q.hard) (lookup res q.hard)
  unfolding headroom_of
  has_amount-resource_fits res prefixed = by_limits (lookup prefixed q.hard) (lookup res q.hard)
    where
      by_limits :
          (x y : Option Quantity)
          → has_amount lib surge (or_default (lookup res per_pod) zero_quantity) (elim x [
            | none ↦ elim y [ none ↦ none | some h ↦ some (h, used_of res) ]
            | some h ↦ some (h, used_of prefixed)
          ])
            ≡ resource_fits res prefixed x y
      by_limits (some h) y = refl
      by_limits none (some h) = refl
      by_limits none none = refl

  has_room-fits : has_room lib surge per_pod q ≡ fits
  has_room-fits =
      ap (λ b. b && (cpu && (memory && true))) has_pods-pods_fit
      ∙ ap (λ b. pods_fit (lookup "pods" q.hard) && b)
          (ap (λ b. b && (memory && true)) (has_amount-resource_fits "cpu" "requests.cpu")
            ∙ ap
                (λ b.
                  resource_fits "cpu" "requests.cpu" (lookup "requests.cpu" q.hard)
                    (lookup "cpu" q.hard)
                  && b)
                (and-true memory ∙ has_amount-resource_fits "memory" "requests.memory"))
    where
      cpu : Bool
      cpu =
          has_amount lib surge (or_default (lookup "cpu" per_pod) zero_quantity)
            (headroom q "cpu" "requests.")

      memory : Bool
      memory =
          has_amount lib surge (or_default (lookup "memory" per_pod) zero_quantity)
            (headroom q "memory" "requests.")

module _ (lib : Apimachinery) (t : Target) (qs : List ResourceQuota) (max_surge : IntOrString)
    (v : ℤ) where
  rolls-surge_count :
      (update_strategy t.workload).type ≡ rolling_update
      → (update_strategy t.workload).max_surge ≡ some max_surge
      → lib.scaled_value max_surge (replicas t.workload) true ≡ ok v
      → leb_ℤ v (pos 0) ≡ false
      → surge_count lib t.workload ≡ some (i32 v)
  unfolding surge_count
  rolls-surge_count rolls surges scales above = rw (rolls, surges, scales, above) refl

  reports-has_room :
      surge_count lib t.workload ≡ some (i32 v)
      → t.client.list_resource_quotas t.namespace ≡ ok qs
      → (fs : List Finding) × (run_quota_headroom lib t ≡ ok (found quota_headroom_check_id fs))
        × (is_empty fs ≡ all (has_room lib (i32 v) (pod_requests lib t.workload)) qs)
  unfolding run_quota_headroom
  reports-has_room s h = by_quotas qs h
    where
      per_pod : ResourceList
      per_pod = pod_requests lib t.workload

      by_quotas :
          (qs : List ResourceQuota)
          → t.client.list_resource_quotas t.namespace ≡ ok qs
          → (fs : List Finding) × (run_quota_headroom lib t ≡ ok (found quota_headroom_check_id fs))
            × (is_empty fs ≡ all (has_room lib (i32 v) per_pod) qs)
      by_quotas [] h = ([], ap (λ l. ok (judge_headroom lib t l)) h, refl)
      by_quotas (q ∷ qs) h = (
        flat_map (λ q'. headroom_findings lib t (i32 v) q' per_pod) (q ∷ qs),
        ap (λ l. ok (judge_headroom lib t l)) h ∙ ap (λ c. ok (judge_surge lib t (q ∷ qs) c)) s,
        is_empty-flat_map (λ q'. headroom_findings lib t (i32 v) q' per_pod)
            (has_room lib (i32 v) per_pod)
            (λ q'. headroom_findings-has_room lib (i32 v) t q' per_pod) (q ∷ qs),
      )

  -- Over quotas that can be read, and for a rolling update whose maxSurge, rounded up, is above zero, the
  -- check answers, and it reports nothing exactly if each quota leaves room, by its limit on pods for the
  -- surge, and by its limit on the requests of cpu and memory, or without that on the resource, for what
  -- the pods of the surge request.
  pub run_quota_headroom-fits :
      t.client.list_resource_quotas t.namespace ≡ ok qs
      → (update_strategy t.workload).type ≡ rolling_update
      → (update_strategy t.workload).max_surge ≡ some max_surge
      → lib.scaled_value max_surge (replicas t.workload) true ≡ ok v
      → leb_ℤ v (pos 0) ≡ false
      → (fs : List Finding) × (run_quota_headroom lib t ≡ ok (found quota_headroom_check_id fs))
        × (is_empty fs ≡ all (fits lib (i32 v) (pod_requests lib t.workload)) qs)
  run_quota_headroom-fits h rolls surges scales above =
      let (fs, e, room) = reports-has_room (rolls-surge_count rolls surges scales above) h in
      (fs, e, room ∙ all-fits qs)
    where
      all-fits :
          (qs : List ResourceQuota)
          → all (has_room lib (i32 v) (pod_requests lib t.workload)) qs
            ≡ all (fits lib (i32 v) (pod_requests lib t.workload)) qs
      all-fits [] = refl
      all-fits (q ∷ qs) =
          rw (has_room-fits lib (i32 v) (pod_requests lib t.workload) q, all-fits qs) refl
