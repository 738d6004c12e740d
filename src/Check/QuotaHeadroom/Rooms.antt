-- ===== src/Check/QuotaHeadroom/Rooms.antt =====
-- internal/check/quota.go: the quotas that are reported are those without room for the surge.
use kubectl_safe_rollout.Prelude.{
  String, Bool, true, List, [], ◌∷◌, ◌++◌, ◌≡◌, refl, ap, ◌∙◌, Option, none, some, ◌&&◌, ◌||◌,
  Bool-cases, inl, inr, all, flat_map, lookup, is_empty,
}
use kubectl_safe_rollout.Prelude.Int.{ℤ, pos, leb_ℤ, eq_ℤ}
use kubectl_safe_rollout.Model.{Finding}
use kubectl_safe_rollout.Api.{Apimachinery, Quantity, ResourceQuota, ResourceList}
use kubectl_safe_rollout.Workload.{or_default}
use kubectl_safe_rollout.Cluster.{Target}
use kubectl_safe_rollout.Check.QuotaHeadroom.{
  zero_quantity, headroom, available_pods, needed_by, pod_count_finding, compute_finding,
  headroom_findings,
}

is_empty-append {ℓ} :
    {A : Type ℓ} (xs ys : List A) → is_empty (xs ++ ys) ≡ is_empty xs && is_empty ys
is_empty-append [] ys = refl
is_empty-append (x ∷ xs) ys = refl

pub is_empty-flat_map {ℓ κ} :
    {A : Type ℓ} {B : Type κ} (f : A → List B) (room : A → Bool)
    → ((x : A) → is_empty (f x) ≡ room x)
    → (xs : List A) → is_empty (flat_map f xs) ≡ all room xs
is_empty-flat_map f room h [] = refl
is_empty-flat_map f room h (x ∷ xs) =
    simp (is_empty-append (f x) (flat_map f xs), h x, is_empty-flat_map f room h xs)

module _ (lib : Apimachinery) (surge : ℤ) where
  -- The quota limits no pods, or leaves room for the surge.
  abbrev pub has_pods : Option (Quantity × Quantity) → Bool
  has_pods none = true
  has_pods (some left) = leb_ℤ surge (available_pods lib left)

  -- The quota does not limit a resource, the pods request none of it, or what is left is enough.
  abbrev pub has_amount : Quantity → Option (Quantity × Quantity) → Bool
  has_amount per_pod none = true
  has_amount per_pod (some (hard, used)) =
      eq_ℤ per_pod.amount (pos 0)
      || leb_ℤ (needed_by lib surge per_pod).amount (lib.sub hard used).amount

  abbrev pub has_room : ResourceList → ResourceQuota → Bool
  has_room per_pod q =
      has_pods (headroom q "pods" "")
      && all
          (λ res.
            has_amount (or_default (lookup res per_pod) zero_quantity) (headroom q res "requests."))
          ("cpu" ∷ "memory" ∷ [])

  module _ (t : Target) (q : ResourceQuota) where
    pod_count_finding-has_pods :
        (left : Option (Quantity × Quantity))
        → is_empty (pod_count_finding lib t surge q left) ≡ has_pods left
    unfolding pod_count_finding
    pod_count_finding-has_pods none = refl
    pod_count_finding-has_pods (some left) =
        elim (Bool-cases (leb_ℤ surge (available_pods lib left))) [
          | inl e ↦ simp (e)
          | inr e ↦ simp (e)
        ]

    compute_finding-has_amount :
        (res : String) (per_pod : Quantity) (left : Option (Quantity × Quantity))
        → is_empty (compute_finding lib t surge q res per_pod left) ≡ has_amount per_pod left
    unfolding compute_finding
    compute_finding-has_amount res per_pod none = refl
    compute_finding-has_amount res per_pod (some (hard, used)) =
        elim (Bool-cases (has_amount per_pod (some (hard, used)))) [
          | inl e ↦ simp (e)
          | inr e ↦ simp (e)
        ]

    pub headroom_findings-has_room :
        (per_pod : ResourceList)
        → is_empty (headroom_findings lib t surge q per_pod) ≡ has_room per_pod q
    unfolding headroom_findings
    headroom_findings-has_room per_pod =
        is_empty-append (pod_count_finding lib t surge q (headroom q "pods" ""))
          (flat_map of_resource ("cpu" ∷ "memory" ∷ []))
        ∙ ap (λ b. b && is_empty (flat_map of_resource ("cpu" ∷ "memory" ∷ [])))
            (pod_count_finding-has_pods (headroom q "pods" ""))
        ∙ ap (λ b. has_pods (headroom q "pods" "") && b)
            (is_empty-flat_map of_resource
              (λ res. has_amount (request res) (headroom q res "requests."))
              (λ res. compute_finding-has_amount res (request res) (headroom q res "requests."))
              ("cpu" ∷ "memory" ∷ []))
      where
        request : String → Quantity
        request res = or_default (lookup res per_pod) zero_quantity

        of_resource : String → List Finding
        of_resource res =
            compute_finding lib t surge q res (request res) (headroom q res "requests.")
