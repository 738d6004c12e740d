-- ===== src/Workload/Requests.antt =====
-- internal/workload: PodRequests adds up, resource by resource, what the containers request.
use kubectl_safe_rollout.Prelude.{
  String, List, [], ◌∷◌, ◌≡◌, refl, ◌∙◌, ap, Option, none, some, eq_iff, ◌==◌, Bool-cases, lookup,
  insert, lookup-insert, All, inl, inr,
}
use mathlib.Core.Path.{subst}
use kubectl_safe_rollout.Prelude.Int.{pos}
use kubectl_safe_rollout.Api.{Apimachinery, Quantity, ResourceList, Container}
use kubectl_safe_rollout.Workload.{
  Workload, or_default, add_requests, add_containers, pod_requests, pod_containers,
}

-- No key stands twice, as in any Go map.
abbrev pub DistinctKeys : ResourceList → Type 0
DistinctKeys [] = Unit
DistinctKeys ((k, v) ∷ m) = (lookup k m ≡ none) × DistinctKeys m

abbrev zero_quantity : Quantity
zero_quantity = record { amount = pos 0; format = "" }

module _ (lib : Apimachinery) (k : String) where
  -- One more request for a resource, where there is one.
  abbrev pub plus : Option Quantity → Option Quantity → Option Quantity
  plus acc none = acc
  plus acc (some q) = some (lib.add (or_default acc zero_quantity) q)

  -- The requests of the containers for one resource, added in the order of the containers.
  abbrev pub requested : Option Quantity → List Container → Option Quantity
  requested acc [] = acc
  requested acc (c ∷ cs) = requested (plus acc (lookup k c.requests)) cs

  lookup-add_requests :
      (total requests : ResourceList)
      → DistinctKeys requests
      → lookup k (add_requests lib total requests) ≡ plus (lookup k total) (lookup k requests)
  unfolding add_requests
  lookup-add_requests total [] d = refl
  lookup-add_requests total ((res, qty) ∷ requests) d =
      lookup-add_requests
        (insert res (lib.add (or_default (lookup res total) zero_quantity) qty) total) requests d.1
      ∙ rw lookup-insert (elim (Bool-cases (res == k)) [
        | inl e ↦
            let p : res ≡ k = (eq_iff res k).0 e in
            let absent : lookup k requests ≡ none = subst (λ z. lookup z requests ≡ none) p d.0 in
            rw (e, absent) (rw p refl)
        | inr n ↦ rw n refl
      ])

  lookup-add_containers :
      (total : ResourceList) (cs : List Container)
      → All (λ (c : Container). DistinctKeys c.requests) cs
      → lookup k (add_containers lib total cs) ≡ requested (lookup k total) cs
  unfolding add_containers
  lookup-add_containers total [] d = refl
  lookup-add_containers total (c ∷ cs) d =
      lookup-add_containers (add_requests lib total c.requests) cs d.1
      ∙ ap (λ acc. requested acc cs) (lookup-add_requests total c.requests d.0)

  -- The entry of PodRequests for a resource is the sum of what the regular containers request of it,
  -- in their order, and there is an entry only if some container requests the resource; each
  -- container's requests being a map, with no key twice.
  pub lookup-pod_requests :
      (w : Workload)
      → All (λ (c : Container). DistinctKeys c.requests) (pod_containers w)
      → lookup k (pod_requests lib w) ≡ requested none (pod_containers w)
  unfolding pod_requests
  lookup-pod_requests w d = lookup-add_containers [] (pod_containers w) d
