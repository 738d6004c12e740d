-- ===== src/Resolve/Kinds.antt =====
-- internal/kube/resolve.go: what references resolve to.
use kubectl_safe_rollout.Prelude.{
  String, Bool, true, false, List, [], ◌∷◌, ◌≡◌, refl, sym, ◌↔◌, eq_iff, ◌==◌, if◌then◌else◌,
  Bool-cases, any, All, to_lower, inl, inr, Fallible, ok, err,
}
use mathlib.Core.Path.{subst}
use mathlib.Core.Bool.{true≢false}
use Prim.Native.String.{◌∷◌ as ◌then◌}
use kubectl_safe_rollout.Workload.{Workload, from_deployment, from_stateful_set, from_daemon_set}
use kubectl_safe_rollout.Cluster.{Cluster}
use kubectl_safe_rollout.Resolve.{
  split_ref, read_as, deployment_aliases, stateful_set_aliases, daemon_set_aliases, resolve_kind,
  resolve_workload,
}
use kubectl_safe_rollout.Resolve.Names.{IsRef, split_ref-IsRef}

-- The workload that the cluster has under a kind and a name.
abbrev pub ReadsAs : Cluster → String → String → Workload → Type 0
ReadsAs c ns n (from_deployment d) = c.get_deployment ns n ≡ ok d
ReadsAs c ns n (from_stateful_set s) = c.get_stateful_set ns n ≡ ok s
ReadsAs c ns n (from_daemon_set d) = c.get_daemon_set ns n ≡ ok d

-- The aliases of a workload's kind.
abbrev pub aliases : Workload → List String
aliases (from_deployment d) = deployment_aliases
aliases (from_stateful_set s) = stateful_set_aliases
aliases (from_daemon_set d) = daemon_set_aliases

abbrev pub HasKind : String → Workload → Type 0
HasKind kind w = any (λ alias. to_lower kind == alias) (aliases w) ≡ true

abbrev Resolves : Cluster → String → String → String → Fallible Workload → Type 0
Resolves c ns kind n (err e) = Unit
Resolves c ns kind n (ok w) = HasKind kind w × ReadsAs c ns n w

read_as-Resolves :
    {A : Type 0} (of : A → Workload) (c : Cluster) (f ns kind n : String) (x : Fallible A)
    → ((a : A) → x ≡ ok a → HasKind kind (of a) × ReadsAs c ns n (of a))
    → Resolves c ns kind n (read_as of f ns n x)
read_as-Resolves of c f ns kind n (ok a) h = h a refl
read_as-Resolves of c f ns kind n (err e) h = tt

resolve_kind-Resolves :
    (c : Cluster) (ns kind n : String) → Resolves c ns kind n (resolve_kind c ns kind n)
unfolding resolve_kind
resolve_kind-Resolves c ns kind n =
    if_known _ _ _
      (λ e. read_as-Resolves from_deployment c _ ns kind n (c.get_deployment ns n) (λ a r. (e, r)))
      (if_known _ _ _
        (λ e.
          read_as-Resolves from_stateful_set c _ ns kind n (c.get_stateful_set ns n)
            (λ a r. (e, r)))
        (if_known _ _ _
          (λ e.
            read_as-Resolves from_daemon_set c _ ns kind n (c.get_daemon_set ns n) (λ a r. (e, r)))
          tt))
  where
    if_known :
        (b : Bool) (x y : Fallible Workload)
        → (b ≡ true → Resolves c ns kind n x)
        → Resolves c ns kind n y
        → Resolves c ns kind n (if b then x else y)
    if_known true x y p q = p refl
    if_known false x y p q = q

resolve_workload-IsRef :
    (c : Cluster) (ns ref : String) (w : Workload)
    → resolve_workload c ns ref ≡ ok w
    → (kind : String) × (n : String) × IsRef ref kind n × HasKind kind w × ReadsAs c ns n w
unfolding resolve_workload
resolve_workload-IsRef c ns ref w h = found (split_ref ref) refl h
  where
    found :
        (x : Fallible (String × String))
        → split_ref ref ≡ x
        → (elim x as (λ y. Fallible Workload) [
          | err e ↦ err e
          | ok (kind, n) ↦ resolve_kind c ns kind n
        ])
          ≡ ok w
        → (kind : String) × (n : String) × IsRef ref kind n × HasKind kind w × ReadsAs c ns n w
    found (err e) s h = cc
    found (ok (kind, n)) s h =
        let (k, r) = subst (Resolves c ns kind n) h (resolve_kind-Resolves c ns kind n) in
        (kind, n, (split_ref-IsRef ref kind n).0 s, k, r)

-- What holds of every alias holds of a text that is one of them.
any_alias :
    (P : String → Type 0) (k : String) (xs : List String)
    → any (λ alias. k == alias) xs ≡ true
    → All P xs
    → P k
any_alias P k [] h a = absurd (true≢false (sym h))
any_alias P k (x ∷ xs) h a = elim (Bool-cases (k == x)) [
  | inl e ↦ subst P (sym ((eq_iff k x).0 e)) a.0
  | inr e ↦ any_alias P k xs (rw e at h) a.1
]

-- A text that is one of some aliases is none of the others.
any-other_aliases :
    (k : String) (ys xs : List String)
    → any (λ alias. k == alias) ys ≡ true
    → All (λ y. any (λ alias. y == alias) xs ≡ false) ys
    → any (λ alias. k == alias) xs ≡ false
any-other_aliases k ys xs h = any_alias (λ y. any (λ alias. y == alias) xs ≡ false) k ys h

resolve_kind-HasKind :
    (c : Cluster) (ns kind n : String) (w : Workload)
    → HasKind kind w
    → ReadsAs c ns n w
    → resolve_kind c ns kind n ≡ ok w
unfolding resolve_kind
resolve_kind-HasKind c ns kind n (from_deployment d) h r = rw (h, r) refl
resolve_kind-HasKind c ns kind n (from_stateful_set s) h r =
    rw
      (
        any-other_aliases (to_lower kind) stateful_set_aliases deployment_aliases h
            (refl, (refl, (refl, (refl, (refl, tt))))),
        h,
        r,
      )
      refl
resolve_kind-HasKind c ns kind n (from_daemon_set d) h r =
    rw
      (
        any-other_aliases (to_lower kind) daemon_set_aliases deployment_aliases h
            (refl, (refl, (refl, (refl, (refl, tt))))),
        any-other_aliases (to_lower kind) daemon_set_aliases stateful_set_aliases h
            (refl, (refl, (refl, (refl, (refl, tt))))),
        h,
        r,
      )
      refl

-- A reference resolves to a workload exactly if it is a kind and a name, the kind is in any case one of
-- the aliases of the workload's kind, and the workload is what the cluster has under the name.
pub resolve_workload_iff :
    (c : Cluster) (ns ref : String) (w : Workload)
    → (resolve_workload c ns ref ≡ ok w)
      ↔ ((kind : String) × (n : String) × IsRef ref kind n × HasKind kind w × ReadsAs c ns n w)
unfolding resolve_workload
resolve_workload_iff c ns ref w = (
  resolve_workload-IsRef c ns ref w,
  λ h.
      rw ((split_ref-IsRef ref h.0 h.1).1 h.2, resolve_workload)
        (resolve_kind-HasKind c ns h.0 h.1 w h.3 h.4),
)
