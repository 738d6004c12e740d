-- ===== src/Diagnose/Observer.antt =====
-- internal/diagnose/watch.go: the controller observers, which read the object that is watched and the
-- objects whose events explain rejected pods.
use kubectl_safe_rollout.Prelude.{
  String, Bool, List, [], ◌∷◌, ◌≡◌, refl, sym, ◌∙◌, arith, ◌==◌, if◌then◌else◌, any, filter, errorf,
  sprintf, str, wrap, Fallible, ok, err, map,
}
use mathlib.Core.Path.{subst}
use kubectl_safe_rollout.Api.{
  Apimachinery, ObjectMeta, Deployment, StatefulSet, DaemonSet, Selector,
}
use kubectl_safe_rollout.Workload.{
  Workload, from_deployment, from_stateful_set, from_daemon_set, kind, name, namespace, uid,
  pod_selector,
}
use kubectl_safe_rollout.Cluster.{Cluster, ReplicaSet}
use kubectl_safe_rollout.Diagnose.{PodCreationSource}

-- The implementations of `controllerObserver`.
pub data Observer : Type 0 where
  deployment_observer : Observer
  stateful_set_observer : Observer
  daemon_set_observer : Observer

-- `newControllerObserver`
unfoldable pub new_controller_observer : String → Fallible Observer
new_controller_observer k =
    if k == "Deployment"
    then ok deployment_observer
    else (if k == "StatefulSet"
        then ok stateful_set_observer
        else (if k == "DaemonSet"
            then ok daemon_set_observer
            else err (errorf (sprintf "watch does not support kind %q" (str k ∷ [])))))

-- What `get` returns: the workload and the resource version of its object.
abbrev read_as :
    {A : Type 0} → (A → Workload) → (A → ObjectMeta) → Fallible A → Fallible (Workload × String)
read_as wrapped meta (err e) = err e
read_as wrapped meta (ok a) = ok (wrapped a, (meta a).resource_version)

-- `get`
unfoldable pub get : Observer → Cluster → String → String → Fallible (Workload × String)
get deployment_observer c ns n =
    read_as from_deployment (λ (d : Deployment). d.meta) (c.get_deployment ns n)
get stateful_set_observer c ns n =
    read_as from_stateful_set (λ (s : StatefulSet). s.meta) (c.get_stateful_set ns n)
get daemon_set_observer c ns n =
    read_as from_daemon_set (λ (d : DaemonSet). d.meta) (c.get_daemon_set ns n)

-- The inner loop of `listOwnedReplicaSets`: whether an owner reference names the workload.
abbrev pub is_owned_by : Workload → ReplicaSet → Bool
is_owned_by w rs = any (λ u. u == uid w) rs.owner_uids

-- The end of `listOwnedReplicaSets`, once the selector is known.
list_with : Cluster → String → Workload → Selector → Fallible (List ReplicaSet)
list_with c ns w s = elim (c.list_replica_sets ns s.to_string) [
  | err e ↦ err (wrap "listing ReplicaSets for %s/%s: %w" (str ns ∷ str (name w) ∷ []) e)
  | ok sets ↦ ok (filter (is_owned_by w) sets)
]

-- `listOwnedReplicaSets`
unfoldable pub list_owned_replica_sets :
    Apimachinery → Cluster → String → Workload → Fallible (List ReplicaSet)
unfolding list_with
list_owned_replica_sets lib c ns w = elim (pod_selector lib w) [
  | err e ↦ err (wrap "invalid pod selector for %s/%s: %w" (str (kind w) ∷ str (name w) ∷ []) e)
  | ok s ↦ list_with c ns w s
]

replica_set_source : ReplicaSet → PodCreationSource
replica_set_source rs = record {
  kind = "ReplicaSet";
  namespace = rs.meta.namespace;
  name = rs.meta.name;
  uid = rs.meta.uid;
}

-- A controller that creates its pods itself is their only source.
own_source : String → Workload → List PodCreationSource
own_source k w = record { kind = k; namespace = namespace w; name = name w; uid = uid w } ∷ []

-- `podCreationSources`
unfoldable pub pod_creation_sources :
    Apimachinery → Observer → Cluster → Workload → Fallible (List PodCreationSource)
unfolding replica_set_source own_source
pod_creation_sources lib deployment_observer c w =
    elim (list_owned_replica_sets lib c (namespace w) w) [
      | err e ↦ err e
      | ok sets ↦ ok (map replica_set_source sets)
    ]
pod_creation_sources lib stateful_set_observer c w = ok (own_source "StatefulSet" w)
pod_creation_sources lib daemon_set_observer c w = ok (own_source "DaemonSet" w)

abbrev observer_kind : Observer → String
observer_kind deployment_observer = "Deployment"
observer_kind stateful_set_observer = "StatefulSet"
observer_kind daemon_set_observer = "DaemonSet"

read_as-kind :
    {A : Type 0} (wrapped : A → Workload) (meta : A → ObjectMeta) (k : String) (x : Fallible A)
    {v : Workload} {rv : String}
    → ((a : A) → kind (wrapped a) ≡ k)
    → read_as wrapped meta x ≡ ok (v, rv)
    → kind v ≡ k
read_as-kind wrapped meta k (err e) same h = cc
read_as-kind wrapped meta k (ok a) {v} same h = subst (λ u. kind u ≡ k) (ground arith) (same a)

get-kind :
    (o : Observer) (c : Cluster) (ns n : String) {v : Workload} {rv : String}
    → get o c ns n ≡ ok (v, rv)
    → kind v ≡ observer_kind o
unfolding get
get-kind deployment_observer c ns n h =
    read_as-kind from_deployment (λ (x : Deployment). x.meta) "Deployment" (c.get_deployment ns n)
      (λ a. refl) h
get-kind stateful_set_observer c ns n h =
    read_as-kind from_stateful_set (λ (x : StatefulSet). x.meta) "StatefulSet"
      (c.get_stateful_set ns n) (λ a. refl) h
get-kind daemon_set_observer c ns n h =
    read_as-kind from_daemon_set (λ (x : DaemonSet). x.meta) "DaemonSet" (c.get_daemon_set ns n)
      (λ a. refl) h

chosen-kind :
    (w : Workload) {o : Observer}
    → new_controller_observer (kind w) ≡ ok o
    → kind w ≡ observer_kind o
unfolding new_controller_observer
chosen-kind (from_deployment d) h = ground arith
chosen-kind (from_stateful_set s) h = ground arith
chosen-kind (from_daemon_set d) h = ground arith

-- The observer that is chosen by the kind of a workload reads back a workload of that kind.
pub new_controller_observer-get :
    (w : Workload) (c : Cluster) (ns n : String) {o : Observer} {v : Workload} {rv : String}
    → new_controller_observer (kind w) ≡ ok o
    → get o c ns n ≡ ok (v, rv)
    → kind v ≡ kind w
new_controller_observer-get w c ns n {o} chosen read =
    get-kind o c ns n read ∙ sym (chosen-kind w chosen)
