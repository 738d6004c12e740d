-- ===== src/Resolve.antt =====
-- internal/kube/resolve.go: the workload that a reference names.
pub mod Names
pub mod Kinds
use kubectl_safe_rollout.Prelude.{
  ℕ, String, Bool, List, [], ◌∷◌, Option, none, some, ◌==◌, ◌||◌, if◌then◌else◌, nat_eq, any, str,
  sprintf, errorf, wrap, Error, Fallible, ok, err, to_lower,
}
use Prim.Native.Char.{Char, code}
use Prim.Native.String.{[] as end, ◌∷◌ as ◌then◌}
use kubectl_safe_rollout.Workload.{Workload, from_deployment, from_stateful_set, from_daemon_set}
use kubectl_safe_rollout.Cluster.{Cluster}

-- The parts with a character in front of the first one.
abbrev pub in_front : Char → List String → List String
in_front c [] = []
in_front c (p ∷ ps) = (c then p) ∷ ps

-- strings.Split(s, sep), for a separator of one character.
unfoldable pub split : ℕ → String → List String
split d end = "" ∷ []
split d (c then s) =
    let parts = split d s in if nat_eq (code c) d then "" ∷ parts else in_front c parts

-- The test of `splitRef` on the parts.
unfoldable pub two_parts : List String → Option (String × String)
two_parts (k ∷ n ∷ []) = if k == "" || n == "" then none else some (k, n)
two_parts _ = none

unfoldable pub accept : String → Option (String × String) → Fallible (String × String)
accept ref none = err (
    errorf
      (sprintf "invalid reference %q, expected <kind>/<name> (e.g. deployment/api)" (str ref ∷ [])))
accept ref (some (k, n)) = ok (k, n)

-- `splitRef`
unfoldable pub split_ref : String → Fallible (String × String)
unfolding split two_parts accept
split_ref ref = accept ref (two_parts (split b'/' ref))

-- What the API server answered for a reference, as a workload.
abbrev pub read_as :
    {A : Type 0} → (A → Workload) → String → String → String → Fallible A → Fallible Workload
read_as of f ns n (ok d) = ok (of d)
read_as of f ns n (err e) = err (wrap f (str ns ∷ str n ∷ []) e)

-- The names of the three kinds in the cases of `ResolveWorkload`.
abbrev pub deployment_aliases : List String
deployment_aliases =
    "deployment" ∷ "deployments" ∷ "deploy" ∷ "deploy.apps" ∷ "deployment.apps" ∷ []

abbrev pub stateful_set_aliases : List String
stateful_set_aliases = "statefulset" ∷ "statefulsets" ∷ "sts" ∷ "sts.apps" ∷ "statefulset.apps" ∷ []

abbrev pub daemon_set_aliases : List String
daemon_set_aliases = "daemonset" ∷ "daemonsets" ∷ "ds" ∷ "ds.apps" ∷ "daemonset.apps" ∷ []

-- The switch of `ResolveWorkload` on the kind.
unfoldable pub resolve_kind : Cluster → String → String → String → Fallible Workload
resolve_kind c ns kind n =
    let k : String = to_lower kind in
    if any (λ alias. k == alias) deployment_aliases
    then read_as from_deployment "reading Deployment %s/%s: %w" ns n (c.get_deployment ns n)
    else (if any (λ alias. k == alias) stateful_set_aliases
        then read_as from_stateful_set "reading StatefulSet %s/%s: %w" ns n
            (c.get_stateful_set ns n)
        else (if any (λ alias. k == alias) daemon_set_aliases
            then read_as from_daemon_set "reading DaemonSet %s/%s: %w" ns n (c.get_daemon_set ns n)
            else err (
                errorf (
                  sprintf
                    "kind %q is not supported in this version (only Deployment, StatefulSet and DaemonSet are supported)"
                    (str kind ∷ [])))))

-- `ResolveWorkload`
unfoldable pub resolve_workload : Cluster → String → String → Fallible Workload
resolve_workload c ns ref = elim (split_ref ref) [
  | err e ↦ err e
  | ok (kind, n) ↦ resolve_kind c ns kind n
]
