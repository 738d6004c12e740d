-- ===== src/Check/NetworkPolicies.antt =====
-- internal/check/networkpolicy.go: whether any policy that selects the pods lets traffic in.
use kubectl_safe_rollout.Prelude.{
  ℕ, ◌+◌, String, Bool, true, false, not, List, [], ◌∷◌, ◌++◌, ◌≡◌, refl, some, ◌==◌, ◌&&◌, ◌||◌,
  if◌then◌else◌, ltb, plain, sprintf, wrapping, str, num, error_text, Fallible, ok, err, any, all,
  map, filter, length, is_empty, nat_eq, sym, ap, ◌∙◌, arith, append-nil, append_assoc, Bool-cases,
  inl, inr, Dict,
}
use kubectl_safe_rollout.Prelude.Int.{pos}
use kubectl_safe_rollout.Model.{Finding, severity_high}
use kubectl_safe_rollout.Api.{Apimachinery, Selector, NetworkPolicy}
use kubectl_safe_rollout.Workload.{kind, name, pod_labels}
use kubectl_safe_rollout.Cluster.{Target}
use kubectl_safe_rollout.Check.{CheckResult, skip, found}
use kubectl_safe_rollout.Check.Pdb.{workload_ref}
use kubectl_safe_rollout.Check.PdbEviction.{join}

abbrev pub network_policy_ingress_check_id : String
network_policy_ingress_check_id = "network-policy-ingress"

-- `affectsIngress`
unfoldable pub affects_ingress : NetworkPolicy → Bool
affects_ingress np =
    if is_empty np.policy_types then true else any (λ t. t == "Ingress") np.policy_types

-- What the selector of a policy says of the pods of the workload.
abbrev pub selected_by : Fallible Selector → Dict String → Bool
selected_by (err e) labels = false
selected_by (ok s) labels = s.matches labels

module _ (lib : Apimachinery) (t : Target) where
  -- Whether the loop of `NetworkPolicyIngress.Run` keeps the policy.
  abbrev pub restricts : NetworkPolicy → Bool
  restricts np =
      selected_by (lib.as_selector (some np.pod_selector)) (pod_labels t.workload)
      && affects_ingress np

  -- The loop: the policies kept, and the number of their ingress rules.
  unfoldable pub collect_policies :
      List NetworkPolicy → ℕ → List NetworkPolicy → List NetworkPolicy × ℕ
  collect_policies matching total [] = (matching, total)
  collect_policies matching total (np ∷ nps) =
      collect_policies (if restricts np then matching ++ np ∷ [] else matching)
        (if restricts np then total + np.ingress_rules else total) nps

  unfoldable pub unreachable_finding : List NetworkPolicy → Finding
  unreachable_finding matching =
      let names : List String = map (λ (np : NetworkPolicy). np.meta.name) matching in
      record {
        check_id = network_policy_ingress_check_id;
        severity = severity_high;
        cause =
            sprintf
              "%s is selected by %d NetworkPolicy object(s) restricting ingress (%s), and none of them permits any incoming traffic: the workload is unreachable from the network regardless of Service or Ingress health"
              (str (workload_ref t) ∷ num (pos (length matching)) ∷ str (join ", " names) ∷ []);
        evidence =
            sprintf "matchingNetworkPolicies=%s" (str (join "," names) ∷ [])
            ∷ plain "totalIngressRules=0"
            ∷ [];
        remediation = record {
          summary =
              sprintf
                "add an Ingress rule to one of %s permitting the traffic %s actually needs to receive, or remove the policy if it was applied unintentionally"
                (str (join ", " names) ∷ str (workload_ref t) ∷ []);
          commands = sprintf "kubectl get networkpolicy -n %s -o yaml" (str t.namespace ∷ []) ∷ [];
          context_dependent = true;
        };
        resource = record {
          kind = kind t.workload;
          namespace = t.namespace;
          name = name t.workload;
        };
        undetermined = false;
      }

  abbrev pub judge_policies : List NetworkPolicy × ℕ → List Finding
  judge_policies (matching, total) =
      if is_empty matching || ltb 0 total then [] else unreachable_finding matching ∷ []

  abbrev pub judge_policy_list : Fallible (List NetworkPolicy) → CheckResult
  judge_policy_list (err e) =
      skip network_policy_ingress_check_id
        (wrapping "NetworkPolicy list is not accessible: %v" [] (error_text e))
  judge_policy_list (ok nps) =
      found network_policy_ingress_check_id (judge_policies (collect_policies [] 0 nps))

  -- `NetworkPolicyIngress.Run`
  unfoldable pub run_network_policy_ingress : Fallible CheckResult
  run_network_policy_ingress = ok (judge_policy_list (t.client.list_network_policies t.namespace))

  -- The policy selects the pods of the workload, by a selector that is valid, and it restricts ingress:
  -- it says so, or it names no type.
  abbrev pub picks : Fallible Selector → Bool
  picks (err e) = false
  picks (ok s) = s.matches (pod_labels t.workload)

  abbrev pub shuts : NetworkPolicy → Bool
  shuts np =
      picks (lib.as_selector (some np.pod_selector))
      && (is_empty np.policy_types || any (λ type. type == "Ingress") np.policy_types)

  restricts-shuts : (np : NetworkPolicy) → restricts np ≡ shuts np
  unfolding affects_ingress
  restricts-shuts np =
      by_parts (lib.as_selector (some np.pod_selector)) (is_empty np.policy_types)
        (any (λ type. type == "Ingress") np.policy_types)
    where
      by_parts :
          (x : Fallible Selector) (a b : Bool)
          → (selected_by x (pod_labels t.workload) && (if a then true else b))
            ≡ (picks x && (a || b))
      by_parts (err e) a b = refl
      by_parts (ok s) true b = refl
      by_parts (ok s) false b = refl

  -- No policy that restricts the pods lets traffic in.
  abbrev pub denies : List NetworkPolicy → Bool
  denies nps = all (λ (np : NetworkPolicy). nat_eq np.ingress_rules 0) (filter shuts nps)

  collect_policies_lem :
      (matching : List NetworkPolicy) (total : ℕ) (nps : List NetworkPolicy)
      → ((collect_policies matching total nps).0 ≡ matching ++ filter shuts nps)
        × (ltb 0 (collect_policies matching total nps).1 ≡ (ltb 0 total || not (denies nps)))
  unfolding collect_policies
  collect_policies_lem matching total [] = (sym (append-nil matching), ground arith)
  collect_policies_lem matching total (np ∷ nps) = elim (Bool-cases (shuts np)) [
    | inl e ↦
        let (m, r) = collect_policies_lem (matching ++ np ∷ []) (total + np.ingress_rules) nps in
        rw (restricts-shuts np, e, collect_policies)
          (m ∙ append_assoc matching (np ∷ []) (filter shuts nps), ground (arith, r))
    | inr e ↦ rw (restricts-shuts np, e, collect_policies) (collect_policies_lem matching total nps)
  ]

  -- Over a readable list of policies, NetworkPolicyIngress is not skipped, and has a finding exactly if
  -- some policy selects the pods by a valid selector and restricts ingress, by naming it or by naming no
  -- type, and none of these policies has an ingress rule; the finding names them, in the order of the
  -- list.
  pub run_network_policy_ingress-denies :
      (nps : List NetworkPolicy)
      → t.client.list_network_policies t.namespace ≡ ok nps
      → run_network_policy_ingress
        ≡ ok (
            found network_policy_ingress_check_id (
              if not (is_empty (filter shuts nps)) && denies nps
              then unreachable_finding (filter shuts nps) ∷ []
              else []))
  unfolding run_network_policy_ingress
  run_network_policy_ingress-denies nps h =
      let (m, r) = collect_policies_lem [] 0 nps in
      rw (h, m, r)
        (ap (λ fs. ok (found network_policy_ingress_check_id fs))
          (swapped (is_empty (filter shuts nps)) (denies nps) _ _))
    where
      swapped :
          (a b : Bool) (x y : List Finding)
          → (if a || not b then x else y) ≡ (if not a && b then y else x)
      swapped true b x y = refl
      swapped false true x y = refl
      swapped false false x y = refl
