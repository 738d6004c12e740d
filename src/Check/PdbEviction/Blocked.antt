-- ===== src/Check/PdbEviction/Blocked.antt =====
-- internal/check/pdbeviction.go: when evictions are reported as blocked, and how this relates to
-- pdb-consistency.
use kubectl_safe_rollout.Prelude.{
  Bool, true, false, not, List, [], ◌∷◌, ◌++◌, ◌≡◌, refl, sym, ap, ◌∙◌, Bool-cases, inl, inr,
  if◌then◌else◌, is_empty, filter, map, append_assoc, append-nil, ◌==◌, ◌&&◌, Fallible, ok, err,
  String,
}
use mathlib.Core.Bool.{false≢true}
use kubectl_safe_rollout.Prelude.Int.{ℤ, pos, eq_ℤ, leb_ℤ}
use kubectl_safe_rollout.Model.{Finding, Severity, ResourceRef, severity_high, severity_medium}
use kubectl_safe_rollout.Api.{Apimachinery, PodDisruptionBudget}
use kubectl_safe_rollout.Workload.{
  kind, name, pod_labels, replicas, rollout_complete, update_strategy, recreate,
}
use kubectl_safe_rollout.Cluster.{Target}
use kubectl_safe_rollout.Check.{found}
use kubectl_safe_rollout.Check.Pdb.{selects, pdb_ref, allowed_disruptions, judge, pdb_findings}
use kubectl_safe_rollout.Check.Pdb.Verdict.{headline}
use kubectl_safe_rollout.Check.PdbEviction.{
  pdb_eviction_blocked_check_id, fact_a_finding, live_finding, live_findings, fact_b_finding,
  matched_findings, matching, judge_evictions, run_pdb_eviction_blocked,
}

module _ (lib : Apimachinery) (t : Target) where
  abbrev pub leaves_room : Fallible (ℤ × String) → Bool
  leaves_room (err e) = false
  leaves_room (ok (a, mode)) = not (leb_ℤ a (pos 0))

  -- The status is current, allows no disruption and has no pod under eviction, the rollout is complete,
  -- and the spec leaves room.
  abbrev pub is_blocked_live : PodDisruptionBudget → Bool
  is_blocked_live pdb =
      eq_ℤ pdb.observed_generation pdb.meta.generation
      && eq_ℤ pdb.disruptions_allowed (pos 0)
      && is_empty pdb.disrupted_pods
      && rollout_complete t.workload
      && leaves_room
          (allowed_disruptions lib pdb.min_available pdb.max_unavailable (replicas t.workload))

  -- What the check owes for the budgets that select the pods.
  abbrev pub owed_evictions : List PodDisruptionBudget → List (Severity × ResourceRef)
  owed_evictions [] = []
  owed_evictions (pdb ∷ []) =
      if is_blocked_live pdb then (severity_medium, pdb_ref pdb) ∷ [] else []
  owed_evictions (p ∷ q ∷ pdbs) =
      (
        severity_high,
        record { kind = kind t.workload; namespace = t.namespace; name = name t.workload },
      )
      ∷ []

  matching-filter :
      (acc pdbs : List PodDisruptionBudget)
      → matching lib t acc pdbs ≡ acc ++ filter (selects lib (pod_labels t.workload)) pdbs
  unfolding matching
  matching-filter acc [] = sym (append-nil acc)
  matching-filter acc (pdb ∷ pdbs) = elim (Bool-cases (selects lib (pod_labels t.workload) pdb)) [
    | inl e ↦ rw e (
        matching-filter (acc ++ pdb ∷ []) pdbs
        ∙ append_assoc acc (pdb ∷ []) (filter (selects lib (pod_labels t.workload)) pdbs))
    | inr e ↦ rw e (matching-filter acc pdbs)
  ]

  headline-live_findings :
      (pdb : PodDisruptionBudget) (x : Fallible (ℤ × String))
      → map headline (live_findings lib t pdb x)
        ≡ (if leaves_room x then (severity_medium, pdb_ref pdb) ∷ [] else [])
  unfolding live_findings live_finding
  headline-live_findings pdb (err e) = refl
  headline-live_findings pdb (ok (a, mode)) = elim (Bool-cases (leb_ℤ a (pos 0))) [
    | inl e ↦ rw e refl
    | inr e ↦ rw e refl
  ]

  headline-fact_b_finding :
      (pdb : PodDisruptionBudget)
      → map headline (fact_b_finding lib t pdb)
        ≡ (if is_blocked_live pdb then (severity_medium, pdb_ref pdb) ∷ [] else [])
  unfolding fact_b_finding
  headline-fact_b_finding pdb =
      elim (Bool-cases (eq_ℤ pdb.observed_generation pdb.meta.generation)) [
        | inr e ↦ rw e refl
        | inl e ↦ elim (Bool-cases (eq_ℤ pdb.disruptions_allowed (pos 0))) [
          | inr f ↦ rw (e, f) refl
          | inl f ↦ elim (Bool-cases (is_empty pdb.disrupted_pods)) [
            | inr g ↦ rw (e, f, g) refl
            | inl g ↦ elim (Bool-cases (rollout_complete t.workload)) [
              | inr h ↦ rw (e, f, g, h) refl
              | inl h ↦
                  rw (e, f, g, h)
                    (headline-live_findings pdb (
                      allowed_disruptions lib pdb.min_available pdb.max_unavailable
                        (replicas t.workload)))
            ]
          ]
        ]
      ]

  headline-matched_findings :
      (pdbs : List PodDisruptionBudget)
      → map headline (matched_findings lib t pdbs) ≡ owed_evictions pdbs
  unfolding matched_findings fact_a_finding
  headline-matched_findings [] = refl
  headline-matched_findings (pdb ∷ []) = headline-fact_b_finding pdb
  headline-matched_findings (p ∷ q ∷ pdbs) = refl

  -- For a workload with replicas and a list of budgets that can be read, the check reports the workload
  -- as High if two budgets or more select its pods, and a single budget as Medium exactly if it is
  -- blocked live, against its spec.
  pub run_pdb_eviction_blocked-owed :
      (pdbs : List PodDisruptionBudget)
      → eq_ℤ (replicas t.workload) (pos 0) ≡ false
      → t.client.list_pod_disruption_budgets t.namespace ≡ ok pdbs
      → (fs : List Finding) × (run_pdb_eviction_blocked lib t
          ≡ ok (found pdb_eviction_blocked_check_id fs))
        × (map headline fs ≡ owed_evictions (filter (selects lib (pod_labels t.workload)) pdbs))
  unfolding run_pdb_eviction_blocked judge_evictions
  run_pdb_eviction_blocked-owed pdbs r listed = (
    matched_findings lib t (matching lib t [] pdbs),
    rw (r, listed) refl,
    ap (λ ps. map headline (matched_findings lib t ps)) (matching-filter [] pdbs)
        ∙ headline-matched_findings (filter (selects lib (pod_labels t.workload)) pdbs),
  )

  live_findings-judge :
      (pdb : PodDisruptionBudget) (x : Fallible (ℤ × String))
      → ((update_strategy t.workload).type == recreate) ≡ false
      → is_empty (live_findings lib t pdb x) ≡ false
      → judge lib t pdb x ≡ []
  unfolding live_findings judge
  live_findings-judge pdb (err e) r h = refl
  live_findings-judge pdb (ok (a, mode)) r h = elim (Bool-cases (leb_ℤ a (pos 0))) [
    | inl e ↦ absurd (false≢true (sym h ∙ rw e refl))
    | inr e ↦ rw (e, r) refl
  ]

  guarded :
      (a b c d : Bool) (fs : List Finding)
      → is_empty (
          if not a
          then []
          else (if not b then [] else (if not c then [] else (if not d then [] else fs))))
        ≡ false
      → is_empty fs ≡ false
  guarded true true true true fs h = h
  guarded true true true false fs h = absurd (false≢true (sym h))
  guarded true true false d fs h = absurd (false≢true (sym h))
  guarded true false c d fs h = absurd (false≢true (sym h))
  guarded false b c d fs h = absurd (false≢true (sym h))

  -- Unless the strategy is Recreate, pdb-consistency has no finding on a budget on which
  -- pdb-eviction-blocked has one against its status: the two never report the same budget.
  pub fact_b_finding-pdb_findings :
      (pdb : PodDisruptionBudget)
      → is_empty (fact_b_finding lib t pdb) ≡ false
      → ((update_strategy t.workload).type == recreate) ≡ false
      → pdb_findings lib t pdb ≡ []
  unfolding fact_b_finding pdb_findings
  fact_b_finding-pdb_findings pdb h r =
      live_findings-judge pdb
        (allowed_disruptions lib pdb.min_available pdb.max_unavailable (replicas t.workload)) r
        (guarded (eq_ℤ pdb.observed_generation pdb.meta.generation)
          (eq_ℤ pdb.disruptions_allowed (pos 0)) (is_empty pdb.disrupted_pods)
          (rollout_complete t.workload)
          (live_findings lib t pdb
            (allowed_disruptions lib pdb.min_available pdb.max_unavailable (replicas t.workload)))
          h)
