-- ===== src/Check/PdbDaemonset/Unverifiable.antt =====
-- internal/check/pdbdaemonset.go: which PodDisruptionBudgets the check reports, and how severely.
use kubectl_safe_rollout.Prelude.{
  String, Bool, true, false, List, [], ◌∷◌, ◌++◌, ◌≡◌, refl, sym, ap, ◌∙◌, Option, none, some, ◌==◌,
  ◌&&◌, ◌||◌, Bool-cases, inl, inr, if◌then◌else◌, ok, map, map-append, filter, append_assoc,
  append-nil, is_some,
}
use kubectl_safe_rollout.Prelude.Int.{pos, eq_ℤ}
use kubectl_safe_rollout.Model.{Finding, Severity, ResourceRef, severity_high, severity_medium}
use kubectl_safe_rollout.Api.{
  Apimachinery, IntOrString, int_value, str_value, PodDisruptionBudget, Condition,
}
use kubectl_safe_rollout.Workload.{kind, pod_labels, replicas}
use kubectl_safe_rollout.Cluster.{Target}
use kubectl_safe_rollout.Check.{found}
use kubectl_safe_rollout.Check.Pdb.{selects, pdb_ref}
use kubectl_safe_rollout.Check.Pdb.Verdict.{headline}
use kubectl_safe_rollout.Check.PdbDaemonset.{
  pdb_daemonset_scale_check_id, pdb_daemonset_unverifiable_form, pdb_daemonset_severity, judge_form,
  unverifiable_finding, scan_forms, judge_list, run_pdb_daemonset_scale,
}

-- Every form but an integer minAvailable alone; a budget with neither field is left to others.
abbrev pub is_unverifiable : PodDisruptionBudget → Bool
is_unverifiable pdb = is_some pdb.max_unavailable || is_percentage pdb.min_available
  where
    is_percentage : Option IntOrString → Bool
    is_percentage (some (str_value s)) = true
    is_percentage _ = false

-- The first condition DisruptionAllowed says that the sync failed.
abbrev pub has_failed : List Condition → Bool
has_failed [] = false
has_failed (c ∷ cs) =
    if c.type == "DisruptionAllowed"
    then c.status == "False" && c.reason == "SyncFailed"
    else has_failed cs

abbrev pub verdict : PodDisruptionBudget → Severity × ResourceRef
verdict pdb = (if has_failed pdb.conditions then severity_high else severity_medium, pdb_ref pdb)

severity-has_failed :
    (cs : List Condition)
    → (pdb_daemonset_severity cs).0 ≡ (if has_failed cs then severity_high else severity_medium)
unfolding pdb_daemonset_severity
severity-has_failed [] = refl
severity-has_failed (c ∷ cs) = elim (Bool-cases (c.type == "DisruptionAllowed")) [
  | inl e ↦ elim (Bool-cases (c.status == "False" && c.reason == "SyncFailed")) [
    | inl f ↦ rw (e, f) refl
    | inr f ↦ rw (e, f) refl
  ]
  | inr e ↦ rw e (severity-has_failed cs)
]

module _ (lib : Apimachinery) (t : Target) where
  abbrev pub is_reported : PodDisruptionBudget → Bool
  is_reported pdb = selects lib (pod_labels t.workload) pdb && is_unverifiable pdb

  headline-judge_form :
      (pdb : PodDisruptionBudget) (form : Option (String × String))
      → map headline (judge_form lib t pdb form) ≡ (if is_some form then verdict pdb ∷ [] else [])
  unfolding judge_form unverifiable_finding
  headline-judge_form pdb none = refl
  headline-judge_form pdb (some (mode, value)) =
      ap (λ s. (s, pdb_ref pdb) ∷ []) (severity-has_failed pdb.conditions)

  is_some-form :
      (min max : Option IntOrString) (pdb : PodDisruptionBudget)
      → pdb.min_available ≡ min
      → pdb.max_unavailable ≡ max
      → is_some (pdb_daemonset_unverifiable_form lib min max) ≡ is_unverifiable pdb
  unfolding pdb_daemonset_unverifiable_form
  is_some-form none none pdb a b = rw (a, b) refl
  is_some-form none (some m) pdb a b = rw (a, b) refl
  is_some-form (some (int_value n)) none pdb a b = rw (a, b) refl
  is_some-form (some (str_value s)) none pdb a b = rw (a, b) refl
  is_some-form (some (int_value n)) (some m) pdb a b = rw (a, b) refl
  is_some-form (some (str_value s)) (some m) pdb a b = rw (a, b) refl

  map-scan_forms :
      (fs : List Finding) (pdbs : List PodDisruptionBudget)
      → map headline (scan_forms lib t fs pdbs)
        ≡ map headline fs ++ map verdict (filter is_reported pdbs)
  unfolding scan_forms
  map-scan_forms fs [] = sym (append-nil (map headline fs))
  map-scan_forms fs (pdb ∷ pdbs) = elim (Bool-cases (selects lib (pod_labels t.workload) pdb)) [
    | inr e ↦ rw e (map-scan_forms fs pdbs)
    | inl e ↦ elim (Bool-cases (is_unverifiable pdb)) [
      | inl f ↦
          rw (e, f)
            (map-scan_forms (fs ++ judged) pdbs
              ∙ rw
                  (
                    map-append,
                    judged_headline ∙ ap (λ b. if b then verdict pdb ∷ [] else []) f,
                    append_assoc,
                  )
                  refl)
      | inr f ↦
          rw (e, f)
            (map-scan_forms (fs ++ judged) pdbs
              ∙ rw
                  (
                    map-append,
                    judged_headline ∙ ap (λ b. if b then verdict pdb ∷ [] else []) f,
                    append-nil,
                  )
                  refl)
    ]
  ]
    where
      judged : List Finding
      judged =
          judge_form lib t pdb
            (pdb_daemonset_unverifiable_form lib pdb.min_available pdb.max_unavailable)

      judged_headline : map headline judged ≡ (if is_unverifiable pdb then verdict pdb ∷ [] else [])
      judged_headline =
          headline-judge_form pdb
            (pdb_daemonset_unverifiable_form lib pdb.min_available pdb.max_unavailable)
          ∙ ap (λ b. if b then verdict pdb ∷ [] else [])
              (is_some-form pdb.min_available pdb.max_unavailable pdb refl refl)

  -- For a DaemonSet with eligible nodes, over a list of budgets that can be read, the check reports
  -- exactly the budgets that select its pods in a form other than an integer minAvailable, as High where
  -- the first condition DisruptionAllowed says that the sync failed and as Medium otherwise.
  pub run_pdb_daemonset_scale-verdict :
      (pdbs : List PodDisruptionBudget)
      → (kind t.workload == "DaemonSet") ≡ true
      → eq_ℤ (replicas t.workload) (pos 0) ≡ false
      → t.client.list_pod_disruption_budgets t.namespace ≡ ok pdbs
      → (fs : List Finding) × (run_pdb_daemonset_scale lib t
          ≡ ok (found pdb_daemonset_scale_check_id fs))
        × (map headline fs ≡ map verdict (filter is_reported pdbs))
  unfolding run_pdb_daemonset_scale judge_list
  run_pdb_daemonset_scale-verdict pdbs k r listed =
      (scan_forms lib t [] pdbs, rw (k, r, listed) refl, map-scan_forms [] pdbs)
