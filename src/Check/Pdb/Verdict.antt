-- ===== src/Check/Pdb/Verdict.antt =====
-- internal/check/pdb.go: which PodDisruptionBudgets the check reports.
use kubectl_safe_rollout.Prelude.{
  String, Dict, Option, none, some, Bool, true, false, not, List, [], ◌∷◌, ◌++◌, ◌≡◌, refl, ◌∙◌, ap,
  arith, ◌&&◌, ◌||◌, ◌==◌, Bool-cases, inl, inr, if◌then◌else◌, Fallible, ok, err, map, map-append,
  flat_map, filter, any, append_assoc, append-nil,
}
use mathlib.Core.Bool.{or-false, or-true, true-or, false-or}
use kubectl_safe_rollout.Prelude.Int.{ℤ, ◌-ℤ◌, i32, pos, leb_ℤ, ltb_ℤ, eq_ℤ}
use kubectl_safe_rollout.Model.{Finding, Severity, ResourceRef, severity_high, severity_low}
use kubectl_safe_rollout.Api.{Apimachinery, IntOrString, Selector, PodDisruptionBudget}
use kubectl_safe_rollout.Workload.{kind, name, pod_labels, update_strategy, recreate}
use kubectl_safe_rollout.Cluster.{Target}
use kubectl_safe_rollout.Check.{found}
use kubectl_safe_rollout.Check.Pdb.{
  at_least_zero, pdb_check_id, allowed_disruptions, selects, pdb_ref, desired, judge, pdb_findings,
  scan, no_pdb_finding, no_headroom_finding, recreate_finding, run_pdb_consistency,
}

-- What of a finding a reader acts on.
abbrev pub headline : Finding → Severity × ResourceRef
headline f = (f.severity, f.resource)

-- What a selector that may be invalid says of labels: an invalid one selects nothing.
abbrev pub picks : Fallible Selector → Dict String → Bool
picks (err e) labels = false
picks (ok s) labels = s.matches labels

-- What is left of a reading, if it succeeds.
abbrev pub left : Fallible ℤ → (ℤ → ℤ) → Option ℤ
left (err e) f = none
left (ok v) f = some (f v)

module _ (lib : Apimachinery) (t : Target) where
  abbrev pub selecting : PodDisruptionBudget → Bool
  selecting pdb = picks (lib.as_selector pdb.selector) (pod_labels t.workload)

  selects-selecting :
      (pdb : PodDisruptionBudget) → selects lib (pod_labels t.workload) pdb ≡ selecting pdb
  unfolding selects
  selects-selecting pdb = by_selector (lib.as_selector pdb.selector)
    where
      by_selector :
          (x : Fallible Selector)
          → (elim x [ err e ↦ false | ok s ↦ s.matches (pod_labels t.workload) ])
            ≡ picks x (pod_labels t.workload)
      by_selector (err e) = refl
      by_selector (ok s) = refl

  -- The disruptions that the spec of a budget allows at the desired replicas, below zero if it asks for
  -- more pods than there are: the replicas less minAvailable, or else maxUnavailable, both rounded up.
  abbrev pub allowance : Option IntOrString → Option IntOrString → Option ℤ
  allowance (some min) max =
      left (lib.scaled_value min (desired lib t) true) (λ v. i32 (desired lib t -ℤ i32 v))
  allowance none (some max) = left (lib.scaled_value max (desired lib t) true) i32
  allowance none none = none

  -- The budget leaves no disruption at all, or, under Recreate, fewer than there are replicas. A
  -- budget whose allowance cannot be computed does not count.
  abbrev pub falls_short : Option ℤ → Bool
  falls_short none = false
  falls_short (some a) =
      leb_ℤ a (pos 0) || (update_strategy t.workload).type == recreate && ltb_ℤ a (desired lib t)

  abbrev is_short : Fallible (ℤ × String) → Bool
  is_short (err e) = false
  is_short (ok (a, mode)) =
      leb_ℤ a (pos 0) || (update_strategy t.workload).type == recreate && ltb_ℤ a (desired lib t)

  abbrev pub lacks_room : PodDisruptionBudget → Bool
  lacks_room pdb = falls_short (allowance pdb.min_available pdb.max_unavailable)

  clamped : (a : ℤ) (mode : String) → is_short (ok (at_least_zero a, mode)) ≡ falls_short (some a)
  clamped a mode = ground arith

  is_short-falls_short :
      (min max : Option IntOrString)
      → is_short (allowed_disruptions lib min max (desired lib t)) ≡ falls_short (allowance min max)
  unfolding allowed_disruptions
  is_short-falls_short (some min) max = by_value (lib.scaled_value min (desired lib t) true)
    where
      by_value :
          (x : Fallible ℤ)
          → is_short (elim x [
            | err e ↦ err e
            | ok v ↦ ok (at_least_zero (i32 (desired lib t -ℤ i32 v)), "minAvailable")
          ])
            ≡ falls_short (left x (λ v. i32 (desired lib t -ℤ i32 v)))
      by_value (err e) = refl
      by_value (ok v) = clamped (i32 (desired lib t -ℤ i32 v)) "minAvailable"
  is_short-falls_short none (some max) = by_value (lib.scaled_value max (desired lib t) true)
    where
      by_value :
          (x : Fallible ℤ)
          → is_short
              (elim x [ err e ↦ err e | ok v ↦ ok (at_least_zero (i32 v), "maxUnavailable") ])
            ≡ falls_short (left x i32)
      by_value (err e) = refl
      by_value (ok v) = clamped (i32 v) "maxUnavailable"
  is_short-falls_short none none = refl

  abbrev pub blocks : PodDisruptionBudget → Bool
  blocks pdb = selecting pdb && lacks_room pdb

  abbrev reported : PodDisruptionBudget → List Finding
  reported pdb = if selecting pdb then pdb_findings lib t pdb else []

  scan_lem :
      (fs : List Finding) (matched : Bool) (pdbs : List PodDisruptionBudget)
      → scan lib t (fs, matched) pdbs
        ≡ (fs ++ flat_map reported pdbs, matched || any selecting pdbs)
  unfolding scan
  scan_lem fs matched [] = rw (append-nil, or-false) refl
  scan_lem fs matched (pdb ∷ pdbs) = elim (Bool-cases (selecting pdb)) [
    | inl e ↦
        rw (selects-selecting pdb, e)
          (scan_lem (fs ++ pdb_findings lib t pdb) true pdbs
            ∙ rw (append_assoc, or-true, true-or) refl)
    | inr e ↦ rw (selects-selecting pdb, e) (scan_lem fs matched pdbs)
  ]

  judge-headline :
      (pdb : PodDisruptionBudget) (x : Fallible (ℤ × String))
      → map headline (judge lib t pdb x)
        ≡ (if is_short x then (severity_high, pdb_ref pdb) ∷ [] else [])
  unfolding judge no_headroom_finding recreate_finding
  judge-headline pdb (err e) = refl
  judge-headline pdb (ok (a, mode)) = ground arith

  pdb_findings-headline :
      (pdb : PodDisruptionBudget)
      → map headline (pdb_findings lib t pdb)
        ≡ (if lacks_room pdb then (severity_high, pdb_ref pdb) ∷ [] else [])
  unfolding pdb_findings
  pdb_findings-headline pdb =
      judge-headline pdb
        (allowed_disruptions lib pdb.min_available pdb.max_unavailable (desired lib t))
      ∙ ap (λ b. if b then (severity_high, pdb_ref pdb) ∷ [] else [])
          (is_short-falls_short pdb.min_available pdb.max_unavailable)

  reported-headline :
      (pdbs : List PodDisruptionBudget)
      → map headline (flat_map reported pdbs)
        ≡ map (λ (pdb : PodDisruptionBudget). (severity_high, pdb_ref pdb)) (filter blocks pdbs)
  reported-headline [] = refl
  reported-headline (pdb ∷ pdbs) = elim (Bool-cases (selecting pdb)) [
    | inl e ↦ elim (Bool-cases (lacks_room pdb)) [
      | inl l ↦
          rw (e, map-append, pdb_findings-headline, l)
            (ap (λ hs. (severity_high, pdb_ref pdb) ∷ hs) (reported-headline pdbs))
      | inr l ↦ rw (e, map-append, pdb_findings-headline, l) (reported-headline pdbs)
    ]
    | inr e ↦ rw e (reported-headline pdbs)
  ]

  abbrev workload_resource : ResourceRef
  workload_resource = record {
    kind = kind t.workload;
    namespace = t.namespace;
    name = name t.workload;
  }

  -- The headlines that the check owes: one High for each budget that selects the pods and lacks room,
  -- in the order of the list, and one Low for a workload of several replicas that no budget selects.
  abbrev pub owed : List PodDisruptionBudget → List (Severity × ResourceRef)
  owed pdbs =
      map (λ (pdb : PodDisruptionBudget). (severity_high, pdb_ref pdb)) (filter blocks pdbs)
      ++ (if not (any selecting pdbs) && ltb_ℤ (pos 1) (desired lib t)
          then (severity_low, workload_resource) ∷ []
          else [])

  finish : (pdbs : List PodDisruptionBudget) → List Finding
  finish pdbs =
      let (fs, matched) = scan lib t ([], false) pdbs in
      if not matched && ltb_ℤ (pos 1) (desired lib t) then fs ++ no_pdb_finding lib t ∷ [] else fs

  finish-owed : (pdbs : List PodDisruptionBudget) → map headline (finish pdbs) ≡ owed pdbs
  unfolding finish no_pdb_finding
  finish-owed pdbs = elim (Bool-cases (not (any selecting pdbs) && ltb_ℤ (pos 1) (desired lib t))) [
    | inl y ↦ rw (scan_lem [] false pdbs, false-or, y, map-append, reported-headline pdbs) refl
    | inr n ↦ rw (scan_lem [] false pdbs, false-or, n, reported-headline pdbs) (rw append-nil refl)
  ]

  -- Over a list of budgets that can be read and a workload with replicas, the check is not skipped and
  -- reports, by severity and resource, one High for each budget whose selector is valid and selects the
  -- pods and whose spec allows no disruption, or under Recreate fewer than there are replicas, in the
  -- order of the list; and one Low for a workload of several replicas that no budget selects.
  pub run_pdb_consistency-owed :
      (pdbs : List PodDisruptionBudget)
      → t.client.list_pod_disruption_budgets t.namespace ≡ ok pdbs
      → eq_ℤ (desired lib t) (pos 0) ≡ false
      → (fs : List Finding) × (run_pdb_consistency lib t ≡ ok (found pdb_check_id fs))
        × (map headline fs ≡ owed pdbs)
  unfolding run_pdb_consistency finish
  run_pdb_consistency-owed pdbs listed running =
      (finish pdbs, rw (listed, run_pdb_consistency, running) refl, finish-owed pdbs)
