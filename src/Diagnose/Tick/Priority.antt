-- ===== src/Diagnose/Tick/Priority.antt =====
-- internal/diagnose/watch.go: what a tick reports, and that a finding takes precedence over a rollout
-- that looks complete.
use kubectl_safe_rollout.Prelude.{
  String, Bool, true, false, not, arith, any, ◌&&◌, List, [], ◌∷◌, ◌≡◌, refl, sym, ap, ◌∙◌, ◌++◌,
  if◌then◌else◌, is_empty, Bool-cases, inl, inr, Fallible, ok, err,
}
use mathlib.Core.Path.{subst}
use kubectl_safe_rollout.Workload.{Workload, name, rollout_complete}
use kubectl_safe_rollout.Cluster.{Cluster}
use kubectl_safe_rollout.Diagnose.{Result, any_findings, run_diagnosis}
use kubectl_safe_rollout.Diagnose.Observer.{Observer, get}
use kubectl_safe_rollout.Diagnose.Restarts.{Pods}
use kubectl_safe_rollout.Diagnose.Tick.{
  WatchTarget, Tick, collect_sources, collect_events, tick_target, replace_skipped_results,
  classify, classify_diagnosis, evaluate_read, evaluate_tick,
}

-- What a tick says of its own outcome, given the workload that it read.
abbrev pub IsConsistent : Workload → Tick → Type 0
IsConsistent wl t =
    (t.failure_found ≡ any_findings t.outcome.results)
    × (t.complete ≡ (if t.failure_found then false else rollout_complete wl))
    × (t.outcome.succeeded ≡ false)

classify-IsConsistent :
    (wl : Workload) (collection results : List Result)
    → IsConsistent wl (classify wl collection results)
unfolding classify any_findings
classify-IsConsistent wl collection results =
    elim (Bool-cases (
      any_findings
        (if is_empty collection then results else replace_skipped_results results collection))) [
          | inl e ↦ rw e (sym e, refl, refl)
          | inr e ↦ rw e (refl, refl, refl)
        ]

abbrev pub has_findings : List Result → Bool
has_findings = any (λ (r : Result). not (is_empty r.findings))

any_findings-has_findings : (rs : List Result) → any_findings rs ≡ has_findings rs
unfolding any_findings
any_findings-has_findings [] = refl
any_findings-has_findings (r ∷ rs) = ground (arith, any_findings-has_findings rs)

-- What a tick reports, given the workload that it read, the results of the reads that failed, and the
-- results of the diagnosers: each of those, with the failed reads in their places.
abbrev pub shown : List Result → List Result → List Result
shown collection results =
    if is_empty collection then results else replace_skipped_results results collection

abbrev pub Reports : Workload → List Result → Tick → Type 0
Reports wl rs t =
    (t.failure_found ≡ has_findings rs)
    × (t.complete ≡ (not (has_findings rs) && rollout_complete wl))
    × (t.outcome ≡ record { succeeded = false; results = if has_findings rs then rs else [] })

classify-Reports :
    (wl : Workload) (collection results : List Result)
    → Reports wl (shown collection results) (classify wl collection results)
unfolding classify
classify-Reports wl collection results =
    by_findings (any_findings-has_findings (shown collection results))
  where
    by_findings :
        any_findings (shown collection results) ≡ has_findings (shown collection results)
        → Reports wl (shown collection results) (classify wl collection results)
    by_findings same = elim (Bool-cases (has_findings (shown collection results))) [
      | inl e ↦ rw (same, e) (refl, refl, refl)
      | inr e ↦ rw (same, e) (refl, refl, refl)
    ]

module _ (wt : WatchTarget) (o : Observer) (c : Cluster) (pods : Pods) where
  -- The reads that an evaluation needs: the workload, and a result of every diagnoser.
  abbrev pub Reads : Workload → List Result → Type 0
  Reads wl results =
      (rv : String) × (get o c wt.namespace (name wt.workload) ≡ ok (wl, rv))
      × (run_diagnosis wt.diagnosers (tick_target wt o c pods wl) ≡ ok results)

  abbrev pub unread : Workload → List Result
  unread wl = (collect_sources wt o c wl).1 ++ (collect_events wt c).1

  evaluate_read-ok :
      (read : Fallible (Workload × String)) (t : Tick)
      → evaluate_read wt o c pods read ≡ ok t
      → (wl : Workload) × (rv : String) × (read ≡ ok (wl, rv))
        × (classify_diagnosis wl
              (unread wl)
              (run_diagnosis wt.diagnosers (tick_target wt o c pods wl))
            ≡ ok t)
  unfolding evaluate_read
  evaluate_read-ok (err e) t h = cc
  evaluate_read-ok (ok (wl, rv)) t h = (wl, rv, refl, h)

  classify_diagnosis-ok :
      (wl : Workload) (results : Fallible (List Result)) (t : Tick)
      → classify_diagnosis wl (unread wl) results ≡ ok t
      → (rs : List Result) × (results ≡ ok rs) × (classify wl (unread wl) rs ≡ t)
  unfolding classify_diagnosis
  classify_diagnosis-ok wl (err e) t h = cc
  classify_diagnosis-ok wl (ok rs) t h = (rs, refl, cc)

  pub evaluate_tick-IsConsistent :
      (t : Tick)
      → evaluate_tick wt o c pods ≡ ok t
      → (wl : Workload) × (results : List Result) × Reads wl results × IsConsistent wl t
  unfolding evaluate_tick
  evaluate_tick-IsConsistent t h =
      let (wl, rv, read, rest) = evaluate_read-ok (get o c wt.namespace (name wt.workload)) t h in
      let (rs, ran, e) =
        classify_diagnosis-ok wl (run_diagnosis wt.diagnosers (tick_target wt o c pods wl)) t
          rest in
      (
        wl,
        rs,
        (rv, read, ran),
        subst (λ u. IsConsistent wl u) e (classify-IsConsistent wl (unread wl) rs),
      )

  -- An evaluation that succeeds has read the workload and a result of every diagnoser. With the results
  -- of the diagnosers, in which those of failed reads have taken their places, it finds a failure exactly
  -- if one of them has a finding, and then reports them all; and it is complete exactly if none has a
  -- finding and the workload that it read is rolled out.
  pub evaluate_tick-Reports :
      (t : Tick)
      → evaluate_tick wt o c pods ≡ ok t
      → (wl : Workload) × (results : List Result) × Reads wl results
        × Reports wl (shown (unread wl) results) t
  unfolding evaluate_tick
  evaluate_tick-Reports t h =
      let (wl, rv, read, rest) = evaluate_read-ok (get o c wt.namespace (name wt.workload)) t h in
      let (rs, ran, e) =
        classify_diagnosis-ok wl (run_diagnosis wt.diagnosers (tick_target wt o c pods wl)) t
          rest in
      (
        wl,
        rs,
        (rv, read, ran),
        subst (λ u. Reports wl (shown (unread wl) rs) u) e (classify-Reports wl (unread wl) rs),
      )

  -- An evaluation fails only where the workload cannot be read or a diagnoser fails: reads of the
  -- pod creation sources and of the events that fail are reported with the results.
  pub evaluate_tick_succeeds :
      (wl : Workload) (results : List Result)
      → Reads wl results
      → evaluate_tick wt o c pods
        ≡ ok (classify wl ((collect_sources wt o c wl).1 ++ (collect_events wt c).1) results)
  unfolding evaluate_tick evaluate_read classify_diagnosis
  evaluate_tick_succeeds wl results (rv, read, ran) = rw (read, ran) refl

  -- No evaluation reports a complete rollout and a failure.
  pub evaluate_tick_exclusive :
      (t : Tick) → evaluate_tick wt o c pods ≡ ok t → t.failure_found ≡ true → t.complete ≡ false
  evaluate_tick_exclusive t h f =
      let (wl, rs, reads, (found, complete, failed)) = evaluate_tick-IsConsistent t h in
      complete ∙ ap (λ b. if b then false else rollout_complete wl) f
