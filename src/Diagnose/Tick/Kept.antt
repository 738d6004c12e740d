-- ===== src/Diagnose/Tick/Kept.antt =====
-- internal/diagnose/watch.go: what holds of every result of a tick holds of those that it reports.
use kubectl_safe_rollout.Prelude.{
  String, List, [], ◌∷◌, ◌++◌, ◌≡◌, sym, ◌∙◌, Option, none, some, ◌==◌, if◌then◌else◌, is_empty,
  is_some, All, All-append, if_lem, Error, Text, Fallible, ok, err, Dict, lookup, insert, delete,
}
use mathlib.Core.Path.{subst}
use kubectl_safe_rollout.Workload.{Workload}
use kubectl_safe_rollout.Cluster.{Cluster}
use kubectl_safe_rollout.Diagnose.{Result, any_findings, skip_result, run_diagnosis}
use kubectl_safe_rollout.Diagnose.Observer.{Observer}
use kubectl_safe_rollout.Diagnose.Restarts.{Pods}
use kubectl_safe_rollout.Diagnose.Tick.{
  WatchTarget, Tick, index_results, replace_one, replace_in, append_left, replace_skipped_results,
  or_skip, collect_sources, collect_events, tick_target, classify, evaluate_tick,
}
use kubectl_safe_rollout.Diagnose.Tick.Priority.{evaluate_tick-IsConsistent, evaluate_tick_succeeds}

module _ (P : Result → Type 0) where
  abbrev InDict : Dict Result → Type 0
  InDict = All (λ (e : String × Result). P e.1)

  InDict-insert :
      (k : String) (r : Result) (m : Dict Result) → P r → InDict m → InDict (insert k r m)
  InDict-insert k r [] p q = (p, tt)
  InDict-insert k r ((j, s) ∷ m) p q =
      if_lem InDict (j == k) (p, q.1) (q.0, InDict-insert k r m p q.1)

  InDict-delete : (k : String) (m : Dict Result) → InDict m → InDict (delete k m)
  InDict-delete k [] q = tt
  InDict-delete k ((j, s) ∷ m) q =
      let rest : InDict (delete k m) = InDict-delete k m q.1 in
      if_lem InDict (j == k) rest (q.0, rest)

  abbrev OfAny : Option Result → Type 0
  OfAny none = Unit
  OfAny (some r) = P r

  OfAny-lookup : (k : String) (m : Dict Result) → InDict m → OfAny (lookup k m)
  OfAny-lookup k [] q = tt
  OfAny-lookup k ((j, s) ∷ m) q = if_lem OfAny (j == k) q.0 (OfAny-lookup k m q.1)

  InDict-index_results :
      (m : Dict Result) (rs : List Result) → InDict m → All P rs → InDict (index_results m rs)
  unfolding index_results
  InDict-index_results m [] q h = q
  InDict-index_results m (r ∷ rs) q h =
      InDict-index_results (insert r.diagnoser_id r m) rs (InDict-insert r.diagnoser_id r m h.0 q)
        h.1

  abbrev Both : Result × Dict Result → Type 0
  Both x = P x.0 × InDict x.1

  replaced :
      (m : Dict Result) (r : Result) (o : Option Result)
      → OfAny o
      → InDict m
      → P r
      → Both (elim o [ none ↦ (r, m) | some q ↦ (q, delete r.diagnoser_id m) ])
  replaced m r none u q p = (p, q)
  replaced m r (some s) u q p = (u, InDict-delete r.diagnoser_id m q)

  replace_in-All :
      (m : Dict Result) (rs : List Result)
      → InDict m
      → All P rs
      → All P (replace_in m rs).0 × InDict (replace_in m rs).1
  unfolding replace_in
  replace_in-All m [] q h = (tt, q)
  replace_in-All m (r ∷ rs) q h =
      let (one, left) =
        replaced m r (lookup r.diagnoser_id m) (OfAny-lookup r.diagnoser_id m q) q h.0 in
      let (out, rest) = replace_in-All (replace_one m r).1 rs left h.1 in ((one, out), rest)

  append_left-All : (m : Dict Result) (rs : List Result) → All P rs → All P (append_left m rs)
  unfolding append_left
  append_left-All m [] h = tt
  append_left-All m (r ∷ rs) h =
      if_lem (All P) (is_some (lookup r.diagnoser_id m))
        (h.0, append_left-All (delete r.diagnoser_id m) rs h.1) (append_left-All m rs h.1)

  replace_skipped_results-All :
      (results skipped : List Result)
      → All P results
      → All P skipped
      → All P (replace_skipped_results results skipped)
  unfolding replace_skipped_results
  replace_skipped_results-All results skipped h k =
      let m : Dict Result = index_results [] skipped in
      All-append P (replace_in m results).0 (append_left (replace_in m results).1 skipped)
        (replace_in-All m results (InDict-index_results [] skipped tt k) h).0
        (append_left-All (replace_in m results).1 skipped k)

  or_skip-All :
      {A : Type 0} (id : String) (reason : Error → Text) (x : Fallible (List A))
      → ((i : String) (u : Text) → P (skip_result i u))
      → All P (or_skip id reason x).1
  unfolding or_skip
  or_skip-All id reason (ok xs) s = tt
  or_skip-All id reason (err e) s = (s id (reason e), tt)

  classify-All :
      (wl : Workload) (collection results : List Result)
      → All P results
      → All P collection
      → All P (classify wl collection results).outcome.results
  unfolding classify
  classify-All wl collection results h k =
      if_lem (λ (t : Tick). All P t.outcome.results)
        (any_findings
          (if is_empty collection then results else replace_skipped_results results collection))
        (if_lem (All P) (is_empty collection) h
          (replace_skipped_results-All results collection h k))
        tt

  -- What holds of the results of every run of the diagnosers and of every skipped result, holds of the
  -- results that an evaluation reports.
  pub evaluate_tick-All :
      (wt : WatchTarget) (o : Observer) (c : Cluster) (pods : Pods) (t : Tick)
      → ((i : String) (u : Text) → P (skip_result i u))
      → ((wl : Workload) (rs : List Result)
          → run_diagnosis wt.diagnosers (tick_target wt o c pods wl) ≡ ok rs
          → All P rs)
      → evaluate_tick wt o c pods ≡ ok t
      → All P t.outcome.results
  unfolding collect_sources collect_events
  evaluate_tick-All wt o c pods t s ran h =
      let (wl, rs, reads, truly) = evaluate_tick-IsConsistent wt o c pods t h in
      let e : classify wl ((collect_sources wt o c wl).1 ++ (collect_events wt c).1) rs ≡ t =
        same (sym (evaluate_tick_succeeds wt o c pods wl rs reads) ∙ h) in
      subst (λ (u : Tick). All P u.outcome.results) e
        (classify-All wl ((collect_sources wt o c wl).1 ++ (collect_events wt c).1) rs
          (ran wl rs reads.2)
          (All-append P (collect_sources wt o c wl).1 (collect_events wt c).1 (or_skip-All _ _ _ s)
            (or_skip-All _ _ _ s)))
    where
      same : {a b : Tick} → (ok a) ≡ (ok b) → a ≡ b
      same h = cc
