-- ===== src/Diagnose/Watch/AtOnce.antt =====
-- internal/diagnose/watch.go: which findings end the observation at once.
use kubectl_safe_rollout.Prelude.{
  ℕ, Bool, true, false, not, List, [], ◌∷◌, ◌==◌, any, Bool-cases, inl, inr, Fallible, ◌≢◌, ◌≡◌,
  refl, sym, ◌∙◌, arith, ◌&&◌, ◌||◌, all, is_empty, ok,
}
use kubectl_safe_rollout.Model.{Finding}
use kubectl_safe_rollout.Cluster.{Cluster}
use kubectl_safe_rollout.Diagnose.{Result, all_findings}
use kubectl_safe_rollout.Diagnose.Results.{any_findings-all_findings}
use kubectl_safe_rollout.Diagnose.Tick.Priority.{evaluate_tick-IsConsistent}
use kubectl_safe_rollout.Diagnose.Observer.{Observer}
use kubectl_safe_rollout.Diagnose.Tick.{WatchTarget, Outcome, Tick, evaluate_tick}
use kubectl_safe_rollout.Diagnose.Watch.{
  Loop, finished, going_on, wait_undetermined, settle, then_stability, handle_evaluated,
  handle_tick, wait_paused,
}
use kubectl_safe_rollout.Diagnose.Watch.Kinds.{
  all_undetermined, is_settle_window_only, settle_window_diagnoser_ids, all_undetermined_lem,
  is_settle_window_only_lem,
}

-- Some finding is not undetermined, and some finding is of another diagnoser than the two whose findings
-- a pause, or an update that is held back by hand, may explain.
abbrev pub IsDetermined : Outcome → Type 0
IsDetermined o =
    (any (λ (f : Finding). not f.undetermined) (all_findings o.results) ≡ true)
    × (any
          (λ (r : Result).
            not (is_empty r.findings)
            && (not (r.diagnoser_id == "rollout-paused")
                && not (r.diagnoser_id == "statefulset-update")))
          o.results
        ≡ true)

-- Neither window is open.
abbrev pub IsFresh : Loop → Type 0
IsFresh s = (s.grace_ticker ≡ false) × (s.paused_ticker ≡ false)

-- A test that fails somewhere does not hold everywhere, and the other way round.
any-not-all :
    {A : Type 0} (p q : A → Bool)
    → ((x : A) → q x ≡ not (p x))
    → (xs : List A) → any q xs ≡ not (all p xs)
any-not-all p q h [] = refl
any-not-all p q h (x ∷ xs) = rw (h x, any-not-all p q h xs) (ground arith)

going_on≢finished : {s : Loop} {r : Fallible Outcome} → going_on s ≢ finished r
going_on≢finished e = cc

module _ (wt : WatchTarget) (o : Observer) where
  module _ (c : Cluster) (now : ℕ) (s : Loop) (t : Tick)
      (h : evaluate_tick wt o c s.pods ≡ ok t) where
    abbrev has_any : Bool
    has_any = not (is_empty (all_findings t.outcome.results))

    found : t.failure_found ≡ has_any
    found =
        let (wl, rs, reads, (f, g, k)) = evaluate_tick-IsConsistent wt o c s.pods t h in
        f ∙ any_findings-all_findings t.outcome.results

    some_known :
        any (λ (f : Finding). not f.undetermined) (all_findings t.outcome.results)
        ≡ not (all (λ (f : Finding). f.undetermined) (all_findings t.outcome.results))
    some_known =
        any-not-all (λ (f : Finding). f.undetermined) (λ (f : Finding). not f.undetermined)
          (λ f. refl) (all_findings t.outcome.results)

    some_other :
        any
          (λ (r : Result).
            not (is_empty r.findings)
            && (not (r.diagnoser_id == "rollout-paused")
                && not (r.diagnoser_id == "statefulset-update")))
          t.outcome.results
        ≡ not (
            all
              (λ (r : Result). is_empty r.findings || settle_window_diagnoser_ids r.diagnoser_id)
              t.outcome.results)
    some_other =
        any-not-all
          (λ (r : Result). is_empty r.findings || settle_window_diagnoser_ids r.diagnoser_id)
          (λ (r : Result).
            not (is_empty r.findings)
            && (not (r.diagnoser_id == "rollout-paused")
                && not (r.diagnoser_id == "statefulset-update")))
          (λ r. ground arith) t.outcome.results

    any-has :
        (any (λ (f : Finding). not f.undetermined) (all_findings t.outcome.results) ≡ true)
        → has_any ≡ true
    any-has = by_findings (all_findings t.outcome.results)
      where
        by_findings :
            (fs : List Finding)
            → any (λ (f : Finding). not f.undetermined) fs ≡ true
            → not (is_empty fs) ≡ true
        by_findings [] e = e
        by_findings (f ∷ fs) e = refl

    returned_at_once : IsDetermined t.outcome → handle_tick wt o c now s ≡ finished (ok t.outcome)
    unfolding handle_tick handle_evaluated settle then_stability
    returned_at_once (d, n) = rw (h, found ∙ any-has d, undetermined, settles) refl
      where
        undetermined : all_undetermined t.outcome ≡ false
        undetermined = all_undetermined_lem t.outcome ∙ ground (arith, d, some_known)

        settles : is_settle_window_only t.outcome ≡ false
        settles = is_settle_window_only_lem t.outcome ∙ ground (arith, n, some_other)

    found-IsDetermined :
        has_any ≡ true
        → all_undetermined t.outcome ≡ false
        → is_settle_window_only t.outcome ≡ false
        → IsDetermined t.outcome
    found-IsDetermined a u p = (
      ground (arith, a, u, all_undetermined_lem t.outcome, some_known),
      ground (arith, a, p, is_settle_window_only_lem t.outcome, some_other),
    )

    only-IsDetermined :
        IsFresh s
        → (r : Fallible Outcome) → handle_tick wt o c now s ≡ finished r
        → IsDetermined t.outcome
    unfolding handle_tick handle_evaluated settle wait_undetermined wait_paused then_stability
    only-IsDetermined (g, p) r e = elim (Bool-cases t.failure_found) [
      | inr n ↦ absurd (going_on≢finished (rw (h, n) at e))
      | inl f ↦ elim (Bool-cases (all_undetermined t.outcome)) [
        | inl u ↦ absurd (going_on≢finished (rw (h, f, u, g) at e))
        | inr u ↦ elim (Bool-cases (is_settle_window_only t.outcome)) [
          | inl q ↦ absurd (going_on≢finished (rw (h, f, u, q, p) at e))
          | inr q ↦ found-IsDetermined (sym found ∙ f) u q
        ]
      ]
    ]

    -- A tick that was evaluated is returned at once, whatever the state of the windows, if it has a
    -- finding that is not undetermined and a finding of another diagnoser than the two whose findings a
    -- pause, or an update that is held back by hand, may explain; and while neither window is open, no
    -- other evaluated tick ends the observation.
    pub IsDetermined-returned :
        (IsDetermined t.outcome → handle_tick wt o c now s ≡ finished (ok t.outcome))
        × (IsFresh s
            → (r : Fallible Outcome) → handle_tick wt o c now s ≡ finished r
            → IsDetermined t.outcome)
    IsDetermined-returned = (returned_at_once, only-IsDetermined)
