-- ===== src/Diagnose/Watch/Session/Origin.antt =====
-- internal/diagnose/watch.go: where the outcomes that Watch returns come from.
use kubectl_safe_rollout.Prelude.{
  ℕ, String, true, not, List, ◌≡◌, refl, ◌⊎◌, inl, inr, some, ltb, Bool-cases, Fallible, ok, err,
  if_lem,
}
use kubectl_safe_rollout.Cluster.{Cluster}
use kubectl_safe_rollout.Diagnose.Observer.{Observer}
use kubectl_safe_rollout.Diagnose.Restarts.{Pods}
use kubectl_safe_rollout.Diagnose.Tick.{WatchTarget, Outcome, Tick, evaluate_tick}
use kubectl_safe_rollout.Diagnose.Watch.{
  Windows, windows, Loop, Handled, finished, relist, going_on, wait_undetermined, wait_paused,
  settle, then_stability, observed, handle_evaluated, handle_tick,
}
use kubectl_safe_rollout.Diagnose.Watch.Kinds.{all_undetermined, is_settle_window_only}
use kubectl_safe_rollout.Diagnose.Watch.Session.{Moment, Opening, watch}
use kubectl_safe_rollout.Diagnose.Watch.Session.Induction.{Reaches-P}
use kubectl_safe_rollout.Diagnose.Watch.Session.Run.{
  Reaches, Ticks, Fires, Runs, success, watch-Reaches,
}

module _ (wt : WatchTarget) (ops : List Opening) (script : List Moment) where
  -- The outcome is the success of the stability timer, which fired in a state of the run, or what the
  -- evaluation of a tick of the run reported as a failure.
  abbrev pub ComesFrom : Observer → String → Outcome → Type 0
  ComesFrom o selector out =
      ((out ≡ success) × ((s : Loop) × (m : Moment) × Fires wt o selector ops script s m))
      ⊎ ((c : Cluster) × (now : ℕ) × (s : Loop) × (pods : Pods) × (t : Tick) × Ticks wt o selector
            ops script c now s pods
          × (evaluate_tick wt o c pods ≡ ok t)
          × (t.failure_found ≡ true)
          × (out ≡ t.outcome))

  abbrev pub Origin : Outcome → Type 0
  Origin out = (o : Observer) × (selector : String) × Runs wt o selector × ComesFrom o selector out

  module _ (o : Observer) (selector : String) where
    abbrev HasOrigin : Handled → Type 0
    HasOrigin (finished (ok out)) = ComesFrom o selector out
    HasOrigin _ = Unit

    module _ (c : Cluster) (now : ℕ) (s : Loop) (pods : Pods)
        (tick : Ticks wt o selector ops script c now s pods) where
      settle-HasOrigin :
          (t : Tick) (w : Windows) (now' : ℕ) (s' : Loop)
          → evaluate_tick wt o c pods ≡ ok t
          → HasOrigin (settle w now' t s')
      unfolding settle wait_undetermined wait_paused
      settle-HasOrigin t w now' s' h = elim (Bool-cases t.failure_found) [
        | inl f ↦ rw f (
            if_lem HasOrigin (all_undetermined t.outcome)
              (if_lem HasOrigin (not s'.grace_ticker) tt
                (if_lem HasOrigin (ltb s'.grace_deadline now') (reported f) tt))
              (if_lem HasOrigin (is_settle_window_only t.outcome)
                (if_lem HasOrigin (not s'.paused_ticker) tt
                  (if_lem HasOrigin (ltb s'.paused_deadline now') (reported f) tt))
                (reported f)))
        | inr f ↦ rw f tt
      ]
        where
          reported : t.failure_found ≡ true → ComesFrom o selector t.outcome
          reported f = inr (c, now, s, pods, t, tick, h, f, refl)

      then_stability-HasOrigin :
          (w : Windows) (now' : ℕ) (t : Tick) (h : Handled)
          → HasOrigin h
          → HasOrigin (then_stability w now' t h)
      unfolding then_stability
      then_stability-HasOrigin w now' t (finished r) h = h
      then_stability-HasOrigin w now' t (relist r) h = tt
      then_stability-HasOrigin w now' t (going_on s') h = tt

      handle_evaluated-HasOrigin :
          (w : Windows) (now' : ℕ) (s' : Loop) (x : Fallible Tick)
          → evaluate_tick wt o c pods ≡ x
          → HasOrigin (handle_evaluated w now' s' x)
      unfolding handle_evaluated
      handle_evaluated-HasOrigin w now' s' (err e) h = tt
      handle_evaluated-HasOrigin w now' s' (ok t) h =
          then_stability-HasOrigin w now' t (settle w now' t s') (settle-HasOrigin t w now' s' h)

      handle_tick-HasOrigin : HasOrigin (handle_tick wt o c now (record s { pods = pods }))
      unfolding handle_tick
      handle_tick-HasOrigin =
          handle_evaluated-HasOrigin (windows wt) now (observed (record s { pods = pods }))
            (evaluate_tick wt o c pods) refl

    Reaches-HasOrigin :
        (h : Handled) (ops' : List Opening) (ms' : List Moment)
        → Reaches wt o selector ops script h ops' ms'
        → HasOrigin h
    Reaches-HasOrigin =
        Reaches-P wt o selector ops script HasOrigin (λ e. tt) (λ r. tt) (λ pods r. tt)
          (λ s m f u. inl (refl, (s, m, f)))
          (λ c now s pods tick u. handle_tick-HasOrigin c now s pods tick)

  -- An outcome that Watch returns, over any script, comes from its run with the observer of the
  -- workload's kind and the pods of its selector: it is the success of the stability timer, which was
  -- running and fired at a moment of the script, or the outcome that the evaluation of a tick of the
  -- run, with the cluster and the pods of that tick, reported as a failure.
  pub watch-Origin : (out : Outcome) → watch wt ops script ≡ some (ok out) → Origin out
  watch-Origin out h =
      let (o, selector, runs, (ops', ms', r)) = watch-Reaches wt ops script out h in
      (o, selector, runs, Reaches-HasOrigin o selector (finished (ok out)) ops' ms' r)
