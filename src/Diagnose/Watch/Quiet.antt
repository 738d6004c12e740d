-- ===== src/Diagnose/Watch/Quiet.antt =====
-- internal/diagnose/watch.go: the stability window. Success needs a period in which every tick was
-- complete and no restart count grew.
use kubectl_safe_rollout.Prelude.{
  ℕ, ◌+◌, String, List, ◌≤◌, true, false, ◌≡◌, refl, sym, ap, ◌∙◌, arith, Option, none, some, inl,
  inr, Fallible, ok, err,
}
use mathlib.Core.Path.{subst}
use kubectl_safe_rollout.Cluster.{Cluster}
use kubectl_safe_rollout.Diagnose.Observer.{Observer}
use kubectl_safe_rollout.Diagnose.Restarts.{Pods, increased}
use kubectl_safe_rollout.Diagnose.Tick.{WatchTarget, Tick, evaluate_tick}
use kubectl_safe_rollout.Diagnose.Tick.Priority.{evaluate_tick-IsConsistent}
use kubectl_safe_rollout.Diagnose.Watch.{
  windows, Loop, Handled, finished, relist, going_on, settle, drop_restarted, keep_stability,
  then_stability, handle_evaluated, handle_tick, observed,
}
use kubectl_safe_rollout.Diagnose.Watch.Session.{Moment, Opening}
use kubectl_safe_rollout.Diagnose.Watch.Session.Run.{Ticks}
use kubectl_safe_rollout.Diagnose.Watch.Windowing.{
  windows_ordered, SameWindow, Each, NotSuccess, settle-Each, Windowed, window_cases,
}

-- A quiet period of a run, which began at an instant: a tick of the run that was complete opened it, and
-- each of the ticks that followed was complete, and found no restart count above the one at its opening.
pub data Quiet (wt : WatchTarget) (o : Observer) (selector : String) (ops : List Opening)
    (ms : List Moment) : ℕ → Loop → Type 0 where
  opened :
      (c : Cluster) (now : ℕ) (s s' : Loop) (pods : Pods) (t : Tick)
      → Ticks wt o selector ops ms c now s pods
      → evaluate_tick wt o c pods ≡ ok t
      → t.complete ≡ true
      → handle_tick wt o c now (record s { pods = pods }) ≡ going_on s'
      → Quiet wt o selector ops ms now s'
  kept :
      (start : ℕ) (s s' : Loop) (pods : Pods) (c : Cluster) (now : ℕ) (t : Tick)
      → Quiet wt o selector ops ms start s
      → Ticks wt o selector ops ms c now s pods
      → evaluate_tick wt o c pods ≡ ok t
      → t.complete ≡ true
      → increased s.stability_restart_counts pods ≡ false
      → handle_tick wt o c now (record s { pods = pods }) ≡ going_on s'
      → Quiet wt o selector ops ms start s'

module _ (wt : WatchTarget) (o : Observer) (selector : String) (ops : List Opening)
    (ms : List Moment) where
  -- A stability timer that runs fires no earlier than the clean window after a quiet period began.
  abbrev pub TimedQuietly : Option ℕ → Loop → Type 0
  TimedQuietly none s = Unit
  TimedQuietly (some d) s =
      (start : ℕ) × Quiet wt o selector ops ms start s × (start + (windows wt).clean ≤ d)

  abbrev pub IsTimedQuietly : Loop → Type 0
  IsTimedQuietly s = TimedQuietly s.stability s

  module _ (c : Cluster) (now : ℕ) (pods : Pods) (s : Loop)
      (tick : Ticks wt o selector ops ms c now s pods) where
    abbrev given : Loop
    given = record s { pods = pods }

    handle_tick-IsTimedQuietly :
        (t : Tick) (s' : Loop)
        → IsTimedQuietly s
        → evaluate_tick wt o c pods ≡ ok t
        → handle_tick wt o c now given ≡ going_on s'
        → Windowed (windows wt) now t (observed given) s'
        → IsTimedQuietly s'
    handle_tick-IsTimedQuietly t s' inv e h (inl closed) =
        subst (λ d. TimedQuietly d s') (sym closed) tt
    handle_tick-IsTimedQuietly t s' inv e h (inr (inl (c', (window, stability, ge)))) =
        subst (λ d. TimedQuietly d s') (sym stability)
          (now, opened c now s s' pods t tick e c' h, omega (arith, ge (windows_ordered wt)))
    handle_tick-IsTimedQuietly t s' inv e h (inr (inr (c', stability, i))) =
        carried s.stability inv stability
      where
        carried : (d : Option ℕ) → TimedQuietly d s → s'.stability ≡ d → IsTimedQuietly s'
        carried none q f = subst (λ d. TimedQuietly d s') (sym f) tt
        carried (some d) (start, q, le) f =
            subst (λ d. TimedQuietly d s') (sym f)
              (start, kept start s s' pods c now t q tick e c' i h, le)

    handled-IsTimedQuietly :
        (t : Tick) (x : Handled)
        → IsTimedQuietly s
        → evaluate_tick wt o c pods ≡ ok t
        → handle_tick wt o c now given ≡ then_stability (windows wt) now t x
        → Each NotSuccess (SameWindow (observed given)) x
        → Each NotSuccess IsTimedQuietly (then_stability (windows wt) now t x)
    unfolding then_stability
    handled-IsTimedQuietly t (finished r) inv e h each = each
    handled-IsTimedQuietly t (relist restarts) inv e h each = absurd each
    handled-IsTimedQuietly t (going_on s2) inv e h (pods2, stability2, counts2) =
        handle_tick-IsTimedQuietly t (keep_stability (windows wt) now t (drop_restarted s2)) inv e h
          (rewindow (window_cases (windows wt) now t s2))
      where
        rewindow :
            Windowed (windows wt) now t s2 (keep_stability (windows wt) now t (drop_restarted s2))
            → Windowed
                (windows wt)
                now
                t
                (observed given)
                (keep_stability (windows wt) now t (drop_restarted s2))
        rewindow (inl a) = inl a
        rewindow (inr (inl b)) = inr (inl b)
        rewindow (inr (inr (c', same, i))) = inr (
            inr (
              c',
              same ∙ stability2,
              sym (
                    ap (λ m. increased m s2.pods) counts2
                    ∙ ap (λ ps. increased s.stability_restart_counts ps) pods2)
                  ∙ i,
            ))

    -- A tick keeps the stability timer quiet, and returns no success.
    pub tick-IsTimedQuietly :
        IsTimedQuietly s → Each NotSuccess IsTimedQuietly (handle_tick wt o c now given)
    unfolding handle_tick handle_evaluated
    tick-IsTimedQuietly inv = by_evaluation (evaluate_tick wt o c pods) refl
      where
        by_evaluation :
            (x : Fallible Tick)
            → evaluate_tick wt o c pods ≡ x
            → Each NotSuccess IsTimedQuietly (handle_evaluated (windows wt) now (observed given) x)
        by_evaluation (err e) h = tt
        by_evaluation (ok t) h =
            let (wl, rs, reads, (f, g, no_success)) = evaluate_tick-IsConsistent wt o c pods t h in
            handled-IsTimedQuietly t (settle (windows wt) now t (observed given)) inv h
              (ap (handle_evaluated (windows wt) now (observed given)) h)
              (settle-Each (windows wt) now t (observed given) no_success)
