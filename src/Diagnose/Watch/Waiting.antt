-- ===== src/Diagnose/Watch/Waiting.antt =====
-- internal/diagnose/watch.go: how long a tick's finding is waited on before it is returned.
use kubectl_safe_rollout.Prelude.{
  ℕ, ◌+◌, ◌≤◌, ◌<◌, Bool, true, false, not, ◌≡◌, refl, sym, ap, ◌∙◌, arith, ltb, ◌&&◌,
  if◌then◌else◌, ok, is_none, is_some,
}
use mathlib.Core.Path.{subst}
use kubectl_safe_rollout.Cluster.{Cluster}
use kubectl_safe_rollout.Diagnose.Observer.{Observer}
use kubectl_safe_rollout.Diagnose.Restarts.{increased}
use kubectl_safe_rollout.Diagnose.Tick.{WatchTarget, Tick, evaluate_tick}
use kubectl_safe_rollout.Diagnose.Watch.{
  Windows, windows, Loop, Handled, finished, relist, going_on, wait_undetermined, settle,
  drop_restarted, keep_stability, then_stability, handle_evaluated, handle_tick, stop_stability,
  stop_paused_settle, observed,
}
use kubectl_safe_rollout.Diagnose.Watch.Kinds.{all_undetermined}

-- Each finding of the tick is undetermined, and there is one.
abbrev pub IsUndetermined : Tick → Type 0
IsUndetermined t = (t.failure_found ≡ true) × (all_undetermined t.outcome ≡ true)

module _ (wt : WatchTarget) (o : Observer) where
  -- The state of the grace window.
  abbrev pub Waits : ℕ → Loop → Type 0
  Waits deadline s = (s.grace_ticker ≡ true) × (s.grace_deadline ≡ deadline)

  if-Waits :
      (d : ℕ) (b : Bool) (s s' : Loop) → Waits d s → Waits d s' → Waits d (if b then s else s')
  if-Waits d true s s' h h' = h
  if-Waits d false s s' h h' = h'

  keep_stability-Waits :
      (w : Windows) (now d : ℕ) (t : Tick) (s : Loop)
      → Waits d s
      → Waits d (keep_stability w now t s)
  unfolding keep_stability
  keep_stability-Waits w now d t s h =
      if-Waits d (t.complete && is_none s.stability) _ _ h
        (if-Waits d (not t.complete && is_some s.stability) (stop_stability s) s h h)

  drop_restarted-Waits : (d : ℕ) (s : Loop) → Waits d s → Waits d (drop_restarted s)
  unfolding drop_restarted
  drop_restarted-Waits d s h =
      if-Waits d (is_some s.stability && increased s.stability_restart_counts s.pods)
        (stop_stability s) s h h

  -- What a handled tick leaves: a state that waits until the deadline.
  abbrev pub GoesOnWaiting : ℕ → Handled → Type 0
  GoesOnWaiting d (finished r) = ⊥
  GoesOnWaiting d (relist restarts) = ⊥
  GoesOnWaiting d (going_on s) = Waits d s

  then_stability-GoesOnWaiting :
      (w : Windows) (now d : ℕ) (t : Tick) (h : Handled)
      → GoesOnWaiting d h
      → GoesOnWaiting d (then_stability w now t h)
  unfolding then_stability
  then_stability-GoesOnWaiting w now d t (going_on s) h =
      keep_stability-Waits w now d t (drop_restarted s) (drop_restarted-Waits d s h)
  then_stability-GoesOnWaiting w now d t (finished r) h = absurd h
  then_stability-GoesOnWaiting w now d t (relist restarts) h = absurd h

  opens-Waiting :
      (w : Windows) (now : ℕ) (s : Loop)
      → s.grace_ticker ≡ false
      → GoesOnWaiting (now + w.grace) (wait_undetermined w now s)
  unfolding wait_undetermined
  opens-Waiting w now s e = rw e (refl, refl)

  remains-Waiting :
      (w : Windows) (now d : ℕ) (s : Loop)
      → Waits d s
      → now ≤ d
      → GoesOnWaiting d (wait_undetermined w now s)
  unfolding wait_undetermined
  remains-Waiting w now d s (e, f) le = rw (e, before) (refl, f)
    where
      before : ltb s.grace_deadline now ≡ false
      before = ground (arith, f)

  passed-finished :
      (w : Windows) (now d : ℕ) (s : Loop)
      → Waits d s
      → d < now
      → wait_undetermined w now s ≡ finished (ok s.pending_undetermined)
  unfolding wait_undetermined
  passed-finished w now d s (e, f) lt = rw (e, after) refl
    where
      after : ltb s.grace_deadline now ≡ true
      after = ground (arith, f)

  settle_undetermined :
      (w : Windows) (now : ℕ) (t : Tick) (s : Loop)
      → IsUndetermined t
      → settle w now t s
        ≡ wait_undetermined w now
            (record (stop_paused_settle s) { pending_undetermined = t.outcome })
  unfolding settle
  settle_undetermined w now t s (f, u) = rw (f, u) refl

  module _ (c : Cluster) (now : ℕ) (s : Loop) (t : Tick) (h : evaluate_tick wt o c s.pods ≡ ok t)
      (u : IsUndetermined t) where
    abbrev waiting : Loop
    waiting = record (stop_paused_settle (observed s)) { pending_undetermined = t.outcome }

    handle_undetermined :
        handle_tick wt o c now s
        ≡ then_stability (windows wt) now t (wait_undetermined (windows wt) now waiting)
    unfolding handle_tick handle_evaluated
    handle_undetermined =
        ap (handle_evaluated (windows wt) now (observed s)) h
        ∙ ap (then_stability (windows wt) now t)
            (settle_undetermined (windows wt) now t (observed s) u)

    -- A tick with undetermined findings only opens the grace window, if it is not open.
    pub undetermined-opens :
        s.grace_ticker ≡ false → GoesOnWaiting (now + (windows wt).grace) (handle_tick wt o c now s)
    undetermined-opens e =
        subst (λ x. GoesOnWaiting (now + (windows wt).grace) x) (sym handle_undetermined)
          (then_stability-GoesOnWaiting (windows wt) now (now + (windows wt).grace) t
            (wait_undetermined (windows wt) now waiting) (opens-Waiting (windows wt) now waiting e))

    -- In an open grace window, a tick with undetermined findings only leaves the deadline as it is
    -- while the clock has not passed it, and is returned once it has.
    pub undetermined-Waits :
        (deadline : ℕ)
        → Waits deadline s
        → (now ≤ deadline → GoesOnWaiting deadline (handle_tick wt o c now s))
          × (deadline < now → handle_tick wt o c now s ≡ finished (ok t.outcome))
    unfolding then_stability
    undetermined-Waits deadline d = (
      (λ le.
          subst (λ x. GoesOnWaiting deadline x) (sym handle_undetermined)
            (then_stability-GoesOnWaiting (windows wt) now deadline t
              (wait_undetermined (windows wt) now waiting)
              (remains-Waiting (windows wt) now deadline waiting d le))),
      λ lt.
          handle_undetermined
          ∙ ap (then_stability (windows wt) now t)
              (passed-finished (windows wt) now deadline waiting d lt),
    )
