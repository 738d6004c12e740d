-- ===== src/Diagnose/Watch/Session/Run.antt =====
-- internal/diagnose/watch.go: the runs of Watch as steps, for proofs by induction on them.
use kubectl_safe_rollout.Prelude.{
  ℕ, String, Bool, true, false, List, [], ◌∷◌, ◌≡◌, refl, Option, none, some, if◌then◌else◌,
  Fallible, ok, err,
}
use mathlib.Core.Path.{subst}
use kubectl_safe_rollout.Workload.{kind, name, pod_selector}
use kubectl_safe_rollout.Cluster.{Cluster, Pod}
use kubectl_safe_rollout.Diagnose.Observer.{Observer, new_controller_observer}
use kubectl_safe_rollout.Diagnose.Restarts.{
  Pods, RestartObservations, new_restart_observations, index_pods,
}
use kubectl_safe_rollout.Diagnose.Tick.{WatchTarget, Outcome}
use kubectl_safe_rollout.Diagnose.Watch.{Loop, new_loop, Handled, finished, relist, going_on}
use kubectl_safe_rollout.Diagnose.Watch.Session.{
  Input, ctx_done, stability_fired, grace_tick, paused_tick, pod_event, controller_event, Moment,
  can_receive, with_event, check_watch_event, receive, select_loop, Opening, open_session,
  watch_from_current_state, watch_sessions, watch_selected, selector_text, watch,
}

-- The outcome of the stability timer.
abbrev pub success : Outcome
success = record { succeeded = true; results = [] }

-- What the observation of a rollout comes to along its openings and its script, and what is left of
-- them: it begins with a list; each list takes the next opening; and the loop takes the next moment.
pub data Reaches (wt : WatchTarget) (o : Observer) (selector : String) (ops : List Opening)
    (ms : List Moment) : Handled → List Opening → List Moment → Type 0 where
  begun : Reaches wt o selector ops ms (relist new_restart_observations) ops ms
  opened :
      (restarts : RestartObservations) (op : Opening) (ops' : List Opening) (ms' : List Moment)
      → Reaches wt o selector ops ms (relist restarts) (op ∷ ops') ms'
      → Reaches wt o selector ops ms
          (open_session wt o restarts op (op.at_list.list_pods wt.namespace selector))
          ops'
          ms'
  received :
      (s : Loop) (m : Moment) (ops' : List Opening) (ms' : List Moment)
      → Reaches wt o selector ops ms (going_on s) ops' (m ∷ ms')
      → Reaches wt o selector ops ms
          (if can_receive s m.now m.input then receive wt o s m m.input else going_on s)
          ops'
          ms'

-- The pods that the tick on an input is run with; an input that ends the session has no tick.
abbrev pub if_intact : Fallible Bool → Pods → Option Pods
if_intact (ok false) pods = some pods
if_intact _ pods = none

abbrev pub ticked_pods : WatchTarget → Moment → Loop → Input → Option Pods
ticked_pods wt m s (ctx_done e) = none
ticked_pods wt m s stability_fired = none
ticked_pods wt m s grace_tick = some s.pods
ticked_pods wt m s paused_tick = some s.pods
ticked_pods wt m s (pod_event ev) =
    if_intact (check_watch_event m.ctx_err ev "pod" (kind wt.workload) (name wt.workload))
      (with_event s.pods ev)
ticked_pods wt m s (controller_event ev) =
    if_intact
      (check_watch_event m.ctx_err ev (kind wt.workload) (kind wt.workload) (name wt.workload))
      s.pods

-- The ticks of a run: the cluster, the clock, the state before the input, and the pods after it.
pub data Ticks (wt : WatchTarget) (o : Observer) (selector : String) (ops : List Opening)
    (ms : List Moment) : Cluster → ℕ → Loop → Pods → Type 0 where
  first_tick :
      (restarts : RestartObservations) (op : Opening) (ops' : List Opening) (ms' : List Moment)
      (items : List Pod)
      → Reaches wt o selector ops ms (relist restarts) (op ∷ ops') ms'
      → op.at_list.list_pods wt.namespace selector ≡ ok items
      → Ticks wt o selector ops ms op.at_tick op.now
          (new_loop (index_pods items) restarts)
          (index_pods items)
  later_tick :
      (s : Loop) (m : Moment) (ops' : List Opening) (ms' : List Moment) (pods : Pods)
      → Reaches wt o selector ops ms (going_on s) ops' (m ∷ ms')
      → can_receive s m.now m.input ≡ true
      → ticked_pods wt m s m.input ≡ some pods
      → Ticks wt o selector ops ms m.cluster m.now s pods

-- At a moment of the run the stability timer fired in a state.
abbrev pub Fires :
    WatchTarget → Observer → String → List Opening → List Moment → Loop → Moment → Type 0
Fires wt o selector ops ms s m =
    (ops' : List Opening) × (ms' : List Moment) × Reaches wt o selector ops ms (going_on s) ops'
      (m ∷ ms')
    × (m.input ≡ stability_fired)
    × (can_receive s m.now stability_fired ≡ true)

module _ (wt : WatchTarget) (o : Observer) (selector : String) (ops : List Opening)
    (script : List Moment) where
  select_loop-Reaches :
      (h : Handled) (ops' : List Opening) (ms' : List Moment)
      → Reaches wt o selector ops script h ops' ms'
      → Reaches wt o selector ops script (select_loop wt o h ms').0 ops' (select_loop wt o h ms').1
  unfolding select_loop
  select_loop-Reaches (finished x) ops' ms' r = r
  select_loop-Reaches (relist x) ops' ms' r = r
  select_loop-Reaches (going_on s) ops' [] r = r
  select_loop-Reaches (going_on s) ops' (m ∷ ms') r =
      select_loop-Reaches
        (if can_receive s m.now m.input then receive wt o s m m.input else going_on s) ops' ms'
        (received s m ops' ms' r)

  -- What the run returns, it has reached.
  abbrev ReachesResult : Option (Fallible Outcome) → Type 0
  ReachesResult none = Unit
  ReachesResult (some x) =
      (ops' : List Opening) × (ms' : List Moment) × Reaches wt o selector ops script (finished x)
        ops' ms'

  pub watch_sessions-Reaches :
      (h : Handled) (ops' : List Opening) (ms' : List Moment)
      → Reaches wt o selector ops script h ops' ms'
      → ReachesResult (watch_sessions wt selector o ops' (h, ms'))
  unfolding watch_sessions watch_from_current_state
  watch_sessions-Reaches (finished x) ops' ms' r = (ops', ms', r)
  watch_sessions-Reaches (going_on s) ops' ms' r = tt
  watch_sessions-Reaches (relist x) [] ms' r = tt
  watch_sessions-Reaches (relist x) (op ∷ ops') ms' r =
      let opened_run = opened x op ops' ms' r in
      let h : Handled = open_session wt o x op (op.at_list.list_pods wt.namespace selector) in
      watch_sessions-Reaches (select_loop wt o h ms').0 ops' (select_loop wt o h ms').1
        (select_loop-Reaches h ops' ms' opened_run)

-- The run of Watch: the observer is that of the workload's kind, and the pods are listed by the
-- workload's selector.
abbrev pub Runs : WatchTarget → Observer → String → Type 0
Runs wt o selector =
    (selector_text (pod_selector wt.lib wt.workload) ≡ ok selector)
    × (new_controller_observer (kind wt.workload) ≡ ok o)

-- An outcome that Watch returns is reached in its run.
pub watch-Reaches :
    (wt : WatchTarget) (ops : List Opening) (ms : List Moment) (out : Outcome)
    → watch wt ops ms ≡ some (ok out)
    → (o : Observer) × (selector : String) × Runs wt o selector
      × ((ops' : List Opening) × (ms' : List Moment) × Reaches wt o selector ops ms
            (finished (ok out))
            ops'
            ms')
unfolding watch watch_selected
watch-Reaches wt ops ms out h =
    by_reads (selector_text (pod_selector wt.lib wt.workload))
      (new_controller_observer (kind wt.workload)) refl refl h
  where
    by_reads :
        (x : Fallible String) (y : Fallible Observer)
        → selector_text (pod_selector wt.lib wt.workload) ≡ x
        → new_controller_observer (kind wt.workload) ≡ y
        → watch_selected wt x y ops ms ≡ some (ok out)
        → (o : Observer) × (selector : String) × Runs wt o selector
          × ((ops' : List Opening) × (ms' : List Moment) × Reaches wt o selector ops ms
                (finished (ok out))
                ops'
                ms')
    by_reads (err e) y a b h = cc
    by_reads (ok selector) (err e) a b h = cc
    by_reads (ok selector) (ok o) a b h = (
      o,
      selector,
      (a, b),
      subst (λ x. ReachesResult wt o selector ops ms x) h
          (watch_sessions-Reaches wt o selector ops ms (relist new_restart_observations) ops ms
            begun),
    )
