-- ===== src/Diagnose/Watch/Session/Induction.antt =====
-- internal/diagnose/watch.go: what every step of a run keeps holds wherever the run comes to.
use kubectl_safe_rollout.Prelude.{
  ℕ, String, Bool, true, false, List, ◌∷◌, ◌≡◌, refl, sym, Option, none, some, Bool-cases, inl, inr,
  Error, Fallible, ok, err,
}
use mathlib.Core.Path.{subst}
use kubectl_safe_rollout.Workload.{Workload, kind, name}
use kubectl_safe_rollout.Cluster.{Cluster, Pod}
use kubectl_safe_rollout.Diagnose.Observer.{Observer, get}
use kubectl_safe_rollout.Diagnose.Restarts.{
  Pods, RestartObservations, new_restart_observations, index_pods,
}
use kubectl_safe_rollout.Diagnose.Tick.{WatchTarget}
use kubectl_safe_rollout.Diagnose.Watch.{
  Loop, new_loop, Handled, finished, relist, going_on, handle_tick,
}
use kubectl_safe_rollout.Diagnose.Watch.Session.{
  Input, ctx_done, stability_fired, grace_tick, paused_tick, pod_event, controller_event, Moment,
  can_receive, with_event, check_watch_event, checked, receive, Opening, starting, start_watches,
  after_first_tick, open_session,
}
use kubectl_safe_rollout.Diagnose.Watch.Session.Run.{
  success, Reaches, begun, opened, received, if_intact, ticked_pods, Ticks, first_tick, later_tick,
  Fires,
}

module _ (wt : WatchTarget) (o : Observer) (selector : String) (ops : List Opening)
    (script : List Moment) where
  -- A property that holds of each result of a tick, and at the end of the stability timer, holds of
  -- whatever is reached.
  module _ (P : Handled → Type 0) (failed : (e : Error) → P (finished (err e)))
      (again : (r : RestartObservations) → P (relist r))
      (fresh : (pods : Pods) (r : RestartObservations) → P (going_on (new_loop pods r)))
      (fired : (s : Loop) (m : Moment)
        → Fires wt o selector ops script s m
        → P (going_on s)
        → P (finished (ok success)))
      (ticked : (c : Cluster) (now : ℕ) (s : Loop) (pods : Pods)
        → Ticks wt o selector ops script c now s pods
        → P (going_on s)
        → P (handle_tick wt o c now (record s { pods = pods }))) where
    start_watches-P :
        (x : Fallible (Workload × String)) (op : Opening) (s : Loop)
        → P (going_on s)
        → P (start_watches wt x op s)
    unfolding start_watches starting
    start_watches-P (err e) op s p = failed _
    start_watches-P (ok v) op s p = by_errors op.pod_watch_error op.controller_watch_error
      where
        by_errors :
            (a b : Option Error)
            → P (elim a [
              | some e ↦ starting wt "starting pod watch for %s/%s: %w" e
              | none ↦ elim b [
                | some e ↦ starting wt "starting watch on %s/%s: %w" e
                | none ↦ going_on s
              ]
            ])
        by_errors (some e) b = failed _
        by_errors none (some e) = failed _
        by_errors none none = p

    after_first_tick-P : (op : Opening) (h : Handled) → P h → P (after_first_tick wt o op h)
    unfolding after_first_tick
    after_first_tick-P op (finished r) p = p
    after_first_tick-P op (relist r) p = p
    after_first_tick-P op (going_on s) p =
        start_watches-P (get o op.at_read wt.namespace (name wt.workload)) op s p

    open_session-P :
        (restarts : RestartObservations) (op : Opening) (ops' : List Opening) (ms' : List Moment)
        → Reaches wt o selector ops script (relist restarts) (op ∷ ops') ms'
        → (x : Fallible (List Pod)) → op.at_list.list_pods wt.namespace selector ≡ x
        → P (open_session wt o restarts op x)
    unfolding open_session starting new_loop
    open_session-P restarts op ops' ms' r (err e) h = failed _
    open_session-P restarts op ops' ms' r (ok items) h =
        after_first_tick-P op
          (handle_tick wt o op.at_tick op.now (new_loop (index_pods items) restarts))
          (ticked op.at_tick op.now (new_loop (index_pods items) restarts) (index_pods items)
            (first_tick restarts op ops' ms' items r h) (fresh (index_pods items) restarts))

    checked-P :
        (s : Loop) (x : Fallible Bool) (pods : Pods) (h : Handled)
        → (if_intact x pods ≡ some pods → P h)
        → P (checked x s h)
    unfolding checked
    checked-P s (err e) pods h k = failed e
    checked-P s (ok true) pods h k = again s.restarts
    checked-P s (ok false) pods h k = k refl

    receive-P :
        (s : Loop) (m : Moment) (ops' : List Opening) (ms' : List Moment)
        → Reaches wt o selector ops script (going_on s) ops' (m ∷ ms')
        → P (going_on s)
        → (i : Input) → m.input ≡ i
        → can_receive s m.now i ≡ true
        → P (receive wt o s m i)
    unfolding receive
    receive-P s m ops' ms' r p i same can = by_input i same can
      where
        tick :
            (i : Input) (pods : Pods)
            → m.input ≡ i
            → can_receive s m.now i ≡ true
            → ticked_pods wt m s i ≡ some pods
            → P (handle_tick wt o m.cluster m.now (record s { pods = pods }))
        tick i pods same can intact =
            ticked m.cluster m.now s pods
              (later_tick s m ops' ms' pods r
                (subst (λ j. can_receive s m.now j ≡ true) (sym same) can)
                (subst (λ j. ticked_pods wt m s j ≡ some pods) (sym same) intact))
              p

        by_input : (i : Input) → m.input ≡ i → can_receive s m.now i ≡ true → P (receive wt o s m i)
        by_input (ctx_done e) same can = failed e
        by_input stability_fired same can = fired s m (ops', ms', r, same, can) p
        by_input grace_tick same can = tick grace_tick s.pods same can refl
        by_input paused_tick same can = tick paused_tick s.pods same can refl
        by_input (pod_event ev) same can =
            checked-P s (check_watch_event m.ctx_err ev "pod" (kind wt.workload) (name wt.workload))
              (with_event s.pods ev) _ (tick (pod_event ev) (with_event s.pods ev) same can)
        by_input (controller_event ev) same can =
            checked-P s
              (check_watch_event m.ctx_err ev (kind wt.workload) (kind wt.workload)
                (name wt.workload))
              s.pods _ (tick (controller_event ev) s.pods same can)

    pub Reaches-P :
        (h : Handled) (ops' : List Opening) (ms' : List Moment)
        → Reaches wt o selector ops script h ops' ms'
        → P h
    Reaches-P _ _ _ begun = again new_restart_observations
    Reaches-P _ _ _ (opened restarts op ops' ms' r) =
        open_session-P restarts op ops' ms' r (op.at_list.list_pods wt.namespace selector) refl
    Reaches-P _ _ _ (received s m ops' ms' r) =
        let p : P (going_on s) = Reaches-P (going_on s) ops' (m ∷ ms') r in
        elim (Bool-cases (can_receive s m.now m.input)) [
          | inl e ↦ rw e (receive-P s m ops' ms' r p m.input refl e)
          | inr e ↦ rw e p
        ]
