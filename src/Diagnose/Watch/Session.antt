-- ===== src/Diagnose/Watch/Session.antt =====
-- internal/diagnose/watch.go: the loop over the channels, from one list of the pods to the next, and
-- `Watch` over all lists. What the channels deliver is a script: a list of inputs, each with the
-- cluster's answers and the clock at its instant.
pub mod Success
pub mod Run
pub mod Induction
pub mod Origin
use kubectl_safe_rollout.Prelude.{
  ℕ, ◌≤◌, String, Bool, true, false, List, [], ◌∷◌, ◌++◌, Option, none, some, leb, ◌||◌,
  if◌then◌else◌, str, wrap, sprintf, errorf, Error, ApiError, api, Fallible, ok, err,
}
use kubectl_safe_rollout.Api.{Selector}
use kubectl_safe_rollout.Workload.{Workload, kind, name, pod_selector}
use kubectl_safe_rollout.Cluster.{Cluster, Pod}
use kubectl_safe_rollout.Diagnose.Observer.{Observer, get, new_controller_observer}
use kubectl_safe_rollout.Diagnose.Restarts.{
  Pods, EventType, added, modified, deleted, bookmark, error_event, index_pods, apply_pod_event,
  RestartObservations, new_restart_observations,
}
use kubectl_safe_rollout.Diagnose.Tick.{WatchTarget, Outcome, no_outcome}
use kubectl_safe_rollout.Diagnose.Watch.{
  Loop, new_loop, Handled, finished, relist, going_on, handle_tick,
}

-- watch.Event: its type, its object where that is a pod, and what apierrors.FromObject makes of it.
pub record WatchEvent : Type 0 where
  pub type : EventType
  pub pod : Option Pod
  pub object_error : ApiError

-- `checkWatchEvent`, without its first case: whether to list again.
unfoldable pub check_event : String → String → String → WatchEvent → EventType → Fallible Bool
check_event stream k n ev error_event =
    if ev.object_error.is_resource_expired || ev.object_error.is_gone
    then ok true
    else err (wrap "watch %s for %s/%s: %w" (str stream ∷ str k ∷ str n ∷ []) (api ev.object_error))
check_event stream k n ev _ = ok false

-- `checkWatchEvent`; a channel that is closed delivers no event.
unfoldable pub check_watch_event :
    Option Error → Option WatchEvent → String → String → String → Fallible Bool
unfolding check_event
check_watch_event (some e) none stream k n = err e
check_watch_event none none stream k n = err (
    errorf
      (sprintf "%s watch stream for %s/%s closed unexpectedly" (str stream ∷ str k ∷ str n ∷ [])))
check_watch_event ctx_err (some ev) stream k n = check_event stream k n ev ev.type

-- What a channel of the `select` delivers; `none` is a channel that was closed.
pub data Input : Type 0 where
  ctx_done : Error → Input
  stability_fired : Input
  grace_tick : Input
  paused_tick : Input
  pod_event : Option WatchEvent → Input
  controller_event : Option WatchEvent → Input

pub record Moment : Type 0 where
  pub now : ℕ
  pub cluster : Cluster
  -- ctx.Err()
  pub ctx_err : Option Error
  pub input : Input

-- Whether the channel can deliver: a nil channel never does, and a timer not before its instant.
unfoldable pub can_receive : Loop → ℕ → Input → Bool
can_receive s now stability_fired = elim s.stability [ none ↦ false | some d ↦ leb d now ]
can_receive s now grace_tick = s.grace_ticker
can_receive s now paused_tick = s.paused_ticker
can_receive s now _ = true

abbrev pub with_event : Pods → Option WatchEvent → Pods
with_event pods none = pods
with_event pods (some ev) = apply_pod_event pods ev.type ev.pod

-- The end of a case that reads a watch event, given what `checkWatchEvent` returned.
unfoldable pub checked : Fallible Bool → Loop → Handled → Handled
checked (err e) s next = finished (err e)
checked (ok true) s next = relist s.restarts
checked (ok false) s next = next

-- The `select`
unfoldable pub receive : WatchTarget → Observer → Loop → Moment → Input → Handled
receive wt o s m (ctx_done e) = finished (err e)
receive wt o s m stability_fired = finished (ok (record { succeeded = true; results = [] }))
receive wt o s m grace_tick = handle_tick wt o m.cluster m.now s
receive wt o s m paused_tick = handle_tick wt o m.cluster m.now s
receive wt o s m (pod_event ev) =
    checked (check_watch_event m.ctx_err ev "pod" (kind wt.workload) (name wt.workload)) s
      (handle_tick wt o m.cluster m.now (record s { pods = with_event s.pods ev }))
receive wt o s m (controller_event ev) =
    checked
      (check_watch_event m.ctx_err ev (kind wt.workload) (kind wt.workload) (name wt.workload)) s
      (handle_tick wt o m.cluster m.now s)

-- The loop over the channels, to the end of the script; an input that cannot come is passed over.
unfoldable pub select_loop : WatchTarget → Observer → Handled → List Moment → Handled × List Moment
select_loop wt o (going_on s) (m ∷ ms) =
    select_loop wt o (if can_receive s m.now m.input then receive wt o s m m.input else going_on s)
      ms
select_loop wt o h ms = (h, ms)

-- What a session meets before its loop: the cluster at the list, at the first tick, and at the read
-- of the resource version; the clock at that tick; and the errors of the two retry watchers.
pub record Opening : Type 0 where
  pub at_list : Cluster
  pub at_tick : Cluster
  pub at_read : Cluster
  pub now : ℕ
  pub pod_watch_error : Option Error
  pub controller_watch_error : Option Error

starting : WatchTarget → String → Error → Handled
starting wt f e = finished (err (wrap f (str (kind wt.workload) ∷ str (name wt.workload) ∷ []) e))

-- From the read of the resource version to the loop.
unfoldable pub start_watches : WatchTarget → Fallible (Workload × String) → Opening → Loop → Handled
unfolding starting
start_watches wt (err e) op s = starting wt "initial read of %s/%s for watch: %w" e
start_watches wt (ok v) op s = elim op.pod_watch_error [
  | some e ↦ starting wt "starting pod watch for %s/%s: %w" e
  | none ↦ elim op.controller_watch_error [
    | some e ↦ starting wt "starting watch on %s/%s: %w" e
    | none ↦ going_on s
  ]
]

unfoldable pub after_first_tick : WatchTarget → Observer → Opening → Handled → Handled
after_first_tick wt o op (finished r) = finished r
after_first_tick wt o op (relist restarts) = relist restarts
after_first_tick wt o op (going_on s) =
    start_watches wt (get o op.at_read wt.namespace (name wt.workload)) op s

unfoldable pub open_session :
    WatchTarget → Observer → RestartObservations → Opening → Fallible (List Pod) → Handled
unfolding starting
open_session wt o restarts op (err e) = starting wt "initial pod list for %s/%s: %w" e
open_session wt o restarts op (ok items) =
    after_first_tick wt o op
      (handle_tick wt o op.at_tick op.now (new_loop (index_pods items) restarts))

-- `watchFromCurrentState`, with what is left of the script.
unfoldable pub watch_from_current_state :
    WatchTarget
    → String
    → Observer
    → RestartObservations
    → Opening
    → List Moment
    → Handled × List Moment
unfolding select_loop open_session
watch_from_current_state wt selector o restarts op ms =
    select_loop wt o (open_session wt o restarts op (op.at_list.list_pods wt.namespace selector)) ms

-- The loop of `Watch`, over the openings of its sessions; `none` where the script ends before it does.
unfoldable pub watch_sessions :
    WatchTarget
    → String
    → Observer
    → List Opening
    → Handled × List Moment
    → Option (Fallible Outcome)
watch_sessions wt selector o ops (finished r, ms) = some r
watch_sessions wt selector o ops (going_on s, ms) = none
watch_sessions wt selector o [] (relist restarts, ms) = none
watch_sessions wt selector o (op ∷ ops) (relist restarts, ms) =
    watch_sessions wt selector o ops (watch_from_current_state wt selector o restarts op ms)

unfoldable pub watch_selected :
    WatchTarget
    → Fallible String
    → Fallible Observer
    → List Opening
    → List Moment
    → Option (Fallible Outcome)
unfolding watch_sessions
watch_selected wt (err e) o ops ms = some (
    err (
      wrap "invalid pod selector for %s/%s: %w"
        (str (kind wt.workload) ∷ str (name wt.workload) ∷ []) e))
watch_selected wt (ok selector) (err e) ops ms = some (err e)
watch_selected wt (ok selector) (ok o) ops ms =
    watch_sessions wt selector o ops (relist new_restart_observations, ms)

pub selector_text : Fallible Selector → Fallible String
selector_text (err e) = err e
selector_text (ok s) = ok s.to_string

-- `Watch`
unfoldable pub watch : WatchTarget → List Opening → List Moment → Option (Fallible Outcome)
unfolding selector_text watch_selected
watch wt ops ms =
    watch_selected wt (selector_text (pod_selector wt.lib wt.workload))
      (new_controller_observer (kind wt.workload)) ops ms
