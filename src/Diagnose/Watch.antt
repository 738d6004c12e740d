-- ===== src/Diagnose/Watch.antt =====
-- internal/diagnose/watch.go: the observation of a rollout. An instant is a number of nanoseconds; a
-- tick reads the clock once.
pub mod Kinds
pub mod Session
pub mod Windowing
pub mod Quiet
pub mod Waiting
pub mod AtOnce
use kubectl_safe_rollout.Prelude.{
  ℕ, ◌+◌, ◌*◌, suc, String, Bool, true, false, not, List, [], Option, none, some, ltb, ◌&&◌,
  if◌then◌else◌, is_none, is_some, Fallible, ok, err,
}
use kubectl_safe_rollout.Prelude.Int.{ℤ, pos}
use kubectl_safe_rollout.Cluster.{Cluster}
use kubectl_safe_rollout.Diagnose.Observer.{Observer}
use kubectl_safe_rollout.Diagnose.Restarts.{
  Pods, RestartCounts, collect_container_restart_counts, any_restart_observed, increased,
  RestartObservations, observe,
}
use kubectl_safe_rollout.Diagnose.Tick.{WatchTarget, Outcome, no_outcome, Tick, evaluate_tick}
use kubectl_safe_rollout.Diagnose.Watch.Kinds.{all_undetermined, is_settle_window_only}

abbrev second : ℕ
second = 1000000000

abbrev pub rollout_stability_window : ℕ
rollout_stability_window = 5 * second

abbrev pub restarted_rollout_stability_window : ℕ
restarted_rollout_stability_window = 30 * second

abbrev pub default_undetermined_grace_window : ℕ
default_undetermined_grace_window = 3 * second

abbrev pub default_paused_settle_window : ℕ
default_paused_settle_window = 5 * second

-- A duration that overrides the default if it is above 0.
abbrev pub override : ℤ → ℕ → ℕ
override (pos (suc n)) default = suc n
override _ default = default

-- `cleanWindow`, `restartedWindow`, `graceWindow` and `pausedWindow`
pub record Windows : Type 0 where
  pub clean : ℕ
  pub restarted : ℕ
  pub grace : ℕ
  pub paused : ℕ

unfoldable pub windows : WatchTarget → Windows
windows wt = record {
  clean = override wt.stability_window rollout_stability_window;
  restarted = override wt.stability_window restarted_rollout_stability_window;
  grace = override wt.undetermined_grace_window default_undetermined_grace_window;
  paused = override wt.paused_settle_window default_paused_settle_window;
}

-- The variables of `watchFromCurrentState`. The stability timer is the instant it fires at; a ticker
-- that is not nil is a Boolean.
pub record Loop : Type 0 where
  pub pods : Pods
  pub restarts : RestartObservations
  pub stability : Option ℕ
  pub stability_restart_counts : RestartCounts
  pub grace_ticker : Bool
  pub grace_deadline : ℕ
  pub pending_undetermined : Outcome
  pub paused_ticker : Bool
  pub paused_deadline : ℕ
  pub pending_paused_only : Outcome

-- The variables as they are declared, over the pods of the first list.
unfoldable pub new_loop : Pods → RestartObservations → Loop
new_loop pods restarts = record {
  pods = pods;
  restarts = restarts;
  stability = none;
  stability_restart_counts = [];
  grace_ticker = false;
  grace_deadline = 0;
  pending_undetermined = no_outcome;
  paused_ticker = false;
  paused_deadline = 0;
  pending_paused_only = no_outcome;
}

-- What a tick or an event leads to: the function returns, with an outcome or an error; it returns and
-- asks for a new list, the restart observations kept; or the loop goes on.
pub data Handled : Type 0 where
  finished : Fallible Outcome → Handled
  relist : RestartObservations → Handled
  going_on : Loop → Handled

-- `stopGrace`
abbrev pub stop_grace : Loop → Loop
stop_grace s = record s { grace_ticker = false; grace_deadline = 0 }

-- `stopPausedSettle`
abbrev pub stop_paused_settle : Loop → Loop
stop_paused_settle s = record s { paused_ticker = false; paused_deadline = 0 }

abbrev pub stop_stability : Loop → Loop
stop_stability s = record s { stability = none; stability_restart_counts = [] }

-- The first case of the switch: every finding is undetermined.
unfoldable pub wait_undetermined : Windows → ℕ → Loop → Handled
wait_undetermined w now s =
    if not s.grace_ticker
    then going_on (record s { grace_ticker = true; grace_deadline = now + w.grace })
    else (if ltb s.grace_deadline now then finished (ok s.pending_undetermined) else going_on s)

-- The second case: every finding may only be due to the pause.
unfoldable pub wait_paused : Windows → ℕ → Loop → Handled
wait_paused w now s =
    if not s.paused_ticker
    then going_on (record s {
      paused_ticker = true;
      paused_deadline = now + (if any_restart_observed s.pods then w.restarted else w.paused);
    })
    else (if ltb s.paused_deadline now then finished (ok s.pending_paused_only) else going_on s)

-- The first switch of `handleTick`
unfoldable pub settle : Windows → ℕ → Tick → Loop → Handled
settle w now t s =
    if t.failure_found && all_undetermined t.outcome
    then wait_undetermined w now
        (record (stop_paused_settle s) { pending_undetermined = t.outcome })
    else (if t.failure_found && is_settle_window_only t.outcome
        then wait_paused w now (record (stop_grace s) { pending_paused_only = t.outcome })
        else (if t.failure_found
            then finished (ok t.outcome)
            else going_on (stop_paused_settle (stop_grace s))))

-- A restart since the window was opened closes it.
unfoldable pub drop_restarted : Loop → Loop
drop_restarted s =
    if is_some s.stability && increased s.stability_restart_counts s.pods
    then stop_stability s
    else s

-- The last switch of `handleTick`
unfoldable pub keep_stability : Windows → ℕ → Tick → Loop → Loop
keep_stability w now t s =
    if t.complete && is_none s.stability
    then record s {
      stability = some (now + (if s.restarts.increase_observed then w.restarted else w.clean));
      stability_restart_counts = collect_container_restart_counts s.pods;
    }
    else (if not t.complete && is_some s.stability then stop_stability s else s)

-- What `handleTick` does after the first switch, where it has not returned.
unfoldable pub then_stability : Windows → ℕ → Tick → Handled → Handled
then_stability w now t (finished r) = finished r
then_stability w now t (relist o) = relist o
then_stability w now t (going_on s) = going_on (keep_stability w now t (drop_restarted s))

abbrev pub observed : Loop → Loop
observed s = record s { restarts = observe s.restarts s.pods }

unfoldable pub handle_evaluated : Windows → ℕ → Loop → Fallible Tick → Handled
handle_evaluated w now s (err e) = finished (err e)
handle_evaluated w now s (ok t) = then_stability w now t (settle w now t s)

-- `handleTick`
unfoldable pub handle_tick : WatchTarget → Observer → Cluster → ℕ → Loop → Handled
unfolding handle_evaluated
handle_tick wt o c now s =
    handle_evaluated (windows wt) now (observed s) (evaluate_tick wt o c s.pods)
