-- ===== src/Diagnose/Watch/Session/Success.antt =====
-- internal/diagnose/watch.go: Watch reports success only after a quiet period, over all its sessions.
use kubectl_safe_rollout.Prelude.{ℕ, ◌+◌, ◌≤◌, String, List, ◌⊎◌, Fallible}
use kubectl_safe_rollout.Cluster.{Cluster}
use kubectl_safe_rollout.Diagnose.Observer.{Observer}
use kubectl_safe_rollout.Diagnose.Tick.{WatchTarget, Outcome}
use kubectl_safe_rollout.Diagnose.Watch.{windows, Loop, Handled, finished, relist, going_on}
use kubectl_safe_rollout.Diagnose.Watch.Windowing.{NotSuccess}
use kubectl_safe_rollout.Diagnose.Watch.Quiet.{Quiet, IsTimedQuietly}
use kubectl_safe_rollout.Diagnose.Watch.Session.{Moment, Opening}
use kubectl_safe_rollout.Diagnose.Watch.Session.Run.{Fires, Runs}

module _ (wt : WatchTarget) (ops : List Opening) (script : List Moment) where
  -- At a moment of the run the stability timer fired, at the end of a quiet period of the run that had
  -- lasted for the clean window or longer.
  abbrev pub QuietlyFired : Observer → String → Type 0
  QuietlyFired o selector =
      (start : ℕ) × (s : Loop) × (m : Moment) × Fires wt o selector ops script s m
      × Quiet wt o selector ops script start s
      × (start + (windows wt).clean ≤ m.now)

  abbrev pub QuietSuccess : Type 0
  QuietSuccess = (o : Observer) × (selector : String) × Runs wt o selector × QuietlyFired o selector

  module _ (o : Observer) (selector : String) where
    abbrev SoundResult : Fallible Outcome → Type 0
    SoundResult r = NotSuccess r ⊎ QuietlyFired o selector

    abbrev Sound : Handled → Type 0
    Sound (finished r) = SoundResult r
    Sound (relist restarts) = Unit
    Sound (going_on s) = IsTimedQuietly wt o selector ops script s
