-- ===== src/Tests/Watching.antt =====
-- The theorems on the command `watch`, at concrete outcomes.
use kubectl_safe_rollout.Prelude.{
  false, List, [], ◌∷◌, ◌≡◌, refl, none, some, any, if◌then◌else◌, deadline_exceeded, ok, err, inr,
}
use kubectl_safe_rollout.Prelude.Int.{pos}
use kubectl_safe_rollout.Output.{Report}
use kubectl_safe_rollout.Diagnose.{found, all_findings}
use kubectl_safe_rollout.Diagnose.Tick.{Outcome}
use kubectl_safe_rollout.Command.{Renderer, err_high_severity, validate_output_format}
use kubectl_safe_rollout.Command.Gate.{is_high}
use kubectl_safe_rollout.Command.Watching.{
  watch_groups, run_watch, run_watch-gate, FailsLoudly, run_watch-FailsLoudly,
}
use kubectl_safe_rollout.Tests.Data.{high}

abbrev keeping : Renderer (List Report)
keeping w r = (r ∷ w, none)

abbrev crashed : Outcome
crashed = record { succeeded = false; results = found "crashloop" (high ∷ []) ∷ [] }

human_is_valid : validate_output_format "human" ≡ none
unfolding validate_output_format
human_is_valid = refl

run_watch-gate_example :
    (run_watch keeping keeping (pos 0) (ok (ok crashed)) [] "human").1
    ≡ (if any is_high (all_findings crashed.results) then some err_high_severity else none)
unfolding watch_groups
run_watch-gate_example =
    run_watch-gate keeping keeping (pos 0) crashed [] "human" human_is_valid (λ r. refl) (λ r. refl)
      (inr (inr refl), tt)

run_watch-FailsLoudly_example :
    FailsLoudly
      (run_watch keeping keeping (pos 5000000000) (ok (err deadline_exceeded)) [] "human").1
run_watch-FailsLoudly_example =
    run_watch-FailsLoudly keeping keeping (pos 5000000000) deadline_exceeded [] "human"
      human_is_valid refl
