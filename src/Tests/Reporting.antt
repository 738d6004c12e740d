-- ===== src/Tests/Reporting.antt =====
-- The theorems on the report and on the command `check`, at concrete reports.
use kubectl_safe_rollout.Prelude.{
  ℕ, zero, suc, String, Bool, true, false, List, [], ◌∷◌, ◌≡◌, refl, ◌↔◌, none, some, any,
  if◌then◌else◌, plain, canceled, ok, inr, inl,
}
use kubectl_safe_rollout.Model.{
  text, marshal_json, unmarshal_json, severity_high, IsDeclared, Finding,
}
use kubectl_safe_rollout.Model.Json.{unmarshal_json_iff}
use kubectl_safe_rollout.Check.{Check, CheckResult, found}
use kubectl_safe_rollout.Output.{Group, Report, new_report, max_severity, report_findings}
use kubectl_safe_rollout.Output.Sorting.{ReportsAll, new_report-ReportsAll}
use kubectl_safe_rollout.Output.Worst.{IsWorst, max_severity-IsWorst}
use kubectl_safe_rollout.Output.Human.{Writer, render_human}
use kubectl_safe_rollout.Output.Human.Lines.{
  human_lines, write_until_error, render_human-write_until_error,
}
use kubectl_safe_rollout.Command.{Renderer, err_high_severity, validate_output_format, run_check}
use kubectl_safe_rollout.Command.Gate.{is_high, result_findings, run_check-gate}
use kubectl_safe_rollout.Tests.Data.{low, high}

unmarshal_json_iff_example :
    (unmarshal_json (text "high") ≡ ok severity_high)
    ↔ (IsDeclared severity_high × (text "high" ≡ marshal_json severity_high))
unmarshal_json_iff_example = unmarshal_json_iff (text "high") severity_high

abbrev groups : List Group
groups =
    record { id = "pdb"; findings = low ∷ high ∷ low ∷ []; skipped = false; skip_reason = plain "" }
    ∷ record { id = "quota"; findings = []; skipped = true; skip_reason = plain "forbidden" }
    ∷ []

new_report-ReportsAll_example : ReportsAll groups (new_report groups).results
new_report-ReportsAll_example = new_report-ReportsAll groups

max_severity-IsWorst_example :
    IsWorst (max_severity (new_report groups)) (report_findings (new_report groups).results)
max_severity-IsWorst_example = max_severity-IsWorst (new_report groups)

-- A writer that fails after a number of writes.
abbrev failing_after : Writer ℕ
failing_after zero t = (0, some canceled)
failing_after (suc n) t = (n, none)

render_human-write_until_error_example :
    render_human failing_after 3 (new_report groups)
    ≡ write_until_error failing_after 3 (human_lines (new_report groups))
render_human-write_until_error_example =
    render_human-write_until_error failing_after 3 (new_report groups)

abbrev silent : Renderer (List Report)
silent w r = (r ∷ w, none)

abbrev check_of : String → List Finding → Check Bool
check_of id fs = record { id = id; run = λ t. ok (found id fs) }

abbrev checks : List (Check Bool)
checks = check_of "pdb" (low ∷ high ∷ []) ∷ check_of "quota" [] ∷ []

abbrev answers : List CheckResult
answers = found "pdb" (low ∷ high ∷ []) ∷ found "quota" [] ∷ []

json_is_valid : validate_output_format "json" ≡ none
unfolding validate_output_format
json_is_valid = refl

run_check-gate_example :
    (run_check silent silent checks (ok true) [] "json").1
    ≡ (if any is_high (result_findings answers) then some err_high_severity else none)
run_check-gate_example =
    run_check-gate silent silent checks true [] "json" answers json_is_valid (refl, (refl, tt))
      (λ r. refl) (λ r. refl) (inl refl, (inr (inr refl), tt))
