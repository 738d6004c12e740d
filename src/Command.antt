-- ===== src/Command.antt =====
-- cmd/kubectl-safe_rollout: the command `check` from its arguments to the exit code.
pub mod Gate
pub mod Watching
pub mod Verdict
use kubectl_safe_rollout.Prelude.{
  ℕ, String, Bool, true, false, not, List, [], ◌∷◌, Option, none, some, ◌==◌, ◌&&◌, if◌then◌else◌,
  Error, errorf, wrap, sentinel, sprintf, str, Fallible, ok, err,
}
use kubectl_safe_rollout.Prelude.Int.{eq_ℤ}
use kubectl_safe_rollout.Model.{severity_high}
use kubectl_safe_rollout.Check.{Check, CheckResult}
use kubectl_safe_rollout.Output.{Group, Report, new_report, max_severity}

-- `errHighSeverity`
abbrev pub err_high_severity : Error
err_high_severity = sentinel "high-severity findings found"

-- `validateOutputFormat`
unfoldable pub validate_output_format : String → Option Error
validate_output_format f =
    if not (f == "human") && not (f == "json")
    then some (errorf (sprintf "invalid --output: %q (expected human or json)" (str f ∷ [])))
    else none

-- The copy of a check's result into a group.
unfoldable pub result_group : CheckResult → Group
result_group r = record {
  id = r.check_id;
  findings = r.findings;
  skipped = r.skipped;
  skip_reason = r.skip_reason;
}

-- The loop of `runCheck` over the registered checks.
unfoldable pub run_checks : {T : Type 0} → List (Check T) → T → Fallible (List Group)
run_checks [] t = ok []
run_checks (c ∷ cs) t =
    let rest = run_checks cs t in
    elim (c.run t) [
      | err e ↦ err (wrap "check %s: %w" (str c.id ∷ []) e)
      | ok r ↦ elim rest [ err e ↦ err e | ok gs ↦ ok (result_group r ∷ gs) ]
    ]

-- RenderHuman and RenderJSON on one writer: the writer after it, and the error.
abbrev pub Renderer : Type 0 → Type 0
Renderer W = W → Report → W × Option Error

module _ {W : Type 0} (render_human render_json : Renderer W) where
  -- The end of `renderCheckReport`: the verdict for CI.
  pub gate : Report → Option Error
  gate r = elim (max_severity r) [
    | none ↦ none
    | some s ↦ if eq_ℤ s severity_high then some err_high_severity else none
  ]

  -- `renderCheckReport`
  pub render_check_report : W → Report → String → W × Option Error
  render_check_report w r f =
      let (w', e) = if f == "json" then render_json w r else render_human w r in
      elim e [ some x ↦ (w', some x) | none ↦ (w', gate r) ]

  -- `runCheck`, with the client and the workload that it resolves given as the target or an error.
  pub run_check : {T : Type 0} → List (Check T) → Fallible T → W → String → W × Option Error
  run_check checks target w f = elim (validate_output_format f) [
    | some e ↦ (w, some e)
    | none ↦ elim target [
      | err e ↦ (w, some e)
      | ok t ↦ elim (run_checks checks t) [
        | err e ↦ (w, some e)
        | ok gs ↦ render_check_report w (new_report gs) f
      ]
    ]
  ]

-- `main`: the exit code, and whether the error is printed on stderr.
unfoldable pub exit_code : Option Error → ℕ
exit_code none = 0
exit_code (some e) = 1

-- errors.Is(err, errHighSeverity)
abbrev pub is_high_severity_error : Error → Bool
is_high_severity_error (sentinel s) = s == "high-severity findings found"
is_high_severity_error (wrap f args e) = is_high_severity_error e
is_high_severity_error _ = false

unfoldable pub prints_error : Option Error → Bool
prints_error none = false
prints_error (some e) = not (is_high_severity_error e)
