-- ===== src/Command/Watching.antt =====
-- cmd/kubectl-safe_rollout/watch.go: the command `watch`, given what Watch returned.
use kubectl_safe_rollout.Prelude.{
  String, true, false, not, List, [], ◌∷◌, ◌++◌, ◌≡◌, refl, sym, ap, ◌∙◌, Option, none, some, ◌&&◌,
  if◌then◌else◌, any, flat_map, Error, errorf, sprintf, num, is_deadline_exceeded, Fallible, ok,
  err, Bool-cases, inl, inr,
}
use mathlib.Core.Path.{subst}
use kubectl_safe_rollout.Prelude.Int.{ℤ, pos, ltb_ℤ}
use kubectl_safe_rollout.Output.{Group, Report, new_report, max_severity}
use kubectl_safe_rollout.Diagnose.{Result, all_findings}
use kubectl_safe_rollout.Diagnose.Results.{all_findings_lem}
use kubectl_safe_rollout.Diagnose.Tick.{Outcome}
use kubectl_safe_rollout.Command.{
  Renderer, err_high_severity, validate_output_format, gate, render_check_report, exit_code,
  prints_error, is_high_severity_error,
}
use kubectl_safe_rollout.Command.Gate.{
  is_high, group_findings, IsAllDeclared, gate_lem, render_check_report_verdict,
}

-- The copy of a diagnoser's result into a group.
pub watch_group : Result → Group
watch_group r = record {
  id = r.diagnoser_id;
  findings = r.findings;
  skipped = r.skipped;
  skip_reason = r.skip_reason;
}

unfoldable pub watch_groups : List Result → List Group
unfolding watch_group
watch_groups [] = []
watch_groups (r ∷ rs) = watch_group r ∷ watch_groups rs

-- The report of an outcome.
pub watch_report : Outcome → Report
watch_report o =
    let r : Report = new_report (watch_groups o.results) in
    if o.succeeded then record r { status = "succeeded" } else r

-- The error of `runWatch` where Watch failed; the timeout is in nanoseconds.
pub watch_error : ℤ → Error → Error
watch_error timeout e =
    if ltb_ℤ (pos 0) timeout && is_deadline_exceeded e
    then errorf (
        sprintf
          "--timeout of %s reached before the rollout completed or a cause was classified: it may still be in progress, or its cause may be outside what this tool classifies today"
          (num timeout ∷ []))
    else e

module _ {W : Type 0} (render_human render_json : Renderer W) where
  pub render_watched : ℤ → Fallible Outcome → W → String → W × Option Error
  render_watched timeout (err e) w f = (w, some (watch_error timeout e))
  render_watched timeout (ok o) w f =
      render_check_report render_human render_json w (watch_report o) f

  -- `runWatch`, given the error of the client and the workload, or what Watch returned for them.
  pub run_watch : ℤ → Fallible (Fallible Outcome) → W → String → W × Option Error
  run_watch timeout watched w f = elim (validate_output_format f) [
    | some e ↦ (w, some e)
    | none ↦ elim watched [ err e ↦ (w, some e) | ok r ↦ render_watched timeout r w f ]
  ]

pub group_findings-watch_groups :
    (rs : List Result) → group_findings (watch_groups rs) ≡ all_findings rs
unfolding watch_groups
group_findings-watch_groups rs = flattened rs ∙ sym (all_findings_lem rs)
  where
    flattened :
        (xs : List Result)
        → group_findings (watch_groups xs) ≡ flat_map (λ (r : Result). r.findings) xs
    flattened [] = refl
    flattened (x ∷ xs) = ap (λ fs. x.findings ++ fs) (flattened xs)

gate-watch_report :
    {W : Type 0} (human json : Renderer W) (o : Outcome)
    → gate human json (watch_report o) ≡ gate human json (new_report (watch_groups o.results))
unfolding gate watch_report max_severity
gate-watch_report human json o = elim (Bool-cases o.succeeded) [
  | inl e ↦ rw e refl
  | inr e ↦ rw e refl
]

run_watch-watched :
    {W : Type 0} (human json : Renderer W) (timeout : ℤ) (r : Fallible Outcome) (w : W) (f : String)
    → validate_output_format f ≡ none
    → run_watch human json timeout (ok r) w f ≡ render_watched human json timeout r w f
unfolding run_watch
run_watch-watched human json timeout r w f valid = rw (valid, run_watch) refl

-- With a valid format and a writer that takes the report, `watch` on an outcome of Watch returns the
-- High-severity sentinel exactly if some diagnoser reported a High finding (all severities being among
-- the three declared ones), and no error otherwise.
pub run_watch-gate :
    {W : Type 0} (human json : Renderer W) (timeout : ℤ) (o : Outcome) (w : W) (f : String)
    → validate_output_format f ≡ none
    → ((r : Report) → (human w r).1 ≡ none)
    → ((r : Report) → (json w r).1 ≡ none)
    → IsAllDeclared (group_findings (watch_groups o.results))
    → (run_watch human json timeout (ok (ok o)) w f).1
      ≡ (if any is_high (all_findings o.results) then some err_high_severity else none)
unfolding render_watched
run_watch-gate human json timeout o w f valid human_writes json_writes d =
    ap (λ p. p.1) (run_watch-watched human json timeout (ok o) w f valid)
    ∙ render_check_report_verdict human json w f (watch_report o) (human_writes (watch_report o))
        (json_writes (watch_report o))
    ∙ gate-watch_report human json o
    ∙ gate_lem human json (watch_groups o.results) d
    ∙ ap (λ fs. if any is_high fs then some err_high_severity else none)
        (group_findings-watch_groups o.results)

-- The process ends with exit code 1 and prints the error.
abbrev pub FailsLoudly : Option Error → Type 0
FailsLoudly e = (exit_code e ≡ 1) × (prints_error e ≡ true)

-- Where the format is valid and Watch fails with an error that is not the High-severity sentinel, the
-- process ends with exit code 1 and prints an error, with or without a timeout.
pub run_watch-FailsLoudly :
    {W : Type 0} (human json : Renderer W) (timeout : ℤ) (e : Error) (w : W) (f : String)
    → validate_output_format f ≡ none
    → is_high_severity_error e ≡ false
    → FailsLoudly (run_watch human json timeout (ok (err e)) w f).1
unfolding render_watched watch_error exit_code prints_error
run_watch-FailsLoudly human json timeout e w f valid h =
    subst (λ p. FailsLoudly p.1) (sym (run_watch-watched human json timeout (err e) w f valid))
      (elim (Bool-cases (ltb_ℤ (pos 0) timeout && is_deadline_exceeded e)) [
        | inl t ↦ rw t (refl, refl)
        | inr t ↦ rw t (refl, ap not h)
      ])
