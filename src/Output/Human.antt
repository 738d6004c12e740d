-- ===== src/Output/Human.antt =====
-- internal/output/output.go: RenderHuman, over any io.Writer.
pub mod Lines
use kubectl_safe_rollout.Prelude.{
  String, Bool, true, false, not, List, [], ◌∷◌, ◌++◌, ◌≡◌, refl, Option, none, some, arith,
  is_empty, any, if◌then◌else◌, Text, plain, sprintf, wrapping, str, Error, ◌==◌, append_assoc,
  append-nil, ◌&&◌, Bool-cases, inl, inr, ◌∙◌,
}
use kubectl_safe_rollout.Prelude.Int.{eq_ℤ}
use kubectl_safe_rollout.Model.{Severity, severity_high, severity_medium, Finding, ref_string}
use kubectl_safe_rollout.Output.{CheckReport, Report}

-- `severityLabel`
unfoldable pub severity_label : Severity → String
severity_label s =
    if eq_ℤ s severity_high then "HIGH" else (if eq_ℤ s severity_medium then "MED" else "LOW")

-- What RenderHuman holds: the writer's own state, and the first error, which its `printf` keeps.
pub record Printer (W : Type 0) : Type 0 where
  pub sink : W
  pub error : Option Error

-- An io.Writer: a write returns the writer after it and the error, if it failed.
abbrev pub Writer : Type 0 → Type 0
Writer W = W → Text → W × Option Error

module _ {W : Type 0} (write : Writer W) where
  -- The closure `printf`.
  pub printf : Printer W → Text → Printer W
  printf p t = elim p.error [
    | none ↦ let (w, e) = write p.sink t in record { sink = w; error = e }
    | some _ ↦ p
  ]

  -- The loops over the evidence and over the commands.
  pub print_evidence : Printer W → List Text → Printer W
  print_evidence p [] = p
  print_evidence p (e ∷ es) = print_evidence (printf p (wrapping "      evidence: %s\n" [] e)) es

  pub print_commands : Printer W → List Text → Printer W
  print_commands p [] = p
  print_commands p (c ∷ cs) = print_commands (printf p (wrapping "        $ %s\n" [] c)) cs

  -- The body of the loop over the findings.
  pub print_finding : Printer W → Finding → Printer W
  print_finding p f =
      let p1 = printf p (
        sprintf "%-5s %-24s %s\n"
          (str (severity_label f.severity) ∷ str f.check_id ∷ str (ref_string f.resource) ∷ [])) in
      let p2 =
        if f.undetermined
        then printf p1 (wrapping "      cause (undetermined): %s\n" [] f.cause)
        else printf p1 (wrapping "      cause: %s\n" [] f.cause) in
      let p3 = print_evidence p2 f.evidence in
      let p4 = printf p3 (wrapping "      remediation: %s\n" [] f.remediation.summary) in
      let p5 = print_commands p4 f.remediation.commands in
      if f.remediation.context_dependent
      then printf p5
          (plain "      note: remediation is context dependent, review before applying\n")
      else p5

  pub print_findings : Printer W → List Finding → Printer W
  print_findings p [] = p
  print_findings p (f ∷ fs) = print_findings (print_finding p f) fs

  -- The body of the loop over the results, and the loop, with the flag `anyFinding`.
  pub print_result : Printer W × Bool → CheckReport → Printer W × Bool
  print_result (p, found) r =
      if r.skipped
      then (printf p (wrapping "SKIP  %-24s %s\n" (str r.check_id ∷ []) r.skip_reason), found)
      else (if is_empty r.findings
          then (printf p (sprintf "OK    %-24s no issues detected\n" (str r.check_id ∷ [])), found)
          else (print_findings p r.findings, true))

  pub print_results : Printer W × Bool → List CheckReport → Printer W × Bool
  print_results p [] = p
  print_results p (r ∷ rs) = print_results (print_result p r) rs

  -- `RenderHuman`, from the writer's state: the state after it, and the error that it returns.
  unfoldable pub render_human : W → Report → W × Option Error
  render_human w r =
      let p0 : Printer W = record { sink = w; error = none } in
      let success = r.status == "succeeded" in
      let p1 = if success then printf p0 (plain "SUCCESS rollout completed\n") else p0 in
      if success && is_empty r.results
      then (p1.sink, p1.error)
      else (let (p2, found) = print_results (p1, false) r.results in
          let p3 = if found then p2 else printf p2 (plain "\nno findings of relevant severity\n") in
          (p3.sink, p3.error))
