-- ===== src/Output/Human/Lines.antt =====
-- internal/output/output.go: the lines that RenderHuman writes, and what it does when a write fails.
use kubectl_safe_rollout.Prelude.{
  Bool, false, not, List, [], ◌∷◌, ◌++◌, ◌≡◌, refl, Option, none, some, arith, is_empty, any, map,
  if◌then◌else◌, Text, plain, sprintf, wrapping, str, Error, ◌==◌, ◌&&◌, ◌||◌, Bool-cases, inl, inr,
  ◌∙◌, flat_map, sym, ap,
}
use mathlib.Core.Bool.{or_assoc}
use kubectl_safe_rollout.Model.{Finding, ref_string}
use kubectl_safe_rollout.Output.{CheckReport, Report}
use kubectl_safe_rollout.Output.Human.{
  severity_label, Printer, Writer, printf, print_evidence, print_commands, print_finding,
  print_findings, print_result, print_results, render_human,
}

-- The block of lines of one finding.
abbrev pub finding_lines : Finding → List Text
finding_lines f =
    sprintf "%-5s %-24s %s\n"
      (str (severity_label f.severity) ∷ str f.check_id ∷ str (ref_string f.resource) ∷ [])
    ∷ wrapping (if f.undetermined then "      cause (undetermined): %s\n" else "      cause: %s\n")
        [] f.cause
    ∷ (map (wrapping "      evidence: %s\n" []) f.evidence
        ++ (wrapping "      remediation: %s\n" [] f.remediation.summary
            ∷ (map (wrapping "        $ %s\n" []) f.remediation.commands
                ++ (if f.remediation.context_dependent
                    then plain
                        "      note: remediation is context dependent, review before applying\n"
                      ∷ []
                    else []))))

abbrev pub result_lines : CheckReport → List Text
result_lines r =
    if r.skipped
    then wrapping "SKIP  %-24s %s\n" (str r.check_id ∷ []) r.skip_reason ∷ []
    else (if is_empty r.findings
        then sprintf "OK    %-24s no issues detected\n" (str r.check_id ∷ []) ∷ []
        else flat_map finding_lines r.findings)

-- A result that was evaluated and has a finding.
abbrev pub reports_finding : CheckReport → Bool
reports_finding r = not r.skipped && not (is_empty r.findings)

abbrev pub human_lines : Report → List Text
human_lines r =
    let success = r.status == "succeeded" in
    (if success then plain "SUCCESS rollout completed\n" ∷ [] else [])
    ++ (if success && is_empty r.results
        then []
        else flat_map result_lines r.results
          ++ (if any reports_finding r.results
              then []
              else plain "\nno findings of relevant severity\n" ∷ []))

module _ {W : Type 0} (write : Writer W) where
  -- Writes the lines in turn, and stops at the first that fails, with its error.
  abbrev pub write_until_error : W → List Text → W × Option Error
  write_until_error w [] = (w, none)
  write_until_error w (t ∷ ts) =
      let rest = λ (v : W). write_until_error v ts in
      let (v, e) = write w t in elim e [ none ↦ rest v | some x ↦ (v, some x) ]

  print_all : Printer W → List Text → Printer W
  print_all p [] = p
  print_all p (t ∷ ts) = print_all (printf write p t) ts

  print_all-append :
      (p : Printer W) (xs ys : List Text) → print_all p (xs ++ ys) ≡ print_all (print_all p xs) ys
  unfolding print_all
  print_all-append p [] ys = refl
  print_all-append p (x ∷ xs) ys = print_all-append (printf write p x) xs ys

  print_evidence_lines :
      (p : Printer W) (es : List Text)
      → print_evidence write p es ≡ print_all p (map (wrapping "      evidence: %s\n" []) es)
  unfolding print_evidence print_all
  print_evidence_lines p [] = refl
  print_evidence_lines p (e ∷ es) =
      print_evidence_lines (printf write p (wrapping "      evidence: %s\n" [] e)) es

  print_commands_lines :
      (p : Printer W) (es : List Text)
      → print_commands write p es ≡ print_all p (map (wrapping "        $ %s\n" []) es)
  unfolding print_commands print_all
  print_commands_lines p [] = refl
  print_commands_lines p (e ∷ es) =
      print_commands_lines (printf write p (wrapping "        $ %s\n" [] e)) es

  print_finding_lines :
      (p : Printer W) (f : Finding) → print_finding write p f ≡ print_all p (finding_lines f)
  unfolding print_finding print_all
  print_finding_lines p f = elim (Bool-cases f.undetermined) [
    | inl u ↦ elim (Bool-cases f.remediation.context_dependent) [
      | inl c ↦ simp (u, c, print_all-append, print_evidence_lines, print_commands_lines)
      | inr c ↦ simp (u, c, print_all-append, print_evidence_lines, print_commands_lines)
    ]
    | inr u ↦ elim (Bool-cases f.remediation.context_dependent) [
      | inl c ↦ simp (u, c, print_all-append, print_evidence_lines, print_commands_lines)
      | inr c ↦ simp (u, c, print_all-append, print_evidence_lines, print_commands_lines)
    ]
  ]

  print_findings_lines :
      (p : Printer W) (fs : List Finding)
      → print_findings write p fs ≡ print_all p (flat_map finding_lines fs)
  unfolding print_findings print_all
  print_findings_lines p [] = refl
  print_findings_lines p (f ∷ fs) =
      print_findings_lines (print_finding write p f) fs
      ∙ rw print_finding_lines
          (sym (print_all-append p (finding_lines f) (flat_map finding_lines fs)))

  print_result_lines :
      (p : Printer W) (found : Bool) (r : CheckReport)
      → print_result write (p, found) r
        ≡ (print_all p (result_lines r), (found || reports_finding r))
  unfolding print_result print_all
  print_result_lines p found r = ground (arith, print_findings_lines p r.findings)

  print_results_lines :
      (p : Printer W) (found : Bool) (rs : List CheckReport)
      → print_results write (p, found) rs
        ≡ (print_all p (flat_map result_lines rs), (found || any reports_finding rs))
  unfolding print_results print_all
  print_results_lines p found [] = ground arith
  print_results_lines p found (r ∷ rs) = rw (print_result_lines p found r) (
      print_results_lines (print_all p (result_lines r)) (found || reports_finding r) rs
      ∙ rw print_all-append (rw or_assoc))

  abbrev outcome : Printer W → W × Option Error
  outcome p = (p.sink, p.error)

  print_all_stopped :
      (w : W) (x : Error) (ts : List Text)
      → print_all (record { sink = w; error = some x }) ts ≡ record { sink = w; error = some x }
  unfolding print_all printf
  print_all_stopped w x [] = refl
  print_all_stopped w x (t ∷ ts) = print_all_stopped w x ts

  -- Where a printer stands after a first write.
  print_all_after :
      (v : W) (e : Option Error) (ts : List Text)
      → outcome (print_all (record { sink = v; error = none }) ts) ≡ write_until_error v ts
      → outcome (print_all (record { sink = v; error = e }) ts)
        ≡ (elim e [ none ↦ write_until_error v ts | some x ↦ (v, some x) ])
  print_all_after v none ts ih = ih
  print_all_after v (some x) ts ih = rw print_all_stopped

  print_all-write_until_error :
      (w : W) (ts : List Text)
      → outcome (print_all (record { sink = w; error = none }) ts) ≡ write_until_error w ts
  unfolding print_all printf
  print_all-write_until_error w [] = refl
  print_all-write_until_error w (t ∷ ts) =
      print_all_after (write w t).0 (write w t).1 ts (print_all-write_until_error (write w t).0 ts)

  abbrev end_line : Text
  end_line = plain "\nno findings of relevant severity\n"

  print_body_lines :
      (p : Printer W) (rs : List CheckReport)
      → (let (q, found) = print_results write (p, false) rs in
          if found then q else printf write q end_line)
        ≡ print_all p
            (flat_map result_lines rs ++ (if any reports_finding rs then [] else end_line ∷ []))
  unfolding print_all
  print_body_lines p rs = elim (Bool-cases (any reports_finding rs)) [
    | inl f ↦ rw (print_results_lines p false rs) (simp (f, print_all-append))
    | inr f ↦ rw (print_results_lines p false rs) (simp (f, print_all-append))
  ]

  -- RenderHuman writes the lines of the report one after the other, each with one write, and stops
  -- at the first write that fails, whose error it returns; with no failure it returns no error.
  pub render_human-write_until_error :
      (w : W) (r : Report) → render_human write w r ≡ write_until_error w (human_lines r)
  unfolding render_human print_all
  render_human-write_until_error w r =
      rw (← print_all-write_until_error) (elim (Bool-cases (r.status == "succeeded")) [
        | inl s ↦ elim (Bool-cases (is_empty r.results)) [
          | inl e ↦ rw (s, e) refl
          | inr e ↦ rw (s, e) (ap outcome (print_body_lines (printf write p0 success) r.results))
        ]
        | inr s ↦ rw s (ap outcome (print_body_lines p0 r.results))
      ])
    where
      p0 : Printer W
      p0 = record { sink = w; error = none }

      success : Text
      success = plain "SUCCESS rollout completed\n"
