-- ===== src/Output/Worst.antt =====
-- internal/output/output.go: MaxSeverity is the maximum over all findings.
use kubectl_safe_rollout.Prelude.{
  List, [], ◌∷◌, ◌++◌, ◌≡◌, refl, Option, none, some, arith, All, ◌⊎◌, inl, inr, append_assoc,
  append-nil, Bool-cases,
}
use kubectl_safe_rollout.Prelude.Int.{◌≤ℤ◌, ltb_ℤ}
use mathlib.Core.Path.{subst}
use kubectl_safe_rollout.Model.{Severity, Finding}
use kubectl_safe_rollout.Output.{
  CheckReport, Report, raise_severity, max_of_findings, max_of_results, max_severity,
  report_findings,
}

-- Some finding of the list has this severity.
abbrev pub Occurs : Severity → List Finding → Type 0
Occurs s [] = ⊥
Occurs s (f ∷ fs) = (f.severity ≡ s) ⊎ Occurs s fs

-- `none` for no finding; otherwise a severity that occurs and bounds all.
abbrev pub IsWorst : Option Severity → List Finding → Type 0
IsWorst none fs = fs ≡ []
IsWorst (some s) fs = Occurs s fs × All (λ (f : Finding). f.severity ≤ℤ s) fs

pub Occurs-append_left : (s : Severity) (xs ys : List Finding) → Occurs s xs → Occurs s (xs ++ ys)
Occurs-append_left s [] ys h = absurd h
Occurs-append_left s (x ∷ xs) ys (inl e) = inl e
Occurs-append_left s (x ∷ xs) ys (inr h) = inr (Occurs-append_left s xs ys h)

Occurs-last : (xs : List Finding) (f : Finding) → Occurs f.severity (xs ++ f ∷ [])
Occurs-last [] f = inl refl
Occurs-last (x ∷ xs) f = inr (Occurs-last xs f)

abbrev Bounded : Severity → List Finding → Type 0
Bounded s = All (λ (f : Finding). f.severity ≤ℤ s)

Bounded-raise :
    (s t : Severity) (xs : List Finding) (f : Finding)
    → s ≤ℤ t
    → f.severity ≤ℤ t
    → Bounded s xs
    → Bounded t (xs ++ f ∷ [])
Bounded-raise s t [] f st ft b = (ft, tt)
Bounded-raise s t (x ∷ xs) f st ft b = (omega arith, Bounded-raise s t xs f st ft b.1)

raise_severity-IsWorst :
    (acc : Option Severity) (seen : List Finding) (f : Finding)
    → IsWorst acc seen
    → IsWorst (raise_severity acc f) (seen ++ f ∷ [])
raise_severity-IsWorst none seen f h = rw h ((inl refl, (omega arith, tt)))
raise_severity-IsWorst (some s) seen f h = elim (Bool-cases (ltb_ℤ s f.severity)) [
  | inl more ↦
      rw more
        (Occurs-last seen f, Bounded-raise s f.severity seen f (ground arith) (omega arith) h.1)
  | inr less ↦
      rw less
        (Occurs-append_left s seen _ h.0, Bounded-raise s s seen f (omega arith) (ground arith) h.1)
]

max_of_findings-IsWorst :
    (acc : Option Severity) (seen fs : List Finding)
    → IsWorst acc seen
    → IsWorst (max_of_findings acc fs) (seen ++ fs)
unfolding max_of_findings
max_of_findings-IsWorst acc seen [] h = rw append-nil h
max_of_findings-IsWorst acc seen (f ∷ fs) h =
    subst (IsWorst (max_of_findings (raise_severity acc f) fs)) (append_assoc seen (f ∷ []) fs) (
      max_of_findings-IsWorst (raise_severity acc f) (seen ++ f ∷ []) fs
        (raise_severity-IsWorst acc seen f h))

max_of_results-IsWorst :
    (acc : Option Severity) (seen : List Finding) (rs : List CheckReport)
    → IsWorst acc seen
    → IsWorst (max_of_results acc rs) (seen ++ report_findings rs)
unfolding max_of_results
max_of_results-IsWorst acc seen [] h = rw append-nil h
max_of_results-IsWorst acc seen (r ∷ rs) h =
    subst (IsWorst (max_of_results (max_of_findings acc r.findings) rs))
      (append_assoc seen r.findings (report_findings rs))
      (max_of_results-IsWorst (max_of_findings acc r.findings) (seen ++ r.findings) rs
        (max_of_findings-IsWorst acc seen r.findings h))

-- MaxSeverity answers nothing for a report with no finding, and otherwise a severity that occurs
-- among its findings and that no finding exceeds.
pub max_severity-IsWorst : (r : Report) → IsWorst (max_severity r) (report_findings r.results)
unfolding max_severity
max_severity-IsWorst r = max_of_results-IsWorst none [] r.results refl
