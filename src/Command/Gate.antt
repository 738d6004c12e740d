-- ===== src/Command/Gate.antt =====
-- cmd/kubectl-safe_rollout: when `check` fails a CI run.
use kubectl_safe_rollout.Prelude.{
  String, Bool, true, false, List, [], ◌∷◌, ◌++◌, ◌≡◌, refl, sym, ◌∙◌, ap, Option, none, some,
  arith, any, is_empty, not, All, ◌⊎◌, inl, inr, Bool-cases, ok, map, flat_map, if◌then◌else◌, ◌==◌,
  any-append,
}
use mathlib.Core.Bool.{false≢true}
use mathlib.Core.Path.{subst}
use kubectl_safe_rollout.Prelude.Int.{eq_ℤ, eq_ℤ→eq, ◌≤ℤ◌, pos}
use kubectl_safe_rollout.Model.{Severity, severity_high, IsDeclared, Finding}
use kubectl_safe_rollout.Check.{Check, CheckResult}
use kubectl_safe_rollout.Output.{
  Group, CheckReport, Report, new_report, max_severity, report_findings,
}
use kubectl_safe_rollout.Output.Sorting.{of_severity, ReportsAll, new_report-ReportsAll}
use kubectl_safe_rollout.Output.Worst.{Occurs, Occurs-append_left, IsWorst, max_severity-IsWorst}
use kubectl_safe_rollout.Command.{
  Renderer, gate, render_check_report, run_check, run_checks, result_group, validate_output_format,
  err_high_severity,
}

abbrev pub is_high : Finding → Bool
is_high f = eq_ℤ f.severity severity_high

abbrev pub group_findings : List Group → List Finding
group_findings = flat_map (λ g. g.findings)

-- Whether a list holds a High finding depends only on its findings of that severity.
any-is_high : (fs : List Finding) → any is_high fs ≡ not (is_empty (of_severity severity_high fs))
any-is_high [] = refl
any-is_high (f ∷ fs) = ground (arith, any-is_high fs)

any-is_high-report :
    (gs : List Group) (rs : List CheckReport)
    → ReportsAll gs rs
    → any is_high (report_findings rs) ≡ any is_high (group_findings gs)
any-is_high-report [] [] h = refl
any-is_high-report [] (r ∷ rs) h = absurd h
any-is_high-report (g ∷ gs) [] h = absurd h
any-is_high-report (g ∷ gs) (r ∷ rs) h =
    rw
      (
        any-append is_high r.findings (report_findings rs),
        any-append is_high g.findings (group_findings gs),
      )
      (cc (
        any-is_high r.findings,
        any-is_high g.findings,
        h.0.kept_in_order severity_high,
        any-is_high-report gs rs h.1,
      ))

Occurs-high : (fs : List Finding) → Occurs severity_high fs → any is_high fs ≡ true
Occurs-high [] h = absurd h
Occurs-high (f ∷ fs) (inl e) = rw e refl
Occurs-high (f ∷ fs) (inr h) = ground (arith, Occurs-high fs h)

-- A bound that is declared and is not High leaves no High finding.
Bounded-high :
    (s : Severity) (fs : List Finding)
    → All (λ (f : Finding). f.severity ≤ℤ s) fs
    → any is_high fs ≡ true
    → pos 2 ≤ℤ s
Bounded-high s [] b h = cc
Bounded-high s (f ∷ fs) b h = ground (arith, Bounded-high s fs b.1)

abbrev pub IsAllDeclared : List Finding → Type 0
IsAllDeclared = All (λ (f : Finding). IsDeclared f.severity)

worst-high : (s : Severity) → IsDeclared s → pos 2 ≤ℤ s → s ≡ severity_high
worst-high s d h = ground arith

Occurs-IsDeclared :
    (s : Severity) (fs : List Finding) → IsAllDeclared fs → Occurs s fs → IsDeclared s
Occurs-IsDeclared s [] d h = absurd h
Occurs-IsDeclared s (f ∷ fs) d (inl e) = rw e at d.0
Occurs-IsDeclared s (f ∷ fs) d (inr h) = Occurs-IsDeclared s fs d.1 h

-- The verdict from the worst severity is the verdict from all findings.
verdict :
    (m : Option Severity) (fs : List Finding)
    → IsWorst m fs
    → ((s : Severity) → Occurs s fs → IsDeclared s)
    → (elim m [
      | none ↦ none
      | some s ↦ if eq_ℤ s severity_high then some err_high_severity else none
    ])
      ≡ (if any is_high fs then some err_high_severity else none)
verdict none fs h d = rw h refl
verdict (some s) fs h d = elim (Bool-cases (any is_high fs)) [
  | inl y ↦ rw (y, worst-high s (d s h.0) (Bounded-high s fs h.1 y)) refl
  | inr n ↦ elim (Bool-cases (eq_ℤ s severity_high)) [
    | inl e ↦ absurd (false≢true (sym n ∙ Occurs-high fs (rw (eq_ℤ→eq s severity_high e) at h.0)))
    | inr e ↦ rw (n, e) refl
  ]
]

module _ (s : Severity) where
  Occurs-of_severity : (fs : List Finding) → Occurs s fs → is_empty (of_severity s fs) ≡ false
  Occurs-of_severity [] h = absurd h
  Occurs-of_severity (f ∷ fs) (inl e) = rw e (ground arith)
  Occurs-of_severity (f ∷ fs) (inr h) = ground (arith, Occurs-of_severity fs h)

  of_severity-Occurs : (fs : List Finding) → is_empty (of_severity s fs) ≡ false → Occurs s fs
  of_severity-Occurs [] h = cc
  of_severity-Occurs (f ∷ fs) h = elim (Bool-cases (eq_ℤ f.severity s)) [
    | inl e ↦ inl (eq_ℤ→eq f.severity s e)
    | inr n ↦ inr (of_severity-Occurs fs (ground arith))
  ]

  Occurs-append : (xs ys : List Finding) → Occurs s (xs ++ ys) → Occurs s xs ⊎ Occurs s ys
  Occurs-append [] ys h = inr h
  Occurs-append (x ∷ xs) ys (inl e) = inl (inl e)
  Occurs-append (x ∷ xs) ys (inr h) = elim (Occurs-append xs ys h) [
    | inl a ↦ inl (inr a)
    | inr b ↦ inr b
  ]

  append-Occurs_right : (xs ys : List Finding) → Occurs s ys → Occurs s (xs ++ ys)
  append-Occurs_right [] ys h = h
  append-Occurs_right (x ∷ xs) ys h = inr (append-Occurs_right xs ys h)

  Occurs-report :
      (gs : List Group) (rs : List CheckReport)
      → ReportsAll gs rs
      → Occurs s (report_findings rs)
      → Occurs s (group_findings gs)
  Occurs-report [] [] h o = o
  Occurs-report [] (r ∷ rs) h o = absurd h
  Occurs-report (g ∷ gs) [] h o = absurd h
  Occurs-report (g ∷ gs) (r ∷ rs) h o = elim (Occurs-append r.findings (report_findings rs) o) [
    | inl a ↦ Occurs-append_left s g.findings (group_findings gs) (
        of_severity-Occurs g.findings
          (rw (← h.0.kept_in_order s) (Occurs-of_severity r.findings a)))
    | inr b ↦ append-Occurs_right g.findings (group_findings gs) (Occurs-report gs rs h.1 b)
  ]

pub gate_lem :
    {W : Type 0} (human json : Renderer W) (gs : List Group)
    → IsAllDeclared (group_findings gs)
    → gate human json (new_report gs)
      ≡ (if any is_high (group_findings gs) then some err_high_severity else none)
unfolding gate
gate_lem human json gs d =
    let r : List CheckReport = (new_report gs).results in
    let h : ReportsAll gs r = new_report-ReportsAll gs in
    verdict (max_severity (new_report gs)) (report_findings r)
      (max_severity-IsWorst (new_report gs))
      (λ s o. Occurs-IsDeclared s (group_findings gs) d (Occurs-report s gs r h o))
    ∙ ap (λ b. if b then some err_high_severity else none) (any-is_high-report gs r h)

module _ {W : Type 0} (human json : Renderer W) (w : W) (f : String) where
  run_check_reports :
      {T : Type 0} (checks : List (Check T)) (t : T) (gs : List Group)
      → validate_output_format f ≡ none
      → run_checks checks t ≡ ok gs
      → run_check human json checks (ok t) w f ≡ render_check_report human json w (new_report gs) f
  unfolding run_check
  run_check_reports checks t gs valid ran = rw (valid, ran, run_check)

  pub render_check_report_verdict :
      (r : Report)
      → (human w r).1 ≡ none
      → (json w r).1 ≡ none
      → (render_check_report human json w r f).1 ≡ gate human json r
  unfolding render_check_report
  render_check_report_verdict r h j = elim (Bool-cases (f == "json")) [
    | inl e ↦ rw (e, j, render_check_report) refl
    | inr e ↦ rw (e, h, render_check_report) refl
  ]

-- What each check answers, in the order of registration.
abbrev pub Ran : {T : Type 0} → List (Check T) → T → List CheckResult → Type 0
Ran [] t [] = Unit
Ran (c ∷ cs) t (r ∷ rs) = (c.run t ≡ ok r) × Ran cs t rs
Ran _ t _ = ⊥

run_checks-Ran :
    {T : Type 0} (checks : List (Check T)) (t : T) (rs : List CheckResult)
    → Ran checks t rs
    → run_checks checks t ≡ ok (map result_group rs)
unfolding run_checks
run_checks-Ran [] t [] h = refl
run_checks-Ran [] t (r ∷ rs) h = absurd h
run_checks-Ran (c ∷ cs) t [] h = absurd h
run_checks-Ran (c ∷ cs) t (r ∷ rs) h = rw (h.0, run_checks-Ran cs t rs h.1) refl

abbrev pub result_findings : List CheckResult → List Finding
result_findings = flat_map (λ r. r.findings)

group_findings-result_group :
    (rs : List CheckResult) → group_findings (map result_group rs) ≡ result_findings rs
unfolding result_group
group_findings-result_group [] = refl
group_findings-result_group (r ∷ rs) = ap (λ fs. r.findings ++ fs) (group_findings-result_group rs)

-- With a valid format, a resolved workload, checks that each give a result and a writer that takes the
-- report, `check` returns the High-severity sentinel exactly if the result of some check has a High
-- finding (all severities being among the three declared ones), and no error otherwise.
pub run_check-gate :
    {W T : Type 0} (human json : Renderer W) (checks : List (Check T)) (t : T) (w : W) (f : String)
    (rs : List CheckResult)
    → validate_output_format f ≡ none
    → Ran checks t rs
    → ((r : Report) → (human w r).1 ≡ none)
    → ((r : Report) → (json w r).1 ≡ none)
    → IsAllDeclared (result_findings rs)
    → (run_check human json checks (ok t) w f).1
      ≡ (if any is_high (result_findings rs) then some err_high_severity else none)
run_check-gate human json checks t w f rs valid ran human_writes json_writes d =
    let gs : List Group = map result_group rs in
    let same = group_findings-result_group rs in
    ap (λ p. p.1)
      (run_check_reports human json w f checks t gs valid (run_checks-Ran checks t rs ran))
    ∙ render_check_report_verdict human json w f (new_report gs) (human_writes (new_report gs))
        (json_writes (new_report gs))
    ∙ gate_lem human json gs (subst IsAllDeclared (sym same) d)
    ∙ ap (λ fs. if any is_high fs then some err_high_severity else none) same
