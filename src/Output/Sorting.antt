-- ===== src/Output/Sorting.antt =====
-- internal/output/output.go: NewReport keeps every finding and puts the worst first.
use kubectl_safe_rollout.Prelude.{List, [], ◌∷◌, ◌≡◌, refl, arith, All, filter, ◌∙◌}
use kubectl_safe_rollout.Prelude.Int.{◌≤ℤ◌, eq_ℤ}
use kubectl_safe_rollout.Model.{Severity, Finding}
use kubectl_safe_rollout.Output.{
  Group, CheckReport, stable_insert, slice_stable, more_severe, group_report, group_reports,
  new_report,
}

-- Every finding is at least as severe as those behind it.
abbrev pub WorstFirst : List Finding → Type 0
WorstFirst [] = Unit
WorstFirst (x ∷ xs) = All (λ (y : Finding). y.severity ≤ℤ x.severity) xs × WorstFirst xs

-- The findings of one severity, in their order.
abbrev pub of_severity : Severity → List Finding → List Finding
of_severity s = filter (λ f. eq_ℤ f.severity s)

module _ (x : Finding) where
  abbrev Below : Finding → List Finding → Type 0
  Below y xs = All (λ (z : Finding). z.severity ≤ℤ y.severity) xs

  Below-insert :
      (y : Finding) (ys : List Finding)
      → x.severity ≤ℤ y.severity
      → Below y ys
      → Below y (stable_insert more_severe x ys)
  unfolding stable_insert
  Below-insert y [] h b = (h, tt)
  Below-insert y (z ∷ zs) h b = ground (arith, Below-insert y zs h b.1)

  Below-weaken :
      (y : Finding) (ys : List Finding) → y.severity ≤ℤ x.severity → Below y ys → Below x ys
  Below-weaken y [] h b = tt
  Below-weaken y (z ∷ zs) h b = ground (arith, Below-weaken y zs h b.1)

  insert-WorstFirst :
      (ys : List Finding) → WorstFirst ys → WorstFirst (stable_insert more_severe x ys)
  unfolding stable_insert
  insert-WorstFirst [] w = (tt, tt)
  insert-WorstFirst (y ∷ ys) w =
      ground (arith, insert-WorstFirst ys w.1, Below-insert y ys, Below-weaken y ys)

  insert-of_severity :
      (s : Severity) (ys : List Finding)
      → of_severity s (stable_insert more_severe x ys) ≡ of_severity s (x ∷ ys)
  unfolding stable_insert
  insert-of_severity s [] = refl
  insert-of_severity s (y ∷ ys) = ground (arith, insert-of_severity s ys)

slice_stable-WorstFirst : (xs : List Finding) → WorstFirst (slice_stable more_severe xs)
unfolding slice_stable
slice_stable-WorstFirst [] = tt
slice_stable-WorstFirst (x ∷ xs) =
    insert-WorstFirst x (slice_stable more_severe xs) (slice_stable-WorstFirst xs)

slice_stable-of_severity :
    (s : Severity) (xs : List Finding)
    → of_severity s (slice_stable more_severe xs) ≡ of_severity s xs
unfolding slice_stable
slice_stable-of_severity s [] = refl
slice_stable-of_severity s (x ∷ xs) =
    insert-of_severity x s (slice_stable more_severe xs)
    ∙ ground (arith, slice_stable-of_severity s xs)

-- What the report says of a group: the same labels, and the same findings, worst first, with the
-- findings of each severity in the order in which the check gave them.
pub record Reports (g : Group) (r : CheckReport) : Type 0 where
  pub same_id : r.check_id ≡ g.id
  pub same_skipped : r.skipped ≡ g.skipped
  pub same_reason : r.skip_reason ≡ g.skip_reason
  pub worst_first : WorstFirst r.findings
  pub kept_in_order : (s : Severity) → of_severity s r.findings ≡ of_severity s g.findings

abbrev pub ReportsAll : List Group → List CheckReport → Type 0
ReportsAll [] [] = Unit
ReportsAll (g ∷ gs) (r ∷ rs) = Reports g r × ReportsAll gs rs
ReportsAll _ _ = ⊥

group_report-Reports : (g : Group) → Reports g (group_report g)
unfolding group_report
group_report-Reports g = record {
  same_id = refl;
  same_skipped = refl;
  same_reason = refl;
  worst_first = slice_stable-WorstFirst g.findings;
  kept_in_order = λ s. slice_stable-of_severity s g.findings;
}

group_reports-ReportsAll : (gs : List Group) → ReportsAll gs (group_reports gs)
unfolding group_reports
group_reports-ReportsAll [] = tt
group_reports-ReportsAll (g ∷ gs) = (group_report-Reports g, group_reports-ReportsAll gs)

-- A report has a result for each group, in order, and each reports its group: the same labels, and the
-- same findings, worst first, with those of each severity in the order in which the check gave them.
pub new_report-ReportsAll : (gs : List Group) → ReportsAll gs (new_report gs).results
unfolding new_report
new_report-ReportsAll gs = group_reports-ReportsAll gs
