-- ===== src/Output.antt =====
-- internal/output/output.go: the report of `check` and `watch`, its order and its worst severity.
pub mod Sorting
pub mod Worst
pub mod Human
use kubectl_safe_rollout.Prelude.{
  String, Bool, List, [], ◌∷◌, ◌++◌, Option, none, some, Text, if◌then◌else◌, flat_map,
}
use kubectl_safe_rollout.Prelude.Int.{ltb_ℤ}
use kubectl_safe_rollout.Model.{Severity, Finding}

-- `Group`
pub record Group : Type 0 where
  pub id : String
  pub findings : List Finding
  pub skipped : Bool
  pub skip_reason : Text

-- `CheckReport`
pub record CheckReport : Type 0 where
  pub check_id : String
  pub skipped : Bool
  pub skip_reason : Text
  pub findings : List Finding

-- `Report`
pub record Report : Type 0 where
  pub status : String
  pub results : List CheckReport

-- sort.SliceStable: a stable sort, here by insertion.
pub stable_insert : (Finding → Finding → Bool) → Finding → List Finding → List Finding
stable_insert less x [] = x ∷ []
stable_insert less x (y ∷ ys) = if less y x then y ∷ stable_insert less x ys else x ∷ (y ∷ ys)

pub slice_stable : (Finding → Finding → Bool) → List Finding → List Finding
slice_stable less [] = []
slice_stable less (x ∷ xs) = stable_insert less x (slice_stable less xs)

-- The order that `NewReport` hands to the sort: descending severity.
abbrev pub more_severe : Finding → Finding → Bool
more_severe a b = ltb_ℤ b.severity a.severity

-- The body of the loop of `NewReport`.
unfoldable pub group_report : Group → CheckReport
unfolding slice_stable
group_report g = record {
  check_id = g.id;
  skipped = g.skipped;
  skip_reason = g.skip_reason;
  findings = slice_stable more_severe g.findings;
}

group_reports : List Group → List CheckReport
group_reports [] = []
group_reports (g ∷ gs) = group_report g ∷ group_reports gs

-- `NewReport`
unfoldable pub new_report : List Group → Report
unfolding group_reports
new_report gs = record { status = ""; results = group_reports gs }

-- The test in the inner loop of `MaxSeverity`; `none` is `ok == false`.
abbrev pub raise_severity : Option Severity → Finding → Option Severity
raise_severity none f = some f.severity
raise_severity (some s) f = some (if ltb_ℤ s f.severity then f.severity else s)

-- The inner loop of `MaxSeverity`.
pub max_of_findings : Option Severity → List Finding → Option Severity
max_of_findings acc [] = acc
max_of_findings acc (f ∷ fs) = max_of_findings (raise_severity acc f) fs

-- The outer loop of `MaxSeverity`.
pub max_of_results : Option Severity → List CheckReport → Option Severity
unfolding max_of_findings
max_of_results acc [] = acc
max_of_results acc (r ∷ rs) = max_of_results (max_of_findings acc r.findings) rs

-- `Report.MaxSeverity`
unfoldable pub max_severity : Report → Option Severity
unfolding max_of_results
max_severity r = max_of_results none r.results

-- All findings of a report, in its order.
abbrev pub report_findings : List CheckReport → List Finding
report_findings = flat_map (λ r. r.findings)
