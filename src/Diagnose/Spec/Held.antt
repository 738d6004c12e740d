-- ===== src/Diagnose/Spec/Held.antt =====
-- internal/diagnose/paused.go and progressdeadline.go: when a Deployment is reported as held back.
use kubectl_safe_rollout.Prelude.{
  String, Bool, true, false, not, List, [], ◌∷◌, ◌≡◌, refl, sym, ap, ◌∙◌, none, some, ◌==◌, ◌&&◌,
  inl, inr, Bool-cases, Option-cases, if◌then◌else◌, is_empty, is_some, any, Fallible, ok, sprintf,
  str,
}
use kubectl_safe_rollout.Api.{Condition}
use kubectl_safe_rollout.Workload.{
  Workload, kind, from_deployment, from_stateful_set, from_daemon_set, is_paused,
  progressing_message, progress_deadline_exceeded,
}
use kubectl_safe_rollout.Diagnose.{Result, Target, found, skip_result}
use kubectl_safe_rollout.Diagnose.Spec.{
  diagnose_paused, diagnose_progress_deadline, paused_diagnoser_id, progress_deadline_diagnoser_id,
  paused_finding, progress_deadline_finding, has_no_deployment_fields,
}

-- What a diagnoser answers about a workload: it never fails, it is skipped where the kind has no such
-- field, and else it has a finding exactly under the condition.
abbrev pub Classifies : Fallible Result → Bool → Bool → Type 0
Classifies x applies condition =
    (r : Result) × (x ≡ ok r)
    × (r.skipped ≡ not applies)
    × (is_empty r.findings ≡ not (applies && condition))

-- The kind has spec.paused and a condition Progressing.
abbrev pub is_deployment : Workload → Bool
is_deployment (from_deployment d) = true
is_deployment _ = false

abbrev pub spec_paused : Workload → Bool
spec_paused (from_deployment d) = d.spec.paused
spec_paused _ = false

abbrev exceeded_condition : Condition → Bool
exceeded_condition c = c.type == "Progressing" && c.reason == "ProgressDeadlineExceeded"

-- Some condition Progressing has the reason ProgressDeadlineExceeded.
abbrev pub deadline_passed : Workload → Bool
deadline_passed (from_deployment d) = any exceeded_condition d.status.conditions
deadline_passed _ = false

-- Paused never fails; it is skipped for a StatefulSet and a DaemonSet, and has a finding exactly for a
-- Deployment with spec.paused.
pub diagnose_paused-Classifies :
    (t : Target)
    → Classifies (diagnose_paused t) (is_deployment t.workload) (spec_paused t.workload)
unfolding diagnose_paused is_paused skip_result
diagnose_paused-Classifies t = answered t.workload
  where
    answered :
        (v : Workload)
        → Classifies
            (if has_no_deployment_fields v
              then ok (
                  skip_result paused_diagnoser_id (
                    sprintf
                      "%s has no spec.paused field: this category cannot be evaluated for this kind"
                      (str (kind v) ∷ [])))
              else (if not (is_paused v)
                  then ok (found paused_diagnoser_id [])
                  else ok (found paused_diagnoser_id (paused_finding v ∷ []))))
            (is_deployment v)
            (spec_paused v)
    answered (from_deployment d) = elim (Bool-cases d.spec.paused) [
      | inl e ↦ (
        found paused_diagnoser_id (paused_finding (from_deployment d) ∷ []),
        rw e refl,
        refl,
        ap not (sym e),
      )
      | inr e ↦ (found paused_diagnoser_id [], rw e refl, refl, ap not (sym e))
    ]
    answered (from_stateful_set s) = (_, refl, refl, refl)
    answered (from_daemon_set d) = (_, refl, refl, refl)

is_some-progressing_message :
    (reason : String) (cs : List Condition)
    → is_some (progressing_message reason cs)
      ≡ any (λ (c : Condition). c.type == "Progressing" && c.reason == reason) cs
unfolding progressing_message
is_some-progressing_message reason [] = refl
is_some-progressing_message reason (c ∷ cs) =
    elim (Bool-cases (c.type == "Progressing" && c.reason == reason)) [
      | inl e ↦ rw e refl
      | inr e ↦ rw e (is_some-progressing_message reason cs)
    ]

-- ProgressDeadline never fails; it is skipped for a StatefulSet and a DaemonSet, and has a finding
-- exactly for a Deployment with a condition Progressing of the reason ProgressDeadlineExceeded.
pub diagnose_progress_deadline-Classifies :
    (t : Target)
    → Classifies
        (diagnose_progress_deadline t)
        (is_deployment t.workload)
        (deadline_passed t.workload)
unfolding diagnose_progress_deadline progress_deadline_exceeded skip_result
diagnose_progress_deadline-Classifies t = answered t.workload
  where
    answered :
        (v : Workload)
        → Classifies
            (if has_no_deployment_fields v
              then ok (
                  skip_result progress_deadline_diagnoser_id (
                    sprintf
                      "%s has no progressDeadlineSeconds and its controller sets no Progressing condition: this category cannot be evaluated for this kind"
                      (str (kind v) ∷ [])))
              else elim (progress_deadline_exceeded v) [
                | none ↦ ok (found progress_deadline_diagnoser_id [])
                | some message ↦ ok (
                    found progress_deadline_diagnoser_id (progress_deadline_finding v message ∷ []))
              ])
            (is_deployment v)
            (deadline_passed v)
    answered (from_deployment d) =
        elim (Option-cases (progressing_message "ProgressDeadlineExceeded" d.status.conditions)) [
          | inl e ↦ (
            found progress_deadline_diagnoser_id [],
            rw e refl,
            refl,
            ap not (
                ap is_some (sym e)
                ∙ is_some-progressing_message "ProgressDeadlineExceeded" d.status.conditions),
          )
          | inr (m, e) ↦ (
            found progress_deadline_diagnoser_id
                (progress_deadline_finding (from_deployment d) m ∷ []),
            rw e refl,
            refl,
            ap not (
                ap is_some (sym e)
                ∙ is_some-progressing_message "ProgressDeadlineExceeded" d.status.conditions),
          )
        ]
    answered (from_stateful_set s) = (_, refl, refl, refl)
    answered (from_daemon_set d) = (_, refl, refl, refl)
