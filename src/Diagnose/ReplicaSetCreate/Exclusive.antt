-- ===== src/Diagnose/ReplicaSetCreate/Exclusive.antt =====
-- internal/diagnose/replicasetcreate.go and progressdeadline.go: one failure is never reported as a
-- missed deadline and as a ReplicaSet that cannot be created.
use kubectl_safe_rollout.Prelude.{
  String, true, false, List, [], ◌∷◌, ◌≡◌, refl, sym, ◌∙◌, ◌⊎◌, inl, inr, arith, eq_iff, none, some,
  ◌==◌, Bool-cases, Option-cases, if_lem, Fallible, ok, err, filter,
}
use kubectl_safe_rollout.Api.{Condition}
use kubectl_safe_rollout.Workload.{
  Workload, from_deployment, from_stateful_set, from_daemon_set, progressing_message,
  progress_deadline_exceeded, replica_set_create_error,
}
use kubectl_safe_rollout.Diagnose.{Target, Result, skip_result}
use kubectl_safe_rollout.Diagnose.Spec.{diagnose_progress_deadline, has_no_deployment_fields}
use kubectl_safe_rollout.Diagnose.ReplicaSetCreate.{
  fallback_findings, creation_findings, diagnose_replica_set_create,
}

-- A condition type stands at most once in a list of conditions, as the API server keeps it.
abbrev pub IsUnique : String → List Condition → Type 0
IsUnique type [] = Unit
IsUnique type (c ∷ cs) =
    (c.type ≡ type → filter (λ (d : Condition). d.type == type) cs ≡ []) × IsUnique type cs

without_type :
    (reason : String) (cs : List Condition)
    → filter (λ (d : Condition). d.type == "Progressing") cs ≡ []
    → progressing_message reason cs ≡ none
unfolding progressing_message
without_type reason [] h = refl
without_type reason (c ∷ cs) h = elim (Bool-cases (c.type == "Progressing")) [
  | inl e ↦ absurd (not_nil (sym (first e) ∙ h))
  | inr e ↦ rw e (without_type reason cs (sym (rest e) ∙ h))
]
  where
    not_nil : {x : Condition} {xs : List Condition} → x ∷ xs ≡ [] → ⊥
    not_nil e = cc

    first :
        (c.type == "Progressing") ≡ true
        → filter (λ (d : Condition). d.type == "Progressing") (c ∷ cs)
          ≡ c ∷ filter (λ (d : Condition). d.type == "Progressing") cs
    first e = rw e refl

    rest :
        (c.type == "Progressing") ≡ false
        → filter (λ (d : Condition). d.type == "Progressing") (c ∷ cs)
          ≡ filter (λ (d : Condition). d.type == "Progressing") cs
    rest e = rw e refl

-- One condition has one reason.
exclusive_reasons :
    (a b : String) (cs : List Condition)
    → (a == b) ≡ false
    → IsUnique "Progressing" cs
    → (progressing_message a cs ≡ none) ⊎ (progressing_message b cs ≡ none)
unfolding progressing_message
exclusive_reasons a b [] d u = inl refl
exclusive_reasons a b (c ∷ cs) d u = elim (Bool-cases (c.type == "Progressing")) [
  | inr e ↦ rw e (exclusive_reasons a b cs d u.1)
  | inl e ↦
      let alone = u.0 ((eq_iff c.type "Progressing").0 e) in
      elim (Bool-cases (c.reason == a)) [
        | inr n ↦ inl (rw (e, n) (without_type a cs alone))
        | inl y ↦ inr (rw (e, differs y) (without_type b cs alone))
      ]
]
  where
    differs : (c.reason == a) ≡ true → (c.reason == b) ≡ false
    differs y = ground (arith, eq_iff c.reason a, eq_iff c.reason b, eq_iff a b, y, d)

abbrev pub HasNoFindings : Fallible Result → Type 0
HasNoFindings (ok r) = r.findings ≡ []
HasNoFindings (err e) = ⊥

-- The conditions of the workload, where it has any that these diagnosers read.
abbrev pub conditions_of : Workload → List Condition
conditions_of (from_deployment d) = d.status.conditions
conditions_of (from_stateful_set s) = []
conditions_of (from_daemon_set d) = []

exclusive_messages :
    (w : Workload)
    → IsUnique "Progressing" (conditions_of w)
    → (replica_set_create_error w ≡ none) ⊎ (progress_deadline_exceeded w ≡ none)
unfolding progress_deadline_exceeded replica_set_create_error
exclusive_messages (from_deployment d) u =
    exclusive_reasons "ReplicaSetCreateError" "ProgressDeadlineExceeded" d.status.conditions refl u
exclusive_messages (from_stateful_set s) u = inl refl
exclusive_messages (from_daemon_set d) u = inl refl

-- Where the condition Progressing stands at most once, a target never has a finding of ProgressDeadline
-- and one of ReplicaSetCreate: not from the condition, and not from an event that is left over.
pub diagnose_replica_set_create-diagnose_progress_deadline :
    (t : Target)
    → IsUnique "Progressing" (conditions_of t.workload)
    → HasNoFindings (diagnose_replica_set_create t) ⊎ HasNoFindings (diagnose_progress_deadline t)
unfolding diagnose_replica_set_create diagnose_progress_deadline creation_findings fallback_findings
    skip_result
diagnose_replica_set_create-diagnose_progress_deadline t u =
    elim (Option-cases (progress_deadline_exceeded t.workload)) [
      | inl n ↦ inr (rw n (if_lem HasNoFindings (has_no_deployment_fields t.workload) refl refl))
      | inr (m, s) ↦ inl (
          rw (no_error s, s) (if_lem HasNoFindings (has_no_deployment_fields t.workload) refl refl))
    ]
  where
    not_both : {m : String} → some m ≡ none → ⊥
    not_both e = cc

    no_error :
        {m : String}
        → progress_deadline_exceeded t.workload ≡ some m
        → replica_set_create_error t.workload ≡ none
    no_error s = elim (exclusive_messages t.workload u) [
      | inl e ↦ e
      | inr n ↦ absurd (not_both (sym s ∙ n))
    ]
