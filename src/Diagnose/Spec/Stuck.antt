-- ===== src/Diagnose/Spec/Stuck.antt =====
-- internal/diagnose/statefulsetupdate.go: which StatefulSets are reported as unable to finish their
-- update.
use kubectl_safe_rollout.Prelude.{
  Bool, true, false, not, List, [], ◌≡◌, ◌≢◌, refl, sym, ap, ◌∙◌, arith, eq_iff, Option, none, some,
  ◌==◌, ◌||◌, ◌⊎◌, ◌↔◌, inl, inr, Bool-cases, if◌then◌else◌, is_empty, ok,
}
use mathlib.Core.Bool.{true≢false}
use kubectl_safe_rollout.Prelude.Int.{ℤ, ◌≤ℤ◌, leb_ℤ}
use kubectl_safe_rollout.Model.{Finding}
use kubectl_safe_rollout.Api.{StatefulSet}
use kubectl_safe_rollout.Workload.{
  Workload, kind, from_deployment, from_stateful_set, from_daemon_set, replicas, update_strategy,
  on_delete, rolling_update, partition_of, strategy_type_or_default, pending_revision_update,
}
use kubectl_safe_rollout.Diagnose.{Target, found}
use kubectl_safe_rollout.Diagnose.Spec.{
  blocked_findings, pending_findings, diagnose_stateful_set_update,
  stateful_set_update_diagnoser_id,
}

-- No ordinal below the replica count is at or above the partition.
abbrev pub IsBlockedBy : ℤ → Option ℤ → Type 0
IsBlockedBy r none = ⊥
IsBlockedBy r (some p) = r ≤ℤ p

-- The controller has a revision to roll out, and will not do so by itself.
abbrev pub IsStuck : Workload → Type 0
IsStuck (from_deployment d) = ⊥
IsStuck (from_daemon_set d) = ⊥
IsStuck (from_stateful_set s) =
    (s.status.update_revision ≢ "")
    × (s.status.update_revision ≢ s.status.current_revision)
    × (((strategy_type_or_default s.spec.strategy_type) ≡ on_delete)
        ⊎ IsBlockedBy (replicas (from_stateful_set s)) (partition_of s.spec.rolling_update))

module _ (s : StatefulSet) where
  abbrev w : Workload
  w = from_stateful_set s

  abbrev pending : List Finding
  pending = pending_findings w (some (s.status.update_revision, s.status.current_revision))

  rolls :
      (strategy_type_or_default s.spec.strategy_type == on_delete) ≡ false
      → ((update_strategy w).type ≡ rolling_update)
        × ((update_strategy w).partition ≡ partition_of s.spec.rolling_update)
  unfolding update_strategy
  rolls h = rw h (refl, refl)

  on_delete-pending :
      (s.status.update_revision == "" || s.status.update_revision == s.status.current_revision)
        ≡ false
      → (strategy_type_or_default s.spec.strategy_type == on_delete) ≡ true
      → is_empty pending ≡ false
  unfolding pending_findings update_strategy
  on_delete-pending h d = rw (h, d) refl

  blocked_pending :
      (s.status.update_revision == "" || s.status.update_revision == s.status.current_revision)
        ≡ false
      → (strategy_type_or_default s.spec.strategy_type == on_delete) ≡ false
      → pending
        ≡ blocked_findings w s.status.update_revision s.status.current_revision
            (partition_of s.spec.rolling_update)
  unfolding pending_findings
  blocked_pending h d = rw (h, (rolls d).0, (rolls d).1) refl

  none_pending :
      (s.status.update_revision == "" || s.status.update_revision == s.status.current_revision)
        ≡ true
      → pending ≡ []
  unfolding pending_findings
  none_pending h = rw h refl

  IsBlockedBy-iff :
      (p : Option ℤ)
      → (is_empty (blocked_findings w s.status.update_revision s.status.current_revision p) ≡ false)
        ↔ IsBlockedBy (replicas w) p
  unfolding blocked_findings
  IsBlockedBy-iff none = (λ h. absurd (true≢false h), λ h. absurd h)
  IsBlockedBy-iff (some p) = elim (Bool-cases (leb_ℤ (replicas w) p)) [
    | inl e ↦ rw e (λ h. ground (arith, e), λ h. refl)
    | inr e ↦ rw e (λ h. absurd (true≢false h), λ h. ground (arith, e))
  ]

  abbrev is_current : Bool
  is_current =
      s.status.update_revision == "" || s.status.update_revision == s.status.current_revision

  pending_iff : (is_empty pending ≡ false) ↔ IsStuck w
  pending_iff = elim (Bool-cases is_current) [
    | inl e ↦ (
      λ h. absurd (true≢false (sym (ap is_empty (none_pending e)) ∙ h)),
      λ h. absurd (true≢false (sym e ∙ is_not_current h.0 h.1)),
    )
    | inr e ↦ elim (Bool-cases (strategy_type_or_default s.spec.strategy_type == on_delete)) [
      | inl d ↦ (
        λ h. (
          is_not_empty e,
          differs e,
          inl ((eq_iff (strategy_type_or_default s.spec.strategy_type) on_delete).0 d),
        ),
        λ h. on_delete-pending e d,
      )
      | inr d ↦ (
        λ h. (
          is_not_empty e,
          differs e,
          inr (by_partition.0 (sym (ap is_empty (blocked_pending e d)) ∙ h)),
        ),
        λ h. ap is_empty (blocked_pending e d) ∙ by_partition.1 (is_blocked d h.2),
      )
    ]
  ]
    where
      by_partition :
          (is_empty (
              blocked_findings w s.status.update_revision s.status.current_revision
                (partition_of s.spec.rolling_update))
            ≡ false)
          ↔ IsBlockedBy (replicas w) (partition_of s.spec.rolling_update)
      by_partition = IsBlockedBy-iff (partition_of s.spec.rolling_update)

      is_not_current :
          s.status.update_revision ≢ ""
          → s.status.update_revision ≢ s.status.current_revision
          → is_current ≡ false
      is_not_current a b = ground (
        arith,
        eq_iff s.status.update_revision "",
        eq_iff s.status.update_revision s.status.current_revision,
      )

      is_not_empty : is_current ≡ false → s.status.update_revision ≢ ""
      is_not_empty e = λ h. ground (arith, eq_iff s.status.update_revision "", e, h)

      differs : is_current ≡ false → s.status.update_revision ≢ s.status.current_revision
      differs e =
          λ h. ground (arith, eq_iff s.status.update_revision s.status.current_revision, e, h)

      is_blocked :
          (strategy_type_or_default s.spec.strategy_type == on_delete) ≡ false
          → ((strategy_type_or_default s.spec.strategy_type) ≡ on_delete)
            ⊎ IsBlockedBy (replicas w) (partition_of s.spec.rolling_update)
          → IsBlockedBy (replicas w) (partition_of s.spec.rolling_update)
      is_blocked d (inl x) = absurd (
          true≢false
            (sym ((eq_iff (strategy_type_or_default s.spec.strategy_type) on_delete).1 x) ∙ d))
      is_blocked d (inr x) = x

-- StatefulSetUpdate always answers, and has a finding exactly for a StatefulSet with a revision to roll
-- out that differs from the current one, and a strategy that is OnDelete or a partition that leaves no
-- ordinal to update.
pub diagnose_stateful_set_update-IsStuck :
    (t : Target)
    → (fs : List Finding) × (diagnose_stateful_set_update t
        ≡ ok (found stateful_set_update_diagnoser_id fs))
      × ((is_empty fs ≡ false) ↔ IsStuck t.workload)
unfolding diagnose_stateful_set_update pending_revision_update
diagnose_stateful_set_update-IsStuck t = answered t.workload
  where
    answered :
        (v : Workload)
        → (fs : List Finding) × ((if not (kind v == "StatefulSet")
              then ok (found stateful_set_update_diagnoser_id [])
              else ok (
                  found stateful_set_update_diagnoser_id
                    (pending_findings v (pending_revision_update v))))
            ≡ ok (found stateful_set_update_diagnoser_id fs))
          × ((is_empty fs ≡ false) ↔ IsStuck v)
    answered (from_deployment d) = ([], refl, (λ h. absurd (true≢false h), λ h. absurd h))
    answered (from_daemon_set d) = ([], refl, (λ h. absurd (true≢false h), λ h. absurd h))
    answered (from_stateful_set s) = (pending s, refl, pending_iff s)
