-- ===== src/Workload/Rollout.antt =====
-- internal/workload: what RolloutComplete promises for each controller.
use kubectl_safe_rollout.Prelude.{
  String, Bool, true, false, ◌≡◌, refl, ◌≢◌, ◌↔◌, inl, inr, Option, none, some, arith, eq_iff, ◌==◌,
  Bool-cases, if◌then◌else◌,
}
use kubectl_safe_rollout.Prelude.Int.{ℤ, ◌≤ℤ◌, ltb_ℤ, ◌-ℤ◌, i32}
use kubectl_safe_rollout.Api.{StatefulSet}
use kubectl_safe_rollout.Workload.{
  Workload, from_deployment, from_stateful_set, from_daemon_set, rollout_complete, replicas,
  on_delete, partition_of, rolling_update_done, strategy_type_or_default,
}

-- What a StatefulSet's rolling update has reached: with a partition, as many updated pods as there
-- are ordinals from the partition up, by int32 arithmetic; without one, agreement of the revisions.
abbrev pub HasReached : StatefulSet → Option ℤ → Type 0
HasReached s none = s.status.update_revision ≡ s.status.current_revision
HasReached s (some p) = i32 (replicas (from_stateful_set s) -ℤ p) ≤ℤ s.status.updated_replicas

-- Under OnDelete nothing is asked of the update.
abbrev pub HasSettled : StatefulSet → Type 0
HasSettled s = s.spec.strategy_type ≢ on_delete → HasReached s (partition_of s.spec.rolling_update)

-- When a rollout is over, on each controller's status: the controller has observed the current
-- generation, and its counts are met. A StatefulSet is asked for its ready pods first, and under a
-- rolling update for what it has reached. With no partition this is stricter than `kubectl rollout
-- status`, which never compares the revisions, and under OnDelete, which that command refuses, nothing
-- more is asked.
abbrev pub IsRolledOut : Workload → Type 0
IsRolledOut (from_deployment d) =
    (d.meta.generation ≤ℤ d.status.observed_generation)
    × (replicas (from_deployment d) ≤ℤ d.status.updated_replicas)
    × (d.status.replicas ≤ℤ d.status.updated_replicas)
    × (d.status.updated_replicas ≤ℤ d.status.available_replicas)
IsRolledOut (from_stateful_set s) =
    (s.meta.generation ≤ℤ s.status.observed_generation)
    × (replicas (from_stateful_set s) ≤ℤ s.status.ready_replicas)
    × HasSettled s
IsRolledOut (from_daemon_set d) =
    (d.meta.generation ≤ℤ d.status.observed_generation)
    × (d.status.desired_number_scheduled ≤ℤ d.status.updated_number_scheduled)
    × (d.status.desired_number_scheduled ≤ℤ d.status.number_available)

rolling_update_done_iff :
    (s : StatefulSet) (p : Option ℤ) → (rolling_update_done s p ≡ true) ↔ HasReached s p
unfolding rolling_update_done replicas
rolling_update_done_iff s none = eq_iff s.status.update_revision s.status.current_revision
rolling_update_done_iff s (some p) = ground arith

unset : {t : String} → t ≡ "" → t ≢ on_delete
unset {t} e p = ground (arith, eq_iff "" on_delete)

not_on_delete_iff :
    (t : String) → ((strategy_type_or_default t == on_delete) ≡ false) ↔ (t ≢ on_delete)
not_on_delete_iff t = elim (Bool-cases (t == "")) [
  | inl e ↦ rw e (λ _. unset ((eq_iff t "").0 e), λ _. refl)
  | inr n ↦
      rw n (λ h p. ground (arith, eq_iff t on_delete), λ h. ground (arith, eq_iff t on_delete))
]

-- A ladder of two refusals and an early success.
ladder_iff :
    (a b c d : Bool)
    → ((if a then false else (if b then false else (if c then true else d))) ≡ true)
      ↔ ((a ≡ false) × (b ≡ false) × (c ≡ false → d ≡ true))
ladder_iff a b c d = ground arith

module _ (s : StatefulSet) where
  abbrev reached :
      (rolling_update_done s (partition_of s.spec.rolling_update) ≡ true)
      ↔ HasReached s (partition_of s.spec.rolling_update)
  reached = rolling_update_done_iff s (partition_of s.spec.rolling_update)

  stateful_set_iff :
      (rollout_complete (from_stateful_set s) ≡ true) ↔ IsRolledOut (from_stateful_set s)
  unfolding rollout_complete
  stateful_set_iff =
      let ladder =
        ladder_iff (ltb_ℤ s.status.observed_generation s.meta.generation)
          (ltb_ℤ s.status.ready_replicas (replicas (from_stateful_set s)))
          (strategy_type_or_default s.spec.strategy_type == on_delete)
          (rolling_update_done s (partition_of s.spec.rolling_update)) in
      (
        λ h.
            let r = ladder.0 h in
            (
              ground arith,
              ground arith,
              λ ne. reached.0 (r.2 ((not_on_delete_iff s.spec.strategy_type).1 ne)),
            ),
        λ h. ladder.1 (
          ground arith,
          ground arith,
          λ e. reached.1 (h.2 ((not_on_delete_iff s.spec.strategy_type).0 e)),
        ),
      )

-- RolloutComplete holds exactly if the controller has observed the current generation and its counts
-- are met: for a Deployment, as many updated pods as are desired, no others, and all of them available;
-- for a DaemonSet, as many updated and as many available pods as are scheduled; for a StatefulSet, as
-- many ready pods as are desired and, unless its strategy is OnDelete, the pods from the partition up
-- updated or, with no partition, the two revisions equal.
pub rollout_complete_iff : (w : Workload) → (rollout_complete w ≡ true) ↔ IsRolledOut w
unfolding rollout_complete
rollout_complete_iff (from_deployment d) = (λ h. ground arith, λ h. ground arith)
rollout_complete_iff (from_stateful_set s) = stateful_set_iff s
rollout_complete_iff (from_daemon_set d) = (λ h. ground arith, λ h. ground arith)
