-- ===== src/Workload/Strategy.antt =====
-- internal/workload: what UpdateStrategy normalises to, and what DesiredCount confirms.
use kubectl_safe_rollout.Prelude.{
  String, ap, ◌∙◌, true, false, Option, none, some, ◌≢◌, eq_iff, ◌≡◌, refl, ◌⊎◌, inl, inr, arith,
  ◌==◌, Bool-cases,
}
use kubectl_safe_rollout.Prelude.Int.{ℤ, pos, ◌≤ℤ◌}
use kubectl_safe_rollout.Api.{
  IntOrString, int_value, str_value, RollingUpdate, RollingUpdateStatefulSet,
}
use kubectl_safe_rollout.Workload.{
  Workload, from_deployment, from_stateful_set, from_daemon_set, UpdateStrategy, update_strategy,
  recreate, rolling_update, on_delete, rollout_complete, desired_count, strategy_type_or_default,
  replicas, surging_strategy, or_default, partition_of,
}
use kubectl_safe_rollout.Workload.Rollout.{rollout_complete_iff}

-- A field of the rolling update as it is declared, or its default.
abbrev pub declared :
    Option RollingUpdate → (RollingUpdate → Option IntOrString) → IntOrString → IntOrString
declared none field default = default
declared (some r) field default = elim (field r) [ none ↦ default | some a ↦ a ]

-- The strategy is the type that turns the rolling update off, as declared, with no other field; or, for
-- any other declaration, an unset one included, a rolling update with the given fields.
abbrev pub IsNormalised :
    String → String → Option IntOrString → Option IntOrString → Option ℤ → UpdateStrategy → Type 0
IsNormalised off type surge unavailable partition u =
    ((type ≡ off)
      × (u ≡ record { type = off; max_unavailable = none; max_surge = none; partition = none }))
    ⊎ ((type ≢ off)
        × (u ≡ record {
          type = "RollingUpdate";
          max_unavailable = unavailable;
          max_surge = surge;
          partition = partition;
        }))

-- What UpdateStrategy owes to each controller: a Deployment turns the rolling update off by Recreate and
-- has two defaults of 25%; a StatefulSet does by OnDelete, and has no surge, no default and a partition;
-- a DaemonSet does by OnDelete, and has a default surge of 0 and 1 unavailable pod.
abbrev pub IsNormal : Workload → UpdateStrategy → Type 0
IsNormal (from_deployment d) =
    IsNormalised "Recreate" d.spec.strategy_type
      (some (declared d.spec.rolling_update (λ r. r.max_surge) (str_value "25%")))
      (some (declared d.spec.rolling_update (λ r. r.max_unavailable) (str_value "25%"))) none
IsNormal (from_stateful_set s) =
    IsNormalised "OnDelete" s.spec.strategy_type none
      (elim s.spec.rolling_update [ none ↦ none | some r ↦ r.max_unavailable ])
      (elim s.spec.rolling_update [ none ↦ none | some r ↦ r.partition ])
IsNormal (from_daemon_set d) =
    IsNormalised "OnDelete" d.spec.strategy_type
      (some (declared d.spec.rolling_update (λ r. r.max_surge) (int_value (pos 0))))
      (some (declared d.spec.rolling_update (λ r. r.max_unavailable) (int_value (pos 1)))) none

-- The test on the declared type, with its default: it holds exactly if the type is declared.
off_cases :
    (type off : String)
    → (off == "") ≡ false
    → (rolling_update == off) ≡ false
    → ((type ≡ off) × ((strategy_type_or_default type == off) ≡ true))
      ⊎ ((type ≢ off) × ((strategy_type_or_default type == off) ≡ false))
off_cases type off h r = elim (Bool-cases (type == "")) [
  | inl e ↦ inr (λ p. ground (arith, eq_iff type "", eq_iff off "", p), rw (e, r) refl)
  | inr n ↦ elim (Bool-cases (type == off)) [
    | inl e ↦ inl ((eq_iff type off).0 e, rw (n, e) refl)
    | inr m ↦ inr (λ p. ground (arith, eq_iff type off, p), rw (n, m) refl)
  ]
]

surging_strategy-declared :
    (ru : Option RollingUpdate) (unavailable surge : IntOrString)
    → surging_strategy ru unavailable surge ≡ record {
      type = "RollingUpdate";
      max_unavailable = some (declared ru (λ r. r.max_unavailable) unavailable);
      max_surge = some (declared ru (λ r. r.max_surge) surge);
      partition = none;
    }
unfolding surging_strategy
surging_strategy-declared none unavailable surge = refl
surging_strategy-declared (some r) unavailable surge =
    ap
      (λ a. record {
        type = "RollingUpdate";
        max_unavailable = some a;
        max_surge = some (or_default r.max_surge surge);
        partition = none;
      })
      (same r.max_unavailable unavailable)
    ∙ ap
        (λ b. record {
          type = "RollingUpdate";
          max_unavailable = some (declared (some r) (λ q. q.max_unavailable) unavailable);
          max_surge = some b;
          partition = none;
        })
        (same r.max_surge surge)
  where
    same :
        (o : Option IntOrString) (d : IntOrString)
        → or_default o d ≡ (elim o [ none ↦ d | some a ↦ a ])
    same none d = refl
    same (some a) d = refl

partition_of-declared :
    (ru : Option RollingUpdateStatefulSet)
    → partition_of ru ≡ (elim ru [ none ↦ none | some r ↦ r.partition ])
partition_of-declared none = refl
partition_of-declared (some r) = refl

-- UpdateStrategy is normalised as it owes to the controller, for every declaration.
pub update_strategy-IsNormal : (w : Workload) → IsNormal w (update_strategy w)
unfolding update_strategy
update_strategy-IsNormal (from_deployment d) =
    elim (off_cases d.spec.strategy_type recreate refl refl) [
      | inl (p, e) ↦ rw e (inl (p, refl))
      | inr (p, e) ↦ rw e (
          inr (
            p,
            surging_strategy-declared d.spec.rolling_update (str_value "25%") (str_value "25%"),
          ))
    ]
update_strategy-IsNormal (from_stateful_set s) =
    elim (off_cases s.spec.strategy_type on_delete refl refl) [
      | inl (p, e) ↦ rw e (inl (p, refl))
      | inr (p, e) ↦ rw (e, partition_of-declared s.spec.rolling_update) (inr (p, refl))
    ]
update_strategy-IsNormal (from_daemon_set d) =
    elim (off_cases d.spec.strategy_type on_delete refl refl) [
      | inl (p, e) ↦ rw e (inl (p, refl))
      | inr (p, e) ↦ rw e (
          inr (
            p,
            surging_strategy-declared d.spec.rolling_update (int_value (pos 1)) (int_value (pos 0)),
          ))
    ]

abbrev pub available : Workload → ℤ
available (from_deployment d) = d.status.available_replicas
available (from_stateful_set s) = s.status.ready_replicas
available (from_daemon_set d) = d.status.number_available

-- A complete rollout has a desired count that the controller confirms, which is the desired replica
-- count, and at least as many pods available (ready, for a StatefulSet).
pub rollout_complete-desired_count :
    (w : Workload)
    → rollout_complete w ≡ true
    → (desired_count w ≡ (replicas w, true)) × (replicas w ≤ℤ available w)
unfolding desired_count replicas
rollout_complete-desired_count (from_deployment d) h =
    let r = (rollout_complete_iff (from_deployment d)).0 h in (ground arith, ground arith)
rollout_complete-desired_count (from_stateful_set s) h =
    let r = (rollout_complete_iff (from_stateful_set s)).0 h in (ground arith, ground arith)
rollout_complete-desired_count (from_daemon_set d) h =
    let r = (rollout_complete_iff (from_daemon_set d)).0 h in (ground arith, ground arith)
