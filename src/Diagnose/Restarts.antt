-- ===== src/Diagnose/Restarts.antt =====
-- internal/diagnose/watch.go: the pods that are known, and their restart counts.
pub mod Counts
use Prim.Native.String.{◌++◌ as concat}
use kubectl_safe_rollout.Prelude.{
  ℕ, String, Bool, true, false, List, [], ◌∷◌, ◌≡◌, refl, Option, none, some, ◌==◌, ◌&&◌, ◌||◌,
  if◌then◌else◌, Dict, insert, delete, any, map, is_none,
}
use mathlib.Core.Bool.{beq}
use kubectl_safe_rollout.Prelude.Int.{ℤ, pos, ltb_ℤ}
use kubectl_safe_rollout.Cluster.{Pod, ContainerStatus}

-- The pods by UID.
abbrev pub Pods : Type 0
Pods = Dict Pod

-- The loop of `indexPods`
unfoldable pub index_from : Pods → List Pod → Pods
index_from m [] = m
index_from m (p ∷ ps) = index_from (insert p.uid p m) ps

-- `indexPods`
unfoldable pub index_pods : List Pod → Pods
unfolding index_from
index_pods ps = index_from [] ps

-- The types of watch events.
pub data EventType : Type 0 where
  added : EventType
  modified : EventType
  deleted : EventType
  bookmark : EventType
  error_event : EventType

-- `applyPodEvent`; `none` is an event whose object is no pod.
unfoldable pub apply_pod_event : Pods → EventType → Option Pod → Pods
apply_pod_event pods type none = pods
apply_pod_event pods deleted (some p) = delete p.uid pods
apply_pod_event pods _ (some p) = insert p.uid p pods

-- `podSlice`
unfoldable pub pod_slice : Pods → List Pod
pod_slice [] = []
pod_slice ((u, p) ∷ m) = p ∷ pod_slice m

-- `containerRestartKey`
pub record RestartKey : Type 0 where
  pub pod : String
  pub pod_name : String
  pub container : String
  pub init : Bool

abbrev pub same_key : RestartKey → RestartKey → Bool
same_key a b =
    a.pod == b.pod && a.pod_name == b.pod_name && a.container == b.container && beq a.init b.init

-- `containerRestartCounts`
abbrev pub RestartCounts : Type 0
RestartCounts = List (RestartKey × ℤ)

unfoldable pub count_of : RestartKey → RestartCounts → Option ℤ
count_of k [] = none
count_of k ((j, n) ∷ m) = if same_key j k then some n else count_of k m

unfoldable pub set_count : RestartKey → ℤ → RestartCounts → RestartCounts
set_count k n [] = (k, n) ∷ []
set_count k n ((j, m) ∷ rest) = if same_key j k then (k, n) ∷ rest else (j, m) ∷ set_count k n rest

-- The two inner loops of `collectContainerRestartCounts`
unfoldable pub add_statuses : Pod → Bool → RestartCounts → List ContainerStatus → RestartCounts
unfolding set_count
add_statuses p init counts [] = counts
add_statuses p init counts (cs ∷ rest) =
    add_statuses p init
      (set_count (record { pod = p.uid; pod_name = p.name; container = cs.name; init = init })
        cs.restart_count counts)
      rest

unfoldable pub collect_from : RestartCounts → List Pod → RestartCounts
unfolding add_statuses
collect_from counts [] = counts
collect_from counts (p ∷ ps) =
    collect_from
      (add_statuses p true (add_statuses p false counts p.container_statuses)
        p.init_container_statuses)
      ps

-- `collectContainerRestartCounts`
unfoldable pub collect_container_restart_counts : Pods → RestartCounts
unfolding collect_from pod_slice
collect_container_restart_counts pods = collect_from [] (pod_slice pods)

-- `anyRestartObserved`
unfoldable pub any_restart_observed : Pods → Bool
any_restart_observed pods =
    any (λ (kc : RestartKey × ℤ). ltb_ℤ (pos 0) kc.1) (collect_container_restart_counts pods)

-- Whether a count is above the one that the table holds for its key, if it holds one.
unfoldable pub exceeds : RestartCounts → RestartKey → ℤ → Bool
unfolding count_of
exceeds baseline k n = elim (count_of k baseline) [
  | none ↦ false
  | some previous ↦ ltb_ℤ previous n
]

-- `increased`
unfoldable pub increased : RestartCounts → Pods → Bool
unfolding exceeds
increased baseline pods =
    any (λ (kc : RestartKey × ℤ). exceeds baseline kc.0 kc.1)
      (collect_container_restart_counts pods)

-- `restartObservations`
pub record RestartObservations : Type 0 where
  pub counts : RestartCounts
  pub increase_observed : Bool

-- `newRestartObservations`
abbrev pub new_restart_observations : RestartObservations
new_restart_observations = record { counts = []; increase_observed = false }

-- The loop of `observe`
unfoldable pub observe_counts : RestartObservations → RestartCounts → RestartObservations
unfolding exceeds set_count
observe_counts o [] = o
observe_counts o ((k, n) ∷ rest) =
    observe_counts
      (record {
        counts = set_count k n o.counts;
        increase_observed = exceeds o.counts k n || o.increase_observed;
      })
      rest

-- `observe`
unfoldable pub observe : RestartObservations → Pods → RestartObservations
unfolding observe_counts
observe o pods = observe_counts o (collect_container_restart_counts pods)
