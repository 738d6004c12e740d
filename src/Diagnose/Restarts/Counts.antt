-- ===== src/Diagnose/Restarts/Counts.antt =====
-- internal/diagnose/watch.go: what a restart observation remembers, and when it reports an increase.
use kubectl_safe_rollout.Prelude.{
  Bool, true, false, List, [], ◌∷◌, ◌≡◌, refl, sym, ap, ◌∙◌, inl, inr, Option, none, some, arith,
  eq_iff, Bool-cases, if◌then◌else◌, any, ◌||◌,
}
use mathlib.Core.Path.{subst}
use mathlib.Core.Bool.{false≢true, or-false}
use kubectl_safe_rollout.Prelude.Int.{ℤ, ltb_ℤ}
use kubectl_safe_rollout.Cluster.{Pod, ContainerStatus}
use kubectl_safe_rollout.Diagnose.Restarts.{
  Pods, pod_slice, RestartKey, same_key, RestartCounts, count_of, set_count, add_statuses,
  collect_from, collect_container_restart_counts, exceeds, RestartObservations, observe_counts,
  observe,
}

same_key→eq : (a b : RestartKey) → same_key a b ≡ true → a ≡ b
same_key→eq a b h =
    ground (arith, eq_iff a.pod b.pod, eq_iff a.pod_name b.pod_name, eq_iff a.container b.container)

same_key_refl : (a : RestartKey) → same_key a a ≡ true
same_key_refl a =
    ground (arith, eq_iff a.pod a.pod, eq_iff a.pod_name a.pod_name, eq_iff a.container a.container)

eq→same_key : (a b : RestartKey) → a ≡ b → same_key a b ≡ true
eq→same_key a b e = subst (λ c. same_key a c ≡ true) e (same_key_refl a)

-- Keys that agree with a third alike.
same_key_along :
    (i k j : RestartKey) (b : Bool) → same_key i k ≡ true → same_key k j ≡ b → same_key i j ≡ b
same_key_along i k j b e g = subst (λ c. same_key c j ≡ b) (sym (same_key→eq i k e)) g

same_key_apart :
    (i k j : RestartKey) → same_key i k ≡ false → same_key i j ≡ true → same_key k j ≡ false
same_key_apart i k j apart f = elim (Bool-cases (same_key k j)) [
  | inl y ↦
      absurd
        (false≢true (sym apart ∙ eq→same_key i k (same_key→eq i j f ∙ sym (same_key→eq k j y))))
  | inr n ↦ n
]

count_of-set_count :
    (j k : RestartKey) (n : ℤ) (m : RestartCounts)
    → count_of j (set_count k n m) ≡ (if same_key k j then some n else count_of j m)
unfolding count_of set_count
count_of-set_count j k n [] = refl
count_of-set_count j k n ((i, x) ∷ m) = elim (Bool-cases (same_key i k)) [
  | inl e ↦ elim (Bool-cases (same_key k j)) [
    | inl f ↦ rw (e, f) refl
    | inr g ↦ rw (e, g, same_key_along i k j false e g) refl
  ]
  | inr e ↦ elim (Bool-cases (same_key i j)) [
    | inl f ↦ rw (e, f, same_key_apart i k j e f) refl
    | inr g ↦ rw (e, g) (count_of-set_count j k n m)
  ]
]

-- No key stands twice, as in any Go map.
abbrev pub DistinctCounts : RestartCounts → Type 0
DistinctCounts [] = Unit
DistinctCounts ((k, n) ∷ m) = (count_of k m ≡ none) × DistinctCounts m

set_count-DistinctCounts :
    (k : RestartKey) (n : ℤ) (m : RestartCounts)
    → DistinctCounts m
    → DistinctCounts (set_count k n m)
unfolding count_of set_count
set_count-DistinctCounts k n [] d = (refl, tt)
set_count-DistinctCounts k n ((i, x) ∷ m) d = elim (Bool-cases (same_key i k)) [
  | inl e ↦ rw e (subst (λ c. count_of c m ≡ none) (same_key→eq i k e) d.0, d.1)
  | inr e ↦
      rw e (count_of-set_count i k n m ∙ rw (swapped e) d.0, set_count-DistinctCounts k n m d.1)
]
  where
    swapped : same_key i k ≡ false → same_key k i ≡ false
    swapped e = same_key_apart i k i e (same_key_refl i)

add_statuses-DistinctCounts :
    (p : Pod) (init : Bool) (counts : RestartCounts) (cs : List ContainerStatus)
    → DistinctCounts counts
    → DistinctCounts (add_statuses p init counts cs)
unfolding add_statuses
add_statuses-DistinctCounts p init counts [] d = d
add_statuses-DistinctCounts p init counts (c ∷ cs) d =
    let k : RestartKey = record {
      pod = p.uid;
      pod_name = p.name;
      container = c.name;
      init = init;
    } in
    add_statuses-DistinctCounts p init (set_count k c.restart_count counts) cs
      (set_count-DistinctCounts k c.restart_count counts d)

collect_from-DistinctCounts :
    (counts : RestartCounts) (ps : List Pod)
    → DistinctCounts counts
    → DistinctCounts (collect_from counts ps)
unfolding collect_from
collect_from-DistinctCounts counts [] d = d
collect_from-DistinctCounts counts (p ∷ ps) d =
    let regular : RestartCounts = add_statuses p false counts p.container_statuses in
    collect_from-DistinctCounts (add_statuses p true regular p.init_container_statuses) ps (
      add_statuses-DistinctCounts p true regular p.init_container_statuses
        (add_statuses-DistinctCounts p false counts p.container_statuses d))

module _ (k : RestartKey) (n : ℤ) (c : RestartCounts) where
  abbrev above : RestartCounts → RestartKey × ℤ → Bool
  above m kc = exceeds m kc.0 kc.1

  exceeds-set_count :
      (j : RestartKey) (x : ℤ)
      → same_key k j ≡ false
      → exceeds (set_count k n c) j x ≡ exceeds c j x
  unfolding exceeds
  exceeds-set_count j x e = rw (count_of-set_count j k n c, e, exceeds) refl

  -- A count that was just set says nothing about the other keys.
  any-exceeds-set_count :
      (rest : RestartCounts)
      → count_of k rest ≡ none
      → any (above (set_count k n c)) rest ≡ any (above c) rest
  unfolding count_of
  any-exceeds-set_count [] h = refl
  any-exceeds-set_count ((j, x) ∷ rest) h = elim (Bool-cases (same_key j k)) [
    | inl e ↦ (let never : some x ≡ none = rw e at h in cc)
    | inr e ↦
        rw (exceeds-set_count j x (same_key_apart j k j e (same_key_refl j)))
          (ap (λ b. exceeds c j x || b) (any-exceeds-set_count rest (rw e at h)))
  ]

observe_counts-increase :
    (o : RestartObservations) (current : RestartCounts)
    → DistinctCounts current
    → (observe_counts o current).increase_observed
      ≡ (o.increase_observed || any (λ (kc : RestartKey × ℤ). exceeds o.counts kc.0 kc.1) current)
unfolding observe_counts
observe_counts-increase o [] d = sym (or-false o.increase_observed)
observe_counts-increase o ((k, n) ∷ rest) d =
    let o' : RestartObservations = record {
      counts = set_count k n o.counts;
      increase_observed = exceeds o.counts k n || o.increase_observed;
    } in
    observe_counts-increase o' rest d.1
    ∙ rw (any-exceeds-set_count k n o.counts rest d.0) (
        regroup (exceeds o.counts k n) o.increase_observed
          (any (λ (kc : RestartKey × ℤ). exceeds o.counts kc.0 kc.1) rest))
  where
    regroup : (a b c : Bool) → ((a || b) || c) ≡ (b || (a || c))
    regroup a b c = ground arith

abbrev pub latest : Option ℤ → Option ℤ → Option ℤ
latest none old = old
latest (some n) old = some n

observe_counts-count_of :
    (j : RestartKey) (o : RestartObservations) (current : RestartCounts)
    → DistinctCounts current
    → count_of j (observe_counts o current).counts
      ≡ latest (count_of j current) (count_of j o.counts)
unfolding observe_counts count_of
observe_counts-count_of j o [] d = refl
observe_counts-count_of j o ((k, n) ∷ rest) d =
    let o' : RestartObservations = record {
      counts = set_count k n o.counts;
      increase_observed = exceeds o.counts k n || o.increase_observed;
    } in
    observe_counts-count_of j o' rest d.1
    ∙ rw (count_of-set_count j k n o.counts) (elim (Bool-cases (same_key k j)) [
      | inl e ↦ rw (e, subst (λ i. count_of i rest ≡ none) (same_key→eq k j e) d.0) refl
      | inr e ↦ rw e refl
    ])

-- A current count is above the one that is remembered for its container, if one is.
abbrev pub rises : RestartCounts → RestartKey × ℤ → Bool
rises counts (k, n) = elim (count_of k counts) [ none ↦ false | some previous ↦ ltb_ℤ previous n ]

exceeds-rises :
    (counts : RestartCounts) (k : RestartKey) (n : ℤ) → exceeds counts k n ≡ rises counts (k, n)
unfolding exceeds
exceeds-rises counts k n = refl

any-exceeds-rises :
    (counts current : RestartCounts)
    → any (λ (kc : RestartKey × ℤ). exceeds counts kc.0 kc.1) current ≡ any (rises counts) current
any-exceeds-rises counts [] = refl
any-exceeds-rises counts ((k, n) ∷ rest) =
    rw (exceeds-rises counts k n)
      (ap (λ b. rises counts (k, n) || b) (any-exceeds-rises counts rest))

-- One observation remembers every current count, keeps the earlier counts of the other containers,
-- and reports an increase exactly if it had already, or if some current count is above the one that
-- was remembered for its container before.
pub observe_lem :
    (o : RestartObservations) (pods : Pods)
    → ((observe o pods).increase_observed
        ≡ (o.increase_observed || any (rises o.counts) (collect_container_restart_counts pods)))
      × ((j : RestartKey)
          → count_of j (observe o pods).counts
            ≡ latest (count_of j (collect_container_restart_counts pods)) (count_of j o.counts))
unfolding observe collect_container_restart_counts
observe_lem o pods =
    let d = collect_from-DistinctCounts [] (pod_slice pods) tt in
    (
      observe_counts-increase o (collect_from [] (pod_slice pods)) d
          ∙ ap (λ b. o.increase_observed || b)
              (any-exceeds-rises o.counts (collect_from [] (pod_slice pods))),
      λ j. observe_counts-count_of j o (collect_from [] (pod_slice pods)) d,
    )
