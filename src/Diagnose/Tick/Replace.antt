-- ===== src/Diagnose/Tick/Replace.antt =====
-- internal/diagnose/watch.go: how replaceSkippedResults merges the reads that failed.
use kubectl_safe_rollout.Prelude.{
  String, Bool, true, false, not, List, [], ◌∷◌, ◌++◌, ◌≡◌, refl, sym, ap, ◌∙◌, Option, none, some,
  arith, eq_iff, eq_refl, ◌==◌, Bool-cases, Option-cases, inl, inr, if◌then◌else◌, Dict, lookup,
  insert, delete, lookup-insert, lookup-delete, any, filter, is_some, map, ◌||◌, ◌⊎◌,
}
use mathlib.Core.Path.{subst}
use mathlib.Core.Bool.{false≢true}
use kubectl_safe_rollout.Workload.{or_default}
use kubectl_safe_rollout.Diagnose.{Result}
use kubectl_safe_rollout.Diagnose.Tick.{
  index_results, replace_one, replace_in, append_left, replace_skipped_results,
}

abbrev pub has_id : String → List Result → Bool
has_id id = any (λ (r : Result). r.diagnoser_id == id)

-- No two results of the list come from one diagnoser.
abbrev pub DistinctIds : List Result → Type 0
DistinctIds [] = Unit
DistinctIds (r ∷ rs) = (has_id r.diagnoser_id rs ≡ false) × DistinctIds rs

abbrev pub find_result : String → List Result → Option Result
find_result id [] = none
find_result id (r ∷ rs) = if r.diagnoser_id == id then some r else find_result id rs

-- The result of the same diagnoser in the list, or else the one given.
abbrev pub instead : List Result → Result → Result
instead skipped r = or_default (find_result r.diagnoser_id skipped) r

replacements : Dict Result → List Result → List Result
replacements m [] = []
replacements m (r ∷ rs) = or_default (lookup r.diagnoser_id m) r ∷ replacements m rs

kept_under : Dict Result → List Result → List Result
kept_under m = filter (λ (r : Result). is_some (lookup r.diagnoser_id m))

module _ (id : String) (m : Dict Result) where
  lookup-delete_ne : (k : String) → (k == id) ≡ false → lookup k (delete id m) ≡ lookup k m
  lookup-delete_ne k h = rw lookup-delete (ground (arith, eq_iff id k, eq_iff k id))

  -- Deleting an ID that none of the results has changes nothing for them.
  replacements-delete :
      (rs : List Result) → has_id id rs ≡ false → replacements (delete id m) rs ≡ replacements m rs
  unfolding replacements
  replacements-delete [] h = refl
  replacements-delete (r ∷ rs) h =
      rw (lookup-delete_ne r.diagnoser_id (ground arith), replacements-delete rs (ground arith))
        refl

  append_left-delete :
      (rs : List Result) → has_id id rs ≡ false → kept_under (delete id m) rs ≡ kept_under m rs
  unfolding kept_under
  append_left-delete [] h = refl
  append_left-delete (r ∷ rs) h =
      rw (lookup-delete_ne r.diagnoser_id (ground arith), append_left-delete rs (ground arith)) refl

replace_in-replacements :
    (m : Dict Result) (rs : List Result) → DistinctIds rs → (replace_in m rs).0 ≡ replacements m rs
unfolding replace_in replacements
replace_in-replacements m [] d = refl
replace_in-replacements m (r ∷ rs) d = elim (Option-cases (lookup r.diagnoser_id m)) [
  | inl e ↦ rw (e, replace_one) (ap (λ qs. r ∷ qs) (replace_in-replacements m rs d.1))
  | inr (q, e) ↦
      rw (e, replace_one)
        (ap (λ qs. q ∷ qs)
          (replace_in-replacements (delete r.diagnoser_id m) rs d.1
            ∙ replacements-delete r.diagnoser_id m rs d.0))
]

abbrev first_of : Option Result → Option Result → Option Result
first_of none b = b
first_of (some r) b = some r

find_result-absent : (k : String) (rs : List Result) → has_id k rs ≡ false → find_result k rs ≡ none
find_result-absent k [] h = refl
find_result-absent k (r ∷ rs) h = elim (Bool-cases (r.diagnoser_id == k)) [
  | inl e ↦ ground arith
  | inr e ↦ rw e (find_result-absent k rs (rw e at h))
]

index_results-lookup :
    (m : Dict Result) (rs : List Result) (k : String)
    → DistinctIds rs
    → lookup k (index_results m rs) ≡ first_of (find_result k rs) (lookup k m)
unfolding index_results
index_results-lookup m [] k d = refl
index_results-lookup m (r ∷ rs) k d =
    index_results-lookup (insert r.diagnoser_id r m) rs k d.1
    ∙ rw (lookup-insert r.diagnoser_id k r m) (elim (Bool-cases (r.diagnoser_id == k)) [
      | inl e ↦ rw (e, find_result-absent k rs (elsewhere e)) refl
      | inr e ↦ rw e refl
    ])
  where
    elsewhere : (r.diagnoser_id == k) ≡ true → has_id k rs ≡ false
    elsewhere e = subst (λ i. has_id i rs ≡ false) ((eq_iff r.diagnoser_id k).0 e) d.0

-- What is left of the table: the entries of diagnosers that the results do not have.
lookup-replace_in :
    (m : Dict Result) (rs : List Result) (k : String)
    → lookup k (replace_in m rs).1 ≡ (if has_id k rs then none else lookup k m)
unfolding replace_in
lookup-replace_in m [] k = refl
lookup-replace_in m (r ∷ rs) k = elim (Option-cases (lookup r.diagnoser_id m)) [
  | inl e ↦
      rw (e, replace_one, lookup-replace_in m rs k) (missing e (Bool-cases (r.diagnoser_id == k)))
  | inr (q, e) ↦
      rw (e, replace_one, lookup-replace_in (delete r.diagnoser_id m) rs k, lookup-delete)
        (elim (Bool-cases (r.diagnoser_id == k)) [
          | inl y ↦ rw y (elim (Bool-cases (has_id k rs)) [ inl h ↦ rw h refl | inr h ↦ rw h refl ])
          | inr n ↦ rw n refl
        ])
]
  where
    missing :
        lookup r.diagnoser_id m ≡ none
        → ((r.diagnoser_id == k) ≡ true) ⊎ ((r.diagnoser_id == k) ≡ false)
        → (if has_id k rs then none else lookup k m)
          ≡ (if (r.diagnoser_id == k) || has_id k rs then none else lookup k m)
    missing e (inl y) =
        rw (y, sym (ap (λ i. lookup i m) ((eq_iff r.diagnoser_id k).0 y)) ∙ e)
          (elim (Bool-cases (has_id k rs)) [ inl h ↦ rw h refl | inr h ↦ rw h refl ])
    missing e (inr n) = rw n refl

append_left-kept_under :
    (m : Dict Result) (rs : List Result) → DistinctIds rs → append_left m rs ≡ kept_under m rs
unfolding append_left kept_under
append_left-kept_under m [] d = refl
append_left-kept_under m (r ∷ rs) d =
    rw
      (
        append_left-kept_under m rs d.1,
        append_left-kept_under (delete r.diagnoser_id m) rs d.1,
        append_left-delete r.diagnoser_id m rs d.0,
      )
      refl

replacements-instead :
    (skipped : List Result) (d : DistinctIds skipped) (rs : List Result)
    → replacements (index_results [] skipped) rs ≡ map (instead skipped) rs
unfolding replacements
replacements-instead skipped d [] = refl
replacements-instead skipped d (r ∷ rs) =
    rw
      (
        index_results-lookup [] skipped r.diagnoser_id d,
        first_of_none,
        replacements-instead skipped d rs,
      )
      refl
  where
    first_of_none :
        first_of (find_result r.diagnoser_id skipped) none ≡ find_result r.diagnoser_id skipped
    first_of_none = elim (Option-cases (find_result r.diagnoser_id skipped)) [
      | inl e ↦ rw e refl
      | inr (q, e) ↦ rw e refl
    ]

FoundIn : List Result → List Result → Type 0
FoundIn full [] = Unit
FoundIn full (x ∷ xs) = (is_some (find_result x.diagnoser_id full) ≡ true) × FoundIn full xs

is_some-find_result :
    (k : String) (r : Result) (rs : List Result)
    → is_some (find_result k rs) ≡ true
    → is_some (find_result k (r ∷ rs)) ≡ true
is_some-find_result k r rs h = elim (Bool-cases (r.diagnoser_id == k)) [
  | inl e ↦ rw e refl
  | inr e ↦ rw e h
]

FoundIn-cons :
    (full : List Result) (r : Result) (xs : List Result) → FoundIn full xs → FoundIn (r ∷ full) xs
unfolding FoundIn
FoundIn-cons full r [] h = tt
FoundIn-cons full r (x ∷ xs) h =
    (is_some-find_result x.diagnoser_id r full h.0, FoundIn-cons full r xs h.1)

FoundIn-refl : (xs : List Result) → FoundIn xs xs
unfolding FoundIn
FoundIn-refl [] = tt
FoundIn-refl (x ∷ xs) = (rw eq_refl refl, FoundIn-cons xs x xs (FoundIn-refl xs))

kept_under-left :
    (results skipped : List Result) (d : DistinctIds skipped) (xs : List Result)
    → FoundIn skipped xs
    → kept_under (replace_in (index_results [] skipped) results).1 xs
      ≡ filter (λ (s : Result). not (has_id s.diagnoser_id results)) xs
unfolding kept_under FoundIn
kept_under-left results skipped d [] h = refl
kept_under-left results skipped d (x ∷ xs) h =
    rw
      (
        lookup-replace_in (index_results [] skipped) results x.diagnoser_id,
        index_results-lookup [] skipped x.diagnoser_id d,
        kept_under-left results skipped d xs h.1,
      )
      (elim (Bool-cases (has_id x.diagnoser_id results)) [
        | inl e ↦ rw e refl
        | inr e ↦ elim (Option-cases (find_result x.diagnoser_id skipped)) [
          | inl n ↦ (let never : false ≡ true = rw n at h.0 in absurd (false≢true never))
          | inr (q, s) ↦ rw (e, s) refl
        ]
      ])

-- If no list has two results of one diagnoser, every result is replaced by the skipped read of the
-- same ID, where there is one, in its place, and the skipped reads of no result's ID follow, in their
-- order.
pub replace_skipped_results_lem :
    (results skipped : List Result)
    → DistinctIds skipped
    → DistinctIds results
    → replace_skipped_results results skipped
      ≡ map (instead skipped) results
        ++ filter (λ (s : Result). not (has_id s.diagnoser_id results)) skipped
unfolding replace_skipped_results
replace_skipped_results_lem results skipped ds dr =
    let m : Dict Result = index_results [] skipped in
    rw
      (
        replace_in-replacements m results dr,
        replacements-instead skipped ds results,
        append_left-kept_under (replace_in m results).1 skipped ds,
        kept_under-left results skipped ds skipped (FoundIn-refl skipped),
      )
      refl
