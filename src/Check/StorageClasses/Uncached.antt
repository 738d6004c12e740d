-- ===== src/Check/StorageClasses/Uncached.antt =====
-- internal/check/storageclass.go: what the check answers, described without the map of resolved classes.
use kubectl_safe_rollout.Prelude.{
  String, Bool, true, false, List, [], ◌∷◌, ◌++◌, ◌≡◌, refl, is_empty, sym, ap, ◌∙◌, Option, none,
  some, Option-cases, Bool-cases, inl, inr, ◌⊎◌, ◌==◌, if◌then◌else◌, Error, Fallible, ok, err,
  Dict, lookup, insert, lookup-insert, eq_iff, flat_map, append-nil, append_assoc, arith,
}
use mathlib.Core.Path.{subst}
use kubectl_safe_rollout.Model.{Finding}
use kubectl_safe_rollout.Api.{ClaimTemplate}
use kubectl_safe_rollout.Workload.{volume_claim_templates}
use kubectl_safe_rollout.Cluster.{Target}
use kubectl_safe_rollout.Check.{CheckResult, found}
use kubectl_safe_rollout.Check.StorageClasses.{
  storage_class_exists_check_id, named_class, class_exists, missing_storage_class, unread_class,
  resolve_class, remember, judge_templates, run_storage_class_exists,
}

class-cases : (x : Fallible Bool) → ((e : Error) × (x ≡ err e)) ⊎ ((b : Bool) × (x ≡ ok b))
class-cases (err e) = inl (e, refl)
class-cases (ok b) = inr (b, refl)

-- What is concluded of the first class that cannot be read, and of the findings otherwise.
abbrev pub conclude : Option CheckResult → List Finding → CheckResult
conclude none fs = found storage_class_exists_check_id fs
conclude (some r) fs = r

module _ (t : Target) where
  -- What the cluster says of a class.
  abbrev pub stored : String → Fallible Bool
  stored n = class_exists (t.client.get_storage_class n)

  -- The skipped result for a template whose class cannot be read.
  abbrev pub unread : ClaimTemplate → Option CheckResult
  unread v = elim (named_class v.storage_class_name) [
    | none ↦ none
    | some n ↦ elim (stored n) [ err e ↦ some (unread_class t n e) | ok b ↦ none ]
  ]

  abbrev pub first_unread : List ClaimTemplate → Option CheckResult
  first_unread [] = none
  first_unread (v ∷ vs) = elim (unread v) [ none ↦ first_unread vs | some r ↦ some r ]

  -- The finding for a template whose class does not exist.
  abbrev pub missing_class : ClaimTemplate → List Finding
  missing_class v = elim (named_class v.storage_class_name) [
    | none ↦ []
    | some n ↦ elim (stored n) [
      | err e ↦ []
      | ok b ↦ if b then [] else missing_storage_class t v n ∷ []
    ]
  ]

  -- What the loop remembers is what the cluster says.
  abbrev Agrees : Dict Bool → Type 0
  Agrees resolved = (n : String) (b : Bool) → lookup n resolved ≡ some b → stored n ≡ ok b

  resolve_class-stored :
      (resolved : Dict Bool) (n : String) → Agrees resolved → resolve_class t resolved n ≡ stored n
  resolve_class-stored resolved n h = elim (Option-cases (lookup n resolved)) [
    | inl e ↦ rw (e, resolve_class) refl
    | inr (b, e) ↦ rw (e, resolve_class) (sym (h n b e))
  ]

  insert-Agrees :
      (resolved : Dict Bool) (n : String) (b : Bool)
      → Agrees resolved
      → stored n ≡ ok b
      → Agrees (insert n b resolved)
  insert-Agrees resolved n b h s j c e = elim (Bool-cases (n == j)) [
    | inl same ↦
        subst (λ k. stored k ≡ ok c) ((eq_iff n j).0 same)
          (s ∙ ap ok (ground (arith, lookup-insert n j b resolved)))
    | inr other ↦ h j c (ground (arith, lookup-insert n j b resolved))
  ]

  remember-Agrees :
      (resolved : Dict Bool) (n : String) (b : Bool)
      → Agrees resolved
      → stored n ≡ ok b
      → Agrees (remember t resolved n b)
  remember-Agrees resolved n b h s = elim (Option-cases (lookup n resolved)) [
    | inl e ↦ rw (e, remember) (insert-Agrees resolved n b h s)
    | inr (c, e) ↦ rw (e, remember) h
  ]

  judge_templates_lem :
      (resolved : Dict Bool) (fs : List Finding) (vs : List ClaimTemplate)
      → Agrees resolved
      → judge_templates t resolved fs vs
        ≡ conclude (first_unread vs) (fs ++ flat_map missing_class vs)
  unfolding judge_templates
  judge_templates_lem resolved fs [] h =
      ap (λ gs. found storage_class_exists_check_id gs) (sym (append-nil fs))
  judge_templates_lem resolved fs (v ∷ vs) h =
      elim (Option-cases (named_class v.storage_class_name)) [
        | inl e ↦
            rw (e, judge_templates, first_unread, unread, missing_class)
              (judge_templates_lem resolved fs vs h)
        | inr (n, e) ↦
            let r : resolve_class t resolved n ≡ stored n = resolve_class-stored resolved n h in
            elim (class-cases (stored n)) [
              | inl (x, s) ↦ rw (e, judge_templates, first_unread, unread, missing_class, r, s) refl
              | inr (true, s) ↦
                  rw (e, judge_templates, first_unread, unread, missing_class, r, s)
                    (judge_templates_lem (remember t resolved n true) fs vs
                      (remember-Agrees resolved n true h s))
              | inr (false, s) ↦
                  rw (e, judge_templates, first_unread, unread, missing_class, r, s)
                    (judge_templates_lem (remember t resolved n false)
                        (fs ++ missing_storage_class t v n ∷ []) vs
                        (remember-Agrees resolved n false h s)
                      ∙ ap (conclude (first_unread vs)) (
                          append_assoc fs (missing_storage_class t v n ∷ [])
                            (flat_map missing_class vs)))
            ]
      ]

  -- The check is skipped for the first template whose class cannot be read, if there is one; otherwise
  -- it has a finding for each template whose class does not exist, in order, as if no class were
  -- remembered.
  pub run_storage_class_exists-conclude :
      run_storage_class_exists t
      ≡ ok (
          conclude
            (first_unread (volume_claim_templates t.workload))
            (flat_map missing_class (volume_claim_templates t.workload)))
  unfolding run_storage_class_exists judge_templates
  run_storage_class_exists-conclude = ap ok (
      always (volume_claim_templates t.workload)
      ∙ judge_templates_lem [] [] (volume_claim_templates t.workload) (λ n b e. ground arith))
    where
      always :
          (vs : List ClaimTemplate)
          → (if is_empty vs
              then found storage_class_exists_check_id []
              else judge_templates t [] [] vs)
            ≡ judge_templates t [] [] vs
      always [] = refl
      always (v ∷ vs) = refl
