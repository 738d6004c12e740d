-- ===== src/Check/QuotaObjectCount/Blocked.antt =====
-- internal/check/quotaobjectcount.go: which quotas are reported, and when the check gives no answer.
use kubectl_safe_rollout.Prelude.{
  String, Bool, true, false, not, List, [], ◌∷◌, ◌++◌, ◌≡◌, refl, sym, ap, ◌∙◌, Option, none, some,
  ◌&&◌, if◌then◌else◌, Bool-cases, inl, inr, ok, any, all, is_empty, map, filter, lookup,
  append-nil, append_assoc, map-append,
}
use kubectl_safe_rollout.Prelude.Int.{ltb_ℤ}
use kubectl_safe_rollout.Model.{Finding}
use kubectl_safe_rollout.Api.{Apimachinery, Quantity, ResourceQuota}
use kubectl_safe_rollout.Cluster.{Target}
use kubectl_safe_rollout.Check.{CheckResult, skip}
use kubectl_safe_rollout.Check.QuotaObjectCount.{
  res, quota_has_scope, quota_object_count_finding, Judged, not_synced, judged, judge_counts,
  judge_quota, skip_not_synced, judge_quotas, judge_quota_list, run_quota_object_count,
}

abbrev pub to_list {ℓ} : {A : Type ℓ} → Option A → List A
to_list none = []
to_list (some a) = a ∷ []

-- The key has a hard limit and no used count.
abbrev pub lacks_count : Option Quantity → Option Quantity → Bool
lacks_count none used = false
lacks_count (some hard) none = true
lacks_count (some hard) (some used) = false

-- The used count has reached the hard limit.
abbrev pub is_exhausted : Option Quantity → Option Quantity → Bool
is_exhausted (some hard) (some used) = not (ltb_ℤ used.amount hard.amount)
is_exhausted _ _ = false

abbrev pub quota_name : ResourceQuota → String
quota_name q = q.meta.name

abbrev pub finding_name : Finding → String
finding_name f = f.resource.name

-- The quota has no scope and no scope selector with an expression.
abbrev pub is_unscoped : ResourceQuota → Bool
is_unscoped q = is_empty q.scopes && all is_empty (to_list q.scope_selector)

quota_has_scope-is_unscoped : (q : ResourceQuota) → quota_has_scope q ≡ not (is_unscoped q)
unfolding quota_has_scope
quota_has_scope-is_unscoped q = by_fields q.scopes q.scope_selector
  where
    by_fields :
        {A B : Type 0} (xs : List A) (o : Option (List B))
        → (if not (is_empty xs)
            then true
            else elim o [ none ↦ false | some es ↦ not (is_empty es) ])
          ≡ not (is_empty xs && all is_empty (to_list o))
    by_fields [] none = refl
    by_fields [] (some []) = refl
    by_fields [] (some (e ∷ es)) = refl
    by_fields (x ∷ xs) o = refl

module _ (lib : Apimachinery) (t : Target) where
  abbrev pub is_unsynced : ResourceQuota → Bool
  is_unsynced q =
      is_unscoped q && lacks_count (lookup (res lib t).key q.hard) (lookup (res lib t).key q.used)

  abbrev pub blocks : ResourceQuota → Bool
  blocks q =
      is_unscoped q && is_exhausted (lookup (res lib t).key q.hard) (lookup (res lib t).key q.used)

  -- What is judged of a quota.
  abbrev IsVerdict : ResourceQuota → Bool → Bool → Judged lib t → Type 0
  IsVerdict q unsynced blocked not_synced = unsynced ≡ true
  IsVerdict q unsynced blocked (judged fs) =
      (unsynced ≡ false) × (map finding_name fs ≡ (if blocked then quota_name q ∷ [] else []))

  judge_counts-IsVerdict :
      (q : ResourceQuota) (hard used : Option Quantity)
      → IsVerdict q
          (lacks_count hard used)
          (is_exhausted hard used)
          (judge_counts lib t q hard used)
  unfolding judge_counts quota_object_count_finding
  judge_counts-IsVerdict q none used = (refl, refl)
  judge_counts-IsVerdict q (some hard) none = refl
  judge_counts-IsVerdict q (some hard) (some used) =
      elim (Bool-cases (ltb_ℤ used.amount hard.amount)) [
        | inl e ↦ rw e (refl, refl)
        | inr e ↦ rw e (refl, refl)
      ]

  judge_quota-IsVerdict :
      (q : ResourceQuota) → IsVerdict q (is_unsynced q) (blocks q) (judge_quota lib t q)
  unfolding judge_quota
  judge_quota-IsVerdict q = elim (Bool-cases (is_unscoped q)) [
    | inr e ↦ rw (quota_has_scope-is_unscoped q, e) (refl, refl)
    | inl e ↦
        rw (quota_has_scope-is_unscoped q, e)
          (judge_counts-IsVerdict q (lookup (res lib t).key q.hard) (lookup (res lib t).key q.used))
  ]

  -- The answer for a list of quotas: none, with no findings, if some quota is not synced, and otherwise
  -- the quotas that block.
  abbrev pub Answers : List String → List ResourceQuota → CheckResult → Type 0
  Answers before qs r =
      (r.skipped ≡ any is_unsynced qs)
      × (map finding_name r.findings
          ≡ (if any is_unsynced qs then [] else before ++ map quota_name (filter blocks qs)))

  judge_quotas-Answers :
      (fs : List Finding) (qs : List ResourceQuota)
      → Answers (map finding_name fs) qs (judge_quotas lib t fs qs)
  unfolding judge_quotas skip_not_synced skip
  judge_quotas-Answers fs [] = (refl, sym (append-nil (map finding_name fs)))
  judge_quotas-Answers fs (q ∷ qs) =
      verdict (judge_quota lib t q) (judge_quota-IsVerdict q)
        (λ new. judge_quotas-Answers (fs ++ new) qs)
    where
      names_of :
          (b : Bool)
          → map quota_name (if b then q ∷ filter blocks qs else filter blocks qs)
            ≡ (if b then quota_name q ∷ [] else []) ++ map quota_name (filter blocks qs)
      names_of true = refl
      names_of false = refl

      verdict :
          (j : Judged lib t)
          → IsVerdict q (is_unsynced q) (blocks q) j
          → ((new : List Finding)
              → Answers (map finding_name (fs ++ new)) qs (judge_quotas lib t (fs ++ new) qs))
          → Answers (map finding_name fs) (q ∷ qs) (elim j as (λ x. CheckResult) [
            | not_synced ↦ skip_not_synced lib t q
            | judged new ↦ judge_quotas lib t (fs ++ new) qs
          ])
      verdict not_synced v rest = rw v (refl, refl)
      verdict (judged new) v rest =
          let (skipped, names) = rest new in
          rw (v.0, names_of (blocks q), sym (v.1))
            (
              skipped,
              names
                  ∙ ap (λ ns. if any is_unsynced qs then [] else ns)
                      (ap (λ ns. ns ++ map quota_name (filter blocks qs))
                          (map-append finding_name fs new)
                        ∙ append_assoc (map finding_name fs) (map finding_name new)
                            (map quota_name (filter blocks qs))),
            )

  judge_quota_list-Answers :
      (qs : List ResourceQuota) → Answers [] qs (judge_quota_list lib t (ok qs))
  judge_quota_list-Answers [] = (refl, refl)
  judge_quota_list-Answers (q ∷ qs) = judge_quotas-Answers [] (q ∷ qs)

  -- Over a readable list of quotas, QuotaObjectCount is skipped, with no finding, exactly if a quota
  -- without scopes has a hard limit for the key and no used count; otherwise its findings name, in the
  -- order of the list, the quotas without scopes whose used count has reached the hard limit.
  pub run_quota_object_count-Answers :
      (qs : List ResourceQuota)
      → t.client.list_resource_quotas t.namespace ≡ ok qs
      → (r : CheckResult) × (run_quota_object_count lib t ≡ ok r) × Answers [] qs r
  unfolding run_quota_object_count
  run_quota_object_count-Answers qs h =
      (judge_quota_list lib t (ok qs), rw h refl, judge_quota_list-Answers qs)
