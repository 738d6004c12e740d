-- ===== src/Diagnose/Watch/Kinds.antt =====
-- internal/diagnose/watch.go: which outcomes are waited on before they are returned.
use kubectl_safe_rollout.Prelude.{
  String, Bool, true, false, not, List, [], ◌∷◌, ◌++◌, ◌≡◌, refl, ◌∙◌, arith, ◌==◌, ◌||◌, ◌&&◌,
  if◌then◌else◌, is_empty, all, flat_map, Bool-cases, inl, inr,
}
use kubectl_safe_rollout.Model.{Finding}
use kubectl_safe_rollout.Diagnose.{Result, all_findings}
use kubectl_safe_rollout.Diagnose.Results.{all_findings_lem}
use kubectl_safe_rollout.Diagnose.Tick.{Outcome}

-- The inner loop of both functions: whether it goes on to the next result (it returns false at the
-- first finding that fails the test), and the variable `any` after it.
unfoldable pub scan : (Finding → Bool) → Bool → List Finding → Bool × Bool
scan test seen [] = (true, seen)
scan test seen (f ∷ fs) = if not (test f) then (false, true) else scan test true fs

-- The two loops of `allUndetermined`
unfoldable pub undetermined_from : Bool → List Result → Bool
undetermined_from seen [] = seen
undetermined_from seen (r ∷ rs) =
    let (goes_on, seen') = scan (λ (f : Finding). f.undetermined) seen r.findings in
    let rest = undetermined_from seen' rs in if goes_on then rest else false

-- `allUndetermined`
unfoldable pub all_undetermined : Outcome → Bool
unfolding undetermined_from scan
all_undetermined o = undetermined_from false o.results

-- `settleWindowDiagnoserIDs`
abbrev pub settle_window_diagnoser_ids : String → Bool
settle_window_diagnoser_ids id = id == "rollout-paused" || id == "statefulset-update"

-- The two loops of `isSettleWindowOnly`
unfoldable pub settle_only_from : Bool → List Result → Bool
settle_only_from seen [] = seen
settle_only_from seen (r ∷ rs) =
    let (goes_on, seen') =
      scan (λ (f : Finding). settle_window_diagnoser_ids r.diagnoser_id) seen r.findings in
    let rest = settle_only_from seen' rs in if goes_on then rest else false

-- `isSettleWindowOnly`
unfoldable pub is_settle_window_only : Outcome → Bool
unfolding settle_only_from scan
is_settle_window_only o = settle_only_from false o.results

scan_lem :
    (test : Finding → Bool) (seen : Bool) (fs : List Finding)
    → ((scan test seen fs).0 ≡ all test fs)
      × (all test fs ≡ true → (scan test seen fs).1 ≡ (seen || not (is_empty fs)))
unfolding scan
scan_lem test seen [] = (refl, λ h. ground arith)
scan_lem test seen (f ∷ fs) = elim (Bool-cases (test f)) [
  | inl e ↦ rw e (let (a, b) = scan_lem test true fs in (a, λ h. ground (arith, b h)))
  | inr e ↦ rw e (refl, λ h. cc)
]

all-append :
    {A : Type 0} (p : A → Bool) (xs ys : List A) → all p (xs ++ ys) ≡ (all p xs && all p ys)
all-append p [] ys = refl
all-append p (x ∷ xs) ys = ground (arith, all-append p xs ys)

is_empty-append : {A : Type 0} (xs ys : List A) → is_empty (xs ++ ys) ≡ (is_empty xs && is_empty ys)
is_empty-append [] ys = refl
is_empty-append (x ∷ xs) ys = refl

undetermined_from_lem :
    (seen : Bool) (rs : List Result)
    → undetermined_from seen rs ≡ (
        (seen || not (is_empty (flat_map (λ (r : Result). r.findings) rs)))
        && all (λ (f : Finding). f.undetermined) (flat_map (λ (r : Result). r.findings) rs))
unfolding undetermined_from
undetermined_from_lem seen [] = ground arith
undetermined_from_lem seen (r ∷ rs) =
    let (a, b) = scan_lem (λ (f : Finding). f.undetermined) seen r.findings in
    rw
      (
        a,
        all-append (λ (f : Finding). f.undetermined) r.findings
            (flat_map (λ (r : Result). r.findings) rs),
        is_empty-append,
        undetermined_from_lem (scan (λ (f : Finding). f.undetermined) seen r.findings).1 rs,
      )
      (elim (Bool-cases (all (λ (f : Finding). f.undetermined) r.findings)) [
        | inl e ↦ rw (e, b e) (ground arith)
        | inr e ↦ rw e (ground arith)
      ])

settle_only_from_lem :
    (seen : Bool) (rs : List Result)
    → settle_only_from seen rs ≡ (
        (seen || not (is_empty (flat_map (λ (r : Result). r.findings) rs)))
        && all
            (λ (r : Result). is_empty r.findings || settle_window_diagnoser_ids r.diagnoser_id)
            rs)
unfolding settle_only_from
settle_only_from_lem seen [] = ground arith
settle_only_from_lem seen (r ∷ rs) =
    let (a, b) =
      scan_lem (λ (f : Finding). settle_window_diagnoser_ids r.diagnoser_id) seen r.findings in
    let rest =
      settle_only_from_lem
        (scan (λ (f : Finding). settle_window_diagnoser_ids r.diagnoser_id) seen r.findings).1 rs in
    rw (a, all_const r.findings (settle_window_diagnoser_ids r.diagnoser_id), is_empty-append, rest)
      (elim (Bool-cases (is_empty r.findings || settle_window_diagnoser_ids r.diagnoser_id)) [
        | inl e ↦
            rw (e, b (all_const r.findings (settle_window_diagnoser_ids r.diagnoser_id) ∙ e))
              (ground arith)
        | inr e ↦ rw e (ground arith)
      ])
  where
    all_const : (fs : List Finding) (b : Bool) → all (λ (f : Finding). b) fs ≡ (is_empty fs || b)
    all_const [] b = refl
    all_const (f ∷ fs) b = ground (arith, all_const fs b)

-- An outcome is all undetermined exactly if it has a finding and every finding of it is undetermined.
pub all_undetermined_lem :
    (o : Outcome)
    → all_undetermined o ≡ (
        not (is_empty (all_findings o.results))
        && all (λ (f : Finding). f.undetermined) (all_findings o.results))
unfolding all_undetermined
all_undetermined_lem o = rw all_findings_lem (undetermined_from_lem false o.results)

-- An outcome may only be due to a pause exactly if it has a finding and every result with a finding
-- comes from one of the diagnosers that need no symptom of a pod.
pub is_settle_window_only_lem :
    (o : Outcome)
    → is_settle_window_only o ≡ (
        not (is_empty (all_findings o.results))
        && all
            (λ (r : Result). is_empty r.findings || settle_window_diagnoser_ids r.diagnoser_id)
            o.results)
unfolding is_settle_window_only
is_settle_window_only_lem o = rw all_findings_lem (settle_only_from_lem false o.results)
