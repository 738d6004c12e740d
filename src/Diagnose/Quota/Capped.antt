-- ===== src/Diagnose/Quota/Capped.antt =====
-- internal/diagnose/quota.go: the findings on rejected creations are of bounded length.
use kubectl_safe_rollout.Prelude.{
  String, any, not, map, map-append, if◌then◌else◌, ℕ, zero, suc, ◌+◌, ◌-◌, ◌≤◌, Bool, true, false,
  List, [], ◌∷◌, ◌++◌, ◌≡◌, refl, ap, ◌∙◌, inl, inr, arith, ◌&&◌, leb, Bool-cases, Text, length,
  length-append, All, All-append, filter, is_empty, sprintf, num, leb→le, ◌<◌,
}
use kubectl_safe_rollout.Prelude.Int.{pos}
use kubectl_safe_rollout.Model.{Finding}
use kubectl_safe_rollout.Cluster.{Event}
use kubectl_safe_rollout.Diagnose.{PodCreationSource}
use kubectl_safe_rollout.Diagnose.Quota.{
  take, cap_evidence, Rejections, no_rejections, collect_rejections, if_any, exceeded_finding,
  missing_account_finding, undetermined_finding, rejection_findings,
}
use kubectl_safe_rollout.Diagnose.Quota.Evidence.{
  is_rejection, by_quota, by_account, by_neither, lines, collect_rejections-lines,
}

-- The text of the line that stands for what is left out.
abbrev pub omitted : ℕ → Text
omitted n = sprintf "... and %d more rejections with the same cause" (num (pos n) ∷ [])

-- Evidence of more lines than are shown: the first ones, and the others.
split_evidence :
    (n : ℕ) (xs : List Text)
    → n ≤ length xs
    → (rest : List Text) × (xs ≡ take n xs ++ rest) × (length (take n xs) ≡ n)
split_evidence zero xs h = (xs, refl, refl)
split_evidence (suc n) [] h = absurd (omega (arith, h))
split_evidence (suc n) (x ∷ xs) h =
    let (rest, e, l) = split_evidence n xs (omega (arith, h)) in
    (rest, ap (λ ys. x ∷ ys) e, ap suc l)

-- Evidence of at most three lines is kept; of more, the first three lines are kept and a fourth says how
-- many others there are, so that none is left out in silence.
cap_evidence_lem :
    (evidence : List Text)
    → (length (cap_evidence evidence) ≤ 4)
      × ((length evidence ≤ 3 → cap_evidence evidence ≡ evidence)
          × (3 < length evidence
              → (kept : List Text) × (rest : List Text) × (evidence ≡ kept ++ rest)
                × (length kept ≡ 3)
                × (cap_evidence evidence ≡ kept ++ omitted (length rest) ∷ [])))
unfolding cap_evidence
cap_evidence_lem evidence = elim (Bool-cases (leb (length evidence) 3)) [
  | inl e ↦ rw e (
    omega (arith, leb→le (length evidence) 3 e),
    (λ h. refl, λ h. absurd (omega (arith, h, leb→le (length evidence) 3 e))),
  )
  | inr e ↦
      let long : 3 < length evidence = ground (arith, e) in
      let (rest, s, l) = split_evidence 3 evidence (omega (arith, long)) in
      let left : length evidence - 3 ≡ length rest =
        omega (arith, ap length s, length-append (take 3 evidence) rest, l) in
      rw e (
        omega (arith, length-append (take 3 evidence) (omitted (length evidence - 3) ∷ []), l),
        (
          λ h. absurd (omega (arith, h, long)),
          λ h. (take 3 evidence, rest, s, l, ap (λ n. take 3 evidence ++ omitted n ∷ []) left),
        ),
      )
]

abbrev pub IsShort : Finding → Type 0
IsShort f = length f.evidence ≤ 4

-- What a finding is about, and its evidence.
abbrev pub cause_lines : Finding → String × List Text
cause_lines f = (f.check_id, f.evidence)

-- The finding on the rejections of a kind, if there are any.
abbrev pub owed_for : String → (Event → Bool) → List Event → List (String × List Text)
owed_for id p es = if any p es then (id, cap_evidence (lines p es)) ∷ [] else []

is_empty-lines : (p : Event → Bool) (es : List Event) → is_empty (lines p es) ≡ not (any p es)
is_empty-lines p [] = refl
is_empty-lines p (e ∷ es) = elim (Bool-cases (p e)) [
  | inl y ↦ rw y refl
  | inr n ↦ rw n (is_empty-lines p es)
]

if_any-owed_for :
    (id : String) (p : Event → Bool) (es : List Event) (ls : List Text) (f : Finding)
    → ls ≡ lines p es
    → cause_lines f ≡ (id, cap_evidence ls)
    → map cause_lines (if_any ls f) ≡ owed_for id p es
if_any-owed_for id p es ls f l c =
    if_any_map ls
    ∙ (rw l (ap (λ b. if b then [] else one) (is_empty-lines p es)) ∙ flipped (any p es))
  where
    one : List (String × List Text)
    one = (id, cap_evidence (lines p es)) ∷ []

    if_any_map :
        (ls' : List Text)
        → map cause_lines (if_any ls' f) ≡ (if is_empty ls' then [] else (id, cap_evidence ls) ∷ [])
    if_any_map [] = refl
    if_any_map (x ∷ xs) = ap (λ q. q ∷ []) c

    flipped : (b : Bool) → (if not b then [] else one) ≡ (if b then one else [])
    flipped true = refl
    flipped false = refl

if_any_lem :
    (ls : List Text) (f : Finding)
    → length f.evidence ≤ 4
    → All IsShort (if_any ls f)
      × (length (if_any ls f) ≤ 1)
      × (is_empty (if_any ls f) ≡ is_empty ls)
if_any_lem [] f h = (tt, omega arith, refl)
if_any_lem (l ∷ ls) f h = ((h, tt), omega arith, refl)

is_empty-append : {A : Type 0} (xs ys : List A) → is_empty (xs ++ ys) ≡ (is_empty xs && is_empty ys)
is_empty-append [] ys = refl
is_empty-append (x ∷ xs) ys = refl

is_empty-length : {A : Type 0} (xs : List A) → is_empty xs ≡ leb (length xs) 0
is_empty-length [] = refl
is_empty-length (x ∷ xs) = ground arith

-- A source has a finding exactly if one of its events is a rejection: one on the rejections that mention
-- an exceeded quota, one on the others that name a missing account, and one on the rest, each if there
-- are any and with their lines as its capped evidence; and no finding shows more than four lines, however
-- often the creation was retried.
pub rejection_findings-IsShort :
    (s : PodCreationSource) (es : List Event)
    → (is_empty (rejection_findings s (collect_rejections no_rejections es))
        ≡ is_empty (filter is_rejection es))
      × (map cause_lines (rejection_findings s (collect_rejections no_rejections es))
          ≡ owed_for "quota-exceeded" by_quota es
            ++ (owed_for "serviceaccount-missing" by_account es
                ++ owed_for "quota-undetermined" by_neither es))
      × All IsShort (rejection_findings s (collect_rejections no_rejections es))
unfolding rejection_findings
rejection_findings-IsShort s es =
    let r : Rejections = collect_rejections no_rejections es in
    let (x, m, u, total) = collect_rejections-lines es in
    let exceeded : List Finding = if_any r.exceeded (exceeded_finding s r.exceeded) in
    let missing : List Finding =
      if_any r.missing_account_evidence
        (missing_account_finding s r.missing_account r.missing_account_evidence) in
    let other : List Finding = if_any r.undetermined (undetermined_finding s r.undetermined) in
    let (x1, x2, x3) =
      if_any_lem r.exceeded (exceeded_finding s r.exceeded) (cap_evidence_lem r.exceeded).0 in
    let (m1, m2, m3) =
      if_any_lem r.missing_account_evidence
        (missing_account_finding s r.missing_account r.missing_account_evidence)
        (cap_evidence_lem r.missing_account_evidence).0 in
    let (u1, u2, u3) =
      if_any_lem r.undetermined (undetermined_finding s r.undetermined)
        (cap_evidence_lem r.undetermined).0 in
    (
      is_empty-append exceeded (missing ++ other)
          ∙ (ap (λ b. is_empty exceeded && b) (is_empty-append missing other)
              ∙ none_of r.exceeded r.missing_account_evidence r.undetermined
                  (filter is_rejection es) (is_empty exceeded) (is_empty missing) (is_empty other)
                  x3 m3 u3 total),
      map-append cause_lines exceeded (missing ++ other)
          ∙ rw
              (
                map-append cause_lines missing other,
                if_any-owed_for "quota-exceeded" by_quota es r.exceeded
                    (exceeded_finding s r.exceeded) x refl,
                if_any-owed_for "serviceaccount-missing" by_account es r.missing_account_evidence
                    (missing_account_finding s r.missing_account r.missing_account_evidence) m refl,
                if_any-owed_for "quota-undetermined" by_neither es r.undetermined
                    (undetermined_finding s r.undetermined) u refl,
              )
              refl,
      All-append IsShort exceeded (missing ++ other) x1 (All-append IsShort missing other m1 u1),
    )
  where
    none_of :
        (a b c : List Text) (all : List Event) (p q r : Bool)
        → p ≡ is_empty a
        → q ≡ is_empty b
        → r ≡ is_empty c
        → length all ≡ length a + (length b + length c)
        → (p && (q && r)) ≡ is_empty all
    none_of a b c all p q r hp hq hr h = ground (
      arith,
      hp,
      hq,
      hr,
      h,
      is_empty-length a,
      is_empty-length b,
      is_empty-length c,
      is_empty-length all,
    )
