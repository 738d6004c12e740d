-- ===== src/Diagnose/Results.antt =====
-- internal/diagnose/diagnose.go: the results of a run, and the index of events.
use kubectl_safe_rollout.Prelude.{
  String, not, List, [], ◌∷◌, ◌++◌, ◌≡◌, refl, ◌∙◌, sym, ap, none, arith, eq_iff, ◌==◌, Bool-cases,
  inl, inr, if◌then◌else◌, Fallible, ok, err, Dict, lookup, insert, lookup-insert, is_empty, filter,
  flat_map, append_assoc, append-nil, ◌≢◌, ◌&&◌, ◌↔◌,
}
use kubectl_safe_rollout.Model.{Finding}
use kubectl_safe_rollout.Cluster.{Event}
use kubectl_safe_rollout.Diagnose.{
  Result, Diagnoser, Target, add_result, run_diagnosis, events_of, group_events,
  group_events_by_involved_object, any_findings, append_findings, all_findings,
}

abbrev pub about : String → List Event → List Event
about uid = filter (λ (e : Event). e.involved_uid == uid)

events_of-insert :
    (u v : String) (es : List Event) (g : Dict (List Event))
    → events_of u (insert v es g) ≡ (if v == u then es else events_of u g)
events_of-insert u v es g = elim (Bool-cases (v == u)) [
  | inl e ↦ rw (lookup-insert v u es g, e, events_of) refl
  | inr n ↦ rw (lookup-insert v u es g, n, events_of) refl
]

abbrev indexed : Dict (List Event) → Event → Dict (List Event)
indexed g e =
    if e.involved_uid == ""
    then g
    else insert e.involved_uid (events_of e.involved_uid g ++ e ∷ []) g

-- One event goes behind those of its object, and to no other.
events_of-indexed :
    (u : String) (g : Dict (List Event)) (e : Event)
    → u ≢ ""
    → events_of u (indexed g e) ≡ events_of u g ++ (if e.involved_uid == u then e ∷ [] else [])
events_of-indexed u g e ne = elim (Bool-cases (e.involved_uid == "")) [
  | inl b ↦ elim (Bool-cases (e.involved_uid == u)) [
    | inl y ↦ absurd (ne (sym ((eq_iff e.involved_uid u).0 y) ∙ (eq_iff e.involved_uid "").0 b))
    | inr n ↦ rw (b, n, append-nil) refl
  ]
  | inr b ↦ elim (Bool-cases (e.involved_uid == u)) [
    | inl y ↦
        rw (b, events_of-insert u e.involved_uid (events_of e.involved_uid g ++ e ∷ []) g, y)
          (ap (λ v. events_of v g ++ e ∷ []) ((eq_iff e.involved_uid u).0 y))
    | inr n ↦
        rw
          (
            b,
            events_of-insert u e.involved_uid (events_of e.involved_uid g ++ e ∷ []) g,
            n,
            append-nil,
          )
          refl
  ]
]

events_of-group_events :
    (u : String) (g : Dict (List Event)) (es : List Event)
    → u ≢ ""
    → events_of u (group_events g es) ≡ events_of u g ++ about u es
unfolding group_events
events_of-group_events u g [] ne = sym (append-nil (events_of u g))
events_of-group_events u g (e ∷ es) ne =
    events_of-group_events u (indexed g e) es ne
    ∙ rw (events_of-indexed u g e ne, append_assoc)
        (elim (Bool-cases (e.involved_uid == u)) [ inl y ↦ rw y refl | inr n ↦ rw n refl ])

lookup_blank :
    (g : Dict (List Event)) (es : List Event)
    → lookup "" g ≡ none
    → lookup "" (group_events g es) ≡ none
unfolding group_events
lookup_blank g [] h = h
lookup_blank g (e ∷ es) h =
    lookup_blank (indexed g e) es (elim (Bool-cases (e.involved_uid == "")) [
      | inl b ↦ rw b h
      | inr b ↦ rw (b, lookup-insert, b) h
    ])

-- Under an object's UID the index holds that object's events, in the order of the list; events with
-- no UID are left out.
pub events_of-group_events_by_involved_object :
    (es : List Event)
    → (lookup "" (group_events_by_involved_object es) ≡ none)
      × ((u : String) → u ≢ "" → events_of u (group_events_by_involved_object es) ≡ about u es)
unfolding group_events_by_involved_object
events_of-group_events_by_involved_object es =
    (lookup_blank [] es refl, λ u ne. events_of-group_events u [] es ne)

append_findings_lem :
    (fs : List Finding) (rs : List Result)
    → append_findings fs rs ≡ fs ++ flat_map (λ r. r.findings) rs
unfolding append_findings
append_findings_lem fs [] = sym (append-nil fs)
append_findings_lem fs (r ∷ rs) =
    append_findings_lem (fs ++ r.findings) rs
    ∙ append_assoc fs r.findings (flat_map (λ r. r.findings) rs)

pub all_findings_lem : (rs : List Result) → all_findings rs ≡ flat_map (λ r. r.findings) rs
unfolding all_findings
all_findings_lem rs = append_findings_lem [] rs

is_empty-append : {A : Type 0} (xs ys : List A) → is_empty (xs ++ ys) ≡ (is_empty xs && is_empty ys)
is_empty-append [] ys = refl
is_empty-append (x ∷ xs) ys = refl

-- AnyFindings answers whether AllFindings is not empty.
pub any_findings-all_findings :
    (rs : List Result) → any_findings rs ≡ not (is_empty (all_findings rs))
unfolding any_findings
any_findings-all_findings [] = rw all_findings_lem refl
any_findings-all_findings (r ∷ rs) =
    rw (all_findings_lem, is_empty-append)
      (ground (arith, any_findings-all_findings rs, ap is_empty (all_findings_lem rs)))

-- What each diagnoser answered, in the order of registration.
abbrev pub Answers : List Diagnoser → Target → List Result → Type 0
Answers [] t [] = Unit
Answers (d ∷ ds) t (r ∷ rs) = (d.diagnose t ≡ ok r) × Answers ds t rs
Answers _ t _ = ⊥

add_result-eq_ok :
    (id : String) (x : Fallible Result) (rest : Fallible (List Result)) (rs : List Result)
    → add_result id x rest ≡ ok rs
    → (r : Result) × (rs' : List Result) × (x ≡ ok r) × (rest ≡ ok rs') × (rs ≡ r ∷ rs')
unfolding add_result
add_result-eq_ok id (err e) rest rs h = cc
add_result-eq_ok id (ok r) (err e) rs h = cc
add_result-eq_ok id (ok r) (ok rs') rs h = (r, rs', refl, refl, cc)

run_diagnosis-Answers :
    (ds : List Diagnoser) (t : Target) (rs : List Result)
    → run_diagnosis ds t ≡ ok rs
    → Answers ds t rs
unfolding run_diagnosis
run_diagnosis-Answers [] t [] h = tt
run_diagnosis-Answers [] t (r ∷ rs) h = cc
run_diagnosis-Answers (d ∷ ds) t rs h =
    let (r, rs', one, others, e) = add_result-eq_ok d.id (d.diagnose t) (run_diagnosis ds t) rs h in
    rw e (one, run_diagnosis-Answers ds t rs' others)

Answers-run_diagnosis :
    (ds : List Diagnoser) (t : Target) (rs : List Result)
    → Answers ds t rs
    → run_diagnosis ds t ≡ ok rs
unfolding run_diagnosis add_result
Answers-run_diagnosis [] t [] h = refl
Answers-run_diagnosis [] t (r ∷ rs) h = absurd h
Answers-run_diagnosis (d ∷ ds) t [] h = absurd h
Answers-run_diagnosis (d ∷ ds) t (r ∷ rs) h = rw (h.0, Answers-run_diagnosis ds t rs h.1) refl

-- RunDiagnosis succeeds exactly if every registered diagnoser does, with one result for each, in the
-- order of registration.
run_diagnosis_iff :
    (ds : List Diagnoser) (t : Target) (rs : List Result)
    → (run_diagnosis ds t ≡ ok rs) ↔ Answers ds t rs
run_diagnosis_iff ds t rs = (run_diagnosis-Answers ds t rs, Answers-run_diagnosis ds t rs)
