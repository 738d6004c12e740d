-- ===== src/Diagnose/Quota/Evidence.antt =====
-- internal/diagnose/quota.go: every rejected creation is collected once.
use kubectl_safe_rollout.Prelude.{
  suc, ◌+◌, String, Bool, true, false, not, List, [], ◌∷◌, ◌++◌, ◌≡◌, refl, sym, ap, ◌∙◌, arith,
  Option, none, some, ◌==◌, ◌&&◌, if◌then◌else◌, Text, length, filter, filter-append, map-append,
  map, is_none, is_some, append-nil, append_assoc,
}
use kubectl_safe_rollout.Cluster.{Event}
use kubectl_safe_rollout.Diagnose.Pods.{event_line}
use kubectl_safe_rollout.Diagnose.Pattern.{quota_exceeded, service_account_missing}
use kubectl_safe_rollout.Diagnose.Quota.{
  Rejections, no_rejections, add_other, add_rejection, collect_rejections,
}

abbrev pub is_rejection : Event → Bool
is_rejection e = e.reason == "FailedCreate"

-- The rejections that a quota explains, those that a missing account does, and the others.
abbrev pub by_quota : Event → Bool
by_quota e = is_rejection e && quota_exceeded e.message

abbrev pub by_account : Event → Bool
by_account e =
    is_rejection e
    && (not (quota_exceeded e.message) && is_some (service_account_missing e.message))

abbrev pub by_neither : Event → Bool
by_neither e =
    is_rejection e
    && (not (quota_exceeded e.message) && is_none (service_account_missing e.message))

abbrev pub lines : (Event → Bool) → List Event → List Text
lines p es = map event_line (filter p es)

lines-cons :
    (p : Event → Bool) (e : Event) (es : List Event)
    → lines p (e ∷ es) ≡ lines p (e ∷ []) ++ lines p es
lines-cons p e es =
    ap (map event_line) (filter-append p (e ∷ []) es) ∙ map-append event_line (filter p (e ∷ [])) _

-- One event goes to the list of its kind.
add_rejection_lem :
    (r : Rejections) (e : Event)
    → ((add_rejection r e).exceeded ≡ r.exceeded ++ lines by_quota (e ∷ []))
      × ((add_rejection r e).missing_account_evidence
          ≡ r.missing_account_evidence ++ lines by_account (e ∷ []))
      × ((add_rejection r e).undetermined ≡ r.undetermined ++ lines by_neither (e ∷ []))
add_rejection_lem r e =
    added (is_rejection e) (quota_exceeded e.message) (service_account_missing e.message)
  where
    shown : Bool → List Text
    shown b = map event_line (if b then e ∷ [] else [])

    added :
        (rejected exceeded : Bool) (account : Option String)
        → ((if not rejected
              then r
              else (if exceeded
                  then record r { exceeded = r.exceeded ++ event_line e ∷ [] }
                  else add_other r e account)).exceeded
            ≡ r.exceeded ++ shown (rejected && exceeded))
          × ((if not rejected
                then r
                else (if exceeded
                    then record r { exceeded = r.exceeded ++ event_line e ∷ [] }
                    else add_other r e account)).missing_account_evidence
              ≡ r.missing_account_evidence ++ shown (rejected && (not exceeded && is_some account)))
          × ((if not rejected
                then r
                else (if exceeded
                    then record r { exceeded = r.exceeded ++ event_line e ∷ [] }
                    else add_other r e account)).undetermined
              ≡ r.undetermined ++ shown (rejected && (not exceeded && is_none account)))
    added false q o = (
      sym (append-nil r.exceeded),
      sym (append-nil r.missing_account_evidence),
      sym (append-nil r.undetermined),
    )
    added true true o =
        (refl, sym (append-nil r.missing_account_evidence), sym (append-nil r.undetermined))
    added true false none =
        (sym (append-nil r.exceeded), sym (append-nil r.missing_account_evidence), refl)
    added true false (some name) =
        (sym (append-nil r.exceeded), refl, sym (append-nil r.undetermined))

then_lines :
    (p : Event → Bool) (e : Event) (es : List Event) (before after : List Text)
    → before ≡ after ++ lines p (e ∷ [])
    → before ++ lines p es ≡ after ++ lines p (e ∷ es)
then_lines p e es before after h =
    ap (λ ls. ls ++ lines p es) h
    ∙ (append_assoc after (lines p (e ∷ [])) (lines p es)
        ∙ ap (λ ls. after ++ ls) (sym (lines-cons p e es)))

-- The loop over the events of a source puts behind what was collected before the lines of the three
-- kinds of rejections, each in the order of the events.
collect_rejections_lem :
    (r : Rejections) (es : List Event)
    → ((collect_rejections r es).exceeded ≡ r.exceeded ++ lines by_quota es)
      × ((collect_rejections r es).missing_account_evidence
          ≡ r.missing_account_evidence ++ lines by_account es)
      × ((collect_rejections r es).undetermined ≡ r.undetermined ++ lines by_neither es)
unfolding collect_rejections
collect_rejections_lem r [] = (
  sym (append-nil r.exceeded),
  sym (append-nil r.missing_account_evidence),
  sym (append-nil r.undetermined),
)
collect_rejections_lem r (e ∷ es) =
    let (x, m, u) = collect_rejections_lem (add_rejection r e) es in
    let (x', m', u') = add_rejection_lem r e in
    (
      x ∙ then_lines by_quota e es (add_rejection r e).exceeded r.exceeded x',
      m
          ∙ then_lines by_account e es (add_rejection r e).missing_account_evidence
              r.missing_account_evidence m',
      u ∙ then_lines by_neither e es (add_rejection r e).undetermined r.undetermined u',
    )

length-lines : (p : Event → Bool) (es : List Event) → length (lines p es) ≡ length (filter p es)
length-lines p es = mapped (filter p es)
  where
    mapped : (xs : List Event) → length (map event_line xs) ≡ length xs
    mapped [] = refl
    mapped (x ∷ xs) = ap suc (mapped xs)

is_none-is_some : (o : Option String) → is_none o ≡ not (is_some o)
is_none-is_some none = refl
is_none-is_some (some a) = refl

length-filter_kinds :
    (es : List Event)
    → length (filter is_rejection es)
      ≡ length (filter by_quota es)
        + (length (filter by_account es) + length (filter by_neither es))
length-filter_kinds [] = refl
length-filter_kinds (e ∷ es) =
    ground (arith, length-filter_kinds es, is_none-is_some (service_account_missing e.message))

-- What is collected of a source's events are the messages of the rejections that mention an exceeded
-- quota, of the others that name a missing account, and of the rest, each in the order of the events;
-- together they are as many as the rejections.
pub collect_rejections-lines :
    (es : List Event)
    → ((collect_rejections no_rejections es).exceeded ≡ lines by_quota es)
      × ((collect_rejections no_rejections es).missing_account_evidence ≡ lines by_account es)
      × ((collect_rejections no_rejections es).undetermined ≡ lines by_neither es)
      × (length (filter is_rejection es)
          ≡ length (collect_rejections no_rejections es).exceeded
            + (length (collect_rejections no_rejections es).missing_account_evidence
                + length (collect_rejections no_rejections es).undetermined))
collect_rejections-lines es =
    let (x, m, u) = collect_rejections_lem no_rejections es in
    (
      x,
      m,
      u,
      omega (
        arith,
        length-filter_kinds es,
        ap length x,
        ap length m,
        ap length u,
        length-lines by_quota es,
        length-lines by_account es,
        length-lines by_neither es,
      ),
    )
