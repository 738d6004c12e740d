-- ===== src/Diagnose/Pattern/Objects.antt =====
-- internal/diagnose/pattern/pattern.go: the object that a message names is the one that is extracted.
use kubectl_safe_rollout.Prelude.{
  ℕ, String, true, false, ◌≡◌, ◌≢◌, refl, sym, ap, ◌∙◌, arith, Option, none, some, Option-cases,
  is_some, elim_lem, ◌⊎◌, nat_eq, if◌then◌else◌, Bool-cases, inl, inr, cut, cut_prefix, to_lower,
}
use mathlib.Core.Path.{subst}
use Prim.Native.Char.{Char, code}
use Prim.Native.String.{[] as end, ◌∷◌ as ◌then◌, ◌++◌}
use text.Mathlib.TextEquality.{codes_equal}
use Prim.Native.String.append.{nil as append-nil_left, cons as append-cons}
use kubectl_safe_rollout.Diagnose.Pattern.{
  missing_config_object, account_here, account_from, service_account_missing, one_or_more, and_then,
}

missing_secret :
    missing_config_object "MountVolume failed: Secret  \"db\" not found" ≡ some ("secret", "db")
unfolding missing_config_object cut to_lower
missing_secret = refl

not_a_word : missing_config_object "a_configmap \"db\" not found" ≡ none
unfolding missing_config_object cut to_lower
not_a_word = refl

-- No character of the text has the code.
abbrev pub Lacks : ℕ → String → Type 0
Lacks d end = Unit
Lacks d (c then s) = (nat_eq (code c) d ≡ false) × Lacks d s

same_code : (c : Char) → nat_eq (code c) (code c) ≡ true
same_code c = ground arith

cut-append :
    (d : Char) (a rest : String)
    → Lacks (code d) a
    → cut (code d) (a ++ (d then rest)) ≡ some (a, rest)
unfolding cut
cut-append d end rest h = rw (append-nil_left (d then rest), same_code d) refl
cut-append d (c then a) rest h =
    rw (append-cons c a (d then rest), h.0, cut-append d a rest h.1) refl

cut_prefix-append : (p s : String) → cut_prefix (p ++ s) p ≡ some s
unfolding cut_prefix
cut_prefix-append end s = ap some (append-nil_left s)
cut_prefix-append (c then p) s = rw (append-cons c p s, same_code c) (cut_prefix-append p s)

-- The text in front of the character and the text behind it.
abbrev IsCut : Char → String → Option (String × String) → Type 0
IsCut d s none = Unit
IsCut d s (some (a, b)) = (s ≡ a ++ (d then b)) × Lacks (code d) a

cut-IsCut : (d : Char) (s : String) → IsCut d s (cut (code d) s)
unfolding cut
cut-IsCut d end = tt
cut-IsCut d (c then s) = elim (Bool-cases (nat_eq (code c) (code d))) [
  | inl e ↦ rw e (
    ap (λ k. k then s) (codes_equal c d (ground (arith, e))) ∙ sym (append-nil_left (d then s)),
    tt,
  )
  | inr e ↦ rw e (behind e (cut (code d) s) (cut-IsCut d s))
]
  where
    behind :
        nat_eq (code c) (code d) ≡ false
        → (o : Option (String × String)) → IsCut d s o
        → IsCut d (c then s) (elim o as (λ x. Option (String × String)) [
          | none ↦ none
          | some (a, b) ↦ some (c then a, b)
        ])
    behind e none h = tt
    behind e (some (a, b)) h = (ap (λ t. c then t) h.0 ∙ sym (append-cons c a (d then b)), (e, h.1))

cut-eq_some :
    (d : Char) (s a b : String)
    → one_or_more (cut (code d) s) ≡ some (a, b)
    → (s ≡ a ++ (d then b)) × Lacks (code d) a × (a ≢ end)
cut-eq_some d s a b h =
    let (e, ne) = whole (cut (code d) s) h in
    let (eq, lacks) = subst (IsCut d s) e (cut-IsCut d s) in (eq, lacks, ne)
  where
    whole :
        (o : Option (String × String)) → one_or_more o ≡ some (a, b) → (o ≡ some (a, b)) × (a ≢ end)
    whole none h = cc
    whole (some (end, y)) h = cc
    whole (some (c then x, y)) h = (h, λ e. cc)

cut_prefix-eq_some : (s p r : String) → cut_prefix s p ≡ some r → s ≡ p ++ r
unfolding cut_prefix
cut_prefix-eq_some s end r h = cc (append-nil_left r)
cut_prefix-eq_some end (d then p) r h = cc
cut_prefix-eq_some (c then s) (d then p) r h = elim (Bool-cases (nat_eq (code c) (code d))) [
  | inl e ↦
      ap (λ k. k then s) (codes_equal c d (ground (arith, e)))
      ∙ (ap (λ t. d then t) (cut_prefix-eq_some s p r (rw e at h)) ∙ sym (append-cons d p r))
  | inr e ↦ absurd (no (rw e at h))
]
  where
    no : none ≡ some r → ⊥
    no e = cc

-- What holds of none and of each answer of the continuation holds of the chain.
and_then_lem :
    {A : Type 0} {B : Type 0} (P : Option B → Type 0) (o : Option A) (f : A → Option B)
    → P none
    → ((a : A) → o ≡ some a → P (f a))
    → P (and_then o f)
and_then_lem P none f p q = p
and_then_lem P (some a) f p q = q a refl

abbrev pub account_prefix : String
account_prefix = "error looking up service account "

-- The text starts with the words of the admission plugin, a namespace and the name.
abbrev pub NamesHere : String → String → Type 0
NamesHere s n =
    (namespace : String) × (rest : String) × (s
      ≡ account_prefix ++ (namespace ++ ("/" then (n ++ (":" then rest)))))
    × Lacks b'/' namespace
    × (namespace ≢ end)
    × Lacks b':' n
    × (n ≢ end)

abbrev SoundHere : String → Option String → Type 0
SoundHere s none = Unit
SoundHere s (some n) = NamesHere s n

account_here-SoundHere : (s : String) → SoundHere s (account_here s)
unfolding account_here
account_here-SoundHere s = and_then_lem (SoundHere s) (cut_prefix s account_prefix) _ tt (λ x e.
    and_then_lem (SoundHere s) (one_or_more (cut b'/' x)) _ tt (λ ns f.
      and_then_lem (SoundHere s) (one_or_more (cut b':' ns.1)) _ tt (λ n g.
        let (q, l, ne) = cut-eq_some "/" x ns.0 ns.1 f in
        let (q', l', ne') = cut-eq_some ":" ns.1 n.0 n.1 g in
        (
          ns.0,
          n.1,
          cut_prefix-eq_some s account_prefix x e
              ∙ ap (λ t. account_prefix ++ t) (q ∙ ap (λ t. ns.0 ++ ("/" then t)) q'),
          l,
          ne,
          l',
          ne',
        ))))

one_or_more_lem : (a b : String) → a ≢ end → one_or_more (some (a, b)) ≡ some (a, b)
one_or_more_lem end b h = absurd (h refl)
one_or_more_lem (c then a) b h = refl

NamesHere-account_here : (s n : String) → NamesHere s n → account_here s ≡ some n
unfolding account_here
NamesHere-account_here s n (ns, rest, e, l, ne, l', ne') =
    rw
      (
        e,
        cut_prefix-append account_prefix (ns ++ ("/" then (n ++ (":" then rest)))),
        cut-append "/" ns (n ++ (":" then rest)) l,
        one_or_more_lem ns (n ++ (":" then rest)) ne,
        cut-append ":" n rest l',
        one_or_more_lem n rest ne',
      )
      refl

-- The text names the account at one of its places.
abbrev pub Names : String → String → Type 0
Names end n = ⊥
Names (c then s) n = NamesHere (c then s) n ⊎ Names s n

account_from-Names : (s n : String) → account_from s ≡ some n → Names s n
unfolding account_from
account_from-Names end n h = cc
account_from-Names (c then s) n h = elim (Option-cases (account_here (c then s))) [
  | inl e ↦ inr (account_from-Names s n (rw (e, account_from) at h))
  | inr (m, e) ↦ inl (
      subst (NamesHere (c then s)) (same (rw (e, account_from) at h))
        (subst (SoundHere (c then s)) e (account_here-SoundHere (c then s))))
]
  where
    same : {m : String} → some m ≡ some n → m ≡ n
    same e = cc

Names-account_from : (s n : String) → Names s n → is_some (account_from s) ≡ true
unfolding account_from
Names-account_from end n h = absurd h
Names-account_from (c then s) n (inl h) =
    rw (NamesHere-account_here (c then s) n h, account_from, is_some) refl
Names-account_from (c then s) n (inr h) =
    elim_lem (λ (o : Option String). is_some o ≡ true) (account_here (c then s))
      (Names-account_from s n h) (λ m. refl)

-- The account that ServiceAccountMissing extracts stands in the message behind the words of the
-- admission plugin and a namespace, up to the next colon; and of a message in which an account stands
-- so, it extracts one.
pub service_account_missing-Names :
    (message : String)
    → ((n : String) → service_account_missing message ≡ some n → Names message n)
      × ((n : String) → Names message n → is_some (service_account_missing message) ≡ true)
unfolding service_account_missing
service_account_missing-Names message = (account_from-Names message, Names-account_from message)
