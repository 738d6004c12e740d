-- ===== src/Resolve/Names.antt =====
-- internal/kube/resolve.go: which references are accepted.
use kubectl_safe_rollout.Prelude.{
  String, true, false, List, [], ◌∷◌, ◌≡◌, ◌≢◌, refl, sym, ap, ◌∙◌, ◌↔◌, arith, eq_iff, Option,
  none, some, ◌==◌, ◌||◌, if◌then◌else◌, nat_eq, Bool-cases, inl, inr, ok,
}
use Prim.Native.Char.{Char, code}
use Prim.Native.String.{[] as end, ◌∷◌ as ◌then◌, ◌++◌}
use Prim.Native.String.append.{nil as append-nil_left, cons as append-cons}
use text.Mathlib.TextEquality.{codes_equal}
use kubectl_safe_rollout.Diagnose.Pattern.Objects.{Lacks}
use kubectl_safe_rollout.Resolve.{in_front, split, two_parts, accept, split_ref}

split-Lacks : (s : String) → Lacks b'/' s → split b'/' s ≡ s ∷ []
unfolding split
split-Lacks end h = refl
split-Lacks (c then s) h = rw (h.0, split-Lacks s h.1) refl

split-append :
    (a b : String) → Lacks b'/' a → Lacks b'/' b → split b'/' (a ++ ("/" then b)) ≡ a ∷ b ∷ []
unfolding split
split-append end b h k = rw (append-nil_left ("/" then b), split-Lacks b k) refl
split-append (c then a) b h k = rw (append-cons c a ("/" then b), h.0, split-append a b h.1 k) refl

-- A kind and a name, both there and without a slash.
abbrev pub IsRef : String → String → String → Type 0
IsRef ref k n = (ref ≡ k ++ ("/" then n)) × Lacks b'/' k × Lacks b'/' n × (k ≢ "") × (n ≢ "")

-- The first part and the others, joined by slashes, are the text, and no part has a slash.
abbrev JoinsFrom : String → String → List String → Type 0
JoinsFrom s p [] = (s ≡ p) × Lacks b'/' p
JoinsFrom s p (q ∷ ps) =
    (rest : String) × (s ≡ p ++ ("/" then rest)) × Lacks b'/' p × JoinsFrom rest q ps

abbrev Joins : String → List String → Type 0
Joins s [] = ⊥
Joins s (p ∷ ps) = JoinsFrom s p ps

Joins-in_front :
    (c : Char) (s : String) (ps : List String)
    → nat_eq (code c) b'/' ≡ false
    → Joins s ps
    → Joins (c then s) (in_front c ps)
Joins-in_front c s [] e h = absurd h
Joins-in_front c s (p ∷ []) e h = (ap (λ t. c then t) h.0, (e, h.1))
Joins-in_front c s (p ∷ q ∷ ps) e (rest, j, l, more) =
    (rest, ap (λ t. c then t) j ∙ sym (append-cons c p ("/" then rest)), (e, l), more)

Joins-slash :
    (c : Char) (s : String) (ps : List String)
    → nat_eq (code c) b'/' ≡ true
    → Joins s ps
    → Joins (c then s) ("" ∷ ps)
Joins-slash c s [] e h = absurd h
Joins-slash c s (p ∷ ps) e h = (
  s,
  ap (λ k. k then s) (codes_equal c "/" (ground (arith, e))) ∙ sym (append-nil_left ("/" then s)),
  tt,
  h,
)

split-Joins : (s : String) → Joins s (split b'/' s)
unfolding split
split-Joins end = (refl, tt)
split-Joins (c then s) = elim (Bool-cases (nat_eq (code c) b'/')) [
  | inl e ↦ rw e (Joins-slash c s (split b'/' s) e (split-Joins s))
  | inr e ↦ rw e (Joins-in_front c s (split b'/' s) e (split-Joins s))
]

two_parts-IsRef :
    (ref : String) (ps : List String) (k n : String)
    → Joins ref ps
    → two_parts ps ≡ some (k, n)
    → IsRef ref k n
unfolding two_parts
two_parts-IsRef ref [] k n j h = cc
two_parts-IsRef ref (a ∷ []) k n j h = cc
two_parts-IsRef ref (a ∷ b ∷ c ∷ ps) k n j h = cc
two_parts-IsRef ref (a ∷ b ∷ []) k n (rest, j, l, m) h = elim (Bool-cases (a == "" || b == "")) [
  | inl e ↦ absurd (no (rw e at h))
  | inr e ↦
      let (x, y) = parts (rw e at h) in
      rw (sym x, sym y)
        (
          j ∙ ap (λ t. a ++ ("/" then t)) m.0,
          l,
          m.1,
          λ z. ground (arith, eq_iff a "", e, z),
          λ z. ground (arith, eq_iff b "", e, z),
        )
]
  where
    no : ◌≡◌ {A = Option (String × String)} none (some (k, n)) → ⊥
    no e = cc

    parts : ◌≡◌ {A = Option (String × String)} (some (a, b)) (some (k, n)) → (a ≡ k) × (b ≡ n)
    parts e = (cc, cc)

accept-eq_ok :
    (ref k n : String) (o : Option (String × String)) → accept ref o ≡ ok (k, n) → o ≡ some (k, n)
unfolding accept
accept-eq_ok ref k n none h = cc
accept-eq_ok ref k n (some (a, b)) h = cc

two_parts-some : (a b : String) → a ≢ "" → b ≢ "" → two_parts (a ∷ b ∷ []) ≡ some (a, b)
unfolding two_parts
two_parts-some a b x y = ground (arith, eq_iff a "", eq_iff b "")

-- A reference is accepted exactly if it is a kind and a name with one slash between them, both of them
-- there and neither with a slash.
pub split_ref-IsRef : (ref k n : String) → (split_ref ref ≡ ok (k, n)) ↔ IsRef ref k n
unfolding split_ref
split_ref-IsRef ref k n = (
  λ h.
      two_parts-IsRef ref (split b'/' ref) k n (split-Joins ref)
        (accept-eq_ok ref k n (two_parts (split b'/' ref)) h),
  λ h. ap (accept ref) (
      ap (λ r. two_parts (split b'/' r)) h.0
      ∙ (ap two_parts (split-append k n h.1 h.2) ∙ two_parts-some k n h.3 h.4)),
)
