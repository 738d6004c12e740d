-- ===== src/Diagnose/Pattern.antt =====
-- internal/diagnose/pattern/pattern.go: what the messages of events and container states say. The two
-- regular expressions are matchers on the characters of the message, from its start to its end.
pub mod Objects
use kubectl_safe_rollout.Prelude.{
  ℕ, ◌+◌, String, Bool, true, false, not, List, [], ◌∷◌, ◌≡◌, refl, Option, none, some, ◌==◌, ◌&&◌,
  ◌||◌, if◌then◌else◌, nat_eq, leb, any, contains, to_lower, cut, cut_prefix,
}
use Prim.Native.Char.{Char, code}
use Prim.Native.String.{◌∷◌ as ◌then◌, [] as end}

-- `containsAny`
abbrev pub contains_any : String → List String → Bool
contains_any s subs = any (λ sub. contains s sub) subs

-- The text without a first character, if it has the code.
abbrev cut_char : ℕ → String → Option String
cut_char d end = none
cut_char d (c then s) = if nat_eq (code c) d then some s else none

-- A group that one character or more must match.
abbrev one_or_more : Option (String × String) → Option (String × String)
one_or_more none = none
one_or_more (some (end, rest)) = none
one_or_more (some (c then a, rest)) = some (c then a, rest)

abbrev and_then {ℓ κ} : {A : Type ℓ} {B : Type κ} → Option A → (A → Option B) → Option B
and_then none f = none
and_then (some a) f = f a

-- `\s`
is_space : Char → Bool
is_space c =
    nat_eq (code c) b' '
    || nat_eq (code c) 9
    || nat_eq (code c) 10
    || nat_eq (code c) 12
    || nat_eq (code c) 13

-- What `\b` takes for a letter of a word.
is_word : Char → Bool
is_word c =
    (leb b'a' (code c) && leb (code c) b'z')
    || (leb b'A' (code c) && leb (code c) b'Z')
    || (leb b'0' (code c) && leb (code c) b'9')
    || nat_eq (code c) b'_'

starts_word : String → Bool
unfolding is_word
starts_word end = false
starts_word (c then s) = is_word c

-- The text without its spaces in front.
trim_spaces : String → String
unfolding is_space
trim_spaces end = end
trim_spaces (c then s) = let rest = trim_spaces s in if is_space c then rest else c then s

-- `\s+`
spaces : String → Option String
unfolding is_space trim_spaces
spaces end = none
spaces (c then s) = if is_space c then some (trim_spaces s) else none

-- Under (?i): the same letter in either case, where U+017F also stands for an s.
folds : Char → Char → Bool
folds p c =
    nat_eq (code c) (code p)
    || nat_eq (code c + 32) (code p) && leb b'a' (code p)
    || nat_eq (code c) 383 && nat_eq (code p) b's'

-- The word and the text behind it, if the text starts with the word in any case; the pattern is in
-- lower case.
word : String → String → Option (String × String)
unfolding folds
word end s = some (end, s)
word (p then ps) end = none
word (p then ps) (c then s) =
    if folds p c then and_then (word ps s) (λ m. some (c then m.0, m.1)) else none

first_of : {A : Type 0} → Option A → Option A → Option A
first_of none b = b
first_of (some a) b = some a

-- The kind and the name, where the regular expression of a missing object matches at the start of the
-- text, but for the boundary in front of it.
missing_here : String → Option (String × String)
unfolding word first_of spaces starts_word
missing_here s = and_then (first_of (word "configmap" s) (word "secret" s)) (λ kind.
    and_then (and_then (spaces kind.1) (cut_char b'"')) (λ quoted.
      and_then (one_or_more (cut b'"' quoted)) (λ name.
        and_then (and_then (spaces name.1) (word "not found"))
          (λ found. if starts_word found.1 then none else some (kind.0, name.0)))))

-- `missingConfigObjectPattern.FindStringSubmatch`, behind a character that is one of a word or not.
missing_from : Bool → String → Option (String × String)
unfolding missing_here is_word
missing_from behind end = none
missing_from behind (c then s) =
    elim (if (is_word c && behind) || (not (is_word c) && not behind)
      then none
      else missing_here (c then s)) [ none ↦ missing_from (is_word c) s | some m ↦ some m ]

-- `MissingConfigObject`: the kind, in lower case, and the name.
unfoldable pub missing_config_object : String → Option (String × String)
unfolding missing_from
missing_config_object message =
    and_then (missing_from false message) (λ m. some (to_lower m.0, m.1))

-- `ImagePullFailure`
unfoldable pub image_pull_failure : String → Option String
image_pull_failure message =
    let m : String = to_lower message in
    if contains_any m (": not found" ∷ "manifest unknown" ∷ "manifest for" ∷ "name unknown" ∷ [])
    then some "tag-not-found"
    else (if contains_any m (
          "unauthorized" ∷ "pull access denied" ∷ "insufficient_scope" ∷ "authentication required"
          ∷ "does not exist or may require" ∷ "401" ∷ "403" ∷ [])
        then some "unauthorized"
        else (if contains_any m (
              "no such host" ∷ "i/o timeout" ∷ "connection refused" ∷ "context deadline exceeded"
              ∷ "tls handshake timeout" ∷ "network is unreachable" ∷ "no route to host" ∷ [])
            then some "registry-unreachable"
            else none))

-- `LivenessKilling`
unfoldable pub liveness_killing : String → String → String → Bool
liveness_killing reason message container =
    if not (reason == "Killing")
    then false
    else (if not (contains (to_lower message) "liveness probe")
        then false
        else (container == "" || contains message container))

-- `ReadinessFailure`
unfoldable pub readiness_failure : String → String → Bool
readiness_failure reason message =
    reason == "Unhealthy" && contains (to_lower message) "readiness probe failed"

-- `FailedScheduling`
unfoldable pub failed_scheduling : String → Option String
failed_scheduling message =
    let m : String = to_lower message in
    if contains_any m (
      "unbound immediate persistentvolumeclaims" ∷ "unbound persistentvolumeclaims"
      ∷ "persistentvolumeclaim not found" ∷ "waiting for first consumer" ∷ [])
    then some "unbound-pvc"
    else (if contains_any m (
          "insufficient cpu" ∷ "insufficient memory" ∷ "insufficient ephemeral-storage"
          ∷ "insufficient pods" ∷ [])
        then some "insufficient-resources"
        else (if contains_any m (
              "didn't match pod's node affinity" ∷ "didn't match pod's node selector"
              ∷ "node(s) had taint" ∷ "didn't tolerate" ∷ "node(s) didn't match node selector"
              ∷ "node(s) had untolerated taint" ∷ [])
            then some "scheduling-constraints"
            else none))

-- `QuotaExceeded`
unfoldable pub quota_exceeded : String → Bool
quota_exceeded message = contains (to_lower message) "exceeded quota"

-- The name, where the regular expression `serviceAccountMissing` matches at the start of the text.
account_here : String → Option String
account_here s = and_then (cut_prefix s "error looking up service account ") (λ account.
    and_then (one_or_more (cut b'/' account))
      (λ namespace. and_then (one_or_more (cut b':' namespace.1)) (λ name. some name.0)))

-- `serviceAccountMissing.FindStringSubmatch`
account_from : String → Option String
unfolding account_here
account_from end = none
account_from (c then s) = elim (account_here (c then s)) [
  | none ↦ account_from s
  | some name ↦ some name
]

-- `ServiceAccountMissing`
unfoldable pub service_account_missing : String → Option String
unfolding account_from
service_account_missing message = account_from message
