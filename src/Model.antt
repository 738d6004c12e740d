-- ===== src/Model.antt =====
-- internal/model/finding.go: the finding that checks and diagnosers report, and its severity.
pub mod Json
use kubectl_safe_rollout.Prelude.{
  String, Bool, true, false, List, [], ◌∷◌, ◌≡◌, ◌⊎◌, ◌==◌, if◌then◌else◌, Text, sprintf, errorf,
  str, Fallible, ok, err,
}
use kubectl_safe_rollout.Prelude.Int.{ℤ, pos, eq_ℤ}
use Prim.Native.String.{◌++◌}

-- `type Severity int`: any integer, with three declared constants.
abbrev pub Severity : Type 0
Severity = ℤ

abbrev pub severity_low : Severity
severity_low = pos 0

abbrev pub severity_medium : Severity
severity_medium = pos 1

abbrev pub severity_high : Severity
severity_high = pos 2

-- `Severity.String`
unfoldable pub severity_string : Severity → String
severity_string s =
    if eq_ℤ s severity_low
    then "low"
    else (if eq_ℤ s severity_medium
        then "medium"
        else (if eq_ℤ s severity_high then "high" else "unknown"))

-- A JSON value, as far as decoding into a Go string tells values apart: a null leaves the string
-- empty, and any other value that is no string is refused by encoding/json.
pub data JsonValue : Type 0 where
  text : String → JsonValue
  null : JsonValue
  not_a_string : JsonValue

-- json.Unmarshal(data, &str)
pub decode_string : JsonValue → Fallible String
decode_string (text s) = ok s
decode_string null = ok ""
decode_string not_a_string =
    err (errorf (sprintf "json: cannot unmarshal value into Go value of type string" []))

-- `Severity.MarshalJSON`
unfoldable pub marshal_json : Severity → JsonValue
marshal_json s = text (severity_string s)

-- The switch of `Severity.UnmarshalJSON`.
unfoldable pub severity_of_string : String → Fallible Severity
severity_of_string s =
    if s == "low"
    then ok severity_low
    else (if s == "medium"
        then ok severity_medium
        else (if s == "high"
            then ok severity_high
            else err (errorf (sprintf "unknown severity: %q" (str s ∷ [])))))

-- `Severity.UnmarshalJSON`
unfoldable pub unmarshal_json : JsonValue → Fallible Severity
unfolding decode_string severity_of_string
unmarshal_json j = elim (decode_string j) [ ok s ↦ severity_of_string s | err e ↦ err e ]

-- `ResourceRef`
pub record ResourceRef : Type 0 where
  pub kind : String
  pub namespace : String
  pub name : String

-- `ResourceRef.String`
unfoldable pub ref_string : ResourceRef → String
ref_string r = r.kind ++ ("/" ++ r.name)

-- `Remediation`
pub record Remediation : Type 0 where
  pub summary : Text
  pub commands : List Text
  pub context_dependent : Bool

-- `Finding`
pub record Finding : Type 0 where
  pub check_id : String
  pub severity : Severity
  pub cause : Text
  pub evidence : List Text
  pub remediation : Remediation
  pub resource : ResourceRef
  pub undetermined : Bool

-- One of the three declared constants.
abbrev pub IsDeclared : Severity → Type 0
IsDeclared s = (s ≡ severity_low) ⊎ (s ≡ severity_medium) ⊎ (s ≡ severity_high)
