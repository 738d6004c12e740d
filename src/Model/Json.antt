-- ===== src/Model/Json.antt =====
-- internal/model/finding.go: a severity through its JSON form and back.
use kubectl_safe_rollout.Prelude.{String, ◌≡◌, ◌↔◌, inl, inr, ok, arith, eq_iff}
use kubectl_safe_rollout.Model.{
  Severity, IsDeclared, JsonValue, text, null, not_a_string, marshal_json, unmarshal_json,
  severity_of_string, severity_string,
}

severity_of_string-eq_ok :
    (t : String) (s : Severity)
    → severity_of_string t ≡ ok s
    → IsDeclared s × (text t ≡ marshal_json s)
unfolding severity_of_string marshal_json severity_string
severity_of_string-eq_ok t s h = ground (arith, eq_iff t "low", eq_iff t "medium", eq_iff t "high")

unmarshal_json-marshal_json : (s : Severity) → IsDeclared s → unmarshal_json (marshal_json s) ≡ ok s
unfolding unmarshal_json marshal_json severity_string
unmarshal_json-marshal_json s (inl e) = rw e
unmarshal_json-marshal_json s (inr (inl e)) = rw e
unmarshal_json-marshal_json s (inr (inr e)) = rw e

unmarshal_json-eq_ok :
    (j : JsonValue) (s : Severity) → unmarshal_json j ≡ ok s → IsDeclared s × (j ≡ marshal_json s)
unfolding unmarshal_json
unmarshal_json-eq_ok (text t) s h = severity_of_string-eq_ok t s h
unmarshal_json-eq_ok null s h = cc
unmarshal_json-eq_ok not_a_string s h = cc

-- Decoding yields a severity exactly from the JSON form of that severity, and only for the three
-- declared constants; every other value is refused.
pub unmarshal_json_iff :
    (j : JsonValue) (s : Severity)
    → (unmarshal_json j ≡ ok s) ↔ (IsDeclared s × (j ≡ marshal_json s))
unmarshal_json_iff j s = (unmarshal_json-eq_ok j s, λ h. rw h.1 (unmarshal_json-marshal_json s h.0))
