-- ===== src/Check.antt =====
-- internal/check/check.go: what a pre-flight check returns.
pub mod Pdb
pub mod PdbDaemonset
pub mod PdbEviction
pub mod References
pub mod Containers
pub mod QuotaObjectCount
pub mod QuotaHeadroom
pub mod HpaHeadroom
pub mod Claims
pub mod StorageClasses
pub mod NetworkPolicies
use kubectl_safe_rollout.Prelude.{String, Bool, true, false, List, [], Text, Fallible, plain}
use kubectl_safe_rollout.Model.{Finding}

-- `Result`
pub record CheckResult : Type 0 where
  pub check_id : String
  pub findings : List Finding
  pub skipped : Bool
  pub skip_reason : Text

-- The interface `Check`, over the target that a check reads.
pub record Check (T : Type 0) : Type 0 where
  pub id : String
  pub run : T → Fallible CheckResult

-- `Skip`
unfoldable pub skip : String → Text → CheckResult
skip id reason = record { check_id = id; findings = []; skipped = true; skip_reason = reason }

-- `Result{CheckID: id, Findings: findings}`
abbrev pub found : String → List Finding → CheckResult
found id fs = record { check_id = id; findings = fs; skipped = false; skip_reason = plain "" }
