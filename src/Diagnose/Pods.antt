-- ===== src/Diagnose/Pods.antt =====
-- internal/diagnose: what the diagnosers of pods share. Their loops over pods and container statuses
-- are flat_map, where a `continue` gives the empty list.
pub mod Crash
pub mod Pull
pub mod Config
pub mod Mount
pub mod Init
pub mod Ready
pub mod Pending
use kubectl_safe_rollout.Prelude.{
  String, Bool, true, false, List, [], ◌∷◌, ◌++◌, Option, none, some, ◌==◌, if◌then◌else◌, Text,
  sprintf, str, Fallible, ok, err, trim_line_ends,
}
use kubectl_safe_rollout.Prelude.Int.{pos}
use kubectl_safe_rollout.Model.{Finding, Remediation, ResourceRef, severity_high}
use kubectl_safe_rollout.Cluster.{Pod, ContainerStatus, Waiting, Event}
use kubectl_safe_rollout.Diagnose.{Target, LogTailer, events_of}

-- `model.ResourceRef{Kind: "Pod", ...}`
abbrev pub pod_resource : Pod → ResourceRef
pod_resource p = record { kind = "Pod"; namespace = p.namespace; name = p.name }

-- `target.EventsByUID[pod.UID]`
abbrev pub pod_events : Target → Pod → List Event
pod_events t p = events_of p.uid t.events_by_uid

-- `model.Remediation{Summary: s, Commands: c, ContextDependent: true}`
abbrev pub advice : Text → List Text → Remediation
advice s c = record { summary = s; commands = c; context_dependent = true }

-- A `model.Finding` of severity High, with its fields in the order of the source.
abbrev pub high_finding : String → Text → List Text → Remediation → ResourceRef → Bool → Finding
high_finding id cause evidence remediation resource undetermined = record {
  check_id = id;
  severity = severity_high;
  cause = cause;
  evidence = evidence;
  remediation = remediation;
  resource = resource;
  undetermined = undetermined;
}

-- `cs.State.Waiting != nil && cs.State.Waiting.Reason == reason`
abbrev pub is_waiting_for : String → Option Waiting → Bool
is_waiting_for reason none = false
is_waiting_for reason (some w) = w.reason == reason

-- `fmt.Sprintf("event: %s", e.Message)`
abbrev pub event_line : Event → Text
event_line e = sprintf "event: %s" (str e.message ∷ [])

-- The line that a log gives, where it could be read and is not blank.
abbrev pub tail_line : Fallible String → List Text
tail_line (err e) = []
tail_line (ok tail) =
    let trimmed : String = trim_line_ends tail in
    if trimmed == "" then [] else sprintf "log --previous (last lines): %s" (str trimmed ∷ []) ∷ []

-- What the log tailer of the target adds to the evidence.
abbrev pub log_evidence : Option LogTailer → Pod → ContainerStatus → List Text
log_evidence none p cs = []
log_evidence (some tailer) p cs = tail_line (tailer p.namespace p.name cs.name (pos 3))
