-- ===== src/Diagnose/Pods/Crash/Priority.antt =====
-- internal/diagnose/crashloop.go: which cause CrashLoop names for a container, and which containers it
-- reports.
use kubectl_safe_rollout.Prelude.{
  String, Bool, true, false, List, [], ◌∷◌, ◌≡◌, refl, inl, inr, Option, none, some, ◌==◌,
  if◌then◌else◌, Bool-cases, any,
}
use kubectl_safe_rollout.Model.{Finding}
use kubectl_safe_rollout.Cluster.{Pod, ContainerStatus, Terminated, Event}
use kubectl_safe_rollout.Diagnose.{Target}
use kubectl_safe_rollout.Diagnose.Pods.{pod_events}
use kubectl_safe_rollout.Diagnose.Pods.Crash.{
  kills, has_liveness_killing, classify_liveness_killing, classify_termination, classify_crash,
}

-- The cause that the evidence supports: the event of the liveness probe before the last termination.
abbrev pub cause_of_termination : Option Terminated → String
cause_of_termination none = "crashloop-undetermined"
cause_of_termination (some term) =
    if term.reason == "OOMKilled"
    then "crashloop-oomkilled"
    else (if term.reason == "" then "crashloop-undetermined" else "crashloop-app-error")

abbrev pub cause_of : Bool → Option Terminated → String
cause_of killed term = if killed then "crashloop-liveness-probe" else cause_of_termination term

classify_termination-check_id :
    (t : Target) (p : Pod) (cs : ContainerStatus) (term : Option Terminated)
    → (classify_termination t p cs term).check_id ≡ cause_of_termination term
unfolding classify_termination
classify_termination-check_id t p cs none = refl
classify_termination-check_id t p cs (some term) = elim (Bool-cases (term.reason == "OOMKilled")) [
  | inl e ↦ rw e refl
  | inr e ↦ elim (Bool-cases (term.reason == "")) [
    | inl b ↦ rw (e, b) refl
    | inr b ↦ rw (e, b) refl
  ]
]

-- The finding of the loop over the events, where there is one, names the liveness probe.
abbrev NamesProbe : Bool → Option Finding → Type 0
NamesProbe killed none = killed ≡ false
NamesProbe killed (some f) = (killed ≡ true) × (f.check_id ≡ "crashloop-liveness-probe")

classify_liveness_killing-NamesProbe :
    (p : Pod) (cs : ContainerStatus) (es : List Event)
    → NamesProbe (any (kills cs) es) (classify_liveness_killing p cs es)
unfolding classify_liveness_killing
classify_liveness_killing-NamesProbe p cs [] = refl
classify_liveness_killing-NamesProbe p cs (e ∷ es) = elim (Bool-cases (kills cs e)) [
  | inl k ↦ rw k (refl, refl)
  | inr k ↦ rw k (classify_liveness_killing-NamesProbe p cs es)
]

-- The cause that CrashLoop names depends on the liveness events and the last termination alone, not on
-- the log: a liveness event comes before any termination, a termination by OOMKilled before any
-- other, and without either a recorded reason decides between an application error and an
-- undetermined cause.
pub classify_crash-cause_of :
    (t : Target) (p : Pod) (cs : ContainerStatus)
    → (classify_crash t p cs).check_id ≡ cause_of (has_liveness_killing t p cs) cs.last_terminated
unfolding classify_crash
classify_crash-cause_of t p cs =
    either (classify_liveness_killing p cs (pod_events t p)) (has_liveness_killing t p cs)
      (classify_liveness_killing-NamesProbe p cs (pod_events t p))
  where
    either :
        (o : Option Finding) (killed : Bool)
        → NamesProbe killed o
        → (elim o as (λ x. Finding) [
          | some f ↦ f
          | none ↦ classify_termination t p cs cs.last_terminated
        ]).check_id
          ≡ cause_of killed cs.last_terminated
    either none killed h = rw h (classify_termination-check_id t p cs cs.last_terminated)
    either (some f) killed h = rw h.0 h.1
