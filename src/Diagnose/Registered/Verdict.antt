-- ===== src/Diagnose/Registered/Verdict.antt =====
-- internal/diagnose: the results of RunDiagnosis over the registered diagnosers, and what a tick makes of
-- them.
use kubectl_safe_rollout.Prelude.{String, List, [], ◌∷◌, ◌≡◌, refl, All, Fallible, ok, err}
use kubectl_safe_rollout.Diagnose.{Target, Result, Diagnoser, add_result, run_diagnosis}
use kubectl_safe_rollout.Diagnose.Registered.{registered_diagnosers}
use kubectl_safe_rollout.Diagnose.Registered.Run.{
  IsSound, AnswersSoundly, Soundly, crash_loop-Soundly, image_pull-Soundly, config_error-Soundly,
  volume_mount-Soundly, init_container-Soundly, readiness-Soundly, pending-Soundly, quota-Soundly,
  replica_set_create-Soundly, progress_deadline-Soundly, paused-Soundly,
  stateful_set_update-Soundly,
}

-- One sound result for each diagnoser, in their order.
abbrev pub AreSound : List Diagnoser → List Result → Type 0
AreSound [] [] = Unit
AreSound (d ∷ ds) (r ∷ rs) = IsSound d.id r × AreSound ds rs
AreSound _ _ = ⊥

AnswersSoundly-ok :
    (id : String) (x : Fallible Result)
    → AnswersSoundly id x
    → (r : Result) × (x ≡ ok r) × IsSound id r
AnswersSoundly-ok id (ok r) h = (r, refl, h)
AnswersSoundly-ok id (err e) h = absurd h

run_diagnosis-AreSound :
    (t : Target) (ds : List Diagnoser)
    → All (Soundly t) ds
    → (rs : List Result) × (run_diagnosis ds t ≡ ok rs) × AreSound ds rs
unfolding run_diagnosis add_result
run_diagnosis-AreSound t [] h = ([], refl, tt)
run_diagnosis-AreSound t (d ∷ ds) h =
    let (r, e, s) = AnswersSoundly-ok d.id (d.diagnose t) h.0 in
    let (rs, e', s') = run_diagnosis-AreSound t ds h.1 in (r ∷ rs, rw (e, e') refl, (s, s'))

-- RunDiagnosis never fails. It returns one result for each registered diagnoser, under its identifier and
-- in the order of registration; a skipped result has no finding, and each finding names a declared
-- cause, is High, says that its cause is undetermined exactly if the cause is one of those, and leaves
-- its remedy to the reader.
pub run_diagnosis-registered_diagnosers :
    (t : Target)
    → (rs : List Result) × (run_diagnosis registered_diagnosers t ≡ ok rs)
      × AreSound registered_diagnosers rs
run_diagnosis-registered_diagnosers t = run_diagnosis-AreSound t registered_diagnosers (
  crash_loop-Soundly t,
  (
    image_pull-Soundly t,
    (
      config_error-Soundly t,
      (
        volume_mount-Soundly t,
        (
          init_container-Soundly t,
          (
            readiness-Soundly t,
            (
              pending-Soundly t,
              (
                quota-Soundly t,
                (
                  replica_set_create-Soundly t,
                  (
                    progress_deadline-Soundly t,
                    (paused-Soundly t, (stateful_set_update-Soundly t, tt)),
                  ),
                ),
              ),
            ),
          ),
        ),
      ),
    ),
  ),
)
