-- ===== src/Command/Verdict.antt =====
-- cmd/kubectl-safe_rollout/watch.go and internal/diagnose: the verdict of the command `watch`, from what
-- the channels deliver to the error that sets the exit code.
use kubectl_safe_rollout.Prelude.{
  String, not, List, [], ◌∷◌, ◌≡◌, refl, sym, ap, ◌∙◌, inl, inr, none, some, if◌then◌else◌, any,
  All, All-append, flat_map, is_empty, ok,
}
use mathlib.Core.Path.{subst}
use kubectl_safe_rollout.Prelude.Int.{ℤ}
use kubectl_safe_rollout.Model.{Finding}
use kubectl_safe_rollout.Output.{Report}
use kubectl_safe_rollout.Workload.{Workload, name}
use kubectl_safe_rollout.Cluster.{Cluster}
use kubectl_safe_rollout.Diagnose.{
  Target, Result, Diagnoser, any_findings, all_findings, run_diagnosis, skip_result,
}
use kubectl_safe_rollout.Diagnose.Results.{all_findings_lem, any_findings-all_findings}
use kubectl_safe_rollout.Diagnose.Observer.{Observer, get}
use kubectl_safe_rollout.Diagnose.Restarts.{Pods}
use kubectl_safe_rollout.Diagnose.Tick.{WatchTarget, Outcome, Tick, tick_target, evaluate_tick}
use kubectl_safe_rollout.Diagnose.Tick.Priority.{evaluate_tick-IsConsistent, evaluate_tick_succeeds}
use kubectl_safe_rollout.Diagnose.Tick.Kept.{evaluate_tick-All}
use kubectl_safe_rollout.Diagnose.Watch.Session.{Opening, Moment, watch}
use kubectl_safe_rollout.Diagnose.Watch.Session.Origin.{Origin, watch-Origin}
use kubectl_safe_rollout.Diagnose.Registered.{registered_diagnosers, IsDiagnosis}
use kubectl_safe_rollout.Diagnose.Registered.Findings.{AreDiagnoses}
use kubectl_safe_rollout.Diagnose.Registered.Verdict.{AreSound, run_diagnosis-registered_diagnosers}
use kubectl_safe_rollout.Command.{Renderer, err_high_severity, validate_output_format}
use kubectl_safe_rollout.Command.Gate.{is_high, IsAllDeclared}
use kubectl_safe_rollout.Command.Watching.{run_watch, run_watch-gate, group_findings-watch_groups}

abbrev pub Diagnosed : Result → Type 0
Diagnosed r = AreDiagnoses r.findings

AreSound-Diagnosed : (ds : List Diagnoser) (rs : List Result) → AreSound ds rs → All Diagnosed rs
AreSound-Diagnosed [] [] h = tt
AreSound-Diagnosed [] (r ∷ rs) h = absurd h
AreSound-Diagnosed (d ∷ ds) [] h = absurd h
AreSound-Diagnosed (d ∷ ds) (r ∷ rs) h = (h.0.1, AreSound-Diagnosed ds rs h.1)

ran-Diagnosed :
    (t : Target) (rs : List Result)
    → run_diagnosis registered_diagnosers t ≡ ok rs
    → All Diagnosed rs
ran-Diagnosed t rs h =
    let (rs', e, s) = run_diagnosis-registered_diagnosers t in
    subst (All Diagnosed) (same (sym e ∙ h)) (AreSound-Diagnosed registered_diagnosers rs' s)
  where
    same : {a b : List Result} → (ok a) ≡ (ok b) → a ≡ b
    same h = cc

IsDiagnosis-IsDeclared : (fs : List Finding) → AreDiagnoses fs → IsAllDeclared fs
IsDiagnosis-IsDeclared [] h = tt
IsDiagnosis-IsDeclared (f ∷ fs) h = (inr (inr h.0.0), IsDiagnosis-IsDeclared fs h.1)

-- Every diagnosed finding is High, so there is a High finding where there is one.
any-AreDiagnoses : (fs : List Finding) → AreDiagnoses fs → any is_high fs ≡ not (is_empty fs)
any-AreDiagnoses [] h = refl
any-AreDiagnoses (f ∷ fs) h = rw h.0.0 refl

abbrev flattened : List Result → List Finding
flattened = flat_map (λ (r : Result). r.findings)

Diagnosed-AreDiagnoses : (rs : List Result) → All Diagnosed rs → AreDiagnoses (flattened rs)
Diagnosed-AreDiagnoses [] h = tt
Diagnosed-AreDiagnoses (r ∷ rs) h =
    All-append IsDiagnosis r.findings (flattened rs) h.0 (Diagnosed-AreDiagnoses rs h.1)

Diagnosed-IsAllDeclared : (rs : List Result) → All Diagnosed rs → IsAllDeclared (all_findings rs)
Diagnosed-IsAllDeclared rs h =
    rw (all_findings_lem rs) (IsDiagnosis-IsDeclared (flattened rs) (Diagnosed-AreDiagnoses rs h))

any-Diagnosed :
    (rs : List Result) → All Diagnosed rs → any is_high (all_findings rs) ≡ any_findings rs
any-Diagnosed rs h = rw (all_findings_lem rs) (
    any-AreDiagnoses (flattened rs) (Diagnosed-AreDiagnoses rs h)
    ∙ (ap (λ fs. not (is_empty fs)) (sym (all_findings_lem rs))
        ∙ sym (any_findings-all_findings rs)))

module _ (wt : WatchTarget) (registered : wt.diagnosers ≡ registered_diagnosers) where
  evaluate_tick-Diagnosed :
      (o : Observer) (c : Cluster) (pods : Pods) (t : Tick)
      → evaluate_tick wt o c pods ≡ ok t
      → All Diagnosed t.outcome.results
  unfolding skip_result
  evaluate_tick-Diagnosed o c pods t h =
      evaluate_tick-All Diagnosed wt o c pods t (λ i u. tt)
        (λ wl rs ran.
          ran-Diagnosed (tick_target wt o c pods wl) rs
            (subst (λ ds. run_diagnosis ds (tick_target wt o c pods wl) ≡ ok rs) registered ran))
        h

  -- With the registered diagnosers, an evaluation fails only where the workload cannot be read, with
  -- whatever the other reads of the cluster answer.
  pub evaluate_tick-registered_diagnosers :
      (o : Observer) (c : Cluster) (pods : Pods) (wl : Workload) (rv : String)
      → get o c wt.namespace (name wt.workload) ≡ ok (wl, rv)
      → (t : Tick) × (evaluate_tick wt o c pods ≡ ok t) × All Diagnosed t.outcome.results
  evaluate_tick-registered_diagnosers o c pods wl rv read =
      let (rs, e, s) = run_diagnosis-registered_diagnosers (tick_target wt o c pods wl) in
      let ran =
        subst (λ ds. run_diagnosis ds (tick_target wt o c pods wl) ≡ ok rs) (sym registered) e in
      let done = evaluate_tick_succeeds wt o c pods wl rs (rv, read, ran) in
      (_, done, evaluate_tick-Diagnosed o c pods _ done)

  -- The command `watch`, with the registered diagnosers, a valid format and a writer that takes the
  -- report, on an outcome that Watch returned over any script of deliveries: it returns no error if the
  -- rollout succeeded, and the High-severity sentinel if it did not.
  pub run_watch-watch :
      {W : Type 0} (human json : Renderer W) (timeout : ℤ) (w : W) (f : String) (ops : List Opening)
      (ms : List Moment) (out : Outcome)
      → validate_output_format f ≡ none
      → ((r : Report) → (human w r).1 ≡ none)
      → ((r : Report) → (json w r).1 ≡ none)
      → watch wt ops ms ≡ some (ok out)
      → (run_watch human json timeout (ok (ok out)) w f).1
        ≡ (if out.succeeded then none else some err_high_severity)
  unfolding any_findings
  run_watch-watch human json timeout w f ops ms out valid hw jw h =
      let (d, v) = verdict_of out (watch-Origin wt ops ms out h) in
      run_watch-gate human json timeout out w f valid hw jw (
        subst IsAllDeclared (sym (group_findings-watch_groups out.results))
          (Diagnosed-IsAllDeclared out.results d))
      ∙ (ap (λ b. if b then some err_high_severity else none) (any-Diagnosed out.results d) ∙ v)
    where
      verdict_of :
          (x : Outcome)
          → Origin wt ops ms x
          → All Diagnosed x.results
            × ((if any_findings x.results then some err_high_severity else none)
                ≡ (if x.succeeded then none else some err_high_severity))
      verdict_of x (o, selector, runs, inl (e, fires)) = rw e (tt, refl)
      verdict_of x (o, selector, runs, inr (c, now, s, pods, t, tick, ev, fl, e)) =
          let (wl, rs, reads, (found, complete, failed)) =
            evaluate_tick-IsConsistent wt o c pods t ev in
          rw (e, sym found, fl, failed) (evaluate_tick-Diagnosed o c pods t ev, refl)
