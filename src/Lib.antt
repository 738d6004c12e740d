-- ===== src/Lib.antt =====
-- Verification of kubectl-safe-rollout, a kubectl plugin that checks a workload before a rollout and
-- diagnoses a rollout while it runs.
--
-- The program's parts, and the files that model them:
--
-- internal/model/finding.go: Model.antt and Model/. A severity is any integer (Go's int) with three
--   declared constants; Severity.String, MarshalJSON and UnmarshalJSON are severity_string,
--   marshal_json and unmarshal_json, over JSON values as far as encoding/json tells them apart when it
--   decodes a string.
-- internal/workload: Workload.antt and Workload/. The three implementations of the interface Workload
--   are the constructors of one type; its methods are functions by clauses on it, under the snake-case
--   forms of their names. Affinity, tolerations and topology are left out.
-- internal/check/check.go and internal/check/pdb.go: Check.antt, Check/Pdb.antt and Check/Pdb/.
--   PDBConsistency.Run is run_pdb_consistency, with the same findings, texts and order.
-- internal/check/pdbdaemonset.go: Check/PdbDaemonset.antt and Check/PdbDaemonset/.
--   PDBDaemonsetScale.Run is run_pdb_daemonset_scale.
-- internal/check/pdbeviction.go: Check/PdbEviction.antt and Check/PdbEviction/.
--   PDBEvictionBlocked.Run is run_pdb_eviction_blocked.
-- internal/output/output.go: Output.antt and Output/. NewReport, MaxSeverity and RenderHuman are
--   new_report, max_severity and render_human; sort.SliceStable is a stable insertion sort, and an
--   io.Writer is a function from the writer's state and a text to the next state and an error.
-- internal/check/quotaobjectcount.go and networkpolicy.go: Check/QuotaObjectCount.antt, with a child, and
--   Check/NetworkPolicies.antt.
-- internal/check/quota.go and hpa.go: Check/QuotaHeadroom.antt, with a child, and Check/HpaHeadroom.antt.
--   A quantity is its exact amount and its format; Value, MilliValue, Sub and NewMilliQuantity are the
--   library's. The products of int64 keep their wrap-around.
-- internal/check/serviceaccount.go and priorityclass.go: Check/References.antt. internal/check/probes.go
--   and limits.go: Check/Containers.antt.
-- internal/check/storageclass.go: Check/StorageClasses.antt, with a child. internal/check/pvc.go:
--   Check/Claims.antt.
-- internal/kube/resolve.go: Resolve.antt and Resolve/. ResolveWorkload is resolve_workload.
-- cmd/kubectl-safe_rollout/check.go and main.go: Command.antt and Command/. runCheck takes the
--   resolved target, or the error of its resolution, as an argument, and both renderers, since the
--   JSON encoder is the library's. runWatch of cmd/kubectl-safe_rollout/watch.go is run_watch in
--   Command/Watching.antt, given what Watch returned; Command/Verdict.antt joins it to Watch and the
--   registered diagnosers.
-- internal/diagnose/diagnose.go: Diagnose.antt and Diagnose/Results.antt. RunDiagnosis runs any list
--   of diagnosers; registeredDiagnosers is registered_diagnosers in Diagnose/Registered.antt, beside
--   the causes of cause.go, and Diagnose/Registered/ has the proofs on all of them.
-- internal/diagnose/pattern/pattern.go: Diagnose/Pattern.antt and Diagnose/Pattern/. The two regular
--   expressions are matchers on the characters of a message.
-- internal/diagnose/paused.go, progressdeadline.go and statefulsetupdate.go: Diagnose/Spec.antt and
--   Diagnose/Spec/. The methods Diagnose are functions to a Fallible Result, here and below.
-- internal/diagnose/crashloop.go, imagepull.go, configerror.go, volumemount.go, initcontainer.go,
--   readiness.go and pending.go: Crash, Pull, Config, Mount, Init, Ready and Pending under
--   Diagnose/Pods.antt; the loops are flat_map over pods and container statuses.
-- internal/diagnose/quota.go and replicasetcreate.go: Diagnose/Quota.antt, Diagnose/ReplicaSetCreate.antt
--   and the files under them.
-- internal/diagnose/watch.go: the other files under Diagnose/. Observer has the controller observers;
--   Restarts the known pods and their restart counts; Tick the evaluation of one tick, evaluateTick
--   and replaceSkippedResults; Watch the windows and handleTick, and its children the kinds of outcomes
--   (Kinds), the select loop and Watch (Session), its runs as a relation of steps (Session/Run), and
--   proofs on them.
--
-- The objects of the API and the functions of k8s.io/apimachinery are in Api.antt: the latter are the
-- fields of the record Apimachinery, a parameter, with the documented rounding of
-- GetScaledValueFromIntOrPercent as the named hypothesis ScalesUp where a theorem needs it. A client is
-- a record of the answers of the API server at one instant (Cluster.antt).
--
-- How Go is modelled: an error is a value of Error, and a function that returns a value or an error
-- returns a Fallible; a formatted text is kept as its format string and arguments; a map is an
-- association list; int32 arithmetic wraps around by `i32`; a resource.Quantity is an amount in its
-- smallest unit with its format, and the library computes with it.
--
-- The watch loop: the goroutines, timers and streams of client-go appear as a script, a list of
-- moments that each hold the clock, the cluster's answers and what one channel of the `select`
-- delivers; a channel that is nil, or a timer whose instant has not come, delivers nothing. Any order
-- of deliveries is a script, and the loop is a structural recursion on it, as Watch is on the list of
-- the sessions' openings. A tick reads the clock once; time is in nanoseconds. A Watch that is still
-- observing at the end of its script returns nothing yet.
--
-- Strings: Prelude/GoStrings.antt has the functions of Go's package strings that are called, on lists
-- of characters. ToLower is exact on ASCII and on the two characters beyond it whose lower case is ASCII,
-- which is all that a comparison with an ASCII text can tell.
--
-- Not modelled: the other checks (limit ranges, node capacity and scheduling, references
-- and routing, admission), which are left for later, and the wiring of clients, logs and command line,
-- which is input and output.
pub mod Prelude
pub mod Model
pub mod Api
pub mod Workload
pub mod Cluster
pub mod Check
pub mod Output
pub mod Command
pub mod Diagnose
pub mod Resolve
pub mod Tests
