-- ===== src/Check/Containers.antt =====
-- internal/check/probes.go and limits.go: the probes and the limits of the pod template's containers.
use kubectl_safe_rollout.Prelude.{
  String, Bool, true, false, not, List, [], ◌∷◌, ◌++◌, if◌then◌else◌, Text, sprintf, str, Fallible,
  ok, flat_map, lookup, is_some,
}
use kubectl_safe_rollout.Model.{Finding, ResourceRef, severity_low}
use kubectl_safe_rollout.Api.{Container}
use kubectl_safe_rollout.Workload.{name, pod_containers, init_containers}
use kubectl_safe_rollout.Cluster.{Target}
use kubectl_safe_rollout.Check.{CheckResult, found}
use Prim.Native.String.{◌++◌ as ◌then◌}

abbrev pub probe_sanity_check_id : String
probe_sanity_check_id = "probe-sanity"

abbrev pub resource_limits_check_id : String
resource_limits_check_id = "resource-limits"

abbrev container_resource : Target → Container → ResourceRef
container_resource t c = record {
  kind = "Pod";
  namespace = t.namespace;
  name = name t.workload then ("/" then c.name);
}

-- A `model.Finding` of severity Low on a container.
abbrev low_finding : String → Target → Container → Text → Text → Finding
low_finding id t c cause summary = record {
  check_id = id;
  severity = severity_low;
  cause = cause;
  evidence = sprintf "container=%s" (str c.name ∷ []) ∷ [];
  remediation = record { summary = summary; commands = []; context_dependent = true };
  resource = container_resource t c;
  undetermined = false;
}

-- The body of the loop of `ProbeSanity.Run`.
unfoldable pub probe_findings : Target → Container → List Finding
probe_findings t c =
    (if not c.has_readiness_probe
      then low_finding probe_sanity_check_id t c
          (sprintf
            "container %q in the pod template of workload %q does not define a readinessProbe"
            (str c.name ∷ str (name t.workload) ∷ []))
          (sprintf
            "add a readinessProbe to container %q using a check that represents when the application can receive traffic"
            (str c.name ∷ []))
        ∷ []
      else [])
    ++ (if not c.has_liveness_probe
        then low_finding probe_sanity_check_id t c
            (sprintf
              "container %q in the pod template of workload %q does not define a livenessProbe"
              (str c.name ∷ str (name t.workload) ∷ []))
            (sprintf
              "add a livenessProbe to container %q using a check that detects when the application must be restarted"
              (str c.name ∷ []))
          ∷ []
        else [])

-- `ProbeSanity.Run`
unfoldable pub run_probe_sanity : Target → Fallible CheckResult
run_probe_sanity t =
    ok (found probe_sanity_check_id (flat_map (probe_findings t) (pod_containers t.workload)))

abbrev pub has_limit : String → Container → Bool
has_limit res c = is_some (lookup res c.limits)

-- `containerFindings`
unfoldable pub container_findings : Target → String → Container → List Finding
container_findings t kind c =
    (if not (has_limit "cpu" c)
      then low_finding resource_limits_check_id t c
          (sprintf "%s %q in the pod template of workload %q does not define a CPU limit"
            (str kind ∷ str c.name ∷ str (name t.workload) ∷ []))
          (sprintf
            "add a CPU limit to %s %q to make throttling predictable and isolate its consumption from other workloads on the node; the value depends on the application's profile"
            (str kind ∷ str c.name ∷ []))
        ∷ []
      else [])
    ++ (if not (has_limit "memory" c)
        then low_finding resource_limits_check_id t c
            (sprintf "%s %q in the pod template of workload %q does not define a memory limit"
              (str kind ∷ str c.name ∷ str (name t.workload) ∷ []))
            (sprintf
              "add a memory limit to %s %q to contain consumption and prevent node-level OOMKills; the value depends on the application's profile"
              (str kind ∷ str c.name ∷ []))
          ∷ []
        else [])

-- `ResourceLimits.Run`
unfoldable pub run_resource_limits : Target → Fallible CheckResult
run_resource_limits t = ok (
    found resource_limits_check_id (
      flat_map (container_findings t "container") (pod_containers t.workload)
      ++ flat_map (container_findings t "init container") (init_containers t.workload)))
