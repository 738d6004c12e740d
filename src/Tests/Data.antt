-- ===== src/Tests/Data.antt =====
-- Concrete objects of the API, a cluster, and a library that scales percentages.
use kubectl_safe_rollout.Prelude.{
  ℕ, ◌+◌, ◌*◌, String, Bool, true, false, List, [], ◌∷◌, refl, Option, none, some, ◌==◌,
  if◌then◌else◌, plain, errorf, Fallible, ok, err, ApiError, api,
}
use Prim.Native.Nat.{◌/◌}
use kubectl_safe_rollout.Prelude.Int.{ℤ, pos, negsuc, ◌+ℤ◌, ◌-ℤ◌}
use kubectl_safe_rollout.Model.{Finding, severity_high, severity_low}
use kubectl_safe_rollout.Api.{
  IntOrString, int_value, str_value, Selector, Apimachinery, Container, PodTemplate, ObjectMeta,
  Deployment, PodDisruptionBudget, ResourceList, ResourceQuota, NetworkPolicy,
}
use kubectl_safe_rollout.Workload.{Workload, from_deployment}
use kubectl_safe_rollout.Cluster.{Cluster, ContainerStatus, Event, Pod, Target as CheckTarget}
use kubectl_safe_rollout.Diagnose.{Diagnoser, found}
use kubectl_safe_rollout.Check.Pdb.Allowed.{ScalesUp}

abbrev pub percent_of : String → Option ℕ
percent_of s = if s == "50%" then some 50 else none

abbrev percent_scaled : Option ℕ → ℕ → Fallible ℤ
percent_scaled none total = err (errorf (plain "invalid value for IntOrString"))
percent_scaled (some p) total = ok (pos ((p * total + 99) / 100))

abbrev scale : IntOrString → ℤ → Bool → Fallible ℤ
scale (int_value n) total up = ok n
scale (str_value s) (pos total) up = percent_scaled (percent_of s) total
scale (str_value s) (negsuc total) up = err (errorf (plain "negative total"))

abbrev pub everything : Selector
everything = record { matches = λ labels. true; to_string = "" }

abbrev print_int_or_string : IntOrString → String
print_int_or_string (int_value n) = "1"
print_int_or_string (str_value s) = s

abbrev pub library : Apimachinery
library = record {
  as_selector = λ s. ok everything;
  scaled_value = scale;
  int_or_string = print_int_or_string;
  quantity_string = λ q. "4";
  value = λ q. q.amount;
  milli_value = λ q. q.amount;
  sub = λ a b. record { amount = a.amount -ℤ b.amount; format = a.format };
  new_milli_quantity = λ n f. record { amount = n; format = f };
  add = λ a b. record { amount = a.amount +ℤ b.amount; format = a.format };
}

pub library-ScalesUp : ScalesUp library percent_of
library-ScalesUp = record {
  scales_int = λ n total. refl;
  scales_percent = λ s p total h. rw h refl;
}

abbrev meta_of : String → ObjectMeta
meta_of n = record {
  name = n;
  namespace = "shop";
  uid = n;
  generation = pos 3;
  resource_version = "7";
}

abbrev request : ℕ → Container
request n = record {
  name = "web";
  requests = ("cpu", record { amount = pos n; format = "DecimalSI" }) ∷ [];
  limits = [];
  has_readiness_probe = true;
  has_liveness_probe = false;
}

abbrev template : PodTemplate
template = record {
  labels = ("app", "web") ∷ [];
  containers = request 100 ∷ request 250 ∷ [];
  init_containers = [];
  image_pull_secrets = [];
  service_account_name = "";
  priority_class_name = "";
  node_selector = [];
  scheduler_name = "";
  volumes = [];
}

-- A Deployment of four replicas that is rolled out.
abbrev pub web_deployment : Deployment
web_deployment = record {
  meta = meta_of "web";
  spec = record {
    replicas = some (pos 4);
    selector = none;
    template = template;
    strategy_type = "";
    rolling_update = none;
    paused = false;
  };
  status = record {
    observed_generation = pos 3;
    replicas = pos 4;
    updated_replicas = pos 4;
    available_replicas = pos 4;
    conditions = [];
  };
}

-- The same Deployment, when its controller has given up on it.
abbrev pub late_deployment : Deployment
late_deployment = record web_deployment {
  status = record web_deployment.status {
    conditions =
        record {
          type = "Progressing";
          status = "False";
          reason = "ProgressDeadlineExceeded";
          message = "timed out";
        }
        ∷ [];
  };
}

-- The Deployment with a surge of one pod.
abbrev pub surging : Workload
surging = from_deployment (record web_deployment {
  spec = record web_deployment.spec {
    rolling_update = some (record { max_surge = some (int_value (pos 1)); max_unavailable = none });
  };
})

abbrev pub web : Workload
web = from_deployment web_deployment

abbrev not_found : ApiError
not_found = record {
  message = "not found";
  is_not_found = true;
  is_resource_expired = false;
  is_gone = false;
}

-- A PodDisruptionBudget that leaves no headroom to four replicas.
abbrev pub strict_pdb : PodDisruptionBudget
strict_pdb = record {
  meta = meta_of "strict";
  selector = none;
  min_available = some (int_value (pos 4));
  max_unavailable = none;
  conditions = [];
  observed_generation = pos 3;
  disruptions_allowed = pos 0;
  current_healthy = pos 3;
  desired_healthy = pos 4;
  expected_pods = pos 4;
  disrupted_pods = [];
}

abbrev entries : ℕ → ℕ → ℕ → ResourceList
entries replica_sets pods cpu =
    ("count/replicasets.apps", record { amount = pos replica_sets; format = "DecimalSI" })
    ∷ ("pods", record { amount = pos pods; format = "DecimalSI" })
    ∷ ("requests.cpu", record { amount = pos cpu; format = "DecimalSI" })
    ∷ []

-- A quota that has no ReplicaSet left, room for one more pod, and too little for what it requests, and
-- a policy that allows no traffic.
abbrev pub full_quota : ResourceQuota
full_quota = record {
  meta = meta_of "quota";
  scopes = [];
  scope_selector = none;
  hard = entries 4 5 1000;
  used = entries 4 4 800;
}

abbrev pub deny_all : NetworkPolicy
deny_all = record {
  meta = meta_of "deny-all";
  pod_selector = record { match_labels = []; match_expressions = [] };
  policy_types = [];
  ingress_rules = 0;
}

abbrev pub pulled : Event
pulled = record {
  involved_uid = "pod-1";
  type = "Normal";
  reason = "Pulled";
  message = "pulled";
  count = pos 1;
}

abbrev pub cluster : Cluster
cluster = record {
  get_deployment = λ ns n. ok web_deployment;
  get_stateful_set = λ ns n. err (api not_found);
  get_daemon_set = λ ns n. err (api not_found);
  list_pod_disruption_budgets = λ ns. ok (strict_pdb ∷ []);
  list_replica_sets = λ ns s. ok [];
  list_events = λ ns. err (api not_found);
  list_pods = λ ns s. ok [];
  get_claim_phase = λ ns n. err (api not_found);
  get_service_account = λ ns n. err (api not_found);
  get_priority_class = λ n. err (api not_found);
  get_storage_class = λ n. err (api not_found);
  list_resource_quotas = λ ns. ok (full_quota ∷ []);
  list_horizontal_pod_autoscalers = λ ns. ok [];
  list_network_policies = λ ns. ok (deny_all ∷ []);
}

abbrev pub check_target : CheckTarget
check_target = record { namespace = "shop"; workload = web; client = cluster }

abbrev pub low : Finding
low = record {
  check_id = "probes";
  severity = severity_low;
  cause = plain "no liveness probe";
  evidence = plain "container=web" ∷ [];
  remediation = record {
    summary = plain "add one";
    commands = plain "kubectl edit" ∷ [];
    context_dependent = true;
  };
  resource = record { kind = "Deployment"; namespace = "shop"; name = "web" };
  undetermined = false;
}

abbrev pub high : Finding
high = record low { severity = severity_high }

abbrev pub unsure : Finding
unsure = record low { undetermined = true }

-- A diagnoser that always reports the findings.
abbrev pub reporting : String → List Finding → Diagnoser
reporting id fs = record { id = id; diagnose = λ t. ok (found id fs) }

abbrev pub crashed : ContainerStatus
crashed = record {
  name = "web";
  image = "web:1";
  ready = false;
  restart_count = pos 2;
  waiting = some (record { reason = "CrashLoopBackOff"; message = "back-off" });
  is_running = false;
  terminated = none;
  last_terminated = some (record { exit_code = pos 1; reason = "Error" });
}

-- A pending pod with a volume claim and a container that crashes.
abbrev pub restarted_pod : Pod
restarted_pod = record {
  name = "web-1";
  namespace = "shop";
  uid = "pod-1";
  phase = "Pending";
  volumes = record { name = "data"; claim_name = some "data" } ∷ [];
  container_statuses = crashed ∷ [];
  init_container_statuses = [];
}
