-- ===== src/Tests.antt =====
-- One small cluster, a job and its states, on which the theorems about the operator are run.
pub mod Operator
pub mod Storage
pub mod Requests
pub mod Lifecycle
pub mod Nodes
pub mod Neighbours
pub mod Refused
pub mod Commands
pub mod Stored
pub mod Served
use di_orchestrator.Base.{
  ◌≡◌, refl, Bool, true, false, Option, none, some, List, [], ◌∷◌, inl, inr, ℤ, pos, ℕ, map, leb,
  ◌&&◌, ◌-◌, if◌then◌else◌,
}
use di_orchestrator.Text.{Text, codes}
use di_orchestrator.Dict.{Dict}
use di_orchestrator.Kube.{
  Pod, PodPhase, PodSpec, PodStatus, RestartPolicy, ConditionStatus, Service, Container,
}
use di_orchestrator.Job.{
  DiJob, DiJobSpec, DiJobStatus, JobCondition, Phase, Task, CleanPodPolicy, Priority,
  label_task_type, label_task_name,
}
use di_orchestrator.Machine.{State, Result, ok, err, panic, Error, Action, Api, Settings}
use di_orchestrator.Machine.Poll.{Polls, PollLaw}

-- A poll that runs the condition once and is then out of time.
abbrev poll_result : Result Bool × State → Result (Unit {0}) × State
poll_result (ok true, t) = (ok tt, t)
poll_result (ok false, t) = (err (Error.failure (codes "timed out waiting for the condition")), t)
poll_result (err e, t) = (err e, t)
poll_result (panic, t) = (panic, t)

abbrev pub poll_once : Action Bool → Action (Unit {0})
poll_once cond s = poll_result (cond s)

abbrev pub container : Container
container = record {
  name = codes "di-container";
  ports = [];
  env = [];
  resources = record { limits = none; requests = none };
}

abbrev pub template : PodSpec
template = record {
  node_name = [];
  hostname = [];
  subdomain = [];
  restart_policy = RestartPolicy.unset;
  containers = container ∷ [];
  volumes = [];
}

abbrev pub task : ℕ → Text → Task
task n type = record { replicas = n; type = type; name = type; template = template }

abbrev pub status_in : Phase → List Text → DiJobStatus
status_in phase allocation = record {
  completion_timestamp = none;
  restarts = pos 1;
  reschedules = pos 0;
  phase = phase;
  replicas = pos 0;
  task_status = [];
  ready_replicas = pos 2;
  allocation = allocation;
  conditions = [];
}

-- Two collectors and a learner, restarted twice at most.
abbrev pub job_in : Bool → Phase → List Text → DiJob
job_in preemptible phase allocation = record {
  namespace = codes "default";
  name = codes "cartpole";
  spec = record {
    priority = Priority.normal;
    clean_pod_policy = CleanPodPolicy.running;
    preemptible = preemptible;
    backoff_limit = some (pos 2);
    volumes = [];
    tasks = task 2 (codes "collector") ∷ task 1 (codes "learner") ∷ [];
  };
  status = status_in phase allocation;
}

-- Every call is accepted, and nothing is there yet but the job.
abbrev pub api : Api
api = record {
  create_pod = λ calls pod. none;
  delete_pod = λ calls pod. none;
  create_service = λ calls svc. none;
  delete_service = λ calls svc. none;
  delete_job = λ calls job. none;
  update_job = λ calls job. none;
  update_status = λ calls job. none;
  get_job = λ calls key. inr (job_in false Phase.pending []);
  list_pods = λ calls options. inr [];
  list_services = λ calls options. inr [];
  list_nodes = λ calls. inr [];
  selector_error = λ labels. none;
  is_not_found = λ e. false;
  is_already_exists = λ e. false;
  is_bad_request = λ e. false;
  now = λ n. n;
  conditions_equal = λ a b. false;
  allocation_equal = λ a b. false;
  task_status_equal = λ a b. false;
  poll = poll_once;
}

-- The poll keeps the promise that the theorems assume.
pub poll_once_law : PollLaw api
poll_once_law cond s = go (cond s) refl
  where
    go :
        (out : Result Bool × State)
        → cond s ≡ out
        → Polls cond s (poll_result out).0 (poll_result out).1
    go (ok true, t) e = Polls.done e
    go (ok false, t) e =
        Polls.again e
          (Polls.timed_out (Error.failure (codes "timed out waiting for the condition")))
    go (err x, t) e = Polls.failed x e
    go (panic, t) e = Polls.crashed e

-- Capital letters, for the names of the tasks here.
abbrev to_upper : Text → Text
to_upper = map (λ c. if leb b'a' c && leb c b'z' then c - 32 else c)

abbrev pub settings : Settings
settings = record {
  to_upper = to_upper;
  service_domain_name = codes "svc.cluster.local";
  di_server_url = codes "http://di-server";
}

abbrev pub state_of : DiJob → State
state_of job = record { job = job; calls = []; ticks = 0; settings = settings }

abbrev pub pod_in : PodPhase → Text → Text → Pod
pod_in phase name type = record {
  namespace = codes "default";
  name = name;
  labels = (label_task_type, type) ∷ (label_task_name, type) ∷ [];
  annotations = [];
  owner = some (codes "cartpole");
  deletion_timestamp = none;
  spec = template;
  status = record {
    phase = phase;
    reason = [];
    pod_ip = [];
    conditions = [];
    container_statuses = [];
  };
}

-- One collector more than the job asks for, one of them failed, and no learner.
abbrev pub pods : List Pod
pods =
    pod_in PodPhase.running (codes "a") (codes "collector")
    ∷ pod_in PodPhase.failed (codes "b") (codes "collector")
    ∷ pod_in PodPhase.running (codes "c") (codes "collector")
    ∷ []

abbrev pub nodes : List Text
nodes = codes "n0" ∷ codes "n1" ∷ codes "n0" ∷ []
