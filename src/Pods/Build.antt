-- ===== src/Pods/Build.antt =====
-- pkg/context/pod.go: building the pods and the service of a job. `none` is a panic.
pub mod Annotations
pub mod Addresses
use mathlib.Core.Option
use di_orchestrator.Base.{
  ℕ, zero, suc, ◌+◌, Bool, true, false, ◌&&◌, Option, none, some, List, [], ◌∷◌, ◌++◌, ℤ, leb,
  length, get_elem?, if◌then◌else◌,
}
use di_orchestrator.Text.{Text, codes, text_eq, join, itoa, replace_byte}
use di_orchestrator.Dict.{Dict, insert}
use di_orchestrator.Kube.{Pod, PodSpec, PodStatus, PodPhase, RestartPolicy, Service}
use di_orchestrator.Job.{
  DiJob, Task, label_pod, label_task_type, label_task_name, annotation_replicas, annotation_rank,
  annotation_node, annotation_task_rank, default_port, default_port_name,
}
use di_orchestrator.Machine.{Settings}
use di_orchestrator.Utils.Names.{namespaced_name, replica_name, pod_fqdn}
use di_orchestrator.Utils.Spec.{
  gen_labels, add_labels_to_pod, add_annotations_to_pod, add_envs_to_pod,
}

unfoldable pub svc_name : Text → Text
svc_name name = codes "di-" ++ name

-- The sum of the replicas of all tasks.
unfoldable pub total_replicas : List Task → ℕ
total_replicas [] = 0
total_replicas (task ∷ tasks) = task.replicas + total_replicas tasks

-- A pod that the cluster has not seen.
abbrev pub fresh_status : PodStatus
fresh_status = record {
  phase = PodPhase.unset;
  reason = [];
  pod_ip = [];
  conditions = [];
  container_statuses = [];
}

-- What BuildPod finds for a rank: an index past the end, no assignment, or a node.
pub data NodeChoice : Type 0 where
  out_of_range unassigned : NodeChoice
  node : Text → NodeChoice

abbrev at_rank : Option Text → NodeChoice
at_rank none = out_of_range
at_rank (some name) = node name

-- The code indexes the allocation whenever its length is at least the rank, which is a panic
-- where the two are equal.
unfoldable pub node_for : Bool → List Text → ℕ → NodeChoice
node_for false allocation rank = unassigned
node_for true allocation rank =
    if leb rank (length allocation) then at_rank (get_elem? allocation rank) else unassigned

-- The host names of the first `n` replicas of a task, numbered upwards.
fqdns_of_task : Settings → DiJob → Text → ℕ → List Text
fqdns_of_task settings job task_name zero = []
fqdns_of_task settings job task_name (suc n) =
    fqdns_of_task settings job task_name n
    ++ pod_fqdn (replica_name job.name task_name n) (svc_name job.name) job.namespace
        settings.service_domain_name
      ∷ []

-- All host names of a job.
unfoldable pub fqdns : Settings → DiJob → List Task → List Text
unfolding fqdns_of_task
fqdns settings job [] = []
fqdns settings job (task ∷ tasks) =
    fqdns_of_task settings job task.name task.replicas ++ fqdns settings job tasks

-- Those of the tasks of one type.
unfoldable pub internal_fqdns : Settings → DiJob → Text → List Task → List Text
unfolding fqdns_of_task
internal_fqdns settings job type [] = []
internal_fqdns settings job type (task ∷ tasks) =
    let rest = internal_fqdns settings job type tasks in
    if text_eq task.type type
    then fqdns_of_task settings job task.name task.replicas ++ rest
    else rest

abbrev task_nodes_env : Settings → Text → Text
task_nodes_env settings name =
    codes "DI_" ++ replace_byte b'-' b'_' (settings.to_upper name) ++ codes "_NODES"

-- The environment of a pod. The name of the last variable is computed, so it may replace another.
pod_envs : Settings → DiJob → Task → ℕ → Dict Text
unfolding fqdns internal_fqdns
pod_envs settings job task rank =
    insert (task_nodes_env settings task.name)
      (join (codes ",") (internal_fqdns settings job task.type job.spec.tasks))
      ((codes "DI_JOB_ID", namespaced_name job.namespace job.name)
        ∷ (codes "DI_SERVER_URL", settings.di_server_url)
        ∷ (codes "DI_RANK", itoa rank)
        ∷ (codes "DI_NODES", join (codes ",") (fqdns settings job job.spec.tasks))
        ∷ [])

abbrev pod_annotations : DiJob → ℕ → Text → ℕ → Dict Text
pod_annotations job rank node_name local_rank =
    (annotation_replicas, itoa (total_replicas job.spec.tasks))
    ∷ (annotation_rank, itoa rank)
    ∷ (annotation_node, node_name)
    ∷ (annotation_task_rank, itoa local_rank)
    ∷ []

abbrev pod_labels : DiJob → Task → Text → Dict Text
pod_labels job task name =
    insert label_task_name task.name
      (insert label_task_type task.type (insert label_pod name (gen_labels job)))

-- The specification of the template, with the node, the restart policy and the host set.
abbrev pod_spec : DiJob → Task → Text → Option Text → PodSpec
pod_spec job task name assigned = record task.template {
  node_name = Option.get_or assigned task.template.node_name;
  hostname = name;
  subdomain = svc_name job.name;
  restart_policy = RestartPolicy.never;
}

-- The pod of a task at a rank, once its node is chosen.
unfoldable pub pod_on : Settings → DiJob → ℕ → Option Text → Task → ℕ → Pod
unfolding pod_envs
pod_on settings job rank assigned task local_rank =
    let name = replica_name job.name task.name local_rank in
    let bare : Pod = record {
      namespace = job.namespace;
      name = name;
      labels = [];
      annotations = [];
      owner = some job.name;
      deletion_timestamp = none;
      spec = pod_spec job task name assigned;
      status = fresh_status;
    } in
    let labelled = add_labels_to_pod bare (pod_labels job task name) in
    let annotated =
      add_annotations_to_pod labelled
        (pod_annotations job rank (Option.get_or assigned []) local_rank) in
    let pod = add_envs_to_pod annotated (pod_envs settings job task rank) in
    record pod { spec = record pod.spec { volumes = pod.spec.volumes ++ job.spec.volumes } }

abbrev pod_on_node : Settings → DiJob → ℕ → Task → ℕ → NodeChoice → Option Pod
pod_on_node settings job rank task local_rank out_of_range = none
pod_on_node settings job rank task local_rank unassigned =
    some (pod_on settings job rank none task local_rank)
pod_on_node settings job rank task local_rank (node name) =
    some (pod_on settings job rank (some name) task local_rank)

abbrev pod_of_task : Settings → DiJob → ℕ → List Text → ℕ → Option Task → Option Pod
pod_of_task settings job rank allocation local_rank none = none
pod_of_task settings job rank allocation local_rank (some task) =
    pod_on_node settings job rank task local_rank (node_for job.spec.preemptible allocation rank)

-- BuildPod
unfoldable pub build_pod : Settings → DiJob → ℕ → List Text → ℕ → ℕ → Option Pod
build_pod settings job rank allocation task_num local_rank =
    pod_of_task settings job rank allocation local_rank (get_elem? job.spec.tasks task_num)

-- BuildService
unfoldable pub build_service : DiJob → Service
build_service job = record {
  namespace = job.namespace;
  name = svc_name job.name;
  labels = gen_labels job;
  owner = some job.name;
  selector = gen_labels job;
  cluster_ip = codes "None";
  port = default_port;
  port_name = default_port_name;
}
