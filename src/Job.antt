-- ===== src/Job.antt =====
-- The DIJob resource (pkg/api/v2alpha1/dijob_types.go) and the constants of pkg/common/config.go.
-- Counters of type int32 are integers that the code keeps in range by `int32`; replicas of a task
-- are at least 1 by the resource's own validation, so they are natural numbers.
use di_orchestrator.Base.{ℕ, ◌≡◌, Bool, true, Option, List, arith, ◌==◌, ℤ, pos}
use di_orchestrator.Text.{Text, codes}
use di_orchestrator.Dict.{Dict}
use di_orchestrator.Kube.{PodPhase, ConditionStatus, PodSpec, Volume}

pub data Phase : Type 0 where
  unset pending starting restarting rescheduling running succeeded failed unknown : Phase

abbrev pub phase_index : Phase → ℕ
phase_index Phase.unset = 0
phase_index Phase.pending = 1
phase_index Phase.starting = 2
phase_index Phase.restarting = 3
phase_index Phase.rescheduling = 4
phase_index Phase.running = 5
phase_index Phase.succeeded = 6
phase_index Phase.failed = 7
phase_index Phase.unknown = 8

-- `p == q`
unfoldable pub phase_eq : Phase → Phase → Bool
phase_eq p q = phase_index p == phase_index q

pub phase_eq→eq : (p q : Phase) → phase_eq p q ≡ true → p ≡ q
unfolding phase_eq
phase_eq→eq p q h = ground arith

pub phase_eq_refl : (p : Phase) → phase_eq p p ≡ true
unfolding phase_eq
phase_eq_refl p = ground arith

pub data CleanPodPolicy : Type 0 where
  unset running all keep : CleanPodPolicy

pub data Priority : Type 0 where
  normal high : Priority

-- The labels and annotations of the template are not copied to a pod, so only the pod's
-- specification is kept of it.
pub record Task : Type 0 where
  pub replicas : ℕ
  pub type : Text
  pub name : Text
  pub template : PodSpec

pub record DiJobSpec : Type 0 where
  pub priority : Priority
  pub clean_pod_policy : CleanPodPolicy
  pub preemptible : Bool
  pub backoff_limit : Option ℤ
  pub volumes : List Volume
  pub tasks : List Task

-- How many pods of a task are in each phase.
abbrev pub TaskStatus : Type 0
TaskStatus = List (PodPhase × ℤ)

pub record JobCondition : Type 0 where
  pub type : Phase
  pub status : ConditionStatus
  pub reason : Text
  pub message : Text
  pub last_update_time : ℕ
  pub last_transition_time : ℕ

-- `Profilings` is a struct with no field, so it is left out.
pub record DiJobStatus : Type 0 where
  pub completion_timestamp : Option ℕ
  pub restarts : ℤ
  pub reschedules : ℤ
  pub phase : Phase
  pub replicas : ℤ
  pub task_status : Dict TaskStatus
  pub ready_replicas : ℤ
  pub allocation : List Text
  pub conditions : List JobCondition

pub record DiJob : Type 0 where
  pub namespace : Text
  pub name : Text
  pub spec : DiJobSpec
  pub status : DiJobStatus

abbrev pub task_type_none : Text
task_type_none = codes "none"

-- Labels and annotations.
abbrev pub label_operator : Text
label_operator = codes "diengine/operator"

abbrev pub label_job : Text
label_job = codes "diengine/job"

abbrev pub label_task_type : Text
label_task_type = codes "diengine/task-type"

abbrev pub label_task_name : Text
label_task_name = codes "diengine/task-name"

abbrev pub label_pod : Text
label_pod = codes "diengine/pod"

abbrev pub annotation_replicas : Text
annotation_replicas = codes "diengine/replicas"

abbrev pub annotation_rank : Text
annotation_rank = codes "diengine/rank"

abbrev pub annotation_task_rank : Text
annotation_task_rank = codes "diengine/task-rank"

abbrev pub annotation_node : Text
annotation_node = codes "diengine/node"

abbrev pub operator_name : Text
operator_name = codes "di-operator"

abbrev pub default_container_name : Text
default_container_name = codes "di-container"

abbrev pub default_port_name : Text
default_port_name = codes "di-port"

abbrev pub default_port : ℤ
default_port = pos 22270
