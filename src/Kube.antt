-- ===== src/Kube.antt =====
-- The Kubernetes objects (k8s.io/api/core/v1), with the fields that the program reads or writes.
use di_orchestrator.Base.{ℕ, Bool, Option, List, ℤ, ◌==◌}
use di_orchestrator.Text.{Text}
use di_orchestrator.Dict.{Dict}

pub data PodPhase : Type 0 where
  unset pending running succeeded failed unknown : PodPhase

abbrev pub pod_phase_index : PodPhase → ℕ
pod_phase_index PodPhase.unset = 0
pod_phase_index PodPhase.pending = 1
pod_phase_index PodPhase.running = 2
pod_phase_index PodPhase.succeeded = 3
pod_phase_index PodPhase.failed = 4
pod_phase_index PodPhase.unknown = 5

-- `p == q`
abbrev pub pod_phase_eq : PodPhase → PodPhase → Bool
pod_phase_eq p q = pod_phase_index p == pod_phase_index q

pub data ConditionStatus : Type 0 where
  condition_true condition_false condition_unknown : ConditionStatus

pub data PodConditionType : Type 0 where
  pod_scheduled other_condition : PodConditionType

pub record PodCondition : Type 0 where
  pub type : PodConditionType
  pub status : ConditionStatus

-- `State.Terminated` with its exit code, `State.Waiting` with its reason.
pub record ContainerStatus : Type 0 where
  pub ready : Bool
  pub terminated : Option ℤ
  pub waiting : Option Text

pub record PodStatus : Type 0 where
  pub phase : PodPhase
  pub reason : Text
  pub pod_ip : Text
  pub conditions : List PodCondition
  pub container_statuses : List ContainerStatus

pub record ContainerPort : Type 0 where
  pub name : Text
  pub container_port : ℤ

pub record EnvVar : Type 0 where
  pub name : Text
  pub value : Text

-- resource.Quantity, known by its text; its arithmetic is a parameter of the functions that add.
abbrev pub Quantity : Type 0
Quantity = Text

-- ResourceList
abbrev pub Resources : Type 0
Resources = Dict Quantity

-- Each of the two maps may be nil.
pub record ResourceRequirements : Type 0 where
  pub limits : Option Resources
  pub requests : Option Resources

pub record Container : Type 0 where
  pub name : Text
  pub ports : List ContainerPort
  pub env : List EnvVar
  pub resources : ResourceRequirements

-- A volume is known by its name alone: the program only copies volumes.
abbrev pub Volume : Type 0
Volume = Text

pub data RestartPolicy : Type 0 where
  unset always on_failure never : RestartPolicy

pub record PodSpec : Type 0 where
  pub node_name : Text
  pub hostname : Text
  pub subdomain : Text
  pub restart_policy : RestartPolicy
  pub containers : List Container
  pub volumes : List Volume

-- `owner` is the name of the job that controls the pod; `deletion_timestamp` is the time at
-- which the cluster was asked to remove the pod.
pub record Pod : Type 0 where
  pub namespace : Text
  pub name : Text
  pub labels : Dict Text
  pub annotations : Dict Text
  pub owner : Option Text
  pub deletion_timestamp : Option ℕ
  pub spec : PodSpec
  pub status : PodStatus

pub record Service : Type 0 where
  pub namespace : Text
  pub name : Text
  pub labels : Dict Text
  pub owner : Option Text
  pub selector : Dict Text
  pub cluster_ip : Text
  pub port : ℤ
  pub port_name : Text

-- `Status.Allocatable` of a node
pub record Node : Type 0 where
  pub name : Text
  pub allocatable : Resources

pub record NamespacedName : Type 0 where
  pub namespace : Text
  pub name : Text

-- client.ListOptions: a namespace and labels that must all be present.
pub record ListOptions : Type 0 where
  pub namespace : Text
  pub match_labels : Dict Text
