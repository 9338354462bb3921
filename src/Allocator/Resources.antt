-- ===== src/Allocator/Resources.antt =====
-- The default resources of a job (pkg/common/config.go), the resources in the spec of a pod
-- (pkg/utils/util.go), and the arithmetic that the allocator takes from k8s.io/apimachinery.
use di_orchestrator.Base.{◌⊎◌, inl, inr, Option, none, some, List, [], ◌∷◌, ◌++◌, if◌then◌else◌}
use di_orchestrator.Text.{Text, codes, text_eq, is_empty}
use di_orchestrator.Dict.{Dict, lookup, insert}
use di_orchestrator.Kube.{Pod, PodSpec, Container, Quantity, Resources, ResourceRequirements}
use di_orchestrator.Job.{default_container_name}
use di_orchestrator.Machine.{Error, failure, error_text}

-- What the libraries provide: the quantities, `Cpu()` and `Memory()` of a ResourceList, the requests
-- and limits of a pod, encoding/json; and the variable DI_JOB_DEFAULT_RESOURCES.
pub record Library : Type 0 where
  pub zero : Quantity
  pub add : Quantity → Quantity → Quantity
  pub sub : Quantity → Quantity → Quantity
  pub must_parse : Text → Quantity
  pub cpu : Resources → Option Quantity
  pub memory : Resources → Option Quantity
  pub pod_requests_and_limits : Pod → Resources × Resources
  pub unmarshal : Text → Error ⊎ Dict ResourceRequirements
  pub default_resources : Text

abbrev pub resource_cpu : Text
resource_cpu = codes "cpu"

abbrev pub resource_memory : Text
resource_memory = codes "memory"

abbrev pub resource_gpu : Text
resource_gpu = codes "nvidia.com/gpu"

-- The two maps of the resources of a job: one map that both fields refer to, or two maps, each of
-- which may be nil.
pub data Requirements : Type 0 where
  shared : Resources → Requirements
  separate : Option Resources → Option Resources → Requirements

abbrev pub requests_of : Requirements → Option Resources
requests_of (Requirements.shared m) = some m
requests_of (Requirements.separate requests limits) = requests

abbrev pub limits_of : Requirements → Option Resources
limits_of (Requirements.shared m) = some m
limits_of (Requirements.separate requests limits) = limits

-- `res.Requests[name] = q`: none for the panic at a map that is nil.
unfoldable pub set_request : Text → Quantity → Requirements → Option Requirements
set_request name q (Requirements.shared m) = some (Requirements.shared (insert name q m))
set_request name q (Requirements.separate none limits) = none
set_request name q (Requirements.separate (some m) limits) =
    some (Requirements.separate (some (insert name q m)) limits)

-- `res.Limits[name] = q`
unfoldable pub set_limit : Text → Quantity → Requirements → Option Requirements
set_limit name q (Requirements.shared m) = some (Requirements.shared (insert name q m))
set_limit name q (Requirements.separate requests none) = none
set_limit name q (Requirements.separate requests (some m)) =
    some (Requirements.separate requests (some (insert name q m)))

-- GetDIJobDefaultResources
unfoldable pub get_dijob_default_resources : Library → Error ⊎ Requirements
get_dijob_default_resources lib =
    if is_empty lib.default_resources
    then inr (
        Requirements.shared (
          (resource_cpu, lib.must_parse (codes "1"))
          ∷ (resource_memory, lib.must_parse (codes "2Gi"))
          ∷ []))
    else elim (lib.unmarshal lib.default_resources) [
      | inl e ↦ inl (failure (codes "failed to unmarshal resource requirements: " ++ error_text e))
      | inr m ↦ elim (lookup (codes "resources") m) [
        | none ↦ inl (failure (codes "failed to unmarshal resource requirements"))
        | some r ↦ inr (Requirements.separate r.requests r.limits)
      ]
    ]

resources_in : List Container → ResourceRequirements
resources_in [] = record { limits = none; requests = none }
resources_in (c ∷ cs) =
    let rest = resources_in cs in
    if text_eq c.name default_container_name then c.resources else rest

-- GetPodResources
unfoldable pub get_pod_resources : PodSpec → ResourceRequirements
unfolding resources_in
get_pod_resources spec = resources_in spec.containers

set_resources : ResourceRequirements → List Container → List Container
set_resources resources [] = []
set_resources resources (c ∷ cs) =
    (if text_eq c.name default_container_name then record c { resources = resources } else c)
    ∷ set_resources resources cs

-- SetPodResources
unfoldable pub set_pod_resources : Pod → ResourceRequirements → Pod
unfolding set_resources
set_pod_resources pod resources = record pod {
  spec = record pod.spec { containers = set_resources resources pod.spec.containers };
}
