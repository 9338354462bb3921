-- ===== src/Allocator/Jobs.antt =====
-- pkg/allocator/job.go and types/infos.go: what the allocator knows of a job.
pub mod Reads
pub mod Defaults
use di_orchestrator.Base.{Bool, ℤ, pos, ◌⊎◌, inl, inr, Option, none, some, List, [], ◌∷◌}
use di_orchestrator.Text.{Text}
use di_orchestrator.Dict.{lookup, get_or}
use di_orchestrator.Kube.{Quantity, Resources, ResourceRequirements, NamespacedName}
use di_orchestrator.Job.{DiJob, Task}
use di_orchestrator.Machine.{Action, pure, lift, crash, ◌>>=◌, ◌>>◌}
use di_orchestrator.Controller.Replicas.{or_crash}
use di_orchestrator.Allocator.Resources.{
  Library, Requirements, requests_of, limits_of, set_request, set_limit, resource_cpu,
  resource_memory, resource_gpu, get_dijob_default_resources, get_pod_resources,
}

pub record JobInfo : Type 0 where
  pub key : NamespacedName
  pub resources : Requirements
  pub min_replicas : ℤ
  pub max_replicas : ℤ
  pub preemptible : Bool

-- A write of a quantity under a name.
abbrev Write : Type 0
Write = Text → Quantity → Requirements → Option Requirements

-- `if p != nil { … = *p }`
set_pointed : Write → Text → Option Quantity → Requirements → Action Requirements
set_pointed write name none res = pure res
set_pointed write name (some q) res = or_crash (write name q res)

-- The three writes that follow from one map of a task.
copy_resources : Library → Write → Resources → Requirements → Action Requirements
unfolding set_pointed
copy_resources lib write from res = do
  a ← set_pointed write resource_cpu (lib.cpu from) res
  b ← set_pointed write resource_memory (lib.memory from) a
  or_crash (write resource_gpu (get_or resource_gpu from lib.zero) b)

-- One round of the loop: the requests of the task, or its limits if it has no requests.
add_task : Library → ResourceRequirements → Requirements → Action Requirements
unfolding copy_resources
add_task lib jobres res = elim jobres.requests [
  | some m ↦ copy_resources lib set_request m res
  | none ↦ elim jobres.limits [ some m ↦ copy_resources lib set_limit m res | none ↦ pure res ]
]

add_tasks : Library → List Task → Requirements → Action Requirements
unfolding add_task
add_tasks lib [] res = pure res
add_tasks lib (task ∷ tasks) res = do
  next ← add_task lib (get_pod_resources task.template) res
  add_tasks lib tasks next

-- `m[name]` of a map that may be nil.
abbrev lookup_in : Text → Option Resources → Option Quantity
lookup_in name none = none
lookup_in name (some m) = lookup name m

abbrev or_zero : Library → Option Quantity → Quantity
or_zero lib none = lib.zero
or_zero lib (some q) = q

-- With no request of GPUs, the limit of GPUs is the request.
request_gpu : Library → Requirements → Action Requirements
request_gpu lib res = elim (lookup_in resource_gpu (requests_of res)) [
  | some _ ↦ pure res
  | none ↦
      or_crash (set_request resource_gpu (or_zero lib (lookup_in resource_gpu (limits_of res))) res)
]

-- getJobResources
unfoldable pub get_job_resources : Library → DiJob → Action Requirements
unfolding add_tasks request_gpu
get_job_resources lib job = do
  res ← lift (get_dijob_default_resources lib)
  all ← add_tasks lib job.spec.tasks res
  request_gpu lib all

-- getJobInfo
unfoldable pub get_job_info : Library → DiJob → Action JobInfo
get_job_info lib job = do
  res ← get_job_resources lib job
  pure (record {
    key = record { namespace = job.namespace; name = job.name };
    resources = res;
    min_replicas = pos 1;
    max_replicas = pos 1;
    preemptible = job.spec.preemptible;
  })
