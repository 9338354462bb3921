-- ===== src/Allocator/Jobs/Reads.antt =====
-- Finding out what a job asks for calls nothing.
use di_orchestrator.Base.{refl, List, [], ◌∷◌, Option, none, some}
use di_orchestrator.Text.{Text}
use di_orchestrator.Dict.{get_or}
use di_orchestrator.Kube.{Quantity, Resources, ResourceRequirements}
use di_orchestrator.Job.{DiJob, Task}
use di_orchestrator.Machine.{Action, pure, lift}
use di_orchestrator.Controller.Replicas.{or_crash}
use di_orchestrator.Allocator.Resources.{
  Library, Requirements, requests_of, limits_of, set_request, set_limit, resource_cpu,
  resource_memory, resource_gpu, get_dijob_default_resources, get_pod_resources,
}
use di_orchestrator.Machine.Along.{Adds-same}
use di_orchestrator.Allocator.Readers.{
  IsReader, bind-IsReader, pure-IsReader, lift-IsReader, crash-IsReader,
}
use di_orchestrator.Allocator.Jobs.{
  Write, set_pointed, copy_resources, add_task, add_tasks, request_gpu, lookup_in, or_zero,
  get_job_resources, get_job_info,
}

set_pointed-IsReader :
    (write : Write) (name : Text) (o : Option Quantity) (res : Requirements)
    → IsReader (set_pointed write name o res)
unfolding set_pointed
set_pointed-IsReader write name none res = pure-IsReader res
set_pointed-IsReader write name (some q) res = crash-IsReader (write name q res)

copy_resources-IsReader :
    (lib : Library) (write : Write) (from : Resources) (res : Requirements)
    → IsReader (copy_resources lib write from res)
unfolding copy_resources
copy_resources-IsReader lib write from res =
    bind-IsReader (set_pointed write resource_cpu (lib.cpu from) res) _
      (set_pointed-IsReader write _ _ res)
      (λ a.
        bind-IsReader (set_pointed write resource_memory (lib.memory from) a) _
          (set_pointed-IsReader write _ _ a)
          (λ b. crash-IsReader (write resource_gpu (get_or resource_gpu from lib.zero) b)))

add_task-IsReader :
    (lib : Library) (jobres : ResourceRequirements) (res : Requirements)
    → IsReader (add_task lib jobres res)
unfolding add_task
add_task-IsReader lib jobres res = go jobres.requests jobres.limits
  where
    limited : Option Resources → Action Requirements
    limited o = elim o [ some m ↦ copy_resources lib set_limit m res | none ↦ pure res ]

    go :
        (requests limits : Option Resources)
        → IsReader (elim requests [
          | some m ↦ copy_resources lib set_request m res
          | none ↦ limited limits
        ])
    go (some m) limits = copy_resources-IsReader lib set_request m res
    go none (some m) = copy_resources-IsReader lib set_limit m res
    go none none = pure-IsReader res

add_tasks-IsReader :
    (lib : Library) (tasks : List Task) (res : Requirements) → IsReader (add_tasks lib tasks res)
unfolding add_tasks
add_tasks-IsReader lib [] res = pure-IsReader res
add_tasks-IsReader lib (task ∷ tasks) res =
    bind-IsReader (add_task lib (get_pod_resources task.template) res)
      (λ next. add_tasks lib tasks next) (add_task-IsReader lib _ res)
      (λ next. add_tasks-IsReader lib tasks next)

request_gpu-IsReader : (lib : Library) (res : Requirements) → IsReader (request_gpu lib res)
unfolding request_gpu
request_gpu-IsReader lib res = go (lookup_in resource_gpu (requests_of res))
  where
    set_gpu : Action Requirements
    set_gpu =
        or_crash
          (set_request resource_gpu (or_zero lib (lookup_in resource_gpu (limits_of res))) res)

    go : (o : Option Quantity) → IsReader (elim o [ some _ ↦ pure res | none ↦ set_gpu ])
    go (some q) = pure-IsReader res
    go none = crash-IsReader _

pub get_job_info-IsReader : (lib : Library) (job : DiJob) → IsReader (get_job_info lib job)
unfolding get_job_info get_job_resources
get_job_info-IsReader lib job =
    bind-IsReader (get_job_resources lib job) _
      (bind-IsReader (lift (get_dijob_default_resources lib)) _ (lift-IsReader _) (λ res.
        bind-IsReader (add_tasks lib job.spec.tasks res) _ (add_tasks-IsReader lib _ res)
          (λ all. request_gpu-IsReader lib all)))
      (λ res s. (Adds-same refl, refl))
