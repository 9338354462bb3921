-- ===== src/Status/Cluster.antt =====
-- pkg/context/status.go: writing a job's status to the cluster, by polling.
pub mod Writes
pub mod Updates
use di_orchestrator.Base.{
  Bool, true, false, not, ◌&&◌, Option, none, some, List, [], ◌∷◌, ℕ, suc, length, get_elem?, set,
  ◌⊎◌, inl, inr, eqb_ℤ, if◌then◌else◌,
}
use di_orchestrator.Text.{text_eq, is_empty}
use di_orchestrator.Kube.{NamespacedName}
use di_orchestrator.Job.{DiJob, DiJobStatus, Task, phase_eq, task_type_none}
use di_orchestrator.Machine.{
  State, Action, Api, Call, pure, crash, get, attempt, send, send_error, modify_job, ◌>>=◌, ◌>>◌,
}
use di_orchestrator.Status.{with_status}

abbrev pub key_of : DiJob → NamespacedName
key_of job = record { namespace = job.namespace; name = job.name }

-- `c.Get`, `c.Status().Update`, `c.Update`
abbrev pub get_job : Api → NamespacedName → Action DiJob
get_job api key = send (Call.get_job key) (λ calls. api.get_job calls key)

abbrev pub update_status : Api → DiJob → Action (Unit {0})
update_status api job = send_error (Call.update_status job) (λ calls. api.update_status calls job)

abbrev pub update_job : Api → DiJob → Action (Unit {0})
update_job api job = send_error (Call.update_job job) (λ calls. api.update_job calls job)

-- `err == nil`, in the functions that wait.Poll runs.
abbrev pub succeeds : Action (Unit {0}) → Action Bool
succeeds m = do r ← attempt m; elim r [ inl _ ↦ pure false | inr _ ↦ pure true ]

-- One round: read the job, put the new fields into its status, and write it.
unfoldable pub write_status : Api → NamespacedName → (DiJobStatus → DiJobStatus) → Action Bool
write_status api key edit = do
  r ← attempt (get_job api key)
  elim r [
    | inl _ ↦ pure false
    | inr new_job ↦ succeeds (update_status api (with_status edit new_job))
  ]

-- The fields that each function copies from the new status.
abbrev pub copy_counts : DiJobStatus → DiJobStatus → DiJobStatus
copy_counts new st = record st { restarts = new.restarts; reschedules = new.reschedules }

abbrev pub copy_phase : DiJobStatus → DiJobStatus → DiJobStatus
copy_phase new st = record st { phase = new.phase; conditions = new.conditions }

abbrev pub copy_allocation : DiJobStatus → DiJobStatus → DiJobStatus
copy_allocation new st = record st { allocation = new.allocation }

abbrev pub copy_replicas : DiJobStatus → DiJobStatus → DiJobStatus
copy_replicas new st = record st {
  ready_replicas = new.ready_replicas;
  replicas = new.replicas;
  task_status = new.task_status;
  completion_timestamp = new.completion_timestamp;
}

-- UpdateJobRestartsAndReschedulesInCluster
unfoldable pub update_restarts_in_cluster : Api → DiJob → DiJob → Action (Unit {0})
update_restarts_in_cluster api old new =
    if eqb_ℤ old.status.restarts new.status.restarts
      && eqb_ℤ old.status.reschedules new.status.reschedules
    then pure tt
    else api.poll (write_status api (key_of new) (copy_counts new.status))

-- UpdateJobPhaseAndConditionsInCluster
unfoldable pub update_phase_in_cluster : Api → DiJob → DiJob → Action (Unit {0})
update_phase_in_cluster api old new =
    if phase_eq old.status.phase new.status.phase
      && api.conditions_equal old.status.conditions new.status.conditions
    then pure tt
    else api.poll (write_status api (key_of new) (copy_phase new.status))

-- UpdateJobAllocationInCluster
unfoldable pub update_allocation_in_cluster : Api → DiJob → DiJob → Action (Unit {0})
update_allocation_in_cluster api old new =
    if api.allocation_equal old.status.allocation new.status.allocation
    then pure tt
    else api.poll (write_status api (key_of new) (copy_allocation new.status))

-- UpdateJobProfilingsInCluster: `Profilings` is a struct with no field, so two are always equal.
unfoldable pub update_profilings_in_cluster : Api → DiJob → DiJob → Action (Unit {0})
update_profilings_in_cluster api old new = pure tt

-- UpdateJobReplicaStatusInCluster
unfoldable pub update_replicas_in_cluster : Api → DiJob → DiJob → Action (Unit {0})
update_replicas_in_cluster api old new =
    if eqb_ℤ old.status.replicas new.status.replicas
      && eqb_ℤ old.status.ready_replicas new.status.ready_replicas
      && api.task_status_equal old.status.task_status new.status.task_status
    then pure tt
    else api.poll (write_status api (key_of new) (copy_replicas new.status))

-- A task of a type gets the type for its name if it has none.
abbrev pub needs_name : Task → Bool
needs_name task = is_empty task.name && not (text_eq task.type task_type_none)

abbrev pub named : Task → Task
named task = if needs_name task then record task { name = task.type } else task

abbrev with_tasks : List Task → DiJob → DiJob
with_tasks tasks job = record job { spec = record job.spec { tasks = tasks } }

-- `old.Spec.Tasks[index].Name = …` panics past the end.
unfoldable pub rename_task : ℕ → Task → Action (Unit {0})
rename_task index task = do
  s ← get
  elim (get_elem? s.job.spec.tasks index) [
    | none ↦ crash
    | some old ↦
        modify_job (with_tasks (set s.job.spec.tasks index (record old { name = task.type })))
  ]

-- The loop over the tasks that the cluster has; the handler's copy is changed beside them.
unfoldable pub default_names : ℕ → List Task → Action (List Task)
unfolding rename_task
default_names index [] = pure []
default_names index (task ∷ tasks) = do
  if needs_name task then rename_task index task else pure tt
  rest ← default_names (suc index) tasks
  pure (named task ∷ rest)

unfoldable pub default_round : Api → NamespacedName → Action Bool
unfolding default_names
default_round api key = do
  r ← attempt (get_job api key)
  elim r [
    | inl _ ↦ pure false
    | inr new_job ↦ (do
      tasks ← default_names 0 new_job.spec.tasks
      succeeds (update_job api (with_tasks tasks new_job)))
  ]

-- SetDefaultJobNameInCluster
unfoldable pub set_default_job_name_in_cluster : Api → Action (Unit {0})
unfolding default_round
set_default_job_name_in_cluster api = do s ← get; api.poll (default_round api (key_of s.job))
