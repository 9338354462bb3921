-- ===== src/Controller/Reconcile.antt =====
-- pkg/controllers/dijob_controller.go: Reconcile and the event handlers, and reconcileReplicas of
-- dijob.go with its deferred status updates.
pub mod Refused
use di_orchestrator.Base.{◌||◌, none, some, List, [], ◌∷◌, pos, if◌then◌else◌}
use di_orchestrator.Text.{codes}
use di_orchestrator.Kube.{Pod, Service, NamespacedName}
use di_orchestrator.Job.{DiJob, Phase, phase_eq}
use di_orchestrator.Machine.{
  Error, error_text, EventType, Result, ok, err, panic, State, Action, Api, pure, get, attempt,
  modify_job, record_event, ◌>>=◌, ◌>>◌,
}
use di_orchestrator.Utils.Pods.{is_succeeded, is_failed}
use di_orchestrator.Utils.Validator.{task_type_name_validator, apply_validators}
use di_orchestrator.Status.{update_job_status, failed_reason, pending_reason, with_status}
use di_orchestrator.Status.Cluster.{
  get_job, update_phase_in_cluster, update_replicas_in_cluster, update_allocation_in_cluster,
  update_restarts_in_cluster, set_default_job_name_in_cluster,
}
use di_orchestrator.Pods.Calls.{list_job_pods, list_job_services}
use di_orchestrator.Pods.CleanUp.{delete_pods_and_services}
use di_orchestrator.Controller.Steps.{reconcile_with_job_status, reconcile_services}
use di_orchestrator.Controller.Handlers.{handle_job_status}

-- An error is only logged.
abbrev pub ignore : Action (Unit {0}) → Action (Unit {0})
ignore m = attempt m >> pure tt

-- The deferred function: three updates of the cluster, each with its error logged.
unfoldable pub update_in_cluster : Api → DiJob → Action (Unit {0})
update_in_cluster api old = do
  s ← get
  ignore (update_phase_in_cluster api old s.job)
  ignore (update_replicas_in_cluster api old s.job)
  ignore (update_allocation_in_cluster api old s.job)

-- A deferred function runs whatever the body did, also on a panic, and keeps the body's result
-- unless it panics itself.
abbrev after_deferred : Result (Unit {0}) → Result (Unit {0}) × State → Result (Unit {0}) × State
after_deferred r (panic, s) = (panic, s)
after_deferred r (ok _, s) = (r, s)
after_deferred r (err _, s) = (r, s)

abbrev with_deferred : Action (Unit {0}) → Action (Unit {0}) → Action (Unit {0})
with_deferred body last s = let (r, t) = body s in after_deferred r (last t)

-- reconcileReplicas
unfoldable pub reconcile_replicas : Api → List Pod → List Service → Action (Unit {0})
unfolding update_in_cluster
reconcile_replicas api pods services = do
  s ← get
  with_deferred (reconcile_with_job_status api pods >> reconcile_services api services)
      (update_in_cluster api s.job)

-- What follows once the job has ended.
unfoldable pub finish_job : Api → List Pod → List Service → Action (Unit {0})
finish_job api pods services = do
  delete_pods_and_services api pods services
  s ← get
  modify_job (with_status (λ st. record st { ready_replicas = pos 0; task_status = [] }))
  t ← get
  update_replicas_in_cluster api s.job t.job

-- What follows for a job that the validators refuse.
unfoldable pub refuse_job : Api → Error → Action (Unit {0})
refuse_job api e = do
  s ← get
  update_job_status api Phase.failed failed_reason (error_text e)
  t ← get
  update_phase_in_cluster api s.job t.job

unfoldable pub reconcile_valid : Api → Action (Unit {0})
reconcile_valid api = do
  pods ← list_job_pods api
  services ← list_job_services api
  s ← get
  if is_succeeded s.job || is_failed s.job
      then finish_job api pods services
      else reconcile_replicas api pods services

unfoldable pub reconcile_job : Api → Action (Unit {0})
unfolding refuse_job reconcile_valid finish_job
reconcile_job api = do
  ignore (set_default_job_name_in_cluster api)
  s ← get
  elim (apply_validators (task_type_name_validator ∷ []) s.job) [
    | some e ↦ refuse_job api e
    | none ↦ reconcile_valid api
  ]

-- Reconcile: every error is logged and nil is returned.
unfoldable pub reconcile : Api → NamespacedName → Action (Unit {0})
unfolding reconcile_job
reconcile api key = ignore (do job ← get_job api key; modify_job (λ _. job); reconcile_job api)

-- onJobAddHandler, for an object that is a DIJob.
unfoldable pub on_job_add : Api → Action (Unit {0})
on_job_add api = do
  s ← get
  if phase_eq s.job.status.phase Phase.unset || phase_eq s.job.status.phase Phase.pending
      then (do
        update_job_status api Phase.pending pending_reason (codes "job created.")
        record_event EventType.normal pending_reason (codes "job created."))
      else pure tt
  t ← get
  ignore (update_phase_in_cluster api s.job t.job)

-- onJobUpdateHandler, where both objects are DIJobs; the new one is the state's job.
unfoldable pub on_job_update : Api → DiJob → Action (Unit {0})
on_job_update api old = do
  s ← get
  handle_job_status api old
  t ← get
  ignore (update_restarts_in_cluster api s.job t.job)
  ignore (update_replicas_in_cluster api s.job t.job)
