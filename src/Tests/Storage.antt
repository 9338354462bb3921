-- ===== src/Tests/Storage.antt =====
-- The theorems about pkg/context and pkg/utils, at a concrete job.
use di_orchestrator.Base.{◌≡◌, ◌↔◌, ◌⊎◌, refl, false, none, some, List, [], arith}
use di_orchestrator.Text.{Text, codes}
use di_orchestrator.Kube.{Pod, condition_true}
use di_orchestrator.Job.{DiJob, Phase, phase_eq, JobCondition, CleanPodPolicy}
use di_orchestrator.Machine.{State, ok}
use di_orchestrator.Status.{
  update_job_status, update_job_status_by_backoff_limit, get_condition, with_phase, with_conditions,
}
use di_orchestrator.Status.Conditions.{IsValid}
use di_orchestrator.Status.Changes.{update_job_status-IsValid}
use di_orchestrator.Status.Phases.{IsExhausted, update_job_status_by_backoff_limit-phase}
use di_orchestrator.Status.Cluster.{key_of, copy_phase, write_status, update_phase_in_cluster}
use di_orchestrator.Status.Cluster.Writes.{Written, update_phase_in_cluster-Written}
use di_orchestrator.Pods.Calls.{delete_pods}
use di_orchestrator.Pods.Calls.Deletes.{Effect, delete_pods_lem}
use di_orchestrator.Pods.Calls.Loops.{Deletes}
use di_orchestrator.Pods.CleanUp.{delete_pods_and_services}
use di_orchestrator.Pods.CleanUp.Policies.{IsGivenUp, Picked}
use di_orchestrator.Pods.CleanUp.Laws.{delete_pods_and_services-Deletes}
use di_orchestrator.Utils.Validator.{task_type_name_validator}
use di_orchestrator.Utils.Validator.Laws.{IsWellFormed, task_type_name_validator-IsWellFormed}
use di_orchestrator.Tests.{api, poll_once_law, job_in, state_of, pods}

abbrev running : State
running = state_of (job_in false Phase.running [])

abbrev reason : Text
reason = codes "JobRestarting"

abbrev now_restarting : JobCondition
now_restarting = record {
  type = Phase.restarting;
  status = condition_true;
  reason = reason;
  message = [];
  last_update_time = 3;
  last_transition_time = 3;
}

no_condition : IsValid []
no_condition = record { one_each = λ p. omega arith; one_true = omega arith }

update_job_status-IsValid_example :
    let out = update_job_status api Phase.restarting reason [] running in
    (out.0 ≡ ok tt)
    × (out.1.calls ≡ [])
    × ((cs : List JobCondition) × (out.1.job
          ≡ with_phase Phase.restarting (with_conditions (λ _. cs) running.job))
        × IsValid cs
        × ((c : JobCondition) × (get_condition cs Phase.restarting ≡ some c)
            × (c.status ≡ condition_true)
            × (c.reason ≡ reason)))
update_job_status-IsValid_example =
    update_job_status-IsValid api Phase.restarting reason [] running (λ e. cc) no_condition

update_job_status_by_backoff_limit-phase_example :
    let phase = (update_job_status_by_backoff_limit api [] running).1.job.status.phase in
    ((phase ≡ Phase.failed) × IsExhausted running.job)
    ⊎ ((phase ≡ Phase.restarting) × ¬ (IsExhausted running.job))
update_job_status_by_backoff_limit-phase_example =
    update_job_status_by_backoff_limit-phase api [] running

abbrev before : DiJob
before = job_in false Phase.starting []

phase_written : (update_phase_in_cluster api before running.job running).0 ≡ ok tt
unfolding update_phase_in_cluster write_status phase_eq
phase_written = refl

update_phase_in_cluster-Written_example :
    Written api
      (key_of running.job)
      (copy_phase running.job.status)
      (update_phase_in_cluster api before running.job running).1
update_phase_in_cluster-Written_example =
    update_phase_in_cluster-Written api before running.job running poll_once_law (λ e. cc)
      phase_written

delete_pods_lem_example :
    Effect running (delete_pods api pods running) [] pods
    × ((delete_pods api pods running).0 ≡ ok tt)
delete_pods_lem_example = delete_pods_lem api pods running

delete_pods_and_services-Deletes_example :
    (gone : List Pod) × Picked (IsGivenUp CleanPodPolicy.running) pods gone
    × Deletes running (delete_pods_and_services api pods [] running) gone
delete_pods_and_services-Deletes_example = delete_pods_and_services-Deletes api pods [] running

task_type_name_validator-IsWellFormed_example :
    (task_type_name_validator running.job ≡ none) ↔ IsWellFormed running.job.spec.tasks
task_type_name_validator-IsWellFormed_example = task_type_name_validator-IsWellFormed running.job
