-- ===== src/Controller/Steps.antt =====
-- pkg/controllers/dijob.go: what one reconciliation does, phase by phase.
pub mod Stable
pub mod Edges
pub mod Crash
pub mod Restarts
pub mod Lifecycle
use di_orchestrator.Base.{
  ℕ, zero, suc, ◌+◌, Bool, true, false, not, ◌&&◌, ◌||◌, Option, none, some, List, [], ◌∷◌, ◌++◌, ℤ,
  pos, negsuc, ltb, ◌==◌, length, get_elem?, eqb_ℤ, int32, ◌+ℤ◌, if◌then◌else◌,
}
use di_orchestrator.Text.{Text, codes, text_eq, atoi, itoa, join}
use di_orchestrator.Dict.{Dict, insert, text_at}
use di_orchestrator.Kube.{Pod, PodPhase, pod_phase_eq, Service}
use di_orchestrator.Job.{
  DiJob, DiJobStatus, Phase, Task, TaskStatus, annotation_replicas, annotation_rank,
  annotation_node,
}
use di_orchestrator.Machine.{Action, Api, pure, get, modify_job, for_each, ◌>>=◌, ◌>>◌}
use di_orchestrator.Utils.Pods.{count_scheduled_pods, count_ready_pods, count_completed_pods}
use di_orchestrator.Utils.Filters.{
  filter_pods, terminating_pod_filter, non_terminating_pod_filter, split_typed_pods,
}
use di_orchestrator.Status.{
  update_job_status, update_job_status_by_backoff_limit, with_status, pending_reason,
  starting_reason, running_reason, rescheduling_reason, succeeded_reason,
}
use di_orchestrator.Pods.Build.{build_service, total_replicas}
use di_orchestrator.Pods.Calls.{create_service, delete_service, delete_pods}
use di_orchestrator.Controller.Replicas.{
  or_crash, build_and_create_pods, delete_redundant_replicas, create_missed_replicas,
  delete_failed_replicas,
}
use di_orchestrator.Controller.Checks.{
  update_status_replicas, check_pods_completion, detect_reschedule,
}

abbrev pub reschedule_msg : Text
reschedule_msg = codes "job is rescheduling since replicas or allocation changed."

abbrev pub all_created_msg : Text
all_created_msg = codes "job is starting since all pods are created."

abbrev pub matched_msg : ℕ → ℕ → Text
matched_msg created replicas =
    codes "job is starting since the created pods "
    ++ itoa created
    ++ codes " are matched replicas "
    ++ itoa replicas
    ++ codes "."

abbrev pub replicas_msg : ℕ → List Text → Text
replicas_msg replicas allocation =
    codes "job is rescheduling since replicas changed, replicas: "
    ++ itoa replicas
    ++ codes ", allocation: ["
    ++ join (codes " ") allocation
    ++ codes "]."

-- case JobPending
unfoldable pub on_pending : Api → List Pod → List Pod → ℕ → List Text → Action (Unit {0})
on_pending api total_pods pods replicas allocation =
    if replicas == 0
    then pure tt
    else if length total_pods == 0
    then build_and_create_pods api allocation
    else if length pods == replicas
    then update_job_status api Phase.starting starting_reason all_created_msg
    else if not (length pods == length total_pods)
    then delete_pods api total_pods
    else pure tt

-- case JobStarting; the second test of the `if` is made only if the first holds.
unfoldable pub on_starting : Api → List Pod → ℕ → List Text → Action (Unit {0})
on_starting api pods replicas allocation = do
  ended ← check_pods_completion api pods
  if ended then pure tt else (do
    s ← get
    moved ←
        (if not (count_scheduled_pods pods == replicas)
          then or_crash (detect_reschedule s.job pods allocation replicas)
          else pure false)
    if moved
        then update_job_status api Phase.rescheduling rescheduling_reason reschedule_msg
        else if count_ready_pods pods == replicas
        then update_job_status api Phase.running running_reason
            (codes "job is running since all pods are ready.")
        else pure tt)

-- case JobRunning
unfoldable pub on_running : Api → List Pod → ℕ → List Text → Action (Unit {0})
on_running api pods replicas allocation = do
  ended ← check_pods_completion api pods
  if ended then pure tt else (do
    s ← get
    moved ← or_crash (detect_reschedule s.job pods allocation replicas)
    if moved
        then update_job_status api Phase.rescheduling rescheduling_reason
            (replicas_msg replicas allocation)
        else pure tt)

-- case JobRestarting
unfoldable pub on_restarting : Api → List Pod → ℕ → List Text → Action (Unit {0})
on_restarting api pods replicas allocation =
    if ltb replicas (length pods)
    then delete_redundant_replicas api pods
    else if ltb (length pods) replicas
    then create_missed_replicas api pods allocation
    else (do
      all_ready ← delete_failed_replicas api pods
      if all_ready
          then update_job_status api Phase.starting starting_reason
              (matched_msg (length pods) replicas)
          else pure tt)

-- case JobRescheduling
unfoldable pub on_rescheduling :
    Api → Bool → List Pod → List Pod → ℕ → List Text → Action (Unit {0})
on_rescheduling api true total_pods pods replicas allocation =
    if not (length pods == 0) then delete_pods api pods else (do
      build_and_create_pods api allocation
      update_job_status api Phase.starting starting_reason all_created_msg)
on_rescheduling api false total_pods pods replicas allocation =
    if ltb replicas (length pods)
    then delete_redundant_replicas api pods
    else if ltb (length pods) replicas
    then (do
      delete_pods api (filter_pods total_pods (terminating_pod_filter ∷ []))
      create_missed_replicas api pods allocation)
    else if replicas == 0
    then update_job_status api Phase.pending pending_reason
        (codes "job is pending since no replicas assigned.")
    else update_job_status api Phase.starting starting_reason (matched_msg (length pods) replicas)

-- The `switch` on the phase.
unfoldable pub by_phase :
    Api → Phase → Bool → List Pod → List Pod → ℕ → List Text → Action (Unit {0})
by_phase api Phase.pending preemptible total_pods pods replicas allocation =
    on_pending api total_pods pods replicas allocation
by_phase api Phase.starting preemptible total_pods pods replicas allocation =
    on_starting api pods replicas allocation
by_phase api Phase.running preemptible total_pods pods replicas allocation =
    on_running api pods replicas allocation
by_phase api Phase.restarting preemptible total_pods pods replicas allocation =
    on_restarting api pods replicas allocation
by_phase api Phase.rescheduling preemptible total_pods pods replicas allocation =
    on_rescheduling api preemptible total_pods pods replicas allocation
by_phase api _ preemptible total_pods pods replicas allocation = pure tt

-- reconcileWithJobStatus
unfoldable pub reconcile_with_job_status : Api → List Pod → Action (Unit {0})
unfolding by_phase
reconcile_with_job_status api total_pods = do
  s ← get
  let allocation = s.job.status.allocation
  let replicas = total_replicas s.job.spec.tasks
  modify_job (update_status_replicas total_pods replicas)
  t ← get
  let pods = filter_pods total_pods (non_terminating_pod_filter ∷ [])
  by_phase api t.job.status.phase t.job.spec.preemptible total_pods pods replicas allocation

-- reconcileServices
unfoldable pub reconcile_services : Api → List Service → Action (Unit {0})
reconcile_services api [] = do s ← get; create_service api (build_service s.job)
reconcile_services api (svc ∷ []) = pure tt
reconcile_services api (svc ∷ other ∷ svcs) = for_each (svc ∷ other ∷ svcs) (delete_service api)
