-- ===== src/Controller/Checks.antt =====
-- pkg/controllers/dijob.go: what the phases look at, before they act: updateStatusReplicas, the
-- checks of the pods' completion, and detectReschedule.
use di_orchestrator.Base.{
  ℕ, Bool, true, false, not, ◌&&◌, Option, none, some, List, [], ◌∷◌, ◌++◌, ℤ, pos, negsuc, ◌==◌,
  length, get_elem?, eqb_ℤ, int32, ◌+ℤ◌, if◌then◌else◌,
}
use di_orchestrator.Text.{Text, codes, text_eq, atoi, itoa}
use di_orchestrator.Dict.{Dict, insert, text_at}
use di_orchestrator.Kube.{Pod, PodPhase, pod_phase_eq}
use di_orchestrator.Job.{
  DiJob, DiJobStatus, Phase, TaskStatus, annotation_replicas, annotation_rank, annotation_node,
}
use di_orchestrator.Machine.{Action, Api, pure, get, ◌>>=◌, ◌>>◌}
use di_orchestrator.Utils.Pods.{count_ready_pods, count_completed_pods}
use di_orchestrator.Utils.Filters.{split_typed_pods}
use di_orchestrator.Status.{
  update_job_status, update_job_status_by_backoff_limit, with_status, succeeded_reason,
}

-- `taskStatus[phase]++`, an int32
count_phase : PodPhase → TaskStatus → TaskStatus
count_phase p [] = (p, pos 1) ∷ []
count_phase p ((q, n) ∷ rest) =
    if pod_phase_eq q p then (q, int32 (n +ℤ pos 1)) ∷ rest else (q, n) ∷ count_phase p rest

task_status : List Pod → TaskStatus → TaskStatus
unfolding count_phase
task_status [] counts = counts
task_status (pod ∷ pods) counts = task_status pods (count_phase pod.status.phase counts)

unfoldable pub tasks_status : Dict (List Pod) → Dict TaskStatus → Dict TaskStatus
unfolding task_status
tasks_status [] out = out
tasks_status ((name, pods) ∷ rest) out = tasks_status rest (insert name (task_status pods []) out)

-- The counts of a preemptible job, by its allocation.
abbrev pub count_allocated : List Pod → DiJobStatus → List Text → DiJobStatus
count_allocated pods st [] = record st { allocation = []; replicas = pos 0; ready_replicas = pos 0 }
count_allocated pods st (_ ∷ _) = record st {
  replicas = int32 (pos (length st.allocation));
  ready_replicas = int32 (pos (count_ready_pods pods));
}

-- The counts of a job that is preemptible, or not.
abbrev pub count_replicas : Bool → List Pod → ℕ → DiJobStatus → DiJobStatus
count_replicas true pods replicas st = count_allocated pods st st.allocation
count_replicas false pods replicas st = record st {
  replicas = int32 (pos replicas);
  ready_replicas = int32 (pos (count_ready_pods pods));
  task_status = tasks_status (split_typed_pods pods) [];
}

-- updateStatusReplicas
unfoldable pub update_status_replicas : List Pod → ℕ → DiJob → DiJob
unfolding tasks_status
update_status_replicas pods replicas job =
    with_status (count_replicas job.spec.preemptible pods replicas) job

-- checkAllPodsSucceeded
unfoldable pub check_all_pods_succeeded : Api → List Pod → Action Bool
check_all_pods_succeeded api pods = do
  s ← get
  let succeeded = (count_completed_pods pods s.job.spec.preemptible).0
  if not (succeeded == 0) && succeeded == length pods
      then (do
        update_job_status api Phase.succeeded succeeded_reason
            (codes "job succeeded since all the replicas are succeeded.")
        pure true)
      else pure false

-- checkPodsFailed
unfoldable pub check_pods_failed : Api → List Pod → Action Bool
check_pods_failed api pods = do
  s ← get
  let failed = (count_completed_pods pods s.job.spec.preemptible).1
  if not (failed == 0)
      then (do
        update_job_status_by_backoff_limit api (itoa failed ++ codes " pods failed.")
        pure true)
      else pure false

-- checkPodsCompletion
unfoldable pub check_pods_completion : Api → List Pod → Action Bool
unfolding check_all_pods_succeeded check_pods_failed
check_pods_completion api pods = do
  ended ← check_all_pods_succeeded api pods
  if ended then pure true else check_pods_failed api pods

-- Whether a pod stands where the allocation puts it; `none` is a panic.
abbrev pub is_moved : List Text → Text → ℤ → Option Bool
is_moved allocation node (negsuc _) = none
is_moved allocation node (pos rank) = elim (get_elem? allocation rank) [
  | none ↦ none
  | some assigned ↦ some (not (text_eq node assigned))
]

abbrev or_else : Option Bool → Option Bool → Option Bool
or_else none _ = none
or_else (some true) _ = some true
or_else (some false) rest = rest

-- By the two numbers that were read from the annotations; `none` is one that is not valid.
abbrev pub moved_by : List Text → Text → Option ℤ → Option ℤ → Option Bool
moved_by allocation node none rank = some true
moved_by allocation node (some replicas) none = some true
moved_by allocation node (some replicas) (some rank) =
    if not (eqb_ℤ replicas (pos (length allocation)))
    then some true
    else is_moved allocation node rank

abbrev pub pod_moved : List Text → Pod → Option Bool
pod_moved allocation pod =
    moved_by allocation (text_at annotation_node pod.annotations)
      (atoi (text_at annotation_replicas pod.annotations))
      (atoi (text_at annotation_rank pod.annotations))

unfoldable pub any_moved : List Text → List Pod → Option Bool
any_moved allocation [] = some false
any_moved allocation (pod ∷ pods) = or_else (pod_moved allocation pod) (any_moved allocation pods)

-- detectReschedule
unfoldable pub detect_reschedule : DiJob → List Pod → List Text → ℕ → Option Bool
unfolding any_moved
detect_reschedule job pods allocation replicas =
    if not job.spec.preemptible
    then some (not (length pods == replicas))
    else any_moved allocation pods
