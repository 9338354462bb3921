-- ===== src/Tests/Lifecycle.antt =====
-- The theorems about a job over several calls of the operator, at a concrete job.
use di_orchestrator.Base.{
  length, ◌<◌, ◌+◌, ◌≡◌, ◌≤◌, ◌+◌, ◌-◌, refl, false, All, length, none, true, List, [], ◌∷◌, inr,
  arith,
}
use di_orchestrator.Text.{codes, atoi, parse_digits, text_eq}
use di_orchestrator.Dict.{lookup}
use di_orchestrator.Kube.{Pod, PodPhase, PodConditionType, ConditionStatus}
use di_orchestrator.Job.{Phase, annotation_rank, annotation_task_rank}
use di_orchestrator.Machine.{State, Api, ok, for_each}
use di_orchestrator.Pods.Calls.{list_pods, list_job_pods, list_services, list_job_services}
use di_orchestrator.Pods.Removal.{clean_up_job}
use di_orchestrator.Pods.Removal.Laws.{CleanedUp, clean_up_job-CleanedUp}
use di_orchestrator.Controller.Steps.{reconcile_with_job_status}
use di_orchestrator.Controller.Handlers.{handle_job_status}
use di_orchestrator.Controller.Steps.Restarts.Rounds.{Round, Rounds, restarts_by, restarts_bound}
use di_orchestrator.Machine.Log.{created_pods}
use di_orchestrator.Controller.Replicas.{
  find_max_global_rank, max_rank, local_trace, create_missed_replicas,
}
use di_orchestrator.Controller.Replicas.Built.{slots}
use di_orchestrator.Controller.Replicas.Ranks.{IsLargest}
use di_orchestrator.Controller.Replicas.Missing.{missing}
use di_orchestrator.Controller.Replicas.Filled.{
  IsTraced, Completed, create_missed_replicas-Completed,
}
use di_orchestrator.Controller.Replicas.Complete.{create_missed_replicas-missing}
use di_orchestrator.Utils.Pods.{count_scheduled_pods, count_ready_pods, is_pod_terminating}
use di_orchestrator.Pods.Build.{total_replicas}
use di_orchestrator.Controller.Steps.Lifecycle.{Gets}
use di_orchestrator.Controller.Steps.Lifecycle.Phases.{IsUp}
use di_orchestrator.Controller.Steps.Lifecycle.Succeeds.{reconcile_with_job_status-Succeeds}
use di_orchestrator.Tests.{api, pod_in, job_in, state_of, pods}

-- A job with a limit of two restarts, of which one is used up, and a failed pod.
abbrev running : State
running = state_of (job_in false Phase.running [])

abbrev reconciled : State
reconciled = (reconcile_with_job_status api pods running).1

restarts_bound_example : restarts_by Phase.running reconciled.job.status.phase + 0 ≤ 2 - 1
restarts_bound_example =
    restarts_bound api running.job (handle_job_status api running.job reconciled).1.job _ 2 1
      (Rounds.next (Round.round pods running reconciled refl) Rounds.stop) refl (omega arith) refl

-- A cluster with two running collectors of the job.
abbrev collectors : List Pod
collectors =
    pod_in PodPhase.running (codes "a") (codes "collector")
    ∷ pod_in PodPhase.running (codes "b") (codes "collector")
    ∷ []

abbrev peopled : Api
peopled = record api { list_pods = λ calls options. inr collectors }

cleaned : (clean_up_job peopled running).0 ≡ ok tt
unfolding clean_up_job list_job_pods list_pods list_job_services list_services for_each
cleaned = refl

clean_up_job-CleanedUp_example : CleanedUp peopled running (clean_up_job peopled running).1
clean_up_job-CleanedUp_example = clean_up_job-CleanedUp peopled running cleaned

abbrev restarting : State
restarting = state_of (job_in false Phase.restarting [])

-- The second of two collectors.
abbrev second_collector : Pod
second_collector = record (pod_in PodPhase.running (codes "a") (codes "collector")) {
  annotations = (annotation_rank, codes "4") ∷ (annotation_task_rank, codes "1") ∷ [];
}

ranked : find_max_global_rank (second_collector ∷ []) ≡ inr 4
unfolding find_max_global_rank max_rank atoi parse_digits lookup text_eq
ranked = refl

traced : All (IsTraced (second_collector ∷ [])) restarting.job.spec.tasks
unfolding local_trace atoi parse_digits lookup text_eq
traced = ((false ∷ true ∷ [], refl), ((false ∷ [], refl), tt))

few :
    4 + length (missing (second_collector ∷ []) (slots restarting.job.spec.tasks))
    < 9223372036854775808
unfolding text_eq lookup atoi
few = omega arith

create_missed_replicas-Completed_example :
    IsLargest 4 (second_collector ∷ [])
    × Completed [] 5
        (missing (second_collector ∷ []) (slots restarting.job.spec.tasks))
        restarting
        (create_missed_replicas api (second_collector ∷ []) [] restarting)
create_missed_replicas-Completed_example =
    create_missed_replicas-Completed api (second_collector ∷ []) [] restarting 4 (λ calls pod. refl)
      refl traced ranked few

create_missed_replicas-missing_example :
    (new : List Pod) × (created_pods
        (create_missed_replicas api (second_collector ∷ []) [] restarting).1.calls
      ≡ new)
    × (missing (second_collector ∷ new) (slots restarting.job.spec.tasks) ≡ [])
create_missed_replicas-missing_example =
    create_missed_replicas-missing api (second_collector ∷ []) [] restarting 4 (λ calls pod. refl)
      refl traced ranked (omega arith, (omega arith, tt))

abbrev pending : State
pending = state_of (job_in false Phase.pending [])

-- A pod in this phase, scheduled, with one ready container.
abbrev placed_in : PodPhase → Pod
placed_in phase =
    let pod = pod_in phase (codes "a") (codes "collector") in
    record pod {
      status = record pod.status {
        conditions =
            record {
              type = PodConditionType.pod_scheduled;
              status = ConditionStatus.condition_true;
            }
            ∷ [];
        container_statuses = record { ready = true; terminated = none; waiting = none } ∷ [];
      };
    }

abbrev three : Pod → List Pod
three pod = pod ∷ pod ∷ pod ∷ []

up : All IsUp (three (placed_in PodPhase.running))
unfolding count_scheduled_pods count_ready_pods is_pod_terminating
up = (one, (one, (one, tt)))
  where
    one : IsUp (placed_in PodPhase.running)
    one = (refl, refl, refl, refl)

reconcile_with_job_status-Succeeds_example :
    let first = reconcile_with_job_status api [] pending in
    (new : List Pod) × (created_pods first.1.calls ≡ new)
    × (length new ≡ total_replicas pending.job.spec.tasks)
    × (let second = reconcile_with_job_status api new first.1 in
        let third = reconcile_with_job_status api (three (placed_in PodPhase.running)) second.1 in
        let fourth = reconcile_with_job_status api (three (placed_in PodPhase.succeeded)) third.1 in
        Gets Phase.pending pending first
        × Gets Phase.starting first.1 second
        × Gets Phase.running second.1 third
        × Gets Phase.succeeded third.1 fourth)
unfolding total_replicas
reconcile_with_job_status-Succeeds_example =
    reconcile_with_job_status-Succeeds api pending (three (placed_in PodPhase.running))
      (three (placed_in PodPhase.succeeded)) (λ calls pod. refl) refl refl (omega arith) up refl
      ((refl, refl), ((refl, refl), ((refl, refl), tt))) refl
