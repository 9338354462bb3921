-- ===== src/Tests/Operator.antt =====
-- The theorems about pkg/controllers and the building of pods, at a concrete job.
use di_orchestrator.Base.{
  filter, drop, ◌∷◌, inr, ◌≡◌, ◌≤◌, ◌↔◌, ◌⊎◌, refl, true, false, some, List, [], arith,
}
use di_orchestrator.Text.{atoi, parse_digits, codes, text_eq, has_prefix}
use di_orchestrator.Dict.{lookup, insert}
use di_orchestrator.Utils.Pods.{is_pod_failed, exit_143, is_pod_terminating}
use di_orchestrator.Utils.Validator.Laws.{count_type}
use di_orchestrator.Pods.Calls.{delete_pod, finish}
use di_orchestrator.Kube.{Pod, PodPhase}
use di_orchestrator.Job.{annotation_rank, DiJob, Phase}
use di_orchestrator.Machine.{State, ok, panic}
use di_orchestrator.Pods.Build.{total_replicas}
use di_orchestrator.Pods.Calls.Loops.{Deletes}
use di_orchestrator.Controller.Replicas.{
  build_pods, build_and_create_pods, delete_redundant_replicas, delete_failed_replicas,
  delete_redundant, type_numbers, delete_failed,
}
use di_orchestrator.Controller.Replicas.{max_rank, find_max_global_rank}
use di_orchestrator.Controller.Replicas.Ranks.{IsLargest, find_max_global_rank-IsLargest}
use di_orchestrator.Controller.Replicas.Built.{build_pods_lem, Stand, slots}
use di_orchestrator.Controller.Replicas.Frames.{StaysOrFails, build_and_create_pods-phase}
use di_orchestrator.Controller.Replicas.Deletes.{
  failed_pods, has_type, replicas_of, delete_redundant_replicas-surplus,
  delete_failed_replicas-Deletes,
}
use di_orchestrator.Controller.Checks.{detect_reschedule}
use di_orchestrator.Controller.Steps.{reconcile_with_job_status}
use di_orchestrator.Controller.Steps.Edges.{◌⟶◌}
use di_orchestrator.Controller.Steps.Edges.Reconciled.{reconcile_with_job_status-⟶}
use di_orchestrator.Controller.Steps.Stable.{detect_reschedule-build_pods}
use di_orchestrator.Controller.Steps.Crash.{reconcile_with_job_status_short}
use di_orchestrator.Controller.Handlers.{handle_job_status}
use di_orchestrator.Controller.Handlers.Table.{Entered, handle_job_status-Entered}
use di_orchestrator.Tests.{pod_in, api, settings, job_in, state_of, pods, nodes}

-- A job that runs on three nodes.
abbrev placed : DiJob
placed = job_in true Phase.running nodes

abbrev restarting : State
restarting = state_of (job_in false Phase.restarting [])

reconcile_with_job_status-⟶_example :
    Phase.restarting ⟶ (reconcile_with_job_status api pods restarting).1.job.status.phase
reconcile_with_job_status-⟶_example = reconcile_with_job_status-⟶ api pods restarting

detect_reschedule-build_pods_example :
    (built : List Pod) × (build_pods settings placed nodes 0 0 placed.spec.tasks ≡ some built)
    × (detect_reschedule placed built nodes (total_replicas placed.spec.tasks) ≡ some false)
unfolding total_replicas
detect_reschedule-build_pods_example =
    detect_reschedule-build_pods settings placed nodes (λ p. refl) (omega arith)

build_pods_lem_example :
    (built : List Pod) × (build_pods settings placed nodes 0 0 placed.spec.tasks ≡ some built)
    × Stand placed nodes 0 (slots placed.spec.tasks) built
unfolding total_replicas
build_pods_lem_example = build_pods_lem settings placed nodes (λ p. omega arith)

build_and_create_pods-phase_example :
    (build_and_create_pods api [] restarting ≡ (panic, restarting))
    ⊎ (((build_and_create_pods api [] restarting).0 ≡ ok tt)
        × StaysOrFails Phase.restarting
            (build_and_create_pods api [] restarting).1.job.status.phase)
build_and_create_pods-phase_example = build_and_create_pods-phase api [] restarting

two_removed : (delete_redundant_replicas api pods restarting).0 ≡ ok tt
unfolding delete_redundant_replicas delete_redundant type_numbers delete_pod finish lookup insert
    text_eq
two_removed = refl

one_failed : (delete_failed_replicas api pods restarting).0 ≡ ok false
unfolding delete_failed_replicas delete_failed delete_pod finish is_pod_failed exit_143
    is_pod_terminating text_eq has_prefix
one_failed = refl

one_task_collects : count_type (codes "collector") restarting.job.spec.tasks ≤ 1
unfolding text_eq
one_task_collects = omega arith

delete_redundant_replicas-surplus_example :
    (surplus : List Pod) × Deletes restarting
      (delete_redundant_replicas api pods restarting)
      surplus
    × (filter (has_type (codes "collector")) surplus
        ≡ drop
            (replicas_of (codes "collector") restarting.job.spec.tasks)
            (filter (has_type (codes "collector")) pods))
delete_redundant_replicas-surplus_example =
    delete_redundant_replicas-surplus api pods restarting (codes "collector") one_task_collects

delete_failed_replicas-Deletes_example :
    let out = delete_failed_replicas api pods restarting in
    Deletes restarting out (failed_pods false pods)
    × ((out.0 ≡ ok true) ↔ (failed_pods false pods ≡ []))
delete_failed_replicas-Deletes_example = delete_failed_replicas-Deletes api pods restarting

abbrev unplaced : State
unplaced = state_of (job_in true Phase.pending [])

reconcile_with_job_status_short_example :
    ((reconcile_with_job_status api [] unplaced).0 ≡ panic)
    × ((reconcile_with_job_status api [] unplaced).1.calls ≡ [])
unfolding total_replicas
reconcile_with_job_status_short_example =
    reconcile_with_job_status_short api unplaced refl refl (omega arith)

handle_job_status-Entered_example :
    Entered Phase.restarting
      (api.now 0)
      restarting.job.status
      (handle_job_status api placed restarting).1.job.status
handle_job_status-Entered_example =
    handle_job_status-Entered api placed restarting tt tt (λ e. cc) (λ gap. cc gap.0)

abbrev ranked : Pod
ranked = record (pod_in PodPhase.running (codes "a") (codes "collector")) {
  annotations = (annotation_rank, codes "4") ∷ [];
}

fourth : find_max_global_rank (ranked ∷ []) ≡ inr 4
unfolding find_max_global_rank max_rank atoi parse_digits lookup text_eq
fourth = refl

find_max_global_rank-IsLargest_example : IsLargest 4 (ranked ∷ [])
find_max_global_rank-IsLargest_example = find_max_global_rank-IsLargest (ranked ∷ []) 4 fourth
