-- ===== src/Utils/Pods.antt =====
-- pkg/utils/util.go: the tests and the counts over pods.

pub mod Counts
use di_orchestrator.Base.{
  ℕ, suc, Bool, true, false, not, ◌&&◌, ◌||◌, Option, none, some, List, [], ◌∷◌, ℤ, pos, eqb_ℤ,
  if◌then◌else◌,
}
use di_orchestrator.Text.{codes, text_eq, has_prefix}
use di_orchestrator.Kube.{
  Pod, PodPhase, pod_phase_eq, PodCondition, ContainerStatus, ConditionStatus, PodConditionType,
}
use di_orchestrator.Job.{DiJob, Phase, phase_eq}

unfoldable pub is_succeeded : DiJob → Bool
is_succeeded job = phase_eq job.status.phase Phase.succeeded

unfoldable pub is_failed : DiJob → Bool
is_failed job = phase_eq job.status.phase Phase.failed

abbrev scheduled_type : PodConditionType → Bool
scheduled_type PodConditionType.pod_scheduled = true
scheduled_type PodConditionType.other_condition = false

abbrev is_true : ConditionStatus → Bool
is_true ConditionStatus.condition_true = true
is_true ConditionStatus.condition_false = false
is_true ConditionStatus.condition_unknown = false

abbrev pub is_scheduled : PodCondition → Bool
is_scheduled c = scheduled_type c.type && is_true c.status

count_conditions : List PodCondition → ℕ → ℕ
count_conditions [] count = count
count_conditions (c ∷ cs) count = count_conditions cs (if is_scheduled c then suc count else count)

-- The inner loop adds one for every condition that says so, not one for every pod.
count_scheduled : List Pod → ℕ → ℕ
count_scheduled [] count = count
count_scheduled (pod ∷ pods) count =
    count_scheduled pods (count_conditions pod.status.conditions count)

unfoldable pub count_scheduled_pods : List Pod → ℕ
unfolding count_scheduled count_conditions
count_scheduled_pods pods = count_scheduled pods 0

unfoldable pub is_pod_terminating : Pod → Bool
is_pod_terminating pod = elim pod.deletion_timestamp [ none ↦ false | some _ ↦ true ]

count_containers : List ContainerStatus → ℕ → ℕ
count_containers [] count = count
count_containers (c ∷ cs) count = count_containers cs (if c.ready then suc count else count)

-- The inner loop adds one for every ready container.
count_ready : List Pod → ℕ → ℕ
unfolding is_pod_terminating count_containers
count_ready [] count = count
count_ready (pod ∷ pods) count =
    count_ready pods (
      if is_pod_terminating pod
      then count
      else count_containers pod.status.container_statuses count)

unfoldable pub count_ready_pods : List Pod → ℕ
unfolding count_ready
count_ready_pods pods = count_ready pods 0

unfoldable pub is_pod_succeeded : Pod → Bool
is_pod_succeeded pod = pod_phase_eq pod.status.phase PodPhase.succeeded

abbrev ended_143 : Option ℤ → Bool
ended_143 none = false
ended_143 (some code) = eqb_ℤ code (pos 143)

unfoldable pub exit_143 : List ContainerStatus → Bool
exit_143 [] = false
exit_143 (c ∷ cs) = ended_143 c.terminated || exit_143 cs

unfoldable pub is_pod_failed : Pod → Bool → Bool
unfolding exit_143 is_pod_terminating
is_pod_failed pod preemptible =
    if not (pod_phase_eq pod.status.phase PodPhase.unknown)
      && not (pod_phase_eq pod.status.phase PodPhase.failed)
    then false
    else if text_eq pod.status.reason (codes "UnexpectedAdmissionError")
    then false
    else if has_prefix pod.status.reason (codes "Outof")
    then false
    else if preemptible && exit_143 pod.status.container_statuses
    then false
    else if is_pod_terminating pod
    then false
    else true

count_completed : List Pod → Bool → ℕ → ℕ → ℕ × ℕ
count_completed [] preemptible succeeded failed = (succeeded, failed)
count_completed (pod ∷ pods) preemptible succeeded failed =
    count_completed pods preemptible (if is_pod_succeeded pod then suc succeeded else succeeded) (
      if is_pod_succeeded pod
      then failed
      else if is_pod_failed pod preemptible
      then suc failed
      else failed)

-- The numbers of succeeded and of failed pods.
unfoldable pub count_completed_pods : List Pod → Bool → ℕ × ℕ
unfolding count_completed
count_completed_pods pods preemptible = count_completed pods preemptible 0 0
