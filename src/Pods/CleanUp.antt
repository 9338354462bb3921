-- ===== src/Pods/CleanUp.antt =====
-- pkg/context/pod.go: DeletePodsAndServices, what is removed once a job has ended.
pub mod Policies
pub mod Laws
use di_orchestrator.Base.{
  Bool, true, false, not, ◌&&◌, ◌||◌, Option, none, some, ℤ, List, [], ◌∷◌, if◌then◌else◌,
}
use di_orchestrator.Text.{Text, codes, text_eq}
use di_orchestrator.Kube.{Pod, PodPhase, pod_phase_eq, ContainerStatus, Service}
use di_orchestrator.Job.{CleanPodPolicy}
use di_orchestrator.Machine.{Action, Api, pure, get, for_each, ◌>>=◌, ◌>>◌}
use di_orchestrator.Utils.Pods.{is_pod_terminating}
use di_orchestrator.Pods.Calls.{delete_pod, delete_service}

abbrev pub has_ended : Option ℤ → Bool
has_ended none = false
has_ended (some _) = true

abbrev pub is_looping : Option Text → Bool
is_looping none = false
is_looping (some reason) = text_eq reason (codes "CrashLoopBackOff")

-- A container that has ended, or that waits to be started again after a crash.
unfoldable pub any_ended : List ContainerStatus → Bool
any_ended [] = false
any_ended (c ∷ cs) = has_ended c.terminated || is_looping c.waiting || any_ended cs

abbrev pub is_active : Pod → Bool
is_active pod =
    pod_phase_eq pod.status.phase PodPhase.running || pod_phase_eq pod.status.phase PodPhase.pending

-- Whether the loop deletes the pod, under a policy that is All or Running.
unfoldable pub needs_delete : CleanPodPolicy → Pod → Bool
unfolding any_ended
needs_delete CleanPodPolicy.running pod =
    is_active pod && not (any_ended pod.status.container_statuses) && not (is_pod_terminating pod)
needs_delete _ pod = not (is_pod_terminating pod)

abbrev cleans : CleanPodPolicy → Bool
cleans CleanPodPolicy.all = true
cleans CleanPodPolicy.running = true
cleans _ = false

delete_if_needed : Api → CleanPodPolicy → Pod → Action (Unit {0})
delete_if_needed api policy pod = if needs_delete policy pod then delete_pod api pod else pure tt

-- With no pod left nothing is done, also if services are left.
unfoldable pub delete_pods_and_services : Api → List Pod → List Service → Action (Unit {0})
unfolding delete_if_needed
delete_pods_and_services api [] services = pure tt
delete_pods_and_services api (pod ∷ pods) services = do
  for_each services (delete_service api)
  s ← get
  if cleans s.job.spec.clean_pod_policy
      then for_each (pod ∷ pods) (delete_if_needed api s.job.spec.clean_pod_policy)
      else pure tt
