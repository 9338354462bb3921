-- ===== src/Pods/Removal.antt =====
-- pkg/context/job.go: CleanUpJob and WaitForAllReplicas. The time that CleanUpJob sleeps between two
-- calls is not modelled.
pub mod Made
pub mod Laws
use di_orchestrator.Base.{Bool, true, false, List, [], ◌∷◌, leb, length, if◌then◌else◌}
use di_orchestrator.Kube.{Pod, PodPhase, pod_phase_eq, Service}
use di_orchestrator.Machine.{Call, Action, Api, pure, get, send_error, for_each, ◌>>=◌, ◌>>◌}
use di_orchestrator.Pods.Calls.{list_job_pods, list_job_services}

-- `c.Delete`, with no event and no error passed over.
abbrev pub send_delete_job : Api → Action (Unit {0})
send_delete_job api = do
  s ← get
  send_error (Call.delete_job s.job) (λ calls. api.delete_job calls s.job)

abbrev pub send_delete_pod : Api → Pod → Action (Unit {0})
send_delete_pod api pod = send_error (Call.delete_pod pod) (λ calls. api.delete_pod calls pod)

abbrev pub send_delete_service : Api → Service → Action (Unit {0})
send_delete_service api svc =
    send_error (Call.delete_service svc) (λ calls. api.delete_service calls svc)

-- CleanUpJob
unfoldable pub clean_up_job : Api → Action (Unit {0})
clean_up_job api = do
  send_delete_job api
  pods ← list_job_pods api
  for_each pods (send_delete_pod api)
  svcs ← list_job_services api
  for_each svcs (send_delete_service api)

-- The loop over the pods: all of them are in the phase.
unfoldable pub all_in_phase : PodPhase → List Pod → Bool
all_in_phase phase [] = true
all_in_phase phase (pod ∷ pods) =
    let rest = all_in_phase phase pods in
    if pod_phase_eq pod.status.phase phase then rest else false

-- The condition that WaitForAllReplicas polls: with one pod at most it goes on waiting.
unfoldable pub replicas_in_phase : Api → PodPhase → Action Bool
replicas_in_phase api phase = do
  pods ← list_job_pods api
  pure (if leb (length pods) 1 then false else all_in_phase phase pods)

-- WaitForAllReplicas
unfoldable pub wait_for_all_replicas : Api → PodPhase → Action (Unit {0})
wait_for_all_replicas api phase = api.poll (replicas_in_phase api phase)
