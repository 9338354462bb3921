-- ===== src/Pods/Calls.antt =====
-- pkg/context/pod.go: creating, deleting and listing pods and services.
pub mod Deletes
pub mod Loops
use di_orchestrator.Base.{
  Bool, true, false, not, ◌&&◌, ◌||◌, Option, none, some, List, [], ◌∷◌, ◌++◌, inl, inr, ◌⊎◌,
  if◌then◌else◌,
}
use di_orchestrator.Text.{Text, codes, text_eq}
use di_orchestrator.Kube.{Pod, PodPhase, pod_phase_eq, ContainerStatus, Service, ListOptions}
use di_orchestrator.Job.{DiJob, CleanPodPolicy}
use di_orchestrator.Machine.{
  Error, failure, error_text, EventType, Call, Action, Api, pure, throw, get, attempt, lift_error,
  send, send_error, record_event, for_each, ◌>>=◌, ◌>>◌,
}
use di_orchestrator.Status.{
  successful_create_reason, failed_create_reason, successful_delete_reason, failed_delete_reason,
}
use di_orchestrator.Utils.Spec.{gen_labels}
use di_orchestrator.Utils.Pods.{is_pod_terminating}

-- The rest of a call that failed: an event, and an error with the text of the first.
abbrev pub report_failure : Text → Text → Text → Text → Error → Action (Unit {0})
report_failure verb reason kind name e =
    record_event EventType.warning reason
      (codes "failed to " ++ verb ++ kind ++ codes ": " ++ name ++ codes " error: " ++ error_text e)
    >> throw (failure (codes "failed to " ++ verb ++ kind ++ codes ": " ++ error_text e))

-- The error, unless it is of the kind that is passed over.
abbrev pub tolerated : (Error → Bool) → Error ⊎ Unit {0} → Option Error
tolerated passed (inl e) = if passed e then none else some e
tolerated passed (inr _) = none

-- The end of each call: an event, and an error if the call failed.
unfoldable pub finish :
    (Error → Bool) → Text → Text → Text → Text → Text → Text → Error ⊎ Unit {0} → Action (Unit {0})
finish passed verb done failed_reason done_reason kind name r = elim (tolerated passed r) [
  | some e ↦ report_failure verb failed_reason kind name e
  | none ↦
      record_event EventType.normal done_reason
        (kind ++ codes " " ++ name ++ codes " was successfully " ++ done)
]

-- CreatePod
unfoldable pub create_pod : Api → Pod → Action (Unit {0})
create_pod api pod = do
  r ← attempt (send_error (Call.create_pod pod) (λ calls. api.create_pod calls pod))
  finish api.is_already_exists (codes "create ") (codes "created") failed_create_reason
      successful_create_reason (codes "pod") pod.name r

-- CreateService
unfoldable pub create_service : Api → Service → Action (Unit {0})
create_service api svc = do
  r ← attempt (send_error (Call.create_service svc) (λ calls. api.create_service calls svc))
  finish api.is_already_exists (codes "create ") (codes "created") failed_create_reason
      successful_create_reason (codes "service") svc.name r

-- DeletePod, with a grace period of 0
unfoldable pub delete_pod : Api → Pod → Action (Unit {0})
delete_pod api pod = do
  r ← attempt (send_error (Call.delete_pod pod) (λ calls. api.delete_pod calls pod))
  finish api.is_not_found (codes "delete ") (codes "deleted") failed_delete_reason
      successful_delete_reason (codes "pod") pod.name r

-- DeleteService
unfoldable pub delete_service : Api → Service → Action (Unit {0})
delete_service api svc = do
  r ← attempt (send_error (Call.delete_service svc) (λ calls. api.delete_service calls svc))
  finish api.is_not_found (codes "delete ") (codes "deleted") failed_delete_reason
      successful_delete_reason (codes "service") svc.name r

-- `if err1 := …; err != nil { err = err1 }`: the test is on `err`, not on `err1`.
abbrev pub next_error : Option Error → Error ⊎ Unit {0} → Option Error
next_error none _ = none
next_error (some _) (inl e) = some e
next_error (some _) (inr _) = none

unfoldable pub delete_pods_from : Api → List Pod → Option Error → Action (Unit {0})
delete_pods_from api [] error = lift_error error
delete_pods_from api (pod ∷ pods) error = do
  r ← attempt (delete_pod api pod)
  delete_pods_from api pods (next_error error r)

-- DeletePods
unfoldable pub delete_pods : Api → List Pod → Action (Unit {0})
unfolding delete_pods_from
delete_pods api pods = delete_pods_from api pods none

-- ListPods, ListServices
unfoldable pub list_pods : Api → ListOptions → Action (List Pod)
list_pods api opts = send (Call.list_pods opts) (λ calls. api.list_pods calls opts)

unfoldable pub list_services : Api → ListOptions → Action (List Service)
list_services api opts = send (Call.list_services opts) (λ calls. api.list_services calls opts)

abbrev pub options_for : DiJob → ListOptions
options_for job = record { namespace = job.namespace; match_labels = gen_labels job }

-- ListJobPods, ListJobServices
unfoldable pub list_job_pods : Api → Action (List Pod)
unfolding list_pods
list_job_pods api = do
  s ← get
  lift_error (api.selector_error (gen_labels s.job))
  list_pods api (options_for s.job)

unfoldable pub list_job_services : Api → Action (List Service)
unfolding list_services
list_job_services api = do
  s ← get
  lift_error (api.selector_error (gen_labels s.job))
  list_services api (options_for s.job)
