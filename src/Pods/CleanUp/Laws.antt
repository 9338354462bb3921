-- ===== src/Pods/CleanUp/Laws.antt =====
-- What is removed once a job has ended.
use di_orchestrator.Base.{Bool-cases, inl, inr, List, [], ◌∷◌, filter, if◌then◌else◌}
use di_orchestrator.Kube.{Pod, Service}
use di_orchestrator.Job.{CleanPodPolicy}
use di_orchestrator.Machine.{State, Api, for_each, pure}
use di_orchestrator.Pods.Calls.{delete_pod, delete_service}
use di_orchestrator.Pods.Calls.Deletes.{delete_pod-Effect, delete_service-Effect}
use di_orchestrator.Pods.Calls.Loops.{
  Deletes, Deletes-nil, Deletes-cons, Deletes-after, nothing_deleted,
}
use di_orchestrator.Pods.CleanUp.{needs_delete, delete_if_needed, cleans, delete_pods_and_services}
use di_orchestrator.Pods.CleanUp.Policies.{
  IsGivenUp, Picked, given_up, given_up-Picked, given_up-nil,
}

for_each-Deletes :
    (api : Api) (policy : CleanPodPolicy) (pods : List Pod) (s : State)
    → Deletes s (for_each pods (delete_if_needed api policy) s) (filter (needs_delete policy) pods)
unfolding for_each delete_if_needed
for_each-Deletes api policy [] s = Deletes-nil s tt
for_each-Deletes api policy (pod ∷ pods) s = elim (Bool-cases (needs_delete policy pod)) [
  | inl due ↦ rw due (
      Deletes-cons (delete_pod api pod s) _ pod (delete_pod-Effect api pod s)
        (λ a e. for_each-Deletes api policy pods (delete_pod api pod s).1))
  | inr kept ↦ rw kept (for_each-Deletes api policy pods s)
]

-- The loop over the services deletes no pod.
for_each_service-Deletes :
    (api : Api) (services : List Service) (s : State)
    → Deletes s (for_each services (delete_service api) s) []
unfolding for_each
for_each_service-Deletes api [] s = Deletes-nil s tt
for_each_service-Deletes api (svc ∷ services) s =
    Deletes-after (delete_service api svc s) _ (delete_service-Effect api svc s)
      (λ a e. for_each_service-Deletes api services (delete_service api svc s).1)

clean_pods-Deletes :
    (api : Api) (policy : CleanPodPolicy) (pods : List Pod) (s : State)
    → Deletes s
        ((if cleans policy then for_each pods (delete_if_needed api policy) else pure tt) s)
        (given_up policy pods)
clean_pods-Deletes api CleanPodPolicy.unset pods s = Deletes-nil s tt
clean_pods-Deletes api CleanPodPolicy.running pods s =
    for_each-Deletes api CleanPodPolicy.running pods s
clean_pods-Deletes api CleanPodPolicy.all pods s = for_each-Deletes api CleanPodPolicy.all pods s
clean_pods-Deletes api CleanPodPolicy.keep pods s = Deletes-nil s tt

delete_pods_and_services-given_up :
    (api : Api) (pods : List Pod) (services : List Service) (s : State)
    → Deletes s
        (delete_pods_and_services api pods services s)
        (given_up s.job.spec.clean_pod_policy pods)
unfolding delete_pods_and_services
delete_pods_and_services-given_up api [] services s =
    rw (given_up-nil s.job.spec.clean_pod_policy) (Deletes-nil s tt)
delete_pods_and_services-given_up api (pod ∷ pods) services s =
    let first = for_each_service-Deletes api services s in
    Deletes-after (for_each services (delete_service api) s) _ (nothing_deleted first) (λ a e.
      rw first.effect.job_kept (
        clean_pods-Deletes api s.job.spec.clean_pod_policy (pod ∷ pods)
          (for_each services (delete_service api) s).1))

-- For a job that has ended, DeletePodsAndServices asks for the deletion of some of the pods, in order,
-- of all of these if it returns no error and else of the first few, and of no other pod. They are,
-- among those that are not being removed yet: under the policy All every pod; under Running those
-- that are running or pending and have no container that has ended or waits in CrashLoopBackOff; and
-- none under another policy. It creates no pod and leaves the job as it is.
pub delete_pods_and_services-Deletes :
    (api : Api) (pods : List Pod) (services : List Service) (s : State)
    → (gone : List Pod) × Picked (IsGivenUp s.job.spec.clean_pod_policy) pods gone
      × Deletes s (delete_pods_and_services api pods services s) gone
delete_pods_and_services-Deletes api pods services s = (
  given_up s.job.spec.clean_pod_policy pods,
  given_up-Picked s.job.spec.clean_pod_policy pods,
  delete_pods_and_services-given_up api pods services s,
)
