-- ===== src/Pods/Removal/Laws.antt =====
-- What CleanUpJob and WaitForAllReplicas have done once they return no error.
use di_orchestrator.Base.{
  Option, none, subst, ◌≡◌, refl, ap, ◌∙◌, List, [], ◌∷◌, ◌++◌, map, All, ◌≤◌, length, inr,
}
use di_orchestrator.Kube.{Pod, PodPhase, Service}
use di_orchestrator.Job.{DiJob}
use di_orchestrator.Machine.{Error, State, ok, Action, Api, Call, for_each, ◌>>=◌, ◌>>◌}
use di_orchestrator.Pods.Calls.{list_job_pods, list_job_services, options_for}
use di_orchestrator.Pods.Removal.{
  clean_up_job, send_delete_job, send_delete_pod, send_delete_service,
}
use di_orchestrator.Pods.Removal.Made.{
  Made-trans, send-Made, Accepted, send-accepted, for_each-Accepted, for_each-Made, chained,
  list_job_pods-Listed, list_job_services-Listed,
}

abbrev pod_calls : Api → Pod → List Call → Option Error
pod_calls api pod calls = api.delete_pod calls pod

abbrev service_calls : Api → Service → List Call → Option Error
service_calls api svc calls = api.delete_service calls svc

-- What a clean-up of a job has done: the calls it made, the two lists that it was given, each asked
-- for after the calls before it, and the cluster's answers to the deletions: no error.
pub record CleanedUp (api : Api) (s t : State) : Type 0 where
  pub pods : List Pod
  pub services : List Service
  pub removals : List Call
  pub removals_are :
      removals
      ≡ Call.delete_job s.job ∷ Call.list_pods (options_for s.job) ∷ map Call.delete_pod pods
  pub calls_now :
      t.calls
      ≡ s.calls
        ++ (removals ++ Call.list_services (options_for s.job) ∷ map Call.delete_service services)
  pub pods_listed :
      api.list_pods (s.calls ++ Call.delete_job s.job ∷ []) (options_for s.job) ≡ inr pods
  pub services_listed : api.list_services (s.calls ++ removals) (options_for s.job) ≡ inr services
  pub job_accepted : api.delete_job s.calls s.job ≡ none
  pub pods_accepted :
      Accepted Call.delete_pod
        (pod_calls api)
        pods
        (s.calls ++ Call.delete_job s.job ∷ Call.list_pods (options_for s.job) ∷ [])
  pub services_accepted :
      Accepted Call.delete_service
        (service_calls api)
        services
        (s.calls ++ (removals ++ Call.list_services (options_for s.job) ∷ []))

-- If CleanUpJob returns no error, it has asked the cluster to delete the job, then listed the job's pods
-- and asked for the deletion of each of them, then listed the job's services and asked for the deletion
-- of each of them; it has made no other call, and the cluster has accepted each of these deletions.
pub clean_up_job-CleanedUp :
    (api : Api) (s : State)
    → (clean_up_job api s).0 ≡ ok tt
    → CleanedUp api s (clean_up_job api s).1
unfolding clean_up_job
clean_up_job-CleanedUp api s e =
    let c0 = chained (send_delete_job api s) (λ _. remove_pods) tt e in
    let s1 = (send_delete_job api s).1 in
    let m0 =
      send-Made (Call.delete_job s.job) (λ calls. api.delete_job calls s.job) s c0.first_ok in
    let c1 = chained (list_job_pods api s1) remove_each tt c0.rest_ok in
    let s2 = (list_job_pods api s1).1 in
    let pods = c1.value in
    let m1 = list_job_pods-Listed api s1 pods s.job m0.job_kept c1.first_ok in
    let c2 =
      chained (for_each pods (send_delete_pod api) s2) (λ _. remove_services) tt c1.rest_ok in
    let s3 = (for_each pods (send_delete_pod api) s2).1 in
    let m2 =
      for_each-Made Call.delete_pod (λ pod calls. api.delete_pod calls pod) pods s2 c2.first_ok in
    let made = Made-trans m0 (Made-trans m1.made m2) in
    let c3 = chained (list_job_services api s3) remove_each_service tt c2.rest_ok in
    let s4 = (list_job_services api s3).1 in
    let m3 = list_job_services-Listed api s3 c3.value s.job made.job_kept c3.first_ok in
    let m4 =
      for_each-Made Call.delete_service (λ svc calls. api.delete_service calls svc) c3.value s4
        c3.rest_ok in
    let run = c0.rest_is ∙ (c1.rest_is ∙ (c2.rest_is ∙ c3.rest_is)) in
    record {
      pods = pods;
      services = c3.value;
      removals = _;
      removals_are = refl;
      calls_now = ap (λ out. out.1.calls) run ∙ (Made-trans made (Made-trans m3.made m4)).calls_now;
      pods_listed = rw m0.calls_now at m1.answered;
      services_listed = rw made.calls_now at m3.answered;
      job_accepted =
          send-accepted (Call.delete_job s.job) (λ calls. api.delete_job calls s.job) s c0.first_ok;
      pods_accepted =
          subst (Accepted Call.delete_pod (pod_calls api) pods) (Made-trans m0 m1.made).calls_now
            (for_each-Accepted Call.delete_pod (pod_calls api) pods s2 c2.first_ok);
      services_accepted =
          subst (Accepted Call.delete_service (service_calls api) c3.value)
            (Made-trans made m3.made).calls_now
            (for_each-Accepted Call.delete_service (service_calls api) c3.value s4 c3.rest_ok);
    }
  where
    remove_each_service : List Service → Action (Unit {0})
    remove_each_service svcs = for_each svcs (send_delete_service api)

    remove_services : Action (Unit {0})
    remove_services = list_job_services api >>= remove_each_service

    remove_each : List Pod → Action (Unit {0})
    remove_each pods = for_each pods (send_delete_pod api) >> remove_services

    remove_pods : Action (Unit {0})
    remove_pods = list_job_pods api >>= remove_each

-- The last call listed the job's pods, and the answer was two or more, all of them in the phase.
pub record AllThere (api : Api) (phase : PodPhase) (t : State) : Type 0 where
  pub before : List Call
  pub job : DiJob
  pub pods : List Pod
  pub calls_now : t.calls ≡ before ++ Call.list_pods (options_for job) ∷ []
  pub listed : api.list_pods before (options_for job) ≡ inr pods
  pub several : 2 ≤ length pods
  pub in_phase : All (λ p. p.status.phase ≡ phase) pods
