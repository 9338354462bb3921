-- ===== src/Controller/Steps/Restarts/Reconciled.antt =====
-- reconcileWithJobStatus (pkg/controllers/dijob.go) makes a job restart only if it has restarts left.
use di_orchestrator.Base.{
  ℕ, inl, Bool, true, false, not, List, [], ◌∷◌, ltb, ◌==◌, length, if◌then◌else◌, Option,
}
use di_orchestrator.Text.{Text}
use di_orchestrator.Kube.{Pod}
use di_orchestrator.Job.{Phase}
use di_orchestrator.Machine.{State, Api, pure}
use di_orchestrator.Utils.Pods.{count_scheduled_pods, count_ready_pods}
use di_orchestrator.Utils.Filters.{filter_pods, terminating_pod_filter, non_terminating_pod_filter}
use di_orchestrator.Pods.Calls.{delete_pods}
use di_orchestrator.Pods.Build.{total_replicas}
use di_orchestrator.Controller.Replicas.{
  or_crash, build_and_create_pods, delete_redundant_replicas, create_missed_replicas,
  delete_failed_replicas,
}
use di_orchestrator.Controller.Replicas.Deletes.{
  delete_failed_replicas-Deletes, delete_redundant_replicas-job,
}
use di_orchestrator.Controller.Replicas.Frames.{or_crash-job, create_missed_replicas-job}
use di_orchestrator.Controller.Checks.{
  check_all_pods_succeeded, check_pods_failed, check_pods_completion, detect_reschedule,
  update_status_replicas,
}
use di_orchestrator.Controller.Steps.{
  on_pending, on_starting, on_running, on_restarting, on_rescheduling, by_phase,
  reconcile_with_job_status,
}
use di_orchestrator.Controller.Steps.Crash.{update_status_replicas-Kept}
use di_orchestrator.Controller.Steps.Restarts.{
  Tame, Tame-trans, IsTame, pure-IsTame, kept-IsTame, bind-IsTame, if-IsTame, update-IsTame,
  backoff-IsTame, delete_pods-IsTame, build-IsTame,
}

completion-IsTame : (api : Api) (pods : List Pod) → IsTame (check_pods_completion api pods)
unfolding check_pods_completion check_all_pods_succeeded check_pods_failed
completion-IsTame api pods =
    bind-IsTame (check_all_pods_succeeded api pods)
      (λ ended. if ended then pure true else check_pods_failed api pods)
      (λ s.
        if-IsTame _ _ _
          (bind-IsTame _ _ (update-IsTame api Phase.succeeded _ _ (λ e. cc))
            (λ x. pure-IsTame true))
          (pure-IsTame false) s)
      (λ ended. if-IsTame ended _ _ (pure-IsTame true) (λ s.
        if-IsTame _ _ _ (bind-IsTame _ _ (backoff-IsTame api _) (λ x. pure-IsTame true))
          (pure-IsTame false) s))

on_pending-IsTame :
    (api : Api) (total pods : List Pod) (replicas : ℕ) (allocation : List Text)
    → IsTame (on_pending api total pods replicas allocation)
unfolding on_pending
on_pending-IsTame api total pods replicas allocation =
    if-IsTame (replicas == 0) _ _ (pure-IsTame tt) (
      if-IsTame (length total == 0) _ _ (build-IsTame api allocation) (
        if-IsTame (length pods == replicas) _ _ (update-IsTame api Phase.starting _ _ (λ e. cc)) (
          if-IsTame (not (length pods == length total)) _ _ (delete_pods-IsTame api total)
            (pure-IsTame tt))))

crash-IsTame : {A : Type 0} (o : Option A) → IsTame (or_crash o)
crash-IsTame o = kept-IsTame (or_crash o) (or_crash-job o)

on_starting-IsTame :
    (api : Api) (pods : List Pod) (replicas : ℕ) (allocation : List Text)
    → IsTame (on_starting api pods replicas allocation)
unfolding on_starting
on_starting-IsTame api pods replicas allocation =
    bind-IsTame (check_pods_completion api pods) _ (completion-IsTame api pods) (λ ended.
      if-IsTame ended (pure tt) _ (pure-IsTame tt) (λ s.
        bind-IsTame
          (if not (count_scheduled_pods pods == replicas)
            then or_crash (detect_reschedule s.job pods allocation replicas)
            else pure false)
          _
          (if-IsTame (not (count_scheduled_pods pods == replicas)) _ _ (crash-IsTame _)
            (pure-IsTame false))
          (λ moved. if-IsTame moved _ _ (update-IsTame api Phase.rescheduling _ _ (λ e. cc)) (
            if-IsTame (count_ready_pods pods == replicas) _ _
              (update-IsTame api Phase.running _ _ (λ e. cc)) (pure-IsTame tt)))
          s))

on_running-IsTame :
    (api : Api) (pods : List Pod) (replicas : ℕ) (allocation : List Text)
    → IsTame (on_running api pods replicas allocation)
unfolding on_running
on_running-IsTame api pods replicas allocation =
    bind-IsTame (check_pods_completion api pods) _ (completion-IsTame api pods) (λ ended.
      if-IsTame ended (pure tt) _ (pure-IsTame tt) (λ s.
        bind-IsTame (or_crash (detect_reschedule s.job pods allocation replicas)) _ (crash-IsTame _)
          (λ moved.
            if-IsTame moved _ _ (update-IsTame api Phase.rescheduling _ _ (λ e. cc))
              (pure-IsTame tt))
          s))

on_restarting-IsTame :
    (api : Api) (pods : List Pod) (replicas : ℕ) (allocation : List Text)
    → IsTame (on_restarting api pods replicas allocation)
unfolding on_restarting
on_restarting-IsTame api pods replicas allocation =
    if-IsTame (ltb replicas (length pods)) _ _
      (kept-IsTame (delete_redundant_replicas api pods) (delete_redundant_replicas-job api pods))
      (if-IsTame (ltb (length pods) replicas) _ _
        (kept-IsTame (create_missed_replicas api pods allocation)
          (create_missed_replicas-job api pods allocation))
        (bind-IsTame (delete_failed_replicas api pods) _
          (kept-IsTame (delete_failed_replicas api pods)
            (λ s. (delete_failed_replicas-Deletes api pods s).0.effect.job_kept))
          (λ all_ready.
            if-IsTame all_ready _ _ (update-IsTame api Phase.starting _ _ (λ e. cc))
              (pure-IsTame tt))))

on_rescheduling-IsTame :
    (api : Api) (preemptible : Bool) (total pods : List Pod) (replicas : ℕ) (allocation : List Text)
    → IsTame (on_rescheduling api preemptible total pods replicas allocation)
unfolding on_rescheduling
on_rescheduling-IsTame api true total pods replicas allocation =
    if-IsTame (not (length pods == 0)) _ _ (delete_pods-IsTame api pods) (
      bind-IsTame (build_and_create_pods api allocation) _ (build-IsTame api allocation)
        (λ x. update-IsTame api Phase.starting _ _ (λ e. cc)))
on_rescheduling-IsTame api false total pods replicas allocation =
    if-IsTame (ltb replicas (length pods)) _ _
      (kept-IsTame (delete_redundant_replicas api pods) (delete_redundant_replicas-job api pods))
      (if-IsTame (ltb (length pods) replicas) _ _
        (bind-IsTame (delete_pods api (filter_pods total (terminating_pod_filter ∷ []))) _
          (delete_pods-IsTame api _)
          (λ x.
            kept-IsTame (create_missed_replicas api pods allocation)
              (create_missed_replicas-job api pods allocation)))
        (if-IsTame (replicas == 0) _ _ (update-IsTame api Phase.pending _ _ (λ e. cc))
          (update-IsTame api Phase.starting _ _ (λ e. cc))))

by_phase-IsTame :
    (api : Api) (p : Phase) (preemptible : Bool) (total pods : List Pod) (replicas : ℕ)
    (allocation : List Text)
    → IsTame (by_phase api p preemptible total pods replicas allocation)
unfolding by_phase
by_phase-IsTame api Phase.pending preemptible total pods replicas allocation =
    on_pending-IsTame api total pods replicas allocation
by_phase-IsTame api Phase.starting preemptible total pods replicas allocation =
    on_starting-IsTame api pods replicas allocation
by_phase-IsTame api Phase.running preemptible total pods replicas allocation =
    on_running-IsTame api pods replicas allocation
by_phase-IsTame api Phase.restarting preemptible total pods replicas allocation =
    on_restarting-IsTame api pods replicas allocation
by_phase-IsTame api Phase.rescheduling preemptible total pods replicas allocation =
    on_rescheduling-IsTame api preemptible total pods replicas allocation
by_phase-IsTame api _ preemptible total pods replicas allocation = pure-IsTame tt

-- One run of reconcileWithJobStatus keeps the job's specification and its counter of restarts, and
-- brings the job from another phase into Restarting only if it has restarts left.
pub reconcile_with_job_status-Tame :
    (api : Api) (pods : List Pod) (s : State)
    → Tame s.job (reconcile_with_job_status api pods s).1.job
unfolding reconcile_with_job_status
reconcile_with_job_status-Tame api pods s =
    let replicas = total_replicas s.job.spec.tasks in
    let job = update_status_replicas pods replicas s.job in
    let k = update_status_replicas-Kept pods replicas s.job in
    Tame-trans
      (record { spec_kept = k.spec_kept; restarts_kept = k.restarts_kept; gate = inl k.phase_kept })
      (by_phase-IsTame api job.status.phase job.spec.preemptible pods
        (filter_pods pods (non_terminating_pod_filter ∷ [])) replicas s.job.status.allocation
        (record s { job = job }))
