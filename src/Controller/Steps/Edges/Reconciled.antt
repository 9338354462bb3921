-- ===== src/Controller/Steps/Edges/Reconciled.antt =====
-- The edges that each phase takes, and reconcileWithJobStatus as a whole
-- (pkg/controllers/dijob.go).
use di_orchestrator.Base.{
  ℕ, ◌≡◌, refl, sym, subst, ap, ◌∙◌, ◌⊎◌, inl, inr, Bool, true, false, not, List, [], ◌∷◌, ltb,
  ◌==◌, length, if◌then◌else◌,
}
use di_orchestrator.Text.{Text}
use di_orchestrator.Kube.{Pod}
use di_orchestrator.Job.{Phase}
use di_orchestrator.Machine.{State, Result, ok, err, panic, Action, Api, after, pure, ◌>>◌}
use di_orchestrator.Utils.Pods.{count_scheduled_pods, count_ready_pods}
use di_orchestrator.Utils.Filters.{filter_pods, terminating_pod_filter, non_terminating_pod_filter}
use di_orchestrator.Status.{update_job_status, starting_reason, rescheduling_reason}
use di_orchestrator.Status.Phases.{update_job_status-Reaches}
use di_orchestrator.Pods.Calls.{delete_pods}
use di_orchestrator.Pods.Calls.Deletes.{delete_pods_lem}
use di_orchestrator.Pods.Build.{total_replicas}
use di_orchestrator.Controller.Replicas.{
  or_crash, build_and_create_pods, delete_redundant_replicas, create_missed_replicas,
  delete_failed_replicas,
}
use di_orchestrator.Controller.Replicas.Deletes.{
  delete_failed_replicas-Deletes, delete_redundant_replicas-job,
}
use di_orchestrator.Controller.Replicas.Frames.{
  StaysOrFails, or_crash-job, build_and_create_pods-phase, create_missed_replicas-job,
}
use di_orchestrator.Controller.Checks.{detect_reschedule, update_status_replicas}
use di_orchestrator.Controller.Steps.{
  on_pending, on_starting, on_running, on_restarting, on_rescheduling, by_phase,
  reconcile_with_job_status, all_created_msg,
}
use di_orchestrator.Controller.Steps.Crash.{update_status_replicas-Kept}
use di_orchestrator.Controller.Steps.Edges.{
  IsWorking, create, create_again, create_failed, starting_works, running_works, ◌⟶◌, stay,
  reschedule, run, restarted, rescheduled, emptied, Moves, pure-Moves, job-Moves, update-Moves,
  if-Moves, delete_pods-Moves, bind-Moves,
}
use di_orchestrator.Controller.Steps.Edges.Completion.{checked-Moves}

build-Moves :
    (api : Api) (allocation : List Text)
    → Moves Phase.pending (build_and_create_pods api allocation)
build-Moves api allocation s e = elim (build_and_create_pods-phase api allocation s) [
  | inl crash ↦
      subst (λ q. Phase.pending ⟶ q) (sym (ap (λ out. out.1.job.status.phase) crash ∙ e)) stay
  | inr (done, inl same) ↦ subst (λ q. Phase.pending ⟶ q) (sym (same ∙ e)) stay
  | inr (done, inr (inl again)) ↦ subst (λ q. Phase.pending ⟶ q) (sym again) create_again
  | inr (done, inr (inr failed)) ↦ subst (λ q. Phase.pending ⟶ q) (sym failed) create_failed
]

on_pending-Moves :
    (api : Api) (total pods : List Pod) (replicas : ℕ) (allocation : List Text)
    → Moves Phase.pending (on_pending api total pods replicas allocation)
unfolding on_pending
on_pending-Moves api total pods replicas allocation =
    if-Moves Phase.pending (replicas == 0) _ _ (pure-Moves Phase.pending) (
      if-Moves Phase.pending (length total == 0) _ _ (build-Moves api allocation) (
        if-Moves Phase.pending (length pods == replicas) _ _
          (update-Moves api Phase.pending Phase.starting starting_reason all_created_msg create)
          (if-Moves Phase.pending (not (length pods == length total)) _ _
            (delete_pods-Moves api Phase.pending total) (pure-Moves Phase.pending))))

reschedule-Moves :
    (api : Api) (p : Phase) (msg : Text)
    → IsWorking p
    → (b : Bool) → (rest : Action (Unit {0})) → Moves p rest
    → Moves p (if b then update_job_status api Phase.rescheduling rescheduling_reason msg else rest)
reschedule-Moves api p msg w b rest next =
    if-Moves p b _ rest
      (update-Moves api p Phase.rescheduling rescheduling_reason msg (reschedule w)) next

on_running-Moves :
    (api : Api) (pods : List Pod) (replicas : ℕ) (allocation : List Text)
    → Moves Phase.running (on_running api pods replicas allocation)
unfolding on_running
on_running-Moves api pods replicas allocation =
    checked-Moves api pods Phase.running _ running_works (λ s e.
      let scan = detect_reschedule s.job pods allocation replicas in
      bind-Moves Phase.running (or_crash scan) _ (or_crash-job scan)
        (λ moved.
          reschedule-Moves api Phase.running _ running_works moved (pure tt)
            (pure-Moves Phase.running))
        s e)

if-job :
    {A : Type 0} (b : Bool) (m n : Action A) (s : State)
    → (m s).1.job ≡ s.job
    → (n s).1.job ≡ s.job
    → ((if b then m else n) s).1.job ≡ s.job
if-job true m n s h k = h
if-job false m n s h k = k

on_starting-Moves :
    (api : Api) (pods : List Pod) (replicas : ℕ) (allocation : List Text)
    → Moves Phase.starting (on_starting api pods replicas allocation)
unfolding on_starting
on_starting-Moves api pods replicas allocation =
    checked-Moves api pods Phase.starting _ starting_works (λ s e.
      let scan = detect_reschedule s.job pods allocation replicas in
      bind-Moves Phase.starting
        (if not (count_scheduled_pods pods == replicas) then or_crash scan else pure false) _
        (λ t.
          if-job (not (count_scheduled_pods pods == replicas)) (or_crash scan) (pure false) t
            (or_crash-job scan t) refl)
        (λ moved. reschedule-Moves api Phase.starting _ starting_works moved _ (
          if-Moves Phase.starting (count_ready_pods pods == replicas) _ _
            (update-Moves api Phase.starting Phase.running _ _ run) (pure-Moves Phase.starting)))
        s e)

on_restarting-Moves :
    (api : Api) (pods : List Pod) (replicas : ℕ) (allocation : List Text)
    → Moves Phase.restarting (on_restarting api pods replicas allocation)
unfolding on_restarting
on_restarting-Moves api pods replicas allocation =
    if-Moves Phase.restarting (ltb replicas (length pods)) _ _
      (job-Moves Phase.restarting (delete_redundant_replicas api pods)
        (delete_redundant_replicas-job api pods))
      (if-Moves Phase.restarting (ltb (length pods) replicas) _ _
        (job-Moves Phase.restarting (create_missed_replicas api pods allocation)
          (create_missed_replicas-job api pods allocation))
        (bind-Moves Phase.restarting (delete_failed_replicas api pods) _
          (λ s. (delete_failed_replicas-Deletes api pods s).0.effect.job_kept)
          (λ all_ready.
            if-Moves Phase.restarting all_ready _ _
              (update-Moves api Phase.restarting Phase.starting _ _ restarted)
              (pure-Moves Phase.restarting))))

recreated-Moves :
    (api : Api) (allocation : List Text)
    → Moves Phase.rescheduling (
        build_and_create_pods api allocation
        >> update_job_status api Phase.starting starting_reason all_created_msg)
recreated-Moves api allocation s e =
    go (build_and_create_pods api allocation s) (build_and_create_pods-phase api allocation s)
  where
    go :
        (out : Result (Unit {0}) × State)
        → (out ≡ (panic, s))
          ⊎ ((out.0 ≡ ok tt) × StaysOrFails s.job.status.phase out.1.job.status.phase)
        → Phase.rescheduling
          ⟶ (after out (λ _.
              update_job_status api Phase.starting starting_reason
                all_created_msg)).1.job.status.phase
    go (ok a, t) h =
        subst (λ q. Phase.rescheduling ⟶ q)
          (sym
            (update_job_status-Reaches api Phase.starting starting_reason all_created_msg
              t).phase_now)
          rescheduled
    go (err x, t) (inl h) = cc h
    go (err x, t) (inr h) = cc h.0
    go (panic, t) (inl h) =
        subst (λ q. Phase.rescheduling ⟶ q) (sym (ap (λ out. out.1.job.status.phase) h ∙ e)) stay
    go (panic, t) (inr h) = cc h.0

on_rescheduling-Moves :
    (api : Api) (preemptible : Bool) (total pods : List Pod) (replicas : ℕ) (allocation : List Text)
    → Moves Phase.rescheduling (on_rescheduling api preemptible total pods replicas allocation)
unfolding on_rescheduling
on_rescheduling-Moves api true total pods replicas allocation =
    if-Moves Phase.rescheduling (not (length pods == 0)) _ _
      (delete_pods-Moves api Phase.rescheduling pods) (recreated-Moves api allocation)
on_rescheduling-Moves api false total pods replicas allocation =
    if-Moves Phase.rescheduling (ltb replicas (length pods)) _ _
      (job-Moves Phase.rescheduling (delete_redundant_replicas api pods)
        (delete_redundant_replicas-job api pods))
      (if-Moves Phase.rescheduling (ltb (length pods) replicas) _ _
        (bind-Moves Phase.rescheduling
          (delete_pods api (filter_pods total (terminating_pod_filter ∷ []))) _
          (λ s.
            (delete_pods_lem api (filter_pods total (terminating_pod_filter ∷ [])) s).0.job_kept)
          (λ _.
            job-Moves Phase.rescheduling (create_missed_replicas api pods allocation)
              (create_missed_replicas-job api pods allocation)))
        (if-Moves Phase.rescheduling (replicas == 0) _ _
          (update-Moves api Phase.rescheduling Phase.pending _ _ emptied)
          (update-Moves api Phase.rescheduling Phase.starting _ _ rescheduled)))

by_phase-Moves :
    (api : Api) (p : Phase) (preemptible : Bool) (total pods : List Pod) (replicas : ℕ)
    (allocation : List Text)
    → Moves p (by_phase api p preemptible total pods replicas allocation)
unfolding by_phase
by_phase-Moves api Phase.pending preemptible total pods replicas allocation =
    on_pending-Moves api total pods replicas allocation
by_phase-Moves api Phase.starting preemptible total pods replicas allocation =
    on_starting-Moves api pods replicas allocation
by_phase-Moves api Phase.running preemptible total pods replicas allocation =
    on_running-Moves api pods replicas allocation
by_phase-Moves api Phase.restarting preemptible total pods replicas allocation =
    on_restarting-Moves api pods replicas allocation
by_phase-Moves api Phase.rescheduling preemptible total pods replicas allocation =
    on_rescheduling-Moves api preemptible total pods replicas allocation
by_phase-Moves api Phase.unset preemptible total pods replicas allocation = pure-Moves Phase.unset
by_phase-Moves api Phase.succeeded preemptible total pods replicas allocation =
    pure-Moves Phase.succeeded
by_phase-Moves api Phase.failed preemptible total pods replicas allocation = pure-Moves Phase.failed
by_phase-Moves api Phase.unknown preemptible total pods replicas allocation =
    pure-Moves Phase.unknown

-- Whatever the pods and the cluster's answers are, and however it ends, one run of
-- reconcileWithJobStatus keeps the job's phase or takes one edge of the state machine `⟶`.
pub reconcile_with_job_status-⟶ :
    (api : Api) (pods : List Pod) (s : State)
    → s.job.status.phase ⟶ (reconcile_with_job_status api pods s).1.job.status.phase
unfolding reconcile_with_job_status
reconcile_with_job_status-⟶ api pods s =
    let replicas = total_replicas s.job.spec.tasks in
    let job = update_status_replicas pods replicas s.job in
    subst (λ p. p ⟶ (reconcile_with_job_status api pods s).1.job.status.phase)
      (update_status_replicas-Kept pods replicas s.job).phase_kept
      (by_phase-Moves api job.status.phase job.spec.preemptible pods
        (filter_pods pods (non_terminating_pod_filter ∷ [])) replicas s.job.status.allocation
        (record s { job = job }) refl)
