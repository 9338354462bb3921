-- ===== src/Controller/Steps/Crash.antt =====
-- A preemptible job with fewer allocated nodes than replicas stops the operator.
use di_orchestrator.Base.{
  ℕ, ◌<◌, ◌≡◌, refl, sym, ap, ◌∙◌, Bool, Bool-cases, inl, inr, true, false, List, [], ◌∷◌, arith,
  length, ◌==◌,
}
use di_orchestrator.Text.{Text}
use di_orchestrator.Kube.{Pod}
use di_orchestrator.Job.{DiJob, DiJobStatus, Phase}
use di_orchestrator.Machine.{State, Api, panic}
use di_orchestrator.Pods.Build.{total_replicas}
use di_orchestrator.Controller.Replicas.{build_and_create_pods}
use di_orchestrator.Controller.Replicas.Built.{build_pods_short}
use di_orchestrator.Utils.Filters.{filter_pods}
use di_orchestrator.Controller.Checks.{update_status_replicas, count_replicas, count_allocated}
use di_orchestrator.Controller.Steps.{on_pending, reconcile_with_job_status}

-- Counting the replicas changes no other part of the job.
pub record Kept (old new : DiJob) : Type 0 where
  pub namespace_kept : new.namespace ≡ old.namespace
  pub name_kept : new.name ≡ old.name
  pub spec_kept : new.spec ≡ old.spec
  pub phase_kept : new.status.phase ≡ old.status.phase
  pub restarts_kept : new.status.restarts ≡ old.status.restarts
  pub allocation_kept : new.status.allocation ≡ old.status.allocation
  pub conditions_kept : new.status.conditions ≡ old.status.conditions

count_replicas-phase :
    (preemptible : Bool) (pods : List Pod) (n : ℕ) (st : DiJobStatus)
    → let new = count_replicas preemptible pods n st in
      (new.phase ≡ st.phase)
      × (new.restarts ≡ st.restarts)
      × (new.conditions ≡ st.conditions)
      × (new.allocation ≡ st.allocation)
count_replicas-phase false pods n st = (refl, refl, refl, refl)
count_replicas-phase true pods n st = go st.allocation refl
  where
    go :
        (a : List Text)
        → st.allocation ≡ a
        → let new = count_allocated pods st a in
          (new.phase ≡ st.phase)
          × (new.restarts ≡ st.restarts)
          × (new.conditions ≡ st.conditions)
          × (new.allocation ≡ st.allocation)
    go [] e = (refl, refl, refl, sym e)
    go (_ ∷ _) e = (refl, refl, refl, refl)

pub update_status_replicas-Kept :
    (pods : List Pod) (n : ℕ) (job : DiJob) → Kept job (update_status_replicas pods n job)
unfolding update_status_replicas
update_status_replicas-Kept pods n job =
    let h = count_replicas-phase job.spec.preemptible pods n job.status in
    record {
      namespace_kept = refl;
      name_kept = refl;
      spec_kept = refl;
      phase_kept = h.0;
      restarts_kept = h.1;
      allocation_kept = h.3;
      conditions_kept = h.2;
    }

pub build_and_create_pods_short :
    (api : Api) (allocation : List Text) (s : State)
    → s.job.spec.preemptible ≡ true
    → length allocation < total_replicas s.job.spec.tasks
    → build_and_create_pods api allocation s ≡ (panic, s)
unfolding build_and_create_pods
build_and_create_pods_short api allocation s p short =
    rw (build_pods_short s.settings s.job allocation p short)

on_pending_short :
    (api : Api) (allocation : List Text) (s : State)
    → s.job.spec.preemptible ≡ true
    → length allocation < total_replicas s.job.spec.tasks
    → on_pending api [] [] (total_replicas s.job.spec.tasks) allocation s ≡ (panic, s)
unfolding on_pending
on_pending_short api allocation s p short =
    elim (Bool-cases (total_replicas s.job.spec.tasks == 0)) [
      | inl empty ↦ absurd (ground arith)
      | inr some_pods ↦ rw some_pods (build_and_create_pods_short api allocation s p short)
    ]

-- A pending preemptible job that has no pod yet and fewer allocated nodes than replicas makes
-- reconcileWithJobStatus panic before it makes a call to the cluster.
pub reconcile_with_job_status_short :
    (api : Api) (s : State)
    → s.job.status.phase ≡ Phase.pending
    → s.job.spec.preemptible ≡ true
    → length s.job.status.allocation < total_replicas s.job.spec.tasks
    → ((reconcile_with_job_status api [] s).0 ≡ panic)
      × ((reconcile_with_job_status api [] s).1.calls ≡ s.calls)
unfolding reconcile_with_job_status update_status_replicas filter_pods
reconcile_with_job_status_short api s phase p short =
    let job = update_status_replicas [] (total_replicas s.job.spec.tasks) s.job in
    let k = update_status_replicas-Kept [] (total_replicas s.job.spec.tasks) s.job in
    let at : job.status.phase ≡ Phase.pending = k.phase_kept ∙ phase in
    let crash =
      on_pending_short api s.job.status.allocation (record s { job = job }) p
        (rw k.spec_kept short) in
    rw at (ap (λ out. out.0) crash, ap (λ out. out.1.calls) crash)
