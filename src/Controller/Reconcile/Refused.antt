-- ===== src/Controller/Reconcile/Refused.antt =====
-- pkg/controllers/dijob_controller.go: Reconcile, for a job that the validators refuse.
use di_orchestrator.Base.{Option, ◌≡◌, refl, sym, subst, ap, ◌∙◌, none, some, [], ◌∷◌}
use di_orchestrator.Job.{Phase}
use di_orchestrator.Machine.{
  Error, error_text, State, Result, ok, err, panic, Action, Api, after, attempt, pure,
}
use di_orchestrator.Machine.Poll.{PollLaw}
use di_orchestrator.Machine.Along.{
  bind-IsAlong, attempt-IsAlong, Adds-order, Adds, Adds-same, Adds-trans,
}
use di_orchestrator.Status.{update_job_status, failed_reason}
use di_orchestrator.Status.Phases.{Reaches, update_job_status-Reaches}
use di_orchestrator.Status.Cluster.{set_default_job_name_in_cluster, update_phase_in_cluster}
use di_orchestrator.Status.Cluster.Updates.{
  IsUpdate, update_phase_in_cluster-Updates, set_default_job_name_in_cluster-Adds,
}
use di_orchestrator.Utils.Validator.{task_type_name_validator, apply_validators}
use di_orchestrator.Controller.Reconcile.{ignore, refuse_job, reconcile_valid, reconcile_job}

refuse_job-Failed :
    (api : Api) (e : Error) (s : State)
    → PollLaw api
    → Adds IsUpdate s (refuse_job api e s).1
      × ((refuse_job api e s).1.job.status.phase ≡ Phase.failed)
unfolding refuse_job
refuse_job-Failed api e s law =
    go (update_job_status api Phase.failed failed_reason (error_text e) s)
      (update_job_status-Reaches api Phase.failed failed_reason (error_text e) s)
  where
    go :
        (out : Result (Unit {0}) × State)
        → Reaches s out Phase.failed
        → let last = after out (λ _ t. update_phase_in_cluster api s.job t.job t) in
          Adds IsUpdate s last.1 × (last.1.job.status.phase ≡ Phase.failed)
    go (ok a, t) r =
        let u = update_phase_in_cluster-Updates api s.job t.job t law in
        (Adds-trans (Adds-same r.calls_kept) u.0, ap (λ j. j.status.phase) u.1 ∙ r.phase_now)
    go (err x, t) r = cc r.ends_ok
    go (panic, t) r = cc r.ends_ok

-- If the validators refuse the job, once its tasks were given their default names, then Reconcile makes
-- no calls but reads and writes of the job and its status, and events: no pod and no service is created,
-- deleted or listed. The job becomes Failed.
pub reconcile_job_refused :
    (api : Api) (s t : State) (e : Error)
    → PollLaw api
    → ignore (set_default_job_name_in_cluster api) s ≡ (ok tt, t)
    → task_type_name_validator t.job ≡ some e
    → Adds IsUpdate s (reconcile_job api s).1
      × ((reconcile_job api s).1.job.status.phase ≡ Phase.failed)
unfolding reconcile_job apply_validators
reconcile_job_refused api s t e law named refused =
    let (added, failed) = refuse_job-Failed api e t law in
    (
      Adds-trans (subst (λ o. Adds IsUpdate s o.1) named (ignored s))
          (subst (λ o. Adds IsUpdate t o.1) (sym run) added),
      ap (λ o. o.1.job.status.phase) run ∙ failed,
    )
  where
    by_answer : Option Error → Action (Unit {0})
    by_answer o = elim o [ some e ↦ refuse_job api e | none ↦ reconcile_valid api ]

    next : Action (Unit {0})
    next u = by_answer (apply_validators (task_type_name_validator ∷ []) u.job) u

    ignored : (u : State) → Adds IsUpdate u (ignore (set_default_job_name_in_cluster api) u).1
    ignored u =
        bind-IsAlong (Adds-order IsUpdate) (attempt (set_default_job_name_in_cluster api))
          (λ r. pure tt)
          (attempt-IsAlong (Adds-order IsUpdate) (set_default_job_name_in_cluster api)
            (λ v. set_default_job_name_in_cluster-Adds api v law))
          (λ r v. Adds-same refl) u

    applied : apply_validators (task_type_name_validator ∷ []) t.job ≡ some e
    applied = rw (apply_validators, refused) refl

    run : reconcile_job api s ≡ refuse_job api e t
    run = ap (λ o. after o (λ _. next)) named ∙ ap (λ o. by_answer o t) applied
