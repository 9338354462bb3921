-- ===== src/Controller/Steps/Edges.antt =====
-- The state machine of a job: the edges that one reconciliation can take, and how an action moves
-- along them.
pub mod Completion
pub mod Reconciled
use di_orchestrator.Base.{
  ℕ, ◌++◌, ◌≡◌, refl, sym, subst, ap, ◌∙◌, ◌⊎◌, inl, inr, Bool, true, false, not, Bool-cases, List,
  [], ◌∷◌, ltb, ◌==◌, ◌&&◌, length, if◌then◌else◌,
}
use di_orchestrator.Text.{Text, codes, itoa}
use di_orchestrator.Kube.{Pod}
use di_orchestrator.Job.{Phase}
use di_orchestrator.Machine.{State, Result, ok, err, panic, Action, Api, after, pure, ◌>>=◌, ◌>>◌}
use di_orchestrator.Utils.Pods.{count_scheduled_pods, count_ready_pods, count_completed_pods}
use di_orchestrator.Utils.Filters.{filter_pods, terminating_pod_filter, non_terminating_pod_filter}
use di_orchestrator.Status.{
  update_job_status, starting_reason, succeeded_reason, rescheduling_reason,
}
use di_orchestrator.Status.Phases.{
  update_job_status-Reaches, update_job_status_by_backoff_limit-Reaches,
}
use di_orchestrator.Pods.Calls.{delete_pods}
use di_orchestrator.Pods.Calls.Deletes.{delete_pods_lem}
use di_orchestrator.Pods.Build.{total_replicas}
use di_orchestrator.Controller.Replicas.{
  or_crash, build_and_create_pods, delete_redundant_replicas, create_missed_replicas,
  delete_failed_replicas,
}
use di_orchestrator.Controller.Replicas.Deletes.{
  delete_failed_replicas-Deletes, delete_redundant_replicas-job,
}
use di_orchestrator.Controller.Replicas.Frames.{
  StaysOrFails, or_crash-job, build_and_create_pods-phase, create_missed_replicas-job,
}
use di_orchestrator.Controller.Checks.{
  check_all_pods_succeeded, check_pods_failed, check_pods_completion, detect_reschedule,
  update_status_replicas,
}
use di_orchestrator.Controller.Steps.{
  on_pending, on_starting, on_running, on_restarting, on_rescheduling, by_phase,
  reconcile_with_job_status, all_created_msg,
}
use di_orchestrator.Controller.Steps.Crash.{update_status_replicas-Kept}

pub data IsWorking : Phase → Type 0 where
  starting_works : IsWorking Phase.starting
  running_works : IsWorking Phase.running

infix 40 ◌⟶◌
pub data ◌⟶◌ : Phase → Phase → Type 0 where
  stay : {p : Phase} → p ⟶ p
  create : Phase.pending ⟶ Phase.starting
  create_again : Phase.pending ⟶ Phase.restarting
  create_failed : Phase.pending ⟶ Phase.failed
  succeed : {p : Phase} → IsWorking p → p ⟶ Phase.succeeded
  restart : {p : Phase} → IsWorking p → p ⟶ Phase.restarting
  fail : {p : Phase} → IsWorking p → p ⟶ Phase.failed
  reschedule : {p : Phase} → IsWorking p → p ⟶ Phase.rescheduling
  run : Phase.starting ⟶ Phase.running
  restarted : Phase.restarting ⟶ Phase.starting
  rescheduled : Phase.rescheduling ⟶ Phase.starting
  emptied : Phase.rescheduling ⟶ Phase.pending

-- An action moves a job that is in the phase `p` along an edge, however it ends.
abbrev pub Moves : {A : Type 0} → Phase → Action A → Type 0
Moves p m = (s : State) → s.job.status.phase ≡ p → p ⟶ (m s).1.job.status.phase

pub pure-Moves : (p : Phase) → Moves p (pure tt)
pure-Moves p s e = subst (λ q. p ⟶ q) (sym e) stay

pub job-Moves :
    {A : Type 0} (p : Phase) (m : Action A) → ((s : State) → (m s).1.job ≡ s.job) → Moves p m
job-Moves p m kept s e = subst (λ q. p ⟶ q) (sym (ap (λ j. j.status.phase) (kept s) ∙ e)) stay

pub update-Moves :
    (api : Api) (p q : Phase) (reason msg : Text)
    → p ⟶ q
    → Moves p (update_job_status api q reason msg)
update-Moves api p q reason msg edge s e =
    subst (λ r. p ⟶ r) (sym (update_job_status-Reaches api q reason msg s).phase_now) edge

pub if-Moves :
    {A : Type 0} (p : Phase) (b : Bool) (m n : Action A)
    → Moves p m
    → Moves p n
    → Moves p (if b then m else n)
if-Moves p true m n h k = h
if-Moves p false m n h k = k

pub delete_pods-Moves : (api : Api) (p : Phase) (pods : List Pod) → Moves p (delete_pods api pods)
delete_pods-Moves api p pods =
    job-Moves p (delete_pods api pods) (λ s. (delete_pods_lem api pods s).0.job_kept)

-- A first part that keeps the job, and a rest that moves it.
pub bind-Moves :
    {A B : Type 0} (p : Phase) (m : Action A) (k : A → Action B)
    → ((s : State) → (m s).1.job ≡ s.job)
    → ((a : A) → Moves p (k a))
    → Moves p (m >>= k)
bind-Moves {A} {B} p m k kept next s e = go (m s) (ap (λ j. j.status.phase) (kept s) ∙ e)
  where
    go :
        (out : Result A × State) → out.1.job.status.phase ≡ p → p ⟶ (after out k).1.job.status.phase
    go (ok a, t) f = next a t f
    go (err x, t) f = subst (λ q. p ⟶ q) (sym f) stay
    go (panic, t) f = subst (λ q. p ⟶ q) (sym f) stay
