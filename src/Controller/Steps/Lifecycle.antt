-- ===== src/Controller/Steps/Lifecycle.antt =====
-- pkg/controllers/dijob.go, for a job that is not preemptible: the phases on the way to the end, when
-- the cluster does what it is asked.
pub mod Phases
pub mod Succeeds
pub mod Stored
pub mod Again
pub mod Emptied
pub mod Rebuilt
pub mod Resumed
pub mod Rescheduled
pub mod Listed
use di_orchestrator.Base.{
  ℕ, suc, ◌+◌, ◌<◌, ◌≡◌, ◌≢◌, refl, sym, subst, ap, ◌∙◌, Bool, true, false, not, ◌&&◌, inl, inr,
  List, [], ◌∷◌, ◌++◌, Option, none, some, arith, length, ◌==◌, All, if◌then◌else◌,
}
use di_orchestrator.Text.{Text}
use di_orchestrator.Kube.{Pod, PodPhase}
use di_orchestrator.Job.{DiJob, Phase}
use di_orchestrator.Machine.{State, Result, ok, err, panic, Action, Api, after, caught, pure, ◌>>=◌}
use di_orchestrator.Utils.Pods.{
  is_pod_terminating, count_scheduled_pods, count_ready_pods, count_completed_pods,
}
use di_orchestrator.Utils.Pods.Counts.{
  count_scheduled_pods-length, count_ready_pods-length, count_completed_pods-running,
  count_completed_pods-succeeded,
}
use di_orchestrator.Utils.Filters.{apply_filters, filter_pods, non_terminating_pod_filter}
use di_orchestrator.Status.{update_job_status, starting_reason}
use di_orchestrator.Status.Phases.{Reaches, update_job_status-Reaches}
use di_orchestrator.Pods.Build.{total_replicas}
use di_orchestrator.Pods.Calls.{create_pod}
use di_orchestrator.Pods.Calls.Deletes.{Effect, Effect-trans, same-Effect, create_pod-Effect}
use di_orchestrator.Controller.Replicas.{
  build_pods, create_built, give_up, build_and_create_pods, or_crash,
}
use di_orchestrator.Controller.Replicas.Built.{
  Stand, Slot, slots, build_pods_lem, length-Stand, length-slots,
}
use di_orchestrator.Controller.Replicas.Filled.{IsAccepting, create_pod-ok}
use di_orchestrator.Controller.Checks.{
  update_status_replicas, check_all_pods_succeeded, check_pods_failed, check_pods_completion,
  detect_reschedule,
}
use di_orchestrator.Controller.Steps.{
  on_pending, by_phase, reconcile_with_job_status, all_created_msg,
}
use di_orchestrator.Controller.Steps.Crash.{update_status_replicas-Kept}

-- The reconciliation ended well, in this phase, with the specification as it was.
pub record Gets (phase : Phase) (s : State) (out : Result (Unit {0}) × State) : Type 0 where
  pub ends_ok : out.0 ≡ ok tt
  pub phase_now : out.1.job.status.phase ≡ phase
  pub spec_kept : out.1.job.spec ≡ s.job.spec

-- The state in which the phase is looked at.
abbrev pub counted : List Pod → State → State
counted pods s = record s {
  job = update_status_replicas pods (total_replicas s.job.spec.tasks) s.job;
}

abbrev pub live : List Pod → List Pod
live pods = filter_pods pods (non_terminating_pod_filter ∷ [])

-- What a reconciliation does for a job in a phase that is known.
pub reconcile-by_phase :
    (api : Api) (pods : List Pod) (s : State) (p : Phase) (preemptible : Bool)
    → s.job.status.phase ≡ p
    → s.job.spec.preemptible ≡ preemptible
    → reconcile_with_job_status api pods s
      ≡ by_phase api p preemptible pods
          (live pods)
          (total_replicas s.job.spec.tasks)
          s.job.status.allocation
          (counted pods s)
unfolding reconcile_with_job_status
reconcile-by_phase api pods s p preemptible e f =
    let n = total_replicas s.job.spec.tasks in
    let k = update_status_replicas-Kept pods n s.job in
    let job = update_status_replicas pods n s.job in
    ap
      (λ q.
        by_phase api q job.spec.preemptible pods (live pods) n s.job.status.allocation
          (counted pods s))
      (k.phase_kept ∙ e)
    ∙ ap (λ b. by_phase api p b pods (live pods) n s.job.status.allocation (counted pods s))
        (ap (λ x. x.preemptible) k.spec_kept ∙ f)

pub Reaches-Gets :
    {phase : Phase} (pods : List Pod) (s : State) {out : Result (Unit {0}) × State}
    → Reaches (counted pods s) out phase
    → Gets phase s out
Reaches-Gets pods s r = record {
  ends_ok = r.ends_ok;
  phase_now = r.phase_now;
  spec_kept =
      r.spec_kept
      ∙ (update_status_replicas-Kept pods (total_replicas s.job.spec.tasks) s.job).spec_kept;
}

-- Pods of which none is being removed.
abbrev pub IsStanding : Pod → Type 0
IsStanding p = p.deletion_timestamp ≡ none

terminating-IsStanding : (p : Pod) → IsStanding p → is_pod_terminating p ≡ false
unfolding is_pod_terminating
terminating-IsStanding p e = rw e refl

pub live-IsStanding : (pods : List Pod) → All IsStanding pods → live pods ≡ pods
unfolding filter_pods apply_filters non_terminating_pod_filter
live-IsStanding [] h = refl
live-IsStanding (p ∷ pods) h =
    rw (terminating-IsStanding p h.0) (ap (λ l. p ∷ l) (live-IsStanding pods h.1))

pub none_zero : (n : ℕ) → 0 < n → (n == 0) ≡ false
none_zero n h = ground arith

pub same : (n : ℕ) → (n == n) ≡ true
same n = ground arith

-- What a reconciliation does for a pending job, preemptible or not.
pub reconcile-on_pending :
    (api : Api) (pods : List Pod) (s : State)
    → s.job.status.phase ≡ Phase.pending
    → reconcile_with_job_status api pods s
      ≡ on_pending api pods
          (live pods)
          (total_replicas s.job.spec.tasks)
          s.job.status.allocation
          (counted pods s)
unfolding by_phase
reconcile-on_pending api pods s e = reconcile-by_phase api pods s Phase.pending _ e refl

module _ (api : Api) (pods : List Pod) (s : State) (p : s.job.status.phase ≡ Phase.pending)
    (some_asked : 0 < total_replicas s.job.spec.tasks) (standing : All IsStanding pods)
    (all : length pods ≡ total_replicas s.job.spec.tasks) where
  -- Pending, with all the pods there: the job starts.
  reconcile-starts :
      reconcile_with_job_status api pods s
      ≡ update_job_status api Phase.starting starting_reason all_created_msg (counted pods s)
  unfolding on_pending
  reconcile-starts =
      reconcile-on_pending api pods s p
      ∙ rw
          (
            live-IsStanding pods standing,
            all,
            none_zero (total_replicas s.job.spec.tasks) some_asked,
            same (total_replicas s.job.spec.tasks),
          )
          refl

  pub pending-Gets : Gets Phase.starting s (reconcile_with_job_status api pods s)
  pending-Gets =
      rw reconcile-starts
        (Reaches-Gets pods s (update_job_status-Reaches api Phase.starting _ _ (counted pods s)))

  -- That reconciliation asks the cluster for nothing.
  pub pending-quiet : (reconcile_with_job_status api pods s).1.calls ≡ s.calls
  pending-quiet =
      rw reconcile-starts
        (update_job_status-Reaches api Phase.starting _ _ (counted pods s)).calls_kept
