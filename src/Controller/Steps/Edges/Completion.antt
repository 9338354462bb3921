-- ===== src/Controller/Steps/Edges/Completion.antt =====
-- The edges that checkPodsCompletion takes (pkg/controllers/dijob.go).
use di_orchestrator.Base.{
  ◌++◌, ◌≡◌, refl, sym, subst, ◌⊎◌, inl, inr, Bool, true, false, not, Bool-cases, List, ◌==◌, ◌&&◌,
  length, if◌then◌else◌,
}
use di_orchestrator.Text.{codes, itoa}
use di_orchestrator.Kube.{Pod}
use di_orchestrator.Job.{Phase}
use di_orchestrator.Machine.{State, Result, ok, err, panic, Action, Api, after, pure, ◌>>=◌}
use di_orchestrator.Utils.Pods.{count_completed_pods}
use di_orchestrator.Status.{succeeded_reason}
use di_orchestrator.Status.Phases.{
  update_job_status-Reaches, update_job_status_by_backoff_limit-Reaches,
}
use di_orchestrator.Controller.Checks.{
  check_all_pods_succeeded, check_pods_failed, check_pods_completion,
}
use di_orchestrator.Controller.Steps.Edges.{IsWorking, ◌⟶◌, succeed, restart, fail, Moves}

-- The check has ended the job, or has changed nothing.
abbrev Completes : Phase → State → Result Bool × State → Type 0
Completes p s out = ((out.0 ≡ ok true) × (p ⟶ out.1.job.status.phase)) ⊎ (out ≡ (ok false, s))

then_true :
    (p : Phase) (s : State) (out : Result (Unit {0}) × State)
    → out.0 ≡ ok tt
    → p ⟶ out.1.job.status.phase
    → Completes p s (after out (λ _. pure true))
then_true p s (ok a, t) e h = inl (refl, h)
then_true p s (err x, t) e h = cc e
then_true p s (panic, t) e h = cc e

all_succeeded-Completes :
    (api : Api) (pods : List Pod) (p : Phase) (s : State)
    → IsWorking p
    → Completes p s (check_all_pods_succeeded api pods s)
unfolding check_all_pods_succeeded
all_succeeded-Completes api pods p s w =
    let n = (count_completed_pods pods s.job.spec.preemptible).0 in
    elim (Bool-cases (not (n == 0) && n == length pods)) [
      | inl all ↦
          let r =
            update_job_status-Reaches api Phase.succeeded succeeded_reason
              (codes "job succeeded since all the replicas are succeeded.") s in
          rw all (then_true p s _ r.ends_ok (subst (λ q. p ⟶ q) (sym r.phase_now) (succeed w)))
      | inr some_left ↦ rw some_left (inr refl)
    ]

failed-Completes :
    (api : Api) (pods : List Pod) (p : Phase) (s : State)
    → IsWorking p
    → Completes p s (check_pods_failed api pods s)
unfolding check_pods_failed
failed-Completes api pods p s w =
    let n = (count_completed_pods pods s.job.spec.preemptible).1 in
    elim (Bool-cases (not (n == 0))) [
      | inl failed ↦
          let (phase, r, which) =
            update_job_status_by_backoff_limit-Reaches api (itoa n ++ codes " pods failed.") s in
          rw failed
            (then_true p s _ r.ends_ok (subst (λ q. p ⟶ q) (sym r.phase_now) (edge phase which)))
      | inr none_failed ↦ rw none_failed (inr refl)
    ]
  where
    edge : (phase : Phase) → (phase ≡ Phase.restarting) ⊎ (phase ≡ Phase.failed) → p ⟶ phase
    edge phase (inl e) = subst (λ q. p ⟶ q) (sym e) (restart w)
    edge phase (inr e) = subst (λ q. p ⟶ q) (sym e) (fail w)

completion-Completes :
    (api : Api) (pods : List Pod) (p : Phase) (s : State)
    → IsWorking p
    → Completes p s (check_pods_completion api pods s)
unfolding check_pods_completion
completion-Completes api pods p s w =
    go (check_all_pods_succeeded api pods s) (all_succeeded-Completes api pods p s w)
  where
    rest :
        (out : Result Bool × State)
        → out ≡ (ok false, s)
        → Completes p s
            (after out (λ ended. if ended then pure true else check_pods_failed api pods))
    rest out e =
        subst
          (λ o.
            Completes p s
              (after o (λ ended. if ended then pure true else check_pods_failed api pods)))
          (sym e) (failed-Completes api pods p s w)

    go :
        (out : Result Bool × State)
        → Completes p s out
        → Completes p s
            (after out (λ ended. if ended then pure true else check_pods_failed api pods))
    go (ok true, t) (inl h) = inl h
    go (ok false, t) (inl h) = cc h.0
    go (err x, t) (inl h) = cc h.0
    go (panic, t) (inl h) = cc h.0
    go (ok a, t) (inr e) = rest (ok a, t) e
    go (err x, t) (inr e) = rest (err x, t) e
    go (panic, t) (inr e) = rest (panic, t) e

-- What comes after the check, for a job that goes on.
pub checked-Moves :
    (api : Api) (pods : List Pod) (p : Phase) (k : Action (Unit {0}))
    → IsWorking p
    → Moves p k
    → Moves p (check_pods_completion api pods >>= λ ended. if ended then pure tt else k)
checked-Moves api pods p k w next s e =
    go (check_pods_completion api pods s) (completion-Completes api pods p s w)
  where
    rest :
        (out : Result Bool × State)
        → out ≡ (ok false, s)
        → p ⟶ (after out (λ ended. if ended then pure tt else k)).1.job.status.phase
    rest out f =
        subst (λ o. p ⟶ (after o (λ ended. if ended then pure tt else k)).1.job.status.phase)
          (sym f) (next s e)

    go :
        (out : Result Bool × State)
        → Completes p s out
        → p ⟶ (after out (λ ended. if ended then pure tt else k)).1.job.status.phase
    go (ok true, t) (inl h) = h.1
    go (ok false, t) (inl h) = cc h.0
    go (err x, t) (inl h) = cc h.0
    go (panic, t) (inl h) = cc h.0
    go (ok a, t) (inr f) = rest (ok a, t) f
    go (err x, t) (inr f) = rest (err x, t) f
    go (panic, t) (inr f) = rest (panic, t) f
