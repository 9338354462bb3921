-- ===== src/Controller/Steps/Lifecycle/Phases.antt =====
-- pkg/controllers/dijob.go: a job that starts and runs, with all its pods up or done.
use di_orchestrator.Base.{
  ◌<◌, ◌≡◌, refl, ap, ◌∙◌, Bool, true, false, List, [], ◌∷◌, length, All, if◌then◌else◌,
}
use di_orchestrator.Kube.{Pod, PodPhase}
use di_orchestrator.Job.{Phase}
use di_orchestrator.Machine.{State, Result, ok, err, panic, Action, Api, after, pure}
use di_orchestrator.Utils.Pods.{count_scheduled_pods, count_ready_pods, count_completed_pods}
use di_orchestrator.Utils.Pods.Counts.{
  count_scheduled_pods-length, count_ready_pods-length, count_completed_pods-running,
  count_completed_pods-succeeded,
}
use di_orchestrator.Status.Phases.{Reaches, update_job_status-Reaches}
use di_orchestrator.Pods.Build.{total_replicas}
use di_orchestrator.Controller.Checks.{
  check_all_pods_succeeded, check_pods_failed, check_pods_completion,
}
use di_orchestrator.Controller.Steps.{on_starting, on_running, by_phase, reconcile_with_job_status}
use di_orchestrator.Controller.Steps.Lifecycle.{
  Gets, counted, reconcile-by_phase, Reaches-Gets, IsStanding, live-IsStanding, none_zero, same,
}

-- Pods that run, each with one condition that says it is scheduled and one ready container.
abbrev pub IsUp : Pod → Type 0
IsUp p =
    IsStanding p
    × (p.status.phase ≡ PodPhase.running)
    × (count_scheduled_pods (p ∷ []) ≡ 1)
    × (count_ready_pods (p ∷ []) ≡ 1)

All-map :
    {P Q : Pod → Type 0} → ((p : Pod) → P p → Q p) → (pods : List Pod) → All P pods → All Q pods
All-map f [] h = tt
All-map f (p ∷ pods) h = (f p h.0, All-map f pods h.1)

completion-none :
    (api : Api) (pods : List Pod) (s : State)
    → count_completed_pods pods s.job.spec.preemptible ≡ (0, 0)
    → check_pods_completion api pods s ≡ (ok false, s)
unfolding check_pods_completion
completion-none api pods s e =
    ap (λ out. after out (λ ended. if ended then pure true else check_pods_failed api pods))
      (none_over api pods s e)
    ∙ none_failed api pods s e
  where
    none_over :
        (api : Api) (pods : List Pod) (s : State)
        → count_completed_pods pods s.job.spec.preemptible ≡ (0, 0)
        → check_all_pods_succeeded api pods s ≡ (ok false, s)
    none_over api pods s e = rw (check_all_pods_succeeded, e) refl

    none_failed :
        (api : Api) (pods : List Pod) (s : State)
        → count_completed_pods pods s.job.spec.preemptible ≡ (0, 0)
        → check_pods_failed api pods s ≡ (ok false, s)
    none_failed api pods s e = rw (check_pods_failed, e) refl

-- Starting, with all the pods up.
pub starting-Gets :
    (api : Api) (pods : List Pod) (s : State)
    → s.job.status.phase ≡ Phase.starting
    → s.job.spec.preemptible ≡ false
    → All IsUp pods
    → length pods ≡ total_replicas s.job.spec.tasks
    → Gets Phase.running s (reconcile_with_job_status api pods s)
unfolding by_phase on_starting
starting-Gets api pods s p fixed up all =
    let n = total_replicas s.job.spec.tasks in
    rw
      (
        reconcile-by_phase api pods s Phase.starting false p fixed,
        live-IsStanding pods (All-map (λ q h. h.0) pods up),
        completion-none api pods (counted pods s)
            (count_completed_pods-running pods _ (All-map (λ q h. h.1) pods up)),
        count_scheduled_pods-length pods (All-map (λ q h. h.2) pods up),
        count_ready_pods-length pods (All-map (λ q h. h.3) pods up),
        all,
        same n,
      )
      (Reaches-Gets pods s (update_job_status-Reaches api Phase.running _ _ (counted pods s)))

-- After the update that ends a job nothing more is done.
ended-Gets :
    {phase : Phase} (pods : List Pod) (s : State) (out : Result (Unit {0}) × State)
    (failed : Action Bool) (rest : Action (Unit {0}))
    → Reaches (counted pods s) out phase
    → Gets phase s (
        after
          (after (after out (λ _. pure true)) (λ e. if e then pure true else failed))
          (λ e. if e then pure tt else rest))
ended-Gets pods s (ok a, t) failed rest r = Reaches-Gets pods s (record r { ends_ok = refl })
ended-Gets pods s (err x, t) failed rest r = cc r.ends_ok
ended-Gets pods s (panic, t) failed rest r = cc r.ends_ok

-- Running, with all the pods done.
pub running-Gets :
    (api : Api) (pods : List Pod) (s : State)
    → s.job.status.phase ≡ Phase.running
    → s.job.spec.preemptible ≡ false
    → 0 < total_replicas s.job.spec.tasks
    → All (λ p. IsStanding p × (p.status.phase ≡ PodPhase.succeeded)) pods
    → length pods ≡ total_replicas s.job.spec.tasks
    → Gets Phase.succeeded s (reconcile_with_job_status api pods s)
unfolding by_phase on_running check_pods_completion check_all_pods_succeeded
running-Gets api pods s p fixed asked over all =
    let n = total_replicas s.job.spec.tasks in
    rw
      (
        reconcile-by_phase api pods s Phase.running false p fixed,
        live-IsStanding pods (All-map (λ q h. h.0) pods over),
        count_completed_pods-succeeded pods (counted pods s).job.spec.preemptible
            (All-map (λ q h. h.1) pods over),
        all,
        none_zero n asked,
        same n,
      )
      (ended-Gets pods s _ _ _ (update_job_status-Reaches api Phase.succeeded _ _ (counted pods s)))
