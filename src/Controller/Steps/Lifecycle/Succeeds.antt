-- ===== src/Controller/Steps/Lifecycle/Succeeds.antt =====
-- pkg/controllers/dijob.go: a job that is not preemptible, from its first reconciliation to the last.
use di_orchestrator.Base.{
  ℕ, suc, ◌<◌, ◌≡◌, refl, sym, subst, ap, ◌∙◌, false, ◌⊎◌, inr, List, [], ◌∷◌, ◌++◌, length, All,
}
use di_orchestrator.Text.{Text}
use di_orchestrator.Kube.{Pod, PodPhase}
use di_orchestrator.Job.{DiJob, DiJobSpec, Phase}
use di_orchestrator.Machine.{Error, State, Result, ok, err, panic, Action, Api, after, caught}
use di_orchestrator.Machine.Log.{created_pods}
use di_orchestrator.Pods.Build.{total_replicas}
use di_orchestrator.Pods.Calls.{create_pod}
use di_orchestrator.Pods.Calls.Deletes.{Effect, Effect-trans, same-Effect, create_pod-Effect}
use di_orchestrator.Controller.Replicas.{create_built, build_and_create_pods}
use di_orchestrator.Controller.Replicas.Built.{
  Stand, Slot, slots, build_pods_lem, length-Stand, length-slots,
}
use di_orchestrator.Controller.Replicas.Filled.{IsAccepting, create_pod-ok}
use di_orchestrator.Controller.Steps.{on_pending, by_phase, reconcile_with_job_status}
use di_orchestrator.Controller.Steps.Crash.{update_status_replicas-Kept}
use di_orchestrator.Controller.Steps.Lifecycle.Phases.{IsUp, starting-Gets, running-Gets}
use di_orchestrator.Controller.Steps.Lifecycle.{
  Gets, counted, reconcile-by_phase, IsStanding, none_zero, pending-Gets,
}

-- A cluster that accepts every pod is asked for all of them, and nothing else is done.
record Created (s : State) (out : Result (Unit {0}) × State) (new : List Pod) : Type 0 where
  ends_ok : out.0 ≡ ok tt
  effect : Effect s out new []

Created-cons :
    {s : State} {pod : Pod} {pods : List Pod} (out : Result (Unit {0}) × State)
    (k : Error ⊎ Unit {0} → Action (Unit {0}))
    → out.0 ≡ ok tt
    → Effect s out (pod ∷ []) []
    → ((t : State) → Created t (k (inr tt) t) pods)
    → Created s (after (caught out) k) (pod ∷ pods)
Created-cons (ok a, t) k e effect rest =
    let c = rest t in record { ends_ok = c.ends_ok; effect = Effect-trans effect c.effect }
Created-cons (err x, t) k e effect rest = cc
Created-cons (panic, t) k e effect rest = cc

create_built-Created :
    (api : Api) (built pods : List Pod) (s : State)
    → IsAccepting api
    → Created s (create_built api built pods s) pods
unfolding create_built
create_built-Created api built [] s accepts = record {
  ends_ok = refl;
  effect = same-Effect s (ok tt) (λ e. cc);
}
create_built-Created api built (pod ∷ pods) s accepts =
    Created-cons (create_pod api pod s) _ (create_pod-ok api pod s accepts)
      (create_pod-Effect api pod s) (λ t. create_built-Created api built pods t accepts)

pub Stand-IsStanding :
    (job : DiJob) (allocation : List Text) (rank : ℕ) (ss : List Slot) (new : List Pod)
    → Stand job allocation rank ss new
    → All IsStanding new
Stand-IsStanding job allocation rank [] [] h = tt
Stand-IsStanding job allocation rank [] (_ ∷ _) h = absurd h
Stand-IsStanding job allocation rank (_ ∷ _) [] h = absurd h
Stand-IsStanding job allocation rank ((task, i) ∷ ss) (pod ∷ pods) h =
    (h.0.new, Stand-IsStanding job allocation (suc rank) ss pods h.1)

-- The first reconciliation, where there is no pod.
record Begun (s : State) (out : Result (Unit {0}) × State) : Type 0 where
  gets : Gets Phase.pending s out
  new : List Pod
  created : created_pods out.1.calls ≡ created_pods s.calls ++ new
  all : length new ≡ total_replicas s.job.spec.tasks
  standing : All IsStanding new

reconcile-Begun :
    (api : Api) (s : State)
    → IsAccepting api
    → s.job.status.phase ≡ Phase.pending
    → s.job.spec.preemptible ≡ false
    → 0 < total_replicas s.job.spec.tasks
    → Begun s (reconcile_with_job_status api [] s)
unfolding by_phase on_pending build_and_create_pods
reconcile-Begun api s accepts p fixed asked =
    let n = total_replicas s.job.spec.tasks in
    let t = counted [] s in
    let k = update_status_replicas-Kept [] n s.job in
    let unplaced : t.job.spec.preemptible ≡ false = ap (λ x. x.preemptible) k.spec_kept ∙ fixed in
    let (new, built, stand) = build_pods_lem t.settings t.job s.job.status.allocation (λ e. cc) in
    let c = create_built-Created api new new t accepts in
    rw (reconcile-by_phase api [] s Phase.pending false p fixed, none_zero n asked, built)
      (record {
        gets = record {
          ends_ok = c.ends_ok;
          phase_now = ap (λ j. j.status.phase) c.effect.job_kept ∙ (k.phase_kept ∙ p);
          spec_kept = ap (λ j. j.spec) c.effect.job_kept ∙ k.spec_kept;
        };
        new = new;
        created = c.effect.created_now;
        all =
            length-Stand t.job s.job.status.allocation 0 (slots t.job.spec.tasks) new stand
            ∙ (length-slots t.job.spec.tasks ∙ ap (λ x. total_replicas x.tasks) k.spec_kept);
        standing =
            Stand-IsStanding t.job s.job.status.allocation 0 (slots t.job.spec.tasks) new stand;
      })

-- A job that is pending, not preemptible and asks for a replica or more, on a cluster that accepts
-- every pod: its first reconciliation, with no pod there, creates as many pods as it asks for replicas.
-- Then, from one to the next, a reconciliation with those pods makes it Starting; one with as many
-- pods, each of them running, with exactly one condition that says it is scheduled and exactly one ready
-- container, makes it Running; and one with as many pods that have all succeeded makes it Succeeded. No
-- pod is being removed, and each reconciliation returns no error.
pub reconcile_with_job_status-Succeeds :
    (api : Api) (s : State) (up over : List Pod)
    → IsAccepting api
    → s.job.status.phase ≡ Phase.pending
    → s.job.spec.preemptible ≡ false
    → 0 < total_replicas s.job.spec.tasks
    → All IsUp up
    → length up ≡ total_replicas s.job.spec.tasks
    → All (λ p. IsStanding p × (p.status.phase ≡ PodPhase.succeeded)) over
    → length over ≡ total_replicas s.job.spec.tasks
    → let first = reconcile_with_job_status api [] s in
      (new : List Pod) × (created_pods first.1.calls ≡ created_pods s.calls ++ new)
      × (length new ≡ total_replicas s.job.spec.tasks)
      × (let second = reconcile_with_job_status api new first.1 in
          let third = reconcile_with_job_status api up second.1 in
          let fourth = reconcile_with_job_status api over third.1 in
          Gets Phase.pending s first
          × Gets Phase.starting first.1 second
          × Gets Phase.running second.1 third
          × Gets Phase.succeeded third.1 fourth)
reconcile_with_job_status-Succeeds api s up over accepts p fixed asked are_up all_up are_over
      all_over =
    let b = reconcile-Begun api s accepts p fixed asked in
    let first = (reconcile_with_job_status api [] s).1 in
    let spec1 = b.gets.spec_kept in
    let g2 =
      pending-Gets api b.new first b.gets.phase_now
        (subst (λ x. 0 < total_replicas x.tasks) (sym spec1) asked) b.standing
        (b.all ∙ asks spec1) in
    let second = (reconcile_with_job_status api b.new first).1 in
    let spec2 = g2.spec_kept ∙ spec1 in
    let g3 =
      starting-Gets api up second g2.phase_now (unmoved spec2) are_up (all_up ∙ asks spec2) in
    let third = (reconcile_with_job_status api up second).1 in
    let spec3 = g3.spec_kept ∙ spec2 in
    let g4 =
      running-Gets api over third g3.phase_now (unmoved spec3)
        (subst (λ x. 0 < total_replicas x.tasks) (sym spec3) asked) are_over
        (all_over ∙ asks spec3) in
    (b.new, b.created, b.all, (b.gets, g2, g3, g4))
  where
    unmoved : {x : DiJobSpec} → x ≡ s.job.spec → x.preemptible ≡ false
    unmoved e = ap (λ x. x.preemptible) e ∙ fixed

    asks :
        {x : DiJobSpec} → x ≡ s.job.spec → total_replicas s.job.spec.tasks ≡ total_replicas x.tasks
    asks e = ap (λ x. total_replicas x.tasks) (sym e)
