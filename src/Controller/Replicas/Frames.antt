-- ===== src/Controller/Replicas/Frames.antt =====
-- The parts of dijob.go that create and delete pods leave the job as it is, but for a failed
-- creation in buildAndCreatePods, which makes the job restart or fail.
use di_orchestrator.Base.{
  ℕ, suc, ◌+◌, ◌≡◌, ◌≢◌, ◌++◌, refl, sym, subst, ◌∙◌, ◌⊎◌, inl, inr, true, false, Bool, Option,
  none, some, List, [], ◌∷◌, replicate,
}
use di_orchestrator.Text.{Text, codes}
use di_orchestrator.Kube.{Pod}
use di_orchestrator.Job.{DiJob, Task, Phase}
use di_orchestrator.Machine.{
  State, Result, ok, err, panic, Error, Action, Api, after, caught, lift, pure,
}
use di_orchestrator.Status.{update_job_status_by_backoff_limit}
use di_orchestrator.Status.Phases.{Reaches, update_job_status_by_backoff_limit-Reaches}
use di_orchestrator.Pods.Build.{build_pod}
use di_orchestrator.Pods.Calls.{create_pod, delete_pods}
use di_orchestrator.Pods.Calls.Deletes.{create_pod-Effect, delete_pods_lem}
use di_orchestrator.Controller.Replicas.{
  or_crash, build_pods, give_up, create_built, build_and_create_pods, next_rank,
  find_max_global_rank, create_missing, create_missed, create_missed_replicas, local_trace,
  of_result,
}

pub after-job :
    {A B : Type 0} {job : DiJob} (out : Result A × State) (k : A → Action B)
    → out.1.job ≡ job
    → ((a : A) (t : State) → t.job ≡ job → (k a t).1.job ≡ job)
    → (after out k).1.job ≡ job
after-job (ok a, t) k e h = h a t e
after-job (err x, t) k e h = e
after-job (panic, t) k e h = e

next_rank-job :
    (pods : List Pod) (next : Option ℕ) (s : State) → (next_rank pods next s).1.job ≡ s.job
next_rank-job pods (some rank) s = refl
next_rank-job pods none s = go (find_max_global_rank pods)
  where
    go : (r : Error ⊎ ℕ) → (after (lift r s) (λ max. pure (max + 1))).1.job ≡ s.job
    go (inl e) = refl
    go (inr m) = refl

pub or_crash-job : {A : Type 0} (o : Option A) (s : State) → (or_crash o s).1.job ≡ s.job
or_crash-job none s = refl
or_crash-job (some a) s = refl

create_missing-job :
    (api : Api) (pods : List Pod) (allocation : List Text) (index i : ℕ) (trace : List Bool)
    (next : Option ℕ) (s : State)
    → (create_missing api pods allocation index i trace next s).1.job ≡ s.job
unfolding create_missing
create_missing-job api pods allocation index i [] next s = refl
create_missing-job api pods allocation index i (true ∷ trace) next s =
    create_missing-job api pods allocation index (suc i) trace next s
create_missing-job api pods allocation index i (false ∷ trace) next s =
    after-job (next_rank pods next s) _ (next_rank-job pods next s) (λ rank t e.
      after-job (or_crash (build_pod t.settings t.job rank allocation index i) t) _
        (or_crash-job _ t ∙ e)
        (λ pod u f.
          after-job (create_pod api pod u) _ ((create_pod-Effect api pod u).job_kept ∙ f) (λ x v g.
            create_missing-job api pods allocation index (suc i) trace (some (rank + 1)) v ∙ g)))

create_missed-job :
    (api : Api) (pods : List Pod) (allocation : List Text) (index : ℕ) (tasks : List Task)
    (next : Option ℕ) (s : State)
    → (create_missed api pods allocation index tasks next s).1.job ≡ s.job
unfolding create_missed
create_missed-job api pods allocation index [] next s = refl
create_missed-job api pods allocation index (task ∷ tasks) next s =
    after-job (of_result (local_trace task pods (replicate task.replicas false)) s) _ refl
      (λ trace t e.
        after-job (create_missing api pods allocation index 0 trace next t) _
          (create_missing-job api pods allocation index 0 trace next t ∙ e)
          (λ next' u f. create_missed-job api pods allocation (suc index) tasks next' u ∙ f))

pub create_missed_replicas-job :
    (api : Api) (pods : List Pod) (allocation : List Text) (s : State)
    → (create_missed_replicas api pods allocation s).1.job ≡ s.job
unfolding create_missed_replicas
create_missed_replicas-job api pods allocation s =
    create_missed-job api pods allocation 0 s.job.spec.tasks none s

-- The phase stays, or the job restarts or fails.
abbrev pub StaysOrFails : Phase → Phase → Type 0
StaysOrFails old new = (new ≡ old) ⊎ ((new ≡ Phase.restarting) ⊎ (new ≡ Phase.failed))

give_up-phase :
    (api : Api) (built : List Pod) (pod : Pod) (s : State)
    → ((give_up api built pod s).0 ≡ ok tt)
      × StaysOrFails s.job.status.phase (give_up api built pod s).1.job.status.phase
unfolding give_up
give_up-phase api built pod s =
    let msg = codes "pod " ++ pod.name ++ codes " failed to create." in
    let (phase, r, which) = update_job_status_by_backoff_limit-Reaches api msg s in
    go (update_job_status_by_backoff_limit api msg s) phase r which
  where
    go :
        (out : Result (Unit {0}) × State) (phase : Phase)
        → Reaches s out phase
        → (phase ≡ Phase.restarting) ⊎ (phase ≡ Phase.failed)
        → let last = after out (λ _. delete_pods api built) in
          (last.0 ≡ ok tt) × StaysOrFails s.job.status.phase last.1.job.status.phase
    go (ok a, t) phase r which =
        let (effect, done) = delete_pods_lem api built t in
        (
          done,
          subst (λ j. StaysOrFails s.job.status.phase j.status.phase) (sym effect.job_kept)
              (subst (StaysOrFails s.job.status.phase) (sym r.phase_now) (inr which)),
        )
    go (err e, t) phase r which = cc r.ends_ok
    go (panic, t) phase r which = cc r.ends_ok

create_built-phase :
    (api : Api) (built pods : List Pod) (s : State)
    → ((create_built api built pods s).0 ≡ ok tt)
      × StaysOrFails s.job.status.phase (create_built api built pods s).1.job.status.phase
unfolding create_built
create_built-phase api built [] s = (refl, inl refl)
create_built-phase api built (pod ∷ pods) s =
    go (create_pod api pod s) (create_pod-Effect api pod s).ends
      (create_pod-Effect api pod s).job_kept (λ t. give_up-phase api built pod t)
      (λ t. create_built-phase api built pods t)
  where
    Good : State → Action (Unit {0}) → Type 0
    Good t m = ((m t).0 ≡ ok tt) × StaysOrFails t.job.status.phase (m t).1.job.status.phase

    moved :
        {t : State} (m : Action (Unit {0}))
        → t.job ≡ s.job
        → Good t m
        → ((m t).0 ≡ ok tt) × StaysOrFails s.job.status.phase (m t).1.job.status.phase
    moved {t} m e h = (h.0, subst (λ j. StaysOrFails j.status.phase (m t).1.job.status.phase) e h.1)

    go :
        (out : Result (Unit {0}) × State)
        → out.0 ≢ panic
        → out.1.job ≡ s.job
        → ((t : State) → Good t (give_up api built pod))
        → ((t : State) → Good t (create_built api built pods))
        → let last =
            after (caught out) (λ r. elim r [
              | inr _ ↦ create_built api built pods
              | inl _ ↦ give_up api built pod
            ]) in
          (last.0 ≡ ok tt) × StaysOrFails s.job.status.phase last.1.job.status.phase
    go (ok a, t) ne e f g = moved (create_built api built pods) e (g t)
    go (err x, t) ne e f g = moved (give_up api built pod) e (f t)
    go (panic, t) ne e f g = absurd (ne refl)

-- buildAndCreatePods panics in its first loop and has changed nothing, or it returns no error, also
-- where a pod could not be created, and the job's phase has stayed or is Restarting or Failed.
pub build_and_create_pods-phase :
    (api : Api) (allocation : List Text) (s : State)
    → (build_and_create_pods api allocation s ≡ (panic, s))
      ⊎ (((build_and_create_pods api allocation s).0 ≡ ok tt)
          × StaysOrFails s.job.status.phase
              (build_and_create_pods api allocation s).1.job.status.phase)
unfolding build_and_create_pods
build_and_create_pods-phase api allocation s =
    go (build_pods s.settings s.job allocation 0 0 s.job.spec.tasks)
  where
    go :
        (o : Option (List Pod))
        → let last = after (or_crash o s) (λ built. create_built api built built) in
          (last ≡ (panic, s))
          ⊎ ((last.0 ≡ ok tt) × StaysOrFails s.job.status.phase last.1.job.status.phase)
    go none = inl refl
    go (some built) = inr (create_built-phase api built built s)
